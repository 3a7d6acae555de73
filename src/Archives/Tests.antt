-- ===== src/Archives/Tests.antt =====
-- Archives on the host of a few files, and on one whose unzip fails.
use aws_demo.Base.{◌≡◌, refl, [], ◌∷◌, ok, err}
use aws_demo.Text.{codes, text_eq, contains, has_prefix}
use aws_demo.Worker.{exited}
use aws_demo.Host.{Host}
use aws_demo.Host.Sample.{Files, disk, files}
use aws_demo.Archives.{source_not_directory, entry_escapes, zip_directory, unzip_bytes_to_directory}

zips_no_file :
    (zip_directory disk (codes "db.sqlite") (codes "db.zip") files).0 ≡ err source_not_directory
unfolding zip_directory text_eq
zips_no_file = refl

unzips : (unzip_bytes_to_directory disk (80 ∷ []) (codes "d") files).0 ≡ ok tt
unfolding unzip_bytes_to_directory
unzips = refl

-- A host whose unzip leaves an entry out.
abbrev careful : Host Files
careful = record disk { command = λ w directory words. (exited 1 (codes "skipped ../x"), w) }

rejects :
    (unzip_bytes_to_directory careful (80 ∷ []) (codes "d") files).0
    ≡ err (entry_escapes (exited 1 (codes "skipped ../x")))
unfolding unzip_bytes_to_directory contains has_prefix
rejects = refl
