-- ===== src/Conductor/Directories/Tests.antt =====
-- The paths of two workers, and the instance of the theorem on them.
use aws_demo.Base.{◌≡◌, ◌≢◌, refl, Bool, true, false}
use aws_demo.Text.{Text, codes, text_eq, text_eq_iff}
use aws_demo.Host.Joining.{clean, join}
use aws_demo.Host.Joining.Last.{no_slash, IsPlain}
use aws_demo.Server.Upload.{uploaded_worker_files_extraction_dir}
use aws_demo.Conductor.Directories.{AreApart, worker_files-AreApart}

abbrev ada : Text
ada = codes "ada-Zz09_-ABcd"

abbrev bob : Text
bob = codes "bob-ABcdEF0123"

extracts :
    uploaded_worker_files_extraction_dir (codes "/conductor/run") ada
    ≡ codes "/conductor/run/filetransfer/ada-Zz09_-ABcd-results"
unfolding uploaded_worker_files_extraction_dir join clean text_eq
extracts = refl

told_apart : text_eq ada bob ≡ false
unfolding text_eq
told_apart = refl

contrary : (b : Bool) → b ≡ false → b ≢ true
contrary b h k = absurd (cc (h, k))

different : ada ≢ bob
different e = contrary (text_eq ada bob) told_apart ((text_eq_iff ada bob).1 e)

ada-IsPlain : IsPlain ada
unfolding no_slash text_eq
ada-IsPlain = record { one = refl; some_text = refl; not_here = refl; not_up = refl }

bob-IsPlain : IsPlain bob
unfolding no_slash text_eq
bob-IsPlain = record { one = refl; some_text = refl; not_here = refl; not_up = refl }

worker_files-AreApart_example : AreApart (codes "/conductor/run") ada bob
worker_files-AreApart_example =
    worker_files-AreApart (codes "/conductor/run") ada bob ada-IsPlain bob-IsPlain different
