-- ===== src/Archives.antt =====
-- Zip archives: sharedlib/zip.go of conductor-and-worker, over the programs zip and unzip of the host.
mod Tests
use aws_demo.Base.{
  zero, suc, ◌≡◌, Bool, true, false, List, [], ◌∷◌, ◌++◌, Option, none, some, Result, ok, err,
  if◌then◌else◌,
}
use aws_demo.Text.{Text, codes, contains}
use aws_demo.Worker.{CommandResult, exited, not_run}
use aws_demo.Host.{Host, M, pure, fail, ◌>>=◌, ◌>>◌, try, ask, require, found}
use aws_demo.Host.Paths.{dir}

pub data ZipError : Type 0 where
  source_unknown source_not_directory destination_unresolved parent_not_made : ZipError
  old_not_removed directory_not_made bytes_not_written leftovers_not_removed : ZipError
  zip_failed unzip_failed entry_escapes : CommandResult → ZipError

abbrev pub succeeded : CommandResult → Bool
succeeded (exited zero output) = true
succeeded (exited (suc code) output) = false
succeeded not_run = false

-- What a command printed, if it ran.
abbrev pub combined_output : CommandResult → Text
combined_output (exited code output) = output
combined_output not_run = []

module _ {W : Type 0} (host : Host W) where
  abbrev pub zipped : CommandResult × W → Result ZipError (Unit {0}) × W
  zipped (result, w) = if succeeded result then (ok tt, w) else (err (zip_failed result), w)

  -- ZipDirectory
  unfoldable pub zip_directory : Text → Text → M W ZipError (Unit {0})
  zip_directory source_dir destination = do
    is_dir ← ask source_unknown (λ w. host.stat w source_dir)
    require source_not_directory (λ w. is_dir)
    path ← ask destination_unresolved (λ w. host.abs w destination)
    try parent_not_made (λ w. host.make_all w (dir path))
    λ w. zipped (host.command w source_dir (codes "zip" ∷ codes "-r" ∷ path ∷ codes "." ∷ []))

  -- The error of a failed unzip, once its directory could be removed.
  abbrev pub unzip_error : CommandResult → ZipError
  unzip_error result =
      if contains (combined_output result) (codes "skipped")
      then entry_escapes result
      else unzip_failed result

  abbrev pub cleaned : CommandResult → Bool × W → Result ZipError (Unit {0}) × W
  cleaned result (true, w) = (err (unzip_error result), w)
  cleaned result (false, w) = (err leftovers_not_removed, w)

  -- What follows unzip into a directory.
  abbrev pub unzipped : Text → CommandResult × W → Result ZipError (Unit {0}) × W
  unzipped path (result, w) = elim (succeeded result) [
    | true ↦ (ok tt, w)
    | false ↦ cleaned result (host.remove_all w path)
  ]

  abbrev pub unzip_command : Text → List Text
  unzip_command path = codes "unzip" ∷ codes "-o" ∷ (path ++ codes ".zip") ∷ codes "-d" ∷ path ∷ []

  -- UnzipBytesToDirectory
  unfoldable pub unzip_bytes_to_directory : Text → Text → M W ZipError (Unit {0})
  unzip_bytes_to_directory bytes destination = do
    try old_not_removed (λ w. host.remove_all w destination)
    try directory_not_made (λ w. host.make_all w destination)
    path ← ask destination_unresolved (λ w. host.abs w destination)
    try bytes_not_written (λ w. host.write_file w (path ++ codes ".zip") bytes)
    λ w. unzipped path (host.command w [] (unzip_command path))
