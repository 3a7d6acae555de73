-- ===== src/Conductor/Directories.antt =====
-- Where the conductor keeps the files of its workers: file-transfer.go and prepare-spawn.go of
-- conductor-and-worker/conductor/go-conductor.
mod Tests
use mathlib.Core.List.{append-nil, append_cancel_left, append_cancel_right}
use aws_demo.Base.{
  ◌<◌, ◌≡◌, ◌≢◌, refl, sym, ap, ◌∙◌, true, false, [], ◌∷◌, ◌++◌, length, length-append, Bool-cases,
  inl, inr, ◌==◌, arith,
}
use aws_demo.Text.{Text, codes, is_empty, text_eq, text_eq_iff}
use aws_demo.Host.Joining.{join}
use aws_demo.Host.Joining.Last.{no_slash, IsPlain, join-last}
use aws_demo.Conductor.{worker_prepared_work_files_dir}
use aws_demo.Server.{file_transfer_dir_name, worker_zip_file_path}
use aws_demo.Server.Upload.{uploaded_worker_files_extraction_dir}

no_slash-append : (a b : Text) → no_slash a ≡ true → no_slash b ≡ true → no_slash (a ++ b) ≡ true
unfolding no_slash
no_slash-append [] b h k = k
no_slash-append (c ∷ a) b h k = elim (Bool-cases (c == b'/')) [
  | inl e ↦ absurd (cc (rw e at h))
  | inr e ↦ rw e (no_slash-append a b (rw e at h) k)
]

-- A text that is longer is another one.
text_eq-shorter : (s t : Text) → length t < length s → text_eq s t ≡ false
text_eq-shorter s t lt = elim (Bool-cases (text_eq s t)) [
  | inl e ↦ absurd (omega (arith, lt, ap length ((text_eq_iff s t).0 e)))
  | inr e ↦ e
]

is_empty-longer : (s : Text) → 0 < length s → is_empty s ≡ false
is_empty-longer [] lt = absurd (omega (arith, lt))
is_empty-longer (c ∷ s) lt = refl

-- A name with an end that is long enough.
IsPlain-ended :
    (id end : Text)
    → no_slash id ≡ true
    → no_slash end ≡ true
    → 2 < length end
    → IsPlain (id ++ end)
IsPlain-ended id end h k long =
    let longer : 2 < length (id ++ end) = omega (arith, length-append id end, long) in
    record {
      one = no_slash-append id end h k;
      some_text = is_empty-longer (id ++ end) (omega (arith, longer));
      not_here = text_eq-shorter (id ++ end) (codes ".") (omega (arith, longer));
      not_up = text_eq-shorter (id ++ end) (codes "..") (omega (arith, longer));
    }

transfer_dir-IsPlain : IsPlain file_transfer_dir_name
unfolding no_slash text_eq
transfer_dir-IsPlain = record { one = refl; some_text = refl; not_here = refl; not_up = refl }

work_dir-IsPlain : IsPlain (codes "workfiles")
unfolding no_slash text_eq
work_dir-IsPlain = record { one = refl; some_text = refl; not_here = refl; not_up = refl }

-- Paths of one directory with one end are those of one name.
same_name :
    (dir id other end : Text)
    → dir ++ (b'/' ∷ (id ++ end)) ≡ dir ++ (b'/' ∷ (other ++ end))
    → id ≡ other
same_name dir id other end h = append_cancel_right id other end (cc (append_cancel_left dir _ _ h))

module _ (run_dir : Text) where
  -- A path directly in a directory of the run directory.
  abbrev pub inside : Text → Text → Text
  inside dir name = join (run_dir ∷ dir ∷ []) ++ (b'/' ∷ name)

  inside-injective :
      (dir id other end : Text) → inside dir (id ++ end) ≡ inside dir (other ++ end) → id ≡ other
  inside-injective dir = same_name (join (run_dir ∷ dir ∷ []))

  -- Where the files of a worker are.
  record ArePlaced (id : Text) : Type 0 where
    results :
        uploaded_worker_files_extraction_dir run_dir id
        ≡ inside (codes "filetransfer") (id ++ codes "-results")
    zip : worker_zip_file_path run_dir id ≡ inside (codes "filetransfer") (id ++ codes ".zip")
    prepared : worker_prepared_work_files_dir run_dir id ≡ inside (codes "workfiles") (id ++ [])

  places : (id : Text) → IsPlain id → ArePlaced id
  unfolding worker_prepared_work_files_dir uploaded_worker_files_extraction_dir worker_zip_file_path
      no_slash
  places id h = record {
    results =
        join-last run_dir file_transfer_dir_name (id ++ codes "-results") transfer_dir-IsPlain
          (IsPlain-ended id (codes "-results") h.one refl (omega arith));
    zip =
        join-last run_dir file_transfer_dir_name (id ++ codes ".zip") transfer_dir-IsPlain
          (IsPlain-ended id (codes ".zip") h.one refl (omega arith));
    prepared =
        join-last run_dir (codes "workfiles") id work_dir-IsPlain h
        ∙ ap (inside (codes "workfiles")) (sym (append-nil id));
  }

  -- The files of a worker stand directly in the two directories of the run directory, and none of
  -- them where those of the other worker do.
  pub record AreApart (id other : Text) : Type 0 where
    pub results :
        uploaded_worker_files_extraction_dir run_dir id
        ≡ inside (codes "filetransfer") (id ++ codes "-results")
    pub zip : worker_zip_file_path run_dir id ≡ inside (codes "filetransfer") (id ++ codes ".zip")
    pub prepared : worker_prepared_work_files_dir run_dir id ≡ inside (codes "workfiles") id
    pub results_apart :
        uploaded_worker_files_extraction_dir run_dir id
        ≢ uploaded_worker_files_extraction_dir run_dir other
    pub zips_apart : worker_zip_file_path run_dir id ≢ worker_zip_file_path run_dir other
    pub prepared_apart :
        worker_prepared_work_files_dir run_dir id ≢ worker_prepared_work_files_dir run_dir other

  -- Whatever the run directory, for two different worker IDs with no slash that are not empty, `.` or
  -- `..`: the work files of the one are prepared, and zipped, and its uploads are unzipped, directly
  -- in the directories for them, and none of that at the path where those of the other are.
  pub worker_files-AreApart :
      (id other : Text) → IsPlain id → IsPlain other → id ≢ other → AreApart id other
  worker_files-AreApart id other h k different =
      let mine = places id h in
      let theirs = places other k in
      let transfers = codes "filetransfer" in
      record {
        results = mine.results;
        zip = mine.zip;
        prepared = mine.prepared ∙ ap (inside (codes "workfiles")) (append-nil id);
        results_apart = λ e. different (
            inside-injective transfers id other (codes "-results")
              (sym mine.results ∙ e ∙ theirs.results));
        zips_apart = λ e.
            different
              (inside-injective transfers id other (codes ".zip") (sym mine.zip ∙ e ∙ theirs.zip));
        prepared_apart = λ e. different (
            inside-injective (codes "workfiles") id other []
              (sym mine.prepared ∙ e ∙ theirs.prepared));
      }
