-- ===== src/Atlas/Tests.antt =====
-- A host of a few files, and the instances of the theorems on the scheduler's database.
use aws_demo.Base.{◌≡◌, ◌≢◌, ◌↔◌, refl, true, [], Option, none, some, ok, Bool-cases, inl, inr}
use aws_demo.Text.{Text, codes, text_eq, text_eq_iff, trim_space, contains, has_prefix}
use aws_demo.Host.Sample.{Files, put, disk, files}
use aws_demo.Host.Paths.{dir, base, ext, stem, split_last, join_path}
use aws_demo.Atlas.{
  debug_db_path, is_db_compliant, create_conformant_database, dbg_create_db, fill_snapshot,
  compare_schemas, run_atlas_command, sqlite_database_url, normalize_atlas_diff_output,
}
use aws_demo.Atlas.Compliance.{Complies, is_db_compliant_iff}
use aws_demo.Atlas.Frames.{ChangesOnlyItsFile, dbg_create_db-keeps}

names : debug_db_path (codes "/data/db.sqlite") (codes "T") ≡ codes "/data/db-debug-T.sqlite"
unfolding debug_db_path dir base ext stem split_last join_path text_eq
names = refl

put_other : (p q : Text) (t : Option Text) (w : Files) → p ≢ q → put p t w q ≡ w q
put_other p q t w other = elim (Bool-cases (text_eq p q)) [
  | inl e ↦ absurd (other ((text_eq_iff p q).0 e))
  | inr e ↦ rw e
]

disk-laws : ChangesOnlyItsFile disk (λ (w : Files) q. w q)
disk-laws = record {
  by_make_all = λ w p q. refl;
  by_create_new = λ w p q other. put_other p q (some []) w other;
  by_close_new = λ w p q other. refl;
  by_remove = λ w p q other. put_other p q none w other;
  by_execute = λ w p sql q other. put_other p q (some sql) w other;
}

dbg_create_db-keeps_example :
    ((dbg_create_db disk (codes "sql") (codes "db.sqlite") files).1 (codes "/data/db.sqlite")
      ≡ files (codes "/data/db.sqlite"))
    × ((dbg_create_db disk (codes "sql") (codes "db.sqlite") files).0
        ≢ ok (codes "/data/db.sqlite"))
dbg_create_db-keeps_example =
    dbg_create_db-keeps disk (codes "sql") (λ w q. w q) disk-laws (codes "db.sqlite")
      (codes "/data/db.sqlite") files refl

creates :
    (dbg_create_db disk (codes "sql") (codes "db.sqlite") files).0
    ≡ ok (codes "/data/db-debug-20260101-000000.000000000.sqlite")
unfolding dbg_create_db create_conformant_database debug_db_path dir base ext stem split_last
    join_path text_eq
creates = refl

is_db_compliant_iff_example :
    ((is_db_compliant disk (codes "sql") (codes "db.sqlite") files).0 ≡ true)
    ↔ Complies disk (codes "sql") (codes "db.sqlite") files
is_db_compliant_iff_example = is_db_compliant_iff disk (codes "sql") (codes "db.sqlite") files

complies : (is_db_compliant disk (codes "sql") (codes "db.sqlite") files).0 ≡ true
unfolding is_db_compliant fill_snapshot compare_schemas trim_space text_eq run_atlas_command
    sqlite_database_url normalize_atlas_diff_output contains has_prefix join_path
complies = refl
