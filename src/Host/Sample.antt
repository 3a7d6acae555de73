-- ===== src/Host/Sample.antt =====
-- A host of a few files, for tests: its directories are always there, its databases hold the SQL text
-- that was executed last, and its commands say that schemas are the same.
use aws_demo.Base.{true, false, [], ◌++◌, Option, none, some, if◌then◌else◌}
use aws_demo.Text.{Text, codes, text_eq}
use aws_demo.Worker.{exited}
use aws_demo.Host.{Host, removed}

-- The text of the file at a path, if there is one.
abbrev pub Files : Type 0
Files = Text → Option Text

abbrev pub put : Text → Option Text → Files → Files
put path text files q = if text_eq path q then text else files q

abbrev pub disk : Host Files
disk = record {
  stat = λ w p. elim (w p) [ none ↦ none | some t ↦ some false ];
  abs = λ w p. some (codes "/data/" ++ p);
  timestamp = λ w. codes "20260101-000000.000000000";
  make_all = λ w p. (true, w);
  make_temp = λ w name. (some (codes "/tmp/d"), w);
  remove = λ w p. (removed, put p none w);
  remove_all = λ w p. (true, w);
  write_file = λ w p text. (true, put p (some text) w);
  create_new = λ w p. (true, put p (some []) w);
  close_new = λ w p. (true, w);
  opens_database = λ w p. true;
  execute = λ w p sql. (true, put p (some sql) w);
  command = λ w dir words. (exited 0 (codes "Schemas are synced, no changes to be made.\n"), w);
}

abbrev pub files : Files
files =
    put (codes "/data/db.sqlite") (some (codes "old"))
      (put (codes "db.sqlite") (some (codes "old")) (λ q. none))
