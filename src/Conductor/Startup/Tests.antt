-- ===== src/Conductor/Startup/Tests.antt =====
-- A conductor that starts with a debug database, and the instances of the theorems on its start.
use aws_demo.Base.{◌≡◌, refl, ap, true, List, [], ◌∷◌, none, some, ok}
use aws_demo.Text.{codes, text_eq, trim_space}
use aws_demo.Host.Paths.{dir, base, ext, stem, split_last, join_path}
use aws_demo.Host.Sample.{Files, disk, files}
use aws_demo.Atlas.{debug_db_path, dbg_create_db}
use aws_demo.Poller.{getenv_default}
use aws_demo.Poller.Settings.{
  pos, PollerEnvironment, new_ticket_cloud_watch_sqs_poller, default_queue_url,
}
use aws_demo.Text.Decimal.{read_digits}
use aws_demo.ShutdownGate.{Turn}
use aws_demo.Conductor.Startup.{
  Flags, Ready, Services, conductor_worker_dial_address, open_scheduler, prepare_run_dir,
  choose_database, start_with, start_conductor,
}
use aws_demo.Conductor.Startup.Checks.{IsStarted, start_conductor-IsStarted}

abbrev services : Services Files
services = record { ping = λ w path. true; config_error = λ region. none; listens = λ w addr. true }

abbrev flags : Flags
flags = record {
  addr = codes "0.0.0.0:50055";
  worker_dial_addr = codes "10.0.0.1:50055";
  test_db_loc = codes " db.sqlite ";
  debug_always_new_db = true;
}

abbrev environment : PollerEnvironment
environment = record {
  queue_url = [];
  region = [];
  wait_time_seconds = codes "5";
  visibility_timeout_seconds = codes "soon";
}

abbrev started : Ready
started = record {
  database = codes "/data/db-debug-20260101-000000.000000000.sqlite";
  poller = record {
    queue_url = default_queue_url;
    region = codes "us-west-2";
    wait_time_seconds = pos 5;
    visibility_timeout_seconds = pos 60;
  };
  worker_dial_address = codes "10.0.0.1:50055";
}

starts : (start_conductor disk services (codes "sql") flags environment files).0 ≡ ok (some started)
unfolding start_conductor prepare_run_dir choose_database start_with open_scheduler
    conductor_worker_dial_address dbg_create_db debug_db_path dir base ext stem split_last join_path
    text_eq trim_space new_ticket_cloud_watch_sqs_poller getenv_default read_digits
starts = refl

start_conductor-IsStarted_example :
    IsStarted disk services
      (codes "sql")
      flags
      started
      (start_conductor disk services (codes "sql") flags environment files).1
start_conductor-IsStarted_example =
    start_conductor-IsStarted disk services (codes "sql") flags environment started files
      (start_conductor disk services (codes "sql") flags environment files).1
      (ap (λ x. (x, (start_conductor disk services (codes "sql") flags environment files).1))
        starts)

abbrev turns : List Turn
turns = record { flag = some (codes "true"); active = 0 } ∷ []
