-- ===== src/Conductor/Startup.antt =====
-- The start and the end of the conductor: runConductor of
-- conductor-and-worker/conductor/go-conductor/main.go up to its poll loop, with Open and Run of
-- go-db-scheduler/scheduler.go, and what it returns after the shutdown gate. Closing the database and
-- the listener is not modelled.
pub mod Checks
pub mod Exits
mod Tests
use aws_demo.Base.{
  ℕ, ◌≡◌, Bool, true, false, List, [], ◌∷◌, ◌++◌, Option, none, some, Result, ok, err,
  if◌then◌else◌,
}
use aws_demo.Text.{Text, codes, is_empty, trim_space}
use aws_demo.Host.{Host, Removal, removed, missing, not_removed, M, pure, ◌>>=◌, ◌>>◌, try, require}
use aws_demo.Host.Paths.{join_path}
use aws_demo.Atlas.{AtlasError, not_empty, is_db_compliant, dbg_create_db}
use aws_demo.Poller.Settings.{
  SqsPoller, PollerError, PollerEnvironment, new_ticket_cloud_watch_sqs_poller,
}
use aws_demo.Json.{Decoder}
use aws_demo.Scheduler.Store.{Session, Error}
use aws_demo.Scheduler.Messages.{ScheduleDecision}
use aws_demo.Scheduler.Run.{run_scheduling}
use aws_demo.ShutdownGate.{Turn, new_gate, shutdown_gate, Outcome, waiting, ready, write_failed}

pub data OpenError : Type 0 where
  path_required not_opened no_foreign_keys no_answer : OpenError

pub data StartError : Type 0 where
  no_run_dir old_shutdown_file no_shutdown_file database_required not_listening : StartError
  debug_database_failed : AtlasError → StartError
  scheduler_failed : OpenError → StartError
  poller_failed : PollerError → StartError

pub data RunError : Type 0 where
  open_failed : OpenError → RunError
  pass_failed : Error → RunError

abbrev pub scheduling_error : {A : Type 0} → Result Error A → Result RunError A
scheduling_error (ok a) = ok a
scheduling_error (err e) = err (pass_failed e)

-- The flags of the conductor.
pub record Flags : Type 0 where
  pub addr : Text
  pub worker_dial_addr : Text
  pub test_db_loc : Text
  pub debug_always_new_db : Bool

-- What the loops of the conductor start from.
pub record Ready : Type 0 where
  pub database : Text
  pub poller : SqsPoller
  pub worker_dial_address : Text

-- conductorWorkerDialAddress
unfoldable pub conductor_worker_dial_address : Flags → Text
conductor_worker_dial_address flags =
    if is_empty (trim_space flags.worker_dial_addr) then flags.addr else flags.worker_dial_addr

abbrev pub run_dir : Text
run_dir = codes "/conductor/run"

abbrev pub shutdown_okay_path : Text
shutdown_okay_path = codes "/conductor/run/IS_CONDUCTOR_SHUTTING_DOWN"

-- What the packages beside the host answer: a database's ping, the configuration of a region, and
-- whether an address can be listened on.
pub record Services (W : Type 0) : Type 0 where
  pub ping : W → Text → Bool
  pub config_error : Text → Option Text
  pub listens : W → Text → Bool

abbrev pub renamed : {W E F A : Type 0} → (E → F) → Result E A × W → Result F A × W
renamed f (ok a, w) = (ok a, w)
renamed f (err e, w) = (err (f e), w)

module _ {W : Type 0} (host : Host W) (services : Services W) (schema : Text) where
  -- Open
  unfoldable pub open_scheduler : Text → M W OpenError (Unit {0})
  open_scheduler path = do
    require path_required (λ w. not_empty path)
    require not_opened (λ w. host.opens_database w path)
    try no_foreign_keys (λ w. host.execute w path (codes "PRAGMA foreign_keys = ON"))
    require no_answer (λ w. services.ping w path)

  abbrev pub opened_for :
      Decoder
      → Session
      → Result OpenError (Unit {0}) × W
      → Result RunError (List ScheduleDecision) × W × Session
  opened_for d s (err e, w) = (err (open_failed e), w, s)
  opened_for d s (ok u, w) =
      let (decisions, s') = run_scheduling d s in (scheduling_error decisions, w, s')

  -- Run, with the tables of the database that is opened.
  unfoldable pub run :
      Decoder → Text → W → Session → Result RunError (List ScheduleDecision) × W × Session
  unfolding open_scheduler
  run d path w s = opened_for d s (open_scheduler path w)

  abbrev pub removal_ok : Removal × W → Bool × W
  removal_ok (removed, w) = (true, w)
  removal_ok (missing, w) = (true, w)
  removal_ok (not_removed, w) = (false, w)

  -- The files of the run directory.
  unfoldable pub prepare_run_dir : M W StartError (Unit {0})
  prepare_run_dir = do
    try no_run_dir (λ w. host.make_all w run_dir)
    try old_shutdown_file (λ w. removal_ok (host.remove w shutdown_okay_path))
    try no_shutdown_file (λ w. host.write_file w shutdown_okay_path (codes "false\n"))

  abbrev pub compliant_path : Text → Bool × W → Result StartError (Option Text) × W
  compliant_path path (true, w) = (ok (some path), w)
  compliant_path path (false, w) = (ok none, w)

  abbrev pub created_path : Result AtlasError Text × W → Result StartError (Option Text) × W
  created_path (ok path, w) = (ok (some path), w)
  created_path (err e, w) = (err (debug_database_failed e), w)

  -- The scheduler's database, or none where the requested one does not comply.
  unfoldable pub choose_database : Bool → Text → M W StartError (Option Text)
  choose_database true path w = created_path (dbg_create_db host schema path w)
  choose_database false path w = compliant_path path (is_db_compliant host schema path w)

  abbrev pub poller_of : W → Result PollerError SqsPoller → Result StartError SqsPoller × W
  poller_of w (ok p) = (ok p, w)
  poller_of w (err e) = (err (poller_failed e), w)

  -- From the opening of the scheduler to the listener; a database that does not comply ends the start
  -- with no error.
  unfoldable pub start_with :
      Flags → PollerEnvironment → Option Text → M W StartError (Option Ready)
  start_with flags env none = pure none
  start_with flags env (some path) = do
    λ w. renamed scheduler_failed (open_scheduler path w)
    poller ← λ w. poller_of w (new_ticket_cloud_watch_sqs_poller services.config_error env)
    require not_listening (λ w. services.listens w flags.addr)
    pure (
        some (record {
          database = path;
          poller = poller;
          worker_dial_address = conductor_worker_dial_address flags;
        }))

  -- runConductor up to its loops
  unfoldable pub start_conductor : Flags → PollerEnvironment → M W StartError (Option Ready)
  start_conductor flags env = do
    prepare_run_dir
    require database_required (λ w. not_empty (trim_space flags.test_db_loc))
    database ← choose_database flags.debug_always_new_db (trim_space flags.test_db_loc)
    start_with flags env database

-- How the conductor's process stands or ends.
pub data Exit : Type 0 where
  start_failed : StartError → Exit
  not_compliant still_running shut_down shutdown_unwritten : Exit

abbrev pub gate_exit : Outcome → Exit
gate_exit waiting = still_running
gate_exit ready = shut_down
gate_exit write_failed = shutdown_unwritten

-- What runConductor returns after its start, once its gate went through some turns.
unfoldable pub after_start : Bool → List Turn → Result StartError (Option Ready) → Exit
after_start writes turns (err e) = start_failed e
after_start writes turns (ok none) = not_compliant
after_start writes turns (ok (some r)) = gate_exit (shutdown_gate writes turns new_gate).0

-- runConductor, once its gate went through some turns; `writes` says whether the file of a safe
-- shutdown can be written.
unfoldable pub run_conductor :
    {W : Type 0}
    → Host W
    → Services W
    → Text
    → Flags
    → PollerEnvironment
    → Bool
    → List Turn
    → W
    → Exit
unfolding after_start start_conductor
run_conductor host services schema flags env writes turns w =
    after_start writes turns (start_conductor host services schema flags env w).0

-- The status of main: os.Exit(1) after an error, or 0; none while it runs.
unfoldable pub exit_code : Exit → Option ℕ
exit_code (start_failed e) = some 1
exit_code not_compliant = some 0
exit_code still_running = none
exit_code shut_down = some 0
exit_code shutdown_unwritten = some 1
