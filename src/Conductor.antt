-- ===== src/Conductor.antt =====
-- The poll loop of conductor-and-worker/conductor/go-conductor/main.go with what it calls to prepare
-- a worker (prepare-spawn.go) and to reach the scheduler (use-sheduler.go). One event of the loop is
-- what its `select` receives.
pub mod Directories
pub mod Draining
pub mod Loop
pub mod Launchers
pub mod Startup
mod Tests
use aws_demo.Base.{
  ℕ, suc, ◌+◌, ◌≡◌, refl, Bool, true, false, not, List, [], ◌∷◌, ◌++◌, Option, none, some, Result,
  ok, err, if◌then◌else◌,
}
use aws_demo.Text.{Text, codes, is_empty}
use aws_demo.Json.{Decoder}
use aws_demo.Scheduler.Store.{Error, Session}
use aws_demo.Scheduler.Messages.{
  ScheduleMessageType, incident, ticket, ScheduleDecision, IncomingMessage,
}
use aws_demo.Scheduler.Run.{insert_message_and_run_scheduling}
use aws_demo.Registry.{WorkerSpawnConfig, WorkerLauncher, Registry, RegistryError, spawn_worker}
use aws_demo.Host.Joining.{join}
use aws_demo.Server.{PrepareError, validate_worker_work_files_dir_exists}

-- PolledSQSMessage
pub record PolledMessage : Type 0 where
  pub external_message_id : Text
  pub receipt_handle : Text
  pub body : Text

-- workerResourceDirForScheduleMessageType; the two types are the only ones the scheduler makes.
abbrev pub worker_resource_dir : ScheduleMessageType → Text
worker_resource_dir ticket = codes "worker-resources/ticket-worker"
worker_resource_dir incident = codes "worker-resources/incident-worker"

-- What the file system answers while the work directory is seeded: the kind of the template's path,
-- and whether each step succeeds.
pub record SeedSteps : Type 0 where
  pub template : Option Bool
  pub removes_old : Bool
  pub makes_parent : Bool
  pub copies : Bool
  pub writes_task : Bool

pub data SeedError : Type 0 where
  bad_template : PrepareError → SeedError
  remove_old_failed make_parent_failed copy_failed write_task_failed : SeedError

-- seedWorkerWorkFiles, with the directory that workerPreparedWorkFilesDir names.
unfoldable pub seed_worker_work_files : SeedSteps → Text → WorkerSpawnConfig → Result SeedError Text
seed_worker_work_files disk dir conf =
    elim (validate_worker_work_files_dir_exists disk.template
      (worker_resource_dir conf.schedule_decision.message_type)) [
        | some e ↦ err (bad_template e)
        | none ↦
            if disk.removes_old
            then if disk.makes_parent
              then if disk.copies
                then (if disk.writes_task then ok dir else err write_task_failed)
                else err copy_failed
              else err make_parent_failed
            else err remove_old_failed
      ]

-- prepareWorkerSpawnConfig
unfoldable pub prepare_worker_spawn_config :
    SeedSteps → Text → WorkerSpawnConfig → Result SeedError WorkerSpawnConfig
unfolding seed_worker_work_files
prepare_worker_spawn_config disk dir conf = elim (seed_worker_work_files disk dir conf) [
  | err e ↦ err e
  | ok work_files_dir ↦ ok (record conf { work_files_dir = work_files_dir })
]

-- What the surroundings contribute to one spawn: the generated name, the seeding, the launch and the
-- times of its events.
pub record Spawning : Type 0 where
  pub name : Text
  pub disk : SeedSteps
  pub launcher : WorkerLauncher
  pub started : ℕ
  pub ended : ℕ

pub data SpawnReport : Type 0 where
  not_requested : SpawnReport
  seed_refused : SeedError → SpawnReport
  spawn_refused : RegistryError → SpawnReport
  spawned : WorkerSpawnConfig → SpawnReport

-- SQSPoller.DeleteMessage: whether the queue deleted the delivery.
unfoldable pub delete_message : Bool → Text → Bool
delete_message answers handle = if is_empty handle then false else answers

-- What handling one message did: the scheduler's error, or whether the delivery was deleted and one
-- report for each decision.
pub data Handled : Type 0 where
  not_scheduled : Error → Handled
  scheduled : Bool → List ScheduleDecision → List SpawnReport → Handled

pub data LoopEvent : Type 0 where
  poll_done cancelled messages_closed errors_closed poll_error : LoopEvent
  -- A message, whether PollDone or the context ended at the same moment, whether the queue deletes it,
  -- and the spawns that may follow.
  message : PolledMessage → Bool → Bool → (ℕ → Spawning) → LoopEvent

-- workerPreparedWorkFilesDir
unfoldable pub worker_prepared_work_files_dir : Text → Text → Text
worker_prepared_work_files_dir run_dir worker_id =
    join (run_dir ∷ codes "workfiles" ∷ worker_id ∷ [])

module _ (run_dir dial_address : Text) where
  unfoldable pub report_spawn :
      WorkerSpawnConfig → Option RegistryError × Registry → SpawnReport × Registry
  report_spawn conf (none, r) = (spawned conf, r)
  report_spawn conf (some e, r) = (spawn_refused e, r)

  abbrev pub spawn_config_of : ScheduleDecision → Text → WorkerSpawnConfig
  spawn_config_of decision name = record {
    schedule_decision = decision;
    conductor_grpc_server_addr = dial_address;
    worker_id = name;
    run_dir = run_dir;
    work_files_dir = [];
  }

  -- One decision of the spawn block.
  unfoldable pub spawn_one : ScheduleDecision → Spawning → Registry → SpawnReport × Registry
  unfolding report_spawn
  spawn_one decision s r =
      if decision.to_schedule
      then elim (prepare_worker_spawn_config s.disk (worker_prepared_work_files_dir run_dir s.name)
          (spawn_config_of decision s.name)) [
            | err e ↦ (seed_refused e, r)
            | ok conf ↦ report_spawn conf (spawn_worker s.started s.ended s.launcher conf r)
          ]
      else (not_requested, r)

  -- The spawn block; the decisions are numbered from `i`.
  unfoldable pub spawn_block :
      ℕ → List ScheduleDecision → (ℕ → Spawning) → Registry → List SpawnReport × Registry
  unfolding spawn_one
  spawn_block i [] spawns r = ([], r)
  spawn_block i (d ∷ ds) spawns r =
      let (report, r') = spawn_one d (spawns i) r in
      let (reports, r'') = spawn_block (i + 1) ds spawns r' in (report ∷ reports, r'')

  -- What follows insertPolledSQSMessageAndRunScheduler; an error of the deletion is not looked at.
  unfoldable pub after_scheduling :
      PolledMessage
      → Bool
      → (ℕ → Spawning)
      → Registry
      → Result Error (List ScheduleDecision) × Session
      → Handled × Session × Registry
  unfolding spawn_block
  after_scheduling m deletes spawns r (err e, s) = (not_scheduled e, s, r)
  after_scheduling m deletes spawns r (ok ds, s) =
      let (reports, r') = spawn_block 0 ds spawns r in
      (scheduled (delete_message deletes m.receipt_handle) ds reports, s, r')

  -- The block that is executed for a message.
  unfoldable pub handle_message :
      Decoder
      → PolledMessage
      → Bool
      → (ℕ → Spawning)
      → Session
      → Registry
      → Handled × Session × Registry
  unfolding after_scheduling
  handle_message d m deletes spawns s r =
      after_scheduling m deletes spawns r
        (insert_message_and_run_scheduling d (record { raw_body = m.body; account_number = [] }) s)

  -- The loop, and what it did for each message it handled. (A nil channel of errors is never ready.)
  unfoldable pub poll_loop :
      Decoder → List LoopEvent → Session → Registry → List Handled × Session × Registry
  unfolding handle_message
  poll_loop d [] s r = ([], s, r)
  poll_loop d (poll_done ∷ es) s r = ([], s, r)
  poll_loop d (cancelled ∷ es) s r = ([], s, r)
  poll_loop d (messages_closed ∷ es) s r = ([], s, r)
  poll_loop d (errors_closed ∷ es) s r = poll_loop d es s r
  poll_loop d (poll_error ∷ es) s r = poll_loop d es s r
  poll_loop d (message m draining deletes spawns ∷ es) s r =
      let (handled, s', r') = handle_message d m deletes spawns s r in
      let (later, s'', r'') = poll_loop d es s' r' in
      if draining then ([], s, r) else (handled ∷ later, s'', r'')
