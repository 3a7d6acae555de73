-- ===== src/Registry.antt =====
-- The worker registry: conductor-and-worker/conductor/go-conductor/serverside-worker.go. Workers are
-- objects behind pointers: a handler keeps its pointer after the registry has dropped the worker. So
-- the objects live in a store that only grows, and the registry's slice holds addresses in it.
pub mod Invariant
pub mod Histories
pub mod Counting
pub mod Keeping
pub mod Lookup
pub mod Spawning
use aws_demo.Base.{
  ℕ, zero, suc, ◌+◌, ◌≡◌, Bool, true, false, not, ◌&&◌, ◌||◌, List, [], ◌∷◌, ◌++◌, Option, none,
  some, Result, ok, err, any, count_if, length, if◌then◌else◌,
}
use aws_demo.Text.{Text, text_eq, is_empty}
use aws_demo.Scheduler.Messages.{ScheduleDecision}

-- workerSpawnConfig of prepare-spawn.go
pub record WorkerSpawnConfig : Type 0 where
  pub schedule_decision : ScheduleDecision
  pub conductor_grpc_server_addr : Text
  pub worker_id : Text
  pub run_dir : Text
  pub work_files_dir : Text

pub data WorkerEvent : Type 0 where
  spawn_started handshake_succeeded handshake_failed got_files_succeeded got_files_failed :
      WorkerEvent
  uploaded_files_succeeded starts_test codex_error safely_ended badly_ended : WorkerEvent

-- What the handlers put into the field of type `any`: the message of a request, the configuration
-- of a spawn, or the error of a launch.
pub data Payload : Type 0 where
  request_message : Text → Payload
  spawn_config : WorkerSpawnConfig → Payload
  launch_error : Text → Payload

pub record WorkerEventRecord : Type 0 where
  pub kind : WorkerEvent
  pub received_at : ℕ
  pub payload : Payload

pub record SpawnedWorker : Type 0 where
  pub config : WorkerSpawnConfig
  pub id : Text
  pub job : Text
  pub events : List WorkerEventRecord

pub record Registry : Type 0 where
  pub objects : List SpawnedWorker
  pub workers : List ℕ

pub data RegistryError : Type 0 where
  worker_id_required : RegistryError
  not_spawned already_registered not_registered : Text → RegistryError
  launch_failed : Text → Text → RegistryError
  launch_and_remove_failed : Text → Text → RegistryError → RegistryError

-- newWorkerRegistry
abbrev pub new_worker_registry : Registry
new_worker_registry = record { objects = []; workers = [] }

-- The object at an address.
abbrev pub object : List SpawnedWorker → ℕ → Option SpawnedWorker
object [] p = none
object (w ∷ ws) zero = some w
object (w ∷ ws) (suc p) = object ws p

abbrev pub modify : List SpawnedWorker → ℕ → (SpawnedWorker → SpawnedWorker) → List SpawnedWorker
modify [] p f = []
modify (w ∷ ws) zero f = f w ∷ ws
modify (w ∷ ws) (suc p) f = w ∷ modify ws p f

-- `worker.ID == workerID` of the worker at an address.
abbrev pub has_id : Text → List SpawnedWorker → ℕ → Bool
has_id id objects p = elim (object objects p) [ none ↦ false | some w ↦ text_eq w.id id ]

unfoldable pub find_worker : Text → List SpawnedWorker → List ℕ → Option ℕ
find_worker id objects [] = none
find_worker id objects (p ∷ ps) = if has_id id objects p then some p else find_worker id objects ps

-- getWorker; a worker is its address.
unfoldable pub get_worker : Text → Registry → Option ℕ
unfolding find_worker
get_worker id r = find_worker id r.objects r.workers

-- getRequiredWorker
unfoldable pub get_required_worker : Text → Registry → Result RegistryError ℕ
get_required_worker id r = elim (get_worker id r) [ some p ↦ ok p | none ↦ err (not_spawned id) ]

unfoldable pub kind_eq : WorkerEvent → WorkerEvent → Bool
kind_eq spawn_started spawn_started = true
kind_eq handshake_succeeded handshake_succeeded = true
kind_eq handshake_failed handshake_failed = true
kind_eq got_files_succeeded got_files_succeeded = true
kind_eq got_files_failed got_files_failed = true
kind_eq uploaded_files_succeeded uploaded_files_succeeded = true
kind_eq starts_test starts_test = true
kind_eq codex_error codex_error = true
kind_eq safely_ended safely_ended = true
kind_eq badly_ended badly_ended = true
kind_eq a b = false

abbrev pub with_event : ℕ → WorkerEvent → Payload → SpawnedWorker → SpawnedWorker
with_event now kind payload w = record w {
  events = w.events ++ record { kind = kind; received_at = now; payload = payload } ∷ [];
}

-- recordEvent on the worker at an address, at the time `now`.
unfoldable pub record_event : ℕ → WorkerEvent → Payload → ℕ → Registry → Registry
record_event now kind payload p r = record r {
  objects = modify r.objects p (with_event now kind payload);
}

-- hasEvent of a worker
unfoldable pub has_event : WorkerEvent → SpawnedWorker → Bool
unfolding kind_eq
has_event kind w = any (λ e. kind_eq e.kind kind) w.events

-- hasEvent of the worker at an address
abbrev pub has_event_at : WorkerEvent → List SpawnedWorker → ℕ → Bool
has_event_at kind objects p = elim (object objects p) [ none ↦ false | some w ↦ has_event kind w ]

-- getLastEvent
last_event : WorkerEvent → List WorkerEventRecord → Option WorkerEventRecord
unfolding kind_eq
last_event kind [] = none
last_event kind (e ∷ es) = elim (last_event kind es) [
  | some later ↦ some later
  | none ↦ if kind_eq e.kind kind then some e else none
]

unfoldable pub get_last_event : WorkerEvent → SpawnedWorker → Option WorkerEventRecord
unfolding last_event
get_last_event kind w = last_event kind w.events

abbrev pub new_worker : WorkerSpawnConfig → SpawnedWorker
new_worker conf = record { config = conf; id = conf.worker_id; job = []; events = [] }

-- A new worker's object, appended to the store and to the slice.
abbrev pub with_worker : WorkerSpawnConfig → Registry → Registry
with_worker conf r = record {
  objects = r.objects ++ new_worker conf ∷ [];
  workers = r.workers ++ length r.objects ∷ [];
}

-- registerSpawnedWorker
unfoldable pub register_spawned_worker :
    WorkerSpawnConfig → Registry → Result RegistryError (ℕ × Registry)
register_spawned_worker conf r =
    if any (has_id conf.worker_id r.objects) r.workers
    then err (already_registered conf.worker_id)
    else ok (length r.objects, with_worker conf r)

-- The slice without its first worker of that ID. (The loop also prints a warning.)
unfoldable pub remove_first : Text → List SpawnedWorker → List ℕ → List ℕ
remove_first id objects [] = []
remove_first id objects (p ∷ ps) =
    let rest = remove_first id objects ps in if has_id id objects p then ps else p ∷ rest

-- removeWorker: an error, or nothing, and the registry after it.
unfoldable pub remove_worker : Text → Registry → Option RegistryError × Registry
unfolding remove_first
remove_worker id r =
    if any (has_id id r.objects) r.workers
    then (none, record r { workers = remove_first id r.objects r.workers })
    else (some (not_registered id), r)

-- getNumActiveWorkers
unfoldable pub get_num_active_workers : Registry → ℕ
get_num_active_workers r = count_if (λ p. not (has_event_at safely_ended r.objects p)) r.workers

-- The registry's handlers return the worker and change the registry; an error may leave changes.
abbrev pub Step : Type 0 → Type 0
Step A = Registry → Result RegistryError A × Registry

unfoldable pub record_for : ℕ → WorkerEvent → Payload → Result RegistryError ℕ → Step ℕ
record_for now kind payload (ok p) r = (ok p, record_event now kind payload p r)
record_for now kind payload (err e) r = (err e, r)

-- registerWorkerHandshake
unfoldable pub register_worker_handshake : ℕ → Text → Payload → Step ℕ
unfolding record_for
register_worker_handshake now id payload r =
    record_for now handshake_succeeded payload (get_required_worker id r) r

-- registerWorkerSafelyEnded
unfoldable pub register_worker_safely_ended : ℕ → Text → Payload → Step ℕ
unfolding record_for
register_worker_safely_ended now id payload r =
    record_for now safely_ended payload (get_required_worker id r) r

unfoldable pub remove_for :
    Text → Result RegistryError ℕ × Registry → Result RegistryError ℕ × Registry
remove_for id (err e, r) = (err e, r)
remove_for id (ok p, r) = elim (remove_worker id r).0 [
  | none ↦ (ok p, (remove_worker id r).1)
  | some e ↦ (err e, (remove_worker id r).1)
]

-- recordWorkerErrorAndDeregister with nothing between its two calls, each of which takes a mutex;
-- Histories has them apart.
unfoldable pub record_worker_error_and_deregister : ℕ → Text → Payload → Step ℕ
unfolding record_for remove_for
record_worker_error_and_deregister now id payload r =
    remove_for id (record_for now codex_error payload (get_required_worker id r) r)

-- waitFargateAndDeregister
abbrev pub wait_fargate_and_deregister : Text → Registry → Option RegistryError × Registry
wait_fargate_and_deregister id r = remove_worker id r

-- validateWorkerID
unfoldable pub validate_worker_id : Text → Option RegistryError
validate_worker_id id = if is_empty id then some worker_id_required else none

-- A launcher runs while other handlers do: it may change the registry, and returns its error.
abbrev pub WorkerLauncher : Type 0
WorkerLauncher = WorkerSpawnConfig → Registry → Option Text × Registry

-- The end of spawnWorker, after the launcher.
unfoldable pub finish_spawn :
    ℕ → WorkerSpawnConfig → ℕ → Option Text × Registry → Option RegistryError × Registry
finish_spawn now conf p (none, r) = (none, r)
finish_spawn now conf p (some e, r) =
    let (failed, r') =
      remove_worker conf.worker_id (record_event now badly_ended (launch_error e) p r) in
    elim failed [
      | none ↦ (some (launch_failed conf.worker_id e), r')
      | some other ↦ (some (launch_and_remove_failed conf.worker_id e other), r')
    ]

-- spawnWorker, with the times of its events.
unfoldable pub spawn_worker :
    ℕ → ℕ → WorkerLauncher → WorkerSpawnConfig → Registry → Option RegistryError × Registry
spawn_worker started ended launch conf r = elim (register_spawned_worker conf r) [
  | err e ↦ (some e, r)
  | ok (p, r') ↦
      finish_spawn ended conf p
        (launch conf (record_event started spawn_started (spawn_config conf) p r'))
]
