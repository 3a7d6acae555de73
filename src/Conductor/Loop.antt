-- ===== src/Conductor/Loop.antt =====
-- What the spawn block does with the decisions on a message.
use mathlib.Core.Path.{subst}
use aws_demo.Base.{
  sym, ℕ, ◌+◌, ◌≡◌, refl, ap, Bool, true, false, List, [], ◌∷◌, Option, none, some, ◌⊎◌, Result, ok,
  err, Bool-cases, inl, inr,
}
use aws_demo.Text.{Text, is_empty}
use aws_demo.Json.{Decoder}
use aws_demo.Scheduler.Store.{Error, Session}
use aws_demo.Scheduler.Messages.{ScheduleDecision, ScheduleMessageType, incident, ticket}
use aws_demo.Scheduler.Run.{insert_message_and_run_scheduling}
use aws_demo.Registry.{WorkerSpawnConfig, RegistryError, Registry, spawn_worker}
use aws_demo.Server.{dir_missing, not_a_directory, validate_worker_work_files_dir_exists}
use aws_demo.Conductor.{
  Handled, worker_prepared_work_files_dir, SeedSteps, SeedError, bad_template, remove_old_failed,
  make_parent_failed, copy_failed, write_task_failed, worker_resource_dir, seed_worker_work_files,
  spawn_config_of, PolledMessage, Spawning, SpawnReport, not_requested, seed_refused, spawn_refused,
  spawned, scheduled, delete_message, prepare_worker_spawn_config, report_spawn, spawn_one,
  spawn_block, after_scheduling, handle_message,
}

-- Every step of the seeding succeeds: the template is a directory, the old work directory can be
-- removed, its parent made, the template copied and the task written.
pub record IsSeedable (disk : SeedSteps) : Type 0 where
  pub template : disk.template ≡ some true
  pub removes_old : disk.removes_old ≡ true
  pub makes_parent : disk.makes_parent ≡ true
  pub copies : disk.copies ≡ true
  pub writes_task : disk.writes_task ≡ true

module _ (run_dir dial_address : Text) where
  -- The worker that a decision gets: it carries the decision, the generated name, the address that it
  -- dials, and the work directory that was seeded for it.
  abbrev pub worker_for : ScheduleDecision → Spawning → WorkerSpawnConfig
  worker_for d s = record {
    schedule_decision = d;
    conductor_grpc_server_addr = dial_address;
    worker_id = s.name;
    run_dir = run_dir;
    work_files_dir = worker_prepared_work_files_dir run_dir s.name;
  }

  -- One decision, from a registry to the next: its worker was spawned only if the decision asks for
  -- one and its files could be seeded, and the report is what the registry said of it.
  pub data IsAnswered (d : ScheduleDecision) (s : Spawning) (r : Registry)
      : SpawnReport → Registry → Type 0 where
    unasked : d.to_schedule ≡ false → IsAnswered d s r not_requested r
    unseeded :
        (e : SeedError)
        → d.to_schedule ≡ true
        → ¬ IsSeedable s.disk
        → IsAnswered d s r (seed_refused e) r
    failed :
        (e : RegistryError) (after : Registry)
        → d.to_schedule ≡ true
        → IsSeedable s.disk
        → spawn_worker s.started s.ended s.launcher (worker_for d s) r ≡ (some e, after)
        → IsAnswered d s r (spawn_refused e) after
    launched :
        (after : Registry)
        → d.to_schedule ≡ true
        → IsSeedable s.disk
        → spawn_worker s.started s.ended s.launcher (worker_for d s) r ≡ (none, after)
        → IsAnswered d s r (spawned (worker_for d s)) after

  -- The decisions in order, each from the registry that the one before it left; `i` numbers them.
  pub data AreAnswered (spawns : ℕ → Spawning)
      : ℕ → List ScheduleDecision → Registry → List SpawnReport → Registry → Type 0 where
    no_more : (i : ℕ) (r : Registry) → AreAnswered spawns i [] r [] r
    next :
        (i : ℕ) (d : ScheduleDecision) (ds : List ScheduleDecision) (r mid after : Registry)
        → (x : SpawnReport) (xs : List SpawnReport) → IsAnswered d (spawns i) r x mid
        → AreAnswered spawns (i + 1) ds mid xs after
        → AreAnswered spawns i (d ∷ ds) r (x ∷ xs) after

  resource_dir-named : (t : ScheduleMessageType) → is_empty (worker_resource_dir t) ≡ false
  resource_dir-named ticket = refl
  resource_dir-named incident = refl

  -- What the seeding of a work directory comes to.
  SeedCases : SeedSteps → Text → WorkerSpawnConfig → Type 0
  SeedCases disk dir conf =
      (IsSeedable disk × (seed_worker_work_files disk dir conf ≡ ok dir))
      ⊎ ((e : SeedError) × (¬ IsSeedable disk) × (seed_worker_work_files disk dir conf ≡ err e))

  seed_cases :
      (template : Option Bool) (removes makes copies writes : Bool) (dir : Text)
      (conf : WorkerSpawnConfig)
      → SeedCases
          (record {
            template = template;
            removes_old = removes;
            makes_parent = makes;
            copies = copies;
            writes_task = writes;
          })
          dir
          conf
  unfolding SeedCases seed_worker_work_files validate_worker_work_files_dir_exists
  seed_cases none a b c e dir conf = inr (
    bad_template dir_missing,
    λ h. cc h.template,
    rw
        (
          seed_worker_work_files,
          validate_worker_work_files_dir_exists,
          resource_dir-named conf.schedule_decision.message_type,
        )
        refl,
  )
  seed_cases (some false) a b c e dir conf = inr (
    bad_template not_a_directory,
    λ h. cc h.template,
    rw
        (
          seed_worker_work_files,
          validate_worker_work_files_dir_exists,
          resource_dir-named conf.schedule_decision.message_type,
        )
        refl,
  )
  seed_cases (some true) false b c e dir conf = inr (
    remove_old_failed,
    λ h. cc h.removes_old,
    rw
        (
          seed_worker_work_files,
          validate_worker_work_files_dir_exists,
          resource_dir-named conf.schedule_decision.message_type,
        )
        refl,
  )
  seed_cases (some true) true false c e dir conf = inr (
    make_parent_failed,
    λ h. cc h.makes_parent,
    rw
        (
          seed_worker_work_files,
          validate_worker_work_files_dir_exists,
          resource_dir-named conf.schedule_decision.message_type,
        )
        refl,
  )
  seed_cases (some true) true true false e dir conf = inr (
    copy_failed,
    λ h. cc h.copies,
    rw
        (
          seed_worker_work_files,
          validate_worker_work_files_dir_exists,
          resource_dir-named conf.schedule_decision.message_type,
        )
        refl,
  )
  seed_cases (some true) true true true false dir conf = inr (
    write_task_failed,
    λ h. cc h.writes_task,
    rw
        (
          seed_worker_work_files,
          validate_worker_work_files_dir_exists,
          resource_dir-named conf.schedule_decision.message_type,
        )
        refl,
  )
  seed_cases (some true) true true true true dir conf = inl (
    record {
      template = refl;
      removes_old = refl;
      makes_parent = refl;
      copies = refl;
      writes_task = refl;
    },
    rw
        (
          seed_worker_work_files,
          validate_worker_work_files_dir_exists,
          resource_dir-named conf.schedule_decision.message_type,
        )
        refl,
  )

  spawn_one-not_requested :
      (d : ScheduleDecision) (s : Spawning) (r : Registry)
      → d.to_schedule ≡ false
      → spawn_one run_dir dial_address d s r ≡ (not_requested, r)
  unfolding spawn_one
  spawn_one-not_requested d s r e = rw (spawn_one, e) refl

  spawn_one-seed_refused :
      (d : ScheduleDecision) (s : Spawning) (r : Registry) (f : SeedError)
      → d.to_schedule ≡ true
      → seed_worker_work_files s.disk
          (worker_prepared_work_files_dir run_dir s.name)
          (spawn_config_of run_dir dial_address d s.name)
        ≡ err f
      → spawn_one run_dir dial_address d s r ≡ (seed_refused f, r)
  unfolding spawn_one prepare_worker_spawn_config
  spawn_one-seed_refused d s r f e e' = rw (spawn_one, e, prepare_worker_spawn_config, e') refl

  prepared_with :
      (d : ScheduleDecision) (s : Spawning) (r : Registry) (conf : WorkerSpawnConfig)
      → d.to_schedule ≡ true
      → prepare_worker_spawn_config s.disk
          (worker_prepared_work_files_dir run_dir s.name)
          (spawn_config_of run_dir dial_address d s.name)
        ≡ ok conf
      → spawn_one run_dir dial_address d s r
        ≡ report_spawn run_dir dial_address conf (spawn_worker s.started s.ended s.launcher conf r)
  unfolding spawn_one
  prepared_with d s r conf e e' = rw (e', spawn_one, e) refl

  seeded_conf :
      (d : ScheduleDecision) (s : Spawning)
      → (let dir = worker_prepared_work_files_dir run_dir s.name in
          seed_worker_work_files s.disk dir (spawn_config_of run_dir dial_address d s.name)
          ≡ ok dir)
      → prepare_worker_spawn_config s.disk
          (worker_prepared_work_files_dir run_dir s.name)
          (spawn_config_of run_dir dial_address d s.name)
        ≡ ok (worker_for d s)
  unfolding prepare_worker_spawn_config
  seeded_conf d s e = rw (prepare_worker_spawn_config, e) refl

  spawn_one-prepared :
      (d : ScheduleDecision) (s : Spawning) (r : Registry)
      → d.to_schedule ≡ true
      → (let dir = worker_prepared_work_files_dir run_dir s.name in
          seed_worker_work_files s.disk dir (spawn_config_of run_dir dial_address d s.name)
          ≡ ok dir)
      → spawn_one run_dir dial_address d s r
        ≡ report_spawn run_dir dial_address
            (worker_for d s)
            (spawn_worker s.started s.ended s.launcher (worker_for d s) r)
  spawn_one-prepared d s r e e' = prepared_with d s r (worker_for d s) e (seeded_conf d s e')

  report_spawn-IsAnswered :
      (d : ScheduleDecision) (s : Spawning) (r : Registry) (x : Option RegistryError × Registry)
      → d.to_schedule ≡ true
      → IsSeedable s.disk
      → spawn_worker s.started s.ended s.launcher (worker_for d s) r ≡ x
      → (let y = report_spawn run_dir dial_address (worker_for d s) x in IsAnswered d s r y.0 y.1)
  unfolding report_spawn
  report_spawn-IsAnswered d s r (none, after) h seeded e = launched after h seeded e
  report_spawn-IsAnswered d s r (some f, after) h seeded e = failed f after h seeded e

  spawn_one-IsAnswered :
      (d : ScheduleDecision) (s : Spawning) (r : Registry)
      → (let y = spawn_one run_dir dial_address d s r in IsAnswered d s r y.0 y.1)
  unfolding SeedCases
  spawn_one-IsAnswered d s r =
      let disk = s.disk in
      let dir = worker_prepared_work_files_dir run_dir s.name in
      let conf = spawn_config_of run_dir dial_address d s.name in
      elim (Bool-cases d.to_schedule) [
        | inr e ↦ rw (spawn_one-not_requested d s r e) (unasked e)
        | inl e ↦
            elim (seed_cases disk.template disk.removes_old disk.makes_parent disk.copies
              disk.writes_task dir conf) [
                | inl (seeded, e') ↦
                    rw (spawn_one-prepared d s r e e')
                      (report_spawn-IsAnswered d s r _ e seeded refl)
                | inr (f, unseedable, e') ↦
                    rw (spawn_one-seed_refused d s r f e e') (unseeded f e unseedable)
              ]
      ]

  spawn_block-AreAnswered :
      (i : ℕ) (ds : List ScheduleDecision) (spawns : ℕ → Spawning) (r : Registry)
      → (let y = spawn_block run_dir dial_address i ds spawns r in
          AreAnswered spawns i ds r y.0 y.1)
  unfolding spawn_block
  spawn_block-AreAnswered i [] spawns r = no_more i r
  spawn_block-AreAnswered i (d ∷ ds) spawns r =
      let y = spawn_one run_dir dial_address d (spawns i) r in
      let z = spawn_block run_dir dial_address (i + 1) ds spawns y.1 in
      next i d ds r y.1 z.1 y.0 z.0 (spawn_one-IsAnswered d (spawns i) r)
        (spawn_block-AreAnswered (i + 1) ds spawns y.1)

-- How the loop's handling of a message depends on the scheduler.
abbrev pub to_scheduler :
    Decoder → PolledMessage → Session → Result Error (List ScheduleDecision) × Session
to_scheduler d m s =
    insert_message_and_run_scheduling d (record { raw_body = m.body; account_number = [] }) s

module _ (run_dir dial_address : Text) (d : Decoder) (m : PolledMessage) (deletes : Bool)
    (spawns : ℕ → Spawning) where
  -- What a message that the scheduler accepts has done.
  pub record IsHandled (s : Session) (r : Registry) (ds : List ScheduleDecision)
      (x : Handled × Session × Registry) : Type 0 where
    pub reports : List SpawnReport
    pub reported : x.0 ≡ scheduled (delete_message deletes m.receipt_handle) ds reports
    pub stored : x.1 ≡ (to_scheduler d m s).1
    pub answered : AreAnswered run_dir dial_address spawns 0 ds r reports x.2

  -- A message that the scheduler accepts is deleted if the queue does so, and its decisions are taken
  -- in order, each on the registry that the one before it left: its worker is spawned, with the
  -- decision, the generated name and the seeded directory, exactly if the decision asks for one and
  -- the directory could be seeded; the report says what the registry returned, and the registry is
  -- what that spawn left.
  pub handle_message-IsHandled :
      (s : Session) (r : Registry) (ds : List ScheduleDecision)
      → (to_scheduler d m s).0 ≡ ok ds
      → IsHandled s r ds (handle_message run_dir dial_address d m deletes spawns s r)
  unfolding handle_message after_scheduling
  handle_message-IsHandled s r ds h =
      let y = spawn_block run_dir dial_address 0 ds spawns r in
      let same : to_scheduler d m s ≡ (ok ds, (to_scheduler d m s).1) =
        ap (λ o. (o, (to_scheduler d m s).1)) h in
      subst (IsHandled s r ds)
        (ap (after_scheduling run_dir dial_address m deletes spawns r) (sym same))
        (record {
          reports = y.0;
          reported = refl;
          stored = refl;
          answered = spawn_block-AreAnswered run_dir dial_address 0 ds spawns r;
        })
