-- ===== src/Conductor/Launchers/Spawned.antt =====
-- When the spawn of a worker on Fargate returns no error: spawnWorker of serverside-worker.go with the
-- launcher of spawnfunctions.go and Spawn of spawn_fargate.go.
use aws_demo.Base.{
  ℕ, ◌≡◌, ◌≢◌, ◌↔◌, refl, ap, false, List, [], ◌∷◌, Option, none, some, Result, ok, any, length,
  Bool-cases, Option-cases, Result-cases, inl, inr,
}
use aws_demo.Text.{Text}
use aws_demo.Registry.{
  Registry, WorkerSpawnConfig, has_id, remove_worker, record_event, badly_ended, launch_error,
  finish_spawn, spawn_worker,
}
use aws_demo.Registry.Spawning.{
  launching, spawn_worker-fresh, spawn_worker-registered, spawn_worker-launched,
}
use aws_demo.Fargate.{
  SpawnRequest, SpawnError, RunTaskInput, RunTaskOutput, Failure, build_fargate_spawn_request,
  is_blank, task_arn, spawn,
}
use aws_demo.Fargate.Requests.{IsLaunched, spawn-IsLaunched}
use aws_demo.Conductor.Launchers.{launch_answer, build_fargate_worker_launcher}

finish_spawn-failed :
    (now : ℕ) (conf : WorkerSpawnConfig) (p : ℕ) (e : Text) (r : Registry)
    → (finish_spawn now conf p (some e, r)).0 ≢ none
unfolding finish_spawn
finish_spawn-failed now conf p e r h =
    elim (Option-cases
      (remove_worker conf.worker_id (record_event now badly_ended (launch_error e) p r)).0) [
        | inl f ↦ cc (rw (finish_spawn, f) at h)
        | inr (x, f) ↦ cc (rw (finish_spawn, f) at h)
      ]

task_arn-one :
    (failures : List Failure) (tasks : List (Option Text)) (arn : Text)
    → failures ≡ []
    → tasks ≡ some arn ∷ []
    → arn ≢ []
    → task_arn (record { failures = failures; tasks = tasks }) ≡ ok arn
unfolding task_arn
task_arn-one failures tasks [] none_failed one named = absurd (named refl)
task_arn-one failures tasks (c ∷ arn) none_failed one named = rw (none_failed, one) refl

module _ (config_error : Option Text) (run_task : RunTaskInput → Result Text RunTaskOutput)
    (q : SpawnRequest) where
  spawn-ok :
      (arn : Text) → IsLaunched config_error run_task q arn → spawn config_error run_task q ≡ ok arn
  unfolding spawn
  spawn-ok arn l =
      rw (spawn, l.accepted, l.configured, l.ran)
        (task_arn-one l.output.failures l.output.tasks arn l.no_failures l.one_task l.named)

-- For a worker with a nonblank address and a nonblank ID, whatever the debugging variables say and
-- the other handlers do meanwhile, its spawn on Fargate returns no error exactly when its ID was not
-- registered, the configuration was loaded, and the one call to the service returned without failures
-- exactly one task, with a name that is not empty.
pub spawn_worker-fargate_iff :
    (wording : SpawnError → Text) (config_error : Option Text)
    (run_task : RunTaskInput → Result Text RunTaskOutput) (meanwhile : Registry → Registry)
    (enabled secret : Text) (started ended : ℕ) (conf : WorkerSpawnConfig) (r : Registry)
    → is_blank conf.conductor_grpc_server_addr ≡ false
    → is_blank conf.worker_id ≡ false
    → (let q = build_fargate_spawn_request enabled secret conf in
        ((spawn_worker started ended
            (build_fargate_worker_launcher wording config_error run_task meanwhile q)
            conf
            r).0
          ≡ none)
        ↔ ((any (has_id conf.worker_id r.objects) r.workers ≡ false)
            × ((arn : Text) × IsLaunched config_error run_task q arn)))
unfolding build_fargate_worker_launcher
spawn_worker-fargate_iff wording config_error run_task meanwhile enabled secret started ended conf r
      address id =
    let q = build_fargate_spawn_request enabled secret conf in
    let launch = build_fargate_worker_launcher wording config_error run_task meanwhile q in
    (
      λ h. elim (Bool-cases (any (has_id conf.worker_id r.objects) r.workers)) [
        | inl e ↦ absurd (cc (rw (spawn_worker-registered started ended launch conf r e) at h))
        | inr e ↦ elim (Result-cases (spawn config_error run_task q)) [
          | inl (arn, f) ↦ (e, (arn, spawn-IsLaunched config_error run_task q arn f))
          | inr (x, f) ↦ absurd (
              finish_spawn-failed ended conf (length r.objects) (wording x)
                (meanwhile (launching started conf r))
                (rw (spawn_worker-fresh started ended launch conf r e, f) at h))
        ]
      ],
      λ (e, (arn, l)).
          ap (λ x. x.0)
            (spawn_worker-launched started ended launch conf r
              (meanwhile (launching started conf r)) e
              (ap (λ x. (launch_answer wording x, meanwhile (launching started conf r)))
                (spawn-ok config_error run_task q arn l))),
    )
