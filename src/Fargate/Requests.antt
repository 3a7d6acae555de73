-- ===== src/Fargate/Requests.antt =====
-- What reaches the service, and when a spawn succeeds.
use mathlib.Core.List.{Perm}
use aws_demo.Base.{
  ◌≡◌, ◌≢◌, refl, sym, ap, ◌∙◌, false, List, [], ◌∷◌, map, Option, none, some, Result, ok,
  Bool-cases, Option-cases, Result-cases, inl, inr,
}
use aws_demo.Text.{Text, text_eq, text_lt, trim_space}
use aws_demo.Scheduler.Order.{
  stable_sort, stable_sort-perm, stable_sort-IsSorted, IsSorted, text_lt_asym,
}
use aws_demo.Registry.{WorkerSpawnConfig}
use aws_demo.Fargate.{
  Failure, task_input, Environment, lookup, SpawnRequest, RunTaskInput, RunTaskOutput, truthy_env,
  with_debug_ssh_environment, build_fargate_spawn_request, is_blank, validate_spawn_request,
  build_run_task_input, task_arn, spawn,
}

map-keys :
    (f : Text → Text) (l : List Text)
    → map (λ (p : Text × Text). p.0) (map (λ key. (key, f key)) l) ≡ l
map-keys f [] = refl
map-keys f (k ∷ l) = ap (λ r. k ∷ r) (map-keys f l)

-- The environment of a request that was accepted: the service gets every key once for each time the
-- map has it, in sorted order, and with the map's value.
pub record IsSent (environment sent : Environment) : Type 0 where
  pub sorted : IsSorted text_lt (map (λ p. p.0) sent)
  pub complete : Perm (map (λ p. p.0) sent) (map (λ p. p.0) environment)
  pub values : sent ≡ map (λ key. (key, lookup key environment)) (map (λ p. p.0) sent)

sorted-IsSent :
    (environment : Environment)
    → IsSent environment (
        map
          (λ key. (key, lookup key environment))
          (stable_sort text_lt (map (λ p. p.0) environment)))
sorted-IsSent environment =
    let keys = stable_sort text_lt (map (λ p. p.0) environment) in
    let same = map-keys (λ key. lookup key environment) keys in
    record {
      sorted = rw same (stable_sort-IsSorted text_lt text_lt_asym (map (λ p. p.0) environment));
      complete = rw same (stable_sort-perm text_lt (map (λ p. p.0) environment));
      values = ap (map (λ key. (key, lookup key environment))) (sym same);
    }

-- An accepted request asks for one task, and its environment is sent sorted by key, every key with
-- its value.
pub build_run_task_input-IsSent :
    (q : SpawnRequest) (input : RunTaskInput)
    → build_run_task_input q ≡ ok input
    → (input.count ≡ 1) × IsSent q.environment input.environment
unfolding build_run_task_input
build_run_task_input-IsSent q input h = elim (Option-cases (validate_spawn_request q)) [
  | inr (e, found) ↦ absurd (cc (rw (build_run_task_input, found) at h))
  | inl found ↦
      let k = rw (build_run_task_input, found) at h in
      let same : task_input q ≡ input = cc k in rw (sym same) (refl, sorted-IsSent q.environment)
]

task_arn-cases :
    (failures : List Failure) (tasks : List (Option Text)) (arn : Text)
    → task_arn (record { failures = failures; tasks = tasks }) ≡ ok arn
    → (failures ≡ []) × (tasks ≡ some arn ∷ []) × (arn ≢ [])
unfolding task_arn
task_arn-cases (f ∷ fs) tasks arn h = absurd (cc h)
task_arn-cases [] [] arn h = absurd (cc h)
task_arn-cases [] (none ∷ []) arn h = absurd (cc h)
task_arn-cases [] (some [] ∷ []) arn h = absurd (cc h)
task_arn-cases [] (some (c ∷ cs) ∷ []) arn h =
    let same : ◌≡◌ {A = Text} (c ∷ cs) arn = cc h in
    (refl, ap (λ a. some a ∷ []) same, λ e. absurd (cc (same ∙ e)))
task_arn-cases [] (t ∷ u ∷ rest) arn h = absurd (cc h)

-- What was met by a spawn that gave the identity `arn`.
pub record IsLaunched (config_error : Option Text)
    (run_task : RunTaskInput → Result Text RunTaskOutput) (q : SpawnRequest) (arn : Text)
    : Type 0 where
  pub accepted : build_run_task_input q ≡ ok (task_input q)
  pub configured : config_error ≡ none
  pub output : RunTaskOutput
  pub ran : run_task (task_input q) ≡ ok output
  pub no_failures : output.failures ≡ []
  pub one_task : output.tasks ≡ some arn ∷ []
  pub named : arn ≢ []

-- A spawn gives the identity of a task only when the request was accepted, the configuration was
-- loaded, and the one call to the service returned without failures exactly one task, with a name
-- that is not empty: that name is the result.
pub spawn-IsLaunched :
    (config_error : Option Text) (run_task : RunTaskInput → Result Text RunTaskOutput)
    (q : SpawnRequest) (arn : Text)
    → spawn config_error run_task q ≡ ok arn
    → IsLaunched config_error run_task q arn
unfolding spawn build_run_task_input
spawn-IsLaunched config_error run_task q arn h = elim (Option-cases (validate_spawn_request q)) [
  | inr (e, found) ↦ absurd (cc (rw (spawn, build_run_task_input, found) at h))
  | inl found ↦ elim (Option-cases config_error) [
    | inr (e, failed) ↦ absurd (cc (rw (spawn, build_run_task_input, found, failed) at h))
    | inl configured ↦ elim (Result-cases (run_task (task_input q))) [
      | inr (e, refused) ↦
          absurd (cc (rw (spawn, build_run_task_input, found, configured, refused) at h))
      | inl (out, ran) ↦
          let done =
            task_arn-cases out.failures out.tasks arn
              (rw (spawn, build_run_task_input, found, configured, ran) at h) in
          record {
            accepted = rw (build_run_task_input, found) refl;
            configured = configured;
            output = out;
            ran = ran;
            no_failures = done.0;
            one_task = done.1;
            named = done.2;
          }
    ]
  ]
]

-- The workers that the conductor itself asks for: a request for a nonblank address and a nonblank ID
-- is accepted, whatever the debugging variables say.
pub build_fargate_spawn_request-valid :
    (enabled secret : Text) (conf : WorkerSpawnConfig)
    → is_blank conf.conductor_grpc_server_addr ≡ false
    → is_blank conf.worker_id ≡ false
    → validate_spawn_request (build_fargate_spawn_request enabled secret conf) ≡ none
unfolding validate_spawn_request build_fargate_spawn_request with_debug_ssh_environment text_eq
    trim_space
build_fargate_spawn_request-valid enabled secret conf address id =
    elim (Bool-cases (truthy_env enabled)) [
      | inl e ↦ rw (e, address, id) refl
      | inr e ↦ rw (e, address, id) refl
    ]
