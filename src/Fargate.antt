-- ===== src/Fargate.antt =====
-- The spawn of one Fargate task: conductor-and-worker/conductor/go-conductor/spawn_fargate.go. A Go
-- map of strings is an association list; iterating over it yields the keys in the list's order, and
-- every list of keys is sorted before it is used.
pub mod Requests
mod Tests
use aws_demo.Base.{
  ℕ, ◌≡◌, refl, Bool, true, false, not, ◌||◌, List, [], ◌∷◌, ◌++◌, map, Option, none, some, Result,
  ok, err, any, filter_map, if◌then◌else◌, leb, ◌&&◌, ◌+◌,
}
use aws_demo.Text.{Text, codes, text_eq, text_lt, is_empty, trim_space, join}
use aws_demo.Scheduler.Order.{stable_sort}
use aws_demo.Registry.{WorkerSpawnConfig}

abbrev pub Environment : Type 0
Environment = List (Text × Text)

-- `environment[key]`: the empty text for a missing key.
abbrev pub lookup : Text → Environment → Text
lookup key [] = []
lookup key ((k, v) ∷ rest) = if text_eq k key then v else lookup key rest

-- `environment[key] = value`
abbrev pub assign : Text → Text → Environment → Environment
assign key value [] = (key, value) ∷ []
assign key value ((k, v) ∷ rest) =
    let later = assign key value rest in if text_eq k key then (k, value) ∷ rest else (k, v) ∷ later

-- FargateWorkerSpawnRequest
pub record SpawnRequest : Type 0 where
  pub region : Text
  pub cluster : Text
  pub task_definition : Text
  pub container_name : Text
  pub subnets : List Text
  pub security_groups : List Text
  pub assign_public_ip : Bool
  pub environment : Environment

-- ecs.RunTaskInput, its nested structures laid flat, and without the constant fields.
pub record RunTaskInput : Type 0 where
  pub cluster : Text
  pub task_definition : Text
  pub count : ℕ
  pub subnets : List Text
  pub security_groups : List Text
  pub assign_public_ip : Bool
  pub container_name : Text
  pub environment : List (Text × Text)

-- types.Failure: three pointers to strings.
pub record Failure : Type 0 where
  pub arn : Option Text
  pub reason : Option Text
  pub detail : Option Text

-- ecs.RunTaskOutput: its failures, and the ARN of each task, if it has one.
pub record RunTaskOutput : Type 0 where
  pub failures : List Failure
  pub tasks : List (Option Text)

pub data SpawnError : Type 0 where
  missing_fields : List Text → SpawnError
  config_failed run_task_failed : Text → SpawnError
  task_failures : Text → SpawnError
  wrong_task_count : List (Option Text) → SpawnError
  no_task_arn : SpawnError

-- strings.ToLower, of the letters that the accepted words have.
abbrev pub to_lower : Text → Text
to_lower s = map (λ c. if leb 65 c && leb c 90 then c + 32 else c) s

-- truthyEnv of the value of the variable
unfoldable pub truthy_env : Text → Bool
truthy_env value =
    let word = to_lower (trim_space value) in
    text_eq word (codes "1")
    || (text_eq word (codes "true") || (text_eq word (codes "yes") || text_eq word (codes "on")))

-- WithDebugSSHEnvironment, with the values of the variables DEBUG_SSH_ENABLED and
-- DEBUG_SSH_PUBLIC_KEY_SECRET_NAME of the process.
unfoldable pub with_debug_ssh_environment : Text → Text → Environment → Environment
with_debug_ssh_environment enabled secret environment =
    if truthy_env enabled
    then assign (codes "DEBUG_SSH_PUBLIC_KEY_SECRET_NAME")
        (if is_empty (trim_space secret) then codes "debug_public_ssh_key" else trim_space secret)
        (assign (codes "DEBUG_SSH_ENABLED") (codes "true") environment)
    else environment

-- BuildFargateSpawnRequest
unfoldable pub build_fargate_spawn_request : Text → Text → WorkerSpawnConfig → SpawnRequest
unfolding with_debug_ssh_environment
build_fargate_spawn_request enabled secret conf = record {
  region = codes "us-west-2";
  cluster = codes "ecs-cluster-agent-fargate";
  task_definition = codes "agent-fargate";
  container_name = codes "agent-fargate";
  subnets =
      codes "subnet-0097cadb66a94a14c"
      ∷ codes "subnet-0f27d826d1e258387"
      ∷ codes "subnet-072d05b5920b46b90"
      ∷ codes "subnet-01d067ffe823ca33c"
      ∷ [];
  security_groups = codes "sg-0fd8bf9624d0cb702" ∷ [];
  assign_public_ip = true;
  environment = with_debug_ssh_environment enabled secret (
      (codes "CONDUCTOR_GRPC_SERVER_ADDR", conf.conductor_grpc_server_addr)
      ∷ (codes "WORKER_ID", conf.worker_id)
      ∷ []);
}

-- The fields that must not be blank, by name.
abbrev pub required : SpawnRequest → List (Text × Text)
required q =
    (codes "Region", q.region)
    ∷ (codes "Cluster", q.cluster)
    ∷ (codes "TaskDefinition", q.task_definition)
    ∷ (codes "ContainerName", q.container_name)
    ∷ (
      codes "CONDUCTOR_GRPC_SERVER_ADDR",
      lookup (codes "CONDUCTOR_GRPC_SERVER_ADDR") q.environment,
    )
    ∷ (codes "WORKER_ID", lookup (codes "WORKER_ID") q.environment)
    ∷ []

abbrev pub is_blank : Text → Bool
is_blank value = is_empty (trim_space value)

abbrev pub none_given : List Text → Text → List Text
none_given [] name = name ∷ []
none_given (x ∷ xs) name = []

-- The names that validateSpawnRequest collects.
abbrev pub missing : SpawnRequest → List Text
missing q =
    filter_map (λ f. if is_blank f.1 then some f.0 else none) (required q)
    ++ none_given q.subnets (codes "Subnets")
    ++ none_given q.security_groups (codes "SecurityGroups")

-- validateSpawnRequest
unfoldable pub validate_spawn_request : SpawnRequest → Option SpawnError
validate_spawn_request q = elim (missing q) [
  | [] ↦ none
  | (name ∷ names) ↦ some (missing_fields (stable_sort text_lt (name ∷ names)))
]

-- The payload for an accepted request, its environment sorted by key.
abbrev pub task_input : SpawnRequest → RunTaskInput
task_input q = record {
  cluster = q.cluster;
  task_definition = q.task_definition;
  count = 1;
  subnets = q.subnets;
  security_groups = q.security_groups;
  assign_public_ip = q.assign_public_ip;
  container_name = q.container_name;
  environment =
      map (λ key. (key, lookup key q.environment))
        (stable_sort text_lt (map (λ p. p.0) q.environment));
}

-- BuildRunTaskInput
unfoldable pub build_run_task_input : SpawnRequest → Result SpawnError RunTaskInput
build_run_task_input q = elim (validate_spawn_request q) [
  | some e ↦ err e
  | none ↦ ok (task_input q)
]

-- aws.ToString
abbrev pub to_string : Option Text → Text
to_string none = []
to_string (some s) = s

-- formatECSFailures
unfoldable pub format_ecs_failures : List Failure → Text
format_ecs_failures failures =
    join
      (map
        (λ f.
          codes "arn="
          ++ to_string f.arn
          ++ codes " reason="
          ++ to_string f.reason
          ++ codes " detail="
          ++ to_string f.detail)
        failures)
      (codes "; ")

-- The checks of Spawn on what RunTask returned; `formatECSFailures` joins the failures.
unfoldable pub task_arn : RunTaskOutput → Result SpawnError Text
unfolding format_ecs_failures
task_arn out = elim out.failures [
  | (f ∷ fs) ↦ err (task_failures (format_ecs_failures (f ∷ fs)))
  | [] ↦ elim out.tasks [
    | [] ↦ err (wrong_task_count [])
    | (some (c ∷ arn) ∷ []) ↦ ok (c ∷ arn)
    | (some [] ∷ []) ↦ err no_task_arn
    | (none ∷ []) ↦ err no_task_arn
    | (t ∷ u ∷ rest) ↦ err (wrong_task_count (t ∷ u ∷ rest))
  ]
]

-- Spawn, over the loading of the configuration and the call of the service.
unfoldable pub spawn :
    Option Text → (RunTaskInput → Result Text RunTaskOutput) → SpawnRequest → Result SpawnError Text
unfolding task_arn
spawn config_error run_task q = elim (build_run_task_input q) [
  | err e ↦ err e
  | ok input ↦ elim config_error [
    | some e ↦ err (config_failed e)
    | none ↦ elim (run_task input) [ err e ↦ err (run_task_failed e) | ok out ↦ task_arn out ]
  ]
]
