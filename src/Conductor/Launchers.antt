-- ===== src/Conductor/Launchers.antt =====
-- The launchers of workers: spawnfunctions.go and local-spawn-worker.go of
-- conductor-and-worker/conductor/go-conductor.
pub mod Spawned
mod Tests
use aws_demo.Base.{
  Bool, true, false, List, [], ◌∷◌, ◌++◌, Option, none, some, Result, ok, err, if◌then◌else◌,
}
use aws_demo.Text.{Text, codes, is_empty}
use aws_demo.Registry.{Registry, WorkerSpawnConfig, WorkerLauncher}
use aws_demo.Fargate.{SpawnRequest, SpawnError, RunTaskInput, RunTaskOutput, spawn}

-- The error of a launch as the registry keeps it.
abbrev pub launch_answer : {A : Type 0} → (SpawnError → Text) → Result SpawnError A → Option Text
launch_answer wording (ok arn) = none
launch_answer wording (err e) = some (wording e)

-- buildFargateWorkerLauncher of a request; `meanwhile` is what other handlers do while the service
-- answers, and `wording` the text of an error.
unfoldable pub build_fargate_worker_launcher :
    (SpawnError → Text)
    → Option Text
    → (RunTaskInput → Result Text RunTaskOutput)
    → (Registry → Registry)
    → SpawnRequest
    → WorkerLauncher
build_fargate_worker_launcher wording config_error run_task meanwhile request conf r =
    (launch_answer wording (spawn config_error run_task request), meanwhile r)

abbrev pub set_variable : Text → Text → List Text → List Text
set_variable name value args = codes "-e" ∷ (name ++ (codes "=" ++ value)) ∷ args

-- localDockerWorkerRunArgs, with the values of WORKER_IMAGE and OPENAI_API_KEY.
unfoldable pub local_docker_worker_run_args : Text → Text → WorkerSpawnConfig → List Text
local_docker_worker_run_args image key conf =
    let chosen = if is_empty image then codes "condtest-worker" else image in
    codes "run"
    ∷ codes "--rm"
    ∷ codes "--network"
    ∷ codes "host"
    ∷ codes "--name"
    ∷ (codes "condtest-worker-" ++ conf.worker_id)
    ∷ set_variable (codes "CONDUCTOR_GRPC_SERVER_ADDR") conf.conductor_grpc_server_addr (
        set_variable (codes "WORKER_ID") conf.worker_id (
          set_variable (codes "RUN_DIR") conf.run_dir (
            if is_empty key
            then chosen ∷ []
            else set_variable (codes "OPENAI_API_KEY") key (chosen ∷ []))))

-- buildLocalDockerWorkerLauncher with execWorkerProcessTestingDocker: `start` is the error of starting
-- docker with some arguments, if there is one.
unfoldable pub build_local_docker_worker_launcher :
    (List Text → Option Text) → (Registry → Registry) → Text → Text → WorkerLauncher
unfolding local_docker_worker_run_args
build_local_docker_worker_launcher start meanwhile image key conf r =
    (start (local_docker_worker_run_args image key conf), meanwhile r)
