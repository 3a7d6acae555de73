-- ===== src/Conductor/Launchers/Tests.antt =====
-- A worker on Fargate and one in a local container, and the instance of the theorem on its spawn.
use aws_demo.Base.{◌≡◌, ◌↔◌, refl, true, false, [], ◌∷◌, none, some, any, Result, ok}
use aws_demo.Text.{Text, codes, trim_space}
use aws_demo.Scheduler.Messages.{ticket}
use aws_demo.Registry.{WorkerSpawnConfig, new_worker_registry, has_id, spawn_worker}
use aws_demo.Fargate.{
  SpawnError, RunTaskInput, RunTaskOutput, build_fargate_spawn_request, is_blank,
}
use aws_demo.Fargate.Requests.{IsLaunched}
use aws_demo.Conductor.Launchers.{build_fargate_worker_launcher, local_docker_worker_run_args}
use aws_demo.Conductor.Launchers.Spawned.{spawn_worker-fargate_iff}

abbrev conf : WorkerSpawnConfig
conf = record {
  schedule_decision = record {
    message_type = ticket;
    account_number = [];
    text = codes "Fix it.";
    to_schedule = true;
  };
  conductor_grpc_server_addr = codes "h:1";
  worker_id = codes "w1";
  run_dir = codes "/r";
  work_files_dir = codes "/r/w1";
}

runs_image :
    local_docker_worker_run_args [] [] conf
    ≡ codes "run"
      ∷ codes "--rm"
      ∷ codes "--network"
      ∷ codes "host"
      ∷ codes "--name"
      ∷ codes "condtest-worker-w1"
      ∷ codes "-e"
      ∷ codes "CONDUCTOR_GRPC_SERVER_ADDR=h:1"
      ∷ codes "-e"
      ∷ codes "WORKER_ID=w1"
      ∷ codes "-e"
      ∷ codes "RUN_DIR=/r"
      ∷ codes "condtest-worker"
      ∷ []
unfolding local_docker_worker_run_args
runs_image = refl

abbrev one_task : RunTaskInput → Result Text RunTaskOutput
one_task input = ok (record { failures = []; tasks = some (codes "arn:1") ∷ [] })

abbrev wording : SpawnError → Text
wording e = codes "not spawned"

address_given : is_blank conf.conductor_grpc_server_addr ≡ false
unfolding trim_space
address_given = refl

id_given : is_blank conf.worker_id ≡ false
unfolding trim_space
id_given = refl

spawn_worker-fargate_iff_example :
    ((spawn_worker 5 6
        (build_fargate_worker_launcher wording none one_task
          (λ r. r)
          (build_fargate_spawn_request [] [] conf))
        conf
        new_worker_registry).0
      ≡ none)
    ↔ ((any (has_id conf.worker_id new_worker_registry.objects) new_worker_registry.workers ≡ false)
        × ((arn : Text) × IsLaunched none one_task (build_fargate_spawn_request [] [] conf) arn))
spawn_worker-fargate_iff_example =
    spawn_worker-fargate_iff wording none one_task (λ r. r) [] [] 5 6 conf new_worker_registry
      address_given id_given
