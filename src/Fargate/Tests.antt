-- ===== src/Fargate/Tests.antt =====
-- A worker's request and the service's answers to it, and the instances of the theorems.
use aws_demo.Base.{false, ◌≡◌, refl, true, none, some, Result, ok, [], ◌∷◌}
use aws_demo.Text.{Text, codes, trim_space}
use aws_demo.Scheduler.Messages.{ticket}
use aws_demo.Registry.{WorkerSpawnConfig}
use aws_demo.Fargate.{
  is_blank, SpawnRequest, RunTaskInput, RunTaskOutput, build_fargate_spawn_request,
  build_run_task_input, task_input, task_arn, spawn,
}
use aws_demo.Fargate.Requests.{
  IsSent, IsLaunched, build_run_task_input-IsSent, build_fargate_spawn_request-valid,
  spawn-IsLaunched,
}

abbrev conf : WorkerSpawnConfig
conf = record {
  schedule_decision = record {
    message_type = ticket;
    account_number = [];
    text = codes "Fix it.";
    to_schedule = true;
  };
  conductor_grpc_server_addr = codes "h:1";
  worker_id = codes "w1";
  run_dir = codes "/r";
  work_files_dir = codes "/r/w1";
}

abbrev request : SpawnRequest
request = build_fargate_spawn_request (codes " Yes ") [] conf

address_given : is_blank conf.conductor_grpc_server_addr ≡ false
unfolding trim_space
address_given = refl

id_given : is_blank conf.worker_id ≡ false
unfolding trim_space
id_given = refl

accepted : build_run_task_input request ≡ ok (task_input request)
unfolding build_run_task_input
accepted =
    rw
      (
        build_run_task_input,
        build_fargate_spawn_request-valid (codes " Yes ") [] conf address_given id_given,
      )
      refl

build_run_task_input-IsSent_example :
    ((task_input request).count ≡ 1) × IsSent request.environment (task_input request).environment
build_run_task_input-IsSent_example =
    build_run_task_input-IsSent request (task_input request) accepted

-- A service that starts one task.
abbrev one_task : RunTaskInput → Result Text RunTaskOutput
one_task input = ok (record { failures = []; tasks = some (codes "arn:1") ∷ [] })

launched : spawn none one_task request ≡ ok (codes "arn:1")
unfolding spawn task_arn
launched = rw (spawn, accepted) refl

spawn-IsLaunched_example : IsLaunched none one_task request (codes "arn:1")
spawn-IsLaunched_example = spawn-IsLaunched none one_task request (codes "arn:1") launched
