-- ===== src/Worker/Service/Tests.antt =====
-- A conductor that serves a worker's calls, or loses its last one, and the instances of the theorems.
use aws_demo.Base.{refl, ap, true, [], Option, none, some}
use aws_demo.Text.{codes, text_eq}
use aws_demo.Registry.{
  Registry, safely_ended, new_worker_registry, with_worker, get_worker, has_event,
  register_spawned_worker,
}
use aws_demo.Registry.Histories.{IsHistory, starts, steps, registers, history-IsWellFormed}
use aws_demo.Worker.Process.{Call, shutdown_call}
use aws_demo.Worker.Main.Calls.{ending_of}
use aws_demo.Worker.Service.{Handling}
use aws_demo.Worker.Service.Endings.{departure, heard}
use aws_demo.Worker.Service.Settling.{
  IsSettled, IsLingering, IsWorking, after_run, run_worker-IsSettled, run_worker-IsLingering,
}
use aws_demo.Worker.Tests.{desk, line, place, conf, runs}

abbrev one_worker : Registry
one_worker = with_worker conf new_worker_registry

one_worker-IsHistory : IsHistory one_worker
unfolding register_spawned_worker
one_worker-IsHistory =
    steps new_worker_registry one_worker starts
      (registers conf new_worker_registry one_worker 0 refl)

works : IsWorking (codes "w1") 0 one_worker
unfolding get_worker text_eq has_event
works = record {
  sound = history-IsWellFormed one_worker one_worker-IsHistory;
  named = refl;
  found = refl;
  alive = refl;
}

abbrev handling : Handling
handling = record {
  now = 7;
  message = codes "hi";
  disk = record { is_directory = some true; removes_old = true; makes_parent = true; zips = true };
  files = λ path. record { opens = true; size = some 0; reads = []; closes = true };
  sends = λ n. true;
  messages = [];
  unzips = λ bytes dir. true;
  responds = true;
}

abbrev served : Call → Option Handling
served c = some handling

abbrev loses_shutdown : Call → Option Handling
loses_shutdown (shutdown_call link) = none
loses_shutdown _ = some handling

run_worker-IsSettled_example :
    IsSettled
      (codes "w1")
      safely_ended
      0
      one_worker
      (after_run desk line place 0 served 0 one_worker)
run_worker-IsSettled_example =
    run_worker-IsSettled desk line place 0 served 0 one_worker
      (record { call = shutdown_call (some (codes "https://g/1")); event = safely_ended }) handling
      works (ap (λ x. departure (ending_of x)) runs) refl

run_worker-IsLingering_example :
    IsLingering (codes "w1") 0 (after_run desk line place 0 loses_shutdown 0 one_worker)
run_worker-IsLingering_example =
    run_worker-IsLingering desk line place 0 loses_shutdown 0 one_worker works
      (ap (λ x. heard loses_shutdown (departure (ending_of x))) runs)
