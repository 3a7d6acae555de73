-- ===== src/Server/Tests.antt =====
-- A conductor with one worker, and the instances of the theorems on the registry and its handlers.
use aws_demo.Base.{◌≡◌, ◌≢◌, refl, true, List, [], ◌∷◌, some, Result, ok, err}
use aws_demo.Text.{Text, codes, text_eq}
use aws_demo.Scheduler.Messages.{incident}
use aws_demo.Transfer.{receive_file_transfer_chunks}
use aws_demo.Registry.{
  validate_worker_id, get_required_worker, has_event, spawn_config, spawn_started,
  uploaded_files_succeeded, WorkerSpawnConfig, WorkerLauncher, Registry, launch_failed, badly_ended,
  codex_error, safely_ended, handshake_succeeded, request_message, new_worker_registry, with_worker,
  get_worker, record_event, register_spawned_worker, spawn_worker,
}
use aws_demo.Registry.Invariant.{IsWellFormed}
use aws_demo.Registry.Lookup.{IsGone}
use aws_demo.Registry.Spawning.{launching, spawn_worker-IsGone}
use aws_demo.Registry.Histories.{IsHistory, starts, steps, registers, records, history-IsWellFormed}
use aws_demo.Server.{
  Message, general_response, worker_starts_shutdown, worker_sends_codex_error, nil_worker,
}
use aws_demo.Server.Upload.{receive_upload, UploadedChunk, worker_uploads_files, handling_failed}
use aws_demo.Server.Deregister.{worker_starts_shutdown-IsGone, worker_sends_codex_error-IsGone}
use aws_demo.Server.Uploads.{
  IsUploaded, worker_uploads_files-IsUploaded, worker_uploads_files-nil_worker,
}

abbrev conf : WorkerSpawnConfig
conf = record {
  schedule_decision = record {
    message_type = incident;
    account_number = codes "1";
    text = codes "cpu";
    to_schedule = true;
  };
  conductor_grpc_server_addr = codes "h:1";
  worker_id = codes "w1";
  run_dir = codes "/r";
  work_files_dir = codes "/r/w1";
}

abbrev one_worker : Registry
one_worker = with_worker conf new_worker_registry

abbrev shaken : Registry
shaken = record_event 3 handshake_succeeded (request_message (codes "hi")) 0 one_worker

shaken-IsHistory : IsHistory shaken
unfolding register_spawned_worker
shaken-IsHistory =
    steps one_worker shaken
      (steps new_worker_registry one_worker starts
        (registers conf new_worker_registry one_worker 0 refl))
      (records 3 handshake_succeeded (request_message (codes "hi")) 0 one_worker)

history-IsWellFormed_example : IsWellFormed shaken
history-IsWellFormed_example = history-IsWellFormed shaken shaken-IsHistory

abbrev goodbye : Message
goodbye = record { worker_id = codes "w1"; worker_message = codes "bye" }

found : get_worker (codes "w1") shaken ≡ some 0
unfolding get_worker record_event text_eq
found = refl

worker_starts_shutdown-IsGone_example :
    ((worker_starts_shutdown 9 goodbye shaken).0
      ≡ ok (general_response (codes "bye") 0 (worker_starts_shutdown 9 goodbye shaken).1))
    × IsGone (codes "w1") safely_ended 0 shaken (worker_starts_shutdown 9 goodbye shaken).1
worker_starts_shutdown-IsGone_example =
    worker_starts_shutdown-IsGone 9 goodbye 0 shaken (history-IsWellFormed shaken shaken-IsHistory)
      refl found

worker_sends_codex_error-IsGone_example :
    ((worker_sends_codex_error 9 goodbye shaken).0
      ≡ ok (general_response (codes "bye") 0 (worker_sends_codex_error 9 goodbye shaken).1))
    × IsGone (codes "w1") codex_error 0 shaken (worker_sends_codex_error 9 goodbye shaken).1
worker_sends_codex_error-IsGone_example =
    worker_sends_codex_error-IsGone 9 goodbye 0 shaken
      (history-IsWellFormed shaken shaken-IsHistory) refl found

-- A launcher that finds no capacity.
abbrev no_capacity : WorkerLauncher
no_capacity c r = (some (codes "no capacity"), r)

abbrev launched : Registry
launched = launching 5 conf new_worker_registry

launched-IsHistory : IsHistory launched
unfolding register_spawned_worker
launched-IsHistory =
    steps one_worker launched
      (steps new_worker_registry one_worker starts
        (registers conf new_worker_registry one_worker 0 refl))
      (records 5 spawn_started (spawn_config conf) 0 one_worker)

found_launched : get_worker (codes "w1") launched ≡ some 0
unfolding get_worker record_event text_eq
found_launched = refl

spawn_worker-IsGone_example :
    ((spawn_worker 5 6 no_capacity conf new_worker_registry).0
      ≡ some (launch_failed (codes "w1") (codes "no capacity")))
    × IsGone
        (codes "w1")
        badly_ended
        0
        launched
        (spawn_worker 5 6 no_capacity conf new_worker_registry).1
spawn_worker-IsGone_example =
    spawn_worker-IsGone 5 6 no_capacity conf new_worker_registry launched (codes "no capacity") refl
      refl (history-IsWellFormed launched launched-IsHistory) found_launched

abbrev upload : List (Result Text UploadedChunk)
upload =
    ok (record {
      worker_id = codes "w1";
      worker_message = codes "done";
      chunk = record { content = 80 ∷ 75 ∷ []; chunk_index = 0; final_chunk = true };
    })
    ∷ []

uploads : worker_uploads_files (λ b d. true) true 9 (λ r. r) upload shaken ≡ (
  ok (general_response (codes "done") 0 shaken),
  record_event 9 uploaded_files_succeeded (request_message (codes "done")) 0 shaken,
)
unfolding worker_uploads_files receive_file_transfer_chunks receive_upload record_event
    validate_worker_id get_required_worker get_worker text_eq has_event
uploads = refl

worker_uploads_files-IsUploaded_example :
    IsUploaded
      (λ b d. true)
      9
      (λ r. r)
      upload
      shaken
      (general_response (codes "done") 0 shaken)
      (record_event 9 uploaded_files_succeeded (request_message (codes "done")) 0 shaken)
worker_uploads_files-IsUploaded_example =
    worker_uploads_files-IsUploaded (λ b d. true) true 9 (λ r. r) upload shaken
      (general_response (codes "done") 0 shaken)
      (record_event 9 uploaded_files_succeeded (request_message (codes "done")) 0 shaken) uploads

worker_uploads_files-nil_worker_example :
    (worker_uploads_files (λ b d. true) true 9 (λ r. r) upload shaken).0
    ≢ err (handling_failed nil_worker)
worker_uploads_files-nil_worker_example =
    worker_uploads_files-nil_worker (λ b d. true) true 9 (λ r. r) upload shaken
