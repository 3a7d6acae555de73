-- ===== src/Worker/Tests.antt =====
-- A worker's machine whose agent needs three turns, and the instances of the theorems on the worker.
use aws_demo.Transcript.Values.{tokens}
use aws_demo.Transcript.{extract_transcript_text, collect_value, append_text, finish}
use aws_demo.Worker.Publishing.{
  write_git_hub_report_markdown, run_worker_repo_command, create_pull_request_from_worker_repo,
  write_git_hub_link_file, fields_from, first_url, extract_git_hub_url_from_output,
}
use aws_demo.Base.{
  ℕ, ◌+◌, ◌≡◌, ◌↔◌, refl, true, List, [], ◌∷◌, map, none, some, ok, if◌then◌else◌, ltb, arith,
}
use aws_demo.Text.{trim_left, has_prefix, is_space, join, trim_space, Text, codes, text_eq}
use aws_demo.Text.Decimal.{digits}
use aws_demo.Json.{Json}
use aws_demo.Transfer.{
  receive_loop, stream_file_as_chunks, stream_loop, send_read, receive_file_transfer_chunks,
}
use aws_demo.Registry.{
  has_event, get_worker, Registry, handshake_succeeded, request_message, new_worker_registry,
  with_worker, record_event, WorkerSpawnConfig,
}
use aws_demo.Scheduler.Messages.{incident}
use aws_demo.Server.Upload.{receive_upload, no_upload}
use aws_demo.Worker.{CommandResult, exited, Machine, default_worker_runtime_paths}
use aws_demo.Worker.Artifacts.{
  validate_ending_report_file, first_existing_worker_repo_base_ref,
  worker_repo_has_committed_delta_from_main, validate_worker_repo_clean_worktree, repo_problems,
  current_worker_repo_branch_name, validate_successful_worker_git_repo, is_git_repository_directory,
  repo_of, find_single_worker_git_repo, validate_successful_worker_artifacts,
  read_worker_job_success_marker, validate_worker_codex_artifacts,
}
use aws_demo.Worker.Artifacts.Accepted.{IsDeliverable, validate_worker_codex_artifacts_iff}
use aws_demo.Worker.Process.{
  ◌>>=◌, call, change, read, with_errors, Process, handshake_call, request_files_call, upload_call,
  shutdown_call,
}
use aws_demo.Worker.Transfers.{request_work_files, Client, upload_files}
use aws_demo.Worker.Transfers.RoundTrip.{
  reliable_client, uploaded_messages, upload_of, upload_files-received,
}
use aws_demo.Worker.Main.{
  set_up, work, report_codex_error_and_exit, or_report, reporting,
  read_codex_thread_transcript_text, ensure_dirs_exist, publish_pull_request, publish_issue,
  write_link, build_worker_artifact_correction_prompt, finished, wrk_max_validation_attempts,
  Surroundings, validation_loop, run_worker,
}
use aws_demo.Worker.Main.Calls.{calls_of, ending_of, run_worker-calls}
use aws_demo.Worker.Main.Validation.{LoopEnds, validation_loop-LoopEnds}

abbrev word : List Text → Text
word [] = []
word (name ∷ []) = []
word (name ∷ argument ∷ arguments) = argument

abbrev answers : List Text → CommandResult
answers command =
    if text_eq (word command) (codes "branch")
    then exited 0 (codes "agent/fix\n")
    else if text_eq (word command) (codes "status")
    then exited 0 []
    else if text_eq (word command) (codes "diff")
    then exited 1 []
    else exited 0 (codes "true\n")

-- The world counts the turns of the agent; its files are there after the third.
abbrev pub desk : Machine ℕ
desk = record {
  read_file = λ w path. if ltb w 3 then none else some (codes "true\n");
  read_dir = λ w path. some (record { name = codes "app"; is_dir = true } ∷ []);
  ask = λ w path command. answers command;
  act = λ w path command. (exited 0 (codes "see https://g/1\n"), w);
  write_file = λ w path bytes. (true, w);
  make_dir = λ w path. (true, w);
  prompt = λ w text. (ok text, w + 1);
}

abbrev pub line : Client ℕ
line = record {
  handshake = λ w. (true, w);
  codex_error = λ report w. (true, w);
  shutdown = λ link w. (true, w);
  open_work_files =
      λ w. (some (ok (record { content = 80 ∷ []; chunk_index = 0; final_chunk = true }) ∷ []), w);
  unzip = λ bytes w. (true, w);
  remove_old_zip = λ w. (true, w);
  zip = λ w. (true, w);
  zip_file = λ w. record { opens = true; size = some 0; reads = []; closes = true };
  open_upload = λ w. (true, w);
  send = λ m w. (true, w);
  close_upload = λ w. (true, w);
}

abbrev pub place : Surroundings ℕ
place = record {
  server_addr = codes "h:1";
  worker_id = codes "w1";
  has_agent = true;
  has_thread = true;
  dials = true;
  initial_worker_prompt = codes "work";
  ending_report = codes "report";
  wording = λ p. [];
  thread = λ w. some Json.null;
}

abbrev app : Text
app = codes "/worker/work/repo/app"

accepts :
    validate_worker_codex_artifacts desk 3 default_worker_runtime_paths
    ≡ ok (record { should_create_pull_request = true; repo_path = app })
unfolding validate_worker_codex_artifacts read_worker_job_success_marker text_eq trim_space
    validate_successful_worker_artifacts find_single_worker_git_repo repo_of
    is_git_repository_directory validate_successful_worker_git_repo current_worker_repo_branch_name
    repo_problems validate_worker_repo_clean_worktree worker_repo_has_committed_delta_from_main
    first_existing_worker_repo_base_ref validate_ending_report_file
accepts = refl

validate_worker_codex_artifacts_iff_example :
    (validate_worker_codex_artifacts desk 3 default_worker_runtime_paths
      ≡ ok (record { should_create_pull_request = true; repo_path = app }))
    ↔ IsDeliverable desk 3 default_worker_runtime_paths app
validate_worker_codex_artifacts_iff_example =
    validate_worker_codex_artifacts_iff desk 3 default_worker_runtime_paths app

abbrev pub beginning : Process ℕ
beginning = record { world = 0; calls = [] }

-- The third turn is the first correction.
pub runs : run_worker desk line place beginning ≡ (
  ok (finished (some (codes "https://g/1"))),
  record {
    world = 3;
    calls =
        handshake_call
        ∷ request_files_call
        ∷ upload_call
        ∷ shutdown_call (some (codes "https://g/1"))
        ∷ [];
  },
)
unfolding run_worker set_up work report_codex_error_and_exit or_report reporting validation_loop
    read_codex_thread_transcript_text ensure_dirs_exist publish_pull_request publish_issue
    write_link build_worker_artifact_correction_prompt digits ◌>>=◌ call change read with_errors
    request_work_files upload_files validate_worker_codex_artifacts read_worker_job_success_marker
    validate_successful_worker_artifacts find_single_worker_git_repo repo_of
    is_git_repository_directory current_worker_repo_branch_name validate_worker_repo_clean_worktree
    first_existing_worker_repo_base_ref worker_repo_has_committed_delta_from_main repo_problems
    validate_successful_worker_git_repo validate_ending_report_file write_git_hub_report_markdown
    run_worker_repo_command create_pull_request_from_worker_repo write_git_hub_link_file fields_from
    first_url extract_git_hub_url_from_output extract_transcript_text collect_value append_text
    finish tokens receive_file_transfer_chunks receive_loop stream_file_as_chunks stream_loop
    send_read text_eq trim_space trim_left has_prefix is_space join
runs = refl

run_worker-calls_example :
    (let r = run_worker desk line place beginning in r.1.calls ≡ calls_of (ending_of r))
run_worker-calls_example = run_worker-calls desk line place 0

validation_loop-LoopEnds_example : LoopEnds desk line place 2 (
    validation_loop desk line place wrk_max_validation_attempts 1
      (record { world = 2; calls = [] }))
validation_loop-LoopEnds_example =
    validation_loop-LoopEnds desk line place (record { world = 2; calls = [] })

abbrev pub conf : WorkerSpawnConfig
conf = record {
  schedule_decision = record {
    message_type = incident;
    account_number = codes "1";
    text = codes "cpu";
    to_schedule = true;
  };
  conductor_grpc_server_addr = codes "h:1";
  worker_id = codes "w1";
  run_dir = codes "/r";
  work_files_dir = codes "/r/w1";
}

abbrev shaken : Registry
shaken =
    record_event 3 handshake_succeeded (request_message (codes "hi")) 0
      (with_worker conf new_worker_registry)

upload_files-received_example :
    ((upload_files
        (reliable_client ((80 ∷ []) ∷ (75 ∷ []) ∷ []))
        (codes "w1")
        (record { world = []; calls = [] })).0
      ≡ ok tt)
    × (receive_file_transfer_chunks
          (receive_upload shaken)
          (map ok (uploaded_messages (codes "w1") ((80 ∷ []) ∷ (75 ∷ []) ∷ [])))
          no_upload
        ≡ (ok (80 ∷ 75 ∷ []), upload_of (codes "w1") 0))
unfolding get_worker record_event text_eq has_event
upload_files-received_example =
    upload_files-received (codes "w1") ((80 ∷ []) ∷ (75 ∷ []) ∷ []) shaken 0 (omega arith) refl refl
      refl
