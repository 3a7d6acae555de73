-- ===== src/Server.antt =====
-- The conductor's gRPC handlers: conductor-and-worker/conductor/go-conductor/grpcserver.go, with the
-- zip steps of file-transfer.go. A worker is an address in the registry's store, as in Registry. A
-- handler that waits on the network lets others run: `meanwhile` is what they do to the registry.
pub mod Deregister
pub mod Keeping
pub mod Upload
pub mod Uploads
mod Tests
use aws_demo.Base.{
  ℕ, ◌≡◌, Bool, true, false, List, [], ◌∷◌, ◌++◌, Option, none, some, Result, ok, err,
  if◌then◌else◌,
}
use aws_demo.Text.{Text, codes, is_empty}
use aws_demo.Host.Joining.{join}
use aws_demo.Transfer.{
  Bytes, Chunk, SourceFile, StreamError, ReceiveError, stream_file_as_chunks,
  receive_file_transfer_chunks,
}
use aws_demo.Registry.{
  SpawnedWorker, Registry, RegistryError, Payload, request_message, object, has_event_at,
  handshake_succeeded, got_files_succeeded, uploaded_files_succeeded, record_event,
  get_required_worker, register_worker_handshake, register_worker_safely_ended,
  record_worker_error_and_deregister, wait_fargate_and_deregister, validate_worker_id,
}

-- The two fields that Handshake, Shutdown, CodexError and FileTransferRequest share.
pub record Message : Type 0 where
  pub worker_id : Text
  pub worker_message : Text

-- GeneralResponse
pub record GeneralResponse : Type 0 where
  pub worker_id : Text
  pub worker_message : Text

pub data PrepareError : Type 0 where
  dir_required dir_missing not_a_directory remove_failed parent_failed zip_failed : PrepareError

pub data ServerError : Type 0 where
  registry_error : RegistryError → ServerError
  handshake_missing : Text → ServerError
  prepare_failed : PrepareError → ServerError
  streaming_failed : StreamError → ServerError
  stream_receive_failed : Text → ServerError
  unzip_failed response_failed nil_worker : ServerError

-- The fields of the worker behind an address.
abbrev pub id_at : List SpawnedWorker → ℕ → Text
id_at objects p = elim (object objects p) [ none ↦ [] | some w ↦ w.id ]

abbrev pub run_dir_at : List SpawnedWorker → ℕ → Text
run_dir_at objects p = elim (object objects p) [ none ↦ [] | some w ↦ w.config.run_dir ]

abbrev pub work_files_dir_at : List SpawnedWorker → ℕ → Text
work_files_dir_at objects p = elim (object objects p) [
  | none ↦ []
  | some w ↦ w.config.work_files_dir
]

-- `Conductor gets message: "..."`
abbrev pub acknowledgement : Text → Text
acknowledgement message = codes "Conductor gets message: \"" ++ message ++ codes "\""

abbrev pub general_response : Text → ℕ → Registry → GeneralResponse
general_response message p r = record {
  worker_id = id_at r.objects p;
  worker_message = acknowledgement message;
}

abbrev pub answer :
    {A : Type 0}
    → (ℕ → Registry → A)
    → Result RegistryError ℕ × Registry
    → Result ServerError A × Registry
answer f (ok p, r) = (ok (f p r), r)
answer f (err e, r) = (err (registry_error e), r)

-- `if err := validateWorkerID(workerID); err != nil` before the rest of a handler.
abbrev pub validated :
    {A : Type 0}
    → Text
    → Registry
    → Result ServerError A × Registry
    → Result ServerError A × Registry
validated id r rest = elim (validate_worker_id id) [
  | some e ↦ (err (registry_error e), r)
  | none ↦ rest
]

-- WorkerStartsHandshake; its response is one message.
unfoldable pub worker_starts_handshake : ℕ → Message → Registry → Result ServerError Text × Registry
worker_starts_handshake now msg r = validated msg.worker_id r (
    answer (λ p r'. acknowledgement msg.worker_message)
      (register_worker_handshake now msg.worker_id (request_message msg.worker_message) r))

-- The end of WorkerStartsShutdown, after registerWorkerSafelyEnded.
unfoldable pub deregister :
    Message → Result RegistryError ℕ × Registry → Result ServerError GeneralResponse × Registry
deregister msg (err e, r) = (err (registry_error e), r)
deregister msg (ok p, r) =
    let (failed, r') = wait_fargate_and_deregister msg.worker_id r in
    elim failed [
      | some e ↦ (err (registry_error e), r')
      | none ↦ (ok (general_response msg.worker_message p r'), r')
    ]

-- WorkerStartsShutdown
unfoldable pub worker_starts_shutdown :
    ℕ → Message → Registry → Result ServerError GeneralResponse × Registry
unfolding deregister
worker_starts_shutdown now msg r = validated msg.worker_id r (
    deregister msg
      (register_worker_safely_ended now msg.worker_id (request_message msg.worker_message) r))

-- WorkerSendsCodexError
unfoldable pub worker_sends_codex_error :
    ℕ → Message → Registry → Result ServerError GeneralResponse × Registry
worker_sends_codex_error now msg r = validated msg.worker_id r (
    answer (general_response msg.worker_message)
      (record_worker_error_and_deregister now msg.worker_id (request_message msg.worker_message) r))

-- What the file system answers while a work directory is zipped: the kind of the path, and whether
-- each step succeeds (removing a file that does not exist does).
pub record ZipSteps : Type 0 where
  pub is_directory : Option Bool
  pub removes_old : Bool
  pub makes_parent : Bool
  pub zips : Bool

-- validateWorkerWorkFilesDirExists
unfoldable pub validate_worker_work_files_dir_exists : Option Bool → Text → Option PrepareError
validate_worker_work_files_dir_exists is_directory dir =
    if is_empty dir then some dir_required else elim is_directory [
      | none ↦ some dir_missing
      | some directory ↦ if directory then none else some not_a_directory
    ]

abbrev pub file_transfer_dir_name : Text
file_transfer_dir_name = codes "filetransfer"

-- The path of the zip file of a worker's work files.
unfoldable pub worker_zip_file_path : Text → Text → Text
worker_zip_file_path run_dir worker_id =
    join (run_dir ∷ file_transfer_dir_name ∷ (worker_id ++ codes ".zip") ∷ [])

-- prepareWorkerWorkFilesZip of the run directory, the worker and its work directory.
unfoldable pub prepare_worker_work_files_zip :
    ZipSteps → Text → Text → Text → Result PrepareError Text
unfolding validate_worker_work_files_dir_exists
prepare_worker_work_files_zip disk run_dir worker_id dir =
    elim (validate_worker_work_files_dir_exists disk.is_directory dir) [
      | some e ↦ err e
      | none ↦
          if disk.removes_old
          then if disk.makes_parent
            then (if disk.zips then ok (worker_zip_file_path run_dir worker_id) else err zip_failed)
            else err parent_failed
          else err remove_failed
    ]

module _ {S : Type 0} (send : Chunk → S → Bool × S) where
  stream_work_files :
      ℕ
      → Message
      → (Registry → Registry)
      → ℕ
      → Registry
      → Result StreamError (Unit {0}) × S
      → Result ServerError (Unit {0}) × Registry × S
  stream_work_files now req meanwhile p r (err e, sink) =
      (err (streaming_failed e), meanwhile r, sink)
  stream_work_files now req meanwhile p r (ok u, sink) = (
    ok tt,
    record_event now got_files_succeeded (request_message req.worker_message) p (meanwhile r),
    sink,
  )

  -- WorkerRequestsWorkFiles, with `files` what stands at each path after the zip steps.
  unfoldable pub worker_requests_work_files :
      ℕ
      → Message
      → ZipSteps
      → (Text → SourceFile)
      → (Registry → Registry)
      → Registry
      → S
      → Result ServerError (Unit {0}) × Registry × S
  unfolding stream_work_files
  worker_requests_work_files now req disk files meanwhile r sink =
      elim (validate_worker_id req.worker_id) [
        | some e ↦ (err (registry_error e), r, sink)
        | none ↦ elim (get_required_worker req.worker_id r) [
          | err e ↦ (err (registry_error e), r, sink)
          | ok p ↦
              if has_event_at handshake_succeeded r.objects p
              then elim (prepare_worker_work_files_zip disk (run_dir_at r.objects p) req.worker_id
                  (work_files_dir_at r.objects p)) [
                    | err e ↦ (err (prepare_failed e), r, sink)
                    | ok path ↦
                        stream_work_files now req meanwhile p r
                          (stream_file_as_chunks send (files path) sink)
                  ]
              else (err (handshake_missing req.worker_id), r, sink)
        ]
      ]
