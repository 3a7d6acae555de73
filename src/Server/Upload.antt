-- ===== src/Server/Upload.antt =====
-- WorkerUploadsFiles of conductor-and-worker/conductor/go-conductor/grpcserver.go: its receiving
-- closure, which finds the worker on the first message, and what follows the transfer.
use aws_demo.Base.{ℕ, Bool, List, [], ◌∷◌, ◌++◌, Option, none, some, Result, ok, err, if◌then◌else◌}
use aws_demo.Text.{Text, codes}
use aws_demo.Host.Joining.{join}
use aws_demo.Transfer.{Bytes, Chunk, ReceiveError, receive_file_transfer_chunks}
use aws_demo.Registry.{
  Registry, request_message, has_event_at, handshake_succeeded, uploaded_files_succeeded,
  record_event, get_required_worker, validate_worker_id,
}
use aws_demo.Server.{
  ServerError, GeneralResponse, registry_error, handshake_missing, stream_receive_failed,
  unzip_failed, response_failed, nil_worker, general_response, run_dir_at, file_transfer_dir_name,
}

-- A message of the upload stream.
pub record UploadedChunk : Type 0 where
  pub worker_id : Text
  pub worker_message : Text
  pub chunk : Chunk

-- The variables that the receiving closure captures.
pub record Upload : Type 0 where
  pub worker : Option ℕ
  pub worker_id : Text
  pub upload_message : Text

abbrev pub no_upload : Upload
no_upload = record { worker = none; worker_id = []; upload_message = [] }

-- The first message names the worker; `worker_id` is assigned before the checks.
unfoldable pub identify : Registry → UploadedChunk → Upload → Result ServerError Chunk × Upload
identify r m u =
    let named = record u { worker_id = m.worker_id } in
    elim (validate_worker_id m.worker_id) [
      | some e ↦ (err (registry_error e), named)
      | none ↦ elim (get_required_worker m.worker_id r) [
        | err e ↦ (err (registry_error e), named)
        | ok p ↦
            if has_event_at handshake_succeeded r.objects p
            then (
              ok m.chunk,
              record {
                worker = some p;
                worker_id = m.worker_id;
                upload_message = m.worker_message;
              },
            )
            else (err (handshake_missing m.worker_id), named)
      ]
    ]

-- The closure of WorkerUploadsFiles: `stream.Recv` failed, or delivered a message.
unfoldable pub receive_upload :
    Registry → Result Text UploadedChunk → Upload → Result ServerError Chunk × Upload
unfolding identify
receive_upload r (err e) u = (err (stream_receive_failed e), u)
receive_upload r (ok m) u = elim u.worker [ some p ↦ (ok m.chunk, u) | none ↦ identify r m u ]

pub data UploadError : Type 0 where
  transfer_failed : ReceiveError ServerError → UploadError
  handling_failed : ServerError → UploadError

-- uploadedWorkerFilesExtractionDir
unfoldable pub uploaded_worker_files_extraction_dir : Text → Text → Text
uploaded_worker_files_extraction_dir run_dir worker_id =
    join (run_dir ∷ file_transfer_dir_name ∷ (worker_id ++ codes "-results") ∷ [])

-- After the transfer: `unzips` says whether UnzipBytesToDirectory accepts the bytes
-- for a directory, and `responds` whether SendAndClose succeeds. `worker.RunDir` of a nil worker panics.
unfoldable pub finish_upload :
    (Bytes → Text → Bool)
    → Bool
    → ℕ
    → (Registry → Registry)
    → Registry
    → Result (ReceiveError ServerError) Bytes × Upload
    → Result UploadError GeneralResponse × Registry
finish_upload unzips responds now meanwhile r (err e, u) = (err (transfer_failed e), meanwhile r)
finish_upload unzips responds now meanwhile r (ok bytes, u) = elim u.worker [
  | none ↦ (err (handling_failed nil_worker), meanwhile r)
  | some p ↦
      let recorded =
        record_event now uploaded_files_succeeded (request_message u.upload_message) p
          (meanwhile r) in
      if unzips bytes (uploaded_worker_files_extraction_dir (run_dir_at r.objects p) u.worker_id)
      then (
        if responds
            then ok (general_response u.upload_message p recorded)
            else err (handling_failed response_failed),
        recorded,
      )
      else (err (handling_failed unzip_failed), meanwhile r)
]

-- WorkerUploadsFiles
unfoldable pub worker_uploads_files :
    (Bytes → Text → Bool)
    → Bool
    → ℕ
    → (Registry → Registry)
    → List (Result Text UploadedChunk)
    → Registry
    → Result UploadError GeneralResponse × Registry
unfolding finish_upload
worker_uploads_files unzips responds now meanwhile messages r =
    finish_upload unzips responds now meanwhile r
      (receive_file_transfer_chunks (receive_upload r) messages no_upload)
