-- ===== src/Worker/Transfers.antt =====
-- The worker's file transfers: conductor-and-worker/worker/go-worker/file-transfer.go.
pub mod RoundTrip
use aws_demo.Base.{
  ℕ, zero, suc, ◌≡◌, Bool, true, false, List, [], ◌∷◌, Option, none, some, Result, ok, err,
  if◌then◌else◌, ◌==◌,
}
use aws_demo.Text.{Text, codes}
use aws_demo.Transfer.{
  Bytes, Chunk, SourceFile, StreamError, ReceiveError, stream_file_as_chunks,
  receive_file_transfer_chunks,
}
use aws_demo.Server.Upload.{UploadedChunk}
use aws_demo.Worker.Process.{
  Report, Call, request_files_call, upload_call, Run, pure, fail, lift, ◌>>=◌, ◌>>◌, read, change,
  call, check, rename,
}

-- The conductor as its client sees it, with the zip programs and the temporary file. A call is
-- answered, or fails; a stream of work files is the messages that it will deliver.
pub record Client (W : Type 0) : Type 0 where
  pub handshake : W → Bool × W
  pub codex_error : Report → W → Bool × W
  pub shutdown : Option Text → W → Bool × W
  pub open_work_files : W → Option (List (Result Text Chunk)) × W
  pub unzip : Bytes → W → Bool × W
  pub remove_old_zip : W → Bool × W
  pub zip : W → Bool × W
  pub zip_file : W → SourceFile
  pub open_upload : W → Bool × W
  pub send : UploadedChunk → W → Bool × W
  pub close_upload : W → Bool × W

pub data TransferFailure : Type 0 where
  stream_unopened zip_unpacked old_zip_kept zip_failed stream_unclosed : TransferFailure
  receiving_failed : ReceiveError Text → TransferFailure
  sending_failed : StreamError → TransferFailure

-- The closure of requestWorkFiles.
abbrev pub receive_message : Result Text Chunk → Unit {0} → Result Text Chunk × Unit {0}
receive_message m u = (m, u)

abbrev pub opened : {A : Type 0} → Option A → Result TransferFailure A
opened none = err stream_unopened
opened (some a) = ok a

-- The message of a chunk: the first one names the worker.
unfoldable pub label : Text → Chunk → UploadedChunk
label id c =
    if c.chunk_index == 0
    then record { worker_id = id; worker_message = codes "uploading files"; chunk = c }
    else record { worker_id = []; worker_message = []; chunk = c }

module _ {W : Type 0} (client : Client W) where
  -- requestWorkFiles
  unfoldable pub request_work_files : Run W TransferFailure Unit
  request_work_files = do
    stream ← call request_files_call client.open_work_files
    messages ← lift (opened stream)
    bytes ←
        lift (rename receiving_failed (receive_file_transfer_chunks receive_message messages tt).0)
    unpacked ← change (client.unzip bytes)
    check unpacked zip_unpacked

  -- uploadFiles
  unfoldable pub upload_files : Text → Run W TransferFailure Unit
  unfolding label
  upload_files id = do
    removed ← change client.remove_old_zip
    check removed old_zip_kept
    zipped ← change client.zip
    check zipped zip_failed
    is_open ← call upload_call client.open_upload
    check is_open stream_unopened
    streamed ←
        change (λ w. stream_file_as_chunks (λ c. client.send (label id c)) (client.zip_file w) w)
    lift (rename sending_failed streamed)
    closed ← change client.close_upload
    check closed stream_unclosed
