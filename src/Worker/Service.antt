-- ===== src/Worker/Service.antt =====
-- A worker's calls as the conductor serves them: worker.go and file-transfer.go of the worker, with
-- grpcserver.go and shutdowngate.go of the conductor.
pub mod Endings
pub mod Settling
mod Tests
use aws_demo.Base.{ℕ, zero, suc, ◌≡◌, Bool, List, [], ◌∷◌, Option, none, some, Result}
use aws_demo.Text.{Text}
use aws_demo.Transfer.{Bytes, Chunk, SourceFile}
use aws_demo.Registry.{Registry}
use aws_demo.Server.{
  Message, ZipSteps, worker_starts_handshake, worker_requests_work_files, worker_starts_shutdown,
  worker_sends_codex_error,
}
use aws_demo.Server.Keeping.{alone}
use aws_demo.Server.Upload.{UploadedChunk, worker_uploads_files}
use aws_demo.Worker.Process.{
  Call, handshake_call, request_files_call, upload_call, codex_error_call, shutdown_call,
}

-- What a handler meets: the time, the message of the request, the file system, the network (the count
-- of chunks decides which ones are sent), and what is on the upload stream.
pub record Handling : Type 0 where
  pub now : ℕ
  pub message : Text
  pub disk : ZipSteps
  pub files : Text → SourceFile
  pub sends : ℕ → Bool
  pub messages : List (Result Text UploadedChunk)
  pub unzips : Bytes → Text → Bool
  pub responds : Bool

abbrev pub send_counted : (ℕ → Bool) → Chunk → ℕ → Bool × ℕ
send_counted sends c n = (sends n, suc n)

abbrev pub message_of : Text → Handling → Message
message_of id h = record { worker_id = id; worker_message = h.message }

-- The registry after a call of the worker was served.
abbrev pub serve : Text → Handling → Call → Registry → Registry
serve id h handshake_call r = (worker_starts_handshake h.now (message_of id h) r).1
serve id h request_files_call r =
    (worker_requests_work_files (send_counted h.sends) h.now (message_of id h) h.disk h.files alone
      r 0).1
serve id h upload_call r = (worker_uploads_files h.unzips h.responds h.now alone h.messages r).1
serve id h (codex_error_call e) r = (worker_sends_codex_error h.now (message_of id h) r).1
serve id h (shutdown_call link) r = (worker_starts_shutdown h.now (message_of id h) r).1

-- The registry after the calls in order, each of which is served or does not reach the conductor.
abbrev pub serve_calls : Text → (Call → Option Handling) → List Call → Registry → Registry
serve_calls id conductor [] r = r
serve_calls id conductor (c ∷ cs) r = elim (conductor c) [
  | none ↦ serve_calls id conductor cs r
  | some h ↦ serve_calls id conductor cs (serve id h c r)
]
