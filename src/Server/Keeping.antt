-- ===== src/Server/Keeping.antt =====
-- The handlers that end no worker: WorkerStartsHandshake, WorkerRequestsWorkFiles and
-- WorkerUploadsFiles of grpcserver.go, while no other handler runs.
use aws_demo.Base.{
  ℕ, ◌≡◌, refl, Bool, false, List, Result, ok, err, Option-cases, Result-cases, Bool-cases, inl,
  inr,
}
use aws_demo.Text.{Text}
use aws_demo.Transfer.{
  Bytes, Chunk, SourceFile, StreamError, ReceiveError, stream_file_as_chunks,
  receive_file_transfer_chunks,
}
use aws_demo.Registry.{
  WorkerEvent, safely_ended, handshake_succeeded, got_files_succeeded, uploaded_files_succeeded,
  Payload, Registry, RegistryError, request_message, kind_eq, has_event_at, record_for,
  get_required_worker, register_worker_handshake, validate_worker_id,
}
use aws_demo.Registry.Keeping.{Keeps, Keeps-refl, record_event-Keeps}
use aws_demo.Server.{
  Message, ServerError, ZipSteps, answer, validated, run_dir_at, work_files_dir_at,
  prepare_worker_work_files_zip, stream_work_files, worker_starts_handshake,
  worker_requests_work_files,
}
use aws_demo.Server.Upload.{
  UploadedChunk, Upload, no_upload, receive_upload, finish_upload, worker_uploads_files,
  uploaded_worker_files_extraction_dir,
}

-- Nothing else happens meanwhile.
abbrev pub alone : Registry → Registry
alone r = r

answer-Keeps :
    {A : Type 0} (f : ℕ → Registry → A) (r : Registry) (x : Result RegistryError ℕ × Registry)
    → Keeps r x.1
    → Keeps r (answer f x).1
answer-Keeps f r (ok p, s) h = h
answer-Keeps f r (err e, s) h = h

record_for-Keeps :
    (now : ℕ) (kind : WorkerEvent) (payload : Payload) (x : Result RegistryError ℕ) (r : Registry)
    → kind_eq kind safely_ended ≡ false
    → Keeps r (record_for now kind payload x r).1
unfolding record_for
record_for-Keeps now kind payload (ok p) r other = record_event-Keeps now kind payload p r other
record_for-Keeps now kind payload (err e) r other = Keeps-refl r

validated-Keeps :
    {A : Type 0} (id : Text) (r : Registry) (rest : Result ServerError A × Registry)
    → Keeps r rest.1
    → Keeps r (validated id r rest).1
validated-Keeps id r rest h = elim (Option-cases (validate_worker_id id)) [
  | inl e ↦ rw (validated, e) h
  | inr (x, e) ↦ rw (validated, e) (Keeps-refl r)
]

pub worker_starts_handshake-Keeps :
    (now : ℕ) (msg : Message) (r : Registry) → Keeps r (worker_starts_handshake now msg r).1
unfolding worker_starts_handshake register_worker_handshake kind_eq
worker_starts_handshake-Keeps now msg r = validated-Keeps msg.worker_id r _ (
    answer-Keeps _ r
      (register_worker_handshake now msg.worker_id (request_message msg.worker_message) r)
      (record_for-Keeps now handshake_succeeded (request_message msg.worker_message)
        (get_required_worker msg.worker_id r) r refl))

module _ {S : Type 0} (send : Chunk → S → Bool × S) where
  stream_work_files-Keeps :
      (now : ℕ) (req : Message) (p : ℕ) (r : Registry) (x : Result StreamError (Unit {0}) × S)
      → Keeps r (stream_work_files send now req alone p r x).1
  unfolding stream_work_files kind_eq
  stream_work_files-Keeps now req p r (ok u, sink) =
      record_event-Keeps now got_files_succeeded (request_message req.worker_message) p r refl
  stream_work_files-Keeps now req p r (err e, sink) = Keeps-refl r

  pub worker_requests_work_files-Keeps :
      (now : ℕ) (req : Message) (disk : ZipSteps) (files : Text → SourceFile) (r : Registry)
      (sink : S)
      → Keeps r (worker_requests_work_files send now req disk files alone r sink).1
  unfolding worker_requests_work_files
  worker_requests_work_files-Keeps now req disk files r sink =
      elim (Option-cases (validate_worker_id req.worker_id)) [
        | inr (x, e) ↦ rw (worker_requests_work_files, e) (Keeps-refl r)
        | inl e ↦ elim (Result-cases (get_required_worker req.worker_id r)) [
          | inr (x, e') ↦ rw (worker_requests_work_files, e, e') (Keeps-refl r)
          | inl (p, e') ↦ elim (Bool-cases (has_event_at handshake_succeeded r.objects p)) [
            | inr e'' ↦ rw (worker_requests_work_files, e, e', e'') (Keeps-refl r)
            | inl e'' ↦
                elim (Result-cases (
                  prepare_worker_work_files_zip disk (run_dir_at r.objects p) req.worker_id
                    (work_files_dir_at r.objects p))) [
                      | inr (x, e3) ↦ rw (worker_requests_work_files, e, e', e'', e3) (Keeps-refl r)
                      | inl (path, e3) ↦
                          rw (worker_requests_work_files, e, e', e'', e3)
                            (stream_work_files-Keeps now req p r
                              (stream_file_as_chunks send (files path) sink))
                    ]
          ]
        ]
      ]

finish_upload-Keeps :
    (unzips : Bytes → Text → Bool) (responds : Bool) (now : ℕ) (r : Registry)
    (x : Result (ReceiveError ServerError) Bytes × Upload)
    → Keeps r (finish_upload unzips responds now alone r x).1
unfolding finish_upload kind_eq
finish_upload-Keeps unzips responds now r (err e, u) = Keeps-refl r
finish_upload-Keeps unzips responds now r (ok bytes, u) = elim (Option-cases u.worker) [
  | inl e ↦ rw (finish_upload, e) (Keeps-refl r)
  | inr (p, e) ↦
      elim (Bool-cases (
        unzips bytes (uploaded_worker_files_extraction_dir (run_dir_at r.objects p) u.worker_id))) [
          | inl e' ↦
              rw (finish_upload, e, e')
                (record_event-Keeps now uploaded_files_succeeded (request_message u.upload_message)
                  p r refl)
          | inr e' ↦ rw (finish_upload, e, e') (Keeps-refl r)
        ]
]

pub worker_uploads_files-Keeps :
    (unzips : Bytes → Text → Bool) (responds : Bool) (now : ℕ)
    (messages : List (Result Text UploadedChunk)) (r : Registry)
    → Keeps r (worker_uploads_files unzips responds now alone messages r).1
unfolding worker_uploads_files
worker_uploads_files-Keeps unzips responds now messages r =
    finish_upload-Keeps unzips responds now r
      (receive_file_transfer_chunks (receive_upload r) messages no_upload)
