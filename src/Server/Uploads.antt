-- ===== src/Server/Uploads.antt =====
-- What a successful upload says: WorkerUploadsFiles.
use aws_demo.Base.{
  ◌≢◌, Option-cases, Result-cases, ℕ, ◌+◌, ◌≡◌, refl, sym, ap, ◌∙◌, Bool, true, false, List, [],
  ◌∷◌, ◌++◌, none, some, Result, ok, err, Bool-cases, inl, inr, ◌⊎◌, ◌==◌,
}
use aws_demo.Text.{Text, is_empty}
use aws_demo.Registry.{
  Registry, request_message, get_worker, get_required_worker, handshake_succeeded, has_event_at,
  record_event, validate_worker_id, uploaded_files_succeeded,
}
use aws_demo.Transfer.{Bytes, Chunk, ReceiveError, receive_loop, receive_file_transfer_chunks}
use aws_demo.Server.{nil_worker, GeneralResponse, general_response, run_dir_at}
use aws_demo.Server.Upload.{
  UploadedChunk, Upload, no_upload, identify, receive_upload, finish_upload, worker_uploads_files,
  handling_failed, uploaded_worker_files_extraction_dir,
}

-- The upload's worker was found under its ID, and had completed its handshake.
pub record IsIdentified (r : Registry) (u : Upload) : Type 0 where
  pub address : ℕ
  pub known : u.worker ≡ some address
  pub found : get_worker u.worker_id r ≡ some address
  pub shook : has_event_at handshake_succeeded r.objects address ≡ true

identify-IsIdentified :
    (r : Registry) (m : UploadedChunk) (u u' : Upload) (c : Chunk)
    → identify r m u ≡ (ok c, u')
    → IsIdentified r u'
unfolding identify get_required_worker validate_worker_id
identify-IsIdentified r m u u' c h = elim (Bool-cases (is_empty m.worker_id)) [
  | inl e ↦ absurd (cc (ap (λ x. x.0) (rw (identify, e, validate_worker_id) at h)))
  | inr e ↦ elim (Option-cases (get_worker m.worker_id r)) [
    | inl e' ↦
        absurd
          (cc (ap (λ x. x.0) (rw (identify, e, validate_worker_id, e', get_required_worker) at h)))
    | inr (p, e') ↦ elim (Bool-cases (has_event_at handshake_succeeded r.objects p)) [
      | inl e'' ↦
          rw
            (sym (
              ap (λ x. x.1)
                (rw (identify, e, validate_worker_id, e', get_required_worker, e'') at h)))
            (record { address = p; known = refl; found = e'; shook = e'' })
      | inr e'' ↦ absurd (
          cc (
            ap (λ x. x.0)
              (rw (identify, e, validate_worker_id, e', get_required_worker, e'') at h)))
    ]
  ]
]

receive_upload-IsIdentified :
    (r : Registry) (m : Result Text UploadedChunk) (u u' : Upload) (c : Chunk)
    → (u.worker ≡ none) ⊎ IsIdentified r u
    → receive_upload r m u ≡ (ok c, u')
    → IsIdentified r u'
unfolding receive_upload
receive_upload-IsIdentified r (err e) u u' c ready h = absurd (cc (ap (λ x. x.0) h))
receive_upload-IsIdentified r (ok m) u u' c (inl none_yet) h =
    identify-IsIdentified r m (record u { worker = none }) u' c (rw none_yet at h)
receive_upload-IsIdentified r (ok m) u u' c (inr i) h =
    rw (sym (ap (λ x. x.1) (rw i.known at h)))
      (record { address = i.address; known = refl; found = i.found; shook = i.shook })

-- A message that a transfer goes on after.
record Accepted {S M E : Type 0} (f : M → S → Result E Chunk × S) (m : M) (rest : List M) (i : ℕ)
    (buffer : Bytes) (s : S) (last : Result (ReceiveError E) Bytes × S) : Type 0 where
  chunk : Chunk
  state : S
  received : f m s ≡ (ok chunk, state)
  later : receive_loop f rest (i + 1) chunk.final_chunk (buffer ++ chunk.content) state ≡ last

receive_loop-Accepted :
    {S M E : Type 0} (f : M → S → Result E Chunk × S) (m : M) (rest : List M) (i : ℕ) (final : Bool)
    (buffer bytes : Bytes) (s s' : S)
    → receive_loop f (m ∷ rest) i final buffer s ≡ (ok bytes, s')
    → Accepted f m rest i buffer s (ok bytes, s')
unfolding receive_loop
receive_loop-Accepted f m rest i final buffer bytes s s' h = elim (Result-cases (f m s).0) [
  | inr (x, e) ↦ absurd (cc (ap (λ o. o.0) (rw (receive_loop, e) at h)))
  | inl (c, e) ↦ elim (Bool-cases (c.chunk_index == i)) [
    | inr e' ↦ absurd (cc (ap (λ o. o.0) (rw (receive_loop, e, e') at h)))
    | inl e' ↦ elim (Bool-cases final) [
      | inl e'' ↦ absurd (cc (ap (λ o. o.0) (rw (receive_loop, e, e', e'') at h)))
      | inr e'' ↦ record {
        chunk = c;
        state = (f m s).1;
        received = ap (λ o. (o, (f m s).1)) e;
        later = rw (receive_loop, e, e', e'') at h;
      }
    ]
  ]
]

loop-IsIdentified :
    (r : Registry) (ms : List (Result Text UploadedChunk)) (i : ℕ) (final : Bool)
    (buffer bytes : Bytes) (u u' : Upload)
    → (u.worker ≡ none) ⊎ IsIdentified r u
    → (final ≡ true → IsIdentified r u)
    → receive_loop (receive_upload r) ms i final buffer u ≡ (ok bytes, u')
    → IsIdentified r u'
unfolding receive_loop
loop-IsIdentified r [] i true buffer bytes u u' ready done h =
    rw (sym (ap (λ x. x.1) h)) (done refl)
loop-IsIdentified r [] i false buffer bytes u u' ready done h = absurd (cc (ap (λ x. x.0) h))
loop-IsIdentified r (m ∷ ms) i final buffer bytes u u' ready done h =
    let a = receive_loop-Accepted (receive_upload r) m ms i final buffer bytes u u' h in
    let found = receive_upload-IsIdentified r m u a.state a.chunk ready a.received in
    loop-IsIdentified r ms (i + 1) a.chunk.final_chunk (buffer ++ a.chunk.content) bytes a.state u'
      (inr found) (λ e. found) a.later

transfer-IsIdentified :
    (r : Registry) (messages : List (Result Text UploadedChunk)) (bytes : Bytes)
    → (receive_file_transfer_chunks (receive_upload r) messages no_upload).0 ≡ ok bytes
    → IsIdentified r (receive_file_transfer_chunks (receive_upload r) messages no_upload).1
unfolding receive_file_transfer_chunks
transfer-IsIdentified r messages bytes e =
    let last = receive_loop (receive_upload r) messages 0 false [] no_upload in
    loop-IsIdentified r messages 0 false [] bytes no_upload last.1 (inl refl) (λ f. absurd (cc f))
      (ap (λ o. (o, last.1)) e)

-- What a successful call did.
pub record IsUploaded (unzips : Bytes → Text → Bool) (now : ℕ) (meanwhile : Registry → Registry)
    (messages : List (Result Text UploadedChunk)) (r : Registry) (answer : GeneralResponse)
    (after : Registry) : Type 0 where
  pub bytes : Bytes
  pub upload : Upload
  pub identified : IsIdentified r upload
  pub transferred :
      receive_file_transfer_chunks (receive_upload r) messages no_upload ≡ (ok bytes, upload)
  pub unzipped :
      unzips bytes (
        uploaded_worker_files_extraction_dir
          (run_dir_at r.objects identified.address)
          upload.worker_id)
      ≡ true
  pub recorded :
      after
      ≡ record_event now uploaded_files_succeeded
          (request_message upload.upload_message)
          identified.address
          (meanwhile r)
  pub answered : answer ≡ general_response upload.upload_message identified.address after

module _ (unzips : Bytes → Text → Bool) (responds : Bool) (now : ℕ)
    (meanwhile : Registry → Registry) (r : Registry) where
  finish_upload-ok :
      (bytes : Bytes) (u : Upload) (p : ℕ) (answer : GeneralResponse) (after : Registry)
      → u.worker ≡ some p
      → finish_upload unzips responds now meanwhile r (ok bytes, u) ≡ (ok answer, after)
      → (unzips bytes (uploaded_worker_files_extraction_dir (run_dir_at r.objects p) u.worker_id)
          ≡ true)
        × (after
            ≡ record_event now uploaded_files_succeeded
                (request_message u.upload_message)
                p
                (meanwhile r))
        × (answer ≡ general_response u.upload_message p after)
  unfolding finish_upload
  finish_upload-ok bytes u p answer after w h =
      elim (Bool-cases (
        unzips bytes (uploaded_worker_files_extraction_dir (run_dir_at r.objects p) u.worker_id))) [
          | inr e ↦ absurd (cc (ap (λ o. o.0) (rw (finish_upload, w, e) at h)))
          | inl e ↦ elim (Bool-cases responds) [
            | inr e' ↦ absurd (cc (ap (λ o. o.0) (rw (finish_upload, w, e, e') at h)))
            | inl e' ↦
                let k = rw (finish_upload, w, e, e') at h in
                let same = ap (λ o. o.1) k in
                let answered : general_response u.upload_message p (
                      record_event now uploaded_files_succeeded (request_message u.upload_message) p
                        (meanwhile r))
                    ≡ answer =
                  cc (ap (λ o. o.0) k) in
                (e, sym same, sym answered ∙ ap (general_response u.upload_message p) same)
          ]
        ]

  finish_upload-nil_worker :
      (bytes : Bytes) (u : Upload) (p : ℕ)
      → u.worker ≡ some p
      → (finish_upload unzips responds now meanwhile r (ok bytes, u)).0
        ≢ err (handling_failed nil_worker)
  unfolding finish_upload
  finish_upload-nil_worker bytes u p w h =
      elim (Bool-cases (
        unzips bytes (uploaded_worker_files_extraction_dir (run_dir_at r.objects p) u.worker_id))) [
          | inr e ↦ absurd (cc (rw (finish_upload, w, e) at h))
          | inl e ↦ elim (Bool-cases responds) [
            | inr e' ↦ absurd (cc (rw (finish_upload, w, e, e') at h))
            | inl e' ↦ absurd (cc (rw (finish_upload, w, e, e') at h))
          ]
        ]

-- An upload is acknowledged only when the whole transfer was accepted, its first message named a
-- worker that is registered and has completed its handshake, and the bytes could be unzipped; the
-- registry then differs from what the other handlers left by the event of the upload.
pub worker_uploads_files-IsUploaded :
    (unzips : Bytes → Text → Bool) (responds : Bool) (now : ℕ) (meanwhile : Registry → Registry)
    (messages : List (Result Text UploadedChunk)) (r : Registry) (answer : GeneralResponse)
    (after : Registry)
    → worker_uploads_files unzips responds now meanwhile messages r ≡ (ok answer, after)
    → IsUploaded unzips now meanwhile messages r answer after
unfolding worker_uploads_files finish_upload
worker_uploads_files-IsUploaded unzips responds now meanwhile messages r answer after h =
    let x = receive_file_transfer_chunks (receive_upload r) messages no_upload in
    let finish = finish_upload unzips responds now meanwhile r in
    elim (Result-cases x.0) [
      | inr (f, e) ↦ absurd (cc (ap (λ o. o.0) (sym (ap (λ o. finish (o, x.1)) e) ∙ h)))
      | inl (bytes, e) ↦
          let i = transfer-IsIdentified r messages bytes e in
          let done =
            finish_upload-ok unzips responds now meanwhile r bytes x.1 i.address answer after
              i.known (sym (ap (λ o. finish (o, x.1)) e) ∙ h) in
          record {
            bytes = bytes;
            upload = x.1;
            identified = i;
            transferred = ap (λ o. (o, x.1)) e;
            unzipped = done.0;
            recorded = done.1;
            answered = done.2;
          }
    ]

-- No call dereferences a nil worker.
pub worker_uploads_files-nil_worker :
    (unzips : Bytes → Text → Bool) (responds : Bool) (now : ℕ) (meanwhile : Registry → Registry)
    (messages : List (Result Text UploadedChunk)) (r : Registry)
    → (worker_uploads_files unzips responds now meanwhile messages r).0
      ≢ err (handling_failed nil_worker)
unfolding worker_uploads_files finish_upload
worker_uploads_files-nil_worker unzips responds now meanwhile messages r h =
    let x = receive_file_transfer_chunks (receive_upload r) messages no_upload in
    let finish = finish_upload unzips responds now meanwhile r in
    elim (Result-cases x.0) [
      | inr (f, e) ↦ absurd (cc (sym (ap (λ o. (finish (o, x.1)).0) e) ∙ h))
      | inl (bytes, e) ↦
          let i = transfer-IsIdentified r messages bytes e in
          finish_upload-nil_worker unzips responds now meanwhile r bytes x.1 i.address i.known
            (sym (ap (λ o. (finish (o, x.1)).0) e) ∙ h)
    ]
