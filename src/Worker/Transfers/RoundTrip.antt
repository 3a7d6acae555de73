-- ===== src/Worker/Transfers/RoundTrip.antt =====
-- The worker's upload, as the conductor receives it: file-transfer.go on both sides.
use aws_demo.Base.{
  ℕ, ◌<◌, ◌≡◌, refl, ap, ◌∙◌, true, false, List, [], ◌∷◌, ◌++◌, map, some, ok, ==_iff, length,
  concat, arith,
}
use mathlib.Core.List.{map-map}
use aws_demo.Text.{Text, codes, is_empty}
use aws_demo.Transfer.{Bytes, Chunk, receive_file_transfer_chunks, stream_file_as_chunks}
use aws_demo.Transfer.Receive.{loop-accepts_by}
use aws_demo.Transfer.Stream.{
  sound_file, stream_loop-collect_by, chunks_of, chunks_of-IsTransfer, chunks_of-contents,
}
use aws_demo.Registry.{validate_worker_id, Registry, handshake_succeeded, has_event_at, get_worker}
use aws_demo.Server.Deregister.{get_required_worker-found}
use aws_demo.Server.Upload.{UploadedChunk, Upload, no_upload, identify, receive_upload}
use aws_demo.Worker.Process.{upload_call, ◌>>=◌, change, call}
use aws_demo.Worker.Transfers.{Client, label, upload_files}

-- A client of whose calls none fails, and a zip file that is read in the given pieces; the world is
-- what is on the upload stream.
abbrev pub reliable_client : List Bytes → Client (List UploadedChunk)
reliable_client ps = record {
  handshake = λ w. (true, w);
  codex_error = λ report w. (true, w);
  shutdown = λ link w. (true, w);
  open_work_files = λ w. (some [], w);
  unzip = λ bytes w. (true, w);
  remove_old_zip = λ w. (true, w);
  zip = λ w. (true, w);
  zip_file = λ w. sound_file ps;
  open_upload = λ w. (true, w);
  send = λ m w. (true, w ++ m ∷ []);
  close_upload = λ w. (true, w);
}

-- What is on the stream after the upload.
abbrev pub uploaded_messages : Text → List Bytes → List UploadedChunk
uploaded_messages id ps =
    (upload_files (reliable_client ps) id (record { world = []; calls = [] })).1.world

abbrev pub upload_of : Text → ℕ → Upload
upload_of id p = record {
  worker = some p;
  worker_id = id;
  upload_message = codes "uploading files";
}

upload_files-reliable :
    (id : Text) (ps : List Bytes)
    → upload_files (reliable_client ps) id (record { world = []; calls = [] }) ≡ (
      ok tt,
      record {
        world = map (label id) (chunks_of (length (concat ps)) 0 0 ps);
        calls = upload_call ∷ [];
      },
    )
unfolding upload_files ◌>>=◌ change call stream_file_as_chunks
upload_files-reliable id ps =
    rw (stream_loop-collect_by (label id) (length (concat ps)) ps 0 0 []) refl

label-chunk : (id : Text) (c : Chunk) → (label id c).chunk ≡ c
unfolding label
label-chunk id c = ground arith

label-first :
    (id : Text) (c : Chunk)
    → c.chunk_index ≡ 0
    → label id c ≡ record { worker_id = id; worker_message = codes "uploading files"; chunk = c }
unfolding label
label-first id c h = rw ((==_iff c.chunk_index 0).1 h) refl

module _ (r : Registry) (id : Text) (p : ℕ) where
  receive_later :
      (c : Chunk) → receive_upload r (ok (label id c)) (upload_of id p) ≡ (ok c, upload_of id p)
  unfolding receive_upload
  receive_later c = ap (λ d. (ok d, upload_of id p)) (label-chunk id c)

  identify-known :
      is_empty id ≡ false
      → get_worker id r ≡ some p
      → has_event_at handshake_succeeded r.objects p ≡ true
      → (c : Chunk)
      → identify r
          (record { worker_id = id; worker_message = codes "uploading files"; chunk = c })
          no_upload
        ≡ (ok c, upload_of id p)
  unfolding identify validate_worker_id
  identify-known named found shaken c =
      rw (identify, validate_worker_id, named, get_required_worker-found id r p found, shaken) refl

  receive_first :
      is_empty id ≡ false
      → get_worker id r ≡ some p
      → has_event_at handshake_succeeded r.objects p ≡ true
      → (c : Chunk) → c.chunk_index ≡ 0
      → receive_upload r (ok (label id c)) no_upload ≡ (ok c, upload_of id p)
  unfolding receive_upload
  receive_first named found shaken c first =
      ap (λ m. identify r m no_upload) (label-first id c first)
      ∙ identify-known named found shaken c

-- A worker whose calls do not fail, with a zip file that is not empty, uploads without an error; a
-- conductor where its nonempty ID is that of a registered worker that has shaken hands receives the
-- bytes of the file, from that worker.
pub upload_files-received :
    (id : Text) (ps : List Bytes) (r : Registry) (p : ℕ)
    → 0 < length (concat ps)
    → is_empty id ≡ false
    → get_worker id r ≡ some p
    → has_event_at handshake_succeeded r.objects p ≡ true
    → ((upload_files (reliable_client ps) id (record { world = []; calls = [] })).0 ≡ ok tt)
      × (receive_file_transfer_chunks
            (receive_upload r)
            (map ok (uploaded_messages id ps))
            no_upload
          ≡ (ok (concat ps), upload_of id p))
unfolding receive_file_transfer_chunks
upload_files-received id ps r p some_bytes named found shaken =
    let cs = chunks_of (length (concat ps)) 0 0 ps in
    let whole = chunks_of-IsTransfer (length (concat ps)) 0 0 ps (omega arith) some_bytes in
    let sent = upload_files-reliable id ps in
    (
      ap (λ o. o.0) sent,
      ap (λ o. receive_file_transfer_chunks (receive_upload r) (map ok o.1.world) no_upload) sent
          ∙ ap (λ ms. receive_file_transfer_chunks (receive_upload r) ms no_upload)
              (map-map ok (label id) cs)
          ∙ loop-accepts_by (receive_upload r) (λ c. ok (label id c)) (upload_of id p)
              (receive_later r id p) cs 0 [] no_upload (receive_first r id p named found shaken)
              whole
          ∙ ap (λ bytes. (ok bytes, upload_of id p))
              (chunks_of-contents (length (concat ps)) 0 0 ps),
    )
