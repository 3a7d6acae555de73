-- ===== src/Transfer/Stream.antt =====
-- What a sender puts on the stream, and the round trip through a receiver.
use aws_demo.Base.{
  ==_iff, ◌⊎◌, ℕ, ◌+◌, ◌<◌, ◌≡◌, refl, ap, sym, ◌∙◌, Bool, true, false, List, [], ◌∷◌, ◌++◌,
  append-nil, append_assoc, map, some, ok, err, length, length-append, ◌==◌, arith, concat, inl,
  inr,
}
use mathlib.Core.List.{map-id}
use aws_demo.Transfer.{
  Bytes, Chunk, more, SourceFile, send_read, stream_loop, stream_file_as_chunks, no_final_chunk,
  receive_file_transfer_chunks,
}
use aws_demo.Transfer.Receive.{receive_all, receive_all_iff, IsTransfer, contents}

-- A callback that always sends: the sink is what is on the stream.
abbrev pub collect : Chunk → List Chunk → Bool × List Chunk
collect c sent = (true, sent ++ c ∷ [])

-- A file that is read piece by piece without an error; a piece may be empty.
abbrev pub sound_file : List Bytes → SourceFile
sound_file pieces = record {
  opens = true;
  size = some (length (concat pieces));
  reads = map (λ piece. record { bytes = piece; status = more }) pieces;
  closes = true;
}

-- The chunks of the pieces of a file.
pub chunks_of : ℕ → ℕ → ℕ → List Bytes → List Chunk
chunks_of size index streamed [] = []
chunks_of size index streamed ([] ∷ ps) = chunks_of size index streamed ps
chunks_of size index streamed ((b ∷ bs) ∷ ps) =
    record {
      content = b ∷ bs;
      chunk_index = index;
      final_chunk = streamed + length (b ∷ bs) == size;
    }
    ∷ chunks_of size (index + 1) (streamed + length (b ∷ bs)) ps

-- A callback that always sends, and makes a message of each chunk.
abbrev pub collect_by : {M : Type 0} → (Chunk → M) → Chunk → List M → Bool × List M
collect_by f c sent = (true, sent ++ f c ∷ [])

pub stream_loop-collect_by :
    {M : Type 0} (f : Chunk → M) (size : ℕ) (ps : List Bytes) (index streamed : ℕ) (sent : List M)
    → stream_loop
        (collect_by f)
        true
        size
        (map (λ piece. record { bytes = piece; status = more }) ps)
        index
        streamed
        sent
      ≡ (ok tt, sent ++ map f (chunks_of size index streamed ps))
unfolding stream_loop send_read chunks_of
stream_loop-collect_by f size [] index streamed sent = rw (append-nil sent)
stream_loop-collect_by f size ([] ∷ ps) index streamed sent =
    ap
      (λ n.
        stream_loop (collect_by f) true size
          (map (λ piece. record { bytes = piece; status = more }) ps) index n sent)
      (omega arith)
    ∙ stream_loop-collect_by f size ps index streamed sent
stream_loop-collect_by f size ((b ∷ bs) ∷ ps) index streamed sent =
    stream_loop-collect_by f size ps (index + 1) (streamed + length (b ∷ bs)) _
    ∙ rw append_assoc refl

stream_loop-collect :
    (size : ℕ) (ps : List Bytes)
    → stream_loop collect true size
        (map (λ piece. record { bytes = piece; status = more }) ps)
        0
        0
        []
      ≡ (ok tt, chunks_of size 0 0 ps)
stream_loop-collect size ps =
    stream_loop-collect_by (λ c. c) size ps 0 0 []
    ∙ ap (λ cs. (ok tt, cs)) (map-id (chunks_of size 0 0 ps))

chunks_of-nil :
    (size index streamed : ℕ) (ps : List Bytes)
    → concat ps ≡ []
    → chunks_of size index streamed ps ≡ []
unfolding chunks_of
chunks_of-nil size index streamed [] h = refl
chunks_of-nil size index streamed ([] ∷ ps) h = chunks_of-nil size index streamed ps h
chunks_of-nil size index streamed ((b ∷ bs) ∷ ps) h = cc

IsTransfer-cons :
    (c : Chunk) (i : ℕ) (cs : List Chunk)
    → c.chunk_index ≡ i
    → c.final_chunk ≡ false
    → IsTransfer (i + 1) cs
    → IsTransfer i (c ∷ cs)
IsTransfer-cons c i [] h f t = absurd t
IsTransfer-cons c i (d ∷ cs) h f t = (h, f, t)

lt_test : (a b : ℕ) → a < b → (a == b) ≡ false
lt_test a b h = ground arith

nil_cases : (bs : Bytes) → (bs ≡ []) ⊎ (0 < length bs)
nil_cases [] = inl refl
nil_cases (b ∷ bs) = inr (omega arith)

pub chunks_of-IsTransfer :
    (size index streamed : ℕ) (ps : List Bytes)
    → streamed + length (concat ps) ≡ size
    → 0 < length (concat ps)
    → IsTransfer index (chunks_of size index streamed ps)
unfolding chunks_of
chunks_of-IsTransfer size index streamed [] e h = absurd (omega arith)
chunks_of-IsTransfer size index streamed ([] ∷ ps) e h =
    chunks_of-IsTransfer size index streamed ps e h
chunks_of-IsTransfer size index streamed ((b ∷ bs) ∷ ps) e h =
    let total = length-append (b ∷ bs) (concat ps) in
    elim (nil_cases (concat ps)) [
      | inl none_left ↦
          rw (chunks_of-nil size (index + 1) (streamed + length (b ∷ bs)) ps none_left)
            (refl, (==_iff _ size).1 (omega (arith, total, ap length none_left)))
      | inr some_left ↦
          IsTransfer-cons
            (record {
              content = b ∷ bs;
              chunk_index = index;
              final_chunk = streamed + length (b ∷ bs) == size;
            })
            index _ refl (lt_test (streamed + length (b ∷ bs)) size (omega (arith, total)))
            (chunks_of-IsTransfer size (index + 1) (streamed + length (b ∷ bs)) ps
              (omega (arith, total)) some_left)
    ]

pub chunks_of-contents :
    (size index streamed : ℕ) (ps : List Bytes)
    → contents (chunks_of size index streamed ps) ≡ concat ps
unfolding chunks_of
chunks_of-contents size index streamed [] = refl
chunks_of-contents size index streamed ([] ∷ ps) = chunks_of-contents size index streamed ps
chunks_of-contents size index streamed ((b ∷ bs) ∷ ps) =
    ap (λ rest. (b ∷ bs) ++ rest)
      (chunks_of-contents size (index + 1) (streamed + length (b ∷ bs)) ps)

-- A file that is not empty, in whatever pieces it is read, is sent without an error, and a receiver
-- of the chunks gets its bytes.
pub receive_all-stream :
    (ps : List Bytes)
    → 0 < length (concat ps)
    → ((stream_file_as_chunks collect (sound_file ps) []).0 ≡ ok tt)
      × (receive_all (stream_file_as_chunks collect (sound_file ps) []).1 ≡ ok (concat ps))
unfolding stream_file_as_chunks
receive_all-stream ps h =
    let size = length (concat ps) in
    let run = stream_loop-collect size ps in
    (
      ap (λ r. r.0) run,
      ap (λ r. receive_all r.1) run
          ∙ (receive_all_iff (chunks_of size 0 0 ps) (concat ps)).1 (
            chunks_of-IsTransfer size 0 0 ps (omega arith) h,
            sym (chunks_of-contents size 0 0 ps),
          ),
    )

-- An empty file is sent without an error and puts no chunk on the stream; its receiver fails.
pub receive_all-stream_empty :
    (ps : List Bytes)
    → concat ps ≡ []
    → (stream_file_as_chunks collect (sound_file ps) [] ≡ (ok tt, []))
      × (receive_all (stream_file_as_chunks collect (sound_file ps) []).1 ≡ err no_final_chunk)
unfolding stream_file_as_chunks receive_file_transfer_chunks
receive_all-stream_empty ps h =
    let run =
      stream_loop-collect (length (concat ps)) ps
      ∙ ap (λ cs. (ok tt, cs)) (chunks_of-nil (length (concat ps)) 0 0 ps h) in
    (run, ap (λ r. receive_all r.1) run)
