-- ===== src/Transfer/Receive.antt =====
-- Which streams of chunks are accepted.
use aws_demo.Base.{
  ℕ, ◌+◌, ◌≡◌, ap, sym, ◌∙◌, ◌↔◌, Bool, true, false, List, [], ◌∷◌, ◌++◌, append-nil, append_assoc,
  map, Result, ok, arith, ==_iff, concat,
}
use aws_demo.Transfer.{Bytes, Chunk, ReceiveError, receive_loop, receive_file_transfer_chunks}

-- A callback that hands each chunk of the stream on, as the worker's does.
abbrev pub hand_on : Chunk → Unit {0} → Result (Unit {0}) Chunk × Unit {0}
hand_on c s = (ok c, s)

abbrev pub receive_all : List Chunk → Result (ReceiveError Unit) Bytes
receive_all cs = (receive_file_transfer_chunks hand_on cs tt).0

-- The chunks are numbered from `i`, and the last one, and no other, is marked final.
abbrev pub IsTransfer : ℕ → List Chunk → Type 0
IsTransfer i [] = ⊥
IsTransfer i (c ∷ []) = (c.chunk_index ≡ i) × (c.final_chunk ≡ true)
IsTransfer i (c ∷ d ∷ cs) =
    (c.chunk_index ≡ i) × (c.final_chunk ≡ false) × IsTransfer (i + 1) (d ∷ cs)

abbrev pub contents : List Chunk → Bytes
contents cs = concat (map (λ c. c.content) cs)

receive-cons :
    (c : Chunk) (cs : List Chunk) (i : ℕ) (buffer : Bytes)
    → c.chunk_index ≡ i
    → (receive_loop hand_on (c ∷ cs) i false buffer tt).0
      ≡ (receive_loop hand_on cs (i + 1) c.final_chunk (buffer ++ c.content) tt).0
unfolding receive_loop
receive-cons c cs i buffer h = rw ((==_iff c.chunk_index i).1 h)

receive-cons_ok :
    (c : Chunk) (cs : List Chunk) (i : ℕ) (final : Bool) (buffer bytes : Bytes)
    → (receive_loop hand_on (c ∷ cs) i final buffer tt).0 ≡ ok bytes
    → (c.chunk_index ≡ i) × (final ≡ false)
unfolding receive_loop
receive-cons_ok c cs i final buffer bytes h = ground arith

loop-accepts :
    (cs : List Chunk) (i : ℕ) (buffer : Bytes)
    → IsTransfer i cs
    → (receive_loop hand_on cs i false buffer tt).0 ≡ ok (buffer ++ contents cs)
loop-accepts [] i buffer h = absurd h
loop-accepts (c ∷ []) i buffer h =
    receive-cons c [] i buffer h.0 ∙ unfold receive_loop in rw (h.1, append-nil c.content)
loop-accepts (c ∷ d ∷ cs) i buffer h =
    receive-cons c (d ∷ cs) i buffer h.0
    ∙ rw h.1 (
        loop-accepts (d ∷ cs) (i + 1) (buffer ++ c.content) h.2
        ∙ ap ok (append_assoc buffer c.content (contents (d ∷ cs))))

module _ {S M E : Type 0} (receive : M → S → Result E Chunk × S) where
  receive-step :
      (m : M) (rest : List M) (c : Chunk) (i : ℕ) (final : Bool) (buffer : Bytes) (start s : S)
      → receive m start ≡ (ok c, s)
      → c.chunk_index ≡ i
      → c.final_chunk ≡ final
      → receive_loop receive (m ∷ rest) i false buffer start
        ≡ receive_loop receive rest (i + 1) final (buffer ++ c.content) s
  unfolding receive_loop
  receive-step m rest c i final buffer start s got index same =
      rw (receive_loop, ap (λ x. x.0) got, ap (λ x. x.1) got, (==_iff c.chunk_index i).1 index)
        (ap (λ b. receive_loop receive rest (i + 1) b (buffer ++ c.content) s) same)

  -- A callback that takes each chunk out of its message, once the first one has brought it to `s`.
  pub loop-accepts_by :
      (f : Chunk → M) (s : S)
      → ((c : Chunk) → receive (f c) s ≡ (ok c, s))
      → (cs : List Chunk) (i : ℕ) (buffer : Bytes) (start : S)
      → ((c : Chunk) → c.chunk_index ≡ i → receive (f c) start ≡ (ok c, s))
      → IsTransfer i cs
      → receive_loop receive (map f cs) i false buffer start ≡ (ok (buffer ++ contents cs), s)
  unfolding receive_loop
  loop-accepts_by f s same [] i buffer start first h = absurd h
  loop-accepts_by f s same (c ∷ []) i buffer start first h =
      receive-step (f c) [] c i true buffer start s (first c h.0) h.0 h.1
      ∙ ap (λ bytes. (ok (buffer ++ bytes), s)) (sym (append-nil c.content))
  loop-accepts_by f s same (c ∷ d ∷ cs) i buffer start first h =
      receive-step (f c) (map f (d ∷ cs)) c i false buffer start s (first c h.0) h.0 h.1
      ∙ loop-accepts_by f s same (d ∷ cs) (i + 1) (buffer ++ c.content) s (λ e u. same e) h.2
      ∙ ap (λ bytes. (ok bytes, s)) (append_assoc buffer c.content (contents (d ∷ cs)))

no_final :
    (i : ℕ) (buffer bytes : Bytes) (final : Bool)
    → (receive_loop hand_on [] i final buffer tt).0 ≡ ok bytes
    → (final ≡ true) × (bytes ≡ buffer)
unfolding receive_loop
no_final i buffer bytes final h = ground arith

loop-IsTransfer :
    (cs : List Chunk) (i : ℕ) (buffer bytes : Bytes)
    → (receive_loop hand_on cs i false buffer tt).0 ≡ ok bytes
    → IsTransfer i cs × (bytes ≡ buffer ++ contents cs)
loop-IsTransfer [] i buffer bytes h = cc (no_final i buffer bytes false h).0
loop-IsTransfer (c ∷ []) i buffer bytes h =
    let e = (receive-cons_ok c [] i false buffer bytes h).0 in
    let (final, same) =
      no_final (i + 1) (buffer ++ c.content) bytes c.final_chunk
        (sym (receive-cons c [] i buffer e) ∙ h) in
    ((e, final), rw (append-nil c.content) same)
loop-IsTransfer (c ∷ d ∷ cs) i buffer bytes h =
    let e = (receive-cons_ok c (d ∷ cs) i false buffer bytes h).0 in
    let next = sym (receive-cons c (d ∷ cs) i buffer e) ∙ h in
    let open_end =
      (receive-cons_ok d cs (i + 1) c.final_chunk (buffer ++ c.content) bytes next).1 in
    let (later, same) =
      loop-IsTransfer (d ∷ cs) (i + 1) (buffer ++ c.content) bytes (rw open_end at next) in
    ((e, open_end, later), same ∙ append_assoc buffer c.content (contents (d ∷ cs)))

-- A stream is accepted exactly when its chunks are numbered from 0 and the last one, and no other,
-- is marked final; the bytes are then those of the chunks in order.
pub receive_all_iff :
    (cs : List Chunk) (bytes : Bytes)
    → (receive_all cs ≡ ok bytes) ↔ (IsTransfer 0 cs × (bytes ≡ contents cs))
unfolding receive_file_transfer_chunks
receive_all_iff cs bytes =
    (loop-IsTransfer cs 0 [] bytes, λ h. loop-accepts cs 0 [] h.0 ∙ ap ok (sym h.1))
