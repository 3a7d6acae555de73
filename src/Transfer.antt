-- ===== src/Transfer.antt =====
-- File transfer in chunks: conductor-and-worker/sharedlib/file_transfer_chunks.go. A sink, the state
-- that the sending callback changes, is any type; so is the state of the receiving callback.
pub mod Receive
pub mod Stream
mod Tests
use aws_demo.Base.{
  ℕ, suc, ◌+◌, ◌*◌, ◌≡◌, Bool, true, false, not, List, [], ◌∷◌, ◌++◌, Option, none, some, Result,
  ok, err, length, if◌then◌else◌, ◌==◌, ltb,
}

abbrev pub Bytes : Type 0
Bytes = List ℕ

-- FileTransferChunk. An index is an int64; a file has fewer bytes than 2^63, and each chunk of a
-- file carries at least one.
pub record Chunk : Type 0 where
  pub content : Bytes
  pub chunk_index : ℕ
  pub final_chunk : Bool

abbrev pub file_transfer_chunk_size_bytes : ℕ
file_transfer_chunk_size_bytes = 32 * 1024

-- What one `Read` returned beside its bytes: no error, io.EOF, or another error.
pub data ReadStatus : Type 0 where
  more eof broken : ReadStatus

pub record ReadResult : Type 0 where
  pub bytes : Bytes
  pub status : ReadStatus

-- What the file system answers for the source file. After its last listed read a file is at its end.
pub record SourceFile : Type 0 where
  pub opens : Bool
  pub size : Option ℕ
  pub reads : List ReadResult
  pub closes : Bool

pub data StreamError : Type 0 where
  open_failed stat_failed send_failed read_failed close_failed : StreamError
  close_failed_after_stat close_failed_after_send close_failed_after_read : StreamError

-- Closing the file on the way out of an error: an error of `Close` replaces the first one.
abbrev pub close_after : Bool → StreamError → StreamError → StreamError
close_after true first replaced = first
close_after false first replaced = replaced

module _ {S : Type 0} (send : Chunk → S → Bool × S) where
  -- `sendFileTransferChunk` of the bytes that were read, if there are any.
  unfoldable pub send_read : ℕ → ℕ → ℕ → Bytes → S → Bool × S
  send_read size index streamed [] sink = (true, sink)
  send_read size index streamed (b ∷ bs) sink =
      send
        (record {
          content = b ∷ bs;
          chunk_index = index;
          final_chunk = streamed + length (b ∷ bs) == size;
        })
        sink

  abbrev pub next_index : ℕ → Bytes → ℕ
  next_index index [] = index
  next_index index (b ∷ bs) = index + 1

  -- The loop of StreamFileAsChunks and the closing of the file.
  unfoldable pub stream_loop :
      Bool → ℕ → List ReadResult → ℕ → ℕ → S → Result StreamError (Unit {0}) × S
  unfolding send_read
  stream_loop closes size [] index streamed sink =
      (if closes then ok tt else err close_failed, sink)
  stream_loop closes size (r ∷ rest) index streamed sink =
      let (sent, sink') = send_read size index streamed r.bytes sink in
      let later =
        stream_loop closes size rest (next_index index r.bytes) (streamed + length r.bytes) sink' in
      if sent
      then elim r.status [
        | eof ↦ (if closes then ok tt else err close_failed, sink')
        | broken ↦ (err (close_after closes read_failed close_failed_after_read), sink')
        | more ↦ later
      ]
      else (err (close_after closes send_failed close_failed_after_send), sink')

  -- StreamFileAsChunks
  unfoldable pub stream_file_as_chunks : SourceFile → S → Result StreamError (Unit {0}) × S
  unfolding stream_loop
  stream_file_as_chunks file sink =
      if file.opens
      then elim file.size [
        | none ↦ (err (close_after file.closes stat_failed close_failed_after_stat), sink)
        | some size ↦ stream_loop file.closes size file.reads 0 0 sink
      ]
      else (err open_failed, sink)

pub data ReceiveError (E : Type 0) : Type 0 where
  receive_failed : E → ReceiveError E
  wrong_index : ℕ → ℕ → ReceiveError E
  after_final : ℕ → ReceiveError E
  no_final_chunk : ReceiveError E

module _ {S M E : Type 0} (receive : M → S → Result E Chunk × S) where
  -- The loop of ReceiveFileTransferChunks over the messages of a stream, which ends by io.EOF.
  -- `bytes.Buffer.Write` never fails.
  unfoldable pub receive_loop : List M → ℕ → Bool → Bytes → S → Result (ReceiveError E) Bytes × S
  receive_loop [] next_expected true buffer s = (ok buffer, s)
  receive_loop [] next_expected false buffer s = (err no_final_chunk, s)
  receive_loop (m ∷ rest) next_expected received_final buffer s =
      let (r, s') = receive m s in
      elim r [
        | err e ↦ (err (receive_failed e), s')
        | ok c ↦
            let later =
              receive_loop rest (next_expected + 1) c.final_chunk (buffer ++ c.content) s' in
            if c.chunk_index == next_expected
            then (if received_final then (err (after_final c.chunk_index), s') else later)
            else (err (wrong_index c.chunk_index next_expected), s')
      ]

  -- ReceiveFileTransferChunks
  unfoldable pub receive_file_transfer_chunks : List M → S → Result (ReceiveError E) Bytes × S
  unfolding receive_loop
  receive_file_transfer_chunks messages s = receive_loop messages 0 false [] s
