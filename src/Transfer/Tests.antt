-- ===== src/Transfer/Tests.antt =====
-- A small transfer, and the instances of the theorems at it.
use aws_demo.Base.{◌≡◌, refl, true, false, List, [], ◌∷◌, ◌↔◌, ok, err, arith}
use aws_demo.Transfer.{
  Bytes, Chunk, wrong_index, no_final_chunk, stream_file_as_chunks, receive_file_transfer_chunks,
}
use aws_demo.Transfer.Receive.{receive_all, receive_all_iff, IsTransfer, contents}
use aws_demo.Transfer.Stream.{collect, sound_file, receive_all-stream, receive_all-stream_empty}

abbrev pieces : List Bytes
pieces = (80 ∷ 75 ∷ []) ∷ [] ∷ (3 ∷ []) ∷ []

abbrev chunks : List Chunk
chunks =
    record { content = 80 ∷ 75 ∷ []; chunk_index = 0; final_chunk = false }
    ∷ record { content = 3 ∷ []; chunk_index = 1; final_chunk = true }
    ∷ []

streamed : stream_file_as_chunks collect (sound_file pieces) [] ≡ (ok tt, chunks)
unfolding stream_file_as_chunks
streamed = refl

-- The second chunk alone.
misses_first :
    receive_all (record { content = 3 ∷ []; chunk_index = 1; final_chunk = true } ∷ [])
    ≡ err (wrong_index 1 0)
unfolding receive_file_transfer_chunks
misses_first = refl

receive_all_iff_example :
    (receive_all chunks ≡ ok (80 ∷ 75 ∷ 3 ∷ []))
    ↔ (IsTransfer 0 chunks × ((80 ∷ 75 ∷ 3 ∷ []) ≡ contents chunks))
receive_all_iff_example = receive_all_iff chunks (80 ∷ 75 ∷ 3 ∷ [])

receive_all-stream_example :
    ((stream_file_as_chunks collect (sound_file pieces) []).0 ≡ ok tt)
    × (receive_all (stream_file_as_chunks collect (sound_file pieces) []).1 ≡ ok (80 ∷ 75 ∷ 3 ∷ []))
receive_all-stream_example = receive_all-stream pieces (omega arith)

receive_all-stream_empty_example :
    (stream_file_as_chunks collect (sound_file ([] ∷ [])) [] ≡ (ok tt, []))
    × (receive_all (stream_file_as_chunks collect (sound_file ([] ∷ [])) []).1 ≡ err no_final_chunk)
receive_all-stream_empty_example = receive_all-stream_empty ([] ∷ []) refl
