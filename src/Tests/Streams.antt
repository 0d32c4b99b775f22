-- ===== src/Tests/Streams.antt =====
-- The chunker at concrete inputs.
use lan_file_share.Common.{List, ◌≡◌, refl, ℕ, some, none, arith}
use lan_file_share.Common.Int.{pos}
use lan_file_share.Chunker.{Chunker, Chunk, new_chunker_from_file_node, read_chunks}
use lan_file_share.Chunker.Stream.{IsStream, bytes_of, new_chunker-IsStream}
use lan_file_share.Tests.Samples.{memory, contents, file_a, memory_healthy}

abbrev chunker : Chunker (List ℕ)
chunker = record {
  file = contents;
  expected_hash = "00";
  chunk_size = 4096;
  current_seq = 0;
  total_byte_size = pos 3;
  bytes_read = pos 0;
}

new_chunker-IsStream_example :
    (cs : List Chunk) × (read_chunks memory 4 chunker ≡ some (cs, none))
    × IsStream 0 0 contents cs
    × (bytes_of cs ≡ contents)
unfolding new_chunker_from_file_node
new_chunker-IsStream_example =
    new_chunker-IsStream memory file_a (pos 4096) chunker memory_healthy refl refl (omega arith)
