-- ===== src/Tests/Deliveries.antt =====
-- From the sender's chunks to the receiver's file at concrete inputs.
use mathlib.Core.List.{Memᴰ}
use mathlib.Core.List.Memᴰ
use lan_file_share.Common.{
  ℕ, List, [], ◌∷◌, ◌++◌, map, true, false, ◌≡◌, ◌≢◌, refl, ap, some, none, arith, inl, inr, ◌⊎◌,
  string_eq, nat_eq,
}
use lan_file_share.Common.Int.{pos, add64, sub64, wrap64, ◌+ℤ◌, ◌-ℤ◌}
use lan_file_share.Common.Maps.{lookup}
use lan_file_share.Common.Sets.{has}
use lan_file_share.Common.Text.{codes}
use lan_file_share.Bytes.{write_at}
use lan_file_share.Chunker.{Chunk, Chunker, new_chunker_from_file_node, read_chunks, next}
use lan_file_share.Chunker.Stream.{IsStream}
use lan_file_share.Connection.{chunk_message}
use lan_file_share.Connection.Delivery.{process_all-read_chunks}
use lan_file_share.Protocol.{TransferSession}
use lan_file_share.Receiver.{
  FileReceiver, FileReception, System, new_file_receiver, content, process_message,
}
use lan_file_share.Receiver.Paths.{output_path}
use lan_file_share.Receiver.Reassembly.Steps.{IsWorking}
use lan_file_share.Receiver.Reassembly.Completion.{IsDelivered}
use lan_file_share.Receiver.Reassembly.Runs.{process_all}
use lan_file_share.Receiver.Reassembly.Late.{process_message_late}
use lan_file_share.Tests.Samples.{memory, contents, file_a, memory_healthy}

abbrev pub willing : System
willing = record {
  create = λ path. none;
  seek = λ path offset. none;
  write = λ path offset bytes. none;
  close = λ path. none;
  read = λ path. none;
  remove = λ path. none;
  hash = λ bytes. "00";
}

willing_works : IsWorking willing (codes "/out/a")
willing_works = record {
  creates = refl;
  seeks = λ offset. refl;
  writes = λ offset bytes. refl;
  closes = refl;
  reads = refl;
}

abbrev receiver : FileReceiver
receiver = new_file_receiver (codes "/out") []

abbrev chunker : Chunker (List ℕ)
chunker = record {
  file = contents;
  expected_hash = "00";
  chunk_size = 4096;
  current_seq = 0;
  total_byte_size = pos 3;
  bytes_read = pos 0;
}

abbrev session : TransferSession
session = record { service_id = "s"; session_id = "1"; session_create_at = pos 0 }

abbrev first : Chunk
first = record {
  sequence_no = 1;
  offset = pos 0;
  bytes = 10 ∷ 20 ∷ [];
  hash = "00";
  is_last = false;
  size = pos 2;
}

abbrev second : Chunk
second = record {
  sequence_no = 2;
  offset = pos 2;
  bytes = 30 ∷ [];
  hash = "00";
  is_last = true;
  size = pos 1;
}

-- Only the first chunk comes last, after the second one twice.
abbrev arrivals : List Chunk
arrivals = second ∷ second ∷ []

from : (c : Chunk) → Memᴰ c arrivals → Memᴰ c (first ∷ second ∷ [])
from c (Memᴰ.head e) = Memᴰ.tail (Memᴰ.head e)
from c (Memᴰ.tail m) = Memᴰ.tail m

numbered : (c : Chunk) → Memᴰ c arrivals → c.sequence_no ≡ 2
numbered c (Memᴰ.head e) = ap (λ x. x.sequence_no) e
numbered c (Memᴰ.tail (Memᴰ.head e)) = ap (λ x. x.sequence_no) e
numbered c (Memᴰ.tail (Memᴰ.tail m)) = absurd (Memᴰ.not-nil m)

others : (c : Chunk) → Memᴰ c arrivals → c.sequence_no ≢ 1
others c m e = absurd (omega (arith, numbered c m, e))

all : (c : Chunk) → Memᴰ c (first ∷ second ∷ []) → (c ≡ first) ⊎ Memᴰ c arrivals
all c (Memᴰ.head e) = inl e
all c (Memᴰ.tail (Memᴰ.head e)) = inr (Memᴰ.head e)
all c (Memᴰ.tail (Memᴰ.tail m)) = absurd (Memᴰ.not-nil m)

two_chunks : IsStream 0 0 contents (first ∷ second ∷ [])
two_chunks = (
  refl,
  refl,
  omega arith,
  (
    30 ∷ [],
    refl,
    (λ e. cc, λ e. cc),
    (refl, refl, omega arith, ([], refl, (λ e. refl, λ e. refl), refl)),
  ),
)

process_all-read_chunks_example : IsDelivered "a" contents (codes "/out/a") (pos 0) (
    process_all willing receiver
      (map (chunk_message session file_a) arrivals ++ chunk_message session file_a first ∷ []))
unfolding new_chunker_from_file_node read_chunks next add64 wrap64 ◌+ℤ◌ sub64 ◌-ℤ◌ lookup
    output_path
process_all-read_chunks_example =
    process_all-read_chunks memory file_a (pos 4096) chunker (first ∷ second ∷ []) arrivals first
      willing session (codes "/out/a") receiver memory_healthy refl refl (omega arith) refl
      willing_works (inl refl) refl refl (Memᴰ.head refl) from others all

process_message_late_example :
    let (fr', failure) = process_message willing receiver (chunk_message session file_a second) in
    (failure ≡ none)
    × (content fr' (codes "/out/a") ≡ write_at [] 2 (30 ∷ []))
    × ((r : FileReception) × (lookup "a" fr'.current_files ≡ some r)
        × (has r.received_chunks 1 ≡ false))
unfolding lookup output_path has
process_message_late_example =
    process_message_late willing session file_a contents (first ∷ second ∷ []) (codes "/out/a")
      receiver second first willing_works two_chunks (omega arith) refl refl refl
      (Memᴰ.tail (Memᴰ.head refl)) (Memᴰ.head refl) (λ e. absurd (omega (arith, e)))
