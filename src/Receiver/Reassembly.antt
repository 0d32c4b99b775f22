-- ===== src/Receiver/Reassembly.antt =====
-- A whole file through ProcessChunk (pkg/receiver/file_receiver.go), its chunks in any order.
pub mod Sizes
pub mod Steps
pub mod Completion
pub mod Runs
mod Beginning
pub mod Late
pub mod Ordered
use mathlib.Core.List.{Memᴰ}
use mathlib.Core.List.Memᴰ
use lan_file_share.Common.{
  lt_or_ge, ℕ, suc, ◌+◌, ◌≤◌, ◌<◌, ◌^◌, ◌≡◌, ◌≢◌, refl, ap, sym, ◌∙◌, subst, arith, Bool, true,
  false, String, Option, some, none, List, [], ◌∷◌, ◌++◌, length, get_elem?, ◌==◌, nat_eq,
  string_eq, if◌then◌else◌, Bool-cases, Option-cases, map, inl, inr, ◌⊎◌, leb,
}
use lan_file_share.Common.Int.{ℤ, pos, add64, leb_ℤ}
use lan_file_share.Common.Maps.{
  lookup, insert, delete, lookup-insert, lookup-insert_self, lookup-delete,
}
use lan_file_share.Common.Sets.{has, add, has-add}
use lan_file_share.Common.Text.{codes, text_eq, text_beq_iff}
use lan_file_share.Errors.{Error}
use lan_file_share.Bytes.Writes.{list_ext, get_elem?-none}
use lan_file_share.Chunker.{Chunk}
use lan_file_share.Chunker.Stream.{IsStream}
use lan_file_share.Chunker.Pieces.{Holds, stream-Holds}
use lan_file_share.Connection.{chunk_message}
use lan_file_share.FileNode.{FileNode, info}
use lan_file_share.Protocol.{TransferSession, ChunkMessage}
use lan_file_share.Receiver.{
  FileReceiver, FileReception, System, content, Outcome, start_reception, receiving, receiving_file,
  complete_file, count_completed, verify_file_integrity, check_complete, process_message,
}
use lan_file_share.Receiver.Paths.{output_path}
use lan_file_share.Receiver.Reassembly.Sizes.{
  size_in, size_in-add, size_in-lt, size_in-all, size_in-nil,
}
use lan_file_share.Receiver.Reassembly.Steps.{
  IsWorking, IsReceiving, noted, wrote, noted-IsReceiving, process-new, process-seen,
}
use lan_file_share.Receiver.Reassembly.Completion.{IsDelivered, complete-content, check-IsDelivered}
use lan_file_share.Receiver.Reassembly.Runs.{
  and_then, process_all, process_all-append, many-HasReceived, last-IsDelivered,
}
use lan_file_share.Receiver.Reassembly.Beginning.{
  begun, with_begun, first_messages, begun-IsReceiving,
}

and_then-none : (o : Outcome) → and_then (λ fr. (fr, none)) o ≡ o
and_then-none (fr, none) = refl
and_then-none (fr, some e) = refl

module _ (sys : System) (session : TransferSession) (n : FileNode) (file : List ℕ)
    (chunks : List Chunk) (path : List ℕ) (fr : FileReceiver) (arrived : List Chunk) (last : Chunk)
    (works : IsWorking sys path) (stream : IsStream 0 0 file chunks) (fits : length file < 2 ^ 63)
    (size : (info n).size ≡ pos (length file))
    (hashed : (sys.hash file ≡ (info n).checksum) ⊎ ((info n).checksum ≡ ""))
    (sent : Memᴰ last chunks) (from : (c : Chunk) → Memᴰ c arrived → Memᴰ c chunks)
    (others : (c : Chunk) → Memᴰ c arrived → c.sequence_no ≢ last.sequence_no)
    (all : (c : Chunk) → Memᴰ c chunks → (c ≡ last) ⊎ Memᴰ c arrived) where
  either_seen :
      (r : FileReception)
      → ((c : Chunk) → Memᴰ c arrived → has r.received_chunks c.sequence_no ≡ true)
      → (c : Chunk) → Memᴰ c chunks
      → (c ≡ last) ⊎ (has r.received_chunks c.sequence_no ≡ true)
  either_seen r noticed c m = elim (all c m) [ inl e ↦ inl e | inr a ↦ inr (noticed c a) ]

  from_begun :
      (first : Chunk)
      → IsDelivered (info n).path file path fr.completed_files (
          process_all sys
            (with_begun fr (chunk_message session n first) path)
            (map (chunk_message session n) arrived ++ chunk_message session n last ∷ []))
  unfolding process_all has chunk_message
  from_begun first =
      let fr1 = with_begun fr (chunk_message session n first) path in
      let r1 = begun (chunk_message session n first) path in
      let v = begun-IsReceiving session n file chunks path fr first size in
      let answer = process_all sys fr1 (map (chunk_message session n) arrived) in
      let most =
        many-HasReceived sys session n file chunks path works stream fits last sent fr1 r1 arrived v
          refl from others in
      let e = ap (λ (x : Option Error). (answer.0, x)) most.no_error in
      let delivered =
        last-IsDelivered sys session n file chunks path works stream fits last sent answer.0
          most.after most.receiving most.missing (either_seen most.after most.noticed) hashed in
      subst (IsDelivered (info n).path file path fr.completed_files)
        (sym (
          process_all-append sys fr1 answer.0 (map (chunk_message session n) arrived)
            (chunk_message session n last ∷ []) e
          ∙ and_then-none (process_message sys answer.0 (chunk_message session n last))))
        (subst
          (λ z.
            IsDelivered (info n).path file path z
              (process_message sys answer.0 (chunk_message session n last)))
          most.counted delivered)

-- A file of which no chunk was seen before: its chunks, sent as messages and processed in any order
-- and with repeats, the one that comes last not before, each at least once, are processed without an
-- error, and then the file is on the disk at its output path byte for byte, its reception is over and
-- one more file is counted. This holds where the operating system refuses none of the calls for that
-- path, and the file has the announced size and, if one is announced, the announced hash.
pub process_all-IsDelivered :
    (sys : System) (session : TransferSession) (n : FileNode) (file : List ℕ) (chunks : List Chunk)
    (path : List ℕ) (fr : FileReceiver) (arrived : List Chunk) (last : Chunk)
    → IsWorking sys path
    → IsStream 0 0 file chunks
    → length file < 2 ^ 63
    → (info n).size ≡ pos (length file)
    → (sys.hash file ≡ (info n).checksum) ⊎ ((info n).checksum ≡ "")
    → lookup (info n).path fr.current_files ≡ none
    → output_path fr.output_dir (codes (info n).name) ≡ some path
    → Memᴰ last chunks
    → ((c : Chunk) → Memᴰ c arrived → Memᴰ c chunks)
    → ((c : Chunk) → Memᴰ c arrived → c.sequence_no ≢ last.sequence_no)
    → ((c : Chunk) → Memᴰ c chunks → (c ≡ last) ⊎ Memᴰ c arrived)
    → IsDelivered (info n).path file path fr.completed_files (
        process_all sys fr
          (map (chunk_message session n) arrived ++ chunk_message session n last ∷ []))
process_all-IsDelivered sys session n file chunks path fr [] last works stream fits size hashed
      unknown place sent from others all =
    subst (IsDelivered (info n).path file path fr.completed_files)
      (sym (first_messages sys session n path fr works unknown place last []))
      (from_begun sys session n file chunks path fr [] last works stream fits size hashed sent from
        others all last)
process_all-IsDelivered sys session n file chunks path fr (a ∷ rest) last works stream fits size
      hashed unknown place sent from others all =
    subst (IsDelivered (info n).path file path fr.completed_files)
      (sym (
        first_messages sys session n path fr works unknown place a
          (map (chunk_message session n) rest ++ chunk_message session n last ∷ [])))
      (from_begun sys session n file chunks path fr (a ∷ rest) last works stream fits size hashed
        sent from others all a)
