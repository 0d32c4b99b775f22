-- ===== src/Receiver/Reassembly/Completion.antt =====
-- The end of a reception in ProcessChunk (pkg/receiver/file_receiver.go).
use mathlib.Core.List.{Memᴰ}
use lan_file_share.Common.{
  lt_or_ge, ℕ, ◌≡◌, ap, sym, ◌∙◌, arith, true, String, Option, some, none, List, length, nat_eq,
  string_eq, inl, inr, ◌⊎◌,
}
use lan_file_share.Common.Int.{ℤ, pos, add64, leb_ℤ}
use lan_file_share.Common.Maps.{lookup, lookup-delete}
use lan_file_share.Common.Sets.{has}
use lan_file_share.Common.Text.{text_eq}
use lan_file_share.Errors.{Error}
use lan_file_share.Bytes.Writes.{list_ext, get_elem?-none}
use lan_file_share.Chunker.{Chunk}
use lan_file_share.Chunker.Stream.{IsStream}
use lan_file_share.Chunker.Pieces.{stream-Holds}
use lan_file_share.FileNode.{FileNode, info}
use lan_file_share.Receiver.{
  FileReceiver, FileReception, System, content, complete_file, count_completed,
  verify_file_integrity, check_complete,
}
use lan_file_share.Receiver.Reassembly.Steps.{IsWorking, IsReceiving}

-- A reception that has every byte holds the file.
pub complete-content :
    (n : FileNode) (file : List ℕ) (chunks : List Chunk) (path : List ℕ) (fr : FileReceiver)
    (r : FileReception)
    → IsStream 0 0 file chunks
    → IsReceiving n file chunks path fr r
    → ((c : Chunk) → Memᴰ c chunks → has r.received_chunks c.sequence_no ≡ true)
    → content fr path ≡ file
complete-content n file chunks path fr r stream v all = list_ext (content fr path) file (λ i.
    elim (lt_or_ge i (length file)) [
      | inl inside ↦
          let (c, m, holds) = stream-Holds file 0 0 chunks i stream (omega arith) (omega arith) in
          v.agrees c i m (all c m) holds
      | inr behind ↦
          get_elem?-none (content fr path) i (omega (arith, v.short))
          ∙ sym (get_elem?-none file i behind)
    ])

-- The file is on the disk, its reception is over and counted, and no error was met.
pub record IsDelivered (id : String) (file : List ℕ) (path : List ℕ) (before : ℤ)
    (answer : FileReceiver × Option Error) : Type 0 where
  pub no_error : answer.1 ≡ none
  pub on_disk : content answer.0 path ≡ file
  pub over : lookup id answer.0.current_files ≡ none
  pub counted : answer.0.completed_files ≡ add64 before (pos 1)

module _ (sys : System) (n : FileNode) (file : List ℕ) (path : List ℕ) (works : IsWorking sys path)
    (fr : FileReceiver) (r : FileReception) (open_file : r.is_open ≡ true)
    (place : r.output_path ≡ path) (expected : r.expected_hash ≡ (info n).checksum)
    (hashed : (sys.hash file ≡ (info n).checksum) ⊎ ((info n).checksum ≡ ""))
    (whole : content fr path ≡ file) where
  completes :
      let answer = complete_file sys fr (info n).path r in
      (answer.1 ≡ none)
      × (content answer.0 path ≡ file)
      × (answer.0.completed_files ≡ fr.completed_files)
  unfolding complete_file verify_file_integrity
  completes = ground (
    arith,
    works.closes,
    works.reads,
    string_eq.beq_iff r.expected_hash "",
    string_eq.beq_iff (sys.hash (content fr path)) r.expected_hash,
    ap sys.hash whole,
  )

  pub check-IsDelivered :
      leb_ℤ r.total_size r.received_size ≡ true
      → IsDelivered
          (info n).path
          file
          path
          fr.completed_files
          (check_complete sys fr (info n).path (some r))
  unfolding check_complete count_completed
  check-IsDelivered enough = record {
    no_error = ground (arith, completes);
    on_disk = ground (arith, completes);
    over = ground (
      arith,
      completes,
      lookup-delete (info n).path (info n).path
          (complete_file sys fr (info n).path r).0.current_files,
      string_eq.beq_iff (info n).path (info n).path,
    );
    counted = ground (arith, completes);
  }
