-- ===== src/Connection/Delivery.antt =====
-- From the sender's chunk loop (pkg/webrtc/connection.go) to the receiver's ProcessChunk
-- (pkg/receiver/file_receiver.go): one file.
use mathlib.Core.List.{Memᴰ}
use lan_file_share.Common.{
  ℕ, suc, ◌<◌, ◌^◌, ◌≡◌, ◌≢◌, ◌⊎◌, Option, some, none, List, [], ◌∷◌, ◌++◌, length, map, ap, sym,
  ◌∙◌, string_eq, subst, arith,
}
use lan_file_share.Common.Int.{ℤ, pos}
use lan_file_share.Common.Maps.{lookup}
use lan_file_share.Common.Text.{codes}
use lan_file_share.Errors.{ok}
use lan_file_share.FileNode.{FileNode, info}
use lan_file_share.Chunker.{FileSystem, Chunk, Chunker, new_chunker_from_file_node, read_chunks}
use lan_file_share.Chunker.Progress.{IsHealthy}
use lan_file_share.Chunker.Stream.{IsStream, new_chunker-IsStream}
use lan_file_share.Connection.{chunk_message}
use lan_file_share.Protocol.{TransferSession}
use lan_file_share.Receiver.{FileReceiver, System}
use lan_file_share.Receiver.Paths.{output_path}
use lan_file_share.Receiver.Reassembly.{process_all-IsDelivered}
use lan_file_share.Receiver.Reassembly.Steps.{IsWorking}
use lan_file_share.Receiver.Reassembly.Completion.{IsDelivered}
use lan_file_share.Receiver.Reassembly.Runs.{process_all}

chunks_of : {E : Type 0} → Option (List Chunk × E) → List Chunk
chunks_of none = []
chunks_of (some (cs, end)) = cs

-- A file of fewer than 2^32 bytes that the sender opens, whose size is the announced one, and its hash too
-- if one is announced; no read of it fails before its end, and the receiver has no reception of it under
-- way, has an output path for its name, and its operating system refuses no call for it. Then the chunks
-- that the sender reads, sent as messages and processed in any order and with repeats, the one that comes
-- last not before, each at least once, are processed by the receiver without an error, and the receiver
-- has the file byte for byte at its output path, no reception of it any more, and one more completed file.
pub process_all-read_chunks :
    (fs : FileSystem) (n : FileNode) (chunk_size : ℤ) (c : Chunker (fs.File))
    (chunks arrived : List Chunk) (last : Chunk) (sys : System) (session : TransferSession)
    (path : List ℕ) (fr : FileReceiver)
    → IsHealthy fs
    → new_chunker_from_file_node fs n chunk_size ≡ ok c
    → (info n).size ≡ pos (length (fs.unread c.file))
    → length (fs.unread c.file) < 2 ^ 32
    → read_chunks fs (suc (length (fs.unread c.file))) c ≡ some (chunks, none)
    → IsWorking sys path
    → (sys.hash (fs.unread c.file) ≡ (info n).checksum) ⊎ ((info n).checksum ≡ "")
    → lookup (info n).path fr.current_files ≡ none
    → output_path fr.output_dir (codes (info n).name) ≡ some path
    → Memᴰ last chunks
    → ((d : Chunk) → Memᴰ d arrived → Memᴰ d chunks)
    → ((d : Chunk) → Memᴰ d arrived → d.sequence_no ≢ last.sequence_no)
    → ((d : Chunk) → Memᴰ d chunks → (d ≡ last) ⊎ Memᴰ d arrived)
    → IsDelivered (info n).path (fs.unread c.file) path fr.completed_files (
        process_all sys fr
          (map (chunk_message session n) arrived ++ chunk_message session n last ∷ []))
unfolding chunks_of
process_all-read_chunks fs n chunk_size c chunks arrived last sys session path fr healthy e size
      short read works hashed unknown place sent from others all =
    let (cs, read', stream, _) = new_chunker-IsStream fs n chunk_size c healthy e size short in
    let same : cs ≡ chunks = ap chunks_of (sym read' ∙ read) in
    process_all-IsDelivered sys session n (fs.unread c.file) chunks path fr arrived last works
      (subst (IsStream 0 0 (fs.unread c.file)) same stream) (omega arith) size hashed unknown place
      sent from others all
