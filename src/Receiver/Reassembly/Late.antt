-- ===== src/Receiver/Reassembly/Late.antt =====
-- A chunk that comes again after its file is finished (pkg/receiver/file_receiver.go).
use mathlib.Core.List.{Memᴰ}
use lan_file_share.Common.{
  ℕ, ◌<◌, ◌^◌, ◌≡◌, ◌≢◌, refl, ap, ◌∙◌, arith, some, none, List, [], length, nat_eq, string_eq,
  false,
}
use lan_file_share.Common.Int.{pos}
use lan_file_share.Common.Maps.{lookup, lookup-insert_self}
use lan_file_share.Common.Sets.{has, has-add}
use lan_file_share.Common.Text.{codes, text_eq}
use lan_file_share.Bytes.{write_at}
use lan_file_share.Chunker.{Chunk}
use lan_file_share.Chunker.Stream.{IsStream}
use lan_file_share.Chunker.Pieces.{start}
use lan_file_share.Connection.{chunk_message}
use lan_file_share.FileNode.{FileNode, info}
use lan_file_share.Protocol.{TransferSession}
use lan_file_share.Receiver.{FileReceiver, FileReception, System, content, process_message}
use lan_file_share.Receiver.Paths.{output_path}
use lan_file_share.Receiver.Reassembly.Steps.{
  IsWorking, wrote-content, noted, wrote, noted-IsReceiving, process-new,
}
use lan_file_share.Receiver.Reassembly.Runs.{incomplete}
use lan_file_share.Receiver.Reassembly.Beginning.{
  begun, with_begun, first_message, begun-IsReceiving,
}

-- A chunk of a file that has other chunks too, processed when the receiver has no reception of the file,
-- as after the file was finished, leaves nothing at the output path but the bytes of this chunk at their
-- offset, whatever stood there, and begins a reception that waits for the other chunks. This holds where
-- the announced size is right and below 2^63, the receiver has an output path for the file's name, and its
-- operating system refuses no call for it.
pub process_message_late :
    (sys : System) (session : TransferSession) (n : FileNode) (file : List ℕ) (chunks : List Chunk)
    (path : List ℕ) (fr : FileReceiver) (c other : Chunk)
    → IsWorking sys path
    → IsStream 0 0 file chunks
    → length file < 2 ^ 63
    → (info n).size ≡ pos (length file)
    → lookup (info n).path fr.current_files ≡ none
    → output_path fr.output_dir (codes (info n).name) ≡ some path
    → Memᴰ c chunks
    → Memᴰ other chunks
    → c.sequence_no ≢ other.sequence_no
    → let (fr', failure) = process_message sys fr (chunk_message session n c) in
      (failure ≡ none)
      × (content fr' path ≡ write_at [] (start c) c.bytes)
      × ((r : FileReception) × (lookup (info n).path fr'.current_files ≡ some r)
          × (has r.received_chunks other.sequence_no ≡ false))
unfolding chunk_message has
process_message_late sys session n file chunks path fr c other works stream fits size unknown place
      sent sent' differ =
    let msg = chunk_message session n c in
    let fr1 = with_begun fr msg path in
    let r1 = begun msg path in
    let v = begun-IsReceiving session n file chunks path fr c size in
    let fresh : has r1.received_chunks c.sequence_no ≡ false = refl in
    let v' =
      noted-IsReceiving sys session n file chunks path works stream fits fr1 r1 v c sent fresh in
    let waits : has (noted r1 c).received_chunks other.sequence_no ≡ false =
      ground (arith, differ, has-add c.sequence_no other.sequence_no []) in
    let result =
      first_message sys fr msg path unknown place works.creates
      ∙ process-new sys session n file chunks path works stream fits fr1 r1 v c sent fresh
      ∙ incomplete sys session n file chunks path works stream fits other sent'
          (wrote fr1 r1 (info n).path path c) (noted r1 c) v' waits in
    let empty : content fr1 path ≡ [] = rw (content, lookup-insert_self path [] fr.disk) refl in
    let written =
      wrote-content sys session n file chunks path works stream fits fr1 r1 v c sent
      ∙ ap (λ b. write_at b (start c) c.bytes) empty in
    rw result (refl, written, (noted r1 c, v'.found, waits))
