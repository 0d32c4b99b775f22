-- ===== src/Receiver/Reassembly/Steps.antt =====
-- What ProcessChunk (pkg/receiver/file_receiver.go) does with the chunks of one file while it is being
-- received.
use mathlib.Core.List.{Memᴰ}
use lan_file_share.Common.{
  ℕ, ◌≤◌, ◌<◌, ◌^◌, ◌≡◌, refl, ap, sym, subst, arith, true, false, String, some, none, List, [],
  length, get_elem?, nat_eq, string_eq, Bool-cases, inl, inr,
}
use lan_file_share.Common.Int.{ℤ, pos, add64, add64_exact}
use lan_file_share.Common.Maps.{lookup, insert, lookup-insert_self}
use lan_file_share.Common.Sets.{has, add, has-add}
use lan_file_share.Common.Text.{text_eq}
use lan_file_share.Bytes.{write_at}
use lan_file_share.Bytes.Writes.{length-write_at}
use lan_file_share.Chunker.{Chunk}
use lan_file_share.Chunker.Stream.{IsStream}
use lan_file_share.Chunker.Pieces.{start, Holds, write_at-inside, write_at-kept, stream-Pieces}
use lan_file_share.Connection.{chunk_message}
use lan_file_share.FileNode.{FileNode, info}
use lan_file_share.Protocol.{TransferSession}
use lan_file_share.Receiver.{
  FileReceiver, FileReception, System, content, write_chunk_at_offset, check_complete,
  process_message,
}
use lan_file_share.Receiver.Reassembly.Sizes.{
  size_in, size_in-add, size_in-le, stream-offset, stream_unique,
}

-- The operating system refuses nothing that concerns the file at this path.
pub record IsWorking (sys : System) (path : List ℕ) : Type 0 where
  pub creates : sys.create path ≡ none
  pub seeks : (offset : ℤ) → sys.seek path offset ≡ none
  pub writes : (offset : ℤ) (bytes : List ℕ) → sys.write path offset bytes ≡ none
  pub closes : sys.close path ≡ none
  pub reads : sys.read path ≡ none

-- The file of a node is being received at a path: what the reception has seen of its chunks stands on
-- the disk and is counted.
pub record IsReceiving (n : FileNode) (file : List ℕ) (chunks : List Chunk) (path : List ℕ)
    (fr : FileReceiver) (r : FileReception) : Type 0 where
  pub found : lookup (info n).path fr.current_files ≡ some r
  pub open_file : r.is_open ≡ true
  pub place : r.output_path ≡ path
  pub total : r.total_size ≡ pos (length file)
  pub expected : r.expected_hash ≡ (info n).checksum
  pub counted : r.received_size ≡ pos (size_in chunks r.received_chunks)
  pub short : length (content fr path) ≤ length file
  pub agrees :
      (c : Chunk) (i : ℕ)
      → Memᴰ c chunks
      → has r.received_chunks c.sequence_no ≡ true
      → Holds c i
      → get_elem? (content fr path) i ≡ get_elem? file i

-- The reception and the receiver after a chunk is written.
abbrev pub noted : FileReception → Chunk → FileReception
noted r c = record r {
  received_chunks = add c.sequence_no r.received_chunks;
  received_size = add64 r.received_size (pos (length c.bytes));
}

abbrev pub wrote : FileReceiver → FileReception → String → List ℕ → Chunk → FileReceiver
wrote fr r id path c = record fr {
  disk = insert path (write_at (content fr path) (start c) c.bytes) fr.disk;
  current_files = insert id (noted r c) fr.current_files;
}

module _ (sys : System) (session : TransferSession) (n : FileNode) (file : List ℕ)
    (chunks : List Chunk) (path : List ℕ) (works : IsWorking sys path)
    (stream : IsStream 0 0 file chunks) (fits : length file < 2 ^ 63) (fr : FileReceiver)
    (r : FileReception) (v : IsReceiving n file chunks path fr r) (c : Chunk)
    (sent : Memᴰ c chunks) where
  write-new :
      has r.received_chunks c.sequence_no ≡ false
      → write_chunk_at_offset sys fr r (chunk_message session n c)
        ≡ (wrote fr r (info n).path path c, none)
  unfolding write_chunk_at_offset chunk_message
  write-new fresh = ground (
    arith,
    v.open_file,
    v.place,
    works.seeks c.offset,
    works.writes c.offset c.bytes,
    stream-offset file 0 0 chunks c stream sent,
  )

  write-seen :
      has r.received_chunks c.sequence_no ≡ true
      → write_chunk_at_offset sys fr r (chunk_message session n c) ≡ (fr, none)
  unfolding write_chunk_at_offset chunk_message
  write-seen seen = rw seen refl

  pub wrote-content :
      content (wrote fr r (info n).path path c) path ≡ write_at (content fr path) (start c) c.bytes
  wrote-content =
      rw (content, lookup-insert_self path (write_at (content fr path) (start c) c.bytes) fr.disk)
        refl

  noted-agrees :
      has r.received_chunks c.sequence_no ≡ false
      → (d : Chunk) (i : ℕ) → Memᴰ d chunks
      → has (add c.sequence_no r.received_chunks) d.sequence_no ≡ true
      → Holds d i
      → get_elem? (write_at (content fr path) (start c) c.bytes) i ≡ get_elem? file i
  noted-agrees fresh d i m h k =
      let piece = stream-Pieces [] file 0 0 chunks refl stream in
      elim (Bool-cases (has r.received_chunks d.sequence_no)) [
        | inl old ↦
            write_at-kept file (content fr path) c (piece c sent) i
              (omega (arith, k, (piece d m).fits)) (v.agrees d i m old k)
        | inr young ↦
            let same : c.sequence_no ≡ d.sequence_no =
              ground (arith, has-add c.sequence_no d.sequence_no r.received_chunks) in
            let k' : Holds c i =
              subst (λ x. Holds x i) (stream_unique file 0 0 chunks d c stream m sent (sym same))
                k in
            write_at-inside file (content fr path) c (piece c sent) i k'.0 k'.1
      ]

  -- Writing a new chunk of the file keeps the reception in step with the disk.
  pub noted-IsReceiving :
      has r.received_chunks c.sequence_no ≡ false
      → IsReceiving n file chunks path (wrote fr r (info n).path path c) (noted r c)
  noted-IsReceiving fresh = record {
    found = lookup-insert_self (info n).path (noted r c) fr.current_files;
    open_file = v.open_file;
    place = v.place;
    total = v.total;
    expected = v.expected;
    counted =
        let seen = r.received_chunks in
        let more = size_in-add file 0 0 chunks seen c stream sent fresh in
        let less = size_in-le file 0 0 chunks (add c.sequence_no seen) stream in
        rw
          (
            v.counted,
            add64_exact (size_in chunks seen) (length c.bytes) (omega (arith, more, less)),
          )
          (ap pos (sym more));
    short = rw wrote-content (
        length-write_at (content fr path) (start c) c.bytes (length file) v.short
          (stream-Pieces [] file 0 0 chunks refl stream c sent).fits);
    agrees = λ d i m h k. rw wrote-content (noted-agrees fresh d i m h k);
  }

  pub process-new :
      has r.received_chunks c.sequence_no ≡ false
      → process_message sys fr (chunk_message session n c)
        ≡ check_complete sys (wrote fr r (info n).path path c) (info n).path (some (noted r c))
  unfolding process_message chunk_message
  process-new fresh =
      rw (v.found, write-new fresh, lookup-insert_self (info n).path (noted r c) fr.current_files)
        refl

  pub process-seen :
      has r.received_chunks c.sequence_no ≡ true
      → process_message sys fr (chunk_message session n c)
        ≡ check_complete sys fr (info n).path (some r)
  unfolding process_message chunk_message
  process-seen seen = rw (v.found, write-seen seen, v.found) refl
