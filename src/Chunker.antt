-- ===== src/Chunker.antt =====
-- Chunker of pkg/transfer/chunker.go: a file read front to back in pieces.
pub mod Progress
pub mod Stream
pub mod Pieces
use lan_file_share.Common.{
  ℕ, zero, suc, ◌+◌, ◌%◌, ◌^◌, Bool, true, false, ◌||◌, String, Option, none, some, List, [], ◌∷◌,
  length, if◌then◌else◌, ltb, leb, ◌≡◌, ◌≤◌, ◌<◌, ◌++◌, ◌≢◌,
}
use lan_file_share.Common.Int.{ℤ, pos, pos_part, neg_part, add64, sub64, leb_ℤ, ltb_ℤ}
use lan_file_share.Common.Text.{codes}
use lan_file_share.Config.{max_chunk_bytes, min_chunk_bytes}
use lan_file_share.Errors.{Error, sentinel, is_dir, message, Result, ok, err}
use lan_file_share.FileNode.{FileNode, info}

pub data ReadError : Type 0 where
  end_of_file : ReadError
  other : Error → ReadError

-- What os.File.Read returns, with the file after it.
pub record ReadResult (F : Type 0) : Type 0 where
  pub file : F
  pub bytes : List ℕ
  pub error : Option ReadError

-- An open file of the operating system, with the documented contract of Read: the bytes are the
-- next ones of the file, at most as many as asked for, and none are given only with an error or
-- for an empty buffer. `hash` is the hexadecimal SHA-256 of some bytes.
pub record FileSystem : Type 1 where
  pub File : Type 0
  pub open_file : String → Result File
  pub unread : File → List ℕ
  pub read : File → ℕ → ReadResult File
  pub hash : List ℕ → String
  pub read-unread : (f : File) (n : ℕ) → unread f ≡ (read f n).bytes ++ unread (read f n).file
  pub read-le : (f : File) (n : ℕ) → length (read f n).bytes ≤ n
  pub read-progress : (f : File) (n : ℕ) → 0 < n → (read f n).error ≡ none → (read f n).bytes ≢ []

pub record Chunk : Type 0 where
  pub sequence_no : ℕ
  pub offset : ℤ
  pub bytes : List ℕ
  pub hash : String
  pub is_last : Bool
  pub size : ℤ

pub record Chunker (F : Type 0) : Type 0 where
  pub file : F
  pub expected_hash : String
  pub chunk_size : ℕ
  pub current_seq : ℕ
  pub total_byte_size : ℤ
  pub bytes_read : ℤ

-- What Next returns: a chunk, io.EOF, or no chunk with the error of the read, which may be nil.
pub data Next : Type 0 where
  got : Chunk → Next
  eof : Next
  failed : Option Error → Next

module _ (fs : FileSystem) where
  open fs use {File, open_file, read, hash}

  -- NewChunkerFromFileNode; the size is an int32.
  unfoldable pub new_chunker_from_file_node : FileNode → ℤ → Result (Chunker File)
  new_chunker_from_file_node n chunk_size =
      if (info n).is_dir
      then err (sentinel is_dir)
      else if ltb_ℤ chunk_size (pos min_chunk_bytes) || ltb_ℤ (pos max_chunk_bytes) chunk_size
      then err (message (codes "chunk size must be between 4096 and 262144"))
      else elim (open_file (info n).path) [
        | err e ↦ err e
        | ok f ↦ ok (record {
          file = f;
          expected_hash = (info n).checksum;
          chunk_size = pos_part chunk_size;
          current_seq = 0;
          total_byte_size = (info n).size;
          bytes_read = pos 0;
        })
      ]

  -- The chunk made of the bytes of a read, and the chunker after it.
  unfoldable pub take_bytes : Chunker File → ReadResult File → Chunker File × Next
  take_bytes c r =
      let n = pos (length r.bytes) in
      let total_read = add64 c.bytes_read n in
      let seq = (c.current_seq + 1) % 2 ^ 32 in
      (
        record c { file = r.file; bytes_read = total_read; current_seq = seq },
        got (record {
          sequence_no = seq;
          offset = sub64 total_read n;
          bytes = r.bytes;
          hash = hash r.bytes;
          is_last = leb_ℤ c.total_byte_size total_read;
          size = n;
        }),
      )

  no_bytes : Option ReadError → Next
  no_bytes none = failed none
  no_bytes (some end_of_file) = eof
  no_bytes (some (other e)) = failed (some e)

  after_read : Chunker File → ReadResult File → Chunker File × Next
  unfolding take_bytes no_bytes
  after_read c r =
      if ltb 0 (length r.bytes)
      then take_bytes c r
      else (record c { file = r.file }, no_bytes r.error)

  -- Next
  unfoldable pub next : Chunker File → Chunker File × Next
  unfolding after_read
  next c =
      if leb_ℤ c.total_byte_size c.bytes_read
      then (c, eof)
      else after_read c (read c.file c.chunk_size)

  cons_chunk :
      Chunk
      → Option (List Chunk × Option (Option Error))
      → Option (List Chunk × Option (Option Error))
  cons_chunk ch none = none
  cons_chunk ch (some (chs, end)) = some (ch ∷ chs, end)

  -- The loop of transferFileChunks (pkg/webrtc/connection.go) over a chunker: the chunks it hands
  -- to the connection, and the error it stops with, if any. `none` means that the fuel ran out.
  unfoldable pub read_chunks : ℕ → Chunker File → Option (List Chunk × Option (Option Error))
  unfolding cons_chunk
  read_chunks zero c = none
  read_chunks (suc fuel) c =
      let (c', r) = next c in
      elim r [
        | eof ↦ some ([], none)
        | failed e ↦ some ([], some e)
        | got ch ↦
            let rest = cons_chunk ch (read_chunks fuel c') in
            if ch.is_last then some (ch ∷ [], none) else rest
      ]
