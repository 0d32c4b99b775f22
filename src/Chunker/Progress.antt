-- ===== src/Chunker/Progress.antt =====
-- One call of the chunker's Next (pkg/transfer/chunker.go) on a file that can be read.
use lan_file_share.Common.{
  ℕ, suc, ◌+◌, ◌%◌, ◌^◌, ◌<◌, ◌≡◌, ◌≢◌, ◌↔◌, refl, ap, ◌∙◌, arith, true, none, List, [], ◌∷◌, ◌++◌,
  length, length-append,
}
use native.Mathlib.Decide.{ℕ_discrete}
use lan_file_share.Common.Int.{ℤ, pos, add64, sub64, leb_ℤ, add64_exact, sub64_exact}
use lan_file_share.Errors.{ok}
use lan_file_share.FileNode.{FileNode, info}
use lan_file_share.Chunker.{
  FileSystem, ReadResult, Chunk, Chunker, got, eof, take_bytes, next, new_chunker_from_file_node,
}

pub length_zero {ℓ} : {A : Type ℓ} (xs : List A) → length xs ≡ 0 → xs ≡ []
length_zero [] h = refl
length_zero (x ∷ xs) h = absurd (omega arith)

module _ (fs : FileSystem) where
  open fs use {File, unread, read, read-unread, read-le, read-progress}

  -- No read of the file fails before its end.
  abbrev pub IsHealthy : Type 0
  IsHealthy = (f : File) (n : ℕ) → 0 < n → unread f ≢ [] → (read f n).error ≡ none

  -- The file has as many bytes as the node says, and they can be counted.
  pub record Fits (c : Chunker File) (off : ℕ) : Type 0 where
    pub at : c.bytes_read ≡ pos off
    pub total : c.total_byte_size ≡ pos (off + length (unread c.file))
    pub in_int64 : off + length (unread c.file) < 2 ^ 63
    pub in_uint32 : c.current_seq + length (unread c.file) < 2 ^ 32
    pub chunk_pos : 0 < c.chunk_size

  pub next_done :
      (c : Chunker File) (off : ℕ) → Fits c off → unread c.file ≡ [] → next fs c ≡ (c, eof)
  unfolding next
  next_done c off v h = ground (arith, ap length h)

  next_more :
      (c : Chunker File) (off : ℕ)
      → Fits c off
      → 0 < length (unread c.file)
      → 0 < length (read c.file c.chunk_size).bytes
      → next fs c ≡ take_bytes fs c (read c.file c.chunk_size)
  unfolding next
  next_more c off v h k = ground arith

  module _ (c : Chunker File) (off : ℕ) (v : Fits c off) where
    abbrev r : ReadResult File
    r = read c.file c.chunk_size

    abbrev n : ℕ
    n = length r.bytes

    -- What is unread is what was read and what is left.
    split : length (unread c.file) ≡ n + length (unread r.file)
    split = ap length (read-unread c.file c.chunk_size) ∙ length-append r.bytes (unread r.file)

    reads_on : IsHealthy → 0 < length (unread c.file) → 0 < n
    reads_on healthy h = elim (ℕ_discrete n 0) [
      | yes e ↦ absurd (
          read-progress c.file c.chunk_size v.chunk_pos
            (healthy c.file c.chunk_size v.chunk_pos
              (λ none_left. omega (arith, ap length none_left)))
            (length_zero r.bytes e))
      | no more ↦ omega arith
    ]

    after : Chunker File
    unfolding take_bytes
    after = (take_bytes fs c r).0

    seq_exact : 0 < n → (c.current_seq + 1) % 2 ^ 32 ≡ suc c.current_seq
    seq_exact h = omega (arith, v.in_uint32, split)

    read_exact : add64 c.bytes_read (pos n) ≡ pos (off + n)
    read_exact = rw (v.at) (add64_exact off n (omega (arith, v.in_int64, split)))

    offset_exact : sub64 (add64 c.bytes_read (pos n)) (pos n) ≡ pos off
    offset_exact =
        rw (read_exact, sub64_exact (off + n) n (omega arith) (omega (arith, v.in_int64, split)))
          (ap pos (omega arith))

    -- The chunk made of these bytes.
    abbrev chunk_of : Chunk
    chunk_of = record {
      sequence_no = (c.current_seq + 1) % 2 ^ 32;
      offset = sub64 (add64 c.bytes_read (pos n)) (pos n);
      bytes = r.bytes;
      hash = fs.hash r.bytes;
      is_last = leb_ℤ c.total_byte_size (add64 c.bytes_read (pos n));
      size = pos n;
    }

    after-Fits : 0 < n → Fits after (off + n)
    unfolding after
    after-Fits h = record {
      at = read_exact;
      total = v.total ∙ ap pos (omega (arith, split));
      in_int64 = omega (arith, v.in_int64, split);
      in_uint32 = rw (seq_exact h) (omega (arith, v.in_uint32, split));
      chunk_pos = v.chunk_pos;
    }

    last_iff : (leb_ℤ c.total_byte_size (add64 c.bytes_read (pos n)) ≡ true) ↔ (unread r.file ≡ [])
    last_iff =
        rw (v.total, read_exact)
          ((λ h. length_zero _ (ground (arith, h, split))), λ e. ground (arith, ap length e, split))

  -- A chunk that Next returns, and the chunker after it.
  pub record HasNext (c : Chunker File) (off : ℕ) (c' : Chunker File) (ch : Chunk) : Type 0 where
    pub steps : next fs c ≡ (c', got ch)
    pub placed : ch.offset ≡ pos off
    pub numbered : ch.sequence_no ≡ suc c.current_seq
    pub counted : c'.current_seq ≡ suc c.current_seq
    pub nonempty : 0 < length ch.bytes
    pub reads : unread c.file ≡ ch.bytes ++ unread c'.file
    pub last : (ch.is_last ≡ true) ↔ (unread c'.file ≡ [])
    pub fits : Fits c' (off + length ch.bytes)

  -- With bytes ahead Next returns a chunk of them.
  pub next-HasNext :
      IsHealthy
      → (c : Chunker File) (off : ℕ) → Fits c off
      → 0 < length (unread c.file)
      → (c' : Chunker File) × ((ch : Chunk) × HasNext c off c' ch)
  unfolding after take_bytes
  next-HasNext healthy c off v more =
      let k = reads_on c off v healthy more in
      (
        after c off v,
        (
          chunk_of c off v,
          record {
            steps = next_more c off v more k;
            placed = offset_exact c off v;
            numbered = seq_exact c off v k;
            counted = seq_exact c off v k;
            nonempty = k;
            reads = read-unread c.file c.chunk_size;
            last = last_iff c off v;
            fits = after-Fits c off v k;
          },
        ),
      )

  pub new_chunker-Fits :
      (n : FileNode) (chunk_size : ℤ) (c : Chunker File)
      → new_chunker_from_file_node fs n chunk_size ≡ ok c
      → (info n).size ≡ pos (length (unread c.file))
      → length (unread c.file) < 2 ^ 32
      → Fits c 0 × (c.current_seq ≡ 0)
  unfolding new_chunker_from_file_node
  new_chunker-Fits n chunk_size c e size short = ground arith
