-- ===== src/Chunker/Stream.antt =====
-- The chunks of a file are the file, in order.
use lan_file_share.Common.{
  ℕ, zero, suc, ◌+◌, ◌^◌, ◌<◌, ◌≡◌, ◌↔◌, inl, inr, refl, ap, sym, subst, ◌∙◌, arith, true, false,
  Bool-cases, none, some, List, [], ◌∷◌, ◌++◌, length, length-append,
}
use native.Mathlib.Decide.{ℕ_discrete}
use lan_file_share.Common.Int.{ℤ, pos}
use lan_file_share.Errors.{ok}
use lan_file_share.FileNode.{FileNode, info}
use lan_file_share.Chunker.Progress.{
  IsHealthy, Fits, length_zero, next_done, next-HasNext, new_chunker-Fits,
}
use lan_file_share.Chunker.{
  FileSystem, Chunk, Chunker, got, next, read_chunks, new_chunker_from_file_node,
}

-- The chunks `cs` are the bytes `rest` of a file, from the offset and after the sequence number
-- given: none is empty, the offsets are contiguous, the sequence numbers count up by one, and
-- exactly the last chunk is marked as such.
abbrev pub IsStream : ℕ → ℕ → List ℕ → List Chunk → Type 0
IsStream off seq rest [] = rest ≡ []
IsStream off seq rest (c ∷ cs) =
    (c.offset ≡ pos off)
    × (c.sequence_no ≡ suc seq)
    × (0 < length c.bytes)
    × ((tail : List ℕ) × (rest ≡ c.bytes ++ tail)
        × ((c.is_last ≡ true) ↔ (tail ≡ []))
        × IsStream (off + length c.bytes) (suc seq) tail cs)

module _ (fs : FileSystem) where
  open fs use {File, unread, read}

  read_chunks_last :
      (fuel : ℕ) (c c' : Chunker File) (ch : Chunk)
      → next fs c ≡ (c', got ch)
      → ch.is_last ≡ true
      → read_chunks fs (suc fuel) c ≡ some (ch ∷ [], none)
  unfolding read_chunks
  read_chunks_last fuel c c' ch e last = ground arith

  read_chunks_on :
      (fuel : ℕ) (c c' : Chunker File) (ch : Chunk) (cs : List Chunk)
      → next fs c ≡ (c', got ch)
      → ch.is_last ≡ false
      → read_chunks fs fuel c' ≡ some (cs, none)
      → read_chunks fs (suc fuel) c ≡ some (ch ∷ cs, none)
  unfolding read_chunks
  read_chunks_on fuel c c' ch cs e going rest = ground arith

  -- A chunker over a healthy file with its bytes ahead yields them as a stream, and ends without
  -- an error.
  read_chunks-IsStream :
      IsHealthy fs
      → (fuel : ℕ) (c : Chunker File) (off : ℕ) → Fits fs c off
      → length (unread c.file) < fuel
      → (cs : List Chunk) × (read_chunks fs fuel c ≡ some (cs, none))
        × IsStream off c.current_seq (unread c.file) cs
  unfolding read_chunks
  read_chunks-IsStream healthy zero c off v h = absurd (omega arith)
  read_chunks-IsStream healthy (suc fuel) c off v h = elim (ℕ_discrete (length (unread c.file)) 0) [
    | yes e ↦
        let finished = length_zero (unread c.file) e in
        ([], rw (next_done fs c off v finished, read_chunks) refl, finished)
    | no ahead ↦
        let (c', (ch, x)) = next-HasNext fs healthy c off v (omega arith) in
        let size = ap length x.reads ∙ length-append ch.bytes (unread c'.file) in
        let (cs, rest, stream) =
          read_chunks-IsStream healthy fuel c' (off + length ch.bytes) x.fits
            (omega (arith, size, x.nonempty)) in
        let stream' =
          subst (λ s. IsStream (off + length ch.bytes) s (unread c'.file) cs) x.counted stream in
        elim (Bool-cases ch.is_last) [
          | inl last ↦ (
            ch ∷ [],
            read_chunks_last fuel c c' ch x.steps last,
            (x.placed, x.numbered, x.nonempty, (unread c'.file, x.reads, x.last, x.last.0 last)),
          )
          | inr going ↦ (
            ch ∷ cs,
            read_chunks_on fuel c c' ch cs x.steps going rest,
            (x.placed, x.numbered, x.nonempty, (unread c'.file, x.reads, x.last, stream')),
          )
        ]
  ]

abbrev pub bytes_of : List Chunk → List ℕ
bytes_of [] = []
bytes_of (c ∷ cs) = c.bytes ++ bytes_of cs

bytes_of-IsStream :
    (off seq : ℕ) (rest : List ℕ) (cs : List Chunk) → IsStream off seq rest cs → bytes_of cs ≡ rest
bytes_of-IsStream off seq rest [] s = sym s
bytes_of-IsStream off seq rest (c ∷ cs) s =
    let (tail, split, last, more) = s.3 in
    ap (◌++◌ c.bytes) (bytes_of-IsStream (off + length c.bytes) (suc seq) tail cs more) ∙ sym split

-- A chunker made for a file of fewer than 2^32 bytes whose size is right and of which no read fails before
-- its end yields, in as many rounds as the file has bytes and one more, chunks that are the file in order:
-- contiguous from offset 0, numbered from 1, none empty, exactly the last marked, with no error at the
-- end.
pub new_chunker-IsStream :
    (fs : FileSystem) (n : FileNode) (chunk_size : ℤ) (c : Chunker (fs.File))
    → IsHealthy fs
    → new_chunker_from_file_node fs n chunk_size ≡ ok c
    → (info n).size ≡ pos (length (fs.unread c.file))
    → length (fs.unread c.file) < 2 ^ 32
    → (cs : List Chunk) × (read_chunks fs (suc (length (fs.unread c.file))) c ≡ some (cs, none))
      × IsStream 0 0 (fs.unread c.file) cs
      × (bytes_of cs ≡ fs.unread c.file)
new_chunker-IsStream fs n chunk_size c healthy e size short =
    let (fits, first) = new_chunker-Fits fs n chunk_size c e size short in
    let (cs, all, stream) =
      read_chunks-IsStream fs healthy (suc (length (fs.unread c.file))) c 0 fits (omega arith) in
    let stream' = subst (λ s. IsStream 0 s (fs.unread c.file) cs) first stream in
    (cs, all, stream', bytes_of-IsStream 0 0 (fs.unread c.file) cs stream')
