-- ===== src/Chunker/Pieces.antt =====
-- The chunks of a file (pkg/transfer/chunker.go) as parts of it, and the effect of writing one of them.
use mathlib.Core.List.{Memᴰ}
use mathlib.Core.List.Memᴰ
use lan_file_share.Common.{
  lt_or_ge, ℕ, zero, suc, ◌+◌, ◌-◌, ◌≤◌, ◌<◌, ◌≡◌, ◌≢◌, inl, inr, refl, ap, sym, ◌∙◌, subst, arith,
  List, [], ◌∷◌, ◌++◌, none, length, get_elem?, append_assoc, length-append,
}
use lan_file_share.Common.Int.{pos_part}
use lan_file_share.Bytes.{write_at}
use lan_file_share.Bytes.Writes.{
  get_elem?-write_at_inside, get_elem?-write_at_outside, get_elem?-none, get_elem?-append_left,
  get_elem?-append_right,
}
use lan_file_share.Chunker.{Chunk}
use lan_file_share.Chunker.Stream.{IsStream}

abbrev pub start : Chunk → ℕ
start c = pos_part c.offset

-- The chunk is a part of the file at its offset.
pub record IsPiece (file : List ℕ) (c : Chunk) : Type 0 where
  pub fits : start c + length c.bytes ≤ length file
  pub same : (j : ℕ) → j < length c.bytes → get_elem? file (start c + j) ≡ get_elem? c.bytes j

pub get_elem?-some : (xs : List ℕ) (i : ℕ) → i < length xs → get_elem? xs i ≢ none
get_elem?-some [] i h = absurd (omega arith)
get_elem?-some (x ∷ xs) zero h = cc
get_elem?-some (x ∷ xs) (suc i) h = get_elem?-some xs i (omega arith)

in_bounds :
    (file content : List ℕ) (i : ℕ)
    → i < length file
    → get_elem? content i ≡ get_elem? file i
    → i < length content
in_bounds file content i h e = elim (lt_or_ge i (length content)) [
  | inl inside ↦ inside
  | inr behind ↦ absurd (get_elem?-some file i h (sym e ∙ get_elem?-none content i behind))
]

module _ (file content : List ℕ) (c : Chunk) (p : IsPiece file c) where
  pub write_at-inside :
      (i : ℕ)
      → start c ≤ i
      → i < start c + length c.bytes
      → get_elem? (write_at content (start c) c.bytes) i ≡ get_elem? file i
  write_at-inside i h k =
      let j = i - start c in
      let e : i ≡ start c + j = omega arith in
      subst (λ x. get_elem? (write_at content (start c) c.bytes) x ≡ get_elem? file x) (sym e)
        (get_elem?-write_at_inside content (start c) c.bytes j (omega arith)
          ∙ sym (p.same j (omega arith)))

  pub write_at-kept :
      (i : ℕ)
      → i < length file
      → get_elem? content i ≡ get_elem? file i
      → get_elem? (write_at content (start c) c.bytes) i ≡ get_elem? file i
  write_at-kept i h e = elim (lt_or_ge i (start c)) [
    | inl before ↦
        get_elem?-write_at_outside content (start c) c.bytes i (in_bounds file content i h e)
          (inl before)
        ∙ e
    | inr after ↦ elim (lt_or_ge i (start c + length c.bytes)) [
      | inl inside ↦ write_at-inside i after inside
      | inr behind ↦
          get_elem?-write_at_outside content (start c) c.bytes i (in_bounds file content i h e)
            (inr behind)
          ∙ e
    ]
  ]

abbrev pub Pieces : List ℕ → List Chunk → Type 0
Pieces file cs = (c : Chunk) → Memᴰ c cs → IsPiece file c

-- The chunk holds the byte at this place of the file.
abbrev pub Holds : Chunk → ℕ → Type 0
Holds c i = (start c ≤ i) × (i < start c + length c.bytes)

module _ (before : List ℕ) (c : Chunk) (tail : List ℕ) (at : start c ≡ length before) where
  part-IsPiece : IsPiece (before ++ (c.bytes ++ tail)) c
  part-IsPiece = record {
    fits = omega (arith, at, length-append before (c.bytes ++ tail), length-append c.bytes tail);
    same = λ j h.
        ap (λ x. get_elem? (before ++ (c.bytes ++ tail)) (x + j)) at
        ∙ (get_elem?-append_right before (c.bytes ++ tail) j
            ∙ get_elem?-append_left c.bytes tail j h);
  }

-- The chunks of the rest of a file, after the part before it.
pub stream-Pieces :
    (before rest : List ℕ) (off seq : ℕ) (cs : List Chunk)
    → off ≡ length before
    → IsStream off seq rest cs
    → Pieces (before ++ rest) cs
stream-Pieces before rest off seq [] e s c m = absurd (Memᴰ.not-nil m)
stream-Pieces before rest off seq (d ∷ cs) e s c (Memᴰ.head same) =
    let (at, _, _, (tail, split, _, _)) = s in
    subst (IsPiece (before ++ rest)) (sym same) (
      subst (λ r. IsPiece (before ++ r) d) (sym split)
        (part-IsPiece before d tail (ap pos_part at ∙ e)))
stream-Pieces before rest off seq (d ∷ cs) e s c (Memᴰ.tail m) =
    let (at, _, _, (tail, split, _, more)) = s in
    let whole : before ++ rest ≡ (before ++ d.bytes) ++ tail =
      ap (λ r. before ++ r) split ∙ sym (append_assoc before d.bytes tail) in
    subst (λ f. IsPiece f c) (sym whole)
      (stream-Pieces (before ++ d.bytes) tail (off + length d.bytes) (suc seq) cs
        (omega (arith, e, length-append before d.bytes)) more c m)

-- Every byte of the rest is in one of its chunks.
pub stream-Holds :
    (rest : List ℕ) (off seq : ℕ) (cs : List Chunk) (i : ℕ)
    → IsStream off seq rest cs
    → off ≤ i
    → i < off + length rest
    → (c : Chunk) × Memᴰ c cs × Holds c i
stream-Holds rest off seq [] i s h k = absurd (omega (arith, ap length s))
stream-Holds rest off seq (d ∷ cs) i s h k =
    let (at, _, _, (tail, split, _, more)) = s in
    let first : start d ≡ off = ap pos_part at in
    elim (lt_or_ge i (off + length d.bytes)) [
      | inl inside ↦ (d, Memᴰ.head refl, (omega (arith, first), omega (arith, first)))
      | inr behind ↦
          let size = ap length split ∙ length-append d.bytes tail in
          let (c, m, holds) =
            stream-Holds tail (off + length d.bytes) (suc seq) cs i more behind
              (omega (arith, size)) in
          (c, Memᴰ.tail m, holds)
    ]
