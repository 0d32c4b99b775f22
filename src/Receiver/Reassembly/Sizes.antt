-- ===== src/Receiver/Reassembly/Sizes.antt =====
-- How many bytes of a stream of chunks the receiver has, by the sequence numbers it has seen.
use mathlib.Core.List.{Memᴰ}
use mathlib.Core.List.Memᴰ
use lan_file_share.Common.{
  ◌∙◌, ℕ, suc, ◌+◌, ◌≤◌, ◌<◌, ◌≡◌, ◌≢◌, refl, ap, sym, subst, arith, true, false, List, [], ◌∷◌,
  length, length-append, nat_eq, if◌then◌else◌,
}
use lan_file_share.Common.Int.{pos, pos_part}
use lan_file_share.Common.Sets.{has, add, has-add}
use lan_file_share.Chunker.{Chunk}
use lan_file_share.Chunker.Pieces.{start}
use lan_file_share.Chunker.Stream.{IsStream}

-- The bytes of the chunks whose numbers are in the set.
abbrev pub size_in : List Chunk → List ℕ → ℕ
size_in [] seen = 0
size_in (c ∷ cs) seen = (if has seen c.sequence_no then length c.bytes else 0) + size_in cs seen

-- The numbers of the chunks of a stream count up.
pub stream-later :
    (rest : List ℕ) (off seq : ℕ) (cs : List Chunk) (c : Chunk)
    → IsStream off seq rest cs
    → Memᴰ c cs
    → seq < c.sequence_no
stream-later rest off seq [] c s m = absurd (Memᴰ.not-nil m)
stream-later rest off seq (d ∷ cs) c s (Memᴰ.head e) = rw e (omega (arith, s.1))
stream-later rest off seq (d ∷ cs) c s (Memᴰ.tail m) =
    let (_, _, _, (tail, _, _, more)) = s in
    omega (arith, stream-later tail (off + length d.bytes) (suc seq) cs c more m)

size_in-add_other :
    (cs : List Chunk) (seen : List ℕ) (k : ℕ)
    → ((c : Chunk) → Memᴰ c cs → c.sequence_no ≢ k)
    → size_in cs (add k seen) ≡ size_in cs seen
size_in-add_other [] seen k h = refl
size_in-add_other (c ∷ cs) seen k h = ground (
  arith,
  h c (Memᴰ.head refl),
  has-add k c.sequence_no seen,
  size_in-add_other cs seen k (λ d m. h d (Memᴰ.tail m)),
)

-- A chunk that was not seen adds its bytes.
pub size_in-add :
    (rest : List ℕ) (off seq : ℕ) (cs : List Chunk) (seen : List ℕ) (c : Chunk)
    → IsStream off seq rest cs
    → Memᴰ c cs
    → has seen c.sequence_no ≡ false
    → size_in cs (add c.sequence_no seen) ≡ size_in cs seen + length c.bytes
size_in-add rest off seq [] seen c s m h = absurd (Memᴰ.not-nil m)
size_in-add rest off seq (d ∷ cs) seen c s (Memᴰ.head e) h =
    let (_, _, _, (tail, _, _, more)) = s in
    let others = size_in-add_other cs seen c.sequence_no (λ x m k. omega (
      arith,
      k,
      s.1,
      ap (λ y. y.sequence_no) e,
      stream-later tail (off + length d.bytes) (suc seq) cs x more m,
    )) in
    subst
      (λ x.
        (if has (add c.sequence_no seen) x.sequence_no then length x.bytes else 0)
          + size_in cs (add c.sequence_no seen)
        ≡ (if has seen x.sequence_no then length x.bytes else 0) + size_in cs seen + length c.bytes)
      e (ground (arith, others, has-add c.sequence_no c.sequence_no seen))
size_in-add rest off seq (d ∷ cs) seen c s (Memᴰ.tail m) h =
    let (_, _, _, (tail, _, _, more)) = s in
    ground (
      arith,
      s.1,
      stream-later tail (off + length d.bytes) (suc seq) cs c more m,
      has-add c.sequence_no d.sequence_no seen,
      size_in-add tail (off + length d.bytes) (suc seq) cs seen c more m h,
    )

-- With every chunk seen, it is the whole.
pub size_in-all :
    (rest : List ℕ) (off seq : ℕ) (cs : List Chunk) (seen : List ℕ)
    → IsStream off seq rest cs
    → ((c : Chunk) → Memᴰ c cs → has seen c.sequence_no ≡ true)
    → size_in cs seen ≡ length rest
size_in-all rest off seq [] seen s h = omega (arith, ap length s)
size_in-all rest off seq (d ∷ cs) seen s h =
    let (_, _, _, (tail, split, _, more)) = s in
    ground (
      arith,
      ap length split,
      length-append d.bytes tail,
      h d (Memᴰ.head refl),
      size_in-all tail (off + length d.bytes) (suc seq) cs seen more (λ c m. h c (Memᴰ.tail m)),
    )

pub size_in-le :
    (rest : List ℕ) (off seq : ℕ) (cs : List Chunk) (seen : List ℕ)
    → IsStream off seq rest cs
    → size_in cs seen ≤ length rest
size_in-le rest off seq [] seen s = omega arith
size_in-le rest off seq (d ∷ cs) seen s =
    let (_, _, _, (tail, split, _, more)) = s in
    ground (
      arith,
      ap length split,
      length-append d.bytes tail,
      size_in-le tail (off + length d.bytes) (suc seq) cs seen more,
    )

-- With a chunk missing, it is less than the whole.
pub size_in-lt :
    (rest : List ℕ) (off seq : ℕ) (cs : List Chunk) (seen : List ℕ) (c : Chunk)
    → IsStream off seq rest cs
    → Memᴰ c cs
    → has seen c.sequence_no ≡ false
    → size_in cs seen < length rest
size_in-lt rest off seq [] seen c s m h = absurd (Memᴰ.not-nil m)
size_in-lt rest off seq (d ∷ cs) seen c s (Memᴰ.head e) h =
    let (_, _, _, (tail, split, _, more)) = s in
    ground (
      arith,
      ap (λ x. x.sequence_no) e,
      ap length split,
      length-append d.bytes tail,
      size_in-le tail (off + length d.bytes) (suc seq) cs seen more,
    )
size_in-lt rest off seq (d ∷ cs) seen c s (Memᴰ.tail m) h =
    let (_, _, _, (tail, split, _, more)) = s in
    ground (
      arith,
      ap length split,
      length-append d.bytes tail,
      size_in-lt tail (off + length d.bytes) (suc seq) cs seen c more m h,
    )

-- No chunk of a stream has a negative offset.
pub stream-offset :
    (rest : List ℕ) (off seq : ℕ) (cs : List Chunk) (c : Chunk)
    → IsStream off seq rest cs
    → Memᴰ c cs
    → c.offset ≡ pos (start c)
stream-offset rest off seq [] c s m = absurd (Memᴰ.not-nil m)
stream-offset rest off seq (d ∷ cs) c s (Memᴰ.head e) =
    let at : d.offset ≡ pos off = s.0 in
    subst (λ x. x.offset ≡ pos (start x)) (sym e) (at ∙ ap (λ z. pos (pos_part z)) (sym at))
stream-offset rest off seq (d ∷ cs) c s (Memᴰ.tail m) =
    let (_, _, _, (tail, _, _, more)) = s in
    stream-offset tail (off + length d.bytes) (suc seq) cs c more m

-- Chunks of a stream with the same number are the same.
pub stream_unique :
    (rest : List ℕ) (off seq : ℕ) (cs : List Chunk) (c d : Chunk)
    → IsStream off seq rest cs
    → Memᴰ c cs
    → Memᴰ d cs
    → c.sequence_no ≡ d.sequence_no
    → c ≡ d
stream_unique rest off seq [] c d s m k e = absurd (Memᴰ.not-nil m)
stream_unique rest off seq (x ∷ cs) c d s (Memᴰ.head p) (Memᴰ.head q) e = p ∙ sym q
stream_unique rest off seq (x ∷ cs) c d s (Memᴰ.head p) (Memᴰ.tail k) e =
    let (_, _, _, (tail, _, _, more)) = s in
    absurd (
      omega (
        arith,
        e,
        s.1,
        ap (λ y. y.sequence_no) p,
        stream-later tail (off + length x.bytes) (suc seq) cs d more k,
      ))
stream_unique rest off seq (x ∷ cs) c d s (Memᴰ.tail m) (Memᴰ.head q) e =
    let (_, _, _, (tail, _, _, more)) = s in
    absurd (
      omega (
        arith,
        e,
        s.1,
        ap (λ y. y.sequence_no) q,
        stream-later tail (off + length x.bytes) (suc seq) cs c more m,
      ))
stream_unique rest off seq (x ∷ cs) c d s (Memᴰ.tail m) (Memᴰ.tail k) e =
    let (_, _, _, (tail, _, _, more)) = s in
    stream_unique tail (off + length x.bytes) (suc seq) cs c d more m k e

pub size_in-nil : (cs : List Chunk) → size_in cs [] ≡ 0
unfolding has
size_in-nil [] = refl
size_in-nil (c ∷ cs) = omega (arith, size_in-nil cs)
