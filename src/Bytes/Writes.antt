-- ===== src/Bytes/Writes.antt =====
-- Writing at an offset, byte by byte.
use lan_file_share.Common.{
  ℕ, zero, suc, ◌+◌, ◌-◌, ◌≤◌, ◌<◌, ◌≡◌, ◌⊎◌, inl, inr, append_assoc, refl, ap, ◌∙◌, sym, arith,
  List, [], ◌∷◌, ◌++◌, none, length, take, drop, replicate, get_elem?, length-append, length-take,
  length-drop, length-replicate,
}
use lan_file_share.Bytes.{write_at}

get_elem?-take : (n : ℕ) (xs : List ℕ) (i : ℕ) → i < n → get_elem? (take n xs) i ≡ get_elem? xs i
get_elem?-take zero xs i h = absurd (omega arith)
get_elem?-take (suc n) [] i h = refl
get_elem?-take (suc n) (x ∷ xs) zero h = refl
get_elem?-take (suc n) (x ∷ xs) (suc i) h = get_elem?-take n xs i (omega arith)

get_elem?-drop : (n : ℕ) (xs : List ℕ) (i : ℕ) → get_elem? (drop n xs) i ≡ get_elem? xs (n + i)
get_elem?-drop zero xs i = ap (get_elem? xs) (omega arith)
get_elem?-drop (suc n) [] i = refl
get_elem?-drop (suc n) (x ∷ xs) i =
    get_elem?-drop n xs i
    ∙ ap (get_elem? (x ∷ xs)) (let e : suc (n + i) ≡ suc n + i = omega arith in e)

pub get_elem?-append_left :
    (xs ys : List ℕ) (i : ℕ) → i < length xs → get_elem? (xs ++ ys) i ≡ get_elem? xs i
get_elem?-append_left [] ys i h = absurd (omega arith)
get_elem?-append_left (x ∷ xs) ys zero h = refl
get_elem?-append_left (x ∷ xs) ys (suc i) h = get_elem?-append_left xs ys i (omega arith)

pub get_elem?-append_right :
    (xs ys : List ℕ) (i : ℕ) → get_elem? (xs ++ ys) (length xs + i) ≡ get_elem? ys i
get_elem?-append_right [] ys i = ap (get_elem? ys) (omega arith)
get_elem?-append_right (x ∷ xs) ys i =
    ap (get_elem? (x ∷ xs ++ ys))
      (let e : suc (length xs) + i ≡ suc (length xs + i) = omega arith in e)
    ∙ get_elem?-append_right xs ys i

get_elem?-append_ge :
    (xs ys : List ℕ) (i : ℕ) → length xs ≤ i → get_elem? (xs ++ ys) i ≡ get_elem? ys (i - length xs)
get_elem?-append_ge xs ys i h =
    ap (get_elem? (xs ++ ys)) (let e : i ≡ length xs + (i - length xs) = omega arith in e)
    ∙ get_elem?-append_right xs ys (i - length xs)

pub get_elem?-none : (xs : List ℕ) (i : ℕ) → length xs ≤ i → get_elem? xs i ≡ none
get_elem?-none [] i h = refl
get_elem?-none (x ∷ xs) zero h = absurd (omega arith)
get_elem?-none (x ∷ xs) (suc i) h = get_elem?-none xs i (omega arith)

-- Lists that agree at every index are equal.
pub list_ext : (xs ys : List ℕ) → ((i : ℕ) → get_elem? xs i ≡ get_elem? ys i) → xs ≡ ys
list_ext [] [] h = refl
list_ext [] (y ∷ ys) h = cc (h 0)
list_ext (x ∷ xs) [] h = cc (h 0)
list_ext (x ∷ xs) (y ∷ ys) h = cc (h 0, list_ext xs ys (λ i. h (suc i)))

abbrev padded : List ℕ → ℕ → List ℕ
padded content off = take off content ++ replicate (off - length content) 0

length-padded : (content : List ℕ) (off : ℕ) → length (padded content off) ≡ off
length-padded content off = omega (
  arith,
  length-append (take off content) (replicate (off - length content) 0),
  length-take off content,
  length-replicate {A = ℕ} (off - length content) 0,
)

write_at-padded :
    (content : List ℕ) (off : ℕ) (b : ℕ) (bs : List ℕ)
    → write_at content off (b ∷ bs)
      ≡ padded content off ++ ((b ∷ bs) ++ drop (off + length (b ∷ bs)) content)
unfolding write_at
write_at-padded content off b bs =
    sym (append_assoc (take off content) (replicate (off - length content) 0) _)

pub length-write_at :
    (content : List ℕ) (off : ℕ) (bytes : List ℕ) (limit : ℕ)
    → length content ≤ limit
    → off + length bytes ≤ limit
    → length (write_at content off bytes) ≤ limit
unfolding write_at
length-write_at content off [] limit h k = h
length-write_at content off (b ∷ bs) limit h k = rw (write_at-padded content off b bs) (
    omega (
      arith,
      length-append (padded content off) ((b ∷ bs) ++ drop (off + length (b ∷ bs)) content),
      length-append (b ∷ bs) (drop (off + length (b ∷ bs)) content),
      length-padded content off,
      length-drop (off + length (b ∷ bs)) content,
    ))

-- The bytes written are read back.
pub get_elem?-write_at_inside :
    (content : List ℕ) (off : ℕ) (bytes : List ℕ) (j : ℕ)
    → j < length bytes
    → get_elem? (write_at content off bytes) (off + j) ≡ get_elem? bytes j
get_elem?-write_at_inside content off [] j h = absurd (omega arith)
get_elem?-write_at_inside content off (b ∷ bs) j h = rw (write_at-padded content off b bs) (
    ap
      (λ k.
        get_elem? (padded content off ++ ((b ∷ bs) ++ drop (off + length (b ∷ bs)) content))
          (k + j))
      (sym (length-padded content off))
    ∙ (get_elem?-append_right (padded content off) _ j ∙ get_elem?-append_left (b ∷ bs) _ j h))

-- Every other byte that was there is as before.
pub get_elem?-write_at_outside :
    (content : List ℕ) (off : ℕ) (bytes : List ℕ) (i : ℕ)
    → i < length content
    → (i < off) ⊎ (off + length bytes ≤ i)
    → get_elem? (write_at content off bytes) i ≡ get_elem? content i
unfolding write_at
get_elem?-write_at_outside content off [] i h o = refl
get_elem?-write_at_outside content off (b ∷ bs) i h (inl before) =
    get_elem?-append_left (take off content) _ i (omega (arith, length-take off content))
    ∙ get_elem?-take off content i before
get_elem?-write_at_outside content off (b ∷ bs) i h (inr behind) =
    let d = b ∷ bs in
    let tail = drop (off + length d) content in
    rw (write_at-padded content off b bs) (
      get_elem?-append_ge (padded content off) (d ++ tail) i
        (omega (arith, length-padded content off))
      ∙ (get_elem?-append_ge d tail (i - length (padded content off))
            (omega (arith, length-padded content off))
          ∙ (get_elem?-drop (off + length d) content (i - length (padded content off) - length d)
              ∙ ap (get_elem? content) (omega (arith, length-padded content off)))))
