-- ===== src/Retry/History/Laws.antt =====
-- What the error history keeps and what its patterns mean.
use mathlib.Core.List.{reverse, reverse-append}
use lan_file_share.Common.{
  ℕ, suc, zero, ◌+◌, ◌-◌, ◌≤◌, ◌≡◌, ◌↔◌, refl, ap, sym, ◌∙◌, List, [], ◌∷◌, ◌++◌, ltb, length, drop,
  length-append, length-drop, arith, Bool-cases, inl, inr, append_assoc, append-nil,
}
use lan_file_share.Common.Int.{ℤ}
use lan_file_share.Common.Text.{text_eq, text_beq_iff}
use lan_file_share.Errors.{Error, error_text}
use lan_file_share.Retry.History.{
  ErrorContext, keep_last_ten, add_error, repeated_error, count_same, get_error_pattern,
}

-- The errors added in order, each at its time.
pub add_errors : ErrorContext → List (Error × ℤ) → ErrorContext
add_errors ec [] = ec
add_errors ec ((err, now) ∷ rest) = add_errors (add_error ec err now) rest

abbrev pub errors_of : List (Error × ℤ) → List Error
errors_of [] = []
errors_of ((err, now) ∷ rest) = err ∷ errors_of rest

drop-append : (n : ℕ) (xs ys : List Error) → n ≤ length xs → drop n (xs ++ ys) ≡ drop n xs ++ ys
drop-append zero xs ys h = refl
drop-append (suc n) [] ys h = absurd (omega arith)
drop-append (suc n) (x ∷ xs) ys h = drop-append n xs ys (omega arith)

drop-nil : (n : ℕ) → drop {A = Error} n [] ≡ []
drop-nil zero = refl
drop-nil (suc n) = refl

drop-drop : (m n : ℕ) (xs : List Error) → drop m (drop n xs) ≡ drop (n + m) xs
drop-drop m zero xs = ap (λ k. drop k xs) (omega arith)
drop-drop m (suc n) [] = drop-nil m ∙ sym (drop-nil (suc n + m))
drop-drop m (suc n) (x ∷ xs) =
    drop-drop m n xs
    ∙ ap (λ k. drop k (x ∷ xs)) (let e : suc (n + m) ≡ suc n + m = omega arith in e)

abbrev pub last_ten : List Error → List Error
last_ten h = drop (length h - 10) h

keep_last_ten-last_ten : (h : List Error) → keep_last_ten h ≡ last_ten h
unfolding keep_last_ten
keep_last_ten-last_ten h = elim (Bool-cases (ltb 10 (length h))) [
  | inl more ↦ rw more
  | inr few ↦ rw few (ap (λ k. drop k h) (let e : 0 ≡ length h - 10 = ground arith in e))
]

last_ten-append : (xs ys : List Error) → last_ten (last_ten xs ++ ys) ≡ last_ten (xs ++ ys)
last_ten-append xs ys =
    let k = length xs - 10 in
    let kept : last_ten xs ++ ys ≡ drop k (xs ++ ys) = sym (drop-append k xs ys (omega arith)) in
    ap last_ten kept
    ∙ (drop-drop (length (drop k (xs ++ ys)) - 10) k (xs ++ ys)
        ∙ ap (λ n. drop n (xs ++ ys))
            (omega (arith, length-drop k (xs ++ ys), length-append xs ys)))

last_ten_short : (h : List Error) → length h ≤ 10 → last_ten h ≡ h
last_ten_short h few = ap (λ k. drop k h) (let e : length h - 10 ≡ 0 = omega arith in e)

length-keep_last_ten : (h : List Error) → length (keep_last_ten h) ≤ 10
length-keep_last_ten h = rw keep_last_ten-last_ten (omega (arith, length-drop (length h - 10) h))

-- However many errors are added to a history of at most ten, it holds the last ten of all.
error_history-add_errors :
    (ec : ErrorContext) (es : List (Error × ℤ))
    → length ec.error_history ≤ 10
    → ((add_errors ec es).error_history ≡ last_ten (ec.error_history ++ errors_of es))
      × (length (add_errors ec es).error_history ≤ 10)
unfolding add_errors add_error
error_history-add_errors ec [] few =
    (sym (rw append-nil (last_ten_short ec.error_history few)), few)
error_history-add_errors ec ((err, now) ∷ es) few =
    let h = ec.error_history in
    let (all, short) =
      error_history-add_errors (add_error ec err now) es (length-keep_last_ten (h ++ err ∷ [])) in
    let kept : last_ten (keep_last_ten (h ++ err ∷ []) ++ errors_of es)
        ≡ last_ten (h ++ err ∷ errors_of es) =
      rw keep_last_ten-last_ten (
        last_ten-append (h ++ err ∷ []) (errors_of es)
        ∙ ap last_ten (append_assoc h (err ∷ []) (errors_of es))) in
    (all ∙ kept, short)

count_same_three : (text : List ℕ) (es : List Error) → count_same text es 3 ≡ 3
unfolding count_same
count_same_three text [] = refl
count_same_three text (e ∷ es) = ground arith

-- With three errors or more the pattern is "repeated_error" exactly if the last three have one
-- text.
get_error_pattern-repeated_iff :
    (ec : ErrorContext) (older : List Error) (x y z : Error)
    → ec.error_history ≡ older ++ (x ∷ y ∷ z ∷ [])
    → (get_error_pattern ec ≡ repeated_error)
      ↔ ((error_text x ≡ error_text z) × (error_text y ≡ error_text z))
unfolding get_error_pattern
get_error_pattern-repeated_iff ec older x y z e =
    rw (e, reverse-append older (x ∷ y ∷ z ∷ []))
      (ground (
        arith,
        count_same_three (error_text z) (reverse older),
        text_beq_iff (error_text x) (error_text z),
        text_beq_iff (error_text y) (error_text z),
      ))
