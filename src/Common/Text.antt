-- ===== src/Common/Text.antt =====
-- `strings.ToLower` and `strings.Contains`, on the characters of a text. The letters that are
-- lowered are the 26 of ASCII: the program's own patterns and the messages it matches are ASCII.
use Prim.Native.Char.{code}
use Prim.Native.String.{String}
use Prim.Native.Nat.{ℕ, ◌+◌}
use mathlib.Core.Path.{◌≡◌}
use mathlib.Core.Logic.{◌↔◌}
use native.Mathlib.Omega.{arith}
use mathlib.Core.Bool.{Bool, true, false, ◌&&◌, ◌||◌}
use mathlib.Core.List.{List, [], ◌∷◌, ◌++◌, map, map-append}
use lan_file_share.Common.Tests.{leb, Eq, ◌==◌, nat_eq, if◌then◌else◌}

-- The characters of a Go string.
abbrev pub codes : String → List ℕ
codes String.[] = []
codes (String.◌∷◌ letter word) = code letter ∷ codes word

unfoldable pub lower : ℕ → ℕ
lower c = if leb b'A' c && leb c b'Z' then c + 32 else c

-- strings.ToLower
unfoldable pub to_lower : List ℕ → List ℕ
unfolding lower
to_lower s = map lower s

unfoldable pub starts_with : List ℕ → List ℕ → Bool
starts_with s [] = true
starts_with [] (p ∷ ps) = false
starts_with (c ∷ s) (p ∷ ps) = c == p && starts_with s ps

-- strings.Contains
unfoldable pub contains : List ℕ → List ℕ → Bool
unfolding starts_with
contains [] p = starts_with [] p
contains (c ∷ s) p = starts_with (c ∷ s) p || contains s p

-- A loop that returns true at the first pattern that the text contains.
unfoldable pub contains_any : List ℕ → List (List ℕ) → Bool
contains_any s [] = false
contains_any s (p ∷ ps) = contains s p || contains_any s ps

-- `==` on texts.
abbrev pub text_beq : List ℕ → List ℕ → Bool
text_beq [] [] = true
text_beq [] (d ∷ t) = false
text_beq (c ∷ s) [] = false
text_beq (c ∷ s) (d ∷ t) = c == d && text_beq s t

pub text_beq_iff : (s t : List ℕ) → (text_beq s t ≡ true) ↔ (s ≡ t)
text_beq_iff [] [] = ground arith
text_beq_iff [] (d ∷ t) = ground arith
text_beq_iff (c ∷ s) [] = ground arith
text_beq_iff (c ∷ s) (d ∷ t) = ground (arith, text_beq_iff s t)

instance abbrev pub text_eq : Eq (List ℕ)
text_eq = record { beq = text_beq; beq_iff = text_beq_iff }

pub contains-append : (t s p : List ℕ) → contains s p ≡ true → contains (t ++ s) p ≡ true
unfolding contains
contains-append [] s p h = h
contains-append (c ∷ t) s p h = ground (arith, contains-append t s p)

pub contains_any-append :
    (t s : List ℕ) (ps : List (List ℕ)) → contains_any s ps ≡ true → contains_any (t ++ s) ps ≡ true
unfolding contains_any
contains_any-append t s [] h = h
contains_any-append t s (p ∷ ps) h =
    ground (arith, contains-append t s p, contains_any-append t s ps)

pub to_lower-append : (t s : List ℕ) → to_lower (t ++ s) ≡ to_lower t ++ to_lower s
unfolding to_lower
to_lower-append t s = map-append lower t s
