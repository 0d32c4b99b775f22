-- ===== src/Common/Sets.antt =====
-- Go's sets of keys: a `map[K]bool` in which only `true` is stored, as a list with each key once.
-- The order in which Go ranges over a map is not specified: no theorem depends on it.
use Prim.Native.Nat.{◌+◌}
use mathlib.Core.Path.{◌≡◌, refl, ap}
use mathlib.Core.Bool.{Bool, true, false, ◌||◌}
use mathlib.Core.List.{List, [], ◌∷◌}
use native.Mathlib.Omega.{arith}
use lan_file_share.Common.Tests.{Eq, ◌==◌, if◌then◌else◌}
use lan_file_share.Common.Lists.{length}

module _ {ℓ} {K : Type ℓ} ⦃e : Eq K⦄ where
  -- s[k]
  unfoldable pub has : List K → K → Bool
  has [] k = false
  has (j ∷ s) k = j == k || has s k

  -- s[k] = true
  unfoldable pub add : K → List K → List K
  unfolding has
  add k s = if has s k then s else k ∷ s

  -- delete(s, k)
  unfoldable pub remove : K → List K → List K
  remove k [] = []
  remove k (j ∷ s) = let rest = remove k s in if j == k then rest else j ∷ rest

  -- No key stands twice.
  abbrev pub Distinct : List K → Type 0
  Distinct [] = Unit {0}
  Distinct (k ∷ s) = (has s k ≡ false) × Distinct s

  has_same : (k j : K) (s : List K) → k ≡ j → has s k ≡ has s j
  has_same k j s p = ap (has s) p

  pub has-add : (k j : K) (s : List K) → has (add k s) j ≡ (k == j || has s j)
  unfolding add has
  has-add k j s = ground (arith, has_same k j s, e.beq_iff k j)

  pub has-remove : (k j : K) (s : List K) → has (remove k s) j ≡ (if k == j then false else has s j)
  unfolding has remove
  has-remove k j [] = ground arith
  has-remove k j (i ∷ s) =
      ground (arith, has-remove k j s, e.beq_iff i k, e.beq_iff i j, e.beq_iff k j)

  pub add-Distinct : (k : K) (s : List K) → Distinct s → Distinct (add k s)
  unfolding add
  add-Distinct k s d = ground arith

  pub remove-Distinct : (k : K) (s : List K) → Distinct s → Distinct (remove k s)
  unfolding remove
  remove-Distinct k [] d = tt
  remove-Distinct k (j ∷ s) d = ground (arith, remove-Distinct k s, has-remove k j s)

  pub remove_absent : (k : K) (s : List K) → has s k ≡ false → remove k s ≡ s
  unfolding remove has
  remove_absent k [] h = refl
  remove_absent k (j ∷ s) h = ground (arith, remove_absent k s)

  pub length-add : (k : K) (s : List K) → has s k ≡ false → length (add k s) ≡ length s + 1
  unfolding add
  length-add k s h = ground arith

  pub length-remove :
      (k : K) (s : List K) → Distinct s → has s k ≡ true → length (remove k s) + 1 ≡ length s
  unfolding remove has
  length-remove k [] d h = ground arith
  length-remove k (j ∷ s) d h = ground (arith, length-remove k s, remove_absent k s, e.beq_iff j k)

  pub add_present : (k : K) (s : List K) → has s k ≡ true → add k s ≡ s
  unfolding add
  add_present k s h = ground arith
