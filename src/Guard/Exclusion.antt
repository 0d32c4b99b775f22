-- ===== src/Guard/Exclusion.antt =====
-- ConcurrencyGuard (pkg/concurrency/guard.go) lets one task run at a time, and refuses only while one does.
use lan_file_share.Common.{
  false-true, ℕ, ◌≡◌, ◌≢◌, ◌↔◌, refl, sym, subst, ◌∙◌, arith, true, false, none, some, nat_eq, inl,
  inr, ◌⊎◌, Bool-cases,
}
use native.Mathlib.Decide.{ℕ_discrete}
use lan_file_share.Errors.{Error}
use lan_file_share.Guard.{
  ConcurrencyGuard, take_guard, release_guard, Phase, outside, working, leaving, Goroutines, go_to,
  Step, taken, refused, task_over, released, Reaches, begin, next,
}

-- The guard is busy exactly while a goroutine is inside, and no two are.
record Inv (s : Goroutines) : Type 0 where
  free : s.guard.is_busy ≡ false → (i : ℕ) → s.phase i ≡ outside
  holder : s.guard.is_busy ≡ true → (i : ℕ) × (s.phase i ≢ outside)
  alone : (i j : ℕ) → s.phase i ≢ outside → s.phase j ≢ outside → i ≡ j

module _ (phase : ℕ → Phase) (i j : ℕ) where
  go_to_here : (p : Phase) → i ≡ j → go_to phase i p j ≡ p
  go_to_here p e = ground arith

  go_to_there : (p : Phase) → i ≢ j → go_to phase i p j ≡ phase j
  go_to_there p e = ground arith

  -- A goroutine that is inside after another step was inside before or took it.
  inside_before : (p : Phase) → go_to phase i p j ≢ outside → (i ≡ j) ⊎ (phase j ≢ outside)
  inside_before p h = elim (ℕ_discrete i j) [
    | yes e ↦ inl e
    | no e ↦ inr (λ out. h (go_to_there p e ∙ out))
  ]

  inside_still : go_to phase i outside j ≢ outside → (i ≢ j) × (phase j ≢ outside)
  inside_still h = (
    λ e. h (go_to_here outside e),
    λ out. h (elim (ℕ_discrete i j) [
      | yes e ↦ go_to_here outside e
      | no e ↦ go_to_there outside e ∙ out
    ]),
  )

take_guard_free :
    (g g' : ConcurrencyGuard)
    → take_guard g ≡ (g', none)
    → (g.is_busy ≡ false) × (g'.is_busy ≡ true)
unfolding take_guard
take_guard_free g g' e = ground (arith, e)

take_guard_busy :
    (g g' : ConcurrencyGuard) (e : Error)
    → take_guard g ≡ (g', some e)
    → (g.is_busy ≡ true) × (g' ≡ g)
unfolding take_guard
take_guard_busy g g' e h = ground (arith, h)

outside_or_inside : (p : Phase) → (p ≡ outside) ⊎ (p ≢ outside)
outside_or_inside outside = inl refl
outside_or_inside working = inr (λ e. cc)
outside_or_inside leaving = inr (λ e. cc)

working_inside : {p : Phase} → p ≡ working → p ≢ outside
working_inside e k = cc

leaving_inside : {p : Phase} → p ≡ leaving → p ≢ outside
leaving_inside e k = cc

module _ (s : Goroutines) (v : Inv s) (i : ℕ) where
  taken-Inv :
      (g : ConcurrencyGuard)
      → take_guard s.guard ≡ (g, none)
      → Inv (record { guard = g; phase = go_to s.phase i working })
  taken-Inv g e =
      let (was_free, is_taken) = take_guard_free s.guard g e in
      let here : (j : ℕ) → go_to s.phase i working j ≢ outside → i ≡ j = λ j h.
        elim (inside_before s.phase i j working h) [
          | inl same ↦ same
          | inr inside ↦ absurd (inside (v.free was_free j))
        ] in
      record {
        free = λ idle. absurd (false-true (sym idle ∙ is_taken));
        holder = λ busy. (i, working_inside (go_to_here s.phase i i working refl));
        alone = λ j k a b. sym (here j a) ∙ here k b;
      }

  over-Inv : s.phase i ≡ working → Inv (record s { phase = go_to s.phase i leaving })
  over-Inv h =
      let mine = working_inside h in
      let back : (j : ℕ) → go_to s.phase i leaving j ≢ outside → s.phase j ≢ outside = λ j a.
        elim (inside_before s.phase i j leaving a) [
          | inl same ↦ subst (λ x. s.phase x ≢ outside) same mine
          | inr inside ↦ inside
        ] in
      record {
        free = λ idle j. absurd (mine (v.free idle i));
        holder = λ busy. (i, leaving_inside (go_to_here s.phase i i leaving refl));
        alone = λ j k a b. v.alone j k (back j a) (back k b);
      }

  released-Inv :
      s.phase i ≡ leaving
      → Inv (record { guard = release_guard s.guard; phase = go_to s.phase i outside })
  unfolding release_guard
  released-Inv h =
      let mine = leaving_inside h in
      let nobody : (j : ℕ) → go_to s.phase i outside j ≢ outside → i ≢ i = λ j a.
        let (differ, inside) = inside_still s.phase i j a in
        absurd (differ (v.alone i j mine inside)) in
      record {
        free = λ idle j. elim (ℕ_discrete i j) [
          | yes e ↦ go_to_here s.phase i j outside e
          | no e ↦ elim (outside_or_inside (s.phase j)) [
            | inl out ↦ go_to_there s.phase i j outside e ∙ out
            | inr inside ↦ absurd (e (v.alone i j mine inside))
          ]
        ];
        holder = λ e. absurd (false-true e);
        alone = λ j k a b. absurd (nobody j a refl);
      }

step-Inv : {s s' : Goroutines} → Inv s → Step s s' → Inv s'
step-Inv {s = s} v (taken {g = g} i h e) = taken-Inv s v i g e
step-Inv {s = s} v (refused {g = g} {e = e} i h k) =
    subst (λ g. Inv (record { guard = g; phase = s.phase })) (sym (take_guard_busy s.guard g e k).1)
      v
step-Inv {s = s} v (task_over i h) = over-Inv s v i h
step-Inv {s = s} v (released i h) = released-Inv s v i h

begin-Inv : Inv (record { guard = record { is_busy = false }; phase = λ i. outside })
begin-Inv = record {
  free = λ idle i. refl;
  holder = λ e. absurd (false-true e);
  alone = λ i j a b. absurd (a refl);
}

reaches-Inv : {s : Goroutines} → Reaches s → Inv s
reaches-Inv begin = begin-Inv
reaches-Inv (next h s) = step-Inv (reaches-Inv h) s

-- However the goroutines' steps follow each other, no two are inside the guard at a time.
pub Reaches-exclusive :
    (s : Goroutines) (i j : ℕ) → Reaches s → s.phase i ≢ outside → s.phase j ≢ outside → i ≡ j
Reaches-exclusive s i j h = (reaches-Inv h).alone i j

-- A goroutine takes the guard, and is not refused with ErrBusy, exactly if all goroutines are outside.
Reaches-available_iff :
    (s : Goroutines)
    → Reaches s
    → (take_guard s.guard ≡ (record { is_busy = true }, none)) ↔ ((i : ℕ) → s.phase i ≡ outside)
unfolding take_guard
Reaches-available_iff s h =
    let v = reaches-Inv h in
    (
      λ e. v.free (take_guard_free s.guard (record { is_busy = true }) e).0,
      λ out. elim (Bool-cases s.guard.is_busy) [
        | inl busy ↦ let (i, inside) = v.holder busy in absurd (inside (out i))
        | inr idle ↦ rw idle refl
      ],
    )
