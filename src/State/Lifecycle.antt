-- ===== src/State/Lifecycle.antt =====
-- The transitions that `CanTransitionTo` allows (pkg/transfer/status.go).
use lan_file_share.Common.{◌≡◌, refl, ◌↔◌, ◌⊎◌, Bool, true, false, ◌&&◌, List, [], ◌∷◌, arith}
use lan_file_share.Common.Sets.{has}
use lan_file_share.State.{TransferState, state_eq, is_terminal, can_transition_to}

-- Each state of the list may follow the one before it.
abbrev pub is_run : TransferState → List TransferState → Bool
is_run s [] = true
is_run s (t ∷ ts) = can_transition_to s t && is_run t ts

abbrev pub last : TransferState → List TransferState → TransferState
last s [] = s
last s (t ∷ ts) = last t ts

-- The terminal states are exactly those that no state may follow.
is_terminal_iff :
    (s : TransferState)
    → (is_terminal s ≡ true) ↔ ((t : TransferState) → can_transition_to s t ≡ false)
unfolding is_terminal can_transition_to
is_terminal_iff s =
    ((λ h t. ground arith), λ none_follows. ground (arith, none_follows TransferState.cancelled))

is_run-terminal :
    (s : TransferState) (ts : List TransferState)
    → is_terminal s ≡ true
    → is_run s ts ≡ true
    → last s ts ≡ s
is_run-terminal s [] h r = refl
is_run-terminal s (t ∷ ts) h r = ground (arith, (is_terminal_iff s).0 h t)

-- A transfer that starts pending and ends completed or failed was active on the way.
finished_was_active :
    (ts : List TransferState)
    → is_run TransferState.pending ts ≡ true
    → (last TransferState.pending ts ≡ TransferState.completed)
      ⊎ (last TransferState.pending ts ≡ TransferState.failed)
    → has ts TransferState.active ≡ true
unfolding has can_transition_to
finished_was_active [] r l = ground arith
finished_was_active (TransferState.cancelled ∷ ts) r l =
    ground (arith, is_run-terminal TransferState.cancelled ts (unfold is_terminal in refl))
finished_was_active (t ∷ ts) r l = ground arith

-- Every state that is not terminal may be cancelled at once, and can still be completed.
completable :
    (s : TransferState)
    → is_terminal s ≡ false
    → (can_transition_to s TransferState.cancelled ≡ true)
      × ((ts : List TransferState) × (is_run s ts ≡ true) × (last s ts ≡ TransferState.completed))
unfolding can_transition_to
completable TransferState.pending h =
    (refl, (TransferState.active ∷ TransferState.completed ∷ [], refl, refl))
completable TransferState.active h = (refl, (TransferState.completed ∷ [], refl, refl))
completable TransferState.paused h =
    (refl, (TransferState.active ∷ TransferState.completed ∷ [], refl, refl))
completable s h = ground arith
