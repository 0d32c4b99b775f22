-- ===== src/State.antt =====
-- The two state types of pkg/transfer/status.go: the state of one transfer and of a session.
pub mod Lifecycle
use lan_file_share.Common.{
  ℕ, ◌≡◌, ◌↔◌, Bool, true, false, ◌||◌, String, arith, Eq, ◌==◌, nat_eq, if◌then◌else◌,
}

pub data TransferState : Type 0 where
  pending active paused completed failed cancelled : TransferState

-- The value that `iota` gives.
abbrev pub state_code : TransferState → ℕ
state_code TransferState.pending = 0
state_code TransferState.active = 1
state_code TransferState.paused = 2
state_code TransferState.completed = 3
state_code TransferState.failed = 4
state_code TransferState.cancelled = 5

abbrev pub state_beq : TransferState → TransferState → Bool
state_beq s t = state_code s == state_code t

pub state_beq_iff : (s t : TransferState) → (state_beq s t ≡ true) ↔ (s ≡ t)
state_beq_iff s t = ground arith

instance abbrev pub state_eq : Eq TransferState
state_eq = record { beq = state_beq; beq_iff = state_beq_iff }

-- TransferState.String
unfoldable pub state_to_string : TransferState → String
state_to_string TransferState.pending = "pending"
state_to_string TransferState.active = "active"
state_to_string TransferState.paused = "paused"
state_to_string TransferState.completed = "completed"
state_to_string TransferState.failed = "failed"
state_to_string TransferState.cancelled = "canceled"

unfoldable pub is_terminal : TransferState → Bool
is_terminal s =
    s == TransferState.completed || (s == TransferState.failed || s == TransferState.cancelled)

-- The `switch` of CanTransitionTo.
abbrev transition_switch : TransferState → TransferState → Bool
transition_switch TransferState.pending t =
    t == TransferState.active || t == TransferState.cancelled
transition_switch TransferState.active t =
    t == TransferState.paused
    || (t == TransferState.completed || (t == TransferState.failed || t == TransferState.cancelled))
transition_switch TransferState.paused t = t == TransferState.active || t == TransferState.cancelled
transition_switch _ t = false

unfoldable pub can_transition_to : TransferState → TransferState → Bool
unfolding is_terminal
can_transition_to s t = if is_terminal s then false else transition_switch s t

pub data StatusSessionState : Type 0 where
  active paused completed failed cancelled : StatusSessionState

-- The value that `iota` gives.
abbrev pub session_state_code : StatusSessionState → ℕ
session_state_code StatusSessionState.active = 0
session_state_code StatusSessionState.paused = 1
session_state_code StatusSessionState.completed = 2
session_state_code StatusSessionState.failed = 3
session_state_code StatusSessionState.cancelled = 4

abbrev pub session_state_beq : StatusSessionState → StatusSessionState → Bool
session_state_beq s t = session_state_code s == session_state_code t

pub session_state_beq_iff : (s t : StatusSessionState) → (session_state_beq s t ≡ true) ↔ (s ≡ t)
session_state_beq_iff s t = ground arith

instance abbrev pub session_state_eq : Eq StatusSessionState
session_state_eq = record { beq = session_state_beq; beq_iff = session_state_beq_iff }

-- StatusSessionState.String
unfoldable pub session_state_to_string : StatusSessionState → String
session_state_to_string StatusSessionState.active = "active"
session_state_to_string StatusSessionState.paused = "paused"
session_state_to_string StatusSessionState.completed = "completed"
session_state_to_string StatusSessionState.failed = "failed"
session_state_to_string StatusSessionState.cancelled = "canceled"
