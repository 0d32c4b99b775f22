-- ===== src/StatusManager/Outcomes.antt =====
-- How a session of the status manager ends, and what pausing does.
use lan_file_share.Common.{
  ◌≡◌, ◌<◌, ◌+◌, ◌^◌, ℕ, arith, true, false, none, some, String, List, [], ◌∷◌, ◌==◌, string_eq,
  if◌then◌else◌,
}
use lan_file_share.Common.Int.{ℤ, pos, add64, add64_exact}
use lan_file_share.Common.Sets.{has}
use lan_file_share.Errors.{Error, Result, ok, err}
use lan_file_share.State.{TransferState, StatusSessionState, can_transition_to}
use lan_file_share.Session.{Float64, TransferStatus, SessionTransferStatus, is_session_complete}
use lan_file_share.StatusManager.{
  TransferStatusManager, complete_current_file, fail_current_file, pause_current_file,
  resume_current_file, without_listener,
}

-- The call succeeds, there is a session after it, and it has the property.
abbrev pub SessionAfter :
    {F : Type 0} → Result (TransferStatusManager F) → (SessionTransferStatus F → Type 0) → Type 0
SessionAfter (err e) P = ⊥
SessionAfter (ok m) P = elim m.session_status [ none ↦ ⊥ | some s ↦ P s ]

module _ (fl : Float64) where
  open fl use {Float}

  -- Where the current file is the last one open, and some file was completed before: if the last
  -- one is completed the session is completed, and if it fails the session stays in the state it
  -- was in, though every file is processed.
  pub last_file_order :
      (m : TransferStatusManager Float) (s : SessionTransferStatus Float)
      (file : TransferStatus Float) (total done lost : ℕ) (cause : Error) (now : ℤ)
      → m.session_status ≡ some s
      → s.current_file ≡ some file
      → s.total_files ≡ pos total
      → s.completed_files ≡ pos done
      → s.failed_files ≡ pos lost
      → 0 < done
      → done + lost + 1 ≡ total
      → total < 2 ^ 63
      → SessionAfter
          (complete_current_file fl m now)
          (λ s'. (is_session_complete s' ≡ true) × (s'.state ≡ StatusSessionState.completed))
        × SessionAfter
            (fail_current_file fl m cause now)
            (λ s'. (is_session_complete s' ≡ true) × (s'.state ≡ s.state))
  unfolding complete_current_file fail_current_file is_session_complete
  last_file_order m s file total done lost cause now hs hf ht hd hl some_done last fits = ground (
    arith,
    add64_exact done 1,
    add64_exact (done + 1) lost,
    add64_exact lost 1,
    add64_exact done (lost + 1),
  )

  -- The status manager completes a paused file, which CanTransitionTo does not allow.
  complete_paused :
      (m : TransferStatusManager Float) (s : SessionTransferStatus Float)
      (file : TransferStatus Float) (now : ℤ)
      → m.session_status ≡ some s
      → s.current_file ≡ some file
      → file.state ≡ TransferState.paused
      → (can_transition_to file.state TransferState.completed ≡ false)
        × SessionAfter (complete_current_file fl m now) (λ s'.
          (s'.current_file ≡ none) × (s'.completed_files ≡ add64 s.completed_files (pos 1)))
  unfolding complete_current_file can_transition_to
  complete_paused m s file now hs hf hp = ground arith

  -- Pausing and resuming gives back an active file with nothing changed but the update times.
  resume-pause :
      (m m' : TransferStatusManager Float) (s : SessionTransferStatus Float)
      (file : TransferStatus Float) (now later : ℤ)
      → m.session_status ≡ some s
      → s.current_file ≡ some file
      → pause_current_file fl m now ≡ ok m'
      → (file.state ≡ TransferState.active)
        × (resume_current_file fl m' later
            ≡ ok (record m {
              session_status = some (record s {
                current_file = some (record file { last_update_time = later });
                last_update_time = later;
              });
            }))
  unfolding pause_current_file resume_current_file
  resume-pause m m' s file now later hs hf hp = ground arith

has-without_listener :
    (id other : String) (ls : List String)
    → has (without_listener id ls) other ≡ (if id == other then false else has ls other)
unfolding without_listener has
has-without_listener id other [] = ground arith
has-without_listener id other (l ∷ ls) = ground (
  arith,
  has-without_listener id other ls,
  string_eq.beq_iff l id,
  string_eq.beq_iff l other,
  string_eq.beq_iff id other,
)
