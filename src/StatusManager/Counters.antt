-- ===== src/StatusManager/Counters.antt =====
-- What holds of the status manager after any sequence of calls.
use lan_file_share.Common.{
  ◌≡◌, ◌≢◌, ◌⊎◌, inl, inr, refl, Bool-cases, arith, Option, none, some, String, List, [], ◌∷◌,
}
use lan_file_share.Common.Int.{
  ℤ, pos, ltb_ℤ, ◌≤ℤ◌, wrap64, add64, sub64, bits64, bits64-add64, bits64-sub64, bits64-wrap64,
  bits64-lt, eq_of_bits64, add64-Fits64, wrap64-Fits64,
}
use lan_file_share.Errors.{Error, Result, ok, err, after}
use lan_file_share.State.{TransferState, StatusSessionState}
use lan_file_share.Session.{Float64, TransferStatus, SessionTransferStatus, calculate_metrics}
use lan_file_share.StatusManager.{
  TransferStatusManager, new_manager, initialize_session, start_file_transfer, update_file_progress,
  complete_current_file, fail_current_file, pause_current_file, resume_current_file, reset_session,
  with_current, current_in, session_in, put_session, progress_in, complete_in, fail_in,
}

-- A call that changes the session.
pub data Call : Type 0 where
  initialize : String → ℤ → ℤ → Call
  start : String → ℤ → Call
  progress : ℤ → Call
  complete pause resume reset : Call
  fail : Error → Call

module _ (fl : Float64) where
  open fl use {Float}

  unfoldable pub step : TransferStatusManager Float → ℤ × Call → TransferStatusManager Float
  step m (now, initialize id files bytes) = after m (initialize_session fl m id files bytes now)
  step m (now, start path size) = after m (start_file_transfer fl m path size now)
  step m (now, progress sent) = after m (update_file_progress fl m sent now)
  step m (now, complete) = after m (complete_current_file fl m now)
  step m (now, pause) = after m (pause_current_file fl m now)
  step m (now, resume) = after m (resume_current_file fl m now)
  step m (now, reset) = reset_session fl m
  step m (now, fail cause) = after m (fail_current_file fl m cause now)

  unfoldable pub run : TransferStatusManager Float → List (ℤ × Call) → TransferStatusManager Float
  run m [] = m
  run m (c ∷ cs) = run (step m c) cs

-- The file being transferred is active or paused, and its counts are not negative.
abbrev pub FileInv : {F : Type 0} → Option (TransferStatus F) → Type 0
FileInv none = Unit {0}
FileInv (some file) =
    ((file.state ≡ TransferState.active) ⊎ (file.state ≡ TransferState.paused))
    × (pos 0 ≤ℤ file.bytes_sent)
    × (pos 0 ≤ℤ file.total_bytes)

-- A finished session has its completion time, and this manager never pauses or cancels one.
abbrev pub IsOutcome : StatusSessionState → Option ℤ → Type 0
IsOutcome StatusSessionState.active time = Unit {0}
IsOutcome StatusSessionState.paused time = ⊥
IsOutcome StatusSessionState.completed time = time ≢ none
IsOutcome StatusSessionState.failed time = time ≢ none
IsOutcome StatusSessionState.cancelled time = ⊥

pub record SessionInv {F : Type 0} (s : SessionTransferStatus F) : Type 0 where
  pub counted :
      add64 (add64 s.completed_files s.failed_files) s.pending_files ≡ wrap64 s.total_files
  pub current : FileInv s.current_file
  pub outcome : IsOutcome s.state s.completion_time

abbrev pub OptionInv : {F : Type 0} → Option (SessionTransferStatus F) → Type 0
OptionInv none = Unit {0}
OptionInv (some s) = SessionInv s

abbrev pub Inv : {F : Type 0} → TransferStatusManager F → Type 0
Inv m = OptionInv m.session_status

abbrev ResultInv : {F : Type 0} → Result (SessionTransferStatus F) → Type 0
ResultInv (ok s) = SessionInv s
ResultInv (err e) = Unit {0}

bits64-one : bits64 (pos 1) ≡ 1
unfolding bits64
bits64-one = refl

bits64-zero : bits64 (pos 0) ≡ 0
unfolding bits64
bits64-zero = refl

ruleset bits = (bits64-add64, bits64-sub64, bits64-one, bits64-zero, bits64-wrap64)

counts_completed :
    (c f p : ℤ) → add64 (add64 (add64 c (pos 1)) f) (sub64 p (pos 1)) ≡ add64 (add64 c f) p
counts_completed c f p =
    eq_of_bits64 _ _ (add64-Fits64 _ _) (add64-Fits64 _ _)
      (simp bits (omega (arith, bits64-lt c, bits64-lt f, bits64-lt p)))

counts_failed :
    (c f p : ℤ) → add64 (add64 c (add64 f (pos 1))) (sub64 p (pos 1)) ≡ add64 (add64 c f) p
counts_failed c f p =
    eq_of_bits64 _ _ (add64-Fits64 _ _) (add64-Fits64 _ _)
      (simp bits (omega (arith, bits64-lt c, bits64-lt f, bits64-lt p)))

counts_new : (n : ℤ) → add64 (add64 (pos 0) (pos 0)) n ≡ wrap64 n
counts_new n =
    eq_of_bits64 _ _ (add64-Fits64 _ _) (wrap64-Fits64 _) (simp bits (omega (arith, bits64-lt n)))

module _ (fl : Float64) where
  open fl use {Float}

  calculate_metrics-kept :
      (ts : TransferStatus Float) (now : ℤ)
      → ((calculate_metrics fl ts now).state ≡ ts.state)
        × ((calculate_metrics fl ts now).bytes_sent ≡ ts.bytes_sent)
        × ((calculate_metrics fl ts now).total_bytes ≡ ts.total_bytes)
  unfolding calculate_metrics
  calculate_metrics-kept ts now = ground arith

  initialize-Inv :
      (m : TransferStatusManager Float) (id : String) (files bytes now : ℤ)
      → Inv m
      → Inv (after m (initialize_session fl m id files bytes now))
  unfolding initialize_session
  initialize-Inv m id files bytes now v = ground (arith, counts_new files)

  start-Inv :
      (m : TransferStatusManager Float) (path : String) (size now : ℤ)
      → Inv m
      → Inv (after m (start_file_transfer fl m path size now))
  unfolding start_file_transfer
  start-Inv m path size now v = ground arith

  abbrev Body : Type 0
  Body = SessionTransferStatus Float → TransferStatus Float → Result (SessionTransferStatus Float)

  -- What a method on the current file does to it, once it is found.
  abbrev Keeps : Body → Type 0
  Keeps body =
      (s : SessionTransferStatus Float) (file : TransferStatus Float)
      → s.current_file ≡ some file
      → SessionInv s
      → ResultInv (body s file)

  current_in-Inv :
      (o : Option (TransferStatus Float)) (s : SessionTransferStatus Float) (body : Body)
      → Keeps body
      → s.current_file ≡ o
      → SessionInv s
      → ResultInv (current_in fl o s body)
  unfolding current_in
  current_in-Inv none s body keeps e v = tt
  current_in-Inv (some file) s body keeps e v = keeps s file e v

  session_in-Inv :
      (o : Option (SessionTransferStatus Float)) (body : Body)
      → Keeps body
      → OptionInv o
      → ResultInv (session_in fl o body)
  unfolding session_in
  session_in-Inv none body keeps v = tt
  session_in-Inv (some s) body keeps v = current_in-Inv s.current_file s body keeps refl v

  put_session-Inv :
      (m : TransferStatusManager Float) (r : Result (SessionTransferStatus Float))
      → Inv m
      → ResultInv r
      → Inv (after m (put_session fl m r))
  unfolding put_session
  put_session-Inv m (ok t) v h = h
  put_session-Inv m (err e) v h = v

  with_current-Inv :
      (m : TransferStatusManager Float) (body : Body)
      → Keeps body
      → Inv m
      → Inv (after m (with_current fl m body))
  unfolding with_current
  with_current-Inv m body keeps v =
      put_session-Inv m _ v (session_in-Inv m.session_status body keeps v)

  progress_in-Inv :
      (sent now : ℤ) (s : SessionTransferStatus Float) (file : TransferStatus Float)
      → pos 0 ≤ℤ sent
      → s.current_file ≡ some file
      → SessionInv s
      → ResultInv (progress_in fl sent now s file)
  unfolding progress_in
  progress_in-Inv sent now s file h e v = ground (
    arith,
    calculate_metrics-kept (record file { bytes_sent = sent; last_update_time = now }) now,
  )

  complete_in-Inv :
      (now : ℤ) (s : SessionTransferStatus Float) (file : TransferStatus Float)
      → SessionInv s
      → ResultInv (complete_in fl now s file)
  unfolding complete_in
  complete_in-Inv now s file v =
      ground (arith, counts_completed s.completed_files s.failed_files s.pending_files)

  fail_in-Inv :
      (now : ℤ) (s : SessionTransferStatus Float) (file : TransferStatus Float)
      → SessionInv s
      → ResultInv (fail_in fl now s file)
  unfolding fail_in
  fail_in-Inv now s file v =
      ground (arith, counts_failed s.completed_files s.failed_files s.pending_files)

  progress-Inv :
      (m : TransferStatusManager Float) (sent now : ℤ)
      → Inv m
      → Inv (after m (update_file_progress fl m sent now))
  unfolding update_file_progress
  progress-Inv m sent now v = elim (Bool-cases (ltb_ℤ sent (pos 0))) [
    | inl negative ↦ rw negative v
    | inr fine ↦ rw fine (
        with_current-Inv m (progress_in fl sent now)
          (λ s file. progress_in-Inv sent now s file (ground arith)) v)
  ]

  complete-Inv :
      (m : TransferStatusManager Float) (now : ℤ)
      → Inv m
      → Inv (after m (complete_current_file fl m now))
  unfolding complete_current_file
  complete-Inv m now v =
      with_current-Inv m (complete_in fl now) (λ s file _. complete_in-Inv now s file) v

  fail-Inv :
      (m : TransferStatusManager Float) (cause : Error) (now : ℤ)
      → Inv m
      → Inv (after m (fail_current_file fl m cause now))
  unfolding fail_current_file
  fail-Inv m cause now v =
      with_current-Inv m (fail_in fl now) (λ s file _. fail_in-Inv now s file) v

  pause-Inv :
      (m : TransferStatusManager Float) (now : ℤ)
      → Inv m
      → Inv (after m (pause_current_file fl m now))
  unfolding pause_current_file
  pause-Inv m now v = ground arith

  resume-Inv :
      (m : TransferStatusManager Float) (now : ℤ)
      → Inv m
      → Inv (after m (resume_current_file fl m now))
  unfolding resume_current_file
  resume-Inv m now v = ground arith

  -- Every call keeps the invariant: the counts of completed, failed and pending files add up to
  -- the total.
  step-Inv : (m : TransferStatusManager Float) (c : ℤ × Call) → Inv m → Inv (step fl m c)
  unfolding step
  step-Inv m (now, initialize id files bytes) v = initialize-Inv m id files bytes now v
  step-Inv m (now, start path size) v = start-Inv m path size now v
  step-Inv m (now, progress sent) v = progress-Inv m sent now v
  step-Inv m (now, complete) v = complete-Inv m now v
  step-Inv m (now, pause) v = pause-Inv m now v
  step-Inv m (now, resume) v = resume-Inv m now v
  step-Inv m (now, reset) v = unfold reset_session in tt
  step-Inv m (now, fail cause) v = fail-Inv m cause now v

  run-Inv : (m : TransferStatusManager Float) (cs : List (ℤ × Call)) → Inv m → Inv (run fl m cs)
  unfolding run
  run-Inv m [] v = v
  run-Inv m (c ∷ cs) v = run-Inv (step fl m c) cs (step-Inv m c v)

  -- After any sequence of calls on a new manager, failed calls included, a session's completed,
  -- failed and pending files add up to its total (as 64-bit sums), its current file is active or
  -- paused with byte counts that are not negative, and it is active, or completed or failed with
  -- a completion time.
  pub run-new_manager-Inv :
      (retries : ℤ) (cs : List (ℤ × Call)) → Inv (run fl (new_manager fl retries) cs)
  run-new_manager-Inv retries cs = run-Inv _ cs (unfold new_manager in tt)
