-- ===== src/Request/Effects.antt =====
-- What the calls of SingleRequestManager (internal/app/state.go) come to, whatever calls went before.
use lan_file_share.Common.{
  false-true, lt_or_ge, ◌≡◌, ◌≢◌, ◌≤◌, ◌<◌, ◌↔◌, ◌⊎◌, refl, ap, sym, ◌∙◌, subst, arith, Bool, true,
  false, Bool-cases, inl, inr, Option, none, some, List, [], ◌∷◌, length,
}
use lan_file_share.Common.Text.{codes}
use lan_file_share.Errors.{Error, message}
use lan_file_share.Request.{
  Outcome, returns, panics, waits, RequestState, SingleRequestManager, with_state, closed_chan,
  create_request, set_decision, set_answer, set_candidate, close_candidate_chan, close_request,
  get_candidate_chan, get_answer_chan, wait_for_transfer_done,
}
use lan_file_share.Request.Calls.{
  Call, create, decision, candidate, close_candidates, close, call, Shared, free, held, locked,
  shared_call, IsWellFormed, Reaches, decided, offered, set_decision_first, set_decision_again,
  set_answer_first, set_answer_again, set_candidate_room, set_candidate_full,
  close_candidate_chan_open, close_request_open,
}
use lan_file_share.Request.Invariant.{WellFormedOption, HolderInv, shared-Inv, reaches-Inv}

abbrev pub Returns : {S : Type 0} → Outcome S → Type 0
Returns {S = S} o = (s : S) × ((e : Option Error) × (o ≡ returns s e))

module _ {O F C : Type 0} where
  -- The calls on a well-formed state, for both cases of the state.
  returning :
      (s : Option (RequestState O F C)) (o : O) (f : F) (d : Bool)
      → WellFormedOption s
      → let m = with_state s in
        Returns (create_request m o f)
        × Returns (set_decision m d)
        × Returns (close_candidate_chan m)
        × Returns (close_request m)
  unfolding create_request set_decision close_candidate_chan close_request
  returning none o f d v = ((_, (_, refl)), (_, (_, refl)), (_, (_, refl)), (_, (_, refl)))
  returning (some r) o f d v = (
    (_, (_, refl)),
    elim (Bool-cases r.decision_sent) [
      | inl sent ↦ (_, (_, set_decision_again r v d sent))
      | inr unsent ↦ (_, (_, set_decision_first r v d unsent))
    ],
    (_, (_, close_candidate_chan_open r v)),
    (_, (_, close_request_open r v)),
  )

  -- A call that returns, returns where the mutex is free.
  shared_call-Returns :
      (c : Call O F C) (s : Shared O F C)
      → s.holder ≡ none
      → Returns (call c s.manager)
      → Returns (shared_call c s)
  unfolding shared_call locked
  shared_call-Returns c s idle (m, (e, returned)) =
      (free m, (e, rw (shared_call, idle, returned) refl))

  shared_call-held :
      (c other : Call O F C) (m : SingleRequestManager O F C)
      → shared_call c (held other m) ≡ waits (held other m)
  unfolding shared_call
  shared_call-held c other m = refl

  -- What comes of a SetCandidate of `x` for the request `r` that waits: it goes on waiting exactly as long as
  -- ten candidates are unread, and else puts its candidate behind them and gives the mutex back.
  abbrev pub GoesOn : RequestState O F C → C → Type 0
  GoesOn r x =
      let answer = locked (candidate x) (call (candidate x) (with_state (some r))) in
      ((10 ≤ length r.candidate_chan.buffer)
        × (answer ≡ waits (held (candidate x) (with_state (some r)))))
      ⊎ ((length r.candidate_chan.buffer < 10)
          × (answer ≡ returns (free (with_state (some (offered r x)))) none))

  goes_on : (r : RequestState O F C) (x : C) → IsWellFormed r → GoesOn r x
  unfolding call locked
  goes_on r x v = elim (lt_or_ge (length r.candidate_chan.buffer) 10) [
    | inl room ↦ inr (room, ap (locked (candidate x)) (set_candidate_room r v x room))
    | inr full ↦ inl (full, ap (locked (candidate x)) (set_candidate_full r v x full))
  ]

  -- No call holds the mutex, and these four return; or a SetCandidate holds it, and the call `c` waits.
  abbrev pub ReturnsOrWaits : Shared O F C → Call O F C → O → F → Bool → Type 0
  ReturnsOrWaits s c o f d =
      ((s.holder ≡ none)
        × Returns (shared_call (create o f) s)
        × Returns (shared_call (decision d) s)
        × Returns (shared_call close_candidates s)
        × Returns (shared_call close s))
      ⊎ ((shared_call c s ≡ waits s)
          × ((x : C) × (r : RequestState O F C) × (s.holder ≡ some (candidate x))
              × (s.manager.state ≡ some r)
              × GoesOn r x))

  returning_or_waiting :
      (m : SingleRequestManager O F C) (holder : Option (Call O F C)) (c : Call O F C) (o : O)
      (f : F) (d : Bool)
      → WellFormedOption m.state
      → HolderInv holder m.state
      → ReturnsOrWaits (record { manager = m; holder = holder }) c o f d
  unfolding call
  returning_or_waiting m none c o f d v w =
      let all = returning m.state o f d v in
      inl (
        refl,
        shared_call-Returns (create o f) (free m) refl all.0,
        shared_call-Returns (decision d) (free m) refl all.1,
        shared_call-Returns close_candidates (free m) refl all.2,
        shared_call-Returns close (free m) refl all.3,
      )
  returning_or_waiting m (some other) c o f d v (x, r, same, there) = inr (
    shared_call-held c other m,
    (x, r, ap some same, there, goes_on r x (subst WellFormedOption there v)),
  )

  -- After any calls and receives, each call holding the mutex to its end: if no call holds the mutex then
  -- CreateRequest, SetDecision, CloseCandidateChan and CloseRequest return, and so neither panic on a
  -- closed channel nor wait for a receiver. Else it is held by a SetCandidate of the request that is
  -- there, and each of these four, SetAnswer and SetCandidate waits; the SetCandidate that holds it goes
  -- on waiting exactly as long as ten candidates are unread, and else puts its candidate behind them and
  -- gives the mutex back.
  pub Reaches-Returns :
      (s : Shared O F C) (c : Call O F C) (o : O) (f : F) (d : Bool)
      → Reaches s
      → ReturnsOrWaits s c o f d
  Reaches-Returns s c o f d h =
      let (v, w) = shared-Inv h in returning_or_waiting s.manager s.holder c o f d v w

  abbrev pub answer_given : SingleRequestManager O F C → Bool
  answer_given m = elim (m.state) [ none ↦ false | some r ↦ r.answer_sent ]

  -- The candidates that are sent and not received.
  abbrev pub unread_candidates : SingleRequestManager O F C → List C
  unread_candidates m = elim (m.state) [ none ↦ [] | some r ↦ r.candidate_chan.buffer ]

  returns_panics : {m m' : SingleRequestManager O F C} {e : Option Error} → returns m e ≢ panics m'
  returns_panics e = cc

  returns_waits : {m m' : SingleRequestManager O F C} {e : Option Error} → returns m e ≢ waits m'
  returns_waits e = cc

  refusing :
      (s : Option (RequestState O F C)) (a : O) (c : C)
      → WellFormedOption s
      → let m = with_state s in
        ((set_answer m a ≡ panics m) ↔ (answer_given m ≡ true))
        × ((set_candidate m c ≡ waits m) ↔ (10 ≤ length (unread_candidates m)))
  unfolding set_answer set_candidate
  refusing none a c v = (
    (λ e. absurd (returns_panics e), λ e. absurd (false-true e)),
    (λ e. absurd (returns_waits e), λ e. absurd (omega arith)),
  )
  refusing (some r) a c v = (
    elim (Bool-cases r.answer_sent) [
      | inl sent ↦ (λ e. sent, λ e. set_answer_again r v a sent)
      | inr unsent ↦ (
        λ e. absurd (returns_panics (sym (set_answer_first r v a unsent) ∙ e)),
        λ sent. absurd (false-true (sym unsent ∙ sent)),
      )
    ],
    elim (lt_or_ge (length r.candidate_chan.buffer) 10) [
      | inl room ↦ (
        λ e. absurd (returns_waits (sym (set_candidate_room r v c room) ∙ e)),
        λ full. absurd (omega arith),
      )
      | inr full ↦ (λ e. full, λ e. set_candidate_full r v c full)
    ],
  )

  -- Whatever calls and receives went before, where no call holds the mutex: SetAnswer panics exactly if an
  -- answer was sent for the request, and SetCandidate waits, and then holds the mutex, exactly if ten
  -- candidates are unread.
  pub Reaches-refusing :
      (m : SingleRequestManager O F C) (a : O) (c : C)
      → Reaches (free m)
      → ((set_answer m a ≡ panics m) ↔ (answer_given m ≡ true))
        × ((set_candidate m c ≡ waits m) ↔ (10 ≤ length (unread_candidates m)))
  Reaches-refusing m a c h = refusing m.state a c (reaches-Inv h)

  -- Where no call holds the mutex: after CloseCandidateChan of a request there is none: the candidates
  -- that were sent and not received, and an answer that is still to come, reach no one who asks the
  -- manager, who sees closed channels, also that for the end of the transfer, though the request's own was
  -- not closed; and a new request is accepted.
  pub close_candidate_chan_forgets :
      (m : SingleRequestManager O F C) (r : RequestState O F C) (a : O) (f : F)
      → Reaches (free m)
      → m.state ≡ some r
      → let m' = with_state none in
        (close_candidate_chan m ≡ returns m' none)
        × (r.transfer_done.is_closed ≡ false)
        × (get_candidate_chan m' ≡ closed_chan)
        × (get_answer_chan m' ≡ closed_chan)
        × (wait_for_transfer_done m' ≡ closed_chan)
        × (set_answer m' a ≡ returns m' (some (message (codes "no active request state"))))
        × ((m'' : SingleRequestManager O F C) × (create_request m' a f ≡ returns m'' none))
  unfolding get_candidate_chan get_answer_chan wait_for_transfer_done set_answer create_request
  close_candidate_chan_forgets m r a f h e =
      let v = subst WellFormedOption e (reaches-Inv h) in
      let closes =
        subst (λ s. close_candidate_chan (with_state s) ≡ returns (with_state none) none) (sym e)
          (close_candidate_chan_open r v) in
      (closes, v.transfer_open, refl, refl, refl, refl, (_, refl))

  abbrev Once : SingleRequestManager O F C → Bool → Bool → Type 0
  Once m d other =
      ((r : RequestState O F C) × (m.state ≡ some r)
        × (r.decision_chan.buffer ≡ d ∷ [])
        × (r.decision_chan.is_closed ≡ true))
      × (set_decision m other
          ≡ returns m (some (message (codes "a decision has already been made"))))

  same_manager :
      {m m' : SingleRequestManager O F C} {e e' : Option Error}
      → returns m e ≡ returns m' e'
      → m ≡ m'
  same_manager e = cc

  failed_returns :
      {m m' : SingleRequestManager O F C} {e : Error} → returns m (some e) ≢ returns m' none
  failed_returns e = cc

  deciding :
      (s : Option (RequestState O F C)) (m' : SingleRequestManager O F C) (d other : Bool)
      → WellFormedOption s
      → set_decision (with_state s) d ≡ returns m' none
      → Once m' d other
  unfolding set_decision
  deciding none m' d other v e = absurd (failed_returns e)
  deciding (some r) m' d other v e = elim (Bool-cases r.decision_sent) [
    | inl sent ↦ absurd (failed_returns (sym (set_decision_again r v d sent) ∙ e))
    | inr unsent ↦
        subst (λ m. Once m d other) (same_manager (sym (set_decision_first r v d unsent) ∙ e))
          ((decided r d, refl, refl, refl), refl)
  ]

  -- A decision that SetDecision accepts is what the decision channel holds then, and it is closed; a later one
  -- is refused and changes nothing.
  set_decision_once :
      (m m' : SingleRequestManager O F C) (d other : Bool)
      → Reaches (free m)
      → set_decision m d ≡ returns m' none
      → ((r : RequestState O F C) × (m'.state ≡ some r)
          × (r.decision_chan.buffer ≡ d ∷ [])
          × (r.decision_chan.is_closed ≡ true))
        × (set_decision m' other
            ≡ returns m' (some (message (codes "a decision has already been made"))))
  set_decision_once m m' d other h e = deciding m.state m' d other (reaches-Inv h) e
