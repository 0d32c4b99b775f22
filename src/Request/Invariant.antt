-- ===== src/Request/Invariant.antt =====
-- What holds of the request of a SingleRequestManager (internal/app/state.go) after any calls.
use lan_file_share.Common.{
  lt_or_ge, ◌≡◌, refl, sym, subst, arith, Bool, false, Bool-cases, inl, inr, Option, none, some,
  List, [], ◌∷◌, ◌++◌, length,
}
use lan_file_share.Request.{
  Outcome, returns, panics, waits, RequestState, SingleRequestManager, with_state, create_request,
  set_decision, set_answer, set_candidate, close_candidate_chan, close_request,
}
use lan_file_share.Request.Calls.{
  Call, create, decision, answer, candidate, close_candidates, close, call, Shared, free, held,
  locked, shared_call, outcome_state, Step, called, resumed, decision_received, answer_received,
  candidate_received, Reaches, begin, next, IsWellFormed, decided, answered, set_decision_first,
  set_decision_again, set_answer_first, set_answer_again, set_candidate_room, set_candidate_full,
  close_candidate_chan_open, close_request_open,
}

module _ {O F C : Type 0} where
  abbrev pub WellFormedOption : Option (RequestState O F C) → Type 0
  WellFormedOption none = Unit
  WellFormedOption (some r) = IsWellFormed r

  -- Only SetCandidate waits with the mutex held, and the request stays there meanwhile.
  abbrev pub HolderInv : Option (Call O F C) → Option (RequestState O F C) → Type 0
  HolderInv none s = Unit
  HolderInv (some c) s = (x : C) × (r : RequestState O F C) × (c ≡ candidate x) × (s ≡ some r)

  abbrev pub Inv : Shared O F C → Type 0
  Inv s = WellFormedOption s.manager.state × HolderInv s.holder s.manager.state

  abbrev OutcomeInv : Call O F C → Outcome (SingleRequestManager O F C) → Type 0
  OutcomeInv c (returns m e) = WellFormedOption m.state
  OutcomeInv c (panics m) = WellFormedOption m.state
  OutcomeInv c (waits m) = Inv (held c m)

  module _ (r : RequestState O F C) (v : IsWellFormed r) where
    decided-IsWellFormed : (d : Bool) → IsWellFormed (decided r d)
    decided-IsWellFormed d = record {
      decision_closed = refl;
      decision_room = v.decision_room;
      decision_empty = λ e. ground arith;
      answer_closed = v.answer_closed;
      answer_room = v.answer_room;
      answer_empty = v.answer_empty;
      candidate_open = v.candidate_open;
      candidate_unflagged = v.candidate_unflagged;
      candidate_room = v.candidate_room;
      transfer_open = v.transfer_open;
    }

    answered-IsWellFormed : (a : O) → IsWellFormed (answered r a)
    answered-IsWellFormed a = record {
      decision_closed = v.decision_closed;
      decision_room = v.decision_room;
      decision_empty = v.decision_empty;
      answer_closed = refl;
      answer_room = v.answer_room;
      answer_empty = λ e. ground arith;
      candidate_open = v.candidate_open;
      candidate_unflagged = v.candidate_unflagged;
      candidate_room = v.candidate_room;
      transfer_open = v.transfer_open;
    }

    -- Only the buffers differ, and the empty ones stay empty.
    buffers-IsWellFormed :
        (decisions : List Bool) (answers : List O) (candidates : List C)
        → (r.decision_sent ≡ false → decisions ≡ [])
        → (r.answer_sent ≡ false → answers ≡ [])
        → IsWellFormed (record r {
          decision_chan = record r.decision_chan { buffer = decisions };
          answer_chan = record r.answer_chan { buffer = answers };
          candidate_chan = record r.candidate_chan { buffer = candidates };
        })
    buffers-IsWellFormed decisions answers candidates d a = record {
      decision_closed = v.decision_closed;
      decision_room = v.decision_room;
      decision_empty = d;
      answer_closed = v.answer_closed;
      answer_room = v.answer_room;
      answer_empty = a;
      candidate_open = v.candidate_open;
      candidate_unflagged = v.candidate_unflagged;
      candidate_room = v.candidate_room;
      transfer_open = v.transfer_open;
    }

    call-Inv : (c : Call O F C) → OutcomeInv c (call c (with_state (some r)))
    unfolding call create_request
    call-Inv (create o f) = v
    call-Inv (decision d) = elim (Bool-cases r.decision_sent) [
      | inl sent ↦ subst (OutcomeInv (decision d)) (sym (set_decision_again r v d sent)) v
      | inr unsent ↦
          subst (OutcomeInv (decision d)) (sym (set_decision_first r v d unsent))
            (decided-IsWellFormed d)
    ]
    call-Inv (answer a) = elim (Bool-cases r.answer_sent) [
      | inl sent ↦ subst (OutcomeInv (answer a)) (sym (set_answer_again r v a sent)) v
      | inr unsent ↦
          subst (OutcomeInv (answer a)) (sym (set_answer_first r v a unsent))
            (answered-IsWellFormed a)
    ]
    call-Inv (candidate c) = elim (lt_or_ge (length r.candidate_chan.buffer) 10) [
      | inl room ↦ subst (OutcomeInv (candidate c)) (sym (set_candidate_room r v c room)) (
          buffers-IsWellFormed r.decision_chan.buffer r.answer_chan.buffer
            (r.candidate_chan.buffer ++ c ∷ []) v.decision_empty v.answer_empty)
      | inr full ↦
          subst (OutcomeInv (candidate c)) (sym (set_candidate_full r v c full))
            (v, (c, r, refl, refl))
    ]
    call-Inv close_candidates =
        subst (OutcomeInv close_candidates) (sym (close_candidate_chan_open r v)) tt
    call-Inv close = subst (OutcomeInv close) (sym (close_request_open r v)) tt

  call-none-Inv : (c : Call O F C) → OutcomeInv c (call c (with_state none))
  unfolding call create_request set_decision set_answer set_candidate close_candidate_chan
      close_request
  call-none-Inv (create o f) = record {
    decision_closed = refl;
    decision_room = refl;
    decision_empty = λ e. refl;
    answer_closed = refl;
    answer_room = refl;
    answer_empty = λ e. refl;
    candidate_open = refl;
    candidate_unflagged = refl;
    candidate_room = refl;
    transfer_open = refl;
  }
  call-none-Inv (decision d) = tt
  call-none-Inv (answer a) = tt
  call-none-Inv (candidate c) = tt
  call-none-Inv close_candidates = tt
  call-none-Inv close = tt

  call-any-Inv :
      (c : Call O F C) (o : Option (RequestState O F C))
      → WellFormedOption o
      → OutcomeInv c (call c (with_state o))
  call-any-Inv c none v = call-none-Inv c
  call-any-Inv c (some r) v = call-Inv r v c

  locked-Inv :
      (c : Call O F C) (o : Outcome (SingleRequestManager O F C))
      → OutcomeInv c o
      → Inv (outcome_state (locked c o))
  unfolding locked
  locked-Inv c (returns m e) v = (v, tt)
  locked-Inv c (panics m) v = (v, tt)
  locked-Inv c (waits m) v = v

  shared_call-Inv :
      (c : Call O F C) (m : SingleRequestManager O F C) (holder : Option (Call O F C))
      → Inv (record { manager = m; holder = holder })
      → Inv (outcome_state (shared_call c (record { manager = m; holder = holder })))
  unfolding shared_call
  shared_call-Inv c m none v = locked-Inv c (call c m) (call-any-Inv c m.state v.0)
  shared_call-Inv c m (some other) v = v

  -- A holder stays one while values are received.
  still_held :
      (r r' : RequestState O F C) (holder : Option (Call O F C))
      → HolderInv holder (some r)
      → HolderInv holder (some r')
  still_held r r' none v = tt
  still_held r r' (some c) v = (v.0, r', v.2, refl)

  step-Inv : {s s' : Shared O F C} → Inv s → Step s s' → Inv s'
  step-Inv {s = s} v (called c e) = subst Inv e (shared_call-Inv c s.manager s.holder v)
  step-Inv {s = s} v (resumed {m = m} c e) =
      subst Inv e (locked-Inv c (call c m) (call-any-Inv c m.state v.0))
  step-Inv v (decision_received {r = r} {holder = holder} {rest = rest} h) = (
    buffers-IsWellFormed r v.0 rest r.answer_chan.buffer r.candidate_chan.buffer
        (λ unsent. ground (arith, h, v.0.decision_empty unsent)) v.0.answer_empty,
    still_held r _ holder v.1,
  )
  step-Inv v (answer_received {r = r} {holder = holder} {rest = rest} h) = (
    buffers-IsWellFormed r v.0 r.decision_chan.buffer rest r.candidate_chan.buffer
        v.0.decision_empty (λ unsent. ground (arith, h, v.0.answer_empty unsent)),
    still_held r _ holder v.1,
  )
  step-Inv v (candidate_received {r = r} {holder = holder} {rest = rest} h) = (
    buffers-IsWellFormed r v.0 r.decision_chan.buffer r.answer_chan.buffer rest v.0.decision_empty
        v.0.answer_empty,
    still_held r _ holder v.1,
  )

  pub shared-Inv : {s : Shared O F C} → Reaches s → Inv s
  shared-Inv begin = (tt, tt)
  shared-Inv (next h s) = step-Inv (shared-Inv h) s

  pub reaches-Inv : {m : SingleRequestManager O F C} → Reaches (free m) → WellFormedOption m.state
  reaches-Inv h = (shared-Inv h).0

  -- However the calls and receives follow each other, of a request that is there the decision and the
  -- answer channel are closed exactly once a value was sent and empty before, and its candidate channel and
  -- its TransferDone are open; also while a call waits.
  pub Reaches-IsWellFormed :
      (s : Shared O F C) (r : RequestState O F C)
      → Reaches s
      → s.manager.state ≡ some r
      → IsWellFormed r
  Reaches-IsWellFormed s r h e = subst WellFormedOption e (shared-Inv h).0
