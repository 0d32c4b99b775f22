-- ===== src/Request/Calls.antt =====
-- The calls of SingleRequestManager (internal/app/state.go) by the handler and the application, in any
-- order, with the mutex that each holds, and what the holders of a request's channels receive between them.
use lan_file_share.Common.{
  ◌≡◌, ◌≤◌, ◌<◌, refl, ap, ◌∙◌, arith, Bool, true, false, Option, none, some, List, [], ◌∷◌, ◌++◌,
  length, ltb,
}
use lan_file_share.Common.Text.{codes}
use lan_file_share.Errors.{Error, message}
use lan_file_share.Request.{
  Outcome, returns, panics, waits, RequestState, SingleRequestManager, with_state,
  new_single_request_manager, create_request, set_decision, set_answer, set_candidate,
  close_candidate_chan, close_request, send_then, close_then,
}

pub data Call (O F C : Type 0) : Type 0 where
  create : O → F → Call O F C
  decision : Bool → Call O F C
  answer : O → Call O F C
  candidate : C → Call O F C
  close_candidates close : Call O F C

-- The manager as the goroutines share it: with the call that waits for a receiver and holds the mutex
-- meanwhile, if there is one.
pub record Shared (O F C : Type 0) : Type 0 where
  pub manager : SingleRequestManager O F C
  pub holder : Option (Call O F C)

abbrev pub outcome_state : {S : Type 0} → Outcome S → S
outcome_state (returns s e) = s
outcome_state (panics s) = s
outcome_state (waits s) = s

module _ {O F C : Type 0} where
  unfoldable pub call :
      Call O F C → SingleRequestManager O F C → Outcome (SingleRequestManager O F C)
  call (create o f) m = create_request m o f
  call (decision d) m = set_decision m d
  call (answer o) m = set_answer m o
  call (candidate c) m = set_candidate m c
  call close_candidates m = close_candidate_chan m
  call close m = close_request m

  abbrev pub free : SingleRequestManager O F C → Shared O F C
  free m = record { manager = m; holder = none }

  abbrev pub held : Call O F C → SingleRequestManager O F C → Shared O F C
  held c m = record { manager = m; holder = some c }

  -- What a call that has the mutex comes to: it gives it back, unless it waits for a receiver.
  unfoldable pub locked : Call O F C → Outcome (SingleRequestManager O F C) → Outcome (Shared O F C)
  locked c (returns m e) = returns (free m) e
  locked c (panics m) = panics (free m)
  locked c (waits m) = waits (held c m)

  -- A call, which begins with the mutex: it waits as long as another call holds that.
  unfoldable pub shared_call : Call O F C → Shared O F C → Outcome (Shared O F C)
  unfolding call locked
  shared_call c s = elim (s.holder) [ none ↦ locked c (call c s.manager) | some other ↦ waits s ]

  -- A call; the call that waits for a receiver, going on; or a value taken from a channel of the request,
  -- which needs no mutex.
  pub data Step : Shared O F C → Shared O F C → Type 0 where
    called :
        {s s' : Shared O F C} → (c : Call O F C) → outcome_state (shared_call c s) ≡ s' → Step s s'
    resumed :
        {m : SingleRequestManager O F C} {s' : Shared O F C}
        → (c : Call O F C) → outcome_state (locked c (call c m)) ≡ s'
        → Step (held c m) s'
    decision_received :
        {r : RequestState O F C} {holder : Option (Call O F C)} {d : Bool} {rest : List Bool}
        → r.decision_chan.buffer ≡ d ∷ rest
        → Step
            (record { manager = with_state (some r); holder = holder })
            (record {
              manager =
                  with_state
                    (some (record r { decision_chan = record r.decision_chan { buffer = rest } }));
              holder = holder;
            })
    answer_received :
        {r : RequestState O F C} {holder : Option (Call O F C)} {o : O} {rest : List O}
        → r.answer_chan.buffer ≡ o ∷ rest
        → Step
            (record { manager = with_state (some r); holder = holder })
            (record {
              manager =
                  with_state
                    (some (record r { answer_chan = record r.answer_chan { buffer = rest } }));
              holder = holder;
            })
    candidate_received :
        {r : RequestState O F C} {holder : Option (Call O F C)} {c : C} {rest : List C}
        → r.candidate_chan.buffer ≡ c ∷ rest
        → Step
            (record { manager = with_state (some r); holder = holder })
            (record {
              manager =
                  with_state (
                    some (record r { candidate_chan = record r.candidate_chan { buffer = rest } }));
              holder = holder;
            })

  pub data Reaches : Shared O F C → Type 0 where
    begin : Reaches (free new_single_request_manager)
    next : {s s' : Shared O F C} → Reaches s → Step s s' → Reaches s'

  -- A call that finds the mutex free and returns.
  pub Reaches-call :
      {m m' : SingleRequestManager O F C}
      → Reaches (free m)
      → (c : Call O F C) (e : Option Error) → call c m ≡ returns m' e
      → Reaches (free m')
  unfolding shared_call
  Reaches-call h c e returned = next h (called c (ap (λ o. outcome_state (locked c o)) returned))

  -- The decision and the answer channel are closed once a value was sent, and empty before; the others are
  -- open as long as the request is there.
  pub record IsWellFormed (r : RequestState O F C) : Type 0 where
    pub decision_closed : r.decision_chan.is_closed ≡ r.decision_sent
    pub decision_room : r.decision_chan.capacity ≡ 1
    pub decision_empty : r.decision_sent ≡ false → r.decision_chan.buffer ≡ []
    pub answer_closed : r.answer_chan.is_closed ≡ r.answer_sent
    pub answer_room : r.answer_chan.capacity ≡ 1
    pub answer_empty : r.answer_sent ≡ false → r.answer_chan.buffer ≡ []
    pub candidate_open : r.candidate_chan.is_closed ≡ false
    pub candidate_unflagged : r.candidate_chan_close ≡ false
    pub candidate_room : r.candidate_chan.capacity ≡ 10
    pub transfer_open : r.transfer_done.is_closed ≡ false

  -- The request after a decision, an answer or a candidate was sent.
  abbrev pub decided : RequestState O F C → Bool → RequestState O F C
  decided r d = record r {
    decision_chan = record r.decision_chan { buffer = d ∷ []; is_closed = true };
    decision_sent = true;
  }

  abbrev pub answered : RequestState O F C → O → RequestState O F C
  answered r a = record r {
    answer_chan = record r.answer_chan { buffer = a ∷ []; is_closed = true };
    answer_sent = true;
  }

  abbrev pub offered : RequestState O F C → C → RequestState O F C
  offered r c = record r {
    candidate_chan = record r.candidate_chan { buffer = r.candidate_chan.buffer ++ c ∷ [] };
  }

  module _ (r : RequestState O F C) (v : IsWellFormed r) where
    pub set_decision_first :
        (d : Bool)
        → r.decision_sent ≡ false
        → set_decision (with_state (some r)) d ≡ returns (with_state (some (decided r d))) none
    unfolding set_decision send_then close_then
    set_decision_first d unsent =
        rw (unsent, v.decision_closed ∙ unsent, v.decision_room, v.decision_empty unsent) refl

    pub set_decision_again :
        (d : Bool)
        → r.decision_sent ≡ true
        → set_decision (with_state (some r)) d
          ≡ returns
              (with_state (some r))
              (some (message (codes "a decision has already been made")))
    unfolding set_decision
    set_decision_again d sent = rw sent refl

    pub set_answer_first :
        (a : O)
        → r.answer_sent ≡ false
        → set_answer (with_state (some r)) a ≡ returns (with_state (some (answered r a))) none
    unfolding set_answer send_then close_then
    set_answer_first a unsent =
        rw (v.answer_closed ∙ unsent, v.answer_room, v.answer_empty unsent) refl

    pub set_answer_again :
        (a : O)
        → r.answer_sent ≡ true
        → set_answer (with_state (some r)) a ≡ panics (with_state (some r))
    unfolding set_answer send_then
    set_answer_again a sent = rw (v.answer_closed ∙ sent) refl

    pub set_candidate_room :
        (c : C)
        → length r.candidate_chan.buffer < 10
        → set_candidate (with_state (some r)) c ≡ returns (with_state (some (offered r c))) none
    unfolding set_candidate send_then
    set_candidate_room c room =
        let yes : ltb (length r.candidate_chan.buffer) 10 ≡ true = ground arith in
        rw (v.candidate_unflagged, v.candidate_open, v.candidate_room, yes) refl

    pub set_candidate_full :
        (c : C)
        → 10 ≤ length r.candidate_chan.buffer
        → set_candidate (with_state (some r)) c ≡ waits (with_state (some r))
    unfolding set_candidate send_then
    set_candidate_full c full =
        let no : ltb (length r.candidate_chan.buffer) 10 ≡ false = ground arith in
        rw (v.candidate_unflagged, v.candidate_open, v.candidate_room, no) refl

    pub close_candidate_chan_open :
        close_candidate_chan (with_state (some r)) ≡ returns (with_state none) none
    unfolding close_candidate_chan close_then
    close_candidate_chan_open = rw (v.candidate_open) refl

    pub close_request_open : close_request (with_state (some r)) ≡ returns (with_state none) none
    unfolding close_request
    close_request_open = rw (v.transfer_open) refl
