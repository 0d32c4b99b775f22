-- ===== src/Ask/Conversation.antt =====
-- The stream of events that AskHandler (api/receiver.go) writes.
use lan_file_share.Common.{
  ◌≡◌, refl, ap, ◌∙◌, ℕ, Bool, true, false, Option, Option-cases, none, some, List, [], ◌∷◌, ◌++◌,
  inl, inr, ◌⊎◌, if_each,
}
use lan_file_share.Common.Maps.{is_some}
use lan_file_share.Errors.{Error, Result, ok, err}
use lan_file_share.Request.{
  SingleRequestManager, with_state, create_request, RequestState, Outcome, returns, panics, waits,
}
use lan_file_share.Signature.{Crypto, SignedFileStructure, verify_file_structure}
use lan_file_share.Ask.{
  Event, rejection, answer_event, candidate_event, candidates_done, error_event, Received, got,
  closed, context_done, Surroundings, Writer, Reply, write_event, failing, send_rejection,
  send_answer, and_go_on, stream_candidates, send_error_event, accept, decide_request, no_events,
  refuse, with_request, ask_handler, AskPayload,
}

-- How far a conversation is: nothing was said, the answer was sent, or it is over.
pub data Phase : Type 0 where
  silent answered over : Phase

-- A rejection, or the answer, then candidates, then their end; an error may end it instead.
abbrev pub next_phase : {O C : Type 0} → Phase → Event O C → Option Phase
next_phase silent rejection = some over
next_phase silent (answer_event a) = some answered
next_phase silent (error_event e) = some over
next_phase answered (candidate_event c) = some answered
next_phase answered candidates_done = some over
next_phase answered (error_event e) = some over
next_phase p e = none

abbrev pub then_phase : {O C : Type 0} → Option Phase → Event O C → Option Phase
then_phase none e = none
then_phase (some p) e = next_phase p e

unfoldable pub phase_after : {O C : Type 0} → Option Phase → List (Event O C) → Option Phase
phase_after p [] = p
phase_after p (e ∷ es) = phase_after (then_phase p e) es

phase_after-append :
    {O C : Type 0} (p : Option Phase) (es fs : List (Event O C))
    → phase_after p (es ++ fs) ≡ phase_after (phase_after p es) fs
unfolding phase_after
phase_after-append p [] fs = refl
phase_after-append p (e ∷ es) fs = phase_after-append (then_phase p e) es fs

abbrev pub phase : {O C : Type 0} → Writer O C → Option Phase
phase w = phase_after (some silent) w.events

-- In the phase `q` without an error, still in `p` with one.
abbrev pub MovesTo : {O C : Type 0} → Phase → Phase → Writer O C × Option Error → Type 0
MovesTo p q (w, none) = phase w ≡ some q
MovesTo p q (w, some e) = phase w ≡ some p

-- The events so far are the beginning of a conversation.
abbrev pub Speaks : {O C : Type 0} → Writer O C → Type 0
Speaks w = (p : Phase) × (phase w ≡ some p)

-- What a reply is: the beginning of a conversation, empty where http.Error answers.
pub record IsReply {O C : Type 0} (reply : Reply O C) : Type 0 where
  pub speaks : (p : Phase) × (phase_after (some silent) reply.events ≡ some p)
  pub either : (reply.status ≡ none) ⊎ (reply.events ≡ [])

module _ {O C : Type 0} (su : Surroundings O C) where
  write_event-MovesTo :
      (w : Writer O C) (e : Event O C) (p q : Phase)
      → phase w ≡ some p
      → next_phase p e ≡ some q
      → MovesTo p q (write_event su w e)
  unfolding write_event phase_after
  write_event-MovesTo w e p q at on = elim (Option-cases (su.write w.tried)) [
    | inr (x, bad) ↦ rw (write_event, bad) at
    | inl fine ↦
        rw (write_event, fine)
          (phase_after-append (some silent) w.events (e ∷ []) ∙ (ap (λ r. then_phase r e) at ∙ on))
  ]

  failing-MovesTo :
      (text : List ℕ) (p q : Phase) (o : Writer O C × Option Error)
      → MovesTo p q o
      → MovesTo p q (failing text o)
  failing-MovesTo text p q (w, none) h = h
  failing-MovesTo text p q (w, some e) h = h

  go_on-MovesTo :
      (next : Writer O C → Writer O C × Option Error) (p q : Phase) (o : Writer O C × Option Error)
      → MovesTo p p o
      → ((w : Writer O C) → phase w ≡ some p → MovesTo p q (next w))
      → MovesTo p q (and_go_on next o)
  go_on-MovesTo next p q (w, none) h rest = rest w h
  go_on-MovesTo next p q (w, some e) h rest = h

  received_answer-MovesTo :
      (w : Writer O C)
      → phase w ≡ some silent
      → (r : Received O) → su.answer ≡ r
      → MovesTo silent answered (send_answer su w)
  unfolding send_answer
  received_answer-MovesTo w at closed e = rw (send_answer, e) at
  received_answer-MovesTo w at (context_done x) e = rw (send_answer, e) at
  received_answer-MovesTo w at (got a) e = elim (Option-cases (su.marshal_answer a)) [
    | inr (x, bad) ↦ rw (send_answer, e, bad) at
    | inl fine ↦
        rw (send_answer, e, fine)
          (failing-MovesTo _ silent answered (write_event su w (answer_event a))
            (write_event-MovesTo w (answer_event a) silent answered at refl))
  ]

  send_answer-MovesTo :
      (w : Writer O C) → phase w ≡ some silent → MovesTo silent answered (send_answer su w)
  send_answer-MovesTo w at = received_answer-MovesTo w at su.answer refl

  stream_candidates-MovesTo :
      (w : Writer O C) (cs : List C)
      → phase w ≡ some answered
      → MovesTo answered over (stream_candidates su w cs)
  unfolding stream_candidates
  stream_candidates-MovesTo w [] at = elim (Option-cases su.candidates_end) [
    | inr (x, bad) ↦ rw (stream_candidates, bad) at
    | inl fine ↦
        rw (stream_candidates, fine)
          (failing-MovesTo _ answered over (write_event su w candidates_done)
            (write_event-MovesTo w candidates_done answered over at refl))
  ]
  stream_candidates-MovesTo w (c ∷ cs) at = elim (Option-cases (su.marshal_candidate c)) [
    | inr (x, bad) ↦ rw (stream_candidates, bad) (stream_candidates-MovesTo w cs at)
    | inl fine ↦
        rw (stream_candidates, fine)
          (go_on-MovesTo (λ w'. stream_candidates su w' cs) answered over _
            (failing-MovesTo _ answered answered (write_event su w (candidate_event c))
              (write_event-MovesTo w (candidate_event c) answered answered at refl))
            (λ w' at'. stream_candidates-MovesTo w' cs at'))
  ]

  moved-Speaks : (p q : Phase) (o : Writer O C × Option Error) → MovesTo p q o → Speaks o.0
  moved-Speaks p q (w, none) h = (q, h)
  moved-Speaks p q (w, some e) h = (p, h)

  error_event-Speaks :
      (p q : Phase) (o : Writer O C × Option Error)
      → ((e : Error) → next_phase {O = O} {C = C} p (error_event e) ≡ some over)
      → MovesTo p q o
      → Speaks (send_error_event su o)
  error_event-Speaks p q (w, none) ends h = (q, h)
  error_event-Speaks p q (w, some e) ends h =
      moved-Speaks p over (write_event su w (error_event e))
        (write_event-MovesTo w (error_event e) p over h (ends e))

  after_answer-Speaks :
      (o : Writer O C × Option Error)
      → MovesTo silent answered o
      → Speaks (send_error_event su (and_go_on (λ w'. stream_candidates su w' su.candidates) o))
  after_answer-Speaks (w, none) h =
      error_event-Speaks answered over (stream_candidates su w su.candidates) (λ e. refl)
        (stream_candidates-MovesTo w su.candidates h)
  after_answer-Speaks (w, some e) h = error_event-Speaks silent answered (w, some e) (λ x. refl) h

  accept-Speaks : (w : Writer O C) → phase w ≡ some silent → Speaks (accept su w)
  unfolding accept
  accept-Speaks w at = after_answer-Speaks (send_answer su w) (send_answer-MovesTo w at)

  send_rejection-Speaks : (w : Writer O C) → phase w ≡ some silent → Speaks (send_rejection su w)
  unfolding send_rejection
  send_rejection-Speaks w at =
      moved-Speaks silent over (write_event su w rejection)
        (write_event-MovesTo w rejection silent over at refl)

  decided-Speaks :
      (w : Writer O C)
      → phase w ≡ some silent
      → (r : Received Bool) → su.decision ≡ r
      → Speaks (decide_request su w)
  unfolding decide_request
  decided-Speaks w at closed e = rw (decide_request, e) (send_rejection-Speaks w at)
  decided-Speaks w at (context_done x) e = rw (decide_request, e) (silent, at)
  decided-Speaks w at (got true) e = rw (decide_request, e) (accept-Speaks w at)
  decided-Speaks w at (got false) e = rw (decide_request, e) (send_rejection-Speaks w at)

  refuse-IsReply :
      (status : ℕ) (closes : Bool) (m : SingleRequestManager O (Option SignedFileStructure) C)
      → IsReply (refuse status closes m)
  unfolding phase_after
  refuse-IsReply status closes m = record { speaks = (silent, refl); either = inr refl }

  with_request-IsReply :
      (m : SingleRequestManager O (Option SignedFileStructure) C) (e : Option Error)
      → IsReply (with_request su m e)
  unfolding phase_after
  with_request-IsReply m (some e) = refuse-IsReply 500 false m
  with_request-IsReply m none =
      if_each IsReply su.streaming _ _
        (record { speaks = decided-Speaks no_events refl su.decision refl; either = inl refl })
        (refuse-IsReply 500 true m)

  created-IsReply :
      (o : Outcome (SingleRequestManager O (Option SignedFileStructure) C))
      → IsReply (elim o [
        | returns m' e ↦ with_request su m' e
        | panics m' ↦ refuse 500 false m'
        | waits m' ↦ refuse 500 false m'
      ])
  created-IsReply (returns m e) = with_request-IsReply m e
  created-IsReply (panics m) = refuse-IsReply 500 false m
  created-IsReply (waits m) = refuse-IsReply 500 false m

  verified-IsReply :
      (cr : Crypto) (m : SingleRequestManager O (Option SignedFileStructure) C)
      (body : Result (AskPayload O))
      → su.body ≡ body
      → IsReply (ask_handler su cr m)
  unfolding ask_handler
  verified-IsReply cr m (err e) same = rw (ask_handler, same) (refuse-IsReply 400 false m)
  verified-IsReply cr m (ok req) same =
      elim (Option-cases (verify_file_structure cr req.signed_files)) [
        | inr (e, bad) ↦ rw (ask_handler, same, bad) (refuse-IsReply 400 false m)
        | inl fine ↦
            rw (ask_handler, same, fine)
              (created-IsReply (create_request m req.offer req.signed_files))
      ]

-- The handler closes the request at its end exactly if it made it; otherwise it leaves the manager alone.
abbrev pub Owns :
    {O C : Type 0} → SingleRequestManager O (Option SignedFileStructure) C → Reply O C → Type 0
Owns m reply =
    ((reply.closes ≡ true) × (m.state ≡ none) × (is_some reply.manager.state ≡ true))
    ⊎ ((reply.closes ≡ false) × (reply.manager ≡ m))

module _ {O C : Type 0} (su : Surroundings O C) (cr : Crypto)
    (m : SingleRequestManager O (Option SignedFileStructure) C) where
  created-Owns :
      (o : Option (RequestState O (Option SignedFileStructure) C)) (offer : O)
      (files : Option SignedFileStructure)
      → Owns (with_state o) (elim (create_request (with_state o) offer files) [
        | returns m' e ↦ with_request su m' e
        | panics m' ↦ refuse 500 false m'
        | waits m' ↦ refuse 500 false m'
      ])
  unfolding create_request
  created-Owns (some r) offer files = inr (refl, refl)
  created-Owns none offer files =
      if_each (Owns (with_state none)) su.streaming _ _ (inl (refl, refl, refl))
        (inl (refl, refl, refl))

  body-Owns : (body : Result (AskPayload O)) → su.body ≡ body → Owns m (ask_handler su cr m)
  unfolding ask_handler
  body-Owns (err e) same = rw (ask_handler, same) (inr (refl, refl))
  body-Owns (ok req) same = elim (Option-cases (verify_file_structure cr req.signed_files)) [
    | inr (e, bad) ↦ rw (ask_handler, same, bad) (inr (refl, refl))
    | inl fine ↦ rw (ask_handler, same, fine) (created-Owns m.state req.offer req.signed_files)
  ]

-- Whatever the body, the channels, the encodings and the connection are: the events that AskHandler writes
-- are a rejection, or the answer, candidates and their end in this order, broken off anywhere or ended by an
-- error, and there are none where it answers with an HTTP error; and it closes the request at its end if
-- there was none before and it made one, and leaves the manager alone otherwise.
pub ask_handler-IsReply :
    {O C : Type 0} (su : Surroundings O C) (cr : Crypto)
    (m : SingleRequestManager O (Option SignedFileStructure) C)
    → IsReply (ask_handler su cr m) × Owns m (ask_handler su cr m)
ask_handler-IsReply su cr m =
    (verified-IsReply su cr m su.body refl, body-Owns su cr m su.body refl)
