-- ===== src/Signaler/Handshake.antt =====
-- A request that is accepted: handleAcceptFileRequest (pkg/receiver/app.go), AskHandler (api/receiver.go) and
-- the sender's signaler (api/signaler.go), over the channels of the request (internal/app/state.go).
use mathlib.Core.List.{Memᴰ}
use lan_file_share.Common.{
  ℕ, ◌≡◌, refl, ap, sym, ◌∙◌, subst, true, none, some, List, [], ◌∷◌, ◌++◌, map,
}
use lan_file_share.Errors.{ok}
use lan_file_share.Ask.{
  Event, answer_event, candidate_event, candidates_done, Surroundings, Received, got, closed,
  no_events, write_event, send_answer, send_error_event, accept, decide_request,
}
use lan_file_share.Ask.Candidates.{stream_all}
use lan_file_share.Ask.Conversation.{answered, over, phase_after}
use lan_file_share.ReceiverApp.{App, Handshake, handle_accept_file_request}
use lan_file_share.ReceiverApp.Accepting.{Asked, Delivers, requested}
use lan_file_share.Request.{Chan}
use lan_file_share.Signaler.{Json, event_data, stream_text, listen_to_sse_response, wait_for_answer}
use lan_file_share.Signaler.Conversation.{Learns, candidates_of, learns}
use lan_file_share.Signaler.Heard.{IsCodec, listen-stream_text}
use lan_file_share.Signaler.Lines.{IsData}

-- What a receive of a channel gives that has a value or is closed.
abbrev first : {A : Type 0} → List A → Received A
first [] = closed
first (x ∷ xs) = got x

abbrev pub receive : {A : Type 0} → Chan A → Received A
receive c = first c.buffer

-- The events of an answer and candidates.
abbrev pub reply : {O C : Type 0} → O → List C → List (Event O C)
reply a cs = answer_event a ∷ (map candidate_event cs ++ candidates_done ∷ [])

phase-candidates :
    (O : Type 0) {C : Type 0} (cs : List C)
    → phase_after {O = O} (some answered) (map candidate_event cs ++ candidates_done ∷ [])
      ≡ some over
unfolding phase_after
phase-candidates O [] = refl
phase-candidates O (c ∷ cs) = phase-candidates O cs

candidates_of-reply :
    (O : Type 0) {C : Type 0} (cs : List C)
    → candidates_of {O = O} (map candidate_event cs ++ candidates_done ∷ []) ≡ cs
candidates_of-reply O [] = refl
candidates_of-reply O (c ∷ cs) = ap (◌∷◌ c) (candidates_of-reply O cs)

module _ {O C : Type 0} where
  module _ (su : Surroundings O C) (answer : O) where
    -- AskHandler after the decision, with all writes and encodings.
    decided_events :
        su.decision ≡ got true
        → su.answer ≡ got answer
        → su.marshal_answer answer ≡ none
        → ((k : ℕ) → su.write k ≡ none)
        → ((c : C) → su.marshal_candidate c ≡ none)
        → su.candidates_end ≡ none
        → (decide_request su no_events).events ≡ reply answer su.candidates
    unfolding decide_request accept send_answer write_event
    decided_events d a encodes writes marshals ends =
        let (k, all) =
          stream_all su (record { events = answer_event answer ∷ []; tried = 1 }) su.candidates
            writes marshals ends in
        rw (decide_request, d, accept, send_answer, a, encodes, write_event, writes 0)
          (ap (λ o. (send_error_event su o).events) all)

  -- What the sender learns of an answer and candidates.
  hears :
      (json : Json O C) (answer : O) (cs : List C)
      → IsCodec json
      → ((e : Event O C) → Memᴰ e (reply answer cs) → IsData (event_data json e))
      → let l = listen_to_sse_response json (stream_text json (reply answer cs)) none in
        (wait_for_answer l none ≡ ok answer ∷ []) × (l.offered ≡ cs)
  unfolding phase_after
  hears json answer cs codec v =
      let es = reply answer cs in
      let learnt =
        subst (Learns es) (sym (listen-stream_text json es none codec v))
          (learns es over (phase-candidates O cs)) in
      (learnt.answer, learnt.candidates ∙ candidates_of-reply O cs)

-- A request was accepted as handle_accept_file_request does it with up to ten candidates before the answer.
-- Where AskHandler receives from the channels that this left, with further candidates behind, and can encode
-- and write all of it, the sender that reads its stream to the end is given the answer by WaitForAnswer and
-- nothing else, and adds exactly these candidates, in order. The payloads are decoded as they were encoded,
-- each one line that fits the scanner.
pub accepted-Agrees :
    {O C : Type 0} (h : Handshake O C) (a : App O C) (r : Asked O C) (conn : ℕ) (answer : O)
    (accepted : Delivers h a r conn answer (handle_accept_file_request h (requested a r)))
    (su : Surroundings O C) (json : Json O C) (more : List C)
    → su.decision ≡ receive accepted.request.decision_chan
    → su.answer ≡ receive accepted.request.answer_chan
    → su.candidates ≡ accepted.request.candidate_chan.buffer ++ more
    → su.marshal_answer answer ≡ none
    → ((k : ℕ) → su.write k ≡ none)
    → ((c : C) → su.marshal_candidate c ≡ none)
    → su.candidates_end ≡ none
    → IsCodec json
    → ((e : Event O C) → Memᴰ e (reply answer (h.gathered ++ more)) → IsData (event_data json e))
    → let l =
        listen_to_sse_response json (stream_text json (decide_request su no_events).events) none in
      (wait_for_answer l none ≡ ok answer ∷ []) × (l.offered ≡ h.gathered ++ more)
accepted-Agrees h a r conn answer accepted su json more d t c encodes writes marshals ends codec v =
    let sent =
      decided_events su answer (d ∙ ap first accepted.decisions) (t ∙ ap first accepted.answers)
        encodes writes marshals ends
      ∙ ap (reply answer) (c ∙ ap (λ b. b ++ more) accepted.candidates) in
    subst
      (λ es.
        let l = listen_to_sse_response json (stream_text json es) none in
        (wait_for_answer l none ≡ ok answer ∷ []) × (l.offered ≡ h.gathered ++ more))
      (sym sent) (hears json answer (h.gathered ++ more) codec v)
