-- ===== src/Signaler/Conversation.antt =====
-- AskHandler of the receiver (api/receiver.go) and the signaler of the sender (api/signaler.go) together.
use mathlib.Core.List.{Memᴰ}
use lan_file_share.Common.{
  ◌≡◌, ◌≢◌, refl, ap, sym, ◌∙◌, subst, arith, true, false, Option, Option-cases, none, some, inl,
  inr, ◌⊎◌, List, [], ◌∷◌, ◌++◌, append_assoc, append-nil,
}
use lan_file_share.Errors.{Result, ok, err}
use lan_file_share.Ask.{
  Event, rejection, answer_event, candidate_event, candidates_done, error_event, Surroundings,
  ask_handler,
}
use lan_file_share.Ask.Conversation.{
  Phase, silent, answered, over, next_phase, phase_after, ask_handler-IsReply,
}
use lan_file_share.Request.{SingleRequestManager}
use lan_file_share.Signature.{Crypto, SignedFileStructure}
use lan_file_share.Signaler.{
  Json, Listener, event_data, stream_text, end_stream, new_listener, err_transfer_rejected,
  err_no_answer, wait_for_answer, listen_to_sse_response,
}
use lan_file_share.Signaler.Lines.{IsData}
use lan_file_share.Signaler.Heard.{IsCodec, heard, heard_all, listen-stream_text}

-- The candidates of a stream.
abbrev pub candidates_of : {O C : Type 0} → List (Event O C) → List C
candidates_of [] = []
candidates_of (candidate_event c ∷ es) = c ∷ candidates_of es
candidates_of (e ∷ es) = candidates_of es

-- What WaitForAnswer is to return: the answer of a stream that begins with one; else the error of a rejection,
-- or that there was neither.
abbrev pub answer_of : {O C : Type 0} → List (Event O C) → Result O
answer_of [] = err err_no_answer
answer_of (answer_event a ∷ es) = ok a
answer_of (rejection ∷ es) = err err_transfer_rejected
answer_of (e ∷ es) = err err_no_answer

-- The sender has learnt all of it.
pub record Learns {O C : Type 0} (es : List (Event O C)) (l : Listener O C) : Type 0 where
  pub runs : l.waits ≡ false
  pub answer : wait_for_answer l none ≡ answer_of es ∷ []
  pub candidates : l.offered ≡ candidates_of es

module _ {O C : Type 0} where
  phase_none : (es : List (Event O C)) (p : Phase) → phase_after none es ≢ some p
  unfolding phase_after
  phase_none [] p h = ground (arith, h)
  phase_none (e ∷ es) p h = phase_none es p h

  late_phase :
      (e : Event O C) (q : Phase) → next_phase answered e ≡ some q → (q ≡ answered) ⊎ (q ≡ over)
  late_phase rejection q h = absurd (ground (arith, h))
  late_phase (answer_event a) q h = absurd (ground (arith, h))
  late_phase (candidate_event c) q h = inl (ground (arith, h))
  late_phase candidates_done q h = inr (ground (arith, h))
  late_phase (error_event e) q h = inr (ground (arith, h))

  -- Nothing but candidates was heard.
  record Stays (l : Listener O C) (cs : List C) (k : Listener O C) : Type 0 where
    runs : k.waits ≡ false
    answers : k.answer_chan ≡ l.answer_chan
    errors : k.err_chan ≡ l.err_chan
    received : k.answer_received ≡ l.answer_received
    offered : k.offered ≡ l.offered ++ cs

  none_heard : (l : Listener O C) → l.waits ≡ false → Stays l [] l
  none_heard l runs = record {
    runs = runs;
    answers = refl;
    errors = refl;
    received = refl;
    offered = sym (append-nil l.offered);
  }

  then_heard :
      (l m k : Listener O C) (cs ds : List C) → Stays l cs m → Stays m ds k → Stays l (cs ++ ds) k
  then_heard l m k cs ds v w = record {
    runs = w.runs;
    answers = w.answers ∙ v.answers;
    errors = w.errors ∙ v.errors;
    received = w.received ∙ v.received;
    offered = w.offered ∙ (ap (λ a. a ++ ds) v.offered ∙ append_assoc l.offered cs ds);
  }

  -- One event that is a candidate, the end of the candidates or an error.
  heard-Stays :
      (l : Listener O C) (e : Event O C) (p : Phase)
      → l.waits ≡ false
      → next_phase answered e ≡ some p
      → Stays l (candidates_of (e ∷ [])) (heard l e)
  heard-Stays l rejection p runs h = absurd (ground (arith, h))
  heard-Stays l (answer_event a) p runs h = absurd (ground (arith, h))
  heard-Stays l (candidate_event c) p runs h = record {
    runs = ground (arith, runs);
    answers = ground (arith, runs);
    errors = ground (arith, runs);
    received = ground (arith, runs);
    offered = ground (arith, runs);
  }
  heard-Stays l candidates_done p runs h = record {
    runs = ground (arith, runs);
    answers = ground (arith, runs);
    errors = ground (arith, runs);
    received = ground (arith, runs);
    offered = ground (arith, runs, append-nil l.offered);
  }
  heard-Stays l (error_event x) p runs h = record {
    runs = ground (arith, runs);
    answers = ground (arith, runs);
    errors = ground (arith, runs);
    received = ground (arith, runs);
    offered = ground (arith, runs, append-nil l.offered);
  }

  candidates_of-cons :
      (e : Event O C) (es : List (Event O C))
      → candidates_of (e ∷ []) ++ candidates_of es ≡ candidates_of (e ∷ es)
  candidates_of-cons rejection es = refl
  candidates_of-cons (answer_event a) es = refl
  candidates_of-cons (candidate_event c) es = refl
  candidates_of-cons candidates_done es = refl
  candidates_of-cons (error_event e) es = refl

  -- Without an answer behind the first event.
  heard_all-Stays :
      (l : Listener O C) (es : List (Event O C)) (q p : Phase)
      → l.waits ≡ false
      → (q ≡ answered) ⊎ (q ≡ over)
      → phase_after (some q) es ≡ some p
      → Stays l (candidates_of es) (heard_all l es)
  unfolding heard_all phase_after
  heard_all-Stays l [] q p runs late h = none_heard l runs
  heard_all-Stays l (e ∷ es) q p runs (inr ended) h =
      absurd (phase_none es p (subst (λ x. phase_after (some x) (e ∷ es) ≡ some p) ended h))
  heard_all-Stays l (e ∷ es) q p runs (inl begun) h = elim (Option-cases (next_phase answered e)) [
    | inl bad ↦ absurd (
        phase_none es p (
          ap (λ x. phase_after x es) (sym bad)
          ∙ subst (λ x. phase_after (some x) (e ∷ es) ≡ some p) begun h))
    | inr (q', on) ↦
        let v = heard-Stays l e q' runs on in
        subst (λ cs. Stays l cs (heard_all (heard l e) es)) (candidates_of-cons e es)
          (then_heard l (heard l e) _ (candidates_of (e ∷ [])) (candidates_of es) v (
            heard_all-Stays (heard l e) es q' p v.runs (late_phase e q' on) (
              ap (λ x. phase_after x es) (sym on)
              ∙ subst (λ x. phase_after (some x) (e ∷ es) ≡ some p) begun h)))
  ]

  answered_end :
      (k : Listener O C) → k.waits ≡ false → k.answer_received ≡ true → end_stream k none ≡ k
  unfolding end_stream
  answered_end k runs received = ground (arith, runs, received)

  pub learns :
      (es : List (Event O C)) (p : Phase)
      → phase_after (some silent) es ≡ some p
      → Learns es (end_stream (heard_all new_listener es) none)
  unfolding heard_all phase_after end_stream wait_for_answer
  learns [] p h = record { runs = refl; answer = refl; candidates = refl }
  learns (rejection ∷ []) p h = record { runs = refl; answer = refl; candidates = refl }
  learns (rejection ∷ e ∷ es) p h = absurd (phase_none es p h)
  learns (answer_event a ∷ es) p h =
      let l = heard new_listener (answer_event a) in
      let v = heard_all-Stays l es answered p refl (inl refl) h in
      let k = heard_all l es in
      subst (Learns (answer_event a ∷ es)) (sym (answered_end k v.runs v.received))
        (record { runs = v.runs; answer = rw (v.answers, v.errors) refl; candidates = v.offered })
  learns (candidate_event c ∷ es) p h = absurd (phase_none es p h)
  learns (candidates_done ∷ es) p h = absurd (phase_none es p h)
  learns (error_event e ∷ []) p h = record { runs = refl; answer = refl; candidates = refl }
  learns (error_event e ∷ d ∷ es) p h = absurd (phase_none es p h)

-- Whatever the receiver's user decides and whatever fails on its side: the sender's signaler that reads the
-- events of AskHandler up to the end of the stream never waits at a full channel, gives every candidate that
-- was sent to the connection, in order, and WaitForAnswer can only return the answer if it was sent, the error
-- of a rejection if that was sent, and else the error that there was neither. This holds where the payloads
-- are decoded as they were encoded and each that was sent is one line that fits the scanner.
pub ask_handler-Learns :
    {O C : Type 0} (su : Surroundings O C) (cr : Crypto)
    (m : SingleRequestManager O (Option SignedFileStructure) C) (json : Json O C)
    → IsCodec json
    → ((e : Event O C) → Memᴰ e (ask_handler su cr m).events → IsData (event_data json e))
    → let es = (ask_handler su cr m).events in
      Learns es (listen_to_sse_response json (stream_text json es) none)
ask_handler-Learns su cr m json codec v =
    let es = (ask_handler su cr m).events in
    let (p, speaks) = (ask_handler-IsReply su cr m).0.speaks in
    subst (Learns es) (sym (listen-stream_text json es none codec v)) (learns es p speaks)
