-- ===== src/Ask.antt =====
-- AskHandler of api/receiver.go: the answer to a request of a sender, a stream of events. What other
-- goroutines put into the channels of the request, the encoding of an event and the writes to the
-- connection are arguments.
pub mod Candidates
pub mod Conversation
use lan_file_share.Common.{
  ℕ, suc, Bool, true, false, Option, none, some, List, [], ◌∷◌, ◌++◌, if◌then◌else◌,
}
use lan_file_share.Common.Text.{codes}
use lan_file_share.Errors.{Error, message, wrapped, Result, ok, err}
use lan_file_share.Request.{SingleRequestManager, Outcome, returns, panics, waits, create_request}
use lan_file_share.Signature.{Crypto, SignedFileStructure, verify_file_structure}

-- The events of the stream; `O` is a session description, `C` a candidate.
pub data Event (O C : Type 0) : Type 0 where
  rejection : Event O C
  answer_event : O → Event O C
  candidate_event : C → Event O C
  candidates_done : Event O C
  error_event : Error → Event O C

-- What a receive comes to while the context of the request may be done.
pub data Received (A : Type 0) : Type 0 where
  got : A → Received A
  closed : Received A
  context_done : Error → Received A

-- The body of a request that could be read.
pub record AskPayload (O : Type 0) : Type 0 where
  pub signed_files : Option SignedFileStructure
  pub offer : O

-- What the handler meets: the body, the channels of its request (of the candidates those received before
-- the channel is closed or the context done), the encodings, which may fail, and its writes in order.
pub record Surroundings (O C : Type 0) : Type 0 where
  pub body : Result (AskPayload O)
  pub streaming : Bool
  pub decision : Received Bool
  pub answer : Received O
  pub candidates : List C
  pub candidates_end : Option Error
  pub marshal_answer : O → Option Error
  pub marshal_candidate : C → Option Error
  pub write : ℕ → Option Error

-- The events that were written, and how many writes were tried.
pub record Writer (O C : Type 0) : Type 0 where
  pub events : List (Event O C)
  pub tried : ℕ

-- `status` is that of http.Error, `closes` whether CloseRequest runs at the return.
pub record Reply (O C : Type 0) : Type 0 where
  pub status : Option ℕ
  pub events : List (Event O C)
  pub closes : Bool
  pub manager : SingleRequestManager O (Option SignedFileStructure) C

abbrev pub failing : {O C : Type 0} → List ℕ → Writer O C × Option Error → Writer O C × Option Error
failing text (w, none) = (w, none)
failing text (w, some e) = (w, some (wrapped text e))

abbrev pub and_go_on :
    {O C : Type 0}
    → (Writer O C → Writer O C × Option Error)
    → Writer O C × Option Error
    → Writer O C × Option Error
and_go_on next (w, none) = next w
and_go_on next (w, some e) = (w, some e)

abbrev pub no_events : {O C : Type 0} → Writer O C
no_events = record { events = []; tried = 0 }

abbrev pub refuse :
    {O C : Type 0} → ℕ → Bool → SingleRequestManager O (Option SignedFileStructure) C → Reply O C
refuse status closes m = record { status = some status; events = []; closes = closes; manager = m }

module _ {O C : Type 0} (su : Surroundings O C) where
  -- Fprintf of an event, and Flush.
  unfoldable pub write_event : Writer O C → Event O C → Writer O C × Option Error
  write_event w e = elim (su.write w.tried) [
    | some x ↦ (record w { tried = suc w.tried }, some x)
    | none ↦ (record { events = w.events ++ e ∷ []; tried = suc w.tried }, none)
  ]

  -- sendRejection, whose error is only logged; the encoding of its constant text does not fail.
  unfoldable pub send_rejection : Writer O C → Writer O C
  unfolding write_event
  send_rejection w = (write_event w rejection).0

  -- sendAnswer
  unfoldable pub send_answer : Writer O C → Writer O C × Option Error
  unfolding write_event
  send_answer w = elim (su.answer) [
    | closed ↦ (w, some (message (codes "answer channel was closed unexpectedly")))
    | context_done e ↦ (w, some e)
    | got a ↦ elim (su.marshal_answer a) [
      | some e ↦ (w, some (wrapped (codes "failed to marshal answer") e))
      | none ↦ failing (codes "failed to write answer to response") (write_event w (answer_event a))
    ]
  ]

  -- streamCandidates; a candidate that cannot be encoded is skipped.
  unfoldable pub stream_candidates : Writer O C → List C → Writer O C × Option Error
  unfolding write_event
  stream_candidates w [] = elim (su.candidates_end) [
    | some e ↦ (w, some e)
    | none ↦ failing (codes "failed to write candidates_done event") (write_event w candidates_done)
  ]
  stream_candidates w (c ∷ cs) = elim (su.marshal_candidate c) [
    | some e ↦ stream_candidates w cs
    | none ↦
        and_go_on (λ w'. stream_candidates w' cs)
          (failing (codes "failed to write candidate to response")
            (write_event w (candidate_event c)))
  ]

  -- sendErrorEvent of an error, if there was one.
  abbrev pub send_error_event : Writer O C × Option Error → Writer O C
  send_error_event (w, none) = w
  send_error_event (w, some e) = (write_event w (error_event e)).0

  -- What follows an accepted request.
  unfoldable pub accept : Writer O C → Writer O C
  unfolding send_answer stream_candidates
  accept w = send_error_event (and_go_on (λ w'. stream_candidates w' su.candidates) (send_answer w))

  -- The part of AskHandler after the request was created.
  unfoldable pub decide_request : Writer O C → Writer O C
  unfolding accept send_rejection
  decide_request w = elim (su.decision) [
    | context_done e ↦ w
    | closed ↦ send_rejection w
    | got accepted ↦ if accepted then accept w else send_rejection w
  ]

  abbrev pub with_request :
      SingleRequestManager O (Option SignedFileStructure) C → Option Error → Reply O C
  with_request m (some e) = refuse 500 false m
  with_request m none =
      if su.streaming
      then record {
        status = none;
        events = (decide_request no_events).events;
        closes = true;
        manager = m;
      }
      else refuse 500 true m

  -- AskHandler, which finds the mutex of the manager free; CreateRequest then returns.
  unfoldable pub ask_handler :
      Crypto → SingleRequestManager O (Option SignedFileStructure) C → Reply O C
  unfolding decide_request
  ask_handler cr m = elim (su.body) [
    | err e ↦ refuse 400 false m
    | ok req ↦ elim (verify_file_structure cr req.signed_files) [
      | some e ↦ refuse 400 false m
      | none ↦ elim (create_request m req.offer req.signed_files) [
        | returns m' e ↦ with_request m' e
        | panics m' ↦ refuse 500 false m'
        | waits m' ↦ refuse 500 false m'
      ]
    ]
  ]
