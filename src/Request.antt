-- ===== src/Request.antt =====
-- SingleRequestManager of internal/app/state.go: the one request that a receiver has at a time, and its
-- channels. A method runs under the mutex to its end, also where it panics; one that waits for a receiver
-- of a full channel keeps the mutex. Offer and answer are WebRTC's session descriptions.
pub mod Calls
pub mod Invariant
pub mod Effects
use lan_file_share.Common.{
  ℕ, Bool, true, false, ◌||◌, Option, none, some, List, [], ◌∷◌, ◌++◌, length, if◌then◌else◌, ltb,
}
use lan_file_share.Common.Text.{codes}
use lan_file_share.Errors.{Error, message, Result, ok, err}

-- A channel: what was sent and not yet received, and whether it is closed.
pub record Chan (A : Type 0) : Type 0 where
  pub capacity : ℕ
  pub buffer : List A
  pub is_closed : Bool

abbrev pub make_chan : {A : Type 0} → ℕ → Chan A
make_chan n = record { capacity = n; buffer = []; is_closed = false }

-- The fresh closed channel that a getter returns without a request.
abbrev pub closed_chan : {A : Type 0} → Chan A
closed_chan = record { capacity = 0; buffer = []; is_closed = true }

-- What an operation comes to: it returns with an error or nil, it panics, or it waits.
pub data Outcome (S : Type 0) : Type 0 where
  returns : S → Option Error → Outcome S
  panics : S → Outcome S
  waits : S → Outcome S

-- RequestState; `O` is a session description, `F` the signed files, `C` a candidate.
pub record RequestState (O F C : Type 0) : Type 0 where
  pub offer : O
  pub signed_files : F
  pub decision_chan : Chan Bool
  pub answer_chan : Chan O
  pub candidate_chan : Chan C
  pub transfer_done : Chan Unit
  pub decision_sent : Bool
  pub answer_sent : Bool
  pub candidate_chan_close : Bool
  pub transfer_done_close : Bool

pub record SingleRequestManager (O F C : Type 0) : Type 0 where
  pub state : Option (RequestState O F C)

-- c <- x: on a closed channel it panics, on a full one it waits, and then the rest goes on with the channel.
unfoldable pub send_then : {A S : Type 0} → S → Chan A → A → (Chan A → Outcome S) → Outcome S
send_then s c x rest =
    if c.is_closed
    then panics s
    else if ltb (length c.buffer) c.capacity
    then rest (record c { buffer = c.buffer ++ x ∷ [] })
    else waits s

-- close(c): on a closed channel it panics.
unfoldable pub close_then : {A S : Type 0} → S → Chan A → (Chan A → Outcome S) → Outcome S
close_then s c rest = if c.is_closed then panics s else rest (record c { is_closed = true })

abbrev no_request : Error
no_request = message (codes "no active request")

abbrev no_request_state : Error
no_request_state = message (codes "no active request state")

abbrev not_accepted : Error
not_accepted = message (codes "request is not active or candidates are no longer accepted")

module _ {O F C : Type 0} where
  abbrev pub with_state : Option (RequestState O F C) → SingleRequestManager O F C
  with_state s = record { state = s }

  -- NewSingleRequestManager
  abbrev pub new_single_request_manager : SingleRequestManager O F C
  new_single_request_manager = with_state none

  -- CreateRequest; the channel that it returns is the decision channel of the new state.
  unfoldable pub create_request :
      SingleRequestManager O F C → O → F → Outcome (SingleRequestManager O F C)
  create_request m offer files = elim (m.state) [
    | some r ↦ returns m (some (message (codes "a request is already in progress")))
    | none ↦
        returns
          (with_state (
            some (record {
              offer = offer;
              signed_files = files;
              decision_chan = make_chan 1;
              answer_chan = make_chan 1;
              candidate_chan = make_chan 10;
              transfer_done = make_chan 0;
              decision_sent = false;
              answer_sent = false;
              candidate_chan_close = false;
              transfer_done_close = false;
            })))
          none
  ]

  -- GetOffer, GetSignedFiles
  unfoldable pub get_offer : SingleRequestManager O F C → Result O
  get_offer m = elim (m.state) [ none ↦ err no_request_state | some r ↦ ok (r.offer) ]

  unfoldable pub get_signed_files : SingleRequestManager O F C → Result F
  get_signed_files m = elim (m.state) [ none ↦ err no_request | some r ↦ ok (r.signed_files) ]

  -- SetDecision of a request; a decision channel is never nil.
  decide :
      SingleRequestManager O F C → RequestState O F C → Bool → Outcome (SingleRequestManager O F C)
  unfolding send_then close_then
  decide m r decision =
      if r.decision_sent
      then returns m (some (message (codes "a decision has already been made")))
      else send_then m r.decision_chan decision (λ c.
        let sent = with_state (some (record r { decision_chan = c; decision_sent = true })) in
        close_then sent c (λ c'.
          returns (with_state (some (record r { decision_chan = c'; decision_sent = true }))) none))

  -- SetDecision
  unfoldable pub set_decision :
      SingleRequestManager O F C → Bool → Outcome (SingleRequestManager O F C)
  unfolding decide
  set_decision m decision = elim (m.state) [
    | none ↦ returns m (some no_request)
    | some r ↦ decide m r decision
  ]

  -- SetAnswer of a request; an answer channel is never nil.
  answer_with :
      SingleRequestManager O F C → RequestState O F C → O → Outcome (SingleRequestManager O F C)
  unfolding send_then close_then
  answer_with m r answer = send_then m r.answer_chan answer (λ c.
      close_then (with_state (some (record r { answer_chan = c }))) c (λ c'.
        returns (with_state (some (record r { answer_chan = c'; answer_sent = true }))) none))

  -- SetAnswer
  unfoldable pub set_answer : SingleRequestManager O F C → O → Outcome (SingleRequestManager O F C)
  unfolding answer_with
  set_answer m answer = elim (m.state) [
    | none ↦ returns m (some no_request_state)
    | some r ↦ answer_with m r answer
  ]

  -- GetAnswerChan
  unfoldable pub get_answer_chan : SingleRequestManager O F C → Chan O
  get_answer_chan m = elim (m.state) [ none ↦ closed_chan | some r ↦ r.answer_chan ]

  -- SetCandidate
  unfoldable pub set_candidate :
      SingleRequestManager O F C → C → Outcome (SingleRequestManager O F C)
  unfolding send_then
  set_candidate m candidate = elim (m.state) [
    | none ↦ returns m (some not_accepted)
    | some r ↦
        if r.candidate_chan_close
        then returns m (some not_accepted)
        else send_then m r.candidate_chan candidate
            (λ c. returns (with_state (some (record r { candidate_chan = c }))) none)
  ]

  -- CloseCandidateChan; what it writes to the request goes with it.
  unfoldable pub close_candidate_chan :
      SingleRequestManager O F C → Outcome (SingleRequestManager O F C)
  unfolding close_then
  close_candidate_chan m = elim (m.state) [
    | none ↦ returns m none
    | some r ↦ close_then m r.candidate_chan (λ c. returns (with_state none) none)
  ]

  -- GetCandidateChan
  unfoldable pub get_candidate_chan : SingleRequestManager O F C → Chan C
  get_candidate_chan m = elim (m.state) [
    | none ↦ closed_chan
    | some r ↦ if r.candidate_chan_close then closed_chan else r.candidate_chan
  ]

  -- CloseRequest, which recovers from a panic of the close before the request is forgotten.
  unfoldable pub close_request : SingleRequestManager O F C → Outcome (SingleRequestManager O F C)
  close_request m = elim (m.state) [
    | none ↦ returns m none
    | some r ↦ if r.transfer_done.is_closed then returns m none else returns (with_state none) none
  ]

  -- WaitForTransferDone
  unfoldable pub wait_for_transfer_done : SingleRequestManager O F C → Chan Unit
  wait_for_transfer_done m = elim (m.state) [ none ↦ closed_chan | some r ↦ r.transfer_done ]
