-- ===== src/Tests/Requests.antt =====
-- The request manager and the concurrency guard after concrete calls.
use lan_file_share.Common.{◌≡◌, ◌≤◌, ◌↔◌, refl, ℕ, true, false, none, some, List, [], ◌∷◌}
use lan_file_share.Common.Text.{codes}
use lan_file_share.Errors.{message}
use lan_file_share.Guard.{
  ConcurrencyGuard, Goroutines, outside, working, go_to, take_guard, taken, refused,
}
use lan_file_share.Guard.Exclusion.{Reaches-exclusive}
use lan_file_share.Request.{
  SingleRequestManager, RequestState, make_chan, closed_chan, with_state, returns, panics, waits,
  create_request, set_answer, set_candidate, close_candidate_chan, get_candidate_chan,
  get_answer_chan, wait_for_transfer_done, send_then, close_then,
}
use lan_file_share.Request.Calls.{
  Shared, free, held, locked, shared_call, outcome_state, Reaches, Reaches-call, call, create,
  answer, candidate, close, called, begin, next,
}
use lan_file_share.Request.Effects.{
  ReturnsOrWaits, Reaches-Returns, Reaches-refusing, close_candidate_chan_forgets,
}
use lan_file_share.Ask.{no_events}
use lan_file_share.Ask.Candidates.{Meets, candidate_handler-Meets}
use lan_file_share.Tests.Asks.{surroundings}
use lan_file_share.Guard

-- A request whose answer was sent and that has one candidate. Offers, files and candidates are numbers.
abbrev request : RequestState ℕ ℕ ℕ
request = record {
  offer = 1;
  signed_files = 2;
  decision_chan = make_chan 1;
  answer_chan = record { capacity = 1; buffer = 3 ∷ []; is_closed = true };
  candidate_chan = record { capacity = 10; buffer = 4 ∷ []; is_closed = false };
  transfer_done = make_chan 0;
  decision_sent = false;
  answer_sent = true;
  candidate_chan_close = false;
  transfer_done_close = false;
}

abbrev manager : SingleRequestManager ℕ ℕ ℕ
manager = with_state (some request)

manager_reached : Reaches (free manager)
unfolding call create_request set_answer set_candidate send_then close_then
manager_reached =
    Reaches-call (Reaches-call (Reaches-call begin (create 1 2) none refl) (answer 3) none refl)
      (candidate 4) none refl

-- A request with ten unread candidates, for which an eleventh waits.
abbrev full_request : RequestState ℕ ℕ ℕ
full_request = record request {
  candidate_chan = record {
    capacity = 10;
    buffer = 4 ∷ 5 ∷ 6 ∷ 7 ∷ 8 ∷ 9 ∷ 10 ∷ 11 ∷ 12 ∷ 13 ∷ [];
    is_closed = false;
  };
}

abbrev stuck : Shared ℕ ℕ ℕ
stuck = held (candidate 14) (with_state (some full_request))

abbrev offer_all : List ℕ → Shared ℕ ℕ ℕ → Shared ℕ ℕ ℕ
unfolding shared_call
offer_all [] s = s
offer_all (x ∷ xs) s = offer_all xs (outcome_state (shared_call (candidate x) s))

offer_all-Reaches : (xs : List ℕ) (s : Shared ℕ ℕ ℕ) → Reaches s → Reaches (offer_all xs s)
unfolding shared_call
offer_all-Reaches [] s h = h
offer_all-Reaches (x ∷ xs) s h = offer_all-Reaches xs _ (next h (called (candidate x) refl))

stuck_reached : Reaches stuck
unfolding shared_call call locked set_candidate send_then
stuck_reached =
    offer_all-Reaches (5 ∷ 6 ∷ 7 ∷ 8 ∷ 9 ∷ 10 ∷ 11 ∷ 12 ∷ 13 ∷ 14 ∷ []) (free manager)
      manager_reached

-- CloseRequest finds the mutex held.
Reaches-Returns_example : ReturnsOrWaits stuck close 5 6 true
Reaches-Returns_example = Reaches-Returns stuck close 5 6 true stuck_reached

Reaches-refusing_example :
    ((set_answer manager 7 ≡ panics manager) ↔ (true ≡ true))
    × ((set_candidate manager 8 ≡ waits manager) ↔ (10 ≤ 1))
Reaches-refusing_example = Reaches-refusing manager 7 8 manager_reached

candidate_handler-Meets_example : Meets surroundings no_events manager 8
candidate_handler-Meets_example =
    candidate_handler-Meets surroundings no_events manager 8 (λ k. refl) (λ c. refl) refl
      manager_reached

close_candidate_chan_forgets_example :
    let m' : SingleRequestManager ℕ ℕ ℕ = with_state none in
    (close_candidate_chan manager ≡ returns m' none)
    × (false ≡ false)
    × (get_candidate_chan m' ≡ closed_chan)
    × (get_answer_chan m' ≡ closed_chan)
    × (wait_for_transfer_done m' ≡ closed_chan)
    × (set_answer m' 9 ≡ returns m' (some (message (codes "no active request state"))))
    × ((m'' : SingleRequestManager ℕ ℕ ℕ) × (create_request m' 9 6 ≡ returns m'' none))
close_candidate_chan_forgets_example =
    close_candidate_chan_forgets manager request 9 6 manager_reached refl

-- Goroutine 3 is at its task.
abbrev one_working : Goroutines
one_working = record { guard = record { is_busy = true }; phase = go_to (λ i. outside) 3 working }

one_working_reached : Guard.Reaches one_working
unfolding take_guard
one_working_reached = Guard.next Guard.begin (taken 3 refl refl)

Reaches-exclusive_example : let i : ℕ = 3 in i ≡ i
Reaches-exclusive_example =
    Reaches-exclusive one_working 3 3 one_working_reached (λ e. cc) (λ e. cc)
