-- ===== src/Tests/Apps.antt =====
-- The receiver's application with a request of one file.
use lan_file_share.Common.{◌≡◌, true, ℕ, ◌≤◌, refl, false, some, none, List, [], ◌∷◌}
use lan_file_share.Common.Int.{pos}
use lan_file_share.Common.Text.{codes}
use lan_file_share.Errors.{Result, ok}
use lan_file_share.Protocol.{ChunkMessage, chunk_data}
use lan_file_share.ReceiverApp.{
  App, Handshake, handle_accept_file_request, handle_file_chunk, accept_offer, send_answer_of,
  on_ice_candidates, set_active_conn,
}
use lan_file_share.ReceiverApp.Accepting.{Delivers, Asked, requested}
use lan_file_share.ReceiverApp.Announced.{here, chunk, announced, Steps-announced}
use lan_file_share.Request.{
  set_decision, set_answer, set_candidate, get_offer, send_then, close_then, with_state, make_chan,
  new_single_request_manager,
}
use lan_file_share.Request.Calls.{decided, offered, answered}
use lan_file_share.Ask.{decide_request, no_events}
use lan_file_share.Signaler.{stream_text, listen_to_sse_response, wait_for_answer}
use lan_file_share.Signaler.Handshake.{accepted-Agrees}
use lan_file_share.Tests.Asks.{surroundings, json, codec, sent-IsData}
use lan_file_share.Tests.Deliveries.{willing}
use lan_file_share.Tests.Signatures.{signed}

-- Offers, answers and candidates are numbers.
abbrev asked : Asked ℕ ℕ
asked = record {
  offer = 1;
  signed_files = some signed;
  decision_chan = make_chan 1;
  answer_chan = make_chan 1;
  candidate_chan = make_chan 10;
  transfer_done = make_chan 0;
  decision_sent = false;
  answer_sent = false;
  candidate_chan_close = false;
  transfer_done_close = false;
}

abbrev app : App ℕ ℕ
app = record {
  manager = new_single_request_manager;
  active_conn = some 4;
  closed_conns = [];
  output_path = codes "/out";
  disk = [];
  file_receiver = none;
}

-- One candidate before the answer.
abbrev handshake : Handshake ℕ ℕ
handshake = record {
  new_connection = ok 5;
  create_answer = λ conn offer. ok 2;
  gathered = 3 ∷ [];
  all_gathered = false;
  timed_out = none;
}

accepted :
    Delivers handshake app asked 5 2 (handle_accept_file_request handshake (requested app asked))
unfolding handle_accept_file_request accept_offer send_answer_of on_ice_candidates set_active_conn
    set_decision set_answer set_candidate get_offer send_then close_then
accepted = record {
  app = record app {
    manager = with_state (some (answered (offered (decided asked true) 3) 2));
    active_conn = some 5;
    closed_conns = 4 ∷ [];
  };
  succeeds = refl;
  active = refl;
  request = answered (offered (decided asked true) 3) 2;
  kept = refl;
  decisions = refl;
  answers = refl;
  candidates = refl;
}

-- One more candidate comes later.
accepted-Agrees_example :
    let l =
      listen_to_sse_response json
        (stream_text json (decide_request surroundings no_events).events)
        none in
    (wait_for_answer l none ≡ ok 2 ∷ []) × (l.offered ≡ 3 ∷ 4 ∷ [])
unfolding accepted
accepted-Agrees_example =
    accepted-Agrees handshake app asked 5 2 accepted surroundings json (4 ∷ []) refl refl refl refl
      (λ k. refl) (λ c. refl) refl codec sent-IsData

-- A message is its last chunk's bytes.
abbrev read_message : List ℕ → Result ChunkMessage
read_message bytes = ok (record {
  type = chunk_data;
  session = record { service_id = ""; session_id = ""; session_create_at = pos 0 };
  file_id = "a";
  file_name = codes "a";
  sequence_no = 1;
  offset = pos 0;
  bytes = bytes;
  chunk_hash = "";
  total_size = pos 2;
  expected_hash = "00";
  error_message = "";
})

abbrev asking : App ℕ ℕ
asking = requested app asked

-- The same file twice.
Steps-announced_example :
    announced
      (handle_file_chunk read_message willing
        (handle_file_chunk read_message willing asking (1 ∷ 2 ∷ [])).0
        (3 ∷ 4 ∷ [])).0
    ≤ 1
Steps-announced_example =
    Steps-announced read_message willing (1 ∷ 2 ∷ []) asking _ refl
      (chunk here willing (3 ∷ 4 ∷ []))
