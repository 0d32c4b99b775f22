-- ===== src/Tests/Asks.antt =====
-- A request that is accepted and answered.
use mathlib.Core.List.{Memᴰ}
use mathlib.Core.List.Memᴰ
use lan_file_share.Common.{
  ◌≡◌, refl, ℕ, true, Option, some, none, List, [], ◌∷◌, inl, inr, sym, subst, arith,
}
use lan_file_share.Common.Text.{codes}
use lan_file_share.Errors.{message, Result, ok, err}
use lan_file_share.Ask.{
  Surroundings, Event, rejection, got, answer_event, candidate_event, candidates_done, write_event,
  send_answer, stream_candidates, accept, decide_request, ask_handler,
}
use lan_file_share.Ask.Conversation.{IsReply, Owns, ask_handler-IsReply}
use lan_file_share.Request.{SingleRequestManager, new_single_request_manager, create_request}
use lan_file_share.Signature.{SignedFileStructure, verify_file_structure, data_of_signed}
use lan_file_share.Signaler.{
  Json, event_data, stream_text, trim_space, is_space, end_stream, new_listener,
  listen_to_sse_response,
}
use lan_file_share.Signaler.Lines.{IsData}
use lan_file_share.Signaler.Heard.{IsCodec, heard_all, listen-stream_text}
use lan_file_share.Signaler.Conversation.{Learns, ask_handler-Learns}
use lan_file_share.Tests.Signatures.{sample, signed}

-- Session descriptions and candidates are numbers.
abbrev pub surroundings : Surroundings ℕ ℕ
surroundings = record {
  body = ok (record { signed_files = some signed; offer = 1 });
  streaming = true;
  decision = got true;
  answer = got 2;
  candidates = 3 ∷ 4 ∷ [];
  candidates_end = none;
  marshal_answer = λ a. none;
  marshal_candidate = λ c. none;
  write = λ k. none;
}

abbrev idle : SingleRequestManager ℕ (Option SignedFileStructure) ℕ
idle = new_single_request_manager

-- The whole conversation.
ask_handler-accepted :
    (ask_handler surroundings sample idle).events
    ≡ answer_event 2 ∷ candidate_event 3 ∷ candidate_event 4 ∷ candidates_done ∷ []
unfolding ask_handler verify_file_structure data_of_signed create_request decide_request accept
    send_answer stream_candidates write_event
ask_handler-accepted = refl

ask_handler-IsReply_example :
    IsReply (ask_handler surroundings sample idle)
    × Owns idle (ask_handler surroundings sample idle)
ask_handler-IsReply_example = ask_handler-IsReply surroundings sample idle

abbrev number_text : ℕ → List ℕ
number_text n = b'{' ∷ n ∷ b'}' ∷ []

abbrev read_number : List ℕ → Result ℕ
read_number (c ∷ n ∷ s) = ok n
read_number s = err (message (codes "unexpected end of JSON input"))

abbrev pub json : Json ℕ ℕ
json = record {
  answer_text = number_text;
  candidate_text = number_text;
  error_json = λ e. codes "{}";
  read_answer = read_number;
  read_candidate = read_number;
}

pub codec : IsCodec json
codec = record { answers = λ a. refl; candidates = λ c. refl }

pub sent-IsData :
    (e : Event ℕ ℕ)
    → Memᴰ e (answer_event 2 ∷ candidate_event 3 ∷ candidate_event 4 ∷ candidates_done ∷ [])
    → IsData (event_data json e)
unfolding trim_space is_space
sent-IsData e (Memᴰ.head at) =
    subst (λ x. IsData (event_data json x)) (sym at)
      (record { unbroken = refl; short = omega arith; trimmed = refl })
sent-IsData e (Memᴰ.tail (Memᴰ.head at)) =
    subst (λ x. IsData (event_data json x)) (sym at)
      (record { unbroken = refl; short = omega arith; trimmed = refl })
sent-IsData e (Memᴰ.tail (Memᴰ.tail (Memᴰ.head at))) =
    subst (λ x. IsData (event_data json x)) (sym at)
      (record { unbroken = refl; short = omega arith; trimmed = refl })
sent-IsData e (Memᴰ.tail (Memᴰ.tail (Memᴰ.tail (Memᴰ.head at)))) =
    subst (λ x. IsData (event_data json x)) (sym at)
      (record { unbroken = refl; short = omega arith; trimmed = refl })
sent-IsData e (Memᴰ.tail (Memᴰ.tail (Memᴰ.tail (Memᴰ.tail m)))) = absurd (Memᴰ.not-nil m)

ask_handler-Learns_example :
    let es = (ask_handler surroundings sample idle).events in
    Learns es (listen_to_sse_response json (stream_text json es) none)
ask_handler-Learns_example =
    ask_handler-Learns surroundings sample idle json codec
      (λ e m. sent-IsData e (subst (Memᴰ e) ask_handler-accepted m))

listen-stream_text_example :
    listen_to_sse_response json (stream_text json (rejection ∷ [])) none
    ≡ end_stream (heard_all new_listener (rejection ∷ [])) none
unfolding trim_space is_space
listen-stream_text_example = listen-stream_text json (rejection ∷ []) none codec (λ e m.
    elim (Memᴰ.cases_cons m) [
      | inl at ↦
          subst (λ x. IsData (event_data json x)) (sym at)
            (record { unbroken = refl; short = omega arith; trimmed = refl })
      | inr more ↦ absurd (Memᴰ.not-nil more)
    ])
