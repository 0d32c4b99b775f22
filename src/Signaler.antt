-- ===== src/Signaler.antt =====
-- APISignaler of api/signaler.go, the sender's side of the stream of events that AskHandler (api/receiver.go)
-- writes. Texts are lists of characters. The answer channel and the error channel hold what was sent on them
-- while nobody receives; both have room for one value.
pub mod Lines
pub mod Heard
pub mod Conversation
pub mod Handshake
use mathlib.Core.List.{map, reverse}
use lan_file_share.Common.{
  ℕ, ◌+◌, ◌≡◌, ◌≢◌, Bool, true, false, not, ◌&&◌, ◌||◌, Option, none, some, List, [], ◌∷◌, ◌++◌,
  ◌==◌, nat_eq, if◌then◌else◌, leb, ltb, ◌^◌,
}
use lan_file_share.Common.Text.{codes, starts_with, text_eq}
use lan_file_share.Errors.{Error, message, wrapped, Result, ok, err}
use lan_file_share.Ask.{
  Event, rejection, answer_event, candidate_event, candidates_done, error_event,
}

-- unicode.IsSpace
unfoldable pub is_space : ℕ → Bool
is_space c =
    (leb 9 c && leb c 13)
    || c == 32
    || c == 133
    || c == 160
    || c == 5760
    || (leb 8192 c && leb c 8202)
    || c == 8232
    || c == 8233
    || c == 8239
    || c == 8287
    || c == 12288

abbrev pub drop_spaces : List ℕ → List ℕ
drop_spaces [] = []
drop_spaces (c ∷ s) = elim (is_space c) [ true ↦ drop_spaces s | false ↦ c ∷ s ]

-- strings.TrimSpace
unfoldable pub trim_space : List ℕ → List ℕ
trim_space s = reverse (drop_spaces (reverse (drop_spaces s)))

-- strings.TrimSuffix of a line feed.
unfoldable pub trim_line_feed : List ℕ → List ℕ
trim_line_feed [] = []
trim_line_feed (c ∷ []) = if c == b'\n' then [] else c ∷ []
trim_line_feed (c ∷ d ∷ s) = c ∷ trim_line_feed (d ∷ s)

-- strings.CutPrefix
unfoldable pub cut_prefix : List ℕ → List ℕ → Option (List ℕ)
cut_prefix s [] = some s
cut_prefix [] (p ∷ ps) = none
cut_prefix (c ∷ s) (p ∷ ps) = elim (c == p) [ true ↦ cut_prefix s ps | false ↦ none ]

-- encoding/json on the payloads. Of an event the error is what its text names only.
pub record Json (O C : Type 0) : Type 0 where
  pub answer_text : O → List ℕ
  pub candidate_text : C → List ℕ
  pub error_json : Error → List ℕ
  pub read_answer : List ℕ → Result O
  pub read_candidate : List ℕ → Result C

-- The name and the data of an event, as sendRejection, sendAnswer, streamCandidates and sendErrorEvent write
-- them.
abbrev pub event_name : {O C : Type 0} → Event O C → List ℕ
event_name rejection = codes "rejection"
event_name (answer_event a) = codes "answer"
event_name (candidate_event c) = codes "candidate"
event_name candidates_done = codes "candidates_done"
event_name (error_event e) = codes "error"

abbrev pub event_data : {O C : Type 0} → Json O C → Event O C → List ℕ
event_data json rejection = codes "{\"status\":\"rejected\"}"
event_data json (answer_event a) = json.answer_text a
event_data json (candidate_event c) = json.candidate_text c
event_data json candidates_done = codes "{}"
event_data json (error_event e) = json.error_json e

abbrev pub name_line : {O C : Type 0} → Event O C → List ℕ
name_line e = codes "event: " ++ event_name e

abbrev pub data_line : {O C : Type 0} → Json O C → Event O C → List ℕ
data_line json e = codes "data: " ++ event_data json e

-- Fprintf of "event: %s\ndata: %s\n\n", for all events of a stream.
unfoldable pub stream_text : {O C : Type 0} → Json O C → List (Event O C) → List ℕ
stream_text json [] = []
stream_text json (e ∷ es) =
    name_line e ++ (b'\n' ∷ (data_line json e ++ (b'\n' ∷ (b'\n' ∷ stream_text json es))))

-- bufio.ScanLines drops a carriage return at the end of a line.
unfoldable pub drop_return : List ℕ → List ℕ
drop_return [] = []
drop_return (c ∷ []) = if c == b'\r' then [] else c ∷ []
drop_return (c ∷ d ∷ s) = c ∷ drop_return (d ∷ s)

-- The bytes of a text in UTF-8.
abbrev pub byte_count : List ℕ → ℕ
byte_count [] = 0
byte_count (c ∷ s) =
    (if ltb c 128 then 1 else if ltb c 2048 then 2 else if ltb c 65536 then 3 else 4) + byte_count s

-- bufio.MaxScanTokenSize
abbrev pub max_scan_token_size : ℕ
max_scan_token_size = 65536

-- The lines that a bufio.Scanner gives, and whether it stopped at a line that does not fit its buffer.
unfoldable pub scan : List ℕ → List ℕ → List (List ℕ) × Bool
unfolding drop_return
scan line [] = (if line == [] then [] else drop_return line ∷ [], false)
scan line (c ∷ s) = elim (c == b'\n') [
  | true ↦ let (lines, too_long) = scan [] s in (drop_return line ∷ lines, too_long)
  | false ↦ elim (leb max_scan_token_size (byte_count (line ++ c ∷ []))) [
    | true ↦ ([], true)
    | false ↦ scan (line ++ c ∷ []) s
  ]
]

-- APISignaler with the variables of listenToSSEResponse. `offered` are the candidates given to
-- addIceCandidateFunc, whose error is only logged; `waits` says that the goroutine waits at a full answer
-- channel.
pub record Listener (O C : Type 0) : Type 0 where
  pub current_event : List ℕ
  pub data_buffer : List ℕ
  pub answer_received : Bool
  pub rejection_received : Bool
  pub answer_chan : List O
  pub err_chan : Option Error
  pub offered : List C
  pub waits : Bool

-- NewAPISignaler, and the beginning of listenToSSEResponse.
abbrev pub new_listener : {O C : Type 0} → Listener O C
new_listener = record {
  current_event = [];
  data_buffer = [];
  answer_received = false;
  rejection_received = false;
  answer_chan = [];
  err_chan = none;
  offered = [];
  waits = false;
}

abbrev pub err_transfer_rejected : Error
err_transfer_rejected = message (codes "transfer rejected by the receiver")

abbrev pub err_no_answer : Error
err_no_answer = message (codes "no answer or rejection received")

-- sendError: an error that finds the channel full is dropped.
abbrev pub send_error : {O C : Type 0} → Listener O C → Error → Listener O C
send_error l e = elim l.err_chan [ none ↦ record l { err_chan = some e } | some e' ↦ l ]

abbrev pub send_answer : {O C : Type 0} → Listener O C → O → Listener O C
send_answer l a = elim l.answer_chan [
  | [] ↦ record l { answer_chan = a ∷ [] }
  | b ∷ bs ↦ record l { waits = true }
]

-- The results that WaitForAnswer can return, of which its select takes any; it waits while there is none.
-- An answer of the channel is never nil.
unfoldable pub wait_for_answer : {O C : Type 0} → Listener O C → Option Error → List (Result O)
wait_for_answer l done =
    map ok l.answer_chan
    ++ (elim l.err_chan [ none ↦ [] | some e ↦ err e ∷ [] ] ++ elim done [
      | none ↦ []
      | some e ↦ err (wrapped (codes "signaler context canceled") e) ∷ []
    ])

-- The error of the scanner: that of the body, or a line that is too long.
abbrev pub scan_error : Bool → Option Error → Option Error
scan_error true e = some (message (codes "bufio.Scanner: token too long"))
scan_error false e = e

unfoldable pub end_stream : {O C : Type 0} → Listener O C → Option Error → Listener O C
end_stream l e = if l.waits then l else elim e [
  | some x ↦ send_error l (wrapped (codes "error reading SSE stream") x)
  | none ↦
      if not l.answer_received && not l.rejection_received then send_error l err_no_answer else l
]

module _ {O C : Type 0} (json : Json O C) where
  -- handleAnswerEvent
  unfoldable pub handle_answer_event : Listener O C → List ℕ → Listener O C
  handle_answer_event l payload = elim (json.read_answer payload) [
    | err e ↦ send_error l (wrapped (codes "failed to unmarshal answer event") e)
    | ok a ↦ send_answer l a
  ]

  -- handleCandidateEvent
  unfoldable pub handle_candidate_event : Listener O C → List ℕ → Listener O C
  handle_candidate_event l payload = elim (json.read_candidate payload) [
    | err e ↦ l
    | ok c ↦ record l { offered = l.offered ++ c ∷ [] }
  ]

  -- routeEvent
  unfoldable pub route_event : Listener O C → List ℕ → List ℕ → Listener O C
  unfolding handle_answer_event handle_candidate_event
  route_event l event payload =
      if event == codes "answer"
      then handle_answer_event l payload
      else if event == codes "candidate"
      then handle_candidate_event l payload
      else if event == codes "rejection"
      then send_error l err_transfer_rejected
      else l

  abbrev pub end_event : Listener O C → Listener O C
  end_event l =
      if l.data_buffer == []
      then l
      else record (route_event l l.current_event (trim_line_feed l.data_buffer)) {
        data_buffer = [];
      }

  abbrev pub with_data : Listener O C → List ℕ → Listener O C
  with_data l value = record l {
    data_buffer = l.data_buffer ++ (trim_space value ++ b'\n' ∷ []);
    answer_received = l.answer_received || l.current_event == codes "answer";
    rejection_received = l.rejection_received || l.current_event == codes "rejection";
  }

  -- One round of the loop of listenToSSEResponse.
  unfoldable pub process_line : Listener O C → List ℕ → Listener O C
  unfolding route_event
  process_line l line =
      if l.waits
      then l
      else if line == []
      then end_event l
      else elim (cut_prefix line (codes "event:")) [
        | some value ↦ record l { current_event = trim_space value }
        | none ↦ elim (cut_prefix line (codes "data:")) [
          | some value ↦ with_data l value
          | none ↦ l
        ]
      ]

  unfoldable pub process_lines : Listener O C → List (List ℕ) → Listener O C
  unfolding process_line
  process_lines l [] = l
  process_lines l (line ∷ lines) = process_lines (process_line l line) lines

  -- listenToSSEResponse of a body that gives the text and then ends, or fails with an error.
  unfoldable pub listen_to_sse_response : List ℕ → Option Error → Listener O C
  unfolding process_lines end_stream scan
  listen_to_sse_response text read_error =
      let (lines, too_long) = scan [] text in
      end_stream (process_lines new_listener lines) (scan_error too_long read_error)
