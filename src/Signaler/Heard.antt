-- ===== src/Signaler/Heard.antt =====
-- What listenToSSEResponse (api/signaler.go) hears of each event that AskHandler (api/receiver.go) writes.
use mathlib.Core.List.{Memᴰ}
use lan_file_share.Common.{
  ℕ, ◌≡◌, refl, ap, sym, ◌∙◌, arith, Bool, true, false, ◌||◌, Bool-cases, inl, inr, Option,
  Option-cases, List, [], ◌∷◌, ◌++◌, ◌==◌, nat_eq, if◌then◌else◌, if_each,
}
use lan_file_share.Common.Text.{codes, text_eq}
use lan_file_share.Errors.{Error, ok}
use lan_file_share.Ask.{
  Event, rejection, answer_event, candidate_event, candidates_done, error_event,
}
use lan_file_share.Signaler.{
  Json, Listener, event_name, event_data, name_line, data_line, stream_text, trim_space, is_space,
  trim_line_feed, cut_prefix, send_error, send_answer, err_transfer_rejected, handle_answer_event,
  handle_candidate_event, route_event, end_event, with_data, process_line, process_lines,
  end_stream, scan_error, new_listener, listen_to_sse_response,
}
use lan_file_share.Signaler.Lines.{IsData, event_lines, all_lines, scan-stream_text}

-- What is encoded is decoded again, and the encodings are data that a line can carry.
pub record IsCodec {O C : Type 0} (json : Json O C) : Type 0 where
  pub answers : (a : O) → json.read_answer (json.answer_text a) ≡ ok a
  pub candidates : (c : C) → json.read_candidate (json.candidate_text c) ≡ ok c

abbrev is_answer : {O C : Type 0} → Event O C → Bool
is_answer (answer_event a) = true
is_answer e = false

abbrev is_rejection : {O C : Type 0} → Event O C → Bool
is_rejection rejection = true
is_rejection e = false

-- What an event means to the sender.
abbrev pub meant : {O C : Type 0} → Listener O C → Event O C → Listener O C
meant l rejection = send_error l err_transfer_rejected
meant l (answer_event a) = send_answer l a
meant l (candidate_event c) = record l { offered = l.offered ++ c ∷ [] }
meant l candidates_done = l
meant l (error_event e) = l

abbrev noted : {O C : Type 0} → Listener O C → Event O C → Listener O C
noted l e = record l {
  current_event = event_name e;
  answer_received = l.answer_received || is_answer e;
  rejection_received = l.rejection_received || is_rejection e;
}

abbrev pub heard : {O C : Type 0} → Listener O C → Event O C → Listener O C
heard l e = if l.waits then l else meant (noted l e) e

unfoldable pub heard_all : {O C : Type 0} → Listener O C → List (Event O C) → Listener O C
heard_all l [] = l
heard_all l (e ∷ es) = heard_all (heard l e) es

trim_line_feed-append : (s : List ℕ) → trim_line_feed (s ++ b'\n' ∷ []) ≡ s
unfolding trim_line_feed
trim_line_feed-append [] = refl
trim_line_feed-append (c ∷ []) = refl
trim_line_feed-append (c ∷ d ∷ s) = ap (◌∷◌ c) (trim_line_feed-append (d ∷ s))

nonempty_end : (s : List ℕ) (c : ℕ) → ((s ++ c ∷ []) == []) ≡ false
nonempty_end [] c = refl
nonempty_end (d ∷ s) c = refl

module _ {O C : Type 0} (json : Json O C) where
  process-name_line :
      (l : Listener O C) (e : Event O C)
      → l.waits ≡ false
      → process_line json l (name_line e) ≡ record l { current_event = event_name e }
  unfolding process_line cut_prefix trim_space is_space
  process-name_line l rejection h =
      ap (λ b. if b then l else record l { current_event = codes "rejection" }) h
  process-name_line l (answer_event a) h =
      ap (λ b. if b then l else record l { current_event = codes "answer" }) h
  process-name_line l (candidate_event c) h =
      ap (λ b. if b then l else record l { current_event = codes "candidate" }) h
  process-name_line l candidates_done h =
      ap (λ b. if b then l else record l { current_event = codes "candidates_done" }) h
  process-name_line l (error_event e) h =
      ap (λ b. if b then l else record l { current_event = codes "error" }) h

  trim-space : (s : List ℕ) → trim_space (b' ' ∷ s) ≡ trim_space s
  unfolding trim_space is_space
  trim-space s = refl

  abbrev with_payload : Listener O C → List ℕ → Listener O C
  with_payload l d = record l {
    data_buffer = l.data_buffer ++ (d ++ b'\n' ∷ []);
    answer_received = l.answer_received || l.current_event == codes "answer";
    rejection_received = l.rejection_received || l.current_event == codes "rejection";
  }

  process-data_line :
      (l : Listener O C) (e : Event O C)
      → l.waits ≡ false
      → IsData (event_data json e)
      → process_line json l (data_line json e) ≡ with_payload l (event_data json e)
  unfolding process_line cut_prefix
  process-data_line l e h v =
      ap (λ b. if b then l else with_data json l (b' ' ∷ event_data json e)) h
      ∙ ap (with_payload l) (trim-space (event_data json e) ∙ v.trimmed)

  process-end :
      (l : Listener O C) (d : List ℕ)
      → l.waits ≡ false
      → l.data_buffer ≡ d ++ b'\n' ∷ []
      → process_line json l [] ≡ record (route_event json l l.current_event d) { data_buffer = [] }
  unfolding process_line
  process-end l d h buffer =
      ap (λ b. if b then l else end_event json l) h
      ∙ (ap
            (λ b.
              if b
              then l
              else record (route_event json l l.current_event (trim_line_feed l.data_buffer)) {
                data_buffer = [];
              })
            (ap (λ s. s == []) buffer ∙ nonempty_end d b'\n')
          ∙ ap (λ s. record (route_event json l l.current_event s) { data_buffer = [] })
              (ap trim_line_feed buffer ∙ trim_line_feed-append d))

  -- The buffer is emptied after an event.
  abbrev emptied : Listener O C → Listener O C
  emptied l = record l { data_buffer = [] }

  send_error-emptied :
      (l : Listener O C) (b : List ℕ) (e : Error)
      → emptied (send_error (record l { data_buffer = b }) e) ≡ emptied (send_error l e)
  send_error-emptied l b e = elim (Option-cases l.err_chan) [
    | inl free ↦ ground (arith, free)
    | inr (x, full) ↦ ground (arith, full)
  ]

  answer_room :
      (l : Listener O C) (b : List ℕ) (a : O) (sent : List O)
      → l.answer_chan ≡ sent
      → emptied (send_answer (record l { data_buffer = b }) a) ≡ emptied (send_answer l a)
  answer_room l b a [] free = ground (arith, free)
  answer_room l b a (x ∷ xs) full = ground (arith, full)

  send_answer-emptied :
      (l : Listener O C) (b : List ℕ) (a : O)
      → emptied (send_answer (record l { data_buffer = b }) a) ≡ emptied (send_answer l a)
  send_answer-emptied l b a = answer_room l b a l.answer_chan refl

  module _ (codec : IsCodec json) where
    handle-answer :
        (l : Listener O C) (a : O)
        → handle_answer_event json l (json.answer_text a) ≡ send_answer l a
    unfolding handle_answer_event
    handle-answer l a = rw (handle_answer_event, codec.answers a) refl

    handle-candidate :
        (l : Listener O C) (c : C)
        → handle_candidate_event json l (json.candidate_text c)
          ≡ record l { offered = l.offered ++ c ∷ [] }
    unfolding handle_candidate_event
    handle-candidate l c = rw (handle_candidate_event, codec.candidates c) refl

    route-meant :
        (l : Listener O C) (b : List ℕ) (e : Event O C)
        → emptied
            (route_event json (record l { data_buffer = b }) (event_name e) (event_data json e))
          ≡ emptied (meant l e)
    unfolding route_event
    route-meant l b rejection = send_error-emptied l b err_transfer_rejected
    route-meant l b (answer_event a) =
        ap emptied (handle-answer (record l { data_buffer = b }) a) ∙ send_answer-emptied l b a
    route-meant l b (candidate_event c) =
        ap emptied (handle-candidate (record l { data_buffer = b }) c)
    route-meant l b candidates_done = refl
    route-meant l b (error_event e) = refl

  send_error-keeps : (l : Listener O C) (e : Error) → (send_error l e).data_buffer ≡ l.data_buffer
  send_error-keeps l e = elim (Option-cases l.err_chan) [
    | inl free ↦ ground (arith, free)
    | inr (x, full) ↦ ground (arith, full)
  ]

  send_answer-keeps :
      (l : Listener O C) (a : O) (sent : List O)
      → l.answer_chan ≡ sent
      → (send_answer l a).data_buffer ≡ l.data_buffer
  send_answer-keeps l a [] free = ground (arith, free)
  send_answer-keeps l a (x ∷ xs) full = ground (arith, full)

  meant-keeps : (l : Listener O C) (e : Event O C) → (meant l e).data_buffer ≡ l.data_buffer
  meant-keeps l rejection = send_error-keeps l err_transfer_rejected
  meant-keeps l (answer_event a) = send_answer-keeps l a l.answer_chan refl
  meant-keeps l (candidate_event c) = refl
  meant-keeps l candidates_done = refl
  meant-keeps l (error_event e) = refl

  payload-noted :
      (l : Listener O C) (e : Event O C) (d : List ℕ)
      → with_payload (record l { current_event = event_name e }) d
        ≡ record (noted l e) { data_buffer = l.data_buffer ++ (d ++ b'\n' ∷ []) }
  payload-noted l rejection d = refl
  payload-noted l (answer_event a) d = refl
  payload-noted l (candidate_event c) d = refl
  payload-noted l candidates_done d = refl
  payload-noted l (error_event e) d = refl

  heard-buffer :
      (l : Listener O C) (e : Event O C) → l.data_buffer ≡ [] → (heard l e).data_buffer ≡ []
  heard-buffer l e empty =
      if_each (λ (k : Listener O C). k.data_buffer ≡ []) l.waits l (meant (noted l e) e) empty
        (meant-keeps (noted l e) e ∙ empty)

  module _ (codec : IsCodec json) where
    process-event :
        (l : Listener O C) (e : Event O C)
        → l.waits ≡ false
        → l.data_buffer ≡ []
        → IsData (event_data json e)
        → process_lines json l (event_lines json e) ≡ meant (noted l e) e
    unfolding process_lines
    process-event l e h empty v =
        let d = event_data json e in
        let b = l.data_buffer ++ (d ++ b'\n' ∷ []) in
        let named = record l { current_event = event_name e } in
        let first = process-name_line l e h in
        let second = process-data_line named e h v ∙ payload-noted l e d in
        let third =
          process-end (record (noted l e) { data_buffer = b }) d h
            (ap (λ a. a ++ (d ++ b'\n' ∷ [])) empty) in
        ap (λ k. process_line json (process_line json k (data_line json e)) []) first
        ∙ (ap (λ k. process_line json k []) second
            ∙ (third
                ∙ (route-meant codec (noted l e) b e
                    ∙ ap (λ s. record (meant (noted l e) e) { data_buffer = s })
                        (sym (meant-keeps (noted l e) e ∙ empty)))))

  -- A goroutine that waits reads no more.
  waiting_line : (l : Listener O C) (line : List ℕ) → l.waits ≡ true → process_line json l line ≡ l
  unfolding process_line
  waiting_line l line h = rw (process_line, h) refl

  waiting_lines :
      (l : Listener O C) (lines : List (List ℕ)) → l.waits ≡ true → process_lines json l lines ≡ l
  unfolding process_lines
  waiting_lines l [] h = refl
  waiting_lines l (line ∷ lines) h =
      ap (λ k. process_lines json k lines) (waiting_line l line h) ∙ waiting_lines l lines h

  waiting_heard : (l : Listener O C) (es : List (Event O C)) → l.waits ≡ true → heard_all l es ≡ l
  unfolding heard_all
  waiting_heard l [] h = refl
  waiting_heard l (e ∷ es) h =
      ap (λ k. heard_all k es) (ap (λ b. if b then l else meant (noted l e) e) h)
      ∙ waiting_heard l es h

  process-all_lines :
      (codec : IsCodec json) (l : Listener O C) (es : List (Event O C))
      → l.data_buffer ≡ []
      → ((e : Event O C) → Memᴰ e es → IsData (event_data json e))
      → process_lines json l (all_lines json es) ≡ heard_all l es
  unfolding process_lines heard_all
  process-all_lines codec l [] empty v = refl
  process-all_lines codec l (e ∷ es) empty v = elim (Bool-cases l.waits) [
    | inl waits ↦
        waiting_lines l (all_lines json (e ∷ es)) waits ∙ sym (waiting_heard l (e ∷ es) waits)
    | inr runs ↦
        let hears = sym (ap (λ b. if b then l else meant (noted l e) e) runs) in
        ap (λ k. process_lines json k (all_lines json es))
          (process-event codec l e runs empty (v e (Memᴰ.head refl)) ∙ hears)
        ∙ process-all_lines codec (heard l e) es (heard-buffer l e empty) (λ d m. v d (Memᴰ.tail m))
  ]

-- What AskHandler writes of any events is heard by listenToSSEResponse as these events in their order, up to
-- the first that finds the answer channel full: an answer goes to the answer channel, a candidate to the
-- connection, a rejection to the error channel, and the others change nothing but the event's name. This
-- holds where the payloads are decoded as they were encoded and each is one line that fits the scanner.
pub listen-stream_text :
    {O C : Type 0} (json : Json O C) (es : List (Event O C)) (read_error : Option Error)
    → IsCodec json
    → ((e : Event O C) → Memᴰ e es → IsData (event_data json e))
    → listen_to_sse_response json (stream_text json es) read_error
      ≡ end_stream (heard_all new_listener es) read_error
unfolding listen_to_sse_response
listen-stream_text json es read_error codec v =
    ap
      (λ (o : List (List ℕ) × Bool).
        end_stream (process_lines json new_listener o.0) (scan_error o.1 read_error))
      (scan-stream_text json es v)
    ∙ ap (λ l. end_stream l read_error) (process-all_lines json codec new_listener es refl v)
