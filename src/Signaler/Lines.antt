-- ===== src/Signaler/Lines.antt =====
-- The lines of the texts of events (api/receiver.go) as listenToSSEResponse (api/signaler.go) reads them.
use mathlib.Core.List.{Memᴰ}
use lan_file_share.Common.{
  ℕ, ◌+◌, ◌<◌, ◌≡◌, refl, ap, ◌∙◌, arith, Bool, true, false, not, ◌&&◌, List, [], ◌∷◌, ◌++◌, ◌==◌,
  nat_eq, leb, append_assoc, append-nil,
}
use lan_file_share.Common.Text.{codes, text_eq}
use lan_file_share.Ask.{
  Event, rejection, answer_event, candidate_event, candidates_done, error_event,
}
use lan_file_share.Signaler.{
  Json, drop_return, byte_count, max_scan_token_size, scan, stream_text, name_line, data_line,
  event_data, trim_space,
}

abbrev pub no_break : List ℕ → Bool
no_break [] = true
no_break (c ∷ s) = not (c == b'\n') && (not (c == b'\r') && no_break s)

-- A text that is one line, fits the scanner's buffer behind "data: ", and begins and ends with no space.
pub record IsData (s : List ℕ) : Type 0 where
  pub unbroken : no_break s ≡ true
  pub short : byte_count s < 65000
  pub trimmed : trim_space s ≡ s

drop_return_same : (s : List ℕ) → no_break s ≡ true → drop_return s ≡ s
unfolding drop_return
drop_return_same [] h = refl
drop_return_same (c ∷ []) h = ground (arith, h)
drop_return_same (c ∷ d ∷ s) h = ap (◌∷◌ c) (drop_return_same (d ∷ s) (ground (arith, h)))

byte_count-append : (s t : List ℕ) → byte_count (s ++ t) ≡ byte_count s + byte_count t
byte_count-append [] t = omega arith
byte_count-append (c ∷ s) t = omega (arith, byte_count-append s t)

scan-step :
    (line : List ℕ) (c : ℕ) (s : List ℕ)
    → (c == b'\n') ≡ false
    → leb max_scan_token_size (byte_count (line ++ c ∷ [])) ≡ false
    → scan line (c ∷ s) ≡ scan (line ++ c ∷ []) s
unfolding scan
scan-step line c s other fits = ground (arith, other, fits)

scan-more :
    (line s rest : List ℕ)
    → no_break s ≡ true
    → byte_count line + byte_count s < max_scan_token_size
    → scan line (s ++ b'\n' ∷ rest) ≡ (drop_return (line ++ s) ∷ (scan [] rest).0, (scan [] rest).1)
unfolding scan
scan-more line [] rest h few = rw (append-nil line) refl
scan-more line (c ∷ s) rest h few =
    let more = byte_count-append line (c ∷ []) in
    let other : (c == b'\n') ≡ false = ground (arith, h) in
    let fits : leb max_scan_token_size (byte_count (line ++ c ∷ [])) ≡ false =
      ground (arith, few, more) in
    let next = scan-more (line ++ c ∷ []) s rest (ground (arith, h)) (omega (arith, more, few)) in
    scan-step line c (s ++ b'\n' ∷ rest) other fits
    ∙ (next
        ∙ ap (λ a. (drop_return a ∷ (scan [] rest).0, (scan [] rest).1))
            (append_assoc line (c ∷ []) s))

scan-line :
    (s rest : List ℕ)
    → no_break s ≡ true
    → byte_count s < max_scan_token_size
    → scan [] (s ++ b'\n' ∷ rest) ≡ (s ∷ (scan [] rest).0, (scan [] rest).1)
scan-line s rest h few =
    scan-more [] s rest h (omega (arith, few))
    ∙ ap (λ a. (a ∷ (scan [] rest).0, (scan [] rest).1)) (drop_return_same s h)

no_break-append : (s t : List ℕ) → no_break s ≡ true → no_break t ≡ true → no_break (s ++ t) ≡ true
no_break-append [] t h k = k
no_break-append (c ∷ s) t h k = ground (arith, h, no_break-append s t (ground (arith, h)) k)

short_name :
    {O C : Type 0} (e : Event O C)
    → (no_break (name_line e) ≡ true) × (byte_count (name_line e) < max_scan_token_size)
short_name rejection = (refl, omega arith)
short_name (answer_event a) = (refl, omega arith)
short_name (candidate_event c) = (refl, omega arith)
short_name candidates_done = (refl, omega arith)
short_name (error_event e) = (refl, omega arith)

module _ {O C : Type 0} (json : Json O C) where
  -- The lines of an event: its name, its data and an empty line.
  abbrev pub event_lines : Event O C → List (List ℕ)
  event_lines e = name_line e ∷ data_line json e ∷ [] ∷ []

  abbrev pub all_lines : List (Event O C) → List (List ℕ)
  all_lines [] = []
  all_lines (e ∷ es) = event_lines e ++ all_lines es

  scan-event :
      (e : Event O C) (rest : List ℕ)
      → IsData (event_data json e)
      → scan [] (name_line e ++ (b'\n' ∷ (data_line json e ++ (b'\n' ∷ (b'\n' ∷ rest)))))
        ≡ (event_lines e ++ (scan [] rest).0, (scan [] rest).1)
  unfolding scan
  scan-event e rest v =
      let unbroken = no_break-append (codes "data: ") (event_data json e) refl v.unbroken in
      let fits : byte_count (data_line json e) < max_scan_token_size =
        omega (arith, byte_count-append (codes "data: ") (event_data json e), v.short) in
      let second = scan-line (data_line json e) (b'\n' ∷ rest) unbroken fits in
      scan-line (name_line e) (data_line json e ++ (b'\n' ∷ (b'\n' ∷ rest))) (short_name e).0
        (short_name e).1
      ∙ ap (λ (o : List (List ℕ) × Bool). (name_line e ∷ o.0, o.1)) second

  pub scan-stream_text :
      (es : List (Event O C))
      → ((e : Event O C) → Memᴰ e es → IsData (event_data json e))
      → scan [] (stream_text json es) ≡ (all_lines es, false)
  unfolding scan stream_text
  scan-stream_text [] v = refl
  scan-stream_text (e ∷ es) v =
      scan-event e (stream_text json es) (v e (Memᴰ.head refl))
      ∙ ap (λ (o : List (List ℕ) × Bool). (event_lines e ++ o.0, o.1))
          (scan-stream_text es (λ d m. v d (Memᴰ.tail m)))
