-- ===== src/Retry/History.antt =====
-- ErrorContext of pkg/transfer/error_handler.go: the last errors of a file and what they show.
pub mod Laws
use mathlib.Core.List.{reverse}
use lan_file_share.Common.{
  ℕ, suc, zero, ◌+◌, ◌-◌, Bool, false, true, List, [], ◌∷◌, ◌++◌, String, if◌then◌else◌, ltb, leb,
  length, drop, ◌==◌, nat_eq,
}
use lan_file_share.Common.Int.{ℤ, pos, leb_ℤ}
use lan_file_share.Common.Text.{text_eq}
use lan_file_share.Errors.{Error, error_text}

pub record ErrorContext : Type 0 where
  pub file_path : String
  pub session_id : String
  pub retry_count : ℤ
  pub max_retries : ℤ
  pub last_attempt : ℤ
  pub total_bytes : ℤ
  pub bytes_sent : ℤ
  pub error_history : List Error

-- ec.ErrorHistory[len(ec.ErrorHistory)-10:] once there are more than ten.
unfoldable pub keep_last_ten : List Error → List Error
keep_last_ten h = if ltb 10 (length h) then drop (length h - 10) h else h

-- AddError; `now` is the reading of the clock.
unfoldable pub add_error : ErrorContext → Error → ℤ → ErrorContext
unfolding keep_last_ten
add_error ec err now = record ec {
  error_history = keep_last_ten (ec.error_history ++ err ∷ []);
  last_attempt = now;
}

pub data ErrorPattern : Type 0 where
  no_errors single_error repeated_error mixed_errors : ErrorPattern

-- The loop of GetErrorPattern over the older errors, newest first, with sameErrorCount so far.
count_same : List ℕ → List Error → ℕ → ℕ
count_same newest [] n = n
count_same newest (e ∷ older) n =
    let rest = count_same newest older (n + 1) in
    if ltb n 3 then if error_text e == newest then rest else n else n

-- GetErrorPattern, over the history newest first.
unfoldable pub pattern_of : List Error → ErrorPattern
unfolding count_same
pattern_of [] = no_errors
pattern_of (e ∷ []) = single_error
pattern_of (e ∷ f ∷ older) =
    if leb 3 (count_same (error_text e) (f ∷ older) 1) then repeated_error else mixed_errors

unfoldable pub get_error_pattern : ErrorContext → ErrorPattern
unfolding pattern_of
get_error_pattern ec = pattern_of (reverse ec.error_history)

abbrev escalates : ErrorPattern → ErrorContext → Bool
escalates repeated_error ec = leb_ℤ (pos 2) ec.retry_count
escalates mixed_errors ec = leb_ℤ ec.max_retries ec.retry_count
escalates _ ec = false

-- ShouldEscalate
unfoldable pub should_escalate : ErrorContext → Bool
unfolding get_error_pattern
should_escalate ec = escalates (get_error_pattern ec) ec
