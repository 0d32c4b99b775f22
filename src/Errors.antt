-- ===== src/Errors.antt =====
-- The error values of pkg/transfer: the sentinels of status.go and chunker.go, messages made by
-- `fmt.Errorf`, and errors wrapped by `%w`, with `Error()` and `errors.Is`.
use lan_file_share.Common.{ℕ, Bool, false, List, ◌++◌, String, ◌==◌, nat_eq}
use lan_file_share.Common.Text.{codes}

-- status.go, the `Err…` variables, and `ErrIsDir` of chunker.go.
pub data Sentinel : Type 0 where
  transfer_not_found invalid_state_transition transfer_already_exists session_not_found : Sentinel
  session_already_exists max_transfers_exceeded invalid_configuration transfer_cancelled : Sentinel
  is_dir : Sentinel

pub data Error : Type 0 where
  sentinel : Sentinel → Error
  -- An error made of a text, by this program or by a library it calls.
  message : List ℕ → Error
  -- fmt.Errorf("prefix: %w", err)
  wrapped : List ℕ → Error → Error

abbrev pub sentinel_text : Sentinel → String
sentinel_text transfer_not_found = "transfer not found"
sentinel_text invalid_state_transition = "invalid state transition"
sentinel_text transfer_already_exists = "transfer already exists"
sentinel_text session_not_found = "session not found"
sentinel_text session_already_exists = "session already exists"
sentinel_text max_transfers_exceeded = "maximum concurrent transfers exceeded"
sentinel_text invalid_configuration = "invalid configuration"
sentinel_text transfer_cancelled = "transfer canceled"
sentinel_text is_dir = "cannot chunk a directory"

-- err.Error()
unfoldable pub error_text : Error → List ℕ
error_text (sentinel s) = codes (sentinel_text s)
error_text (message t) = t
error_text (wrapped t e) = t ++ (codes ": " ++ error_text e)

abbrev sentinel_id : Sentinel → ℕ
sentinel_id transfer_not_found = 0
sentinel_id invalid_state_transition = 1
sentinel_id transfer_already_exists = 2
sentinel_id session_not_found = 3
sentinel_id session_already_exists = 4
sentinel_id max_transfers_exceeded = 5
sentinel_id invalid_configuration = 6
sentinel_id transfer_cancelled = 7
sentinel_id is_dir = 8

-- errors.Is(err, target) for a target of the list above.
unfoldable pub errors_is : Error → Sentinel → Bool
errors_is (sentinel s) t = sentinel_id s == sentinel_id t
errors_is (message m) t = false
errors_is (wrapped m e) t = errors_is e t

-- A Go function that returns a value and an error.
pub data Result {ℓ} (A : Type ℓ) : Type ℓ where
  ok : A → Result A
  err : Error → Result A

-- An operation that fails before it writes leaves its object as it was.
abbrev pub after {ℓ} : {S : Type ℓ} → S → Result S → S
after s (ok t) = t
after s (err e) = s
