-- ===== src/Session.antt =====
-- TransferStatus and SessionTransferStatus of pkg/transfer/status.go with their methods.
-- Instants are nanoseconds since Go's zero time, the clock's reading an argument `now`.
pub mod Progress
use lan_file_share.Common.{
  Bool, true, false, not, ◌&&◌, String, Option, none, some, ◌==◌, ℕ, if◌then◌else◌, ltb, leb,
}
use lan_file_share.Common.Int.{ℤ, pos, pos_part, neg_part, add64, sub64, mul64, ltb_ℤ, leb_ℤ}
use lan_file_share.Errors.{Error}
use lan_file_share.State.{TransferState, state_eq, StatusSessionState}

-- What the program uses of Go's float64, which is no part of the repository: the operations of
-- the processor and of the package `time`.
pub record Float64 : Type 1 where
  pub Float : Type 0
  -- float64(n)
  pub of_int : ℤ → Float
  pub div : Float → Float → Float
  pub mul : Float → Float → Float
  -- x > 0
  pub is_positive : Float → Bool
  -- int64(x)
  pub truncate : Float → ℤ
  -- time.Duration.Seconds
  pub seconds : ℤ → Float

pub record TransferStatus (F : Type 0) : Type 0 where
  pub file_path : String
  pub session_id : String
  pub state : TransferState
  pub bytes_sent : ℤ
  pub total_bytes : ℤ
  pub chunks_sent : ℤ
  pub total_chunks : ℤ
  pub transfer_rate : F
  pub eta : ℤ
  pub start_time : ℤ
  pub last_update_time : ℤ
  pub completion_time : Option ℤ
  pub last_error : Option Error
  pub retry_count : ℤ
  pub max_retries : ℤ
  pub file_size : ℤ
  pub file_checksum : String
  pub priority : ℤ

pub record SessionTransferStatus (F : Type 0) : Type 0 where
  pub session_id : String
  pub total_files : ℤ
  pub completed_files : ℤ
  pub failed_files : ℤ
  pub pending_files : ℤ
  pub total_bytes : ℤ
  pub bytes_completed : ℤ
  pub overall_progress : F
  pub current_file : Option (TransferStatus F)
  pub start_time : ℤ
  pub last_update_time : ℤ
  pub completion_time : Option ℤ
  pub state : StatusSessionState

-- max(total - done, 0), as both GetRemainingBytes compute it.
abbrev pub remaining : ℤ → ℤ → ℤ
remaining total sent = let r = sub64 total sent in if ltb_ℤ r (pos 0) then pos 0 else r

abbrev pub int_is_zero : ℤ → Bool
int_is_zero z = leb_ℤ z (pos 0) && leb_ℤ (pos 0) z

module _ {F : Type 0} where
  -- TransferStatus.GetRemainingBytes
  unfoldable pub get_remaining_bytes : TransferStatus F → ℤ
  get_remaining_bytes ts = remaining ts.total_bytes ts.bytes_sent

  -- TransferStatus.IsComplete
  unfoldable pub is_complete : TransferStatus F → Bool
  is_complete ts = leb_ℤ ts.total_bytes ts.bytes_sent && ts.state == TransferState.completed

  abbrev pub current_bytes : Option (TransferStatus F) → ℤ
  current_bytes none = pos 0
  current_bytes (some file) = file.bytes_sent

  -- SessionTransferStatus.GetRemainingFiles
  unfoldable pub get_remaining_files : SessionTransferStatus F → ℤ
  get_remaining_files s = sub64 (sub64 s.total_files s.completed_files) s.failed_files

  -- SessionTransferStatus.GetRemainingBytes
  unfoldable pub session_get_remaining_bytes : SessionTransferStatus F → ℤ
  session_get_remaining_bytes s =
      remaining s.total_bytes (add64 s.bytes_completed (current_bytes s.current_file))

  -- SessionTransferStatus.IsSessionComplete
  unfoldable pub is_session_complete : SessionTransferStatus F → Bool
  is_session_complete s = leb_ℤ s.total_files (add64 s.completed_files s.failed_files)

  abbrev pub is_active_file : Option (TransferStatus F) → Bool
  is_active_file none = false
  is_active_file (some file) = file.state == TransferState.active

  -- SessionTransferStatus.HasActiveTransfer
  unfoldable pub has_active_transfer : SessionTransferStatus F → Bool
  has_active_transfer s = is_active_file s.current_file

pub record OverallProgress (F : Type 0) : Type 0 where
  pub total_transfers : ℤ
  pub active_transfers : ℤ
  pub completed_transfers : ℤ
  pub failed_transfers : ℤ
  pub cancelled_transfers : ℤ
  pub total_bytes : ℤ
  pub bytes_sent : ℤ
  pub bytes_remaining : ℤ
  pub overall_percentage : F
  pub average_rate : F
  pub estimated_eta : ℤ
  pub session_start_time : ℤ
  pub last_update_time : ℤ

module _ (fl : Float64) where
  open fl use {Float, of_int, div, mul, is_positive, truncate, seconds}

  -- float64(part) / float64(whole) * 100.0, and 0.0 for a whole of 0.
  percentage : ℤ → ℤ → Float
  percentage part whole =
      if int_is_zero whole
      then of_int (pos 0)
      else mul (div (of_int part) (of_int whole)) (of_int (pos 100))

  -- TransferStatus.GetProgressPercentage
  unfoldable pub get_progress_percentage : TransferStatus Float → Float
  unfolding percentage
  get_progress_percentage ts = percentage ts.bytes_sent ts.total_bytes

  -- SessionTransferStatus.GetSessionProgressPercentage
  unfoldable pub get_session_progress_percentage : SessionTransferStatus Float → Float
  unfolding percentage
  get_session_progress_percentage s =
      percentage (add64 s.bytes_completed (current_bytes s.current_file)) s.total_bytes

  -- OverallProgress.GetCompletionPercentage
  unfoldable pub get_completion_percentage : OverallProgress Float → Float
  unfolding percentage
  get_completion_percentage op = percentage op.bytes_sent op.total_bytes

  with_eta : TransferStatus Float → TransferStatus Float
  with_eta ts =
      if is_positive ts.transfer_rate
      then record ts {
        eta =
            mul64 (truncate (div (of_int (get_remaining_bytes ts)) ts.transfer_rate))
              (pos 1_000_000_000);
      }
      else ts

  -- TransferStatus.calculateMetrics
  unfoldable pub calculate_metrics : TransferStatus Float → ℤ → TransferStatus Float
  unfolding with_eta
  calculate_metrics ts now =
      if ts.state == TransferState.active
      then (let elapsed = seconds (sub64 now ts.start_time) in
          if is_positive elapsed
          then with_eta (record ts { transfer_rate = div (of_int ts.bytes_sent) elapsed })
          else ts)
      else ts

  -- TransferStatus.UpdateProgress
  unfoldable pub update_progress : TransferStatus Float → ℤ → ℤ → ℤ → TransferStatus Float
  unfolding calculate_metrics
  update_progress ts sent chunks now =
      calculate_metrics
        (record ts { bytes_sent = sent; chunks_sent = chunks; last_update_time = now }) now
