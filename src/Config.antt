-- ===== src/Config.antt =====
-- TransferConfig of pkg/transfer/config.go.
pub mod Validation
pub mod ChunkSize
use lan_file_share.Common.{
  Bool, false, true, ◌&&◌, ◌||◌, Option, none, some, List, ℕ, ◌*◌, ◌+◌, if◌then◌else◌, ltb, leb,
}
use lan_file_share.Common.Int.{ℤ, pos, pos_part, neg_part, ltb_ℤ, leb_ℤ, wrap32, ◌*ℤ◌}
use lan_file_share.Common.Text.{codes}
use lan_file_share.Errors.{Error, message}
use lan_file_share.Retry.Policy.{RetryPolicy, default_retry_policy, second}

-- The chunk sizes are int32; a nil retry policy is `none`.
pub record TransferConfig : Type 0 where
  pub chunk_size : ℤ
  pub max_chunk_size : ℤ
  pub min_chunk_size : ℤ
  pub max_concurrent_transfers : ℤ
  pub max_concurrent_chunks : ℤ
  pub buffer_size : ℤ
  pub rate_calculation_window : ℤ
  pub default_retry_policy : Option RetryPolicy
  pub history_retention_days : ℤ
  pub max_history_records : ℤ
  pub event_buffer_size : ℤ
  pub event_delivery_timeout : ℤ

abbrev pub default_chunk_size : ℕ
default_chunk_size = 64 * 1024

abbrev pub max_chunk_bytes : ℕ
max_chunk_bytes = 256 * 1024

abbrev pub min_chunk_bytes : ℕ
min_chunk_bytes = 4 * 1024

-- DefaultTransferConfig
abbrev pub default_transfer_config : (ℤ → ℤ) → TransferConfig
default_transfer_config doubled = record {
  chunk_size = pos default_chunk_size;
  max_chunk_size = pos max_chunk_bytes;
  min_chunk_size = pos min_chunk_bytes;
  max_concurrent_transfers = pos 10;
  max_concurrent_chunks = pos 50;
  buffer_size = pos 8192;
  rate_calculation_window = pos (30 * second);
  default_retry_policy = some (default_retry_policy doubled);
  history_retention_days = pos 30;
  max_history_records = pos 1000;
  event_buffer_size = pos 100;
  event_delivery_timeout = pos (5 * second);
}

abbrev is_none {ℓ} : {A : Type ℓ} → Option A → Bool
is_none none = true
is_none (some a) = false

-- The checks of Validate after those of the chunk sizes.
validate_rest : TransferConfig → Option Error
validate_rest tc =
    if leb_ℤ tc.max_concurrent_transfers (pos 0)
    then some (message (codes "max_concurrent_transfers must be positive"))
    else if leb_ℤ tc.max_concurrent_chunks (pos 0)
    then some (message (codes "max_concurrent_chunks must be positive"))
    else if leb_ℤ tc.buffer_size (pos 0)
    then some (message (codes "buffer_size must be positive"))
    else if is_none tc.default_retry_policy
    then some (message (codes "default_retry_policy cannot be nil"))
    else if ltb_ℤ tc.history_retention_days (pos 0)
    then some (message (codes "history_retention_days cannot be negative"))
    else if ltb_ℤ tc.max_history_records (pos 0)
    then some (message (codes "max_history_records cannot be negative"))
    else if leb_ℤ tc.event_buffer_size (pos 0)
    then some (message (codes "event_buffer_size must be positive"))
    else none

-- Validate; `none` is nil.
unfoldable pub validate : TransferConfig → Option Error
unfolding validate_rest
validate tc =
    if leb_ℤ chunk_size (pos 0)
    then some (message (codes "chunk_size must be positive"))
    else if leb_ℤ min_chunk_size (pos 0)
    then some (message (codes "min_chunk_size must be positive"))
    else if leb_ℤ max_chunk_size (pos 0)
    then some (message (codes "max_chunk_size must be positive"))
    else if ltb_ℤ chunk_size min_chunk_size
    then some (message (codes "chunk_size cannot be less than min_chunk_size"))
    else if ltb_ℤ max_chunk_size chunk_size
    then some (message (codes "chunk_size cannot be greater than max_chunk_size"))
    else if ltb_ℤ max_chunk_size min_chunk_size
    then some (message (codes "min_chunk_size cannot be greater than max_chunk_size"))
    else validate_rest tc
  where
    open tc use {chunk_size, min_chunk_size, max_chunk_size}

-- IsValidChunkSize
unfoldable pub is_valid_chunk_size : TransferConfig → ℤ → Bool
is_valid_chunk_size tc size = leb_ℤ tc.min_chunk_size size && leb_ℤ size tc.max_chunk_size

-- GetChunkSizeForFile, with int32 arithmetic.
unfoldable pub get_chunk_size_for_file : TransferConfig → ℤ → ℤ
get_chunk_size_for_file tc file_size =
    if ltb_ℤ file_size tc.chunk_size
    then (if ltb_ℤ file_size tc.min_chunk_size then wrap32 file_size else tc.min_chunk_size)
    else if ltb_ℤ (pos (100 * 1024 * 1024)) file_size
    then (let larger_chunk = wrap32 (tc.chunk_size *ℤ pos 2) in
        if leb_ℤ larger_chunk tc.max_chunk_size then larger_chunk else tc.max_chunk_size)
    else tc.chunk_size
