-- ===== src/Config/Validation.antt =====
-- What Validate accepts.
use lan_file_share.Common.{◌≡◌, ◌↔◌, none, arith, ◌≢◌}
use lan_file_share.Common.Int.{ℤ, pos, ◌≤ℤ◌, ◌<ℤ◌}
use lan_file_share.Config.{TransferConfig, validate}

abbrev pub IsPositive : ℤ → Type 0
IsPositive z = pos 0 <ℤ z

-- What the checks of Validate come to: signs and the order of the three chunk sizes. It does not exclude a
-- chunk size whose double overflows.
pub record IsSound (tc : TransferConfig) : Type 0 where
  pub min_positive : IsPositive tc.min_chunk_size
  pub min-le-chunk : tc.min_chunk_size ≤ℤ tc.chunk_size
  pub chunk-le-max : tc.chunk_size ≤ℤ tc.max_chunk_size
  pub transfers_positive : IsPositive tc.max_concurrent_transfers
  pub chunks_positive : IsPositive tc.max_concurrent_chunks
  pub buffer_positive : IsPositive tc.buffer_size
  pub has_policy : tc.default_retry_policy ≢ none
  pub days_nonneg : pos 0 ≤ℤ tc.history_retention_days
  pub records_nonneg : pos 0 ≤ℤ tc.max_history_records
  pub events_positive : IsPositive tc.event_buffer_size

-- Validate accepts exactly these configurations.
pub validate-IsSound : (tc : TransferConfig) → (validate tc ≡ none) ↔ IsSound tc
unfolding validate
validate-IsSound tc = ground arith
