-- ===== src/Config/ChunkSize.antt =====
-- The chunk sizes that GetChunkSizeForFile chooses.
use lan_file_share.Common.{◌≡◌, ◌↔◌, ◌^◌, none, true, arith}
use lan_file_share.Common.Int.{ℤ, pos, ◌≤ℤ◌, ◌<ℤ◌, wrap32, ◌*ℤ◌, Fits32}
use lan_file_share.Config.{TransferConfig, validate, is_valid_chunk_size, get_chunk_size_for_file}
use lan_file_share.Config.Validation.{validate-IsSound}

-- For a valid configuration whose chunk size is below 2^30 and a file that is not negative, the
-- chosen size lies between 0 and the maximum, and it is a valid chunk size exactly if the file
-- is not smaller than the minimum.
pub get_chunk_size_for_file_bounds :
    (tc : TransferConfig) (file_size : ℤ)
    → validate tc ≡ none
    → tc.chunk_size <ℤ pos (2 ^ 30)
    → pos 0 ≤ℤ file_size
    → let size = get_chunk_size_for_file tc file_size in
      (pos 0 ≤ℤ size)
      × (size ≤ℤ tc.max_chunk_size)
      × ((is_valid_chunk_size tc size ≡ true) ↔ (tc.min_chunk_size ≤ℤ file_size))
unfolding get_chunk_size_for_file is_valid_chunk_size wrap32 ◌*ℤ◌
get_chunk_size_for_file_bounds tc file_size v small h = ground (arith, (validate-IsSound tc).0 v)

-- For a valid configuration whose chunk size is at least 2^30 and fits an int32, and every file of at
-- least that size, the chosen chunk size is negative, since the doubled one overflows.
pub get_chunk_size_for_file_overflow :
    (tc : TransferConfig) (file_size : ℤ)
    → validate tc ≡ none
    → pos (2 ^ 30) ≤ℤ tc.chunk_size
    → Fits32 tc.chunk_size
    → tc.chunk_size ≤ℤ file_size
    → get_chunk_size_for_file tc file_size <ℤ pos 0
unfolding get_chunk_size_for_file wrap32 ◌*ℤ◌
get_chunk_size_for_file_overflow tc file_size v big fits h =
    ground (arith, (validate-IsSound tc).0 v)
