-- ===== src/Session/Progress.antt =====
-- The byte counts that a status reports.
use lan_file_share.Common.{ℕ, ◌+◌, ◌-◌, ◌<◌, ◌^◌, ◌≡◌, arith}
use lan_file_share.Common.Int.{pos, sub64, add64_exact, wrap64, ◌-ℤ◌}
use lan_file_share.Session.{
  SessionTransferStatus, remaining, session_get_remaining_bytes, current_bytes,
}

remaining_exact :
    (total sent : ℕ)
    → total < 2 ^ 63
    → sent < 2 ^ 63
    → remaining (pos total) (pos sent) ≡ pos (total - sent)
unfolding sub64 ◌-ℤ◌ wrap64
remaining_exact total sent h k = ground arith

-- For counts in range the bytes left of a session are the total less what is completed and what
-- is sent of the current file, and never less than nothing.
session_get_remaining_bytes_exact :
    {F : Type 0} (s : SessionTransferStatus F) (total done sent : ℕ)
    → s.total_bytes ≡ pos total
    → s.bytes_completed ≡ pos done
    → current_bytes s.current_file ≡ pos sent
    → total < 2 ^ 63
    → done + sent < 2 ^ 63
    → session_get_remaining_bytes s ≡ pos (total - (done + sent))
unfolding session_get_remaining_bytes
session_get_remaining_bytes_exact s total done sent t d c h k =
    rw (t, d, c, add64_exact done sent k) (remaining_exact total (done + sent) h k)
