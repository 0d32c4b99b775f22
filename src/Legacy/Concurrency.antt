-- ===== src/Legacy/Concurrency.antt =====
-- The concurrency of FileTransferManager (pkg/transfer/fileTransferManager.go).
use lan_file_share.Common.{lt_or_ge, ℕ, ◌≡◌, ◌≤◌, arith, inl, inr}
use lan_file_share.Common.Int.{ℤ, pos, negsuc, ◌≤ℤ◌}
use lan_file_share.Legacy.{
  clamp, by_cpus, FileTransferManager, calculate_optimal_concurrency,
  calculate_adaptive_concurrency, new_file_transfer_manager, set_max_concurrency,
}

adaptive :
    {C : Type 0} (ftm : FileTransferManager C) (limit children : ℕ)
    → ftm.max_concurrency ≡ pos limit
    → 1 ≤ limit
    → (pos 1 ≤ℤ calculate_adaptive_concurrency ftm children)
      × (calculate_adaptive_concurrency ftm children ≤ℤ pos limit)
unfolding calculate_adaptive_concurrency
adaptive ftm limit children e h = ground (arith, e)

-- A clamped number is a positive one up to the upper end.
clamped :
    (low high : ℕ) (z : ℤ)
    → 1 ≤ low
    → low ≤ high
    → (n : ℕ) × ((clamp (pos low) (pos high) z ≡ pos n) × ((1 ≤ n) × (n ≤ high)))
clamped low high (negsuc k) h g = (low, (ground arith, (h, g)))
clamped low high (pos k) h g = elim (lt_or_ge k low) [
  | inl below ↦ (low, (ground arith, (h, g)))
  | inr from ↦ elim (lt_or_ge high k) [
    | inl above ↦ (high, (ground arith, (omega arith, omega arith)))
    | inr to ↦ (k, (ground arith, (omega arith, to)))
  ]
]

-- Whatever the number of processors and of children, and whatever limit is set, a directory's children run
-- one at least at a time, or it would wait for ever, and at most 64, or 128 after a limit is set.
calculate_adaptive_concurrency_bounds :
    {C : Type 0} (ftm : FileTransferManager C) (cpus n : ℤ) (children : ℕ)
    → let first =
        calculate_adaptive_concurrency (new_file_transfer_manager {C = C} cpus) children in
      let later = calculate_adaptive_concurrency (set_max_concurrency ftm n) children in
      (pos 1 ≤ℤ first) × (first ≤ℤ pos 64) × (pos 1 ≤ℤ later) × (later ≤ℤ pos 128)
unfolding new_file_transfer_manager set_max_concurrency calculate_optimal_concurrency
calculate_adaptive_concurrency_bounds {C = C} ftm cpus n children =
    let (k, (e, (low, high))) = clamped 2 64 (by_cpus cpus) (omega arith) (omega arith) in
    let (m, (e', (low', high'))) = clamped 1 128 n (omega arith) (omega arith) in
    let a = adaptive (new_file_transfer_manager {C = C} cpus) k children e low in
    let b = adaptive (set_max_concurrency ftm n) m children e' low' in
    (a.0, ground (arith, a.1, high), b.0, ground (arith, b.1, high'))
