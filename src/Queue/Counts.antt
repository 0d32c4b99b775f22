-- ===== src/Queue/Counts.antt =====
-- How the moves change the queue counts.
use lan_file_share.Common.{
  ◌≡◌, ℕ, ◌+◌, Bool, true, false, String, Option, none, some, arith, length, string_eq,
  if◌then◌else◌,
}
use lan_file_share.Common.Sets.{add_present, length-add, length-remove}
use lan_file_share.Queue.{Queues, FileQueueState, mark_completed_in_queue, mark_failed_in_queue}
use lan_file_share.Queue.View.{IsPartition, status_of}

abbrev pub total : Queues → ℕ
total q = length q.pending_files + length q.completed_files + length q.failed_files

abbrev pub is_known : Option FileQueueState → Bool
is_known none = false
is_known (some s) = true

-- Marking loses no file and counts none twice: the number of files in the queues grows by one
-- for a path that no queue holds, and is the same for any other.
total-mark :
    (q : Queues) (path : String)
    → IsPartition q
    → let expected = if is_known (status_of q path) then total q else total q + 1 in
      (total (mark_completed_in_queue q path) ≡ expected)
      × (total (mark_failed_in_queue q path) ≡ expected)
unfolding mark_completed_in_queue mark_failed_in_queue
total-mark q path v = ground (
  arith,
  v.apart path,
  add_present path q.completed_files,
  add_present path q.failed_files,
  length-add path q.completed_files,
  length-add path q.failed_files,
  length-remove path q.pending_files v.pending_distinct,
  length-remove path q.completed_files v.completed_distinct,
  length-remove path q.failed_files v.failed_distinct,
)
