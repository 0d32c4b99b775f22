-- ===== src/Queue/Settling.antt =====
-- A pending file that is settled: moved to the completed or to the failed files.
use lan_file_share.Common.{◌≡◌, ◌+◌, String, some, arith, length, string_eq}
use lan_file_share.Common.Sets.{
  has-add, has-remove, add-Distinct, remove-Distinct, length-add, length-remove,
}
use lan_file_share.Queue.{Queues, pending, completed, failed, move_file_in_queue}
use lan_file_share.Queue.View.{IsPartition, status_of}

module _ (q : Queues) (path : String) (v : IsPartition q)
    (waits : status_of q path ≡ some pending) where
  pub complete_pending-IsPartition : IsPartition (move_file_in_queue q path pending completed).0
  unfolding move_file_in_queue
  complete_pending-IsPartition = record {
    pending_distinct = ground (arith, v.pending_distinct, remove-Distinct path q.pending_files);
    completed_distinct = ground (arith, v.completed_distinct, add-Distinct path q.completed_files);
    failed_distinct = ground (arith, v.failed_distinct);
    apart = λ other. ground (
      arith,
      v.apart path,
      v.apart other,
      has-add path other q.completed_files,
      has-remove path other q.pending_files,
      string_eq.beq_iff path other,
    );
  }

  pub fail_pending-IsPartition : IsPartition (move_file_in_queue q path pending failed).0
  unfolding move_file_in_queue
  fail_pending-IsPartition = record {
    pending_distinct = ground (arith, v.pending_distinct, remove-Distinct path q.pending_files);
    completed_distinct = ground (arith, v.completed_distinct);
    failed_distinct = ground (arith, v.failed_distinct, add-Distinct path q.failed_files);
    apart = λ other. ground (
      arith,
      v.apart path,
      v.apart other,
      has-add path other q.failed_files,
      has-remove path other q.pending_files,
      string_eq.beq_iff path other,
    );
  }

  pub complete_pending_counts :
      let q' = (move_file_in_queue q path pending completed).0 in
      (length q'.pending_files + 1 ≡ length q.pending_files)
      × (length q'.completed_files ≡ length q.completed_files + 1)
      × (length q'.failed_files ≡ length q.failed_files)
  unfolding move_file_in_queue
  complete_pending_counts = ground (
    arith,
    v.apart path,
    length-add path q.completed_files,
    length-remove path q.pending_files v.pending_distinct,
  )

  pub fail_pending_counts :
      let q' = (move_file_in_queue q path pending failed).0 in
      (length q'.pending_files + 1 ≡ length q.pending_files)
      × (length q'.completed_files ≡ length q.completed_files)
      × (length q'.failed_files ≡ length q.failed_files + 1)
  unfolding move_file_in_queue
  fail_pending_counts = ground (
    arith,
    v.apart path,
    length-add path q.failed_files,
    length-remove path q.pending_files v.pending_distinct,
  )
