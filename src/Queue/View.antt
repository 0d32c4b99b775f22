-- ===== src/Queue/View.antt =====
-- The queues as one status for each path, and what the moves do to it.
use lan_file_share.Common.{
  ◌≡◌, refl, Bool, false, ◌&&◌, String, Option, none, some, arith, ◌==◌, string_eq, if◌then◌else◌,
}
use lan_file_share.Common.Sets.{
  has, remove, Distinct, has-add, has-remove, add-Distinct, remove-Distinct,
}
use lan_file_share.Queue.{
  FileQueueState, pending, completed, failed, Queues, no_files, move_file_in_queue,
  mark_completed_in_queue, mark_failed_in_queue, is_file_in_queue,
}

-- The specification: each path is in one queue or in none.
abbrev pub status_of : Queues → String → Option FileQueueState
status_of q path =
    if has q.pending_files path
    then some pending
    else if has q.completed_files path
    then some completed
    else if has q.failed_files path
    then some failed
    else none

abbrev pub AtMostOne : Bool → Bool → Bool → Type 0
AtMostOne p c f = (p && c ≡ false) × (p && f ≡ false) × (c && f ≡ false)

-- The three sets are disjoint, and each holds a path once.
pub record IsPartition (q : Queues) : Type 0 where
  pub pending_distinct : Distinct q.pending_files
  pub completed_distinct : Distinct q.completed_files
  pub failed_distinct : Distinct q.failed_files
  pub apart :
      (path : String)
      → AtMostOne (has q.pending_files path) (has q.completed_files path) (has q.failed_files path)

pub no_files-IsPartition : IsPartition no_files
unfolding has
no_files-IsPartition = record {
  pending_distinct = tt;
  completed_distinct = tt;
  failed_distinct = tt;
  apart = λ path. (refl, refl, refl);
}

module _ (q : Queues) (path : String) (v : IsPartition q) where
  pub mark_completed_in_queue-IsPartition : IsPartition (mark_completed_in_queue q path)
  unfolding mark_completed_in_queue
  mark_completed_in_queue-IsPartition = record {
    pending_distinct = ground (arith, v.pending_distinct, remove-Distinct path q.pending_files);
    completed_distinct = ground (arith, v.completed_distinct, add-Distinct path q.completed_files);
    failed_distinct = ground (arith, v.failed_distinct, remove-Distinct path q.failed_files);
    apart = λ other. ground (
      arith,
      v.apart path,
      v.apart other,
      has-add path other q.completed_files,
      has-remove path other q.pending_files,
      has-remove path other q.failed_files,
      string_eq.beq_iff path other,
    );
  }

  pub mark_failed_in_queue-IsPartition : IsPartition (mark_failed_in_queue q path)
  unfolding mark_failed_in_queue
  mark_failed_in_queue-IsPartition = record {
    pending_distinct = ground (arith, v.pending_distinct, remove-Distinct path q.pending_files);
    completed_distinct =
        ground (arith, v.completed_distinct, remove-Distinct path q.completed_files);
    failed_distinct = ground (arith, v.failed_distinct, add-Distinct path q.failed_files);
    apart = λ other. ground (
      arith,
      v.apart path,
      v.apart other,
      has-add path other q.failed_files,
      has-remove path other q.pending_files,
      has-remove path other q.completed_files,
      string_eq.beq_iff path other,
    );
  }

  -- Marking a file completed, or failed, sets the status of that file, known or not, and changes
  -- the status of no other.
  pub status_of-mark :
      (other : String)
      → (status_of (mark_completed_in_queue q path) other
          ≡ (if path == other then some completed else status_of q other))
        × (status_of (mark_failed_in_queue q path) other
            ≡ (if path == other then some failed else status_of q other))
  unfolding mark_completed_in_queue mark_failed_in_queue
  status_of-mark other = ground (
    arith,
    v.apart path,
    v.apart other,
    has-add path other q.completed_files,
    has-add path other q.failed_files,
    has-remove path other q.pending_files,
    has-remove path other q.completed_files,
    has-remove path other q.failed_files,
    string_eq.beq_iff path other,
  )

  -- A move takes a file from a queue that holds it to the other, and changes the status of no
  -- other file; from a queue that does not hold it nothing is moved.
  pub status_of-move :
      (from to : FileQueueState) (other : String)
      → status_of (move_file_in_queue q path from to).0 other
        ≡ (if is_file_in_queue q path from && path == other then some to else status_of q other)
  unfolding move_file_in_queue is_file_in_queue
  status_of-move pending to other = ground (
    arith,
    v.apart path,
    v.apart other,
    has-add path other q.pending_files,
    has-add path other (remove path q.pending_files),
    has-remove path other q.pending_files,
    has-add path other q.completed_files,
    has-add path other q.failed_files,
    string_eq.beq_iff path other,
  )
  status_of-move completed to other = ground (
    arith,
    v.apart path,
    v.apart other,
    has-add path other q.pending_files,
    has-add path other q.completed_files,
    has-add path other (remove path q.completed_files),
    has-remove path other q.completed_files,
    has-add path other q.failed_files,
    string_eq.beq_iff path other,
  )
  status_of-move failed to other = ground (
    arith,
    v.apart path,
    v.apart other,
    has-add path other q.pending_files,
    has-add path other q.completed_files,
    has-add path other q.failed_files,
    has-add path other (remove path q.failed_files),
    has-remove path other q.failed_files,
    string_eq.beq_iff path other,
  )
