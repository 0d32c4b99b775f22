-- ===== src/Queue.antt =====
-- The file queues of UnifiedTransferManager (pkg/transfer/unified_manager.go): three sets of paths
-- and the helpers that move a path between them.
pub mod View
pub mod Moves
pub mod Counts
pub mod Settling
use lan_file_share.Common.{
  ◌≡◌, Bool, true, false, ◌||◌, String, Option, none, some, List, [], ◌∷◌, length, string_eq,
  if◌then◌else◌,
}
use lan_file_share.Common.Int.{ℤ, pos}
use lan_file_share.Common.Sets.{has, add, remove}

pub data FileQueueState : Type 0 where
  pending completed failed : FileQueueState

pub record Queues : Type 0 where
  pub pending_files : List String
  pub completed_files : List String
  pub failed_files : List String

abbrev pub no_files : Queues
no_files = record { pending_files = []; completed_files = []; failed_files = [] }

-- The set that a `switch` on the state selects, and the write to it.
abbrev pub members : Queues → FileQueueState → List String
members q pending = q.pending_files
members q completed = q.completed_files
members q failed = q.failed_files

abbrev with_members : Queues → FileQueueState → List String → Queues
with_members q pending s = record q { pending_files = s }
with_members q completed s = record q { completed_files = s }
with_members q failed s = record q { failed_files = s }

-- isFileInQueue
unfoldable pub is_file_in_queue : Queues → String → FileQueueState → Bool
is_file_in_queue q path state = has (members q state) path

-- addFileToQueue
unfoldable pub add_file_to_queue : Queues → String → FileQueueState → Queues
add_file_to_queue q path state = with_members q state (add path (members q state))

-- removeFileFromQueue
unfoldable pub remove_file_from_queue : Queues → String → FileQueueState → Queues × Bool
remove_file_from_queue q path state =
    if has (members q state) path
    then (with_members q state (remove path (members q state)), true)
    else (q, false)

-- moveFileInQueue
unfoldable pub move_file_in_queue :
    Queues → String → FileQueueState → FileQueueState → Queues × Bool
unfolding add_file_to_queue remove_file_from_queue
move_file_in_queue q path from to =
    let (q', removed) = remove_file_from_queue q path from in
    if removed then (add_file_to_queue q' path to, true) else (q, false)

-- getQueueCounts: pending, completed, failed.
unfoldable pub get_queue_counts : Queues → ℤ × ℤ × ℤ
get_queue_counts q =
    (pos (length q.pending_files), pos (length q.completed_files), pos (length q.failed_files))

-- The queue part of MarkFileCompleted and MarkFileFailed: to `to` from `first` or else from
-- `second`, and if the file is in neither, it is added.
unfoldable pub mark_in_queue :
    Queues → String → FileQueueState → FileQueueState → FileQueueState → Queues
unfolding move_file_in_queue
mark_in_queue q path first second to =
    let (q₁, moved) = move_file_in_queue q path first to in
    if moved
    then q₁
    else (let (q₂, moved_too) = move_file_in_queue q path second to in
        if moved_too then q₂ else add_file_to_queue q path to)

unfoldable pub mark_completed_in_queue : Queues → String → Queues
unfolding mark_in_queue
mark_completed_in_queue q path = mark_in_queue q path pending failed completed

unfoldable pub mark_failed_in_queue : Queues → String → Queues
unfolding mark_in_queue
mark_failed_in_queue q path = mark_in_queue q path pending completed failed

-- The order in which Go ranges over a map is not specified. What getFirstPendingFile relies on:
-- the range of a set that is not empty begins with one of its keys.
pub record MapRange : Type 0 where
  pub first_key : List String → Option String
  pub first_key-has : (s : List String) (k : String) → first_key s ≡ some k → has s k ≡ true
  pub first_key-none : (s : List String) → first_key s ≡ none → s ≡ []

-- getFirstPendingFile
unfoldable pub get_first_pending_file : MapRange → Queues → Option String
get_first_pending_file range q = range.first_key q.pending_files
