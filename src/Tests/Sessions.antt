-- ===== src/Tests/Sessions.antt =====
-- Sessions, the status manager, the queues and the file structure at concrete inputs.
use lan_file_share.Common.{
  Bool-cases, subst, ◌≡◌, refl, true, some, none, String, [], ◌∷◌, inl, inr, arith, string_eq, ◌==◌,
}
use lan_file_share.Common.Int.{ℤ, pos}
use lan_file_share.Common.Sets.{has}
use lan_file_share.Errors.{ok}
use lan_file_share.State.{StatusSessionState}
use lan_file_share.FileNode.{FileNode}
use lan_file_share.FileStructure.{
  FileStructureManager, new_structure, is_registered, add_file_node, get_file,
}
use lan_file_share.FileStructure.Registered.Complete.{
  IsComplete, new_structure-IsComplete, add_file_node-IsComplete,
}
use lan_file_share.Queue.{
  Queues, pending, completed, mark_completed_in_queue, mark_failed_in_queue, move_file_in_queue,
  is_file_in_queue,
}
use lan_file_share.Queue.View.{IsPartition, AtMostOne, status_of, status_of-mark, status_of-move}
use lan_file_share.Session.{TransferStatus, SessionTransferStatus, is_session_complete}
use lan_file_share.StatusManager.{
  TransferStatusManager, new_transfer_status, new_manager, complete_current_file, fail_current_file,
}
use lan_file_share.StatusManager.Counters.{
  initialize, start, progress, complete, pause, fail, run, Inv, run-new_manager-Inv,
}
use lan_file_share.StatusManager.Outcomes.{SessionAfter, last_file_order}
use lan_file_share.Tests.Samples.{whole, folder, refused}

abbrev moving : TransferStatus ℤ
moving = new_transfer_status whole "a" "s" (pos 3) (pos 3) (pos 10)

-- Three files: one done, one lost, the last one in transfer.
abbrev last_open : SessionTransferStatus ℤ
last_open = record {
  session_id = "s";
  total_files = pos 3;
  completed_files = pos 1;
  failed_files = pos 1;
  pending_files = pos 1;
  total_bytes = pos 9;
  bytes_completed = pos 3;
  overall_progress = pos 33;
  current_file = some moving;
  start_time = pos 1;
  last_update_time = pos 10;
  completion_time = none;
  state = StatusSessionState.active;
}

abbrev manager : TransferStatusManager ℤ
manager = record { session_status = some last_open; config_max_retries = pos 3; listeners = [] }

run-new_manager-Inv_example : Inv (
    run whole (new_manager whole (pos 3)) (
      (pos 1, initialize "s" (pos 2) (pos 6))
      ∷ (pos 2, start "a" (pos 3))
      ∷ (pos 3, progress (pos 2))
      ∷ (pos 4, pause)
      ∷ (pos 5, fail refused)
      ∷ (pos 6, start "b" (pos 3))
      ∷ (pos 7, complete)
      ∷ []))
run-new_manager-Inv_example = run-new_manager-Inv whole (pos 3) _

last_file_order_example :
    SessionAfter
      (complete_current_file whole manager (pos 20))
      (λ s'. (is_session_complete s' ≡ true) × (s'.state ≡ StatusSessionState.completed))
    × SessionAfter
        (fail_current_file whole manager refused (pos 20))
        (λ s'. (is_session_complete s' ≡ true) × (s'.state ≡ StatusSessionState.active))
last_file_order_example =
    last_file_order whole manager last_open moving 3 1 1 refused (pos 20) refl refl refl refl refl
      (omega arith) refl (omega arith)

-- "a" is pending and "b" failed.
abbrev two_files : Queues
two_files = record { pending_files = "a" ∷ []; completed_files = []; failed_files = "b" ∷ [] }

two_files-IsPartition : IsPartition two_files
unfolding has
two_files-IsPartition = record {
  pending_distinct = (refl, tt);
  completed_distinct = tt;
  failed_distinct = (refl, tt);
  apart = λ path. elim (Bool-cases ("a" == path)) [
    | inl same ↦
        subst
          (λ p.
            AtMostOne (has two_files.pending_files p) (has two_files.completed_files p)
              (has two_files.failed_files p))
          ((string_eq.beq_iff "a" path).0 same) (refl, refl, refl)
    | inr other ↦ ground (arith, other)
  ];
}

status_of-mark_example :
    (status_of (mark_completed_in_queue two_files "b") "a" ≡ some pending)
    × (status_of (mark_failed_in_queue two_files "b") "a" ≡ some pending)
unfolding has
status_of-mark_example = status_of-mark two_files "b" two_files-IsPartition "a"

status_of-move_example :
    status_of (move_file_in_queue two_files "a" pending completed).0 "a" ≡ some completed
unfolding has is_file_in_queue
status_of-move_example = status_of-move two_files "a" two_files-IsPartition pending completed "a"

add_file_node-IsComplete_example :
    (fsm' : FileStructureManager) × (add_file_node new_structure (some folder) ≡ ok fsm')
    × IsComplete fsm'
    × (is_registered fsm' folder ≡ true)
    × ((path : String) (f : FileNode)
        → get_file new_structure path ≡ some f
        → get_file fsm' path ≡ some f)
add_file_node-IsComplete_example =
    add_file_node-IsComplete new_structure folder new_structure-IsComplete
