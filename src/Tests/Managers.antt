-- ===== src/Tests/Managers.antt =====
-- The transfer manager at concrete inputs: two files of a folder, one of them in transfer.
use lan_file_share.Common.{◌≢◌, ◌≡◌, refl, ℕ, none, some, String, List, [], ◌∷◌, arith, string_eq}
use lan_file_share.Common.Int.{ℤ, pos}
use lan_file_share.Common.Maps.{lookup, insert}
use lan_file_share.Common.Sets.{has, add}
use lan_file_share.Common.Text.{codes}
use lan_file_share.Errors.{message, error_text, sentinel, transfer_not_found}
use lan_file_share.State.{TransferState}
use lan_file_share.FileNode.{node_count}
use lan_file_share.FileStructure.{get_file, add_file_node}
use lan_file_share.Queue.{pending}
use lan_file_share.Queue.View.{status_of}
use lan_file_share.Retry.History.{should_escalate}
use lan_file_share.Retry.Scheduler.{RetryTask, get_retry_status}
use lan_file_share.Chunker.{new_chunker_from_file_node}
use lan_file_share.Session.{TransferStatus}
use lan_file_share.StatusManager.{new_transfer_status}
use lan_file_share.Manager.{add_single_file, UnifiedTransferManager, new_utm, add_file}
use lan_file_share.Manager.Transfers.{
  start_transfer, complete_transfer, fail_transfer, execute_retry,
}
use lan_file_share.Manager.Control.{get_file_status}
use lan_file_share.Manager.Counters.{
  IsConsistent, start_transfer-IsConsistent, complete_transfer-IsConsistent,
  fail_transfer-IsConsistent,
}
use lan_file_share.Manager.Starting.{IsStarted, IsFinished, complete_transfer-start_transfer}
use lan_file_share.Manager.Adding.{
  IsStuck, add_single_file-IsStuck, new_utm-IsConsistent, add_file-IsConsistent,
}
use lan_file_share.Manager.Retries.{execute_retry-takes_over}
use lan_file_share.Manager.Ends.{get_file_status-Reports, Reports}
use lan_file_share.Tests.Samples.{whole, memory, file_a, file_b, folder, policy, refused}

abbrev Utm : Type 0
Utm = UnifiedTransferManager ℤ (List ℕ)

abbrev fresh : Utm
fresh = new_utm whole memory "sender" (pos 4096) policy (pos 1)

abbrev loaded : Utm
loaded = (add_file whole memory fresh (some folder) (pos 2)).0

abbrev started : Utm
started = (start_transfer whole loaded "a" (pos 3)).0

loaded-IsConsistent : IsConsistent loaded
loaded-IsConsistent =
    add_file-IsConsistent whole memory fresh (some folder) (pos 2)
      (new_utm-IsConsistent whole memory "sender" (pos 4096) policy (pos 1))

add_file-IsConsistent_example : IsConsistent (add_file whole memory fresh (some folder) (pos 2)).0
add_file-IsConsistent_example =
    add_file-IsConsistent whole memory fresh (some folder) (pos 2)
      (new_utm-IsConsistent whole memory "sender" (pos 4096) policy (pos 1))

waits : status_of loaded.queues "a" ≡ some pending
unfolding new_utm add_file has lookup add_file_node node_count new_chunker_from_file_node insert add
waits = refl

started-IsConsistent : IsConsistent started
started-IsConsistent =
    start_transfer-IsConsistent whole loaded "a" (pos 3) loaded-IsConsistent waits

-- While "a" is in transfer.
b_waits : status_of started.queues "b" ≡ some pending
unfolding new_utm add_file has lookup add_file_node node_count new_chunker_from_file_node insert add
    start_transfer
b_waits = refl

b_there : get_file started.structure "b" ≡ some file_b
unfolding new_utm add_file has lookup add_file_node node_count new_chunker_from_file_node insert add
    start_transfer get_file
b_there = refl

complete_transfer-start_transfer_example :
    (u' : Utm) × (start_transfer whole started "b" (pos 4) ≡ (u', none))
    × IsStarted whole started "b" file_b (pos 4) u'
    × ((u'' : Utm) × (complete_transfer whole u' "b" (pos 9) ≡ (u'', none))
        × IsFinished whole started "b" file_b (pos 4) u'')
unfolding new_utm add_file has lookup add_file_node node_count new_chunker_from_file_node insert add
    start_transfer
complete_transfer-start_transfer_example =
    complete_transfer-start_transfer whole started "b" file_b (pos 4) (pos 9)
      (record { partition = started-IsConsistent.partition; known = started-IsConsistent.known })
      b_there b_waits (omega arith)

complete_transfer-IsConsistent_example :
    IsConsistent (complete_transfer whole started "a" (pos 9)).0
unfolding new_utm add_file has lookup add_file_node node_count new_chunker_from_file_node insert add
    start_transfer
complete_transfer-IsConsistent_example =
    complete_transfer-IsConsistent whole started "a" (pos 9) started-IsConsistent (omega arith)

fail_transfer-IsConsistent_example :
    IsConsistent (fail_transfer whole started "a" refused (pos 9)).0
unfolding new_utm add_file has lookup add_file_node node_count new_chunker_from_file_node insert add
    start_transfer
fail_transfer-IsConsistent_example =
    fail_transfer-IsConsistent whole started "a" (pos 9) refused started-IsConsistent (omega arith)

-- A task whose last two errors differ and which has used up its retries.
abbrev worn_task : RetryTask
worn_task = record {
  file_path = "a";
  retry_count = pos 3;
  next_attempt = pos 8;
  last_error = refused;
  error_context = record {
    file_path = "a";
    session_id = "sender";
    retry_count = pos 3;
    max_retries = pos 3;
    last_attempt = pos 5;
    total_bytes = pos 0;
    bytes_sent = pos 0;
    error_history = sentinel transfer_not_found ∷ refused ∷ [];
  };
}

differ : ◌≢◌ {A = String} "a" "b"
differ e = ground (arith, e, string_eq.beq_iff "a" "b")

abbrev young_task : RetryTask
young_task = record worn_task {
  retry_count = pos 1;
  error_context = record worn_task.error_context {
    retry_count = pos 1;
    error_history = refused ∷ [];
  };
}

-- "b" is in transfer and "a" waits for its retry.
abbrev waiting : Utm
waiting = record (start_transfer whole loaded "b" (pos 3)).0 {
  retry_queue = ("a", young_task) ∷ [];
}

execute_retry-takes_over_example :
    let u' = execute_retry whole waiting "a" (pos 8) in
    (u'.queues ≡ waiting.queues)
    × (complete_transfer whole u' "b" (pos 9) ≡ (u', some (sentinel transfer_not_found)))
    × (fail_transfer whole u' "b" refused (pos 9) ≡ (u', some (sentinel transfer_not_found)))
unfolding new_utm add_file has lookup add_file_node node_count new_chunker_from_file_node insert add
    start_transfer get_file get_retry_status should_escalate error_text
execute_retry-takes_over_example =
    execute_retry-takes_over whole waiting "a" "b" young_task file_a refused (pos 8) (pos 9) refl
      refl refl (λ e. absurd (differ e))

abbrev moving : TransferStatus ℤ
moving = new_transfer_status whole "a" "sender" (pos 3) (pos 3) (pos 3)

get_file_status-Reports_example :
    Reports (get_file_status whole started "b") "b" TransferState.pending
unfolding new_utm add_file has lookup add_file_node node_count new_chunker_from_file_node insert add
    start_transfer get_file
get_file_status-Reports_example =
    get_file_status-Reports whole started "b" file_b pending started-IsConsistent.partition refl
      refl refl

-- A manager with a chunk size that no chunker takes.
abbrev tiny : Utm
tiny = record fresh { chunk_size = pos 10 }

add_single_file-IsStuck_example :
    IsStuck whole memory tiny file_a (add_single_file whole memory tiny file_a (pos 2)) (pos 3)
unfolding new_utm get_file lookup new_chunker_from_file_node
add_single_file-IsStuck_example =
    add_single_file-IsStuck whole memory tiny file_a
      (message (codes "chunk size must be between 4096 and 262144")) (pos 2) (pos 3) refl refl refl
