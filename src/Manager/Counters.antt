-- ===== src/Manager/Counters.antt =====
-- The session's counters against the queues of UnifiedTransferManager (pkg/transfer/unified_manager.go).
use lan_file_share.Common.{
  ◌≡◌, refl, subst, Bool-cases, inl, inr, ◌+◌, ◌<◌, ◌^◌, true, String, Option, none, some, length,
  arith, string_eq,
}
use lan_file_share.Common.Int.{ℤ, pos, add64, add64_exact, sub64_exact}
use lan_file_share.Common.Maps.{is_some}
use lan_file_share.Errors.{Error}
use lan_file_share.FileNode.{FileNode}
use lan_file_share.FileStructure.{get_file}
use lan_file_share.Queue.{pending, completed, failed}
use lan_file_share.Queue.View.{IsPartition, status_of, status_of-move}
use lan_file_share.Queue.Settling.{
  complete_pending-IsPartition, fail_pending-IsPartition, complete_pending_counts,
  fail_pending_counts,
}
use lan_file_share.Queue.Counts.{is_known}
use lan_file_share.Retry.Scheduler.{RetryQueue, schedule_retry}
use lan_file_share.Session.{Float64, TransferStatus}
use lan_file_share.Manager.{UnifiedTransferManager}
use lan_file_share.Manager.Transfers.{
  current_at, Body, release, start_found, on_file, complete_file, give_up, fail_file,
  start_transfer, complete_transfer, fail_transfer,
}

-- The queues are a partition, the session counts what they hold, and every queued file is in the
-- structure; the current file is a pending one.
pub record IsConsistent {F C : Type 0} (u : UnifiedTransferManager F C) : Type 0 where
  pub partition : IsPartition u.queues
  pub pending_agrees : u.session_status.pending_files ≡ pos (length u.queues.pending_files)
  pub completed_agrees : u.session_status.completed_files ≡ pos (length u.queues.completed_files)
  pub failed_agrees : u.session_status.failed_files ≡ pos (length u.queues.failed_files)
  pub known :
      (path : String)
      → is_known (status_of u.queues path) ≡ true
      → is_some (get_file u.structure path) ≡ true
  pub current :
      (file : TransferStatus F)
      → u.session_status.current_file ≡ some file
      → status_of u.queues file.file_path ≡ some pending

pub current_at_found :
    {F : Type 0} (current : Option (TransferStatus F)) (path : String) (file : TransferStatus F)
    → current_at current path ≡ some file
    → (current ≡ some file) × (file.file_path ≡ path)
current_at_found none path file h = ground arith
current_at_found (some f) path file h = ground (arith, string_eq.beq_iff f.file_path path)

module _ (fl : Float64) {C : Type 0} (u : UnifiedTransferManager fl.Float C) (path : String)
    (now : ℤ) where
  start_found-IsConsistent :
      (found : Option FileNode)
      → IsConsistent u
      → status_of u.queues path ≡ some pending
      → IsConsistent (start_found fl u path now found).0
  unfolding start_found
  start_found-IsConsistent none v h = v
  start_found-IsConsistent (some n) v h = record {
    partition = v.partition;
    pending_agrees = refl;
    completed_agrees = refl;
    failed_agrees = refl;
    known = v.known;
    current = λ file k. ground arith;
  }

  -- Starting a pending file keeps the manager consistent.
  pub start_transfer-IsConsistent :
      IsConsistent u
      → status_of u.queues path ≡ some pending
      → IsConsistent (start_transfer fl u path now).0
  unfolding start_transfer
  start_transfer-IsConsistent = start_found-IsConsistent (get_file u.structure path)

  current_waits :
      IsConsistent u
      → (file : TransferStatus fl.Float) → current_at u.session_status.current_file path ≡ some file
      → status_of u.queues path ≡ some pending
  current_waits v file h =
      let (is_current, same) = current_at_found u.session_status.current_file path file h in
      subst (λ p. status_of u.queues p ≡ some pending) same (v.current file is_current)

  completed-IsConsistent :
      (file : TransferStatus fl.Float)
      → IsConsistent u
      → status_of u.queues path ≡ some pending
      → length u.queues.pending_files + length u.queues.completed_files < 2 ^ 63
      → IsConsistent (complete_file fl u path now file).0
  unfolding complete_file
  completed-IsConsistent file v waits fits =
      let counts = complete_pending_counts u.queues path v.partition waits in
      record {
        partition = complete_pending-IsPartition u.queues path v.partition waits;
        pending_agrees =
            ground (arith, counts, v.pending_agrees, sub64_exact (length u.queues.pending_files) 1);
        completed_agrees =
            ground
              (arith, counts, v.completed_agrees, add64_exact (length u.queues.completed_files) 1);
        failed_agrees = ground (arith, counts, v.failed_agrees);
        known = λ other k. ground (
          arith,
          v.known other,
          v.known path,
          status_of-move u.queues path v.partition pending completed other,
          string_eq.beq_iff path other,
        );
        current = λ other k. ground arith;
      }

  given_up-IsConsistent :
      IsConsistent u
      → status_of u.queues path ≡ some pending
      → length u.queues.pending_files + length u.queues.failed_files < 2 ^ 63
      → IsConsistent (give_up fl u path now).0
  unfolding give_up
  given_up-IsConsistent v waits fits =
      let counts = fail_pending_counts u.queues path v.partition waits in
      record {
        partition = fail_pending-IsPartition u.queues path v.partition waits;
        pending_agrees =
            ground (arith, counts, v.pending_agrees, sub64_exact (length u.queues.pending_files) 1);
        completed_agrees = ground (arith, counts, v.completed_agrees);
        failed_agrees =
            ground (arith, counts, v.failed_agrees, add64_exact (length u.queues.failed_files) 1);
        known = λ other k. ground (
          arith,
          v.known other,
          v.known path,
          status_of-move u.queues path v.partition pending failed other,
          string_eq.beq_iff path other,
        );
        current = λ other k. ground arith;
      }

  on_file-IsConsistent :
      (body : Body fl C) (found : Option (TransferStatus fl.Float))
      → IsConsistent u
      → ((file : TransferStatus fl.Float) → found ≡ some file → IsConsistent (body file).0)
      → IsConsistent (on_file fl u body found).0
  unfolding on_file
  on_file-IsConsistent body none v h = v
  on_file-IsConsistent body (some file) v h = h file refl

  -- In a consistent manager, with fewer than 2^63 pending and completed files, CompleteTransfer, whether
  -- it succeeds or not, leaves a consistent one: the counters it counts up and down stay the sizes of the
  -- queues.
  pub complete_transfer-IsConsistent :
      IsConsistent u
      → length u.queues.pending_files + length u.queues.completed_files < 2 ^ 63
      → IsConsistent (complete_transfer fl u path now).0
  unfolding complete_transfer
  complete_transfer-IsConsistent v fits =
      on_file-IsConsistent (complete_file fl u path now)
        (current_at u.session_status.current_file path) v
        (λ file h. completed-IsConsistent file v (current_waits v file h) fits)

with_retries-IsConsistent :
    {F C : Type 0} (u : UnifiedTransferManager F C) (r : RetryQueue)
    → IsConsistent u
    → IsConsistent (record u { retry_queue = r })
with_retries-IsConsistent u r v = record {
  partition = v.partition;
  pending_agrees = v.pending_agrees;
  completed_agrees = v.completed_agrees;
  failed_agrees = v.failed_agrees;
  known = v.known;
  current = v.current;
}

module _ (fl : Float64) {C : Type 0} (u : UnifiedTransferManager fl.Float C) (now : ℤ) where
  release-IsConsistent : IsConsistent u → IsConsistent (release fl u now)
  unfolding release
  release-IsConsistent v = record {
    partition = v.partition;
    pending_agrees = v.pending_agrees;
    completed_agrees = v.completed_agrees;
    failed_agrees = v.failed_agrees;
    known = v.known;
    current = λ file h. ground arith;
  }

module _ (fl : Float64) {C : Type 0} (u : UnifiedTransferManager fl.Float C) (path : String)
    (now : ℤ) where
  failed-IsConsistent :
      (cause : Error) (file : TransferStatus fl.Float)
      → IsConsistent u
      → status_of u.queues path ≡ some pending
      → length u.queues.pending_files + length u.queues.failed_files < 2 ^ 63
      → IsConsistent (fail_file fl u path cause now file).0
  unfolding fail_file
  failed-IsConsistent cause file v waits fits =
      let count = add64 file.retry_count (pos 1) in
      let answer =
        schedule_retry u.policy u.session_status.session_id u.retry_queue path cause count now in
      let v' = with_retries-IsConsistent u answer.0 v in
      let u' = record u { retry_queue = answer.0 } in
      elim (Bool-cases answer.1) [
        | inl scheduled ↦ rw scheduled (release-IsConsistent fl u' now v')
        | inr refused ↦ rw refused (given_up-IsConsistent fl u' path now v' waits fits)
      ]

  -- A consistent manager, with fewer than 2^63 pending and failed files, stays consistent under
  -- FailTransfer, whether it schedules a retry, gives the file up or fails itself.
  pub fail_transfer-IsConsistent :
      (cause : Error)
      → IsConsistent u
      → length u.queues.pending_files + length u.queues.failed_files < 2 ^ 63
      → IsConsistent (fail_transfer fl u path cause now).0
  unfolding fail_transfer
  fail_transfer-IsConsistent cause v fits =
      on_file-IsConsistent fl u path now (fail_file fl u path cause now)
        (current_at u.session_status.current_file path) v
        (λ file h. failed-IsConsistent cause file v (current_waits fl u path now v file h) fits)
