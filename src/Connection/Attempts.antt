-- ===== src/Connection/Attempts.antt =====
-- What the sender's calls of the manager (pkg/transfer/unified_manager.go) do to a file in transfer.
use lan_file_share.Common.{
  ◌≡◌, ◌≢◌, refl, sym, ap, ◌∙◌, subst, String, Option, none, some, string_eq, arith, inl,
}
use lan_file_share.Common.Int.{ℤ, pos, add64, add64_exact, ◌<ℤ◌}
use lan_file_share.Common.Maps.{Map, lookup, insert, lookup-insert}
use lan_file_share.Errors.{Error}
use lan_file_share.FileNode.{FileNode, info}
use lan_file_share.FileStructure.{get_file}
use lan_file_share.Chunker.{Chunker}
use lan_file_share.Manager.{UnifiedTransferManager}
use lan_file_share.Manager.Counters.{current_at_found, IsConsistent, start_transfer-IsConsistent}
use lan_file_share.Manager.Transfers.{
  current_at, fail_file, release, start_transfer, start_found, update_transfer, complete_transfer,
  fail_transfer,
}
use lan_file_share.Queue.{pending, completed, move_file_in_queue}
use lan_file_share.Queue.View.{status_of}
use lan_file_share.Retry.Handler.{recoverable, categorize_error}
use lan_file_share.Retry.Handler.Decisions.{handle_error-retry_iff}
use lan_file_share.Retry.Scheduler.{schedule_retry}
use lan_file_share.StatusManager.{new_transfer_status}
use lan_file_share.Session.{Float64, TransferStatus, calculate_metrics}

path_of : {F : Type 0} → Option (TransferStatus F) → String
path_of none = ""
path_of (some file) = file.file_path

with_chunkers-IsConsistent :
    {F C : Type 0} (u : UnifiedTransferManager F C) (cs : Map String (Chunker C))
    → IsConsistent u
    → IsConsistent (record u { chunkers = cs })
with_chunkers-IsConsistent u cs v = record {
  partition = v.partition;
  pending_agrees = v.pending_agrees;
  completed_agrees = v.completed_agrees;
  failed_agrees = v.failed_agrees;
  known = v.known;
  current = v.current;
}

module _ {F C : Type 0} where
  -- What a step on the file at a path leaves as it was.
  pub record Keeps (path : String) (u u' : UnifiedTransferManager F C) : Type 0 where
    pub queues : u'.queues ≡ u.queues
    pub structure : u'.structure ≡ u.structure
    pub policy : u'.policy ≡ u.policy
    pub others : (p : String) → p ≢ path → lookup p u'.chunkers ≡ lookup p u.chunkers

  -- Since `u` the file at the path came into transfer.
  pub record InTransfer (path : String) (u u' : UnifiedTransferManager F C) : Type 0 where
    pub keeps : Keeps path u u'
    pub file : TransferStatus F
    pub at_current : current_at u'.session_status.current_file path ≡ some file
    pub unretried : file.retry_count ≡ pos 0
    pub consistent : IsConsistent u → status_of u.queues path ≡ some pending → IsConsistent u'

  pub with_chunker-InTransfer :
      (path : String) (u u' : UnifiedTransferManager F C) (c : Chunker C)
      → InTransfer path u u'
      → InTransfer path u (record u' { chunkers = insert path c u'.chunkers })
  with_chunker-InTransfer path u u' c v = record {
    keeps = record {
      queues = v.keeps.queues;
      structure = v.keeps.structure;
      policy = v.keeps.policy;
      others = λ p differ. ground (
        arith,
        lookup-insert path p c u'.chunkers,
        v.keeps.others p differ,
        string_eq.beq_iff path p,
        differ,
      );
    };
    file = v.file;
    at_current = v.at_current;
    unretried = v.unretried;
    consistent = λ before waits.
        with_chunkers-IsConsistent u' (insert path c u'.chunkers) (v.consistent before waits);
  }

module _ (fl : Float64) {C : Type 0} (path : String) (u : UnifiedTransferManager fl.Float C) where
  pub start-InTransfer :
      (n : FileNode) (now : ℤ)
      → get_file u.structure path ≡ some n
      → let (u', failure) = start_transfer fl u path now in
        (failure ≡ none) × InTransfer path u u' × (u'.chunkers ≡ u.chunkers)
  unfolding start_transfer start_found
  start-InTransfer n now found = rw found (
    refl,
    record {
      keeps = record { queues = refl; structure = refl; policy = refl; others = λ p differ. refl };
      file =
          new_transfer_status fl path u.session_status.session_id (info n).size u.policy.max_retries
            now;
      at_current = ground (arith, string_eq.beq_iff path path);
      unretried = refl;
      consistent =
          subst
            (λ found.
              IsConsistent u
              → status_of u.queues path ≡ some pending
              → IsConsistent (start_found fl u path now found).0)
            found (start_transfer-IsConsistent fl u path now);
    },
    refl,
  )

  calculate_metrics-Same :
      (file : TransferStatus fl.Float) (now : ℤ)
      → let file' = calculate_metrics fl file now in
        (file'.file_path ≡ file.file_path) × (file'.retry_count ≡ file.retry_count)
  unfolding calculate_metrics
  calculate_metrics-Same file now = ground arith

  module _ (u' : UnifiedTransferManager fl.Float C) (v : InTransfer path u u') (now : ℤ) where
    pub update-InTransfer :
        (sent : ℤ)
        → let u'' = (update_transfer fl u' path sent now).0 in
          InTransfer path u u'' × (u''.chunkers ≡ u'.chunkers)
    unfolding update_transfer path_of
    update-InTransfer sent =
        let updated =
          calculate_metrics fl (record v.file { bytes_sent = sent; last_update_time = now }) now in
        let same =
          calculate_metrics-Same (record v.file { bytes_sent = sent; last_update_time = now })
            now in
        let current = current_at_found u'.session_status.current_file path v.file v.at_current in
        rw (v.at_current) (
          record {
            keeps = record {
              queues = v.keeps.queues;
              structure = v.keeps.structure;
              policy = v.keeps.policy;
              others = v.keeps.others;
            };
            file = updated;
            at_current = ground (arith, same.0, current.1, string_eq.beq_iff path path);
            unretried = same.1 ∙ v.unretried;
            consistent = λ before waits.
                let v' = v.consistent before waits in
                record {
                  partition = v'.partition;
                  pending_agrees = v'.pending_agrees;
                  completed_agrees = v'.completed_agrees;
                  failed_agrees = v'.failed_agrees;
                  known = v'.known;
                  current = λ file k.
                      let path_same : v.file.file_path ≡ file.file_path =
                        sym same.0 ∙ ap path_of k in
                      subst (λ p. status_of u'.queues p ≡ some pending) path_same
                        (v'.current v.file current.0);
                };
          },
          refl,
        )

    pub complete-moves :
        let u'' = (complete_transfer fl u' path now).0 in
        (u''.queues ≡ (move_file_in_queue u.queues path pending completed).0)
        × (u''.structure ≡ u.structure)
        × (u''.chunkers ≡ u'.chunkers)
    unfolding complete_transfer
    complete-moves = rw (v.at_current) (
      ap (λ q. (move_file_in_queue q path pending completed).0) v.keeps.queues,
      v.keeps.structure,
      refl,
    )

    pub fail-Keeps :
        (cause : Error)
        → categorize_error (some cause) ≡ recoverable
        → pos 1 <ℤ u.policy.max_retries
        → let u'' = (fail_transfer fl u' path cause now).0 in
          Keeps path u u'' × (u''.chunkers ≡ u'.chunkers)
    unfolding fail_transfer fail_file schedule_retry release
    fail-Keeps cause recovers allowed =
        let allowed' : pos 1 <ℤ u'.policy.max_retries =
          subst (λ p. pos 1 <ℤ p.max_retries) (sym v.keeps.policy) allowed in
        let action =
          (handle_error-retry_iff u'.policy cause (pos 1)).1 (inl (recovers, allowed')) in
        let one : add64 (pos 0) (pos 1) ≡ pos 1 = add64_exact 0 1 (omega arith) in
        rw (v.at_current, v.unretried, one, action)
          (
            record {
              queues = v.keeps.queues;
              structure = v.keeps.structure;
              policy = v.keeps.policy;
              others = v.keeps.others;
            },
            refl,
          )
