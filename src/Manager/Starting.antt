-- ===== src/Manager/Starting.antt =====
-- StartTransfer (pkg/transfer/unified_manager.go), and CompleteTransfer of the file that it started.
use lan_file_share.Common.{
  ◌≡◌, refl, ap, ◌∙◌, subst, ◌+◌, ◌<◌, ◌^◌, true, String, none, some, length, suc, arith, string_eq,
  if◌then◌else◌, ◌==◌,
}
use lan_file_share.Common.Int.{ℤ, pos, add64}
use lan_file_share.Common.Maps.{is_some}
use lan_file_share.FileNode.{FileNode, info}
use lan_file_share.FileStructure.{get_file, get_file_count, get_total_size}
use lan_file_share.Queue.{pending, completed, move_file_in_queue, is_file_in_queue}
use lan_file_share.Queue.View.{IsPartition, status_of, status_of-move}
use lan_file_share.Queue.Counts.{is_known}
use lan_file_share.Queue.Settling.{complete_pending_counts}
use lan_file_share.Session.{Float64, TransferStatus}
use lan_file_share.StatusManager.{new_transfer_status}
use lan_file_share.Manager.{UnifiedTransferManager}
use lan_file_share.Manager.Counters.{IsConsistent, complete_transfer-IsConsistent}
use lan_file_share.Manager.Transfers.{
  Answer, start_found, start_transfer, complete_file, complete_transfer,
}

-- The queues are a partition of files of the structure; the counters of the session and its current file
-- may be anything.
pub record IsQueued {F C : Type 0} (u : UnifiedTransferManager F C) : Type 0 where
  pub partition : IsPartition u.queues
  pub known :
      (path : String)
      → is_known (status_of u.queues path) ≡ true
      → is_some (get_file u.structure path) ≡ true

module _ (fl : Float64) {C : Type 0} (u : UnifiedTransferManager fl.Float C) (path : String)
    (n : FileNode) (now : ℤ) where
  abbrev pub started_file : TransferStatus fl.Float
  started_file =
      new_transfer_status fl path u.session_status.session_id (info n).size u.policy.max_retries now

  -- The file is the one in transfer, and the session's totals and counters are those of the structure and
  -- the queues.
  pub record IsStarted (u' : UnifiedTransferManager fl.Float C) : Type 0 where
    pub consistent : IsConsistent u'
    pub in_transfer : u'.session_status.current_file ≡ some started_file
    pub total_files : u'.session_status.total_files ≡ get_file_count u.structure
    pub total_bytes : u'.session_status.total_bytes ≡ get_total_size u.structure
    pub queues : u'.queues ≡ u.queues

  -- The file is completed and counted with its bytes, the others are where they were, and none is in transfer.
  pub record IsFinished (u' : UnifiedTransferManager fl.Float C) : Type 0 where
    pub consistent : IsConsistent u'
    pub idle : u'.session_status.current_file ≡ none
    pub placed :
        (other : String)
        → status_of u'.queues other
          ≡ (if path == other then some completed else status_of u.queues other)
    pub counted : u'.session_status.completed_files ≡ pos (suc (length u.queues.completed_files))
    pub bytes :
        u'.session_status.bytes_completed ≡ add64 u.session_status.bytes_completed (info n).size

  module _ (v : IsQueued u) (waits : status_of u.queues path ≡ some pending) where
    abbrev started : UnifiedTransferManager fl.Float C
    unfolding start_found
    started = (start_found fl u path now (some n)).0

    placing :
        (other : String)
        → status_of (move_file_in_queue u.queues path pending completed).0 other
          ≡ (if path == other then some completed else status_of u.queues other)
    unfolding is_file_in_queue
    placing other = ground (
      arith,
      waits,
      status_of-move u.queues path v.partition pending completed other,
      string_eq.beq_iff path other,
    )

    started-IsStarted : IsStarted started
    unfolding start_found get_file_count get_total_size
    started-IsStarted = record {
      consistent = record {
        partition = v.partition;
        pending_agrees = refl;
        completed_agrees = refl;
        failed_agrees = refl;
        known = v.known;
        current = λ file k. ground (arith, waits);
      };
      in_transfer = refl;
      total_files = refl;
      total_bytes = refl;
      queues = refl;
    }

    module _ (later : ℤ)
        (fits : length u.queues.pending_files + length u.queues.completed_files < 2 ^ 63) where
      abbrev finished : UnifiedTransferManager fl.Float C
      unfolding start_found complete_file
      finished = (complete_file fl started path later started_file).0

      completes : complete_transfer fl started path later ≡ (finished, none)
      unfolding complete_transfer start_found complete_file
      completes = ground (arith, string_eq.beq_iff path path)

      settles :
          (finished.session_status.current_file ≡ none)
          × (finished.session_status.bytes_completed
              ≡ add64 u.session_status.bytes_completed (info n).size)
      unfolding complete_file start_found
      settles = ground arith

      finished-IsFinished : IsFinished finished
      unfolding started finished move_file_in_queue
      finished-IsFinished =
          let consistent : IsConsistent finished =
            subst (λ (o : Answer fl C). IsConsistent o.0) completes
              (complete_transfer-IsConsistent fl started path later started-IsStarted.consistent
                fits) in
          record {
            consistent = consistent;
            idle = settles.0;
            placed = λ other. placing other;
            counted =
                consistent.completed_agrees
                ∙ ap pos (omega (arith, complete_pending_counts u.queues path v.partition waits));
            bytes = settles.1;
          }

  -- StartTransfer of a pending file of the structure succeeds, whatever file was in transfer and whatever
  -- the counters were: the file is in transfer, the totals and counters are those of the structure and the
  -- queues, and the manager is consistent. CompleteTransfer of the file, as the next call, then succeeds
  -- too: the file is completed, the other files are where they were, the completed files are one more and
  -- the completed bytes more by the file's size, and no file is in transfer. This holds where the queues
  -- are a partition of files of the structure with fewer than 2^63 pending and completed ones.
  pub complete_transfer-start_transfer :
      (later : ℤ)
      → IsQueued u
      → get_file u.structure path ≡ some n
      → status_of u.queues path ≡ some pending
      → length u.queues.pending_files + length u.queues.completed_files < 2 ^ 63
      → (u' : UnifiedTransferManager fl.Float C) × (start_transfer fl u path now ≡ (u', none))
        × IsStarted u'
        × ((u'' : UnifiedTransferManager fl.Float C) × (complete_transfer fl u' path later
              ≡ (u'', none))
            × IsFinished u'')
  unfolding start_transfer start_found
  complete_transfer-start_transfer later v found waits fits = (
    started v waits,
    rw found refl,
    started-IsStarted v waits,
    (
      finished v waits later fits,
      completes v waits later fits,
      finished-IsFinished v waits later fits,
    ),
  )
