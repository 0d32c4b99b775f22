-- ===== src/Manager.antt =====
-- UnifiedTransferManager of pkg/transfer/unified_manager.go: its state and the operations on its
-- files. Each operation is one step, as its locks make it; the readings of the clock within it are
-- one argument `now`. The copies for listeners, which run in goroutines of their own, are left out.
pub mod Transfers
pub mod Control
pub mod Adding
pub mod Counters
pub mod Starting
pub mod Retries
pub mod Ends
use lan_file_share.Common.{
  ◌≡◌, Bool, true, false, String, Option, none, some, List, [], ◌∷◌, ◌++◌, ◌==◌, string_eq,
  if◌then◌else◌,
}
use lan_file_share.Common.Int.{ℤ, pos, add64}
use lan_file_share.Common.Maps.{Map, is_some, lookup, insert}
use lan_file_share.Common.Text.{codes}
use lan_file_share.Errors.{
  Error, sentinel, message, wrapped, transfer_already_exists, Result, ok, err,
}
use lan_file_share.State.{StatusSessionState}
use lan_file_share.FileNode.{FileNode, FileNodes, NodeInfo, node, no_children, child, info}
use lan_file_share.FileStructure.{
  FileStructureManager, new_structure, add_file_node, get_file, get_file_count, clear,
}
use lan_file_share.Chunker.{FileSystem, Chunker, new_chunker_from_file_node}
use lan_file_share.Queue.{
  Queues, no_files, pending, add_file_to_queue, get_queue_counts, mark_completed_in_queue,
  mark_failed_in_queue, MapRange, get_first_pending_file,
}
use lan_file_share.Retry.Policy.{RetryPolicy}
use lan_file_share.Retry.Scheduler.{RetryQueue}
use lan_file_share.Session.{Float64, SessionTransferStatus}

-- `F` is a float, `C` an open file. The retry scheduler enters by its queue; the error handler is
-- the default one, built from the same policy. A listener is its ID.
pub record UnifiedTransferManager (F C : Type 0) : Type 0 where
  pub chunk_size : ℤ
  pub policy : RetryPolicy
  pub structure : FileStructureManager
  pub chunkers : Map String (Chunker C)
  pub queues : Queues
  pub session_status : SessionTransferStatus F
  pub retry_queue : RetryQueue
  pub listeners : List String

abbrev pub Utm : Float64 → FileSystem → Type 0
Utm fl fs = UnifiedTransferManager fl.Float fs.File

module _ (fl : Float64) (fs : FileSystem) where
  -- NewUnifiedTransferManagerWithConfig, with what is read of the configuration.
  unfoldable pub new_utm : String → ℤ → RetryPolicy → ℤ → UnifiedTransferManager fl.Float fs.File
  new_utm service size p now = record {
    chunk_size = size;
    policy = p;
    structure = new_structure;
    chunkers = [];
    queues = no_files;
    session_status = record {
      session_id = service;
      total_files = pos 0;
      completed_files = pos 0;
      failed_files = pos 0;
      pending_files = pos 0;
      total_bytes = pos 0;
      bytes_completed = pos 0;
      overall_progress = fl.of_int (pos 0);
      current_file = none;
      start_time = now;
      last_update_time = now;
      completion_time = none;
      state = StatusSessionState.active;
    };
    retry_queue = [];
    listeners = [];
  }

  -- addSingleFile from the chunker on; the structure is written before it.
  unfoldable pub store_file :
      Utm fl fs → FileNode → Result (Chunker fs.File) → ℤ → Utm fl fs × Option Error
  unfolding add_file_to_queue get_queue_counts get_file_count
  store_file u n (err e) now = (u, some (wrapped (codes "failed to create chunker") e))
  store_file u n (ok c) now =
      let q = add_file_to_queue u.queues (info n).path pending in
      let s = u.session_status in
      (
        record u {
          chunkers = insert (info n).path c u.chunkers;
          queues = q;
          session_status = record s {
            total_files = get_file_count u.structure;
            pending_files = (get_queue_counts q).0;
            total_bytes = add64 s.total_bytes (info n).size;
            last_update_time = now;
          };
        },
        none,
      )

  unfoldable pub register_file :
      Utm fl fs → FileNode → Result FileStructureManager → ℤ → Utm fl fs × Option Error
  unfolding store_file
  register_file u n (err e) now = (u, some (wrapped (codes "failed to add file to structure") e))
  register_file u n (ok fsm) now =
      store_file (record u { structure = fsm }) n (new_chunker_from_file_node fs n u.chunk_size) now

  -- addSingleFile
  unfoldable pub add_single_file :
      UnifiedTransferManager fl.Float fs.File
      → FileNode
      → ℤ
      → UnifiedTransferManager fl.Float fs.File × Option Error
  unfolding register_file get_file
  add_single_file u n now =
      if is_some (get_file u.structure (info n).path)
      then (u, some (sentinel transfer_already_exists))
      else register_file u n (add_file_node u.structure (some n)) now

  -- The check of addDirectory after a child: its error ends the loop, else `rest` is what follows.
  unfoldable pub child_done :
      Utm fl fs × Option Error → String → Utm fl fs × Option Error → Utm fl fs × Option Error
  child_done (u, none) path rest = rest
  child_done (u, some e) path rest =
      (u, some (wrapped (codes "failed to add child " ++ codes path) e))

  -- AddFile of a node that is not nil, and the loop of addDirectory.
  unfoldable mutual
    unfolding child_done add_single_file

    pub add_node :
        UnifiedTransferManager fl.Float fs.File
        → FileNode
        → ℤ
        → UnifiedTransferManager fl.Float fs.File × Option Error
    add_node u (node i ns) now =
        if i.is_dir then add_children u ns now else add_single_file u (node i ns) now

    pub add_children :
        UnifiedTransferManager fl.Float fs.File
        → FileNodes
        → ℤ
        → UnifiedTransferManager fl.Float fs.File × Option Error
    add_children u no_children now = (u, none)
    add_children u (child n ns) now =
        let r = add_node u n now in child_done r (info n).path (add_children r.0 ns now)

  -- AddFile
  unfoldable pub add_file :
      UnifiedTransferManager fl.Float fs.File
      → Option FileNode
      → ℤ
      → UnifiedTransferManager fl.Float fs.File × Option Error
  unfolding add_node
  add_file u none now = (u, some (message (codes "file node cannot be nil")))
  add_file u (some n) now = add_node u n now

-- The session's file counts from the queues.
unfoldable pub with_queue_counts :
    {F : Type 0} → SessionTransferStatus F → Queues → SessionTransferStatus F
unfolding get_queue_counts
with_queue_counts s q =
    let (p, c, f) = get_queue_counts q in
    record s { pending_files = p; completed_files = c; failed_files = f }

module _ {F C : Type 0} where
  -- GetNextPendingFile
  unfoldable pub get_next_pending_file : MapRange → UnifiedTransferManager F C → Option FileNode
  get_next_pending_file range u = elim (get_first_pending_file range u.queues) [
    | none ↦ none
    | some path ↦ get_file u.structure path
  ]

  put_queues : UnifiedTransferManager F C → Queues → ℤ → UnifiedTransferManager F C
  unfolding with_queue_counts
  put_queues u q now = record u {
    queues = q;
    session_status = record (with_queue_counts u.session_status q) { last_update_time = now };
  }

  -- MarkFileCompleted, MarkFileFailed
  unfoldable pub mark_file_completed :
      UnifiedTransferManager F C → String → ℤ → UnifiedTransferManager F C
  unfolding put_queues
  mark_file_completed u path now = put_queues u (mark_completed_in_queue u.queues path) now

  unfoldable pub mark_file_failed :
      UnifiedTransferManager F C → String → ℤ → UnifiedTransferManager F C
  unfolding put_queues
  mark_file_failed u path now = put_queues u (mark_failed_in_queue u.queues path) now

  -- GetQueueStatus
  unfoldable pub get_queue_status : UnifiedTransferManager F C → ℤ × ℤ × ℤ
  get_queue_status u = get_queue_counts u.queues

  -- GetChunker
  unfoldable pub get_chunker : UnifiedTransferManager F C → String → Option (Chunker C)
  get_chunker u path = lookup path u.chunkers

  -- Close; that it closes the chunkers' files shows in no state of the model.
  unfoldable pub close : UnifiedTransferManager F C → UnifiedTransferManager F C
  close u = record u { structure = clear u.structure; chunkers = []; queues = no_files }

  -- AddStatusListener
  unfoldable pub add_listener : UnifiedTransferManager F C → String → UnifiedTransferManager F C
  add_listener u id = record u { listeners = u.listeners ++ id ∷ [] }
