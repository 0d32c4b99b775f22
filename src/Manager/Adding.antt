-- ===== src/Manager/Adding.antt =====
-- AddFile of UnifiedTransferManager (pkg/transfer/unified_manager.go), also where it fails.
use lan_file_share.Common.{
  ◌≡◌, refl, Bool, true, false, String, Option, none, some, arith, string_eq, if◌then◌else◌,
  Bool-cases, inl, inr,
}
use lan_file_share.Common.Int.{ℤ}
use lan_file_share.Common.Maps.{lookup-insert_self, is_some, lookup, insert, lookup-insert}
use lan_file_share.Common.Sets.{has, has-add, add-Distinct}
use lan_file_share.Errors.{sentinel, transfer_already_exists, Error, Result, ok, err, after}
use lan_file_share.FileNode.{FileNode, FileNodes, node, no_children, child, info}
use lan_file_share.FileStructure.{FileStructureManager, get_file, add_file_node}
use lan_file_share.FileStructure.Totals.{file_map-add_file_node}
use lan_file_share.Queue.{Queues, pending, add_file_to_queue}
use lan_file_share.Queue.View.{IsPartition, status_of, no_files-IsPartition}
use lan_file_share.Queue.Counts.{is_known}
use lan_file_share.Chunker.{new_chunker_from_file_node, FileSystem, Chunker}
use lan_file_share.Retry.Policy.{RetryPolicy}
use lan_file_share.Session.{Float64}
use lan_file_share.Manager.{
  UnifiedTransferManager, Utm, new_utm, store_file, register_file, add_single_file, child_done,
  add_file, add_node, add_children,
}
use lan_file_share.Manager.Counters.{IsConsistent}

queue-IsPartition :
    (q : Queues) (path : String)
    → IsPartition q
    → is_known (status_of q path) ≡ false
    → IsPartition (add_file_to_queue q path pending)
unfolding add_file_to_queue
queue-IsPartition q path v h = record {
  pending_distinct = ground (arith, v.pending_distinct, add-Distinct path q.pending_files);
  completed_distinct = ground (arith, v.completed_distinct);
  failed_distinct = ground (arith, v.failed_distinct);
  apart = λ other. ground (
    arith,
    v.apart path,
    v.apart other,
    has-add path other q.pending_files,
    string_eq.beq_iff path other,
  );
}

module _ (fl : Float64) (fs : FileSystem) (u : UnifiedTransferManager fl.Float fs.File)
    (n : FileNode) (now : ℤ) where
  -- The structure after AddFileNode, with the manager's other fields as they were.
  store_file-IsConsistent :
      (fsm : FileStructureManager) (c : Result (Chunker fs.File))
      → IsConsistent u
      → get_file u.structure (info n).path ≡ none
      → fsm.file_map ≡ insert (info n).path n u.structure.file_map
      → IsConsistent (store_file fl fs (record u { structure = fsm }) n c now).0
  unfolding store_file get_file
  store_file-IsConsistent fsm (err e) v free h = record {
    partition = v.partition;
    pending_agrees = v.pending_agrees;
    completed_agrees = v.completed_agrees;
    failed_agrees = v.failed_agrees;
    known = λ other k.
        rw h
          (ground (arith, v.known other, lookup-insert (info n).path other n u.structure.file_map));
    current = v.current;
  }
  store_file-IsConsistent fsm (ok c) v free h = record {
    partition =
        queue-IsPartition u.queues (info n).path v.partition
          (ground (arith, v.known (info n).path));
    pending_agrees = refl;
    completed_agrees = v.completed_agrees;
    failed_agrees = v.failed_agrees;
    known = λ other k. rw h (
        ground (
          arith,
          v.known other,
          has-add (info n).path other u.queues.pending_files,
          lookup-insert (info n).path other n u.structure.file_map,
        ));
    current = λ file k.
        ground (arith, v.current file, has-add (info n).path file.file_path u.queues.pending_files);
  }

  register_file-IsConsistent :
      (r : Result FileStructureManager)
      → IsConsistent u
      → get_file u.structure (info n).path ≡ none
      → (after u.structure r).file_map ≡ insert (info n).path n u.structure.file_map
      → IsConsistent (register_file fl fs u n r now).0
  unfolding register_file
  register_file-IsConsistent (err e) v free h = v
  register_file-IsConsistent (ok fsm) v free h = store_file-IsConsistent fsm _ v free h

  add_single_file-IsConsistent :
      (info n).is_dir ≡ false → IsConsistent u → IsConsistent (add_single_file fl fs u n now).0
  unfolding add_single_file get_file
  add_single_file-IsConsistent plain v =
      elim (Bool-cases (is_some (lookup (info n).path u.structure.file_map))) [
        | inl taken ↦ rw taken v
        | inr free ↦ rw free (
            register_file-IsConsistent (add_file_node u.structure (some n)) v (ground arith)
              (ground (arith, file_map-add_file_node u.structure n plain)))
      ]

choose-Is :
    {A B : Type 0} (P : A → Type 0) (b : Bool) (x y : A × B)
    → (b ≡ true → P x.0)
    → (b ≡ false → P y.0)
    → P (if b then x else y).0
choose-Is P true x y left right = left refl
choose-Is P false x y left right = right refl

child_done-IsConsistent :
    (fl : Float64) (fs : FileSystem) (r rest : Utm fl fs × Option Error) (path : String)
    → IsConsistent r.0
    → IsConsistent rest.0
    → IsConsistent (child_done fl fs r path rest).0
unfolding child_done
child_done-IsConsistent fl fs (u, none) rest path v w = w
child_done-IsConsistent fl fs (u, some e) rest path v w = v

mutual
  unfolding add_node

  -- Over the nodes of a tree.
  pub add_node-IsConsistent :
      (fl : Float64) (fs : FileSystem) (u : UnifiedTransferManager fl.Float fs.File) (n : FileNode)
      (now : ℤ)
      → IsConsistent u
      → IsConsistent (add_node fl fs u n now).0
  add_node-IsConsistent fl fs u (node i c) now v =
      choose-Is IsConsistent i.is_dir _ _ (λ dir. add_children-IsConsistent fl fs u c now v)
        (λ plain. add_single_file-IsConsistent fl fs u (node i c) now plain v)

  add_children-IsConsistent :
      (fl : Float64) (fs : FileSystem) (u : UnifiedTransferManager fl.Float fs.File) (c : FileNodes)
      (now : ℤ)
      → IsConsistent u
      → IsConsistent (add_children fl fs u c now).0
  add_children-IsConsistent fl fs u no_children now v = v
  add_children-IsConsistent fl fs u (child n ns) now v =
      let v' = add_node-IsConsistent fl fs u n now v in
      child_done-IsConsistent fl fs (add_node fl fs u n now) _ (info n).path v'
        (add_children-IsConsistent fl fs _ ns now v')

-- AddFile of any tree of files and directories, to its end or up to the file at which it fails, and
-- of a nil node, leaves a consistent manager consistent.
pub add_file-IsConsistent :
    (fl : Float64) (fs : FileSystem) (u : UnifiedTransferManager fl.Float fs.File)
    (n : Option FileNode) (now : ℤ)
    → IsConsistent u
    → IsConsistent (add_file fl fs u n now).0
unfolding add_file
add_file-IsConsistent fl fs u none now v = v
add_file-IsConsistent fl fs u (some n) now v = add_node-IsConsistent fl fs u n now v

-- A new manager is consistent.
pub new_utm-IsConsistent :
    (fl : Float64) (fs : FileSystem) (service : String) (size : ℤ) (p : RetryPolicy) (now : ℤ)
    → IsConsistent (new_utm fl fs service size p now)
unfolding new_utm get_file lookup has
new_utm-IsConsistent fl fs service size p now = record {
  partition = no_files-IsPartition;
  pending_agrees = refl;
  completed_agrees = refl;
  failed_agrees = refl;
  known = λ path k. ground arith;
  current = λ file k. ground arith;
}

-- Whether the path is registered after AddFileNode of a file whose path was free.
taken-add_file_node :
    (fsm : FileStructureManager) (n : FileNode)
    → (info n).is_dir ≡ false
    → get_file fsm (info n).path ≡ none
    → is_some (get_file (after fsm (add_file_node fsm (some n))) (info n).path) ≡ true
unfolding get_file
taken-add_file_node fsm n plain free =
    rw (file_map-add_file_node fsm n plain)
      (ground (arith, lookup-insert_self (info n).path n fsm.file_map))

module _ (fl : Float64) (fs : FileSystem) (u : UnifiedTransferManager fl.Float fs.File)
    (n : FileNode) where
  -- The queues are as before, and the file cannot be added again.
  abbrev pub IsStuck : Utm fl fs × Option Error → ℤ → Type 0
  IsStuck r later =
      (r.0.queues ≡ u.queues)
      × ((add_single_file fl fs r.0 n later).1 ≡ some (sentinel transfer_already_exists))

  register_file-IsStuck :
      (r : Result FileStructureManager) (e : Error) (now later : ℤ)
      → get_file u.structure (info n).path ≡ none
      → is_some (get_file (after u.structure r) (info n).path) ≡ true
      → new_chunker_from_file_node fs n u.chunk_size ≡ err e
      → IsStuck (register_file fl fs u n r now) later
  unfolding register_file store_file add_single_file
  register_file-IsStuck (err x) e now later free taken c = absurd (ground (arith, free, taken))
  register_file-IsStuck (ok fsm) e now later free taken c = rw (c, taken) (refl, refl)

  -- Where no chunker can be made for a file whose path is free, addSingleFile leaves the queues as
  -- they were, and yet adding the file again is answered with ErrTransferAlreadyExists.
  pub add_single_file-IsStuck :
      (e : Error) (now later : ℤ)
      → (info n).is_dir ≡ false
      → get_file u.structure (info n).path ≡ none
      → new_chunker_from_file_node fs n u.chunk_size ≡ err e
      → IsStuck (add_single_file fl fs u n now) later
  unfolding add_single_file
  add_single_file-IsStuck e now later plain free c = rw free (
      register_file-IsStuck (add_file_node u.structure (some n)) e now later free
        (taken-add_file_node u.structure n plain free) c)
