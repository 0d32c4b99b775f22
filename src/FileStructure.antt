-- ===== src/FileStructure.antt =====
-- FileStructureManager of pkg/transfer/fileStructerManager.go. The nodes are held by value: the
-- program does not write to a node that the manager holds.
pub mod Registered
pub mod Totals
use lan_file_share.Common.{
  ℕ, zero, suc, Bool, true, false, ◌&&◌, not, String, Option, none, some, List, [], ◌∷◌, ◌++◌, map,
  length, string_eq, if◌then◌else◌,
}
use lan_file_share.Common.Int.{ℤ, pos, add64}
use lan_file_share.Common.Maps.{Map, lookup, insert, is_some}
use lan_file_share.Common.Text.{codes}
use lan_file_share.Errors.{Error, message, wrapped, Result, ok, err}
use lan_file_share.FileNode.{FileNode, info, children, node_count}

pub record FileStructureManager : Type 0 where
  pub root_nodes : List FileNode
  pub file_map : Map String FileNode
  pub dir_map : Map String FileNode

-- NewFileStructureManager
abbrev pub new_structure : FileStructureManager
new_structure = record { root_nodes = []; file_map = []; dir_map = [] }

unfoldable pub is_registered : FileStructureManager → FileNode → Bool
is_registered fsm n =
    if (info n).is_dir
    then is_some (lookup (info n).path fsm.dir_map)
    else is_some (lookup (info n).path fsm.file_map)

-- What one round of the loop writes to the maps.
register : FileStructureManager → FileNode → FileStructureManager
unfolding is_registered
register fsm n =
    if is_registered fsm n
    then fsm
    else if (info n).is_dir
    then record fsm { dir_map = insert (info n).path n fsm.dir_map }
    else record fsm { file_map = insert (info n).path n fsm.file_map }

-- And what it leaves in the queue.
enqueue : FileStructureManager → FileNode → List FileNode → List FileNode
unfolding is_registered
enqueue fsm n queue =
    if (info n).is_dir && not (is_registered fsm n) then queue ++ children n else queue

-- The loop of addFileNodeUnsafe; `none` means that the fuel ran out.
add_loop : ℕ → List FileNode → FileStructureManager → Option FileStructureManager
unfolding register enqueue
add_loop fuel [] fsm = some fsm
add_loop zero (n ∷ queue) fsm = none
add_loop (suc fuel) (n ∷ queue) fsm = add_loop fuel (enqueue fsm n queue) (register fsm n)

-- Each round takes one node off the queue, so the nodes of the tree are fuel enough.
abbrev finish : FileStructureManager → Option FileStructureManager → Result FileStructureManager
finish fsm none = ok fsm
finish fsm (some fsm') = ok fsm'

-- addFileNodeUnsafe; a nil node is `none`.
unfoldable pub add_file_node_unsafe :
    FileStructureManager → Option FileNode → Result FileStructureManager
unfolding add_loop
add_file_node_unsafe fsm none = err (message (codes "node cannot be nil"))
add_file_node_unsafe fsm (some n) = finish fsm (add_loop (node_count n) (n ∷ []) fsm)

abbrev append_root : FileNode → Result FileStructureManager → Result FileStructureManager
append_root n (err e) = err e
append_root n (ok fsm) = ok (record fsm { root_nodes = fsm.root_nodes ++ n ∷ [] })

-- AddFileNode
unfoldable pub add_file_node : FileStructureManager → Option FileNode → Result FileStructureManager
unfolding add_file_node_unsafe
add_file_node fsm none = err (message (codes "node cannot be nil"))
add_file_node fsm (some n) = append_root n (add_file_node_unsafe fsm (some n))

-- NewFileStructureManagerWithRootNodes
unfoldable pub add_nodes : FileStructureManager → List FileNode → Result FileStructureManager
unfolding add_file_node_unsafe
add_nodes fsm [] = ok fsm
add_nodes fsm (n ∷ ns) = elim (add_file_node_unsafe fsm (some n)) [
  | err e ↦ err e
  | ok fsm' ↦ add_nodes fsm' ns
]

unfoldable pub new_structure_with_root_nodes : List FileNode → Result FileStructureManager
unfolding add_nodes
new_structure_with_root_nodes roots = add_nodes (record new_structure { root_nodes = roots }) roots

-- AddPath; `create_node` stands for fileInfo.CreateNode, which reads the file system.
unfoldable pub add_path :
    (String → Result FileNode) → FileStructureManager → String → Result FileStructureManager
unfolding add_file_node
add_path create_node fsm path = elim (create_node path) [
  | err e ↦ err (wrapped (codes "failed to create node from path " ++ codes path) e)
  | ok n ↦ add_file_node fsm (some n)
]

-- NewFileStructureManagerFromPath
unfoldable pub new_structure_from_path :
    (String → Result FileNode) → String → Result FileStructureManager
unfolding add_path
new_structure_from_path create_node path = add_path create_node new_structure path

-- GetFileCount, GetDirCount
unfoldable pub get_file_count : FileStructureManager → ℤ
get_file_count fsm = pos (length fsm.file_map)

unfoldable pub get_dir_count : FileStructureManager → ℤ
get_dir_count fsm = pos (length fsm.dir_map)

-- GetFile, GetDir
unfoldable pub get_file : FileStructureManager → String → Option FileNode
get_file fsm path = lookup path fsm.file_map

unfoldable pub get_dir : FileStructureManager → String → Option FileNode
get_dir fsm path = lookup path fsm.dir_map

-- GetAllFiles (and GetAllFileEntities), GetAllDirs
unfoldable pub get_all_files : FileStructureManager → List FileNode
get_all_files fsm = map (λ e. e.1) fsm.file_map

unfoldable pub get_all_dirs : FileStructureManager → List FileNode
get_all_dirs fsm = map (λ e. e.1) fsm.dir_map

-- GetTotalSize; the sums are int64, so the order of the map does not matter.
unfoldable pub sum_sizes : ℤ → Map String FileNode → ℤ
sum_sizes total [] = total
sum_sizes total ((path, n) ∷ m) = sum_sizes (add64 total (info n).size) m

unfoldable pub get_total_size : FileStructureManager → ℤ
unfolding sum_sizes
get_total_size fsm = sum_sizes (pos 0) fsm.file_map

-- Clear
unfoldable pub clear : FileStructureManager → FileStructureManager
clear fsm = record { root_nodes = []; file_map = []; dir_map = [] }
