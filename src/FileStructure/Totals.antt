-- ===== src/FileStructure/Totals.antt =====
-- The counts and sizes of a file structure.
use lan_file_share.Common.{
  suc, ◌≡◌, refl, false, String, none, some, [], ◌∷◌, arith, string_eq, if◌then◌else◌, length,
}
use lan_file_share.Common.Int.{ℤ, pos, add64}
use lan_file_share.Common.Maps.{Map, lookup, insert, is_some, length-insert}
use lan_file_share.Errors.{after}
use lan_file_share.FileNode.{FileNode, node, info, node_count}
use lan_file_share.FileStructure.{
  FileStructureManager, add_file_node, get_file, get_file_count, get_total_size, sum_sizes,
}

sum_sizes-insert :
    (total : ℤ) (path : String) (n : FileNode) (m : Map String FileNode)
    → lookup path m ≡ none
    → sum_sizes total (insert path n m) ≡ add64 (sum_sizes total m) (info n).size
unfolding sum_sizes lookup insert
sum_sizes-insert total path n [] h = refl
sum_sizes-insert total path n ((j, f) ∷ m) h =
    ground (arith, sum_sizes-insert (add64 total (info f).size) path n m)

-- The file map of a structure after a plain file is added.
abbrev pub after_add : FileStructureManager → FileNode → Map String FileNode
after_add fsm n =
    if is_some (lookup (info n).path fsm.file_map)
    then fsm.file_map
    else insert (info n).path n fsm.file_map

pub file_map-add_file_node :
    (fsm : FileStructureManager) (n : FileNode)
    → (info n).is_dir ≡ false
    → (after fsm (add_file_node fsm (some n))).file_map ≡ after_add fsm n
unfolding add_file_node node_count
file_map-add_file_node fsm (node i c) plain = ground arith

-- Adding a plain file under a path that is free counts one file more and adds its size; under a
-- path that a file has, neither the count nor the size changes.
totals-add_file_node :
    (fsm : FileStructureManager) (n : FileNode)
    → (info n).is_dir ≡ false
    → let fsm' = after fsm (add_file_node fsm (some n)) in
      (get_total_size fsm' ≡ (
        if is_some (get_file fsm (info n).path)
        then get_total_size fsm
        else add64 (get_total_size fsm) (info n).size))
      × (get_file_count fsm' ≡ (
          if is_some (get_file fsm (info n).path)
          then get_file_count fsm
          else pos (suc (length fsm.file_map))))
unfolding get_total_size get_file_count get_file
totals-add_file_node fsm n plain = rw (file_map-add_file_node fsm n plain) (
    ground (
      arith,
      sum_sizes-insert (pos 0) (info n).path n fsm.file_map,
      length-insert (info n).path n fsm.file_map,
    ))
