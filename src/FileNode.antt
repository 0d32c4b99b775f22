-- ===== src/FileNode.antt =====
-- FileNode of pkg/fileInfo/fileNode.go: a file, or a directory with its children.
use lan_file_share.Common.{ℕ, suc, ◌+◌, Bool, String, List, [], ◌∷◌}
use lan_file_share.Common.Int.{ℤ}

pub record NodeInfo : Type 0 where
  pub name : String
  pub is_dir : Bool
  pub size : ℤ
  pub mime_type : String
  pub checksum : String
  pub path : String

mutual
  pub data FileNode : Type 0 where
    node : NodeInfo → FileNodes → FileNode

  pub data FileNodes : Type 0 where
    no_children : FileNodes
    child : FileNode → FileNodes → FileNodes

abbrev pub info : FileNode → NodeInfo
info (node i c) = i

abbrev pub to_list : FileNodes → List FileNode
to_list no_children = []
to_list (child n ns) = n ∷ to_list ns

abbrev pub children : FileNode → List FileNode
children (node i c) = to_list c

-- The number of nodes of a tree.
unfoldable mutual
  pub node_count : FileNode → ℕ
  node_count (node i c) = suc (child_count c)

  pub child_count : FileNodes → ℕ
  child_count no_children = 0
  child_count (child n ns) = node_count n + child_count ns
