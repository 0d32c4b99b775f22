-- ===== src/Legacy.antt =====
-- FileTransferManager of pkg/transfer/fileTransferManager.go, the older manager: a chunker for each path.
pub mod Concurrency
pub mod Orders
use lan_file_share.Common.{
  ℕ, ◌+◌, ◌/◌, ◌++◌, Bool, String, string_eq, Option, none, some, List, [], ◌∷◌, length,
  if◌then◌else◌, leb,
}
use lan_file_share.Common.Int.{ℤ, pos, negsuc, sub_ℕ, ltb_ℤ, leb_ℤ, mul64}
use lan_file_share.Common.Maps.{Map, lookup, insert}
use lan_file_share.Common.Text.{codes}
use lan_file_share.Config.{default_chunk_size}
use lan_file_share.Errors.{Error, message, Result, ok, err}
use lan_file_share.FileNode.{FileNode, FileNodes, node, no_children, child, info}
use lan_file_share.Chunker.{FileSystem, Chunker, new_chunker_from_file_node}

-- MaxSupportedFiles
abbrev pub max_supported_files : ℕ
max_supported_files = 1_000_000

-- `C` is an open file.
pub record FileTransferManager (C : Type 0) : Type 0 where
  pub chunkers : Map String (Chunker C)
  pub max_concurrency : ℤ

abbrev pub clamp : ℤ → ℤ → ℤ → ℤ
clamp low high n = if ltb_ℤ n low then low else if ltb_ℤ high n then high else n

-- The `switch` of calculateOptimalConcurrency.
abbrev pub by_cpus : ℤ → ℤ
by_cpus cpus =
    if leb_ℤ cpus (pos 2)
    then mul64 cpus (pos 2)
    else if leb_ℤ cpus (pos 8)
    then mul64 cpus (pos 3)
    else if leb_ℤ cpus (pos 16)
    then mul64 cpus (pos 2)
    else pos 32

-- calculateOptimalConcurrency, of runtime.NumCPU()
unfoldable pub calculate_optimal_concurrency : ℤ → ℤ
calculate_optimal_concurrency cpus = clamp (pos 2) (pos 64) (by_cpus cpus)

-- The division of an int64 by 2, towards 0.
half : ℤ → ℤ
half (pos n) = pos (n / 2)
half (negsuc n) = sub_ℕ 0 ((n + 1) / 2)

-- min
abbrev min : ℤ → ℤ → ℤ
min a b = if ltb_ℤ a b then a else b

module _ {C : Type 0} where
  -- NewFileTransferManager
  unfoldable pub new_file_transfer_manager : ℤ → FileTransferManager C
  new_file_transfer_manager cpus = record {
    chunkers = [];
    max_concurrency = calculate_optimal_concurrency cpus;
  }

  -- calculateAdaptiveConcurrency, by the number of children of the node
  unfoldable pub calculate_adaptive_concurrency : FileTransferManager C → ℕ → ℤ
  unfolding half
  calculate_adaptive_concurrency ftm children =
      let base = ftm.max_concurrency in
      let adaptive =
        if leb children 10
        then min (half base) (pos children)
        else if leb children 100
        then min base (pos children)
        else base in
      if ltb_ℤ adaptive (pos 1) then pos 1 else adaptive

  -- SetMaxConcurrency
  unfoldable pub set_max_concurrency : FileTransferManager C → ℤ → FileTransferManager C
  set_max_concurrency ftm n = record ftm { max_concurrency = clamp (pos 1) (pos 128) n }

  -- GetChunker
  unfoldable pub get_file_chunker : FileTransferManager C → String → Option (Chunker C)
  get_file_chunker ftm path = lookup path ftm.chunkers

  -- Close
  unfoldable pub close_all : FileTransferManager C → FileTransferManager C
  close_all ftm = record ftm { chunkers = [] }

module _ (fs : FileSystem) where
  -- addSingleFileWithLimitCheck; a chunker that it replaces is closed.
  unfoldable pub add_single_file_with_limit_check :
      FileTransferManager fs.File → FileNode → FileTransferManager fs.File × Option Error
  add_single_file_with_limit_check ftm n =
      elim (new_chunker_from_file_node fs n (pos default_chunk_size)) [
        | err e ↦ (ftm, some e)
        | ok c ↦
            if leb max_supported_files (length ftm.chunkers)
            then (
              ftm,
              some (message (codes "file limit exceeded: maximum 1000000 files supported")),
            )
            else (record ftm { chunkers = insert (info n).path c ftm.chunkers }, none)
      ]

  then_add :
      FileTransferManager fs.File × Option Error
      → (FileTransferManager fs.File → FileTransferManager fs.File × Option Error)
      → FileTransferManager fs.File × Option Error
  then_add (ftm, none) rest = rest ftm
  then_add (ftm, some e) rest = (ftm, some e)

  -- The files in the order in which the goroutines of processDirConcurrent get the lock, up to the first
  -- that fails.
  unfoldable pub add_in_order :
      FileTransferManager fs.File → List FileNode → FileTransferManager fs.File × Option Error
  unfolding then_add
  add_in_order ftm [] = (ftm, none)
  add_in_order ftm (n ∷ ns) =
      then_add (add_single_file_with_limit_check ftm n) (λ ftm'. add_in_order ftm' ns)

-- The files below a node, for each of which AddFileNode starts a goroutine.
unfoldable mutual
  pub files_of : FileNode → List FileNode
  files_of (node i ns) = if i.is_dir then files_below ns else node i ns ∷ []

  pub files_below : FileNodes → List FileNode
  files_below no_children = []
  files_below (child n ns) = files_of n ++ files_below ns
