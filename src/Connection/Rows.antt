-- ===== src/Connection/Rows.antt =====
-- What performFileTransfer (pkg/webrtc/connection.go) sends, file by file.
use mathlib.Core.List.{Memᴰ}
use lan_file_share.Common.{◌≡◌, ◌≢◌, ℕ, true, String, some, string_eq, List, [], ◌∷◌, ◌++◌}
use lan_file_share.Common.Maps.{lookup}
use lan_file_share.Common.Sets.{has}
use lan_file_share.FileNode.{FileNode, info}
use lan_file_share.FileStructure.{get_file}
use lan_file_share.Chunker.{FileSystem, Chunk, Chunker}
use lan_file_share.Chunker.Stream.{IsStream}
use lan_file_share.Connection.{World}
use lan_file_share.Connection.Healthy.{messages}
use lan_file_share.Protocol.{ChunkMessage}
use lan_file_share.Manager.{UnifiedTransferManager}

-- The messages of one file: its chunks, which are its bytes in order, sent from a tick on.
pub record Row : Type 0 where
  pub node : FileNode
  pub file : List ℕ
  pub tick : ℕ
  pub chunks : List Chunk
  pub stream : IsStream 0 0 file chunks

abbrev pub row_path : Row → String
row_path r = (info r.node).path

abbrev pub messages_of : World → List Row → List ChunkMessage
messages_of w [] = []
messages_of w (r ∷ rs) = messages w r.node r.tick r.chunks ++ messages_of w rs

-- The row is of a pending file and of the bytes that its chunker has before it.
pub record IsRow {F : Type 0} (fs : FileSystem) (u : UnifiedTransferManager F fs.File) (r : Row)
    : Type 0 where
  pub waits : has u.queues.pending_files (row_path r) ≡ true
  pub found : get_file u.structure (row_path r) ≡ some r.node
  pub chunker : Chunker fs.File
  pub opened : lookup (row_path r) u.chunkers ≡ some chunker
  pub read : fs.unread chunker.file ≡ r.file

-- No two rows are of one file.
abbrev pub AreDistinct : List Row → Type 0
AreDistinct [] = Unit {0}
AreDistinct (r ∷ rs) = ((r' : Row) → Memᴰ r' rs → row_path r ≢ row_path r') × AreDistinct rs
