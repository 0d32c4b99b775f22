-- ===== src/Bytes.antt =====
-- Byte strings as files hold them: reading from the front, writing at an offset.
pub mod Writes
use lan_file_share.Common.{ℕ, ◌+◌, ◌-◌, List, [], ◌∷◌, ◌++◌, length, take, drop, replicate}

-- Write at an offset: a gap past the end reads as zeros; writing no byte changes nothing.
unfoldable pub write_at : List ℕ → ℕ → List ℕ → List ℕ
write_at content off [] = content
write_at content off (b ∷ bs) =
    take off content
    ++ (replicate (off - length content) 0 ++ ((b ∷ bs) ++ drop (off + length (b ∷ bs)) content))
