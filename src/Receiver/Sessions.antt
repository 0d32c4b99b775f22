-- ===== src/Receiver/Sessions.antt =====
-- ProcessChunk (pkg/receiver/file_receiver.go) does not read the session of a message.
use lan_file_share.Common.{
  ◌≡◌, refl, ap, ◌∙◌, ℕ, suc, Bool, true, false, Option, none, some, List, [], ◌∷◌, map,
  if◌then◌else◌, string_eq,
}
use lan_file_share.Common.Maps.{lookup, is_some}
use lan_file_share.Chunker.{Chunk}
use lan_file_share.Connection.{World, chunk_message}
use lan_file_share.Connection.Healthy.{messages}
use lan_file_share.FileNode.{FileNode, info}
use lan_file_share.Protocol.{TransferSession}
use lan_file_share.Receiver.{
  FileReceiver, FileReception, System, Outcome, start_reception, write_bytes, write_chunk_at_offset,
  write_and_check, then_write, process_message,
}
use lan_file_share.Receiver.Reassembly.Runs.{and_then, process_all}

if_same :
    {A : Type 0} (b : Bool) (x y x' y' : A)
    → x ≡ x'
    → y ≡ y'
    → (if b then x else y) ≡ (if b then x' else y')
if_same true x y x' y' p q = p
if_same false x y x' y' p q = q

module _ (sys : System) (s t : TransferSession) (n : FileNode) (c : Chunk) where
  write_and_check_session :
      (fr : FileReceiver) (r : Option FileReception)
      → write_and_check sys fr (chunk_message s n c) r
        ≡ write_and_check sys fr (chunk_message t n c) r
  unfolding chunk_message write_and_check write_chunk_at_offset write_bytes
  write_and_check_session fr none = refl
  write_and_check_session fr (some r) = refl

  then_write_session :
      (o : Outcome)
      → then_write sys o (chunk_message s n c) ≡ then_write sys o (chunk_message t n c)
  unfolding chunk_message
  then_write_session (fr, some e) = refl
  then_write_session (fr, none) = write_and_check_session fr (lookup (info n).path fr.current_files)

  process_message_session :
      (fr : FileReceiver)
      → process_message sys fr (chunk_message s n c) ≡ process_message sys fr (chunk_message t n c)
  unfolding process_message chunk_message start_reception
  process_message_session fr =
      if_same (is_some (lookup (info n).path fr.current_files)) _ _ _ _
        (write_and_check_session fr (lookup (info n).path fr.current_files))
        (then_write_session (start_reception sys fr (chunk_message s n c)))

and_then_same :
    (next next' : FileReceiver → Outcome) (o o' : Outcome)
    → ((fr : FileReceiver) → next fr ≡ next' fr)
    → o ≡ o'
    → and_then next o ≡ and_then next' o'
and_then_same next next' o (fr, none) same e = ap (and_then next) e ∙ same fr
and_then_same next next' o (fr, some x) same e = ap (and_then next) e

-- The messages of one file that are sent from a tick on are processed as if they had all been sent in
-- one session.
pub process_all_session :
    (sys : System) (w : World) (s : TransferSession) (n : FileNode) (tick : ℕ) (cs : List Chunk)
    (fr : FileReceiver)
    → process_all sys fr (messages w n tick cs) ≡ process_all sys fr (map (chunk_message s n) cs)
unfolding process_all
process_all_session sys w s n tick [] fr = refl
process_all_session sys w s n tick (c ∷ cs) fr =
    and_then_same _ _ (process_message sys fr (chunk_message (w.session tick) n c))
      (process_message sys fr (chunk_message s n c)) (process_all_session sys w s n (suc tick) cs)
      (process_message_session sys (w.session tick) s n c fr)
