-- ===== src/Receiver/Frame/Messages.antt =====
-- What ProcessChunk (pkg/receiver/file_receiver.go) of a message leaves alone, its beginning and its write.
use lan_file_share.Common.{
  if_each, ℕ, ◌≡◌, refl, inl, inr, string_eq, Option, Option-cases, none, some, List, [], nat_eq,
}
use lan_file_share.Common.Sets.{has}
use lan_file_share.Common.Maps.{lookup, is_some}
use lan_file_share.Common.Text.{text_eq}
use lan_file_share.Protocol.{ChunkMessage}
use lan_file_share.Receiver.{
  FileReceiver, FileReception, System, Outcome, start_reception, write_bytes, write_chunk_at_offset,
  seek_error, then_check, write_and_check, then_write, process_message,
}
use lan_file_share.Receiver.Paths.{output_path}
use lan_file_share.Receiver.Frame.{
  Frame, transitive-Frame, Placed, same-Frame, put-Frame, insert_elsewhere, check_complete-Frame,
}

module _ (sys : System) (path : List ℕ) (msg : ChunkMessage) where
  start_reception-Frame :
      (fr : FileReceiver)
      → output_path fr.output_dir msg.file_name ≡ some path
      → Placed sys msg.file_id path fr
      → Frame msg.file_id path fr (start_reception sys fr msg).0
  unfolding start_reception
  start_reception-Frame fr place placed = elim (Option-cases (sys.create path)) [
    | inl fine ↦
        rw (start_reception, place, fine)
          (put-Frame sys msg.file_id path fr _ _ refl refl refl
            (insert_elsewhere sys msg.file_id path path [] fr refl))
    | inr (e, bad) ↦
        rw (start_reception, place, bad)
          (same-Frame sys msg.file_id path fr fr placed refl refl (λ q differ. refl))
  ]

  write_bytes-Frame :
      (fr : FileReceiver) (r : FileReception)
      → r.output_path ≡ path
      → Placed sys msg.file_id path fr
      → Frame msg.file_id path fr (write_bytes sys fr r msg).0
  unfolding write_bytes
  write_bytes-Frame fr r place placed =
      elim (Option-cases (sys.write r.output_path msg.offset msg.bytes)) [
        | inl fine ↦
            rw (write_bytes, fine)
              (put-Frame sys msg.file_id path fr _ _ place refl refl
                (insert_elsewhere sys msg.file_id path r.output_path _ fr place))
        | inr ((k, e), bad) ↦
            rw (write_bytes, bad)
              (same-Frame sys msg.file_id path fr _ placed refl refl
                (insert_elsewhere sys msg.file_id path r.output_path _ fr place))
      ]

  write_chunk_at_offset-Frame :
      (fr : FileReceiver) (r : FileReception)
      → r.output_path ≡ path
      → Placed sys msg.file_id path fr
      → Frame msg.file_id path fr (write_chunk_at_offset sys fr r msg).0
  unfolding write_chunk_at_offset
  write_chunk_at_offset-Frame fr r place placed =
      let same = same-Frame sys msg.file_id path fr fr placed refl refl (λ q differ. refl) in
      if_each (λ (o : Outcome). Frame msg.file_id path fr o.0)
        (has r.received_chunks msg.sequence_no) _ _ same
        (elim (Option-cases (seek_error sys r msg.offset)) [
          | inl fine ↦ rw (fine) (write_bytes-Frame fr r place placed)
          | inr (e, bad) ↦ rw (bad) same
        ])

  then_check-Frame :
      (fr : FileReceiver) (o : Outcome)
      → Frame msg.file_id path fr o.0
      → Frame msg.file_id path fr (then_check sys o msg.file_id).0
  then_check-Frame fr (fr', some e) v = v
  then_check-Frame fr (fr', none) v = transitive-Frame msg.file_id path fr fr' _ v (
      check_complete-Frame sys msg.file_id path fr' (lookup msg.file_id fr'.current_files) refl
        v.placed)

  write_and_check-Frame :
      (fr : FileReceiver) (o : Option FileReception)
      → lookup msg.file_id fr.current_files ≡ o
      → Placed sys msg.file_id path fr
      → Frame msg.file_id path fr (write_and_check sys fr msg o).0
  unfolding write_and_check
  write_and_check-Frame fr none found placed =
      same-Frame sys msg.file_id path fr fr placed refl refl (λ q differ. refl)
  write_and_check-Frame fr (some r) found placed =
      then_check-Frame fr (write_chunk_at_offset sys fr r msg)
        (write_chunk_at_offset-Frame fr r (placed r found) placed)

  then_write-Frame :
      (fr : FileReceiver) (o : Outcome)
      → Frame msg.file_id path fr o.0
      → Frame msg.file_id path fr (then_write sys o msg).0
  then_write-Frame fr (fr', some e) v = v
  then_write-Frame fr (fr', none) v =
      transitive-Frame msg.file_id path fr fr' _ v
        (write_and_check-Frame fr' (lookup msg.file_id fr'.current_files) refl v.placed)

  -- A message changes no reception but its own, and on the disk only the file at its own output path.
  pub process_message-Frame :
      (fr : FileReceiver)
      → output_path fr.output_dir msg.file_name ≡ some path
      → Placed sys msg.file_id path fr
      → Frame msg.file_id path fr (process_message sys fr msg).0
  unfolding process_message
  process_message-Frame fr place placed =
      if_each (λ (o : Outcome). Frame msg.file_id path fr o.0)
        (is_some (lookup msg.file_id fr.current_files)) _ _
        (write_and_check-Frame fr (lookup msg.file_id fr.current_files) refl placed)
        (then_write-Frame fr (start_reception sys fr msg) (start_reception-Frame fr place placed))
