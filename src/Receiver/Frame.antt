-- ===== src/Receiver/Frame.antt =====
-- What ProcessChunk (pkg/receiver/file_receiver.go) of a message leaves alone: the receptions of other files
-- and what stands at other paths.
pub mod Messages
use lan_file_share.Common.{
  ℕ, ◌≡◌, ◌≢◌, refl, sym, ap, ◌∙◌, arith, Bool, true, false, Bool-cases, inl, inr, String,
  string_eq, Option, Option-cases, none, some, List, [], ◌==◌, nat_eq, if◌then◌else◌, if_each,
}
use lan_file_share.Common.Int.{pos, add64, leb_ℤ}
use lan_file_share.Common.Sets.{has}
use lan_file_share.Common.Maps.{
  lookup, insert, delete, is_some, lookup-insert, lookup-insert_self, lookup-delete,
}
use lan_file_share.Common.Text.{text_eq}
use lan_file_share.Errors.{Error}
use lan_file_share.Protocol.{ChunkMessage}
use lan_file_share.Receiver.{
  transfer_finished, FileReceiver, FileReception, System, Outcome, UiMessage, tell, file_verified,
  verifying_file, verifying, failed, completed, start_reception, write_bytes, write_chunk_at_offset,
  seek_error, verify_file_integrity, cleanup_corrupted_file, finish_reception, after_verification,
  close_error, complete_file, count_completed, then_count, check_complete, then_check,
  write_and_check, then_write, process_message,
}
use lan_file_share.Receiver.Paths.{output_path}

-- Only the reception under the ID and the file at the path may differ.
pub record Frame (id : String) (path : List ℕ) (fr fr' : FileReceiver) : Type 0 where
  pub dir : fr'.output_dir ≡ fr.output_dir
  pub files : (j : String) → id ≢ j → lookup j fr'.current_files ≡ lookup j fr.current_files
  pub disk : (q : List ℕ) → path ≢ q → lookup q fr'.disk ≡ lookup q fr.disk
  -- A reception under the ID writes to the path.
  pub placed : (r : FileReception) → lookup id fr'.current_files ≡ some r → r.output_path ≡ path

pub transitive-Frame :
    (id : String) (path : List ℕ) (a b c : FileReceiver)
    → Frame id path a b
    → Frame id path b c
    → Frame id path a c
transitive-Frame id path a b c v w = record {
  dir = w.dir ∙ v.dir;
  files = λ j differ. w.files j differ ∙ v.files j differ;
  disk = λ q differ. w.disk q differ ∙ v.disk q differ;
  placed = w.placed;
}

module _ (sys : System) (id : String) (path : List ℕ) where
  abbrev pub Placed : FileReceiver → Type 0
  Placed fr = (r : FileReception) → lookup id fr.current_files ≡ some r → r.output_path ≡ path

  -- No reception changes.
  pub same-Frame :
      (fr fr' : FileReceiver)
      → Placed fr
      → fr'.output_dir ≡ fr.output_dir
      → fr'.current_files ≡ fr.current_files
      → ((q : List ℕ) → path ≢ q → lookup q fr'.disk ≡ lookup q fr.disk)
      → Frame id path fr fr'
  same-Frame fr fr' placed dir files disk = record {
    dir = dir;
    files = λ j differ. ap (lookup j) files;
    disk = disk;
    placed = λ r e. placed r (sym (ap (lookup id) files) ∙ e);
  }

  -- A reception of the path is put under the ID.
  pub put-Frame :
      (fr fr' : FileReceiver) (r : FileReception)
      → r.output_path ≡ path
      → fr'.output_dir ≡ fr.output_dir
      → fr'.current_files ≡ insert id r fr.current_files
      → ((q : List ℕ) → path ≢ q → lookup q fr'.disk ≡ lookup q fr.disk)
      → Frame id path fr fr'
  put-Frame fr fr' r place dir files disk = record {
    dir = dir;
    files = λ j differ.
        ap (lookup j) files
        ∙ ground (arith, lookup-insert id j r fr.current_files, differ, string_eq.beq_iff id j);
    disk = disk;
    placed = λ r' e.
        ground (arith, ap (lookup id) files, e, place, lookup-insert_self id r fr.current_files);
  }

  -- The reception under the ID is dropped.
  pub drop-Frame :
      (fr fr' : FileReceiver)
      → fr'.output_dir ≡ fr.output_dir
      → fr'.current_files ≡ delete id fr.current_files
      → fr'.disk ≡ fr.disk
      → Frame id path fr fr'
  drop-Frame fr fr' dir files disk = record {
    dir = dir;
    files = λ j differ.
        ap (lookup j) files
        ∙ ground (arith, lookup-delete id j fr.current_files, differ, string_eq.beq_iff id j);
    disk = λ q differ. ap (lookup q) disk;
    placed = λ r' e. ground (
      arith,
      ap (lookup id) files,
      e,
      lookup-delete id id fr.current_files,
      string_eq.beq_iff id id,
    );
  }

  pub insert_elsewhere :
      (p content : List ℕ) (fr : FileReceiver)
      → p ≡ path
      → (q : List ℕ) → path ≢ q
      → lookup q (insert p content fr.disk) ≡ lookup q fr.disk
  insert_elsewhere p content fr e q differ =
      ground (arith, lookup-insert p q content fr.disk, differ, e, text_eq.beq_iff p q)

  pub delete_elsewhere :
      (p : List ℕ) (fr : FileReceiver)
      → p ≡ path
      → (q : List ℕ) → path ≢ q
      → lookup q (delete p fr.disk) ≡ lookup q fr.disk
  delete_elsewhere p fr e q differ =
      ground (arith, lookup-delete p q fr.disk, differ, e, text_eq.beq_iff p q)

  cleanup_corrupted_file-Frame :
      (fr : FileReceiver) (r : FileReception)
      → r.output_path ≡ path
      → Placed fr
      → Frame id path fr (cleanup_corrupted_file sys fr r)
  unfolding cleanup_corrupted_file
  cleanup_corrupted_file-Frame fr r place placed = elim (Bool-cases (r.output_path == [])) [
    | inl e ↦ rw (cleanup_corrupted_file, e) (same-Frame fr fr placed refl refl (λ q differ. refl))
    | inr e ↦ elim (Option-cases (sys.remove r.output_path)) [
      | inl fine ↦
          rw (cleanup_corrupted_file, e, fine)
            (same-Frame fr (record fr { disk = delete r.output_path fr.disk }) placed refl refl
              (delete_elsewhere r.output_path fr place))
      | inr (x, bad) ↦
          rw (cleanup_corrupted_file, e, bad) (same-Frame fr fr placed refl refl (λ q differ. refl))
    ]
  ]

  finish_reception-Frame :
      (fr : FileReceiver) (r : FileReception)
      → r.output_path ≡ path
      → Frame id path fr (finish_reception fr id r).0
  unfolding finish_reception
  finish_reception-Frame fr r place =
      put-Frame fr (finish_reception fr id r).0
        (record r { status = completed; is_complete = true }) place refl refl (λ q differ. refl)

  put_status-Frame :
      (fr : FileReceiver) (r : FileReception)
      → r.output_path ≡ path
      → Frame id path fr (record fr { current_files = insert id r fr.current_files })
  put_status-Frame fr r place =
      put-Frame fr (record fr { current_files = insert id r fr.current_files }) r place refl refl
        (λ q differ. refl)

  tell-Frame :
      (fr fr' : FileReceiver) (said : List UiMessage)
      → Frame id path fr fr'
      → Frame id path fr (record fr' { ui_messages = said })
  tell-Frame fr fr' said v = record {
    dir = v.dir;
    files = v.files;
    disk = v.disk;
    placed = v.placed;
  }

  ask-Frame :
      (fr fr' : FileReceiver) (said : List UiMessage)
      → Frame id path (record fr { ui_messages = said }) fr'
      → Frame id path fr fr'
  ask-Frame fr fr' said v = record {
    dir = v.dir;
    files = v.files;
    disk = v.disk;
    placed = v.placed;
  }

  after_verification-Frame :
      (fr : FileReceiver) (r : FileReception) (answer : Option Error)
      → r.output_path ≡ path
      → Frame id path fr (after_verification sys fr id r answer).0
  unfolding after_verification
  after_verification-Frame fr r none place =
      ask-Frame fr (after_verification sys fr id r none).0 _
        (finish_reception-Frame (tell fr (file_verified r.file_name)) r place)
  after_verification-Frame fr r (some e) place =
      let r' = record r { status = failed; verification_err = some e } in
      let put = record fr { current_files = insert id r' fr.current_files } in
      let noted = put_status-Frame fr r' place in
      tell-Frame fr (cleanup_corrupted_file sys put r') _ (
        transitive-Frame id path fr put (cleanup_corrupted_file sys put r') noted
          (cleanup_corrupted_file-Frame put r' place noted.placed))

  complete_file-Frame :
      (fr : FileReceiver) (r : FileReception)
      → r.output_path ≡ path
      → Frame id path fr (complete_file sys fr id r).0
  unfolding complete_file
  complete_file-Frame fr r place = elim (Option-cases (close_error sys r)) [
    | inr (e, bad) ↦
        rw (complete_file, bad) (put_status-Frame fr (record r { status = failed }) place)
    | inl fine ↦ elim (Bool-cases (r.expected_hash == "")) [
      | inl unhashed ↦
          rw (complete_file, fine, unhashed)
            (finish_reception-Frame fr (record r { is_open = false }) place)
      | inr hashed ↦
          let r' = record r { is_open = false; status = verifying } in
          let put = record fr { current_files = insert id r' fr.current_files } in
          let fr' = tell put (verifying_file r.file_name) in
          rw (complete_file, fine, hashed)
            (transitive-Frame id path fr fr' _ (tell-Frame fr put _ (put_status-Frame fr r' place))
              (after_verification-Frame fr' r' (verify_file_integrity sys fr' r') place))
    ]
  ]

  count_completed-Frame : (fr : FileReceiver) → Frame id path fr (count_completed fr id)
  unfolding count_completed
  count_completed-Frame fr =
      if_each (Frame id path fr) _ _ _
        (drop-Frame fr
          (tell
            (record fr {
              current_files = delete id fr.current_files;
              completed_files = add64 fr.completed_files (pos 1);
              session_complete = true;
            })
            transfer_finished)
          refl refl refl)
        (drop-Frame fr
          (record fr {
            current_files = delete id fr.current_files;
            completed_files = add64 fr.completed_files (pos 1);
          })
          refl refl refl)

  then_count-Frame :
      (fr : FileReceiver) (o : Outcome)
      → Frame id path fr o.0
      → Frame id path fr (then_count o id).0
  then_count-Frame fr (fr', some e) v = v
  then_count-Frame fr (fr', none) v =
      transitive-Frame id path fr fr' _ v (count_completed-Frame fr')

  pub check_complete-Frame :
      (fr : FileReceiver) (o : Option FileReception)
      → lookup id fr.current_files ≡ o
      → Placed fr
      → Frame id path fr (check_complete sys fr id o).0
  unfolding check_complete
  check_complete-Frame fr none found placed = same-Frame fr fr placed refl refl (λ q differ. refl)
  check_complete-Frame fr (some r) found placed =
      if_each (λ (o : Outcome). Frame id path fr o.0) (leb_ℤ r.total_size r.received_size) _ _
        (then_count-Frame fr (complete_file sys fr id r)
          (complete_file-Frame fr r (placed r found)))
        (same-Frame fr fr placed refl refl (λ q differ. refl))
