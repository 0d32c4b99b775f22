-- ===== src/Receiver/Announced.antt =====
-- How often ProcessChunk (pkg/receiver/file_receiver.go) says that the transfer is finished.
use lan_file_share.Common.{
  false-true, ℕ, ◌≡◌, ◌+◌, refl, ap, sym, ◌∙◌, arith, Bool, true, false, not, ◌&&◌, Bool-cases, inl,
  inr, String, Option, Option-cases, none, some, List, [], ◌∷◌, ◌++◌, ◌==◌, nat_eq, string_eq,
  if◌then◌else◌,
}
use lan_file_share.Common.Int.{ℤ, pos, add64, leb_ℤ, ltb_ℤ}
use lan_file_share.Common.Maps.{lookup, is_some}
use lan_file_share.Common.Sets.{has}
use lan_file_share.Common.Text.{text_eq}
use lan_file_share.Errors.{Error, Result, ok, err}
use lan_file_share.Protocol.{ChunkMessage}
use lan_file_share.Receiver.{
  transfer_finished, receiving_file, verifying_file, file_verified, reception_completed,
  verification_failed, FileReceiver, FileReception, System, Outcome, UiMessage, tell, put,
  start_reception, write_bytes, write_chunk_at_offset, seek_error, cleanup_corrupted_file,
  finish_reception, after_verification, close_error, complete_file, count_completed, then_count,
  check_complete, then_check, write_and_check, then_write, process_message, process_chunk,
  verifying, failed,
}
use lan_file_share.Receiver.Paths.{output_path}

abbrev pub announcements : List UiMessage → ℕ
announcements [] = 0
announcements (transfer_finished ∷ ms) = 1 + announcements ms
announcements (m ∷ ms) = announcements ms

announcements-append :
    (ms ns : List UiMessage) → announcements (ms ++ ns) ≡ announcements ms + announcements ns
announcements-append [] ns = omega arith
announcements-append (transfer_finished ∷ ms) ns = omega (arith, announcements-append ms ns)
announcements-append (receiving_file f ∷ ms) ns = announcements-append ms ns
announcements-append (verifying_file f ∷ ms) ns = announcements-append ms ns
announcements-append (file_verified f ∷ ms) ns = announcements-append ms ns
announcements-append (reception_completed f ∷ ms) ns = announcements-append ms ns
announcements-append (verification_failed f e ∷ ms) ns = announcements-append ms ns

-- Nothing of the session changes.
record Stays (fr fr' : FileReceiver) : Type 0 where
  expected : fr'.expected_files ≡ fr.expected_files
  complete : fr'.session_complete ≡ fr.session_complete
  announced : announcements fr'.ui_messages ≡ announcements fr.ui_messages

stays : (fr : FileReceiver) → Stays fr fr
stays fr = record { expected = refl; complete = refl; announced = refl }

transitive-Stays : (a b c : FileReceiver) → Stays a b → Stays b c → Stays a c
transitive-Stays a b c v w = record {
  expected = w.expected ∙ v.expected;
  complete = w.complete ∙ v.complete;
  announced = w.announced ∙ v.announced;
}

tell-Stays :
    (fr fr' : FileReceiver) (m : UiMessage)
    → Stays fr fr'
    → announcements (m ∷ []) ≡ 0
    → Stays fr (tell fr' m)
tell-Stays fr fr' m v e = record {
  expected = v.expected;
  complete = v.complete;
  announced = omega (arith, announcements-append fr'.ui_messages (m ∷ []), e, v.announced);
}

-- Announced exactly once if the session was completed, which it was only if files were expected.
pub record IsHonest (expected : ℤ) (fr : FileReceiver) : Type 0 where
  pub expects : fr.expected_files ≡ expected
  pub once : announcements fr.ui_messages ≡ (if fr.session_complete then 1 else 0)
  pub asked : ltb_ℤ (pos 0) expected ≡ false → fr.session_complete ≡ false

both : (a b c : Bool) → (a && (b && not c)) ≡ true → (a ≡ true) × (c ≡ false)
both a b c h = ground (arith, h)

module _ (sys : System) where
  start_reception-Stays :
      (fr : FileReceiver) (msg : ChunkMessage) → Stays fr (start_reception sys fr msg).0
  unfolding start_reception
  start_reception-Stays fr msg = elim (Option-cases (output_path fr.output_dir msg.file_name)) [
    | inl bad ↦ rw (start_reception, bad) (stays fr)
    | inr (path, found) ↦ elim (Option-cases (sys.create path)) [
      | inl fine ↦
          rw (start_reception, found, fine)
            (tell-Stays fr _ (receiving_file msg.file_name)
              (record { expected = refl; complete = refl; announced = refl }) refl)
      | inr (e, bad) ↦ rw (start_reception, found, bad) (stays fr)
    ]
  ]

  write_bytes-Stays :
      (fr : FileReceiver) (r : FileReception) (msg : ChunkMessage)
      → Stays fr (write_bytes sys fr r msg).0
  unfolding write_bytes
  write_bytes-Stays fr r msg = elim (Option-cases (sys.write r.output_path msg.offset msg.bytes)) [
    | inl fine ↦
        rw (write_bytes, fine) (record { expected = refl; complete = refl; announced = refl })
    | inr ((n, e), bad) ↦
        rw (write_bytes, bad) (record { expected = refl; complete = refl; announced = refl })
  ]

  write_chunk_at_offset-Stays :
      (fr : FileReceiver) (r : FileReception) (msg : ChunkMessage)
      → Stays fr (write_chunk_at_offset sys fr r msg).0
  unfolding write_chunk_at_offset
  write_chunk_at_offset-Stays fr r msg = elim (Bool-cases (has r.received_chunks msg.sequence_no)) [
    | inl again ↦ rw (write_chunk_at_offset, again) (stays fr)
    | inr fresh ↦ elim (Option-cases (seek_error sys r msg.offset)) [
      | inl fine ↦ rw (write_chunk_at_offset, fresh, fine) (write_bytes-Stays fr r msg)
      | inr (e, bad) ↦ rw (write_chunk_at_offset, fresh, bad) (stays fr)
    ]
  ]

  cleanup_corrupted_file-Stays :
      (fr : FileReceiver) (r : FileReception) → Stays fr (cleanup_corrupted_file sys fr r)
  unfolding cleanup_corrupted_file
  cleanup_corrupted_file-Stays fr r = elim (Bool-cases (r.output_path == [])) [
    | inl empty ↦ rw (cleanup_corrupted_file, empty) (stays fr)
    | inr path ↦ elim (Option-cases (sys.remove r.output_path)) [
      | inl fine ↦
          rw (cleanup_corrupted_file, path, fine)
            (record { expected = refl; complete = refl; announced = refl })
      | inr (e, bad) ↦ rw (cleanup_corrupted_file, path, bad) (stays fr)
    ]
  ]

  after_verification-Stays :
      (fr : FileReceiver) (id : String) (r : FileReception) (e : Option Error)
      → Stays fr (after_verification sys fr id r e).0
  unfolding after_verification finish_reception
  after_verification-Stays fr id r none =
      let told = tell-Stays fr fr (file_verified r.file_name) (stays fr) refl in
      tell-Stays fr _ (reception_completed r.file_name)
        (record { expected = refl; complete = refl; announced = told.announced }) refl
  after_verification-Stays fr id r (some e) =
      let r' = record r { status = failed; verification_err = some e } in
      let cleaned = cleanup_corrupted_file-Stays (put fr id r') r' in
      tell-Stays fr (cleanup_corrupted_file sys (put fr id r') r')
        (verification_failed r.file_name e)
        (record {
          expected = cleaned.expected;
          complete = cleaned.complete;
          announced = cleaned.announced;
        })
        refl

  complete_file-Stays :
      (fr : FileReceiver) (id : String) (r : FileReception) → Stays fr (complete_file sys fr id r).0
  unfolding complete_file finish_reception
  complete_file-Stays fr id r = elim (Option-cases (close_error sys r)) [
    | inr (e, bad) ↦
        rw (complete_file, bad) (record { expected = refl; complete = refl; announced = refl })
    | inl fine ↦ elim (Bool-cases (r.expected_hash == "")) [
      | inl unhashed ↦
          rw (complete_file, fine, unhashed)
            (tell-Stays fr _ (reception_completed r.file_name)
              (record { expected = refl; complete = refl; announced = refl }) refl)
      | inr hashed ↦
          rw (complete_file, fine, hashed)
            (transitive-Stays fr _ _
              (tell-Stays fr _ (verifying_file r.file_name)
                (record { expected = refl; complete = refl; announced = refl }) refl)
              (after_verification-Stays _ id (record r { is_open = false; status = verifying }) _))
    ]
  ]

  count_completed-IsHonest :
      (n : ℤ) (fr : FileReceiver) (id : String) → IsHonest n fr → IsHonest n (count_completed fr id)
  unfolding count_completed
  count_completed-IsHonest n fr id v =
      let last =
        ltb_ℤ (pos 0) fr.expected_files
        && (leb_ℤ fr.expected_files (add64 fr.completed_files (pos 1))
            && not fr.session_complete) in
      elim (Bool-cases last) [
        | inr more ↦
            rw (count_completed, more)
              (record { expects = v.expects; once = v.once; asked = v.asked })
        | inl ends ↦
            let (some_expected, unsaid) = both _ _ fr.session_complete ends in
            rw (count_completed, ends)
              (record {
                expects = v.expects;
                once = omega (
                  arith,
                  announcements-append fr.ui_messages (transfer_finished ∷ []),
                  v.once ∙ ap (λ b. if b then 1 else 0) unsaid,
                );
                asked = λ no.
                    absurd
                      (false-true (sym no ∙ (ap (ltb_ℤ (pos 0)) (sym v.expects) ∙ some_expected)));
              })
      ]

  Stays-IsHonest : (n : ℤ) (fr fr' : FileReceiver) → Stays fr fr' → IsHonest n fr → IsHonest n fr'
  Stays-IsHonest n fr fr' s v = record {
    expects = s.expected ∙ v.expects;
    once = s.announced ∙ (v.once ∙ ap (λ b. if b then 1 else 0) (sym s.complete));
    asked = λ no. s.complete ∙ v.asked no;
  }

  module _ (n : ℤ) where
    then_count-IsHonest :
        (o : Outcome) (id : String) → IsHonest n o.0 → IsHonest n (then_count o id).0
    then_count-IsHonest (fr, none) id v = count_completed-IsHonest n fr id v
    then_count-IsHonest (fr, some e) id v = v

    check_complete-IsHonest :
        (fr : FileReceiver) (id : String) (r : Option FileReception)
        → IsHonest n fr
        → IsHonest n (check_complete sys fr id r).0
    unfolding check_complete
    check_complete-IsHonest fr id none v = v
    check_complete-IsHonest fr id (some r) v =
        elim (Bool-cases (leb_ℤ r.total_size r.received_size)) [
          | inl all ↦
              rw (check_complete, all)
                (then_count-IsHonest (complete_file sys fr id r) id
                  (Stays-IsHonest n fr _ (complete_file-Stays fr id r) v))
          | inr less ↦ rw (check_complete, less) v
        ]

    then_check-IsHonest :
        (o : Outcome) (id : String) → IsHonest n o.0 → IsHonest n (then_check sys o id).0
    then_check-IsHonest (fr, none) id v =
        check_complete-IsHonest fr id (lookup id fr.current_files) v
    then_check-IsHonest (fr, some e) id v = v

    write_and_check-IsHonest :
        (fr : FileReceiver) (msg : ChunkMessage) (r : Option FileReception)
        → IsHonest n fr
        → IsHonest n (write_and_check sys fr msg r).0
    unfolding write_and_check
    write_and_check-IsHonest fr msg none v = v
    write_and_check-IsHonest fr msg (some r) v =
        then_check-IsHonest (write_chunk_at_offset sys fr r msg) msg.file_id
          (Stays-IsHonest n fr _ (write_chunk_at_offset-Stays fr r msg) v)

    then_write-IsHonest :
        (o : Outcome) (msg : ChunkMessage) → IsHonest n o.0 → IsHonest n (then_write sys o msg).0
    then_write-IsHonest (fr, none) msg v = write_and_check-IsHonest fr msg _ v
    then_write-IsHonest (fr, some e) msg v = v

    process_message-IsHonest :
        (fr : FileReceiver) (msg : ChunkMessage)
        → IsHonest n fr
        → IsHonest n (process_message sys fr msg).0
    unfolding process_message
    process_message-IsHonest fr msg v =
        elim (Bool-cases (is_some (lookup msg.file_id fr.current_files))) [
          | inl known ↦ rw (process_message, known) (write_and_check-IsHonest fr msg _ v)
          | inr new ↦
              rw (process_message, new)
                (then_write-IsHonest (start_reception sys fr msg) msg
                  (Stays-IsHonest n fr _ (start_reception-Stays fr msg) v))
        ]

    pub process_chunk-IsHonest :
        (unmarshal : List ℕ → Result ChunkMessage) (fr : FileReceiver) (text : List ℕ)
        (read : Result ChunkMessage)
        → unmarshal text ≡ read
        → IsHonest n fr
        → IsHonest n (process_chunk unmarshal sys fr text).0
    unfolding process_chunk
    process_chunk-IsHonest unmarshal fr text (ok msg) good v =
        rw (process_chunk, good) (process_message-IsHonest fr msg v)
    process_chunk-IsHonest unmarshal fr text (err e) bad v = rw (process_chunk, bad) v
