-- ===== src/Connection/Refused.antt =====
-- performFileTransfer (pkg/webrtc/connection.go) when the channel refuses every message: the chunker, kept
-- by the manager from one attempt to the next, is read to its end.
use lan_file_share.Common.{
  ◌≡◌, ◌≢◌, ◌+◌, ◌≤◌, ◌<◌, refl, sym, ap, ◌∙◌, subst, arith, ℕ, inl, inr, Option-cases, zero, suc,
  true, String, none, some, string_eq, List, [], ◌∷◌, length, length-append,
}
use native.Mathlib.Decide.{ℕ_discrete}
use lan_file_share.Common.Int.{pos, ◌<ℤ◌}
use lan_file_share.Common.Maps.{lookup, lookup-insert_self}
use lan_file_share.Common.Sets.{has, remove, has-add}
use lan_file_share.Errors.{Error}
use lan_file_share.FileNode.{FileNode, info}
use lan_file_share.FileStructure.{get_file}
use lan_file_share.Chunker.{FileSystem, Chunk, Chunker}
use lan_file_share.Chunker.Progress.{IsHealthy, Fits, HasNext, next-HasNext, next_done, length_zero}
use lan_file_share.Connection.{
  World, Sender, done, chunk_message, send_failure, with_chunker, handle_transfer_failure,
  after_chunks, transfer_file, perform_file_transfer,
}
use lan_file_share.Connection.Rounds.{loop_ends, loop_stops}
use lan_file_share.Connection.Attempts.{
  Keeps, start-InTransfer, with_chunker-InTransfer, fail-Keeps, complete-moves,
}
use lan_file_share.Connection.Pending.{started, transfer_file_ready, get_next_pending_file_empty}
use lan_file_share.Protocol.{ChunkMessage}
use lan_file_share.Queue.{
  Queues, MapRange, get_first_pending_file, pending, completed, move_file_in_queue,
}
use lan_file_share.Manager.{UnifiedTransferManager, get_next_pending_file}
use lan_file_share.Retry.Handler.{recoverable, categorize_error}
use lan_file_share.Session.{Float64}

cons_nil {ℓ} : {A : Type ℓ} {x : A} {xs : List A} → x ∷ xs ≢ []
cons_nil e = cc

has_only : (only p : String) → has (only ∷ []) p ≡ true → only ≡ p
unfolding has
has_only only p h = ground (arith, string_eq.beq_iff only p)

module _ (fl : Float64) (fs : FileSystem) (w : World) (e : Error) (n : FileNode)
    (uncancelled : (t : ℕ) → w.cancelled t ≡ none)
    (refused : (t : ℕ) (msg : ChunkMessage) → w.refuses t msg ≡ some e)
    (healthy : IsHealthy fs) where
  abbrev Session : Type 0
  Session = Sender fl.Float fs.File

  abbrev path : String
  path = (info n).path

  -- A round with bytes ahead reads a chunk and loses it.
  attempt_more :
      (fuel : ℕ) (s : Session) (c c' : Chunker fs.File) (off : ℕ) (ch : Chunk)
      → HasNext fs c off c' ch
      → get_file s.utm.structure path ≡ some n
      → lookup path s.utm.chunkers ≡ some c
      → categorize_error (some (send_failure ch.sequence_no e)) ≡ recoverable
      → pos 1 <ℤ s.utm.policy.max_retries
      → let (s', ending) = transfer_file fl fs w (suc fuel) s n in
        (ending ≡ done)
        × Keeps path s.utm s'.utm
        × (lookup path s'.utm.chunkers ≡ some c')
        × (s'.sent ≡ s.sent)
  unfolding handle_transfer_failure after_chunks
  attempt_more fuel s c c' off ch x found opened recovers allowed =
      let start = start-InTransfer fl path s.utm n (w.clock s.tick) found in
      let u = (started fl w s path).utm in
      let v = with_chunker-InTransfer path s.utm u c' start.1 in
      let failed =
        fail-Keeps fl path s.utm (with_chunker fl fs w (started fl w s path) path c').utm v
          (w.clock (suc (suc s.tick))) (send_failure ch.sequence_no e) recovers allowed in
      let s1 = started fl w s path in
      let stops =
        loop_stops fl fs w fuel s1 n c c' (pos 0) (uncancelled s1.tick) ch e x.steps
          (refused s1.tick (chunk_message (w.session s1.tick) n ch)) in
      rw (transfer_file_ready fl fs w (suc fuel) s n c found opened, stops)
        (refl, failed.0, ap (lookup path) failed.1 ∙ lookup-insert_self path c' u.chunkers, refl)

  -- A round with none ahead completes the file.
  attempt_end :
      (fuel : ℕ) (s : Session) (c : Chunker fs.File) (off : ℕ)
      → Fits fs c off
      → fs.unread c.file ≡ []
      → get_file s.utm.structure path ≡ some n
      → lookup path s.utm.chunkers ≡ some c
      → let (s', ending) = transfer_file fl fs w (suc fuel) s n in
        (ending ≡ done)
        × (s'.utm.queues ≡ (move_file_in_queue s.utm.queues path pending completed).0)
        × (s'.sent ≡ s.sent)
  unfolding after_chunks
  attempt_end fuel s c off v empty found opened =
      let start = start-InTransfer fl path s.utm n (w.clock s.tick) found in
      let u = (started fl w s path).utm in
      let v' = with_chunker-InTransfer path s.utm u c start.1 in
      let moved =
        complete-moves fl path s.utm (with_chunker fl fs w (started fl w s path) path c).utm v'
          (w.clock (suc s.tick)) in
      let s1 = started fl w s path in
      let ends =
        loop_ends fl fs w fuel s1 n c c (pos 0) (uncancelled s1.tick)
          (next_done fs c off v empty) in
      rw (transfer_file_ready fl fs w (suc fuel) s n c found opened, ends) (refl, moved.0, refl)

  only_key : (range : MapRange) → range.first_key (path ∷ []) ≡ some path
  only_key range = elim (Option-cases (range.first_key (path ∷ []))) [
    | inl nothing ↦ absurd (cons_nil (range.first_key-none (path ∷ []) nothing))
    | inr (p, found) ↦
        found ∙ ap some (sym (has_only path p (range.first_key-has (path ∷ []) p found)))
  ]

  next_only :
      (range : MapRange) (u : UnifiedTransferManager fl.Float fs.File)
      → u.queues.pending_files ≡ path ∷ []
      → get_file u.structure path ≡ some n
      → get_next_pending_file range u ≡ some n
  unfolding get_next_pending_file get_first_pending_file
  next_only range u only found = rw (get_next_pending_file, only, only_key range) found

  settled :
      (q : Queues)
      → q.pending_files ≡ path ∷ []
      → let q' = (move_file_in_queue q path pending completed).0 in
        (q'.pending_files ≡ []) × (has q'.completed_files path ≡ true)
  unfolding move_file_in_queue has remove
  settled q only =
      ground (arith, only, string_eq.beq_iff path path, has-add path path q.completed_files)

  -- Where the channel refuses every message with an error that is recoverable once wrapped, and the retry
  -- limit is more than 1: if exactly one file is pending, in the structure and with a chunker, the sending
  -- of files ends without an error, no message having been sent, and the file is not pending any more but
  -- completed. Of the file, its chunker's offset, its size and the bytes ahead of it agree, in fewer than
  -- 2^63 bytes, no read fails before the end, the chunk size is above 0, and the number of chunks read and
  -- the bytes ahead add up to less than 2^32; the context is not done, and the rounds that the fuel allows
  -- are more than the bytes ahead and one.
  pub perform_file_transfer-refused :
      (fuel chunk_fuel : ℕ) (s : Session) (c : Chunker fs.File) (off : ℕ)
      → Fits fs c off
      → length (fs.unread c.file) < fuel
      → s.utm.queues.pending_files ≡ path ∷ []
      → get_file s.utm.structure path ≡ some n
      → lookup path s.utm.chunkers ≡ some c
      → ((k : ℕ)
          → k ≤ c.current_seq + length (fs.unread c.file)
          → categorize_error (some (send_failure k e)) ≡ recoverable)
      → pos 1 <ℤ s.utm.policy.max_retries
      → let (s', ending) = perform_file_transfer fl fs w (suc fuel) (suc chunk_fuel) s in
        (ending ≡ done)
        × (s'.sent ≡ s.sent)
        × (s'.utm.queues.pending_files ≡ [])
        × (has s'.utm.queues.completed_files path ≡ true)
  unfolding perform_file_transfer
  perform_file_transfer-refused zero chunk_fuel s c off v enough only found opened recovers
        allowed =
      absurd (omega arith)
  perform_file_transfer-refused (suc fuel) chunk_fuel s c off v enough only found opened recovers
        allowed =
      let next = next_only (w.range s.tick) s.utm only found in
      let s' = (transfer_file fl fs w (suc chunk_fuel) s n).0 in
      elim (ℕ_discrete (length (fs.unread c.file)) 0) [
        | yes none_left ↦
            let (goes_on, queues, sent) =
              attempt_end chunk_fuel s c off v (length_zero (fs.unread c.file) none_left) found
                opened in
            let (empty, completed_it) = settled s.utm.queues only in
            let stops =
              get_next_pending_file_empty (w.range s'.tick) s'.utm
                (ap (λ q. q.pending_files) queues ∙ empty) in
            rw (perform_file_transfer, next, goes_on, stops)
              (
                refl,
                sent,
                ap (λ q. q.pending_files) queues ∙ empty,
                subst (λ q. has q.completed_files path ≡ true) (sym queues) completed_it,
              )
        | no more ↦
            let (c', (ch, x)) = next-HasNext fs healthy c off v (omega arith) in
            let size = ap length x.reads ∙ length-append ch.bytes (fs.unread c'.file) in
            let (goes_on, keeps, opened', sent) =
              attempt_more chunk_fuel s c c' off ch x found opened
                (recovers ch.sequence_no (omega (arith, x.numbered))) allowed in
            let rest =
              perform_file_transfer-refused fuel chunk_fuel s' c' (off + length ch.bytes) x.fits
                (omega (arith, size, x.nonempty)) (ap (λ q. q.pending_files) keeps.queues ∙ only)
                (ap (λ f. get_file f path) keeps.structure ∙ found) opened'
                (λ k h. recovers k (omega (arith, size, x.nonempty, x.counted)))
                (subst (λ p. pos 1 <ℤ p.max_retries) (sym keeps.policy) allowed) in
            rw (perform_file_transfer, next, goes_on) (rest.0, rest.1 ∙ sent, rest.2, rest.3)
      ]
