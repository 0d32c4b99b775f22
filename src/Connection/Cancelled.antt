-- ===== src/Connection/Cancelled.antt =====
-- performFileTransfer (pkg/webrtc/connection.go) under a context that is done.
use lan_file_share.Common.{◌≡◌, ◌≢◌, refl, sym, ap, ◌∙◌, subst, ℕ, zero, suc, some, string_eq, []}
use lan_file_share.Common.Int.{pos, ◌<ℤ◌}
use lan_file_share.Common.Maps.{lookup}
use lan_file_share.Errors.{Error}
use lan_file_share.FileNode.{FileNode, info}
use lan_file_share.FileStructure.{get_file}
use lan_file_share.Chunker.{FileSystem, Chunker}
use lan_file_share.Connection.{
  World, Sender, done, out_of_fuel, after_chunks, transfer_round, transfer_file_chunks,
  handle_transfer_failure, transfer_file, perform_file_transfer,
}
use lan_file_share.Connection.Attempts.{Keeps, start-InTransfer, fail-Keeps}
use lan_file_share.Connection.Pending.{
  AllReady, AllReady-same, get_next_pending_file_found, started, transfer_file_ready,
}
use lan_file_share.Retry.Handler.{recoverable, categorize_error}
use lan_file_share.Session.{Float64}

module _ (fl : Float64) (fs : FileSystem) (w : World) (e : Error)
    (cancelled : (t : ℕ) → w.cancelled t ≡ some e)
    (recovers : categorize_error (some e) ≡ recoverable) where
  abbrev Session : Type 0
  Session = Sender fl.Float fs.File

  -- The round of a file comes to nothing: it is pending as before.
  attempt :
      (fuel : ℕ) (s : Session) (n : FileNode) (c : Chunker fs.File)
      → get_file s.utm.structure (info n).path ≡ some n
      → lookup (info n).path s.utm.chunkers ≡ some c
      → pos 1 <ℤ s.utm.policy.max_retries
      → let (s', ending) = transfer_file fl fs w (suc fuel) s n in
        (ending ≡ done) × Keeps (info n).path s.utm s'.utm × (s'.utm.chunkers ≡ s.utm.chunkers)
  unfolding transfer_file_chunks transfer_round handle_transfer_failure after_chunks
  attempt fuel s n c found opened allowed =
      let path = (info n).path in
      let start = start-InTransfer fl path s.utm n (w.clock s.tick) found in
      let failed =
        fail-Keeps fl path s.utm (started fl w s path).utm start.1 (w.clock (suc s.tick)) e recovers
          allowed in
      rw
        (
          transfer_file_ready fl fs w (suc fuel) s n c found opened,
          transfer_file_chunks,
          cancelled (suc s.tick),
        )
        (refl, failed.0, failed.1 ∙ start.2)

  -- While its context is done, as when it was cancelled, the sending of files with any file pending goes
  -- on for ever: whatever the fuel, it runs out. This holds where each pending file can be sent, the
  -- context's error is recoverable and the retry limit is more than 1.
  pub perform_file_transfer-cancelled :
      (fuel chunk_fuel : ℕ) (s : Session)
      → AllReady s.utm
      → s.utm.queues.pending_files ≢ []
      → pos 1 <ℤ s.utm.policy.max_retries
      → (perform_file_transfer fl fs w fuel (suc chunk_fuel) s).1 ≡ out_of_fuel
  unfolding perform_file_transfer
  perform_file_transfer-cancelled zero chunk_fuel s all waits allowed = refl
  perform_file_transfer-cancelled (suc fuel) chunk_fuel s all waits allowed =
      let (path, has_path, first) = get_next_pending_file_found (w.range s.tick) s.utm waits in
      let r = all path has_path in
      let next = first ∙ r.found in
      let found = subst (λ p. get_file s.utm.structure p ≡ some r.file) (sym r.named) r.found in
      let opened = subst (λ p. lookup p s.utm.chunkers ≡ some r.chunker) (sym r.named) r.opened in
      let (goes_on, keeps, chunkers) = attempt chunk_fuel s r.file r.chunker found opened allowed in
      let s' = (transfer_file fl fs w (suc chunk_fuel) s r.file).0 in
      rw (perform_file_transfer, next, goes_on)
        (perform_file_transfer-cancelled fuel chunk_fuel s'
          (AllReady-same s.utm s'.utm keeps.queues keeps.structure chunkers all)
          (λ none_left. waits (ap (λ q. q.pending_files) (sym keeps.queues) ∙ none_left))
          (subst (λ p. pos 1 <ℤ p.max_retries) (sym keeps.policy) allowed))
