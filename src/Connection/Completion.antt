-- ===== src/Connection/Completion.antt =====
-- performFileTransfer (pkg/webrtc/connection.go) with files that can be read, while the context is not done
-- and the channel takes every message.
use mathlib.Core.List.Memᴰ
use lan_file_share.Common.{
  ◌≡◌, ◌+◌, ◌<◌, ◌^◌, refl, sym, ap, ◌∙◌, subst, arith, ℕ, zero, suc, some, string_eq, [], length,
  append-nil,
}
use native.Mathlib.Decide.{ℕ_discrete}
use lan_file_share.FileNode.{FileNode}
use lan_file_share.Chunker.{FileSystem}
use lan_file_share.Chunker.Progress.{IsHealthy, length_zero}
use lan_file_share.Connection.{World, done, transfer_file, perform_file_transfer}
use lan_file_share.Connection.Pending.{
  get_next_pending_file_found, get_next_pending_file_empty, has_nil,
}
use lan_file_share.Connection.Healthy.{IsCalm}
use lan_file_share.Queue.Settling.{complete_pending_counts}
use lan_file_share.Manager.{get_next_pending_file}
use lan_file_share.Manager.Counters.{IsConsistent}
use lan_file_share.Session.{Float64}
use lan_file_share.Connection.Achieved.{
  Session, AllSendable, Completes, round, moves, round-AllSendable, round-Completes,
}

module _ (fl : Float64) (fs : FileSystem) (w : World) (chunk_fuel : ℕ) (calm : IsCalm w)
    (healthy : IsHealthy fs) where
  performs_none :
      (fuel : ℕ) (s : Session fl fs w chunk_fuel calm healthy)
      → s.utm.queues.pending_files ≡ []
      → perform_file_transfer fl fs w (suc fuel) chunk_fuel s ≡ (s, done)
  unfolding perform_file_transfer
  performs_none fuel s e =
      rw (perform_file_transfer, get_next_pending_file_empty (w.range s.tick) s.utm e) refl

  performs_next :
      (fuel : ℕ) (s : Session fl fs w chunk_fuel calm healthy) (n : FileNode)
      → get_next_pending_file (w.range s.tick) s.utm ≡ some n
      → (transfer_file fl fs w chunk_fuel s n).1 ≡ done
      → perform_file_transfer fl fs w (suc fuel) chunk_fuel s
        ≡ perform_file_transfer fl fs w fuel chunk_fuel (transfer_file fl fs w chunk_fuel s n).0
  unfolding perform_file_transfer
  performs_next fuel s n first goes_on = rw (perform_file_transfer, first, goes_on) refl

  -- The sending of files ends without an error with no file pending. Every file that was pending is
  -- completed, and the messages of its chunks, which are the file in order, stand in a row among those
  -- sent. This holds where the manager is consistent and its pending and completed files are fewer than
  -- 2^63; the context is not done and the channel takes every message; each pending file has fewer than
  -- 2^32 bytes and the size that its chunker was made for, its chunker has read nothing yet and has a
  -- chunk size above 0, and no read of it fails before its end; and the fuel is more than the pending
  -- files and, for each, more than its bytes.
  pub perform_file_transfer-Completes :
      (fuel : ℕ) (s : Session fl fs w chunk_fuel calm healthy)
      → IsConsistent s.utm
      → AllSendable fl fs w chunk_fuel calm healthy s
      → length s.utm.queues.pending_files < fuel
      → length s.utm.queues.pending_files + length s.utm.queues.completed_files < 2 ^ 63
      → Completes fl fs w chunk_fuel calm healthy s
          (perform_file_transfer fl fs w fuel chunk_fuel s)
  perform_file_transfer-Completes zero s consistent all enough bound = absurd (omega arith)
  perform_file_transfer-Completes (suc fuel) s consistent all enough bound =
      elim (ℕ_discrete (length s.utm.queues.pending_files) 0) [
        | yes e ↦
            let nothing = length_zero s.utm.queues.pending_files e in
            subst (Completes fl fs w chunk_fuel calm healthy s) (sym (performs_none fuel s nothing))
              (record {
                ends = refl;
                none_pending = nothing;
                completes = λ p h. absurd (has_nil s.utm.queues.pending_files p nothing h);
                keeps = λ p h. h;
                rows = [];
                many = sym e;
                adds = sym (append-nil s.sent);
                each = λ r m. absurd (Memᴰ.not-nil m);
                distinct = tt;
                covers = λ p h. absurd (has_nil s.utm.queues.pending_files p nothing h);
                sends = λ p n c h f o. absurd (has_nil s.utm.queues.pending_files p nothing h);
                consistent = consistent;
              })
        | no some_left ↦
            let (path, waits, first) =
              get_next_pending_file_found (w.range s.tick) s.utm (λ e. some_left (ap length e)) in
            let d = all path waits in
            let x = round fl fs w chunk_fuel calm healthy s path d waits consistent bound in
            let s' = (transfer_file fl fs w chunk_fuel s d.ready.file).0 in
            let queues = moves fl fs w chunk_fuel calm healthy s path d waits x in
            let counts =
              complete_pending_counts s.utm.queues path consistent.partition
                (ground (arith, waits)) in
            let fewer = ap (λ q. length q.pending_files) queues in
            let grown = ap (λ q. length q.completed_files) queues in
            let rest =
              perform_file_transfer-Completes fuel s' x.consistent
                (round-AllSendable fl fs w chunk_fuel calm healthy s path d waits x all)
                (omega (arith, fewer, counts.0))
                (omega (arith, fewer, grown, counts.0, counts.1)) in
            subst (Completes fl fs w chunk_fuel calm healthy s)
              (sym (performs_next fuel s d.ready.file (first ∙ d.ready.found) x.ends))
              (round-Completes fl fs w chunk_fuel calm healthy s path d waits x
                (perform_file_transfer fl fs w fuel chunk_fuel s') (omega (arith, fewer, counts.0))
                rest)
      ]
