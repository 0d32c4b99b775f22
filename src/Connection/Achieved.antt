-- ===== src/Connection/Achieved.antt =====
-- What a round of performFileTransfer (pkg/webrtc/connection.go) adds to the sending of all pending files.
use mathlib.Core.List.{Memᴰ}
use lan_file_share.Common.{
  refl, ◌∷◌, ◌≡◌, ◌≢◌, ◌+◌, ◌<◌, ◌^◌, sym, ap, ◌∙◌, subst, arith, ℕ, suc, true, inl, inr, String,
  some, string_eq, List, [], ◌++◌, length, append_assoc,
}
use lan_file_share.Common.Maps.{lookup}
use lan_file_share.Common.Sets.{has}
use lan_file_share.FileNode.{FileNode}
use lan_file_share.FileStructure.{get_file}
use lan_file_share.Chunker.{FileSystem, Chunk, Chunker}
use lan_file_share.Chunker.Progress.{IsHealthy, Fits}
use lan_file_share.Chunker.Stream.{IsStream}
use lan_file_share.Connection.{World, Sender, Ending, done, transfer_file}
use lan_file_share.Connection.Pending.{Ready}
use lan_file_share.Connection.Rows.{Row, row_path, messages_of, IsRow, AreDistinct}
use lan_file_share.Connection.Healthy.{messages, IsCalm, Delivers, transfer_file-Delivers}
use lan_file_share.Protocol.{ChunkMessage}
use lan_file_share.Queue.{pending, completed, move_file_in_queue}
use lan_file_share.Queue.Moves.{
  some_inj, same_or_not, moved_pending, still_pending, moved_completed,
}
use lan_file_share.Queue.View.{status_of}
use lan_file_share.Manager.{UnifiedTransferManager}
use lan_file_share.Manager.Counters.{IsConsistent}
use lan_file_share.Session.{Float64}

-- A pending file that can be sent whole: its chunker is at the beginning of a file of the right size.
pub record Sendable {F : Type 0} (fs : FileSystem) (fuel : ℕ) (u : UnifiedTransferManager F fs.File)
    (path : String) : Type 0 where
  pub ready : Ready u path
  pub fits : Fits fs ready.chunker 0
  pub fresh : ready.chunker.current_seq ≡ 0
  pub enough : length (fs.unread ready.chunker.file) < fuel

-- The messages of a file's chunks stand in a row among those sent.
pub record WasSent (w : World) (n : FileNode) (file : List ℕ) (sent : List ChunkMessage)
    : Type 0 where
  pub before : List ChunkMessage
  pub after : List ChunkMessage
  pub chunks : List Chunk
  pub tick : ℕ
  pub stream : IsStream 0 0 file chunks
  pub split : sent ≡ before ++ (messages w n tick chunks ++ after)

module _ (fl : Float64) (fs : FileSystem) (w : World) (chunk_fuel : ℕ) (calm : IsCalm w)
    (healthy : IsHealthy fs) where
  abbrev pub Session : Type 0
  Session = Sender fl.Float fs.File

  abbrev pub AllSendable : Session → Type 0
  AllSendable s =
      (p : String) → has s.utm.queues.pending_files p ≡ true → Sendable fs chunk_fuel s.utm p

  -- What the sending of all pending files achieves.
  pub record Completes (s : Session) (answer : Session × Ending) : Type 0 where
    pub ends : answer.1 ≡ done
    pub none_pending : answer.0.utm.queues.pending_files ≡ []
    pub completes :
        (p : String)
        → has s.utm.queues.pending_files p ≡ true
        → has answer.0.utm.queues.completed_files p ≡ true
    pub keeps :
        (p : String)
        → has s.utm.queues.completed_files p ≡ true
        → has answer.0.utm.queues.completed_files p ≡ true
    -- One row of messages for each pending file.
    pub rows : List Row
    pub many : length rows ≡ length s.utm.queues.pending_files
    pub adds : answer.0.sent ≡ s.sent ++ messages_of w rows
    pub each : (r : Row) → Memᴰ r rows → IsRow fs s.utm r
    pub distinct : AreDistinct rows
    pub covers :
        (p : String)
        → has s.utm.queues.pending_files p ≡ true
        → (r : Row) × Memᴰ r rows × (row_path r ≡ p)
    pub sends :
        (p : String) (n : FileNode) (c : Chunker fs.File)
        → has s.utm.queues.pending_files p ≡ true
        → get_file s.utm.structure p ≡ some n
        → lookup p s.utm.chunkers ≡ some c
        → WasSent w n (fs.unread c.file) answer.0.sent
    pub consistent : IsConsistent answer.0.utm

  module _ (s : Session) (path : String) (d : Sendable fs chunk_fuel s.utm path)
      (waits : has s.utm.queues.pending_files path ≡ true) where
    abbrev pub n : FileNode
    n = d.ready.file

    abbrev pub answer : Session × Ending
    answer = transfer_file fl fs w chunk_fuel s n

    abbrev pub Delivered : Type 0
    Delivered = Delivers fl fs w n calm healthy s (fs.unread d.ready.chunker.file) answer

    pub round :
        IsConsistent s.utm
        → length s.utm.queues.pending_files + length s.utm.queues.completed_files < 2 ^ 63
        → Delivered
    round consistent bound =
        let same = sym d.ready.named in
        transfer_file-Delivers fl fs w n calm healthy chunk_fuel s d.ready.chunker d.fits d.fresh
          d.enough (subst (λ p. get_file s.utm.structure p ≡ some n) same d.ready.found)
          (subst (λ p. lookup p s.utm.chunkers ≡ some d.ready.chunker) same d.ready.opened)
          consistent
          (subst (λ p. status_of s.utm.queues p ≡ some pending) same (ground (arith, waits))) bound

    module _ (x : Delivered) where
      pub moves : answer.0.utm.queues ≡ (move_file_in_queue s.utm.queues path pending completed).0
      moves =
          x.moves ∙ ap (λ p. (move_file_in_queue s.utm.queues p pending completed).0) d.ready.named

      others : (p : String) → p ≢ path → lookup p answer.0.utm.chunkers ≡ lookup p s.utm.chunkers
      others p differ = x.others p (λ e. differ (e ∙ d.ready.named))

      pub round-AllSendable : AllSendable s → AllSendable answer.0
      round-AllSendable all p h =
          let (h', differ) =
            moved_pending s.utm.queues path p waits
              (subst (λ q. has q.pending_files p ≡ true) moves h) in
          let r = all p h' in
          record {
            ready = record {
              file = r.ready.file;
              chunker = r.ready.chunker;
              found = ap (λ f. get_file f p) x.structure ∙ r.ready.found;
              named = r.ready.named;
              opened = others p differ ∙ r.ready.opened;
            };
            fits = r.fits;
            fresh = r.fresh;
            enough = r.enough;
          }

      abbrev row : Row
      row = record {
        node = n;
        file = fs.unread d.ready.chunker.file;
        tick = x.tick;
        chunks = x.chunks;
        stream = x.stream;
      }

      row-IsRow : IsRow fs s.utm row
      row-IsRow = record {
        waits = subst (λ p. has s.utm.queues.pending_files p ≡ true) (sym d.ready.named) waits;
        found = subst (λ p. get_file s.utm.structure p ≡ some n) (sym d.ready.named) d.ready.found;
        chunker = d.ready.chunker;
        opened =
            subst (λ p. lookup p s.utm.chunkers ≡ some d.ready.chunker) (sym d.ready.named)
              d.ready.opened;
        read = refl;
      }

      each_row :
          (rs : List Row)
          → ((r : Row) → Memᴰ r rs → IsRow fs s.utm r)
          → (r : Row) → Memᴰ r (row ∷ rs)
          → IsRow fs s.utm r
      each_row rs all r (Memᴰ.head e) = subst (IsRow fs s.utm) (sym e) row-IsRow
      each_row rs all r (Memᴰ.tail m) = all r m

      later_row : (r : Row) → IsRow fs answer.0.utm r → IsRow fs s.utm r × (row_path r ≢ path)
      later_row r v =
          let (waited, differ) =
            moved_pending s.utm.queues path (row_path r) waits
              (subst (λ q. has q.pending_files (row_path r) ≡ true) moves v.waits) in
          (
            record {
              waits = waited;
              found = sym (ap (λ f. get_file f (row_path r)) x.structure) ∙ v.found;
              chunker = v.chunker;
              opened = sym (others (row_path r) differ) ∙ v.opened;
              read = v.read;
            },
            differ,
          )

      pub round-Completes :
          (last : Session × Ending)
          → length s.utm.queues.pending_files ≡ suc (length answer.0.utm.queues.pending_files)
          → Completes answer.0 last
          → Completes s last
      round-Completes last fewer y =
          let later = messages_of w y.rows in
          let all_sent : last.0.sent ≡ s.sent ++ (messages w n x.tick x.chunks ++ later) =
            y.adds
            ∙ (ap (λ a. a ++ later) x.sends
                ∙ append_assoc s.sent (messages w n x.tick x.chunks) later) in
          record {
            ends = y.ends;
            none_pending = y.none_pending;
            completes = λ p h. elim (same_or_not p path) [
              | inl e ↦ y.keeps p (
                  subst (λ q. has q.completed_files p ≡ true) (sym moves)
                    (subst
                      (λ a.
                        has
                          (move_file_in_queue s.utm.queues path pending completed).0.completed_files
                          a
                        ≡ true)
                      (sym e) (moved_completed s.utm.queues path path waits).0))
              | inr differ ↦ y.completes p (
                  subst (λ q. has q.pending_files p ≡ true) (sym moves)
                    (still_pending s.utm.queues path p waits h differ))
            ];
            keeps = λ p h. y.keeps p (
                subst (λ q. has q.completed_files p ≡ true) (sym moves)
                  ((moved_completed s.utm.queues path p waits).1 h));
            rows = row ∷ y.rows;
            many = ap (λ k. suc k) y.many ∙ sym fewer;
            adds = all_sent;
            each = λ r m. each_row y.rows (λ r' k. (later_row r' (y.each r' k)).0) r m;
            distinct = (λ r k e. (later_row r (y.each r k)).1 (sym e ∙ d.ready.named), y.distinct);
            covers = λ p h. elim (same_or_not p path) [
              | inl e ↦ (row, Memᴰ.head refl, d.ready.named ∙ sym e)
              | inr differ ↦
                  let (r, m, e) = y.covers p (
                    subst (λ q. has q.pending_files p ≡ true) (sym moves)
                      (still_pending s.utm.queues path p waits h differ)) in
                  (r, Memᴰ.tail m, e)
            ];
            sends = λ p n' c' h f o. elim (same_or_not p path) [
              | inl e ↦
                  let same_node =
                    some_inj n n'
                      (sym d.ready.found ∙ (ap (get_file s.utm.structure) (sym e) ∙ f)) in
                  let same_chunker =
                    some_inj d.ready.chunker c'
                      (sym d.ready.opened ∙ (ap (λ a. lookup a s.utm.chunkers) (sym e) ∙ o)) in
                  subst (λ a. WasSent w a (fs.unread c'.file) last.0.sent) same_node
                    (subst (λ a. WasSent w n (fs.unread a.file) last.0.sent) same_chunker
                      (record {
                        before = s.sent;
                        after = later;
                        chunks = x.chunks;
                        tick = x.tick;
                        stream = x.stream;
                        split = all_sent;
                      }))
              | inr differ ↦
                  y.sends p n' c'
                    (subst (λ q. has q.pending_files p ≡ true) (sym moves)
                      (still_pending s.utm.queues path p waits h differ))
                    (ap (λ t. get_file t p) x.structure ∙ f) (others p differ ∙ o)
            ];
            consistent = y.consistent;
          }
