-- ===== src/Connection/EndToEnd.antt =====
-- A whole session: performFileTransfer (pkg/webrtc/connection.go) of all pending files, and ProcessChunk
-- (pkg/receiver/file_receiver.go) of all messages that it sent, in their order.
use lan_file_share.Common.{
  ℕ, ◌+◌, ◌<◌, ◌^◌, ◌≡◌, ap, sym, ◌∙◌, subst, arith, true, String, some, none, List, [], ◌∷◌, ◌++◌,
  length, string_eq,
}
use lan_file_share.Common.Int.{pos, add64_exact}
use lan_file_share.Common.Maps.{lookup}
use lan_file_share.Common.Sets.{has}
use lan_file_share.Common.Text.{codes}
use lan_file_share.Chunker.{FileSystem, Chunker}
use lan_file_share.Chunker.Progress.{IsHealthy}
use lan_file_share.Connection.{World, Ending, done, perform_file_transfer}
use lan_file_share.Connection.Healthy.{IsCalm}
use lan_file_share.Connection.Rows.{Row, row_path, messages_of, IsRow}
use lan_file_share.Connection.Arrival.{count_from, some_same, rows-AllArrived}
use lan_file_share.Connection.Achieved.{Session, AllSendable, Completes}
use lan_file_share.Connection.Completion.{perform_file_transfer-Completes}
use lan_file_share.FileNode.{FileNode, info}
use lan_file_share.FileStructure.{get_file}
use lan_file_share.Manager.{UnifiedTransferManager}
use lan_file_share.Manager.Counters.{IsConsistent}
use lan_file_share.Receiver.{FileReceiver, System, Outcome, content}
use lan_file_share.Receiver.Paths.{output_path}
use lan_file_share.Receiver.Reassembly.Ordered.{Receivable}
use lan_file_share.Receiver.Reassembly.Runs.{process_all}
use lan_file_share.Session.{Float64}

-- A file is pending, and its chunker has some bytes before it.
pub record IsPending {F : Type 0} (fs : FileSystem) (u : UnifiedTransferManager F fs.File)
    (n : FileNode) (file : List ℕ) : Type 0 where
  pub waits : has u.queues.pending_files (info n).path ≡ true
  pub found : get_file u.structure (info n).path ≡ some n
  pub chunker : Chunker fs.File
  pub opened : lookup (info n).path u.chunkers ≡ some chunker
  pub read : fs.unread chunker.file ≡ file

-- The receiver has seen none of the pending files, can take each, and no two go to one output path.
pub record IsPrepared {F : Type 0} (fs : FileSystem) (u : UnifiedTransferManager F fs.File)
    (sys : System) (fr : FileReceiver) : Type 0 where
  pub unknown :
      (p : String) → has u.queues.pending_files p ≡ true → lookup p fr.current_files ≡ none
  pub each :
      (n : FileNode) (file : List ℕ) → IsPending fs u n file → Receivable sys fr.output_dir n file
  pub apart :
      (m n : FileNode) (file file' : List ℕ)
      → IsPending fs u m file
      → IsPending fs u n file'
      → output_path fr.output_dir (codes (info m).name)
        ≡ output_path fr.output_dir (codes (info n).name)
      → (info m).path ≡ (info n).path
  pub none_completed : fr.completed_files ≡ pos 0

-- What a session achieves on both sides.
pub record Arrives {F : Type 0} (fs : FileSystem) (u u' : UnifiedTransferManager F fs.File)
    (fr : FileReceiver) (answer : Outcome) : Type 0 where
  pub completed :
      (p : String) → has u.queues.pending_files p ≡ true → has u'.queues.completed_files p ≡ true
  pub no_error : answer.1 ≡ none
  pub on_disk :
      (n : FileNode) (file path : List ℕ)
      → IsPending fs u n file
      → output_path fr.output_dir (codes (info n).name) ≡ some path
      → content answer.0 path ≡ file
  pub over :
      (p : String) → has u.queues.pending_files p ≡ true → lookup p answer.0.current_files ≡ none
  pub counted : answer.0.completed_files ≡ pos (length u.queues.pending_files)

count_from-length :
    (k : ℕ) (rows : List Row)
    → k + length rows < 2 ^ 63
    → count_from (pos k) rows ≡ pos (k + length rows)
count_from-length k [] bound = ap pos (omega arith)
count_from-length k (r ∷ rs) bound =
    let one = add64_exact k 1 (omega (arith, bound)) in
    ap (λ z. count_from z rs) one
    ∙ (count_from-length (k + 1) rs (omega (arith, bound)) ∙ ap pos (omega arith))

module _ (fl : Float64) (fs : FileSystem) (w : World) (chunk_fuel : ℕ) (calm : IsCalm w)
    (healthy : IsHealthy fs) where
  row-IsPending :
      (u : UnifiedTransferManager fl.Float fs.File) (r : Row)
      → IsRow fs u r
      → IsPending fs u r.node r.file
  row-IsPending u r v = record {
    waits = v.waits;
    found = v.found;
    chunker = v.chunker;
    opened = v.opened;
    read = v.read;
  }

  -- The row of a pending file is of its node and its bytes.
  row_same :
      (u : UnifiedTransferManager fl.Float fs.File) (r : Row) (n : FileNode) (file : List ℕ)
      → IsRow fs u r
      → IsPending fs u n file
      → row_path r ≡ (info n).path
      → (r.node ≡ n) × (r.file ≡ file)
  row_same u r n file v pending e =
      let same =
        some_same v.chunker pending.chunker
          (sym v.opened ∙ (ap (λ p. lookup p u.chunkers) e ∙ pending.opened)) in
      (
        some_same r.node n (sym v.found ∙ (ap (get_file u.structure) e ∙ pending.found)),
        sym v.read ∙ (ap (λ c. fs.unread c.file) same ∙ pending.read),
      )

  session-Arrives :
      (s : Session fl fs w chunk_fuel calm healthy) (sys : System) (fr : FileReceiver)
      (answer : Session fl fs w chunk_fuel calm healthy × Ending)
      → s.sent ≡ []
      → length s.utm.queues.pending_files < 2 ^ 63
      → IsPrepared fs s.utm sys fr
      → Completes fl fs w chunk_fuel calm healthy s answer
      → Arrives fs s.utm answer.0.utm fr (process_all sys fr answer.0.sent)
  session-Arrives s sys fr answer fresh bound v x =
      let sent = x.adds ∙ ap (λ a. a ++ messages_of w x.rows) fresh in
      let y =
        rows-AllArrived sys w x.rows fr
          (record {
            each = λ r m. v.each r.node r.file (row-IsPending s.utm r (x.each r m));
            apart = λ a b m k.
                v.apart a.node b.node a.file b.file (row-IsPending s.utm a (x.each a m))
                  (row-IsPending s.utm b (x.each b k));
          })
          x.distinct (λ r m. v.unknown (row_path r) (x.each r m).waits) in
      subst (λ a. Arrives fs s.utm answer.0.utm fr (process_all sys fr a)) (sym sent)
        (record {
          completed = x.completes;
          no_error = y.no_error;
          on_disk = λ n file path pending placed.
              let (r, m, e) = x.covers (info n).path pending.waits in
              let (same_node, same_file) = row_same s.utm r n file (x.each r m) pending e in
              y.arrives r path m
                (ap (λ a. output_path fr.output_dir (codes (info a).name)) same_node ∙ placed)
              ∙ same_file;
          over = λ p h.
              let (r, m, e) = x.covers p h in
              subst
                (λ a. lookup a (process_all sys fr (messages_of w x.rows)).0.current_files ≡ none) e
                (y.over r m);
          counted =
              y.counted
              ∙ (ap (λ k. count_from k x.rows) v.none_completed
                  ∙ (count_from-length 0 x.rows (omega (arith, bound, x.many))
                      ∙ ap pos (omega (arith, x.many))));
        })

-- If the sender can send every pending file, and the receiver can take every one and none of them shares
-- an output path, then the sending ends without an error, every pending file is completed at the sender,
-- and the messages sent, processed in order, are processed without an error and leave every one of those
-- files on the receiver's disk at its output path byte for byte, no reception of it, and as many completed
-- files as were pending. The sender can send a file of fewer than 2^32 bytes whose size is right, whose
-- chunker has read nothing yet and has a chunk size above 0, and of which no read fails before its end;
-- the receiver can take a file that is not empty, whose size is right and whose hash is right or not
-- given, for whose name it has an output path, and for which its operating system refuses no call. This
-- holds where the sender's manager is consistent, its pending and completed files are fewer than 2^63 and
-- it has sent nothing before; the receiver has completed no file and is receiving none of these; the
-- context is not done, the channel takes every message, and the fuel is more than the pending files and,
-- for each, more than its bytes.
pub perform_file_transfer-Arrives :
    (fl : Float64) (fs : FileSystem) (w : World) (chunk_fuel : ℕ) (calm : IsCalm w)
    (healthy : IsHealthy fs) (fuel : ℕ) (s : Session fl fs w chunk_fuel calm healthy) (sys : System)
    (fr : FileReceiver)
    → IsConsistent s.utm
    → AllSendable fl fs w chunk_fuel calm healthy s
    → length s.utm.queues.pending_files < fuel
    → length s.utm.queues.pending_files + length s.utm.queues.completed_files < 2 ^ 63
    → s.sent ≡ []
    → IsPrepared fs s.utm sys fr
    → let answer = perform_file_transfer fl fs w fuel chunk_fuel s in
      (answer.1 ≡ done) × Arrives fs s.utm answer.0.utm fr (process_all sys fr answer.0.sent)
perform_file_transfer-Arrives fl fs w chunk_fuel calm healthy fuel s sys fr consistent all enough
      bound fresh prepared =
    let x =
      perform_file_transfer-Completes fl fs w chunk_fuel calm healthy fuel s consistent all enough
        bound in
    (
      x.ends,
      session-Arrives fl fs w chunk_fuel calm healthy s sys fr
          (perform_file_transfer fl fs w fuel chunk_fuel s) fresh (omega (arith, bound)) prepared x,
    )
