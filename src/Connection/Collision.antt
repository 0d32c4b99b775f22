-- ===== src/Connection/Collision.antt =====
-- Two files of one session that ProcessChunk (pkg/receiver/file_receiver.go) gives one output path: it takes
-- the base name of a file only, which performFileTransfer (pkg/webrtc/connection.go) sends as its name.

use lan_file_share.Common.{
  ℕ, ◌≡◌, ◌≢◌, ap, sym, ◌∙◌, subst, arith, none, some, List, [], ◌∷◌, ◌++◌, string_eq, append-nil,
}
use lan_file_share.Common.Int.{pos, add64}
use lan_file_share.Common.Maps.{lookup}
use lan_file_share.Connection.{World}
use lan_file_share.Connection.Healthy.{messages}
use lan_file_share.Connection.Rows.{Row, row_path, messages_of}
use lan_file_share.Connection.Arrival.{output_of, pair_of, some_same}
use lan_file_share.Receiver.{FileReceiver, System, content}
use lan_file_share.Receiver.Reassembly.Ordered.{Receivable, messages-IsDelivered, messages-Frame}
use lan_file_share.Receiver.Reassembly.Runs.{process_all, process_all-append}

-- If two files with different IDs have one output path, then the messages of the first and then those of
-- the second are processed without an error, both files are counted as completed, and at the output path is
-- the second file only. This holds where the receiver knows neither and can take each of them.
pub messages-overwrite :
    (sys : System) (w : World) (a b : Row) (fr : FileReceiver) (path : List ℕ)
    → Receivable sys fr.output_dir a.node a.file
    → Receivable sys fr.output_dir b.node b.file
    → output_of fr.output_dir a ≡ some path
    → output_of fr.output_dir b ≡ some path
    → row_path a ≢ row_path b
    → lookup (row_path a) fr.current_files ≡ none
    → lookup (row_path b) fr.current_files ≡ none
    → let answer = process_all sys fr (messages_of w (a ∷ b ∷ [])) in
      (answer.1 ≡ none)
      × (content answer.0 path ≡ b.file)
      × (answer.0.completed_files ≡ add64 (add64 fr.completed_files (pos 1)) (pos 1))
messages-overwrite sys w a b fr path va vb at_a at_b differ unknown_a unknown_b =
    let ms = messages w a.node a.tick a.chunks in
    let ns = messages w b.node b.tick b.chunks in
    let one = messages-IsDelivered sys w a.node a.file fr va unknown_a a.tick a.chunks a.stream in
    let frame =
      messages-Frame sys w a.node path a.tick a.chunks fr at_a
        (λ r e. absurd (ground (arith, unknown_a, e))) in
    let fr' = (process_all sys fr ms).0 in
    let vb' = subst (λ d. Receivable sys d b.node b.file) (sym frame.dir) vb in
    let two =
      messages-IsDelivered sys w b.node b.file fr' vb' (frame.files (row_path b) differ ∙ unknown_b)
        b.tick b.chunks b.stream in
    let same : vb'.path ≡ path =
      some_same vb'.path path (sym vb'.placed ∙ (ap (λ d. output_of d b) frame.dir ∙ at_b)) in
    let run =
      process_all-append sys fr fr' ms (ns ++ []) (pair_of (process_all sys fr ms) one.no_error)
      ∙ ap (process_all sys fr') (append-nil ns) in
    subst
      (λ o.
        (o.1 ≡ none)
        × (content o.0 path ≡ b.file)
        × (o.0.completed_files ≡ add64 (add64 fr.completed_files (pos 1)) (pos 1)))
      (sym run)
      (
        two.no_error,
        subst (λ p. content (process_all sys fr' ns).0 p ≡ b.file) same two.on_disk,
        two.counted ∙ ap (λ k. add64 k (pos 1)) one.counted,
      )
