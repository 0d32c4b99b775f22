-- ===== src/Connection/Arrival.antt =====
-- From performFileTransfer (pkg/webrtc/connection.go) to ProcessChunk (pkg/receiver/file_receiver.go): all
-- files of a session.
use mathlib.Core.List.{Memᴰ}
use mathlib.Core.List.Memᴰ
use lan_file_share.Common.{
  ℕ, ◌≡◌, ◌≢◌, refl, ap, sym, ◌∙◌, subst, arith, String, Option, some, none, List, [], ◌∷◌,
  string_eq,
}
use lan_file_share.Common.Int.{ℤ, pos, add64}
use lan_file_share.Common.Maps.{lookup}
use lan_file_share.Common.Text.{codes, text_eq}
use lan_file_share.Connection.{World}
use lan_file_share.Connection.Healthy.{messages}
use lan_file_share.Connection.Rows.{Row, row_path, messages_of, AreDistinct}
use lan_file_share.FileNode.{info}
use lan_file_share.Errors.{Error}
use lan_file_share.Receiver.{FileReceiver, System, Outcome, content}
use lan_file_share.Receiver.Paths.{output_path}
use lan_file_share.Receiver.Reassembly.Ordered.{Receivable, messages-IsDelivered, messages-Frame}
use lan_file_share.Receiver.Reassembly.Runs.{process_all, process_all-append}

abbrev pub output_of : List ℕ → Row → Option (List ℕ)
output_of dir r = output_path dir (codes (info r.node).name)

-- The number of completed files after some more.
abbrev pub count_from : ℤ → List Row → ℤ
count_from k [] = k
count_from k (r ∷ rs) = count_from (add64 k (pos 1)) rs

-- The receiver can take the files, and no two of them have one output path.
pub record AreReceivable (sys : System) (dir : List ℕ) (rows : List Row) : Type 0 where
  pub each : (r : Row) → Memᴰ r rows → Receivable sys dir r.node r.file
  pub apart :
      (a b : Row)
      → Memᴰ a rows
      → Memᴰ b rows
      → output_of dir a ≡ output_of dir b
      → row_path a ≡ row_path b

-- Every file stands at its output path byte for byte, no reception is left of it, and it is counted.
pub record AllArrived (sys : System) (rows : List Row) (fr : FileReceiver)
    (answer : FileReceiver × Option Error) : Type 0 where
  pub no_error : answer.1 ≡ none
  pub arrives :
      (r : Row) (path : List ℕ)
      → Memᴰ r rows
      → output_of fr.output_dir r ≡ some path
      → content answer.0 path ≡ r.file
  pub over : (r : Row) → Memᴰ r rows → lookup (row_path r) answer.0.current_files ≡ none
  pub counted : answer.0.completed_files ≡ count_from fr.completed_files rows
  -- What no row is about is as before.
  pub other_files :
      (j : String)
      → ((r : Row) → Memᴰ r rows → row_path r ≢ j)
      → lookup j answer.0.current_files ≡ lookup j fr.current_files
  pub other_disk :
      (q : List ℕ)
      → ((r : Row) → Memᴰ r rows → output_of fr.output_dir r ≢ some q)
      → lookup q answer.0.disk ≡ lookup q fr.disk

content_same :
    (a b : FileReceiver) (q : List ℕ)
    → lookup q a.disk ≡ lookup q b.disk
    → content a q ≡ content b q
content_same a b q e = ap (λ (o : Option (List ℕ)). elim o [ none ↦ [] | some bytes ↦ bytes ]) e

pub pair_of : (o : Outcome) → o.1 ≡ none → o ≡ (o.0, none)
pair_of (fr, none) e = refl
pair_of (fr, some x) e = ap (λ y. (fr, y)) e

pub some_same {ℓ} : {A : Type ℓ} (a b : A) → some a ≡ some b → a ≡ b
some_same a b e = cc

each_of :
    (r : Row) (rs : List Row) (P : Row → Type 0)
    → P r
    → ((a : Row) → Memᴰ a rs → P a)
    → (a : Row) → Memᴰ a (r ∷ rs)
    → P a
each_of r rs P p rest a (Memᴰ.head e) = subst P (sym e) p
each_of r rs P p rest a (Memᴰ.tail m) = rest a m

module _ (sys : System) (w : World) where
  pub rows-AllArrived :
      (rows : List Row) (fr : FileReceiver)
      → AreReceivable sys fr.output_dir rows
      → AreDistinct rows
      → ((r : Row) → Memᴰ r rows → lookup (row_path r) fr.current_files ≡ none)
      → AllArrived sys rows fr (process_all sys fr (messages_of w rows))
  unfolding process_all
  rows-AllArrived [] fr v distinct unknown = record {
    no_error = refl;
    arrives = λ r path m. absurd (Memᴰ.not-nil m);
    over = λ r m. absurd (Memᴰ.not-nil m);
    counted = refl;
    other_files = λ j apart. refl;
    other_disk = λ q apart. refl;
  }
  rows-AllArrived (r ∷ rs) fr v distinct unknown =
      let here = v.each r (Memᴰ.head refl) in
      let ms = messages w r.node r.tick r.chunks in
      let unknown_here = unknown r (Memᴰ.head refl) in
      let done =
        messages-IsDelivered sys w r.node r.file fr here unknown_here r.tick r.chunks r.stream in
      let frame =
        messages-Frame sys w r.node here.path r.tick r.chunks fr here.placed
          (λ r' e. absurd (ground (arith, unknown_here, e))) in
      let fr' = (process_all sys fr ms).0 in
      let rest =
        rows-AllArrived rs fr'
          (record {
            each = λ a m.
                subst (λ d. Receivable sys d a.node a.file) (sym frame.dir)
                  (v.each a (Memᴰ.tail m));
            apart = λ a b m k.
                subst (λ d. output_of d a ≡ output_of d b → row_path a ≡ row_path b) (sym frame.dir)
                  (v.apart a b (Memᴰ.tail m) (Memᴰ.tail k));
          })
          distinct.1 (λ a m. frame.files (row_path a) (distinct.0 a m) ∙ unknown a (Memᴰ.tail m)) in
      let end = process_all sys fr' (messages_of w rs) in
      let back : (a : Row) (q : List ℕ)
          → output_of fr'.output_dir a ≡ some q
          → output_of fr.output_dir a ≡ some q =
        λ a q e. ap (λ d. output_of d a) (sym frame.dir) ∙ e in
      subst (AllArrived sys (r ∷ rs) fr)
        (sym (
          process_all-append sys fr fr' ms (messages_of w rs)
            (pair_of (process_all sys fr ms) done.no_error)))
        (record {
          no_error = rest.no_error;
          arrives = λ a path m.
              each_of r rs
                (λ x. output_of fr.output_dir x ≡ some path → content end.0 path ≡ x.file)
                (λ e.
                  let same = some_same path here.path (sym e ∙ here.placed) in
                  content_same end.0 fr' path (
                    rest.other_disk path (λ b k at.
                      distinct.0 b k
                        (v.apart r b (Memᴰ.head refl) (Memᴰ.tail k) (e ∙ sym (back b path at)))))
                  ∙ (ap (content fr') same ∙ done.on_disk))
                (λ b k e. rest.arrives b path k (ap (λ d. output_of d b) frame.dir ∙ e)) a m;
          over = λ a m.
              each_of r rs (λ x. lookup (row_path x) end.0.current_files ≡ none)
                (rest.other_files (row_path r) (λ b k e. distinct.0 b k (sym e)) ∙ done.over)
                rest.over a m;
          counted = rest.counted ∙ ap (λ k. count_from k rs) done.counted;
          other_files = λ j apart.
              rest.other_files j (λ a m. apart a (Memᴰ.tail m))
              ∙ frame.files j (apart r (Memᴰ.head refl));
          other_disk = λ q apart.
              rest.other_disk q (λ a m e. apart a (Memᴰ.tail m) (back a q e))
              ∙ frame.disk q (λ e. apart r (Memᴰ.head refl) (here.placed ∙ ap (λ x. some x) e));
        })
