-- ===== src/Receiver/Reassembly/Ordered.antt =====
-- A whole file through ProcessChunk (pkg/receiver/file_receiver.go), its chunks in order.
use mathlib.Core.List.{Memᴰ, map-append}
use mathlib.Core.List.Memᴰ
use lan_file_share.Common.{
  ℕ, suc, ◌+◌, ◌<◌, ◌^◌, ◌≡◌, ◌≢◌, refl, ap, sym, ◌∙◌, subst, arith, ◌⊎◌, inl, inr, String, some,
  none, List, [], ◌∷◌, ◌++◌, length, map, string_eq,
}
use lan_file_share.Common.Int.{pos}
use lan_file_share.Common.Maps.{lookup}
use lan_file_share.Common.Text.{codes}
use lan_file_share.Chunker.{Chunk}
use lan_file_share.Chunker.Stream.{IsStream}
use lan_file_share.Connection.{World, chunk_message}
use lan_file_share.Connection.Healthy.{messages}
use lan_file_share.FileNode.{FileNode, info}
use lan_file_share.Receiver.{FileReceiver, FileReception, System, Outcome, process_message}
use lan_file_share.Receiver.Frame.{Frame, transitive-Frame}
use lan_file_share.Receiver.Frame.Messages.{process_message-Frame}
use lan_file_share.Receiver.Paths.{output_path}
use lan_file_share.Receiver.Sessions.{process_all_session}
use lan_file_share.Receiver.Reassembly.{process_all-IsDelivered}
use lan_file_share.Receiver.Reassembly.Sizes.{stream-later}
use lan_file_share.Receiver.Reassembly.Steps.{IsWorking}
use lan_file_share.Receiver.Reassembly.Completion.{IsDelivered}
use lan_file_share.Receiver.Reassembly.Runs.{and_then, process_all}

-- The chunks of a file without the last, and the last, whose number no other has.
record Ended (chunks : List Chunk) : Type 0 where
  before : List Chunk
  last : Chunk
  split : chunks ≡ before ++ last ∷ []
  differ : (c : Chunk) → Memᴰ c before → c.sequence_no ≢ last.sequence_no

stream-Ended :
    (off seq : ℕ) (rest : List ℕ) (c : Chunk) (cs : List Chunk)
    → IsStream off seq rest (c ∷ cs)
    → Ended (c ∷ cs)
stream-Ended off seq rest c [] s = record {
  before = [];
  last = c;
  split = refl;
  differ = λ d m. absurd (Memᴰ.not-nil m);
}
stream-Ended off seq rest c (d ∷ ds) s =
    let (_, numbered, _, (tail, _, _, more)) = s in
    let e = stream-Ended (off + length c.bytes) (suc seq) tail d ds more in
    let at_end : Memᴰ e.last (d ∷ ds) =
      subst (Memᴰ e.last) (sym e.split) (Memᴰ.append_right e.before (Memᴰ.head refl)) in
    let after = stream-later tail (off + length c.bytes) (suc seq) (d ∷ ds) e.last more at_end in
    record {
      before = c ∷ e.before;
      last = e.last;
      split = ap (◌∷◌ c) e.split;
      differ = λ x m. elim (Memᴰ.cases_cons m) [
        | inl same ↦ λ k. omega (arith, k, numbered, after, ap (λ y. y.sequence_no) same)
        | inr later ↦ e.differ x later
      ];
    }

one_of :
    (before : List Chunk) (last c : Chunk)
    → Memᴰ c (before ++ last ∷ [])
    → (c ≡ last) ⊎ Memᴰ c before
one_of before last c m = elim (Memᴰ.append_cases before m) [
  | inl early ↦ inr early
  | inr late ↦ inl (Memᴰ.eq_of_singleton late)
]

-- The operating system refuses no call for the output path, and the file has the announced size and hash.
pub record Receivable (sys : System) (dir : List ℕ) (n : FileNode) (file : List ℕ) : Type 0 where
  pub path : List ℕ
  pub placed : output_path dir (codes (info n).name) ≡ some path
  pub works : IsWorking sys path
  pub short : length file < 2 ^ 63
  pub sized : (info n).size ≡ pos (length file)
  pub hashed : (sys.hash file ≡ (info n).checksum) ⊎ ((info n).checksum ≡ "")
  pub nonempty : file ≢ []

module _ (sys : System) (w : World) (n : FileNode) (file : List ℕ) (fr : FileReceiver)
    (v : Receivable sys fr.output_dir n file)
    (unknown : lookup (info n).path fr.current_files ≡ none) where
  pub messages-IsDelivered :
      (tick : ℕ) (chunks : List Chunk)
      → IsStream 0 0 file chunks
      → IsDelivered
          (info n).path
          file
          v.path
          fr.completed_files
          (process_all sys fr (messages w n tick chunks))
  messages-IsDelivered tick [] stream = absurd (v.nonempty stream)
  messages-IsDelivered tick (c ∷ cs) stream =
      let e = stream-Ended 0 0 file c cs stream in
      let session = w.session tick in
      subst (IsDelivered (info n).path file v.path fr.completed_files)
        (sym (
          process_all_session sys w session n tick (c ∷ cs) fr
          ∙ ap (λ a. process_all sys fr a)
              (ap (map (chunk_message session n)) e.split
                ∙ map-append (chunk_message session n) e.before (e.last ∷ []))))
        (process_all-IsDelivered sys session n file (c ∷ cs) v.path fr e.before e.last v.works
          stream v.short v.sized v.hashed unknown v.placed
          (subst (Memᴰ e.last) (sym e.split) (Memᴰ.append_right e.before (Memᴰ.head refl)))
          (λ d m. subst (Memᴰ d) (sym e.split) (Memᴰ.append_left (e.last ∷ []) m)) e.differ
          (λ d m. one_of e.before e.last d (subst (Memᴰ d) e.split m)))

same_Frame :
    (id : String) (path : List ℕ) (fr : FileReceiver)
    → ((r : FileReception) → lookup id fr.current_files ≡ some r → r.output_path ≡ path)
    → Frame id path fr fr
same_Frame id path fr placed = record {
  dir = refl;
  files = λ j differ. refl;
  disk = λ q differ. refl;
  placed = placed;
}

module _ (sys : System) (w : World) (n : FileNode) (path : List ℕ) where
  and_then-Frame :
      (fr : FileReceiver) (next : FileReceiver → Outcome) (o : Outcome)
      → Frame (info n).path path fr o.0
      → ((fr' : FileReceiver)
          → Frame (info n).path path fr fr'
          → Frame (info n).path path fr' (next fr').0)
      → Frame (info n).path path fr (and_then next o).0
  and_then-Frame fr next (fr', none) one more =
      transitive-Frame (info n).path path fr fr' _ one (more fr' one)
  and_then-Frame fr next (fr', some e) one more = one

  pub messages-Frame :
      (tick : ℕ) (chunks : List Chunk) (fr : FileReceiver)
      → output_path fr.output_dir (codes (info n).name) ≡ some path
      → ((r : FileReception)
          → lookup (info n).path fr.current_files ≡ some r
          → r.output_path ≡ path)
      → Frame (info n).path path fr (process_all sys fr (messages w n tick chunks)).0
  unfolding process_all chunk_message
  messages-Frame tick [] fr placed known = same_Frame (info n).path path fr known
  messages-Frame tick (c ∷ cs) fr placed known =
      and_then-Frame fr (λ f. process_all sys f (messages w n (suc tick) cs))
        (process_message sys fr (chunk_message (w.session tick) n c))
        (process_message-Frame sys path (chunk_message (w.session tick) n c) fr placed known)
        (λ fr' one.
          messages-Frame (suc tick) cs fr'
            (ap (λ d. output_path d (codes (info n).name)) one.dir ∙ placed) one.placed)
