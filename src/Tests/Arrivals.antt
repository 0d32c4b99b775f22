-- ===== src/Tests/Arrivals.antt =====
-- A run of a whole session, from the sender's files to the receiver's disk.
use lan_file_share.Common.{
  ◌≡◌, ◌≢◌, ◌⊎◌, inl, inr, refl, sym, ap, ◌∙◌, subst, arith, ℕ, true, some, none, List, [], ◌∷◌,
  length, string_eq,
}
use lan_file_share.Common.Int.{pos, add64}
use lan_file_share.Common.Maps.{lookup, insert}
use lan_file_share.Common.Sets.{has, add}
use lan_file_share.Common.Text.{codes}
use lan_file_share.Chunker.{Chunk, new_chunker_from_file_node}
use lan_file_share.Connection.{done, perform_file_transfer}
use lan_file_share.Connection.EndToEnd.{
  IsPending, IsPrepared, Arrives, perform_file_transfer-Arrives,
}
use lan_file_share.Connection.Collision.{messages-overwrite}
use lan_file_share.Connection.Rows.{Row, row_path, messages_of}
use lan_file_share.FileNode.{FileNode, node, no_children, info, node_count}
use lan_file_share.FileStructure.{get_file, add_file_node}
use lan_file_share.Manager.{new_utm, add_file}
use lan_file_share.Receiver.{FileReceiver, content, new_file_receiver}
use lan_file_share.Receiver.Paths.{output_path}
use lan_file_share.Receiver.Reassembly.Ordered.{Receivable}
use lan_file_share.Receiver.Reassembly.Runs.{process_all}
use lan_file_share.Tests.Samples.{whole, memory, memory_healthy, contents, file_a, file_b}
use lan_file_share.Tests.Sendings.{
  loaded, loaded-IsConsistent, world, sender, chunker, two_files, all-Sendable, calm,
}
use lan_file_share.Tests.Deliveries.{willing}

abbrev receiver : FileReceiver
receiver = new_file_receiver (codes "/out") []

some_same {ℓ} : {A : Type ℓ} (a b : A) → some a ≡ some b → a ≡ b
some_same a b e = cc

found_a : get_file loaded.structure "a" ≡ some file_a
unfolding new_utm add_file has lookup add_file_node node_count new_chunker_from_file_node insert add
    get_file
found_a = refl

found_b : get_file loaded.structure "b" ≡ some file_b
unfolding new_utm add_file has lookup add_file_node node_count new_chunker_from_file_node insert add
    get_file
found_b = refl

opened_a : lookup "a" loaded.chunkers ≡ some chunker
unfolding new_utm add_file has lookup add_file_node node_count new_chunker_from_file_node insert add
opened_a = refl

opened_b : lookup "b" loaded.chunkers ≡ some chunker
unfolding new_utm add_file has lookup add_file_node node_count new_chunker_from_file_node insert add
opened_b = refl

is_a_or_b :
    (n : FileNode) (file : List ℕ)
    → IsPending memory loaded n file
    → ((n ≡ file_b) ⊎ (n ≡ file_a)) × (contents ≡ file)
is_a_or_b n file v = elim (two_files (info n).path v.waits) [
  | inl e ↦ (
    inl (some_same n file_b (sym v.found ∙ (ap (get_file loaded.structure) e ∙ found_b))),
    ap (λ c. c.file)
          (some_same chunker v.chunker
            (sym opened_b ∙ (ap (λ p. lookup p loaded.chunkers) (sym e) ∙ v.opened)))
        ∙ v.read,
  )
  | inr e ↦ (
    inr (some_same n file_a (sym v.found ∙ (ap (get_file loaded.structure) e ∙ found_a))),
    ap (λ c. c.file)
          (some_same chunker v.chunker
            (sym opened_a ∙ (ap (λ p. lookup p loaded.chunkers) (sym e) ∙ v.opened)))
        ∙ v.read,
  )
]

both_Receivable :
    Receivable willing (codes "/out") file_b contents
    × Receivable willing (codes "/out") file_a contents
unfolding output_path
both_Receivable = (
  record {
    path = codes "/out/b";
    placed = refl;
    works = record {
      creates = refl;
      seeks = λ offset. refl;
      writes = λ offset bytes. refl;
      closes = refl;
      reads = refl;
    };
    short = omega arith;
    sized = refl;
    hashed = inl refl;
    nonempty = λ e. ground (arith, e);
  },
  record {
    path = codes "/out/a";
    placed = refl;
    works = record {
      creates = refl;
      seeks = λ offset. refl;
      writes = λ offset bytes. refl;
      closes = refl;
      reads = refl;
    };
    short = omega arith;
    sized = refl;
    hashed = inl refl;
    nonempty = λ e. ground (arith, e);
  },
)

one_of :
    (P : FileNode → Type 0) (n : FileNode) → (n ≡ file_b) ⊎ (n ≡ file_a) → P file_b → P file_a → P n
one_of P n (inl e) b a = subst P (sym e) b
one_of P n (inr e) b a = subst P (sym e) a

SameOutput : FileNode → FileNode → Type 0
SameOutput m n =
    output_path (codes "/out") (codes (info m).name)
      ≡ output_path (codes "/out") (codes (info n).name)
    → (info m).path ≡ (info n).path

outputs_differ : SameOutput file_b file_a × SameOutput file_a file_b
unfolding SameOutput output_path
outputs_differ = (λ e. ground (arith, e), λ e. ground (arith, e))

prepared : IsPrepared memory loaded willing receiver
unfolding lookup SameOutput
prepared = record {
  unknown = λ p h. refl;
  each = λ n file v.
      let (one, same) = is_a_or_b n file v in
      subst (Receivable willing (codes "/out") n) same (
        one_of (λ x. Receivable willing (codes "/out") x contents) n one both_Receivable.0
          both_Receivable.1);
  apart = λ m n file file' v v'.
      one_of (λ x. SameOutput x n) m (is_a_or_b m file v).0
        (one_of (SameOutput file_b) n (is_a_or_b n file' v').0 (λ e. refl) outputs_differ.0)
        (one_of (SameOutput file_a) n (is_a_or_b n file' v').0 outputs_differ.1 (λ e. refl));
  none_completed = refl;
}

perform_file_transfer-Arrives_example :
    let answer = perform_file_transfer whole memory (world none none) 3 4 sender in
    (answer.1 ≡ done)
    × Arrives memory loaded answer.0.utm receiver (process_all willing receiver answer.0.sent)
unfolding new_utm add_file has lookup add_file_node node_count new_chunker_from_file_node insert add
perform_file_transfer-Arrives_example =
    perform_file_transfer-Arrives whole memory (world none none) 4 calm memory_healthy 3 sender
      willing receiver loaded-IsConsistent all-Sendable (omega arith) (omega arith) refl prepared

-- A file in another folder with the same name.
abbrev other_a : FileNode
other_a = node (record (info file_a) { path = "d/a"; size = pos 2 }) no_children

abbrev only_chunk : List ℕ → Chunk
only_chunk bytes = record {
  bytes = bytes;
  offset = pos 0;
  sequence_no = 1;
  hash = "00";
  is_last = true;
  size = pos (length bytes);
}

abbrev row_a : Row
row_a = record {
  node = file_a;
  file = contents;
  tick = 0;
  chunks = only_chunk contents ∷ [];
  stream = (refl, refl, omega arith, ([], refl, (λ e. refl, λ e. refl), refl));
}

abbrev row_other : Row
row_other = record {
  node = other_a;
  file = 7 ∷ 8 ∷ [];
  tick = 1;
  chunks = only_chunk (7 ∷ 8 ∷ []) ∷ [];
  stream = (refl, refl, omega arith, ([], refl, (λ e. refl, λ e. refl), refl));
}

other_Receivable : Receivable willing (codes "/out") other_a (7 ∷ 8 ∷ [])
unfolding output_path
other_Receivable = record {
  path = codes "/out/a";
  placed = refl;
  works = record {
    creates = refl;
    seeks = λ offset. refl;
    writes = λ offset bytes. refl;
    closes = refl;
    reads = refl;
  };
  short = omega arith;
  sized = refl;
  hashed = inl refl;
  nonempty = λ e. ground (arith, e);
}

paths_differ : row_path row_a ≢ row_path row_other
paths_differ e = ground (arith, (string_eq.beq_iff "a" "d/a").1 e)

messages-overwrite_example :
    let answer =
      process_all willing receiver (messages_of (world none none) (row_a ∷ row_other ∷ [])) in
    (answer.1 ≡ none)
    × (content answer.0 (codes "/out/a") ≡ 7 ∷ 8 ∷ [])
    × (answer.0.completed_files ≡ add64 (add64 (pos 0) (pos 1)) (pos 1))
unfolding lookup output_path
messages-overwrite_example =
    messages-overwrite willing (world none none) row_a row_other receiver (codes "/out/a")
      both_Receivable.1 other_Receivable refl refl paths_differ refl refl
