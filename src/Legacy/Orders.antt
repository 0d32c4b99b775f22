-- ===== src/Legacy/Orders.antt =====
-- The order in which FileTransferManager (pkg/transfer/fileTransferManager.go) adds the files of a directory.
use mathlib.Core.List.{Memᴰ}
use mathlib.Core.List.Memᴰ
use lan_file_share.Common.{
  false-true, suc, ◌+◌, ◌≤◌, ◌≡◌, ◌≢◌, ◌⊎◌, inl, inr, refl, sym, ap, ◌∙◌, subst, arith, String,
  string_eq, ◌==◌, Bool-cases, none, some, false, List, [], ◌∷◌, length, leb,
}
use lan_file_share.Common.Int.{pos}
use lan_file_share.Common.Maps.{lookup, insert, lookup-insert, lookup-insert_self, length-insert}
use lan_file_share.Config.{default_chunk_size}
use lan_file_share.Errors.{ok}
use lan_file_share.FileNode.{FileNode, info}
use lan_file_share.Chunker.{FileSystem, Chunker, new_chunker_from_file_node}
use lan_file_share.Legacy.{
  FileTransferManager, max_supported_files, add_single_file_with_limit_check, add_in_order,
}

ok_some {ℓ} : {A : Type ℓ} {a b : A} → ok a ≡ ok b → some a ≡ some b
ok_some e = cc

module _ (fs : FileSystem) where
  abbrev pub Made : FileNode → Type 0
  Made n =
      (c : Chunker (fs.File)) × (new_chunker_from_file_node fs n (pos default_chunk_size) ≡ ok c)

  abbrev pub AllMade : List FileNode → Type 0
  AllMade ns = (n : FileNode) → Memᴰ n ns → Made n

  -- What stands at a path after the files were added: the chunker of one of them, or what was there.
  abbrev At :
      FileTransferManager fs.File → List FileNode → FileTransferManager fs.File → String → Type 0
  At ftm ns ftm' p =
      ((n : FileNode) × (Memᴰ n ns
          × (((info n).path ≡ p) × ((m : Made n) × (lookup p ftm'.chunkers ≡ some m.0)))))
      ⊎ (((n : FileNode) → Memᴰ n ns → (info n).path ≢ p)
          × (lookup p ftm'.chunkers ≡ lookup p ftm.chunkers))

  added_one :
      (ftm : FileTransferManager fs.File) (n : FileNode) (m : Made n)
      → suc (length ftm.chunkers) ≤ max_supported_files
      → add_single_file_with_limit_check fs ftm n
        ≡ (record ftm { chunkers = insert (info n).path m.0 ftm.chunkers }, none)
  unfolding add_single_file_with_limit_check
  added_one ftm n m room =
      let below : leb max_supported_files (length ftm.chunkers) ≡ false = ground arith in
      rw (add_single_file_with_limit_check, m.1, below) refl

  added :
      (ns : List FileNode) (ftm : FileTransferManager fs.File)
      → AllMade ns
      → length ftm.chunkers + length ns ≤ max_supported_files
      → let (ftm', failure) = add_in_order fs ftm ns in
        (failure ≡ none) × ((p : String) → At ftm ns ftm' p)
  unfolding add_in_order
  added [] ftm made room = (refl, λ p. inr (λ n m. absurd (Memᴰ.not-nil m), refl))
  added (n ∷ ns) ftm made room =
      let m = made n (Memᴰ.head refl) in
      let path = (info n).path in
      let ftm1 = record ftm { chunkers = insert path m.0 ftm.chunkers } in
      let grows : length ftm1.chunkers ≤ suc (length ftm.chunkers) =
        ground (arith, length-insert path m.0 ftm.chunkers) in
      let (fine, at) = added ns ftm1 (λ k i. made k (Memᴰ.tail i)) (omega (arith, grows)) in
      rw (added_one ftm n m (omega arith)) (
        fine,
        λ p. elim (at p) [
          | inl (k, (i, (same, (c, found)))) ↦ inl (k, (Memᴰ.tail i, (same, (c, found))))
          | inr (other, found) ↦ elim (Bool-cases (path == p)) [
            | inl here ↦
                let same = (string_eq.beq_iff path p).0 here in
                let now =
                  found
                  ∙ subst (λ q. lookup q (insert path m.0 ftm.chunkers) ≡ some m.0) same
                      (lookup-insert_self path m.0 ftm.chunkers) in
                inl (n, (Memᴰ.head refl, (same, (m, now))))
            | inr there ↦
                let differ : path ≢ p =
                  λ e. false-true (sym there ∙ (string_eq.beq_iff path p).1 e) in
                let kept : lookup p ftm1.chunkers ≡ lookup p ftm.chunkers =
                  ground (arith, lookup-insert path p m.0 ftm.chunkers, there) in
                inr (
                  λ k i. elim i [
                    | Memᴰ.head e ↦ λ same. differ (subst (λ x. (info x).path ≡ p) e same)
                    | Memᴰ.tail i' ↦ other k i'
                  ],
                  found ∙ kept,
                )
          ]
        ],
      )

  -- The files of a directory, each with a path of its own and of which a chunker can be made, and not too many:
  -- in whatever order they are added, none fails, and the same chunker stands at each path in the end.
  pub add_in_order_any :
      (ftm : FileTransferManager fs.File) (ns ms : List FileNode)
      → AllMade ns
      → ((n : FileNode) → Memᴰ n ms → Memᴰ n ns)
      → ((n : FileNode) → Memᴰ n ns → Memᴰ n ms)
      → ((n m : FileNode) → Memᴰ n ns → Memᴰ m ns → (info n).path ≡ (info m).path → n ≡ m)
      → length ftm.chunkers + length ns ≤ max_supported_files
      → length ftm.chunkers + length ms ≤ max_supported_files
      → let (left, failure) = add_in_order fs ftm ns in
        let (right, failure') = add_in_order fs ftm ms in
        (failure ≡ none)
        × (failure' ≡ none)
        × ((p : String) → lookup p left.chunkers ≡ lookup p right.chunkers)
  add_in_order_any ftm ns ms made back forth own room room' =
      let (fine, at) = added ns ftm made room in
      let (fine', at') = added ms ftm (λ n i. made n (back n i)) room' in
      (
        fine,
        fine',
        λ p. elim (at p) [
          | inl (n, (i, (same, (c, found)))) ↦ elim (at' p) [
            | inl (m, (i', (same', (c', found')))) ↦
                let one = own n m i (back m i') (same ∙ sym same') in
                let chunkers =
                  sym c.1
                  ∙ (ap (λ x. new_chunker_from_file_node fs x (pos default_chunk_size)) one
                      ∙ c'.1) in
                found ∙ (ok_some chunkers ∙ sym found')
            | inr (other, _) ↦ absurd (other n (forth n i) same)
          ]
          | inr (other, found) ↦ elim (at' p) [
            | inl (m, (i', (same', rest))) ↦ absurd (other m (back m i') same')
            | inr (_, found') ↦ found ∙ sym found'
          ]
        ],
      )
