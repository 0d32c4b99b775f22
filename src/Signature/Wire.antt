-- ===== src/Signature/Wire.antt =====
-- The data of a signed structure (pkg/crypto/signature.go) on both sides of the wire.
use lan_file_share.Common.{◌≡◌, refl, ap, sym, ◌∙◌, ℕ, List, [], ◌∷◌, map, length, String, suc}
use lan_file_share.Common.Int.{ℤ, pos, add64}
use lan_file_share.Common.Maps.{Map}
use lan_file_share.FileNode.{FileNode, node, info}
use lan_file_share.FileStructure.{
  FileStructureManager, get_all_files, get_all_dirs, get_file_count, get_dir_count, get_total_size,
  sum_sizes,
}
use lan_file_share.Signature.{
  Slice, nil, made, elements, map_slice, appended, omit_empty, SignedFileStructure, without_paths,
  stripped, total_of, data_of_structure, data_of_signed, signed_at_of, signed_with, delivered,
}

total_of-map :
    (total : ℤ) (m : Map String FileNode) → total_of total (map (λ e. e.1) m) ≡ sum_sizes total m
unfolding total_of sum_sizes
total_of-map total [] = refl
total_of-map total ((path, n) ∷ m) = total_of-map (add64 total (info n).size) m

total_of-without_paths :
    (total : ℤ) (ns : List FileNode) → total_of total (map without_paths ns) ≡ total_of total ns
unfolding total_of without_paths
total_of-without_paths total [] = refl
total_of-without_paths total (node i c ∷ ns) = total_of-without_paths (add64 total i.size) ns

length-map_all : {A B : Type 0} (f : A → B) (xs : List A) → length (map f xs) ≡ length xs
length-map_all f [] = refl
length-map_all f (x ∷ xs) = ap suc (length-map_all f xs)

elements-map_slice :
    {A B : Type 0} (f : A → B) (s : Slice A) → elements (map_slice f s) ≡ map f (elements s)
elements-map_slice f nil = refl
elements-map_slice f (made xs) = refl

elements-appended : {A : Type 0} (xs : List A) → elements (appended xs) ≡ xs
elements-appended [] = refl
elements-appended (x ∷ xs) = refl

-- What a loop appended stays as it is where it is left out empty.
omit_empty-appended :
    {A B : Type 0} (f : A → B) (xs : List A)
    → omit_empty (map_slice f (appended xs)) ≡ map_slice f (appended xs)
omit_empty-appended f [] = refl
omit_empty-appended f (x ∷ xs) = refl

-- The structure without the paths of its nodes.
abbrev pub pathless : SignedFileStructure → SignedFileStructure
pathless s = record s {
  files = map_slice without_paths s.files;
  directories = map_slice without_paths s.directories;
  root_nodes = map_slice without_paths s.root_nodes;
}

pub delivered-signed_with :
    (fsm : FileStructureManager) (now : ℤ) (key signature : List ℕ)
    → delivered (signed_with fsm now key signature) ≡ pathless (signed_with fsm now key signature)
unfolding delivered
delivered-signed_with fsm now key signature =
    rw
      (
        omit_empty-appended without_paths (get_all_dirs fsm),
        omit_empty-appended without_paths fsm.root_nodes,
      )
      refl

-- The data that is signed is recreated without the paths.
pub data_of-pathless :
    (s : SignedFileStructure) → data_of_signed (pathless s) ≡ stripped (data_of_signed s)
unfolding data_of_signed
data_of-pathless s =
    rw
      (
        elements-map_slice without_paths s.files,
        elements-map_slice without_paths s.directories,
        length-map_all without_paths (elements s.files),
        length-map_all without_paths (elements s.directories),
        total_of-without_paths (pos 0) (elements s.files),
      )
      refl

pub data_of-signed :
    (fsm : FileStructureManager) (now : ℤ) (key signature : List ℕ)
    → data_of_signed (signed_with fsm now key signature) ≡ data_of_structure fsm now
unfolding data_of_signed data_of_structure get_all_files get_all_dirs get_file_count get_dir_count
    get_total_size
data_of-signed fsm now key signature =
    rw
      (
        elements-appended (map (λ (e : String × FileNode). e.1) fsm.file_map),
        elements-appended (map (λ (e : String × FileNode). e.1) fsm.dir_map),
        length-map_all (λ (e : String × FileNode). e.1) fsm.file_map,
        length-map_all (λ (e : String × FileNode). e.1) fsm.dir_map,
        total_of-map (pos 0) fsm.file_map,
      )
      refl

-- The signed parts of two structures agree, a nil slice and an empty one told apart.
pub record SameSigned (s s' : SignedFileStructure) : Type 0 where
  pub files : map_slice without_paths s.files ≡ map_slice without_paths s'.files
  pub directories : map_slice without_paths s.directories ≡ map_slice without_paths s'.directories
  pub root_nodes : map_slice without_paths s.root_nodes ≡ map_slice without_paths s'.root_nodes
  pub signed_at : signed_at_of s.metadata ≡ signed_at_of s'.metadata

pub stripped_same :
    (s s' : SignedFileStructure)
    → SameSigned s s'
    → stripped (data_of_signed s) ≡ stripped (data_of_signed s')
unfolding data_of_signed
stripped_same s s' v =
    let same : data_of_signed (pathless s) ≡ data_of_signed (pathless s') =
      rw (v.files, v.directories, v.root_nodes, v.signed_at) refl in
    sym (data_of-pathless s) ∙ (same ∙ data_of-pathless s')

pub same_parts :
    (s s' : SignedFileStructure)
    → stripped (data_of_signed s) ≡ stripped (data_of_signed s')
    → SameSigned s s'
unfolding data_of_signed
same_parts s s' e = record {
  files = ap (λ d. d.files) e;
  directories = ap (λ d. d.dirs) e;
  root_nodes = ap (λ d. d.root_nodes) e;
  signed_at = ap (λ d. d.timestamp) e;
}
