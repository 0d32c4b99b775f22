-- ===== src/Tests/Signatures.antt =====
-- A file structure that is signed, sent and verified, with stand-ins for the packages of Go.
use lan_file_share.Common.{
  ◌≡◌, ◌↔◌, refl, ap, sym, ◌∙◌, arith, ℕ, Option, none, some, List, [], ◌∷◌, map, ◌==◌,
  if◌then◌else◌,
}
use lan_file_share.Common.Int.{pos, pos_part}
use lan_file_share.Common.Text.{codes, text_eq}
use lan_file_share.Errors.{Error, message, Result, ok, err}
use lan_file_share.Common.Maps.{lookup, insert}
use lan_file_share.FileNode.{node_count, FileNode, FileNodes, node, no_children, child}
use lan_file_share.FileStructure.{
  FileStructureManager, add_path, add_file_node, is_registered, get_all_files, get_all_dirs,
  get_file_count, get_dir_count, get_total_size,
}
use lan_file_share.Signature.{
  Slice, nil, made, map_slice, Crypto, SignedFileStructure, SignatureData, without_paths,
  children_without_paths, stripped, data_of_structure, data_of_signed, signed_with,
  sign_file_structure_manager, create_signed_file_structure_from_manager,
  create_signed_file_structure, generate_key_pair, sign_file_structure_manager, data_of_structure,
  verify_file_structure, delivered,
}
use lan_file_share.Signature.Wire.{SameSigned}
use lan_file_share.Signature.Validity.{verify-create_signed_file_structure, verify-covers}
use lan_file_share.Tests.Samples.{file_a, file_b, folder}

mutual
  unfolding without_paths children_without_paths

  without_paths_twice : (n : FileNode) → without_paths (without_paths n) ≡ without_paths n
  without_paths_twice (node i c) = ap (node (record i { path = "" })) (children_twice c)

  children_twice :
      (c : FileNodes) → children_without_paths (children_without_paths c) ≡ children_without_paths c
  children_twice no_children = refl
  children_twice (child n ns) = rw (without_paths_twice n, children_twice ns) refl

all_twice : (ns : List FileNode) → map without_paths (map without_paths ns) ≡ map without_paths ns
all_twice [] = refl
all_twice (n ∷ ns) = rw (without_paths_twice n, all_twice ns) refl

slice_twice :
    (s : Slice FileNode)
    → map_slice without_paths (map_slice without_paths s) ≡ map_slice without_paths s
slice_twice nil = refl
slice_twice (made ns) = ap made (all_twice ns)

pub stripped_twice : (d : SignatureData) → stripped (stripped d) ≡ stripped d
stripped_twice d = rw (slice_twice d.files, slice_twice d.dirs, slice_twice d.root_nodes) refl

pub ok_inj : {A : Type 0} {a b : A} → ok a ≡ ok b → a ≡ b
ok_inj e = cc

abbrev pub read_key : List ℕ → Result (Option ℕ)
read_key [] = err (message [])
read_key (k ∷ rest) = ok (some k)

pub parse_marshalled :
    (k : ℕ) (bytes : List ℕ) → ok (k ∷ []) ≡ ok bytes → read_key bytes ≡ ok (some k)
parse_marshalled k bytes e = ap read_key (sym (ok_inj e))

abbrev pub accepts_only : List ℕ → List ℕ → Option Error
accepts_only hash signature =
    if hash == signature then none else some (message (codes "verification error"))

pub accepts_only_iff :
    (hash signature : List ℕ) → (accepts_only hash signature ≡ none) ↔ (hash ≡ signature)
accepts_only_iff hash signature = (
  λ e. ground (arith, e, text_eq.beq_iff hash signature),
  λ e. ground (arith, e, text_eq.beq_iff hash signature),
)

-- One key, an encoding that keeps all but the paths, and the time of signing as the hash.
abbrev pub sample : Crypto
sample = record {
  PrivateKey = ℕ;
  PublicKey = ℕ;
  public_of = λ k. k;
  marshal_key = λ k. ok (k ∷ []);
  parse_key = read_key;
  Json = SignatureData;
  encode = λ d. ok (stripped d);
  sha256 = λ d. pos_part d.timestamp ∷ [];
  sign = λ k hash. ok hash;
  verify = λ k hash signature. accepts_only hash signature;
  parse-marshal = λ k bytes e. parse_marshalled k bytes e;
  verify-sign = λ k hash signature e. (accepts_only_iff hash signature).1 (ok_inj e);
  one_hash = λ k hash hash' signature e e'.
      (accepts_only_iff hash signature).0 e ∙ sym ((accepts_only_iff hash' signature).0 e');
  encode-stripped = λ d. ap ok (stripped_twice d);
  encode_injective = λ d d' bytes e e'. ok_inj (e ∙ sym e');
}

abbrev pub structure : FileStructureManager
structure = record {
  root_nodes = folder ∷ [];
  file_map = ("a", file_a) ∷ ("b", file_b) ∷ [];
  dir_map = ("d", folder) ∷ [];
}

abbrev pub signed : SignedFileStructure
signed = signed_with structure (pos 5) (7 ∷ []) (5 ∷ [])

abbrev signed_file : SignedFileStructure
signed_file =
    signed_with (record { root_nodes = file_a ∷ []; file_map = ("a", file_a) ∷ []; dir_map = [] })
      (pos 5) (7 ∷ []) (5 ∷ [])

make_structure :
    create_signed_file_structure sample (λ bits. ok 7) (λ path. ok file_a) ("a" ∷ []) (pos 5)
    ≡ ok signed_file
unfolding create_signed_file_structure create_signed_file_structure_from_manager generate_key_pair
    sign_file_structure_manager data_of_structure add_path add_file_node node_count is_registered
    lookup insert
make_structure = refl

verify-create_signed_file_structure_example :
    verify_file_structure sample (some (delivered signed_file)) ≡ none
verify-create_signed_file_structure_example =
    verify-create_signed_file_structure sample (λ bits. ok 7) (λ path. ok file_a) ("a" ∷ []) (pos 5)
      signed_file make_structure

-- The same structure with another time of signing.
abbrev later : SignedFileStructure
later = record signed {
  metadata = some (record {
    total_files = pos 2;
    total_dirs = pos 1;
    total_size = pos 6;
    created_at = pos 5;
    signed_at = pos 6;
    version = "1.0";
  });
}

pub verify_signed : verify_file_structure sample (some signed) ≡ none
unfolding verify_file_structure data_of_signed
verify_signed = refl

verify-covers_example : (verify_file_structure sample (some later) ≡ none) ↔ SameSigned signed later
unfolding get_all_files get_all_dirs get_file_count get_dir_count get_total_size data_of_signed
verify-covers_example = verify-covers sample signed later verify_signed refl refl (λ a b e e' same.
    absurd (
      ground (
        arith,
        same,
        ap (λ d. pos_part d.timestamp) (ok_inj e),
        ap (λ d. pos_part d.timestamp) (ok_inj e'),
      )))
