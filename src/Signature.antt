-- ===== src/Signature.antt =====
-- The signed file structure of pkg/crypto/signature.go.
pub mod Wire
pub mod Validity
use lan_file_share.Common.{
  Option, none, some, List, [], ◌∷◌, ◌++◌, if◌then◌else◌, ◌≡◌, ℕ, String, map, length,
}
use lan_file_share.Common.Int.{ℤ, pos, add64, ltb_ℤ}
use lan_file_share.Common.Text.{codes}
use lan_file_share.Errors.{Error, message, wrapped, Result, ok, err}
use lan_file_share.FileNode.{FileNode, FileNodes, NodeInfo, node, info, no_children, child}
use lan_file_share.FileStructure.{
  FileStructureManager, new_structure, add_path, get_all_files, get_all_dirs, get_file_count,
  get_dir_count, get_total_size,
}

-- A slice of Go's: nil, or made of its elements. encoding/json writes nil as null and no elements as [].
pub data Slice (A : Type 0) : Type 0 where
  nil : Slice A
  made : List A → Slice A

abbrev pub elements : {A : Type 0} → Slice A → List A
elements nil = []
elements (made xs) = xs

abbrev pub map_slice : {A B : Type 0} → (A → B) → Slice A → Slice B
map_slice f nil = nil
map_slice f (made xs) = made (map f xs)

-- What a loop makes of a nil slice to which it appends these elements one by one.
abbrev pub appended : {A : Type 0} → List A → Slice A
appended [] = nil
appended (x ∷ xs) = made (x ∷ xs)

-- What is read of a slice whose field has the option `omitempty`: it is left out if it has no elements.
abbrev pub omit_empty : {A : Type 0} → Slice A → Slice A
omit_empty s = appended (elements s)

-- StructureMetadata; `version` is a text.
pub record StructureMetadata : Type 0 where
  pub total_files : ℤ
  pub total_dirs : ℤ
  pub total_size : ℤ
  pub created_at : ℤ
  pub signed_at : ℤ
  pub version : String

pub record SignedFileStructure : Type 0 where
  pub files : Slice FileNode
  pub public_key : List ℕ
  pub signature : List ℕ
  pub directories : Slice FileNode
  pub root_nodes : Slice FileNode
  pub metadata : Option StructureMetadata

-- What is signed.
pub record SignatureData : Type 0 where
  pub files : Slice FileNode
  pub dirs : Slice FileNode
  pub root_nodes : Slice FileNode
  pub file_count : ℤ
  pub dir_count : ℤ
  pub total_size : ℤ
  pub timestamp : ℤ

-- A node without the paths, which carry the tag `json:"-"`.
unfoldable mutual
  pub without_paths : FileNode → FileNode
  without_paths (node i c) = node (record i { path = "" }) (children_without_paths c)

  pub children_without_paths : FileNodes → FileNodes
  children_without_paths no_children = no_children
  children_without_paths (child n ns) = child (without_paths n) (children_without_paths ns)

abbrev pub stripped : SignatureData → SignatureData
stripped d = record d {
  files = map_slice without_paths d.files;
  dirs = map_slice without_paths d.dirs;
  root_nodes = map_slice without_paths d.root_nodes;
}

-- encoding/json, crypto/sha256, crypto/rsa with PKCS #1 v1.5, and crypto/x509. The encoding leaves the
-- paths out and says everything else of the data, whose texts are valid UTF-8, a nil slice included. A key that is read from
-- its encoding is that key, what a key signs its public key accepts, and a signature is of one hash.
pub record Crypto : Type 1 where
  pub PrivateKey : Type 0
  pub PublicKey : Type 0
  pub public_of : PrivateKey → PublicKey
  pub marshal_key : PublicKey → Result (List ℕ)
  -- `none` is a key that is not RSA.
  pub parse_key : List ℕ → Result (Option PublicKey)
  -- The bytes of an encoding.
  pub Json : Type 0
  pub encode : SignatureData → Result Json
  pub sha256 : Json → List ℕ
  pub sign : PrivateKey → List ℕ → Result (List ℕ)
  pub verify : PublicKey → List ℕ → List ℕ → Option Error
  pub parse-marshal :
      (k : PublicKey) (bytes : List ℕ) → marshal_key k ≡ ok bytes → parse_key bytes ≡ ok (some k)
  pub verify-sign :
      (k : PrivateKey) (hash signature : List ℕ)
      → sign k hash ≡ ok signature
      → verify (public_of k) hash signature ≡ none
  pub one_hash :
      (k : PublicKey) (hash hash' signature : List ℕ)
      → verify k hash signature ≡ none
      → verify k hash' signature ≡ none
      → hash ≡ hash'
  pub encode-stripped : (d : SignatureData) → encode (stripped d) ≡ encode d
  pub encode_injective :
      (d d' : SignatureData) (bytes : Json)
      → encode d ≡ ok bytes
      → encode d' ≡ ok bytes
      → stripped d ≡ stripped d'

-- The total of the sizes of a list of files, an int64.
unfoldable pub total_of : ℤ → List FileNode → ℤ
total_of total [] = total
total_of total (n ∷ ns) = total_of (add64 total (info n).size) ns

-- The data that SignFileStructureManager signs.
unfoldable pub data_of_structure : FileStructureManager → ℤ → SignatureData
data_of_structure fsm now = record {
  files = appended (get_all_files fsm);
  dirs = appended (get_all_dirs fsm);
  root_nodes = appended fsm.root_nodes;
  file_count = get_file_count fsm;
  dir_count = get_dir_count fsm;
  total_size = get_total_size fsm;
  timestamp = now;
}

abbrev pub signed_at_of : Option StructureMetadata → ℤ
signed_at_of none = pos 0
signed_at_of (some m) = m.signed_at

-- The data that VerifyFileStructure recreates.
unfoldable pub data_of_signed : SignedFileStructure → SignatureData
data_of_signed s = record {
  files = s.files;
  dirs = s.directories;
  root_nodes = s.root_nodes;
  file_count = pos (length (elements s.files));
  dir_count = pos (length (elements s.directories));
  total_size = total_of (pos 0) (elements s.files);
  timestamp = signed_at_of s.metadata;
}

abbrev pub signed_with : FileStructureManager → ℤ → List ℕ → List ℕ → SignedFileStructure
signed_with fsm now key signature = record {
  files = appended (get_all_files fsm);
  public_key = key;
  signature = signature;
  directories = appended (get_all_dirs fsm);
  root_nodes = appended fsm.root_nodes;
  metadata = some (record {
    total_files = get_file_count fsm;
    total_dirs = get_dir_count fsm;
    total_size = get_total_size fsm;
    created_at = now;
    signed_at = now;
    version = "1.0";
  });
}

module _ (cr : Crypto) where
  open cr use {PrivateKey, public_of, marshal_key, parse_key, encode, sha256, sign, verify}

  -- SignFileStructureManager, at the time `now`.
  unfoldable pub sign_file_structure_manager :
      PrivateKey → Option FileStructureManager → ℤ → Result SignedFileStructure
  unfolding data_of_structure
  sign_file_structure_manager key none now =
      err (message (codes "FileStructureManager cannot be nil"))
  sign_file_structure_manager key (some fsm) now = elim (encode (data_of_structure fsm now)) [
    | err e ↦ err (wrapped (codes "failed to marshal signature data") e)
    | ok bytes ↦ elim (sign key (sha256 bytes)) [
      | err e ↦ err (wrapped (codes "failed to sign data") e)
      | ok signature ↦ elim (marshal_key (public_of key)) [
        | err e ↦ err (wrapped (codes "failed to marshal public key") e)
        | ok key_bytes ↦ ok (signed_with fsm now key_bytes signature)
      ]
    ]
  ]

  -- VerifyFileStructure; `none` is that the signature holds.
  unfoldable pub verify_file_structure : Option SignedFileStructure → Option Error
  unfolding data_of_signed
  verify_file_structure none = some (message (codes "signed structure cannot be nil"))
  verify_file_structure (some s) = elim (parse_key s.public_key) [
    | err e ↦ some (wrapped (codes "failed to parse public key") e)
    | ok none ↦ some (message (codes "public key is not RSA"))
    | ok (some key) ↦ elim (encode (data_of_signed s)) [
      | err e ↦ some (wrapped (codes "failed to marshal signature data") e)
      | ok bytes ↦ elim (verify key (sha256 bytes) s.signature) [
        | some e ↦ some (wrapped (codes "signature verification failed") e)
        | none ↦ none
      ]
    ]
  ]

-- The structure after it went over the wire as JSON; the fields of the directories and the root nodes have
-- the option `omitempty`, that of the files has not.
unfoldable pub delivered : SignedFileStructure → SignedFileStructure
delivered s = record s {
  files = map_slice without_paths s.files;
  directories = omit_empty (map_slice without_paths s.directories);
  root_nodes = omit_empty (map_slice without_paths s.root_nodes);
}

-- The loop of CreateSignedFileStructure; `create_node` stands for fileInfo.CreateNode.
add_paths :
    (String → Result FileNode) → FileStructureManager → List String → Result FileStructureManager
add_paths create_node fsm [] = ok fsm
add_paths create_node fsm (path ∷ paths) = elim (add_path create_node fsm path) [
  | err e ↦ err (wrapped (codes "failed to add path " ++ codes path) e)
  | ok fsm' ↦ add_paths create_node fsm' paths
]

-- GenerateKeyPair (pkg/crypto/utils.go); `generate` stands for rsa.GenerateKey.
unfoldable pub generate_key_pair : {K : Type 0} → (ℤ → Result K) → ℤ → Result K
generate_key_pair generate bit_size =
    if ltb_ℤ bit_size (pos 1024)
    then err (message (codes "key size must be at least 1024 bits"))
    else elim (generate bit_size) [
      | err e ↦ err (wrapped (codes "failed to generate RSA key pair") e)
      | ok key ↦ ok key
    ]

abbrev pub key_pair_bit_size : ℤ
key_pair_bit_size = pos 2048

module _ (cr : Crypto) where
  -- CreateSignedFileStructureFromManager, with NewFileStructureSigner.
  unfoldable pub create_signed_file_structure_from_manager :
      (ℤ → Result cr.PrivateKey) → Option FileStructureManager → ℤ → Result SignedFileStructure
  create_signed_file_structure_from_manager generate fsm now =
      elim (generate_key_pair generate key_pair_bit_size) [
        | err e ↦ err (
            wrapped (codes "failed to create signer")
              (wrapped (codes "failed to generate key pair") e))
        | ok key ↦ sign_file_structure_manager cr key fsm now
      ]

  -- CreateSignedFileStructure
  unfoldable pub create_signed_file_structure :
      (ℤ → Result cr.PrivateKey)
      → (String → Result FileNode)
      → List String
      → ℤ
      → Result SignedFileStructure
  unfolding add_paths
  create_signed_file_structure generate create_node [] now =
      err (message (codes "file paths cannot be empty"))
  create_signed_file_structure generate create_node (path ∷ paths) now =
      elim (add_paths create_node new_structure (path ∷ paths)) [
        | err e ↦ err e
        | ok fsm ↦ create_signed_file_structure_from_manager generate (some fsm) now
      ]
