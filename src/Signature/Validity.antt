-- ===== src/Signature/Validity.antt =====
-- What VerifyFileStructure (pkg/crypto/signature.go) accepts.
use lan_file_share.Common.{
  ◌≡◌, ◌↔◌, refl, ap, sym, ◌∙◌, arith, ℕ, none, some, List, [], ◌∷◌, String, subst, Option-cases,
  inl, inr, ◌⊎◌,
}
use lan_file_share.Common.Int.{ℤ}
use lan_file_share.Errors.{Error, Result, ok, err}
use lan_file_share.FileNode.{FileNode}
use lan_file_share.FileStructure.{FileStructureManager, new_structure}
use lan_file_share.Signature.Wire.{
  SameSigned, stripped_same, same_parts, data_of-pathless, delivered-signed_with, data_of-signed,
}
use lan_file_share.Signature.{
  Crypto, SignedFileStructure, stripped, data_of_structure, data_of_signed, signed_with,
  sign_file_structure_manager, add_paths, generate_key_pair, key_pair_bit_size,
  create_signed_file_structure_from_manager, create_signed_file_structure, verify_file_structure,
  delivered,
}

Result-cases : {A : Type 0} (r : Result A) → ((e : Error) × (r ≡ err e)) ⊎ ((a : A) × (r ≡ ok a))
Result-cases (err e) = inl (e, refl)
Result-cases (ok a) = inr (a, refl)

ok_some : {A : Type 0} {a b : A} → ok (some a) ≡ ok (some b) → a ≡ b
ok_some e = cc

module _ (cr : Crypto) where
  open cr use {
    PrivateKey, PublicKey, Json, public_of, marshal_key, parse_key, encode, sha256, sign, verify,
  }

  -- How a structure was signed.
  record IsSigned (key : PrivateKey) (fsm : FileStructureManager) (now : ℤ)
      (s : SignedFileStructure) : Type 0 where
    json : Json
    signature : List ℕ
    key_bytes : List ℕ
    encodes : encode (data_of_structure fsm now) ≡ ok json
    signs : sign key (sha256 json) ≡ ok signature
    marshals : marshal_key (public_of key) ≡ ok key_bytes
    result : signed_with fsm now key_bytes signature ≡ s

  sign-IsSigned :
      (key : PrivateKey) (fsm : FileStructureManager) (now : ℤ) (s : SignedFileStructure)
      → sign_file_structure_manager cr key (some fsm) now ≡ ok s
      → IsSigned key fsm now s
  unfolding sign_file_structure_manager
  sign-IsSigned key fsm now s h = elim (Result-cases (encode (data_of_structure fsm now))) [
    | inl (e, bad) ↦ absurd (ground (arith, h, bad))
    | inr (json, encodes) ↦ elim (Result-cases (sign key (sha256 json))) [
      | inl (e, bad) ↦ absurd (ground (arith, h, encodes, bad))
      | inr (signature, signs) ↦ elim (Result-cases (marshal_key (public_of key))) [
        | inl (e, bad) ↦ absurd (ground (arith, h, encodes, signs, bad))
        | inr (key_bytes, marshals) ↦ record {
          json = json;
          signature = signature;
          key_bytes = key_bytes;
          encodes = encodes;
          signs = signs;
          marshals = marshals;
          result = ground (arith, h, encodes, signs, marshals);
        }
      ]
    ]
  ]

  verifies :
      (s : SignedFileStructure) (key : PublicKey) (json : Json)
      → parse_key s.public_key ≡ ok (some key)
      → encode (data_of_signed s) ≡ ok json
      → verify key (sha256 json) s.signature ≡ none
      → verify_file_structure cr (some s) ≡ none
  unfolding verify_file_structure
  verifies s key json parses encodes accepts =
      rw (verify_file_structure, parses, encodes, accepts) refl

  verify-sign :
      (key : PrivateKey) (fsm : FileStructureManager) (now : ℤ) (s : SignedFileStructure)
      → sign_file_structure_manager cr key (some fsm) now ≡ ok s
      → verify_file_structure cr (some (delivered s)) ≡ none
  unfolding delivered
  verify-sign key fsm now s h =
      let x = sign-IsSigned key fsm now s h in
      let s' = signed_with fsm now x.key_bytes x.signature in
      subst (λ a. verify_file_structure cr (some (delivered a)) ≡ none) x.result
        (verifies (delivered s') (public_of key) x.json
          (cr.parse-marshal (public_of key) x.key_bytes x.marshals)
          (ap encode (
              ap data_of_signed (delivered-signed_with fsm now x.key_bytes x.signature)
              ∙ (data_of-pathless s'
                  ∙ ap stripped (data_of-signed fsm now x.key_bytes x.signature)))
            ∙ (cr.encode-stripped (data_of_structure fsm now) ∙ x.encodes))
          (cr.verify-sign key (sha256 x.json) x.signature x.signs))

  verify-create_from_manager :
      (generate : ℤ → Result PrivateKey) (fsm : FileStructureManager) (now : ℤ)
      (s : SignedFileStructure)
      → create_signed_file_structure_from_manager cr generate (some fsm) now ≡ ok s
      → verify_file_structure cr (some (delivered s)) ≡ none
  unfolding create_signed_file_structure_from_manager
  verify-create_from_manager generate fsm now s h =
      elim (Result-cases (generate_key_pair generate key_pair_bit_size)) [
        | inl (e, bad) ↦ absurd (ground (arith, h, bad))
        | inr (key, generated) ↦ verify-sign key fsm now s (ground (arith, h, generated))
      ]

  -- Whatever CreateSignedFileStructure makes of some paths is accepted by VerifyFileStructure after it was
  -- sent as JSON, which leaves the paths of its nodes out.
  pub verify-create_signed_file_structure :
      (generate : ℤ → Result PrivateKey) (create_node : String → Result FileNode)
      (paths : List String) (now : ℤ) (s : SignedFileStructure)
      → create_signed_file_structure cr generate create_node paths now ≡ ok s
      → verify_file_structure cr (some (delivered s)) ≡ none
  unfolding create_signed_file_structure
  verify-create_signed_file_structure generate create_node [] now s h = absurd (ground (arith, h))
  verify-create_signed_file_structure generate create_node (path ∷ paths) now s h =
      elim (Result-cases (add_paths create_node new_structure (path ∷ paths))) [
        | inl (e, bad) ↦ absurd (ground (arith, h, bad))
        | inr (fsm, added) ↦
            verify-create_from_manager generate fsm now s (ground (arith, h, added))
      ]

  -- What an accepted structure was found to be.
  record IsAccepted (s : SignedFileStructure) : Type 0 where
    key : PublicKey
    json : Json
    parses : parse_key s.public_key ≡ ok (some key)
    encodes : encode (data_of_signed s) ≡ ok json
    accepts : verify key (sha256 json) s.signature ≡ none

  verify-IsAccepted :
      (s : SignedFileStructure) → verify_file_structure cr (some s) ≡ none → IsAccepted s
  unfolding verify_file_structure
  verify-IsAccepted s h = elim (Result-cases (parse_key s.public_key)) [
    | inl (e, bad) ↦ absurd (ground (arith, h, bad))
    | inr (found, parses) ↦ elim (Option-cases found) [
      | inl other ↦ absurd (ground (arith, h, parses, other))
      | inr (key, rsa) ↦ elim (Result-cases (encode (data_of_signed s))) [
        | inl (e, bad) ↦ absurd (ground (arith, h, parses, rsa, bad))
        | inr (json, encodes) ↦ elim (Option-cases (verify key (sha256 json) s.signature)) [
          | inr (e, bad) ↦ absurd (ground (arith, h, parses, rsa, encodes, bad))
          | inl accepts ↦ record {
            key = key;
            json = json;
            parses = parses ∙ ap ok rsa;
            encodes = encodes;
            accepts = accepts;
          }
        ]
      ]
    ]
  ]

  -- Of an accepted structure exactly the nodes without their paths, whether each list of them is nil, and
  -- the time of signing are signed: a structure with its key and signature, the hash of whose encoding is
  -- not by chance that of another encoding, is accepted exactly if it agrees with it on these, whatever
  -- its paths, totals, time of creation and version are. So a nil list is not accepted as an empty one.
  pub verify-covers :
      (s s' : SignedFileStructure)
      → verify_file_structure cr (some s) ≡ none
      → s'.public_key ≡ s.public_key
      → s'.signature ≡ s.signature
      → ((a b : Json)
          → encode (data_of_signed s) ≡ ok a
          → encode (data_of_signed s') ≡ ok b
          → sha256 a ≡ sha256 b
          → a ≡ b)
      → (verify_file_structure cr (some s') ≡ none) ↔ SameSigned s s'
  verify-covers s s' h same_key same_signature unique =
      let x = verify-IsAccepted s h in
      (
        λ h'.
            let y = verify-IsAccepted s' h' in
            let one_key = ok_some (sym x.parses ∙ (ap parse_key (sym same_key) ∙ y.parses)) in
            let one_hash = cr.one_hash x.key (sha256 x.json) (sha256 y.json) s.signature x.accepts (
              subst (λ k. verify k (sha256 y.json) s.signature ≡ none) (sym one_key)
                (ap (verify y.key (sha256 y.json)) (sym same_signature) ∙ y.accepts)) in
            let one = unique x.json y.json x.encodes y.encodes one_hash in
            same_parts s s' (
              cr.encode_injective (data_of_signed s) (data_of_signed s') x.json x.encodes
                (y.encodes ∙ ap ok (sym one))),
        λ same.
            verifies s' x.key x.json (ap parse_key same_key ∙ x.parses)
              (sym (cr.encode-stripped (data_of_signed s'))
                ∙ (ap encode (sym (stripped_same s s' same))
                    ∙ (cr.encode-stripped (data_of_signed s) ∙ x.encodes)))
              (ap (verify x.key (sha256 x.json)) same_signature ∙ x.accepts),
      )
