-- ===== src/ReceiverApp/Announced.antt =====
-- How often the receiver (pkg/receiver/app.go) says that a transfer is finished.
use lan_file_share.Common.{
  ℕ, ◌≡◌, ◌≤◌, refl, ap, subst, arith, Bool, true, false, Option, none, some, List, if◌then◌else◌,
}
use lan_file_share.Common.Int.{ℤ, pos, ltb_ℤ}
use lan_file_share.Common.Maps.{is_some}
use lan_file_share.Errors.{Result}
use lan_file_share.Protocol.{ChunkMessage}
use lan_file_share.Receiver.{FileReceiver, System, set_expected_files, process_chunk}
use lan_file_share.Receiver.Announced.{announcements, IsHonest, process_chunk-IsHonest}
use lan_file_share.ReceiverApp.{App, handle_file_chunk, receiver_of}
use lan_file_share.Request.{SingleRequestManager, get_signed_files}
use lan_file_share.Signature.{SignedFileStructure}

module _ {O C : Type 0} (unmarshal : List ℕ → Result ChunkMessage) where
  -- Chunks that come in, while requests and connections come and go.
  pub data Steps (a : App O C) : App O C → Type 0 where
    here : Steps a a
    chunk :
        {b : App O C}
        → Steps a b
        → (sys : System) (text : List ℕ) → Steps a (handle_file_chunk unmarshal sys b text).0
    requests :
        {b : App O C}
        → Steps a b
        → (m : SingleRequestManager O (Option SignedFileStructure) C)
        → Steps a (record b { manager = m })
    connections :
        {b : App O C}
        → Steps a b
        → (active : Option ℕ) (closed_conns : List ℕ)
        → Steps a (record b { active_conn = active; closed_conns = closed_conns })

-- The messages that say that the transfer is finished.
abbrev pub announced : {O C : Type 0} → App O C → ℕ
announced a = elim a.file_receiver [ none ↦ 0 | some fr ↦ announcements fr.ui_messages ]

module _ {O C : Type 0} where
  -- The first chunk finds the number of expected files, or 0 without a request.
  new_receiver :
      (a : App O C)
      → a.file_receiver ≡ none
      → IsHonest (receiver_of a).expected_files (receiver_of a)
  unfolding receiver_of set_expected_files get_signed_files
  new_receiver a e = record {
    expects = refl;
    once = ground (arith, e);
    asked = λ no. ground (arith, e);
  }

  unasked :
      (a : App O C)
      → a.file_receiver ≡ none
      → a.manager.state ≡ none
      → (receiver_of a).expected_files ≡ pos 0
  unfolding receiver_of set_expected_files get_signed_files
  unasked a e gone = rw (receiver_of, e, get_signed_files, gone) refl

  -- The file receiver stays, and is honest.
  abbrev Keeps : ℤ → App O C → Type 0
  Keeps n b = (fr : FileReceiver) × (b.file_receiver ≡ some fr) × IsHonest n fr

  module _ (unmarshal : List ℕ → Result ChunkMessage) where
    Steps-Keeps : (n : ℤ) (a b : App O C) → Keeps n a → Steps unmarshal a b → Keeps n b
    unfolding handle_file_chunk receiver_of
    Steps-Keeps n a b v here = v
    Steps-Keeps n a b v (requests s m) = Steps-Keeps n a _ v s
    Steps-Keeps n a b v (connections s c d) = Steps-Keeps n a _ v s
    Steps-Keeps n a b v (chunk {b = c} s sys text) =
        let (fr, kept, honest) = Steps-Keeps n a c v s in
        (
          _,
          refl,
          subst (λ o. IsHonest n (process_chunk unmarshal sys (receiver_of c) text).0) kept
              (rw (receiver_of, kept)
                (process_chunk-IsHonest sys n unmarshal fr text _ refl honest)),
        )

    after_first :
        (sys : System) (text : List ℕ) (a b : App O C)
        → a.file_receiver ≡ none
        → Steps unmarshal (handle_file_chunk unmarshal sys a text).0 b
        → Keeps (receiver_of a).expected_files b
    unfolding handle_file_chunk
    after_first sys text a b e =
        let n = (receiver_of a).expected_files in
        Steps-Keeps n _ b (
          _,
          refl,
          process_chunk-IsHonest sys n unmarshal (receiver_of a) text _ refl (new_receiver a e),
        )

  bounded :
      (a b : App O C)
      → Keeps (receiver_of a).expected_files b
      → a.file_receiver ≡ none
      → (s : Bool) → is_some a.manager.state ≡ s
      → announced b ≤ (if s then 1 else 0)
  bounded a b (fr, kept, v) e true asked = ground (arith, kept, v.once)
  bounded a b (fr, kept, v) e false gone =
      let n = unasked a e (ground (arith, gone)) in
      ground (arith, kept, v.once, v.asked (ap (ltb_ℤ (pos 0)) n))

-- The receiver keeps the file receiver of the first chunk for all transfers. Whatever chunks, requests and
-- connections follow, it says at most once that a transfer is finished, so not at the end of a second one; and
-- never if there was no request, as after CloseCandidateChan or CloseRequest, when the first chunk came.
pub Steps-announced :
    {O C : Type 0} (unmarshal : List ℕ → Result ChunkMessage) (sys : System) (text : List ℕ)
    (a b : App O C)
    → a.file_receiver ≡ none
    → Steps unmarshal (handle_file_chunk unmarshal sys a text).0 b
    → announced b ≤ (if is_some a.manager.state then 1 else 0)
Steps-announced unmarshal sys text a b e s =
    bounded a b (after_first unmarshal sys text a b e s) e _ refl
