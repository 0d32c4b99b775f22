-- ===== src/ReceiverApp.antt =====
-- App of pkg/receiver/app.go: the receiver's connections, the acceptance of a request and the chunks that
-- come in. Connections are numbers. What it logs and sends to the UI is left out, but for the messages of
-- the file receiver.
pub mod Announced
pub mod Accepting
use lan_file_share.Common.{
  ℕ, Bool, true, false, Option, none, some, List, [], ◌∷◌, ◌++◌, length, ◌==◌, nat_eq,
  if◌then◌else◌,
}
use lan_file_share.Common.Int.{pos}
use lan_file_share.Common.Maps.{Map}
use lan_file_share.Common.Text.{codes}
use lan_file_share.Errors.{Error, message, Result, ok, err}
use lan_file_share.Protocol.{ChunkMessage}
use lan_file_share.Receiver.{
  FileReceiver, System, new_file_receiver, set_expected_files, process_chunk,
}
use lan_file_share.Request.{
  SingleRequestManager, Outcome, returns, panics, waits, set_decision, set_answer, set_candidate,
  close_candidate_chan, get_offer, get_signed_files,
}
use lan_file_share.Signature.{SignedFileStructure, elements}

-- `disk` is what the first file receiver finds, `closed_conns` the calls of Close in their order.
pub record App (O C : Type 0) : Type 0 where
  pub manager : SingleRequestManager O (Option SignedFileStructure) C
  pub active_conn : Option ℕ
  pub closed_conns : List ℕ
  pub output_path : List ℕ
  pub disk : Map (List ℕ) (List ℕ)
  pub file_receiver : Option FileReceiver

-- What handleAcceptFileRequest meets: NewReceiverConnection, HandleOfferAndCreateAnswer, what hctx.Err gives
-- before the answer is sent, and the calls of OnICECandidate before that: the candidates, and whether the
-- nil that ends them came.
pub record Handshake (O C : Type 0) : Type 0 where
  pub new_connection : Result ℕ
  pub create_answer : ℕ → O → Result O
  pub gathered : List C
  pub all_gathered : Bool
  pub timed_out : Option Error

-- A call whose error is only logged.
abbrev pub whatever_error : {M : Type 0} → Outcome M → (M → Outcome M) → Outcome M
whatever_error (returns m e) next = next m
whatever_error (panics m) next = panics m
whatever_error (waits m) next = waits m

module _ {O C : Type 0} where
  abbrev pub close_conn : App O C → ℕ → App O C
  close_conn a conn = record a { closed_conns = a.closed_conns ++ conn ∷ [] }

  -- setActiveConn
  unfoldable pub set_active_conn : App O C → ℕ → App O C
  set_active_conn a conn =
      let b = record a { active_conn = some conn } in
      elim a.active_conn [ none ↦ b | some old ↦ close_conn b old ]

  -- closeActiveConnectionIfSameConn
  unfoldable pub close_active_connection_if_same_conn : App O C → ℕ → App O C
  close_active_connection_if_same_conn a conn = elim a.active_conn [
    | none ↦ a
    | some active ↦
        if active == conn then record (close_conn a active) { active_conn = none } else a
  ]

  -- handleInboundCandidate; the error of AddICECandidate is only logged.
  unfoldable pub handle_inbound_candidate : App O C → Option Error
  handle_inbound_candidate a = elim a.active_conn [
    | none ↦ some (message (codes "received an ICE candidate but there is no active connection"))
    | some active ↦ none
  ]

  abbrev pub with_outcome :
      App O C → Outcome (SingleRequestManager O (Option SignedFileStructure) C) → Outcome (App O C)
  with_outcome a (returns m e) = returns (record a { manager = m }) e
  with_outcome a (panics m) = panics (record a { manager = m })
  with_outcome a (waits m) = waits (record a { manager = m })

  -- `if err := …; err != nil { return err }`
  abbrev pub unless_error : Outcome (App O C) → (App O C → Outcome (App O C)) → Outcome (App O C)
  unless_error (returns a none) next = next a
  unless_error (returns a (some e)) next = returns a (some e)
  unless_error (panics a) next = panics a
  unless_error (waits a) next = waits a

  -- The callback that OnICECandidate sets, for the candidates and then nil if that came.
  unfoldable pub on_ice_candidates :
      SingleRequestManager O (Option SignedFileStructure) C
      → List C
      → Bool
      → Outcome (SingleRequestManager O (Option SignedFileStructure) C)
  on_ice_candidates m [] false = returns m none
  on_ice_candidates m [] true = close_candidate_chan m
  on_ice_candidates m (c ∷ cs) all =
      whatever_error (set_candidate m c) (λ m'. on_ice_candidates m' cs all)

  -- The deferred function: the connection is closed unless all went well.
  abbrev pub close_unless_success : ℕ → Outcome (App O C) → Outcome (App O C)
  close_unless_success conn (returns a none) = returns a none
  close_unless_success conn (returns a (some e)) = returns (close_conn a conn) (some e)
  close_unless_success conn (panics a) = panics (close_conn a conn)
  close_unless_success conn (waits a) = waits a

  -- The end of handleAcceptFileRequest.
  unfoldable pub send_answer_of : Handshake O C → App O C → ℕ → O → Outcome (App O C)
  unfolding set_active_conn
  send_answer_of h a conn answer = elim h.timed_out [
    | some e ↦ returns (close_conn a conn) (some e)
    | none ↦
        close_unless_success conn
          (with_outcome (set_active_conn a conn) (set_answer a.manager answer))
  ]

  unfoldable pub accept_offer : Handshake O C → App O C → Result O → Outcome (App O C)
  unfolding send_answer_of on_ice_candidates
  accept_offer h a (err e) = returns a (some e)
  accept_offer h a (ok offer) = elim h.new_connection [
    | err e ↦ returns a (some e)
    | ok conn ↦ elim (h.create_answer conn offer) [
      | err e ↦ returns a (some e)
      | ok answer ↦
          whatever_error (with_outcome a (on_ice_candidates a.manager h.gathered h.all_gathered))
            (λ b. send_answer_of h b conn answer)
    ]
  ]

  -- handleAcceptFileRequest; the signed files that it reads are only logged.
  unfoldable pub handle_accept_file_request : Handshake O C → App O C → Outcome (App O C)
  unfolding accept_offer
  handle_accept_file_request h a =
      unless_error (with_outcome a (set_decision a.manager true))
        (λ b. accept_offer h b (get_offer b.manager))

  -- The file receiver of handleFileChunk, which is made for the first chunk.
  unfoldable pub receiver_of : App O C → FileReceiver
  receiver_of a = elim a.file_receiver [
    | some fr ↦ fr
    | none ↦
        let fr = new_file_receiver a.output_path a.disk in
        elim (get_signed_files a.manager) [
          | err e ↦ fr
          | ok signed ↦ elim signed [
            | none ↦ fr
            | some files ↦ set_expected_files fr (pos (length (elements files.files)))
          ]
        ]
  ]

  -- handleFileChunk
  unfoldable pub handle_file_chunk :
      (List ℕ → Result ChunkMessage) → System → App O C → List ℕ → App O C × Option Error
  unfolding receiver_of
  handle_file_chunk unmarshal sys a text =
      let (fr, e) = process_chunk unmarshal sys (receiver_of a) text in
      (record a { file_receiver = some fr }, e)
