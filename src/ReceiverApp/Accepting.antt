-- ===== src/ReceiverApp/Accepting.antt =====
-- handleAcceptFileRequest (pkg/receiver/app.go) of a new request of the request manager (internal/app/state.go).
use lan_file_share.Common.{
  ℕ, ◌≡◌, ◌≤◌, ◌<◌, true, false, ◌⊎◌, Option, none, some, List, [], ◌∷◌, ◌++◌, length,
}
use lan_file_share.Common.Text.{codes}
use lan_file_share.Errors.{ok, message}
use lan_file_share.ReceiverApp.{App, Handshake, send_answer_of, with_outcome, whatever_error}
use lan_file_share.Request.{SingleRequestManager, RequestState, Outcome, returns, waits, with_state}
use lan_file_share.Request.Calls.{free, Reaches, decided}
use lan_file_share.Signature.{SignedFileStructure}

-- The requests of the receiver.
abbrev pub Asked : Type 0 → Type 0 → Type 0
Asked O C = RequestState O (Option SignedFileStructure) C

module _ {O C : Type 0} where
  abbrev pub with_buffer : Asked O C → List C → Asked O C
  with_buffer r b = record r { candidate_chan = record r.candidate_chan { buffer = b } }

  abbrev pub requested : App O C → Asked O C → App O C
  requested a r = record a { manager = with_state (some r) }

  module _ (h : Handshake O C) (a : App O C) (r : Asked O C) (conn : ℕ) (answer : O) where
    -- The decision, the answer and the candidates stand in the channels, and the connection is the active one.
    pub record Delivers (o : Outcome (App O C)) : Type 0 where
      pub app : App O C
      pub succeeds : o ≡ returns app none
      pub active : app.active_conn ≡ some conn
      pub request : Asked O C
      pub kept : app.manager ≡ with_state (some request)
      pub decisions : request.decision_chan.buffer ≡ true ∷ []
      pub answers : request.answer_chan.buffer ≡ answer ∷ []
      pub candidates : request.candidate_chan.buffer ≡ h.gathered

    -- The request is forgotten with its channels, the connection is closed and still the active one.
    pub record Loses (o : Outcome (App O C)) : Type 0 where
      pub app : App O C
      pub fails : o ≡ returns app (some (message (codes "no active request state")))
      pub active : app.active_conn ≡ some conn
      pub forgotten : app.manager ≡ with_state none
      pub others : List ℕ
      pub closed : app.closed_conns ≡ others ++ conn ∷ []

    abbrev pub Ends : Outcome (App O C) → Type 0
    Ends o =
        ((10 < length h.gathered) × (b : App O C) × (o ≡ waits b))
        ⊎ ((length h.gathered ≤ 10) × (h.all_gathered ≡ false) × Delivers o)
        ⊎ ((length h.gathered ≤ 10) × (h.all_gathered ≡ true) × Loses o)

    module _ (reached : Reaches (free (with_state (some r)))) (undecided : r.decision_sent ≡ false)
        (unanswered : r.answer_sent ≡ false) (no_candidates : r.candidate_chan.buffer ≡ [])
        (connects : h.new_connection ≡ ok conn) (answers : h.create_answer conn r.offer ≡ ok answer)
        (in_time : h.timed_out ≡ none) where
      abbrev go_on :
          Outcome (SingleRequestManager O (Option SignedFileStructure) C) → Outcome (App O C)
      go_on o =
          whatever_error (with_outcome (requested a (decided r true)) o)
            (λ b. send_answer_of h b conn answer)

      abbrev full_request : Asked O C
      full_request = with_buffer (decided r true) (r.candidate_chan.buffer ++ h.gathered)

      abbrev at_answer : Option (Asked O C) → App O C
      at_answer s = record a { manager = with_state s }
