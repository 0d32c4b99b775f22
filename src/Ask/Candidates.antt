-- ===== src/Ask/Candidates.antt =====
-- CandidateHandler of api/receiver.go: what becomes of a candidate that the sender posts.
use lan_file_share.Common.{
  lt_or_ge, ℕ, suc, ◌≡◌, ◌≤◌, refl, ap, ◌∙◌, false, inl, inr, ◌⊎◌, Option, none, some, List, [],
  ◌∷◌, ◌++◌, length, map, append_assoc,
}
use lan_file_share.Errors.{Result, ok, err}
use lan_file_share.Ask.{
  candidate_event, candidates_done, Surroundings, Writer, write_event, stream_candidates,
}
use lan_file_share.Request.{
  Outcome, returns, panics, waits, SingleRequestManager, RequestState, with_state, set_candidate,
  get_candidate_chan,
}
use lan_file_share.Request.Calls.{free, Reaches, offered, set_candidate_room, set_candidate_full}
use lan_file_share.Request.Invariant.{WellFormedOption, reaches-Inv}
use lan_file_share.Request.Effects.{unread_candidates}

-- How a request ends: with a status, with a panic, which net/http recovers, or not.
pub data Handled (M : Type 0) : Type 0 where
  responds : ℕ → M → Handled M
  breaks : M → Handled M
  hangs : M → Handled M

abbrev pub respond : {M : Type 0} → Outcome M → Handled M
respond (returns m none) = responds 200 m
respond (returns m (some e)) = responds 500 m
respond (panics m) = breaks m
respond (waits m) = hangs m

-- All candidates are written, behind what was written before.
pub stream_all :
    {O C : Type 0} (su : Surroundings O C) (w : Writer O C) (cs : List C)
    → ((k : ℕ) → su.write k ≡ none)
    → ((c : C) → su.marshal_candidate c ≡ none)
    → su.candidates_end ≡ none
    → let es = w.events ++ (map candidate_event cs ++ candidates_done ∷ []) in
      (k : ℕ) × (stream_candidates su w cs ≡ (record { events = es; tried = k }, none))
unfolding stream_candidates write_event
stream_all su w [] writes marshals ends =
    (suc w.tried, rw (stream_candidates, write_event, ends, writes w.tried) refl)
stream_all {O = O} {C = C} su w (c ∷ cs) writes marshals ends =
    let w' : Writer O C = record {
      events = w.events ++ candidate_event c ∷ [];
      tried = suc w.tried;
    } in
    let (k, all) = stream_all su w' cs writes marshals ends in
    (
      k,
      rw (stream_candidates, write_event, marshals c, writes w.tried)
          (all
            ∙ ap (λ es. (record { events = es; tried = k }, none))
                (append_assoc w.events (candidate_event c ∷ []) _)),
    )

module _ {O F C : Type 0} where
  -- CandidateHandler of the decoded body of a request.
  unfoldable pub candidate_handler :
      Result C → SingleRequestManager O F C → Handled (SingleRequestManager O F C)
  candidate_handler (err e) m = responds 400 m
  candidate_handler (ok c) m = respond (set_candidate m c)

  open_channel :
      (r : RequestState O F C)
      → r.candidate_chan_close ≡ false
      → (get_candidate_chan (with_state (some r))).buffer ≡ r.candidate_chan.buffer
  unfolding get_candidate_chan
  open_channel r unflagged = rw unflagged refl

  module _ (su : Surroundings O C) (w : Writer O C) where
    -- The candidate is the last of those that AskHandler is going to send back.
    pub record Echoes (m : SingleRequestManager O F C) (c : C) (m' : SingleRequestManager O F C)
        : Type 0 where
      pub queued : (get_candidate_chan m').buffer ≡ unread_candidates m ++ c ∷ []
      pub returned :
          (stream_candidates su w (get_candidate_chan m').buffer).0.events
          ≡ w.events
            ++ (map candidate_event (unread_candidates m ++ c ∷ []) ++ candidates_done ∷ [])

    -- One of three things.
    abbrev pub Meets : SingleRequestManager O F C → C → Type 0
    Meets m c =
        ((m.state ≡ none) × (candidate_handler (ok c) m ≡ responds 500 m))
        ⊎ (((10 ≤ length (unread_candidates m)) × (candidate_handler (ok c) m ≡ hangs m))
            ⊎ ((m' : SingleRequestManager O F C) × (candidate_handler (ok c) m ≡ responds 200 m')
                × Echoes m c m'))

    module _ (writes : (k : ℕ) → su.write k ≡ none)
        (marshals : (c : C) → su.marshal_candidate c ≡ none) (ends : su.candidates_end ≡ none) where
      meets :
          (s : Option (RequestState O F C)) (c : C) → WellFormedOption s → Meets (with_state s) c
      unfolding candidate_handler set_candidate
      meets none c v = inl (refl, refl)
      meets (some r) c v = elim (lt_or_ge (length r.candidate_chan.buffer) 10) [
        | inr full ↦ inr (inl (full, ap respond (set_candidate_full r v c full)))
        | inl room ↦ inr (
            inr (
              with_state (some (offered r c)),
              ap respond (set_candidate_room r v c room),
              let queued = open_channel (offered r c) v.candidate_unflagged in
                  record {
                    queued = queued;
                    returned =
                        ap (λ o. o.0.events) (stream_all su w _ writes marshals ends).1
                        ∙ ap (λ cs. w.events ++ (map candidate_event cs ++ candidates_done ∷ []))
                            queued;
                  },
            ))
      ]

-- After any calls and receives, where no call holds the mutex: a candidate that the sender posts is
-- answered with 500 where there is no request, and leaves the handler waiting where ten candidates are
-- unread. Else it is answered with 200 and stands last in the channel of the receiver's own candidates,
-- which AskHandler streams: where that can encode and write all of them, the sender gets its own candidate
-- back as the last of the receiver's.
pub candidate_handler-Meets :
    {O F C : Type 0} (su : Surroundings O C) (w : Writer O C) (m : SingleRequestManager O F C)
    (c : C)
    → ((k : ℕ) → su.write k ≡ none)
    → ((d : C) → su.marshal_candidate d ≡ none)
    → su.candidates_end ≡ none
    → Reaches (free m)
    → Meets su w m c
candidate_handler-Meets su w m c writes marshals ends h =
    meets su w writes marshals ends m.state c (reaches-Inv h)
