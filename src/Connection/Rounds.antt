-- ===== src/Connection/Rounds.antt =====
-- One round of transferFileChunks (pkg/webrtc/connection.go).
use lan_file_share.Common.{◌≡◌, refl, ap, ℕ, suc, true, false, none, some, length, ◌++◌, ◌∷◌, []}
use lan_file_share.Common.Int.{ℤ, pos, add64}
use lan_file_share.Chunker.{FileSystem, Chunk, Chunker, Next, got, eof, next}
use lan_file_share.Connection.{
  World, Sender, done, stopped, chunk_message, send_failure, send_chunk, after_next, with_chunker,
  transfer_round, transfer_file_chunks,
}
use lan_file_share.Errors.{Error}
use lan_file_share.FileNode.{FileNode, info}
use lan_file_share.Manager.Transfers.{update_transfer}
use lan_file_share.Session.{Float64}

module _ (fl : Float64) (fs : FileSystem) (w : World) (fuel : ℕ) (s : Sender fl.Float fs.File)
    (n : FileNode) (c c' : Chunker fs.File) (total : ℤ)
    (uncancelled : w.cancelled s.tick ≡ none) where
  round_reads :
      (r : Next)
      → next fs c ≡ (c', r)
      → transfer_round fl fs w s n c total
        ≡ after_next fl fs w (with_chunker fl fs w s (info n).path c') n c' total r
  unfolding transfer_round
  round_reads r e =
      rw (transfer_round, uncancelled)
        (ap (λ a. after_next fl fs w (with_chunker fl fs w s (info n).path a.0) n a.0 total a.1) e)

  -- With nothing ahead the chunk loop is done.
  pub loop_ends :
      next fs c ≡ (c', eof)
      → transfer_file_chunks fl fs w (suc fuel) s n c total
        ≡ (with_chunker fl fs w s (info n).path c', done)
  unfolding transfer_file_chunks after_next
  loop_ends e = rw (transfer_file_chunks, round_reads eof e) refl

  -- With a chunk that the channel refuses the loop stops.
  pub loop_stops :
      (ch : Chunk) (e : Error)
      → next fs c ≡ (c', got ch)
      → w.refuses s.tick (chunk_message (w.session s.tick) n ch) ≡ some e
      → transfer_file_chunks fl fs w (suc fuel) s n c total ≡ (
        record (with_chunker fl fs w s (info n).path c') { tick = suc s.tick },
        stopped (send_failure ch.sequence_no e),
      )
  unfolding transfer_file_chunks after_next send_chunk
  loop_stops ch e reads refused =
      rw (transfer_file_chunks, round_reads (got ch) reads, refused) refl

  -- The state after a chunk was sent.
  abbrev pub after_sent : Chunk → Sender fl.Float fs.File
  after_sent ch =
      let s' = with_chunker fl fs w s (info n).path c' in
      record s' {
        utm =
            (update_transfer fl s'.utm (info n).path (add64 total (pos (length ch.bytes)))
              (w.clock s.tick)).0;
        tick = suc s.tick;
        sent = s.sent ++ chunk_message (w.session s.tick) n ch ∷ [];
      }

  module _ (ch : Chunk) (reads : next fs c ≡ (c', got ch))
      (taken : w.refuses s.tick (chunk_message (w.session s.tick) n ch) ≡ none) where
    -- With the last chunk sent the loop is done, with another it goes on.
    pub loop_last :
        ch.is_last ≡ true
        → transfer_file_chunks fl fs w (suc fuel) s n c total ≡ (after_sent ch, done)
    unfolding transfer_file_chunks after_next send_chunk
    loop_last last = rw (transfer_file_chunks, round_reads (got ch) reads, taken, last) refl

    pub loop_on :
        ch.is_last ≡ false
        → transfer_file_chunks fl fs w (suc fuel) s n c total
          ≡ transfer_file_chunks fl fs w fuel
              (after_sent ch)
              n
              c'
              (add64 total (pos (length ch.bytes)))
    unfolding transfer_file_chunks after_next send_chunk
    loop_on going = rw (transfer_file_chunks, round_reads (got ch) reads, taken, going) refl
