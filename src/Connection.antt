-- ===== src/Connection.antt =====
-- SenderConn of pkg/webrtc/connection.go: the sending of the files of a session. The data channel, the
-- serializer, the context and the clock are what a `World` answers; the log is left out. A chunker,
-- which the code holds by a pointer of the manager's map, is written back to the map.
pub mod Delivery
pub mod Attempts
pub mod Pending
pub mod Rounds
pub mod Healthy
pub mod Rows
pub mod Achieved
pub mod Completion
pub mod Arrival
pub mod EndToEnd
pub mod Collision
pub mod Cancelled
pub mod Refused
use lan_file_share.Common.{
  ℕ, zero, suc, ◌+◌, ◌/◌, ◌%◌, List, [], ◌∷◌, ◌++◌, Option, none, some, String, string_eq, length,
  ltb, if◌then◌else◌,
}
use lan_file_share.Common.Int.{ℤ, pos, add64}
use lan_file_share.Common.Maps.{insert}
use lan_file_share.Common.Text.{codes}
use lan_file_share.Errors.{Error, message, wrapped}
use lan_file_share.Chunker.{FileSystem, Chunk, Chunker, Next, got, eof, failed, next}
use lan_file_share.FileNode.{FileNode, info}
use lan_file_share.Manager.{UnifiedTransferManager, get_next_pending_file, get_chunker}
use lan_file_share.Manager.Transfers.{
  start_transfer, update_transfer, complete_transfer, fail_transfer,
}
use lan_file_share.Protocol.{TransferSession, ChunkMessage, MessageType}
use lan_file_share.Queue.{MapRange}
use lan_file_share.Session.{Float64}

-- The message that transferFileChunks makes of a chunk.
unfoldable pub chunk_message : TransferSession → FileNode → Chunk → ChunkMessage
chunk_message s n c = record {
  type = MessageType.chunk_data;
  session = s;
  file_id = (info n).path;
  file_name = codes (info n).name;
  sequence_no = c.sequence_no;
  offset = c.offset;
  bytes = c.bytes;
  chunk_hash = c.hash;
  total_size = (info n).size;
  expected_hash = (info n).checksum;
  error_message = "";
}

-- What the surroundings answer at each tick, which is a round of one of the loops: ctx.Err() of a
-- context that is done, the error of sendMessage, what NewTransferSession makes of the service's ID, the
-- time and the order of a map.
pub record World : Type 0 where
  pub cancelled : ℕ → Option Error
  pub refuses : ℕ → ChunkMessage → Option Error
  pub session : ℕ → TransferSession
  pub clock : ℕ → ℤ
  pub range : ℕ → MapRange

-- The manager of the session, the tick, and the messages that the channel took.
pub record Sender (F C : Type 0) : Type 0 where
  pub utm : UnifiedTransferManager F C
  pub tick : ℕ
  pub sent : List ChunkMessage

-- How a loop ended: it returned nil or an error, it dereferenced a nil chunk, or the fuel ran out.
pub data Ending : Type 0 where
  done : Ending
  stopped : Error → Ending
  crashed out_of_fuel : Ending

-- A round of the chunk loop: the loop goes on with a chunker and the bytes sent, or it is over.
pub data Round (F C : Type 0) : Type 0 where
  again : Sender F C → Chunker C → ℤ → Round F C
  over : Sender F C → Ending → Round F C

-- %d of a uint32, at most ten digits.
decimal : ℕ → ℕ → List ℕ
decimal zero n = []
decimal (suc digits) n =
    let front = decimal digits (n / 10) in
    let last = 48 + n % 10 in if ltb n 10 then last ∷ [] else front ++ last ∷ []

unfoldable pub send_failure : ℕ → Error → Error
unfolding decimal
send_failure seq e = wrapped (codes "failed to send chunk " ++ decimal 10 seq) e

module _ (fl : Float64) (fs : FileSystem) (w : World) where
  -- transferFileChunks from the message on.
  unfoldable pub send_chunk :
      Sender fl.Float fs.File → FileNode → Chunker fs.File → ℤ → Chunk → Round fl.Float fs.File
  unfolding send_failure
  send_chunk s n c total ch =
      let msg = chunk_message (w.session s.tick) n ch in
      elim (w.refuses s.tick msg) [
        | some e ↦ over (record s { tick = suc s.tick }) (stopped (send_failure ch.sequence_no e))
        | none ↦
            let total' = add64 total (pos (length ch.bytes)) in
            let s' = record s {
              utm = (update_transfer fl s.utm (info n).path total' (w.clock s.tick)).0;
              tick = suc s.tick;
              sent = s.sent ++ msg ∷ [];
            } in
            if ch.is_last then over s' done else again s' c total'
      ]

  unfoldable pub after_next :
      Sender fl.Float fs.File → FileNode → Chunker fs.File → ℤ → Next → Round fl.Float fs.File
  unfolding send_chunk
  after_next s n c total (got ch) = send_chunk s n c total ch
  after_next s n c total eof = over s done
  after_next s n c total (failed (some e)) =
      over s (stopped (wrapped (codes "failed to get next chunk") e))
  after_next s n c total (failed none) = over s crashed

  abbrev pub with_chunker :
      Sender fl.Float fs.File → String → Chunker fs.File → Sender fl.Float fs.File
  with_chunker s path c = record s {
    utm = record s.utm { chunkers = insert path c s.utm.chunkers };
  }

  unfoldable pub transfer_round :
      Sender fl.Float fs.File → FileNode → Chunker fs.File → ℤ → Round fl.Float fs.File
  unfolding after_next
  transfer_round s n c total = elim (w.cancelled s.tick) [
    | some e ↦ over s (stopped e)
    | none ↦ let (c', r) = next fs c in after_next (with_chunker s (info n).path c') n c' total r
  ]

  -- transferFileChunks
  unfoldable pub transfer_file_chunks :
      ℕ
      → Sender fl.Float fs.File
      → FileNode
      → Chunker fs.File
      → ℤ
      → Sender fl.Float fs.File × Ending
  unfolding transfer_round
  transfer_file_chunks zero s n c total = (s, out_of_fuel)
  transfer_file_chunks (suc fuel) s n c total = elim (transfer_round s n c total) [
    | over s' ending ↦ (s', ending)
    | again s' c' total' ↦ transfer_file_chunks fuel s' n c' total'
  ]

  -- handleTransferFailure
  unfoldable pub handle_transfer_failure :
      Sender fl.Float fs.File → String → Error → Sender fl.Float fs.File
  handle_transfer_failure s path e = record s {
    utm = (fail_transfer fl s.utm path e (w.clock s.tick)).0;
    tick = suc s.tick;
  }

  -- The end of a round of performFileTransfer, by how the chunk loop ended.
  unfoldable pub after_chunks :
      FileNode → Sender fl.Float fs.File × Ending → Sender fl.Float fs.File × Ending
  unfolding handle_transfer_failure
  after_chunks n (s, done) = (
    record s {
      utm = (complete_transfer fl s.utm (info n).path (w.clock s.tick)).0;
      tick = suc s.tick;
    },
    done,
  )
  after_chunks n (s, stopped e) = (handle_transfer_failure s (info n).path e, done)
  after_chunks n (s, crashed) = (s, crashed)
  after_chunks n (s, out_of_fuel) = (s, out_of_fuel)

  -- A round of the loop of performFileTransfer; `done` says that the loop goes on.
  unfoldable pub transfer_file :
      ℕ → Sender fl.Float fs.File → FileNode → Sender fl.Float fs.File × Ending
  unfolding after_chunks transfer_file_chunks
  transfer_file fuel s n =
      let path = (info n).path in
      let (u, failure) = start_transfer fl s.utm path (w.clock s.tick) in
      let s' = record s { utm = u; tick = suc s.tick } in
      elim failure [
        | some e ↦ (handle_transfer_failure s' path e, done)
        | none ↦ elim (get_chunker u path) [
          | none ↦ (
            handle_transfer_failure s' path
                (message (codes "chunker not found for file: " ++ codes path)),
            done,
          )
          | some c ↦ after_chunks n (transfer_file_chunks fuel s' n c (pos 0))
        ]
      ]

  -- performFileTransfer, with fuel for its rounds and for those of each chunk loop.
  unfoldable pub perform_file_transfer :
      ℕ → ℕ → Sender fl.Float fs.File → Sender fl.Float fs.File × Ending
  unfolding transfer_file
  perform_file_transfer zero chunk_fuel s = (s, out_of_fuel)
  perform_file_transfer (suc fuel) chunk_fuel s =
      elim (get_next_pending_file (w.range s.tick) s.utm) [
        | none ↦ (s, done)
        | some n ↦
            let (s', ending) = transfer_file chunk_fuel s n in
            elim ending [
              | done ↦ perform_file_transfer fuel chunk_fuel s'
              | stopped e ↦ (s', stopped e)
              | crashed ↦ (s', crashed)
              | out_of_fuel ↦ (s', out_of_fuel)
            ]
      ]
