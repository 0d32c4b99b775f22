-- ===== src/Connection/Healthy.antt =====
-- transferFileChunks and a round of performFileTransfer (pkg/webrtc/connection.go) with a file that can be
-- read, while the context is not done and the channel takes every message.
use lan_file_share.Common.{
  ◌≡◌, ◌≢◌, ◌+◌, ◌<◌, ◌^◌, refl, sym, ap, ◌∙◌, subst, arith, ℕ, zero, suc, Bool-cases, inl, inr,
  String, none, some, string_eq, List, [], ◌∷◌, ◌++◌, length, length-append, append_assoc,
  append-nil,
}
use native.Mathlib.Decide.{ℕ_discrete}
use lan_file_share.Common.Int.{ℤ, pos, add64}
use lan_file_share.Common.Maps.{lookup}
use lan_file_share.FileNode.{FileNode, info}
use lan_file_share.FileStructure.{get_file}
use lan_file_share.Chunker.{FileSystem, Chunk, Chunker}
use lan_file_share.Chunker.Progress.{IsHealthy, Fits, next-HasNext, next_done, length_zero}
use lan_file_share.Chunker.Stream.{IsStream}
use lan_file_share.Connection.{
  World, Sender, Ending, done, chunk_message, with_chunker, transfer_file_chunks, after_chunks,
  transfer_file,
}
use lan_file_share.Connection.Rounds.{loop_ends, loop_last, loop_on, after_sent}
use lan_file_share.Connection.Attempts.{
  InTransfer, start-InTransfer, with_chunker-InTransfer, update-InTransfer, complete-moves,
}
use lan_file_share.Connection.Pending.{started, transfer_file_ready}
use lan_file_share.Protocol.{ChunkMessage}
use lan_file_share.Queue.{pending, completed, move_file_in_queue}
use lan_file_share.Queue.View.{status_of}
use lan_file_share.Manager.{UnifiedTransferManager}
use lan_file_share.Manager.Counters.{IsConsistent, complete_transfer-IsConsistent}
use lan_file_share.Session.{Float64}

-- The messages of chunks that are sent from a tick on.
abbrev pub messages : World → FileNode → ℕ → List Chunk → List ChunkMessage
messages w n t [] = []
messages w n t (c ∷ cs) = chunk_message (w.session t) n c ∷ messages w n (suc t) cs

-- The context is not done and the channel takes every message.
pub record IsCalm (w : World) : Type 0 where
  pub uncancelled : (t : ℕ) → w.cancelled t ≡ none
  pub takes : (t : ℕ) (msg : ChunkMessage) → w.refuses t msg ≡ none

module _ (fl : Float64) (fs : FileSystem) (w : World) (n : FileNode) (calm : IsCalm w)
    (healthy : IsHealthy fs) where
  abbrev Session : Type 0
  Session = Sender fl.Float fs.File

  abbrev path : String
  path = (info n).path

  -- The loop sends the rest of the file, and the file stays in transfer.
  record Sends (u : UnifiedTransferManager fl.Float fs.File) (s : Session) (off seq : ℕ)
      (file : List ℕ) (answer : Session × Ending) : Type 0 where
    chunks : List Chunk
    ends : answer.1 ≡ done
    stream : IsStream off seq file chunks
    sends : answer.0.sent ≡ s.sent ++ messages w n s.tick chunks
    stays : InTransfer path u answer.0.utm

  sent-InTransfer :
      (u : UnifiedTransferManager fl.Float fs.File) (s : Session) (c c' : Chunker fs.File)
      (total : ℤ) (ch : Chunk)
      → InTransfer path u s.utm
      → InTransfer path u (after_sent fl fs w 0 s n c c' total (calm.uncancelled s.tick) ch).utm
  sent-InTransfer u s c c' total ch v =
      (update-InTransfer fl path u (with_chunker fl fs w s path c').utm
        (with_chunker-InTransfer path u s.utm c' v) (w.clock s.tick)
        (add64 total (pos (length ch.bytes)))).0

  loop-Sends :
      (u : UnifiedTransferManager fl.Float fs.File) (fuel : ℕ) (s : Session) (c : Chunker fs.File)
      (off : ℕ) (total : ℤ)
      → Fits fs c off
      → length (fs.unread c.file) < fuel
      → InTransfer path u s.utm
      → Sends u s off c.current_seq
          (fs.unread c.file)
          (transfer_file_chunks fl fs w fuel s n c total)
  loop-Sends u zero s c off total v enough t = absurd (omega arith)
  loop-Sends u (suc fuel) s c off total v enough t =
      elim (ℕ_discrete (length (fs.unread c.file)) 0) [
        | yes e ↦
            let empty = length_zero (fs.unread c.file) e in
            let loop =
              loop_ends fl fs w fuel s n c c total (calm.uncancelled s.tick)
                (next_done fs c off v empty) in
            subst (Sends u s off c.current_seq (fs.unread c.file)) (sym loop) (record {
              chunks = [];
              ends = refl;
              stream = empty;
              sends = sym (append-nil s.sent);
              stays = with_chunker-InTransfer path u s.utm c t;
            })
        | no ahead ↦
            let (c', (ch, x)) = next-HasNext fs healthy c off v (omega arith) in
            let size = ap length x.reads ∙ length-append ch.bytes (fs.unread c'.file) in
            let taken = calm.takes s.tick (chunk_message (w.session s.tick) n ch) in
            let s' = after_sent fl fs w fuel s n c c' total (calm.uncancelled s.tick) ch in
            let t' = sent-InTransfer u s c c' total ch t in
            elim (Bool-cases ch.is_last) [
              | inl last ↦
                  subst (Sends u s off c.current_seq (fs.unread c.file))
                    (sym (
                      loop_last fl fs w fuel s n c c' total (calm.uncancelled s.tick) ch x.steps
                        taken last))
                    (record {
                      chunks = ch ∷ [];
                      ends = refl;
                      stream = (
                        x.placed,
                        x.numbered,
                        x.nonempty,
                        (fs.unread c'.file, x.reads, x.last, x.last.0 last),
                      );
                      sends = refl;
                      stays = t';
                    })
              | inr going ↦
                  let rest =
                    loop-Sends u fuel s' c' (off + length ch.bytes)
                      (add64 total (pos (length ch.bytes))) x.fits (omega (arith, size, x.nonempty))
                      t' in
                  subst (Sends u s off c.current_seq (fs.unread c.file))
                    (sym (
                      loop_on fl fs w fuel s n c c' total (calm.uncancelled s.tick) ch x.steps taken
                        going))
                    (record {
                      chunks = ch ∷ rest.chunks;
                      ends = rest.ends;
                      stream = (
                        x.placed,
                        x.numbered,
                        x.nonempty,
                        (
                          fs.unread c'.file,
                          x.reads,
                          x.last,
                          subst
                              (λ q.
                                IsStream (off + length ch.bytes) q (fs.unread c'.file) rest.chunks)
                              x.counted rest.stream,
                        ),
                      );
                      sends =
                          rest.sends
                          ∙ append_assoc s.sent (chunk_message (w.session s.tick) n ch ∷ [])
                              (messages w n (suc s.tick) rest.chunks);
                      stays = rest.stays;
                    })
            ]
      ]

  -- A round with a pending file sends it whole and completes it.
  pub record Delivers (s : Session) (file : List ℕ) (answer : Session × Ending) : Type 0 where
    pub chunks : List Chunk
    pub tick : ℕ
    pub ends : answer.1 ≡ done
    pub stream : IsStream 0 0 file chunks
    pub sends : answer.0.sent ≡ s.sent ++ messages w n tick chunks
    pub moves : answer.0.utm.queues ≡ (move_file_in_queue s.utm.queues path pending completed).0
    pub structure : answer.0.utm.structure ≡ s.utm.structure
    pub others : (p : String) → p ≢ path → lookup p answer.0.utm.chunkers ≡ lookup p s.utm.chunkers
    pub consistent : IsConsistent answer.0.utm

  pub transfer_file-Delivers :
      (fuel : ℕ) (s : Session) (c : Chunker fs.File)
      → Fits fs c 0
      → c.current_seq ≡ 0
      → length (fs.unread c.file) < fuel
      → get_file s.utm.structure path ≡ some n
      → lookup path s.utm.chunkers ≡ some c
      → IsConsistent s.utm
      → status_of s.utm.queues path ≡ some pending
      → length s.utm.queues.pending_files + length s.utm.queues.completed_files < 2 ^ 63
      → Delivers s (fs.unread c.file) (transfer_file fl fs w fuel s n)
  unfolding after_chunks
  transfer_file-Delivers fuel s c v fresh enough found opened consistent waits bound =
      let s1 = started fl w s path in
      let start = start-InTransfer fl path s.utm n (w.clock s.tick) found in
      let loop = loop-Sends s.utm fuel s1 c 0 (pos 0) v enough start.1 in
      let a = transfer_file_chunks fl fs w fuel s1 n c (pos 0) in
      let ended =
        transfer_file_ready fl fs w fuel s n c found opened
        ∙ ap (λ ending. after_chunks fl fs w n (a.0, ending)) loop.ends in
      let u = a.0.utm in
      let now = w.clock a.0.tick in
      let moved = complete-moves fl path s.utm u loop.stays now in
      let bound' : length u.queues.pending_files + length u.queues.completed_files < 2 ^ 63 =
        subst (λ q. length q.pending_files + length q.completed_files < 2 ^ 63)
          (sym loop.stays.keeps.queues) bound in
      subst (Delivers s (fs.unread c.file)) (sym ended) (record {
        chunks = loop.chunks;
        tick = s1.tick;
        ends = refl;
        stream = subst (λ q. IsStream 0 q (fs.unread c.file) loop.chunks) fresh loop.stream;
        sends = loop.sends;
        moves = moved.0;
        structure = moved.1;
        others = λ p differ. ap (lookup p) moved.2 ∙ loop.stays.keeps.others p differ;
        consistent =
            complete_transfer-IsConsistent fl u path now (loop.stays.consistent consistent waits)
              bound';
      })
