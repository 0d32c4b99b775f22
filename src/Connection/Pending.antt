-- ===== src/Connection/Pending.antt =====
-- The files that wait to be sent, and a round of performFileTransfer (pkg/webrtc/connection.go) with one.
use lan_file_share.Common.{
  ◌≡◌, ◌≢◌, refl, ap, ◌∙◌, subst, true, String, none, some, string_eq, arith, ℕ, suc, inl, inr,
  List, [], Option-cases,
}
use lan_file_share.Common.Int.{pos}
use lan_file_share.Common.Maps.{lookup}
use lan_file_share.FileNode.{FileNode, info}
use lan_file_share.FileStructure.{get_file}
use lan_file_share.Chunker.{FileSystem, Chunker}
use lan_file_share.Manager.{UnifiedTransferManager}
use lan_file_share.Manager.Transfers.{start_transfer}
use lan_file_share.Common.Sets.{has}
use lan_file_share.Manager.{get_next_pending_file, get_chunker}
use lan_file_share.Connection.{World, Sender, transfer_file, transfer_file_chunks, after_chunks}
use lan_file_share.Queue.{MapRange, get_first_pending_file}
use lan_file_share.Session.{Float64}
use lan_file_share.Connection.Attempts.{start-InTransfer}

pub has_nil : (s : List String) (p : String) → s ≡ [] → has s p ≢ true
unfolding has
has_nil s p e h = ground (arith, e, h)

module _ {F C : Type 0} where
  -- A pending file that can be sent: its node is in the structure and it has a chunker.
  pub record Ready (u : UnifiedTransferManager F C) (path : String) : Type 0 where
    pub file : FileNode
    pub chunker : Chunker C
    pub found : get_file u.structure path ≡ some file
    pub named : (info file).path ≡ path
    pub opened : lookup path u.chunkers ≡ some chunker

  abbrev pub AllReady : UnifiedTransferManager F C → Type 0
  AllReady u = (path : String) → has u.queues.pending_files path ≡ true → Ready u path

  pub AllReady-same :
      (u u' : UnifiedTransferManager F C)
      → u'.queues ≡ u.queues
      → u'.structure ≡ u.structure
      → u'.chunkers ≡ u.chunkers
      → AllReady u
      → AllReady u'
  AllReady-same u u' queues structure chunkers all path h =
      let r = all path (subst (λ q. has q.pending_files path ≡ true) queues h) in
      record {
        file = r.file;
        chunker = r.chunker;
        found = ap (λ f. get_file f path) structure ∙ r.found;
        named = r.named;
        opened = ap (lookup path) chunkers ∙ r.opened;
      }

  -- GetNextPendingFile returns a pending file, if there is one.
  pub get_next_pending_file_found :
      (range : MapRange) (u : UnifiedTransferManager F C)
      → u.queues.pending_files ≢ []
      → (path : String) × (has u.queues.pending_files path ≡ true)
        × (get_next_pending_file range u ≡ get_file u.structure path)
  unfolding get_next_pending_file get_first_pending_file
  get_next_pending_file_found range u some_left =
      elim (Option-cases (range.first_key u.queues.pending_files)) [
        | inl nothing ↦ absurd (some_left (range.first_key-none u.queues.pending_files nothing))
        | inr (path, e) ↦ (
          path,
          range.first_key-has u.queues.pending_files path e,
          rw (get_next_pending_file, e) refl,
        )
      ]

  pub get_next_pending_file_empty :
      (range : MapRange) (u : UnifiedTransferManager F C)
      → u.queues.pending_files ≡ []
      → get_next_pending_file range u ≡ none
  unfolding get_next_pending_file get_first_pending_file
  get_next_pending_file_empty range u e =
      elim (Option-cases (range.first_key u.queues.pending_files)) [
        | inl nothing ↦ rw (get_next_pending_file, nothing) refl
        | inr (path, k) ↦ absurd (
            has_nil u.queues.pending_files path e
              (range.first_key-has u.queues.pending_files path k))
      ]

-- The state in which the chunk loop of a file begins.
abbrev pub started :
    {C : Type 0} → (fl : Float64) → World → Sender fl.Float C → String → Sender fl.Float C
started fl w s path = record s {
  utm = (start_transfer fl s.utm path (w.clock s.tick)).0;
  tick = suc s.tick;
}

-- A round with a file that can be sent is its chunk loop and what follows by its end.
pub transfer_file_ready :
    (fl : Float64) (fs : FileSystem) (w : World) (fuel : ℕ) (s : Sender fl.Float fs.File)
    (n : FileNode) (c : Chunker fs.File)
    → get_file s.utm.structure (info n).path ≡ some n
    → lookup (info n).path s.utm.chunkers ≡ some c
    → transfer_file fl fs w fuel s n
      ≡ after_chunks fl fs w n
          (transfer_file_chunks fl fs w fuel (started fl w s (info n).path) n c (pos 0))
unfolding transfer_file get_chunker
transfer_file_ready fl fs w fuel s n c found opened =
    let start = start-InTransfer fl (info n).path s.utm n (w.clock s.tick) found in
    let opened' = ap (lookup (info n).path) start.2 ∙ opened in
    rw (transfer_file, start.0, get_chunker, opened') refl
