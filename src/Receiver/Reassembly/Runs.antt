-- ===== src/Receiver/Reassembly/Runs.antt =====
-- Messages of one file in sequence through ProcessChunk (pkg/receiver/file_receiver.go).
use mathlib.Core.List.{Memᴰ}
use mathlib.Core.List.Memᴰ
use lan_file_share.Common.{
  ℕ, ◌<◌, ◌^◌, ◌≡◌, ◌≢◌, refl, ap, sym, ◌∙◌, subst, arith, true, false, Option, some, none, List,
  [], ◌∷◌, ◌++◌, length, nat_eq, string_eq, Bool-cases, map, inl, inr, ◌⊎◌,
}
use lan_file_share.Common.Sets.{has, add, has-add}
use lan_file_share.Common.Text.{text_eq}
use lan_file_share.Errors.{Error}
use lan_file_share.Chunker.{Chunk}
use lan_file_share.Chunker.Stream.{IsStream}
use lan_file_share.Connection.{chunk_message}
use lan_file_share.FileNode.{FileNode, info}
use lan_file_share.Protocol.{TransferSession, ChunkMessage}
use lan_file_share.Receiver.{
  FileReceiver, FileReception, System, Outcome, check_complete, process_message,
}
use lan_file_share.Receiver.Reassembly.Sizes.{size_in-lt, size_in-all}
use lan_file_share.Receiver.Reassembly.Steps.{
  IsWorking, IsReceiving, noted, wrote, noted-IsReceiving, process-new, process-seen,
}
use lan_file_share.Receiver.Reassembly.Completion.{IsDelivered, complete-content, check-IsDelivered}

-- Go on with a receiver that has met no error.
abbrev pub and_then : (FileReceiver → Outcome) → Outcome → Outcome
and_then next (fr, none) = next fr
and_then next (fr, some e) = (fr, some e)

-- ProcessChunk of one message after the other, up to the first error.
unfoldable pub process_all : System → FileReceiver → List ChunkMessage → FileReceiver × Option Error
process_all sys fr [] = (fr, none)
process_all sys fr (m ∷ ms) = and_then (λ fr'. process_all sys fr' ms) (process_message sys fr m)

and_then-append :
    (next next' : FileReceiver → Outcome) (end : Outcome) (fr' : FileReceiver) (o : Outcome)
    → ((fr : FileReceiver) → next fr ≡ (fr', none) → next' fr ≡ end)
    → and_then next o ≡ (fr', none)
    → and_then next' o ≡ end
and_then-append next next' end fr' (fr, none) both h = both fr h
and_then-append next next' end fr' (fr, some e) both h = absurd (ground (arith, h))

pub process_all-append :
    (sys : System) (fr fr' : FileReceiver) (ms ns : List ChunkMessage)
    → process_all sys fr ms ≡ (fr', none)
    → process_all sys fr (ms ++ ns) ≡ process_all sys fr' ns
unfolding process_all
process_all-append sys fr fr' [] ns h = ap (λ a. process_all sys a.0 ns) h
process_all-append sys fr fr' (m ∷ ms) ns h =
    and_then-append (λ f. process_all sys f ms) (λ f. process_all sys f (ms ++ ns))
      (process_all sys fr' ns) fr' (process_message sys fr m)
      (λ f k. process_all-append sys f fr' ms ns k) h

only : (c : Chunk) (P : Chunk → Type 0) → P c → (d : Chunk) → Memᴰ d (c ∷ []) → P d
only c P p d (Memᴰ.head e) = subst P (sym e) p
only c P p d (Memᴰ.tail m) = absurd (Memᴰ.not-nil m)

first_or_later :
    (c a : Chunk) (later : List Chunk) (P : Chunk → Type 0)
    → P a
    → ((d : Chunk) → Memᴰ d later → P d)
    → Memᴰ c (a ∷ later)
    → P c
first_or_later c a later P p rest (Memᴰ.head e) = subst P (sym e) p
first_or_later c a later P p rest (Memᴰ.tail m) = rest c m

seen_now :
    (last c : Chunk) (seen : List ℕ)
    → (c ≡ last) ⊎ (has seen c.sequence_no ≡ true)
    → has (add last.sequence_no seen) c.sequence_no ≡ true
seen_now last c seen (inl e) =
    subst (λ x. has (add last.sequence_no seen) x.sequence_no ≡ true) (sym e)
      (ground (arith, has-add last.sequence_no last.sequence_no seen))
seen_now last c seen (inr h) = ground (arith, has-add last.sequence_no c.sequence_no seen)

module _ (sys : System) (session : TransferSession) (n : FileNode) (file : List ℕ)
    (chunks : List Chunk) (path : List ℕ) (works : IsWorking sys path)
    (stream : IsStream 0 0 file chunks) (fits : length file < 2 ^ 63) (last : Chunk)
    (sent : Memᴰ last chunks) where
  abbrev pub messages : List Chunk → List ChunkMessage
  messages cs = map (chunk_message session n) cs

  -- The last chunk has not come yet.
  pub incomplete :
      (fr : FileReceiver) (r : FileReception)
      → IsReceiving n file chunks path fr r
      → has r.received_chunks last.sequence_no ≡ false
      → check_complete sys fr (info n).path (some r) ≡ (fr, none)
  unfolding check_complete
  incomplete fr r v missing = ground (
    arith,
    v.total,
    v.counted,
    size_in-lt file 0 0 chunks r.received_chunks last stream sent missing,
  )

  -- What the receiver has after some of the chunks.
  pub record HasReceived (fr : FileReceiver) (before : FileReception) (arrived : List Chunk)
      (answer : FileReceiver × Option Error) : Type 0 where
    pub after : FileReception
    pub receiving : IsReceiving n file chunks path answer.0 after
    pub no_error : answer.1 ≡ none
    pub missing : has after.received_chunks last.sequence_no ≡ false
    pub kept : (k : ℕ) → has before.received_chunks k ≡ true → has after.received_chunks k ≡ true
    pub noticed : (c : Chunk) → Memᴰ c arrived → has after.received_chunks c.sequence_no ≡ true
    pub counted : answer.0.completed_files ≡ fr.completed_files

  one-HasReceived :
      (fr : FileReceiver) (r : FileReception) (c : Chunk)
      → IsReceiving n file chunks path fr r
      → has r.received_chunks last.sequence_no ≡ false
      → Memᴰ c chunks
      → c.sequence_no ≢ last.sequence_no
      → HasReceived fr r (c ∷ []) (process_message sys fr (chunk_message session n c))
  one-HasReceived fr r c v missing m other =
      elim (Bool-cases (has r.received_chunks c.sequence_no)) [
        | inl seen ↦
            subst (HasReceived fr r (c ∷ []))
              (sym (
                process-seen sys session n file chunks path works stream fits fr r v c m seen
                ∙ incomplete fr r v missing))
              (record {
                after = r;
                receiving = v;
                no_error = refl;
                missing = missing;
                kept = λ k h. h;
                noticed = λ d k. only c (λ x. has r.received_chunks x.sequence_no ≡ true) seen d k;
                counted = refl;
              })
        | inr fresh ↦
            let v' =
              noted-IsReceiving sys session n file chunks path works stream fits fr r v c m fresh in
            let missing' : has (add c.sequence_no r.received_chunks) last.sequence_no ≡ false =
              ground
                (arith, other, missing, has-add c.sequence_no last.sequence_no r.received_chunks) in
            subst (HasReceived fr r (c ∷ []))
              (sym (
                process-new sys session n file chunks path works stream fits fr r v c m fresh
                ∙ incomplete _ _ v' missing'))
              (record {
                after = noted r c;
                receiving = v';
                no_error = refl;
                missing = missing';
                kept = λ k h. ground (arith, has-add c.sequence_no k r.received_chunks);
                noticed = λ d k.
                    only c (λ x. has (add c.sequence_no r.received_chunks) x.sequence_no ≡ true)
                      (ground (arith, has-add c.sequence_no c.sequence_no r.received_chunks)) d k;
                counted = refl;
              })
      ]

  chain :
      (fr : FileReceiver) (r : FileReception) (a : Chunk) (later : List Chunk)
      (next : FileReceiver → Outcome) (o : Outcome)
      → HasReceived fr r (a ∷ []) o
      → ((fr' : FileReceiver) (r' : FileReception)
          → IsReceiving n file chunks path fr' r'
          → has r'.received_chunks last.sequence_no ≡ false
          → HasReceived fr' r' later (next fr'))
      → HasReceived fr r (a ∷ later) (and_then next o)
  chain fr r a later next (fr', some e) one rest = absurd (ground (arith, one.no_error))
  chain fr r a later next (fr', none) one rest =
      let more = rest fr' one.after one.receiving one.missing in
      record {
        after = more.after;
        receiving = more.receiving;
        no_error = more.no_error;
        missing = more.missing;
        kept = λ k h. more.kept k (one.kept k h);
        noticed = λ c m.
            first_or_later c a later (λ x. has more.after.received_chunks x.sequence_no ≡ true)
              (more.kept a.sequence_no (one.noticed a (Memᴰ.head refl))) more.noticed m;
        counted = more.counted ∙ one.counted;
      }

  pub many-HasReceived :
      (fr : FileReceiver) (r : FileReception) (arrived : List Chunk)
      → IsReceiving n file chunks path fr r
      → has r.received_chunks last.sequence_no ≡ false
      → ((c : Chunk) → Memᴰ c arrived → Memᴰ c chunks)
      → ((c : Chunk) → Memᴰ c arrived → c.sequence_no ≢ last.sequence_no)
      → HasReceived fr r arrived (process_all sys fr (messages arrived))
  unfolding process_all
  many-HasReceived fr r [] v missing from others = record {
    after = r;
    receiving = v;
    no_error = refl;
    missing = missing;
    kept = λ k h. h;
    noticed = λ c m. absurd (Memᴰ.not-nil m);
    counted = refl;
  }
  many-HasReceived fr r (a ∷ later) v missing from others =
      chain fr r a later (λ f. process_all sys f (messages later))
        (process_message sys fr (chunk_message session n a))
        (one-HasReceived fr r a v missing (from a (Memᴰ.head refl)) (others a (Memᴰ.head refl)))
        (λ fr' r' v' missing'.
          many-HasReceived fr' r' later v' missing' (λ c m. from c (Memᴰ.tail m))
            (λ c m. others c (Memᴰ.tail m)))

  -- The last chunk completes the file.
  pub last-IsDelivered :
      (fr : FileReceiver) (r : FileReception)
      → IsReceiving n file chunks path fr r
      → has r.received_chunks last.sequence_no ≡ false
      → ((c : Chunk) → Memᴰ c chunks → (c ≡ last) ⊎ (has r.received_chunks c.sequence_no ≡ true))
      → (sys.hash file ≡ (info n).checksum) ⊎ ((info n).checksum ≡ "")
      → IsDelivered
          (info n).path
          file
          path
          fr.completed_files
          (process_message sys fr (chunk_message session n last))
  last-IsDelivered fr r v missing others hashed =
      let v' =
        noted-IsReceiving sys session n file chunks path works stream fits fr r v last sent
          missing in
      let all = λ (c : Chunk) (m : Memᴰ c chunks). seen_now last c r.received_chunks (others c m) in
      let whole = complete-content n file chunks path _ _ stream v' all in
      let enough =
        size_in-all file 0 0 chunks (add last.sequence_no r.received_chunks) stream all in
      subst (IsDelivered (info n).path file path fr.completed_files)
        (sym
          (process-new sys session n file chunks path works stream fits fr r v last sent missing))
        (check-IsDelivered sys n file path works (wrote fr r (info n).path path last) (noted r last)
          v'.open_file v'.place v'.expected hashed whole
          (ground (arith, v'.total, v'.counted, enough)))
