-- ===== src/Tests/Sendings.antt =====
-- The sending of the files of a session at concrete inputs: two files of three bytes, read in two pieces.
use lan_file_share.Common.{
  ◌≡◌, ◌≤◌, refl, sym, subst, ℕ, zero, suc, true, some, none, String, List, [], ◌∷◌, ◌⊎◌, inl, inr,
  arith, string_eq, Option,
}
use lan_file_share.Common.Int.{ℤ, pos}
use lan_file_share.Common.Maps.{lookup, insert}
use lan_file_share.Common.Sets.{has, add}
use lan_file_share.Common.Text.{codes, contains_any, contains, to_lower}
use lan_file_share.Errors.{Error, message, error_text, errors_is}
use lan_file_share.FileNode.{node_count}
use lan_file_share.FileStructure.{get_file, add_file_node}
use lan_file_share.Chunker.{Chunker, new_chunker_from_file_node}
use lan_file_share.Queue.{MapRange}
use lan_file_share.Retry.Handler.{recoverable, categorize_error}
use lan_file_share.Manager.{UnifiedTransferManager, new_utm, add_file}
use lan_file_share.Manager.Counters.{IsConsistent}
use lan_file_share.Manager.Adding.{new_utm-IsConsistent, add_file-IsConsistent}
use lan_file_share.Connection.{
  World, Sender, out_of_fuel, send_failure, done, perform_file_transfer,
}
use lan_file_share.Connection.Pending.{AllReady}
use lan_file_share.Connection.Refused.{perform_file_transfer-refused}
use lan_file_share.Connection.Cancelled.{perform_file_transfer-cancelled}
use lan_file_share.Connection.Healthy.{IsCalm}
use lan_file_share.Connection.Achieved.{Sendable, Completes}
use lan_file_share.Connection.Completion.{perform_file_transfer-Completes}
use lan_file_share.Tests.Samples.{
  whole, memory, memory_healthy, contents, file_a, file_b, folder, policy, refused,
}

abbrev pub Utm : Type 0
Utm = UnifiedTransferManager ℤ (List ℕ)

abbrev pub loaded : Utm
loaded =
    (add_file whole memory (new_utm whole memory "sender" (pos 4096) policy (pos 1)) (some folder)
      (pos 2)).0

pub loaded-IsConsistent : IsConsistent loaded
loaded-IsConsistent =
    add_file-IsConsistent whole memory (new_utm whole memory "sender" (pos 4096) policy (pos 1))
      (some folder) (pos 2) (new_utm-IsConsistent whole memory "sender" (pos 4096) policy (pos 1))

abbrev pub head_of : List String → Option String
head_of [] = none
head_of (k ∷ s) = some k

pub head_of-has : (s : List String) (k : String) → head_of s ≡ some k → has s k ≡ true
unfolding has
head_of-has [] k e = ground arith
head_of-has (j ∷ s) k e = ground (arith, e, string_eq.beq_iff j k)

pub head_of-none : (s : List String) → head_of s ≡ none → s ≡ []
head_of-none [] e = refl
head_of-none (j ∷ s) e = ground arith

abbrev pub in_order : MapRange
in_order = record {
  first_key = head_of;
  first_key-has = head_of-has;
  first_key-none = head_of-none;
}

abbrev pub world : Option Error → Option Error → World
world cancellation refusal = record {
  cancelled = λ t. cancellation;
  refuses = λ t msg. refusal;
  session = λ t. record { service_id = "s"; session_id = "1"; session_create_at = pos t };
  clock = λ t. pos t;
  range = λ t. in_order;
}

abbrev pub sender : Sender ℤ (List ℕ)
sender = record { utm = loaded; tick = 0; sent = [] }

abbrev pub chunker : Chunker (List ℕ)
chunker = record {
  file = contents;
  expected_hash = "00";
  chunk_size = 4096;
  current_seq = 0;
  total_byte_size = pos 3;
  bytes_read = pos 0;
}

pub two_files : (p : String) → has loaded.queues.pending_files p ≡ true → (p ≡ "b") ⊎ (p ≡ "a")
unfolding new_utm add_file has lookup add_file_node node_count new_chunker_from_file_node insert add
two_files p h = ground (arith, h, string_eq.beq_iff "a" p, string_eq.beq_iff "b" p)

a-Sendable : Sendable memory 4 loaded "a"
unfolding new_utm add_file has lookup add_file_node node_count new_chunker_from_file_node insert add
    get_file
a-Sendable = record {
  ready = record { file = file_a; chunker = chunker; found = refl; named = refl; opened = refl };
  fits = record {
    at = refl;
    total = refl;
    in_int64 = omega arith;
    in_uint32 = omega arith;
    chunk_pos = omega arith;
  };
  fresh = refl;
  enough = omega arith;
}

b-Sendable : Sendable memory 4 loaded "b"
unfolding new_utm add_file has lookup add_file_node node_count new_chunker_from_file_node insert add
    get_file
b-Sendable = record {
  ready = record { file = file_b; chunker = chunker; found = refl; named = refl; opened = refl };
  fits = record {
    at = refl;
    total = refl;
    in_int64 = omega arith;
    in_uint32 = omega arith;
    chunk_pos = omega arith;
  };
  fresh = refl;
  enough = omega arith;
}

pub all-Sendable :
    (p : String) → has loaded.queues.pending_files p ≡ true → Sendable memory 4 loaded p
all-Sendable p h = elim (two_files p h) [
  | inl e ↦ subst (Sendable memory 4 loaded) (sym e) b-Sendable
  | inr e ↦ subst (Sendable memory 4 loaded) (sym e) a-Sendable
]

loaded-AllReady : AllReady loaded
loaded-AllReady p h = (all-Sendable p h).ready

pub calm : IsCalm (world none none)
calm = record { uncancelled = λ t. refl; takes = λ t msg. refl }

perform_file_transfer-Completes_example :
    Completes whole memory
      (world none none)
      4
      calm
      memory_healthy
      sender
      (perform_file_transfer whole memory (world none none) 3 4 sender)
unfolding new_utm add_file has lookup add_file_node node_count new_chunker_from_file_node insert add
perform_file_transfer-Completes_example =
    perform_file_transfer-Completes whole memory (world none none) 4 calm memory_healthy 3 sender
      loaded-IsConsistent all-Sendable (omega arith) (omega arith)

abbrev cancellation : Error
cancellation = message (codes "context canceled")

perform_file_transfer-cancelled_example :
    (perform_file_transfer whole memory (world (some cancellation) none) 1000 7 sender).1
    ≡ out_of_fuel
unfolding new_utm add_file has lookup add_file_node node_count new_chunker_from_file_node insert add
    categorize_error contains_any contains to_lower error_text errors_is
perform_file_transfer-cancelled_example =
    perform_file_transfer-cancelled whole memory (world (some cancellation) none) cancellation
      (λ t. refl) refl 1000 6 sender loaded-AllReady (λ e. cc) (ground arith)

abbrev single : Sender ℤ (List ℕ)
single = record {
  utm =
      (add_file whole memory (new_utm whole memory "sender" (pos 4096) policy (pos 1)) (some file_a)
        (pos 2)).0;
  tick = 0;
  sent = [];
}

recovers : (k : ℕ) → k ≤ 3 → categorize_error (some (send_failure k refused)) ≡ recoverable
unfolding send_failure categorize_error contains_any contains to_lower error_text errors_is
recovers zero h = refl
recovers (suc zero) h = refl
recovers (suc (suc zero)) h = refl
recovers (suc (suc (suc zero))) h = refl
recovers (suc (suc (suc (suc k)))) h = absurd (omega arith)

perform_file_transfer-refused_example :
    let (s', ending) = perform_file_transfer whole memory (world none (some refused)) 5 7 single in
    (ending ≡ done)
    × (s'.sent ≡ [])
    × (s'.utm.queues.pending_files ≡ [])
    × (has s'.utm.queues.completed_files "a" ≡ true)
unfolding new_utm add_file has lookup add_file_node node_count new_chunker_from_file_node insert add
    get_file
perform_file_transfer-refused_example =
    perform_file_transfer-refused whole memory (world none (some refused)) refused file_a
      (λ t. refl) (λ t msg. refl) memory_healthy 4 6 single chunker 0
      (record {
        at = refl;
        total = refl;
        in_int64 = omega arith;
        in_uint32 = omega arith;
        chunk_pos = omega arith;
      })
      (omega arith) refl refl refl recovers (ground arith)
