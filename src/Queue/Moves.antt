-- ===== src/Queue/Moves.antt =====
-- What moving a pending file to the completed ones (moveFileInQueue of pkg/transfer/unified_manager.go) leaves
-- in each queue.
use lan_file_share.Common.{
  ◌≡◌, ◌≢◌, arith, true, Bool-cases, inl, inr, String, some, string_eq, ◌⊎◌, ◌==◌,
}
use lan_file_share.Common.Sets.{has, has-add, has-remove}
use lan_file_share.Queue.{Queues, pending, completed, move_file_in_queue}

pub some_inj {ℓ} : {A : Type ℓ} (a b : A) → some a ≡ some b → a ≡ b
some_inj a b e = cc

pub same_or_not : (p path : String) → (p ≡ path) ⊎ (p ≢ path)
same_or_not p path = elim (Bool-cases (p == path)) [
  | inl same ↦ inl ((string_eq.beq_iff p path).0 same)
  | inr other ↦ inr (λ e. ground (arith, other, e, string_eq.beq_iff p path))
]

-- What moving a pending file leaves pending.
pub moved_pending :
    (q : Queues) (path p : String)
    → has q.pending_files path ≡ true
    → has (move_file_in_queue q path pending completed).0.pending_files p ≡ true
    → (has q.pending_files p ≡ true) × (p ≢ path)
unfolding move_file_in_queue
moved_pending q path p waits h =
    ground (arith, waits, h, has-remove path p q.pending_files, string_eq.beq_iff path p)

pub still_pending :
    (q : Queues) (path p : String)
    → has q.pending_files path ≡ true
    → has q.pending_files p ≡ true
    → p ≢ path
    → has (move_file_in_queue q path pending completed).0.pending_files p ≡ true
unfolding move_file_in_queue
still_pending q path p waits h differ =
    ground (arith, waits, h, differ, has-remove path p q.pending_files, string_eq.beq_iff path p)

pub moved_completed :
    (q : Queues) (path p : String)
    → has q.pending_files path ≡ true
    → (has (move_file_in_queue q path pending completed).0.completed_files path ≡ true)
      × (has q.completed_files p ≡ true
          → has (move_file_in_queue q path pending completed).0.completed_files p ≡ true)
unfolding move_file_in_queue
moved_completed q path p waits = (
  ground (arith, waits, has-add path path q.completed_files, string_eq.beq_iff path path),
  λ h. ground (arith, waits, h, has-add path p q.completed_files, string_eq.beq_iff path p),
)
