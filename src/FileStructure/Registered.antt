-- ===== src/FileStructure/Registered.antt =====
-- What a round of the loop of AddFileNode registers and queues.
pub mod Complete
use lan_file_share.Common.{
  ℕ, zero, suc, ◌+◌, ◌≤◌, ◌≡◌, refl, ◌⊎◌, inl, inr, Bool, true, false, ◌&&◌, not, String, Option,
  none, some, List, [], ◌∷◌, ◌++◌, arith, ◌==◌, string_eq, if◌then◌else◌, Bool-cases, Option-cases,
}
use mathlib.Core.List.{Memᴰ}
use lan_file_share.Common.Maps.{Map, lookup, insert, is_some, lookup-insert, lookup-insert_self}
use lan_file_share.Errors.{Result, ok, err, after}
use lan_file_share.FileNode.{
  FileNode, FileNodes, no_children, child, node, info, to_list, children, node_count, child_count,
}
use lan_file_share.FileStructure.{
  FileStructureManager, is_registered, register, enqueue, add_loop, add_file_node_unsafe,
  add_file_node,
}

-- The nodes of the trees in a queue.
abbrev weight : List FileNode → ℕ
weight [] = 0
weight (n ∷ ns) = node_count n + weight ns

weight-append : (xs ys : List FileNode) → weight (xs ++ ys) ≡ weight xs + weight ys
weight-append [] ys = omega arith
weight-append (x ∷ xs) ys = omega (arith, weight-append xs ys)

weight-to_list : (c : FileNodes) → weight (to_list c) ≡ child_count c
unfolding child_count
weight-to_list no_children = refl
weight-to_list (child n ns) = omega (arith, weight-to_list ns)

weight-children : (n : FileNode) → suc (weight (children n)) ≡ node_count n
unfolding node_count
weight-children (node i c) = omega (arith, weight-to_list c)

weight-enqueue :
    (fsm : FileStructureManager) (n : FileNode) (queue : List FileNode)
    → suc (weight (enqueue fsm n queue)) ≤ node_count n + weight queue
unfolding enqueue
weight-enqueue fsm n queue = ground (arith, weight-append queue (children n), weight-children n)

-- The nodes of the trees are fuel enough.
add_loop_total :
    (fuel : ℕ) (queue : List FileNode) (fsm : FileStructureManager)
    → weight queue ≤ fuel
    → (fsm' : FileStructureManager) × (add_loop fuel queue fsm ≡ some fsm')
unfolding add_loop
add_loop_total fuel [] fsm h = (fsm, refl)
add_loop_total zero (n ∷ queue) fsm h = absurd (omega (arith, weight-children n))
add_loop_total (suc fuel) (n ∷ queue) fsm h =
    add_loop_total fuel (enqueue fsm n queue) (register fsm n)
      (omega (arith, weight-enqueue fsm n queue))

register_keeps :
    (fsm : FileStructureManager) (n c : FileNode)
    → is_registered fsm c ≡ true
    → is_registered (register fsm n) c ≡ true
unfolding register
register_keeps fsm n c h = ground (
  arith,
  lookup-insert (info n).path (info c).path n fsm.dir_map,
  lookup-insert (info n).path (info c).path n fsm.file_map,
)

register_self :
    (fsm : FileStructureManager) (n : FileNode) → is_registered (register fsm n) n ≡ true
unfolding register
register_self fsm n = ground (
  arith,
  lookup-insert_self (info n).path n fsm.dir_map,
  lookup-insert_self (info n).path n fsm.file_map,
)

-- What holds of each element.
abbrev pub AllOf {ℓ κ} : {N : Type ℓ} → (N → Type κ) → List N → Type κ
AllOf Q [] = Unit
AllOf Q (n ∷ ns) = Q n × AllOf Q ns

AllOf-map {ℓ κ} :
    {A : Type ℓ} {P Q : A → Type κ} (xs : List A) → ((x : A) → P x → Q x) → AllOf P xs → AllOf Q xs
AllOf-map [] f h = tt
AllOf-map (x ∷ xs) f h = (f x h.0, AllOf-map xs f h.1)

AllOf-Memᴰ {ℓ} : {A : Type ℓ} (xs : List A) → AllOf (λ x. Memᴰ x xs) xs
AllOf-Memᴰ [] = tt
AllOf-Memᴰ (x ∷ xs) = (Memᴰ.head refl, AllOf-map xs (λ y. Memᴰ.tail) (AllOf-Memᴰ xs))

Memᴰ-append_left {ℓ} :
    {A : Type ℓ} {a : A} {xs : List A} (ys : List A) → Memᴰ a xs → Memᴰ a (xs ++ ys)
Memᴰ-append_left ys (Memᴰ.head e) = Memᴰ.head e
Memᴰ-append_left ys (Memᴰ.tail m) = Memᴰ.tail (Memᴰ-append_left ys m)

Memᴰ-append_right {ℓ} :
    {A : Type ℓ} {a : A} (xs : List A) {ys : List A} → Memᴰ a ys → Memᴰ a (xs ++ ys)
Memᴰ-append_right [] m = m
Memᴰ-append_right (x ∷ xs) m = Memᴰ.tail (Memᴰ-append_right xs m)

-- A node that is registered, or will be when the queue is worked off.
abbrev Covered : FileStructureManager → List FileNode → FileNode → Type 0
Covered fsm queue c = (is_registered fsm c ≡ true) ⊎ Memᴰ c queue

Memᴰ-enqueue :
    (fsm : FileStructureManager) (n : FileNode) (queue : List FileNode) {c : FileNode}
    → Memᴰ c queue
    → Memᴰ c (enqueue fsm n queue)
unfolding enqueue
Memᴰ-enqueue fsm n queue m = elim (Bool-cases ((info n).is_dir && not (is_registered fsm n))) [
  | inl fresh ↦ rw fresh (Memᴰ-append_left (children n) m)
  | inr old ↦ rw old m
]

step-Covered :
    (fsm : FileStructureManager) (n : FileNode) (queue : List FileNode) (c : FileNode)
    → Covered fsm (n ∷ queue) c
    → Covered (register fsm n) (enqueue fsm n queue) c
step-Covered fsm n queue c (inl h) = inl (register_keeps fsm n c h)
step-Covered fsm n queue c (inr (Memᴰ.head e)) = inl (rw e (register_self fsm n))
step-Covered fsm n queue c (inr (Memᴰ.tail m)) = inr (Memᴰ-enqueue fsm n queue m)

-- The children of every registered directory are covered.
abbrev CoversChildren : FileStructureManager → List FileNode → Type 0
CoversChildren fsm queue =
    (path : String) (d : FileNode)
    → lookup path fsm.dir_map ≡ some d
    → AllOf (Covered fsm queue) (children d)

-- What a round leaves in the map of directories: what was there, or the node itself, then put
-- there with its children in the queue.
register-dir :
    (fsm : FileStructureManager) (n : FileNode) (queue : List FileNode) (path : String)
    (d : FileNode)
    → lookup path (register fsm n).dir_map ≡ some d
    → (lookup path fsm.dir_map ≡ some d) ⊎ ((d ≡ n) × (enqueue fsm n queue ≡ queue ++ children n))
unfolding register enqueue
register-dir fsm n queue path d h = ground (arith, lookup-insert (info n).path path n fsm.dir_map)

step-CoversChildren :
    (fsm : FileStructureManager) (n : FileNode) (queue : List FileNode)
    → CoversChildren fsm (n ∷ queue)
    → CoversChildren (register fsm n) (enqueue fsm n queue)
step-CoversChildren fsm n queue covers path d h = elim (register-dir fsm n queue path d h) [
  | inl old ↦ AllOf-map (children d) (step-Covered fsm n queue) (covers path d old)
  | inr (same, queued) ↦
      rw (same, queued)
        (AllOf-map (children n) (λ c m. inr (Memᴰ-append_right queue m)) (AllOf-Memᴰ (children n)))
]
