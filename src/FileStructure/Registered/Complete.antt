-- ===== src/FileStructure/Registered/Complete.antt =====
-- AddFileNode registers the whole tree that it is given.
use lan_file_share.Common.{
  ℕ, zero, suc, ◌≡◌, refl, inl, inr, true, String, some, List, [], ◌∷◌, ◌++◌, arith, string_eq,
  subst,
}
use mathlib.Core.List.{Memᴰ}
use lan_file_share.Common.Maps.{lookup, lookup-insert}
use lan_file_share.Errors.{ok}
use lan_file_share.FileNode.{FileNode, info, children, node_count}
use lan_file_share.FileStructure.{
  FileStructureManager, new_structure, is_registered, register, enqueue, add_loop, add_file_node,
  get_file, get_dir, finish,
}
use lan_file_share.FileStructure.Registered.{
  AllOf, AllOf-map, add_loop_total, Covered, CoversChildren, step-Covered, step-CoversChildren,
}

-- What is registered stays, under the node that it was registered with.
register-file_kept :
    (fsm : FileStructureManager) (n : FileNode) (path : String) (f : FileNode)
    → lookup path fsm.file_map ≡ some f
    → lookup path (register fsm n).file_map ≡ some f
unfolding register
register-file_kept fsm n path f h =
    ground
      (arith, lookup-insert (info n).path path n fsm.file_map, string_eq.beq_iff (info n).path path)

register-dir_kept :
    (fsm : FileStructureManager) (n : FileNode) (path : String) (d : FileNode)
    → lookup path fsm.dir_map ≡ some d
    → lookup path (register fsm n).dir_map ≡ some d
unfolding register
register-dir_kept fsm n path d h =
    ground
      (arith, lookup-insert (info n).path path n fsm.dir_map, string_eq.beq_iff (info n).path path)

-- The loop works off its queue: every node that was covered is registered.
record Loops (fsm : FileStructureManager) (queue : List FileNode) (fsm' : FileStructureManager)
    : Type 0 where
  registered : (c : FileNode) → Covered fsm queue c → Covered fsm' [] c
  complete : CoversChildren fsm queue → CoversChildren fsm' []
  files_kept :
      (path : String) (f : FileNode)
      → lookup path fsm.file_map ≡ some f
      → lookup path fsm'.file_map ≡ some f
  dirs_kept :
      (path : String) (d : FileNode)
      → lookup path fsm.dir_map ≡ some d
      → lookup path fsm'.dir_map ≡ some d

add_loop-Loops :
    (fuel : ℕ) (queue : List FileNode) (fsm fsm' : FileStructureManager)
    → add_loop fuel queue fsm ≡ some fsm'
    → Loops fsm queue fsm'
unfolding add_loop
add_loop-Loops fuel [] fsm fsm' e =
    let e' : fsm ≡ fsm' = cc in
    record {
      registered = λ c h. subst (λ x. Covered x [] c) e' h;
      complete = λ h. subst (λ x. CoversChildren x []) e' h;
      files_kept = λ path f h. subst (λ x. lookup path x.file_map ≡ some f) e' h;
      dirs_kept = λ path d h. subst (λ x. lookup path x.dir_map ≡ some d) e' h;
    }
add_loop-Loops zero (n ∷ queue) fsm fsm' e = cc
add_loop-Loops (suc fuel) (n ∷ queue) fsm fsm' e =
    let rest = add_loop-Loops fuel (enqueue fsm n queue) (register fsm n) fsm' e in
    record {
      registered = λ c h. rest.registered c (step-Covered fsm n queue c h);
      complete = λ h. rest.complete (step-CoversChildren fsm n queue h);
      files_kept = λ path f h. rest.files_kept path f (register-file_kept fsm n path f h);
      dirs_kept = λ path d h. rest.dirs_kept path d (register-dir_kept fsm n path d h);
    }

-- With every registered directory its children are registered.
abbrev pub IsComplete : FileStructureManager → Type 0
IsComplete fsm =
    (path : String) (d : FileNode)
    → get_dir fsm path ≡ some d
    → AllOf (λ c. is_registered fsm c ≡ true) (children d)

Covered-now :
    (fsm : FileStructureManager) (c : FileNode) → Covered fsm [] c → is_registered fsm c ≡ true
Covered-now fsm c (inl h) = h
Covered-now fsm c (inr m) = elim m [ ]

pub new_structure-IsComplete : IsComplete new_structure
unfolding get_dir lookup
new_structure-IsComplete path d h = cc

-- Adding a node to a complete structure succeeds and leaves a complete one, in which the node is
-- registered and every file that was registered before is still there, under the same node.
pub add_file_node-IsComplete :
    (fsm : FileStructureManager) (n : FileNode)
    → IsComplete fsm
    → (fsm' : FileStructureManager) × (add_file_node fsm (some n) ≡ ok fsm')
      × IsComplete fsm'
      × (is_registered fsm' n ≡ true)
      × ((path : String) (f : FileNode) → get_file fsm path ≡ some f → get_file fsm' path ≡ some f)
unfolding add_file_node get_file get_dir
add_file_node-IsComplete fsm n complete =
    let (fsm', e) = add_loop_total (node_count n) (n ∷ []) fsm (omega arith) in
    let done = add_loop-Loops (node_count n) (n ∷ []) fsm fsm' e in
    (
      record fsm' { root_nodes = fsm'.root_nodes ++ n ∷ [] },
      rw (e, finish),
      λ path d h.
          AllOf-map (children d) (Covered-now fsm')
            (done.complete (λ p x k. AllOf-map (children x) (λ c. inl) (complete p x k)) path d h),
      Covered-now fsm' n (done.registered n (inr (Memᴰ.head refl))),
      done.files_kept,
    )
