-- ===== src/Tests/Legacies.antt =====
-- The older transfer manager at concrete inputs.
use mathlib.Core.List.{Memᴰ}
use mathlib.Core.List.Memᴰ
use lan_file_share.Common.{◌≡◌, ◌≢◌, ap, sym, ◌∙◌, arith, String, string_eq, none, [], ◌∷◌}
use lan_file_share.Common.Int.{pos}
use lan_file_share.Common.Maps.{lookup}
use lan_file_share.FileNode.{FileNode, info}
use lan_file_share.Chunker.{new_chunker_from_file_node}
use lan_file_share.Legacy.{FileTransferManager, add_in_order}
use lan_file_share.Legacy.Orders.{AllMade, add_in_order_any}
use lan_file_share.Tests.Samples.{memory, file_a, file_b}

abbrev empty : FileTransferManager (memory.File)
empty = record { chunkers = []; max_concurrency = pos 12 }

made : AllMade memory (file_a ∷ file_b ∷ [])
unfolding new_chunker_from_file_node
made n (Memᴰ.head e) = (_, ap (λ x. new_chunker_from_file_node memory x (pos 65536)) e)
made n (Memᴰ.tail (Memᴰ.head e)) = (_, ap (λ x. new_chunker_from_file_node memory x (pos 65536)) e)
made n (Memᴰ.tail (Memᴰ.tail i)) = absurd (Memᴰ.not-nil i)

swapped : (n x y : FileNode) → Memᴰ n (x ∷ y ∷ []) → Memᴰ n (y ∷ x ∷ [])
swapped n x y (Memᴰ.head e) = Memᴰ.tail (Memᴰ.head e)
swapped n x y (Memᴰ.tail (Memᴰ.head e)) = Memᴰ.head e
swapped n x y (Memᴰ.tail (Memᴰ.tail i)) = absurd (Memᴰ.not-nil i)

a-b : ◌≢◌ {A = String} "a" "b"
a-b e = ground (arith, e, string_eq.beq_iff "a" "b")

path_of : FileNode → String
path_of n = (info n).path

own :
    (n m : FileNode)
    → Memᴰ n (file_a ∷ file_b ∷ [])
    → Memᴰ m (file_a ∷ file_b ∷ [])
    → (info n).path ≡ (info m).path
    → n ≡ m
own n m (Memᴰ.head e) (Memᴰ.head k) same = e ∙ sym k
own n m (Memᴰ.head e) (Memᴰ.tail (Memᴰ.head k)) same =
    absurd (a-b (sym (ap (λ x. (info x).path) e) ∙ (same ∙ ap (λ x. (info x).path) k)))
own n m (Memᴰ.tail (Memᴰ.head e)) (Memᴰ.head k) same =
    absurd (a-b (sym (ap (λ x. (info x).path) k) ∙ (sym same ∙ ap (λ x. (info x).path) e)))
own n m (Memᴰ.tail (Memᴰ.head e)) (Memᴰ.tail (Memᴰ.head k)) same = e ∙ sym k
own n m (Memᴰ.tail (Memᴰ.tail i)) j same = absurd (Memᴰ.not-nil i)
own n m i (Memᴰ.tail (Memᴰ.tail j)) same = absurd (Memᴰ.not-nil j)

add_in_order_any_example :
    let (left, failure) = add_in_order memory empty (file_a ∷ file_b ∷ []) in
    let (right, failure') = add_in_order memory empty (file_b ∷ file_a ∷ []) in
    (failure ≡ none)
    × (failure' ≡ none)
    × ((p : String) → lookup p left.chunkers ≡ lookup p right.chunkers)
add_in_order_any_example =
    add_in_order_any memory empty (file_a ∷ file_b ∷ []) (file_b ∷ file_a ∷ []) made
      (λ n. swapped n file_b file_a) (λ n. swapped n file_a file_b) own (omega arith) (omega arith)
