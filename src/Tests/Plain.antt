-- ===== src/Tests/Plain.antt =====
-- Runs of the binary tree without an order at concrete inputs.
use sweet_clib.Prelude.{ℕ, ◌≡◌, refl, true, false, some, [], ◌∷◌}
use sweet_clib.Bitree.{
  BiTree, node, eob, left, right, at, bitree_ins_left, bitree_ins_right, bitree_rem_left,
  bitree_rem_right, bitree_merge, preorder, inorder, postorder,
}
use sweet_clib.Bitree.Remove.{IsSized, Removed, bitree_rem-Removed}
use sweet_clib.Bitree.Build.{Inserts, Merges, bitree_ins-Inserts, bitree_merge-Merges}
use sweet_clib.Bitree.Traverse.{appended, pre, mid, post, traversals-appended}

-- A binary tree with a root and its left child.
abbrev one_two : BiTree ℕ
one_two = record { size = 2; destroys = true; root = node 1 (node 2 eob eob) eob }

one_two-IsSized : IsSized one_two
one_two-IsSized = record { counted = refl }

bitree_ins-Inserts_example :
    Inserts true one_two (left ∷ []) 7 true (bitree_ins_left true one_two (some []) 7)
    × Inserts true one_two (right ∷ []) 7 false (bitree_ins_right true one_two (some []) 7)
unfolding at
bitree_ins-Inserts_example = bitree_ins-Inserts true one_two (some []) 7 one_two-IsSized tt tt

bitree_rem-Removed_example :
    Removed one_two (left ∷ []) (bitree_rem_left one_two (some []))
    × Removed one_two (right ∷ []) (bitree_rem_right one_two (some []))
bitree_rem-Removed_example = bitree_rem-Removed one_two (some []) one_two-IsSized tt tt

bitree_merge-Merges_example : Merges true one_two one_two 3 (bitree_merge true one_two one_two 3)
bitree_merge-Merges_example =
    bitree_merge-Merges true one_two one_two 3 one_two-IsSized one_two-IsSized

traversals-appended_example :
    (preorder one_two.root (5, []) ≡ appended (pre one_two.root) (5, []))
    × (inorder one_two.root (5, []) ≡ appended (mid one_two.root) (5, []))
    × (postorder one_two.root (5, []) ≡ appended (post one_two.root) (5, []))
traversals-appended_example = traversals-appended one_two.root (5, [])
