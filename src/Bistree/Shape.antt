-- ===== src/Bistree/Shape.antt =====
-- The balance of the tree, and its nodes in order.
use Prim.Native.Nat.{max}
use sweet_clib.Prelude.{ℕ, suc, ◌+◌, ◌≡◌, Bool, true, false, List, [], ◌∷◌, ◌++◌}
use sweet_clib.Bistree.{Factor, avl_lft_heavy, avl_balanced, avl_rgt_heavy, Tree, eob, node}

abbrev pub FactorFits : Factor → ℕ → ℕ → Type 0
FactorFits avl_lft_heavy a b = a ≡ b + 1
FactorFits avl_balanced a b = a ≡ b
FactorFits avl_rgt_heavy a b = b ≡ a + 1

module _ {ℓ} {D : Type ℓ} where
  abbrev pub height : Tree D → ℕ
  height eob = 0
  height (node x h f l r) = suc (max (height l) (height r))

  -- At every node the factor tells the heights of the subtrees apart, which differ by one at most.
  abbrev pub IsAvl : Tree D → Type 0
  IsAvl eob = Unit
  IsAvl (node x h f l r) = FactorFits f (height l) (height r) × IsAvl l × IsAvl r

  abbrev pub tilted : Tree D → Bool
  tilted eob = false
  tilted (node x h avl_lft_heavy l r) = true
  tilted (node x h avl_balanced l r) = false
  tilted (node x h avl_rgt_heavy l r) = true

  -- The data with their hidden flags, from left to right.
  abbrev pub flatten : Tree D → List (D × Bool)
  flatten eob = []
  flatten (node x h f l r) = flatten l ++ (x, h) ∷ flatten r

  abbrev pub node_count : Tree D → ℕ
  node_count eob = 0
  node_count (node x h f l r) = suc (node_count l + node_count r)
