-- ===== src/Bistree/Rotate.antt =====
-- The rotations, the balance, and the order of the nodes.
use mathlib.Core.List.{append_assoc}
use sweet_clib.Prelude.{ℕ, ◌+◌, ◌≡◌, refl, Bool, true, Option, some, arith}
use sweet_clib.Bistree.{
  Factor, avl_lft_heavy, avl_balanced, avl_rgt_heavy, Tree, eob, node, rotate_left, rotate_right,
}
use sweet_clib.Bistree.Shape.{height, IsAvl, tilted, flatten, node_count}

module _ {ℓ} {D : Type ℓ} where
  -- A rotation of `t` that gives height `n`.
  pub record Rotates (t : Tree D) (n : ℕ) (o : Option (Tree D)) : Type ℓ where
    pub result : Tree D
    pub runs : o ≡ some result
    pub shape : IsAvl result
    pub tall : height result ≡ n
    pub ordered : flatten result ≡ flatten t
    pub nodes : node_count result ≡ node_count t

  -- rotate_left on a node with balanced subtrees, whose left one is two higher than the right one and
  -- not level itself, reads nothing through NULL; the tree it leaves is balanced and one lower than the
  -- node was, with the same nodes in the same order.
  pub rotate_left-Rotates :
      (x : D) (h : Bool) (f : Factor) (l r : Tree D)
      → IsAvl l
      → IsAvl r
      → height l ≡ height r + 2
      → tilted l ≡ true
      → Rotates (node x h f l r) (height r + 2) (rotate_left (node x h f l r))
  unfolding rotate_left
  rotate_left-Rotates x h f eob r a b e t = cc
  rotate_left-Rotates x h f (node y k avl_lft_heavy ll lr) r a b e t = record {
    result = node y k avl_balanced ll (node x h avl_balanced lr r);
    runs = refl;
    shape = (omega arith, a.1, (omega arith, a.2, b));
    tall = omega arith;
    ordered = simp append_assoc;
    nodes = omega arith;
  }
  rotate_left-Rotates x h f (node y k avl_balanced ll lr) r a b e t = cc
  rotate_left-Rotates x h f (node y k avl_rgt_heavy ll eob) r a b e t = absurd (omega arith)
  rotate_left-Rotates x h f (node y k avl_rgt_heavy ll (node z m avl_lft_heavy gl gr)) r a b e t =
      record {
        result = node z m avl_balanced (node y k avl_balanced ll gl) (node x h avl_rgt_heavy gr r);
        runs = refl;
        shape = (omega arith, (omega arith, a.1, a.2.1), (omega arith, a.2.2, b));
        tall = omega arith;
        ordered = simp append_assoc;
        nodes = omega arith;
      }
  rotate_left-Rotates x h f (node y k avl_rgt_heavy ll (node z m avl_balanced gl gr)) r a b e t =
      record {
        result = node z m avl_balanced (node y k avl_balanced ll gl) (node x h avl_balanced gr r);
        runs = refl;
        shape = (omega arith, (omega arith, a.1, a.2.1), (omega arith, a.2.2, b));
        tall = omega arith;
        ordered = simp append_assoc;
        nodes = omega arith;
      }
  rotate_left-Rotates x h f (node y k avl_rgt_heavy ll (node z m avl_rgt_heavy gl gr)) r a b e t =
      record {
        result = node z m avl_balanced (node y k avl_lft_heavy ll gl) (node x h avl_balanced gr r);
        runs = refl;
        shape = (omega arith, (omega arith, a.1, a.2.1), (omega arith, a.2.2, b));
        tall = omega arith;
        ordered = simp append_assoc;
        nodes = omega arith;
      }

  -- rotate_right on a node with balanced subtrees, whose right one is two higher than the left one and
  -- not level itself, reads nothing through NULL; the tree it leaves is balanced and one lower than the
  -- node was, with the same nodes in the same order.
  pub rotate_right-Rotates :
      (x : D) (h : Bool) (f : Factor) (l r : Tree D)
      → IsAvl l
      → IsAvl r
      → height r ≡ height l + 2
      → tilted r ≡ true
      → Rotates (node x h f l r) (height l + 2) (rotate_right (node x h f l r))
  unfolding rotate_right
  rotate_right-Rotates x h f l eob a b e t = cc
  rotate_right-Rotates x h f l (node y k avl_rgt_heavy rl rr) a b e t = record {
    result = node y k avl_balanced (node x h avl_balanced l rl) rr;
    runs = refl;
    shape = (omega arith, (omega arith, a, b.1), b.2);
    tall = omega arith;
    ordered = simp append_assoc;
    nodes = omega arith;
  }
  rotate_right-Rotates x h f l (node y k avl_balanced rl rr) a b e t = cc
  rotate_right-Rotates x h f l (node y k avl_lft_heavy eob rr) a b e t = absurd (omega arith)
  rotate_right-Rotates x h f l (node y k avl_lft_heavy (node z m avl_lft_heavy gl gr) rr) a b e t =
      record {
        result = node z m avl_balanced (node x h avl_balanced l gl) (node y k avl_rgt_heavy gr rr);
        runs = refl;
        shape = (omega arith, (omega arith, a, b.1.1), (omega arith, b.1.2, b.2));
        tall = omega arith;
        ordered = simp append_assoc;
        nodes = omega arith;
      }
  rotate_right-Rotates x h f l (node y k avl_lft_heavy (node z m avl_balanced gl gr) rr) a b e t =
      record {
        result = node z m avl_balanced (node x h avl_balanced l gl) (node y k avl_balanced gr rr);
        runs = refl;
        shape = (omega arith, (omega arith, a, b.1.1), (omega arith, b.1.2, b.2));
        tall = omega arith;
        ordered = simp append_assoc;
        nodes = omega arith;
      }
  rotate_right-Rotates x h f l (node y k avl_lft_heavy (node z m avl_rgt_heavy gl gr) rr) a b e t =
      record {
        result = node z m avl_balanced (node x h avl_lft_heavy l gl) (node y k avl_balanced gr rr);
        runs = refl;
        shape = (omega arith, (omega arith, a, b.1.1), (omega arith, b.1.2, b.2));
        tall = omega arith;
        ordered = simp append_assoc;
        nodes = omega arith;
      }
