-- ===== src/Bitree.antt =====
-- lib/_structs/bitree.c, bitree.h and traverse.c: binary trees that the caller builds node by node.
-- A node is named by its path from the root; `none` is the argument NULL.
pub mod Build
pub mod Remove
pub mod Traverse
use sweet_clib.Prelude.{
  ℕ, zero, suc, ◌+◌, ◌-◌, Bool, true, false, Option, none, some, List, [], ◌∷◌, ◌++◌, if◌then◌else◌,
  ltb, ◌==◌,
}
use sweet_clib.Linked.{Status, success, failure, duplicate}
use sweet_clib.Linked.View.{ins_next}
use sweet_clib.Queue.{last_position}

-- BiTreeNode; `eob` is NULL.
pub data Node {ℓ} (D : Type ℓ) : Type ℓ where
  eob : Node D
  node : D → Node D → Node D → Node D

-- BiTree, less the callback compare.
pub record BiTree {ℓ} (D : Type ℓ) : Type ℓ where
  pub size : ℕ
  pub destroys : Bool
  pub root : Node D

pub data Side : Type 0 where
  left : Side
  right : Side

-- `!bitree_is_eob(node)`
abbrev pub not_eob {ℓ} : {D : Type ℓ} → Node D → Bool
not_eob eob = false
not_eob (node x l r) = true

-- `position`: the root link for NULL, else a child link of the node.
abbrev pub position : Side → Option (List Side) → List Side
position s none = []
position s (some p) = p ++ s ∷ []

-- The state of a traversal: how many list nodes malloc still has, and the list.
abbrev pub Walk {ℓ} : Type ℓ → Type ℓ
Walk D = ℕ × List D

module _ {ℓ} {D : Type ℓ} where
  -- What the link at the end of a path holds.
  unfoldable pub at : List Side → Node D → Node D
  at [] t = t
  at (s ∷ p) eob = eob
  at (left ∷ p) (node x l r) = at p l
  at (right ∷ p) (node x l r) = at p r

  -- `*position = u`
  pub assign : List Side → Node D → Node D → Node D
  assign [] u t = u
  assign (s ∷ p) u eob = eob
  assign (left ∷ p) u (node x l r) = node x (assign p u l) r
  assign (right ∷ p) u (node x l r) = node x l (assign p u r)

  -- The test before the allocation: the tree is not empty, or the child is there.
  abbrev pub refuses : BiTree D → Side → Option (List Side) → Bool
  refuses t s none = ltb 0 t.size
  refuses t s (some p) = not_eob (at (position s (some p)) t.root)

  -- bitree_ins_left and bitree_ins_right, which differ in the child alone.
  pub ins : Side → Bool → BiTree D → Option (List Side) → D → Status × BiTree D
  ins s alloc t pos x =
      if refuses t s pos
      then (failure, t)
      else if alloc
      then (
        success,
        record t { size = t.size + 1; root = assign (position s pos) (node x eob eob) t.root },
      )
      else (failure, t)

  pub bitree_ins_left : Bool → BiTree D → Option (List Side) → D → Status × BiTree D
  bitree_ins_left alloc t pos x = ins left alloc t pos x

  pub bitree_ins_right : Bool → BiTree D → Option (List Side) → D → Status × BiTree D
  bitree_ins_right alloc t pos x = ins right alloc t pos x

  -- bitree_rem_left and bitree_rem_right on the subtree at their link: the size that is left, the
  -- data handed to `destroy` in order, and what the link holds afterwards.
  pub rem : Bool → ℕ → Node D → ℕ × List D × Node D
  rem destroys size eob = (size, [], eob)
  rem destroys size (node x l r) =
      let a = rem destroys size l in
      let b = rem destroys a.0 r in
      if size == 0
      then (size, [], node x l r)
      else (b.0 - 1, a.1 ++ (b.1 ++ (if destroys then x ∷ [] else [])), eob)

  abbrev pub removed : BiTree D → List Side → ℕ × List D × Node D → List D × BiTree D
  removed t p (n, xs, u) = (xs, record t { size = n; root = assign p u t.root })

  pub bitree_rem_left : BiTree D → Option (List Side) → List D × BiTree D
  bitree_rem_left t pos =
      removed t (position left pos) (rem t.destroys t.size (at (position left pos) t.root))

  pub bitree_rem_right : BiTree D → Option (List Side) → List D × BiTree D
  bitree_rem_right t pos =
      removed t (position right pos) (rem t.destroys t.size (at (position right pos) t.root))

  -- bitree_init
  pub bitree_init : Bool → BiTree D
  bitree_init destroys = record { size = 0; destroys = destroys; root = eob }

  -- bitree_destroy
  pub bitree_destroy : BiTree D → List D × BiTree D
  bitree_destroy t = ((bitree_rem_left t none).0, record { size = 0; destroys = false; root = eob })

  -- The two trees hung below the new root.
  pub joined : Node D → Node D → Node D → Node D
  joined l r eob = eob
  joined l r (node x a b) = node x l r

  -- The end of bitree_merge, behind bitree_ins_left; the trees are merge, left and right.
  pub merge_result :
      BiTree D → BiTree D → Status × BiTree D → Status × BiTree D × BiTree D × BiTree D
  merge_result l r (success, m) = (
    success,
    record m { size = m.size + l.size + r.size; root = joined l.root r.root m.root },
    record l { size = 0; root = eob },
    record r { size = 0; root = eob },
  )
  merge_result l r (s, m) = (failure, (bitree_destroy m).1, l, r)

  pub bitree_merge : Bool → BiTree D → BiTree D → D → Status × BiTree D × BiTree D × BiTree D
  bitree_merge alloc l r x =
      merge_result l r (bitree_ins_left alloc (bitree_init l.destroys) none x)

  -- `if (step != 0) return -1;` and what follows.
  abbrev pub and_then : Status × Walk D → (Walk D → Status × Walk D) → Status × Walk D
  and_then (success, w) k = k w
  and_then (failure, w) k = (failure, w)
  and_then (duplicate, w) k = (failure, w)

  -- `list_ins_next(list, list_tail(list), bitree_data(node))`
  pub visit : D → Walk D → Status × Walk D
  visit x (zero, xs) = let r = ins_next false xs (last_position xs) x in (r.0, (zero, r.1))
  visit x (suc m, xs) = let r = ins_next true xs (last_position xs) x in (r.0, (m, r.1))

  -- preorder, inorder and postorder; at NULL they return 0, which is what the tests of the children
  -- for NULL before each call amount to.
  pub preorder : Node D → Walk D → Status × Walk D
  preorder eob w = (success, w)
  preorder (node x l r) w = and_then (visit x w) λ v. and_then (preorder l v) (preorder r)

  pub inorder : Node D → Walk D → Status × Walk D
  inorder eob w = (success, w)
  inorder (node x l r) w = and_then (inorder l w) λ v. and_then (visit x v) (inorder r)

  pub postorder : Node D → Walk D → Status × Walk D
  postorder eob w = (success, w)
  postorder (node x l r) w = and_then (postorder l w) λ v. and_then (postorder r v) (visit x)
