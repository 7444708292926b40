-- ===== src/Bistree.antt =====
-- lib/_structs/bistree.c and bistree.h: an AVL tree with lazy removal. A node is a BiTreeNode with
-- its AvlNode. The file does not compile as it stands (`cpmval`, `val_data`, `return -;`, a second
-- `else` in lookup, `&tree->right`); each such spot is read as what it plainly means: `cmpval`,
-- `avl_data`, `return -1;`, the hidden node not found, `&node->right`.
pub mod Shape
pub mod Rotate
pub mod Order
pub mod Sequence
pub mod Left
pub mod Right
pub mod Insert
pub mod Search
pub mod Lookup
pub mod Release
use sweet_clib.Prelude.{
  ℕ, suc, ◌+◌, Bool, true, false, Option, none, some, List, [], ◌∷◌, ◌++◌, if◌then◌else◌, ltb,
}
use sweet_clib.Linked.{Status, success, failure, duplicate}

-- AVL_LFT_HEAVY, AVL_BALANCED and AVL_RGT_HEAVY.
pub data Factor : Type 0 where
  avl_lft_heavy : Factor
  avl_balanced : Factor
  avl_rgt_heavy : Factor

-- The sign of what the callback `compare` returns.
pub data Sign : Type 0 where
  negative : Sign
  zero_sign : Sign
  positive : Sign

-- `if (cmpval < 0) a else if (cmpval > 0) c else b`
abbrev pub by_sign {ℓ} : {A : Type ℓ} → Sign → A → A → A → A
by_sign negative a b c = a
by_sign zero_sign a b c = b
by_sign positive a b c = c

-- A node with datum, hidden flag, factor, left and right; `eob` is NULL.
pub data Tree {ℓ} (D : Type ℓ) : Type ℓ where
  eob : Tree D
  node : D → Bool → Factor → Tree D → Tree D → Tree D

-- BisTree, less the callbacks.
pub record BisTree {ℓ} (D : Type ℓ) : Type ℓ where
  pub size : ℕ
  pub destroys : Bool
  pub root : Tree D

-- What insert leaves: its return value, the node at `*node`, how much was added to tree->size,
-- `*balanced`, and the data passed to `destroy`.
pub record Outcome {ℓ} (D : Type ℓ) : Type ℓ where
  pub status : Status
  pub tree : Tree D
  pub added : ℕ
  pub balanced : Bool
  pub passed : List D

-- The factors that the left-right rotation of rotate_left sets, by the factor of the grandchild.
pub lr_node_factor : Factor → Factor
lr_node_factor avl_lft_heavy = avl_rgt_heavy
lr_node_factor avl_balanced = avl_balanced
lr_node_factor avl_rgt_heavy = avl_balanced

pub lr_left_factor : Factor → Factor
lr_left_factor avl_lft_heavy = avl_balanced
lr_left_factor avl_balanced = avl_balanced
lr_left_factor avl_rgt_heavy = avl_lft_heavy

-- The factors that the right-left rotation of rotate_right sets.
pub rl_node_factor : Factor → Factor
rl_node_factor avl_lft_heavy = avl_balanced
rl_node_factor avl_balanced = avl_balanced
rl_node_factor avl_rgt_heavy = avl_lft_heavy

pub rl_right_factor : Factor → Factor
rl_right_factor avl_lft_heavy = avl_rgt_heavy
rl_right_factor avl_balanced = avl_balanced
rl_right_factor avl_rgt_heavy = avl_balanced

module _ {ℓ} {D : Type ℓ} where
  -- The left-right rotation; `none` where the grandchild is NULL and the code would read through it.
  pub rotate_left_right : D → Bool → Tree D → D → Bool → Tree D → Tree D → Option (Tree D)
  rotate_left_right x h r y k ll eob = none
  rotate_left_right x h r y k ll (node z m g gl gr) =
      some (
        node z m avl_balanced (node y k (lr_left_factor g) ll gl)
          (node x h (lr_node_factor g) gr r))

  -- rotate_left; `none` is a read through NULL.
  pub rotate_left : Tree D → Option (Tree D)
  unfolding rotate_left_right lr_node_factor lr_left_factor
  rotate_left eob = none
  rotate_left (node x h f eob r) = none
  rotate_left (node x h f (node y k avl_lft_heavy ll lr) r) =
      some (node y k avl_balanced ll (node x h avl_balanced lr r))
  rotate_left (node x h f (node y k avl_balanced ll lr) r) = rotate_left_right x h r y k ll lr
  rotate_left (node x h f (node y k avl_rgt_heavy ll lr) r) = rotate_left_right x h r y k ll lr

  pub rotate_right_left : D → Bool → Tree D → D → Bool → Tree D → Tree D → Option (Tree D)
  rotate_right_left x h l y k eob rr = none
  rotate_right_left x h l y k (node z m g gl gr) rr = some (
      node z m avl_balanced (node x h (rl_node_factor g) l gl) (node y k (rl_right_factor g) gr rr))

  -- rotate_right
  unfoldable pub rotate_right : Tree D → Option (Tree D)
  unfolding rotate_right_left rl_node_factor rl_right_factor
  rotate_right eob = none
  rotate_right (node x h f l eob) = none
  rotate_right (node x h f l (node y k avl_rgt_heavy rl rr)) =
      some (node y k avl_balanced (node x h avl_balanced l rl) rr)
  rotate_right (node x h f l (node y k avl_balanced rl rr)) = rotate_right_left x h l y k rl rr
  rotate_right (node x h f l (node y k avl_lft_heavy rl rr)) = rotate_right_left x h l y k rl rr

  -- An outcome with another subtree and flag.
  abbrev pub settle : Outcome D → Bool → Tree D → Outcome D
  settle o b t = record o { tree = t; balanced = b }

  abbrev rotated : Outcome D → Option (Tree D) → Option (Outcome D)
  rotated o none = none
  rotated o (some t) = some (settle o true t)

  -- The switch behind an insertion on the left, when `*balanced` is 0.
  pub left_grown : D → Bool → Factor → Outcome D → Tree D → Option (Outcome D)
  left_grown x h avl_lft_heavy o r = rotated o (rotate_left (node x h avl_lft_heavy o.tree r))
  left_grown x h avl_balanced o r = some (settle o false (node x h avl_lft_heavy o.tree r))
  left_grown x h avl_rgt_heavy o r = some (settle o true (node x h avl_balanced o.tree r))

  -- The switch behind an insertion on the right.
  unfoldable pub right_grown : D → Bool → Factor → Tree D → Outcome D → Option (Outcome D)
  right_grown x h avl_lft_heavy l o = some (settle o true (node x h avl_balanced l o.tree))
  right_grown x h avl_balanced l o = some (settle o false (node x h avl_rgt_heavy l o.tree))
  right_grown x h avl_rgt_heavy l o = rotated o (rotate_right (node x h avl_rgt_heavy l o.tree))

  -- `if ((retval = insert(..)) != 0) return retval; if (!(*balanced)) switch ..`, on the left.
  pub after_left : D → Bool → Factor → Tree D → Outcome D → Status → Option (Outcome D)
  after_left x h f r o success =
      if o.balanced then some (settle o true (node x h f o.tree r)) else left_grown x h f o r
  after_left x h f r o failure = some (settle o o.balanced (node x h f o.tree r))
  after_left x h f r o duplicate = some (settle o o.balanced (node x h f o.tree r))

  -- The same on the right.
  unfoldable pub after_right : D → Bool → Factor → Tree D → Outcome D → Status → Option (Outcome D)
  after_right x h f l o success =
      if o.balanced then some (settle o true (node x h f l o.tree)) else right_grown x h f l o
  after_right x h f l o failure = some (settle o o.balanced (node x h f l o.tree))
  after_right x h f l o duplicate = some (settle o o.balanced (node x h f l o.tree))

  abbrev then_left : D → Bool → Factor → Tree D → Option (Outcome D) → Option (Outcome D)
  then_left x h f r none = none
  then_left x h f r (some o) = after_left x h f r o o.status

  abbrev then_right : D → Bool → Factor → Tree D → Option (Outcome D) → Option (Outcome D)
  then_right x h f l none = none
  then_right x h f l (some o) = after_right x h f l o o.status

  -- A new node at an empty place, where `alloc` says whether both of its mallocs succeed.
  unfoldable pub new_node : Bool → D → Outcome D
  new_node true x = record {
    status = success;
    tree = node x false avl_balanced eob eob;
    added = 1;
    balanced = false;
    passed = [];
  }
  new_node false x = record {
    status = failure;
    tree = eob;
    added = 0;
    balanced = false;
    passed = [];
  }

  -- The branch of insert for equal keys: a hidden node takes the new datum.
  pub meet : Bool → D → D → Bool → Factor → Tree D → Tree D → Outcome D
  meet destroys x y false f l r = record {
    status = duplicate;
    tree = node y false f l r;
    added = 0;
    balanced = false;
    passed = [];
  }
  meet destroys x y true f l r = record {
    status = success;
    tree = node x false f l r;
    added = 0;
    balanced = true;
    passed = if destroys then y ∷ [] else [];
  }

  module _ (compare : D → D → Sign) where
    -- insert; `none` is a read through NULL.
    unfoldable pub insert : Bool → Bool → D → Tree D → Option (Outcome D)
    insert alloc destroys x eob = some (new_node alloc x)
    insert alloc destroys x (node y h f l r) =
        let left = then_left y h f r (insert alloc destroys x l) in
        let right = then_right y h f l (insert alloc destroys x r) in
        by_sign (compare x y) (left) (some (meet destroys x y h f l r)) (right)

    abbrev inserted : BisTree D → Option (Outcome D) → Option (Status × BisTree D × List D)
    inserted t none = none
    inserted t (some o) =
        some (o.status, record t { size = t.size + o.added; root = o.tree }, o.passed)

    -- bistree_insert: at an empty root, bitree_ins_left refuses when the size is not 0.
    unfoldable pub insert_root :
        Bool → BisTree D → D → Tree D → Option (Status × BisTree D × List D)
    insert_root alloc t x eob =
        if ltb 0 t.size then some (failure, t, []) else inserted t (insert alloc t.destroys x eob)
    insert_root alloc t x (node y h f l r) = inserted t (insert alloc t.destroys x (node y h f l r))

    unfoldable pub bistree_insert : Bool → BisTree D → D → Option (Status × BisTree D × List D)
    bistree_insert alloc t x = insert_root alloc t x t.root

    -- hide
    pub hide : D → Tree D → Status × Tree D
    hide x eob = (failure, eob)
    hide x (node y h f l r) =
        let left = hide x l in
        let right = hide x r in
        by_sign (compare x y) ((left.0, node y h f left.1 r)) ((success, node y true f l r))
          ((right.0, node y h f l right.1))

    -- bistree_remove
    pub bistree_remove : BisTree D → D → Status × BisTree D
    bistree_remove t x = ((hide x t.root).0, record t { root = (hide x t.root).1 })

    -- lookup; `none` for the return code -1, else what `*data` is set to.
    pub lookup : D → Tree D → Option D
    lookup x eob = none
    lookup x (node y h f l r) =
        let left = lookup x l in
        let right = lookup x r in by_sign (compare x y) (left) (if h then none else some y) (right)

    -- bistree_lookup
    pub bistree_lookup : BisTree D → D → Option D
    bistree_lookup t x = lookup x t.root
