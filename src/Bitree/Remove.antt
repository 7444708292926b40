-- ===== src/Bitree/Remove.antt =====
-- Removal of a subtree, and the life of a tree.
use sweet_clib.Prelude.{
  ℕ, suc, ◌+◌, ◌-◌, ◌≤◌, ◌≡◌, refl, ap, ap₂, Bool, true, false, Option, List, [], ◌∷◌, ◌++◌, arith,
  if◌then◌else◌, ◌==◌,
}
use sweet_clib.Bitree.{
  Node, eob, node, BiTree, Side, left, right, at, assign, position, rem, bitree_rem_left,
  bitree_rem_right, removed,
}
use sweet_clib.Bitree.Traverse.{post}

module _ {ℓ} {D : Type ℓ} where
  abbrev pub count : Node D → ℕ
  count eob = 0
  count (node x l r) = suc (count l + count r)

  abbrev pub handed : Bool → List D → List D
  handed true xs = xs
  handed false xs = []

  handed-append : (d : Bool) (xs ys : List D) → handed d xs ++ handed d ys ≡ handed d (xs ++ ys)
  handed-append true xs ys = refl
  handed-append false xs ys = refl

  rem-post :
      (d : Bool) (n : ℕ) (t : Node D)
      → count t ≤ n
      → rem d n t ≡ (n - count t, handed d (post t), eob)
  unfolding rem
  rem-post true n eob h = ap (λ k. (k, [], eob)) (omega arith)
  rem-post false n eob h = ap (λ k. (k, [], eob)) (omega arith)
  rem-post d n (node x l r) h =
      let busy : (n == 0) ≡ false = ground arith in
      rw (busy, rem-post d n l (omega arith), rem-post d (n - count l) r (omega arith))
        (ap₂ (λ k xs. (k, xs, eob)) (omega arith) (joined_parts d))
    where
      joined_parts :
          (b : Bool)
          → handed b (post l) ++ (handed b (post r) ++ (if b then x ∷ [] else []))
            ≡ handed b (post l ++ (post r ++ x ∷ []))
      joined_parts true = refl
      joined_parts false = refl

  -- The invariant: the size is the number of nodes.
  pub record IsSized (t : BiTree D) : Type ℓ where
    pub counted : t.size ≡ count t.root

  -- The path leads through nodes to a link.
  abbrev pub IsLink : List Side → Node D → Type 0
  IsLink [] t = Unit
  IsLink (s ∷ p) eob = ⊥
  IsLink (left ∷ p) (node x l r) = IsLink p l
  IsLink (right ∷ p) (node x l r) = IsLink p r

  pub count-assign :
      (p : List Side) (u t : Node D)
      → IsLink p t
      → count (assign p u t) + count (at p t) ≡ count t + count u
  unfolding at assign
  count-assign [] u t k = omega arith
  count-assign (s ∷ p) u eob k = absurd k
  count-assign (left ∷ p) u (node x l r) k = omega (arith, count-assign p u l k)
  count-assign (right ∷ p) u (node x l r) k = omega (arith, count-assign p u r k)

  pub at-assign : (p : List Side) (u t : Node D) → IsLink p t → at p (assign p u t) ≡ u
  unfolding at assign
  at-assign [] u t k = refl
  at-assign (s ∷ p) u eob k = absurd k
  at-assign (left ∷ p) u (node x l r) k = at-assign p u l k
  at-assign (right ∷ p) u (node x l r) k = at-assign p u r k

  count-at_le : (p : List Side) (t : Node D) → count (at p t) ≤ count t
  unfolding at
  count-at_le [] t = omega arith
  count-at_le (s ∷ p) eob = omega arith
  count-at_le (left ∷ p) (node x l r) = omega (arith, count-at_le p l)
  count-at_le (right ∷ p) (node x l r) = omega (arith, count-at_le p r)

  -- The subtree at the link of the tree `t` is gone.
  pub record Removed (t : BiTree D) (p : List Side) (r : List D × BiTree D) : Type ℓ where
    pub passed : r.0 ≡ handed t.destroys (post (at p t.root))
    pub sized : IsSized r.1
    pub fewer : r.1.size + count (at p t.root) ≡ t.size
    pub cleared : at p r.1.root ≡ eob

  rem-Removed :
      (t : BiTree D) (p : List Side)
      → IsSized t
      → IsLink p t.root
      → Removed t p (removed t p (rem t.destroys t.size (at p t.root)))
  rem-Removed t p v k =
      let fits : count (at p t.root) ≤ t.size = rw v.counted (count-at_le p t.root) in
      rw (rem-post t.destroys t.size (at p t.root) fits) (record {
        passed = refl;
        sized = record {
          counted = omega (arith, count-assign p eob t.root k, v.counted, count_eob);
        };
        fewer = omega arith;
        cleared = at-assign p eob t.root k;
      })
    where
      count_eob : count eob ≡ 0
      count_eob = refl

  -- In a tree whose size is its number of nodes, bitree_rem_left and bitree_rem_right at a node (or at
  -- NULL, the root) hand the data of the subtree to `destroy` once each and in postorder (none when
  -- `destroy` is NULL), clear the link, and the size stays the number of nodes.
  pub bitree_rem-Removed :
      (t : BiTree D) (pos : Option (List Side))
      → IsSized t
      → IsLink (position left pos) t.root
      → IsLink (position right pos) t.root
      → Removed t (position left pos) (bitree_rem_left t pos)
        × Removed t (position right pos) (bitree_rem_right t pos)
  unfolding bitree_rem_left bitree_rem_right
  bitree_rem-Removed t pos v k m =
      (rem-Removed t (position left pos) v k, rem-Removed t (position right pos) v m)
