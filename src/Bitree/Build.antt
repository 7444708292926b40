-- ===== src/Bitree/Build.antt =====
-- Insertion of a node, and bitree_merge.
use sweet_clib.Prelude.{
  ◌+◌, ◌≡◌, refl, ◌∙◌, Bool, true, false, Option, none, some, List, arith, ltb,
}
use sweet_clib.Linked.{Status, success, failure}
use sweet_clib.Bitree.{
  Node, eob, node, BiTree, Side, left, right, at, assign, position, not_eob, refuses, ins,
  bitree_ins_left, bitree_ins_right, bitree_merge, merge_result, joined, bitree_init,
  bitree_destroy,
}
use sweet_clib.Bitree.Remove.{count, IsSized, IsLink, count-assign, at-assign}

module _ {ℓ} {D : Type ℓ} where
  refuses-at :
      (t : BiTree D) (s : Side) (pos : Option (List Side))
      → IsSized t
      → refuses t s pos ≡ not_eob (at (position s pos) t.root)
  unfolding at
  refuses-at t s none v = root_test t.root v.counted
    where
      root_test : (u : Node D) → t.size ≡ count u → ltb 0 t.size ≡ not_eob u
      root_test eob e = rw e refl
      root_test (node x l r) e = rw e ground arith
  refuses-at t s (some p) v = refl

  -- What an insertion of `x` at the link `p` has to return, by whether a node stands there.
  abbrev pub Inserts : Bool → BiTree D → List Side → D → Bool → Status × BiTree D → Type ℓ
  Inserts alloc t p x true r = r ≡ (failure, t)
  Inserts false t p x false r = r ≡ (failure, t)
  Inserts true t p x false r =
      (r.0 ≡ success)
      × IsSized r.1
      × (r.1.size ≡ t.size + 1)
      × (r.1.root ≡ assign p (node x eob eob) t.root)
      × (at p r.1.root ≡ node x eob eob)

  ins-Inserts :
      (s : Side) (alloc : Bool) (t : BiTree D) (pos : Option (List Side)) (x : D) (b : Bool)
      → IsSized t
      → IsLink (position s pos) t.root
      → not_eob (at (position s pos) t.root) ≡ b
      → Inserts alloc t (position s pos) x b (ins s alloc t pos x)
  unfolding ins
  ins-Inserts s alloc t pos x true v k e = rw (refuses-at t s pos v ∙ e)
  ins-Inserts s false t pos x false v k e = rw (refuses-at t s pos v ∙ e)
  ins-Inserts s true t pos x false v k e = rw (refuses-at t s pos v ∙ e) (
    refl,
    record {
      counted = omega (
        arith,
        v.counted,
        count-assign (position s pos) (node x eob eob) t.root k,
        leaf,
        empty (at (position s pos) t.root) e,
      );
    },
    refl,
    refl,
    at-assign (position s pos) (node x eob eob) t.root k,
  )
    where
      leaf : count (node x eob eob) ≡ 1
      leaf = refl

      empty : (u : Node D) → not_eob u ≡ false → count u ≡ 0
      empty eob f = refl
      empty (node y l r) f = cc

  -- In a tree whose size is its number of nodes, bitree_ins_left and bitree_ins_right at a node (or at
  -- NULL, the root) return -1 and change nothing when a node stands at the link or malloc fails; else
  -- they return 0, put a leaf with the datum at that link, and the size stays the number of nodes.
  pub bitree_ins-Inserts :
      (alloc : Bool) (t : BiTree D) (pos : Option (List Side)) (x : D)
      → IsSized t
      → IsLink (position left pos) t.root
      → IsLink (position right pos) t.root
      → Inserts alloc t
          (position left pos)
          x
          (not_eob (at (position left pos) t.root))
          (bitree_ins_left alloc t pos x)
        × Inserts alloc t
            (position right pos)
            x
            (not_eob (at (position right pos) t.root))
            (bitree_ins_right alloc t pos x)
  unfolding bitree_ins_left bitree_ins_right
  bitree_ins-Inserts alloc t pos x v k m =
      (ins-Inserts left alloc t pos x _ v k refl, ins-Inserts right alloc t pos x _ v m refl)

  abbrev pub Merges :
      Bool → BiTree D → BiTree D → D → Status × BiTree D × BiTree D × BiTree D → Type ℓ
  Merges true l r x (s, m, l', r') =
      (s ≡ success)
      × (m.root ≡ node x l.root r.root)
      × IsSized m
      × (l'.root ≡ eob)
      × IsSized l'
      × (r'.root ≡ eob)
      × IsSized r'
  Merges false l r x (s, m, l', r') =
      (s ≡ failure) × (m.root ≡ eob) × IsSized m × (l' ≡ l) × (r' ≡ r)

  -- bitree_merge of two trees whose sizes are their numbers of nodes: when malloc succeeds it returns
  -- 0, the merged tree is the new root over the two, the two trees are left empty, and all three
  -- sizes are the numbers of nodes; else it returns -1, the merged tree is empty and the two trees
  -- are as they were.
  pub bitree_merge-Merges :
      (alloc : Bool) (l r : BiTree D) (x : D)
      → IsSized l
      → IsSized r
      → Merges alloc l r x (bitree_merge alloc l r x)
  unfolding bitree_merge merge_result joined bitree_ins_left ins bitree_init bitree_destroy assign
  bitree_merge-Merges true l r x v w = (
    refl,
    refl,
    record { counted = omega (arith, v.counted, w.counted) },
    refl,
    record { counted = refl },
    refl,
    record { counted = refl },
  )
  bitree_merge-Merges false l r x v w = (refl, refl, record { counted = refl }, refl, refl)
