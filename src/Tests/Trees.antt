-- ===== src/Tests/Trees.antt =====
-- Runs of the trees at concrete inputs.
use sweet_clib.Prelude.{
  ℕ, ◌≡◌, ◌⊎◌, refl, true, false, none, some, List, [], ◌∷◌, arith, if◌then◌else◌, ltb,
}
use sweet_clib.Linked.{Status, success}
use sweet_clib.Bistree.{
  Sign, negative, zero_sign, positive, eob, node, avl_rgt_heavy, avl_balanced, BisTree,
  bistree_insert, bistree_remove, bistree_lookup, rotate_right, insert_root, insert, after_right,
  new_node, right_grown, by_sign,
}
use sweet_clib.Bistree.Order.{IsOrder}
use sweet_clib.Bistree.Release.{bistree_init, bistree_destroy, bistree_destroy-post_data}
use sweet_clib.Bistree.Search.{IsValid}
use sweet_clib.Bistree.Lookup.{Inserted, bistree_insert-Inserted, bistree_remove-lookup}

abbrev nat_compare : ℕ → ℕ → Sign
nat_compare x y = if ltb x y then negative else if ltb y x then positive else zero_sign

nat_compare-IsOrder : IsOrder nat_compare
nat_compare-IsOrder = record {
  compare_self = λ x. ground arith;
  compare_flip = λ x y. ground arith;
  negative_trans = λ x y z. ground arith;
  zero_congr = λ x y z. ground arith;
}

-- 5 with 8 on its right: an insertion of 9 rotates.
abbrev five_eight : BisTree ℕ
five_eight = record {
  size = 2;
  destroys = true;
  root = node 5 false avl_rgt_heavy eob (node 8 false avl_balanced eob eob);
}

five_eight-IsValid : IsValid nat_compare five_eight
five_eight-IsValid = record {
  shape = (refl, tt, (refl, tt, tt));
  sorted = ((refl, tt), (tt, tt));
  counted = refl;
}

bistree_insert-Inserted_example :
    (s : Status) × (t' : BisTree ℕ) × (p : List ℕ) × (bistree_insert nat_compare true five_eight 9
      ≡ some (s, t', p))
    × Inserted nat_compare nat_compare-IsOrder true five_eight 9 s t'
bistree_insert-Inserted_example =
    bistree_insert-Inserted nat_compare nat_compare-IsOrder true five_eight 9 five_eight-IsValid

bistree_remove-lookup_example :
    IsValid nat_compare (bistree_remove nat_compare five_eight 8).1
    × ((bistree_remove nat_compare five_eight 8).1.size ≡ 2)
    × (((bistree_remove nat_compare five_eight 8).0 ≡ success)
        ⊎ (bistree_lookup nat_compare five_eight 8 ≡ none))
    × ((q : ℕ)
        → bistree_lookup nat_compare (bistree_remove nat_compare five_eight 8).1 q
          ≡ by_sign
              (nat_compare q 8)
              (bistree_lookup nat_compare five_eight q)
              none
              (bistree_lookup nat_compare five_eight q))
bistree_remove-lookup_example =
    bistree_remove-lookup nat_compare nat_compare-IsOrder five_eight 8 five_eight-IsValid

-- What the tree holds after 9 went in: 8 at the root.
inserted_nine :
    bistree_insert nat_compare true five_eight 9
    ≡ some (
      success,
      record {
        size = 3;
        destroys = true;
        root =
            node 8 false avl_balanced
              (node 5 false avl_balanced eob eob)
              (node 9 false avl_balanced eob eob);
      },
      [],
    )
unfolding bistree_insert insert_root insert after_right new_node right_grown rotate_right
inserted_nine = refl

bistree_destroy-post_data_example :
    IsValid nat_compare (bistree_init true)
    × ((bistree_destroy five_eight).0 ≡ 8 ∷ 5 ∷ [])
    × IsValid nat_compare (bistree_destroy five_eight).1
bistree_destroy-post_data_example =
    bistree_destroy-post_data nat_compare true five_eight five_eight-IsValid
