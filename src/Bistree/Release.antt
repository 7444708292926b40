-- ===== src/Bistree/Release.antt =====
-- lib/_structs/bistree.c: bistree_init, destroy_left, destroy_right and bistree_destroy.
use sweet_clib.Prelude.{
  ℕ, ◌-◌, ◌≤◌, ◌≡◌, refl, ap, ap₂, Bool, true, false, List, [], ◌∷◌, ◌++◌, arith, if◌then◌else◌,
  ◌==◌,
}
use sweet_clib.Bistree.{Sign, Tree, eob, node, BisTree}
use sweet_clib.Bistree.Shape.{node_count}
use sweet_clib.Bistree.Search.{IsValid}

module _ {ℓ} {D : Type ℓ} where
  -- bistree_init
  pub bistree_init : Bool → BisTree D
  bistree_init destroys = record { size = 0; destroys = destroys; root = eob }

  -- destroy_left and destroy_right on the subtree at their link: the size that is left, the data
  -- handed to `destroy` in order, and what the link holds afterwards.
  pub destroy_subtree : Bool → ℕ → Tree D → ℕ × List D × Tree D
  destroy_subtree destroys size eob = (size, [], eob)
  destroy_subtree destroys size (node x h f l r) =
      let a = destroy_subtree destroys size l in
      let b = destroy_subtree destroys a.0 r in
      if size == 0
      then (size, [], node x h f l r)
      else (b.0 - 1, a.1 ++ (b.1 ++ (if destroys then x ∷ [] else [])), eob)

  -- bistree_destroy
  pub bistree_destroy : BisTree D → List D × BisTree D
  bistree_destroy t = (
    (destroy_subtree t.destroys t.size t.root).1,
    record { size = 0; destroys = false; root = eob },
  )

  -- The data of the nodes, hidden or not, in postorder.
  abbrev pub post_data : Tree D → List D
  post_data eob = []
  post_data (node x h f l r) = post_data l ++ (post_data r ++ x ∷ [])

  abbrev pub given : Bool → List D → List D
  given true xs = xs
  given false xs = []

  destroy_subtree-post_data :
      (d : Bool) (n : ℕ) (t : Tree D)
      → node_count t ≤ n
      → destroy_subtree d n t ≡ (n - node_count t, given d (post_data t), eob)
  unfolding destroy_subtree
  destroy_subtree-post_data true n eob h = ap (λ k. (k, [], eob)) (omega arith)
  destroy_subtree-post_data false n eob h = ap (λ k. (k, [], eob)) (omega arith)
  destroy_subtree-post_data d n (node x h f l r) e =
      let busy : (n == 0) ≡ false = ground arith in
      rw
        (
          busy,
          destroy_subtree-post_data d n l (omega arith),
          destroy_subtree-post_data d (n - node_count l) r (omega arith),
        )
        (ap₂ (λ k xs. (k, xs, eob)) (omega arith) (parts d))
    where
      parts :
          (b : Bool)
          → given b (post_data l) ++ (given b (post_data r) ++ (if b then x ∷ [] else []))
            ≡ given b (post_data l ++ (post_data r ++ x ∷ []))
      parts true = refl
      parts false = refl

  -- A tree from bistree_init is valid, and bistree_destroy on a valid tree hands the datum of each node,
  -- hidden or not, to `destroy` once and in postorder (none when `destroy` is NULL), and leaves an
  -- empty tree, valid again.
  pub bistree_destroy-post_data :
      (compare : D → D → Sign) (d : Bool) (t : BisTree D)
      → IsValid compare t
      → IsValid compare (bistree_init d)
        × ((bistree_destroy t).0 ≡ given t.destroys (post_data t.root))
        × IsValid compare (bistree_destroy t).1
  unfolding bistree_destroy bistree_init
  bistree_destroy-post_data compare d t v = (
    record { shape = tt; sorted = tt; counted = refl },
    ap (λ r. r.1) (destroy_subtree-post_data t.destroys t.size t.root (omega (arith, v.counted))),
    record { shape = tt; sorted = tt; counted = refl },
  )
