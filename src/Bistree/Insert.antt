-- ===== src/Bistree/Insert.antt =====
-- insert keeps the AVL balance, never reads through NULL, and is insertion into the sequence.
use sweet_clib.Prelude.{◌≡◌, refl, sym, ◌∙◌, inl, inr, Bool, true, false, some, ◌∷◌, arith}
use sweet_clib.Bistree.{Sign, zero_sign, Factor, Tree, eob, node, new_node, meet, insert}
use sweet_clib.Bistree.Shape.{IsAvl, flatten}
use sweet_clib.Bistree.Order.{
  IsOrder, Sign-cases, put_seq, place, replace, Passed, Sorted, Sorted-append, put_seq-right,
  Below-Passed,
}
use sweet_clib.Bistree.Left.{Returns, after_left-Returns}
use sweet_clib.Bistree.Right.{after_right-Returns}

module _ {ℓ} {D : Type ℓ} (compare : D → D → Sign) where
  new_node-Returns :
      (alloc d : Bool) (x : D) → Returns compare alloc d x eob (some (new_node alloc x))
  unfolding new_node put_seq place
  new_node-Returns true d x = (
    _,
    refl,
    record {
      shape = (refl, tt, tt);
      tall = omega arith;
      lean = λ p q w. absurd (omega arith);
      spec = refl;
      nodes = omega arith;
    },
  )
  new_node-Returns false d x = (
    _,
    refl,
    record { shape = tt; tall = omega arith; lean = λ p q w. cc; spec = refl; nodes = omega arith },
  )

  meet-Returns :
      (alloc d : Bool) (x y : D) (h : Bool) (f : Factor) (l r : Tree D)
      → IsAvl (node y h f l r)
      → compare x y ≡ zero_sign
      → Passed compare x (flatten l)
      → Returns compare alloc d x (node y h f l r) (some (meet d x y h f l r))
  unfolding meet put_seq replace
  meet-Returns alloc d x y true f l r a e past = (
    _,
    refl,
    record {
      shape = a;
      tall = omega arith;
      lean = λ p q w. cc;
      spec = sym (put_seq-right compare alloc d x (flatten l) ((y, true) ∷ flatten r) past ∙ rw e);
      nodes = omega arith;
    },
  )
  meet-Returns alloc d x y false f l r a e past = (
    _,
    refl,
    record {
      shape = a;
      tall = omega arith;
      lean = λ p q w. cc;
      spec = sym (put_seq-right compare alloc d x (flatten l) ((y, false) ∷ flatten r) past ∙ rw e);
      nodes = omega arith;
    },
  )

  -- Under an order, insert into a balanced tree with increasing keys never reads through NULL. The
  -- tree stays balanced, is one higher exactly when the flag says so, and its nodes in order, the
  -- return code and the destroyed data are those of the insertion into the sorted sequence.
  pub insert-Returns :
      IsOrder compare
      → (alloc d : Bool) (x : D) (t : Tree D) → IsAvl t
      → Sorted compare (flatten t)
      → Returns compare alloc d x t (insert compare alloc d x t)
  unfolding insert
  insert-Returns order alloc d x eob a s = new_node-Returns alloc d x
  insert-Returns order alloc d x (node y h f l r) a s =
      let (sl, below, above, sr) = Sorted-append compare y h (flatten l) (flatten r) s in
      elim (Sign-cases (compare x y)) [
        | inl e ↦
            let (o, run, i) = insert-Returns order alloc d x l a.1 sl in
            rw (e, run) (after_left-Returns compare alloc d x y h o.status f l r o refl i a.0 a.2 e)
        | inr (inl e) ↦ rw e (
            meet-Returns alloc d x y h f l r a e
              (Below-Passed compare order x y (flatten l) (λ n. cc) below))
        | inr (inr e) ↦
            let (o, run, i) = insert-Returns order alloc d x r a.2 sr in
            rw (e, run)
              (after_right-Returns compare alloc d x y h o.status f l r o refl i a.0 a.1 e
                (Below-Passed compare order x y (flatten l) (λ n. cc) below))
      ]
