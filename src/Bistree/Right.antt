-- ===== src/Bistree/Right.antt =====
-- insert on the right: what the switch behind it makes of a grown subtree.
use sweet_clib.Prelude.{
  ◌+◌, ◌≡◌, refl, sym, ap, ◌∙◌, inl, inr, Bool, true, false, some, List, ◌∷◌, ◌++◌, arith,
  Bool-cases,
}
use sweet_clib.Linked.{Status, success, failure, duplicate}
use sweet_clib.Bistree.{
  Sign, positive, Factor, avl_lft_heavy, avl_balanced, avl_rgt_heavy, Tree, node, Outcome, settle,
  right_grown, after_right,
}
use sweet_clib.Bistree.Shape.{FactorFits, height, IsAvl, flatten}
use sweet_clib.Bistree.Rotate.{rotate_right-Rotates}
use sweet_clib.Bistree.Order.{put_seq, under, behind, Passed, put_seq-right}
use sweet_clib.Bistree.Left.{rise, Inserts, Returns}

module _ {ℓ} {D : Type ℓ} (compare : D → D → Sign) where
  module _ (alloc d : Bool) (x y : D) (h : Bool) where
    -- What insert makes of a change of the right subtree.
    module _ (f : Factor) (l r : Tree D) (o : Outcome D) (i : Inserts compare alloc d x r o)
        (fits : FactorFits f (height l) (height r)) (whole : IsAvl l) (e : compare x y ≡ positive)
        (past : Passed compare x (flatten l)) where
      spec_right :
          ◌≡◌ {A = Status × List (D × Bool) × List D}
            (o.status, flatten l ++ (y, h) ∷ flatten o.tree, o.passed)
            (put_seq compare alloc d x (flatten l ++ (y, h) ∷ flatten r))
      unfolding put_seq
      spec_right =
          ap (λ w. behind compare (flatten l) (under compare (y, h) w)) i.spec
          ∙ sym (put_seq-right compare alloc d x (flatten l) ((y, h) ∷ flatten r) past ∙ step)
        where
          step :
              behind compare (flatten l) (put_seq compare alloc d x ((y, h) ∷ flatten r))
              ≡ behind compare
                  (flatten l)
                  (under compare (y, h) (put_seq compare alloc d x (flatten r)))
          step = unfold put_seq in rw e

      -- The subtree keeps its height.
      stays_right :
          (b : Bool)
          → rise o.status o.balanced ≡ 0
          → rise o.status b ≡ 0
          → (o.status ≡ success → b ≡ true)
          → Returns compare alloc d x (node y h f l r) (some (settle o b (node y h f l o.tree)))
      stays_right b z z' g =
          let same : height o.tree ≡ height r = omega (arith, i.tall, z) in
          (
            _,
            refl,
            record {
              shape = (rw same fits, whole, i.shape);
              tall = rw same (omega (arith, z'));
              lean = λ p q w. cc (g p);
              spec = spec_right;
              nodes = omega (arith, i.nodes);
            },
          )

    grown_right :
        (f : Factor) (l r : Tree D) (o : Outcome D)
        → Inserts compare alloc d x r o
        → FactorFits f (height l) (height r)
        → IsAvl l
        → compare x y ≡ positive
        → Passed compare x (flatten l)
        → o.status ≡ success
        → o.balanced ≡ false
        → Returns compare alloc d x (node y h f l r) (right_grown y h f l o)
    unfolding right_grown
    grown_right avl_rgt_heavy l r o i fits whole e past s b =
        let taller : height o.tree ≡ height r + 1 = rw (s, b) at i.tall in
        let t =
          rotate_right-Rotates y h avl_rgt_heavy l o.tree whole i.shape (omega arith)
            (i.lean s b (omega arith)) in
        (
          settle o true t.result,
          rw t.runs,
          record {
            shape = t.shape;
            tall = rw s (omega (arith, t.tall));
            lean = λ p q w. cc;
            spec = rw t.ordered (spec_right avl_rgt_heavy l r o i fits whole e past);
            nodes = omega (arith, t.nodes, i.nodes);
          },
        )
    grown_right avl_balanced l r o i fits whole e past s b =
        let taller : height o.tree ≡ height r + 1 = rw (s, b) at i.tall in
        (
          _,
          refl,
          record {
            shape = (omega arith, whole, i.shape);
            tall = rw s (omega arith);
            lean = λ p q w. refl;
            spec = spec_right avl_balanced l r o i fits whole e past;
            nodes = omega (arith, i.nodes);
          },
        )
    grown_right avl_lft_heavy l r o i fits whole e past s b =
        let taller : height o.tree ≡ height r + 1 = rw (s, b) at i.tall in
        (
          _,
          refl,
          record {
            shape = (omega arith, whole, i.shape);
            tall = rw s (omega arith);
            lean = λ p q w. cc;
            spec = spec_right avl_lft_heavy l r o i fits whole e past;
            nodes = omega (arith, i.nodes);
          },
        )

    pub after_right-Returns :
        (s : Status) (f : Factor) (l r : Tree D) (o : Outcome D)
        → o.status ≡ s
        → Inserts compare alloc d x r o
        → FactorFits f (height l) (height r)
        → IsAvl l
        → compare x y ≡ positive
        → Passed compare x (flatten l)
        → Returns compare alloc d x (node y h f l r) (after_right y h f l o s)
    unfolding after_right
    after_right-Returns success f l r o s i fits whole e past = elim (Bool-cases o.balanced) [
      | inl b ↦ rw b (stays_right f l r o i fits whole e past true (rw (s, b)) (rw s) (λ p. refl))
      | inr b ↦ simp b (grown_right f l r o i fits whole e past s b)
    ]
    after_right-Returns failure f l r o s i fits whole e past =
        stays_right f l r o i fits whole e past o.balanced (rw s) (rw s) (λ p. cc)
    after_right-Returns duplicate f l r o s i fits whole e past =
        stays_right f l r o i fits whole e past o.balanced (rw s) (rw s) (λ p. cc)
