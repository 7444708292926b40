-- ===== src/Bistree/Left.antt =====
-- insert on the left: what the switch behind it makes of a grown subtree.
use sweet_clib.Prelude.{
  ℕ, ◌+◌, ◌<◌, ◌≡◌, refl, sym, ap, ◌∙◌, inl, inr, Bool, true, false, Option, some, List, ◌∷◌, ◌++◌,
  arith, Bool-cases,
}
use sweet_clib.Linked.{Status, success, failure, duplicate}
use sweet_clib.Bistree.{
  Sign, negative, Factor, avl_lft_heavy, avl_balanced, avl_rgt_heavy, Tree, node, Outcome, settle,
  left_grown, after_left,
}
use sweet_clib.Bistree.Shape.{FactorFits, height, IsAvl, tilted, flatten, node_count}
use sweet_clib.Bistree.Rotate.{rotate_left-Rotates}
use sweet_clib.Bistree.Order.{put_seq, extend, put_seq-left}

-- By how much a subtree grows.
abbrev pub rise : Status → Bool → ℕ
rise success false = 1
rise success true = 0
rise failure b = 0
rise duplicate b = 0

module _ {ℓ} {D : Type ℓ} (compare : D → D → Sign) where
  pub record Inserts (alloc destroys : Bool) (x : D) (t : Tree D) (o : Outcome D) : Type ℓ where
    pub shape : IsAvl o.tree
    pub tall : height o.tree ≡ height t + rise o.status o.balanced
    pub lean : o.status ≡ success → o.balanced ≡ false → 0 < height t → tilted o.tree ≡ true
    pub spec :
        ◌≡◌ {A = Status × List (D × Bool) × List D}
          (o.status, flatten o.tree, o.passed)
          (put_seq compare alloc destroys x (flatten t))
    pub nodes : node_count o.tree ≡ node_count t + o.added

  -- A run of insert on `t` that ends well.
  abbrev pub Returns : Bool → Bool → D → Tree D → Option (Outcome D) → Type ℓ
  Returns alloc d x t run = (o : Outcome D) × (run ≡ some o) × Inserts alloc d x t o

  module _ (alloc d : Bool) (x y : D) (h : Bool) where
    -- What insert makes of a change of the left subtree.
    module _ (f : Factor) (l r : Tree D) (o : Outcome D) (i : Inserts alloc d x l o)
        (fits : FactorFits f (height l) (height r)) (whole : IsAvl r)
        (e : compare x y ≡ negative) where
      spec_left :
          ◌≡◌ {A = Status × List (D × Bool) × List D}
            (o.status, flatten o.tree ++ (y, h) ∷ flatten r, o.passed)
            (put_seq compare alloc d x (flatten l ++ (y, h) ∷ flatten r))
      unfolding put_seq
      spec_left =
          ap (extend compare ((y, h) ∷ flatten r)) i.spec
          ∙ sym (put_seq-left compare alloc d x y h (flatten l) (flatten r) e)

      -- The subtree keeps its height.
      stays_left :
          (b : Bool)
          → rise o.status o.balanced ≡ 0
          → rise o.status b ≡ 0
          → (o.status ≡ success → b ≡ true)
          → Returns alloc d x (node y h f l r) (some (settle o b (node y h f o.tree r)))
      stays_left b z z' g =
          let same : height o.tree ≡ height l = omega (arith, i.tall, z) in
          (
            _,
            refl,
            record {
              shape = (rw same fits, i.shape, whole);
              tall = rw same (omega (arith, z'));
              lean = λ p q w. cc (g p);
              spec = spec_left;
              nodes = omega (arith, i.nodes);
            },
          )

    grown_left :
        (f : Factor) (l r : Tree D) (o : Outcome D)
        → Inserts alloc d x l o
        → FactorFits f (height l) (height r)
        → IsAvl r
        → compare x y ≡ negative
        → o.status ≡ success
        → o.balanced ≡ false
        → Returns alloc d x (node y h f l r) (left_grown y h f o r)
    unfolding left_grown
    grown_left avl_lft_heavy l r o i fits whole e s b =
        let taller : height o.tree ≡ height l + 1 = rw (s, b) at i.tall in
        let t =
          rotate_left-Rotates y h avl_lft_heavy o.tree r i.shape whole (omega arith)
            (i.lean s b (omega arith)) in
        (
          settle o true t.result,
          rw t.runs,
          record {
            shape = t.shape;
            tall = rw s (omega (arith, t.tall));
            lean = λ p q w. cc;
            spec = rw t.ordered (spec_left avl_lft_heavy l r o i fits whole e);
            nodes = omega (arith, t.nodes, i.nodes);
          },
        )
    grown_left avl_balanced l r o i fits whole e s b =
        let taller : height o.tree ≡ height l + 1 = rw (s, b) at i.tall in
        (
          _,
          refl,
          record {
            shape = (omega arith, i.shape, whole);
            tall = rw s (omega arith);
            lean = λ p q w. refl;
            spec = spec_left avl_balanced l r o i fits whole e;
            nodes = omega (arith, i.nodes);
          },
        )
    grown_left avl_rgt_heavy l r o i fits whole e s b =
        let taller : height o.tree ≡ height l + 1 = rw (s, b) at i.tall in
        (
          _,
          refl,
          record {
            shape = (omega arith, i.shape, whole);
            tall = rw s (omega arith);
            lean = λ p q w. cc;
            spec = spec_left avl_rgt_heavy l r o i fits whole e;
            nodes = omega (arith, i.nodes);
          },
        )

    pub after_left-Returns :
        (s : Status) (f : Factor) (l r : Tree D) (o : Outcome D)
        → o.status ≡ s
        → Inserts alloc d x l o
        → FactorFits f (height l) (height r)
        → IsAvl r
        → compare x y ≡ negative
        → Returns alloc d x (node y h f l r) (after_left y h f r o s)
    unfolding after_left
    after_left-Returns success f l r o s i fits whole e = elim (Bool-cases o.balanced) [
      | inl b ↦ rw b (stays_left f l r o i fits whole e true (rw (s, b)) (rw s) (λ p. refl))
      | inr b ↦ simp b (grown_left f l r o i fits whole e s b)
    ]
    after_left-Returns failure f l r o s i fits whole e =
        stays_left f l r o i fits whole e o.balanced (rw s) (rw s) (λ p. cc)
    after_left-Returns duplicate f l r o s i fits whole e =
        stays_left f l r o i fits whole e o.balanced (rw s) (rw s) (λ p. cc)
