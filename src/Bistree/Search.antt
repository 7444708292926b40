-- ===== src/Bistree/Search.antt =====
-- bistree_lookup and hide against the sorted sequence, and the invariant of the tree.
use sweet_clib.Prelude.{
  ◌≡◌, ◌⊎◌, refl, inl, inr, Bool, true, false, Option, none, some, List, [], ◌∷◌, arith,
  if◌then◌else◌,
}
use sweet_clib.Linked.{Status, success, failure, duplicate}
use sweet_clib.Bistree.{Sign, negative, Tree, eob, node, BisTree, hide, lookup}
use sweet_clib.Bistree.Shape.{height, IsAvl, flatten, node_count}
use sweet_clib.Bistree.Order.{
  IsOrder, Sign-cases, put_seq, place, replace, find_seq, hide_seq, Above, Sorted, Sorted-append,
  Below-Passed, Above-trans, find_seq-Above, find_seq-left, find_seq-right, hide_seq-left,
  hide_seq-right,
}

module _ {ℓ} {D : Type ℓ} where
  -- What lookup reports of a node: nothing when it is hidden.
  abbrev pub visible : Option (D × Bool) → Option D
  visible none = none
  visible (some (y, h)) = if h then none else some y

  -- The return code of an insertion by what stands under the key.
  abbrev pub status_of : Bool → Option (D × Bool) → Status
  status_of alloc none = if alloc then success else failure
  status_of alloc (some (y, h)) = if h then success else duplicate

module _ {ℓ} {D : Type ℓ} (compare : D → D → Sign) where
  -- The invariant of the tree.
  pub record IsValid (t : BisTree D) : Type ℓ where
    pub shape : IsAvl t.root
    pub sorted : Sorted compare (flatten t.root)
    pub counted : t.size ≡ node_count t.root

  pub put_seq-status :
      (alloc d : Bool) (x : D) (ns : List (D × Bool))
      → IsOrder compare
      → Sorted compare ns
      → (put_seq compare alloc d x ns).0 ≡ status_of alloc (find_seq compare x ns)
  unfolding put_seq place replace find_seq
  put_seq-status true d x [] order s = refl
  put_seq-status false d x [] order s = refl
  put_seq-status a d x ((z, k) ∷ ns) order s = elim (Sign-cases (compare x z)) [
    | inl e ↦
        rw (e, find_seq-Above compare x ns (Above-trans compare order x z ns e s.0))
          (place_status a ((z, k) ∷ ns))
    | inr (inl e) ↦ rw e (replace_status k)
    | inr (inr e) ↦ rw e (put_seq-status a d x ns order s.1)
  ]
    where
      place_status :
          (b : Bool) (ms : List (D × Bool))
          → (place compare b x ms).0 ≡ (if b then success else failure)
      place_status true ms = refl
      place_status false ms = refl

      replace_status :
          (b : Bool) → (replace compare d x z b ns).0 ≡ (if b then success else duplicate)
      replace_status true = refl
      replace_status false = refl

  module _ (order : IsOrder compare) where
    around :
        (x y : D) (ns : List (D × Bool))
        → compare x y ≡ negative
        → Above compare y ns
        → Above compare x ns
    around x y ns e a = Above-trans compare order x y ns e a

    pub lookup-find_seq :
        (x : D) (t : Tree D)
        → Sorted compare (flatten t)
        → lookup compare x t ≡ visible (find_seq compare x (flatten t))
    unfolding lookup find_seq
    lookup-find_seq x eob s = refl
    lookup-find_seq x (node y h f l r) s =
        let (sl, below, above, sr) = Sorted-append compare y h (flatten l) (flatten r) s in
        elim (Sign-cases (compare x y)) [
          | inl e ↦
              rw
                (
                  e,
                  find_seq-left compare x (flatten l) ((y, h) ∷ flatten r)
                      (e, around x y (flatten r) e above),
                )
                (lookup-find_seq x l sl)
          | inr (inl e) ↦
              rw
                (
                  e,
                  find_seq-right compare x (flatten l) ((y, h) ∷ flatten r)
                      (Below-Passed compare order x y (flatten l) (λ n. cc) below),
                )
                (rw e)
          | inr (inr e) ↦
              rw
                (
                  e,
                  find_seq-right compare x (flatten l) ((y, h) ∷ flatten r)
                      (Below-Passed compare order x y (flatten l) (λ n. cc) below),
                )
                (rw e (lookup-find_seq x r sr))
        ]

    pub hide-hide_seq :
        (x : D) (t : Tree D)
        → Sorted compare (flatten t)
        → flatten (hide compare x t).1 ≡ hide_seq compare x (flatten t)
    unfolding hide hide_seq
    hide-hide_seq x eob s = refl
    hide-hide_seq x (node y h f l r) s =
        let (sl, below, above, sr) = Sorted-append compare y h (flatten l) (flatten r) s in
        elim (Sign-cases (compare x y)) [
          | inl e ↦ rw (
            e,
            hide_seq-left compare x (flatten l) ((y, h) ∷ flatten r)
                (e, around x y (flatten r) e above),
            hide-hide_seq x l sl,
          )
          | inr (inl e) ↦
              rw
                (
                  e,
                  hide_seq-right compare x (flatten l) ((y, h) ∷ flatten r)
                      (Below-Passed compare order x y (flatten l) (λ n. cc) below),
                )
                (rw e)
          | inr (inr e) ↦
              rw
                (
                  e,
                  hide_seq-right compare x (flatten l) ((y, h) ∷ flatten r)
                      (Below-Passed compare order x y (flatten l) (λ n. cc) below),
                )
                (rw (e, hide-hide_seq x r sr))
        ]

  -- Hiding changes neither the heights, nor the balance, nor the number of nodes.
  pub hide-IsAvl :
      (x : D) (t : Tree D)
      → IsAvl t
      → IsAvl (hide compare x t).1
        × (height (hide compare x t).1 ≡ height t)
        × (node_count (hide compare x t).1 ≡ node_count t)
  unfolding hide
  hide-IsAvl x eob a = (tt, refl, refl)
  hide-IsAvl x (node y h f l r) a =
      let (al, hl, nl) = hide-IsAvl x l a.1 in
      let (ar, hr, nr) = hide-IsAvl x r a.2 in
      elim (Sign-cases (compare x y)) [
        | inl e ↦ rw e ((rw hl a.0, al, a.2), rw hl, rw nl)
        | inr (inl e) ↦ rw e (a, refl, refl)
        | inr (inr e) ↦ rw e ((rw hr a.0, a.1, ar), rw hr, rw nr)
      ]

  hide_status :
      (x : D) (t : Tree D) (y : D) → lookup compare x t ≡ some y → (hide compare x t).0 ≡ success
  unfolding hide lookup
  hide_status x eob y e = cc
  hide_status x (node z h f l r) y e = ground (arith, hide_status x l y, hide_status x r y)

  pub hidden_or_absent :
      (x : D) (t : Tree D) (o : Option D)
      → lookup compare x t ≡ o
      → ((hide compare x t).0 ≡ success) ⊎ (lookup compare x t ≡ none)
  hidden_or_absent x t none e = inr e
  hidden_or_absent x t (some y) e = inl (hide_status x t y e)
