-- ===== src/Bitree/Traverse.antt =====
-- The traversals append the data in their order, as far as memory goes.
use mathlib.Core.List.{append_assoc, append-nil}
use mathlib.Core.Path.{fun_ext}
use sweet_clib.Prelude.{
  ap₂, ℕ, zero, suc, ◌-◌, ◌≤◌, ◌≡◌, refl, sym, ap, ◌∙◌, true, false, List, [], ◌∷◌, ◌++◌, arith,
  if◌then◌else◌, leb, length, take, length-append, Bool-cases, inl, inr,
}
use sweet_clib.Linked.{Status, success, failure}
use sweet_clib.Queue.{insert_after-last}
use sweet_clib.Bitree.{Node, eob, node, Walk, and_then, visit, preorder, inorder, postorder}

module _ {ℓ} {D : Type ℓ} where
  -- The orders of the data.
  abbrev pub pre : Node D → List D
  pre eob = []
  pre (node x l r) = x ∷ (pre l ++ pre r)

  abbrev pub mid : Node D → List D
  mid eob = []
  mid (node x l r) = mid l ++ x ∷ mid r

  abbrev pub post : Node D → List D
  post eob = []
  post (node x l r) = post l ++ (post r ++ x ∷ [])

  -- Appending `ys` to the list with memory for so many nodes: all of them, or a prefix and a failure.
  abbrev pub appended : List D → Walk D → Status × Walk D
  appended ys (m, xs) =
      if leb (length ys) m
      then (success, (m - length ys, xs ++ ys))
      else (failure, (0, xs ++ take m ys))

  visit-appended : (x : D) (w : Walk D) → visit x w ≡ appended (x ∷ []) w
  unfolding visit
  visit-appended x (zero, xs) = rw append-nil
  visit-appended x (suc m, xs) = ground (arith, insert_after-last xs x)

  take-append_le : (m : ℕ) (ys zs : List D) → m ≤ length ys → take m (ys ++ zs) ≡ take m ys
  take-append_le zero ys zs h = refl
  take-append_le (suc m) [] zs h = elim h [ ]
  take-append_le (suc m) (y ∷ ys) zs h = ap (λ t. y ∷ t) (take-append_le m ys zs (omega arith))

  take-append_ge :
      (m : ℕ) (ys zs : List D) → length ys ≤ m → take m (ys ++ zs) ≡ ys ++ take (m - length ys) zs
  take-append_ge m [] zs h = ap (λ k. take k zs) (omega arith)
  take-append_ge zero (y ∷ ys) zs h = elim h [ ]
  take-append_ge (suc m) (y ∷ ys) zs h =
      ap (λ t. y ∷ t)
        (take-append_ge m ys zs (omega arith) ∙ ap (λ k. ys ++ take k zs) (omega arith))

  and_then-appended :
      (ys zs : List D) (w : Walk D) → and_then (appended ys w) (appended zs) ≡ appended (ys ++ zs) w
  and_then-appended ys zs (m, xs) = elim (Bool-cases (leb (length ys) m)) [
    | inl e ↦ elim (Bool-cases (leb (length zs) (m - length ys))) [
      | inl f ↦
          let g : leb (length (ys ++ zs)) m ≡ true = ground (arith, length-append ys zs) in
          rw (e, f, g)
            (ap₂ (λ k l. (success, (k, l))) (omega (arith, length-append ys zs))
              (append_assoc xs ys zs))
      | inr f ↦
          let g : leb (length (ys ++ zs)) m ≡ false = ground (arith, length-append ys zs) in
          rw (e, f, g)
            (ap (λ l. (failure, (0, l)))
              (append_assoc xs ys _
                ∙ ap (λ l. xs ++ l) (sym (take-append_ge m ys zs (ground arith)))))
    ]
    | inr e ↦
        let g : leb (length (ys ++ zs)) m ≡ false = ground (arith, length-append ys zs) in
        rw (e, g) (ap (λ l. (failure, (0, xs ++ l))) (sym (take-append_le m ys zs (ground arith))))
  ]

  nothing-appended : (w : Walk D) → (success, w) ≡ appended [] w
  nothing-appended (m, xs) = ground (arith, append-nil xs)

  preorder-appended : (t : Node D) (w : Walk D) → preorder t w ≡ appended (pre t) w
  unfolding preorder
  preorder-appended eob w = nothing-appended w
  preorder-appended (node x l r) w =
      rw
        (
          fun_ext (preorder-appended l),
          fun_ext (preorder-appended r),
          visit-appended x w,
          fun_ext (and_then-appended (pre l) (pre r)),
        )
        (and_then-appended (x ∷ []) (pre l ++ pre r) w)

  inorder-appended : (t : Node D) (w : Walk D) → inorder t w ≡ appended (mid t) w
  unfolding inorder
  inorder-appended eob w = nothing-appended w
  inorder-appended (node x l r) w =
      rw
        (
          fun_ext (inorder-appended l),
          fun_ext (inorder-appended r),
          fun_ext (visit-appended x),
          fun_ext (and_then-appended (x ∷ []) (mid r)),
        )
        (and_then-appended (mid l) (x ∷ mid r) w)

  postorder-appended : (t : Node D) (w : Walk D) → postorder t w ≡ appended (post t) w
  unfolding postorder
  postorder-appended eob w = nothing-appended w
  postorder-appended (node x l r) w =
      rw
        (
          fun_ext (postorder-appended l),
          fun_ext (postorder-appended r),
          fun_ext (visit-appended x),
          fun_ext (and_then-appended (post r) (x ∷ [])),
        )
        (and_then-appended (post l) (post r ++ x ∷ []) w)

  -- The traversals of a tree, with memory for `w.0` list nodes, append its data in preorder, inorder
  -- and postorder: all of them, returning 0, when there is memory for all, and else as many as there
  -- is memory for, returning -1.
  pub traversals-appended :
      (t : Node D) (w : Walk D)
      → (preorder t w ≡ appended (pre t) w)
        × (inorder t w ≡ appended (mid t) w)
        × (postorder t w ≡ appended (post t) w)
  traversals-appended t w = (preorder-appended t w, inorder-appended t w, postorder-appended t w)
