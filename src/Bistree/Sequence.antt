-- ===== src/Bistree/Sequence.antt =====
-- The specification itself is sound: insertion and hiding keep the sequence sorted, and change
-- what is found under the inserted or hidden key alone.
use sweet_clib.Prelude.{
  ◌≡◌, ◌≢◌, refl, sym, ap, ◌∙◌, inl, inr, Bool, true, false, Option, none, some, List, [], ◌∷◌,
  arith,
}
use sweet_clib.Linked.{success}
use sweet_clib.Bistree.{Sign, negative, zero_sign, by_sign}
use sweet_clib.Bistree.Order.{
  IsOrder, flip, Sign-cases, put_seq, place, replace, find_seq, hide_seq, Above, Sorted,
  Above-trans, Above-zero,
}

module _ {ℓ} {D : Type ℓ} where
  abbrev pub hidden : Option (D × Bool) → Option (D × Bool)
  hidden none = none
  hidden (some (y, h)) = some (y, true)

module _ {ℓ} {D : Type ℓ} (compare : D → D → Sign) (order : IsOrder compare) where
  open order use {compare_self, compare_flip, negative_trans, zero_congr}

  Above-place :
      (a : Bool) (y x : D) (ns : List (D × Bool))
      → compare y x ≡ negative
      → Above compare y ns
      → Above compare y (place compare a x ns).1
  unfolding place
  Above-place true y x ns e b = (e, b)
  Above-place false y x ns e b = b

  Above-replace :
      (d : Bool) (y x z : D) (k : Bool) (ns : List (D × Bool))
      → compare y x ≡ negative
      → compare y z ≡ negative
      → Above compare y ns
      → Above compare y (replace compare d x z k ns).1
  unfolding replace
  Above-replace d y x z true ns e f b = (e, b)
  Above-replace d y x z false ns e f b = (f, b)

  Above-put_seq :
      (a d : Bool) (y x : D) (ns : List (D × Bool))
      → compare y x ≡ negative
      → Above compare y ns
      → Above compare y (put_seq compare a d x ns).1
  unfolding put_seq
  Above-put_seq a d y x [] e b = Above-place a y x [] e tt
  Above-put_seq a d y x ((z, k) ∷ ns) e b = elim (Sign-cases (compare x z)) [
    | inl n ↦ rw n (Above-place a y x ((z, k) ∷ ns) e b)
    | inr (inl n) ↦ rw n (Above-replace d y x z k ns e b.0 b.1)
    | inr (inr n) ↦ rw n (b.0, Above-put_seq a d y x ns e b.1)
  ]

  pub Sorted-put_seq :
      (a d : Bool) (x : D) (ns : List (D × Bool))
      → Sorted compare ns
      → Sorted compare (put_seq compare a d x ns).1
  unfolding put_seq place replace
  Sorted-put_seq true d x [] s = (tt, tt)
  Sorted-put_seq false d x [] s = tt
  Sorted-put_seq a d x ((z, k) ∷ ns) s = elim (Sign-cases (compare x z)) [
    | inl n ↦ rw n (placed a n)
    | inr (inl n) ↦ rw n (replaced k n)
    | inr (inr n) ↦
        rw n
          (Above-put_seq a d z x ns (compare_flip x z ∙ ap flip n) s.0, Sorted-put_seq a d x ns s.1)
  ]
    where
      placed :
          (b : Bool) → compare x z ≡ negative → Sorted compare (place compare b x ((z, k) ∷ ns)).1
      placed true n = ((n, Above-trans compare order x z ns n s.0), s)
      placed false n = s

      replaced :
          (b : Bool) → compare x z ≡ zero_sign → Sorted compare (replace compare d x z b ns).1
      replaced true n = (Above-zero compare order x z ns n s.0, s.1)
      replaced false n = s

  pub put_seq-failed :
      (a d : Bool) (x : D) (ns : List (D × Bool))
      → (put_seq compare a d x ns).0 ≢ success
      → (put_seq compare a d x ns).1 ≡ ns
  unfolding put_seq place replace
  put_seq-failed true d x [] f = absurd (f refl)
  put_seq-failed false d x [] f = refl
  put_seq-failed a d x ((z, k) ∷ ns) f = ground (arith, put_seq-failed a d x ns)

  pub compare_congr : (q x y : D) → compare x y ≡ zero_sign → compare q x ≡ compare q y
  compare_congr q x y e = compare_flip x q ∙ (ap flip (zero_congr x y q e) ∙ sym (compare_flip y q))

  pub find_seq-put_seq :
      (a d : Bool) (q x : D) (ns : List (D × Bool))
      → (put_seq compare a d x ns).0 ≡ success
      → find_seq compare q (put_seq compare a d x ns).1
        ≡ by_sign (compare q x) (find_seq compare q ns) (some (x, false)) (find_seq compare q ns)
  unfolding put_seq place replace find_seq
  find_seq-put_seq true d q x [] f = refl
  find_seq-put_seq false d q x [] f = cc
  find_seq-put_seq a d q x ((z, k) ∷ ns) f =
      ground (arith, find_seq-put_seq a d q x ns, compare_congr q x z, zero_congr q x z)

  pub find_seq-hide_seq :
      (q x : D) (ns : List (D × Bool))
      → find_seq compare q (hide_seq compare x ns)
        ≡ by_sign
            (compare q x)
            (find_seq compare q ns)
            (hidden (find_seq compare q ns))
            (find_seq compare q ns)
  unfolding find_seq hide_seq
  find_seq-hide_seq q x [] = ground arith
  find_seq-hide_seq q x ((z, k) ∷ ns) =
      ground (arith, find_seq-hide_seq q x ns, compare_congr q x z, zero_congr q x z)

  Above-hide_seq :
      (y x : D) (ns : List (D × Bool))
      → Above compare y ns
      → Above compare y (hide_seq compare x ns)
  unfolding hide_seq
  Above-hide_seq y x [] b = tt
  Above-hide_seq y x ((z, k) ∷ ns) b = elim (Sign-cases (compare x z)) [
    | inl n ↦ rw n (b.0, Above-hide_seq y x ns b.1)
    | inr (inl n) ↦ rw n b
    | inr (inr n) ↦ rw n (b.0, Above-hide_seq y x ns b.1)
  ]

  pub Sorted-hide_seq :
      (x : D) (ns : List (D × Bool)) → Sorted compare ns → Sorted compare (hide_seq compare x ns)
  unfolding hide_seq
  Sorted-hide_seq x [] s = tt
  Sorted-hide_seq x ((z, k) ∷ ns) s = elim (Sign-cases (compare x z)) [
    | inl n ↦ rw n (Above-hide_seq z x ns s.0, Sorted-hide_seq x ns s.1)
    | inr (inl n) ↦ rw n s
    | inr (inr n) ↦ rw n (Above-hide_seq z x ns s.0, Sorted-hide_seq x ns s.1)
  ]
