-- ===== src/Bistree/Order.antt =====
-- The sorted sequence of nodes that an AVL tree stands for: the specification of the operations.
use sweet_clib.Prelude.{
  ◌≡◌, ◌≢◌, ◌⊎◌, inl, inr, refl, ◌∙◌, Bool, true, false, Option, none, some, List, [], ◌∷◌, ◌++◌,
  if◌then◌else◌,
}
use sweet_clib.Linked.{Status, success, failure, duplicate}
use sweet_clib.Bistree.{Sign, negative, zero_sign, positive, by_sign}

abbrev pub flip : Sign → Sign
flip negative = positive
flip zero_sign = zero_sign
flip positive = negative

pub Sign-cases : (s : Sign) → (s ≡ negative) ⊎ ((s ≡ zero_sign) ⊎ (s ≡ positive))
Sign-cases negative = inl refl
Sign-cases zero_sign = inr (inl refl)
Sign-cases positive = inr (inr refl)

-- What the tree asks of `compare`.
pub record IsOrder {ℓ} {D : Type ℓ} (compare : D → D → Sign) : Type ℓ where
  pub compare_self : (x : D) → compare x x ≡ zero_sign
  pub compare_flip : (x y : D) → compare y x ≡ flip (compare x y)
  pub negative_trans :
      (x y z : D) → compare x y ≡ negative → compare y z ≡ negative → compare x z ≡ negative
  pub zero_congr : (x y z : D) → compare x y ≡ zero_sign → compare x z ≡ compare y z

module _ {ℓ} {D : Type ℓ} (compare : D → D → Sign) where
  -- A new element in front of `ns`, if there is memory for it.
  unfoldable pub place : Bool → D → List (D × Bool) → Status × List (D × Bool) × List D
  place true x ns = (success, (x, false) ∷ ns, [])
  place false x ns = (failure, ns, [])

  abbrev pub under :
      D × Bool → Status × List (D × Bool) × List D → Status × List (D × Bool) × List D
  under n (s, ns, p) = (s, n ∷ ns, p)

  -- An equal key: a hidden element is replaced and handed to `destroy`.
  unfoldable pub replace : Bool → D → D → Bool → List (D × Bool) → Status × List (D × Bool) × List D
  replace destroys x y false ns = (duplicate, (y, false) ∷ ns, [])
  replace destroys x y true ns = (success, (x, false) ∷ ns, if destroys then y ∷ [] else [])

  -- Insertion into a sorted sequence: the status, the new sequence, and what is destroyed.
  unfoldable pub put_seq : Bool → Bool → D → List (D × Bool) → Status × List (D × Bool) × List D
  unfolding place replace
  put_seq alloc destroys x [] = place alloc x []
  put_seq alloc destroys x ((y, h) ∷ ns) =
      let later = under (y, h) (put_seq alloc destroys x ns) in
      by_sign (compare x y) (place alloc x ((y, h) ∷ ns)) (replace destroys x y h ns) (later)

  -- The element with the key of `x`, with its hidden flag.
  unfoldable pub find_seq : D → List (D × Bool) → Option (D × Bool)
  find_seq x [] = none
  find_seq x ((y, h) ∷ ns) =
      let later = find_seq x ns in by_sign (compare x y) (later) (some (y, h)) (later)

  -- The flag of the element with the key of `x` set.
  unfoldable pub hide_seq : D → List (D × Bool) → List (D × Bool)
  hide_seq x [] = []
  hide_seq x ((y, h) ∷ ns) =
      let later = (y, h) ∷ hide_seq x ns in by_sign (compare x y) (later) ((y, true) ∷ ns) (later)

  abbrev pub Above : D → List (D × Bool) → Type 0
  Above y [] = Unit
  Above y ((z, h) ∷ ns) = (compare y z ≡ negative) × Above y ns

  abbrev pub Below : D → List (D × Bool) → Type 0
  Below y [] = Unit
  Below y ((z, h) ∷ ns) = (compare z y ≡ negative) × Below y ns

  -- The keys increase.
  abbrev pub Sorted : List (D × Bool) → Type 0
  Sorted [] = Unit
  Sorted ((y, h) ∷ ns) = Above y ns × Sorted ns

  abbrev pub extend :
      List (D × Bool) → Status × List (D × Bool) × List D → Status × List (D × Bool) × List D
  extend ms (s, ns, p) = (s, ns ++ ms, p)

  abbrev pub behind :
      List (D × Bool) → Status × List (D × Bool) × List D → Status × List (D × Bool) × List D
  behind ms (s, ns, p) = (s, ms ++ ns, p)

  pub Above-append :
      (y z : D) (h : Bool) (ls rs : List (D × Bool))
      → Above y (ls ++ (z, h) ∷ rs)
      → compare y z ≡ negative
  Above-append y z h [] rs a = a.0
  Above-append y z h (l ∷ ls) rs a = Above-append y z h ls rs a.1

  Above-left : (y : D) (ls rs : List (D × Bool)) → Above y (ls ++ rs) → Above y ls
  Above-left y [] rs a = tt
  Above-left y (l ∷ ls) rs a = (a.0, Above-left y ls rs a.1)

  -- The parts of a sorted sequence around an element.
  pub Sorted-append :
      (y : D) (h : Bool) (ls rs : List (D × Bool))
      → Sorted (ls ++ (y, h) ∷ rs)
      → Sorted ls × Below y ls × Above y rs × Sorted rs
  Sorted-append y h [] rs s = (tt, tt, s.0, s.1)
  Sorted-append y h ((z, k) ∷ ls) rs s =
      let r = Sorted-append y h ls rs s.1 in
      ((Above-left z ls _ s.0, r.0), (Above-append z y h ls rs s.0, r.1), r.2, r.3)

  pub put_seq-left :
      (alloc destroys : Bool) (x y : D) (h : Bool) (ls rs : List (D × Bool))
      → compare x y ≡ negative
      → put_seq alloc destroys x (ls ++ (y, h) ∷ rs)
        ≡ extend ((y, h) ∷ rs) (put_seq alloc destroys x ls)
  unfolding put_seq
  put_seq-left true d x y h [] rs e = rw e
  put_seq-left false d x y h [] rs e = rw e
  put_seq-left a d x y h ((z, k) ∷ ls) rs e = elim (Sign-cases (compare x z)) [
    | inl n ↦ rw n (place_extend a)
    | inr (inl n) ↦ rw n (replace_extend k)
    | inr (inr n) ↦ rw (n, put_seq-left a d x y h ls rs e)
  ]
    where
      place_extend :
          (b : Bool)
          → place b x ((z, k) ∷ (ls ++ (y, h) ∷ rs))
            ≡ extend ((y, h) ∷ rs) (place b x ((z, k) ∷ ls))
      place_extend true = refl
      place_extend false = refl

      replace_extend :
          (b : Bool)
          → replace d x z b (ls ++ (y, h) ∷ rs) ≡ extend ((y, h) ∷ rs) (replace d x z b ls)
      replace_extend true = refl
      replace_extend false = refl

  -- All elements of `ns` come before `x`.
  abbrev pub Passed : D → List (D × Bool) → Type 0
  Passed x [] = Unit
  Passed x ((z, k) ∷ ns) = (compare x z ≡ positive) × Passed x ns

  pub put_seq-right :
      (alloc destroys : Bool) (x : D) (ls rs : List (D × Bool))
      → Passed x ls
      → put_seq alloc destroys x (ls ++ rs) ≡ behind ls (put_seq alloc destroys x rs)
  unfolding put_seq
  put_seq-right a d x [] rs p = refl
  put_seq-right a d x ((z, k) ∷ ls) rs p = rw (p.0, put_seq-right a d x ls rs p.1)

  pub find_seq-right :
      (x : D) (ls rs : List (D × Bool)) → Passed x ls → find_seq x (ls ++ rs) ≡ find_seq x rs
  unfolding find_seq
  find_seq-right x [] rs p = refl
  find_seq-right x ((z, k) ∷ ls) rs p = rw (p.0, find_seq-right x ls rs p.1)

  pub hide_seq-right :
      (x : D) (ls rs : List (D × Bool)) → Passed x ls → hide_seq x (ls ++ rs) ≡ ls ++ hide_seq x rs
  unfolding hide_seq
  hide_seq-right x [] rs p = refl
  hide_seq-right x ((z, k) ∷ ls) rs p = rw (p.0, hide_seq-right x ls rs p.1)

  pub find_seq-Above : (x : D) (ns : List (D × Bool)) → Above x ns → find_seq x ns ≡ none
  unfolding find_seq
  find_seq-Above x [] a = refl
  find_seq-Above x ((z, k) ∷ ns) a = rw (a.0, find_seq-Above x ns a.1)

  pub hide_seq-Above : (x : D) (ns : List (D × Bool)) → Above x ns → hide_seq x ns ≡ ns
  unfolding hide_seq
  hide_seq-Above x [] a = refl
  hide_seq-Above x ((z, k) ∷ ns) a = rw (a.0, hide_seq-Above x ns a.1)

  pub find_seq-left :
      (x : D) (ls rs : List (D × Bool)) → Above x rs → find_seq x (ls ++ rs) ≡ find_seq x ls
  unfolding find_seq
  find_seq-left x [] rs a = find_seq-Above x rs a
  find_seq-left x ((z, k) ∷ ls) rs a = rw (find_seq-left x ls rs a)

  pub hide_seq-left :
      (x : D) (ls rs : List (D × Bool)) → Above x rs → hide_seq x (ls ++ rs) ≡ hide_seq x ls ++ rs
  unfolding hide_seq
  hide_seq-left x [] rs a = hide_seq-Above x rs a
  hide_seq-left x ((z, k) ∷ ls) rs a = rw (hide_seq-left x ls rs a) (by_sign_append (compare x z))
    where
      by_sign_append :
          (s : Sign)
          → by_sign s
              ((z, k) ∷ (hide_seq x ls ++ rs))
              ((z, true) ∷ (ls ++ rs))
              ((z, k) ∷ (hide_seq x ls ++ rs))
            ≡ by_sign s ((z, k) ∷ hide_seq x ls) ((z, true) ∷ ls) ((z, k) ∷ hide_seq x ls) ++ rs
      by_sign_append negative = refl
      by_sign_append zero_sign = refl
      by_sign_append positive = refl

  module _ (order : IsOrder compare) where
    open order use {compare_self, compare_flip, negative_trans, zero_congr}

    -- `y` and all above it come after an `x` that comes before `y`.
    pub Above-trans :
        (x y : D) (ns : List (D × Bool)) → compare x y ≡ negative → Above y ns → Above x ns
    Above-trans x y [] e a = tt
    Above-trans x y ((z, k) ∷ ns) e a = (negative_trans x y z e a.0, Above-trans x y ns e a.1)

    pub Above-zero :
        (x y : D) (ns : List (D × Bool)) → compare x y ≡ zero_sign → Above y ns → Above x ns
    Above-zero x y [] e a = tt
    Above-zero x y ((z, k) ∷ ns) e a = (zero_congr x y z e ∙ a.0, Above-zero x y ns e a.1)

    passes : (x y z : D) → compare x y ≢ negative → compare z y ≡ negative → compare x z ≡ positive
    passes x y z n e = elim (Sign-cases (compare x z)) [
      | inl a ↦ absurd (n (negative_trans x z y a e))
      | inr (inl a) ↦ absurd (n (zero_congr x z y a ∙ e))
      | inr (inr a) ↦ a
    ]

    pub Below-Passed :
        (x y : D) (ns : List (D × Bool)) → compare x y ≢ negative → Below y ns → Passed x ns
    Below-Passed x y [] n b = tt
    Below-Passed x y ((z, k) ∷ ns) n b = (passes x y z n b.0, Below-Passed x y ns n b.1)
