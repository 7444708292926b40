-- ===== src/Chtbl/Chain.antt =====
-- One bucket: the search loop, the removal loop and what they keep.
use sweet_clib.Prelude.{
  ℕ, ◌+◌, ◌≡◌, refl, ap, subst, ◌∙◌, Bool, true, false, Option, none, some, List, [], ◌∷◌, ◌++◌,
  arith, if◌then◌else◌, length, Bool-cases, inl, inr,
}
use mathlib.Core.List.{append_assoc}
use sweet_clib.Linked.{Status, success, failure}
use sweet_clib.Linked.Remove.{remove_after, put_back}
use sweet_clib.Queue.{last_position}
use sweet_clib.Chtbl.{find_match, remove_loop, advance}

-- What the table asks of its callbacks: `match` is an equivalence that `hash` respects.
pub record Respects {ℓ} {D : Type ℓ} (hash : D → ℕ) (match : D → D → Bool) : Type ℓ where
  pub match_refl : (x : D) → match x x ≡ true
  pub match_symm : (x y : D) → match x y ≡ match y x
  pub match_trans : (x y z : D) → match x y ≡ true → match y z ≡ true → match x z ≡ true
  pub hash-match : (x y : D) → match x y ≡ true → hash x ≡ hash y

module _ {ℓ} {D : Type ℓ} (hash : D → ℕ) (match : D → D → Bool) where
  -- The first match left out.
  pub drop_match : D → List D → List D
  drop_match x [] = []
  drop_match x (y ∷ ys) = if match x y then ys else y ∷ drop_match x ys

  abbrev pub removed_of : D → List D → List D → Option D → Status × Option D × List D
  removed_of x pre ys none = (failure, none, pre ++ ys)
  removed_of x pre ys (some y) = (success, some y, pre ++ drop_match x ys)

  remove_after-last :
      (pre : List D) (y : D) (ys : List D)
      → remove_after (pre ++ y ∷ ys) (last_position pre) ≡ some (y, pre ++ ys)
  remove_after-last [] y ys = refl
  remove_after-last (p ∷ []) y ys = refl
  remove_after-last (p ∷ q ∷ pre) y ys = ap (put_back p) (remove_after-last (q ∷ pre) y ys)

  advance-last :
      (pre : List D) (y : D) → advance (last_position pre) ≡ last_position (pre ++ y ∷ [])
  advance-last [] y = refl
  advance-last (p ∷ []) y = refl
  advance-last (p ∷ q ∷ pre) y = ap advance (advance-last (q ∷ pre) y)

  removed_snoc :
      (x y : D) (pre ys : List D) (o : Option D)
      → match x y ≡ false
      → removed_of x (pre ++ y ∷ []) ys o ≡ removed_of x pre (y ∷ ys) o
  unfolding drop_match
  removed_snoc x y pre ys none e = rw (append_assoc pre (y ∷ []) ys)
  removed_snoc x y pre ys (some z) e = rw (append_assoc pre (y ∷ []) (drop_match x ys), e)

  -- With `prev` at the end of `pre`, the loop drops the first match of the rest.
  remove_loop-drop_match :
      (x : D) (pre ys : List D)
      → remove_loop hash match x (pre ++ ys) (last_position pre) ys
        ≡ removed_of x pre ys (find_match hash match x ys)
  unfolding remove_loop find_match drop_match
  remove_loop-drop_match x pre [] = refl
  remove_loop-drop_match x pre (y ∷ ys) = elim (Bool-cases (match x y)) [
    | inl e ↦ rw (e, remove_after-last pre y ys) (rw e)
    | inr e ↦
        rw (e, advance-last pre y)
          (subst
              (λ b.
                remove_loop hash match x b (last_position (pre ++ y ∷ [])) ys
                ≡ removed_of x (pre ++ y ∷ []) ys (find_match hash match x ys))
              (append_assoc pre (y ∷ []) ys) (remove_loop-drop_match x (pre ++ y ∷ []) ys)
            ∙ removed_snoc x y pre ys (find_match hash match x ys) e)
  ]

  pub remove_loop_lem :
      (x : D) (ys : List D)
      → remove_loop hash match x ys none ys ≡ removed_of x [] ys (find_match hash match x ys)
  remove_loop_lem x ys = remove_loop-drop_match x [] ys

-- No two data of a bucket match.
module _ {ℓ} {D : Type ℓ} (hash : D → ℕ) (match : D → D → Bool) where
  abbrev pub Distinct : List D → Type ℓ
  Distinct [] = Unit
  Distinct (y ∷ ys) = (find_match hash match y ys ≡ none) × Distinct ys

  pub length-drop_match :
      (x : D) (ys : List D) (y : D)
      → find_match hash match x ys ≡ some y
      → length (drop_match hash match x ys) + 1 ≡ length ys
  unfolding find_match drop_match
  length-drop_match x [] y e = cc
  length-drop_match x (z ∷ ys) y e = ground (arith, length-drop_match x ys y)

  module _ (respects : Respects hash match) where
    match_congr : (q x y : D) → match q x ≡ true → match q y ≡ match x y
    match_congr q x y e =
        ground
          (arith, respects.match_symm q x, respects.match_trans q x y, respects.match_trans x q y)

    -- Matching data find the same element.
    pub find_match_congr :
        (q x : D) (ys : List D)
        → match q x ≡ true
        → find_match hash match q ys ≡ find_match hash match x ys
    unfolding find_match
    find_match_congr q x [] e = refl
    find_match_congr q x (y ∷ ys) e = rw (match_congr q x y e, find_match_congr q x ys e)

    find_match-drop_none :
        (q x : D) (ys : List D)
        → find_match hash match q ys ≡ none
        → find_match hash match q (drop_match hash match x ys) ≡ none
    unfolding find_match drop_match
    find_match-drop_none q x [] e = refl
    find_match-drop_none q x (y ∷ ys) e = ground (arith, find_match-drop_none q x ys)

    pub Distinct-drop_match :
        (x : D) (ys : List D) → Distinct ys → Distinct (drop_match hash match x ys)
    unfolding drop_match
    Distinct-drop_match x [] d = tt
    Distinct-drop_match x (y ∷ ys) d = elim (Bool-cases (match x y)) [
      | inl e ↦ rw e d.1
      | inr e ↦ rw e (find_match-drop_none y x ys d.0, Distinct-drop_match x ys d.1)
    ]

    pub find_match-drop_match :
        (q x : D) (ys : List D)
        → Distinct ys
        → find_match hash match q (drop_match hash match x ys)
          ≡ (if match q x then none else find_match hash match q ys)
    unfolding find_match drop_match
    find_match-drop_match q x [] d = ground arith
    find_match-drop_match q x (y ∷ ys) d = ground (
      arith,
      find_match-drop_match q x ys d.1,
      find_match_congr q y ys,
      match_congr q x y,
      respects.match_symm x y,
      respects.match_trans q y x,
      d.0,
    )
