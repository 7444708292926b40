-- ===== src/Echo/Slices.antt =====
-- The part of a buffer between two positions.
use sweet_clib.Prelude.{
  ℕ, zero, suc, ◌+◌, ◌-◌, ◌<◌, ◌≤◌, ◌≡◌, refl, sym, ap, ◌∙◌, Bool, true, false, not, ◌&&◌, List, [],
  ◌∷◌, ◌++◌, arith, length, ◌==◌, set, take, drop,
}

abbrev pub slice : ℕ → ℕ → List ℕ → List ℕ
slice a b xs = take (b - a) (drop a xs)

pub slice_empty : (a : ℕ) (xs : List ℕ) → slice a a xs ≡ []
slice_empty a xs = let e : a - a ≡ 0 = omega arith in ap (λ n. take n (drop a xs)) e

take-set :
    (n : ℕ) (x : ℕ) (xs : List ℕ) → n < length xs → take (n + 1) (set xs n x) ≡ take n xs ++ x ∷ []
take-set n x [] h = elim h [ ]
take-set zero x (y ∷ ys) h = refl
take-set (suc n) x (y ∷ ys) h =
    let e : suc n + 1 ≡ suc (n + 1) = omega arith in
    rw e (ap (y ∷◌) (take-set n x ys (omega (arith, h))))

-- A write behind the part lengthens it.
pub slice-set :
    (a b x : ℕ) (xs : List ℕ)
    → a ≤ b
    → b < length xs
    → slice a (b + 1) (set xs b x) ≡ slice a b xs ++ x ∷ []
slice-set a b x [] g h = elim h [ ]
slice-set zero b x (y ∷ ys) g h =
    let e : b + 1 - 0 ≡ b + 1 = omega arith in
    let k : b - 0 ≡ b = omega arith in rw (e, k) (take-set b x (y ∷ ys) h)
slice-set (suc a) zero x (y ∷ ys) g h = absurd (omega (arith, g))
slice-set (suc a) (suc b) x (y ∷ ys) g h =
    let e : suc b + 1 - suc a ≡ b + 1 - a = omega arith in
    let k : suc b - suc a ≡ b - a = omega arith in
    rw (e, k) (slice-set a b x ys (omega (arith, g)) (omega (arith, h)))

take_nothing : (n : ℕ) → take {A = ℕ} n [] ≡ []
take_nothing zero = refl
take_nothing (suc n) = refl

take_split : (n m : ℕ) (xs : List ℕ) → take (n + m) xs ≡ take n xs ++ take m (drop n xs)
take_split zero m xs = ap (λ k. take k xs) (omega arith)
take_split (suc n) m [] = take_nothing (suc n + m) ∙ sym (take_nothing m)
take_split (suc n) m (x ∷ xs) =
    let e : suc n + m ≡ suc (n + m) = omega arith in rw e (ap (x ∷◌) (take_split n m xs))

drop_nothing : (n : ℕ) → drop {A = ℕ} n [] ≡ []
drop_nothing zero = refl
drop_nothing (suc n) = refl

drop-drop : (a n : ℕ) (xs : List ℕ) → drop n (drop a xs) ≡ drop (a + n) xs
drop-drop zero n xs = ap (λ k. drop k xs) (omega arith)
drop-drop (suc a) n [] = drop_nothing n ∙ sym (drop_nothing (suc a + n))
drop-drop (suc a) n (x ∷ xs) =
    let e : suc a + n ≡ suc (a + n) = omega arith in rw e (drop-drop a n xs)

-- A part in two.
pub slice_split :
    (a n b : ℕ) (xs : List ℕ) → a + n ≤ b → slice a b xs ≡ take n (drop a xs) ++ slice (a + n) b xs
slice_split a n b xs h =
    ap (λ k. take k (drop a xs)) (omega (arith, h))
    ∙ take_split n (b - (a + n)) (drop a xs)
    ∙ ap (λ ys. take n (drop a xs) ++ take (b - (a + n)) ys) (drop-drop a n xs)

abbrev pub no_newline : List ℕ → Bool
no_newline [] = true
no_newline (c ∷ cs) = not (c == 10) && no_newline cs

pub no_newline-append :
    (xs : List ℕ) (c : ℕ)
    → no_newline xs ≡ true
    → (c == 10) ≡ false
    → no_newline (xs ++ c ∷ []) ≡ true
no_newline-append [] c h g = rw g refl
no_newline-append (x ∷ xs) c h g = ground (arith, h, no_newline-append xs c (ground (arith, h)) g)
