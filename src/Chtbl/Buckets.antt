-- ===== src/Chtbl/Buckets.antt =====
-- The invariant of the table, and what a write to one bucket does to lookups and to the count.
use sweet_clib.Prelude.{
  ℕ, zero, suc, ◌+◌, ◌%◌, ◌<◌, ◌≡◌, refl, ap, ◌∙◌, ◌≢◌, Bool, true, false, Option, List, [], ◌∷◌,
  arith, if◌then◌else◌, length, set, get_or, length-set, Bool-cases, inl, inr, ◌==◌,
}
use sweet_clib.Chtbl.{Table, index, bucket, find_match, chtbl_lookup}
use sweet_clib.Chtbl.Chain.{Respects, Distinct}

module _ {ℓ} {A : Type ℓ} where
  -- How many data the buckets hold together.
  abbrev pub total : List (List A) → ℕ
  total [] = 0
  total (b ∷ bs) = length b + total bs

  pub total-set :
      (bs : List (List A)) (i : ℕ) (b : List A)
      → i < length bs
      → total (set bs i b) + length (get_or bs i []) ≡ total bs + length b
  total-set [] i b m = absurd (omega arith)
  total-set (c ∷ bs) zero b m = omega arith
  total-set (c ∷ bs) (suc i) b m = omega (arith, total-set bs i b (omega arith))

  pub get_or-set :
      (xs : List A) (i j : ℕ) (v d : A)
      → i < length xs
      → get_or (set xs i v) j d ≡ (if j == i then v else get_or xs j d)
  get_or-set [] i j v d m = absurd (omega arith)
  get_or-set (x ∷ xs) zero zero v d m = refl
  get_or-set (x ∷ xs) zero (suc j) v d m = ground arith
  get_or-set (x ∷ xs) (suc i) zero v d m = ground arith
  get_or-set (x ∷ xs) (suc i) (suc j) v d m = get_or-set xs i j v d (omega arith) ∙ ground arith

  pub set-get_or : (xs : List A) (i : ℕ) (d : A) → set xs i (get_or xs i d) ≡ xs
  set-get_or [] i d = refl
  set-get_or (x ∷ xs) zero d = refl
  set-get_or (x ∷ xs) (suc i) d = ap (λ ys. x ∷ ys) (set-get_or xs i d)

module _ {ℓ} {D : Type ℓ} (hash : D → ℕ) (match : D → D → Bool) where
  pub record IsTable (t : Table D) : Type ℓ where
    pub width : length t.table ≡ t.buckets
    pub positive : 0 < t.buckets
    pub counted : t.size ≡ total t.table
    pub distinct : (i : ℕ) → Distinct hash match (get_or t.table i [])

  pub index-lt : (t : Table D) (x : D) → IsTable t → index hash match t x < length t.table
  index-lt t x v = rw v.width (ground (arith, v.positive))

  -- A bucket replaced.
  abbrev pub with_bucket : Table D → D → List D → ℕ → Table D
  with_bucket t x b n = record t { size = n; table = set t.table (index hash match t x) b }

  pub lookup-with_bucket :
      (t : Table D) (x q : D) (b : List D) (n : ℕ)
      → IsTable t
      → chtbl_lookup hash match (with_bucket t x b n) q ≡ (
          if index hash match t q == index hash match t x
          then find_match hash match q b
          else chtbl_lookup hash match t q)
  unfolding chtbl_lookup
  lookup-with_bucket t x q b n v =
      rw (get_or-set t.table (index hash match t x) (index hash match t q) b [] (index-lt t x v))
        (ground arith)

  pub IsTable-with_bucket :
      (t : Table D) (x : D) (b : List D) (n : ℕ)
      → IsTable t
      → Distinct hash match b
      → n + length (bucket hash match t x) ≡ t.size + length b
      → IsTable (with_bucket t x b n)
  IsTable-with_bucket t x b n v d e = record {
    width = length-set t.table _ b ∙ v.width;
    positive = v.positive;
    counted = omega (arith, v.counted, total-set t.table _ b (index-lt t x v));
    distinct =
        λ i. rw (get_or-set t.table _ i b [] (index-lt t x v)) (pick (i == index hash match t x) i);
  }
    where
      pick : (c : Bool) (i : ℕ) → Distinct hash match (if c then b else get_or t.table i [])
      pick true i = d
      pick false i = v.distinct i

  module _ (respects : Respects hash match) where
    same_bucket :
        (t : Table D) (q x : D)
        → (index hash match t q == index hash match t x) ≡ true
        → chtbl_lookup hash match t q ≡ find_match hash match q (bucket hash match t x)
    unfolding chtbl_lookup
    same_bucket t q x e = ap (λ i. find_match hash match q (get_or t.table i [])) (ground arith)

    other_bucket :
        (t : Table D) (q x : D)
        → (index hash match t q == index hash match t x) ≡ false
        → match q x ≡ false
    other_bucket t q x e = elim (Bool-cases (match q x)) [
      | inl m ↦ absurd (ne_index (ap (λ k. k % t.buckets) (respects.hash-match q x m)))
      | inr m ↦ m
    ]
      where
        ne_index : index hash match t q ≢ index hash match t x
        ne_index = ground arith

    -- A bucket that changes only what matches `x` changes only those lookups.
    pub lookup-replace :
        (t : Table D) (x q : D) (b : List D) (n : ℕ) (o : Option D)
        → IsTable t
        → find_match hash match q b
          ≡ (if match q x then o else find_match hash match q (bucket hash match t x))
        → chtbl_lookup hash match (with_bucket t x b n) q
          ≡ (if match q x then o else chtbl_lookup hash match t q)
    lookup-replace t x q b n o v f =
        lookup-with_bucket t x q b n v
        ∙ elim (Bool-cases (index hash match t q == index hash match t x)) [
          | inl e ↦ rw (e, same_bucket t q x e) f
          | inr e ↦ rw (e, other_bucket t q x e)
        ]
