-- ===== src/Chtbl/Life.antt =====
-- chtbl_init and chtbl_destroy: the table at its start and at its end.
use sweet_clib.Prelude.{
  ℕ, zero, suc, ◌+◌, ◌<◌, ◌≡◌, refl, Bool, true, false, none, some, List, [], ◌∷◌, ◌++◌, ◌%◌, arith,
  if◌then◌else◌, length, get_or, replicate, length-replicate,
}
use sweet_clib.Chtbl.{Table, find_match, chtbl_lookup, chtbl_init, destroy_buckets, chtbl_destroy}
use sweet_clib.Chtbl.Buckets.{total, IsTable}

total-replicate {ℓ} : (A : Type ℓ) (n : ℕ) → total {A = A} (replicate n []) ≡ 0
total-replicate A zero = refl
total-replicate A (suc n) = omega (arith, total-replicate A n)

module _ {ℓ} {A : Type ℓ} where
  get_or-replicate : (n i : ℕ) (x : A) → get_or (replicate n x) i x ≡ x
  get_or-replicate zero i x = refl
  get_or-replicate (suc n) zero x = refl
  get_or-replicate (suc n) (suc i) x = get_or-replicate n i x

  length-append : (xs ys : List A) → length (xs ++ ys) ≡ length xs + length ys
  length-append [] ys = omega arith
  length-append (x ∷ xs) ys = omega (arith, length-append xs ys)

  length-destroy_buckets :
      (d : Bool) (bs : List (List A)) → length (destroy_buckets d bs) ≡ (if d then total bs else 0)
  unfolding destroy_buckets
  length-destroy_buckets true [] = refl
  length-destroy_buckets true (b ∷ bs) =
      omega (arith, length-append b (destroy_buckets true bs), length-destroy_buckets true bs)
  length-destroy_buckets false [] = refl
  length-destroy_buckets false (b ∷ bs) = length-destroy_buckets false bs

module _ {ℓ} {D : Type ℓ} (hash : D → ℕ) (match : D → D → Bool) where
  -- chtbl_init with at least one bucket gives a well-formed table of size 0 in which every lookup finds
  -- nothing, unless malloc fails; chtbl_destroy of a well-formed table hands `destroy` as many data
  -- as the size counts (none when `destroy` is NULL), and leaves size and buckets 0.
  pub chtbl_init-destroy :
      (n : ℕ) (d : Bool) (u : Table D)
      → 0 < n
      → IsTable hash match u
      → ((t : Table D) × (chtbl_init true n d ≡ some t)
          × IsTable hash match t
          × (t.size ≡ 0)
          × ((q : D) → chtbl_lookup hash match t q ≡ none))
        × (chtbl_init {D = D} false n d ≡ none)
        × (length (chtbl_destroy u).0 ≡ (if u.destroys then u.size else 0))
        × ((chtbl_destroy u).1.size ≡ 0)
        × ((chtbl_destroy u).1.buckets ≡ 0)
  unfolding chtbl_init chtbl_lookup chtbl_destroy find_match
  chtbl_init-destroy n d u h v = (
    (
      _,
      refl,
      record {
        width = length-replicate n [];
        positive = h;
        counted = omega (arith, total-replicate D n);
        distinct = λ i. rw (get_or-replicate {A = List D} n i []) tt;
      },
      refl,
      λ q. rw (get_or-replicate {A = List D} n (hash q % n) []),
    ),
    refl,
    rw v.counted (length-destroy_buckets u.destroys u.table),
    refl,
    refl,
  )
