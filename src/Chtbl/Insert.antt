-- ===== src/Chtbl/Insert.antt =====
-- chtbl_insert against the view of the table as a function that chtbl_lookup reads.
use sweet_clib.Prelude.{
  ℕ, ◌+◌, ◌≡◌, refl, Bool, true, false, Option, none, some, [], ◌∷◌, arith, if◌then◌else◌,
}
use sweet_clib.Linked.{Status, success, failure, duplicate}
use sweet_clib.Chtbl.{Table, index, bucket, find_match, chtbl_lookup, chtbl_insert}
use sweet_clib.Chtbl.Chain.{Respects}
use sweet_clib.Chtbl.Buckets.{IsTable, with_bucket, lookup-replace, IsTable-with_bucket, set-get_or}

module _ {ℓ} {D : Type ℓ} (hash : D → ℕ) (match : D → D → Bool) where
  -- What an insertion of `x` has to return, by what lookup found and whether malloc succeeds.
  abbrev pub Inserts : Bool → Table D → D → Option D → Status × Table D → Type ℓ
  Inserts alloc t x (some y) r = r ≡ (duplicate, t)
  Inserts false t x none r = r ≡ (failure, t)
  Inserts true t x none r =
      (r.0 ≡ success)
      × (r.1.size ≡ t.size + 1)
      × IsTable hash match r.1
      × ((q : D)
          → chtbl_lookup hash match r.1 q
            ≡ (if match q x then some x else chtbl_lookup hash match t q))

  module _ (respects : Respects hash match) (t : Table D) (v : IsTable hash match t) (x : D) where
    lookup-insert :
        chtbl_lookup hash match t x ≡ none
        → (q : D)
        → chtbl_lookup hash match
            (with_bucket hash match t x (x ∷ bucket hash match t x) (t.size + 1))
            q
          ≡ (if match q x then some x else chtbl_lookup hash match t q)
    unfolding find_match
    lookup-insert e q =
        lookup-replace hash match respects t x q (x ∷ bucket hash match t x) (t.size + 1) (some x) v
          refl

    not_there :
        chtbl_lookup hash match t x ≡ none → find_match hash match x (bucket hash match t x) ≡ none
    unfolding chtbl_lookup
    not_there e = e

    insert_cases :
        (alloc : Bool) (o : Option D)
        → chtbl_lookup hash match t x ≡ o
        → Inserts alloc t x o (chtbl_insert hash match alloc t x)
    unfolding chtbl_insert
    insert_cases alloc (some y) e = rw e
    insert_cases false none e = rw (e, set-get_or t.table (index hash match t x) [])
    insert_cases true none e = rw e (
      refl,
      refl,
      IsTable-with_bucket hash match t x (x ∷ bucket hash match t x) (t.size + 1) v
          (not_there e, v.distinct _) (omega arith),
      lookup-insert e,
    )

    -- In a well-formed table whose `match` is an equivalence that `hash` respects, chtbl_insert
    -- returns 1 and changes nothing when a matching element is there; it returns -1 and changes
    -- nothing when malloc fails; otherwise it returns 0, the table stays well formed, counts one
    -- element more, and a lookup finds the new element exactly under the data that match it and
    -- what it found before under all others.
    pub chtbl_insert-lookup :
        (alloc : Bool)
        → Inserts alloc t x (chtbl_lookup hash match t x) (chtbl_insert hash match alloc t x)
    chtbl_insert-lookup alloc = insert_cases alloc (chtbl_lookup hash match t x) refl
