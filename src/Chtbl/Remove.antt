-- ===== src/Chtbl/Remove.antt =====
-- chtbl_remove against the same view, and chtbl_destroy.
use sweet_clib.Prelude.{
  ℕ, ◌+◌, ◌-◌, ◌<◌, ◌≡◌, refl, Bool, Option, none, some, [], arith, if◌then◌else◌,
}
use sweet_clib.Linked.{Status, success, failure}
use sweet_clib.Chtbl.{Table, index, bucket, find_match, chtbl_lookup, chtbl_remove, remove_result}
use sweet_clib.Chtbl.Chain.{
  Respects, remove_loop_lem, drop_match, length-drop_match, Distinct-drop_match,
  find_match-drop_match,
}
use sweet_clib.Chtbl.Buckets.{
  IsTable, with_bucket, lookup-replace, total-set, index-lt, IsTable-with_bucket,
}

module _ {ℓ} {D : Type ℓ} (hash : D → ℕ) (match : D → D → Bool) where
  -- What a removal of `x` has to return, by what lookup found.
  abbrev pub Removes : Table D → D → Option D → Status × Option D × Table D → Type ℓ
  Removes t x none r = r ≡ (failure, none, t)
  Removes t x (some y) r =
      (r.0 ≡ success)
      × (r.1 ≡ some y)
      × (r.2.size + 1 ≡ t.size)
      × IsTable hash match r.2
      × ((q : D)
          → chtbl_lookup hash match r.2 q
            ≡ (if match q x then none else chtbl_lookup hash match t q))

  module _ (respects : Respects hash match) (t : Table D) (v : IsTable hash match t) (x : D) where
    lookup-remove :
        (n : ℕ) (q : D)
        → chtbl_lookup hash match
            (with_bucket hash match t x (drop_match hash match x (bucket hash match t x)) n)
            q
          ≡ (if match q x then none else chtbl_lookup hash match t q)
    lookup-remove n q =
        lookup-replace hash match respects t x q _ n none v
          (find_match-drop_match hash match respects q x _ (v.distinct _))

    enough : (y : D) → find_match hash match x (bucket hash match t x) ≡ some y → 0 < t.size
    enough y e = omega (
      arith,
      v.counted,
      length-drop_match hash match x (bucket hash match t x) y e,
      total-set t.table (index hash match t x) [] (index-lt hash match t x v),
    )

    remove_cases :
        (o : Option D)
        → find_match hash match x (bucket hash match t x) ≡ o
        → Removes t x o (chtbl_remove hash match t x)
    unfolding chtbl_remove remove_result
    remove_cases none e = rw (remove_loop_lem hash match x (bucket hash match t x), e)
    remove_cases (some y) e =
        let fewer = length-drop_match hash match x (bucket hash match t x) y e in
        rw (remove_loop_lem hash match x (bucket hash match t x), e)
          (
            refl,
            refl,
            omega (arith, enough y e),
            IsTable-with_bucket hash match t x _ (t.size - 1) v
                (Distinct-drop_match hash match respects x _ (v.distinct _))
                (omega (arith, enough y e, fewer)),
            lookup-remove (t.size - 1),
          )

    -- In a well-formed table whose `match` is an equivalence that `hash` respects, chtbl_remove
    -- returns -1 and changes nothing when lookup finds nothing; otherwise it returns 0 and hands
    -- out the element that lookup finds, the table stays well formed, counts one element less, and
    -- a lookup finds nothing exactly where it is asked for data that match the removed one, and
    -- what it found before under all others.
    pub chtbl_remove-lookup :
        Removes t x (chtbl_lookup hash match t x) (chtbl_remove hash match t x)
    unfolding chtbl_lookup
    chtbl_remove-lookup = remove_cases (find_match hash match x (bucket hash match t x)) refl
