-- ===== src/Tests/Tables.antt =====
-- Runs of the hash table at concrete inputs.
use sweet_clib.Prelude.{
  ℕ, zero, suc, ◌≡◌, refl, Bool, true, false, none, [], ◌∷◌, arith, if◌then◌else◌, ◌==◌, get_or,
}
use sweet_clib.Linked.{success}
use sweet_clib.Chtbl.{
  Table, SweetListKv, chtbl_lookup, chtbl_insert, chtbl_remove, hash_key, chtbl_insert_kv,
  chtbl_lookup_kv, chtbl_find_kv, find_match,
}
use sweet_clib.Chtbl.Chain.{Respects, Distinct}
use sweet_clib.Chtbl.Buckets.{IsTable}
use sweet_clib.Chtbl.Insert.{chtbl_insert-lookup}
use sweet_clib.Chtbl.Remove.{chtbl_remove-lookup}
use sweet_clib.Chtbl.Insert
use sweet_clib.Chtbl.Remove
use sweet_clib.Text.{
  Bytes, hashpjw, match_sweet_list_kv, hash_loop, hash_step, extend_char, strcmp_eq,
}
use sweet_clib.Chtbl.Life.{chtbl_init-destroy}
use sweet_clib.Chtbl.{chtbl_init, chtbl_destroy}
use sweet_clib.Prelude.{length, some}
use sweet_clib.Text.Hash.{find-insert_kv}

abbrev same : ℕ → ℕ
same x = x

abbrev equal : ℕ → ℕ → Bool
equal x y = x == y

equal-Respects : Respects same equal
equal-Respects = record {
  match_refl = λ x. ground arith;
  match_symm = λ x y. ground arith;
  match_trans = λ x y z p q. ground arith;
  hash-match = λ x y p. ground arith;
}

-- Two buckets, with 4 and 7 in them.
abbrev four_seven : Table ℕ
four_seven = record { buckets = 2; destroys = false; size = 2; table = (4 ∷ []) ∷ (7 ∷ []) ∷ [] }

four_seven-IsTable : IsTable same equal four_seven
unfolding find_match
four_seven-IsTable = record {
  width = refl;
  positive = omega arith;
  counted = refl;
  distinct = buckets_distinct;
}
  where
    buckets_distinct : (i : ℕ) → Distinct same equal (get_or four_seven.table i [])
    buckets_distinct zero = (refl, tt)
    buckets_distinct (suc zero) = (refl, tt)
    buckets_distinct (suc (suc i)) = tt

chtbl_insert-lookup_example :
    Insert.Inserts same equal true four_seven 9
      (chtbl_lookup same equal four_seven 9)
      (chtbl_insert same equal true four_seven 9)
chtbl_insert-lookup_example =
    chtbl_insert-lookup same equal equal-Respects four_seven four_seven-IsTable 9 true

chtbl_remove-lookup_example :
    Remove.Removes same equal four_seven 7
      (chtbl_lookup same equal four_seven 7)
      (chtbl_remove same equal four_seven 7)
chtbl_remove-lookup_example =
    chtbl_remove-lookup same equal equal-Respects four_seven four_seven-IsTable 7

-- A table of strings with the pair of "ab" and "x".
abbrev ab_x : SweetListKv Bytes
ab_x = record { key = 97 ∷ 98 ∷ []; value = 120 ∷ [] }

abbrev cd_y : SweetListKv Bytes
cd_y = record { key = 99 ∷ 100 ∷ []; value = 121 ∷ [] }

abbrev strings : Table (SweetListKv Bytes)
strings = record { buckets = 1; destroys = false; size = 1; table = (ab_x ∷ []) ∷ [] }

strings-IsTable : IsTable (hash_key hashpjw match_sweet_list_kv) match_sweet_list_kv strings
unfolding find_match match_sweet_list_kv
strings-IsTable = record {
  width = refl;
  positive = omega arith;
  counted = refl;
  distinct = buckets_distinct;
}
  where
    buckets_distinct :
        (i : ℕ)
        → Distinct
            (hash_key hashpjw match_sweet_list_kv)
            match_sweet_list_kv
            (get_or strings.table i [])
    buckets_distinct zero = (refl, tt)
    buckets_distinct (suc i) = tt

absent : chtbl_lookup_kv hashpjw match_sweet_list_kv strings cd_y ≡ none
unfolding chtbl_lookup_kv chtbl_lookup find_match hashpjw match_sweet_list_kv hash_loop hash_step
    extend_char strcmp_eq
absent = refl

find-insert_kv_example :
    ((chtbl_insert_kv hashpjw match_sweet_list_kv true strings cd_y).0 ≡ success)
    × ((q : SweetListKv Bytes)
        → chtbl_find_kv hashpjw match_sweet_list_kv
            (chtbl_insert_kv hashpjw match_sweet_list_kv true strings cd_y).1
            q
          ≡ (if match_sweet_list_kv q cd_y
              then cd_y
              else chtbl_find_kv hashpjw match_sweet_list_kv strings q))
find-insert_kv_example = find-insert_kv strings cd_y strings-IsTable absent

chtbl_init-destroy_example :
    ((t : Table ℕ) × (chtbl_init true 3 true ≡ some t)
      × IsTable same equal t
      × (t.size ≡ 0)
      × ((q : ℕ) → chtbl_lookup same equal t q ≡ none))
    × (chtbl_init {D = ℕ} false 3 true ≡ none)
    × (length (chtbl_destroy four_seven).0 ≡ 0)
    × ((chtbl_destroy four_seven).1.size ≡ 0)
    × ((chtbl_destroy four_seven).1.buckets ≡ 0)
chtbl_init-destroy_example =
    chtbl_init-destroy same equal 3 true four_seven (omega arith) four_seven-IsTable
