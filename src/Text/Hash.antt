-- ===== src/Text/Hash.antt =====
-- hashpjw and match_sweet_list_kv as callbacks of the hash table.
use sweet_clib.Prelude.{
  ◌≡◌, refl, ap, subst, ◌∙◌, Bool, true, false, Option, none, some, [], ◌∷◌, arith, if◌then◌else◌,
}
use sweet_clib.Linked.{success}
use sweet_clib.Chtbl.{
  SweetListKv, Table, chtbl_insert, chtbl_lookup, chtbl_insert_kv, chtbl_lookup_kv, chtbl_find_kv,
  hash_key, found_or,
}
use sweet_clib.Chtbl.Chain.{Respects}
use sweet_clib.Chtbl.Buckets.{IsTable}
use sweet_clib.Chtbl.Insert.{Inserts, chtbl_insert-lookup}
use sweet_clib.Text.{Bytes, hashpjw, strcmp_eq, match_sweet_list_kv}

pub strcmp_eq_self : (s : Bytes) → strcmp_eq s s ≡ true
unfolding strcmp_eq
strcmp_eq_self [] = refl
strcmp_eq_self (c ∷ s) = ground (arith, strcmp_eq_self s)

pub eq_of_strcmp : (s t : Bytes) → strcmp_eq s t ≡ true → s ≡ t
unfolding strcmp_eq
eq_of_strcmp [] [] e = refl
eq_of_strcmp [] (d ∷ t) e = cc
eq_of_strcmp (c ∷ s) [] e = cc
eq_of_strcmp (c ∷ s) (d ∷ t) e = ground (arith, eq_of_strcmp s t)

strcmp_eq_symm : (s t : Bytes) → strcmp_eq s t ≡ strcmp_eq t s
unfolding strcmp_eq
strcmp_eq_symm [] [] = refl
strcmp_eq_symm [] (d ∷ t) = refl
strcmp_eq_symm (c ∷ s) [] = refl
strcmp_eq_symm (c ∷ s) (d ∷ t) = ground (arith, strcmp_eq_symm s t)

-- The two callbacks meet what the table asks of them.
pub kv_Respects : Respects (hash_key hashpjw match_sweet_list_kv) match_sweet_list_kv
unfolding match_sweet_list_kv
kv_Respects = record {
  match_refl = λ x. strcmp_eq_self x.key;
  match_symm = λ x y. strcmp_eq_symm x.key y.key;
  match_trans = λ x y z p q. rw (eq_of_strcmp x.key y.key p) q;
  hash-match = λ x y p. ap hashpjw (eq_of_strcmp x.key y.key p);
}

found_or_if :
    (b : Bool) (q e : SweetListKv Bytes) (o : Option (SweetListKv Bytes))
    → found_or q (if b then some e else o) ≡ (if b then e else found_or q o)
found_or_if true q e o = refl
found_or_if false q e o = refl

-- In a well-formed table of key and value strings with the callbacks hashpjw and match_sweet_list_kv,
-- where chtbl_lookup_kv finds nothing under a key and malloc succeeds, chtbl_insert_kv of a pair with
-- that key returns 0, and chtbl_find_kv then returns that pair for every argument with the same key,
-- and what it returned before for every other argument.
pub find-insert_kv :
    (t : Table (SweetListKv Bytes)) (e : SweetListKv Bytes)
    → IsTable (hash_key hashpjw match_sweet_list_kv) match_sweet_list_kv t
    → chtbl_lookup_kv hashpjw match_sweet_list_kv t e ≡ none
    → ((chtbl_insert_kv hashpjw match_sweet_list_kv true t e).0 ≡ success)
      × ((q : SweetListKv Bytes)
          → chtbl_find_kv hashpjw match_sweet_list_kv
              (chtbl_insert_kv hashpjw match_sweet_list_kv true t e).1
              q
            ≡ (if match_sweet_list_kv q e
                then e
                else chtbl_find_kv hashpjw match_sweet_list_kv t q))
unfolding chtbl_find_kv chtbl_insert_kv chtbl_lookup_kv chtbl_lookup
find-insert_kv t e v absent =
    let i = inserted in
    (i.0, λ q. ap (found_or q) (i.3 q) ∙ found_or_if (match_sweet_list_kv q e) q e (looked_up q))
  where
    looked_up : SweetListKv Bytes → Option (SweetListKv Bytes)
    looked_up q = chtbl_lookup (hash_key hashpjw match_sweet_list_kv) match_sweet_list_kv t q

    inserted :
        Inserts
          (hash_key hashpjw match_sweet_list_kv)
          match_sweet_list_kv
          true
          t
          e
          none
          (chtbl_insert (hash_key hashpjw match_sweet_list_kv) match_sweet_list_kv true t e)
    inserted =
        subst
          (λ o.
            Inserts (hash_key hashpjw match_sweet_list_kv) match_sweet_list_kv true t e o
              (chtbl_insert (hash_key hashpjw match_sweet_list_kv) match_sweet_list_kv true t e))
          absent
          (chtbl_insert-lookup (hash_key hashpjw match_sweet_list_kv) match_sweet_list_kv
            kv_Respects t v e true)
