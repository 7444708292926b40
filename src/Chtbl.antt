-- ===== src/Chtbl.antt =====
-- lib/_structs/chtbl.c and chtbl.h (the same in lib/app/bns): a chained hash table. The buckets are
-- lists of list.c, seen through the interface of Linked/View. `hash` and `match` are the
-- callbacks h and match of the table, which the caller supplies; h is taken to return no negative
-- number, for which `h(data) % buckets` would not be an index.
pub mod Chain
pub mod Buckets
pub mod Insert
pub mod Remove
pub mod Life
use sweet_clib.Prelude.{
  ℕ, zero, suc, ◌+◌, ◌-◌, ◌%◌, Bool, true, false, Option, none, some, List, [], ◌∷◌, ◌++◌, set,
  get_or, replicate, if◌then◌else◌,
}
use sweet_clib.Linked.{Status, success, failure, duplicate}
use sweet_clib.Linked.View.{ins_next, rem_next}

-- CHTbl, less the callbacks; `table` is the array of lists.
pub record Table {ℓ} (D : Type ℓ) : Type ℓ where
  pub buckets : ℕ
  pub destroys : Bool
  pub size : ℕ
  pub table : List (List D)

-- SweetListKv
pub record SweetListKv {ℓ} (S : Type ℓ) : Type ℓ where
  pub key : S
  pub value : S

-- The node that the loop of chtbl_remove visits next becomes `prev`.
abbrev pub advance : Option ℕ → Option ℕ
advance none = some 0
advance (some i) = some (suc i)

module _ {ℓ} {D : Type ℓ} where
  -- chtbl_init: `none` for the return code -1, when malloc fails.
  pub chtbl_init : Bool → ℕ → Bool → Option (Table D)
  chtbl_init alloc buckets destroys =
      if alloc
      then some (record {
        buckets = buckets;
        destroys = destroys;
        size = 0;
        table = replicate buckets [];
      })
      else none

  -- The loop of chtbl_destroy: list_destroy of each bucket hands its data to `destroy`.
  pub destroy_buckets : Bool → List (List D) → List D
  destroy_buckets destroys [] = []
  destroy_buckets destroys (b ∷ bs) = (if destroys then b else []) ++ destroy_buckets destroys bs

  -- chtbl_destroy, with the data handed to `destroy` in order.
  pub chtbl_destroy : Table D → List D × Table D
  chtbl_destroy t = (
    destroy_buckets t.destroys t.table,
    record { buckets = 0; destroys = false; size = 0; table = [] },
  )

  module _ (hash : D → ℕ) (match : D → D → Bool) where
    -- `htbl->table[h(data) % buckets]`
    abbrev pub index : Table D → D → ℕ
    index t x = hash x % t.buckets

    abbrev pub bucket : Table D → D → List D
    bucket t x = get_or t.table (index t x) []

    -- The loop of chtbl_lookup over one bucket.
    unfoldable pub find_match : D → List D → Option D
    find_match x [] = none
    find_match x (y ∷ ys) = if match x y then some y else find_match x ys

    -- chtbl_lookup: the element that `*data` is set to, `none` for the return code -1.
    unfoldable pub chtbl_lookup : Table D → D → Option D
    chtbl_lookup t x = find_match x (bucket t x)

    -- The end of chtbl_insert: the size is counted up when list_ins_next returned 0.
    pub insert_result : Table D → ℕ → Status × List D → Status × Table D
    insert_result t i (success, b) =
        (success, record t { size = t.size + 1; table = set t.table i b })
    insert_result t i (s, b) = (s, record t { table = set t.table i b })

    -- chtbl_insert behind its call of chtbl_lookup, with what that found.
    pub insert_unless_found : Bool → Table D → D → Option D → Status × Table D
    insert_unless_found alloc t x (some y) = (duplicate, t)
    insert_unless_found alloc t x none =
        insert_result t (index t x) (ins_next alloc (bucket t x) none x)

    -- chtbl_insert
    pub chtbl_insert : Bool → Table D → D → Status × Table D
    unfolding insert_unless_found insert_result
    chtbl_insert alloc t x = insert_unless_found alloc t x (chtbl_lookup t x)

    -- The loop of chtbl_remove: `rest` is what is left of the bucket `b` behind `prev`.
    pub remove_loop : D → List D → Option ℕ → List D → Status × Option D × List D
    remove_loop x b prev [] = (failure, none, b)
    remove_loop x b prev (y ∷ rest) =
        let later = remove_loop x b (advance prev) rest in
        if match x y then rem_next b prev else later

    pub remove_result : Table D → ℕ → Status × Option D × List D → Status × Option D × Table D
    remove_result t i (success, y, b) =
        (success, y, record t { size = t.size - 1; table = set t.table i b })
    remove_result t i (s, y, b) = (failure, none, t)

    -- chtbl_remove
    pub chtbl_remove : Table D → D → Status × Option D × Table D
    chtbl_remove t x = remove_result t (index t x) (remove_loop x (bucket t x) none (bucket t x))

-- The element found, else the argument.
abbrev pub found_or {ℓ} : {A : Type ℓ} → A → Option A → A
found_or e none = e
found_or e (some y) = y

-- The functions of the table of SweetListKv differ only in that they hash the member key.
module _ {ℓ} {S : Type ℓ} (h : S → ℕ) (match : SweetListKv S → SweetListKv S → Bool) where
  abbrev pub hash_key : SweetListKv S → ℕ
  hash_key e = h e.key

  -- chtbl_insert_kv
  unfoldable pub chtbl_insert_kv :
      Bool → Table (SweetListKv S) → SweetListKv S → Status × Table (SweetListKv S)
  chtbl_insert_kv alloc t e = chtbl_insert hash_key match alloc t e

  -- chtbl_remove_kv
  abbrev chtbl_remove_kv :
      Table (SweetListKv S)
      → SweetListKv S
      → Status × Option (SweetListKv S) × Table (SweetListKv S)
  chtbl_remove_kv t e = chtbl_remove hash_key match t e

  -- chtbl_lookup_kv
  unfoldable pub chtbl_lookup_kv : Table (SweetListKv S) → SweetListKv S → Option (SweetListKv S)
  chtbl_lookup_kv t e = chtbl_lookup hash_key match t e

  -- chtbl_find_kv: the argument itself where nothing matches.
  unfoldable pub chtbl_find_kv : Table (SweetListKv S) → SweetListKv S → SweetListKv S
  chtbl_find_kv t e = found_or e (find_match hash_key match e (bucket hash_key match t e))
