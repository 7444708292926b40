-- ===== src/Czmq.antt =====
-- The parts of czmq that the programs of lib/zeromq call, as interfaces: a message (zmsg), a table
-- (zhash) and a list (zlist), each with the sequence it stands for and the laws of the czmq manual.
use sweet_clib.Prelude.{
  ℕ, ◌≡◌, Bool, Option, none, some, List, [], ◌∷◌, ◌++◌, if◌then◌else◌, length, true, false,
}
use sweet_clib.Text.{Bytes, strcmp_eq}

abbrev pub first_of {ℓ} : {A : Type ℓ} → List A → Option A
first_of [] = none
first_of (x ∷ xs) = some x

abbrev pub rest_of_list {ℓ} : {A : Type ℓ} → List A → List A
rest_of_list [] = []
rest_of_list (x ∷ xs) = xs

abbrev pub last_of {ℓ} : {A : Type ℓ} → List A → Option A
last_of [] = none
last_of (x ∷ []) = some x
last_of (x ∷ y ∷ xs) = last_of (y ∷ xs)

abbrev pub with_last {ℓ} : {A : Type ℓ} → A → List A → List A
with_last a [] = []
with_last a (x ∷ []) = a ∷ []
with_last a (x ∷ y ∷ xs) = x ∷ with_last a (y ∷ xs)

-- zmsg_unwrap drops an empty frame that comes next.
abbrev pub drop_empty : List Bytes → List Bytes
drop_empty ([] ∷ fs) = fs
drop_empty ((c ∷ f) ∷ fs) = (c ∷ f) ∷ fs
drop_empty [] = []

pub record Zmsg : Type 1 where
  pub Msg : Type 0
  pub frames : Msg → List Bytes
  pub zmsg_new : Msg
  pub zmsg_push : Msg → Bytes → Msg
  pub zmsg_wrap : Msg → Bytes → Msg
  pub zmsg_pop : Msg → Option Bytes × Msg
  pub zmsg_unwrap : Msg → Option Bytes × Msg
  pub zmsg_size : Msg → ℕ
  pub zmsg_first : Msg → Option Bytes
  pub zmsg_last : Msg → Option Bytes
  pub reset_last : Msg → Bytes → Msg
  pub frames-new : frames zmsg_new ≡ []
  pub frames-push : (m : Msg) (f : Bytes) → frames (zmsg_push m f) ≡ f ∷ frames m
  pub frames-wrap : (m : Msg) (f : Bytes) → frames (zmsg_wrap m f) ≡ f ∷ [] ∷ frames m
  pub popped : (m : Msg) → (zmsg_pop m).0 ≡ first_of (frames m)
  pub frames-pop : (m : Msg) → frames (zmsg_pop m).1 ≡ rest_of_list (frames m)
  pub unwrapped : (m : Msg) → (zmsg_unwrap m).0 ≡ first_of (frames m)
  pub frames-unwrap : (m : Msg) → frames (zmsg_unwrap m).1 ≡ drop_empty (rest_of_list (frames m))
  pub zmsg_first-frames : (m : Msg) → zmsg_first m ≡ first_of (frames m)
  pub zmsg_last-frames : (m : Msg) → zmsg_last m ≡ last_of (frames m)
  pub frames-reset_last : (m : Msg) (f : Bytes) → frames (reset_last m f) ≡ with_last f (frames m)
  pub zmsg_size-frames : (m : Msg) → zmsg_size m ≡ length (frames m)

-- A table under strings (zhash) whose values are pointers. zhash_insert is called for a key that is not
-- there.
pub record Zhash : Type 1 where
  pub Hash : Type 0
  pub zhash_new : Hash
  pub zhash_lookup : Hash → Bytes → Option ℕ
  pub zhash_insert : Hash → Bytes → ℕ → Hash
  pub zhash_delete : Hash → Bytes → Hash
  pub lookup-new : (k : Bytes) → zhash_lookup zhash_new k ≡ none
  pub lookup-insert :
      (t : Hash) (k q : Bytes) (v : ℕ)
      → zhash_lookup t k ≡ none
      → zhash_lookup (zhash_insert t k v) q ≡ (if strcmp_eq q k then some v else zhash_lookup t q)
  pub lookup-delete :
      (t : Hash) (k q : Bytes)
      → zhash_lookup (zhash_delete t k) q ≡ (if strcmp_eq q k then none else zhash_lookup t q)

-- The first element that is the same pointer left out.
abbrev pub remove_first {ℓ} : {A : Type ℓ} → (A → A → Bool) → A → List A → List A
remove_first same x [] = []
remove_first same x (y ∷ ys) = if same x y then ys else y ∷ remove_first same x ys

-- The list of elements of A, which `same` compares as zlist_remove does.
pub record Zlist (A : Type 0) (same : A → A → Bool) : Type 1 where
  pub Items : Type 0
  pub items : Items → List A
  pub zlist_new : Items
  pub zlist_append : Items → A → Items
  pub zlist_pop : Items → Option A × Items
  pub zlist_remove : Items → A → Items
  pub zlist_first : Items → Option A
  pub zlist_size : Items → ℕ
  pub items-new : items zlist_new ≡ []
  pub items-append : (l : Items) (x : A) → items (zlist_append l x) ≡ items l ++ x ∷ []
  pub popped_item : (l : Items) → (zlist_pop l).0 ≡ first_of (items l)
  pub items-pop : (l : Items) → items (zlist_pop l).1 ≡ rest_of_list (items l)
  pub items-remove : (l : Items) (x : A) → items (zlist_remove l x) ≡ remove_first same x (items l)
  pub zlist_first-items : (l : Items) → zlist_first l ≡ first_of (items l)
  pub zlist_size-items : (l : Items) → zlist_size l ≡ length (items l)

-- The value under a key in a sequence of entries, and that each key is there once.
abbrev pub find_key {ℓ} : {A : Type ℓ} → Bytes → List (Bytes × A) → Option A
find_key q [] = none
find_key q ((k, a) ∷ es) = if strcmp_eq q k then some a else find_key q es

abbrev pub distinct_keys {ℓ} : {A : Type ℓ} → List (Bytes × A) → Bool
distinct_keys [] = true
distinct_keys ((k, a) ∷ es) = elim (find_key k es) [ none ↦ distinct_keys es | some b ↦ false ]

-- A table under strings with values of A, which zhash_update replaces; zhash_foreach visits the entries.
pub record Zupdates (A : Type 0) : Type 1 where
  pub Table : Type 0
  pub zhash_new : Table
  pub zhash_update : Table → Bytes → A → Table
  pub zhash_lookup : Table → Bytes → Option A
  pub zhash_foreach : Table → List (Bytes × A)
  pub lookup-new : (k : Bytes) → zhash_lookup zhash_new k ≡ none
  pub lookup-update :
      (t : Table) (k q : Bytes) (a : A)
      → zhash_lookup (zhash_update t k a) q ≡ (if strcmp_eq q k then some a else zhash_lookup t q)
  pub lookup-foreach : (t : Table) (k : Bytes) → zhash_lookup t k ≡ find_key k (zhash_foreach t)
  pub foreach_once : (t : Table) → distinct_keys (zhash_foreach t) ≡ true
