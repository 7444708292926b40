-- ===== src/Tests/Clones.antt =====
-- A table of messages as a list of entries, and runs of the clone servers and clients with it.
use sweet_clib.Prelude.{
  ◌≡◌, refl, sym, ap, ◌∙◌, Bool, true, false, Option, none, some, List, [], ◌∷◌, arith,
  if◌then◌else◌, Bool-cases, inl, inr, ◌⊎◌,
}
use sweet_clib.Text.{Bytes, strcmp_eq}
use sweet_clib.Text.Hash.{strcmp_eq_self, eq_of_strcmp}
use sweet_clib.Czmq.{Zupdates, find_key, distinct_keys}
use sweet_clib.Kvmsg.{Kvmsg}
use sweet_clib.Kvmsg.Clone.{publish, clone_new, clonecli1, clonesrv1}
use sweet_clib.Kvmsg.Clone.Entries.{distinct_keys-head}
use sweet_clib.Kvmsg.Clone.Converge.{Joined, clonecli2-state_manager, clonecli1-clonesrv1}

abbrev without : Bytes → List (Bytes × Kvmsg) → List (Bytes × Kvmsg)
without k [] = []
without k ((j, b) ∷ es) = if strcmp_eq k j then without k es else (j, b) ∷ without k es

find_key-without :
    (q k : Bytes) (es : List (Bytes × Kvmsg))
    → find_key q (without k es) ≡ (if strcmp_eq q k then none else find_key q es)
find_key-without q k [] = elim (Bool-cases (strcmp_eq q k)) [
  | inl a ↦ rw a refl
  | inr a ↦ rw a refl
]
find_key-without q k ((j, b) ∷ es) = elim (Bool-cases (strcmp_eq k j)) [
  | inl a ↦
      let same : strcmp_eq q j ≡ strcmp_eq q k = ap (strcmp_eq q) (sym (eq_of_strcmp k j a)) in
      rw (a, same) (find_key-without q k es ∙ either (strcmp_eq q k))
  | inr a ↦ elim (Bool-cases (strcmp_eq q j)) [
    | inl d ↦
        let other : strcmp_eq q k ≡ false = apart (Bool-cases (strcmp_eq q k)) a d in
        rw (a, d, other) refl
    | inr d ↦ rw (a, d) (find_key-without q k es)
  ]
]
  where
    either :
        (c : Bool)
        → (if c then none else find_key q es)
          ≡ (if c then none else (if c then some b else find_key q es))
    either true = refl
    either false = refl

    apart :
        (strcmp_eq q k ≡ true) ⊎ (strcmp_eq q k ≡ false)
        → strcmp_eq k j ≡ false
        → strcmp_eq q j ≡ true
        → strcmp_eq q k ≡ false
    apart (inl e) n d =
        absurd (clash (sym n ∙ ap (λ x. strcmp_eq x j) (sym (eq_of_strcmp q k e)) ∙ d))
      where
        clash : ¬ (false ≡ true)
        clash z = cc
    apart (inr e) n d = e

distinct_keys-without :
    (k : Bytes) (es : List (Bytes × Kvmsg))
    → distinct_keys es ≡ true
    → distinct_keys (without k es) ≡ true
distinct_keys-without k [] d = refl
distinct_keys-without k ((j, b) ∷ es) d = elim (Bool-cases (strcmp_eq k j)) [
  | inl a ↦ rw a (distinct_keys-without k es (distinct_keys-head j b es d).1)
  | inr a ↦
      let (apart, rest) = distinct_keys-head j b es d in
      let gone : find_key j (without k es) ≡ none =
        find_key-without j k es
        ∙ ap (λ o. if strcmp_eq j k then none else o) apart
        ∙ either (strcmp_eq j k) in
      rw (a, distinct_keys, gone) (distinct_keys-without k es rest)
]
  where
    either : (c : Bool) → if◌then◌else◌ {A = Option Kvmsg} c none none ≡ none
    either true = refl
    either false = refl

-- Each key is in a table of entries once.
record Entries : Type 0 where
  entries : List (Bytes × Kvmsg)
  once : distinct_keys entries ≡ true

abbrev entered : Entries → Bytes → Kvmsg → Entries
entered t k m = record {
  entries = (k, m) ∷ without k t.entries;
  once =
      let gone : find_key k (without k t.entries) ≡ none =
        find_key-without k k t.entries
        ∙ ap (λ c. if c then none else find_key k t.entries) (strcmp_eq_self k) in
      rw (distinct_keys, gone) (distinct_keys-without k t.entries t.once);
}

find_key-entered :
    (t : Entries) (k q : Bytes) (m : Kvmsg)
    → find_key q (entered t k m).entries ≡ (if strcmp_eq q k then some m else find_key q t.entries)
find_key-entered t k q m =
    ap (λ o. if strcmp_eq q k then some m else o) (find_key-without q k t.entries)
    ∙ either (strcmp_eq q k)
  where
    either :
        (c : Bool)
        → (if c then some m else (if c then none else find_key q t.entries))
          ≡ (if c then some m else find_key q t.entries)
    either true = refl
    either false = refl

abbrev entry_table : Zupdates Kvmsg
entry_table = record {
  Table = Entries;
  zhash_new = record { entries = []; once = refl };
  zhash_update = entered;
  zhash_lookup = λ t k. find_key k t.entries;
  zhash_foreach = λ t. t.entries;
  lookup-new = λ k. refl;
  lookup-update = λ t k q m. find_key-entered t k q m;
  lookup-foreach = λ t k. refl;
  foreach_once = λ t. t.once;
}

-- Keys "1" and "2", and bodies of one byte.
abbrev one : Bytes × Bytes
one = (b'1' ∷ [], b'a' ∷ [])

abbrev two : Bytes × Bytes
two = (b'2' ∷ [], b'b' ∷ [])

abbrev one_again : Bytes × Bytes
one_again = (b'1' ∷ [], b'c' ∷ [])

clonecli2-state_manager_example : Joined entry_table (one ∷ []) (two ∷ []) (one_again ∷ [])
unfolding strcmp_eq
clonecli2-state_manager_example =
    clonecli2-state_manager entry_table (one ∷ []) (two ∷ []) (one_again ∷ []) (omega arith) refl

clonecli1-clonesrv1_example :
    clonecli1 entry_table (clone_new entry_table) (publish 0 (one ∷ two ∷ one_again ∷ []))
    ≡ clonesrv1 entry_table (clone_new entry_table) (one ∷ two ∷ one_again ∷ [])
clonecli1-clonesrv1_example =
    clonecli1-clonesrv1 entry_table (clone_new entry_table) (one ∷ two ∷ one_again ∷ [])
