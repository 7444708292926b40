-- ===== src/Kvmsg/Clone/Entries.antt =====
-- The entries of a table of the clone programs, as a snapshot sends them.
use sweet_clib.Prelude.{
  ℕ, ◌≡◌, refl, sym, ap, ◌∙◌, true, false, Option, none, some, List, [], ◌∷◌, ◌==◌, take,
  Bool-cases, inl, inr,
}
use sweet_clib.Text.{Bytes, strcmp_eq, char_at}
use sweet_clib.Text.Hash.{eq_of_strcmp, strcmp_eq_self}
use sweet_clib.Czmq.{find_key, distinct_keys}
use sweet_clib.Kvmsg.{
  Kvmsg, kvmsg_set_key, kvmsg_set_sequence, kvmsg_key, kvmsg_send, kvmsg_recv, kvmsg_key_max,
}
use sweet_clib.Kvmsg.Wire.{kvmsg_recv-send}
use sweet_clib.Kvmsg.Clone.{kthxbai, update_message}
use sweet_clib.Kvmsg.Clone.Replay.{key_of, kept}

-- An entry is an update as it is stored, and its key is not the one that ends a snapshot.
pub record IsKept (q : Bytes) (m : Kvmsg) : Type 0 where
  pub n : ℕ
  pub kv : Bytes × Bytes
  pub message : m ≡ kept n kv
  pub named : q ≡ key_of kv
  pub free : strcmp_eq q kthxbai ≡ false

abbrev pub AllKept : List (Bytes × Kvmsg) → Type 0
AllKept [] = Unit
AllKept ((q, m) ∷ es) = IsKept q m × AllKept es

-- What the client finds under a key: what the snapshot has, or else what was there.
abbrev pub or_else : Option Kvmsg → Option Kvmsg → Option Kvmsg
or_else (some m) o = some m
or_else none o = o

pub nothing_else : (o : Option Kvmsg) → or_else o none ≡ o
nothing_else none = refl
nothing_else (some m) = refl

-- Keys that are there once: the first is not among the others.
pub distinct_keys-head :
    (k : Bytes) (m : Kvmsg) (es : List (Bytes × Kvmsg))
    → distinct_keys ((k, m) ∷ es) ≡ true
    → (find_key k es ≡ none) × (distinct_keys es ≡ true)
distinct_keys-head k m es d = cases (find_key k es) refl d
  where
    cases :
        (o : Option Kvmsg)
        → find_key k es ≡ o
        → (elim o [ none ↦ distinct_keys es | some b ↦ false ]) ≡ true
        → (find_key k es ≡ none) × (distinct_keys es ≡ true)
    cases none e h = (e, h)
    cases (some b) e h = cc

pub entries-AllKept :
    (es : List (Bytes × Kvmsg))
    → distinct_keys es ≡ true
    → ((q : Bytes) (m : Kvmsg) → find_key q es ≡ some m → IsKept q m)
    → AllKept es
entries-AllKept [] d f = tt
entries-AllKept ((k, m) ∷ es) d f =
    let (apart, rest) = distinct_keys-head k m es d in
    (
      f k m (rw (strcmp_eq_self k) refl),
      entries-AllKept es rest (λ q x e. elim (Bool-cases (strcmp_eq q k)) [
        | inl a ↦
            absurd (clash x (sym apart ∙ ap (λ y. find_key y es) (sym (eq_of_strcmp q k a)) ∙ e))
        | inr a ↦ f q x (rw a e)
      ]),
    )
  where
    clash : (x : Kvmsg) → ¬ (none ≡ some x)
    clash x e = cc

-- kvmsg_key on a stored message, and on one that arrives.
pub kvmsg_key-update_message :
    (n : ℕ) (kv : Bytes × Bytes) → kvmsg_key (update_message n kv) ≡ (some (key_of kv), kept n kv)
unfolding kvmsg_key update_message kvmsg_set_key kvmsg_set_sequence
kvmsg_key-update_message n (k, b) = refl

pub kvmsg_key-kept :
    (n : ℕ) (kv : Bytes × Bytes) → kvmsg_key (kept n kv) ≡ (some (key_of kv), kept n kv)
unfolding kvmsg_key update_message kvmsg_set_key kvmsg_set_sequence
kvmsg_key-kept n (k, b) = elim (Bool-cases (char_at (take kvmsg_key_max k) == 0)) [
  | inl a ↦ rw a refl
  | inr a ↦ rw a refl
]

pub recv-kept :
    (n : ℕ) (kv : Bytes × Bytes)
    → kvmsg_recv (kvmsg_send (kept n kv)) ≡ some (update_message n kv, [])
unfolding update_message kvmsg_send kvmsg_set_key kvmsg_set_sequence
recv-kept n (k, b) = (kvmsg_recv-send (kept n (k, b)) []).0
