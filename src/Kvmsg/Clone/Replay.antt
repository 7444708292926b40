-- ===== src/Kvmsg/Clone/Replay.antt =====
-- Updates one after the other: what a server or a client that receives them all holds.
use sweet_clib.Prelude.{
  ℕ, ◌+◌, ◌^◌, ◌<◌, ◌≤◌, ◌≡◌, refl, ap, ◌∙◌, Bool, true, false, Option, none, some, List, [], ◌∷◌,
  ◌++◌, arith, length, if◌then◌else◌, ltb, take,
}
use sweet_clib.Linked.{ok}
use sweet_clib.Text.{Bytes, strcmp_eq}
use sweet_clib.Czmq.{Zupdates}
use sweet_clib.Kvmsg.{
  Kvmsg, Frame, kvmsg_set_key, kvmsg_set_sequence, kvmsg_key, kvmsg_sequence, kvmsg_body,
  kvmsg_send, kvmsg_recv, kvmsg_key_max,
}
use sweet_clib.Kvmsg.Sequence.{kvmsg_sequence-set_sequence}
use sweet_clib.Kvmsg.Wire.{kvmsg_recv-send}
use sweet_clib.Kvmsg.Clone.{
  update_message, publish, stored_under, store, Clone, on_update, state_manager, newer, on_newer,
  receive_updates,
}

-- The key that an update is stored under.
abbrev pub key_of : Bytes × Bytes → Bytes
key_of kv = take kvmsg_key_max kv.0

-- An update as it is stored: with its key in the key buffer.
abbrev pub kept : ℕ → Bytes × Bytes → Kvmsg
kept n kv = record (update_message n kv) { key = key_of kv }

pub recv-update_message :
    (n : ℕ) (kv : Bytes × Bytes)
    → kvmsg_recv (kvmsg_send (update_message n kv)) ≡ some (update_message n kv, [])
unfolding update_message kvmsg_send kvmsg_set_key kvmsg_set_sequence
recv-update_message n (k, b) = (kvmsg_recv-send (update_message n (k, b)) []).0

-- Below 2 ^ 16 the sequence number is read back.
pub sequence-update_message :
    (n : ℕ) (kv : Bytes × Bytes) → n < 2 ^ 16 → kvmsg_sequence (update_message n kv) ≡ some n
unfolding update_message kvmsg_sequence kvmsg_set_key kvmsg_set_sequence
sequence-update_message n (k, b) h =
    (kvmsg_sequence-set_sequence
        (record { key_frame = none; seq_frame = none; body_frame = none; key = [] }) n
        (omega arith)).1.1
      (omega arith)

-- Below 2 ^ 16 the sequence number of a stored update is read back.
pub sequence-kept : (n : ℕ) (kv : Bytes × Bytes) → n < 2 ^ 16 → kvmsg_sequence (kept n kv) ≡ some n
unfolding update_message kvmsg_sequence kvmsg_set_key kvmsg_set_sequence
sequence-kept n (k, b) h = sequence-update_message n (k, b) h

-- What a client can ask of a message that a lookup finds: its sequence number and its body.
abbrev pub found : Option Kvmsg → Option (Option ℕ × Option Bytes)
found none = none
found (some m) = some (kvmsg_sequence m, kvmsg_body m)

-- The number and the body of the last of the updates, numbered from behind n on, whose key is q, keys
-- being cut to what the key buffer holds.
abbrev pub last_update :
    ℕ
    → List (Bytes × Bytes)
    → Bytes
    → Option (Option ℕ × Option Bytes)
    → Option (Option ℕ × Option Bytes)
last_update n [] q o = o
last_update n ((key, body) ∷ kvs) q o =
    last_update (n + 1) kvs q
      (if strcmp_eq q (take kvmsg_key_max key) then some (some (n + 1), some body) else o)

module _ (Z : Zupdates Kvmsg) where
  open Z use {Table, zhash_update, zhash_lookup, lookup-update}

  store-update_message :
      (t : Table) (n : ℕ) (kv : Bytes × Bytes)
      → store Z t (update_message n kv) ≡ zhash_update t (key_of kv) (kept n kv)
  unfolding store stored_under update_message kvmsg_key kvmsg_set_key kvmsg_set_sequence
  store-update_message t n (k, b) = refl

  -- The updates stored one after the other, numbered from behind n on.
  abbrev pub replay : Table → ℕ → List (Bytes × Bytes) → Table
  replay t n [] = t
  replay t n (kv ∷ kvs) = replay (zhash_update t (key_of kv) (kept (n + 1) kv)) (n + 1) kvs

  -- What a lookup finds behind them.
  abbrev pub latest : ℕ → List (Bytes × Bytes) → Bytes → Option Kvmsg → Option Kvmsg
  latest n [] q o = o
  latest n (kv ∷ kvs) q o =
      latest (n + 1) kvs q (if strcmp_eq q (key_of kv) then some (kept (n + 1) kv) else o)

  pub lookup-replay :
      (t : Table) (n : ℕ) (kvs : List (Bytes × Bytes)) (q : Bytes)
      → zhash_lookup (replay t n kvs) q ≡ latest n kvs q (zhash_lookup t q)
  lookup-replay t n [] q = refl
  lookup-replay t n (kv ∷ kvs) q =
      lookup-replay (zhash_update t (key_of kv) (kept (n + 1) kv)) (n + 1) kvs q
      ∙ ap (latest (n + 1) kvs q) (lookup-update t (key_of kv) q (kept (n + 1) kv))

  pub latest-append :
      (n : ℕ) (xs ys : List (Bytes × Bytes)) (q : Bytes) (o : Option Kvmsg)
      → latest n (xs ++ ys) q o ≡ latest (n + length xs) ys q (latest n xs q o)
  latest-append n [] ys q o = ap (λ k. latest k ys q o) (omega arith)
  latest-append n (x ∷ xs) ys q o =
      latest-append (n + 1) xs ys q (if strcmp_eq q (key_of x) then some (kept (n + 1) x) else o)
      ∙ ap (λ k. latest k ys q (latest n (x ∷ xs) q o)) (omega arith)

  found-kept :
      (n : ℕ) (kv : Bytes × Bytes)
      → n < 2 ^ 16
      → found (some (kept n kv)) ≡ some (some n, some kv.1)
  unfolding update_message kvmsg_set_key
  found-kept n (k, b) h = ap (λ o. some (o, some b)) (sequence-kept n (k, b) h)

  -- It is the last update of the key, as long as the numbers are below 2 ^ 16.
  pub found-latest :
      (n : ℕ) (kvs : List (Bytes × Bytes)) (q : Bytes) (o : Option Kvmsg)
      → n + length kvs < 2 ^ 16
      → found (latest n kvs q o) ≡ last_update n kvs q (found o)
  found-latest n [] q o h = refl
  found-latest n (kv ∷ kvs) q o h =
      found-latest (n + 1) kvs q (if strcmp_eq q (key_of kv) then some (kept (n + 1) kv) else o)
        (omega (arith, h))
      ∙ ap (last_update (n + 1) kvs q) (either (strcmp_eq q (key_of kv)))
    where
      either :
          (c : Bool)
          → found (if c then some (kept (n + 1) kv) else o)
            ≡ (if c then some (some (n + 1), some kv.1) else found o)
      either true = found-kept (n + 1) kv (omega (arith, h))
      either false = refl

  -- The state behind them.
  abbrev pub advanced : Clone Z → List (Bytes × Bytes) → Clone Z
  advanced s kvs = record {
    sequence = s.sequence + length kvs;
    kvmap = replay s.kvmap s.sequence kvs;
  }

  one_on :
      (s : Clone Z) (kv : Bytes × Bytes) (kvs : List (Bytes × Bytes))
      → advanced
          (record {
            sequence = s.sequence + 1;
            kvmap = zhash_update s.kvmap (key_of kv) (kept (s.sequence + 1) kv);
          })
          kvs
        ≡ advanced s (kv ∷ kvs)
  one_on s kv kvs =
      ap
        (λ n. record {
          sequence = n;
          kvmap =
              replay (zhash_update s.kvmap (key_of kv) (kept (s.sequence + 1) kv)) (s.sequence + 1)
                kvs;
        })
        (omega arith)

  pub state_manager-advanced :
      (s : Clone Z) (kvs : List (Bytes × Bytes))
      → s.sequence + length kvs < 2 ^ 16
      → state_manager Z s (publish s.sequence kvs) ≡ ok (advanced s kvs)
  unfolding state_manager on_update publish
  state_manager-advanced s [] h =
      ap (λ n. ok (record { sequence = n; kvmap = s.kvmap })) (omega arith)
  state_manager-advanced s (kv ∷ kvs) h =
      let later =
        state_manager-advanced
          (record {
            sequence = s.sequence + 1;
            kvmap = zhash_update s.kvmap (key_of kv) (kept (s.sequence + 1) kv);
          })
          kvs (omega (arith, h)) in
      rw
        (
          recv-update_message (s.sequence + 1) kv,
          sequence-update_message (s.sequence + 1) kv (omega (arith, h)),
          store-update_message s.kvmap (s.sequence + 1) kv,
        )
        (later ∙ ap (λ (x : Clone Z). ok x) (one_on s kv kvs))

  pub receive_updates-advanced :
      (s : Clone Z) (kvs : List (Bytes × Bytes))
      → s.sequence + length kvs < 2 ^ 16
      → receive_updates Z s (publish s.sequence kvs) ≡ ok (advanced s kvs)
  unfolding receive_updates on_newer newer publish
  receive_updates-advanced s [] h =
      ap (λ n. ok (record { sequence = n; kvmap = s.kvmap })) (omega arith)
  receive_updates-advanced s (kv ∷ kvs) h =
      let later =
        receive_updates-advanced
          (record {
            sequence = s.sequence + 1;
            kvmap = zhash_update s.kvmap (key_of kv) (kept (s.sequence + 1) kv);
          })
          kvs (omega (arith, h)) in
      let fresh : ltb s.sequence (s.sequence + 1) ≡ true = ground arith in
      rw
        (
          recv-update_message (s.sequence + 1) kv,
          sequence-update_message (s.sequence + 1) kv (omega (arith, h)),
          fresh,
          store-update_message s.kvmap (s.sequence + 1) kv,
        )
        (later ∙ ap (λ (x : Clone Z). ok x) (one_on s kv kvs))

  -- Updates that the snapshot covers are dropped.
  pub receive_updates-dropped :
      (s : Clone Z) (n : ℕ) (kvs : List (Bytes × Bytes)) (rest : List (List Frame))
      → n + length kvs ≤ s.sequence
      → s.sequence < 2 ^ 16
      → receive_updates Z s (publish n kvs ++ rest) ≡ receive_updates Z s rest
  unfolding receive_updates on_newer newer publish
  receive_updates-dropped s n [] rest h b = refl
  receive_updates-dropped s n (kv ∷ kvs) rest h b =
      let later = receive_updates-dropped s (n + 1) kvs rest (omega (arith, h)) b in
      let old : ltb s.sequence (n + 1) ≡ false = ground (arith, h) in
      rw
        (
          recv-update_message (n + 1) kv,
          sequence-update_message (n + 1) kv (omega (arith, h, b)),
          old,
        )
        later
