-- ===== src/Kvmsg/Clone/Snapshot.antt =====
-- The snapshot: what clonesrv2 sends for a request, and what clonecli2 makes of it.
use sweet_clib.Prelude.{
  ℕ, ◌+◌, ◌^◌, ◌<◌, ◌≡◌, refl, sym, ap, ◌∙◌, Bool, true, false, not, ◌&&◌, none, some, List, [],
  ◌∷◌, ◌++◌, arith, if◌then◌else◌, map, Bool-cases, inl, inr, ◌⊎◌,
}
use sweet_clib.Linked.{ok}
use sweet_clib.Text.{Bytes, strcmp_eq}
use sweet_clib.Text.Hash.{eq_of_strcmp, strcmp_eq_self}
use sweet_clib.Czmq.{Zupdates, find_key, distinct_keys}
use sweet_clib.Kvmsg.{
  Kvmsg, Frame, kvmsg_set_key, kvmsg_set_sequence, kvmsg_key, kvmsg_send, kvmsg_store,
}
use sweet_clib.Kvmsg.Clone.{
  kthxbai, icanhaz, update_message, stored_under, store, Clone, sent_entry, on_request, on_snapshot,
  on_received, receive_snapshot,
}
use sweet_clib.Kvmsg.Clone.Replay.{key_of, kept, recv-update_message, sequence-kept, replay}
use sweet_clib.Kvmsg.Clone.Entries.{
  IsKept, AllKept, or_else, nothing_else, distinct_keys-head, entries-AllKept,
  kvmsg_key-update_message, kvmsg_key-kept, recv-kept,
}

module _ (Z : Zupdates Kvmsg) where
  open Z use {
    Table, zhash_new, zhash_update, zhash_lookup, zhash_foreach, lookup-new, lookup-update,
    lookup-foreach, foreach_once,
  }

  -- Every entry of the table is kept so.
  abbrev pub AllStored : Table → Type 0
  AllStored t = (q : Bytes) (m : Kvmsg) → zhash_lookup t q ≡ some m → IsKept q m

  store-kept :
      (t : Table) (n : ℕ) (kv : Bytes × Bytes)
      → store Z t (kept n kv) ≡ zhash_update t (key_of kv) (kept n kv)
  unfolding store update_message kvmsg_set_key kvmsg_set_sequence stored_under kvmsg_store kvmsg_key
  store-kept t n (k, b) =
      ap (λ o. stored_under Z t (some o)) (kvmsg_key-kept n (k, b)) ∙ stored_update
    where
      stored_update :
          stored_under Z t (some (some (key_of (k, b)), kept n (k, b)))
          ≡ zhash_update t (key_of (k, b)) (kept n (k, b))
      stored_update = refl

  AllStored-update :
      (t : Table) (n : ℕ) (kv : Bytes × Bytes)
      → strcmp_eq (key_of kv) kthxbai ≡ false
      → AllStored t
      → AllStored (zhash_update t (key_of kv) (kept n kv))
  AllStored-update t n kv f h q m e = elim (Bool-cases (strcmp_eq q (key_of kv))) [
    | inl a ↦
        let same : q ≡ key_of kv = eq_of_strcmp q (key_of kv) a in
        record {
          n = n;
          kv = kv;
          message = found m (
              sym (ap (λ c. if c then some (kept n kv) else zhash_lookup t q) a)
              ∙ sym (lookup-update t (key_of kv) q (kept n kv))
              ∙ e);
          named = same;
          free = ap (λ x. strcmp_eq x kthxbai) same ∙ f;
        }
    | inr a ↦ h q m (
        sym (ap (λ c. if c then some (kept n kv) else zhash_lookup t q) a)
        ∙ sym (lookup-update t (key_of kv) q (kept n kv))
        ∙ e)
  ]
    where
      found : (x : Kvmsg) → some (kept n kv) ≡ some x → x ≡ kept n kv
      found x t = cc

  -- No key ends a snapshot.
  abbrev pub all_free : List (Bytes × Bytes) → Bool
  all_free [] = true
  all_free (kv ∷ kvs) = not (strcmp_eq (key_of kv) kthxbai) && all_free kvs

  pub AllStored-replay :
      (t : Table) (n : ℕ) (kvs : List (Bytes × Bytes))
      → all_free kvs ≡ true
      → AllStored t
      → AllStored (replay Z t n kvs)
  AllStored-replay t n [] f h = h
  AllStored-replay t n (kv ∷ kvs) f h =
      AllStored-replay (zhash_update t (key_of kv) (kept (n + 1) kv)) (n + 1) kvs (ground arith)
        (AllStored-update t (n + 1) kv (ground arith) h)

  pub AllStored-new : AllStored zhash_new
  AllStored-new q m e = cc (lookup-new q)

  abbrev final : ℕ → List Frame
  final n = kvmsg_send (update_message n (kthxbai, []))

  -- The client loads the entries that are sent, and takes the sequence number over.
  receive_entries :
      (t : Table) (n : ℕ) (es : List (Bytes × Kvmsg))
      → n < 2 ^ 16
      → distinct_keys es ≡ true
      → AllKept es
      → (t1 : Table) × (receive_snapshot Z t (map (sent_entry Z) es ++ final n ∷ [])
          ≡ ok (record { sequence = n; kvmap = t1 }))
        × ((q : Bytes) → zhash_lookup t1 q ≡ or_else (find_key q es) (zhash_lookup t q))
  unfolding receive_snapshot on_received on_snapshot
  receive_entries t n [] h d a =
      let itself : strcmp_eq (key_of (kthxbai, [])) kthxbai ≡ true = strcmp_eq_self kthxbai in
      let number = sequence-kept n (kthxbai, []) h in
      (
        t,
        rw
            (
              recv-update_message n (kthxbai, []),
              kvmsg_key-update_message n (kthxbai, []),
              itself,
              number,
            )
            refl,
        λ q. refl,
      )
  receive_entries t n ((k, m) ∷ es) h d (a, b) =
      let (apart, rest) = distinct_keys-head k m es d in
      let (t1, run, found) = receive_entries (zhash_update t k m) n es h rest b in
      (
        t1,
        loaded a ∙ run,
        λ q.
            found q
            ∙ ap (or_else (find_key q es)) (lookup-update t k q m)
            ∙ merged q (Bool-cases (strcmp_eq q k)) apart,
      )
    where
      loaded :
          IsKept k m
          → receive_snapshot Z t (map (sent_entry Z) ((k, m) ∷ es) ++ final n ∷ [])
            ≡ receive_snapshot Z (zhash_update t k m) (map (sent_entry Z) es ++ final n ∷ [])
      loaded r =
          let same : kvmsg_send m ≡ kvmsg_send (kept r.n r.kv) = ap kvmsg_send r.message in
          let free : strcmp_eq (key_of r.kv) kthxbai ≡ false =
            ap (λ x. strcmp_eq x kthxbai) (sym r.named) ∙ r.free in
          let placed : zhash_update t (key_of r.kv) (kept r.n r.kv) ≡ zhash_update t k m =
            ap (λ x. zhash_update t x (kept r.n r.kv)) (sym r.named)
            ∙ ap (zhash_update t k) (sym r.message) in
          rw
            (
              same,
              recv-kept r.n r.kv,
              kvmsg_key-update_message r.n r.kv,
              free,
              store-kept t r.n r.kv,
              placed,
            )
            refl

      merged :
          (q : Bytes)
          → (strcmp_eq q k ≡ true) ⊎ (strcmp_eq q k ≡ false)
          → find_key k es ≡ none
          → or_else (find_key q es) (if strcmp_eq q k then some m else zhash_lookup t q)
            ≡ or_else (if strcmp_eq q k then some m else find_key q es) (zhash_lookup t q)
      merged q (inl y) z =
          let gone : find_key q es ≡ none = ap (λ x. find_key x es) (eq_of_strcmp q k y) ∙ z in
          rw (y, gone) refl
      merged q (inr y) z = rw y refl

  -- A request is answered with a snapshot that a new client loads.
  pub snapshot_loaded :
      (s : Clone Z)
      → AllStored s.kvmap
      → s.sequence < 2 ^ 16
      → (snapshot : List (List Frame)) × (t1 : Table) × (on_request Z s icanhaz ≡ some snapshot)
        × (receive_snapshot Z zhash_new snapshot
            ≡ ok (record { sequence = s.sequence; kvmap = t1 }))
        × ((q : Bytes) → zhash_lookup t1 q ≡ zhash_lookup s.kvmap q)
  unfolding on_request update_message
  snapshot_loaded s a h =
      let es : List (Bytes × Kvmsg) = zhash_foreach s.kvmap in
      let kept_all : AllKept es =
        entries-AllKept es (foreach_once s.kvmap) (λ q m e. a q m (lookup-foreach s.kvmap q ∙ e)) in
      let (t1, run, found) =
        receive_entries zhash_new s.sequence es h (foreach_once s.kvmap) kept_all in
      (
        map (sent_entry Z) es ++ final s.sequence ∷ [],
        t1,
        rw (strcmp_eq_self icanhaz) refl,
        run,
        λ q.
            found q
            ∙ ap (or_else (find_key q es)) (lookup-new q)
            ∙ nothing_else (find_key q es)
            ∙ sym (lookup-foreach s.kvmap q),
      )
