-- ===== src/Kvmsg/Clone/Converge.antt =====
-- A client of clonecli2.c against the server of clonesrv2.c, and one of clonecli1.c against clonesrv1.c.
use sweet_clib.Prelude.{
  ℕ, ◌+◌, ◌^◌, ◌<◌, ◌≡◌, refl, sym, ap, ◌∙◌, true, none, some, List, [], ◌∷◌, ◌++◌, arith, length,
}
use sweet_clib.Linked.{ok}
use sweet_clib.Text.{Bytes}
use sweet_clib.Czmq.{Zupdates}
use sweet_clib.Kvmsg.{Kvmsg, Frame, kvmsg_send}
use sweet_clib.Kvmsg.Clone.{
  icanhaz, update_message, publish, Clone, clone_new, clonesrv1, clonecli1, counted, state_manager,
  on_request, clonecli2, receive_updates, store,
}
use sweet_clib.Kvmsg.Clone.Replay.{
  found, last_update, latest-append, found-latest, recv-update_message, latest, lookup-replay,
  advanced, state_manager-advanced, receive_updates-advanced, receive_updates-dropped,
}
use sweet_clib.Kvmsg.Clone.Snapshot.{all_free, AllStored-new, AllStored-replay, snapshot_loaded}

publish_append :
    (n : ℕ) (xs ys : List (Bytes × Bytes))
    → publish n (xs ++ ys) ≡ publish n xs ++ publish (n + length xs) ys
unfolding publish
publish_append n [] ys = ap (λ k. publish k ys) (omega arith)
publish_append n (x ∷ xs) ys =
    ap (kvmsg_send (update_message (n + 1) x) ∷◌)
      (publish_append (n + 1) xs ys ∙ ap (λ k. publish (n + 1) xs ++ publish k ys) (omega arith))

length_append : (xs ys : List (Bytes × Bytes)) → length (xs ++ ys) ≡ length xs + length ys
length_append [] ys = omega arith
length_append (x ∷ xs) ys = omega (arith, length_append xs ys)

module _ (Z : Zupdates Kvmsg) where
  open Z use {lookup-new, Table, zhash_new, zhash_update, zhash_lookup}

  -- A client that subscribes behind `first`, asks for a snapshot behind `middle` and then reads what it
  -- has been sent.
  pub record Joined (first middle last : List (Bytes × Bytes)) : Type 0 where
    pub asked : Clone Z
    pub server : Clone Z
    pub client : Clone Z
    pub snapshot : List (List Frame)
    pub until_asked : state_manager Z (clone_new Z) (publish 0 (first ++ middle)) ≡ ok asked
    pub served : state_manager Z asked (publish asked.sequence last) ≡ ok server
    pub answered : on_request Z asked icanhaz ≡ some snapshot
    pub loaded : clonecli2 Z snapshot (publish (length first) (middle ++ last)) ≡ ok client
    pub numbered : server.sequence ≡ length first + length middle + length last
    pub stored_all :
        (q : Bytes)
        → found (zhash_lookup server.kvmap q) ≡ last_update 0 (first ++ middle ++ last) q none
    pub same_sequence : client.sequence ≡ server.sequence
    pub same_table : (q : Bytes) → zhash_lookup client.kvmap q ≡ zhash_lookup server.kvmap q

  -- What the loops of clonesrv2 and clonecli2 do together, over the messages of the main loop: `first` is
  -- published before the client subscribes, `middle` before the server reads its request, `last` after. With
  -- fewer than 2 ^ 16 updates and no key that is the end marker of a snapshot, no assertion
  -- fails in state_manager or clonecli2, and the request is answered. The server ends with the number of
  -- all updates as its sequence number, and under every key it finds a message with the number and the
  -- body of the last update of that key, or nothing where there was none, keys being cut to 255
  -- characters; the client ends with the sequence number of the server and finds under every key what
  -- the server finds.
  pub clonecli2-state_manager :
      (first middle last : List (Bytes × Bytes))
      → length first + length middle + length last < 2 ^ 16
      → all_free Z (first ++ middle) ≡ true
      → Joined first middle last
  unfolding clonecli2
  clonecli2-state_manager first middle last h f =
      let before = first ++ middle in
      let size : length before ≡ length first + length middle = length_append first middle in
      let s : Clone Z = advanced Z (clone_new Z) before in
      let at : s.sequence ≡ length first + length middle = omega (arith, size) in
      let (snapshot, t1, answered, run, same) =
        snapshot_loaded Z s (AllStored-replay Z zhash_new 0 before f (AllStored-new Z))
          (omega (arith, at, h)) in
      let c : Clone Z = record { sequence = s.sequence; kvmap = t1 } in
      record {
        asked = s;
        server = advanced Z s last;
        client = advanced Z c last;
        snapshot = snapshot;
        until_asked = state_manager-advanced Z (clone_new Z) before (omega (arith, size, h));
        served = state_manager-advanced Z s last (omega (arith, at, h));
        answered = answered;
        loaded = rw run (
            ap (receive_updates Z c) (
              publish_append (length first) middle last
              ∙ ap (λ n. publish (length first) middle ++ publish n last) (sym at))
            ∙ receive_updates-dropped Z c (length first) middle (publish s.sequence last)
                (omega (arith, at)) (omega (arith, at, h))
            ∙ receive_updates-advanced Z c last (omega (arith, at, h)));
        numbered = omega (arith, at);
        stored_all = λ q.
            ap found (
              lookup-replay Z s.kvmap s.sequence last q
              ∙ ap (latest Z s.sequence last q) (lookup-replay Z zhash_new 0 before q)
              ∙ ap (λ o. latest Z s.sequence last q (latest Z 0 before q o)) (lookup-new q)
              ∙ sym (latest-append Z 0 before last q none))
            ∙ found-latest Z 0 (before ++ last) q none
                (omega (arith, size, h, length_append before last));
        same_sequence = refl;
        same_table = λ q.
            lookup-replay Z t1 s.sequence last q
            ∙ ap (latest Z s.sequence last q) (same q)
            ∙ sym (lookup-replay Z s.kvmap s.sequence last q);
      }

  -- A client of clonecli1 that receives everything the server of clonesrv1 publishes, from any common state
  -- on, ends with the sequence number and the table of the server.
  pub clonecli1-clonesrv1 :
      (s : Clone Z) (kvs : List (Bytes × Bytes))
      → clonecli1 Z s (publish s.sequence kvs) ≡ clonesrv1 Z s kvs
  unfolding clonecli1 clonesrv1 counted publish
  clonecli1-clonesrv1 s [] = refl
  clonecli1-clonesrv1 s (kv ∷ kvs) = rw (recv-update_message (s.sequence + 1) kv) (
      clonecli1-clonesrv1
        (record {
          sequence = s.sequence + 1;
          kvmap = store Z s.kvmap (update_message (s.sequence + 1) kv);
        })
        kvs)
