-- ===== src/Mdp/Broker/Pairing.antt =====
-- A round of the loop of s_service_dispatch.
use sweet_clib.Prelude.{
  ℕ, suc, ◌≡◌, refl, sym, ap, subst, ◌∙◌, true, false, ◌&&◌, ◌||◌, Option, none, some, List, [],
  ◌∷◌, ◌++◌, arith, if◌then◌else◌, ◌==◌, length, Bool-cases, inl, inr,
}
use mathlib.Core.List.{append_assoc, append-nil}
use sweet_clib.Linked.{Ptr, ok}
use sweet_clib.Czmq.{Zlist, first_of, rest_of_list}
use sweet_clib.Mdp.{mdpw_request}
use sweet_clib.Mdp.Broker.{World, Worker, Service, is_some}
use sweet_clib.Mdp.Broker.Objects.{Broker, set_service, to_worker, worker_send}
use sweet_clib.Mdp.Broker.Handlers.{deliver, dispatch_loop}
use sweet_clib.Mdp.Broker.Sound.{
  all_of, distinct, all_of-remove_first, distinct-remove_first, serves, queued, IsSound,
}
use sweet_clib.Mdp.Broker.Leaving.{SameObjects, linked-same, placed-same}

-- What is left of a list when it is paired with another.
abbrev pub left_over : {A B : Type 0} → List A → List B → List A
left_over [] ys = []
left_over (x ∷ xs) [] = x ∷ xs
left_over (x ∷ xs) (y ∷ ys) = left_over xs ys

module _ (W : World) where
  open W use {zmsg, zhash, pointers, queues}
  open zmsg use {Msg}
  open zhash use {zhash_lookup}
  open pointers use {
    items, zlist_pop, zlist_remove, zlist_size, popped_item, items-pop, items-remove,
    zlist_size-items,
  }

  abbrev pub requests_of : Service W → List Msg
  requests_of service = Zlist.items queues service.requests

  -- The requests as they go out to the workers, one for each, both in order.
  abbrev pub letters : (Ptr → Option Worker) → List Ptr → List Msg → List Msg
  letters at [] ms = []
  letters at (w ∷ ws) [] = []
  letters at (w ∷ ws) (m ∷ ms) =
      elim (at w) [ none ↦ [] | some x ↦ to_worker W x mdpw_request m ∷ [] ] ++ letters at ws ms

  -- Another object at `s`, and another list of workers that wait.
  pub put_service-IsSound :
      (b : Broker W) (s : Ptr) (old new : Service W) (l : pointers.Items) (xs : List Msg)
      → b.service_at s ≡ some old
      → queued W b.worker_at s (some new) ≡ true
      → all_of (λ p. is_some (b.worker_at p)) (items l) ≡ true
      → distinct (items l) ≡ true
      → IsSound W b
      → IsSound W (record (set_service W b s new) { waiting = l; sent = xs })
  unfolding set_service
  put_service-IsSound b s old new l xs e q a d v = record {
    known = v.known;
    employed = λ p. placed-same W b.service_at at (b.worker_at p) exists ∙ v.employed p;
    alive = a;
    once = d;
    own = λ r. elim (Bool-cases (r == s)) [
      | inl t ↦
          let same : r ≡ s = ground arith in
          rw t (subst (λ t. queued W b.worker_at t (some new) ≡ true) (sym same) q)
      | inr t ↦ rw t (v.own r)
    ];
    enrolled = v.enrolled;
    listed = λ n. linked-same W b.service_at at (zhash_lookup b.services n) exists ∙ v.listed n;
  }
    where
      at : Ptr → Option (Service W)
      at r = if r == s then some new else b.service_at r

      exists : SameObjects W b.service_at at
      exists r = elim (Bool-cases (r == s)) [
        | inl t ↦
            let same : r ≡ s = ground arith in rw t (ap is_some (sym (ap b.service_at same ∙ e)))
        | inr t ↦ rw t refl
      ]

  -- What the loop leaves: the workers `ws` that wait and the requests `ms` are paired off.
  pub record Dispatched (b : Broker W) (s : Ptr) (ws : List Ptr) (ms : List Msg) (b' : Broker W)
      : Type 0 where
    pub sound : IsSound W b'
    pub service : Service W
    pub stands : b'.service_at s ≡ some service
    pub sent : b'.sent ≡ b.sent ++ letters b.worker_at ws ms
    pub idle : items service.waiting ≡ left_over ws ms
    pub pending : requests_of service ≡ left_over ms ws
    pub others : b'.worker_at ≡ b.worker_at
    pub names : b'.services ≡ b.services

  module _ (b : Broker W) (s : Ptr) (service : Service W) (e : b.service_at s ≡ some service)
      (v : IsSound W b) where
    -- Nothing to pair.
    pub rested :
        (n : ℕ) (ws : List Ptr) (ms : List Msg)
        → items service.waiting ≡ ws
        → requests_of service ≡ ms
        → (zlist_size service.waiting == 0 || Zlist.zlist_size queues service.requests == 0) ≡ true
        → letters b.worker_at ws ms ≡ []
        → left_over ws ms ≡ ws
        → left_over ms ws ≡ ms
        → (b' : Broker W) × (dispatch_loop W (suc n) b s ≡ ok b') × Dispatched b s ws ms b'
    unfolding dispatch_loop
    rested n ws ms i j none_left l x y = (
      b,
      rw (e, none_left),
      record {
        sound = v;
        service = service;
        stands = e;
        sent = sym (ap (λ ls. b.sent ++ ls) l ∙ append-nil b.sent);
        idle = i ∙ sym x;
        pending = j ∙ sym y;
        others = refl;
        names = refl;
      },
    )

    unfoldable pub next_service : Service W
    next_service = record service {
      waiting = (zlist_pop service.waiting).1;
      requests = (Zlist.zlist_pop queues service.requests).1;
    }

    -- The state after a worker and a request were paired.
    pub paired : Ptr → Worker → Msg → Broker W
    unfolding next_service set_service
    paired w x m = record (set_service W b s next_service) {
      waiting = zlist_remove b.waiting w;
      sent = b.sent ++ to_worker W x mdpw_request m ∷ [];
    }

    module _ (w : Ptr) (x : Worker) (m : Msg) (ws : List Ptr) (ms : List Msg)
        (i : items service.waiting ≡ w ∷ ws) (j : requests_of service ≡ m ∷ ms)
        (f : b.worker_at w ≡ some x) where
      deliver-paired :
          deliver W b s service
            (zlist_pop service.waiting).0
            (zlist_pop service.waiting).1
            (Zlist.zlist_pop queues service.requests).0
            (Zlist.zlist_pop queues service.requests).1
          ≡ ok (paired w x m)
      unfolding deliver worker_send paired next_service set_service
      deliver-paired =
          let worker : (zlist_pop service.waiting).0 ≡ some w =
            popped_item service.waiting ∙ ap first_of i in
          let message : (Zlist.zlist_pop queues service.requests).0 ≡ some m =
            Zlist.popped_item queues service.requests ∙ ap first_of j in
          rw (worker, message, f)

      pub paired-stands : (paired w x m).service_at s ≡ some next_service
      unfolding paired set_service
      paired-stands = let self : (s == s) ≡ true = ground arith in rw self

      pub paired-IsSound : IsSound W (paired w x m)
      unfolding paired next_service
      paired-IsSound =
          let own = ap (queued W b.worker_at s) (sym e) ∙ v.own s in
          let left : items (zlist_pop service.waiting).1 ≡ ws =
            items-pop service.waiting ∙ ap rest_of_list i in
          put_service-IsSound b s service next_service (zlist_remove b.waiting w) _ e
            (ap (λ ps. all_of (λ p. serves W (b.worker_at p) s) ps && distinct ps) left
              ∙ rest_queued (
                  ap (λ ps. all_of (λ p. serves W (b.worker_at p) s) ps && distinct ps) (sym i)
                  ∙ own))
            (rw (items-remove b.waiting w)
              (all_of-remove_first (λ p. is_some (b.worker_at p)) w (items b.waiting) v.alive))
            (rw (items-remove b.waiting w) (distinct-remove_first w (items b.waiting) v.once)) v
        where
          rest_queued :
              (all_of (λ p. serves W (b.worker_at p) s) (w ∷ ws) && distinct (w ∷ ws)) ≡ true
              → (all_of (λ p. serves W (b.worker_at p) s) ws && distinct ws) ≡ true
          rest_queued h = ground arith

      -- One more pair in front of what the loop does later.
      pub paired_on :
          (n : ℕ)
          → (b' : Broker W) × (dispatch_loop W n (paired w x m) s ≡ ok b')
            × Dispatched (paired w x m) s ws ms b'
          → (b' : Broker W) × (dispatch_loop W (suc n) b s ≡ ok b')
            × Dispatched b s (w ∷ ws) (m ∷ ms) b'
      unfolding dispatch_loop paired set_service
      paired_on n (b', run, d) =
          let full : zlist_size service.waiting ≡ suc (length ws) =
            zlist_size-items service.waiting ∙ ap length i in
          let queue : Zlist.zlist_size queues service.requests ≡ suc (length ms) =
            Zlist.zlist_size-items queues service.requests ∙ ap length j in
          let busy : (zlist_size service.waiting == 0
                || Zlist.zlist_size queues service.requests == 0)
              ≡ false =
            ground (arith, full, queue) in
          (
            b',
            rw (e, busy, deliver-paired) run,
            record {
              sound = d.sound;
              service = d.service;
              stands = d.stands;
              sent =
                  d.sent
                  ∙ append_assoc b.sent (to_worker W x mdpw_request m ∷ [])
                      (letters b.worker_at ws ms)
                  ∙ ap (λ ls. b.sent ++ ls) (one_letter f);
              idle = d.idle;
              pending = d.pending;
              others = d.others;
              names = d.names;
            },
          )
        where
          one_letter :
              b.worker_at w ≡ some x
              → to_worker W x mdpw_request m ∷ [] ++ letters b.worker_at ws ms
                ≡ letters b.worker_at (w ∷ ws) (m ∷ ms)
          one_letter g = rw g
