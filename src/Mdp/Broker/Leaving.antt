-- ===== src/Mdp/Broker/Leaving.antt =====
-- The invariant in the state that s_worker_delete leaves.
use sweet_clib.Prelude.{
  ℕ, ◌≡◌, ◌≢◌, refl, sym, ap, ◌∙◌, true, false, Option, none, some, List, arith, if◌then◌else◌,
  ◌==◌, Bool-cases, inl, inr,
}
use sweet_clib.Text.{Bytes, strcmp_eq}
use sweet_clib.Text.Hash.{eq_of_strcmp, strcmp_eq_self}
use sweet_clib.Linked.{Ptr}
use sweet_clib.Czmq.{Zlist, remove_first}
use sweet_clib.Mdp.Broker.{World, Worker, Service, same_ptr, is_some}
use sweet_clib.Mdp.Broker.Objects.{Broker}
use sweet_clib.Mdp.Broker.Sound.{
  points, distinct, all_of-mono_ne, all_of-remove_first, has-all_of, has-remove_first,
  distinct-remove_first, serves, registered, linked, placed, queued, IsSound, named, entered,
}

module _ (W : World) where
  open W use {zmsg, zhash, pointers}
  open zmsg use {Msg, zmsg_new}
  open zhash use {zhash_lookup, zhash_delete, lookup-delete}
  open pointers use {items, zlist_remove, items-remove}

  -- The workers without `w`.
  abbrev pub without_worker : (Ptr → Option Worker) → Ptr → Ptr → Option Worker
  without_worker at w p = if p == w then none else at p

  points_eq : (o : Option Ptr) (p q : Ptr) → points o p ≡ true → points o q ≡ true → p ≡ q
  points_eq none p q e f = cc
  points_eq (some r) p q e f = ground arith

  registered-delete :
      (b : Broker W) (w : Ptr) (x : Worker) (p : Ptr) (o : Option Worker)
      → registered W b.workers w (some x) ≡ true
      → registered W b.workers p o ≡ true
      → (p == w) ≡ false
      → registered W (zhash_delete b.workers x.id_string) p o ≡ true
  registered-delete b w x p none r k n = refl
  registered-delete b w x p (some y) r k n = elim (Bool-cases (strcmp_eq y.id_string x.id_string)) [
    | inl e ↦ absurd (
        apart (
          points_eq (zhash_lookup b.workers x.id_string) p w
            (ap (λ i. points (zhash_lookup b.workers i) p)
                (sym (eq_of_strcmp y.id_string x.id_string e))
              ∙ k)
            r))
    | inr e ↦ rw (lookup-delete b.workers x.id_string y.id_string, e) k
  ]
    where
      apart : p ≢ w
      apart = ground arith

  entered-delete :
      (b : Broker W) (w : Ptr) (x : Worker) (q : Bytes) (o : Option Ptr)
      → b.worker_at w ≡ some x
      → entered W b.worker_at q o ≡ true
      → entered W (without_worker b.worker_at w) q (if strcmp_eq q x.id_string then none else o)
        ≡ true
  entered-delete b w x q none e h = elim (Bool-cases (strcmp_eq q x.id_string)) [
    | inl a ↦ rw a refl
    | inr a ↦ rw a refl
  ]
  entered-delete b w x q (some p) e h = elim (Bool-cases (strcmp_eq q x.id_string)) [
    | inl a ↦ rw a refl
    | inr a ↦ elim (Bool-cases (p == w)) [
      | inl s ↦ absurd (
          clash a (
            eq_of_strcmp x.id_string q
              (sym (ap (λ i. named W q (b.worker_at i)) (same s) ∙ ap (named W q) e) ∙ h)))
      | inr s ↦ rw (a, s) h
    ]
  ]
    where
      same : (p == w) ≡ true → p ≡ w
      same s = ground arith

      clash : strcmp_eq q x.id_string ≡ false → x.id_string ≢ q
      clash a i = cc (sym (ap (strcmp_eq q) (sym i)), strcmp_eq_self q, a)

  -- The state that s_worker_delete leaves, whatever becomes of the services.
  abbrev pub deleted : Broker W → Ptr → Worker → (Ptr → Option (Service W)) → List Msg → Broker W
  deleted b w x at xs = record b {
    worker_at = without_worker b.worker_at w;
    workers = zhash_delete b.workers x.id_string;
    waiting = zlist_remove b.waiting w;
    service_at = at;
    sent = xs;
  }

  -- The same services exist.
  abbrev pub SameObjects : (Ptr → Option (Service W)) → (Ptr → Option (Service W)) → Type 0
  SameObjects at at' = (s : Ptr) → is_some (at' s) ≡ is_some (at s)

  abbrev pub backlog : Option (Service W) → Option (Bytes × Zlist.Items W.queues)
  backlog none = none
  backlog (some service) = some (service.name, service.requests)

  -- The same services exist, with the same names and requests.
  abbrev pub SameServices : (Ptr → Option (Service W)) → (Ptr → Option (Service W)) → Type 0
  SameServices at at' = (s : Ptr) → backlog (at' s) ≡ backlog (at s)

  is_some-backlog : (o : Option (Service W)) → is_some (backlog o) ≡ is_some o
  is_some-backlog none = refl
  is_some-backlog (some service) = refl

  pub SameServices-objects :
      (at at' : Ptr → Option (Service W)) → SameServices at at' → SameObjects at at'
  SameServices-objects at at' h s =
      sym (is_some-backlog (at' s)) ∙ ap is_some (h s) ∙ is_some-backlog (at s)

  pub linked-same :
      (at at' : Ptr → Option (Service W)) (o : Option Ptr)
      → SameObjects at at'
      → linked W at' o ≡ linked W at o
  linked-same at at' none h = refl
  linked-same at at' (some s) h = h s

  pub placed-same :
      (at at' : Ptr → Option (Service W)) (o : Option Worker)
      → SameObjects at at'
      → placed W at' o ≡ placed W at o
  placed-same at at' none h = refl
  placed-same at at' (some x) h = linked-same at at' x.service h

  pub deleted-IsSound :
      (b : Broker W) (w : Ptr) (x : Worker) (at : Ptr → Option (Service W)) (xs : List Msg)
      → b.worker_at w ≡ some x
      → IsSound W b
      → SameServices b.service_at at
      → ((s : Ptr) → queued W (without_worker b.worker_at w) s (at s) ≡ true)
      → IsSound W (deleted b w x at xs)
  deleted-IsSound b w x at xs e v same q = record {
    known = λ p. elim (Bool-cases (p == w)) [
      | inl a ↦ rw a refl
      | inr a ↦ rw a (
          registered-delete b w x p (b.worker_at p)
            (ap (registered W b.workers w) (sym e) ∙ v.known w) (v.known p) a)
    ];
    employed = λ p. elim (Bool-cases (p == w)) [
      | inl a ↦ rw a refl
      | inr a ↦ rw a (
          placed-same b.service_at at (b.worker_at p) (SameServices-objects b.service_at at same)
          ∙ v.employed p)
    ];
    alive = rw (items-remove b.waiting w) (
        all_of-mono_ne _ (λ p. is_some (without_worker b.worker_at w p)) w _ (λ p a h. rw a h)
          (has-remove_first w (items b.waiting) v.once)
          (all_of-remove_first (λ p. is_some (b.worker_at p)) w (items b.waiting) v.alive));
    once = rw (items-remove b.waiting w) (distinct-remove_first w (items b.waiting) v.once);
    own = q;
    enrolled = λ q.
        rw (lookup-delete b.workers x.id_string q)
          (entered-delete b w x q (zhash_lookup b.workers q) e (v.enrolled q));
    listed = λ n.
        linked-same b.service_at at (zhash_lookup b.services n)
          (SameServices-objects b.service_at at same)
        ∙ v.listed n;
  }

  -- A list of a service that `w` is not in serves it still.
  pub queued-apart :
      (b : Broker W) (w s : Ptr) (o : Option (Service W))
      → serves W (b.worker_at w) s ≡ false
      → queued W b.worker_at s o ≡ true
      → queued W (without_worker b.worker_at w) s o ≡ true
  queued-apart b w s none n q = refl
  queued-apart b w s (some service) n q =
      let own =
        all_of-mono_ne (λ p. serves W (b.worker_at p) s)
          (λ p. serves W (without_worker b.worker_at w p) s) w (items service.waiting)
          (λ p a h. rw a h)
          (has-all_of (λ p. serves W (b.worker_at p) s) w (items service.waiting) (ground arith) n)
          (ground arith) in
      ground arith

  -- The list of its own service, with `w` taken out.
  pub queued-left :
      (b : Broker W) (w s : Ptr) (service : Service W) (n : ℕ)
      → queued W b.worker_at s (some service) ≡ true
      → queued W
          (without_worker b.worker_at w)
          s
          (some (record service { waiting = zlist_remove service.waiting w; workers = n }))
        ≡ true
  queued-left b w s service n q =
      let once : distinct (items service.waiting) ≡ true = ground arith in
      let own =
        all_of-mono_ne (λ p. serves W (b.worker_at p) s)
          (λ p. serves W (without_worker b.worker_at w p) s) w
          (remove_first same_ptr w (items service.waiting)) (λ p a h. rw a h)
          (has-remove_first w (items service.waiting) once)
          (all_of-remove_first (λ p. serves W (b.worker_at p) s) w (items service.waiting)
            (ground arith)) in
      let still = distinct-remove_first w (items service.waiting) once in
      rw (items-remove service.waiting w) (ground arith)
