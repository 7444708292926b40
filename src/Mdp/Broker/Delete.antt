-- ===== src/Mdp/Broker/Delete.antt =====
-- s_worker_delete as a whole.
use sweet_clib.Prelude.{
  ◌≡◌, refl, sym, ap, ◌∙◌, Bool, true, false, Option, none, some, List, [], ◌∷◌, ◌++◌, arith,
  if◌then◌else◌, ◌==◌, Bool-cases, inl, inr,
}
use sweet_clib.Linked.{Ptr, ok}
use sweet_clib.Czmq.{remove_first}
use sweet_clib.Mdp.{mdpw_disconnect}
use sweet_clib.Mdp.Worker.{decremented}
use sweet_clib.Mdp.Broker.{World, Worker, Service, same_ptr, is_some}
use sweet_clib.Mdp.Broker.Objects.{
  Broker, set_worker, set_service, to_worker, worker_send, leave_service, forget, worker_delete,
}
use sweet_clib.Mdp.Broker.Sound.{points, serves, registered, linked, placed, queued, IsSound}
use sweet_clib.Mdp.Broker.Leaving.{
  without_worker, deleted, backlog, SameServices, deleted-IsSound, queued-apart, queued-left,
}

module _ (W : World) where
  open W use {zmsg, zhash, pointers}
  open zmsg use {Msg, zmsg_new}
  open zhash use {zhash_lookup, zhash_delete, lookup-delete}
  open pointers use {items, zlist_remove, items-remove}

  pub some_of : {A : Type 0} (o : Option A) → is_some o ≡ true → (a : A) × (o ≡ some a)
  some_of none e = cc
  some_of (some a) e = (a, refl)

  pub points-some : (o : Option Ptr) (p : Ptr) → points o p ≡ true → o ≡ some p
  points-some none p e = cc
  points-some (some q) p e = ap (λ r. some r) (ground arith)

  -- What a deletion leaves, beside the invariant.
  pub record Deleted (b : Broker W) (w : Ptr) (x : Worker) (d : Bool) (b' : Broker W) : Type 0 where
    pub sound : IsSound W b'
    pub freed : (p : Ptr) → b'.worker_at p ≡ without_worker W b.worker_at w p
    pub left : items b'.waiting ≡ remove_first same_ptr w (items b.waiting)
    pub told :
        b'.sent ≡ (if d then b.sent ++ to_worker W x mdpw_disconnect zmsg_new ∷ [] else b.sent)
    pub kept : SameServices W b.service_at b'.service_at
    pub names : b'.services ≡ b.services
    pub read : b'.readings ≡ b.readings

  module _ (b : Broker W) (w : Ptr) (x : Worker) (e : b.worker_at w ≡ some x)
      (v : IsSound W b) where
    found : zhash_lookup b.workers x.id_string ≡ some w
    found =
        points-some (zhash_lookup b.workers x.id_string) w
          (ap (registered W b.workers w) (sym e) ∙ v.known w)

    -- A worker of no service.
    free_worker :
        (xs : List Msg)
        → x.service ≡ none
        → (s : Ptr) → queued W (without_worker W b.worker_at w) s (b.service_at s) ≡ true
    free_worker xs n s =
        queued-apart W b w s (b.service_at s) (ap (λ o. serves W o s) e ∙ ap (λ o. points o s) n)
          (v.own s)

    -- A worker of the service `s`.
    serving :
        (s : Ptr) (service : Service W)
        → x.service ≡ some s
        → b.service_at s ≡ some service
        → (q : Ptr)
        → queued W (without_worker W b.worker_at w) q (
            if q == s
            then some (record service {
              waiting = zlist_remove service.waiting w;
              workers = decremented service.workers;
            })
            else b.service_at q)
          ≡ true
    serving s service n f q = elim (Bool-cases (q == s)) [
      | inl a ↦
          let same : q ≡ s = ground arith in
          rw a (
            queued-left W b w q service (decremented service.workers)
              (ap (queued W b.worker_at q) (sym (ap b.service_at same ∙ f)) ∙ v.own q))
      | inr a ↦ rw a (
          queued-apart W b w q (b.service_at q)
            (ap (λ o. serves W o q) e ∙ ap (λ o. points o q) n ∙ flipped q s a) (v.own q))
    ]
      where
        flipped : (p r : Ptr) → (p == r) ≡ false → (r == p) ≡ false
        flipped p r a = ground arith

    same_services :
        (s : Ptr) (service new : Service W)
        → backlog W (some new) ≡ backlog W (some service)
        → b.service_at s ≡ some service
        → SameServices W b.service_at (λ q. if q == s then some new else b.service_at q)
    same_services s service new g f q = elim (Bool-cases (q == s)) [
      | inl a ↦
          let same : q ≡ s = ground arith in
          rw a (g ∙ ap (backlog W) (sym (ap b.service_at same ∙ f)))
      | inr a ↦ rw a refl
    ]

    delete_cases :
        (d : Bool) (o : Option Ptr)
        → x.service ≡ o
        → (b' : Broker W) × (worker_delete W b w d ≡ ok b') × Deleted b w x d b'
    unfolding worker_delete worker_send leave_service forget set_worker set_service
    delete_cases true none n = (
      deleted W b w x b.service_at (b.sent ++ to_worker W x mdpw_disconnect zmsg_new ∷ []),
      rw (e, n, found),
      record {
        sound = deleted-IsSound W b w x b.service_at _ e v (λ s. refl) (free_worker [] n);
        freed = λ p. refl;
        left = items-remove b.waiting w;
        told = refl;
        kept = λ s. refl;
        names = refl;
        read = refl;
      },
    )
    delete_cases false none n = (
      deleted W b w x b.service_at b.sent,
      rw (e, n, found),
      record {
        sound = deleted-IsSound W b w x b.service_at _ e v (λ s. refl) (free_worker [] n);
        freed = λ p. refl;
        left = items-remove b.waiting w;
        told = refl;
        kept = λ s. refl;
        names = refl;
        read = refl;
      },
    )
    delete_cases d (some s) n =
        let (service, f) = some_of (b.service_at s) (
          ap (linked W b.service_at) (sym n) ∙ ap (placed W b.service_at) (sym e) ∙ v.employed w) in
        with_service d s service n f
      where
        with_service :
            (c : Bool) (s : Ptr) (service : Service W)
            → x.service ≡ some s
            → b.service_at s ≡ some service
            → (b' : Broker W) × (worker_delete W b w c ≡ ok b') × Deleted b w x c b'
        with_service true s service n f = (
          deleted W b w x _ (b.sent ++ to_worker W x mdpw_disconnect zmsg_new ∷ []),
          rw (e, n, f, found),
          record {
            sound =
                deleted-IsSound W b w x _ _ e v (same_services s service _ refl f)
                  (serving s service n f);
            freed = λ p. refl;
            left = items-remove b.waiting w;
            told = refl;
            kept = same_services s service _ refl f;
            names = refl;
            read = refl;
          },
        )
        with_service false s service n f = (
          deleted W b w x _ b.sent,
          rw (e, n, f, found),
          record {
            sound =
                deleted-IsSound W b w x _ _ e v (same_services s service _ refl f)
                  (serving s service n f);
            freed = λ p. refl;
            left = items-remove b.waiting w;
            told = refl;
            kept = same_services s service _ refl f;
            names = refl;
            read = refl;
          },
        )

    -- s_worker_delete of a worker that exists, in a sound state.
    pub worker_delete-Deleted :
        (d : Bool) → (b' : Broker W) × (worker_delete W b w d ≡ ok b') × Deleted b w x d b'
    worker_delete-Deleted d = delete_cases d x.service refl
