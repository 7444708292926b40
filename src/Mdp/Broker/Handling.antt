-- ===== src/Mdp/Broker/Handling.antt =====
-- s_worker_waiting and the invariant.
use sweet_clib.Prelude.{
  ◌≡◌, refl, sym, ap, ◌∙◌, Bool, true, false, ◌&&◌, Option, none, some, arith, if◌then◌else◌, ◌==◌,
  Bool-cases, inl, inr,
}
use sweet_clib.Linked.{Ptr, Run, ok}
use sweet_clib.Mdp.Broker.{World, Worker, Service, is_some}
use sweet_clib.Mdp.Broker.Objects.{Broker, set_worker, set_service}
use sweet_clib.Mdp.Broker.Handlers.{service_dispatch, put_waiting, worker_waiting}
use sweet_clib.Mdp.Broker.Sound.{
  points, all_of, has, distinct, serves, linked, placed, queued, IsSound,
}
use sweet_clib.Mdp.Broker.Purge.{read_clock-IsSound}
use sweet_clib.Mdp.Broker.Pairing.{put_service-IsSound}
use sweet_clib.Mdp.Broker.Dispatch.{service_dispatch-Dispatched}
use sweet_clib.Mdp.Broker.Enrolled.{all_of-snoc, distinct-snoc, set_worker-IsSound}

both : (c d : Bool) → c ≡ true → d ≡ true → (c && d) ≡ true
both c d y z = rw (y, z) refl

left_of : (c d : Bool) → (c && d) ≡ true → c ≡ true
left_of true d y = refl
left_of false d y = y

right_of : (c d : Bool) → (c && d) ≡ true → d ≡ true
right_of true d y = y
right_of false d y = cc

module _ (W : World) where
  open W use {zmsg, zhash, pointers, queues, strhex, clock}
  open zmsg use {
    Msg, frames, zmsg_wrap, zmsg_push, zmsg_pop, zmsg_unwrap, zmsg_last, reset_last, zmsg_size,
    popped, frames-pop, zmsg_size-frames, frames-wrap, zmsg_last-frames,
  }
  open zhash use {zhash_lookup}
  open pointers use {items, zlist_append, items-append}

  -- The run ends well, in a sound state.
  abbrev pub EndsSound : Run (Broker W) → Type 0
  EndsSound run = (b' : Broker W) × (run ≡ ok b') × IsSound W b'

  pub dispatch_sound :
      (b : Broker W) (s : Ptr) (service : Service W) (m : Option Msg)
      → b.service_at s ≡ some service
      → IsSound W b
      → EndsSound (service_dispatch W b s m)
  dispatch_sound b s service m e v =
      let (b1, service1, b2, r, f, q, run, d) = service_dispatch-Dispatched W b s service m e v in
      (b2, run, d.sound)

  put_waiting_there :
      (b : Broker W) (w : Ptr) (x : Worker) (s : Ptr) (service : Service W)
      → (service' : Service W) × ((put_waiting W b w x s service).service_at s ≡ some service')
  unfolding put_waiting set_service set_worker
  put_waiting_there b w x s service =
      let self : (s == s) ≡ true = ground arith in
      (record service { waiting = zlist_append service.waiting w }, rw self refl)

  put_waiting-IsSound :
      (b : Broker W) (w s : Ptr) (x : Worker) (service : Service W)
      → b.worker_at w ≡ some x
      → x.service ≡ some s
      → b.service_at s ≡ some service
      → has w (items b.waiting) ≡ false
      → has w (items service.waiting) ≡ false
      → IsSound W b
      → IsSound W (put_waiting W b w x s service)
  unfolding put_waiting set_service
  put_waiting-IsSound b w s x service e f g h k v =
      let each = all_of (λ p. serves W (b.worker_at p) s) (items service.waiting) in
      let one = distinct (items service.waiting) in
      let own : (each && one) ≡ true = ap (queued W b.worker_at s) (sym g) ∙ v.own s in
      let serving : serves W (b.worker_at w) s ≡ true =
        ap (λ o. serves W o s) e ∙ ap (λ o. points o s) f ∙ ground arith in
      let joining = record service { waiting = zlist_append service.waiting w } in
      let joined : queued W b.worker_at s (some joining) ≡ true =
        rw (items-append service.waiting w) (
          both _ _
            (all_of-snoc (λ p. serves W (b.worker_at p) s) (items service.waiting) w
              (left_of each one own) serving)
            (distinct-snoc (items service.waiting) w (right_of each one own) k)) in
      let v1 =
        put_service-IsSound W b s service joining (zlist_append b.waiting w) b.sent g joined
          (rw (items-append b.waiting w)
            (all_of-snoc (λ p. is_some (b.worker_at p)) (items b.waiting) w v.alive (ap is_some e)))
          (rw (items-append b.waiting w) (distinct-snoc (items b.waiting) w v.once h)) v in
      let employed = ap (placed W b.service_at) (sym e) ∙ v.employed w in
      read_clock-IsSound W _
        (set_worker-IsSound W _ w x _ e refl (still_linked x.service employed) (λ r t. t) v1)
    where
      still_linked :
          (o : Option Ptr)
          → linked W b.service_at o ≡ true
          → linked W
              (λ r.
                if r == s
                then some (record service { waiting = zlist_append service.waiting w })
                else b.service_at r)
              o
            ≡ true
      still_linked none l = refl
      still_linked (some r) l = elim (Bool-cases (r == s)) [ inl a ↦ rw a refl | inr a ↦ rw a l ]

  -- A worker of the service `s` that does not wait goes to wait.
  pub worker_waiting_sound :
      (b : Broker W) (w s : Ptr) (x : Worker) (service : Service W)
      → b.worker_at w ≡ some x
      → x.service ≡ some s
      → b.service_at s ≡ some service
      → has w (items b.waiting) ≡ false
      → has w (items service.waiting) ≡ false
      → IsSound W b
      → EndsSound (worker_waiting W b w)
  unfolding worker_waiting
  worker_waiting_sound b w s x service e f g h k v =
      let (service', there) = put_waiting_there b w x s service in
      let (b', run, u) =
        dispatch_sound (put_waiting W b w x s service) s service' none there
          (put_waiting-IsSound b w s x service e f g h k v) in
      (b', simp (e, f, g) run, u)
