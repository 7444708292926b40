-- ===== src/Mdp/Broker/Dispatch.antt =====
-- s_service_dispatch: the purge and the loop.
use sweet_clib.Prelude.{
  ℕ, zero, suc, ◌+◌, ◌<◌, ◌≡◌, refl, sym, ap, ◌∙◌, true, ◌&&◌, Option, none, some, List, [], ◌∷◌,
  arith, ◌==◌, length,
}
use sweet_clib.Linked.{Ptr, ok}
use sweet_clib.Text.{Bytes}
use sweet_clib.Czmq.{Zlist, rest_of_list}
use sweet_clib.Mdp.Broker.{World, Worker, Service, is_some}
use sweet_clib.Mdp.Broker.Objects.{Broker, broker_purge, set_service}
use sweet_clib.Mdp.Broker.Handlers.{dispatch_loop, with_request, service_dispatch}
use sweet_clib.Mdp.Broker.Sound.{all_of, distinct, serves, queued, IsSound}
use sweet_clib.Mdp.Broker.Leaving.{backlog}
use sweet_clib.Mdp.Broker.Delete.{some_of}
use sweet_clib.Mdp.Broker.Purge.{Purged, broker_purge-Purged}
use sweet_clib.Mdp.Broker.Pairing.{
  left_over, requests_of, put_service-IsSound, rested, next_service, paired, paired-stands,
  paired-IsSound, paired_on, Dispatched,
}

module _ (W : World) where
  open W use {zmsg, zhash, pointers, queues}
  open zmsg use {Msg}
  open zhash use {zhash_lookup}
  open pointers use {
    items, zlist_pop, zlist_remove, zlist_size, popped_item, items-pop, items-remove,
    zlist_size-items,
  }

  dispatch_loop-Dispatched :
      (n : ℕ) (b : Broker W) (s : Ptr) (service : Service W) (ws : List Ptr) (ms : List Msg)
      → b.service_at s ≡ some service
      → items service.waiting ≡ ws
      → requests_of W service ≡ ms
      → length ms < n
      → IsSound W b
      → (b' : Broker W) × (dispatch_loop W n b s ≡ ok b') × Dispatched W b s ws ms b'
  unfolding next_service
  dispatch_loop-Dispatched zero b s service ws ms e i j h v = absurd (omega arith)
  dispatch_loop-Dispatched (suc n) b s service [] ms e i j h v =
      let empty : zlist_size service.waiting ≡ 0 = zlist_size-items service.waiting ∙ ap length i in
      rested W b s service e v n [] ms i j (ground (arith, empty)) refl refl (whole ms)
    where
      whole : (ks : List Msg) → left_over {B = Ptr} ks [] ≡ ks
      whole [] = refl
      whole (k ∷ ks) = refl
  dispatch_loop-Dispatched (suc n) b s service (w ∷ ws) [] e i j h v =
      let empty : Zlist.zlist_size queues service.requests ≡ 0 =
        Zlist.zlist_size-items queues service.requests ∙ ap length j in
      rested W b s service e v n (w ∷ ws) [] i j (ground (arith, empty)) refl refl refl
  dispatch_loop-Dispatched (suc n) b s service (w ∷ ws) (m ∷ ms) e i j h v =
      let (x, f) = some_of W (b.worker_at w) (
        serving (b.worker_at w) (
          front (
            ap (λ ps. all_of (λ p. serves W (b.worker_at p) s) ps && distinct ps) (sym i)
            ∙ ap (queued W b.worker_at s) (sym e)
            ∙ v.own s))) in
      paired_on W b s service e v w x m ws ms i j f n (
        dispatch_loop-Dispatched n (paired W b s service e v w x m) s
          (next_service W b s service e v) ws ms (paired-stands W b s service e v w x m ws ms i j f)
          (items-pop service.waiting ∙ ap rest_of_list i)
          (Zlist.items-pop queues service.requests ∙ ap rest_of_list j) (omega arith)
          (paired-IsSound W b s service e v w x m ws ms i j f))
    where
      serving : (o : Option Worker) → serves W o s ≡ true → is_some o ≡ true
      serving none a = a
      serving (some y) a = refl

      front :
          (all_of (λ p. serves W (b.worker_at p) s) (w ∷ ws) && distinct (w ∷ ws)) ≡ true
          → serves W (b.worker_at w) s ≡ true
      front a = ground arith

  -- The state that s_service_dispatch purges: the message, if any, is queued.
  abbrev pub enqueued : Broker W → Ptr → Service W → Option Msg → Broker W
  enqueued b s service m = set_service W b s (with_request W service m)

  enqueued-IsSound :
      (b : Broker W) (s : Ptr) (service : Service W) (m : Option Msg)
      → b.service_at s ≡ some service
      → IsSound W b
      → IsSound W (enqueued b s service m)
  unfolding with_request set_service
  enqueued-IsSound b s service none e v =
      put_service-IsSound W b s service service b.waiting b.sent e
        (ap (queued W b.worker_at s) (sym e) ∙ v.own s) v.alive v.once v
  enqueued-IsSound b s service (some m) e v =
      put_service-IsSound W b s service _ b.waiting b.sent e
        (ap (queued W b.worker_at s) (sym e) ∙ v.own s) v.alive v.once v

  pub service_dispatch-Dispatched :
      (b : Broker W) (s : Ptr) (service : Service W) (m : Option Msg)
      → b.service_at s ≡ some service
      → IsSound W b
      → (b1 : Broker W) × (service1 : Service W) × (b2 : Broker W) × Purged W
          (enqueued b s service m)
          b1
        × (b1.service_at s ≡ some service1)
        × (service1.requests ≡ (with_request W service m).requests)
        × (service_dispatch W b s m ≡ ok b2)
        × Dispatched W b1 s (items service1.waiting) (requests_of W service1) b2
  unfolding service_dispatch set_service
  service_dispatch-Dispatched b s service m e v =
      let (b1, run, r) =
        broker_purge-Purged W (enqueued b s service m) (enqueued-IsSound b s service m e v) in
      let self : (s == s) ≡ true = ground arith in
      let log : backlog W (b1.service_at s)
          ≡ some ((with_request W service m).name, (with_request W service m).requests) =
        r.kept s ∙ rw self refl in
      let (service1, f, q) = of_backlog (b1.service_at s) _ _ log in
      let (b2, run', d) =
        dispatch_loop-Dispatched (Zlist.zlist_size queues service1.requests + 1) b1 s service1
          (items service1.waiting) (requests_of W service1) f refl refl
          (omega (arith, Zlist.zlist_size-items queues service1.requests)) r.sound in
      (b1, service1, b2, r, f, q, all_run b1 b2 service1 run f run', d)
    where
      all_run :
          (b1 b2 : Broker W) (service1 : Service W)
          → broker_purge W (enqueued b s service m) ≡ ok b1
          → b1.service_at s ≡ some service1
          → dispatch_loop W (Zlist.zlist_size queues service1.requests + 1) b1 s ≡ ok b2
          → service_dispatch W b s m ≡ ok b2
      all_run b1 b2 service1 run f run' = rw (e, run, f) run'

      of_backlog :
          (o : Option (Service W)) (n : Bytes) (l : Zlist.Items queues)
          → backlog W o ≡ some (n, l)
          → (x : Service W) × (o ≡ some x) × (x.requests ≡ l)
      of_backlog none n l g = cc
      of_backlog (some x) n l g = (x, refl, ap (λ o. elim o [ none ↦ l | some k ↦ k.1 ]) g)
