-- ===== src/Mdp/Broker/Branches.antt =====
-- The branches of s_broker_worker_msg and the invariant.
use sweet_clib.Prelude.{
  ℕ, ◌+◌, ◌≡◌, refl, sym, ap, ◌∙◌, Bool, true, false, Option, none, some, List, ◌∷◌, arith, ◌==◌,
}
use sweet_clib.Linked.{Ptr}
use sweet_clib.Text.{Bytes, strcmp_eq}
use sweet_clib.Mdp.{mdpw_ready, mdpw_reply}
use sweet_clib.Mdp.Broker.{World, Worker, Service, is_some, is_mmi}
use sweet_clib.Mdp.Broker.Objects.{Broker, set_worker, set_service, read_clock, worker_delete}
use sweet_clib.Mdp.Broker.Handlers.{
  service_require, worker_waiting, hired, enlist, to_client, send_msg, forward,
}
use sweet_clib.Mdp.Broker.Sound.{points, has, has-all_of, serves, placed, queued, IsSound}
use sweet_clib.Mdp.Broker.Delete.{some_of, worker_delete-Deleted}
use sweet_clib.Mdp.Broker.Purge.{read_clock-IsSound}
use sweet_clib.Mdp.Broker.Pairing.{put_service-IsSound}
use sweet_clib.Mdp.Broker.Enrolled.{set_worker-IsSound}
use sweet_clib.Mdp.Broker.Changes.{service_require-IsSound}
use sweet_clib.Mdp.Broker.Handling.{EndsSound, worker_waiting_sound}
use sweet_clib.Mdp.Broker.Mmi.{send_msg-IsSound}

module _ (W : World) where
  open W use {zmsg, zhash, pointers, strhex, clock}
  open zmsg use {
    Msg, frames, zmsg_pop, zmsg_unwrap, zmsg_size, popped, frames-pop, zmsg_size-frames, unwrapped,
  }
  open zhash use {zhash_lookup}
  open pointers use {items}

  -- A worker that has a service and waits nowhere.
  pub record IsResting (b : Broker W) (w : Ptr) : Type 0 where
    pub worker : Worker
    pub home : Ptr
    pub service : Service W
    pub exists : b.worker_at w ≡ some worker
    pub employed : worker.service ≡ some home
    pub stands : b.service_at home ≡ some service
    pub apart : has w (items b.waiting) ≡ false
    pub idle : has w (items service.waiting) ≡ false

  -- A message that follows the protocol: READY of a new worker names a service, and REPLY of a known
  -- worker, which rests, names a client.
  pub record IsPolite (b : Broker W) (sender command : Bytes) (rest : List Bytes) : Type 0 where
    pub ready :
        strcmp_eq command mdpw_ready ≡ true
        → zhash_lookup b.workers (strhex sender) ≡ none
        → is_mmi sender ≡ false
        → (f : Bytes) × (fs : List Bytes) × (rest ≡ f ∷ fs)
    pub reply :
        strcmp_eq command mdpw_reply ≡ true
        → (w : Ptr) → zhash_lookup b.workers (strhex sender) ≡ some w
        → IsResting b w × (f : Bytes) × (fs : List Bytes) × (rest ≡ f ∷ fs)

  pub deleted_sound :
      (b : Broker W) (w : Ptr) (x : Worker) (d : Bool)
      → b.worker_at w ≡ some x
      → IsSound W b
      → EndsSound W (worker_delete W b w d)
  deleted_sound b w x d e v =
      let (b', run, a) = worker_delete-Deleted W b w x e v d in (b', run, a.sound)

  hired-IsSound :
      (b : Broker W) (w s : Ptr) (x : Worker) (service : Service W)
      → b.worker_at w ≡ some x
      → x.service ≡ none
      → b.service_at s ≡ some service
      → IsSound W b
      → IsSound W (hired W b w x s service)
  unfolding hired set_service set_worker
  hired-IsSound b w s x service e n g v =
      let employed = record x { service = some s } in
      let v1 =
        set_worker-IsSound W b w x employed e refl (ap is_some g)
          (λ r k. absurd (unemployed r (ap (λ o. points o r) (sym n) ∙ k))) v in
      put_service-IsSound W (set_worker W b w (some employed)) s service
        (record service { workers = service.workers + 1 }) b.waiting b.sent g
        (ap (queued W (set_worker W b w (some employed)).worker_at s) (sym g) ∙ v1.own s) v1.alive
        v1.once v1
    where
      unemployed : (r : Ptr) → ¬ (points none r ≡ true)
      unemployed r k = cc

  -- A worker that has no service yet comes to the service `s`.
  hired_sound :
      (b : Broker W) (w s : Ptr) (x : Worker) (service : Service W)
      → b.worker_at w ≡ some x
      → x.service ≡ none
      → b.service_at s ≡ some service
      → has w (items b.waiting) ≡ false
      → IsSound W b
      → EndsSound W (worker_waiting W (hired W b w x s service) w)
  unfolding hired set_service set_worker
  hired_sound b w s x service e n g h v =
      let own : queued W b.worker_at s (some service) ≡ true =
        ap (queued W b.worker_at s) (sym g) ∙ v.own s in
      let stranger : serves W (b.worker_at w) s ≡ false =
        ap (λ o. serves W o s) e ∙ ap (λ o. points o s) n in
      let same_w : (w == w) ≡ true = ground arith in
      let same_s : (s == s) ≡ true = ground arith in
      worker_waiting_sound W (hired W b w x s service) w s (record x { service = some s })
        (record service { workers = service.workers + 1 }) (rw same_w refl) refl (rw same_s refl) h
        (has-all_of (λ p. serves W (b.worker_at p) s) w (items service.waiting) (ground arith)
          stranger)
        (hired-IsSound b w s x service e n g v)

  kept-service_require :
      (b : Broker W) (fresh : Ptr) (name : Bytes) (o : Option Ptr) (w : Ptr) (x : Worker)
      → b.worker_at w ≡ some x
      → has w (items b.waiting) ≡ false
      → ((service_require W b fresh name o).1.worker_at w ≡ some x)
        × (has w (items (service_require W b fresh name o).1.waiting) ≡ false)
  unfolding service_require set_service
  kept-service_require b fresh name none w x e h = (e, h)
  kept-service_require b fresh name (some s) w x e h = (e, h)

  -- The branch READY for a new worker.
  pub enlist_sound :
      (b : Broker W) (w : Ptr) (x : Worker) (fresh : Ptr) (name : Bytes)
      → b.worker_at w ≡ some x
      → x.service ≡ none
      → b.service_at fresh ≡ none
      → has w (items b.waiting) ≡ false
      → IsSound W b
      → EndsSound W (enlist W b w x fresh (some name))
  unfolding enlist
  enlist_sound b w x fresh name e n g h v =
      let o = zhash_lookup b.services name in
      let (sound, there) = service_require-IsSound W b fresh name o g refl v in
      let (service, at) =
        some_of W
          ((service_require W b fresh name o).1.service_at (service_require W b fresh name o).0)
          there in
      let (e1, h1) = kept-service_require b fresh name o w x e h in
      let (b', run, u) =
        hired_sound (service_require W b fresh name o).1 w (service_require W b fresh name o).0 x
          service e1 n at h1 sound in
      (b', simp at run, u)

  -- The branch REPLY for a worker that rests.
  pub forward_sound :
      (b : Broker W) (w : Ptr) (x : Worker) (client : Bytes) (m : Msg)
      → b.worker_at w ≡ some x
      → IsResting b w
      → IsSound W b
      → EndsSound W (forward W b w x (some client) m)
  unfolding forward
  forward_sound b w x client m e r v =
      let here : x.service ≡ some r.home = home r.worker (sym e ∙ r.exists) r.employed in
      let b1 = send_msg W b (to_client W client r.service.name m) in
      let (b', run, u) =
        worker_waiting_sound W b1 w r.home x r.service e here r.stands r.apart r.idle
          (send_msg-IsSound W b (to_client W client r.service.name m) v) in
      (b', simp (here, r.stands) run, u)
    where
      service_of : Option Worker → Option Ptr
      service_of none = none
      service_of (some y) = y.service

      home : (y : Worker) → some x ≡ some y → y.service ≡ some r.home → x.service ≡ some r.home
      home y i k = ap service_of i ∙ k

  -- The heartbeat of a known worker.
  pub refreshed-IsSound :
      (b : Broker W) (w : Ptr) (x : Worker) (at : ℕ)
      → b.worker_at w ≡ some x
      → IsSound W b
      → IsSound W (read_clock W (set_worker W b w (some (record x { expiry = at }))))
  refreshed-IsSound b w x at e v = read_clock-IsSound W _ (
      set_worker-IsSound W b w x (record x { expiry = at }) e refl
        (ap (placed W b.service_at) (sym e) ∙ v.employed w) (λ s k. k) v)
