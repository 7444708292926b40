-- ===== src/Mdp/Broker/Objects.antt =====
-- lib/zeromq/MDP/mdbroker.c: the state of the broker and the functions on its workers.
use sweet_clib.Prelude.{
  ℕ, zero, suc, ◌+◌, Bool, false, Option, none, some, List, [], ◌∷◌, ◌++◌, if◌then◌else◌, ltb, ◌==◌,
}
use sweet_clib.Text.{Bytes}
use sweet_clib.Linked.{Run, ok, fault, out_of_fuel, ◌>>=◌, Ptr}
use sweet_clib.Mdp.{mdpw_worker, mdpw_disconnect}
use sweet_clib.Mdp.Worker.{decremented}
use sweet_clib.Mdp.Broker.{World, Worker, Service, heartbeat_interval}

module _ (W : World) where
  open W use {zmsg, zhash, pointers, queues, strhex, clock}
  open zmsg use {Msg, zmsg_new, zmsg_push, zmsg_wrap}
  open zhash use {Hash, zhash_new, zhash_lookup, zhash_insert, zhash_delete}
  open pointers use {Items, zlist_new, zlist_remove, zlist_first, zlist_size}

  -- broker_t, with the objects in memory, the messages sent so far, and how often the clock was read.
  pub record Broker : Type 0 where
    pub services : Hash
    pub workers : Hash
    pub waiting : Items
    pub heartbeat_at : ℕ
    pub service_at : Ptr → Option (Service W)
    pub worker_at : Ptr → Option Worker
    pub sent : List Msg
    pub readings : ℕ

  -- What an access to an object finds.
  abbrev pub at_object {ℓ} : {A : Type ℓ} → Option A → Run A
  at_object none = fault
  at_object (some a) = ok a

  unfoldable pub set_worker : Broker → Ptr → Option Worker → Broker
  set_worker b w o = record b { worker_at = λ p. if p == w then o else b.worker_at p }

  unfoldable pub set_service : Broker → Ptr → Service W → Broker
  set_service b s o = record b { service_at = λ p. if p == s then some o else b.service_at p }

  -- zclock_time
  abbrev pub zclock_time : Broker → ℕ
  zclock_time b = clock b.readings

  abbrev pub read_clock : Broker → Broker
  read_clock b = record b { readings = b.readings + 1 }

  -- s_broker_new
  unfoldable pub broker_new : Broker
  broker_new = record {
    services = zhash_new;
    workers = zhash_new;
    waiting = zlist_new;
    heartbeat_at = clock 0 + heartbeat_interval;
    service_at = λ p. none;
    worker_at = λ p. none;
    sent = [];
    readings = 1;
  }

  -- The message that s_worker_send sends; its argument option is NULL in every call.
  unfoldable pub to_worker : Worker → Bytes → Msg → Msg
  to_worker worker command m =
      zmsg_wrap (zmsg_push (zmsg_push m command) mdpw_worker) worker.identity

  -- s_worker_send
  unfoldable pub worker_send : Broker → Ptr → Bytes → Msg → Run Broker
  worker_send b w command m = at_object (b.worker_at w) >>= λ worker.
      ok (record b { sent = b.sent ++ to_worker worker command m ∷ [] })

  -- The part of s_worker_delete that takes the worker from its service.
  unfoldable pub leave_service : Broker → Ptr → Option Ptr → Run Broker
  leave_service b w none = ok b
  leave_service b w (some s) = at_object (b.service_at s) >>= λ service. ok (
      set_service b s (record service {
        waiting = zlist_remove service.waiting w;
        workers = decremented service.workers;
      }))

  -- zhash_delete with s_worker_destroy as the function that frees the value.
  unfoldable pub forget : Broker → Bytes → Option Ptr → Broker
  forget b id none = b
  forget b id (some p) = set_worker (record b { workers = zhash_delete b.workers id }) p none

  -- s_worker_delete
  unfoldable pub worker_delete : Broker → Ptr → Bool → Run Broker
  worker_delete b w disconnect = do
    worker ← at_object (b.worker_at w)
    b1 ← if disconnect then worker_send b w mdpw_disconnect zmsg_new else ok b
    b2 ← leave_service b1 w worker.service
    let b3 = record b2 { waiting = zlist_remove b2.waiting w }
    ok (forget b3 worker.id_string (zhash_lookup b3.workers worker.id_string))

  -- A round of the loop of s_broker_purge for the worker that zlist_first returned, with what the loop
  -- does after a deletion.
  unfoldable pub purge_round : Broker → Ptr → Worker → (Broker → Run Broker) → Run Broker
  purge_round b w worker later =
      let b1 = read_clock b in
      if ltb (zclock_time b) worker.expiry then ok b1 else (worker_delete b1 w false >>= later)

  -- The loop of s_broker_purge, on fuel.
  unfoldable pub purge_loop : ℕ → Broker → Option Ptr → Run Broker
  purge_loop fuel b none = ok b
  purge_loop zero b (some w) = out_of_fuel
  purge_loop (suc fuel) b (some w) = at_object (b.worker_at w) >>= λ worker.
      purge_round b w worker λ b1. purge_loop fuel b1 (zlist_first b1.waiting)

  -- s_broker_purge; a round deletes one of the workers that wait.
  unfoldable pub broker_purge : Broker → Run Broker
  broker_purge b = purge_loop (zlist_size b.waiting) b (zlist_first b.waiting)
