-- ===== src/Mdp/Broker/Handlers.antt =====
-- lib/zeromq/MDP/mdbroker.c: services, the two handlers, and the round of the main loop. The pointers
-- `fresh` are what zmalloc returns for a new worker or service.
use sweet_clib.Prelude.{
  ℕ, zero, suc, ◌+◌, Bool, true, false, ◌||◌, Option, none, some, List, [], ◌∷◌, ◌++◌,
  if◌then◌else◌, ltb, ◌==◌,
}
use sweet_clib.Text.{Bytes, strcmp_eq}
use sweet_clib.Linked.{Run, ok, fault, out_of_fuel, ◌>>=◌, Ptr}
use sweet_clib.Czmq.{Zlist}
use sweet_clib.Mdp.{
  mdpc_client, mdpw_worker, mdpw_ready, mdpw_request, mdpw_reply, mdpw_heartbeat, mdpw_disconnect,
}
use sweet_clib.Mdp.Client.{frame_streq}
use sweet_clib.Mdp.Broker.{
  World, Worker, Service, heartbeat_interval, heartbeat_expiry, mmi_service, is_mmi, code_200,
  code_404, code_501, is_some,
}
use sweet_clib.Mdp.Broker.Objects.{
  Broker, at_object, set_worker, set_service, zclock_time, read_clock, worker_send, worker_delete,
  broker_purge,
}

module _ (W : World) where
  open W use {zmsg, zhash, pointers, queues, strhex, clock}
  open zmsg use {
    Msg, zmsg_new, zmsg_push, zmsg_wrap, zmsg_pop, zmsg_unwrap, zmsg_size, zmsg_last, reset_last,
  }
  open zhash use {zhash_lookup, zhash_insert}
  open pointers use {Items, items, zlist_new, zlist_append, zlist_pop, zlist_remove, zlist_size}

  -- s_service_require
  unfoldable pub service_require : Broker W → Ptr → Bytes → Option Ptr → Ptr × Broker W
  service_require b fresh name (some s) = (s, b)
  service_require b fresh name none = (
    fresh,
    set_service W (record b { services = zhash_insert b.services name fresh }) fresh
        (record {
          name = name;
          requests = Zlist.zlist_new queues;
          waiting = zlist_new;
          workers = 0;
        }),
  )

  -- s_worker_require
  unfoldable pub worker_require : Broker W → Ptr → Bytes → Option Ptr → Ptr × Broker W
  worker_require b fresh identity (some w) = (w, b)
  worker_require b fresh identity none = (
    fresh,
    set_worker W (record b { workers = zhash_insert b.workers (strhex identity) fresh }) fresh
        (some (record {
          id_string = strhex identity;
          identity = identity;
          service = none;
          expiry = 0;
        })),
  )

  -- A round of the loop of s_service_dispatch, with what the two pops returned.
  unfoldable pub deliver :
      Broker W
      → Ptr
      → Service W
      → Option Ptr
      → Items
      → Option Msg
      → Zlist.Items queues
      → Run (Broker W)
  deliver b s service (some w) ws (some m) ms =
      worker_send W
        (record (set_service W b s (record service { waiting = ws; requests = ms })) {
          waiting = zlist_remove b.waiting w;
        })
        w mdpw_request m
  deliver b s service _ ws _ ms = fault

  -- The loop of s_service_dispatch, on fuel.
  unfoldable pub dispatch_loop : ℕ → Broker W → Ptr → Run (Broker W)
  dispatch_loop zero b s = out_of_fuel
  dispatch_loop (suc fuel) b s = at_object W (b.service_at s) >>= λ service.
      if zlist_size service.waiting == 0 || Zlist.zlist_size queues service.requests == 0
      then ok b
      else (do
        let (w, ws) = zlist_pop service.waiting
        let (m, ms) = Zlist.zlist_pop queues service.requests
        b1 ← deliver b s service w ws m ms
        dispatch_loop fuel b1 s)

  unfoldable pub with_request : Service W → Option Msg → Service W
  with_request service none = service
  with_request service (some m) = record service {
    requests = Zlist.zlist_append queues service.requests m;
  }

  -- s_service_dispatch; each round of its loop takes one request.
  unfoldable pub service_dispatch : Broker W → Ptr → Option Msg → Run (Broker W)
  service_dispatch b s m = do
    service ← at_object W (b.service_at s)
    b1 ← broker_purge W (set_service W b s (with_request service m))
    queued ← at_object W (b1.service_at s)
    dispatch_loop (Zlist.zlist_size queues queued.requests + 1) b1 s

  -- The worker at the end of both waiting lists, with a new expiry.
  unfoldable pub put_waiting : Broker W → Ptr → Worker → Ptr → Service W → Broker W
  put_waiting b w worker s service =
      let b1 =
        set_service W (record b { waiting = zlist_append b.waiting w }) s
          (record service { waiting = zlist_append service.waiting w }) in
      read_clock W
        (set_worker W b1 w (some (record worker { expiry = zclock_time W b1 + heartbeat_expiry })))

  -- s_worker_waiting
  unfoldable pub worker_waiting : Broker W → Ptr → Run (Broker W)
  worker_waiting b w = do
    worker ← at_object W (b.worker_at w)
    s ← at_object W worker.service
    service ← at_object W (b.service_at s)
    service_dispatch (put_waiting b w worker s service) s none

  -- `worker->service = service` and the count of its workers.
  unfoldable pub hired : Broker W → Ptr → Worker → Ptr → Service W → Broker W
  hired b w worker s service =
      set_service W (set_worker W b w (some (record worker { service = some s }))) s
        (record service { workers = service.workers + 1 })

  -- The branch MDPW_READY for a worker that was not known.
  unfoldable pub enlist : Broker W → Ptr → Worker → Ptr → Option Bytes → Run (Broker W)
  enlist b w worker fresh none = fault
  enlist b w worker fresh (some name) = do
    let (s, b1) = service_require b fresh name (zhash_lookup b.services name)
    service ← at_object W (b1.service_at s)
    worker_waiting (hired b1 w worker s service) w

  -- The reply of a worker as it goes out to its client.
  unfoldable pub to_client : Bytes → Bytes → Msg → Msg
  to_client client name m = zmsg_wrap (zmsg_push (zmsg_push m name) mdpc_client) client

  abbrev pub send_msg : Broker W → Msg → Broker W
  send_msg b m = record b { sent = b.sent ++ m ∷ [] }

  -- The branch MDPW_REPLY for a worker that was known; a reply without a frame for the client is a fault.
  unfoldable pub forward : Broker W → Ptr → Worker → Option Bytes → Msg → Run (Broker W)
  forward b w worker none m = fault
  forward b w worker (some client) m = do
    s ← at_object W worker.service
    service ← at_object W (b.service_at s)
    worker_waiting (send_msg b (to_client client service.name m)) w

  -- The branches of s_broker_worker_msg on the command, with the message behind it.
  unfoldable pub obey_worker :
      Broker W → Bytes → Ptr → Bool → Option Bytes → Msg → Ptr → Run (Broker W)
  obey_worker b sender w known command m fresh = at_object W (b.worker_at w) >>= λ worker.
      if frame_streq command mdpw_ready
      then (if known
          then worker_delete W b w true
          else if is_mmi sender
          then worker_delete W b w true
          else enlist b w worker fresh (zmsg_pop m).0)
      else if frame_streq command mdpw_reply
      then (if known
          then forward b w worker (zmsg_unwrap m).0 (zmsg_unwrap m).1
          else worker_delete W b w true)
      else if frame_streq command mdpw_heartbeat
      then (if known
          then ok (
              read_clock W (
                set_worker W b w
                  (some (record worker { expiry = zclock_time W b + heartbeat_expiry }))))
          else worker_delete W b w true)
      else if frame_streq command mdpw_disconnect
      then worker_delete W b w false
      else ok b

  -- s_broker_worker_msg
  unfoldable pub broker_worker_msg : Broker W → Bytes → Msg → Ptr → Ptr → Run (Broker W)
  broker_worker_msg b sender m fresh_worker fresh_service =
      let (command, m1) = zmsg_pop m in
      let found = zhash_lookup b.workers (strhex sender) in
      let (w, b1) = worker_require b fresh_worker sender found in
      if ltb (zmsg_size m) 1
      then fault
      else obey_worker b1 sender w (is_some found) command m1 fresh_service

  -- What the service that is named answers to mmi.service.
  unfoldable pub service_code : Option (Service W) → Bytes
  service_code none = code_404
  service_code (some service) = if service.workers == 0 then code_404 else code_200

  -- The code that answers the service `name` of mmi, where `asked` is the last frame.
  unfoldable pub return_code : Broker W → Bytes → Bytes → Run Bytes
  return_code b name asked =
      if strcmp_eq name mmi_service
      then elim (zhash_lookup b.services asked) [
        | none ↦ ok code_404
        | some s ↦ at_object W (b.service_at s) >>= λ service. ok (service_code (some service))
      ]
      else ok code_501

  -- The branch of s_broker_client_msg for the services of mmi, on the message that holds the sender.
  unfoldable pub answer_mmi : Broker W → Bytes → Msg → Option Bytes → Run (Broker W)
  answer_mmi b name m none = fault
  answer_mmi b name m (some asked) = do
    code ← return_code b name asked
    let (client, m1) = zmsg_unwrap (reset_last m code)
    address ← at_object W client
    ok (send_msg b (to_client address name m1))

  -- s_broker_client_msg behind the pop of the frame of the service.
  unfoldable pub serve : Broker W → Bytes → Msg → Ptr → Option Bytes → Run (Broker W)
  serve b sender m fresh none = fault
  serve b sender m fresh (some name) =
      let (s, b1) = service_require b fresh name (zhash_lookup b.services name) in
      let wrapped = zmsg_wrap m sender in
      if is_mmi name
      then answer_mmi b1 name wrapped (zmsg_last wrapped)
      else service_dispatch b1 s (some wrapped)

  -- s_broker_client_msg
  unfoldable pub broker_client_msg : Broker W → Bytes → Msg → Ptr → Run (Broker W)
  broker_client_msg b sender m fresh =
      let (name, m1) = zmsg_pop m in
      if ltb (zmsg_size m) 2 then fault else serve b sender m1 fresh name

  -- The message that the main loop receives: sender, empty frame, header, and the rest for a handler.
  unfoldable pub broker_msg : Broker W → Msg → Ptr → Ptr → Run (Broker W)
  broker_msg b m fresh_worker fresh_service =
      let (sender, m1) = zmsg_pop m in
      let (empty, m2) = zmsg_pop m1 in
      let (header, m3) = zmsg_pop m2 in
      at_object W sender >>= λ from. at_object W header >>= λ kind.
      if strcmp_eq kind mdpc_client
      then broker_client_msg b from m3 fresh_service
      else if strcmp_eq kind mdpw_worker
      then broker_worker_msg b from m3 fresh_worker fresh_service
      else ok b

  -- The loop that sends a heartbeat to every worker that waits.
  unfoldable pub beat_all : Broker W → List Ptr → Run (Broker W)
  beat_all b [] = ok b
  beat_all b (w ∷ ws) = worker_send W b w mdpw_heartbeat zmsg_new >>= λ b1. beat_all b1 ws

  -- The end of a round of the main loop.
  unfoldable pub broker_beat : Broker W → Run (Broker W)
  broker_beat b =
      let b1 = read_clock W b in
      if ltb b.heartbeat_at (zclock_time W b)
      then (do
        b2 ← broker_purge W b1
        b3 ← beat_all b2 (items b2.waiting)
        ok (read_clock W (record b3 { heartbeat_at = zclock_time W b3 + heartbeat_interval })))
      else ok b1

  -- A round of the main loop, where a message arrived or none.
  unfoldable pub broker_round : Broker W → Option Msg → Ptr → Ptr → Run (Broker W)
  broker_round b none fresh_worker fresh_service = broker_beat b
  broker_round b (some m) fresh_worker fresh_service =
      broker_msg b m fresh_worker fresh_service >>= broker_beat
