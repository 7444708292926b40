-- ===== src/Mdp/Exchange/Legs.antt =====
-- What the main loop of mdbroker.c and its dispatch loop send on the way of a request and a reply, and to
-- whom.
use sweet_clib.Prelude.{ℕ, ◌≡◌, refl, ap, ◌∙◌, false, arith, ltb, length, some, List, [], ◌∷◌, ◌++◌}
use sweet_clib.Text.{Bytes, strcmp_eq}
use sweet_clib.Text.Hash.{strcmp_eq_self}
use sweet_clib.Czmq.{Zlist, first_of, rest_of_list, drop_empty}
use sweet_clib.Mdp.{mdpc_client, mdpw_worker, mdpw_request, mdpw_reply}
use sweet_clib.Mdp.Client.{readable, addressed}
use sweet_clib.Mdp.Worker.{Round}
use sweet_clib.Linked.{Run, ok, Ptr}
use sweet_clib.Mdp.Broker.{World, Worker, Service, is_mmi}
use sweet_clib.Mdp.Broker.Objects.{Broker, set_service, worker_send, to_worker}
use sweet_clib.Mdp.Broker.Handlers.{
  service_require, worker_require, deliver, service_dispatch, worker_waiting, to_client, send_msg,
  forward, obey_worker, broker_worker_msg, serve, broker_client_msg, broker_msg,
}
use sweet_clib.Mdp.Broker.Mmi.{frames-to_client}

module _ (W : World) where
  open W use {zmsg, zhash, queues, strhex}
  open zmsg use {
    Msg, frames, zmsg_push, zmsg_wrap, zmsg_pop, zmsg_unwrap, popped, frames-pop, frames-push,
    frames-wrap, unwrapped, frames-unwrap, zmsg_size, zmsg_size-frames,
  }
  open zhash use {zhash_lookup}

  -- The client's message as the broker's socket reads it: the REQ socket puts an empty frame in front,
  -- and the ROUTER socket the identity of the client.
  abbrev pub from_client : Bytes → Bytes → Msg → Msg
  from_client client service body = zmsg_push (zmsg_push (addressed zmsg service body) []) client

  -- The round of mdwrk_recv that reads what the broker sends, at these times.
  abbrev pub round_of : ℕ → ℕ → ℕ → Msg → Round Msg
  round_of t u v m = record { polled = readable m; connected_at = t; tested_at = u; beat_at = v }

  -- Three frames popped from a message with another one in front.
  pub frames-pops :
      (m : Msg) (e h c f : Bytes) (fs : List Bytes)
      → frames m ≡ e ∷ h ∷ c ∷ f ∷ fs
      → frames (zmsg_pop (zmsg_pop (zmsg_pop m).1).1).1 ≡ f ∷ fs
  frames-pops m e h c f fs i =
      let m1 = (zmsg_pop m).1 in
      let m2 = (zmsg_pop m1).1 in
      frames-pop m2
      ∙ ap rest_of_list (frames-pop m1 ∙ ap rest_of_list (frames-pop m ∙ ap rest_of_list i))

  -- The main loop hands a client's message to s_service_dispatch, with the client around the rest.
  pub record Asked (b : Broker W) (client service : Bytes) (body : Msg) (fresh_worker fresh : Ptr)
      : Type 0 where
    pub held : Msg
    pub run :
        broker_msg W b (from_client client service body) fresh_worker fresh
        ≡ service_dispatch W
            (service_require W b fresh service (zhash_lookup b.services service)).1
            (service_require W b fresh service (zhash_lookup b.services service)).0
            (some held)
    pub framed : frames held ≡ client ∷ [] ∷ frames body

  pub from_client-Asked :
      (b : Broker W) (client service f : Bytes) (fs : List Bytes) (body : Msg)
      (fresh_worker fresh : Ptr)
      → is_mmi service ≡ false
      → frames body ≡ f ∷ fs
      → Asked b client service body fresh_worker fresh
  unfolding broker_msg broker_client_msg serve addressed
  from_client-Asked b client service f fs body fresh_worker fresh h e =
      let m = from_client client service body in
      let m1 = (zmsg_pop m).1 in
      let m2 = (zmsg_pop m1).1 in
      let m3 = (zmsg_pop m2).1 in
      let f0 : frames m ≡ client ∷ [] ∷ mdpc_client ∷ service ∷ frames body =
        rw (frames-push, frames-push, frames-push, frames-push) refl in
      let f1 : frames m1 ≡ [] ∷ mdpc_client ∷ service ∷ frames body =
        frames-pop m ∙ ap rest_of_list f0 in
      let f2 : frames m2 ≡ mdpc_client ∷ service ∷ frames body =
        frames-pop m1 ∙ ap rest_of_list f1 in
      let f3 : frames m3 ≡ service ∷ frames body = frames-pop m2 ∙ ap rest_of_list f2 in
      let sender : (zmsg_pop m).0 ≡ some client = popped m ∙ ap first_of f0 in
      let kind : (zmsg_pop m2).0 ≡ some mdpc_client = popped m2 ∙ ap first_of f2 in
      let name : (zmsg_pop m3).0 ≡ some service = popped m3 ∙ ap first_of f3 in
      let size : zmsg_size m3 ≡ length (service ∷ f ∷ fs) =
        zmsg_size-frames m3 ∙ ap length (f3 ∙ ap (λ x. service ∷ x) e) in
      let long : ltb (zmsg_size m3) 2 ≡ false = rw size (ground arith) in
      record {
        held = zmsg_wrap (zmsg_pop m3).1 client;
        run = simp (sender, kind, strcmp_eq_self mdpc_client, long, name, h) refl;
        framed =
            frames-wrap (zmsg_pop m3).1 client
            ∙ ap (λ x. client ∷ [] ∷ x) (frames-pop m3 ∙ ap rest_of_list f3);
      }

  -- A round of the loop of s_service_dispatch sends one message, to the worker.
  pub record Given (b : Broker W) (given : Run (Broker W)) (worker : Worker) (held : Msg)
      : Type 0 where
    pub after : Broker W
    pub letter : Msg
    pub run : given ≡ ok after
    pub sent : after.sent ≡ b.sent ++ letter ∷ []
    pub framed : frames letter ≡ worker.identity ∷ [] ∷ mdpw_worker ∷ mdpw_request ∷ frames held

  pub deliver-Given :
      (b : Broker W) (s w : Ptr) (service : Service W) (ws : Zlist.Items (World.pointers W))
      (ms : Zlist.Items queues) (worker : Worker) (held : Msg)
      → b.worker_at w ≡ some worker
      → Given b (deliver W b s service (some w) ws (some held) ms) worker held
  unfolding deliver worker_send to_worker set_service
  deliver-Given b s w service ws ms worker held e =
      let letter : Msg = to_worker W worker mdpw_request held in
      let left : Broker W =
        record (set_service W b s (record service { waiting = ws; requests = ms })) {
          waiting = Zlist.zlist_remove (World.pointers W) b.waiting w;
        } in
      record {
        after = record left { sent = b.sent ++ letter ∷ [] };
        letter = letter;
        run = simp e refl;
        sent = refl;
        framed =
            frames-wrap (zmsg_push (zmsg_push held mdpw_request) mdpw_worker) worker.identity
            ∙ rw (frames-push, frames-push) refl;
      }

  -- The main loop sends a known worker's reply to the client that it names, and lets the worker wait.
  pub record Forwarded (b : Broker W) (got : Run (Broker W)) (w : Ptr) (client name : Bytes)
      (fs : List Bytes) : Type 0 where
    pub answer : Msg
    pub run : got ≡ worker_waiting W (send_msg W b answer) w
    pub framed : frames answer ≡ client ∷ [] ∷ mdpc_client ∷ name ∷ fs

  pub from_worker-Forwarded :
      (b : Broker W) (w home fresh_worker fresh : Ptr) (worker : Worker) (service : Service W)
      (identity client : Bytes) (fs : List Bytes) (a : Msg)
      → zhash_lookup b.workers (strhex identity) ≡ some w
      → b.worker_at w ≡ some worker
      → worker.service ≡ some home
      → b.service_at home ≡ some service
      → frames a ≡ [] ∷ mdpw_worker ∷ mdpw_reply ∷ client ∷ [] ∷ fs
      → Forwarded b
          (broker_msg W b (zmsg_push a identity) fresh_worker fresh)
          w
          client
          service.name
          fs
  unfolding broker_msg broker_worker_msg worker_require obey_worker forward strcmp_eq
  from_worker-Forwarded b w home fresh_worker fresh worker service identity client fs a known at
        employed stands e =
      let m = zmsg_push a identity in
      let m1 = (zmsg_pop m).1 in
      let m2 = (zmsg_pop m1).1 in
      let m3 = (zmsg_pop m2).1 in
      let m4 = (zmsg_pop m3).1 in
      let f0 : frames m ≡ identity ∷ [] ∷ mdpw_worker ∷ mdpw_reply ∷ client ∷ [] ∷ fs =
        frames-push a identity ∙ ap (λ x. identity ∷ x) e in
      let f1 : frames m1 ≡ [] ∷ mdpw_worker ∷ mdpw_reply ∷ client ∷ [] ∷ fs =
        frames-pop m ∙ ap rest_of_list f0 in
      let f2 : frames m2 ≡ mdpw_worker ∷ mdpw_reply ∷ client ∷ [] ∷ fs =
        frames-pop m1 ∙ ap rest_of_list f1 in
      let f3 : frames m3 ≡ mdpw_reply ∷ client ∷ [] ∷ fs = frames-pop m2 ∙ ap rest_of_list f2 in
      let f4 : frames m4 ≡ client ∷ [] ∷ fs = frames-pop m3 ∙ ap rest_of_list f3 in
      let sender : (zmsg_pop m).0 ≡ some identity = popped m ∙ ap first_of f0 in
      let kind : (zmsg_pop m2).0 ≡ some mdpw_worker = popped m2 ∙ ap first_of f2 in
      let command : (zmsg_pop m3).0 ≡ some mdpw_reply = popped m3 ∙ ap first_of f3 in
      let address : (zmsg_unwrap m4).0 ≡ some client = unwrapped m4 ∙ ap first_of f4 in
      let size : zmsg_size m3 ≡ length (mdpw_reply ∷ client ∷ [] ∷ fs) =
        zmsg_size-frames m3 ∙ ap length f3 in
      let long : ltb (zmsg_size m3) 1 ≡ false = rw size (ground arith) in
      record {
        answer = to_client W client service.name (zmsg_unwrap m4).1;
        run = simp (sender, kind, known, long, command, at, address, employed, stands) refl;
        framed =
            frames-to_client W client service.name (zmsg_unwrap m4).1
            ∙ ap (λ x. client ∷ [] ∷ mdpc_client ∷ service.name ∷ x)
                (frames-unwrap m4 ∙ ap (λ x. drop_empty (rest_of_list x)) f4);
      }
