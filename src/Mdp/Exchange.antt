-- ===== src/Mdp/Exchange.antt =====
-- A request and its reply through the broker: the frames of mdcliapi.c, mdbroker.c and mdwrkapi.c.
-- A ROUTER socket puts the identity of the peer in front of what arrives, and takes it off what goes out;
-- a REQ socket takes the empty frame off what it reads.
pub mod Legs
use sweet_clib.Prelude.{
  ℕ, ◌≡◌, refl, sym, ap, ◌∙◌, Bool, true, false, arith, ltb, length, none, some, Option, List, [],
  ◌∷◌, ◌++◌,
}
use sweet_clib.Text.{Bytes, strcmp_eq}
use sweet_clib.Text.Hash.{strcmp_eq_self}
use sweet_clib.Czmq.{Zlist, first_of, rest_of_list, drop_empty}
use sweet_clib.Mdp.{mdpc_client, mdpw_worker, mdpw_request, mdpw_reply, mdpw_ready}
use sweet_clib.Mdp.Client.{
  send, readable, message, addressed, opened, mdcli2_send, opened2, mdcli2_recv,
}
use sweet_clib.Mdp.Client.Retry.{opened-reply}
use sweet_clib.Mdp.Worker.{Mdwrk, Round, request, mdwrk_recv}
use sweet_clib.Mdp.Worker.Requests.{mdwrk_recv-request}
use sweet_clib.Linked.{Run, ok, ◌>>=◌, Ptr}
use sweet_clib.Mdp.Broker.{World, Worker, Service, is_mmi, is_some}
use sweet_clib.Mdp.Broker.Objects.{Broker, at_object, set_service, worker_send, to_worker}
use sweet_clib.Mdp.Broker.Handlers.{
  service_require, worker_require, deliver, service_dispatch, worker_waiting, to_client, send_msg,
  forward, obey_worker, broker_worker_msg, serve, broker_client_msg, broker_msg,
}
use sweet_clib.Mdp.Broker.Mmi.{frames-to_client}
use sweet_clib.Mdp.Exchange.Legs.{
  from_client, round_of, frames-pops, Asked, from_client-Asked, Given, deliver-Given, Forwarded,
  from_worker-Forwarded,
}

module _ (W : World) where
  open W use {zmsg, zhash, queues, strhex}
  open zmsg use {
    Msg, frames, zmsg_push, zmsg_wrap, zmsg_pop, zmsg_unwrap, popped, frames-pop, frames-push,
    frames-wrap, unwrapped, frames-unwrap, zmsg_size, zmsg_size-frames,
  }
  open zhash use {zhash_lookup}

  -- The frames of an answer as the REQ socket hands them to mdcli_send.
  opened-answer :
      (client service g : Bytes) (gs : List Bytes) (answer : Msg)
      → frames answer ≡ client ∷ [] ∷ mdpc_client ∷ service ∷ g ∷ gs
      → (z : Msg) × (opened zmsg service (zmsg_pop (zmsg_pop answer).1).1 ≡ message z)
        × (frames z ≡ g ∷ gs)
  opened-answer client service g gs answer e =
      opened-reply zmsg service g gs (zmsg_pop (zmsg_pop answer).1).1
        (frames-pop (zmsg_pop answer).1 ∙ ap rest_of_list (frames-pop answer ∙ ap rest_of_list e))

  -- The asynchronous client reads the same behind an empty frame.
  mdcli2_recv-answer :
      (client service g : Bytes) (gs : List Bytes) (answer : Msg)
      → frames answer ≡ client ∷ [] ∷ mdpc_client ∷ service ∷ g ∷ gs
      → (z : Msg) × (mdcli2_recv zmsg (readable (zmsg_pop answer).1) ≡ message z)
        × (frames z ≡ g ∷ gs)
  unfolding mdcli2_recv opened2
  mdcli2_recv-answer client service g gs answer e =
      let m0 = (zmsg_pop answer).1 in
      let m1 = (zmsg_pop m0).1 in
      let f0 : frames m0 ≡ [] ∷ mdpc_client ∷ service ∷ g ∷ gs =
        frames-pop answer ∙ ap rest_of_list e in
      let f1 : frames m1 ≡ mdpc_client ∷ service ∷ g ∷ gs = frames-pop m0 ∙ ap rest_of_list f0 in
      let first : (zmsg_pop m0).0 ≡ some [] = popped m0 ∙ ap first_of f0 in
      let second : (zmsg_pop m1).0 ≡ some mdpc_client = popped m1 ∙ ap first_of f1 in
      let long : ltb (zmsg_size m0) 4 ≡ false =
        ground (arith, zmsg_size-frames m0 ∙ ap length f0) in
      (
        (zmsg_pop (zmsg_pop m1).1).1,
        rw (long, first, second, strcmp_eq_self [], strcmp_eq_self mdpc_client),
        frames-pops W m0 [] mdpc_client service g gs f0,
      )

  -- A client's request on its way to the worker `w`, and the reply on its way back: the broker is in
  -- the state `b` when the request arrives, in `given` when its dispatch loop takes it and the worker,
  -- and in `back` when the worker's reply arrives.
  pub record Exchanged (b given back : Broker W) (self : Mdwrk) (worker : Worker) (w s : Ptr)
      (service : Service W) (ws : Zlist.Items (World.pointers W)) (ms : Zlist.Items queues)
      (fresh_worker fresh : Ptr) (t u v : ℕ) (rs : List (Round Msg)) (client name : Bytes)
      (body reply : Msg) : Type 0 where
    pub held : Msg
    pub asked :
        broker_msg W b (from_client W client name body) fresh_worker fresh
        ≡ service_dispatch W
            (service_require W b fresh name (zhash_lookup b.services name)).1
            (service_require W b fresh name (zhash_lookup b.services name)).0
            (some held)
    pub after : Broker W
    pub letter : Msg
    pub delivered : deliver W given s service (some w) ws (some held) ms ≡ ok after
    pub sent : after.sent ≡ given.sent ++ letter ∷ []
    pub addressee : (zmsg_pop letter).0 ≡ some worker.identity
    pub state : Mdwrk
    pub got : Msg
    pub returned :
        mdwrk_recv zmsg self none (round_of W t u v (zmsg_pop letter).1 ∷ rs)
        ≡ (state, [], request got)
    pub same_request : frames got ≡ frames body
    pub replied : Msg
    pub reply_sent : (mdwrk_recv zmsg state (some reply) []).1 ≡ send replied ∷ []
    pub answer : Msg
    pub forwarded :
        broker_msg W back (zmsg_push replied worker.identity) fresh_worker fresh
        ≡ worker_waiting W (send_msg W back answer) w
    pub receiver : (zmsg_pop answer).0 ≡ some client
    pub read : Msg
    pub opens : opened zmsg name (zmsg_pop (zmsg_pop answer).1).1 ≡ message read
    pub same_reply : frames read ≡ frames reply
    pub read2 : Msg
    pub opens2 : mdcli2_recv zmsg (readable (zmsg_pop answer).1) ≡ message read2
    pub same_reply2 : frames read2 ≡ frames reply

  -- A request of a service outside of mmi with a frame at least, through the broker to a worker that
  -- owes no answer, and a reply with a frame at least back. The main loop of the broker hands the
  -- client's message to s_service_dispatch, for the service that it names; when a round of the loop of
  -- s_service_dispatch pairs what was handed over with the worker, the broker sends one message, to this
  -- worker, and mdwrk_recv reads from it the frames of the request. The next call of mdwrk_recv, with the
  -- reply, sends one message; when it arrives in a state of the broker that knows the worker, with a
  -- service of that name, the main loop sends one message, to the client that asked, and then calls
  -- s_worker_waiting on the worker. From that message the client of mdcliapi.c reads the frames of the
  -- reply, and so does the client of mdcliapi2.c, which sends the request as the other client's socket
  -- does.
  pub opened-mdwrk_recv :
      (b given back : Broker W) (self : Mdwrk) (worker worker' : Worker) (w s home : Ptr)
      (service service' : Service W) (ws : Zlist.Items (World.pointers W)) (ms : Zlist.Items queues)
      (fresh_worker fresh : Ptr) (t u v : ℕ) (rs : List (Round Msg)) (client name f g : Bytes)
      (fs gs : List Bytes) (body reply : Msg)
      → is_mmi name ≡ false
      → frames body ≡ f ∷ fs
      → given.worker_at w ≡ some worker
      → self.expect_reply ≡ false
      → frames reply ≡ g ∷ gs
      → zhash_lookup back.workers (strhex worker.identity) ≡ some w
      → back.worker_at w ≡ some worker'
      → worker'.service ≡ some home
      → back.service_at home ≡ some service'
      → service'.name ≡ name
      → Exchanged b given back self worker w s service ws ms fresh_worker fresh t u v rs client name
          body reply
        × (mdcli2_send zmsg name body ≡ zmsg_push (addressed zmsg name body) [])
  unfolding mdcli2_send addressed
  opened-mdwrk_recv b given back self worker worker' w s home service service' ws ms fresh_worker
        fresh t u v rs client name f g fs gs body reply h e at idle e' known at' employed stands
        named =
      let asked = from_client-Asked W b client name f fs body fresh_worker fresh h e in
      let given_to = deliver-Given W given s w service ws ms worker asked.held at in
      let here : frames (zmsg_pop given_to.letter).1
          ≡ [] ∷ mdpw_worker ∷ mdpw_request ∷ client ∷ [] ∷ frames body =
        frames-pop given_to.letter
        ∙ ap rest_of_list given_to.framed
        ∙ ap (λ x. [] ∷ mdpw_worker ∷ mdpw_request ∷ x) asked.framed in
      let (state, got, replied, returned, same, reply_sent, waits, framed) =
        mdwrk_recv-request zmsg self (round_of W t u v (zmsg_pop given_to.letter).1) rs
          (zmsg_pop given_to.letter).1 reply client (frames body) idle refl here in
      let forwarded =
        from_worker-Forwarded W back w home fresh_worker fresh worker' service' worker.identity
          client (frames reply) replied known at' employed stands framed in
      let answer_frames : frames forwarded.answer ≡ client ∷ [] ∷ mdpc_client ∷ name ∷ g ∷ gs =
        forwarded.framed
        ∙ ap (λ x. client ∷ [] ∷ mdpc_client ∷ x ∷ frames reply) named
        ∙ ap (λ x. client ∷ [] ∷ mdpc_client ∷ name ∷ x) e' in
      let (read, opens, whole) = opened-answer client name g gs forwarded.answer answer_frames in
      let (read2, opens2, whole2) =
        mdcli2_recv-answer client name g gs forwarded.answer answer_frames in
      (
        record {
          held = asked.held;
          asked = asked.run;
          after = given_to.after;
          letter = given_to.letter;
          delivered = given_to.run;
          sent = given_to.sent;
          addressee = popped given_to.letter ∙ ap first_of given_to.framed;
          state = state;
          got = got;
          returned = returned;
          same_request = same;
          replied = replied;
          reply_sent = reply_sent;
          answer = forwarded.answer;
          forwarded = forwarded.run;
          receiver = popped forwarded.answer ∙ ap first_of forwarded.framed;
          read = read;
          opens = opens;
          same_reply = whole ∙ sym e';
          read2 = read2;
          opens2 = opens2;
          same_reply2 = whole2 ∙ sym e';
        },
        refl,
      )
