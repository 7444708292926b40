-- ===== src/Mdp/Worker.antt =====
-- lib/zeromq/MDP/mdwrkapi.c: the worker, over the messages of Czmq. What happens on the socket comes in
-- as a list of rounds of the loop of mdwrk_recv; logging is left out.
pub mod Kept
pub mod Rounds
pub mod Requests
use sweet_clib.Prelude.{
  ℕ, zero, suc, ◌+◌, ◌-◌, ◌^◌, Bool, true, false, not, ◌&&◌, ◌||◌, Option, none, some, List, [],
  ◌∷◌, ◌++◌, if◌then◌else◌, ltb, ◌==◌,
}
use sweet_clib.Text.{Bytes}
use sweet_clib.Czmq.{Zmsg}
use sweet_clib.Mdp.{
  mdpw_worker, mdpw_ready, mdpw_request, mdpw_reply, mdpw_heartbeat, mdpw_disconnect,
}
use sweet_clib.Mdp.Client.{
  Poll, poll_error, readable, timed_out, Action, connect, send, frame_streq,
}

-- HEARTBEAT_LIVENESS
abbrev pub heartbeat_liveness : ℕ
heartbeat_liveness = 3

-- mdwrk_t, less the handles; `reply_to` is `none` for NULL.
pub record Mdwrk : Type 0 where
  pub service : Bytes
  pub heartbeat_at : ℕ
  pub liveness : ℕ
  pub heartbeat : ℕ
  pub reconnect : ℕ
  pub expect_reply : Bool
  pub reply_to : Option Bytes

-- A round of the loop: what is found on the socket (`poll_error` also for a zmsg_recv that returns
-- NULL, which leaves the loop as well), and what zclock_time returns in s_mdwrk_connect_to_broker, at
-- the test of the heartbeat, and behind it.
pub record Round (M : Type 0) : Type 0 where
  pub polled : Poll M
  pub connected_at : ℕ
  pub tested_at : ℕ
  pub beat_at : ℕ

-- What a round or a call ends with: the loop goes on, or the call returns a message or NULL, or an
-- assertion fails.
pub data Outcome (M : Type 0) : Type 0 where
  goes_on : Outcome M
  request : M → Outcome M
  null_request : Outcome M
  aborted : Outcome M

-- `--self->liveness` on a size_t.
abbrev pub decremented : ℕ → ℕ
decremented zero = 2 ^ 64 - 1
decremented (suc n) = n

-- mdwrk_set_heartbeat
abbrev mdwrk_set_heartbeat : Mdwrk → ℕ → Mdwrk
mdwrk_set_heartbeat self heartbeat = record self { heartbeat = heartbeat }

-- mdwrk_set_reconnect
abbrev mdwrk_set_reconnect : Mdwrk → ℕ → Mdwrk
mdwrk_set_reconnect self reconnect = record self { reconnect = reconnect }

module _ (Z : Zmsg) where
  open Z use {Msg, zmsg_new, zmsg_push, zmsg_wrap, zmsg_pop, zmsg_unwrap, zmsg_size}

  pub with_option : Option Bytes → Msg → Msg
  with_option none m = m
  with_option (some o) m = zmsg_push m o

  -- s_mdwrk_send_to_broker: the message that goes out.
  pub to_broker : Bytes → Option Bytes → Msg → Msg
  to_broker command option m =
      zmsg_push (zmsg_push (zmsg_push (with_option option m) command) mdpw_worker) []

  -- s_mdwrk_connect_to_broker
  pub connect_to_broker : Mdwrk → ℕ → Mdwrk × List (Action Msg)
  connect_to_broker self now = (
    record self { liveness = heartbeat_liveness; heartbeat_at = now + self.heartbeat },
    connect ∷ send (to_broker mdpw_ready (some self.service) zmsg_new) ∷ [],
  )

  -- mdwrk_new
  abbrev mdwrk_new : Bytes → ℕ → Mdwrk × List (Action Msg)
  mdwrk_new service now =
      connect_to_broker
        (record {
          service = service;
          heartbeat_at = 0;
          liveness = 0;
          heartbeat = 2500;
          reconnect = 2500;
          expect_reply = false;
          reply_to = none;
        })
        now

  -- The branches of mdwrk_recv on the command, with the message behind it.
  pub obey : Mdwrk → Option Bytes → Msg → ℕ → Mdwrk × List (Action Msg) × Outcome Msg
  obey self command m now =
      let (client, body) = zmsg_unwrap m in
      let (anew, sent) = connect_to_broker self now in
      if frame_streq command mdpw_request
      then (record self { reply_to = client }, [], request body)
      else if frame_streq command mdpw_heartbeat
      then (self, [], goes_on)
      else if frame_streq command mdpw_disconnect
      then (anew, sent, goes_on)
      else (self, [], goes_on)

  -- A message from the broker.
  pub receive : Mdwrk → Msg → ℕ → Mdwrk × List (Action Msg) × Outcome Msg
  receive self m now =
      let alive = record self { liveness = heartbeat_liveness } in
      let (empty, m1) = zmsg_pop m in
      let (header, m2) = zmsg_pop m1 in
      let (command, m3) = zmsg_pop m2 in
      if ltb (zmsg_size m) 3
      then (alive, [], aborted)
      else if not (frame_streq empty [])
      then (alive, [], aborted)
      else if not (frame_streq header mdpw_worker)
      then (alive, [], aborted)
      else obey alive command m3 now

  -- A timeout.
  pub missed : Mdwrk → ℕ → Mdwrk × List (Action Msg)
  missed self now =
      let left = decremented self.liveness in
      if left == 0
      then connect_to_broker (record self { liveness = left }) now
      else (record self { liveness = left }, [])

  -- The heartbeat at the end of a round.
  pub beat : Mdwrk → ℕ → ℕ → Mdwrk × List (Action Msg)
  beat self now later =
      if ltb self.heartbeat_at now
      then (
        record self { heartbeat_at = later + self.heartbeat },
        send (to_broker mdpw_heartbeat none zmsg_new) ∷ [],
      )
      else (self, [])

  -- The end of a round: the heartbeat when the loop goes on.
  pub ended :
      Round Msg → Mdwrk × List (Action Msg) × Outcome Msg → Mdwrk × List (Action Msg) × Outcome Msg
  ended r (self, xs, goes_on) =
      let (self', ys) = beat self r.tested_at r.beat_at in (self', xs ++ ys, goes_on)
  ended r (self, xs, o) = (self, xs, o)

  -- A round of the loop of mdwrk_recv.
  unfoldable pub round : Mdwrk → Round Msg → Poll Msg → Mdwrk × List (Action Msg) × Outcome Msg
  round self r poll_error = (self, [], null_request)
  round self r (readable m) = ended r (receive self m r.connected_at)
  round self r timed_out =
      let (self', xs) = missed self r.connected_at in ended r (self', xs, goes_on)

  -- What the loop does behind a round.
  abbrev pub continued :
      Mdwrk × List (Action Msg) × Outcome Msg
      → (Mdwrk → Mdwrk × List (Action Msg) × Outcome Msg)
      → Mdwrk × List (Action Msg) × Outcome Msg
  continued (self, xs, goes_on) k = let (self', ys, o) = k self in (self', xs ++ ys, o)
  continued (self, xs, request m) k = (self, xs, request m)
  continued (self, xs, null_request) k = (self, xs, null_request)
  continued (self, xs, aborted) k = (self, xs, aborted)

  -- The loop of mdwrk_recv over the rounds that happen; at their end it still waits.
  pub recv_loop : Mdwrk → List (Round Msg) → Mdwrk × List (Action Msg) × Outcome Msg
  recv_loop self [] = (self, [], goes_on)
  recv_loop self (r ∷ rs) = continued (round self r r.polled) λ next. recv_loop next rs

  -- The start of mdwrk_recv: the reply goes to the client of the last request.
  pub answer : Mdwrk → Option Msg → Option Bytes → Mdwrk × List (Action Msg) × Outcome Msg
  answer self none client =
      if self.expect_reply
      then (self, [], aborted)
      else (record self { expect_reply = true }, [], goes_on)
  answer self (some reply) none = (self, [], aborted)
  answer self (some reply) (some client) = (
    record self { expect_reply = true },
    send (to_broker mdpw_reply none (zmsg_wrap reply client)) ∷ [],
    goes_on,
  )

  -- mdwrk_recv
  pub mdwrk_recv : Mdwrk → Option Msg → List (Round Msg) → Mdwrk × List (Action Msg) × Outcome Msg
  mdwrk_recv self reply rs = continued (answer self reply self.reply_to) λ next. recv_loop next rs
