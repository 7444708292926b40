-- ===== src/Mdp/Client.antt =====
-- lib/zeromq/MDP/mdcliapi.c and mdcliapi2.c: the client, over the messages of Czmq. What the socket
-- does is a function from the number of the attempt: whether the process is interrupted before it, and
-- what zmq_poll and zmsg_recv report.
pub mod Retry
use sweet_clib.Prelude.{
  ℕ, zero, suc, ◌+◌, Bool, true, false, not, Option, none, some, List, [], ◌∷◌, ◌++◌, if◌then◌else◌,
  ltb, ◌==◌,
}
use sweet_clib.Text.{Bytes, strcmp_eq}
use sweet_clib.Czmq.{Zmsg}
use sweet_clib.Mdp.{mdpc_client}

-- What zmq_poll finds: an error, a message, or nothing until the timeout.
pub data Poll (M : Type 0) : Type 0 where
  poll_error : Poll M
  readable : M → Poll M
  timed_out : Poll M

-- What a call returns: a message, NULL, or not at all where an assertion fails.
pub data Returned (M : Type 0) : Type 0 where
  message : M → Returned M
  null_message : Returned M
  aborted : Returned M

-- What happens on the socket of the client.
pub data Action (M : Type 0) : Type 0 where
  connect : Action M
  send : M → Action M

-- The part of mdcli_t that is not a handle.
pub record Mdcli : Type 0 where
  pub timeout : ℕ
  pub retries : ℕ

-- mdcli_new
abbrev mdcli_new : Mdcli
mdcli_new = record { timeout = 2500; retries = 3 }

-- mdcli_set_timeout
abbrev mdcli_set_timeout : Mdcli → ℕ → Mdcli
mdcli_set_timeout self timeout = record self { timeout = timeout }

-- mdcli_set_retries
abbrev mdcli_set_retries : Mdcli → ℕ → Mdcli
mdcli_set_retries self retries = record self { retries = retries }

-- `zframe_streq(frame, s)` for the frame that a pop returned.
abbrev pub frame_streq : Option Bytes → Bytes → Bool
frame_streq none s = false
frame_streq (some f) s = strcmp_eq f s

module _ (Z : Zmsg) where
  open Z use {Msg, zmsg_push, zmsg_pop, zmsg_size}

  -- The message that mdcli_send builds before its loop.
  unfoldable pub addressed : Bytes → Msg → Msg
  addressed service request = zmsg_push (zmsg_push request service) mdpc_client

  -- What mdcli_send does with the message it received.
  pub opened : Bytes → Msg → Returned Msg
  opened service m =
      let (header, m1) = zmsg_pop m in
      let (reply_service, m2) = zmsg_pop m1 in
      if ltb (zmsg_size m) 3
      then aborted
      else if not (frame_streq header mdpc_client)
      then aborted
      else if not (frame_streq reply_service service)
      then aborted
      else message m2

  -- The body of the loop of mdcli_send: `interrupted` is zctx_interrupted, `left` the retries that are
  -- left when this one fails, and `later` what the loop does after it.
  pub attempt :
      Bytes
      → Msg
      → ℕ
      → Bool
      → Poll Msg
      → List (Action Msg) × Returned Msg
      → List (Action Msg) × Returned Msg
  attempt service request left true o later = ([], null_message)
  attempt service request left false poll_error later = (send request ∷ [], null_message)
  attempt service request left false (readable m) later = (send request ∷ [], opened service m)
  attempt service request zero false timed_out later = (send request ∷ [], null_message)
  attempt service request (suc n) false timed_out later =
      (send request ∷ connect ∷ later.0, later.1)

  module _ (interrupted : ℕ → Bool) (polled : ℕ → Poll Msg) where
    -- The loop of mdcli_send from attempt k on, with the retries that are left.
    pub send_loop : Bytes → Msg → ℕ → ℕ → List (Action Msg) × Returned Msg
    send_loop service request k zero = ([], null_message)
    send_loop service request k (suc left) =
        attempt service request left (interrupted k) (polled k)
          (send_loop service request (suc k) left)

    -- mdcli_send of mdcliapi.c
    pub mdcli_send : Mdcli → Bytes → Msg → List (Action Msg) × Returned Msg
    mdcli_send self service request = send_loop service (addressed service request) 0 self.retries

  -- mdcli_send of mdcliapi2.c: the message that goes out.
  unfoldable pub mdcli2_send : Bytes → Msg → Msg
  mdcli2_send service request = zmsg_push (zmsg_push (zmsg_push request service) mdpc_client) []

  -- mdcli_recv of mdcliapi2.c behind its call of zmsg_recv.
  unfoldable pub opened2 : Msg → Returned Msg
  opened2 m =
      let (empty, m1) = zmsg_pop m in
      let (header, m2) = zmsg_pop m1 in
      let (service, m3) = zmsg_pop m2 in
      if ltb (zmsg_size m) 4
      then aborted
      else if not (frame_streq empty [])
      then aborted
      else if not (frame_streq header mdpc_client)
      then aborted
      else message m3

  -- mdcli_recv of mdcliapi2.c
  unfoldable pub mdcli2_recv : Poll Msg → Returned Msg
  mdcli2_recv poll_error = null_message
  mdcli2_recv (readable m) = opened2 m
  mdcli2_recv timed_out = null_message
