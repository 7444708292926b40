-- ===== src/Tests/Requests.antt =====
-- Runs of the client and the worker of lib/zeromq/MDP.
use sweet_clib.Prelude.{
  ℕ, ◌+◌, ◌-◌, ◌/◌, ◌≡◌, refl, Bool, false, none, some, List, [], ◌∷◌, if◌then◌else◌, ◌==◌, arith,
}
use sweet_clib.Text.{Bytes}
use sweet_clib.Mdp.{mdpc_client, mdpw_worker, mdpw_request, mdpw_reply}
use sweet_clib.Mdp.Client.{
  Poll, readable, timed_out, message, null_message, connect, send, Mdcli, mdcli_send,
}
use sweet_clib.Mdp.Client.Retry.{connects, framed, attempts, mdcli_send-answered, mdcli_send-Silent}
use sweet_clib.Mdp.Worker.{Mdwrk, Round, goes_on, request, mdwrk_recv}
use sweet_clib.Mdp.Worker.Kept.{IsAlive}
use sweet_clib.Mdp.Worker.Rounds.{mdwrk_recv-silent}
use sweet_clib.Mdp.Worker.Requests.{mdwrk_recv-request}
use sweet_clib.Tests.Messages.{plain_zmsg}

abbrev echo : Bytes
echo = b'e' ∷ b'c' ∷ b'h' ∷ b'o' ∷ []

abbrev hello : Bytes
hello = b'h' ∷ b'i' ∷ []

-- The first attempt times out and the second reads an answer.
abbrev second : ℕ → Poll (List Bytes)
second k = if k == 1 then readable (mdpc_client ∷ echo ∷ hello ∷ []) else timed_out

abbrev quiet : ℕ → Bool
quiet k = false

abbrev three : Mdcli
three = record { timeout = 2500; retries = 3 }

mdcli_send-answered_example :
    (framed plain_zmsg (mdcli_send plain_zmsg quiet second three echo (hello ∷ [])).0
      ≡ send (mdpc_client ∷ echo ∷ hello ∷ [])
        ∷ connect
        ∷ send (mdpc_client ∷ echo ∷ hello ∷ [])
        ∷ [])
    × ((r : List Bytes) × ((mdcli_send plain_zmsg quiet second three echo (hello ∷ [])).1
          ≡ message r)
        × (r ≡ hello ∷ []))
mdcli_send-answered_example =
    mdcli_send-answered plain_zmsg quiet second three echo hello [] (hello ∷ [])
      (mdpc_client ∷ echo ∷ hello ∷ []) 1 (refl, refl, tt) (omega arith) refl refl refl

abbrev never : ℕ → Poll (List Bytes)
never k = timed_out

mdcli_send-Silent_example :
    (framed plain_zmsg (mdcli_send plain_zmsg quiet never three echo (hello ∷ [])).0
      ≡ attempts plain_zmsg (mdpc_client ∷ echo ∷ hello ∷ []) 3)
    × ((mdcli_send plain_zmsg quiet never three echo (hello ∷ [])).1 ≡ null_message)
mdcli_send-Silent_example =
    mdcli_send-Silent plain_zmsg quiet never three echo (hello ∷ [])
      (refl, refl, (refl, refl, (refl, refl, tt)))

abbrev worker : Mdwrk
worker = record {
  service = echo;
  heartbeat_at = 2500;
  liveness = 2;
  heartbeat = 2500;
  reconnect = 2500;
  expect_reply = false;
  reply_to = none;
}

worker-IsAlive : IsAlive worker
worker-IsAlive = record { left = omega arith; most = omega arith }

-- A client's request, as the broker sends it on.
abbrev asked : List Bytes
asked = [] ∷ mdpw_worker ∷ mdpw_request ∷ (7 ∷ []) ∷ [] ∷ hello ∷ []

abbrev asked_at : ℕ → Round (List Bytes)
asked_at t = record { polled = readable asked; connected_at = t; tested_at = t; beat_at = t }

abbrev silent_at : ℕ → Round (List Bytes)
silent_at t = record { polled = timed_out; connected_at = t; tested_at = t; beat_at = t }

mdwrk_recv-request_example :
    (s : Mdwrk) × (q : List Bytes) × (a : List Bytes) × (mdwrk_recv plain_zmsg worker none
        (asked_at 100 ∷ [])
      ≡ (s, [], request q))
    × (q ≡ hello ∷ [])
    × ((mdwrk_recv plain_zmsg s (some (hello ∷ [])) []).1 ≡ send a ∷ [])
    × ((mdwrk_recv plain_zmsg s (some (hello ∷ [])) []).2 ≡ goes_on)
    × (a ≡ [] ∷ mdpw_worker ∷ mdpw_reply ∷ (7 ∷ []) ∷ [] ∷ hello ∷ [])
mdwrk_recv-request_example =
    mdwrk_recv-request plain_zmsg worker (asked_at 100) [] asked (hello ∷ []) (7 ∷ []) (hello ∷ [])
      refl refl refl

mdwrk_recv-silent_example :
    ((mdwrk_recv plain_zmsg worker none (silent_at 100 ∷ silent_at 9000 ∷ [])).2 ≡ goes_on)
    × (connects (mdwrk_recv plain_zmsg worker none (silent_at 100 ∷ silent_at 9000 ∷ [])).1
        ≡ (2 + (3 - 2)) / 3)
mdwrk_recv-silent_example =
    mdwrk_recv-silent plain_zmsg worker (silent_at 100 ∷ silent_at 9000 ∷ []) worker-IsAlive refl
      (refl, (refl, tt))
