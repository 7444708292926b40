-- ===== src/Tests/Servers.antt =====
-- Runs of a child process, of a connection of the echo server, and of the table of the chat server.
use sweet_clib.Prelude.{
  length, ◌≡◌, ℕ, ◌+◌, ◌<◌, refl, true, false, none, some, List, [], ◌∷◌, arith, replicate,
  length-replicate,
}
use sweet_clib.Processpool.{sigterm}
use sweet_clib.Processpool.Child.{
  Child, ChildEvent, notice, child_signals, request, unread, run_child,
}
use sweet_clib.Processpool.Child.Events.{handled}
use sweet_clib.Processpool.Child.Turns.{Turned, run_child-Turned}
use sweet_clib.Echo.{Sent, sent, Event, readable, writable, negative, closed, accepted, event_loop}
use sweet_clib.Echo.Writing.{Takes}
use sweet_clib.Linked.{ok}
use sweet_clib.Chat.{Chat, send_msg, leave}
use sweet_clib.Chat.Leaving.{active, send_msg-leave}
use sweet_clib.Echo.Stream.{received, Served, event_loop-Served}

-- The object of a connection counts its requests; a stop comes between two of them.
abbrev child : Child (λ connfd u. 0) (λ (u : ℕ). u + 1)
child = record { m_stop = false; users = λ q. 0; added = [] }

abbrev child_rounds : List (List ChildEvent)
child_rounds =
    (notice true (some 7) ∷ request 7 ∷ notice false none ∷ [])
    ∷ (child_signals (sigterm ∷ []) ∷ request 7 ∷ unread ∷ [])
    ∷ (request 7 ∷ [])
    ∷ []

run_child-Turned_example :
    Turned
      (λ connfd u. 0)
      (λ u. u + 1)
      (run_child (λ connfd u. 0) (λ u. u + 1) child child_rounds)
      child
      (handled child_rounds)
run_child-Turned_example =
    run_child-Turned (λ connfd u. 0) (λ u. u + 1) child child_rounds refl refl

-- A send takes one byte.
abbrev one_byte : ℕ → ℕ → Sent
one_byte k asked = sent 1

one_byte-Takes : (k asked : ℕ) → 0 < asked → Takes (one_byte k asked) asked
one_byte-Takes k asked h = (omega arith, omega (arith, h))

-- "ab\nc", a write, and the end of the connection.
abbrev events : List Event
events =
    readable ((b'a' ∷ b'b' ∷ []) ∷ (10 ∷ b'c' ∷ []) ∷ []) negative
    ∷ writable
    ∷ readable [] closed
    ∷ []

event_loop-Served_example :
    Served
      (event_loop one_byte (accepted (replicate 80 0)) events)
      (accepted (replicate 80 0))
      (received events)
event_loop-Served_example =
    event_loop-Served one_byte one_byte-Takes (replicate 80 0) events
      (length-replicate {A = ℕ} 80 0) (omega arith)

-- Three clients, of which the first leaves.
abbrev three_clients : Chat
three_clients = record { clnt_socks = 5 ∷ 6 ∷ 7 ∷ replicate 253 0; clnt_cnt = 3 }

send_msg-leave_example :
    (t : Chat) × (leave three_clients 5 ≡ ok t)
    × (t.clnt_cnt + 1 ≡ 3)
    × (active t ≡ 5 ∷ 7 ∷ [])
    × (length t.clnt_socks ≡ 256)
    × (send_msg t (b'a' ∷ []) ≡ ok ((5, b'a' ∷ []) ∷ (7, b'a' ∷ []) ∷ []))
send_msg-leave_example =
    let size : length (5 ∷ 6 ∷ 7 ∷ replicate {A = ℕ} 253 0) ≡ 256 =
      omega (arith, length-replicate {A = ℕ} 253 0) in
    send_msg-leave three_clients 5 (b'a' ∷ []) size (omega arith) (omega arith)
