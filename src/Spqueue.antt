-- ===== src/Spqueue.antt =====
-- lib/zeromq/reliable/spqueue.c: the loop of the simple pirate queue, over the messages and lists of
-- Czmq. `fault` is a read through NULL or past an empty frame. What a poll finds is an argument.
pub mod Served
use sweet_clib.Prelude.{
  ℕ, Bool, false, Option, none, some, List, [], ◌∷◌, ◌++◌, if◌then◌else◌, ◌==◌,
}
use sweet_clib.Linked.{Run, ok, fault, ◌>>=◌}
use sweet_clib.Text.{Bytes}
use sweet_clib.Czmq.{Zmsg, Zlist, first_of}

-- Frames are never taken out of the list by zlist_remove.
abbrev pub unmatched : Bytes → Bytes → Bool
unmatched f g = false

module _ (Z : Zmsg) (L : Zlist Bytes unmatched) where
  open Z use {Msg, zmsg_wrap, zmsg_unwrap, zmsg_first}
  open L use {Items, zlist_new, zlist_append, zlist_pop, zlist_size}

  -- The list of the loop, and what it sent to either side.
  pub record Spqueue : Type 0 where
    pub workers : Items
    pub to_backend : List Msg
    pub to_frontend : List Msg

  pub spqueue_new : Spqueue
  spqueue_new = record { workers = zlist_new; to_backend = []; to_frontend = [] }

  -- A worker's message behind its identity: WORKER_READY, or a reply.
  pub passed_on : Spqueue → Msg → Option Bytes → Run Spqueue
  passed_on s m none = fault
  passed_on s m (some []) = fault
  passed_on s m (some (c ∷ f)) =
      ok (if c == 1 then s else record s { to_frontend = s.to_frontend ++ m ∷ [] })

  -- The part of a round for the backend.
  pub of_backend : Spqueue → Option Msg → Run Spqueue
  of_backend s none = ok s
  of_backend s (some m) = enroll (zmsg_unwrap m).0
    where
      enroll : Option Bytes → Run Spqueue
      enroll none = fault
      enroll (some identity) =
          passed_on (record s { workers = zlist_append s.workers identity }) (zmsg_unwrap m).1
            (zmsg_first (zmsg_unwrap m).1)

  -- The part of a round for the frontend.
  pub of_frontend : Spqueue → Option Msg → Run Spqueue
  of_frontend s none = ok s
  of_frontend s (some m) = assign (zlist_pop s.workers).0
    where
      assign : Option Bytes → Run Spqueue
      assign none = fault
      assign (some identity) = ok (record s {
        workers = (zlist_pop s.workers).1;
        to_backend = s.to_backend ++ zmsg_wrap m identity ∷ [];
      })

  -- A round: the frontend is polled only when the list is not empty at the start.
  unfoldable pub round : Spqueue → Option Msg → Option Msg → Run Spqueue
  round s backend frontend =
      let asked = if zlist_size s.workers == 0 then none else frontend in
      of_backend s backend >>= λ s1. of_frontend s1 asked

  -- The loop over the rounds that happen.
  pub loop : Spqueue → List (Option Msg × Option Msg) → Run Spqueue
  loop s [] = ok s
  loop s ((backend, frontend) ∷ rs) = round s backend frontend >>= λ s1. loop s1 rs
