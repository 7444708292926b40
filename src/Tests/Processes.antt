-- ===== src/Tests/Processes.antt =====
-- Runs of the parent of a process pool with three children.
use sweet_clib.Prelude.{
  ℕ, ◌+◌, ◌%◌, ◌<◌, ◌≡◌, refl, Bool, true, false, none, some, List, [], ◌∷◌, ◌++◌, arith, length,
  get_elem?, replicate, ◌⊎◌,
}
use sweet_clib.Linked.{ok}
use sweet_clib.Processpool.{
  in_parent, Built, processpool, Parent, parent_new, on_connection, on_events, Event, connection,
  signals, sigchld, sigterm, run_parent, all_gone,
}
use sweet_clib.Processpool.Robin.{round_from, gone_from, on_connection-cases}
use sweet_clib.Processpool.Fair.{count, on_events-fair}
use sweet_clib.Processpool.Tracked.{IsTracked, run_parent-processpool}

-- Three children, of which the first is gone, with the counter at the last.
abbrev two_left : Parent
two_left = record {
  m_pids = none ∷ some 11 ∷ some 12 ∷ [];
  sub_process_counter = 2;
  m_stop = false;
  sent = [];
  closed = [];
  killed = [];
}

abbrev three : Parent
three = record {
  m_pids = some 10 ∷ some 11 ∷ some 12 ∷ [];
  sub_process_counter = 2;
  m_stop = false;
  sent = [];
  closed = [];
  killed = [];
}

on_connection-cases_example :
    (s1 : Parent) × (left : Bool) × (on_connection two_left ≡ ok (s1, left))
    × (((m : ℕ) × (pid : ℕ) × (m < length two_left.m_pids)
          × (get_elem? two_left.m_pids (round_from two_left.m_pids two_left.sub_process_counter m)
              ≡ some (some pid))
          × (gone_from two_left.m_pids two_left.sub_process_counter 0 m ≡ true)
          × (left ≡ false)
          × (s1 ≡ record two_left {
            sub_process_counter =
                (round_from two_left.m_pids two_left.sub_process_counter m + 1)
                % length two_left.m_pids;
            sent = two_left.sent ++ round_from two_left.m_pids two_left.sub_process_counter m ∷ [];
          }))
        ⊎ (all_gone two_left.m_pids ≡ true)
          × (left ≡ true)
          × (s1 ≡ record two_left { m_stop = true }))
on_connection-cases_example = on_connection-cases two_left (record { inside = omega arith })

on_events-fair_example :
    (s1 : Parent) × (xs : List ℕ) × (on_events three (replicate 3 connection) ≡ ok s1)
    × (s1.sent ≡ three.sent ++ xs)
    × (count 0 xs ≡ 1)
    × (length xs ≡ 3)
    × (s1.sub_process_counter ≡ three.sub_process_counter)
    × (s1.m_pids ≡ three.m_pids)
    × (s1.m_stop ≡ three.m_stop)
on_events-fair_example = on_events-fair three 0 (record { inside = omega arith }) refl (omega arith)

-- Child 0 ends first, then the others, on SIGTERM.
abbrev parent_rounds : List (List Event)
parent_rounds =
    (connection ∷ signals (sigchld (10 ∷ []) ∷ []) ∷ [])
    ∷ (signals (sigterm ∷ sigchld (11 ∷ 12 ∷ []) ∷ []) ∷ [])
    ∷ []

run_parent-processpool_example :
    (b : Built) × (s : Parent) × (processpool (λ i. in_parent (10 + i)) 3 ≡ ok b)
    × (b.m_idx ≡ none)
    × (run_parent (parent_new b.m_pids) parent_rounds ≡ ok s)
    × IsTracked 3 s
run_parent-processpool_example =
    run_parent-processpool (λ i. in_parent (10 + i)) 3 parent_rounds refl refl
