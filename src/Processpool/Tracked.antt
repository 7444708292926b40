-- ===== src/Processpool/Tracked.antt =====
-- What every run of the parent keeps: its children, the pipes it closes, and when it stops.
use sweet_clib.Prelude.{
  ℕ, zero, suc, ◌+◌, ◌%◌, ◌<◌, ◌≡◌, refl, sym, ap, subst, ◌∙◌, Bool, true, false, not, ◌&&◌, ◌||◌,
  Option, none, some, List, [], ◌∷◌, ◌++◌, arith, if◌then◌else◌, ◌==◌, ltb, leb, length, get_elem?,
  replicate, Bool-cases, inl, inr,
}
use native.Mathlib.Nat.{mod-lt}
use sweet_clib.Linked.{ok, ◌>>=◌}
use sweet_clib.Processpool.{
  Fork, Built, processpool, max_process_number, Parent, parent_new, Event, connection, signals,
  other_event, Signal, sigchld, sigterm, other_signal, on_connection, is_pid, joined, reap,
  all_gone, on_signal, on_signals, on_events, run_parent,
}
use sweet_clib.Processpool.Robin.{is_gone, IsPool, round_from, on_connection-cases}
use sweet_clib.Processpool.Fair.{count, runs}
use sweet_clib.Processpool.Spawned.{all_parents, spawn-Spawned}

abbrev gone_count : Option (Option ℕ) → ℕ
gone_count o = if is_gone o then 1 else 0

count-append : (i : ℕ) (xs ys : List ℕ) → count i (xs ++ ys) ≡ count i xs + count i ys
count-append i [] ys = omega arith
count-append i (x ∷ xs) ys = omega (arith, count-append i xs ys)

length-joined : (pid i : ℕ) (os : List (Option ℕ)) → length (joined pid i os).0 ≡ length os
unfolding joined
length-joined pid i [] = refl
length-joined pid i (o ∷ os) = elim (Bool-cases (is_pid pid o)) [
  | inl a ↦ rw a (ap suc (length-joined pid (i + 1) os))
  | inr a ↦ rw a (ap suc (length-joined pid (i + 1) os))
]

-- No child in front of the i-th is closed.
joined-before : (pid i j : ℕ) (os : List (Option ℕ)) → j < i → count j (joined pid i os).1 ≡ 0
unfolding joined
joined-before pid i j [] h = refl
joined-before pid i j (o ∷ os) h =
    let later = joined-before pid (i + 1) j os (omega arith) in
    let other : (i == j) ≡ false = ground arith in
    elim (Bool-cases (is_pid pid o)) [
      | inl a ↦ rw (a, other) (omega (arith, later))
      | inr a ↦ rw a later
    ]

-- The children that are newly gone are those whose pipes are closed.
joined-closed :
    (pid i q : ℕ) (os : List (Option ℕ))
    → count (i + q) (joined pid i os).1 + gone_count (get_elem? os q)
      ≡ gone_count (get_elem? (joined pid i os).0 q)
unfolding joined
joined-closed pid i q [] = omega arith
joined-closed pid i zero (o ∷ os) =
    let here : (i == (i + 0)) ≡ true = ground arith in
    let none_later : count (i + 0) (joined pid (i + 1) os).1 ≡ 0 =
      joined-before pid (i + 1) (i + 0) os (omega arith) in
    first o here none_later
  where
    first :
        (o : Option ℕ)
        → (i == (i + 0)) ≡ true
        → count (i + 0) (joined pid (i + 1) os).1 ≡ 0
        → count (i + 0) (joined pid i (o ∷ os)).1 + gone_count (some o)
          ≡ gone_count (get_elem? (joined pid i (o ∷ os)).0 0)
    first none h z = omega (arith, z)
    first (some p) h z = elim (Bool-cases (p == pid)) [
      | inl a ↦ rw (a, h) (omega (arith, z))
      | inr a ↦ rw a (omega (arith, z))
    ]
joined-closed pid i (suc q) (o ∷ os) =
    let later = joined-closed pid (i + 1) q os in
    let same : i + 1 + q ≡ i + suc q = omega arith in
    let other : (i == (i + suc q)) ≡ false = ground arith in
    let counted : count (i + suc q) (joined pid (i + 1) os).1 + gone_count (get_elem? os q)
        ≡ gone_count (get_elem? (joined pid (i + 1) os).0 q) =
      ap (λ x. count x (joined pid (i + 1) os).1 + gone_count (get_elem? os q)) (sym same)
      ∙ later in
    elim (Bool-cases (is_pid pid o)) [
      | inl a ↦ rw (a, other) (omega (arith, counted))
      | inr a ↦ rw a counted
    ]

all_gone-joined :
    (pid i : ℕ) (os : List (Option ℕ)) → all_gone os ≡ true → all_gone (joined pid i os).0 ≡ true
unfolding joined
all_gone-joined pid i [] h = refl
all_gone-joined pid i (none ∷ os) h = all_gone-joined pid (i + 1) os h
all_gone-joined pid i (some p ∷ os) h = cc

-- The parent has n children and a counter inside; it has closed the pipe of each child that is gone,
-- once, and of no other; and when it stops, all children are gone.
pub record IsTracked (n : ℕ) (s : Parent) : Type 0 where
  pub size : length s.m_pids ≡ n
  pub inside : s.sub_process_counter < n
  pub pipes : (i : ℕ) → count i s.closed ≡ (if is_gone (get_elem? s.m_pids i) then 1 else 0)
  pub stopped : (not s.m_stop || all_gone s.m_pids) ≡ true

-- The same, but for the counter, with m_stop read off before the signal.
reap-IsTracked : (n : ℕ) (s : Parent) (pids : List ℕ) → IsTracked n s → IsTracked n (reap s pids)
unfolding reap
reap-IsTracked n s [] v = v
reap-IsTracked n s (pid ∷ pids) v =
    reap-IsTracked n
      (record s {
        m_pids = (joined pid 0 s.m_pids).0;
        closed = s.closed ++ (joined pid 0 s.m_pids).1;
      })
      pids
      (record {
        size = length-joined pid 0 s.m_pids ∙ v.size;
        inside = v.inside;
        pipes = λ i.
            let zero_up : 0 + i ≡ i = omega arith in
            let newly : count i (joined pid 0 s.m_pids).1 + gone_count (get_elem? s.m_pids i)
                ≡ gone_count (get_elem? (joined pid 0 s.m_pids).0 i) =
              ap (λ x. count x (joined pid 0 s.m_pids).1 + gone_count (get_elem? s.m_pids i))
                (sym zero_up)
              ∙ joined-closed pid 0 i s.m_pids in
            count-append i s.closed (joined pid 0 s.m_pids).1 ∙ omega (arith, v.pipes i, newly);
        stopped = still s.m_stop (v.stopped) (all_gone-joined pid 0 s.m_pids);
      })
  where
    still :
        (b : Bool)
        → (not b || all_gone s.m_pids) ≡ true
        → (all_gone s.m_pids ≡ true → all_gone (joined pid 0 s.m_pids).0 ≡ true)
        → (not b || all_gone (joined pid 0 s.m_pids).0) ≡ true
    still false h f = refl
    still true h f = f h

on_signal-IsTracked :
    (n : ℕ) (s : Parent) (x : Signal) → IsTracked n s → IsTracked n (on_signal s x)
unfolding on_signal
on_signal-IsTracked n s (sigchld pids) v =
    let w = reap-IsTracked n s pids v in
    record {
      size = w.size;
      inside = w.inside;
      pipes = w.pipes;
      stopped = tautology (all_gone (reap s pids).m_pids);
    }
  where
    tautology : (b : Bool) → (not b || b) ≡ true
    tautology true = refl
    tautology false = refl
on_signal-IsTracked n s sigterm v = record {
  size = v.size;
  inside = v.inside;
  pipes = v.pipes;
  stopped = v.stopped;
}
on_signal-IsTracked n s other_signal v = v

on_signals-IsTracked :
    (n : ℕ) (s : Parent) (xs : List Signal) → IsTracked n s → IsTracked n (on_signals s xs)
unfolding on_signals
on_signals-IsTracked n s [] v = v
on_signals-IsTracked n s (x ∷ xs) v =
    on_signals-IsTracked n (on_signal s x) xs (on_signal-IsTracked n s x v)

on_connection-IsTracked :
    (n : ℕ) (s : Parent)
    → IsTracked n s
    → (s1 : Parent) × (left : Bool) × (on_connection s ≡ ok (s1, left)) × IsTracked n s1
on_connection-IsTracked n s v =
    let w : IsPool s = record { inside = omega (arith, v.inside, v.size) } in
    let (s1, left, run, cases) = on_connection-cases s w in
    elim cases [
      | inl (m, pid, few, at, gone, goes_on, next) ↦ (
        s1,
        left,
        run,
        subst (IsTracked n) (sym next) (record {
          size = v.size;
          inside =
              subst (λ x. (round_from s.m_pids s.sub_process_counter m + 1) % length s.m_pids < x)
                v.size
                (mod-lt (round_from s.m_pids s.sub_process_counter m + 1)
                  (omega (arith, w.inside)));
          pipes = v.pipes;
          stopped = v.stopped;
        }),
      )
      | inr (gone, stops, next) ↦ (
        s1,
        left,
        run,
        subst (IsTracked n) (sym next)
            (record { size = v.size; inside = v.inside; pipes = v.pipes; stopped = gone }),
      )
    ]

on_events-IsTracked :
    (n : ℕ) (s : Parent) (es : List Event)
    → IsTracked n s
    → (s1 : Parent) × (on_events s es ≡ ok s1) × IsTracked n s1
unfolding on_events
on_events-IsTracked n s [] v = (s, refl, v)
on_events-IsTracked n s (connection ∷ es) v =
    let (s1, left, run, w) = on_connection-IsTracked n s v in
    let (s2, run2, u) = on_events-IsTracked n s1 es w in
    elim (Bool-cases left) [ inl a ↦ (s1, rw (run, a) refl, w) | inr a ↦ (s2, rw (run, a) run2, u) ]
on_events-IsTracked n s (signals xs ∷ es) v =
    on_events-IsTracked n (on_signals s xs) es (on_signals-IsTracked n s xs v)
on_events-IsTracked n s (other_event ∷ es) v = on_events-IsTracked n s es v

run_parent-IsTracked :
    (n : ℕ) (s : Parent) (rounds : List (List Event))
    → IsTracked n s
    → (s1 : Parent) × (run_parent s rounds ≡ ok s1) × IsTracked n s1
unfolding run_parent
run_parent-IsTracked n s [] v = (s, refl, v)
run_parent-IsTracked n s (es ∷ rounds) v =
    let (s1, run, w) = on_events-IsTracked n s es v in
    let (s2, run2, u) = run_parent-IsTracked n s1 rounds w in
    let test : (c : Bool)
        → s.m_stop ≡ c
        → run_parent s (es ∷ rounds)
          ≡ (if c then ok s else (on_events s es >>= λ t. run_parent t rounds)) =
      λ c a. ap (λ c. if c then ok s else (on_events s es >>= λ t. run_parent t rounds)) a in
    elim (Bool-cases s.m_stop) [
      | inl a ↦ (s, test true a, v)
      | inr a ↦ (s2, test false a ∙ ap (λ x. x >>= λ t. run_parent t rounds) run ∙ run2, u)
    ]

-- When every fork returns a process, for a number of processes from 1 to 16, the constructor gives the
-- parent a pool of that many running children and the index -1, and run_parent over any events never
-- faults and terminates. Afterwards it has as many children and a counter among them; it has closed the
-- pipe of each child that is gone once and of no other; and when it stopped, all children are gone.
pub run_parent-processpool :
    (fork : ℕ → Fork) (n : ℕ) (rounds : List (List Event))
    → (ltb 0 n && leb n max_process_number) ≡ true
    → all_parents fork n 0 ≡ true
    → (b : Built) × (s : Parent) × (processpool fork n ≡ ok b)
      × (b.m_idx ≡ none)
      × (run_parent (parent_new b.m_pids) rounds ≡ ok s)
      × IsTracked n s
unfolding processpool parent_new
run_parent-processpool fork n rounds h f =
    let (b, built, idx, alive, size) =
      spawn-Spawned fork n [] (record { m_idx = none; m_pids = replicate n none; closed = [] }) f
        refl refl in
    let many : length b.m_pids ≡ n = omega (arith, size) in
    let (s, run, tracked) = run_parent-IsTracked n (parent_new b.m_pids) rounds (record {
      size = many;
      inside = ground arith;
      pipes = λ i. sym (ap (λ x. if x then 1 else 0) (runs b.m_pids i alive));
      stopped = refl;
    }) in
    (b, s, rw h built, idx, run, tracked)
