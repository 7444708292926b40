-- ===== src/Processpool.antt =====
-- lib/processpool/processpool.h: the constructor of the pool and the loop of the parent process. What
-- fork, socketpair, epoll_wait, recv and waitpid report are arguments; what goes out through a pipe, the
-- pipes that are closed and the processes that are killed are lists in order.
pub mod Robin
pub mod Fair
pub mod Spawned
pub mod Tracked
pub mod Child
use sweet_clib.Prelude.{
  ℕ, zero, suc, ◌+◌, ◌%◌, Bool, true, false, not, ◌&&◌, Option, none, some, List, [], ◌∷◌, ◌++◌,
  if◌then◌else◌, ltb, leb, ◌==◌, length, get_elem?, set, replicate,
}
use sweet_clib.Linked.{Run, ok, fault, out_of_fuel, ◌>>=◌}

-- What fork returns: an error, 0 in the child, or the process of the child in the parent.
pub data Fork : Type 0 where
  fork_fails : Fork
  in_child : Fork
  in_parent : ℕ → Fork

-- What the constructor leaves: m_idx, `none` for -1, the m_pid of every child, `none` for -1, and the
-- ends of pipes that it closed, as the number of the child and of the end.
pub record Built : Type 0 where
  pub m_idx : Option ℕ
  pub m_pids : List (Option ℕ)
  pub closed : List (ℕ × ℕ)

-- MAX_PROCESS_NUMBER
abbrev pub max_process_number : ℕ
max_process_number = 16

-- What the loop of the constructor does with the result of a fork, and `later` what it does after it.
pub forked : Built → ℕ → Fork → (Built → Run Built) → Run Built
forked b i fork_fails later = fault
forked b i in_child later = ok (record b {
  m_idx = some i;
  m_pids = set b.m_pids i (some 0);
  closed = b.closed ++ (i, 0) ∷ [];
})
forked b i (in_parent pid) later =
    later (record b { m_pids = set b.m_pids i (some pid); closed = b.closed ++ (i, 1) ∷ [] })

-- The loop of the constructor from child i on; socketpair is taken to succeed.
pub spawn : (ℕ → Fork) → ℕ → ℕ → Built → Run Built
spawn fork zero i b = ok b
spawn fork (suc n) i b = forked b i (fork i) λ b1. spawn fork n (i + 1) b1

-- The constructor; its assertion on process_number is a fault when it fails.
pub processpool : (ℕ → Fork) → ℕ → Run Built
processpool fork n =
    if ltb 0 n && leb n max_process_number
    then spawn fork n 0 (record { m_idx = none; m_pids = replicate n none; closed = [] })
    else fault

-- The parent: the children, the counter of run_parent, m_stop, and what it did: the children that got a
-- connection, the pipes it closed, by child, and the processes it sent SIGTERM.
pub record Parent : Type 0 where
  pub m_pids : List (Option ℕ)
  pub sub_process_counter : ℕ
  pub m_stop : Bool
  pub sent : List ℕ
  pub closed : List ℕ
  pub killed : List ℕ

-- run_parent at its start.
pub parent_new : List (Option ℕ) → Parent
parent_new pids = record {
  m_pids = pids;
  sub_process_counter = 0;
  m_stop = false;
  sent = [];
  closed = [];
  killed = [];
}

-- A round of the do-while loop that looks for a child, with what the loop does when this one is gone.
pub looked : ℕ → Option (Option ℕ) → Run ℕ → Run ℕ
looked i none later = fault
looked i (some (some pid)) later = ok i
looked i (some none) later = later

-- The do-while loop, on fuel; a read outside the array is a fault.
pub search : ℕ → List (Option ℕ) → ℕ → ℕ → Run ℕ
search zero pids c i = out_of_fuel
search (suc k) pids c i =
    let j = (i + 1) % length pids in
    let rest = search k pids c j in looked i (get_elem? pids i) (if j == c then ok j else rest)

-- What follows the loop: the parent as it goes on, and whether the loop over the events is left.
pub assign : Parent → ℕ → Option (Option ℕ) → Run (Parent × Bool)
assign s i none = fault
assign s i (some none) = ok (record s { m_stop = true }, true)
assign s i (some (some pid)) =
    ok
      (record s { sub_process_counter = (i + 1) % length s.m_pids; sent = s.sent ++ i ∷ [] }, false)

-- The branch for a new connection; the do-while loop looks at every child once.
pub on_connection : Parent → Run (Parent × Bool)
on_connection s =
    search (length s.m_pids) s.m_pids s.sub_process_counter s.sub_process_counter >>= λ i.
    assign s i (get_elem? s.m_pids i)

-- The m_pid is that of the process.
abbrev pub is_pid : ℕ → Option ℕ → Bool
is_pid pid none = false
is_pid pid (some q) = q == pid

-- The loop over the children for a process that was waited for, from child i on.
pub joined : ℕ → ℕ → List (Option ℕ) → List (Option ℕ) × List ℕ
joined pid i [] = ([], [])
joined pid i (o ∷ os) =
    let (rest, closed) = joined pid (i + 1) os in
    if is_pid pid o then (none ∷ rest, i ∷ closed) else (o ∷ rest, closed)

-- The loop over waitpid.
pub reap : Parent → List ℕ → Parent
reap s [] = s
reap s (pid ∷ pids) =
    let (left, closed) = joined pid 0 s.m_pids in
    reap (record s { m_pids = left; closed = s.closed ++ closed }) pids

-- All children are gone.
abbrev pub all_gone : List (Option ℕ) → Bool
all_gone [] = true
all_gone (none ∷ os) = all_gone os
all_gone (some pid ∷ os) = false

-- The processes of the children that run.
abbrev running : List (Option ℕ) → List ℕ
running [] = []
running (none ∷ os) = running os
running (some pid ∷ os) = pid ∷ running os

-- A signal from the pipe: SIGCHLD with the processes that waitpid returns, SIGTERM or SIGINT, or another.
pub data Signal : Type 0 where
  sigchld : List ℕ → Signal
  sigterm : Signal
  other_signal : Signal

pub on_signal : Parent → Signal → Parent
on_signal s (sigchld pids) = let s1 = reap s pids in record s1 { m_stop = all_gone s1.m_pids }
on_signal s sigterm = record s { killed = s.killed ++ running s.m_pids }
on_signal s other_signal = s

pub on_signals : Parent → List Signal → Parent
on_signals s [] = s
on_signals s (x ∷ xs) = on_signals (on_signal s x) xs

-- An event of epoll_wait: the listening socket, the pipe of the signals with what recv read (nothing
-- when it failed), or another.
pub data Event : Type 0 where
  connection : Event
  signals : List Signal → Event
  other_event : Event

-- The loop over the events.
pub on_events : Parent → List Event → Run Parent
on_events s [] = ok s
on_events s (connection ∷ es) =
    on_connection s >>= λ (s1, left). if left then ok s1 else on_events s1 es
on_events s (signals xs ∷ es) = on_events (on_signals s xs) es
on_events s (other_event ∷ es) = on_events s es

-- The loop of run_parent over the rounds that happen; at their end it still waits, unless it stopped.
pub run_parent : Parent → List (List Event) → Run Parent
run_parent s [] = ok s
run_parent s (es ∷ rounds) =
    if s.m_stop then ok s else (on_events s es >>= λ s1. run_parent s1 rounds)
