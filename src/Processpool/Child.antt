-- ===== src/Processpool/Child.antt =====
-- lib/processpool/processpool.h, run_child: the loop of a child process. The object of a connection and
-- its init and process are arguments, as the type T and its functions are in the template; so is what
-- recv, accept and waitpid report. The array of objects is a function of the descriptor.
pub mod Events
pub mod Turns
use sweet_clib.Prelude.{
  ℕ, ◌+◌, Bool, true, false, Option, none, some, List, [], ◌∷◌, ◌++◌, if◌then◌else◌, ltb, ◌==◌,
}
use sweet_clib.Linked.{Run, ok, fault, ◌>>=◌}
use sweet_clib.Processpool.{Signal, sigchld, sigterm, other_signal}

-- USER_PER_PROCESS
abbrev pub user_per_process : ℕ
user_per_process = 65535

-- An event of epoll_wait: the pipe from the parent, with whether recv gives a number or would wait and
-- with what accept returns; the pipe of the signals with what recv read (nothing when it failed); another
-- descriptor that can be read; or another event.
pub data ChildEvent : Type 0 where
  notice : Bool → Option ℕ → ChildEvent
  child_signals : List Signal → ChildEvent
  request : ℕ → ChildEvent
  unread : ChildEvent

-- The switch over the signals; the loop over waitpid changes nothing here.
pub stop_signal : Bool → List Signal → Bool
stop_signal m_stop [] = m_stop
stop_signal m_stop (sigchld pids ∷ xs) = stop_signal m_stop xs
stop_signal m_stop (sigterm ∷ xs) = stop_signal true xs
stop_signal m_stop (other_signal ∷ xs) = stop_signal m_stop xs

module _ {U : Type 0} (init : ℕ → U → U) (process : U → U) where
  -- m_stop, the objects, and the descriptors of connections that were added to epoll.
  pub record Child : Type 0 where
    pub m_stop : Bool
    pub users : ℕ → U
    pub added : List ℕ

  abbrev pub put : (ℕ → U) → ℕ → U → ℕ → U
  put users fd u q = if q == fd then u else users q

  -- The part for the pipe; an object behind the end of the array is a fault.
  pub on_notice : Child → Bool → Option ℕ → Run Child
  on_notice c false client = ok c
  on_notice c true none = ok c
  on_notice c true (some connfd) =
      if ltb connfd user_per_process
      then ok (record c {
        added = c.added ++ connfd ∷ [];
        users = put c.users connfd (init connfd (c.users connfd));
      })
      else fault

  -- The part for a client that sends.
  pub on_client : Child → ℕ → Run Child
  on_client c sockfd =
      if ltb sockfd user_per_process
      then ok (record c { users = put c.users sockfd (process (c.users sockfd)) })
      else fault

  pub on_child_event : Child → ChildEvent → Run Child
  on_child_event c (notice got client) = on_notice c got client
  on_child_event c (child_signals xs) = ok (record c { m_stop = stop_signal c.m_stop xs })
  on_child_event c (request sockfd) = on_client c sockfd
  on_child_event c unread = ok c

  -- The loop over the events.
  pub on_child_events : Child → List ChildEvent → Run Child
  on_child_events c [] = ok c
  on_child_events c (e ∷ es) = on_child_event c e >>= λ c1. on_child_events c1 es

  -- The loop over the rounds that happen; at their end it still waits, unless it stopped or
  -- epoll_wait failed.
  pub run_child : Child → List (List ChildEvent) → Run Child
  run_child c [] = ok c
  run_child c (es ∷ rounds) =
      if c.m_stop then ok c else (on_child_events c es >>= λ c1. run_child c1 rounds)
