-- ===== src/ThreadPool.antt =====
-- lib/threadpool/threadpool.c and threadpool.h: the pool as a step relation, up to the broadcast of
-- threadpool_destroy. A worker is at one of
-- the points of threadpool_handle between which the other threads can run; the queue is that of
-- Queue seen as a sequence. The calls of pthread are the parameter-free rules of a mutex and of a
-- condition: a lock is taken when it is free, a wait gives it up, and a waiting thread may wake at any
-- time, as POSIX allows, whether signalled or not.
pub mod Safety
use sweet_clib.Prelude.{
  ℕ, zero, suc, ◌+◌, ◌-◌, ◌<◌, ◌≡◌, Bool, true, false, not, ◌&&◌, ◌||◌, Option, none, some, List,
  [], ◌∷◌, ◌++◌, if◌then◌else◌, ◌==◌,
}
use sweet_clib.Linked.View.{ins_next, rem_next}
use sweet_clib.Queue.{last_position}

-- Where a worker stands in threadpool_handle.
pub data Phase {ℓ} (T : Type ℓ) : Type ℓ where
  at_lock : Phase T
  testing : Phase T
  going_to_wait : Phase T
  waiting : Phase T
  woken : Phase T
  past_loop : Phase T
  taking : Phase T
  working : T → Phase T
  exited : Phase T

-- threadpool, with the owner of queue_lock, the workers, and the tasks added and taken so far, in order.
pub record Pool {ℓ} (T : Type ℓ) : Type ℓ where
  pub work_queue : List T
  pub cur_queue_size : ℕ
  pub shutdown : Bool
  pub owner : Option ℕ
  pub phase : ℕ → Phase T
  pub added : List T
  pub taken : List T

module _ {ℓ} {T : Type ℓ} where
  -- threadpool_init
  unfoldable pub threadpool_init : Pool T
  threadpool_init = record {
    work_queue = [];
    cur_queue_size = 0;
    shutdown = false;
    owner = none;
    phase = λ i. at_lock;
    added = [];
    taken = [];
  }

  -- Worker `i` goes on to `p`, leaving the lock to `o`.
  unfoldable pub goes : Pool T → ℕ → Phase T → Option ℕ → Pool T
  goes s i p o = record s { owner = o; phase = λ j. if j == i then p else s.phase j }

  -- queue_peek
  unfoldable pub peek : List T → Option T
  peek [] = none
  peek (t ∷ ts) = some t

  -- `pool->cur_queue_size == 0 && !pool->shutdown`
  unfoldable pub must_wait : Pool T → Bool
  must_wait s = s.cur_queue_size == 0 && not s.shutdown

  -- The test of the loop of threadpool_handle.
  unfoldable pub tested : Pool T → ℕ → Pool T
  tested s i = goes s i (if must_wait s then going_to_wait else past_loop) (some i)

  -- `if (pool->shutdown)`: the lock is released before pthread_exit.
  unfoldable pub checked : Pool T → ℕ → Pool T
  checked s i = if s.shutdown then goes s i exited none else goes s i taking (some i)

  -- The worker takes what queue_peek finds, and queue_dequeue removes it; where it finds NULL the
  -- assertions before have failed.
  unfoldable pub took : Pool T → ℕ → Option T → Pool T
  took s i none = s
  took s i (some t) =
      goes
        (record s {
          work_queue = (rem_next s.work_queue none).2;
          cur_queue_size = s.cur_queue_size - 1;
          taken = s.taken ++ t ∷ [];
        })
        i (working t) none

  -- The critical section of threadpool_add_worker, where `alloc` says whether queue_enqueue has memory
  -- for its node; what it returns is ignored.
  unfoldable pub threadpool_add_worker : Bool → Pool T → T → Pool T
  threadpool_add_worker alloc s t = record s {
    work_queue = (ins_next alloc s.work_queue (last_position s.work_queue) t).1;
    cur_queue_size = s.cur_queue_size + 1;
    added = s.added ++ t ∷ [];
  }

  -- A step of one of the threads. threadpool_destroy sets `shutdown` without the lock; what it does behind
  -- its broadcast, the joins and the loop that takes what is queued, is left out.
  pub data Step (alloc : Bool) (s : Pool T) : Pool T → Type ℓ where
    lock : (i : ℕ) → s.phase i ≡ at_lock → s.owner ≡ none → Step alloc s (goes s i testing (some i))
    test : (i : ℕ) → s.phase i ≡ testing → Step alloc s (tested s i)
    wait : (i : ℕ) → s.phase i ≡ going_to_wait → Step alloc s (goes s i waiting none)
    wake : (i : ℕ) → s.phase i ≡ waiting → Step alloc s (goes s i woken s.owner)
    relock : (i : ℕ) → s.phase i ≡ woken → s.owner ≡ none → Step alloc s (goes s i testing (some i))
    check : (i : ℕ) → s.phase i ≡ past_loop → Step alloc s (checked s i)
    take : (i : ℕ) → s.phase i ≡ taking → Step alloc s (took s i (peek s.work_queue))
    finish : (i : ℕ) (t : T) → s.phase i ≡ working t → Step alloc s (goes s i at_lock s.owner)
    add : (t : T) → s.owner ≡ none → Step alloc s (threadpool_add_worker alloc s t)
    shut : s.shutdown ≡ false → Step alloc s (record s { shutdown = true })

  pub data Reachable (alloc : Bool) : Pool T → Type ℓ where
    start : Reachable alloc threadpool_init
    next : {s t : Pool T} → Reachable alloc s → Step alloc s t → Reachable alloc t

  -- The worker holds the lock.
  abbrev pub holds : Phase T → Bool
  holds testing = true
  holds going_to_wait = true
  holds past_loop = true
  holds taking = true
  holds _ = false

  abbrev pub is_taking : Phase T → Bool
  is_taking taking = true
  is_taking _ = false

  abbrev pub is_none : Option T → Bool
  is_none none = true
  is_none (some t) = false

  -- Worker `i` is at the two assertions, and one of them fails.
  unfoldable pub assertion_fails : Pool T → ℕ → Bool
  assertion_fails s i =
      is_taking (s.phase i) && (s.cur_queue_size == 0 || is_none (peek s.work_queue))
