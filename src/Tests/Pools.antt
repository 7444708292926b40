-- ===== src/Tests/Pools.antt =====
-- Runs of the thread pool: a task is added and worker 0 takes it; a task for which there is no node.
use sweet_clib.Prelude.{ℕ, ◌≡◌, refl, true, false, not, ◌&&◌, some, ◌++◌, ◌==◌, length}
use sweet_clib.ThreadPool.{
  Pool, testing, threadpool_init, goes, peek, must_wait, tested, checked, took,
  threadpool_add_worker, lock, test, check, take, add, Reachable, start, next, holds,
  assertion_fails,
}
use sweet_clib.ThreadPool.Safety.{threadpool-Safe}

abbrev with_task : Pool ℕ
with_task = threadpool_add_worker true threadpool_init 5

abbrev taken_task : Pool ℕ
taken_task = took (checked (tested (goes with_task 0 testing (some 0)) 0) 0) 0 (some 5)

taken_task-Reachable : Reachable true taken_task
unfolding threadpool_init goes peek must_wait tested checked took threadpool_add_worker
taken_task-Reachable =
    next
      (next (next (next (next start (add 5 refl)) (lock 0 refl refl)) (test 0 refl)) (check 0 refl))
      (take 0 refl)

threadpool-Safe_example :
    (taken_task.cur_queue_size ≡ length taken_task.work_queue)
    × (taken_task.added ≡ taken_task.taken ++ taken_task.work_queue)
    × ((i : ℕ) → assertion_fails taken_task i ≡ false)
    × ((i j : ℕ)
        → (holds (taken_task.phase i) && holds (taken_task.phase j) && not (i == j)) ≡ false)
threadpool-Safe_example = threadpool-Safe taken_task taken_task-Reachable

-- Where queue_enqueue has no memory, the count goes up all the same, and the second assertion fails.
abbrev uncounted : Pool ℕ
uncounted =
    checked (tested (goes (threadpool_add_worker false threadpool_init 5) 0 testing (some 0)) 0) 0

uncounted-Reachable : Reachable false uncounted
unfolding threadpool_init goes must_wait tested checked threadpool_add_worker
uncounted-Reachable =
    next (next (next (next start (add 5 refl)) (lock 0 refl refl)) (test 0 refl)) (check 0 refl)

uncounted_fails : assertion_fails uncounted 0 ≡ true
unfolding threadpool_init goes must_wait tested checked threadpool_add_worker assertion_fails peek
uncounted_fails = refl
