-- ===== src/Tests/Queues.antt =====
-- The theorems on the queues, the thread pool and the connections, at small histories.
use apiserver_asymetric_encr.Base.{
  length, size_mod, ℕ, ◌%◌, ◌≤◌, ◌<◌, ◌≡◌, refl, false, [], ◌∷◌, arith,
}
use apiserver_asymetric_encr.Pool.{new_queue, push, pop_from, wait_and_pop}
use apiserver_asymetric_encr.Pool.Workers.{
  waiting, executing, ThreadPool, new_pool, start, count_up, starts, begins_push, ends_push, takes,
  Reachable, created, stepped,
}
use apiserver_asymetric_encr.Pool.Workers.Unfinished.{unfinished_tasks_lem, unfinished_tasks_zero}
use apiserver_asymetric_encr.Pool.Workers.Unfinished.Counted.{running, load}
use apiserver_asymetric_encr.Pool.Executor.{Runs}
use apiserver_asymetric_encr.Pool.Executor.Refined.{executor_of, Reachable-Runs}

abbrev started : ThreadPool ℕ
started = start (new_pool 2 1)

started-Reachable : Reachable 2 1 started
unfolding new_pool
started-Reachable = stepped created (starts (new_pool 2 1) refl)

pushing-Reachable : Reachable 2 1 (count_up (record started { pushing = 5 ∷ started.pushing }))
pushing-Reachable = stepped started-Reachable (begins_push started 5)

unfinished_tasks_lem_example :
    ((count_up (record started { pushing = 5 ∷ started.pushing })).unfinished_tasks
      ≡ load (count_up (record started { pushing = 5 ∷ started.pushing })) % size_mod)
    × (running (count_up (record started { pushing = 5 ∷ started.pushing })).threads ≤ 2)
    × (0 < 1
        → length (count_up (record started { pushing = 5 ∷ started.pushing })).global_queue.queue
          ≤ 1)
unfinished_tasks_lem_example = unfinished_tasks_lem pushing-Reachable

started-small : load started < size_mod
unfolding start new_pool new_queue
started-small = omega arith

started-none : started.unfinished_tasks ≡ 0
unfolding start new_pool
started-none = refl

unfinished_tasks_zero_example :
    (started.pushing ≡ []) × (started.global_queue.queue ≡ []) × (running started.threads ≡ 0)
unfinished_tasks_zero_example = unfinished_tasks_zero started-Reachable started-small started-none

-- A task has been pushed and a worker has taken it.
abbrev pushed : ThreadPool ℕ
pushed = record (count_up (record started { pushing = 5 ∷ [] })) {
  pushing = [];
  global_queue = record { queue = 5 ∷ []; stopped = false; capacity = 1 };
}

pushed-Reachable : Reachable 2 1 pushed
unfolding new_pool start new_queue push count_up
pushed-Reachable = stepped pushing-Reachable (ends_push _ [] [] 5 _ refl refl)

abbrev taken : ThreadPool ℕ
taken = record pushed {
  threads = executing 5 ∷ waiting ∷ [];
  global_queue = record { queue = []; stopped = false; capacity = 1 };
}

taken-Reachable : Reachable 2 1 taken
unfolding start new_pool wait_and_pop pop_from count_up
taken-Reachable = stepped pushed-Reachable (takes _ [] (waiting ∷ []) 5 _ refl refl)

Reachable-Runs_example : Runs 2 1 (executor_of taken)
Reachable-Runs_example = Reachable-Runs taken-Reachable
