-- ===== src/Pool/Workers/Unfinished.antt =====
-- `get_unfinished_tasks` counts the tasks that are being pushed, wait or run.
pub mod Counted
use apiserver_asymetric_encr.Base.{
  length, size_mod, ℕ, ◌%◌, ◌≤◌, ◌<◌, ◌≡◌, refl, List, [], ◌∷◌, arith,
}
use apiserver_asymetric_encr.Pool.Workers.{ThreadPool, Reachable}
use apiserver_asymetric_encr.Pool.Workers.Unfinished.Counted.{
  running, load, running-le-length, Reachable-IsCounted,
}

-- However the threads interleave: the count of unfinished tasks is the number of tasks that are
-- being pushed, wait or run, in 64-bit arithmetic; no more tasks run than there are threads; and a
-- queue with a capacity never holds more than it.
pub unfinished_tasks_lem :
    {A : Type 0} {n c : ℕ} {p : ThreadPool A}
    → Reachable n c p
    → (p.unfinished_tasks ≡ load p % size_mod)
      × (running p.threads ≤ n)
      × (0 < c → length p.global_queue.queue ≤ c)
unfinished_tasks_lem {A} {n} {c} {p} r =
    let v = Reachable-IsCounted r in
    (v.counted, omega (arith, running-le-length p.threads, v.threads), v.room)

-- However the threads interleave: when the count of unfinished tasks is zero, and fewer than 2 ^ 64
-- tasks are about, no task is being pushed, waits or runs, so a shutdown that waits for the count
-- loses no task.
pub unfinished_tasks_zero :
    {A : Type 0} {n c : ℕ} {p : ThreadPool A}
    → Reachable n c p
    → load p < size_mod
    → p.unfinished_tasks ≡ 0
    → (p.pushing ≡ []) × (p.global_queue.queue ≡ []) × (running p.threads ≡ 0)
unfinished_tasks_zero {A} {n} {c} {p} r small none_left =
    let empty : load p ≡ 0 = omega (arith, (Reachable-IsCounted r).counted, none_left) in
    (nil_of p.pushing (omega arith), nil_of p.global_queue.queue (omega arith), omega arith)
  where
    nil_of : (xs : List A) → length xs ≡ 0 → xs ≡ []
    nil_of [] h = refl
    nil_of (x ∷ xs) h = absurd (omega arith)
