-- ===== src/Pool/Executor/Refined.antt =====
-- The threads of src/thread_pool.hpp implement the executor.
use mathlib.Core.Quot
use mathlib.Core.List.{perm_middle}
use apiserver_asymetric_encr.Base.{
  Bool-cases, length, replicate, length-append, ℕ, zero, suc, ◌<◌, ◌≡◌, refl, sym, ap, ◌∙◌, subst,
  ◌⊎◌, inl, inr, List, [], ◌∷◌, ◌++◌, arith,
}
use apiserver_asymetric_encr.Pool.{new_queue}
use apiserver_asymetric_encr.Pool.Workers.{
  Worker, waiting, executing, finished, ThreadPool, new_pool, start, stop_pool, count_up,
  count_down, Step, starts, begins_push, ends_push, fails_push, takes, finishes, retires,
  stops_pool, Reachable, created, stepped,
}
use apiserver_asymetric_encr.Pool.Workers.Unfinished.Counted.{
  running, IsCounted, running-append, running-le-length, stop_pool_again, stop_pool_first,
  Reachable-IsCounted,
}
use apiserver_asymetric_encr.Pool.Executor.{
  Executor, Moves, accepts, begins, ends, Runs, idle, moved,
}
use apiserver_asymetric_encr.Pool.Executor.Bags.{Bag, bag_size, put}
use apiserver_asymetric_encr.Pool.Fifo.{push_room, pop_item}

-- What the workers run.
abbrev tasks_of : {A : Type 0} → List (Worker A) → List A
tasks_of [] = []
tasks_of (waiting ∷ ws) = tasks_of ws
tasks_of (executing a ∷ ws) = a ∷ tasks_of ws
tasks_of (finished ∷ ws) = tasks_of ws

abbrev pub executor_of : {A : Type 0} → ThreadPool A → Executor A
executor_of p = record { accepted = p.global_queue.queue; active = Quot.mk (tasks_of p.threads) }

tasks_of-append :
    {A : Type 0} (ws vs : List (Worker A)) → tasks_of (ws ++ vs) ≡ tasks_of ws ++ tasks_of vs
tasks_of-append [] vs = refl
tasks_of-append (waiting ∷ ws) vs = tasks_of-append ws vs
tasks_of-append (executing a ∷ ws) vs = ap (◌∷◌ a) (tasks_of-append ws vs)
tasks_of-append (finished ∷ ws) vs = tasks_of-append ws vs

tasks_of-replicate : (A : Type 0) (n : ℕ) → tasks_of {A = A} (replicate n waiting) ≡ []
tasks_of-replicate A zero = refl
tasks_of-replicate A (suc n) = tasks_of-replicate A n

length-tasks_of : {A : Type 0} (ws : List (Worker A)) → length (tasks_of ws) ≡ running ws
length-tasks_of [] = refl
length-tasks_of (waiting ∷ ws) = omega (arith, length-tasks_of ws)
length-tasks_of (executing a ∷ ws) = omega (arith, length-tasks_of ws)
length-tasks_of (finished ∷ ws) = omega (arith, length-tasks_of ws)

module _ {A : Type 0} where
  -- A worker that runs nothing does not show; one that runs a task puts it into the bag.
  idle_worker :
      (w : Worker A) (before after : List (Worker A))
      → tasks_of (w ∷ []) ≡ []
      → tasks_of (before ++ w ∷ after) ≡ tasks_of before ++ tasks_of after
  idle_worker w before after h =
      tasks_of-append before (w ∷ after)
      ∙ ap (λ l. tasks_of before ++ l)
          (tasks_of-append (w ∷ []) after ∙ ap (λ l. l ++ tasks_of after) h)

  busy_worker :
      (a : A) (before after : List (Worker A))
      → ◌≡◌ {A = Bag A}
          (Quot.mk (tasks_of (before ++ executing a ∷ after)))
          (put a (Quot.mk (tasks_of before ++ tasks_of after)))
  unfolding put
  busy_worker a before after =
      ap Quot.mk (tasks_of-append before (executing a ∷ after))
      ∙ Quot.sound (perm_middle (tasks_of before) (tasks_of after))

  same_view :
      (p q : ThreadPool A)
      → q.global_queue.queue ≡ p.global_queue.queue
      → tasks_of q.threads ≡ tasks_of p.threads
      → executor_of q ≡ executor_of p
  same_view p q e f i = record { accepted = e i; active = Quot.mk (f i) }

  stopped_view : (p : ThreadPool A) → executor_of (stop_pool p) ≡ executor_of p
  stopped_view p = elim (Bool-cases p.stopped) [
    | inl again ↦ ap executor_of (stop_pool_again p again)
    | inr first ↦ ap executor_of (stop_pool_first p first)
  ]

  -- A step of a thread is a move of the executor, or is not seen.
  Step-Moves :
      {n c : ℕ} {p q : ThreadPool A}
      → Step p q
      → IsCounted n c p
      → (executor_of q ≡ executor_of p) ⊎ Moves n c (executor_of p) (executor_of q)
  unfolding start count_up count_down bag_size
  Step-Moves {n} {c} (starts p e) v =
      inl (same_view p (start p) refl (tasks_of-replicate A p.num_threads ∙ sym (ap tasks_of e)))
  Step-Moves (begins_push p a) v = inl refl
  Step-Moves {n} {c} (ends_push p before after a q e f) v =
      let (same_queue, room) = push_room a p.global_queue q f in
      inr (
        subst
          (λ l.
            Moves n c (executor_of p)
              (record { accepted = l; active = Quot.mk (tasks_of p.threads) }))
          (ap (λ r. r.queue) (sym same_queue))
          (accepts (executor_of p) a
            (subst (λ k. 0 < k → length p.global_queue.queue < k) v.bound room)))
  Step-Moves (fails_push p before after a e f) v = inl refl
  Step-Moves {n} {c} (takes p before after a q e f) v =
      let (front, same_queue) = pop_item p.global_queue q a f in
      let ran = ap tasks_of e ∙ idle_worker waiting before after refl in
      inr (
        subst (λ b. Moves n c (executor_of p) (record { accepted = q.queue; active = b }))
          (ap (λ l. put a (Quot.mk l)) ran ∙ sym (busy_worker a before after))
          (begins (executor_of p) a q.queue front (
            omega (
              arith,
              length-tasks_of p.threads,
              ap running e,
              ap length e,
              running-append before (waiting ∷ after),
              length-append before (waiting ∷ after),
              running-le-length before,
              running-le-length after,
              v.threads,
            ))))
  Step-Moves {n} {c} (finishes p before after a e) v = inr (
      subst
        (λ l.
          Moves n c (executor_of p)
            (record { accepted = p.global_queue.queue; active = Quot.mk l }))
        (sym (idle_worker waiting before after refl))
        (ends (executor_of p) a (Quot.mk (tasks_of before ++ tasks_of after))
          (ap (λ ws. Quot.mk (tasks_of ws)) e ∙ busy_worker a before after)))
  Step-Moves {n} {c} (retires p before after e f) v = inl (
      same_view p (record p { threads = before ++ finished ∷ after }) refl
        (idle_worker finished before after refl
          ∙ sym (idle_worker waiting before after refl)
          ∙ sym (ap tasks_of e)))
  Step-Moves (stops_pool p) v = inl (stopped_view p)

  -- However the threads interleave: what the pool shows, the queue in order and the bag of the
  -- tasks that run, is a run of the executor: tasks are accepted only within the capacity, start in
  -- the order in which they were accepted, never more at a time than there are threads, and end
  -- only after they started.
  pub Reachable-Runs : {n c : ℕ} {p : ThreadPool A} → Reachable n c p → Runs n c (executor_of p)
  unfolding new_pool new_queue
  Reachable-Runs created = idle
  Reachable-Runs {n} {c} (stepped r s) = elim (Step-Moves s (Reachable-IsCounted r)) [
    | inl unseen ↦ subst (Runs n c) (sym unseen) (Reachable-Runs r)
    | inr move ↦ moved (Reachable-Runs r) move
  ]
