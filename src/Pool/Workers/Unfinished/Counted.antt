-- ===== src/Pool/Workers/Unfinished/Counted.antt =====
-- The count of unfinished tasks of src/thread_pool.hpp, along the steps of the pool.
use apiserver_asymetric_encr.Base.{
  Bool-cases, length, replicate, length-append, length-replicate, size_mod, ℕ, zero, suc, ◌+◌, ◌%◌,
  ◌≤◌, ◌<◌, ◌≡◌, refl, sym, ap, ◌∙◌, subst, inl, inr, true, false, List, [], ◌∷◌, ◌++◌, arith,
}
use apiserver_asymetric_encr.Pool.{SharedQueue, new_queue, stop}
use apiserver_asymetric_encr.Pool.Workers.{
  Worker, waiting, executing, finished, ThreadPool, new_pool, start, stop_pool, count_up,
  count_down, Step, starts, begins_push, ends_push, fails_push, takes, finishes, retires,
  stops_pool, Reachable, created, stepped,
}
use apiserver_asymetric_encr.Pool.Fifo.{push_room, pop_item}

abbrev pub busy : {A : Type 0} → Worker A → ℕ
busy waiting = 0
busy (executing a) = 1
busy finished = 0

-- The number of tasks that run.
abbrev pub running : {A : Type 0} → List (Worker A) → ℕ
running [] = 0
running (w ∷ ws) = busy w + running ws

abbrev pub load : {A : Type 0} → ThreadPool A → ℕ
load p = length p.pushing + length p.global_queue.queue + running p.threads

pub record IsCounted {A : Type 0} (n c : ℕ) (p : ThreadPool A) : Type 0 where
  pub counted : p.unfinished_tasks ≡ load p % size_mod
  pub threads : length p.threads ≤ n
  pub num_threads : p.num_threads ≡ n
  pub bound : p.global_queue.capacity ≡ c
  pub room : 0 < c → length p.global_queue.queue ≤ c

pub running-append :
    {A : Type 0} (ws vs : List (Worker A)) → running (ws ++ vs) ≡ running ws + running vs
running-append [] vs = omega arith
running-append (w ∷ ws) vs = omega (arith, running-append ws vs)

running-replicate : (A : Type 0) (n : ℕ) → running {A = A} (replicate n waiting) ≡ 0
running-replicate A zero = refl
running-replicate A (suc n) = omega (arith, running-replicate A n)

pub running-le-length : {A : Type 0} (ws : List (Worker A)) → running ws ≤ length ws
running-le-length [] = omega arith
running-le-length (waiting ∷ ws) = omega (arith, running-le-length ws)
running-le-length (executing a ∷ ws) = omega (arith, running-le-length ws)
running-le-length (finished ∷ ws) = omega (arith, running-le-length ws)

pub stop_pool_again : {A : Type 0} (p : ThreadPool A) → p.stopped ≡ true → stop_pool p ≡ p
unfolding stop_pool
stop_pool_again p h = ground arith

pub stop_pool_first :
    {A : Type 0} (p : ThreadPool A)
    → p.stopped ≡ false
    → stop_pool p
      ≡ record p { stopped = true; global_queue = record p.global_queue { stopped = true } }
unfolding stop_pool stop
stop_pool_first p h = ground arith

stop_pool-IsCounted :
    {A : Type 0} {n c : ℕ} (p : ThreadPool A) → IsCounted n c p → IsCounted n c (stop_pool p)
stop_pool-IsCounted {A} {n} {c} p v = elim (Bool-cases p.stopped) [
  | inl again ↦ subst (IsCounted n c) (sym (stop_pool_again p again)) v
  | inr first ↦ subst (IsCounted n c) (sym (stop_pool_first p first)) (record {
    counted = v.counted;
    threads = v.threads;
    num_threads = v.num_threads;
    bound = v.bound;
    room = v.room;
  })
]

Step-IsCounted :
    {A : Type 0} {n c : ℕ} {p q : ThreadPool A} → Step p q → IsCounted n c p → IsCounted n c q
unfolding start count_up count_down
Step-IsCounted {A} {n} {c} (starts p e) v = record {
  counted =
      v.counted
      ∙ ap (λ k. k % size_mod) (omega (arith, ap running e, running-replicate A p.num_threads));
  threads =
      omega (arith, let w : Worker A = waiting in length-replicate p.num_threads w, v.num_threads);
  num_threads = v.num_threads;
  bound = v.bound;
  room = v.room;
}
Step-IsCounted {A} {n} {c} (begins_push p a) v = record {
  counted = omega (arith, v.counted);
  threads = v.threads;
  num_threads = v.num_threads;
  bound = v.bound;
  room = v.room;
}
Step-IsCounted {A} {n} {c} (ends_push p before after a q e f) v =
    let (same_queue, room) = push_room a p.global_queue q f in
    rw same_queue (record {
      counted =
          v.counted
          ∙ ap (λ k. k % size_mod)
              (omega (
                arith,
                ap length e,
                length-append before after,
                length-append before (a ∷ after),
                length-append p.global_queue.queue (a ∷ []),
              ));
      threads = v.threads;
      num_threads = v.num_threads;
      bound = v.bound;
      room = λ h. omega (
        arith,
        length-append p.global_queue.queue (a ∷ []),
        v.bound,
        room (subst (λ k. 0 < k) (sym v.bound) h),
      );
    })
Step-IsCounted {A} {n} {c} (fails_push p before after a e f) v = record {
  counted =
      omega (
        arith,
        v.counted,
        ap length e,
        length-append before after,
        length-append before (a ∷ after),
      );
  threads = v.threads;
  num_threads = v.num_threads;
  bound = v.bound;
  room = v.room;
}
Step-IsCounted {A} {n} {c} (takes p before after a q e f) v =
    let (front, same_queue) = pop_item p.global_queue q a f in
    record {
      counted =
          v.counted
          ∙ ap (λ k. k % size_mod)
              (omega (
                arith,
                ap length front,
                ap running e,
                running-append before (waiting ∷ after),
                running-append before (executing a ∷ after),
              ));
      threads = omega (
        arith,
        v.threads,
        ap length e,
        length-append before (waiting ∷ after),
        length-append before (executing a ∷ after),
      );
      num_threads = v.num_threads;
      bound = ap (λ (r : SharedQueue A). r.capacity) same_queue ∙ v.bound;
      room = λ h. omega (arith, ap length front, v.room h);
    }
Step-IsCounted {A} {n} {c} (finishes p before after a e) v = record {
  counted = omega (
    arith,
    v.counted,
    ap running e,
    running-append before (waiting ∷ after),
    running-append before (executing a ∷ after),
  );
  threads = omega (
    arith,
    v.threads,
    ap length e,
    length-append before (waiting ∷ after),
    length-append before (executing a ∷ after),
  );
  num_threads = v.num_threads;
  bound = v.bound;
  room = v.room;
}
Step-IsCounted {A} {n} {c} (retires p before after e f) v = record {
  counted =
      v.counted
      ∙ ap (λ k. k % size_mod)
          (omega (
            arith,
            ap running e,
            running-append before (waiting ∷ after),
            running-append before (finished ∷ after),
          ));
  threads = omega (
    arith,
    v.threads,
    ap length e,
    length-append before (waiting ∷ after),
    length-append before (finished ∷ after),
  );
  num_threads = v.num_threads;
  bound = v.bound;
  room = v.room;
}
Step-IsCounted {A} {n} {c} (stops_pool p) v = stop_pool-IsCounted p v

pub Reachable-IsCounted :
    {A : Type 0} {n c : ℕ} {p : ThreadPool A} → Reachable n c p → IsCounted n c p
unfolding new_pool new_queue
Reachable-IsCounted created = record {
  counted = omega arith;
  threads = omega arith;
  num_threads = refl;
  bound = refl;
  room = λ _. omega arith;
}
Reachable-IsCounted (stepped r s) = Step-IsCounted s (Reachable-IsCounted r)
