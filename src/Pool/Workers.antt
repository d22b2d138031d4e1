-- ===== src/Pool/Workers.antt =====
-- `thread_pool` of src/thread_pool.hpp: its threads as a step relation. `pushing` are the tasks of the
-- threads inside `push_task`, between the increment of the count and the end of the call.
pub mod Unfinished
use apiserver_asymetric_encr.Base.{
  if◌then◌else◌, replicate, add_size, sub_size, ℕ, ◌≡◌, Bool, true, false, none, some, List, [],
  ◌∷◌, ◌++◌,
}
use apiserver_asymetric_encr.Pool.{SharedQueue, new_queue, push, no_item, item, wait_and_pop, stop}

-- Where a worker stands in `worker_loop`.
pub data Worker (A : Type 0) : Type 0 where
  waiting : Worker A
  executing : A → Worker A
  finished : Worker A

pub record ThreadPool (A : Type 0) : Type 0 where
  pub num_threads : ℕ
  pub stopped : Bool
  pub unfinished_tasks : ℕ
  pub global_queue : SharedQueue A
  pub threads : List (Worker A)
  pub pushing : List A

unfoldable pub new_pool : {A : Type 0} → ℕ → ℕ → ThreadPool A
new_pool num_threads queue_capacity = record {
  num_threads = num_threads;
  stopped = false;
  unfinished_tasks = 0;
  global_queue = new_queue queue_capacity;
  threads = [];
  pushing = [];
}

unfoldable pub start : {A : Type 0} → ThreadPool A → ThreadPool A
start p = record p { threads = replicate p.num_threads waiting }

unfoldable pub stop_pool : {A : Type 0} → ThreadPool A → ThreadPool A
stop_pool p =
    if p.stopped then p else record p { stopped = true; global_queue = stop p.global_queue }

-- `fetch_add` and `fetch_sub` on the count.
unfoldable pub count_up : {A : Type 0} → ThreadPool A → ThreadPool A
count_up p = record p { unfinished_tasks = add_size p.unfinished_tasks 1 }

unfoldable pub count_down : {A : Type 0} → ThreadPool A → ThreadPool A
count_down p = record p { unfinished_tasks = sub_size p.unfinished_tasks 1 }

-- One step of one thread.
pub data Step {A : Type 0} : ThreadPool A → ThreadPool A → Type 0 where
  starts : (p : ThreadPool A) → p.threads ≡ [] → Step p (start p)
  -- `push_task`: the increment, then the push, or the decrement when the queue is full.
  begins_push :
      (p : ThreadPool A) (a : A) → Step p (count_up (record p { pushing = a ∷ p.pushing }))
  ends_push :
      (p : ThreadPool A) (before after : List A) (a : A) (q : SharedQueue A)
      → p.pushing ≡ before ++ a ∷ after
      → push a p.global_queue ≡ some q
      → Step p (record p { pushing = before ++ after; global_queue = q })
  fails_push :
      (p : ThreadPool A) (before after : List A) (a : A)
      → p.pushing ≡ before ++ a ∷ after
      → push a p.global_queue ≡ none
      → Step p (count_down (record p { pushing = before ++ after }))
  -- `worker_loop`: a task is taken, a task is done (or has thrown), or the loop ends.
  takes :
      (p : ThreadPool A) (before after : List (Worker A)) (a : A) (q : SharedQueue A)
      → p.threads ≡ before ++ waiting ∷ after
      → wait_and_pop p.global_queue ≡ item a q
      → Step p (record p { threads = before ++ executing a ∷ after; global_queue = q })
  finishes :
      (p : ThreadPool A) (before after : List (Worker A)) (a : A)
      → p.threads ≡ before ++ executing a ∷ after
      → Step p (count_down (record p { threads = before ++ waiting ∷ after }))
  retires :
      (p : ThreadPool A) (before after : List (Worker A))
      → p.threads ≡ before ++ waiting ∷ after
      → wait_and_pop p.global_queue ≡ no_item
      → Step p (record p { threads = before ++ finished ∷ after })
  stops_pool : (p : ThreadPool A) → Step p (stop_pool p)

pub data Reachable {A : Type 0} (num_threads capacity : ℕ) : ThreadPool A → Type 0 where
  created : Reachable num_threads capacity (new_pool num_threads capacity)
  stepped :
      {p q : ThreadPool A}
      → Reachable num_threads capacity p
      → Step p q
      → Reachable num_threads capacity q
