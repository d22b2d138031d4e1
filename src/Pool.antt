-- ===== src/Pool.antt =====
-- `shared_queue` (src/shared_queue.hpp) and `thread_pool` (src/thread_pool.hpp). The bodies under a
-- lock are functions; threads that interleave are a step relation. A worker that waits on the
-- condition variable is one whose step is not enabled. The eventfd is outside the model: a
-- notification only wakes a thread that then runs one of these operations.
pub mod Fifo
pub mod Workers
pub mod Executor
use apiserver_asymetric_encr.Base.{
  ltb, leb, if◌then◌else◌, length, ℕ, Bool, true, false, ◌&&◌, Option, none, some, List, [], ◌∷◌,
  ◌++◌,
}

pub record SharedQueue (A : Type 0) : Type 0 where
  pub queue : List A
  pub stopped : Bool
  pub capacity : ℕ

unfoldable pub new_queue : {A : Type 0} → ℕ → SharedQueue A
new_queue capacity = record { queue = []; stopped = false; capacity = capacity }

-- `none` where `push` throws `queue_full_error`.
unfoldable pub push : {A : Type 0} → A → SharedQueue A → Option (SharedQueue A)
push item q =
    if ltb 0 q.capacity && leb q.capacity (length q.queue)
    then none
    else some (record q { queue = q.queue ++ item ∷ [] })

-- What `wait_and_pop` comes back with, if it comes back.
pub data Popped (A : Type 0) : Type 0 where
  blocked : Popped A
  no_item : Popped A
  item : A → SharedQueue A → Popped A

unfoldable pub pop_from : {A : Type 0} → SharedQueue A → List A → Popped A
pop_from q [] = if q.stopped then no_item else blocked
pop_from q (a ∷ rest) = item a (record q { queue = rest })

unfoldable pub wait_and_pop : {A : Type 0} → SharedQueue A → Popped A
wait_and_pop q = pop_from q q.queue

unfoldable pub drain_to : {A : Type 0} → List A → SharedQueue A → List A × SharedQueue A
drain_to target q = (target ++ q.queue, record q { queue = [] })

unfoldable pub stop : {A : Type 0} → SharedQueue A → SharedQueue A
stop q = record q { stopped = true }

-- The calls that threads make on one queue, in the order of its lock.
pub data QueueCall (A : Type 0) : Type 0 where
  pushes : A → QueueCall A
  pops drains stops : QueueCall A

-- The queue, what has been accepted and what has been handed out, in order.
pub record Trace (A : Type 0) : Type 0 where
  pub now : SharedQueue A
  pub accepted : List A
  pub handed_out : List A

unfoldable pub trace_step : {A : Type 0} → Trace A → QueueCall A → Trace A
trace_step t (pushes a) = elim (push a t.now) [
  | none ↦ t
  | some q ↦ record t { now = q; accepted = t.accepted ++ a ∷ [] }
]
trace_step t pops = elim (wait_and_pop t.now) [
  | blocked ↦ t
  | no_item ↦ t
  | item a q ↦ record t { now = q; handed_out = t.handed_out ++ a ∷ [] }
]
trace_step t drains =
    let (target, q) = drain_to t.handed_out t.now in record t { now = q; handed_out = target }
trace_step t stops = record t { now = stop t.now }

unfoldable pub trace_run : {A : Type 0} → Trace A → List (QueueCall A) → Trace A
trace_run t [] = t
trace_run t (c ∷ cs) = trace_run (trace_step t c) cs

unfoldable pub new_trace : {A : Type 0} → ℕ → Trace A
new_trace capacity = record { now = new_queue capacity; accepted = []; handed_out = [] }
