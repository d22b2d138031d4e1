-- ===== src/Pool/Fifo.antt =====
-- The queue hands out what it accepted, in order, and holds no more than its capacity.
use apiserver_asymetric_encr.Base.{
  ltb, leb, Bool-cases, Option-cases, length, length-append, ℕ, ◌≤◌, ◌<◌, ◌≡◌, refl, sym, ap, ◌∙◌,
  subst, ◌⊎◌, inl, inr, false, ◌&&◌, some, List, [], ◌∷◌, ◌++◌, arith,
}
use apiserver_asymetric_encr.Pool.{
  SharedQueue, new_queue, push, Popped, blocked, no_item, item, pop_from, wait_and_pop, drain_to,
  stop, QueueCall, pushes, pops, drains, stops, Trace, trace_step, trace_run, new_trace,
}

record IsOrdered {A : Type 0} (capacity : ℕ) (t : Trace A) : Type 0 where
  pub order : t.accepted ≡ t.handed_out ++ t.now.queue
  pub bound : t.now.capacity ≡ capacity
  pub room : 0 < capacity → length t.now.queue ≤ capacity

append_assoc : {A : Type 0} (xs ys zs : List A) → (xs ++ ys) ++ zs ≡ xs ++ (ys ++ zs)
append_assoc [] ys zs = refl
append_assoc (x ∷ xs) ys zs = rw (append_assoc xs ys zs) refl

append_nil : {A : Type 0} (xs : List A) → xs ++ [] ≡ xs
append_nil [] = refl
append_nil (x ∷ xs) = rw (append_nil xs) refl

room_of :
    (capacity n : ℕ) → (ltb 0 capacity && leb capacity n) ≡ false → 0 < capacity → n < capacity
room_of capacity n free h = ground arith

-- A push that succeeds finds room.
pub push_room :
    {A : Type 0} (a : A) (q r : SharedQueue A)
    → push a q ≡ some r
    → (r ≡ record q { queue = q.queue ++ a ∷ [] }) × (0 < q.capacity → length q.queue < q.capacity)
unfolding push
push_room a q r h = elim (Bool-cases (ltb 0 q.capacity && leb q.capacity (length q.queue))) [
  | inl full ↦ absurd (ground arith)
  | inr free ↦ (ground arith, room_of q.capacity (length q.queue) free)
]

-- A task that is popped is the first of the queue, which keeps the rest.
pub pop_item :
    {A : Type 0} (q r : SharedQueue A) (a : A)
    → wait_and_pop q ≡ item a r
    → (q.queue ≡ a ∷ r.queue) × (r ≡ record q { queue = r.queue })
unfolding wait_and_pop pop_from
pop_item q r a h = ground arith

Popped-cases :
    {A : Type 0} (o : Popped A)
    → (o ≡ blocked) ⊎ (o ≡ no_item) ⊎ ((a : A) × (q : SharedQueue A) × (o ≡ item a q))
Popped-cases blocked = inl refl
Popped-cases no_item = inr (inl refl)
Popped-cases (item a q) = inr (inr (a, q, refl))

module _ {A : Type 0} (capacity : ℕ) where
  push-IsOrdered :
      (t : Trace A) (a : A) → IsOrdered capacity t → IsOrdered capacity (trace_step t (pushes a))
  unfolding trace_step
  push-IsOrdered t a v = elim (Option-cases (push a t.now)) [
    | inl e ↦ rw (e, trace_step) v
    | inr (q, e) ↦
        let (same_queue, room) = push_room a t.now q e in
        rw (e, trace_step)
          (rw same_queue (record {
            order =
                ap (λ (l : List A). l ++ a ∷ []) v.order
                ∙ append_assoc t.handed_out t.now.queue (a ∷ []);
            bound = v.bound;
            room = λ h. omega (
              arith,
              length-append t.now.queue (a ∷ []),
              v.bound,
              room (subst (λ n. 0 < n) (sym v.bound) h),
            );
          }))
  ]

  pop-IsOrdered : (t : Trace A) → IsOrdered capacity t → IsOrdered capacity (trace_step t pops)
  unfolding trace_step
  pop-IsOrdered t v = elim (Popped-cases (wait_and_pop t.now)) [
    | inl e ↦ rw (e, trace_step) v
    | inr (inl e) ↦ rw (e, trace_step) v
    | inr (inr (a, q, e)) ↦
        let (front, same_queue) = pop_item t.now q a e in
        rw (e, trace_step)
          (record {
            order =
                v.order
                ∙ ap (λ l. t.handed_out ++ l) front
                ∙ sym (append_assoc t.handed_out (a ∷ []) q.queue);
            bound = ap (λ (r : SharedQueue A). r.capacity) same_queue ∙ v.bound;
            room = λ h. omega (arith, ap length front, v.room h);
          })
  ]

  drain-IsOrdered : (t : Trace A) → IsOrdered capacity t → IsOrdered capacity (trace_step t drains)
  unfolding trace_step drain_to
  drain-IsOrdered t v = record {
    order = v.order ∙ sym (append_nil (t.handed_out ++ t.now.queue));
    bound = v.bound;
    room = λ _. omega arith;
  }

  stop-IsOrdered : (t : Trace A) → IsOrdered capacity t → IsOrdered capacity (trace_step t stops)
  unfolding trace_step stop
  stop-IsOrdered t v = record { order = v.order; bound = v.bound; room = v.room }

  step-IsOrdered :
      (t : Trace A) (c : QueueCall A) → IsOrdered capacity t → IsOrdered capacity (trace_step t c)
  step-IsOrdered t (pushes a) v = push-IsOrdered t a v
  step-IsOrdered t pops v = pop-IsOrdered t v
  step-IsOrdered t drains v = drain-IsOrdered t v
  step-IsOrdered t stops v = stop-IsOrdered t v

  run-IsOrdered :
      (t : Trace A) (cs : List (QueueCall A))
      → IsOrdered capacity t
      → IsOrdered capacity (trace_run t cs)
  unfolding trace_run
  run-IsOrdered t [] v = v
  run-IsOrdered t (c ∷ cs) v = run-IsOrdered (trace_step t c) cs (step-IsOrdered t c v)

-- After any calls on a new queue, what has been handed out, followed by what is queued, is what has
-- been accepted, in order; and a queue with a capacity never holds more than it.
trace_run-IsOrdered :
    {A : Type 0} (capacity : ℕ) (cs : List (QueueCall A))
    → IsOrdered capacity (trace_run (new_trace capacity) cs)
unfolding new_trace new_queue
trace_run-IsOrdered capacity cs =
    run-IsOrdered capacity _ cs (record { order = refl; bound = refl; room = λ _. omega arith })
