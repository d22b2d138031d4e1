-- ===== src/Events/Shutdown/Ends.antt =====
-- The drain at shutdown of src/server.cpp comes to its end, with nothing left in the response queue.
use apiserver_asymetric_encr.Base.{
  ◌==◌, if◌then◌else◌, Bool-cases, Option-cases, is_empty, All, ℕ, ◌≡◌, refl, ap, ◌∙◌, inl, inr,
  Bool, true, false, ◌&&◌, ◌||◌, List, [], ◌∷◌, ◌++◌, arith,
}
use apiserver_asymetric_encr.Pool.{drain_to}
use apiserver_asymetric_encr.Server.Dispatch.{Answer, push_unbounded, push_answer}
use apiserver_asymetric_encr.Events.{
  IoWorker, OwnFds, EpollEvent, Calls, process_response_queue, on_write, change, hang_up,
}
use apiserver_asymetric_encr.Events.Shutdown.{
  Waited, interrupted, wait_fails, events, Round, Drained, complete, broken_off, is_own, arrive_one,
  arrive, drain_event, drain_events, drain_pending_responses,
}
use apiserver_asymetric_encr.Connections.{find_connection, close_connection}
use apiserver_asymetric_encr.Events.Keeps.Handlers.{
  IsReady, process_response_queue-IsReady, on_write-IsReady, hang_up-IsReady,
}

-- `epoll_wait` does not fail.
abbrev pub WaitsOn : Waited → Type 0
WaitsOn interrupted = Unit
WaitsOn wait_fails = ⊥
WaitsOn (events es) = Unit

abbrev pub Waits : Round → Type 0
Waits r = WaitsOn r.waited

is_done : (n : ℕ) (xs : List Answer) → n ≡ 0 → xs ≡ [] → (n == 0 && is_empty xs) ≡ true
is_done n xs e f = rw (e, f) refl

module _ {J E : Type 0} where
  arrive_one-IsReady : (a : Answer) (s : IoWorker J E) → IsReady s → IsReady (arrive_one a s)
  unfolding arrive_one push_answer
  arrive_one-IsReady a s h = rw (push_unbounded a s.queues.responses h.1, arrive_one, push_answer) h

  arrive-IsReady :
      (answers : List Answer) (s : IoWorker J E) → IsReady s → IsReady (arrive answers s)
  unfolding arrive
  arrive-IsReady [] s h = h
  arrive-IsReady (a ∷ rest) s h = arrive-IsReady rest (arrive_one a s) (arrive_one-IsReady a s h)

  arrive_nothing : (answers : List Answer) (s : IoWorker J E) → answers ≡ [] → arrive answers s ≡ s
  unfolding arrive
  arrive_nothing [] s e = refl
  arrive_nothing (a ∷ rest) s e = cc

  drain_event-IsReady :
      (own : OwnFds) (event : EpollEvent) (k : Calls) (s : IoWorker J E)
      → IsReady s
      → IsReady (drain_event own event k s)
  unfolding drain_event
  drain_event-IsReady own event k s h = elim (Bool-cases (is_own own event.fd)) [
    | inl e ↦ rw e h
    | inr e ↦ rw e (
        hang_up-IsReady (event.epollerr || event.epollin) event.epollrdhup event.fd _
          (written event.epollout))
  ]
    where
      written : (flag : Bool) → IsReady (if flag then on_write event.fd k s else s)
      written true = on_write-IsReady event.fd k s h
      written false = h

  drain_events-IsReady :
      (own : OwnFds) (es : List (EpollEvent × Calls)) (s : IoWorker J E)
      → IsReady s
      → IsReady (drain_events own es s)
  unfolding drain_events
  drain_events-IsReady own [] s h = h
  drain_events-IsReady own ((event, k) ∷ rest) s h =
      drain_events-IsReady own rest (drain_event own event k s)
        (drain_event-IsReady own event k s h)

  on_write-queues : (fd : ℕ) (k : Calls) (s : IoWorker J E) → (on_write fd k s).queues ≡ s.queues
  unfolding on_write
  on_write-queues fd k s = elim (Option-cases (find_connection fd s.worker.connections)) [
    | inl e ↦ rw (e, on_write) refl
    | inr (c, e) ↦ rw (e, on_write) refl
  ]

  hang_up-queues :
      (broken rdhup : Bool) (fd : ℕ) (s : IoWorker J E)
      → (hang_up broken rdhup fd s).queues ≡ s.queues
  unfolding hang_up
  hang_up-queues broken rdhup fd s = elim (Option-cases (find_connection fd s.worker.connections)) [
    | inl e ↦ rw (e, hang_up) refl
    | inr (c, e) ↦ rw (e, hang_up) (by_flags broken rdhup)
  ]
    where
      by_flags :
          (broken rdhup : Bool)
          → (if broken
              then record s { worker = close_connection fd s.worker }
              else if rdhup
              then change fd (λ x. record x { close_after_write = true }) s
              else s).queues
            ≡ s.queues
      by_flags true rdhup = refl
      by_flags false true = refl
      by_flags false false = refl

  -- No event of the drain puts a response into the queue.
  drain_event-queues :
      (own : OwnFds) (event : EpollEvent) (k : Calls) (s : IoWorker J E)
      → (drain_event own event k s).queues ≡ s.queues
  unfolding drain_event
  drain_event-queues own event k s = elim (Bool-cases (is_own own event.fd)) [
    | inl e ↦ rw e refl
    | inr e ↦ rw e (
        hang_up-queues (event.epollerr || event.epollin) event.epollrdhup event.fd _
        ∙ written event.epollout)
  ]
    where
      written : (flag : Bool) → (if flag then on_write event.fd k s else s).queues ≡ s.queues
      written true = on_write-queues event.fd k s
      written false = refl

  drain_events-queues :
      (own : OwnFds) (es : List (EpollEvent × Calls)) (s : IoWorker J E)
      → (drain_events own es s).queues ≡ s.queues
  unfolding drain_events
  drain_events-queues own [] s = refl
  drain_events-queues own ((event, k) ∷ rest) s =
      drain_events-queues own rest (drain_event own event k s) ∙ drain_event-queues own event k s

  -- An end in which nothing is left.
  abbrev pub EndsEmpty : Drained J E → Type 0
  EndsEmpty d = (t : IoWorker J E) × (d ≡ complete t) × (t.queues.responses.queue ≡ []) × IsReady t

  -- A round behind which the next check finds nothing.
  last_round :
      (own : OwnFds) (last : Round) (rest : List Round) (s : IoWorker J E)
      → last.unfinished ≡ 0
      → last.before ≡ []
      → s.queues.responses.queue ≡ []
      → IsReady s
      → EndsEmpty (drain_pending_responses own (last ∷ rest) s)
  unfolding drain_pending_responses
  last_round own last rest s none_left quiet empty h =
      let same_state = arrive_nothing last.before s quiet in
      let left = ap (λ t. t.queues.responses.queue) same_state ∙ empty in
      rw (is_done last.unfinished _ none_left left, drain_pending_responses)
        (arrive last.before s, refl, left, arrive-IsReady last.before s h)

  process_empties :
      (k : Calls) (s : IoWorker J E) → (process_response_queue k s).queues.responses.queue ≡ []
  unfolding process_response_queue drain_to
  process_empties k s = refl

  round_on :
      (own : OwnFds) (r : Round) (rest : List Round) (s : IoWorker J E)
      → Waits r
      → IsReady s
      → ((u : IoWorker J E)
          → u.queues.responses.queue ≡ []
          → IsReady u
          → EndsEmpty (drain_pending_responses own rest u))
      → EndsEmpty (drain_pending_responses own (r ∷ rest) s)
  unfolding drain_pending_responses
  round_on own r rest s waits h next =
      elim (Bool-cases (r.unfinished == 0 && is_empty checked.queues.responses.queue)) [
        | inl e ↦
            rw (e, drain_pending_responses)
              (checked, refl, is_empty_nil checked.queues.responses.queue (ground arith), ready)
        | inr e ↦ rw (e, drain_pending_responses) (by_waited r.waited waits)
      ]
    where
      checked : IoWorker J E
      checked = arrive r.before s

      ready : IsReady checked
      ready = arrive-IsReady r.before s h

      processed : IoWorker J E
      processed = process_response_queue r.calls (arrive r.after checked)

      on : IsReady processed
      on = process_response_queue-IsReady r.calls _ (arrive-IsReady r.after checked ready)

      is_empty_nil : {A : Type 0} (xs : List A) → is_empty xs ≡ true → xs ≡ []
      is_empty_nil [] e = refl
      is_empty_nil (x ∷ xs) e = cc

      by_waited :
          (w : Waited)
          → WaitsOn w
          → EndsEmpty (elim w [
            | interrupted ↦ drain_pending_responses own rest processed
            | wait_fails ↦ broken_off processed
            | events es ↦ drain_pending_responses own rest (drain_events own es processed)
          ])
      by_waited interrupted waits = next processed (process_empties r.calls _) on
      by_waited wait_fails waits = absurd waits
      by_waited (events es) waits =
          next (drain_events own es processed)
            (ap (λ q. q.responses.queue) (drain_events-queues own es processed)
              ∙ process_empties r.calls _)
            (drain_events-IsReady own es processed on)

  -- At shutdown, with a response queue of no capacity limit: as long as `epoll_wait` does not fail,
  -- whatever else it comes back with, the drain ends at the latest with the first check after its
  -- first that finds no unfinished task and before which no response has come since the round
  -- before; and it ends with an empty response queue and the map of connections in order.
  pub drain_pending_responses_ends :
      (own : OwnFds) (first : List Round) (r last : Round) (rest : List Round) (s : IoWorker J E)
      → All Waits (first ++ (r ∷ []))
      → last.unfinished ≡ 0
      → last.before ≡ []
      → IsReady s
      → EndsEmpty (drain_pending_responses own (first ++ (r ∷ last ∷ rest)) s)
  drain_pending_responses_ends own [] r last rest s waits none_left quiet h =
      round_on own r (last ∷ rest) s waits.0 h
        (λ u empty ready. last_round own last rest u none_left quiet empty ready)
  drain_pending_responses_ends own (r1 ∷ first) r last rest s waits none_left quiet h =
      round_on own r1 (first ++ (r ∷ last ∷ rest)) s waits.0 h (λ u empty ready.
        drain_pending_responses_ends own first r last rest u waits.1 none_left quiet ready)
