-- ===== src/Events/Loop/Sound.antt =====
-- What waits in the queues of a worker of src/server.cpp carries a connection number that has been
-- given out: the handlers that parse nothing.
use apiserver_asymetric_encr.Base.{
  if◌then◌else◌, Option-cases, All, All-append, All-mono, ℕ, ◌≤◌, ◌≡◌, refl, sym, ◌∙◌, subst, inl,
  inr, Bool, true, false, List, [], ◌∷◌, arith,
}
use apiserver_asymetric_encr.Text.{Bytes}
use apiserver_asymetric_encr.Connections.{Worker, find_connection, close_connection, accept_one}
use apiserver_asymetric_encr.Connections.Keeps.{
  IsWellFormed, updated-IsWellFormed, close_connection-IsWellFormed,
}
use apiserver_asymetric_encr.Connections.Numbers.{
  close_connection-number, do_write-number, deliver-number, accept_one-number,
}
use apiserver_asymetric_encr.Connections.Writing.{Written}
use apiserver_asymetric_encr.Connections.Writing.Keeps.{do_write-IsWellFormed}
use apiserver_asymetric_encr.Server.{Response}
use apiserver_asymetric_encr.Server.Dispatch.{Answer, Queues, push_unbounded, push_answer}
use apiserver_asymetric_encr.Events.{
  IoWorker, Accepted, accepted, accept_blocks, accept_limit, accept_error, Calls, item_of,
  on_connect, deliver_batch, on_write, change, push_response, hang_up,
}
use apiserver_asymetric_encr.Events.Keeps.Handlers.{IsReady, AreNew}
use apiserver_asymetric_encr.Events.Listed.Handlers.{Leaves}

module _ {J : Type 0} where
  pub on_connect-number :
      (now : ℕ) (accepts : List Accepted) (w : Worker J)
      → AreNew now accepts w
      → w.next_connection_id ≤ (on_connect now accepts w).next_connection_id
  unfolding on_connect
  on_connect-number now [] w h = omega arith
  on_connect-number now (accept_blocks ∷ rest) w h = omega arith
  on_connect-number now (accept_limit ∷ rest) w h = omega arith
  on_connect-number now (accept_error ∷ rest) w h = on_connect-number now rest w h
  on_connect-number now (accepted fd ip added ∷ rest) w (free, small, later) = omega (
    arith,
    accept_one-number now added fd ip w small,
    on_connect-number now rest (accept_one now added fd ip w) later,
  )

  pub deliver_batch-number :
      (date : Answer → Bytes) (now : ℕ) (results : List (Bool × List Written))
      (answers : List Answer) (w : Worker J)
      → (deliver_batch date now results answers w).next_connection_id ≡ w.next_connection_id
  unfolding deliver_batch
  deliver_batch-number date now results [] w = refl
  deliver_batch-number date now [] (a ∷ rest) w =
      deliver_batch-number date now [] rest _ ∙ deliver-number true now [] (item_of date a) w
  deliver_batch-number date now ((armed, writes) ∷ results) (a ∷ rest) w =
      deliver_batch-number date now results rest _
      ∙ deliver-number armed now writes (item_of date a) w

-- `m` is a number that has been given out at some time.
module _ {J E : Type 0} (m : ℕ) where
  -- The numbers of what waits in the queues, and `m`, are at most `n`.
  abbrev pub QueuesGiven : ℕ → Queues J E → Type 0
  QueuesGiven n q =
      (m ≤ n)
      × All (λ t. t.connection_id ≤ n) q.tasks.queue
      × All (λ a. a.connection_id ≤ n) q.responses.queue

  abbrev pub IsSound : IoWorker J E → Type 0
  IsSound s = IsReady s × QueuesGiven s.worker.next_connection_id s.queues

  pub QueuesGiven-later : (n k : ℕ) (q : Queues J E) → n ≤ k → QueuesGiven n q → QueuesGiven k q
  QueuesGiven-later n k q le (since, waiting, answered) = (
    omega arith,
    All-mono _ _ q.tasks.queue (λ t h. omega arith) waiting,
    All-mono _ _ q.responses.queue (λ a h. omega arith) answered,
  )

  pub push_response-Leaves :
      (fd conn_id : ℕ) (res : Response) (s : IoWorker J E)
      → conn_id ≤ s.worker.next_connection_id
      → IsSound s
      → Leaves IsSound (push_response fd conn_id res s)
  unfolding push_response push_answer
  push_response-Leaves fd conn_id res s le ((ready, free), (since, waiting, answered)) =
      let a : Answer = record { client_fd = fd; connection_id = conn_id; res = res } in
      rw (push_unbounded a s.queues.responses free, push_answer)
        (
          (ready, free),
          (since, waiting, All-append _ s.queues.responses.queue (a ∷ []) answered (le, tt)),
        )

  -- A change of the worker that leaves the last number.
  pub worked-IsSound :
      (w : Worker J) (s : IoWorker J E)
      → IsWellFormed w
      → w.next_connection_id ≡ s.worker.next_connection_id
      → IsSound s
      → IsSound (record s { worker = w })
  worked-IsSound w s v e ((ready, free), given) =
      ((v, free), subst (λ n. QueuesGiven n s.queues) (sym e) given)

  pub on_write-IsSound :
      (fd : ℕ) (k : Calls) (s : IoWorker J E) → IsSound s → IsSound (on_write fd k s)
  unfolding on_write
  on_write-IsSound fd k s v = elim (Option-cases (find_connection fd s.worker.connections)) [
    | inl e ↦ rw (e, on_write) v
    | inr (c, e) ↦
        rw (e, on_write)
          (worked-IsSound _ s
            (do_write-IsWellFormed k.write_armed k.now fd k.writes c s.worker v.0.0)
            (do_write-number k.write_armed k.now fd k.writes c s.worker) v)
  ]

  pub hang_up-IsSound :
      (broken rdhup : Bool) (fd : ℕ) (s : IoWorker J E)
      → IsSound s
      → IsSound (hang_up broken rdhup fd s)
  unfolding hang_up
  hang_up-IsSound broken rdhup fd s v =
      elim (Option-cases (find_connection fd s.worker.connections)) [
        | inl e ↦ rw (e, hang_up) v
        | inr (c, e) ↦ rw (e, hang_up) (by_flags broken rdhup)
      ]
    where
      by_flags :
          (broken rdhup : Bool)
          → IsSound (
              if broken
              then record s { worker = close_connection fd s.worker }
              else if rdhup
              then change fd (λ x. record x { close_after_write = true }) s
              else s)
      by_flags true rdhup =
          worked-IsSound _ s (close_connection-IsWellFormed fd s.worker v.0.0)
            (close_connection-number fd s.worker) v
      by_flags false true =
          worked-IsSound _ s (updated-IsWellFormed fd _ s.worker (λ c. refl) v.0.0) refl v
      by_flags false false = v
