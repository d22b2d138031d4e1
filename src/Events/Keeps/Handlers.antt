-- ===== src/Events/Keeps/Handlers.antt =====
-- The handlers of src/server.cpp's loop that parse nothing keep the map of connections in order.
use apiserver_asymetric_encr.Base.{
  ◌>>=◌, if◌then◌else◌, Option-cases, size_mod, ℕ, suc, ◌<◌, ◌≡◌, refl, inl, inr, Bool, true, false,
  Option, none, some, List, [], ◌∷◌,
}
use apiserver_asymetric_encr.Text.{Bytes}
use apiserver_asymetric_encr.Connections.{Worker, find_connection, close_connection, accept_one}
use apiserver_asymetric_encr.Connections.Writing.{Written}
use apiserver_asymetric_encr.Connections.Keeps.{
  IsWellFormed, updated-IsWellFormed, close_connection-IsWellFormed, check_timeouts-IsWellFormed,
  accept_one-IsWellFormed,
}
use apiserver_asymetric_encr.Connections.Writing.Keeps.{do_write-IsWellFormed, deliver-IsWellFormed}
use apiserver_asymetric_encr.Pool.{drain_to}
use apiserver_asymetric_encr.Server.{Response}
use apiserver_asymetric_encr.Server.Dispatch.{Answer, push_unbounded, push_answer}
use apiserver_asymetric_encr.Events.{
  IoWorker, Accepted, accepted, accept_blocks, accept_limit, accept_error, Calls, item_of,
  on_connect, on_timer_tick, deliver_batch, process_response_queue, on_write, change, push_response,
  hang_up,
}

-- The map is in order, and the response queue has no limit of capacity.
abbrev pub IsReady : {J E : Type 0} → IoWorker J E → Type 0
IsReady s = IsWellFormed s.worker × (s.queues.responses.capacity ≡ 0)

abbrev pub Succeeds : {J E : Type 0} → Option (IoWorker J E) → Type 0
Succeeds r = (t : IoWorker _ _) × (r ≡ some t) × IsReady t

-- The kernel hands out no descriptor that is open, and the numbers do not wrap.
abbrev pub AreNew : {J : Type 0} → ℕ → List Accepted → Worker J → Type 0
AreNew now [] w = Unit
AreNew now (accepted fd ip added ∷ rest) w =
    (find_connection fd w.connections ≡ none)
    × (suc w.next_connection_id < size_mod)
    × AreNew now rest (accept_one now added fd ip w)
AreNew now (accept_error ∷ rest) w = AreNew now rest w
AreNew now (accept_blocks ∷ rest) w = Unit
AreNew now (accept_limit ∷ rest) w = Unit

module _ {J : Type 0} where
  pub on_connect-IsWellFormed :
      (now : ℕ) (accepts : List Accepted) (w : Worker J)
      → AreNew now accepts w
      → IsWellFormed w
      → IsWellFormed (on_connect now accepts w)
  unfolding on_connect
  on_connect-IsWellFormed now [] w h v = v
  on_connect-IsWellFormed now (accepted fd ip added ∷ rest) w h v =
      on_connect-IsWellFormed now rest (accept_one now added fd ip w) h.2
        (accept_one-IsWellFormed now added fd ip w h.0 h.1 v)
  on_connect-IsWellFormed now (accept_blocks ∷ rest) w h v = v
  on_connect-IsWellFormed now (accept_limit ∷ rest) w h v = v
  on_connect-IsWellFormed now (accept_error ∷ rest) w h v = on_connect-IsWellFormed now rest w h v

  pub on_timer_tick-IsWellFormed :
      (timer_read : Bool) (timeout now : ℕ) (w : Worker J)
      → IsWellFormed w
      → IsWellFormed (on_timer_tick timer_read timeout now w)
  unfolding on_timer_tick
  on_timer_tick-IsWellFormed true timeout now w v = check_timeouts-IsWellFormed timeout now w v
  on_timer_tick-IsWellFormed false timeout now w v = v

  pub deliver_batch-IsWellFormed :
      (date : Answer → Bytes) (now : ℕ) (results : List (Bool × List Written))
      (answers : List Answer) (w : Worker J)
      → IsWellFormed w
      → IsWellFormed (deliver_batch date now results answers w)
  unfolding deliver_batch
  deliver_batch-IsWellFormed date now results [] w v = v
  deliver_batch-IsWellFormed date now [] (a ∷ rest) w v =
      deliver_batch-IsWellFormed date now [] rest _
        (deliver-IsWellFormed true now [] (item_of date a) w v)
  deliver_batch-IsWellFormed date now ((armed, writes) ∷ results) (a ∷ rest) w v =
      deliver_batch-IsWellFormed date now results rest _
        (deliver-IsWellFormed armed now writes (item_of date a) w v)

module _ {J E : Type 0} where
  pub bind-Succeeds :
      (r : Option (IoWorker J E)) (f : IoWorker J E → Option (IoWorker J E))
      → Succeeds r
      → ((t : IoWorker J E) → IsReady t → Succeeds (f t))
      → Succeeds (r >>= f)
  bind-Succeeds r f (t, e, h) next = rw e (next t h)

  pub process_response_queue-IsReady :
      (k : Calls) (s : IoWorker J E) → IsReady s → IsReady (process_response_queue k s)
  unfolding process_response_queue drain_to
  process_response_queue-IsReady k s h =
      (deliver_batch-IsWellFormed k.date k.now k.batch s.queues.responses.queue s.worker h.0, h.1)

  pub on_write-IsReady :
      (fd : ℕ) (k : Calls) (s : IoWorker J E) → IsReady s → IsReady (on_write fd k s)
  unfolding on_write
  on_write-IsReady fd k s h = elim (Option-cases (find_connection fd s.worker.connections)) [
    | inl e ↦ rw (e, on_write) h
    | inr (c, e) ↦
        rw (e, on_write) (do_write-IsWellFormed k.write_armed k.now fd k.writes c s.worker h.0, h.1)
  ]

  pub hang_up-IsReady :
      (broken rdhup : Bool) (fd : ℕ) (s : IoWorker J E)
      → IsReady s
      → IsReady (hang_up broken rdhup fd s)
  unfolding hang_up
  hang_up-IsReady broken rdhup fd s h =
      elim (Option-cases (find_connection fd s.worker.connections)) [
        | inl e ↦ rw (e, hang_up) h
        | inr (c, e) ↦ rw (e, hang_up) (by_flags broken rdhup)
      ]
    where
      by_flags :
          (broken rdhup : Bool)
          → IsReady (
              if broken
              then record s { worker = close_connection fd s.worker }
              else if rdhup
              then change fd (λ x. record x { close_after_write = true }) s
              else s)
      by_flags true rdhup = (close_connection-IsWellFormed fd s.worker h.0, h.1)
      by_flags false true = (updated-IsWellFormed fd _ s.worker (λ c. refl) h.0, h.1)
      by_flags false false = h

  pub push_response-Succeeds :
      (fd conn_id : ℕ) (res : Response) (s : IoWorker J E)
      → IsReady s
      → Succeeds (push_response fd conn_id res s)
  unfolding push_response push_answer
  push_response-Succeeds fd conn_id res s h =
      let a : Answer = record { client_fd = fd; connection_id = conn_id; res = res } in
      rw (push_unbounded a s.queues.responses h.1, push_answer) (_, refl, h)
