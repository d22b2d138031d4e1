-- ===== src/Events/Listed/Handlers.antt =====
-- The handlers of src/server.cpp's loop that parse nothing keep the timeout list in order.
use apiserver_asymetric_encr.Base.{
  ◌>>=◌, if◌then◌else◌, Option-cases, ℕ, ◌≤◌, ◌≡◌, refl, sym, subst, inl, inr, Bool, true, false,
  Option, none, some, List, [], ◌∷◌, arith,
}
use apiserver_asymetric_encr.Text.{Bytes}
use apiserver_asymetric_encr.Connections.{Worker, find_connection, close_connection, accept_one}
use apiserver_asymetric_encr.Connections.Writing.{Written}
use apiserver_asymetric_encr.Connections.Listed.{IsListed}
use apiserver_asymetric_encr.Connections.Listed.Steps.{updated-IsListed, later-IsListed}
use apiserver_asymetric_encr.Connections.Listed.Moves.{close_connection-IsListed}
use apiserver_asymetric_encr.Connections.Listed.Calls.{accept_one-IsListed, check_timeouts-IsListed}
use apiserver_asymetric_encr.Connections.Listed.Writing.{do_write-IsListed, deliver-IsListed}
use apiserver_asymetric_encr.Server.{Response}
use apiserver_asymetric_encr.Server.Dispatch.{Answer, Queues, push_answer}
use apiserver_asymetric_encr.Events.{
  IoWorker, Accepted, accepted, accept_blocks, accept_limit, accept_error, Calls, item_of,
  on_connect, on_timer_tick, deliver_batch, on_write, change, push_response, hang_up,
}
use apiserver_asymetric_encr.Events.Keeps.Handlers.{AreNew}

abbrev pub AreAdded : List Accepted → Type 0
AreAdded [] = Unit
AreAdded (accepted fd ip added ∷ rest) = (added ≡ true) × AreAdded rest
AreAdded (accept_blocks ∷ rest) = Unit
AreAdded (accept_limit ∷ rest) = Unit
AreAdded (accept_error ∷ rest) = AreAdded rest

-- What holds of the state, if there is one.
abbrev pub Leaves : {J E : Type 0} → (IoWorker J E → Type 0) → Option (IoWorker J E) → Type 0
Leaves P none = Unit
Leaves P (some t) = P t

pub bind-Leaves :
    {J E : Type 0} (P Q : IoWorker J E → Type 0) (r : Option (IoWorker J E))
    (f : IoWorker J E → Option (IoWorker J E))
    → Leaves P r
    → ((t : IoWorker J E) → P t → Leaves Q (f t))
    → Leaves Q (r >>= f)
bind-Leaves P Q none f h next = tt
bind-Leaves P Q (some t) f h next = next t h

module _ {J : Type 0} where
  pub on_connect-IsListed :
      (before now : ℕ) (accepts : List Accepted) (w : Worker J)
      → before ≤ now
      → AreNew now accepts w
      → AreAdded accepts
      → IsListed before w
      → IsListed now (on_connect now accepts w)
  unfolding on_connect
  on_connect-IsListed before now [] w le new added v = later-IsListed before now w le v
  on_connect-IsListed before now (accept_blocks ∷ rest) w le new added v =
      later-IsListed before now w le v
  on_connect-IsListed before now (accept_limit ∷ rest) w le new added v =
      later-IsListed before now w le v
  on_connect-IsListed before now (accept_error ∷ rest) w le new added v =
      on_connect-IsListed before now rest w le new added v
  on_connect-IsListed before now (accepted fd ip flag ∷ rest) w le new added v =
      on_connect-IsListed now now rest (accept_one now flag fd ip w) (omega arith) new.2 added.1 (
        subst (λ b. IsListed now (accept_one now b fd ip w)) (sym added.0)
          (accept_one-IsListed before now fd ip w le new.0 v))

  pub on_timer_tick-IsListed :
      (before : ℕ) (timer_read : Bool) (timeout now : ℕ) (w : Worker J)
      → before ≤ now
      → IsListed before w
      → IsListed now (on_timer_tick timer_read timeout now w)
  unfolding on_timer_tick
  on_timer_tick-IsListed before true timeout now w le v =
      check_timeouts-IsListed before timeout now w le v
  on_timer_tick-IsListed before false timeout now w le v = later-IsListed before now w le v

  pub deliver_batch-IsListed :
      (before : ℕ) (date : Answer → Bytes) (now : ℕ) (results : List (Bool × List Written))
      (answers : List Answer) (w : Worker J)
      → before ≤ now
      → IsListed before w
      → IsListed now (deliver_batch date now results answers w)
  unfolding deliver_batch
  deliver_batch-IsListed before date now results [] w le v = later-IsListed before now w le v
  deliver_batch-IsListed before date now [] (a ∷ rest) w le v =
      deliver_batch-IsListed now date now [] rest _ (omega arith)
        (deliver-IsListed before true now [] (item_of date a) w le v)
  deliver_batch-IsListed before date now ((armed, writes) ∷ results) (a ∷ rest) w le v =
      deliver_batch-IsListed now date now results rest _ (omega arith)
        (deliver-IsListed before armed now writes (item_of date a) w le v)

module _ {J E : Type 0} where
  abbrev pub Listed : ℕ → IoWorker J E → Type 0
  Listed now s = IsListed now s.worker

  pub on_write-IsListed :
      (before fd : ℕ) (k : Calls) (s : IoWorker J E)
      → before ≤ k.now
      → Listed before s
      → Listed k.now (on_write fd k s)
  unfolding on_write
  on_write-IsListed before fd k s le v =
      elim (Option-cases (find_connection fd s.worker.connections)) [
        | inl e ↦ rw (e, on_write) (later-IsListed before k.now s.worker le v)
        | inr (c, e) ↦
            rw (e, on_write)
              (do_write-IsListed before k.write_armed k.now fd k.writes c s.worker le v)
      ]

  pub hang_up-IsListed :
      (now : ℕ) (broken rdhup : Bool) (fd : ℕ) (s : IoWorker J E)
      → Listed now s
      → Listed now (hang_up broken rdhup fd s)
  unfolding hang_up
  hang_up-IsListed now broken rdhup fd s v =
      elim (Option-cases (find_connection fd s.worker.connections)) [
        | inl e ↦ rw (e, hang_up) v
        | inr (c, e) ↦ rw (e, hang_up) (by_flags broken rdhup)
      ]
    where
      by_flags :
          (broken rdhup : Bool)
          → Listed now (
              if broken
              then record s { worker = close_connection fd s.worker }
              else if rdhup
              then change fd (λ x. record x { close_after_write = true }) s
              else s)
      by_flags true rdhup = close_connection-IsListed now fd s.worker v
      by_flags false true = updated-IsListed now fd _ s.worker (λ c. refl) (λ c. refl) v
      by_flags false false = v

  pub push_response-Leaves :
      (now fd conn_id : ℕ) (res : Response) (s : IoWorker J E)
      → Listed now s
      → Leaves (Listed now) (push_response fd conn_id res s)
  unfolding push_response
  push_response-Leaves now fd conn_id res s v =
      by_push (push_answer (record { client_fd = fd; connection_id = conn_id; res = res }) s.queues)
    where
      by_push :
          (r : Option (Queues J E))
          → Leaves (Listed now) (r >>= λ q. some (record s { queues = q }))
      by_push none = tt
      by_push (some q) = v
