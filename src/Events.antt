-- ===== src/Events.antt =====
-- The event loop of `server::io_worker` (src/server.cpp): `handle_epoll_event` and what it calls, with
-- the connections, the parser, the dispatch and the response queue put together. What the system
-- calls of an event return is an argument; `none` is an exception that no one catches.
pub mod Keeps
pub mod Shutdown
pub mod Serving
pub mod Listed
pub mod Loop
use apiserver_asymetric_encr.Base.{
  ◌>>=◌, ◌==◌, if◌then◌else◌, ℕ, Bool, true, ◌||◌, Option, none, some, List, [], ◌∷◌,
}
use apiserver_asymetric_encr.Text.{Bytes}
use apiserver_asymetric_encr.Request.Model.{Parser}
use apiserver_asymetric_encr.Request.Eof.{eof}
use apiserver_asymetric_encr.Request.Finalize.{finalize}
use apiserver_asymetric_encr.Reads.{ReadResult, stays, closed, handle_socket_read}
use apiserver_asymetric_encr.Connections.{
  Connection, ResponseItem, Worker, find_connection, update_connection, touch_connection,
  close_connection, modify_epoll, accept_one, check_timeouts,
}
use apiserver_asymetric_encr.Connections.Writing.{Written, do_write, deliver}
use apiserver_asymetric_encr.Pool.{drain_to}
use apiserver_asymetric_encr.Server.{Response}
use apiserver_asymetric_encr.Server.Message.{message}
use apiserver_asymetric_encr.Server.Routing.{
  Settings, Outcome, reject, respond, dispatch, process_request,
}
use apiserver_asymetric_encr.Server.Dispatch.{Task, Answer, Queues, push_answer, dispatch_to_worker}

pub record IoWorker (J E : Type 0) : Type 0 where
  pub worker : Worker J
  pub queues : Queues J E

-- The descriptors of the worker's own.
pub record OwnFds : Type 0 where
  pub listening_fd : ℕ
  pub timer_fd : ℕ
  pub event_fd : ℕ

-- `epoll_event`: the descriptor and its flags, EPOLLERR and EPOLLHUP as one.
pub record EpollEvent : Type 0 where
  pub fd : ℕ
  pub epollin : Bool
  pub epollout : Bool
  pub epollerr : Bool
  pub epollrdhup : Bool

-- What `accept4` returns: a descriptor with its peer, and whether `add_to_epoll` succeeds; or an error.
pub data Accepted : Type 0 where
  accepted : ℕ → Bytes → Bool → Accepted
  accept_blocks accept_limit accept_error : Accepted

-- What the system calls of one event return, in order; behind the end of a list, a call would block. `date` is the
-- Date text of a response, from the time when its text was made.
pub record Calls : Type 0 where
  pub now : ℕ
  pub accepts : List Accepted
  pub timer_read : Bool
  pub reads : List ReadResult
  pub read_armed : Bool
  pub writes : List Written
  pub write_armed : Bool
  pub batch : List (Bool × List Written)
  pub date : Answer → Bytes

abbrev pub item_of : (Answer → Bytes) → Answer → ResponseItem
item_of date a = record {
  client_fd = a.client_fd;
  connection_id = a.connection_id;
  res = message (date a) a.res;
}

module _ {J : Type 0} where
  -- `on_connect`.
  unfoldable pub on_connect : ℕ → List Accepted → Worker J → Worker J
  on_connect now [] w = w
  on_connect now (accepted fd ip added ∷ rest) w =
      on_connect now rest (accept_one now added fd ip w)
  on_connect now (accept_blocks ∷ rest) w = w
  on_connect now (accept_limit ∷ rest) w = w
  on_connect now (accept_error ∷ rest) w = on_connect now rest w

  unfoldable pub on_timer_tick : Bool → ℕ → ℕ → Worker J → Worker J
  on_timer_tick timer_read timeout now w = if timer_read then check_timeouts timeout now w else w

  -- The loop of `process_response_queue`.
  unfoldable pub deliver_batch :
      (Answer → Bytes) → ℕ → List (Bool × List Written) → List Answer → Worker J → Worker J
  deliver_batch date now results [] w = w
  deliver_batch date now [] (a ∷ rest) w =
      deliver_batch date now [] rest (deliver true now [] (item_of date a) w)
  deliver_batch date now ((armed, writes) ∷ results) (a ∷ rest) w =
      deliver_batch date now results rest (deliver armed now writes (item_of date a) w)

module _ {J E : Type 0} where
  unfoldable pub process_response_queue : Calls → IoWorker J E → IoWorker J E
  process_response_queue k s =
      let (response_batch, q) = drain_to [] s.queues.responses in
      record {
        worker = deliver_batch k.date k.now k.batch response_batch s.worker;
        queues = record s.queues { responses = q };
      }

  unfoldable pub on_write : ℕ → Calls → IoWorker J E → IoWorker J E
  on_write fd k s = elim (find_connection fd s.worker.connections) [
    | none ↦ s
    | some c ↦ record s { worker = do_write k.write_armed k.now fd k.writes c s.worker }
  ]

  -- Writing to one connection of the map.
  abbrev pub change : ℕ → (Connection J → Connection J) → IoWorker J E → IoWorker J E
  change fd f s = record s {
    worker = record s.worker { connections = update_connection fd f s.worker.connections };
  }

  unfoldable pub push_response : ℕ → ℕ → Response → IoWorker J E → Option (IoWorker J E)
  push_response fd conn_id res s = do
    queues ← push_answer (record { client_fd = fd; connection_id = conn_id; res = res }) s.queues
    some (record s { queues = queues })

  -- The end of `handle_epoll_event`, and of the loop of `drain_pending_responses`.
  unfoldable pub hang_up : Bool → Bool → ℕ → IoWorker J E → IoWorker J E
  hang_up broken rdhup fd s = elim (find_connection fd s.worker.connections) [
    | none ↦ s
    | some c ↦
        if broken
        then record s { worker = close_connection fd s.worker }
        else if rdhup
        then change fd (λ x. record x { close_after_write = true }) s
        else s
  ]

  -- `moved` is the parser that a move leaves behind.
  module _ (settings : Settings E) (parse_json : Bytes → Option J)
      (moved : Parser J → Parser J) where
    -- What `process_request` and `route_parsed_request` do with their outcome.
    unfoldable pub carry_out : ℕ → Connection J → Outcome J E → IoWorker J E → Option (IoWorker J E)
    carry_out fd c (reject res) s = push_response fd c.connection_id res (
        change fd
          (λ x. record x { parser = (finalize parse_json x.parser).0; close_after_write = true }) s)
    carry_out fd c (respond res) s =
        push_response fd c.connection_id res
          (change fd (λ x. record x { parser = moved x.parser }) s)
    carry_out fd c (dispatch req endpoint) s =
        let task : Task J E = record {
          fd = fd;
          connection_id = c.connection_id;
          req = req;
          endpoint = endpoint;
        } in
        do
          queues ← dispatch_to_worker task s.queues
          some
              (record (change fd (λ x. record x { parser = moved x.parser; is_processing = true })
                s) { queues = queues })

    unfoldable pub process_request_of : ℕ → IoWorker J E → Option (IoWorker J E)
    process_request_of fd s = elim (find_connection fd s.worker.connections) [
      | none ↦ some s
      | some c ↦ carry_out fd c (process_request settings parse_json c.parser c.remote_ip) s
    ]

    -- The part of `on_read` behind the read loop.
    unfoldable pub read_done : ℕ → Calls → Parser J → Bool → IoWorker J E → Option (IoWorker J E)
    read_done fd k p closing s =
        let (complete, q) = eof p in
        let t =
          change fd
            (λ x. record x { parser = q; close_after_write = closing || x.close_after_write }) s in
        if complete
        then process_request_of fd t
        else some (record t { worker = modify_epoll k.read_armed fd t.worker })

    unfoldable pub on_read : ℕ → ℕ → Calls → IoWorker J E → Option (IoWorker J E)
    on_read max_size fd k s = elim (find_connection fd s.worker.connections) [
      | none ↦ some s
      | some c ↦
          let touched = record s { worker = touch_connection k.now fd s.worker } in
          elim (handle_socket_read max_size k.reads c.parser) [
            | closed ↦ some (record touched { worker = close_connection fd touched.worker })
            | stays p closing ↦ read_done fd k p closing touched
          ]
    ]

    unfoldable pub handle_epoll_event :
        OwnFds → ℕ → ℕ → EpollEvent → Calls → IoWorker J E → Option (IoWorker J E)
    handle_epoll_event own max_size timeout event k s =
        if event.fd == own.listening_fd
        then some (record s { worker = on_connect k.now k.accepts s.worker })
        else if event.fd == own.timer_fd
        then some (record s { worker = on_timer_tick k.timer_read timeout k.now s.worker })
        else if event.fd == own.event_fd
        then some (process_response_queue k s)
        else do
          t ← (if event.epollin then on_read max_size event.fd k s else some s)
          let u = if event.epollout then on_write event.fd k t else t
          some (hang_up event.epollerr event.epollrdhup event.fd u)
