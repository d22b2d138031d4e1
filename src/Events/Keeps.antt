-- ===== src/Events/Keeps.antt =====
-- Every event of src/server.cpp's loop is handled to its end, and keeps the map of connections in
-- order.
pub mod Handlers
use apiserver_asymetric_encr.Base.{
  ◌==◌, if◌then◌else◌, Bool-cases, Option-cases, ℕ, refl, inl, inr, Bool, true, false, ◌||◌, Option,
  some,
}
use apiserver_asymetric_encr.Text.{Bytes}
use apiserver_asymetric_encr.Request.Model.{Parser}
use apiserver_asymetric_encr.Request.Eof.{eof}
use apiserver_asymetric_encr.Reads.{ReadOutcome, stays, closed, handle_socket_read}
use apiserver_asymetric_encr.Connections.{
  Connection, find_connection, touch_connection, close_connection,
}
use apiserver_asymetric_encr.Connections.Keeps.{
  updated-IsWellFormed, touch_connection-IsWellFormed, close_connection-IsWellFormed,
}
use apiserver_asymetric_encr.Connections.Writing.Keeps.{modify_epoll-IsWellFormed}
use apiserver_asymetric_encr.Server.Routing.{
  Settings, Outcome, reject, respond, dispatch, process_request,
}
use apiserver_asymetric_encr.Server.Dispatch.{Task, dispatch_to_worker_cases}
use apiserver_asymetric_encr.Events.{
  IoWorker, OwnFds, EpollEvent, Calls, on_write, change, carry_out, process_request_of, read_done,
  on_read, handle_epoll_event,
}
use apiserver_asymetric_encr.Events.Keeps.Handlers.{
  IsReady, Succeeds, AreNew, on_connect-IsWellFormed, on_timer_tick-IsWellFormed, bind-Succeeds,
  process_response_queue-IsReady, on_write-IsReady, hang_up-IsReady, push_response-Succeeds,
}

module _ {J E : Type 0} where
  module _ (settings : Settings E) (parse_json : Bytes → Option J)
      (moved : Parser J → Parser J) where
    carry_out-Succeeds :
        (fd : ℕ) (c : Connection J) (o : Outcome J E) (s : IoWorker J E)
        → IsReady s
        → Succeeds (carry_out settings parse_json moved fd c o s)
    unfolding carry_out
    carry_out-Succeeds fd c (reject res) s h =
        push_response-Succeeds fd c.connection_id res _
          (updated-IsWellFormed fd _ s.worker (λ x. refl) h.0, h.1)
    carry_out-Succeeds fd c (respond res) s h =
        push_response-Succeeds fd c.connection_id res _
          (updated-IsWellFormed fd _ s.worker (λ x. refl) h.0, h.1)
    carry_out-Succeeds fd c (dispatch req endpoint) s h =
        let task : Task J E = record {
          fd = fd;
          connection_id = c.connection_id;
          req = req;
          endpoint = endpoint;
        } in
        let kept =
          updated-IsWellFormed fd (λ x. record x { parser = moved x.parser; is_processing = true })
            s.worker (λ x. refl) h.0 in
        elim (dispatch_to_worker_cases task s.queues h.1) [
          | inl e ↦ rw e (_, refl, (kept, h.1))
          | inr (full, (a, f, i, st, e)) ↦ rw e (_, refl, (kept, h.1))
        ]

    process_request_of-Succeeds :
        (fd : ℕ) (s : IoWorker J E)
        → IsReady s
        → Succeeds (process_request_of settings parse_json moved fd s)
    unfolding process_request_of
    process_request_of-Succeeds fd s h =
        elim (Option-cases (find_connection fd s.worker.connections)) [
          | inl e ↦ rw (e, process_request_of) (s, refl, h)
          | inr (c, e) ↦
              rw (e, process_request_of)
                (carry_out-Succeeds fd c (process_request settings parse_json c.parser c.remote_ip)
                  s h)
        ]

    read_done-Succeeds :
        (fd : ℕ) (k : Calls) (p : Parser J) (closing : Bool) (s : IoWorker J E)
        → IsReady s
        → Succeeds (read_done settings parse_json moved fd k p closing s)
    unfolding read_done
    read_done-Succeeds fd k p closing s h =
        let t =
          change fd
            (λ x. record x {
              parser = (eof p).1;
              close_after_write = closing || x.close_after_write;
            })
            s in
        let ready : IsReady t = (updated-IsWellFormed fd _ s.worker (λ c. refl) h.0, h.1) in
        elim (Bool-cases (eof p).0) [
          | inl e ↦ rw e (process_request_of-Succeeds fd t ready)
          | inr e ↦
              rw e (_, refl, (modify_epoll-IsWellFormed k.read_armed fd t.worker ready.0, h.1))
        ]

    on_read-Succeeds :
        (max_size fd : ℕ) (k : Calls) (s : IoWorker J E)
        → IsReady s
        → Succeeds (on_read settings parse_json moved max_size fd k s)
    unfolding on_read
    on_read-Succeeds max_size fd k s h =
        elim (Option-cases (find_connection fd s.worker.connections)) [
          | inl e ↦ rw (e, on_read) (s, refl, h)
          | inr (c, e) ↦ rw (e, on_read) (by_outcome (handle_socket_read max_size k.reads c.parser))
        ]
      where
        touched : IoWorker J E
        touched = record s { worker = touch_connection k.now fd s.worker }

        ready : IsReady touched
        ready = (touch_connection-IsWellFormed k.now fd s.worker h.0, h.1)

        by_outcome :
            (o : ReadOutcome J)
            → Succeeds (elim o [
              | closed ↦ some (record touched { worker = close_connection fd touched.worker })
              | stays p closing ↦ read_done settings parse_json moved fd k p closing touched
            ])
        by_outcome closed =
            (_, refl, (close_connection-IsWellFormed fd touched.worker ready.0, h.1))
        by_outcome (stays p closing) = read_done-Succeeds fd k p closing touched ready

    -- Whatever the event and whatever the system calls return, handling it throws nothing, and
    -- keeps the gauge of the active connections at the number of connections in the map, in 32-bit
    -- arithmetic, the descriptors apart, no connection with a number that has not been given out,
    -- and the response queue without a limit of capacity; given that the kernel hands out no
    -- descriptor that is open and that the numbers do not wrap.
    pub handle_epoll_event-Succeeds :
        (own : OwnFds) (max_size timeout : ℕ) (event : EpollEvent) (k : Calls) (s : IoWorker J E)
        → AreNew k.now k.accepts s.worker
        → IsReady s
        → Succeeds (handle_epoll_event settings parse_json moved own max_size timeout event k s)
    unfolding handle_epoll_event
    handle_epoll_event-Succeeds own max_size timeout event k s new h =
        elim (Bool-cases (event.fd == own.listening_fd)) [
          | inl e ↦ rw e (_, refl, (on_connect-IsWellFormed k.now k.accepts s.worker new h.0, h.1))
          | inr e ↦ elim (Bool-cases (event.fd == own.timer_fd)) [
            | inl f ↦
                rw (e, f)
                  (
                    _,
                    refl,
                    (on_timer_tick-IsWellFormed k.timer_read timeout k.now s.worker h.0, h.1),
                  )
            | inr f ↦ elim (Bool-cases (event.fd == own.event_fd)) [
              | inl g ↦ rw (e, f, g) (_, refl, process_response_queue-IsReady k s h)
              | inr g ↦
                  rw (e, f, g)
                    (bind-Succeeds _ _ (by_flag event.epollin) (λ t r. (
                      _,
                      refl,
                      hang_up-IsReady event.epollerr event.epollrdhup event.fd _
                          (written event.epollout t r),
                    )))
            ]
          ]
        ]
      where
        by_flag :
            (flag : Bool)
            → Succeeds
                (if flag then on_read settings parse_json moved max_size event.fd k s else some s)
        by_flag true = on_read-Succeeds max_size event.fd k s h
        by_flag false = (s, refl, h)

        written :
            (flag : Bool) (t : IoWorker J E)
            → IsReady t
            → IsReady (if flag then on_write event.fd k t else t)
        written true t r = on_write-IsReady event.fd k t r
        written false t r = r
