-- ===== src/Events/Listed.antt =====
-- Every event of src/server.cpp's loop keeps the timeout list in the order of the last activity, as
-- long as the clock does not run backwards and each accepted descriptor could be added to epoll.
pub mod Handlers
use apiserver_asymetric_encr.Base.{
  ◌>>=◌, ◌==◌, if◌then◌else◌, Bool-cases, Option-cases, ℕ, ◌≤◌, ◌≡◌, refl, subst, inl, inr, Bool,
  true, false, ◌||◌, Option, none, some, arith,
}
use apiserver_asymetric_encr.Text.{Bytes}
use apiserver_asymetric_encr.Request.Model.{Parser}
use apiserver_asymetric_encr.Request.Eof.{eof}
use apiserver_asymetric_encr.Reads.{ReadOutcome, stays, closed, handle_socket_read}
use apiserver_asymetric_encr.Connections.{
  Connection, find_connection, touch_connection, close_connection,
}
use apiserver_asymetric_encr.Connections.Listed.{IsListed}
use apiserver_asymetric_encr.Connections.Listed.Steps.{updated-IsListed, later-IsListed}
use apiserver_asymetric_encr.Connections.Listed.Moves.{
  touch_connection-IsListed, close_connection-IsListed,
}
use apiserver_asymetric_encr.Server.Routing.{
  Settings, Outcome, reject, respond, dispatch, process_request,
}
use apiserver_asymetric_encr.Server.Dispatch.{Queues, dispatch_to_worker}
use apiserver_asymetric_encr.Events.{
  IoWorker, OwnFds, EpollEvent, Calls, process_response_queue, on_write, change, carry_out,
  process_request_of, read_done, on_read, handle_epoll_event,
}
use apiserver_asymetric_encr.Events.Keeps.Handlers.{AreNew}
use apiserver_asymetric_encr.Events.Listed.Handlers.{
  AreAdded, Leaves, bind-Leaves, on_connect-IsListed, on_timer_tick-IsListed,
  deliver_batch-IsListed, Listed, on_write-IsListed, hang_up-IsListed, push_response-Leaves,
}
use apiserver_asymetric_encr.Connections.Listed.Writing.{modify_epoll-IsListed}

module _ {J E : Type 0} where
  module _ (settings : Settings E) (parse_json : Bytes → Option J)
      (moved : Parser J → Parser J) where
    carry_out-Leaves :
        (now fd : ℕ) (c : Connection J) (o : Outcome J E) (s : IoWorker J E)
        → Listed now s
        → Leaves (Listed now) (carry_out settings parse_json moved fd c o s)
    unfolding carry_out
    carry_out-Leaves now fd c (reject res) s v =
        push_response-Leaves now fd c.connection_id res _
          (updated-IsListed now fd _ s.worker (λ x. refl) (λ x. refl) v)
    carry_out-Leaves now fd c (respond res) s v =
        push_response-Leaves now fd c.connection_id res _
          (updated-IsListed now fd _ s.worker (λ x. refl) (λ x. refl) v)
    carry_out-Leaves now fd c (dispatch req endpoint) s v = by_push (
        dispatch_to_worker
          (record { fd = fd; connection_id = c.connection_id; req = req; endpoint = endpoint })
          s.queues)
      where
        by_push :
            (r : Option (Queues J E))
            → Leaves (Listed now) (
                r >>= λ q.
                some
                  (record (change fd
                    (λ x. record x { parser = moved x.parser; is_processing = true })
                    s) { queues = q }))
        by_push none = tt
        by_push (some q) = updated-IsListed now fd _ s.worker (λ x. refl) (λ x. refl) v

    read_done-Leaves :
        (fd : ℕ) (k : Calls) (p : Parser J) (closing : Bool) (s : IoWorker J E)
        → Listed k.now s
        → Leaves (Listed k.now) (read_done settings parse_json moved fd k p closing s)
    unfolding read_done process_request_of
    read_done-Leaves fd k p closing s v = elim (Bool-cases (eof p).0) [
      | inr partial ↦
          rw (partial, read_done) (modify_epoll-IsListed k.now k.read_armed fd read.worker kept)
      | inl complete ↦
          rw (complete, read_done)
            (elim (Option-cases (find_connection fd read.worker.connections)) [
              | inl e ↦ rw (e, process_request_of) kept
              | inr (c, e) ↦
                  rw (e, process_request_of)
                    (carry_out-Leaves k.now fd c
                      (process_request settings parse_json c.parser c.remote_ip) read kept)
            ])
    ]
      where
        read : IoWorker J E
        read =
            change fd
              (λ x. record x {
                parser = (eof p).1;
                close_after_write = closing || x.close_after_write;
              })
              s

        kept : Listed k.now read
        kept = updated-IsListed k.now fd _ s.worker (λ x. refl) (λ x. refl) v

    on_read-Leaves :
        (before max_size fd : ℕ) (k : Calls) (s : IoWorker J E)
        → before ≤ k.now
        → Listed before s
        → Leaves (Listed k.now) (on_read settings parse_json moved max_size fd k s)
    unfolding on_read
    on_read-Leaves before max_size fd k s le v =
        elim (Option-cases (find_connection fd s.worker.connections)) [
          | inl e ↦ rw (e, on_read) (later-IsListed before k.now s.worker le v)
          | inr (c, e) ↦ rw (e, on_read) (by_outcome (handle_socket_read max_size k.reads c.parser))
        ]
      where
        touched : IoWorker J E
        touched = record s { worker = touch_connection k.now fd s.worker }

        kept : Listed k.now touched
        kept = touch_connection-IsListed before k.now fd s.worker le v

        by_outcome :
            (o : ReadOutcome J)
            → Leaves (Listed k.now) (elim o [
              | closed ↦ some (record touched { worker = close_connection fd touched.worker })
              | stays p closing ↦ read_done settings parse_json moved fd k p closing touched
            ])
        by_outcome closed = close_connection-IsListed k.now fd touched.worker kept
        by_outcome (stays p closing) = read_done-Leaves fd k p closing touched kept

    event-Leaves :
        (before : ℕ) (own : OwnFds) (max_size timeout : ℕ) (event : EpollEvent) (k : Calls)
        (s : IoWorker J E)
        → before ≤ k.now
        → AreNew k.now k.accepts s.worker
        → AreAdded k.accepts
        → Listed before s
        → Leaves
            (Listed k.now)
            (handle_epoll_event settings parse_json moved own max_size timeout event k s)
    unfolding handle_epoll_event process_response_queue
    event-Leaves before own max_size timeout event k s le new added v =
        elim (Bool-cases (event.fd == own.listening_fd)) [
          | inl e ↦
              rw (e, handle_epoll_event)
                (on_connect-IsListed before k.now k.accepts s.worker le new added v)
          | inr e ↦ elim (Bool-cases (event.fd == own.timer_fd)) [
            | inl f ↦
                rw (e, f, handle_epoll_event)
                  (on_timer_tick-IsListed before k.timer_read timeout k.now s.worker le v)
            | inr f ↦ elim (Bool-cases (event.fd == own.event_fd)) [
              | inl g ↦
                  rw (e, f, g, handle_epoll_event)
                    (deliver_batch-IsListed before k.date k.now k.batch _ s.worker le v)
              | inr g ↦
                  rw (e, f, g, handle_epoll_event)
                    (bind-Leaves (Listed k.now) (Listed k.now) _ _ (by_flag event.epollin) (λ t r.
                      hang_up-IsListed k.now event.epollerr event.epollrdhup event.fd _
                        (written event.epollout t r)))
            ]
          ]
        ]
      where
        by_flag :
            (flag : Bool)
            → Leaves
                (Listed k.now)
                (if flag then on_read settings parse_json moved max_size event.fd k s else some s)
        by_flag true = on_read-Leaves before max_size event.fd k s le v
        by_flag false = later-IsListed before k.now s.worker le v

        written :
            (flag : Bool) (t : IoWorker J E)
            → Listed k.now t
            → Listed k.now (if flag then on_write event.fd k t else t)
        written true t r = on_write-IsListed k.now event.fd k t (omega arith) r
        written false t r = r

    -- Whatever the event and whatever the system calls return: when it is handled, every node of
    -- the timeout list is again the node of an open connection, every connection has its node, and
    -- the nodes stand in the order of the last activity, none of which is later than the clock;
    -- given that the clock does not run backwards, that the kernel hands out no descriptor that is
    -- open and each could be added to epoll, and that the connection numbers do not wrap.
    pub handle_epoll_event-IsListed :
        (before : ℕ) (own : OwnFds) (max_size timeout : ℕ) (event : EpollEvent) (k : Calls)
        (s t : IoWorker J E)
        → before ≤ k.now
        → AreNew k.now k.accepts s.worker
        → AreAdded k.accepts
        → IsListed before s.worker
        → handle_epoll_event settings parse_json moved own max_size timeout event k s ≡ some t
        → IsListed k.now t.worker
    handle_epoll_event-IsListed before own max_size timeout event k s t le new added v e =
        subst (Leaves (Listed k.now)) e
          (event-Leaves before own max_size timeout event k s le new added v)
