-- ===== src/Events/Loop/Handled.antt =====
-- What waits in the queues carries a number that has been given out: `on_read` and the whole of
-- `handle_epoll_event` of src/server.cpp.
use apiserver_asymetric_encr.Base.{
  ◌==◌, if◌then◌else◌, Bool-cases, Option-cases, All-append, ℕ, ◌≤◌, refl, inl, inr, Bool, true,
  false, ◌||◌, Option, some, [], ◌∷◌, arith,
}
use apiserver_asymetric_encr.Text.{Bytes}
use apiserver_asymetric_encr.Connections.{
  Connection, find_connection, touch_connection, close_connection, check_timeouts,
}
use apiserver_asymetric_encr.Connections.Keeps.{
  updated-IsWellFormed, touch_connection-IsWellFormed, close_connection-IsWellFormed,
  check_timeouts-IsWellFormed,
}
use apiserver_asymetric_encr.Connections.Numbers.{
  touch_connection-number, close_connection-number, modify_epoll-number, check_timeouts-number,
}
use apiserver_asymetric_encr.Connections.Writing.Keeps.{modify_epoll-IsWellFormed}
use apiserver_asymetric_encr.Server.Dispatch.{Task, dispatch_to_worker_cases}
use apiserver_asymetric_encr.Events.{
  IoWorker, OwnFds, EpollEvent, Calls, on_timer_tick, process_response_queue, on_write, change,
  carry_out, process_request_of, read_done, on_read, handle_epoll_event,
}
use apiserver_asymetric_encr.Events.Keeps.Handlers.{
  AreNew, on_connect-IsWellFormed, deliver_batch-IsWellFormed,
}
use apiserver_asymetric_encr.Events.Listed.Handlers.{Leaves, bind-Leaves}
use apiserver_asymetric_encr.Request.Model.{Parser}
use apiserver_asymetric_encr.Connections.Maps.{Each-find_connection}
use apiserver_asymetric_encr.Pool.{drain_to}
use apiserver_asymetric_encr.Server.Routing.{Settings, Outcome, reject, respond, dispatch}
use apiserver_asymetric_encr.Reads.{ReadOutcome, stays, closed, handle_socket_read}
use apiserver_asymetric_encr.Request.Eof.{eof}
use apiserver_asymetric_encr.Events.Loop.Sound.{
  IsSound, QueuesGiven-later, push_response-Leaves, worked-IsSound, on_connect-number,
  deliver_batch-number, on_write-IsSound, hang_up-IsSound,
}

module _ {J E : Type 0} (m : ℕ) where
  module _ (settings : Settings E) (parse_json : Bytes → Option J)
      (moved : Parser J → Parser J) where
    carry_out-Leaves :
        (fd : ℕ) (c : Connection J) (o : Outcome J E) (s : IoWorker J E)
        → c.connection_id ≤ s.worker.next_connection_id
        → IsSound m s
        → Leaves (IsSound m) (carry_out settings parse_json moved fd c o s)
    unfolding carry_out
    carry_out-Leaves fd c (reject res) s le v =
        push_response-Leaves m fd c.connection_id res _ le
          (worked-IsSound m _ s (updated-IsWellFormed fd _ s.worker (λ x. refl) v.0.0) refl v)
    carry_out-Leaves fd c (respond res) s le v =
        push_response-Leaves m fd c.connection_id res _ le
          (worked-IsSound m _ s (updated-IsWellFormed fd _ s.worker (λ x. refl) v.0.0) refl v)
    carry_out-Leaves fd c (dispatch req endpoint) s le ((ready, free), (since, waiting, answered)) =
        let task : Task J E = record {
          fd = fd;
          connection_id = c.connection_id;
          req = req;
          endpoint = endpoint;
        } in
        let kept =
          updated-IsWellFormed fd (λ x. record x { parser = moved x.parser; is_processing = true })
            s.worker (λ x. refl) ready in
        elim (dispatch_to_worker_cases task s.queues free) [
          | inl e ↦
              rw (e, carry_out)
                (
                  (kept, free),
                  (since, All-append _ s.queues.tasks.queue (task ∷ []) waiting (le, tt), answered),
                )
          | inr (full, (a, here, number, known, e)) ↦
              rw (e, carry_out)
                (
                  (kept, free),
                  (
                    since,
                    waiting,
                    All-append _ s.queues.responses.queue (a ∷ []) answered
                        (omega (arith, number, le), tt),
                  ),
                )
        ]

    process_request_of-Leaves :
        (fd : ℕ) (s : IoWorker J E)
        → IsSound m s
        → Leaves (IsSound m) (process_request_of settings parse_json moved fd s)
    unfolding process_request_of
    process_request_of-Leaves fd s v =
        elim (Option-cases (find_connection fd s.worker.connections)) [
          | inl e ↦ rw (e, process_request_of) v
          | inr (c, e) ↦
              rw (e, process_request_of)
                (carry_out-Leaves fd c _ s
                  (Each-find_connection (λ x. x.connection_id ≤ s.worker.next_connection_id) fd c
                    s.worker.connections e v.0.0.numbered)
                  v)
        ]

    read_done-Leaves :
        (fd : ℕ) (k : Calls) (p : Parser J) (closing : Bool) (s : IoWorker J E)
        → IsSound m s
        → Leaves (IsSound m) (read_done settings parse_json moved fd k p closing s)
    unfolding read_done
    read_done-Leaves fd k p closing s v =
        let t =
          change fd
            (λ x. record x {
              parser = (eof p).1;
              close_after_write = closing || x.close_after_write;
            })
            s in
        let sound : IsSound m t =
          worked-IsSound m _ s (updated-IsWellFormed fd _ s.worker (λ x. refl) v.0.0) refl v in
        elim (Bool-cases (eof p).0) [
          | inl complete ↦ rw (complete, read_done) (process_request_of-Leaves fd t sound)
          | inr waits ↦
              rw (waits, read_done)
                (worked-IsSound m _ t (modify_epoll-IsWellFormed k.read_armed fd t.worker sound.0.0)
                  (modify_epoll-number k.read_armed fd t.worker) sound)
        ]

    on_read-Leaves :
        (max_size fd : ℕ) (k : Calls) (s : IoWorker J E)
        → IsSound m s
        → Leaves (IsSound m) (on_read settings parse_json moved max_size fd k s)
    unfolding on_read
    on_read-Leaves max_size fd k s v =
        elim (Option-cases (find_connection fd s.worker.connections)) [
          | inl e ↦ rw (e, on_read) v
          | inr (c, e) ↦ rw (e, on_read) (by_outcome (handle_socket_read max_size k.reads c.parser))
        ]
      where
        touched : IoWorker J E
        touched = record s { worker = touch_connection k.now fd s.worker }

        sound : IsSound m touched
        sound =
            worked-IsSound m _ s (touch_connection-IsWellFormed k.now fd s.worker v.0.0)
              (touch_connection-number k.now fd s.worker) v

        by_outcome :
            (o : ReadOutcome J)
            → Leaves (IsSound m) (elim o [
              | closed ↦ some (record touched { worker = close_connection fd touched.worker })
              | stays p closing ↦ read_done settings parse_json moved fd k p closing touched
            ])
        by_outcome closed =
            worked-IsSound m _ touched (close_connection-IsWellFormed fd touched.worker sound.0.0)
              (close_connection-number fd touched.worker) sound
        by_outcome (stays p closing) = read_done-Leaves fd k p closing touched sound

    pub event-Leaves :
        (own : OwnFds) (max_size timeout : ℕ) (event : EpollEvent) (k : Calls) (s : IoWorker J E)
        → AreNew k.now k.accepts s.worker
        → IsSound m s
        → Leaves
            (IsSound m)
            (handle_epoll_event settings parse_json moved own max_size timeout event k s)
    unfolding handle_epoll_event process_response_queue drain_to on_timer_tick
    event-Leaves own max_size timeout event k s new v =
        elim (Bool-cases (event.fd == own.listening_fd)) [
          | inl e ↦
              rw (e, handle_epoll_event)
                (
                  (on_connect-IsWellFormed k.now k.accepts s.worker new v.0.0, v.0.1),
                  QueuesGiven-later m _ _ s.queues (on_connect-number k.now k.accepts s.worker new)
                      v.1,
                )
          | inr e ↦ elim (Bool-cases (event.fd == own.timer_fd)) [
            | inl f ↦ rw (e, f, handle_epoll_event) (ticked k.timer_read)
            | inr f ↦ elim (Bool-cases (event.fd == own.event_fd)) [
              | inl g ↦
                  rw (e, f, g, handle_epoll_event)
                    (
                      (deliver_batch-IsWellFormed k.date k.now k.batch _ s.worker v.0.0, v.0.1),
                      QueuesGiven-later m _ _ ((process_response_queue k s).queues)
                          (omega (
                            arith,
                            deliver_batch-number k.date k.now k.batch s.queues.responses.queue
                                s.worker,
                          ))
                          (v.1.0, v.1.1, tt),
                    )
              | inr g ↦
                  rw (e, f, g, handle_epoll_event)
                    (bind-Leaves (IsSound m) (IsSound m) _ _ (by_flag event.epollin) (λ t r.
                      hang_up-IsSound m event.epollerr event.epollrdhup event.fd _
                        (written event.epollout t r)))
            ]
          ]
        ]
      where
        ticked :
            (flag : Bool)
            → IsSound m (record s {
              worker = if flag then check_timeouts timeout k.now s.worker else s.worker;
            })
        ticked true =
            worked-IsSound m _ s (check_timeouts-IsWellFormed timeout k.now s.worker v.0.0)
              (check_timeouts-number timeout k.now s.worker) v
        ticked false = v

        by_flag :
            (flag : Bool)
            → Leaves
                (IsSound m)
                (if flag then on_read settings parse_json moved max_size event.fd k s else some s)
        by_flag true = on_read-Leaves max_size event.fd k s v
        by_flag false = v

        written :
            (flag : Bool) (t : IoWorker J E)
            → IsSound m t
            → IsSound m (if flag then on_write event.fd k t else t)
        written true t r = on_write-IsSound m event.fd k t r
        written false t r = r
