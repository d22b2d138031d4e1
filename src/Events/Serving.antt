-- ===== src/Events/Serving.antt =====
-- From the socket to the pool: which requests the read handler of src/server.cpp hands to a worker.
use apiserver_asymetric_encr.Base.{
  Bool-cases, ℕ, ◌≡◌, refl, sym, ap, ◌∙◌, subst, ◌⊎◌, inl, inr, Bool, true, ◌||◌, Option, none,
  some, [], ◌∷◌, ◌++◌, arith,
}
use apiserver_asymetric_encr.Text.{Bytes, bytes}
use apiserver_asymetric_encr.Request.Model.{ParseError, Parser}
use apiserver_asymetric_encr.Request.Access.{Request, make_request}
use apiserver_asymetric_encr.Request.Eof.{eof}
use apiserver_asymetric_encr.Request.Finalize.{finalize}
use apiserver_asymetric_encr.Request.Finalize.Result.{IsUnparsed, IsSafeRequest, finalize-eof}
use apiserver_asymetric_encr.Connections.{
  Connection, find_connection, touch_connection, modify_epoll,
}
use apiserver_asymetric_encr.Connections.Maps.{find_connection-update_same}
use apiserver_asymetric_encr.Server.{bad_request, Response, new_response, set_json}
use apiserver_asymetric_encr.Server.Routing.{
  Settings, Outcome, reject, respond, dispatch, route_parsed_request, process_request, Routed,
  process_request_dispatch,
}
use apiserver_asymetric_encr.Server.Dispatch.{
  Task, Answer, Queues, push_unbounded, push_answer, dispatch_to_worker, dispatch_to_worker_cases,
}
use apiserver_asymetric_encr.Events.{
  IoWorker, Calls, change, push_response, carry_out, process_request_of, read_done, on_read,
}
use apiserver_asymetric_encr.Reads.{stays, handle_socket_read}

some_value : {A : Type 0} {x y : A} → Path (Option A) (some x) (some y) → x ≡ y
some_value e = ground arith

module _ {J E : Type 0} where
  push_response-tasks :
      (fd conn_id : ℕ) (res : Response) (s t : IoWorker J E)
      → s.queues.responses.capacity ≡ 0
      → push_response fd conn_id res s ≡ some t
      → t.queues.tasks ≡ s.queues.tasks
  unfolding push_response push_answer
  push_response-tasks fd conn_id res s t h e =
      let a : Answer = record { client_fd = fd; connection_id = conn_id; res = res } in
      let pushed : push_response fd conn_id res s
          ≡ some (record s {
            queues = record s.queues {
              responses = record s.queues.responses {
                queue = s.queues.responses.queue ++ (a ∷ []);
              };
            };
          }) =
        rw (push_unbounded a s.queues.responses h, push_answer) refl in
      ap (λ x. x.queues.tasks) (sym (some_value (sym pushed ∙ e)))

  module _ (settings : Settings E) (parse_json : Bytes → Option J)
      (moved : Parser J → Parser J) where
    -- The task of a dispatch waits, and its connection is marked.
    abbrev pub Handed : ℕ → Connection J → Request J → E → IoWorker J E → IoWorker J E → Type 0
    Handed fd c req endpoint s t =
        (t.queues.tasks.queue
          ≡ s.queues.tasks.queue
            ++ (record { fd = fd; connection_id = c.connection_id; req = req; endpoint = endpoint }
                ∷ []))
        × ((d : Connection J) × (find_connection fd t.worker.connections ≡ some d)
            × (d.is_processing ≡ true))

    carry_out-tasks :
        (fd : ℕ) (c : Connection J) (o : Outcome J E) (s t : IoWorker J E)
        → s.queues.responses.capacity ≡ 0
        → find_connection fd s.worker.connections ≡ some c
        → carry_out settings parse_json moved fd c o s ≡ some t
        → (t.queues.tasks ≡ s.queues.tasks)
          ⊎ ((req : Request J) × (endpoint : E) × (o ≡ dispatch req endpoint)
              × Handed fd c req endpoint s t)
    unfolding carry_out
    carry_out-tasks fd c (reject res) s t h found e =
        inl (push_response-tasks fd c.connection_id res (change fd _ s) t h e)
    carry_out-tasks fd c (respond res) s t h found e =
        inl (push_response-tasks fd c.connection_id res (change fd _ s) t h e)
    carry_out-tasks fd c (dispatch req endpoint) s t h found e =
        elim (dispatch_to_worker_cases task s.queues h) [
          | inr (full, (a, f, i, st, d)) ↦
              inl (ap (λ x. x.queues.tasks) (sym (some_value (sym (run_of _ d) ∙ e))))
          | inl d ↦
              let same_state = some_value (sym (run_of _ d) ∙ e) in
              inr (
                req,
                endpoint,
                refl,
                (
                  ap (λ x. x.queues.tasks.queue) (sym same_state),
                  (
                    mark c,
                    ap (λ x. find_connection fd x.worker.connections) (sym same_state)
                        ∙ find_connection-update_same fd mark c s.worker.connections found,
                    refl,
                  ),
                ),
              )
        ]
      where
        task : Task J E
        task = record { fd = fd; connection_id = c.connection_id; req = req; endpoint = endpoint }

        mark : Connection J → Connection J
        mark x = record x { parser = moved x.parser; is_processing = true }

        run_of :
            (q : Queues J E)
            → dispatch_to_worker task s.queues ≡ some q
            → carry_out settings parse_json moved fd c (dispatch req endpoint) s
              ≡ some (record (change fd mark s) { queues = q })
        run_of q d = rw d refl

    -- Behind `eof`, the outcome is that of the parser as it was read.
    process_request-eof :
        (p : Parser J) (ip : Bytes)
        → IsUnparsed p
        → (eof p).0 ≡ true
        → process_request settings parse_json (eof p).1 ip
          ≡ process_request settings parse_json p ip
    unfolding process_request
    process_request-eof p ip u complete = ap routed (finalize-eof parse_json p u complete)
      where
        routed : Parser J × Option ParseError → Outcome J E
        routed r = elim r.1 [
          | some err ↦
              reject
                (set_json bad_request (bytes "{\"error\":\"Bad Request\"}") (new_response none))
          | none ↦ route_parsed_request settings (make_request r.0 ip)
        ]

    -- What a task that the read handler hands over rests on.
    abbrev pub Served : ℕ → Connection J → Parser J → IoWorker J E → IoWorker J E → Type 0
    Served fd c p s t =
        (endpoint : E) × IsSafeRequest (finalize parse_json p).0
        × Routed settings (make_request (finalize parse_json p).0 c.remote_ip) endpoint
        × Handed fd c (make_request (finalize parse_json p).0 c.remote_ip) endpoint s t

    read_done-tasks :
        (fd : ℕ) (k : Calls) (p : Parser J) (closing : Bool) (c : Connection J) (s t : IoWorker J E)
        → find_connection fd s.worker.connections ≡ some c
        → IsUnparsed p
        → s.queues.responses.capacity ≡ 0
        → read_done settings parse_json moved fd k p closing s ≡ some t
        → (t.queues.tasks ≡ s.queues.tasks) ⊎ Served fd c p s t
    unfolding read_done process_request_of
    read_done-tasks fd k p closing c s t found u h e = elim (Bool-cases (eof p).0) [
      | inr partial ↦
          let run : read_done settings parse_json moved fd k p closing s
              ≡ some (record read { worker = modify_epoll k.read_armed fd read.worker }) =
            rw (partial, read_done) refl in
          inl (ap (λ x. x.queues.tasks) (sym (some_value (sym run ∙ e))))
      | inl complete ↦
          let run : read_done settings parse_json moved fd k p closing s
              ≡ carry_out settings parse_json moved fd (store c)
                  (process_request settings parse_json (eof p).1 c.remote_ip) read =
            rw (complete, read_done) (rw (stored, process_request_of) refl) in
          elim (carry_out-tasks fd (store c)
            (process_request settings parse_json (eof p).1 c.remote_ip) read t h stored
            (sym run ∙ e)) [
              | inl kept ↦ inl kept
              | inr (req, endpoint, outcome, handed) ↦
                  let (safe, as_parsed, routed) =
                    process_request_dispatch settings parse_json p c.remote_ip req endpoint u
                      (sym (process_request-eof p c.remote_ip u complete) ∙ outcome) in
                  inr (
                    endpoint,
                    safe,
                    routed,
                    subst (λ r. Handed fd c r endpoint s t) as_parsed handed,
                  )
            ]
    ]
      where
        store : Connection J → Connection J
        store x = record x {
          parser = (eof p).1;
          close_after_write = closing || x.close_after_write;
        }

        read : IoWorker J E
        read = change fd store s

        stored : find_connection fd read.worker.connections ≡ some (store c)
        stored = find_connection-update_same fd store c s.worker.connections found

    touched_found :
        (now fd : ℕ) (c : Connection J) (s : IoWorker J E)
        → find_connection fd s.worker.connections ≡ some c
        → find_connection fd (touch_connection now fd s.worker).connections
          ≡ some (record c { last_activity = now })
    unfolding touch_connection
    touched_found now fd c s found =
        rw (found, touch_connection)
          (find_connection-update_same fd (λ x. record x { last_activity = now }) c
            s.worker.connections found)

    -- When the read handler has read from a connection, whose parser then holds fewer than 2 ^ 64
    -- bytes and has parsed and identified nothing of them, and the response queue has no limit of
    -- capacity: either the task queue is what it was, or one task has come to its end, for this
    -- connection and its number, whose request is the one that was parsed and passed every check of
    -- the parser, of the origin and of the router, and the connection is marked as processing.
    pub on_read_serves :
        (max_size fd : ℕ) (k : Calls) (p : Parser J) (closing : Bool) (c : Connection J)
        (s t : IoWorker J E)
        → find_connection fd s.worker.connections ≡ some c
        → handle_socket_read max_size k.reads c.parser ≡ stays p closing
        → IsUnparsed p
        → s.queues.responses.capacity ≡ 0
        → on_read settings parse_json moved max_size fd k s ≡ some t
        → (t.queues.tasks ≡ s.queues.tasks) ⊎ Served fd c p s t
    unfolding on_read
    on_read_serves max_size fd k p closing c s t found reads u h e =
        let touched = record s { worker = touch_connection k.now fd s.worker } in
        let run : on_read settings parse_json moved max_size fd k s
            ≡ read_done settings parse_json moved fd k p closing touched =
          rw (found, on_read) (rw reads refl) in
        read_done-tasks fd k p closing (record c { last_activity = k.now }) touched t
          (touched_found k.now fd c s found) u h (sym run ∙ e)
