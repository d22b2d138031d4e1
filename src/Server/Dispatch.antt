-- ===== src/Server/Dispatch.antt =====
-- `io_worker::dispatch_to_worker` of src/server.cpp: the task that it gives to the thread pool, and
-- the answer when the pool's queue is full. `responses` is `m_response_queue`.
use apiserver_asymetric_encr.Base.{
  Option-cases, length, ℕ, ◌≤◌, ◌≡◌, refl, ◌⊎◌, inl, inr, Bool, Option, none, some, [], ◌∷◌, ◌++◌,
  arith,
}
use apiserver_asymetric_encr.Text.{bytes}
use apiserver_asymetric_encr.Request.Access.{Request, get_header_value}
use apiserver_asymetric_encr.Router.{ApiEndpoint}
use apiserver_asymetric_encr.Pool.{SharedQueue, push}
use apiserver_asymetric_encr.Server.{
  service_unavailable, Response, new_response, set_body, set_json,
}
use apiserver_asymetric_encr.Server.Handler.{Handler, Checker, execute_handler}

pub record Task (J E : Type 0) : Type 0 where
  pub fd : ℕ
  pub connection_id : ℕ
  pub req : Request J
  pub endpoint : E

pub record Answer : Type 0 where
  pub client_fd : ℕ
  pub connection_id : ℕ
  pub res : Response

pub record Queues (J E : Type 0) : Type 0 where
  pub tasks : SharedQueue (Task J E)
  pub responses : SharedQueue Answer

-- The response queue of the server has no capacity, so a push on it succeeds.
pub push_unbounded :
    {A : Type 0} (a : A) (q : SharedQueue A)
    → q.capacity ≡ 0
    → push a q ≡ some (record q { queue = q.queue ++ a ∷ [] })
unfolding push
push_unbounded a q e = ground arith

push_full : {A : Type 0} (a : A) (q : SharedQueue A) → push a q ≡ none → q.capacity ≤ length q.queue
unfolding push
push_full a q e = ground arith

push_free :
    {A : Type 0} (a : A) (q r : SharedQueue A)
    → push a q ≡ some r
    → r ≡ record q { queue = q.queue ++ a ∷ [] }
unfolding push
push_free a q r e = ground arith

module _ {J E : Type 0} where
  -- A push on the response queue; a queue that is full would throw, which no one catches.
  unfoldable pub push_answer : Answer → Queues J E → Option (Queues J E)
  push_answer a s = elim (push a s.responses) [
    | none ↦ none
    | some q ↦ some (record s { responses = q })
  ]

  unfoldable pub dispatch_to_worker : Task J E → Queues J E → Option (Queues J E)
  dispatch_to_worker task s = elim (push task s.tasks) [
    | some q ↦ some (record s { tasks = q })
    | none ↦
        push_answer
          (record {
            client_fd = task.fd;
            connection_id = task.connection_id;
            res =
                set_json service_unavailable
                  (bytes "{\"error\":\"Service Unavailable: Server Overloaded\"}")
                  (new_response (get_header_value task.req (bytes "Origin")));
          })
          s
  ]

  overloaded : Task J E → Answer
  overloaded task = record {
    client_fd = task.fd;
    connection_id = task.connection_id;
    res =
        set_json service_unavailable
          (bytes "{\"error\":\"Service Unavailable: Server Overloaded\"}")
          (new_response (get_header_value task.req (bytes "Origin")));
  }

  overloaded_status : (task : Task J E) → (overloaded task).res.status ≡ some service_unavailable
  unfolding overloaded set_body new_response
  overloaded_status task = refl

  -- A request that is dispatched is not lost: with a response queue of no capacity limit, either
  -- its task waits at the end of the task queue, or the task queue is full and one response with
  -- status 503 for its connection waits at the end of the response queue.
  pub dispatch_to_worker_cases :
      (task : Task J E) (s : Queues J E)
      → s.responses.capacity ≡ 0
      → (dispatch_to_worker task s
          ≡ some (record s { tasks = record s.tasks { queue = s.tasks.queue ++ task ∷ [] } }))
        ⊎ ((s.tasks.capacity ≤ length s.tasks.queue)
            × ((a : Answer) × (a.client_fd ≡ task.fd)
                × (a.connection_id ≡ task.connection_id)
                × (a.res.status ≡ some service_unavailable)
                × (dispatch_to_worker task s
                    ≡ some (record s {
                      responses = record s.responses { queue = s.responses.queue ++ a ∷ [] };
                    }))))
  unfolding dispatch_to_worker push_answer overloaded
  dispatch_to_worker_cases task s e = elim (Option-cases (push task s.tasks)) [
    | inr (q, f) ↦ inl (rw (f, dispatch_to_worker) (rw (push_free task s.tasks q f) refl))
    | inl f ↦ inr (
      push_full task s.tasks f,
      (
        overloaded task,
        refl,
        refl,
        overloaded_status task,
        rw (f, dispatch_to_worker)
            (rw (push_unbounded (overloaded task) s.responses e, push_answer) refl),
      ),
    )
  ]

-- The body of the task.
unfoldable pub run_task :
    {J W : Type 0}
    → (Request J → Bool)
    → Task J (ApiEndpoint (Handler J W) (Checker J))
    → W
    → Queues J (ApiEndpoint (Handler J W) (Checker J))
    → W × Option (Queues J (ApiEndpoint (Handler J W) (Checker J)))
run_task token_ok task w s =
    let (w', res) =
      execute_handler token_ok task.endpoint task.req w
        (new_response (get_header_value task.req (bytes "Origin"))) in
    (
      w',
      push_answer (record { client_fd = task.fd; connection_id = task.connection_id; res = res }) s,
    )

-- A task that runs pushes one response, for the connection that asked, and the response is what the
-- endpoint's run leaves, with a response queue of no capacity limit.
pub run_task_lem :
    {J W : Type 0} (token_ok : Request J → Bool)
    (task : Task J (ApiEndpoint (Handler J W) (Checker J))) (w : W)
    (s : Queues J (ApiEndpoint (Handler J W) (Checker J)))
    → s.responses.capacity ≡ 0
    → let r =
        execute_handler token_ok task.endpoint task.req w
          (new_response (get_header_value task.req (bytes "Origin"))) in
      let a : Answer = record {
        client_fd = task.fd;
        connection_id = task.connection_id;
        res = r.1;
      } in
      run_task token_ok task w s ≡ (
        r.0,
        some (record s { responses = record s.responses { queue = s.responses.queue ++ a ∷ [] } }),
      )
unfolding run_task push_answer
run_task_lem token_ok task w s e = rw (push_unbounded _ s.responses e, push_answer) refl
