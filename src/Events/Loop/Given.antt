-- ===== src/Events/Loop/Given.antt =====
-- In every run of the loop of src/server.cpp, what waits or runs carries a connection number that has
-- been given out, so that an answer for a connection that is gone reaches no other.
use apiserver_asymetric_encr.Base.{
  All, All-append, All-mono, All-middle, size_mod, ℕ, suc, ◌≤◌, ◌<◌, ◌≡◌, refl, subst, Bool, true,
  Option, none, some, List, [], ◌∷◌, ◌++◌, arith,
}
use apiserver_asymetric_encr.Text.{Bytes}
use apiserver_asymetric_encr.Connections.{ResponseItem, new_worker, find_connection, accept_one}
use apiserver_asymetric_encr.Connections.Writing.{Written, deliver}
use apiserver_asymetric_encr.Server.{Response}
use apiserver_asymetric_encr.Server.Dispatch.{Task, Answer, Queues, push_unbounded, push_answer}
use apiserver_asymetric_encr.Events.{IoWorker, OwnFds, EpollEvent, Calls, handle_epoll_event}
use apiserver_asymetric_encr.Events.Keeps.Handlers.{AreNew}
use apiserver_asymetric_encr.Events.Listed.Handlers.{Leaves}
use apiserver_asymetric_encr.Events.Loop.{
  Running, new_io_worker, answer_of, Turn, handles, takes, answers, abandons, Runs, starts, turns,
}
use apiserver_asymetric_encr.Request.Model.{Parser}
use apiserver_asymetric_encr.Pool.{SharedQueue, new_queue, item, wait_and_pop}
use apiserver_asymetric_encr.Server.Routing.{Settings}
use apiserver_asymetric_encr.Connections.Stale.{deliver_stale}
use apiserver_asymetric_encr.Pool.Fifo.{pop_item}
use apiserver_asymetric_encr.Connections.Calls.{begun, Reachable-IsWellFormed}
use apiserver_asymetric_encr.Events.Loop.Sound.{IsSound}
use apiserver_asymetric_encr.Events.Loop.Handled.{event-Leaves}

-- What the threads run carries numbers that have been given out, too.
abbrev IsGiven : {J E : Type 0} → Running J E → Type 0
IsGiven r = IsSound 0 r.io × All (λ t. t.connection_id ≤ r.io.worker.next_connection_id) r.tasks

module _ {J E : Type 0} where
  take-IsGiven :
      (r : Running J E) (task : Task J E) (q : SharedQueue (Task J E))
      → wait_and_pop r.io.queues.tasks ≡ item task q
      → IsGiven r
      → IsGiven (record {
        io = record r.io { queues = record r.io.queues { tasks = q } };
        tasks = task ∷ r.tasks;
      })
  take-IsGiven r task q e ((ready, (since, waiting, answered)), running) =
      let (front, same_queue) = pop_item r.io.queues.tasks q task e in
      let (here, others) =
        subst (All (λ t. t.connection_id ≤ r.io.worker.next_connection_id)) front waiting in
      ((ready, (since, others, answered)), (here, running))

  answer-IsGiven :
      (r : Running J E) (before after : List (Task J E)) (task : Task J E) (res : Response)
      (queues : Queues J E)
      → r.tasks ≡ before ++ task ∷ after
      → push_answer (answer_of task res) r.io.queues ≡ some queues
      → IsGiven r
      → IsGiven (record { io = record r.io { queues = queues }; tasks = before ++ after })
  unfolding push_answer
  answer-IsGiven r before after task res queues e f
        (((formed, free), (since, waiting, answered)), running) =
      let n = r.io.worker.next_connection_id in
      let a = answer_of task res in
      let pushed : Queues J E = record r.io.queues {
        responses = record r.io.queues.responses { queue = r.io.queues.responses.queue ++ a ∷ [] };
      } in
      let same_queues : pushed ≡ queues =
        some_inj (rw (push_unbounded a r.io.queues.responses free, push_answer) at f) in
      let (here, others) =
        All-middle (λ t. t.connection_id ≤ n) before after task
          (subst (All (λ t. t.connection_id ≤ n)) e running) in
      (
        subst (λ q. IsSound 0 (record r.io { queues = q })) same_queues
            (
              (formed, free),
              (
                since,
                waiting,
                All-append _ r.io.queues.responses.queue (a ∷ []) answered (here, tt),
              ),
            ),
        others,
      )
    where
      some_inj : {x y : Queues J E} → some x ≡ some y → x ≡ y
      some_inj g = cc

module _ {J E : Type 0} (settings : Settings E) (parse_json : Bytes → Option J)
    (moved : Parser J → Parser J) (own : OwnFds) (max_size timeout : ℕ) where
  handle-IsGiven :
      (r : Running J E) (event : EpollEvent) (k : Calls) (io : IoWorker J E)
      → AreNew k.now k.accepts r.io.worker
      → handle_epoll_event settings parse_json moved own max_size timeout event k r.io ≡ some io
      → IsGiven r
      → IsGiven (record r { io = io })
  handle-IsGiven r event k io new e ((ready, (since, waiting, answered)), running) =
      let n = r.io.worker.next_connection_id in
      let (ready', (later, waiting', answered')) : IsSound n io = subst (Leaves (IsSound n)) e (
        event-Leaves n settings parse_json moved own max_size timeout event k r.io new
          (ready, (omega arith, waiting, answered))) in
      (
        (ready', (omega arith, waiting', answered')),
        All-mono _ _ r.tasks (λ t h. omega arith) running,
      )

  Turn-IsGiven :
      {r s : Running J E}
      → Turn settings parse_json moved own max_size timeout r s
      → IsGiven r
      → IsGiven s
  Turn-IsGiven (handles r event k io new e) v = handle-IsGiven r event k io new e v
  Turn-IsGiven (takes r task q e) v = take-IsGiven r task q e v
  Turn-IsGiven (answers r before after task res queues e f) v =
      answer-IsGiven r before after task res queues e f v
  Turn-IsGiven (abandons r before after task e) (sound, running) =
      (sound, (All-middle _ before after task (subst (All _) e running)).1)

  Runs-IsGiven :
      {queue_capacity : ℕ} {r : Running J E}
      → Runs settings parse_json moved own max_size timeout queue_capacity r
      → IsGiven r
  unfolding new_io_worker new_worker new_queue
  Runs-IsGiven starts = (((Reachable-IsWellFormed begun, refl), (omega arith, tt, tt)), tt)
  Runs-IsGiven (turns r t) = Turn-IsGiven t (Runs-IsGiven r)

  -- The descriptor and the number of what waits or runs.
  pub data Pending (r : Running J E) : ℕ → ℕ → Type 0 where
    answered :
        (before after : List Answer) (a : Answer)
        → r.io.queues.responses.queue ≡ before ++ a ∷ after
        → Pending r a.client_fd a.connection_id
    queued :
        (before after : List (Task J E)) (t : Task J E)
        → r.io.queues.tasks.queue ≡ before ++ t ∷ after
        → Pending r t.fd t.connection_id
    running :
        (before after : List (Task J E)) (t : Task J E)
        → r.tasks ≡ before ++ t ∷ after
        → Pending r t.fd t.connection_id

  Pending-given :
      {r : Running J E} {fd conn_id : ℕ}
      → Pending r fd conn_id
      → IsGiven r
      → conn_id ≤ r.io.worker.next_connection_id
  Pending-given (answered before after a e) v =
      (All-middle _ before after a (subst (All _) e v.0.1.2)).0
  Pending-given (queued before after t e) v =
      (All-middle _ before after t (subst (All _) e v.0.1.1)).0
  Pending-given (running before after t e) v = (All-middle _ before after t (subst (All _) e v.1)).0

  -- However the loop and the threads of the pool interleave: when no open connection has the
  -- descriptor of a queued answer, a queued task or a running task, delivering its answer, whatever
  -- it holds, changes nothing, neither then nor after the descriptor has been taken by a new
  -- connection, unless the next connection number wraps.
  pub Runs-stale :
      {queue_capacity : ℕ} {r : Running J E} {fd conn_id : ℕ}
      → Runs settings parse_json moved own max_size timeout queue_capacity r
      → Pending r fd conn_id
      → find_connection fd r.io.worker.connections ≡ none
      → suc r.io.worker.next_connection_id < size_mod
      → (armed : Bool) (now : ℕ) (results : List Written) (text ip : Bytes)
      → let it : ResponseItem = record { client_fd = fd; connection_id = conn_id; res = text } in
        let v = accept_one now true fd ip r.io.worker in
        (deliver armed now results it r.io.worker ≡ r.io.worker)
        × (deliver armed now results it v ≡ v)
  Runs-stale {r = r} {fd = fd} {conn_id = conn_id} run waits gone small armed now results text ip =
      deliver_stale armed now results
        (record { client_fd = fd; connection_id = conn_id; res = text }) ip r.io.worker gone
        (Pending-given waits (Runs-IsGiven run)) small
