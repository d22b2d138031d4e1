-- ===== src/Events/Loop.antt =====
-- The loop of `io_worker::run` of src/server.cpp beside the threads of the pool: between two events
-- that the loop handles, threads take tasks and push their answers.
pub mod Sound
pub mod Handled
pub mod Given
use apiserver_asymetric_encr.Base.{ℕ, ◌≡◌, Option, some, List, [], ◌∷◌, ◌++◌}
use apiserver_asymetric_encr.Text.{Bytes}
use apiserver_asymetric_encr.Request.Model.{Parser}
use apiserver_asymetric_encr.Connections.{new_worker}
use apiserver_asymetric_encr.Pool.{SharedQueue, new_queue, item, wait_and_pop}
use apiserver_asymetric_encr.Server.{Response}
use apiserver_asymetric_encr.Server.Routing.{Settings}
use apiserver_asymetric_encr.Server.Dispatch.{Task, Answer, Queues, push_answer}
use apiserver_asymetric_encr.Events.{IoWorker, OwnFds, EpollEvent, Calls, handle_epoll_event}
use apiserver_asymetric_encr.Events.Keeps.Handlers.{AreNew}

-- The worker, and the tasks that the threads of the pool run.
pub record Running (J E : Type 0) : Type 0 where
  pub io : IoWorker J E
  pub tasks : List (Task J E)

-- A worker before its first event: the pool's queue has a capacity, the response queue has none.
unfoldable pub new_io_worker : {J E : Type 0} → ℕ → IoWorker J E
new_io_worker queue_capacity = record {
  worker = new_worker;
  queues = record { tasks = new_queue queue_capacity; responses = new_queue 0 };
}

abbrev pub answer_of : {J E : Type 0} → Task J E → Response → Answer
answer_of task res = record { client_fd = task.fd; connection_id = task.connection_id; res = res }

module _ {J E : Type 0} (settings : Settings E) (parse_json : Bytes → Option J)
    (moved : Parser J → Parser J) (own : OwnFds) (max_size timeout : ℕ) where
  -- A step of the loop or of a thread. Where an event accepts connections, the kernel hands out no
  -- descriptor that is open, and fewer than 2 ^ 64 connections have come.
  pub data Turn : Running J E → Running J E → Type 0 where
    handles :
        (r : Running J E) (event : EpollEvent) (k : Calls) (io : IoWorker J E)
        → AreNew k.now k.accepts r.io.worker
        → handle_epoll_event settings parse_json moved own max_size timeout event k r.io ≡ some io
        → Turn r (record r { io = io })
    -- A thread takes the task at the front of the queue.
    takes :
        (r : Running J E) (task : Task J E) (q : SharedQueue (Task J E))
        → wait_and_pop r.io.queues.tasks ≡ item task q
        → Turn r (record {
          io = record r.io { queues = record r.io.queues { tasks = q } };
          tasks = task ∷ r.tasks;
        })
    -- A task ends with a response, whatever the handler has made of it.
    answers :
        (r : Running J E) (before after : List (Task J E)) (task : Task J E) (res : Response)
        (queues : Queues J E)
        → r.tasks ≡ before ++ task ∷ after
        → push_answer (answer_of task res) r.io.queues ≡ some queues
        → Turn r (record { io = record r.io { queues = queues }; tasks = before ++ after })
    -- A task ends without one: its push threw.
    abandons :
        (r : Running J E) (before after : List (Task J E)) (task : Task J E)
        → r.tasks ≡ before ++ task ∷ after
        → Turn r (record r { tasks = before ++ after })

  pub data Runs (queue_capacity : ℕ) : Running J E → Type 0 where
    starts : Runs queue_capacity (record { io = new_io_worker queue_capacity; tasks = [] })
    turns : {r s : Running J E} → Runs queue_capacity r → Turn r s → Runs queue_capacity s
