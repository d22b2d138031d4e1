-- ===== src/Events/Shutdown.antt =====
-- The end of an I/O worker: `drain_pending_responses` of src/server.cpp, beside the threads of the
-- pool, which go on pushing responses.
pub mod Ends
use apiserver_asymetric_encr.Base.{
  ◌==◌, if◌then◌else◌, is_empty, ℕ, Bool, true, false, ◌&&◌, ◌||◌, none, some, List, [], ◌∷◌,
}
use apiserver_asymetric_encr.Server.Dispatch.{Answer, push_answer}
use apiserver_asymetric_encr.Events.{
  IoWorker, OwnFds, EpollEvent, Calls, process_response_queue, on_write, hang_up,
}

-- What `epoll_wait` comes back with: EINTR, another error, or events.
pub data Waited : Type 0 where
  interrupted wait_fails : Waited
  events : List (EpollEvent × Calls) → Waited

-- One round of the loop: the responses that are pushed before its check and behind it, the count of
-- unfinished tasks that the check reads, and what the system calls return.
pub record Round : Type 0 where
  pub before : List Answer
  pub unfinished : ℕ
  pub after : List Answer
  pub calls : Calls
  pub waited : Waited

-- How the loop ends: its condition, `break`, or, where the rounds at hand are used up, not yet.
pub data Drained (J E : Type 0) : Type 0 where
  complete broken_off draining : IoWorker J E → Drained J E

abbrev pub is_own : OwnFds → ℕ → Bool
is_own own fd = fd == own.listening_fd || fd == own.timer_fd || fd == own.event_fd

module _ {J E : Type 0} where
  -- A push of a thread of the pool, which catches what it throws.
  unfoldable pub arrive_one : Answer → IoWorker J E → IoWorker J E
  arrive_one a s = elim (push_answer a s.queues) [
    | none ↦ s
    | some queues ↦ record s { queues = queues }
  ]

  unfoldable pub arrive : List Answer → IoWorker J E → IoWorker J E
  arrive [] s = s
  arrive (a ∷ rest) s = arrive rest (arrive_one a s)

  -- The body of the loop over the events.
  unfoldable pub drain_event : OwnFds → EpollEvent → Calls → IoWorker J E → IoWorker J E
  drain_event own event k s =
      let t = if event.epollout then on_write event.fd k s else s in
      if is_own own event.fd
      then s
      else hang_up (event.epollerr || event.epollin) event.epollrdhup event.fd t

  unfoldable pub drain_events : OwnFds → List (EpollEvent × Calls) → IoWorker J E → IoWorker J E
  drain_events own [] s = s
  drain_events own ((event, k) ∷ rest) s = drain_events own rest (drain_event own event k s)

  unfoldable pub drain_pending_responses : OwnFds → List Round → IoWorker J E → Drained J E
  drain_pending_responses own [] s = draining s
  drain_pending_responses own (r ∷ rest) s =
      let checked = arrive r.before s in
      let processed = process_response_queue r.calls (arrive r.after checked) in
      elim (r.unfinished == 0 && is_empty checked.queues.responses.queue) [
        | true ↦ complete checked
        | false ↦ elim r.waited [
          | interrupted ↦ drain_pending_responses own rest processed
          | wait_fails ↦ broken_off processed
          | events es ↦ drain_pending_responses own rest (drain_events own es processed)
        ]
      ]
