-- ===== src/Connections/Listed/Writing.antt =====
-- Writing and delivering, of src/server.cpp, keep the timeout list in order.
use apiserver_asymetric_encr.Base.{
  ◌==◌, Bool-cases, Option-cases, ℕ, ◌≤◌, refl, inl, inr, Bool, true, false, some, List, [], ◌∷◌,
  arith,
}
use apiserver_asymetric_encr.Connections.{
  Sending, available_to_send, sent, Connection, reset, ResponseItem, Worker, find_connection,
  update_connection, touch_connection, close_connection, modify_epoll,
}
use apiserver_asymetric_encr.Connections.Maps.{find_connection-update_same}
use apiserver_asymetric_encr.Connections.Order.{Distinct-update}
use apiserver_asymetric_encr.Connections.Writing.{
  Written, wrote, would_block, write_error, response_done, write_loop, do_write, deliver,
}
use apiserver_asymetric_encr.Connections.Listed.{IsListed}
use apiserver_asymetric_encr.Connections.Listed.Steps.{
  find-update_other, update_none, updated-IsListed, later-IsListed,
}
use apiserver_asymetric_encr.Connections.Listed.Moves.{
  touched-IsListed, touch_connection-IsListed, close_connection-IsListed,
}

module _ {J : Type 0} where
  pub modify_epoll-IsListed :
      (now : ℕ) (armed : Bool) (fd : ℕ) (w : Worker J)
      → IsListed now w
      → IsListed now (modify_epoll armed fd w)
  unfolding modify_epoll
  modify_epoll-IsListed now true fd w v = v
  modify_epoll-IsListed now false fd w v = close_connection-IsListed now fd w v

  reset-IsListed :
      (now fd : ℕ) (w : Worker J)
      → IsListed now w
      → IsListed now (
          touch_connection now fd
            (record w { connections = update_connection fd (reset now) w.connections }))
  unfolding reset
  reset-IsListed now fd w v = elim (Option-cases (find_connection fd w.connections)) [
    | inl e ↦
        rw (update_none fd (reset now) w.connections e)
          (touch_connection-IsListed now now fd w (omega arith) v)
    | inr (c, e) ↦
        touched-IsListed now now fd (update_connection fd (reset now) w.connections) w c
          (reset now c) (omega arith) e
          (find_connection-update_same fd (reset now) c w.connections e) refl
          (λ k q. find-update_other k fd (reset now) w.connections q)
          (Distinct-update fd (reset now) w.connections v.distinct) v
  ]

  response_done-IsListed :
      (armed : Bool) (now fd : ℕ) (c : Connection J) (w : Worker J)
      → IsListed now w
      → IsListed now (response_done armed now fd c w)
  unfolding response_done
  response_done-IsListed armed now fd c w v = elim (Bool-cases c.close_after_write) [
    | inl e ↦ rw (e, response_done) (close_connection-IsListed now fd w v)
    | inr e ↦
        rw (e, response_done) (modify_epoll-IsListed now armed fd _ (reset-IsListed now fd w v))
  ]

  write_loop-IsListed :
      (armed : Bool) (now fd : ℕ) (results : List Written) (s : Sending) (c : Connection J)
      (w : Worker J)
      → IsListed now w
      → IsListed now (write_loop armed now fd results s c w)
  unfolding write_loop
  write_loop-IsListed armed now fd [] s c w v = elim (Bool-cases (available_to_send s == 0)) [
    | inl e ↦ rw e (response_done-IsListed armed now fd c w v)
    | inr e ↦ rw e (modify_epoll-IsListed now armed fd w v)
  ]
  write_loop-IsListed armed now fd (r ∷ rest) s c w v =
      elim (Bool-cases (available_to_send s == 0)) [
        | inl e ↦ rw e (response_done-IsListed armed now fd c w v)
        | inr e ↦ rw e (by_result r (λ n u. write_loop-IsListed armed now fd rest (sent n s) c u))
      ]
    where
      by_result :
          (r : Written)
          → ((n : ℕ) (u : Worker J)
              → IsListed now u
              → IsListed now (write_loop armed now fd rest (sent n s) c u))
          → IsListed now (elim r [
            | wrote n ↦ write_loop armed now fd rest (sent n s) c (record w {
              connections =
                  update_connection fd (λ x. record x { response = some (sent n s) }) w.connections;
            })
            | would_block ↦ modify_epoll armed fd w
            | write_error ↦ close_connection fd w
          ])
      by_result (wrote n) later = later n _ (
          updated-IsListed now fd (λ x. record x { response = some (sent n s) }) w (λ x. refl)
            (λ x. refl) v)
      by_result would_block later = modify_epoll-IsListed now armed fd w v
      by_result write_error later = close_connection-IsListed now fd w v

  pub do_write-IsListed :
      (before : ℕ) (armed : Bool) (now fd : ℕ) (results : List Written) (c : Connection J)
      (w : Worker J)
      → before ≤ now
      → IsListed before w
      → IsListed now (do_write armed now fd results c w)
  unfolding do_write
  do_write-IsListed before armed now fd results c w le v = elim (Option-cases c.response) [
    | inl e ↦ rw (e, do_write) (later-IsListed before now w le v)
    | inr (s, e) ↦
        rw (e, do_write)
          (write_loop-IsListed armed now fd results s c _
            (touch_connection-IsListed before now fd w le v))
  ]

  pub deliver-IsListed :
      (before : ℕ) (armed : Bool) (now : ℕ) (results : List Written) (item : ResponseItem)
      (w : Worker J)
      → before ≤ now
      → IsListed before w
      → IsListed now (deliver armed now results item w)
  unfolding deliver
  deliver-IsListed before armed now results item w le v =
      elim (Option-cases (find_connection item.client_fd w.connections)) [
        | inl e ↦ rw (e, deliver) (later-IsListed before now w le v)
        | inr (c, e) ↦ elim (Bool-cases (c.connection_id == item.connection_id)) [
          | inr stale ↦ rw (e, deliver) (rw stale (later-IsListed before now w le v))
          | inl fresh ↦
              rw (e, deliver)
                (rw fresh (
                  do_write-IsListed before armed now item.client_fd results _ _ le
                    (updated-IsListed before item.client_fd _ w (λ x. refl) (λ x. refl) v)))
        ]
      ]
