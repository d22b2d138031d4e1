-- ===== src/Connections/Numbers.antt =====
-- The last connection number that was given out: only accepting a connection changes it.
use apiserver_asymetric_encr.Base.{
  leb, ◌==◌, Bool-cases, Option-cases, all, size_mod, ℕ, suc, ◌-◌, ◌≤◌, ◌<◌, ◌≡◌, refl, ◌∙◌, inl,
  inr, Bool, true, false, List, [], ◌∷◌, arith,
}
use apiserver_asymetric_encr.Text.{Bytes}
use apiserver_asymetric_encr.Connections.{
  Sending, available_to_send, sent, Connection, Node, ResponseItem, Worker, find_connection,
  touch_connection, close_connection, modify_epoll, accept_one, check_timeouts_from, check_timeouts,
}
use apiserver_asymetric_encr.Connections.Writing.{
  Written, wrote, would_block, write_error, response_done, write_loop, do_write, deliver,
}

module _ {J : Type 0} where
  pub touch_connection-number :
      (now fd : ℕ) (w : Worker J)
      → (touch_connection now fd w).next_connection_id ≡ w.next_connection_id
  unfolding touch_connection
  touch_connection-number now fd w = elim (Option-cases (find_connection fd w.connections)) [
    | inl e ↦ rw (e, touch_connection) refl
    | inr (c, e) ↦ rw (e, touch_connection) refl
  ]

  pub close_connection-number :
      (fd : ℕ) (w : Worker J) → (close_connection fd w).next_connection_id ≡ w.next_connection_id
  unfolding close_connection
  close_connection-number fd w = elim (Option-cases (find_connection fd w.connections)) [
    | inl e ↦ rw (e, close_connection) refl
    | inr (c, e) ↦ rw (e, close_connection) refl
  ]

  pub modify_epoll-number :
      (armed : Bool) (fd : ℕ) (w : Worker J)
      → (modify_epoll armed fd w).next_connection_id ≡ w.next_connection_id
  unfolding modify_epoll
  modify_epoll-number true fd w = refl
  modify_epoll-number false fd w = close_connection-number fd w

  response_done-number :
      (armed : Bool) (now fd : ℕ) (c : Connection J) (w : Worker J)
      → (response_done armed now fd c w).next_connection_id ≡ w.next_connection_id
  unfolding response_done
  response_done-number armed now fd c w = elim (Bool-cases c.close_after_write) [
    | inl closing ↦ rw (closing, response_done) (close_connection-number fd w)
    | inr staying ↦
        rw (staying, response_done)
          (modify_epoll-number armed fd _ ∙ touch_connection-number now fd _)
  ]

  write_loop-number :
      (armed : Bool) (now fd : ℕ) (results : List Written) (s : Sending) (c : Connection J)
      (w : Worker J)
      → (write_loop armed now fd results s c w).next_connection_id ≡ w.next_connection_id
  unfolding write_loop
  write_loop-number armed now fd [] s c w = elim (Bool-cases (available_to_send s == 0)) [
    | inl all ↦ rw (all, write_loop) (response_done-number armed now fd c w)
    | inr some_left ↦ rw (some_left, write_loop) (modify_epoll-number armed fd w)
  ]
  write_loop-number armed now fd (wrote n ∷ rest) s c w =
      elim (Bool-cases (available_to_send s == 0)) [
        | inl all ↦ rw (all, write_loop) (response_done-number armed now fd c w)
        | inr some_left ↦
            rw (some_left, write_loop) (write_loop-number armed now fd rest (sent n s) c _)
      ]
  write_loop-number armed now fd (would_block ∷ rest) s c w =
      elim (Bool-cases (available_to_send s == 0)) [
        | inl all ↦ rw (all, write_loop) (response_done-number armed now fd c w)
        | inr some_left ↦ rw (some_left, write_loop) (modify_epoll-number armed fd w)
      ]
  write_loop-number armed now fd (write_error ∷ rest) s c w =
      elim (Bool-cases (available_to_send s == 0)) [
        | inl all ↦ rw (all, write_loop) (response_done-number armed now fd c w)
        | inr some_left ↦ rw (some_left, write_loop) (close_connection-number fd w)
      ]

  pub do_write-number :
      (armed : Bool) (now fd : ℕ) (results : List Written) (c : Connection J) (w : Worker J)
      → (do_write armed now fd results c w).next_connection_id ≡ w.next_connection_id
  unfolding do_write
  do_write-number armed now fd results c w = elim (Option-cases c.response) [
    | inl e ↦ rw (e, do_write) refl
    | inr (s, e) ↦
        rw (e, do_write)
          (write_loop-number armed now fd results s c (touch_connection now fd w)
            ∙ touch_connection-number now fd w)
  ]

  pub deliver-number :
      (armed : Bool) (now : ℕ) (results : List Written) (item : ResponseItem) (w : Worker J)
      → (deliver armed now results item w).next_connection_id ≡ w.next_connection_id
  unfolding deliver
  deliver-number armed now results item w =
      elim (Option-cases (find_connection item.client_fd w.connections)) [
        | inl e ↦ rw (e, deliver) refl
        | inr (c, e) ↦ elim (Bool-cases (c.connection_id == item.connection_id)) [
          | inl own ↦
              rw (e, deliver) (rw own (do_write-number armed now item.client_fd results _ _))
          | inr other ↦ rw (e, deliver) (rw other refl)
        ]
      ]

  check_timeouts_from-number :
      (timeout now : ℕ) (nodes : List Node) (w : Worker J)
      → (check_timeouts_from timeout now nodes w).1.next_connection_id ≡ w.next_connection_id
  unfolding check_timeouts_from
  check_timeouts_from-number timeout now [] w = refl
  check_timeouts_from-number timeout now (n ∷ rest) w =
      elim (Option-cases (find_connection n.fd w.connections)) [
        | inl e ↦ rw (e, check_timeouts_from) (check_timeouts_from-number timeout now rest w)
        | inr (c, e) ↦ elim (Bool-cases c.is_processing) [
          | inl busy ↦
              rw (e, check_timeouts_from) (rw busy (check_timeouts_from-number timeout now rest w))
          | inr idle ↦ elim (Bool-cases (leb (now - c.last_activity) timeout)) [
            | inl young ↦ rw (e, check_timeouts_from) (rw (idle, young) refl)
            | inr old ↦
                rw (e, check_timeouts_from)
                  (rw (idle, old) (check_timeouts_from-number timeout now rest _))
          ]
        ]
      ]

  pub check_timeouts-number :
      (timeout now : ℕ) (w : Worker J)
      → (check_timeouts timeout now w).next_connection_id ≡ w.next_connection_id
  unfolding check_timeouts
  check_timeouts-number timeout now w = check_timeouts_from-number timeout now w.timeout_list w

  pub accept_one-number :
      (now : ℕ) (added : Bool) (fd : ℕ) (ip : Bytes) (w : Worker J)
      → suc w.next_connection_id < size_mod
      → w.next_connection_id ≤ (accept_one now added fd ip w).next_connection_id
  unfolding accept_one
  accept_one-number now true fd ip w h = omega arith
  accept_one-number now false fd ip w h = omega arith
