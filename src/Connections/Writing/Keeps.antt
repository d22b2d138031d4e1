-- ===== src/Connections/Writing/Keeps.antt =====
-- Writing and delivering keep the count and the numbers of the connections.
use apiserver_asymetric_encr.Base.{
  ◌==◌, Bool-cases, Option-cases, ℕ, ◌≡◌, refl, inl, inr, Bool, true, false, some, List, [], ◌∷◌,
  arith,
}
use apiserver_asymetric_encr.Connections.{
  Sending, available_to_send, sent, Connection, reset, ResponseItem, Worker, find_connection,
  update_connection, touch_connection, close_connection, modify_epoll,
}
use apiserver_asymetric_encr.Connections.Writing.{
  Written, wrote, would_block, write_error, response_done, write_loop, do_write, deliver,
}
use apiserver_asymetric_encr.Connections.Keeps.{
  IsWellFormed, updated-IsWellFormed, touch_connection-IsWellFormed, close_connection-IsWellFormed,
}

module _ {J : Type 0} where
  pub modify_epoll-IsWellFormed :
      (armed : Bool) (fd : ℕ) (w : Worker J)
      → IsWellFormed w
      → IsWellFormed (modify_epoll armed fd w)
  unfolding modify_epoll
  modify_epoll-IsWellFormed true fd w v = v
  modify_epoll-IsWellFormed false fd w v = close_connection-IsWellFormed fd w v

  response_done_closing :
      (armed : Bool) (now fd : ℕ) (c : Connection J) (w : Worker J)
      → c.close_after_write ≡ true
      → response_done armed now fd c w ≡ close_connection fd w
  unfolding response_done
  response_done_closing armed now fd c w h = ground arith

  response_done_staying :
      (armed : Bool) (now fd : ℕ) (c : Connection J) (w : Worker J)
      → c.close_after_write ≡ false
      → response_done armed now fd c w
        ≡ modify_epoll armed fd (
            touch_connection now fd
              (record w { connections = update_connection fd (reset now) w.connections }))
  unfolding response_done
  response_done_staying armed now fd c w h = ground arith

  response_done-IsWellFormed :
      (armed : Bool) (now fd : ℕ) (c : Connection J) (w : Worker J)
      → IsWellFormed w
      → IsWellFormed (response_done armed now fd c w)
  unfolding reset
  response_done-IsWellFormed armed now fd c w v = elim (Bool-cases c.close_after_write) [
    | inl closing ↦
        rw (response_done_closing armed now fd c w closing) (close_connection-IsWellFormed fd w v)
    | inr staying ↦ rw (response_done_staying armed now fd c w staying) (
        modify_epoll-IsWellFormed armed fd _ (
          touch_connection-IsWellFormed now fd _
            (updated-IsWellFormed fd (reset now) w (λ x. refl) v)))
  ]

  write_loop-IsWellFormed :
      (armed : Bool) (now fd : ℕ) (results : List Written) (s : Sending) (c : Connection J)
      (w : Worker J)
      → IsWellFormed w
      → IsWellFormed (write_loop armed now fd results s c w)
  unfolding write_loop
  write_loop-IsWellFormed armed now fd [] s c w v = elim (Bool-cases (available_to_send s == 0)) [
    | inl e ↦ rw e (response_done-IsWellFormed armed now fd c w v)
    | inr e ↦ rw e (modify_epoll-IsWellFormed armed fd w v)
  ]
  write_loop-IsWellFormed armed now fd (wrote n ∷ rest) s c w v =
      elim (Bool-cases (available_to_send s == 0)) [
        | inl e ↦ rw e (response_done-IsWellFormed armed now fd c w v)
        | inr e ↦ rw e (
            write_loop-IsWellFormed armed now fd rest (sent n s) c _ (
              updated-IsWellFormed fd (λ x. record x { response = some (sent n s) }) w (λ x. refl)
                v))
      ]
  write_loop-IsWellFormed armed now fd (would_block ∷ rest) s c w v =
      elim (Bool-cases (available_to_send s == 0)) [
        | inl e ↦ rw e (response_done-IsWellFormed armed now fd c w v)
        | inr e ↦ rw e (modify_epoll-IsWellFormed armed fd w v)
      ]
  write_loop-IsWellFormed armed now fd (write_error ∷ rest) s c w v =
      elim (Bool-cases (available_to_send s == 0)) [
        | inl e ↦ rw e (response_done-IsWellFormed armed now fd c w v)
        | inr e ↦ rw e (close_connection-IsWellFormed fd w v)
      ]

  pub do_write-IsWellFormed :
      (armed : Bool) (now fd : ℕ) (results : List Written) (c : Connection J) (w : Worker J)
      → IsWellFormed w
      → IsWellFormed (do_write armed now fd results c w)
  unfolding do_write
  do_write-IsWellFormed armed now fd results c w v = elim (Option-cases c.response) [
    | inl e ↦ rw (e, do_write) v
    | inr (s, e) ↦
        rw (e, do_write)
          (write_loop-IsWellFormed armed now fd results s c _
            (touch_connection-IsWellFormed now fd w v))
  ]

  pub deliver-IsWellFormed :
      (armed : Bool) (now : ℕ) (results : List Written) (item : ResponseItem) (w : Worker J)
      → IsWellFormed w
      → IsWellFormed (deliver armed now results item w)
  unfolding deliver
  deliver-IsWellFormed armed now results item w v =
      elim (Option-cases (find_connection item.client_fd w.connections)) [
        | inl e ↦ rw (e, deliver) v
        | inr (c, e) ↦ elim (Bool-cases (c.connection_id == item.connection_id)) [
          | inr stale ↦ rw (e, deliver) (rw stale v)
          | inl fresh ↦
              rw (e, deliver)
                (rw fresh (
                  do_write-IsWellFormed armed now item.client_fd results _ _
                    (updated-IsWellFormed item.client_fd _ w (λ x. refl) v)))
        ]
      ]
