-- ===== src/Connections/Writing.antt =====
-- `do_write` and the body of `process_response_queue` of src/server.cpp.
pub mod Keeps
use apiserver_asymetric_encr.Base.{◌==◌, if◌then◌else◌, ℕ, Bool, false, none, some, List, [], ◌∷◌}
use apiserver_asymetric_encr.Connections.{
  Sending, available_to_send, sent, Connection, reset, ResponseItem, Worker, find_connection,
  update_connection, touch_connection, close_connection, modify_epoll,
}

-- What `write` returns.
pub data Written : Type 0 where
  wrote : ℕ → Written
  would_block write_error : Written

module _ {J : Type 0} where
  -- The end of `do_write`, when everything is sent.
  unfoldable pub response_done : Bool → ℕ → ℕ → Connection J → Worker J → Worker J
  response_done armed now fd c w =
      if c.close_after_write
      then close_connection fd w
      else modify_epoll armed fd (
          touch_connection now fd
            (record w { connections = update_connection fd (reset now) w.connections }))

  -- The loop of `do_write` on the results of the `write` calls that follow; behind their end, the
  -- socket would block.
  unfoldable pub write_loop :
      Bool → ℕ → ℕ → List Written → Sending → Connection J → Worker J → Worker J
  write_loop armed now fd [] s c w =
      if available_to_send s == 0 then response_done armed now fd c w else modify_epoll armed fd w
  write_loop armed now fd (r ∷ rest) s c w =
      let store_ : Sending → Worker J = λ t. record w {
        connections = update_connection fd (λ x. record x { response = some t }) w.connections;
      } in
      let go_on : ℕ → Worker J =
        λ n. write_loop armed now fd rest (sent n s) c (store_ (sent n s)) in
      if available_to_send s == 0 then response_done armed now fd c w else elim r [
        | wrote n ↦ go_on n
        | would_block ↦ modify_epoll armed fd w
        | write_error ↦ close_connection fd w
      ]

  unfoldable pub do_write : Bool → ℕ → ℕ → List Written → Connection J → Worker J → Worker J
  do_write armed now fd results c w = elim c.response [
    | none ↦ w
    | some s ↦ write_loop armed now fd results s c (touch_connection now fd w)
  ]

  -- The body of the loop of `process_response_queue`.
  unfoldable pub deliver : Bool → ℕ → List Written → ResponseItem → Worker J → Worker J
  deliver armed now results item w = elim (find_connection item.client_fd w.connections) [
    | none ↦ w
    | some c ↦
        if c.connection_id == item.connection_id
        then (let ready : Connection J → Connection J = λ x. record x {
          is_processing = false;
          response = some (record { data_ = item.res; read_pos = 0 });
        } in
            do_write armed now item.client_fd results (ready c)
              (record w { connections = update_connection item.client_fd ready w.connections }))
        else w
  ]
