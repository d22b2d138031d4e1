-- ===== src/Connections/Stale.antt =====
-- A response for a connection that is gone goes to nobody.
use apiserver_asymetric_encr.Base.{
  ◌==◌, size_mod, add_size, ℕ, suc, ◌≤◌, ◌<◌, ◌≡◌, refl, Bool, true, false, none, some, List, arith,
}
use apiserver_asymetric_encr.Text.{Bytes}
use apiserver_asymetric_encr.Connections.{
  Connection, new_connection, ResponseItem, Worker, find_connection, accept_one,
}
use apiserver_asymetric_encr.Connections.Maps.{find_connection-new}
use apiserver_asymetric_encr.Connections.Keeps.{emplace_connection_new}
use apiserver_asymetric_encr.Connections.Writing.{Written, deliver}

module _ {J : Type 0} where
  accept_one-find :
      (now fd : ℕ) (ip : Bytes) (w : Worker J)
      → find_connection fd w.connections ≡ none
      → (c : Connection J) × (find_connection fd (accept_one now true fd ip w).connections ≡ some c)
        × (c.connection_id ≡ add_size w.next_connection_id 1)
  unfolding accept_one
  accept_one-find now fd ip w e =
      let f : Connection J → Connection J = λ c. record c {
        connection_id = add_size w.next_connection_id 1;
        timeout_it = w.next_node;
      } in
      (
        f (new_connection ip now),
        rw (emplace_connection_new fd (new_connection ip now) w.connections e)
            (find_connection-new fd f (new_connection ip now) w.connections),
        refl,
      )

  deliver_other :
      (armed : Bool) (now : ℕ) (results : List Written) (item : ResponseItem) (w : Worker J)
      (c : Connection J)
      → find_connection item.client_fd w.connections ≡ some c
      → (c.connection_id == item.connection_id) ≡ false
      → deliver armed now results item w ≡ w
  unfolding deliver
  deliver_other armed now results item w c e other = rw (e, deliver) (rw other refl)

  -- When no open connection has the descriptor of a response, and the response's connection number
  -- has been given out (and the next number does not wrap), delivering the response changes
  -- nothing, also after the descriptor has been taken by a new connection.
  pub deliver_stale :
      (armed : Bool) (now : ℕ) (results : List Written) (item : ResponseItem) (ip : Bytes)
      (w : Worker J)
      → find_connection item.client_fd w.connections ≡ none
      → item.connection_id ≤ w.next_connection_id
      → suc w.next_connection_id < size_mod
      → let v = accept_one now true item.client_fd ip w in
        (deliver armed now results item w ≡ w) × (deliver armed now results item v ≡ v)
  unfolding deliver
  deliver_stale armed now results item ip w e given small =
      let (c, found, number) = accept_one-find now item.client_fd ip w e in
      let other : (c.connection_id == item.connection_id) ≡ false = ground arith in
      (
        rw (e, deliver) refl,
        deliver_other armed now results item (accept_one now true item.client_fd ip w) c found
            other,
      )
