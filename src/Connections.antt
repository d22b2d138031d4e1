-- ===== src/Connections.antt =====
-- The connections of `server::io_worker` (src/server.cpp, `connection_state` of src/server.hpp).
-- What the system calls return is an argument. The timeout list is a
-- list of nodes, an iterator is the number of its node, and closing a socket is leaving the map.
pub mod Maps
pub mod Order
pub mod Writing
pub mod Keeps
pub mod Numbers
pub mod Stale
pub mod Timeouts
pub mod Calls
pub mod Listed
use apiserver_asymetric_encr.Base.{
  ltb, leb, ◌==◌, if◌then◌else◌, length, add_size, add_int, sub_int, ℕ, suc, ◌-◌, Bool, false,
  Option, none, some, List, [], ◌∷◌, ◌++◌,
}
use apiserver_asymetric_encr.Text.{Bytes}
use apiserver_asymetric_encr.Request.Model.{Parser, new_parser}

-- A response that is being sent: its bytes and how many are gone.
pub record Sending : Type 0 where
  pub data_ : Bytes
  pub read_pos : ℕ

-- `response::available_size` and `response::update_pos`.
unfoldable pub available_to_send : Sending → ℕ
available_to_send s = if ltb s.read_pos (length s.data_) then length s.data_ - s.read_pos else 0

unfoldable pub sent : ℕ → Sending → Sending
sent n s = record s { read_pos = add_size s.read_pos n }

pub record Connection (J : Type 0) : Type 0 where
  pub parser : Parser J
  pub response : Option Sending
  pub remote_ip : Bytes
  pub last_activity : ℕ
  pub connection_id : ℕ
  pub timeout_it : ℕ
  pub close_after_write : Bool
  pub is_processing : Bool

unfoldable pub new_connection : {J : Type 0} → Bytes → ℕ → Connection J
new_connection ip now = record {
  parser = new_parser;
  response = none;
  remote_ip = ip;
  last_activity = now;
  connection_id = 0;
  timeout_it = 0;
  close_after_write = false;
  is_processing = false;
}

unfoldable pub reset : {J : Type 0} → ℕ → Connection J → Connection J
reset now c = record c {
  parser = new_parser;
  response = none;
  close_after_write = false;
  is_processing = false;
  last_activity = now;
}

pub record Node : Type 0 where
  pub node_id : ℕ
  pub fd : ℕ

pub record ResponseItem : Type 0 where
  pub client_fd : ℕ
  pub connection_id : ℕ
  pub res : Bytes

pub record Worker (J : Type 0) : Type 0 where
  pub connections : List (ℕ × Connection J)
  pub timeout_list : List Node
  pub next_connection_id : ℕ
  pub next_node : ℕ
  pub active_connections : ℕ

-- An `io_worker` before its first event.
unfoldable pub new_worker : {J : Type 0} → Worker J
new_worker = record {
  connections = [];
  timeout_list = [];
  next_connection_id = 0;
  next_node = 0;
  active_connections = 0;
}

unfoldable pub erase_node : ℕ → List Node → List Node
erase_node i [] = []
erase_node i (n ∷ rest) = if n.node_id == i then rest else n ∷ erase_node i rest

unfoldable pub find_node : ℕ → List Node → Option Node
find_node i [] = none
find_node i (n ∷ rest) = if n.node_id == i then some n else find_node i rest

-- `splice` of one node to the end of its own list.
unfoldable pub move_to_end : ℕ → List Node → List Node
move_to_end i nodes = elim (find_node i nodes) [
  | none ↦ nodes
  | some n ↦ erase_node i nodes ++ n ∷ []
]

module _ {J : Type 0} where
  unfoldable pub find_connection : ℕ → List (ℕ × Connection J) → Option (Connection J)
  find_connection fd [] = none
  find_connection fd ((k, c) ∷ rest) = if k == fd then some c else find_connection fd rest

  unfoldable pub erase_connection : ℕ → List (ℕ × Connection J) → List (ℕ × Connection J)
  erase_connection fd [] = []
  erase_connection fd ((k, c) ∷ rest) = if k == fd then rest else (k, c) ∷ erase_connection fd rest

  -- Writing through a reference into the map.
  unfoldable pub update_connection :
      ℕ → (Connection J → Connection J) → List (ℕ × Connection J) → List (ℕ × Connection J)
  update_connection fd f [] = []
  update_connection fd f ((k, c) ∷ rest) =
      if k == fd then (k, f c) ∷ rest else (k, c) ∷ update_connection fd f rest

  -- `try_emplace`.
  unfoldable pub emplace_connection :
      ℕ → Connection J → List (ℕ × Connection J) → List (ℕ × Connection J)
  emplace_connection fd c m = elim (find_connection fd m) [ some old ↦ m | none ↦ (fd, c) ∷ m ]

  unfoldable pub touch_connection : ℕ → ℕ → Worker J → Worker J
  touch_connection now fd w = elim (find_connection fd w.connections) [
    | none ↦ w
    | some c ↦ record w {
      connections = update_connection fd (λ x. record x { last_activity = now }) w.connections;
      timeout_list = move_to_end c.timeout_it w.timeout_list;
    }
  ]

  unfoldable pub close_connection : ℕ → Worker J → Worker J
  close_connection fd w = elim (find_connection fd w.connections) [
    | none ↦ w
    | some c ↦ record w {
      connections = erase_connection fd w.connections;
      timeout_list = erase_node c.timeout_it w.timeout_list;
      active_connections = sub_int w.active_connections 1;
    }
  ]

  -- `modify_epoll`: whether the descriptor could be armed, in the end.
  unfoldable pub modify_epoll : Bool → ℕ → Worker J → Worker J
  modify_epoll armed fd w = if armed then w else close_connection fd w

  -- One connection that `accept4` returns; `added` is the outcome of `add_to_epoll`.
  unfoldable pub accept_one : ℕ → Bool → ℕ → Bytes → Worker J → Worker J
  accept_one now added fd ip w =
      let number = add_size w.next_connection_id 1 in
      let opened : Worker J = record w {
        connections =
            update_connection fd
              (λ c. record c { connection_id = number; timeout_it = w.next_node })
              (emplace_connection fd (new_connection ip now) w.connections);
        timeout_list = w.timeout_list ++ (record { node_id = w.next_node; fd = fd }) ∷ [];
        next_connection_id = number;
        next_node = suc w.next_node;
      } in
      if added
      then record opened { active_connections = add_int opened.active_connections 1 }
      else record opened { connections = erase_connection fd opened.connections }

  -- `check_timeouts`, on the rest of the list from the iterator on; the nodes that stay are returned.
  unfoldable pub check_timeouts_from : ℕ → ℕ → List Node → Worker J → List Node × Worker J
  check_timeouts_from timeout now [] w = ([], w)
  check_timeouts_from timeout now (n ∷ rest) w =
      let closed : Worker J = record w {
        connections = erase_connection n.fd w.connections;
        active_connections = sub_int w.active_connections 1;
      } in
      let without_stale = check_timeouts_from timeout now rest w in
      let without_closed = check_timeouts_from timeout now rest closed in
      elim (find_connection n.fd w.connections) [
        | none ↦ without_stale
        | some c ↦
            if c.is_processing
            then (n ∷ without_stale.0, without_stale.1)
            else if leb (now - c.last_activity) timeout
            then (n ∷ rest, w)
            else without_closed
      ]

  unfoldable pub check_timeouts : ℕ → ℕ → Worker J → Worker J
  check_timeouts timeout now w =
      let (nodes, v) = check_timeouts_from timeout now w.timeout_list w in
      record v { timeout_list = nodes }
