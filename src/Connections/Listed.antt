-- ===== src/Connections/Listed.antt =====
-- The timeout list of src/server.cpp beside the map of connections: every node is the node of an open
-- connection, every connection has its node, and the nodes stand in the order of the last activity.
pub mod Nodes
pub mod Steps
pub mod Moves
pub mod Calls
pub mod Writing
pub mod Timer
use apiserver_asymetric_encr.Base.{All, ℕ, ◌≤◌, ◌<◌, ◌≡◌, none, some, List}
use apiserver_asymetric_encr.Connections.{Connection, Node, Worker, find_node, find_connection}
use apiserver_asymetric_encr.Connections.Order.{Distinct}
use apiserver_asymetric_encr.Connections.Listed.Nodes.{UniqueIds, SortedBy}

module _ {J : Type 0} where
  -- The last activity of the connection of a node.
  abbrev pub time : List (ℕ × Connection J) → Node → ℕ
  time m n = elim (find_connection n.fd m) [ none ↦ 0 | some c ↦ c.last_activity ]

  abbrev pub IsLinked : List (ℕ × Connection J) → Node → Type 0
  IsLinked m n = (c : Connection J) × (find_connection n.fd m ≡ some c) × (c.timeout_it ≡ n.node_id)

  -- `now` is the latest reading of the clock.
  pub record IsListed (now : ℕ) (w : Worker J) : Type 0 where
    pub distinct : Distinct w.connections
    pub ids : UniqueIds w.timeout_list
    pub below : All (λ n. n.node_id < w.next_node) w.timeout_list
    pub linked : All (IsLinked w.connections) w.timeout_list
    pub has_node :
        (fd : ℕ) (c : Connection J)
        → find_connection fd w.connections ≡ some c
        → (n : Node) × (find_node c.timeout_it w.timeout_list ≡ some n) × (n.fd ≡ fd)
    pub sorted : SortedBy (time w.connections) w.timeout_list
    pub past :
        (fd : ℕ) (c : Connection J)
        → find_connection fd w.connections ≡ some c
        → c.last_activity ≤ now
