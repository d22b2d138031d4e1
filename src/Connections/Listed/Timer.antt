-- ===== src/Connections/Listed/Timer.antt =====
-- With the timeout list in order, `check_timeouts` of src/server.cpp decides on every connection.
use apiserver_asymetric_encr.Base.{ℕ, ◌≡◌, subst, ◌↔◌, some, List, [], ◌∷◌, arith}
use apiserver_asymetric_encr.Connections.{Connection, Node, Worker, find_connection, check_timeouts}
use apiserver_asymetric_encr.Connections.Order.{Ordered, MayStay}
use apiserver_asymetric_encr.Connections.Timeouts.{check_closes, check_timeouts_iff}
use apiserver_asymetric_encr.Connections.Listed.Nodes.{SortedBy, All-map, All-found}
use apiserver_asymetric_encr.Connections.Listed.{time, IsListed}
use apiserver_asymetric_encr.Connections.Listed.Steps.{time_found}

module _ {J : Type 0} where
  SortedBy-Ordered :
      (m : List (ℕ × Connection J)) (nodes : List Node) → SortedBy (time m) nodes → Ordered m nodes
  SortedBy-Ordered m [] h = tt
  SortedBy-Ordered m (n ∷ rest) h = (
    λ c e.
        All-map _ _ rest (λ k le d f. omega (arith, le, time_found m n c e, time_found m k d f))
          h.0,
    SortedBy-Ordered m rest h.1,
  )

  -- When the timeout list is in order beside the map, as every event of the loop keeps it, the
  -- timer decides on every connection: one is open afterwards, as it was, exactly when it was open
  -- and is processing a request or has been active within the timeout.
  pub check_timeouts_all :
      (before timeout now fd : ℕ) (w : Worker J) (c : Connection J)
      → IsListed before w
      → (find_connection fd (check_timeouts timeout now w).connections ≡ some c)
        ↔ ((find_connection fd w.connections ≡ some c) × MayStay timeout now c)
  unfolding check_timeouts
  check_timeouts_all before timeout now fd w c v =
      (λ e. (of_node (still e)).0 e, λ (e, may). (of_node e).1 (e, may))
    where
      order : Ordered w.connections w.timeout_list
      order = SortedBy-Ordered w.connections w.timeout_list v.sorted

      Decided : ℕ → Type 0
      Decided k =
          (find_connection k (check_timeouts timeout now w).connections ≡ some c)
          ↔ ((find_connection k w.connections ≡ some c) × MayStay timeout now c)

      still :
          find_connection fd (check_timeouts timeout now w).connections ≡ some c
          → find_connection fd w.connections ≡ some c
      still e = (check_closes timeout now w.timeout_list w v.distinct order).0 fd c e

      of_node : find_connection fd w.connections ≡ some c → Decided fd
      of_node e =
          let (n, f, g) = v.has_node fd c e in
          subst Decided g (
            All-found (λ k. Decided k.fd) c.timeout_it w.timeout_list n f
              (All-map _ _ w.timeout_list (λ k h. h c)
                (check_timeouts_iff timeout now w v.distinct order)))
