-- ===== src/Connections/Timeouts.antt =====
-- Which connections `check_timeouts` of src/server.cpp closes.
pub mod Induction
use apiserver_asymetric_encr.Base.{
  All, ℕ, ◌-◌, ◌≤◌, ◌≡◌, sym, ap, ◌∙◌, subst, ◌↔◌, inl, inr, true, Option, none, some, List, [],
  ◌∷◌, arith,
}
use apiserver_asymetric_encr.Connections.{
  Connection, Node, Worker, find_connection, check_timeouts_from, check_timeouts,
}
use apiserver_asymetric_encr.Connections.Order.{
  Distinct, Ordered, MayStay, find-erase_other, find-erase_same, find-erase, Distinct-erase,
  Ordered-erase,
}
use apiserver_asymetric_encr.Connections.Timeouts.Induction.{closed_one, check_induction}

module _ {J : Type 0} where
  one_value : {c d : Connection J} → Path (Option (Connection J)) (some c) (some d) → c ≡ d
  one_value e = ground arith

  -- A connection that may stay does stay.
  pub check_keeps :
      (timeout now : ℕ) (nodes : List Node) (w : Worker J) (k : ℕ) (c : Connection J)
      → find_connection k w.connections ≡ some c
      → MayStay timeout now c
      → find_connection k (check_timeouts_from timeout now nodes w).1.connections ≡ some c
  unfolding closed_one
  check_keeps timeout now nodes w k c e stay =
      check_induction timeout now
        (λ nodes w v.
          find_connection k w.connections ≡ some c → find_connection k v.connections ≡ some c)
        (λ w h. h) (λ n rest w v f later h. later h) (λ n rest w v d f busy later h. later h)
        (λ n rest w d f young h. h)
        (λ n rest w v d f old later h. later (
          find-erase_other k n.fd w.connections (λ q. old (
            subst (MayStay timeout now)
              (one_value (sym h ∙ ap (λ i. find_connection i w.connections) q ∙ f)) stay))
          ∙ h))
        nodes w e

  young_rest :
      (timeout now : ℕ) (m : List (ℕ × Connection J)) (d : Connection J) (rest : List Node)
      → now - d.last_activity ≤ timeout
      → All
          (λ k.
            (c : Connection J)
            → find_connection k.fd m ≡ some c
            → d.last_activity ≤ c.last_activity)
          rest
      → All (λ k. (c : Connection J) → find_connection k.fd m ≡ some c → MayStay timeout now c) rest
  young_rest timeout now m d [] young h = tt
  young_rest timeout now m d (k ∷ rest) young h =
      (λ c e. inr (omega (arith, h.0 c e)), young_rest timeout now m d rest young h.1)

  -- With the list in the order of the last activity, no connection appears, and those of the list
  -- that are open afterwards may stay.
  pub check_closes :
      (timeout now : ℕ) (nodes : List Node) (w : Worker J)
      → Distinct w.connections
      → Ordered w.connections nodes
      → let v = (check_timeouts_from timeout now nodes w).1 in
        ((k : ℕ) (c : Connection J)
          → find_connection k v.connections ≡ some c
          → find_connection k w.connections ≡ some c)
        × All
            (λ n.
              (c : Connection J)
              → find_connection n.fd v.connections ≡ some c
              → MayStay timeout now c)
            nodes
  unfolding closed_one
  check_closes timeout now nodes w u o =
      check_induction timeout now
        (λ nodes w v.
          Distinct w.connections
          → Ordered w.connections nodes
          → ((k : ℕ) (c : Connection J)
              → find_connection k v.connections ≡ some c
              → find_connection k w.connections ≡ some c)
            × All
                (λ n.
                  (c : Connection J)
                  → find_connection n.fd v.connections ≡ some c
                  → MayStay timeout now c)
                nodes)
        (λ w u o. (λ k c h. h, tt))
        (λ n rest w v e later u o.
          let (sub, all_rest) = later u o.1 in
          (sub, (λ c h. absurd (nothing (sym e ∙ sub n.fd c h)), all_rest)))
        (λ n rest w v d e busy later u o.
          let (sub, all_rest) = later u o.1 in
          (
            sub,
            (
              λ c h.
                  inl (subst (λ x. x.is_processing ≡ true) (one_value (sym e ∙ sub n.fd c h)) busy),
              all_rest,
            ),
          ))
        (λ n rest w d e young u o. (
          λ k c h. h,
          (
            λ c h. inr (subst (λ x. now - x.last_activity ≤ timeout) (one_value (sym e ∙ h)) young),
            young_rest timeout now w.connections d rest young (o.0 d e),
          ),
        ))
        (λ n rest w v d e old later u o.
          let (sub, all_rest) =
            later (Distinct-erase n.fd w.connections u)
              (Ordered-erase n.fd w.connections rest u o.1) in
          (
            λ k c h. find-erase k n.fd c w.connections u (sub k c h),
            (
              λ c h. absurd (nothing (sym (find-erase_same n.fd w.connections u) ∙ sub n.fd c h)),
              all_rest,
            ),
          ))
        nodes w u o
    where
      nothing : {c : Connection J} → Path (Option (Connection J)) none (some c) → ⊥
      nothing e = cc

  -- When the timeout list is in the order of the last activity and no descriptor stands twice in
  -- the map, the timer leaves open, of the connections of the list, exactly those that are
  -- processing a request or have been active within the timeout, and changes none of them.
  pub check_timeouts_iff :
      (timeout now : ℕ) (w : Worker J)
      → Distinct w.connections
      → Ordered w.connections w.timeout_list
      → All
          (λ n.
            (c : Connection J)
            → (find_connection n.fd (check_timeouts timeout now w).connections ≡ some c)
              ↔ ((find_connection n.fd w.connections ≡ some c) × MayStay timeout now c))
          w.timeout_list
  unfolding check_timeouts
  check_timeouts_iff timeout now w u o =
      let (sub, stay) = check_closes timeout now w.timeout_list w u o in
      both_ways sub w.timeout_list stay
    where
      v : Worker J
      v = (check_timeouts_from timeout now w.timeout_list w).1

      both_ways :
          ((k : ℕ) (c : Connection J)
            → find_connection k v.connections ≡ some c
            → find_connection k w.connections ≡ some c)
          → (nodes : List Node)
          → All
              (λ n.
                (c : Connection J)
                → find_connection n.fd v.connections ≡ some c
                → MayStay timeout now c)
              nodes
          → All
              (λ n.
                (c : Connection J)
                → (find_connection n.fd v.connections ≡ some c)
                  ↔ ((find_connection n.fd w.connections ≡ some c) × MayStay timeout now c))
              nodes
      both_ways sub [] h = tt
      both_ways sub (n ∷ rest) h = (
        λ c. (
          λ e. (sub n.fd c e, h.0 c e),
          λ (e, may). check_keeps timeout now w.timeout_list w n.fd c e may,
        ),
        both_ways sub rest h.1,
      )
