-- ===== src/Connections/Timeouts/Induction.antt =====
-- Induction along `check_timeouts` of src/server.cpp: the cases of one node of the timeout list.
use apiserver_asymetric_encr.Base.{
  leb, leb→le, Bool-cases, Option-cases, sub_int, ℕ, ◌-◌, ◌≤◌, ◌≡◌, refl, inl, inr, true, false,
  none, some, List, [], ◌∷◌, arith,
}
use apiserver_asymetric_encr.Connections.{
  Connection, Node, Worker, find_connection, erase_connection, check_timeouts_from,
}
use apiserver_asymetric_encr.Connections.Order.{MayStay}

module _ {J : Type 0} where
  unfoldable pub closed_one : ℕ → Worker J → Worker J
  closed_one fd w = record w {
    connections = erase_connection fd w.connections;
    active_connections = sub_int w.active_connections 1;
  }

  check_end : (timeout now : ℕ) (w : Worker J) → check_timeouts_from timeout now [] w ≡ ([], w)
  unfolding check_timeouts_from
  check_end timeout now w = refl

  -- The four cases of one node.
  check_stale :
      (timeout now : ℕ) (n : Node) (rest : List Node) (w : Worker J)
      → find_connection n.fd w.connections ≡ none
      → check_timeouts_from timeout now (n ∷ rest) w ≡ check_timeouts_from timeout now rest w
  unfolding check_timeouts_from
  check_stale timeout now n rest w e = rw (e, check_timeouts_from) refl

  check_processing :
      (timeout now : ℕ) (n : Node) (rest : List Node) (w : Worker J) (c : Connection J)
      → find_connection n.fd w.connections ≡ some c
      → c.is_processing ≡ true
      → (check_timeouts_from timeout now (n ∷ rest) w).1
        ≡ (check_timeouts_from timeout now rest w).1
  unfolding check_timeouts_from
  check_processing timeout now n rest w c e busy = rw (e, check_timeouts_from) (rw busy refl)

  check_young :
      (timeout now : ℕ) (n : Node) (rest : List Node) (w : Worker J) (c : Connection J)
      → find_connection n.fd w.connections ≡ some c
      → c.is_processing ≡ false
      → leb (now - c.last_activity) timeout ≡ true
      → (check_timeouts_from timeout now (n ∷ rest) w).1 ≡ w
  unfolding check_timeouts_from
  check_young timeout now n rest w c e idle young =
      rw (e, check_timeouts_from) (rw (idle, young) refl)

  check_old :
      (timeout now : ℕ) (n : Node) (rest : List Node) (w : Worker J) (c : Connection J)
      → find_connection n.fd w.connections ≡ some c
      → c.is_processing ≡ false
      → leb (now - c.last_activity) timeout ≡ false
      → check_timeouts_from timeout now (n ∷ rest) w
        ≡ check_timeouts_from timeout now rest (closed_one n.fd w)
  unfolding check_timeouts_from closed_one
  check_old timeout now n rest w c e idle old = rw (e, check_timeouts_from) (rw (idle, old) refl)

  -- Induction along the check: `P nodes w v` relates the nodes, the worker and the worker after them.
  module _ (timeout now : ℕ) (P : List Node → Worker J → Worker J → Type 0)
      (at_end : (w : Worker J) → P [] w w)
      (at_stale : (n : Node) (rest : List Node) (w v : Worker J)
        → find_connection n.fd w.connections ≡ none
        → P rest w v
        → P (n ∷ rest) w v)
      (at_processing : (n : Node) (rest : List Node) (w v : Worker J) (c : Connection J)
        → find_connection n.fd w.connections ≡ some c
        → c.is_processing ≡ true
        → P rest w v
        → P (n ∷ rest) w v)
      (at_young : (n : Node) (rest : List Node) (w : Worker J) (c : Connection J)
        → find_connection n.fd w.connections ≡ some c
        → now - c.last_activity ≤ timeout
        → P (n ∷ rest) w w)
      (at_old : (n : Node) (rest : List Node) (w v : Worker J) (c : Connection J)
        → find_connection n.fd w.connections ≡ some c
        → ¬ MayStay timeout now c
        → P rest (closed_one n.fd w) v
        → P (n ∷ rest) w v) where
    pub check_induction :
        (nodes : List Node) (w : Worker J) → P nodes w (check_timeouts_from timeout now nodes w).1
    check_induction [] w = rw (check_end timeout now w) (at_end w)
    check_induction (n ∷ rest) w = elim (Option-cases (find_connection n.fd w.connections)) [
      | inl e ↦
          rw (check_stale timeout now n rest w e) (at_stale n rest w _ e (check_induction rest w))
      | inr (c, e) ↦ elim (Bool-cases c.is_processing) [
        | inl busy ↦
            rw (check_processing timeout now n rest w c e busy)
              (at_processing n rest w _ c e busy (check_induction rest w))
        | inr idle ↦ elim (Bool-cases (leb (now - c.last_activity) timeout)) [
          | inl young ↦
              rw (check_young timeout now n rest w c e idle young)
                (at_young n rest w c e (leb→le (now - c.last_activity) timeout young))
          | inr old ↦ rw (check_old timeout now n rest w c e idle old) (
              at_old n rest w _ c e (may_not c idle old) (check_induction rest (closed_one n.fd w)))
        ]
      ]
    ]
      where
        may_not :
            (c : Connection J)
            → c.is_processing ≡ false
            → leb (now - c.last_activity) timeout ≡ false
            → ¬ MayStay timeout now c
        may_not c idle old stay = ground arith
