-- ===== src/Connections/Keeps.antt =====
-- Every operation keeps the count of the active connections, the numbers of the connections, and
-- their descriptors apart.
use apiserver_asymetric_encr.Base.{
  leb, Bool-cases, Option-cases, length, size_mod, add_size, int_mod, sub_int, ℕ, suc, ◌-◌, ◌%◌,
  ◌≤◌, ◌<◌, ◌≡◌, refl, sym, ap, ◌∙◌, inl, inr, Bool, true, false, none, some, List, [], ◌∷◌, arith,
}
use apiserver_asymetric_encr.Connections.{
  Connection, new_connection, Node, Worker, erase_node, move_to_end, find_connection,
  erase_connection, update_connection, emplace_connection, touch_connection, close_connection,
  accept_one, check_timeouts_from, check_timeouts,
}
use apiserver_asymetric_encr.Connections.Maps.{
  length-update_connection, length-erase_connection, erase_connection-new, update_connection-new,
  Each, Each-update_connection, Each-erase_connection, Each-mono,
}
use apiserver_asymetric_encr.Text.{Bytes}
use apiserver_asymetric_encr.Connections.Order.{Distinct, Distinct-erase, Distinct-update}

pub record IsWellFormed {J : Type 0} (w : Worker J) : Type 0 where
  pub counted : w.active_connections ≡ length w.connections % int_mod
  pub numbered : Each (λ c. c.connection_id ≤ w.next_connection_id) w.connections
  pub in_range : w.next_connection_id < size_mod
  pub distinct : Distinct w.connections

module _ {J : Type 0} where
  -- Changes of one connection that keep its number.
  pub updated-IsWellFormed :
      (fd : ℕ) (f : Connection J → Connection J) (w : Worker J)
      → ((c : Connection J) → (f c).connection_id ≡ c.connection_id)
      → IsWellFormed w
      → IsWellFormed (record w { connections = update_connection fd f w.connections })
  updated-IsWellFormed fd f w same_id v = record {
    counted = v.counted ∙ ap (λ n. n % int_mod) (sym (length-update_connection fd f w.connections));
    numbered =
        Each-update_connection _ fd f w.connections (λ c h. omega (arith, same_id c)) v.numbered;
    in_range = v.in_range;
    distinct = Distinct-update fd f w.connections v.distinct;
  }

  relisted-IsWellFormed :
      (nodes : List Node) (w : Worker J)
      → IsWellFormed w
      → IsWellFormed (record w { timeout_list = nodes })
  relisted-IsWellFormed nodes w v = record {
    counted = v.counted;
    numbered = v.numbered;
    in_range = v.in_range;
    distinct = v.distinct;
  }

  erased-IsWellFormed :
      (fd : ℕ) (c : Connection J) (w : Worker J)
      → find_connection fd w.connections ≡ some c
      → IsWellFormed w
      → IsWellFormed (record w {
        connections = erase_connection fd w.connections;
        active_connections = sub_int w.active_connections 1;
      })
  erased-IsWellFormed fd c w e v = record {
    counted = omega (arith, v.counted, length-erase_connection fd c w.connections e);
    numbered = Each-erase_connection _ fd w.connections v.numbered;
    in_range = v.in_range;
    distinct = Distinct-erase fd w.connections v.distinct;
  }

  pub touch_connection-IsWellFormed :
      (now fd : ℕ) (w : Worker J) → IsWellFormed w → IsWellFormed (touch_connection now fd w)
  unfolding touch_connection
  touch_connection-IsWellFormed now fd w v =
      elim (Option-cases (find_connection fd w.connections)) [
        | inl e ↦ rw (e, touch_connection) v
        | inr (c, e) ↦
            rw (e, touch_connection)
              (relisted-IsWellFormed (move_to_end c.timeout_it w.timeout_list) _
                (updated-IsWellFormed fd (λ x. record x { last_activity = now }) w (λ x. refl) v))
      ]

  pub close_connection-IsWellFormed :
      (fd : ℕ) (w : Worker J) → IsWellFormed w → IsWellFormed (close_connection fd w)
  unfolding close_connection
  close_connection-IsWellFormed fd w v = elim (Option-cases (find_connection fd w.connections)) [
    | inl e ↦ rw (e, close_connection) v
    | inr (c, e) ↦
        rw (e, close_connection)
          (relisted-IsWellFormed (erase_node c.timeout_it w.timeout_list) _
            (erased-IsWellFormed fd c w e v))
  ]

  check_timeouts_from-IsWellFormed :
      (timeout now : ℕ) (nodes : List Node) (w : Worker J)
      → IsWellFormed w
      → IsWellFormed (check_timeouts_from timeout now nodes w).1
  unfolding check_timeouts_from
  check_timeouts_from-IsWellFormed timeout now [] w v = v
  check_timeouts_from-IsWellFormed timeout now (n ∷ rest) w v =
      elim (Option-cases (find_connection n.fd w.connections)) [
        | inl e ↦
            rw (e, check_timeouts_from) (check_timeouts_from-IsWellFormed timeout now rest w v)
        | inr (c, e) ↦ elim (Bool-cases c.is_processing) [
          | inl busy ↦
              rw (e, check_timeouts_from)
                (rw busy (check_timeouts_from-IsWellFormed timeout now rest w v))
          | inr idle ↦ elim (Bool-cases (leb (now - c.last_activity) timeout)) [
            | inl young ↦ rw (e, check_timeouts_from) (rw (idle, young) v)
            | inr old ↦
                rw (e, check_timeouts_from)
                  (rw (idle, old)
                    (check_timeouts_from-IsWellFormed timeout now rest _
                      (erased-IsWellFormed n.fd c w e v)))
          ]
        ]
      ]

  pub check_timeouts-IsWellFormed :
      (timeout now : ℕ) (w : Worker J)
      → IsWellFormed w
      → IsWellFormed (check_timeouts timeout now w)
  unfolding check_timeouts
  check_timeouts-IsWellFormed timeout now w v =
      relisted-IsWellFormed _ _ (check_timeouts_from-IsWellFormed timeout now w.timeout_list w v)

  pub emplace_connection_new :
      (fd : ℕ) (c : Connection J) (m : List (ℕ × Connection J))
      → find_connection fd m ≡ none
      → emplace_connection fd c m ≡ (fd, c) ∷ m
  unfolding emplace_connection
  emplace_connection_new fd c m e = rw (e, emplace_connection) refl

  pub accept_one-IsWellFormed :
      (now : ℕ) (added : Bool) (fd : ℕ) (ip : Bytes) (w : Worker J)
      → find_connection fd w.connections ≡ none
      → suc w.next_connection_id < size_mod
      → IsWellFormed w
      → IsWellFormed (accept_one now added fd ip w)
  unfolding accept_one
  accept_one-IsWellFormed now true fd ip w e small v =
      rw (emplace_connection_new fd (new_connection ip now) w.connections e) (
        rw
          (update_connection-new fd
            (λ c. record c {
              connection_id = add_size w.next_connection_id 1;
              timeout_it = w.next_node;
            })
            (new_connection ip now) w.connections)
          (record {
            counted = omega (arith, v.counted);
            numbered = (
              omega arith,
              Each-mono _ _ w.connections (λ c h. omega (arith, h, small)) v.numbered,
            );
            in_range = omega arith;
            distinct = (e, v.distinct);
          }))
  accept_one-IsWellFormed now false fd ip w e small v =
      rw (emplace_connection_new fd (new_connection ip now) w.connections e) (
        rw
          (erase_connection-new fd
            (λ c. record c {
              connection_id = add_size w.next_connection_id 1;
              timeout_it = w.next_node;
            })
            (new_connection ip now) w.connections)
          (record {
            counted = v.counted;
            numbered = Each-mono _ _ w.connections (λ c h. omega (arith, h, small)) v.numbered;
            in_range = omega arith;
            distinct = v.distinct;
          }))
