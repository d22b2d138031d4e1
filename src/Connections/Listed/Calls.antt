-- ===== src/Connections/Listed/Calls.antt =====
-- Accepting and timing out, of src/server.cpp, keep the timeout list in order.
use mathlib.Core.List.{append_assoc}
use apiserver_asymetric_encr.Base.{
  leb, ◌==◌, ==_iff, Bool-cases, All, add_size, sub_int, ℕ, ◌-◌, ◌≤◌, ◌≡◌, refl, sym, ap, ◌∙◌,
  subst, ◌≢◌, inl, inr, true, none, some, List, [], ◌∷◌, ◌++◌, arith,
}
use apiserver_asymetric_encr.Text.{Bytes}
use apiserver_asymetric_encr.Connections.{
  Connection, new_connection, Node, Worker, erase_node, find_node, find_connection,
  erase_connection, accept_one, check_timeouts_from, check_timeouts,
}
use apiserver_asymetric_encr.Connections.Maps.{update_connection-new}
use apiserver_asymetric_encr.Connections.Keeps.{emplace_connection_new}
use apiserver_asymetric_encr.Connections.Listed.Nodes.{
  not_same, All-map, All-end, UniqueIds-end, SortedBy-end, SortedBy-same, find_node-end,
  find_node-last, erase_node-append,
}
use apiserver_asymetric_encr.Connections.Listed.{time, IsLinked, IsListed}
use apiserver_asymetric_encr.Connections.Listed.Steps.{
  the_same, nothing, time_found, time_same, later-IsListed, closed-IsListed,
}

module _ {J : Type 0} where
  find-behind :
      (k fd : ℕ) (c : Connection J) (m : List (ℕ × Connection J))
      → k ≢ fd
      → find_connection k ((fd, c) ∷ m) ≡ find_connection k m
  unfolding find_connection
  find-behind k fd c m q = let other = not_same fd k (λ b. q (sym b)) in rw other refl

  find-first :
      (fd : ℕ) (c : Connection J) (m : List (ℕ × Connection J))
      → find_connection fd ((fd, c) ∷ m) ≡ some c
  unfolding find_connection
  find-first fd c m = let e : (fd == fd) ≡ true = ground arith in rw e refl

  pub accept_one-IsListed :
      (before now fd : ℕ) (ip : Bytes) (w : Worker J)
      → before ≤ now
      → find_connection fd w.connections ≡ none
      → IsListed before w
      → IsListed now (accept_one now true fd ip w)
  unfolding accept_one new_connection
  accept_one-IsListed before now fd ip w le free v =
      rw (emplace_connection_new fd (new_connection ip now) w.connections free) (
        rw (update_connection-new fd number (new_connection ip now) w.connections) (record {
          distinct = (free, v.distinct);
          ids =
              UniqueIds-end w.timeout_list node v.ids
                (All-map _ _ w.timeout_list (λ n b q. omega (arith, b, q)) v.below);
          below =
              All-end _ w.timeout_list node
                (All-map _ _ w.timeout_list (λ n b. omega (arith, b)) v.below) (omega arith);
          linked =
              All-end _ w.timeout_list node
                (All-map _ _ w.timeout_list
                  (λ n (c, e, i). (c, unchanged n.fd (not_free n.fd c e) ∙ e, i)) v.linked)
                (opened, here, refl);
          has_node = has_node;
          sorted =
              SortedBy-end (time m) w.timeout_list node
                (SortedBy-same (time w.connections) (time m) w.timeout_list
                  (All-map _ _ w.timeout_list
                    (λ n (c, e, i).
                      time_same w.connections m n (unchanged n.fd (not_free n.fd c e)))
                    v.linked)
                  v.sorted)
                (All-map _ _ w.timeout_list
                  (λ n (c, e, i). omega (
                    arith,
                    le,
                    v.past n.fd c e,
                    time_found m n c (unchanged n.fd (not_free n.fd c e) ∙ e),
                    time_found m node opened here,
                  ))
                  v.linked);
          past = past;
        }))
    where
      number : Connection J → Connection J
      number c = record c {
        connection_id = add_size w.next_connection_id 1;
        timeout_it = w.next_node;
      }

      opened : Connection J
      opened = number (new_connection ip now)

      node : Node
      node = record { node_id = w.next_node; fd = fd }

      m : List (ℕ × Connection J)
      m = (fd, opened) ∷ w.connections

      unchanged : (k : ℕ) → k ≢ fd → find_connection k m ≡ find_connection k w.connections
      unchanged k q = find-behind k fd opened w.connections q

      here : find_connection fd m ≡ some opened
      here = find-first fd opened w.connections

      not_free : (k : ℕ) (c : Connection J) → find_connection k w.connections ≡ some c → k ≢ fd
      not_free k c e q = nothing (sym free ∙ ap (λ j. find_connection j w.connections) (sym q) ∙ e)

      has_node :
          (k : ℕ) (x : Connection J)
          → find_connection k m ≡ some x
          → (n : Node) × (find_node x.timeout_it (w.timeout_list ++ node ∷ []) ≡ some n)
            × (n.fd ≡ k)
      has_node k x e = elim (Bool-cases (k == fd)) [
        | inl q ↦
            let k_is = (==_iff k fd).0 q in
            let x_is : opened ≡ x =
              the_same (sym here ∙ ap (λ j. find_connection j m) (sym k_is) ∙ e) in
            (
              node,
              subst (λ j. find_node j (w.timeout_list ++ node ∷ []) ≡ some node)
                  (ap (λ y. y.timeout_it) x_is)
                  (find_node-last w.timeout_list node
                    (All-map _ _ w.timeout_list (λ n b r. omega (arith, b, r)) v.below)),
              sym k_is,
            )
        | inr q ↦
            let (n, f, g) =
              v.has_node k x (sym (unchanged k (λ b. ground (arith, (==_iff k fd).1 b))) ∙ e) in
            (n, find_node-end x.timeout_it w.timeout_list node n f, g)
      ]

      past : (k : ℕ) (x : Connection J) → find_connection k m ≡ some x → x.last_activity ≤ now
      past k x e = elim (Bool-cases (k == fd)) [
        | inl q ↦
            let x_is : opened ≡ x =
              the_same (sym here ∙ ap (λ j. find_connection j m) (sym ((==_iff k fd).0 q)) ∙ e) in
            omega (arith, ap (λ y. y.last_activity) x_is)
        | inr q ↦
            omega (
              arith,
              le,
              v.past k x (sym (unchanged k (λ b. ground (arith, (==_iff k fd).1 b))) ∙ e),
            )
      ]

  -- `kept` are the nodes that the iterator has passed.
  check_timeouts_from-IsListed :
      (timeout now : ℕ) (kept nodes : List Node) (w : Worker J)
      → IsListed now (record w { timeout_list = kept ++ nodes })
      → let (left, u) = check_timeouts_from timeout now nodes w in
        IsListed now (record u { timeout_list = kept ++ left })
  unfolding check_timeouts_from
  check_timeouts_from-IsListed timeout now kept [] w v = v
  check_timeouts_from-IsListed timeout now kept (n ∷ rest) w v =
      let (c, found, link) = All-append-head (IsLinked w.connections) kept n rest v.linked in
      rw (found, check_timeouts_from)
        (elim (Bool-cases c.is_processing) [
          | inl busy ↦ rw busy (
              passed (check_timeouts_from timeout now rest w)
                (check_timeouts_from-IsListed timeout now (kept ++ n ∷ []) rest w (one_on w v)))
          | inr idle ↦ rw idle (elim (Bool-cases (leb (now - c.last_activity) timeout)) [
            | inl young ↦ rw young v
            | inr old ↦ rw old (
                check_timeouts_from-IsListed timeout now kept rest _ (
                  subst
                    (λ l. IsListed now (record w {
                      connections = erase_connection n.fd w.connections;
                      timeout_list = l;
                      active_connections = sub_int w.active_connections 1;
                    }))
                    (ap (λ i. erase_node i (kept ++ n ∷ rest)) link
                      ∙ erase_node-append kept rest n v.ids)
                    (closed-IsListed now n.fd (sub_int w.active_connections 1) c
                      (record w { timeout_list = kept ++ n ∷ rest }) found v)))
          ])
        ])
    where
      All-append-head :
          (P : Node → Type 0) (xs : List Node) (y : Node) (ys : List Node)
          → All P (xs ++ y ∷ ys)
          → P y
      All-append-head P [] y ys h = h.0
      All-append-head P (x ∷ xs) y ys h = All-append-head P xs y ys h.1

      one_on :
          (u : Worker J)
          → IsListed now (record u { timeout_list = kept ++ n ∷ rest })
          → IsListed now (record u { timeout_list = (kept ++ n ∷ []) ++ rest })
      one_on u =
          subst (λ l. IsListed now (record u { timeout_list = l }))
            (sym (append_assoc kept (n ∷ []) rest))

      passed :
          (r : List Node × Worker J)
          → IsListed now (record r.1 { timeout_list = (kept ++ n ∷ []) ++ r.0 })
          → IsListed now (record r.1 { timeout_list = kept ++ (n ∷ r.0) })
      passed (left, u) =
          subst (λ l. IsListed now (record u { timeout_list = l }))
            (append_assoc kept (n ∷ []) left)

  pub check_timeouts-IsListed :
      (before timeout now : ℕ) (w : Worker J)
      → before ≤ now
      → IsListed before w
      → IsListed now (check_timeouts timeout now w)
  unfolding check_timeouts
  check_timeouts-IsListed before timeout now w le v =
      check_timeouts_from-IsListed timeout now [] w.timeout_list w
        (later-IsListed before now w le v)
