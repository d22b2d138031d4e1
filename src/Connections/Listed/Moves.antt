-- ===== src/Connections/Listed/Moves.antt =====
-- Touching, accepting and timing out, of src/server.cpp, keep the timeout list in order.
use apiserver_asymetric_encr.Base.{
  ◌==◌, ==_iff, Bool-cases, Option-cases, All, ℕ, ◌≤◌, ◌≡◌, refl, sym, ap, ◌∙◌, subst, ◌≢◌, inl,
  inr, some, List, [], ◌∷◌, ◌++◌, arith,
}
use apiserver_asymetric_encr.Connections.{
  Connection, Node, Worker, erase_node, find_node, move_to_end, find_connection, update_connection,
  touch_connection, close_connection,
}
use apiserver_asymetric_encr.Connections.Maps.{find_connection-update_same}
use apiserver_asymetric_encr.Connections.Order.{Distinct, Distinct-update}
use apiserver_asymetric_encr.Connections.Listed.Nodes.{
  All-map, All-zip, All-end, All-erase_node, UniqueIds-erase_node, SortedBy-erase_node,
  erased_is_gone, UniqueIds-end, SortedBy-end, SortedBy-same, find_node-id, find_node-erase_other,
  find_node-end, find_node-last, All-found,
}
use apiserver_asymetric_encr.Connections.Listed.{time, IsListed}
use apiserver_asymetric_encr.Connections.Listed.Steps.{
  one_node, the_same, time_found, time_same, find-update_other, later-IsListed, others,
  closed-IsListed,
}

module _ {J : Type 0} where
  -- A connection is touched whose last activity may have been written before.
  pub touched-IsListed :
      (before now fd : ℕ) (m : List (ℕ × Connection J)) (w : Worker J) (c d : Connection J)
      → before ≤ now
      → find_connection fd w.connections ≡ some c
      → find_connection fd m ≡ some d
      → d.timeout_it ≡ c.timeout_it
      → ((k : ℕ) → k ≢ fd → find_connection k m ≡ find_connection k w.connections)
      → Distinct m
      → IsListed before w
      → IsListed now (touch_connection now fd (record w { connections = m }))
  unfolding touch_connection move_to_end
  touched-IsListed before now fd m w c d le found changed same_it rest u v =
      rw (changed, touch_connection)
        (rw same_it (
          rw (node_of.1, move_to_end)
            (record {
              distinct = Distinct-update fd stamp m u;
              ids =
                  UniqueIds-end left node (UniqueIds-erase_node i nodes v.ids)
                    (All-map _ _ left (λ k a b. a (b ∙ node_id_is)) gone);
              below =
                  All-end _ left node (All-erase_node _ i nodes v.below)
                    (All-found _ i nodes node node_of.1 v.below);
              linked =
                  All-end _ left node
                    (All-map _ _ left (λ n ((x, e, j), q). (x, unchanged n.fd q ∙ e, j))
                      (All-zip _ _ left (All-erase_node _ i nodes v.linked) apart))
                    (stamp d, at_node, same_it ∙ sym node_id_is);
              has_node = has_node;
              sorted =
                  SortedBy-end (time m1) left node
                    (SortedBy-same (time w.connections) (time m1) left
                      (All-map _ _ left (λ n q. time_same w.connections m1 n (unchanged n.fd q))
                        apart)
                      (SortedBy-erase_node _ i nodes v.sorted))
                    (All-map _ _ left
                      (λ n ((x, e, j), q). omega (
                        arith,
                        le,
                        v.past n.fd x e,
                        time_found m1 n x (unchanged n.fd q ∙ e),
                        time_found m1 node (stamp d) at_node,
                      ))
                      (All-zip _ _ left (All-erase_node _ i nodes v.linked) apart));
              past = past;
            })))
    where
      i : ℕ
      i = c.timeout_it

      nodes : List Node
      nodes = w.timeout_list

      left : List Node
      left = erase_node i nodes

      stamp : Connection J → Connection J
      stamp x = record x { last_activity = now }

      m1 : List (ℕ × Connection J)
      m1 = update_connection fd stamp m

      node_of : (n : Node) × (find_node i nodes ≡ some n) × (n.fd ≡ fd)
      node_of = v.has_node fd c found

      node : Node
      node = node_of.0

      node_id_is : node.node_id ≡ i
      node_id_is = find_node-id i nodes node node_of.1

      gone : All (λ k. k.node_id ≢ i) left
      gone = erased_is_gone i nodes v.ids

      apart : All (λ k. k.fd ≢ fd) left
      apart = others before fd c w found v

      stamped : find_connection fd m1 ≡ some (stamp d)
      stamped = find_connection-update_same fd stamp d m changed

      unchanged : (k : ℕ) → k ≢ fd → find_connection k m1 ≡ find_connection k w.connections
      unchanged k q = find-update_other k fd stamp m q ∙ rest k q

      at_node : find_connection node.fd m1 ≡ some (stamp d)
      at_node = subst (λ j. find_connection j m1 ≡ some (stamp d)) (sym node_of.2) stamped

      has_node :
          (k : ℕ) (x : Connection J)
          → find_connection k m1 ≡ some x
          → (n : Node) × (find_node x.timeout_it (left ++ node ∷ []) ≡ some n) × (n.fd ≡ k)
      has_node k x e = elim (Bool-cases (k == fd)) [
        | inl q ↦
            let k_is = (==_iff k fd).0 q in
            let x_is : stamp d ≡ x =
              the_same (sym stamped ∙ ap (λ j. find_connection j m1) (sym k_is) ∙ e) in
            (
              node,
              subst (λ j. find_node j (left ++ node ∷ []) ≡ some node)
                  (node_id_is ∙ sym same_it ∙ ap (λ y. y.timeout_it) x_is)
                  (find_node-last left node (All-map _ _ left (λ k a b. a (b ∙ node_id_is)) gone)),
              node_of.2 ∙ sym k_is,
            )
        | inr q ↦
            let k_not : k ≢ fd = λ b. ground (arith, (==_iff k fd).1 b) in
            let there = sym (unchanged k k_not) ∙ e in
            let (n, f, g) = v.has_node k x there in
            let x_not : x.timeout_it ≢ i = λ b. k_not (
              sym g
              ∙ ap (λ y. y.fd) (one_node (sym f ∙ ap (λ j. find_node j nodes) b ∙ node_of.1))
              ∙ node_of.2) in
            (
              n,
              find_node-end x.timeout_it left node n
                  (find_node-erase_other x.timeout_it i nodes x_not ∙ f),
              g,
            )
      ]

      past : (k : ℕ) (x : Connection J) → find_connection k m1 ≡ some x → x.last_activity ≤ now
      past k x e = elim (Bool-cases (k == fd)) [
        | inl q ↦
            let x_is : stamp d ≡ x =
              the_same
                (sym stamped ∙ ap (λ j. find_connection j m1) (sym ((==_iff k fd).0 q)) ∙ e) in
            omega (arith, ap (λ y. y.last_activity) x_is)
        | inr q ↦
            let there = sym (unchanged k (λ b. ground (arith, (==_iff k fd).1 b))) ∙ e in
            omega (arith, le, v.past k x there)
      ]

  pub touch_connection-IsListed :
      (before now fd : ℕ) (w : Worker J)
      → before ≤ now
      → IsListed before w
      → IsListed now (touch_connection now fd w)
  unfolding touch_connection
  touch_connection-IsListed before now fd w le v =
      elim (Option-cases (find_connection fd w.connections)) [
        | inl e ↦ rw (e, touch_connection) (later-IsListed before now w le v)
        | inr (c, e) ↦
            touched-IsListed before now fd w.connections w c c le e e refl (λ k q. refl) v.distinct
              v
      ]

  pub close_connection-IsListed :
      (now fd : ℕ) (w : Worker J) → IsListed now w → IsListed now (close_connection fd w)
  unfolding close_connection
  close_connection-IsListed now fd w v = elim (Option-cases (find_connection fd w.connections)) [
    | inl e ↦ rw (e, close_connection) v
    | inr (c, e) ↦ rw (e, close_connection) (closed-IsListed now fd _ c w e v)
  ]
