-- ===== src/Connections/Listed/Steps.antt =====
-- The operations on the map of connections of src/server.cpp keep the timeout list beside it.
use apiserver_asymetric_encr.Base.{
  ◌==◌, ==_iff, Bool-cases, Option-cases, All, ℕ, ◌≤◌, ◌≡◌, refl, sym, ap, ◌∙◌, subst, ◌≢◌, inl,
  inr, Option, none, some, List, [], ◌∷◌, arith,
}
use apiserver_asymetric_encr.Connections.{
  Connection, Node, Worker, erase_node, find_node, find_connection, erase_connection,
  update_connection,
}
use apiserver_asymetric_encr.Connections.Maps.{find_connection-update_same}
use apiserver_asymetric_encr.Connections.Order.{
  Distinct, find-erase_other, find-erase_same, find-erase, Distinct-erase, Distinct-update,
}
use apiserver_asymetric_encr.Connections.Listed.Nodes.{
  not_same, All-map, All-zip, All-erase_node, UniqueIds-erase_node, SortedBy-erase_node,
  erased_is_gone, SortedBy-same, find_node-erase_other,
}
use apiserver_asymetric_encr.Connections.Listed.{time, IsListed}

pub one_node : {a b : Node} → Path (Option Node) (some a) (some b) → a ≡ b
one_node e = ground arith

module _ {J : Type 0} where
  pub the_same : {c d : Connection J} → Path (Option (Connection J)) (some c) (some d) → c ≡ d
  the_same e = ground arith

  pub nothing : {c : Connection J} → Path (Option (Connection J)) none (some c) → ⊥
  nothing e = cc

  pub time_found :
      (m : List (ℕ × Connection J)) (n : Node) (c : Connection J)
      → find_connection n.fd m ≡ some c
      → time m n ≡ c.last_activity
  time_found m n c e = ap (λ o. elim o [ none ↦ 0 | some d ↦ d.last_activity ]) e

  pub time_same :
      (m m1 : List (ℕ × Connection J)) (n : Node)
      → find_connection n.fd m1 ≡ find_connection n.fd m
      → time m1 n ≡ time m n
  time_same m m1 n e = ap (λ o. elim o [ none ↦ 0 | some d ↦ d.last_activity ]) e

  -- Two maps that give every descriptor the same node and the same last activity.
  pub record IsSimilar (m m1 : List (ℕ × Connection J)) : Type 0 where
    pub forth :
        (k : ℕ) (c : Connection J)
        → find_connection k m ≡ some c
        → (d : Connection J) × (find_connection k m1 ≡ some d)
          × (d.timeout_it ≡ c.timeout_it)
          × (d.last_activity ≡ c.last_activity)
    pub back :
        (k : ℕ) (d : Connection J)
        → find_connection k m1 ≡ some d
        → (c : Connection J) × (find_connection k m ≡ some c)
          × (d.timeout_it ≡ c.timeout_it)
          × (d.last_activity ≡ c.last_activity)

  pub similar-IsListed :
      (now : ℕ) (m1 : List (ℕ × Connection J)) (w : Worker J)
      → IsSimilar w.connections m1
      → Distinct m1
      → IsListed now w
      → IsListed now (record w { connections = m1 })
  similar-IsListed now m1 w s u v = record {
    distinct = u;
    ids = v.ids;
    below = v.below;
    linked =
        All-map _ _ w.timeout_list
          (λ n (c, e, i). let (d, f, j, t) = s.forth n.fd c e in (d, f, j ∙ i)) v.linked;
    has_node = λ fd d e.
        let (c, f, j, t) = s.back fd d e in
        subst (λ i. (n : Node) × (find_node i w.timeout_list ≡ some n) × (n.fd ≡ fd)) (sym j)
          (v.has_node fd c f);
    sorted =
        SortedBy-same (time w.connections) (time m1) w.timeout_list
          (All-map _ _ w.timeout_list
            (λ n (c, e, i).
              let (d, f, j, t) = s.forth n.fd c e in
              time_found m1 n d f ∙ t ∙ sym (time_found w.connections n c e))
            v.linked)
          v.sorted;
    past = λ fd d e. let (c, f, j, t) = s.back fd d e in omega (arith, t, v.past fd c f);
  }

  pub find-update_other :
      (k fd : ℕ) (f : Connection J → Connection J) (m : List (ℕ × Connection J))
      → k ≢ fd
      → find_connection k (update_connection fd f m) ≡ find_connection k m
  unfolding find_connection update_connection
  find-update_other k fd f [] h = refl
  find-update_other k fd f ((j, c) ∷ m) h = elim (Bool-cases (j == fd)) [
    | inl e ↦
        let other = not_same j k (λ q. h (sym q ∙ (==_iff j fd).0 e)) in rw e (rw (other) refl)
    | inr e ↦ rw e (elim (Bool-cases (j == k)) [
      | inl g ↦ rw g refl
      | inr g ↦ rw g (find-update_other k fd f m h)
    ])
  ]

  pub update_none :
      (fd : ℕ) (f : Connection J → Connection J) (m : List (ℕ × Connection J))
      → find_connection fd m ≡ none
      → update_connection fd f m ≡ m
  unfolding find_connection update_connection
  update_none fd f [] h = refl
  update_none fd f ((j, c) ∷ m) h = elim (Bool-cases (j == fd)) [
    | inl e ↦ absurd (ground arith)
    | inr e ↦ rw e (ap (◌∷◌ (j, c)) (update_none fd f m (ground arith)))
  ]

  -- A change of one connection that leaves its node and its last activity.
  pub updated-IsListed :
      (now fd : ℕ) (f : Connection J → Connection J) (w : Worker J)
      → ((c : Connection J) → (f c).timeout_it ≡ c.timeout_it)
      → ((c : Connection J) → (f c).last_activity ≡ c.last_activity)
      → IsListed now w
      → IsListed now (record w { connections = update_connection fd f w.connections })
  updated-IsListed now fd f w same_it same_time v =
      similar-IsListed now (update_connection fd f w.connections) w
        (record { forth = forth; back = back }) (Distinct-update fd f w.connections v.distinct) v
    where
      forth :
          (k : ℕ) (c : Connection J)
          → find_connection k w.connections ≡ some c
          → (d : Connection J) × (find_connection k (update_connection fd f w.connections) ≡ some d)
            × (d.timeout_it ≡ c.timeout_it)
            × (d.last_activity ≡ c.last_activity)
      forth k c e = elim (Bool-cases (k == fd)) [
        | inl q ↦ (
          f c,
          subst (λ j. find_connection j (update_connection fd f w.connections) ≡ some (f c))
              (sym ((==_iff k fd).0 q))
              (find_connection-update_same fd f c w.connections
                (subst (λ j. find_connection j w.connections ≡ some c) ((==_iff k fd).0 q) e)),
          same_it c,
          same_time c,
        )
        | inr q ↦ (
          c,
          find-update_other k fd f w.connections (λ x. ground (arith, (==_iff k fd).1 x)) ∙ e,
          refl,
          refl,
        )
      ]

      back :
          (k : ℕ) (d : Connection J)
          → find_connection k (update_connection fd f w.connections) ≡ some d
          → (c : Connection J) × (find_connection k w.connections ≡ some c)
            × (d.timeout_it ≡ c.timeout_it)
            × (d.last_activity ≡ c.last_activity)
      back k d e = elim (Option-cases (find_connection k w.connections)) [
        | inr (c, g) ↦
            let (d1, h, i, t) = forth k c g in
            let same_found = the_same (sym h ∙ e) in
            (
              c,
              g,
              ap (λ x. x.timeout_it) (sym same_found) ∙ i,
              ap (λ x. x.last_activity) (sym same_found) ∙ t,
            )
        | inl g ↦ absurd (nothing (sym (still k g) ∙ e))
      ]
        where
          still :
              (k : ℕ)
              → find_connection k w.connections ≡ none
              → find_connection k (update_connection fd f w.connections) ≡ none
          still k g = elim (Bool-cases (k == fd)) [
            | inr q ↦
                find-update_other k fd f w.connections (λ x. ground (arith, (==_iff k fd).1 x)) ∙ g
            | inl q ↦
                ap (find_connection k) (
                  update_none fd f w.connections
                    (subst (λ j. find_connection j w.connections ≡ none) ((==_iff k fd).0 q) g))
                ∙ g
          ]

  pub later-IsListed :
      (before now : ℕ) (w : Worker J) → before ≤ now → IsListed before w → IsListed now w
  later-IsListed before now w h v = record {
    distinct = v.distinct;
    ids = v.ids;
    below = v.below;
    linked = v.linked;
    has_node = v.has_node;
    sorted = v.sorted;
    past = λ fd c e. omega (arith, h, v.past fd c e);
  }

  -- The other nodes are those of other descriptors.
  pub others :
      (now fd : ℕ) (c : Connection J) (w : Worker J)
      → find_connection fd w.connections ≡ some c
      → IsListed now w
      → All (λ k. k.fd ≢ fd) (erase_node c.timeout_it w.timeout_list)
  others now fd c w found v =
      All-map _ _ (erase_node c.timeout_it w.timeout_list)
        (λ k ((d, e, i), gone) q. gone (
          sym i
          ∙ ap (λ x. x.timeout_it)
              (the_same (sym e ∙ ap (λ j. find_connection j w.connections) q ∙ found))))
        (All-zip _ _ (erase_node c.timeout_it w.timeout_list)
          (All-erase_node _ c.timeout_it w.timeout_list v.linked)
          (erased_is_gone c.timeout_it w.timeout_list v.ids))

  pub closed-IsListed :
      (now fd active : ℕ) (c : Connection J) (w : Worker J)
      → find_connection fd w.connections ≡ some c
      → IsListed now w
      → IsListed now (record w {
        connections = erase_connection fd w.connections;
        timeout_list = erase_node c.timeout_it w.timeout_list;
        active_connections = active;
      })
  closed-IsListed now fd active c w found v = record {
    distinct = Distinct-erase fd w.connections v.distinct;
    ids = UniqueIds-erase_node c.timeout_it w.timeout_list v.ids;
    below = All-erase_node _ c.timeout_it w.timeout_list v.below;
    linked =
        All-map _ _ left (λ n ((d, e, i), q). (d, find-erase_other n.fd fd w.connections q ∙ e, i))
          (All-zip _ _ left (All-erase_node _ c.timeout_it w.timeout_list v.linked) apart);
    has_node = λ k d e.
        let there = find-erase k fd d w.connections v.distinct e in
        let (n, f, g) = v.has_node k d there in
        (
          n,
          find_node-erase_other d.timeout_it c.timeout_it w.timeout_list (other_node k d e n f g)
              ∙ f,
          g,
        );
    sorted =
        SortedBy-same (time w.connections) (time (erase_connection fd w.connections)) left
          (All-map _ _ left
            (λ n q.
              time_same w.connections (erase_connection fd w.connections) n
                (find-erase_other n.fd fd w.connections q))
            apart)
          (SortedBy-erase_node _ c.timeout_it w.timeout_list v.sorted);
    past = λ k d e. v.past k d (find-erase k fd d w.connections v.distinct e);
  }
    where
      left : List Node
      left = erase_node c.timeout_it w.timeout_list

      apart : All (λ k. k.fd ≢ fd) left
      apart = others now fd c w found v

      other_node :
          (k : ℕ) (d : Connection J)
          → find_connection k (erase_connection fd w.connections) ≡ some d
          → (n : Node) → find_node d.timeout_it w.timeout_list ≡ some n
          → n.fd ≡ k
          → d.timeout_it ≢ c.timeout_it
      other_node k d e n f g q =
          let (n1, f1, g1) = v.has_node fd c found in
          let same_node : n ≡ n1 = one_node (sym f ∙ ap (λ i. find_node i w.timeout_list) q ∙ f1) in
          let here : k ≡ fd = sym g ∙ ap (λ x. x.fd) same_node ∙ g1 in
          nothing (
            sym (find-erase_same fd w.connections v.distinct)
            ∙ ap (λ j. find_connection j (erase_connection fd w.connections)) (sym here)
            ∙ e)
