-- ===== src/Connections/Order.antt =====
-- The order of the timeout list, and descriptors that stand once in the map.
use apiserver_asymetric_encr.Base.{
  ◌==◌, ==_iff, Bool-cases, Option-cases, All, ℕ, ◌-◌, ◌≤◌, ◌≡◌, refl, sym, ◌∙◌, subst, ◌≢◌, ◌⊎◌,
  inl, inr, true, false, none, some, List, [], ◌∷◌, arith,
}
use apiserver_asymetric_encr.Connections.{
  Connection, Node, find_connection, erase_connection, update_connection,
}

module _ {J : Type 0} where
  -- No descriptor stands twice in the map.
  abbrev pub Distinct : List (ℕ × Connection J) → Type 0
  Distinct [] = Unit
  Distinct ((k, c) ∷ m) = (find_connection k m ≡ none) × Distinct m

  -- The nodes stand in the order of the last activity of their connections.
  abbrev pub Ordered : List (ℕ × Connection J) → List Node → Type 0
  Ordered m [] = Unit
  Ordered m (n ∷ rest) =
      ((c : Connection J)
        → find_connection n.fd m ≡ some c
        → All
            (λ k.
              (d : Connection J)
              → find_connection k.fd m ≡ some d
              → c.last_activity ≤ d.last_activity)
            rest)
      × Ordered m rest

  -- A connection that the check leaves open.
  abbrev pub MayStay : ℕ → ℕ → Connection J → Type 0
  MayStay timeout now c = (c.is_processing ≡ true) ⊎ (now - c.last_activity ≤ timeout)

  pub find-erase_other :
      (k fd : ℕ) (m : List (ℕ × Connection J))
      → k ≢ fd
      → find_connection k (erase_connection fd m) ≡ find_connection k m
  unfolding find_connection erase_connection
  find-erase_other k fd [] h = refl
  find-erase_other k fd ((j, c) ∷ m) h = elim (Bool-cases (j == fd)) [
    | inl e ↦ let other : (j == k) ≡ false = apart j k fd e h in rw (e, other) refl
    | inr e ↦ rw e (elim (Bool-cases (j == k)) [
      | inl f ↦ rw f refl
      | inr f ↦ rw f (find-erase_other k fd m h)
    ])
  ]
    where
      apart : (j k fd : ℕ) → (j == fd) ≡ true → k ≢ fd → (j == k) ≡ false
      apart j k fd e h = ground arith

  pub find-erase_same :
      (fd : ℕ) (m : List (ℕ × Connection J))
      → Distinct m
      → find_connection fd (erase_connection fd m) ≡ none
  unfolding find_connection erase_connection
  find-erase_same fd [] h = refl
  find-erase_same fd ((j, c) ∷ m) h = elim (Bool-cases (j == fd)) [
    | inl e ↦ rw e (subst (λ n. find_connection n m ≡ none) ((==_iff j fd).0 e) h.0)
    | inr e ↦ rw e (rw e (find-erase_same fd m h.1))
  ]

  -- What is found in the shorter map is found in the map.
  pub find-erase :
      (k fd : ℕ) (c : Connection J) (m : List (ℕ × Connection J))
      → Distinct m
      → find_connection k (erase_connection fd m) ≡ some c
      → find_connection k m ≡ some c
  find-erase k fd c m h e = elim (Bool-cases (k == fd)) [
    | inl f ↦
        let same_fd : k ≡ fd = (==_iff k fd).0 f in
        let gone : find_connection k (erase_connection fd m) ≡ none =
          subst (λ n. find_connection n (erase_connection fd m) ≡ none) (sym same_fd)
            (find-erase_same fd m h) in
        absurd (ground arith)
    | inr f ↦ sym (find-erase_other k fd m (λ q. ground (arith, (==_iff k fd).1 q))) ∙ e
  ]

  pub Distinct-erase :
      (fd : ℕ) (m : List (ℕ × Connection J)) → Distinct m → Distinct (erase_connection fd m)
  unfolding erase_connection
  Distinct-erase fd [] h = tt
  Distinct-erase fd ((j, c) ∷ m) h = elim (Bool-cases (j == fd)) [
    | inl e ↦ rw e h.1
    | inr e ↦ rw e (still_none, Distinct-erase fd m h.1)
  ]
    where
      still_none : find_connection j (erase_connection fd m) ≡ none
      still_none = elim (Option-cases (find_connection j (erase_connection fd m))) [
        | inl g ↦ g
        | inr (d, g) ↦ absurd (ground (arith, find-erase j fd d m h.1 g, h.0))
      ]

  find_connection-update_none :
      (k fd : ℕ) (f : Connection J → Connection J) (m : List (ℕ × Connection J))
      → find_connection k m ≡ none
      → find_connection k (update_connection fd f m) ≡ none
  unfolding find_connection update_connection
  find_connection-update_none k fd f [] h = h
  find_connection-update_none k fd f ((j, c) ∷ m) h = elim (Bool-cases (j == k)) [
    | inl same_key ↦ absurd (ground arith)
    | inr other ↦ elim (Bool-cases (j == fd)) [
      | inl e ↦ rw e (rw other (ground arith))
      | inr e ↦ rw e (rw other (find_connection-update_none k fd f m (ground arith)))
    ]
  ]

  pub Distinct-update :
      (fd : ℕ) (f : Connection J → Connection J) (m : List (ℕ × Connection J))
      → Distinct m
      → Distinct (update_connection fd f m)
  unfolding update_connection
  Distinct-update fd f [] h = tt
  Distinct-update fd f ((j, c) ∷ m) h = elim (Bool-cases (j == fd)) [
    | inl e ↦ rw e h
    | inr e ↦ rw e (find_connection-update_none j fd f m h.0, Distinct-update fd f m h.1)
  ]

  later_mono :
      (m : List (ℕ × Connection J)) (fd : ℕ) (c : Connection J) (rest : List Node)
      → Distinct m
      → All
          (λ k.
            (d : Connection J)
            → find_connection k.fd m ≡ some d
            → c.last_activity ≤ d.last_activity)
          rest
      → All
          (λ k.
            (d : Connection J)
            → find_connection k.fd (erase_connection fd m) ≡ some d
            → c.last_activity ≤ d.last_activity)
          rest
  later_mono m fd c [] u h = tt
  later_mono m fd c (k ∷ rest) u h =
      (λ d e. h.0 d (find-erase k.fd fd d m u e), later_mono m fd c rest u h.1)

  pub Ordered-erase :
      (fd : ℕ) (m : List (ℕ × Connection J)) (nodes : List Node)
      → Distinct m
      → Ordered m nodes
      → Ordered (erase_connection fd m) nodes
  Ordered-erase fd m [] u h = tt
  Ordered-erase fd m (n ∷ rest) u h = (
    λ c e. later_mono m fd c rest u (h.0 c (find-erase n.fd fd c m u e)),
    Ordered-erase fd m rest u h.1,
  )
