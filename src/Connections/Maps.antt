-- ===== src/Connections/Maps.antt =====
-- Lemmas on the map of the connections.
use apiserver_asymetric_encr.Base.{
  ◌==◌, Bool-cases, length, All, ℕ, suc, ◌≡◌, refl, ap, subst, inl, inr, true, some, List, [], ◌∷◌,
  arith,
}
use apiserver_asymetric_encr.Connections.{
  Connection, find_connection, erase_connection, update_connection,
}

module _ {J : Type 0} where
  pub length-update_connection :
      (fd : ℕ) (f : Connection J → Connection J) (m : List (ℕ × Connection J))
      → length (update_connection fd f m) ≡ length m
  unfolding update_connection
  length-update_connection fd f [] = refl
  length-update_connection fd f ((k, c) ∷ m) = ground (arith, length-update_connection fd f m)

  pub length-erase_connection :
      (fd : ℕ) (c : Connection J) (m : List (ℕ × Connection J))
      → find_connection fd m ≡ some c
      → length m ≡ suc (length (erase_connection fd m))
  unfolding find_connection erase_connection
  length-erase_connection fd c [] h = absurd (ground arith)
  length-erase_connection fd c ((k, x) ∷ m) h = elim (Bool-cases (k == fd)) [
    | inl e ↦ rw e refl
    | inr e ↦ rw e (ap suc (length-erase_connection fd c m (ground arith)))
  ]

  pub erase_connection-new :
      (fd : ℕ) (f : Connection J → Connection J) (c : Connection J) (m : List (ℕ × Connection J))
      → erase_connection fd (update_connection fd f ((fd, c) ∷ m)) ≡ m
  unfolding erase_connection update_connection
  erase_connection-new fd f c m = let e : (fd == fd) ≡ true = ground arith in rw e (rw e refl)

  pub find_connection-new :
      (fd : ℕ) (f : Connection J → Connection J) (c : Connection J) (m : List (ℕ × Connection J))
      → find_connection fd (update_connection fd f ((fd, c) ∷ m)) ≡ some (f c)
  unfolding find_connection update_connection
  find_connection-new fd f c m = let e : (fd == fd) ≡ true = ground arith in rw e (rw e refl)

  pub find_connection-update_same :
      (fd : ℕ) (f : Connection J → Connection J) (c : Connection J) (m : List (ℕ × Connection J))
      → find_connection fd m ≡ some c
      → find_connection fd (update_connection fd f m) ≡ some (f c)
  unfolding find_connection update_connection
  find_connection-update_same fd f c [] h = absurd (ground arith)
  find_connection-update_same fd f c ((k, d) ∷ m) h = elim (Bool-cases (k == fd)) [
    | inl here ↦
        let same_value : d ≡ c = ground arith in rw here (rw here (ap (λ x. some (f x)) same_value))
    | inr other ↦ rw other (rw other (find_connection-update_same fd f c m (ground arith)))
  ]

  pub update_connection-new :
      (fd : ℕ) (f : Connection J → Connection J) (c : Connection J) (m : List (ℕ × Connection J))
      → update_connection fd f ((fd, c) ∷ m) ≡ (fd, f c) ∷ m
  unfolding update_connection
  update_connection-new fd f c m = let e : (fd == fd) ≡ true = ground arith in rw e refl

  -- Every connection of the map has the property.
  abbrev pub Each : (Connection J → Type 0) → List (ℕ × Connection J) → Type 0
  Each P m = All (λ kc. P kc.1) m

  pub Each-update_connection :
      (P : Connection J → Type 0) (fd : ℕ) (f : Connection J → Connection J)
      (m : List (ℕ × Connection J))
      → ((c : Connection J) → P c → P (f c))
      → Each P m
      → Each P (update_connection fd f m)
  unfolding update_connection
  Each-update_connection P fd f [] keeps h = tt
  Each-update_connection P fd f ((k, c) ∷ m) keeps h = elim (Bool-cases (k == fd)) [
    | inl e ↦ rw e (keeps c h.0, h.1)
    | inr e ↦ rw e (h.0, Each-update_connection P fd f m keeps h.1)
  ]

  pub Each-erase_connection :
      (P : Connection J → Type 0) (fd : ℕ) (m : List (ℕ × Connection J))
      → Each P m
      → Each P (erase_connection fd m)
  unfolding erase_connection
  Each-erase_connection P fd [] h = tt
  Each-erase_connection P fd ((k, c) ∷ m) h = elim (Bool-cases (k == fd)) [
    | inl e ↦ rw e h.1
    | inr e ↦ rw e (h.0, Each-erase_connection P fd m h.1)
  ]

  pub Each-find_connection :
      (P : Connection J → Type 0) (fd : ℕ) (c : Connection J) (m : List (ℕ × Connection J))
      → find_connection fd m ≡ some c
      → Each P m
      → P c
  unfolding find_connection
  Each-find_connection P fd c [] e h = absurd (ground arith)
  Each-find_connection P fd c ((k, x) ∷ m) e h = elim (Bool-cases (k == fd)) [
    | inl f ↦ let same_one : x ≡ c = ground arith in subst P same_one h.0
    | inr f ↦ Each-find_connection P fd c m (ground arith) h.1
  ]

  pub Each-mono :
      (P Q : Connection J → Type 0) (m : List (ℕ × Connection J))
      → ((c : Connection J) → P c → Q c)
      → Each P m
      → Each Q m
  Each-mono P Q [] f h = tt
  Each-mono P Q ((k, c) ∷ m) f h = (f c h.0, Each-mono P Q m f h.1)
