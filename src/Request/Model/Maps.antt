-- ===== src/Request/Model/Maps.antt =====
-- The laws of the two maps.
use apiserver_asymetric_encr.Base.{
  if◌then◌else◌, Bool-cases, length, All, ℕ, ◌+◌, ◌≤◌, ◌≡◌, refl, ◌↔◌, inl, inr, Bool, true, none,
  some, List, [], ◌∷◌, map, arith,
}
use apiserver_asymetric_encr.Text.{Bytes, tolower, sv_ci_equal, sv_ci_hash_from, sv_ci_hash}
use apiserver_asymetric_encr.Request.Model.{lookup_by, emplace_by}

-- `sv_ci_equal` is an equivalence: it compares the lower-case texts.
pub sv_ci_equal_iff : (s t : Bytes) → (sv_ci_equal s t ≡ true) ↔ (map tolower s ≡ map tolower t)
unfolding sv_ci_equal
sv_ci_equal_iff [] [] = ground arith
sv_ci_equal_iff [] (b ∷ t) = ground arith
sv_ci_equal_iff (a ∷ s) [] = ground arith
sv_ci_equal_iff (a ∷ s) (b ∷ t) = ground (arith, sv_ci_equal_iff s t)

sv_ci_hash_from-map :
    (s t : Bytes) (h : ℕ)
    → map tolower s ≡ map tolower t
    → sv_ci_hash_from h s ≡ sv_ci_hash_from h t
unfolding sv_ci_hash_from
sv_ci_hash_from-map [] [] h e = refl
sv_ci_hash_from-map [] (b ∷ t) h e = cc
sv_ci_hash_from-map (a ∷ s) [] h e = cc
sv_ci_hash_from-map (a ∷ s) (b ∷ t) h e =
    let head : tolower a ≡ tolower b = cc in
    let rest : map tolower s ≡ map tolower t = cc in rw head (sv_ci_hash_from-map s t _ rest)

-- Two header names that compare equal without regard to case have the same hash.
pub sv_ci_hash-sv_ci_equal : (s t : Bytes) → sv_ci_equal s t ≡ true → sv_ci_hash s ≡ sv_ci_hash t
unfolding sv_ci_hash
sv_ci_hash-sv_ci_equal s t h = sv_ci_hash_from-map s t 5381 ((sv_ci_equal_iff s t).0 h)

-- A key comparison that is the equality of some normal form of the keys.
module _ (eq : Bytes → Bytes → Bool) (normal : Bytes → Bytes)
    (eq_iff : (s t : Bytes) → (eq s t ≡ true) ↔ (normal s ≡ normal t)) where
  lookup_by-same :
      (j k : Bytes) (m : List (Bytes × Bytes)) → eq k j ≡ true → lookup_by eq j m ≡ lookup_by eq k m
  unfolding lookup_by
  lookup_by-same j k [] h = refl
  lookup_by-same j k ((i, v) ∷ m) h =
      ground (arith, eq_iff k j, eq_iff i j, eq_iff i k, lookup_by-same j k m)

  -- An entry is added for a new key, and an old one is kept.
  pub lookup_by-emplace_by :
      (j k v : Bytes) (m : List (Bytes × Bytes))
      → lookup_by eq j (emplace_by eq k v m)
        ≡ elim (lookup_by eq j m) [ some w ↦ some w | none ↦ if eq k j then some v else none ]
  unfolding lookup_by emplace_by
  lookup_by-emplace_by j k v [] = refl
  lookup_by-emplace_by j k v ((i, w) ∷ m) = ground (
    arith,
    eq_iff k j,
    eq_iff i j,
    eq_iff i k,
    lookup_by-emplace_by j k v m,
    lookup_by-same j k m,
  )

  -- No two entries have the same key.
  abbrev pub Distinct : List (Bytes × Bytes) → Type 0
  Distinct [] = Unit
  Distinct ((k, v) ∷ m) = (lookup_by eq k m ≡ none) × Distinct m

  pub emplace_by-Distinct :
      (k v : Bytes) (m : List (Bytes × Bytes)) → Distinct m → Distinct (emplace_by eq k v m)
  unfolding lookup_by emplace_by
  emplace_by-Distinct k v [] d = (refl, tt)
  emplace_by-Distinct k v ((i, w) ∷ m) d =
      ground
        (arith, eq_iff k i, eq_iff i k, lookup_by-emplace_by i k v m, emplace_by-Distinct k v m d.1)

pub length-emplace_by :
    (eq : Bytes → Bytes → Bool) (k v : Bytes) (m : List (Bytes × Bytes))
    → length (emplace_by eq k v m) ≤ length m + 1
unfolding emplace_by
length-emplace_by eq k v [] = omega arith
length-emplace_by eq k v ((i, w) ∷ m) = ground (arith, length-emplace_by eq k v m)

-- What holds of every entry and of the new one holds afterwards.
pub emplace_by-All {κ} :
    (eq : Bytes → Bytes → Bool) (P : Bytes × Bytes → Type κ) (k v : Bytes)
    (m : List (Bytes × Bytes))
    → All P m
    → P (k, v)
    → All P (emplace_by eq k v m)
unfolding emplace_by
emplace_by-All eq P k v [] h p = (p, tt)
emplace_by-All eq P k v ((i, w) ∷ m) h p = elim (Bool-cases (eq i k)) [
  | inl old ↦ rw old h
  | inr new ↦ rw new (h.0, emplace_by-All eq P k v m h.1 p)
]
