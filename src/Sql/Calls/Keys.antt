-- ===== src/Sql/Calls/Keys.antt =====
-- The maps of src/sql.cpp by their keys.
use apiserver_asymetric_encr.Base.{
  Bool-cases, ◌≡◌, refl, subst, inl, inr, none, some, List, [], ◌∷◌, arith,
}
use apiserver_asymetric_encr.Text.{Bytes, same}
use apiserver_asymetric_encr.Text.Search.{same_iff}
use apiserver_asymetric_encr.Sql.Calls.{find_key, erase_key, update_key}

module _ {V : Type 0} where
  -- No key stands twice.
  abbrev pub DistinctKeys : List (Bytes × V) → Type 0
  DistinctKeys [] = Unit
  DistinctKeys ((k, v) ∷ rest) = (find_key k rest ≡ none) × DistinctKeys rest

  find_key-erase_none :
      (j key : Bytes) (m : List (Bytes × V))
      → find_key j m ≡ none
      → find_key j (erase_key key m) ≡ none
  unfolding find_key erase_key
  find_key-erase_none j key [] h = h
  find_key-erase_none j key ((k, v) ∷ m) h = elim (Bool-cases (same k j)) [
    | inl hit ↦ absurd (ground arith)
    | inr miss ↦ elim (Bool-cases (same k key)) [
      | inl gone ↦ rw gone (ground arith)
      | inr stays ↦ rw stays (rw miss (find_key-erase_none j key m (ground arith)))
    ]
  ]

  pub find_key-erase_key :
      (key : Bytes) (m : List (Bytes × V)) → DistinctKeys m → find_key key (erase_key key m) ≡ none
  unfolding find_key erase_key
  find_key-erase_key key [] h = refl
  find_key-erase_key key ((k, v) ∷ m) h = elim (Bool-cases (same k key)) [
    | inl gone ↦ rw gone (subst (λ j. find_key j m ≡ none) ((same_iff k key).0 gone) h.0)
    | inr stays ↦ rw stays (rw stays (find_key-erase_key key m h.1))
  ]

  pub DistinctKeys-erase_key :
      (key : Bytes) (m : List (Bytes × V)) → DistinctKeys m → DistinctKeys (erase_key key m)
  unfolding erase_key
  DistinctKeys-erase_key key [] h = tt
  DistinctKeys-erase_key key ((k, v) ∷ m) h = elim (Bool-cases (same k key)) [
    | inl gone ↦ rw gone h.1
    | inr stays ↦ rw stays (find_key-erase_none k key m h.0, DistinctKeys-erase_key key m h.1)
  ]

  find_key-update_none :
      (j key : Bytes) (w : V) (m : List (Bytes × V))
      → find_key j m ≡ none
      → find_key j (update_key key w m) ≡ none
  unfolding find_key update_key
  find_key-update_none j key w [] h = h
  find_key-update_none j key w ((k, v) ∷ m) h = elim (Bool-cases (same k j)) [
    | inl hit ↦ absurd (ground arith)
    | inr miss ↦ elim (Bool-cases (same k key)) [
      | inl here ↦ rw here (rw miss (ground arith))
      | inr other ↦ rw other (rw miss (find_key-update_none j key w m (ground arith)))
    ]
  ]

  pub DistinctKeys-update_key :
      (key : Bytes) (w : V) (m : List (Bytes × V))
      → DistinctKeys m
      → DistinctKeys (update_key key w m)
  unfolding update_key
  DistinctKeys-update_key key w [] h = tt
  DistinctKeys-update_key key w ((k, v) ∷ m) h = elim (Bool-cases (same k key)) [
    | inl here ↦ rw here h
    | inr other ↦ rw other (find_key-update_none k key w m h.0, DistinctKeys-update_key key w m h.1)
  ]

  pub find_key-update_key :
      (key : Bytes) (v w : V) (m : List (Bytes × V))
      → find_key key m ≡ some v
      → find_key key (update_key key w m) ≡ some w
  unfolding find_key update_key
  find_key-update_key key v w [] h = absurd (ground arith)
  find_key-update_key key v w ((k, x) ∷ m) h = elim (Bool-cases (same k key)) [
    | inl here ↦ rw here (rw here refl)
    | inr other ↦ rw other (rw other (find_key-update_key key v w m (ground arith)))
  ]
