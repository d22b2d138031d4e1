-- ===== src/Text/Split.antt =====
-- `std::views::split`: joining the pieces with the delimiter gives the text back.
use apiserver_asymetric_encr.Base.{
  Bool-cases, length, drop, All, ℕ, zero, suc, ◌-◌, ◌≤◌, ◌≡◌, refl, sym, ap, inl, inr, List, [],
  ◌∷◌, ◌++◌, arith,
}
use apiserver_asymetric_encr.Text.Search.{starts_with-le-length, starts_with-split}
use apiserver_asymetric_encr.Text.{Bytes, starts_with, push_front, split_from, split}

-- The pieces with the delimiter between them.
abbrev pub join : Bytes → List Bytes → Bytes
join pat [] = []
join pat (piece ∷ []) = piece
join pat (piece ∷ next ∷ rest) = piece ++ pat ++ join pat (next ∷ rest)

split_from-cons :
    (pat : Bytes) (k : ℕ) (s : Bytes)
    → (p : Bytes) × (ps : List Bytes) × (split_from pat k s ≡ p ∷ ps)
unfolding split_from push_front
split_from-cons pat k [] = ([], [], refl)
split_from-cons pat (suc k) (c ∷ cs) = split_from-cons pat k cs
split_from-cons pat zero (c ∷ cs) = elim (Bool-cases (starts_with (c ∷ cs) pat)) [
  | inl hit ↦ ([], split_from pat (length pat - 1) cs, rw (hit, split_from))
  | inr miss ↦
      let (p, ps, e) = split_from-cons pat 0 cs in (c ∷ p, ps, rw (miss, split_from) (rw e))
]

join-push_front :
    (pat : Bytes) (c : ℕ) (l : List Bytes) → join pat (push_front c l) ≡ c ∷ join pat l
unfolding push_front
join-push_front pat c [] = refl
join-push_front pat c (p ∷ []) = refl
join-push_front pat c (p ∷ q ∷ ps) = refl

join-nil_cons :
    (pat : Bytes) (k : ℕ) (s : Bytes)
    → join pat ([] ∷ split_from pat k s) ≡ pat ++ join pat (split_from pat k s)
join-nil_cons pat k s = let (p, ps, e) = split_from-cons pat k s in rw e

-- Whatever of a delimiter is still to be skipped, the pieces are those of the text behind it.
join-split_from :
    (p : ℕ) (ps : Bytes) (k : ℕ) (s : Bytes)
    → k ≤ length s
    → join (p ∷ ps) (split_from (p ∷ ps) k s) ≡ drop k s
unfolding split_from
join-split_from p ps zero [] h = refl
join-split_from p ps (suc k) [] h = absurd (omega arith)
join-split_from p ps (suc k) (c ∷ cs) h = join-split_from p ps k cs (omega arith)
join-split_from p ps zero (c ∷ cs) h = elim (Bool-cases (starts_with (c ∷ cs) (p ∷ ps))) [
  | inl hit ↦
      let inside = starts_with-le-length (c ∷ cs) (p ∷ ps) hit in
      let same_skip : suc (length ps) - 1 ≡ length ps = omega arith in
      rw (hit, split_from)
        (rw (same_skip, join-nil_cons (p ∷ ps) (length ps) cs)
          (rw (join-split_from p ps (length ps) cs (omega arith))
            (sym (starts_with-split (c ∷ cs) (p ∷ ps) hit))))
  | inr miss ↦
      rw (miss, split_from)
        (rw (join-push_front (p ∷ ps) c (split_from (p ∷ ps) 0 cs))
          (ap (◌∷◌ c) (join-split_from p ps 0 cs (omega arith))))
]

-- Splitting by a non-empty delimiter and joining with it again loses nothing.
pub join-split : (p : ℕ) (ps s : Bytes) → join (p ∷ ps) (split (p ∷ ps) s) ≡ s
unfolding split
join-split p ps [] = refl
join-split p ps (c ∷ cs) = join-split_from p ps 0 (c ∷ cs) (omega arith)

module _ {κ} (P : ℕ → Type κ) where
  push_front-All : (c : ℕ) (l : List Bytes) → P c → All (All P) l → All (All P) (push_front c l)
  unfolding push_front
  push_front-All c [] pc h = ((pc, tt), tt)
  push_front-All c (piece ∷ rest) pc h = ((pc, h.0), h.1)

  split_from-All : (pat : Bytes) (k : ℕ) (s : Bytes) → All P s → All (All P) (split_from pat k s)
  unfolding split_from
  split_from-All pat k [] h = (tt, tt)
  split_from-All pat (suc k) (c ∷ cs) h = split_from-All pat k cs h.1
  split_from-All pat zero (c ∷ cs) h = elim (Bool-cases (starts_with (c ∷ cs) pat)) [
    | inl hit ↦ rw (hit, split_from) (tt, split_from-All pat (length pat - 1) cs h.1)
    | inr miss ↦
        rw (miss, split_from)
          (push_front-All c (split_from pat 0 cs) h.0 (split_from-All pat 0 cs h.1))
  ]

  -- A property of every byte of the text is one of every byte of every piece.
  pub split-All : (pat s : Bytes) → All P s → All (All P) (split pat s)
  unfolding split
  split-All pat [] h = tt
  split-All pat (c ∷ cs) h = split_from-All pat 0 (c ∷ cs) h
