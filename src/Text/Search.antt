-- ===== src/Text/Search.antt =====
-- What the searches find: positions in range, first occurrences, and stability under appending.
use mathlib.Core.Option
use apiserver_asymetric_encr.Base.{
  ◌==◌, ==_iff, &&-true, Bool-cases, Option-cases, length, take, drop, All, ℕ, zero, suc, ◌+◌, ◌≤◌,
  ◌<◌, ◌≡◌, refl, ap, ◌↔◌, inl, inr, Bool, true, false, none, some, [], ◌∷◌, ◌++◌, arith,
}
use apiserver_asymetric_encr.Text.{Bytes, same, starts_with, find, find_if, find_last_if}

pub same_iff : (s t : Bytes) → (same s t ≡ true) ↔ (s ≡ t)
unfolding same
same_iff [] [] = ground arith
same_iff [] (b ∷ t) = ground arith
same_iff (a ∷ s) [] = ground arith
same_iff (a ∷ s) (b ∷ t) = ground (arith, same_iff s t)

pub starts_with-le-length : (s pat : Bytes) → starts_with s pat ≡ true → length pat ≤ length s
unfolding starts_with
starts_with-le-length s [] h = omega arith
starts_with-le-length [] (p ∷ ps) h = cc
starts_with-le-length (c ∷ cs) (p ∷ ps) h =
    omega (arith, starts_with-le-length cs ps (&&-true (c == p) _ h).1)

-- Bytes appended behind a text at least as long as the pattern make no difference.
pub starts_with-append :
    (s t pat : Bytes) → length pat ≤ length s → starts_with (s ++ t) pat ≡ starts_with s pat
unfolding starts_with
starts_with-append s t [] h = refl
starts_with-append [] t (p ∷ ps) h = absurd (omega arith)
starts_with-append (c ∷ cs) t (p ∷ ps) h = ground (arith, starts_with-append cs t ps (omega arith))

-- A pattern found at the front is the front.
pub starts_with-split : (s pat : Bytes) → starts_with s pat ≡ true → s ≡ pat ++ drop (length pat) s
unfolding starts_with
starts_with-split s [] h = refl
starts_with-split [] (p ∷ ps) h = cc
starts_with-split (c ∷ cs) (p ∷ ps) h =
    let (here, later) = &&-true (c == p) _ h in
    let e : c ≡ p = (==_iff c p).0 here in rw (← e) (ap (◌∷◌ c) (starts_with-split cs ps later))

-- The pattern stands at the position found, inside the text.
pub find-starts_with :
    (s pat : Bytes) (i : ℕ)
    → find s pat ≡ some i
    → (starts_with (drop i s) pat ≡ true) × (i + length pat ≤ length s)
unfolding find starts_with
find-starts_with [] [] i h = ground arith
find-starts_with [] (p ∷ ps) i h = cc
find-starts_with (c ∷ cs) pat i h = elim (Bool-cases (starts_with (c ∷ cs) pat)) [
  | inl hit ↦
      let e : 0 ≡ i = ground arith in
      rw (← e) (hit, omega (arith, starts_with-le-length (c ∷ cs) pat hit))
  | inr miss ↦
      let (j, found, e) = (Option.map-eq-some_iff _ _).0 (rw miss at h) in
      let (at_j, inside) = find-starts_with cs pat j found in rw (← e) (at_j, omega arith)
]

-- The first occurrence stays the first when bytes are appended.
pub find-append : (s t pat : Bytes) (i : ℕ) → find s pat ≡ some i → find (s ++ t) pat ≡ some i
unfolding find starts_with
find-append [] [] [] i h = h
find-append [] (b ∷ t) [] i h = h
find-append [] t (p ∷ ps) i h = cc
find-append (c ∷ cs) t pat i h = elim (Bool-cases (starts_with (c ∷ cs) pat)) [
  | inl hit ↦
      rw (starts_with-append (c ∷ cs) t pat (starts_with-le-length (c ∷ cs) pat hit), hit)
        (rw hit at h)
  | inr miss ↦
      let (j, found, e) = (Option.map-eq-some_iff _ _).0 (rw miss at h) in
      let (_, inside) = find-starts_with cs pat j found in
      rw (starts_with-append (c ∷ cs) t pat (omega arith), miss, find-append cs t pat j found, e)
]

-- No occurrence stands before the one found.
pub find_first :
    (s pat : Bytes) (i j : ℕ) → find s pat ≡ some i → j < i → starts_with (drop j s) pat ≡ false
unfolding find starts_with
find_first [] [] i j h lt = absurd (ground arith)
find_first [] (p ∷ ps) i j h lt = cc
find_first (c ∷ cs) pat i j h lt = elim (Bool-cases (starts_with (c ∷ cs) pat)) [
  | inl hit ↦ absurd (ground arith)
  | inr miss ↦
      let (i', found, e) = (Option.map-eq-some_iff _ _).0 (rw miss at h) in
      elim j as (λ j. j < i → starts_with (drop j (c ∷ cs)) pat ≡ false) [
        | zero ↦ λ _. miss
        | suc k ↦ λ below. find_first cs pat i' k found (omega arith)
      ]
        lt
]

-- A search for one byte or a set of bytes ends inside the text, at a byte that passes the test.
pub find_if-lt-length : (p : ℕ → Bool) (s : Bytes) (i : ℕ) → find_if p s ≡ some i → i < length s
unfolding find_if
find_if-lt-length p [] i h = cc
find_if-lt-length p (c ∷ cs) i h = elim (Option-cases (find_if p cs)) [
  | inl e ↦ ground arith
  | inr (j, e) ↦ let below = find_if-lt-length p cs j e in ground arith
]

-- Nothing is found exactly when no byte passes the test.
pub find_if-none : (p : ℕ → Bool) (s : Bytes) → find_if p s ≡ none → All (λ c. p c ≡ false) s
unfolding find_if
find_if-none p [] h = tt
find_if-none p (c ∷ cs) h = elim (Option-cases (find_if p cs)) [
  | inl e ↦ (ground arith, find_if-none p cs e)
  | inr (j, e) ↦ absurd (ground arith)
]

pub find_if-take_none :
    (p : ℕ → Bool) (s : Bytes) (i : ℕ) → find_if p s ≡ some i → All (λ c. p c ≡ false) (take i s)
unfolding find_if
find_if-take_none p [] i h = cc
find_if-take_none p (c ∷ cs) i h = elim (Bool-cases (p c)) [
  | inl hit ↦ let e : 0 ≡ i = ground arith in rw (← e) tt
  | inr miss ↦
      let (j, found, e) = (Option.map-eq-some_iff _ _).0 (rw miss at h) in
      rw (← e) (miss, find_if-take_none p cs j found)
]

-- Past the last byte that passes the test, none does.
pub find_last_if-none :
    (p : ℕ → Bool) (s : Bytes) → find_last_if p s ≡ none → All (λ c. p c ≡ false) s
unfolding find_last_if
find_last_if-none p [] h = tt
find_last_if-none p (c ∷ cs) h = elim (Option-cases (find_last_if p cs)) [
  | inl e ↦ (ground arith, find_last_if-none p cs e)
  | inr (j, e) ↦ absurd (ground arith)
]

pub find_last_if-drop_none :
    (p : ℕ → Bool) (s : Bytes) (i : ℕ)
    → find_last_if p s ≡ some i
    → All (λ c. p c ≡ false) (drop (suc i) s)
unfolding find_last_if
find_last_if-drop_none p [] i h = cc
find_last_if-drop_none p (c ∷ cs) i h = elim (Option-cases (find_last_if p cs)) [
  | inl e ↦ let z : 0 ≡ i = ground arith in rw (← z) (find_last_if-none p cs e)
  | inr (j, e) ↦ let z : suc j ≡ i = ground arith in rw (← z) (find_last_if-drop_none p cs j e)
]
