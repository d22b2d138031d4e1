-- ===== src/Text/Marks.antt =====
-- Texts that a mark divides: where the first and the last mark stand.
use mathlib.Core.Option
use apiserver_asymetric_encr.Base.{
  ◌==◌, ==_iff, Bool-cases, length, take, drop, All, ℕ, suc, ◌+◌, ◌≡◌, refl, ap, inl, inr, Bool,
  true, false, none, some, List, [], ◌∷◌, ◌++◌, arith,
}
use apiserver_asymetric_encr.Text.{Bytes, find_if, find_last_if}

pub find_if-append :
    (p : ℕ → Bool) (s t : Bytes) (c : ℕ)
    → All (λ x. p x ≡ false) s
    → p c ≡ true
    → find_if p (s ++ (c ∷ t)) ≡ some (length s)
unfolding find_if
find_if-append p [] t c h k = rw k refl
find_if-append p (x ∷ s) t c h k = rw (h.0) (ap (Option.map suc) (find_if-append p s t c h.1 k))

pub find_if-split :
    (d : ℕ) (s : Bytes) (i : ℕ)
    → find_if (λ c. c == d) s ≡ some i
    → s ≡ take i s ++ (d ∷ drop (i + 1) s)
unfolding find_if
find_if-split d [] i h = cc
find_if-split d (c ∷ s) i h = elim (Bool-cases (c == d)) [
  | inl hit ↦
      let z : 0 ≡ i = ground arith in
      let same_char : c ≡ d = (==_iff c d).0 hit in rw (← z) (ap (λ (x : ℕ). x ∷ s) same_char)
  | inr miss ↦
      let (j, found, e) = (Option.map-eq-some_iff _ _).0 (rw miss at h) in
      let next : suc j + 1 ≡ suc (j + 1) = omega arith in
      rw (← e) (rw next (ap (◌∷◌ c) (find_if-split d s j found)))
]

pub drop_behind :
    {A : Type 0} (s : List A) (c : A) (t : List A) → drop (length s + 1) (s ++ (c ∷ t)) ≡ t
drop_behind [] c t = refl
drop_behind (x ∷ s) c t =
    let next : suc (length s) + 1 ≡ suc (length s + 1) = omega arith in rw next (drop_behind s c t)

find_last_if_misses :
    (p : ℕ → Bool) (s : Bytes) → All (λ x. p x ≡ false) s → find_last_if p s ≡ none
unfolding find_last_if
find_last_if_misses p [] h = refl
find_last_if_misses p (x ∷ s) h = rw (find_last_if_misses p s h.1, find_last_if) (rw (h.0) refl)

pub find_last_if-append :
    (p : ℕ → Bool) (s t : Bytes) (c : ℕ)
    → All (λ x. p x ≡ false) t
    → p c ≡ true
    → find_last_if p (s ++ (c ∷ t)) ≡ some (length s)
unfolding find_last_if
find_last_if-append p [] t c h k = rw (find_last_if_misses p t h, find_last_if) (rw k refl)
find_last_if-append p (x ∷ s) t c h k = rw (find_last_if-append p s t c h k, find_last_if) refl

pub find_if_misses : (p : ℕ → Bool) (s : Bytes) → All (λ x. p x ≡ false) s → find_if p s ≡ none
unfolding find_if
find_if_misses p [] h = refl
find_if_misses p (x ∷ s) h = rw (h.0) (ap (Option.map suc) (find_if_misses p s h.1))
