-- ===== src/Text/Trim.antt =====
-- `trim_sv`: no blank is left at either end, and nothing but blanks is taken away.
use mathlib.Core.List.{append-nil}
use apiserver_asymetric_encr.Base.{
  Option-cases, length, take, drop, All, take-append-drop, All-drop, All-take, ℕ, suc, ◌≡◌, sym, ap,
  ◌∙◌, inl, inr, false, not, [], ◌++◌,
}
use apiserver_asymetric_encr.Text.{
  Bytes, find_if, find_last_if, is_blank, trim_left, trim_right, trim_sv,
}
use apiserver_asymetric_encr.Text.Search.{find_if-none, find_if-take_none, find_last_if-drop_none}

abbrev IsBlank : Bytes → Type 0
IsBlank s = All (λ c. not (is_blank c) ≡ false) s

trim_left-parts : (s : Bytes) → (before : Bytes) × IsBlank before × (s ≡ before ++ trim_left s)
unfolding trim_left
trim_left-parts s = elim (Option-cases (find_if (λ c. not (is_blank c)) s)) [
  | inl e ↦ rw e (
    take (length s) s,
    All-take (λ c. not (is_blank c) ≡ false) (length s) s
        (find_if-none (λ c. not (is_blank c)) s e),
    sym (take-append-drop (length s) s),
  )
  | inr (i, e) ↦
      rw e (take i s, find_if-take_none (λ c. not (is_blank c)) s i e, sym (take-append-drop i s))
]

trim_right-parts : (s : Bytes) → (after : Bytes) × IsBlank after × (s ≡ trim_right s ++ after)
unfolding trim_right
trim_right-parts s = elim (Option-cases (find_last_if (λ c. not (is_blank c)) s)) [
  | inl e ↦ ([], tt, rw (e, trim_right) (sym (append-nil s)))
  | inr (i, e) ↦ (
    drop (suc i) s,
    find_last_if-drop_none (λ c. not (is_blank c)) s i e,
    rw (e, trim_right) (sym (take-append-drop (suc i) s)),
  )
]

-- The text is its trimmed part with blanks before and behind it.
pub trim_sv-parts :
    (s : Bytes)
    → (before after : Bytes) × IsBlank before × IsBlank after × (s ≡ before ++ (trim_sv s ++ after))
unfolding trim_sv
trim_sv-parts s =
    let (before, blank, e) = trim_left-parts s in
    let (after, blank', e') = trim_right-parts (trim_left s) in
    (before, after, blank, blank', e ∙ ap (◌++◌ before) e')

module _ {κ} (P : ℕ → Type κ) where
  trim_right-All : (s : Bytes) → All P s → All P (trim_right s)
  unfolding trim_right
  trim_right-All s h = elim (Option-cases (find_last_if (λ c. not (is_blank c)) s)) [
    | inl e ↦ rw (e, trim_right) h
    | inr (i, e) ↦ rw (e, trim_right) (All-take P (suc i) s h)
  ]

  -- A property of every byte survives trimming.
  pub trim_sv-All : (s : Bytes) → All P s → All P (trim_sv s)
  unfolding trim_sv trim_left
  trim_sv-All s h = trim_right-All (trim_left s) (All-drop P _ s h)
