-- ===== src/Pool/Executor/Bags.antt =====
-- Bags: lists up to their order.
use mathlib.Core.Quot
use mathlib.Core.Quot.{Quot, Quot-set}
use mathlib.Core.List.{Perm, length as core_length}
use mathlib.Core.List.Perm
use mathlib.Core.Nat as Core
use native.Mathlib.Nat.{ℕ_set}
use apiserver_asymetric_encr.Base.{length, ℕ, suc, ◌≡◌, refl, sym, ap, ◌∙◌, List, [], ◌∷◌}

abbrev pub Bag : Type 0 → Type 0
Bag A = Quot (Perm {A = A})

abbrev pub no_items : {A : Type 0} → Bag A
no_items = Quot.mk []

native_of : Core.ℕ → ℕ
native_of Core.zero = 0
native_of (Core.suc n) = suc (native_of n)

length_lem : {A : Type 0} (xs : List A) → length xs ≡ native_of (core_length xs)
unfolding native_of
length_lem [] = refl
length_lem (x ∷ xs) = ap suc (length_lem xs)

pub length-perm : {A : Type 0} (xs ys : List A) → Perm xs ys → length xs ≡ length ys
length-perm xs ys h = length_lem xs ∙ ap native_of (Perm.length-eq h) ∙ sym (length_lem ys)

unfoldable pub bag_size : {A : Type 0} → Bag A → ℕ
bag_size = Quot.lift ℕ_set length length-perm

unfoldable pub put : {A : Type 0} → A → Bag A → Bag A
put a = Quot.lift Quot-set (λ xs. Quot.mk (a ∷ xs)) (λ xs ys h. Quot.sound (Perm.cons a h))
