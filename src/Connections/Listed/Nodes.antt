-- ===== src/Connections/Listed/Nodes.antt =====
-- Lists of nodes, as src/server.cpp takes nodes out of its timeout list and puts them at the end.
use apiserver_asymetric_encr.Base.{
  ◌==◌, ==_iff, Bool-cases, All, ℕ, ◌≤◌, ◌≡◌, refl, sym, ap, ◌∙◌, subst, ◌≢◌, inl, inr, true, false,
  some, List, [], ◌∷◌, ◌++◌, arith,
}
use apiserver_asymetric_encr.Connections.{Node, erase_node, find_node}

pub not_same : (a b : ℕ) → a ≢ b → (a == b) ≡ false
not_same a b h = elim (Bool-cases (a == b)) [ inl e ↦ absurd (h ((==_iff a b).0 e)) | inr e ↦ e ]

-- No two nodes are the same.
abbrev pub UniqueIds : List Node → Type 0
UniqueIds [] = Unit
UniqueIds (n ∷ rest) = All (λ k. k.node_id ≢ n.node_id) rest × UniqueIds rest

abbrev pub SortedBy : (Node → ℕ) → List Node → Type 0
SortedBy t [] = Unit
SortedBy t (n ∷ rest) = All (λ k. t n ≤ t k) rest × SortedBy t rest

pub All-map {ℓ κ κ'} :
    {A : Type ℓ} (P : A → Type κ) (Q : A → Type κ') (xs : List A)
    → ((x : A) → P x → Q x)
    → All P xs
    → All Q xs
All-map P Q [] f h = tt
All-map P Q (x ∷ xs) f h = (f x h.0, All-map P Q xs f h.1)

pub All-zip {ℓ κ κ'} :
    {A : Type ℓ} (P : A → Type κ) (Q : A → Type κ') (xs : List A)
    → All P xs
    → All Q xs
    → All (λ x. P x × Q x) xs
All-zip P Q [] h k = tt
All-zip P Q (x ∷ xs) h k = ((h.0, k.0), All-zip P Q xs h.1 k.1)

pub All-end {ℓ κ} :
    {A : Type ℓ} (P : A → Type κ) (xs : List A) (y : A) → All P xs → P y → All P (xs ++ y ∷ [])
All-end P [] y h k = (k, tt)
All-end P (x ∷ xs) y h k = (h.0, All-end P xs y h.1 k)

pub All-erase_node {κ} :
    (P : Node → Type κ) (i : ℕ) (l : List Node) → All P l → All P (erase_node i l)
unfolding erase_node
All-erase_node P i [] h = tt
All-erase_node P i (n ∷ l) h = elim (Bool-cases (n.node_id == i)) [
  | inl e ↦ rw (e, erase_node) h.1
  | inr e ↦ rw (e, erase_node) (h.0, All-erase_node P i l h.1)
]

pub UniqueIds-erase_node : (i : ℕ) (l : List Node) → UniqueIds l → UniqueIds (erase_node i l)
unfolding erase_node
UniqueIds-erase_node i [] h = tt
UniqueIds-erase_node i (n ∷ l) h = elim (Bool-cases (n.node_id == i)) [
  | inl e ↦ rw (e, erase_node) h.1
  | inr e ↦ rw (e, erase_node) (All-erase_node _ i l h.0, UniqueIds-erase_node i l h.1)
]

pub SortedBy-erase_node :
    (t : Node → ℕ) (i : ℕ) (l : List Node) → SortedBy t l → SortedBy t (erase_node i l)
unfolding erase_node
SortedBy-erase_node t i [] h = tt
SortedBy-erase_node t i (n ∷ l) h = elim (Bool-cases (n.node_id == i)) [
  | inl e ↦ rw (e, erase_node) h.1
  | inr e ↦ rw (e, erase_node) (All-erase_node _ i l h.0, SortedBy-erase_node t i l h.1)
]

pub erased_is_gone :
    (i : ℕ) (l : List Node) → UniqueIds l → All (λ k. k.node_id ≢ i) (erase_node i l)
unfolding erase_node
erased_is_gone i [] h = tt
erased_is_gone i (n ∷ l) h = elim (Bool-cases (n.node_id == i)) [
  | inl e ↦
      rw (e, erase_node) (subst (λ j. All (λ k. k.node_id ≢ j) l) ((==_iff n.node_id i).0 e) h.0)
  | inr e ↦
      rw (e, erase_node) (λ q. ground (arith, (==_iff n.node_id i).1 q), erased_is_gone i l h.1)
]

pub UniqueIds-end :
    (l : List Node) (n : Node)
    → UniqueIds l
    → All (λ k. k.node_id ≢ n.node_id) l
    → UniqueIds (l ++ n ∷ [])
UniqueIds-end [] n h k = (tt, tt)
UniqueIds-end (x ∷ l) n h k = (All-end _ l n h.0 (λ q. k.0 (sym q)), UniqueIds-end l n h.1 k.1)

pub SortedBy-end :
    (t : Node → ℕ) (l : List Node) (n : Node)
    → SortedBy t l
    → All (λ k. t k ≤ t n) l
    → SortedBy t (l ++ n ∷ [])
SortedBy-end t [] n h k = (tt, tt)
SortedBy-end t (x ∷ l) n h k = (All-end _ l n h.0 k.0, SortedBy-end t l n h.1 k.1)

pub SortedBy-same :
    (t u : Node → ℕ) (l : List Node) → All (λ k. u k ≡ t k) l → SortedBy t l → SortedBy u l
SortedBy-same t u [] e h = tt
SortedBy-same t u (n ∷ l) e h = (
  All-map _ _ l (λ k (q, le). omega (arith, q, le, e.0)) (All-zip _ _ l e.1 h.0),
  SortedBy-same t u l e.1 h.1,
)

pub find_node-id : (i : ℕ) (l : List Node) (n : Node) → find_node i l ≡ some n → n.node_id ≡ i
unfolding find_node
find_node-id i [] n h = absurd (ground arith)
find_node-id i (k ∷ l) n h = elim (Bool-cases (k.node_id == i)) [
  | inl e ↦
      let same_node : k ≡ n = ground arith in
      ap (λ x. x.node_id) (sym same_node) ∙ (==_iff k.node_id i).0 e
  | inr e ↦ find_node-id i l n (ground arith)
]

pub find_node-erase_other :
    (j i : ℕ) (l : List Node) → j ≢ i → find_node j (erase_node i l) ≡ find_node j l
unfolding find_node erase_node
find_node-erase_other j i [] h = refl
find_node-erase_other j i (n ∷ l) h = elim (Bool-cases (n.node_id == i)) [
  | inl e ↦
      let other = not_same n.node_id j (λ q. h (sym q ∙ (==_iff n.node_id i).0 e)) in
      rw e (rw other refl)
  | inr e ↦ rw e (elim (Bool-cases (n.node_id == j)) [
    | inl f ↦ rw f refl
    | inr f ↦ rw f (find_node-erase_other j i l h)
  ])
]

pub find_node-end :
    (j : ℕ) (l : List Node) (x n : Node)
    → find_node j l ≡ some n
    → find_node j (l ++ x ∷ []) ≡ some n
unfolding find_node
find_node-end j [] x n h = absurd (ground arith)
find_node-end j (k ∷ l) x n h = elim (Bool-cases (k.node_id == j)) [
  | inl e ↦ rw e (ground arith)
  | inr e ↦ rw e (find_node-end j l x n (ground arith))
]

pub find_node-last :
    (l : List Node) (n : Node)
    → All (λ k. k.node_id ≢ n.node_id) l
    → find_node n.node_id (l ++ n ∷ []) ≡ some n
unfolding find_node
find_node-last [] n h = let e : (n.node_id == n.node_id) ≡ true = ground arith in rw e refl
find_node-last (k ∷ l) n h =
    let e : (k.node_id == n.node_id) ≡ false = not_same k.node_id n.node_id h.0 in
    rw e (find_node-last l n h.1)

pub All-found {κ} :
    (P : Node → Type κ) (i : ℕ) (l : List Node) (n : Node) → find_node i l ≡ some n → All P l → P n
unfolding find_node
All-found P i [] n e h = absurd (ground arith)
All-found P i (k ∷ l) n e h = elim (Bool-cases (k.node_id == i)) [
  | inl f ↦ let same_node : k ≡ n = ground arith in subst P same_node h.0
  | inr f ↦ All-found P i l n (ground arith) h.1
]

pub erase_node-append :
    (before after : List Node) (n : Node)
    → UniqueIds (before ++ n ∷ after)
    → erase_node n.node_id (before ++ n ∷ after) ≡ before ++ after
unfolding erase_node
erase_node-append [] after n h = let e : (n.node_id == n.node_id) ≡ true = ground arith in rw e refl
erase_node-append (k ∷ before) after n h =
    let other = not_same k.node_id n.node_id (λ q. middle before h.0 (sym q)) in
    rw other (ap (◌∷◌ k) (erase_node-append before after n h.1))
  where
    middle :
        (xs : List Node)
        → All (λ x. x.node_id ≢ k.node_id) (xs ++ n ∷ after)
        → n.node_id ≢ k.node_id
    middle [] a = a.0
    middle (x ∷ xs) a = middle xs a.1
