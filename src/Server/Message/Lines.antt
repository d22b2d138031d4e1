-- ===== src/Server/Message/Lines.antt =====
-- Where the blank line of a text of lines stands.
use mathlib.Core.List.{append_assoc}
use mathlib.Core.Option
use apiserver_asymetric_encr.Base.{
  ◌==◌, &&-true, length, all, length-append, ℕ, suc, ◌+◌, ◌≡◌, refl, ap, ◌∙◌, Bool, true, false,
  not, ◌&&◌, some, List, [], ◌∷◌, ◌++◌, arith,
}
use apiserver_asymetric_encr.Text.{Bytes, bytes, starts_with, find}
use apiserver_asymetric_encr.Server.Message.{put_lines}

abbrev pub not_cr : ℕ → Bool
not_cr c = not (c == b'\r')

-- A line that is not empty and holds no carriage return.
abbrev pub is_line : Bytes → Bool
is_line [] = false
is_line (c ∷ s) = not_cr c && all not_cr s

pub all-append :
    {A : Type 0} (p : A → Bool) (s t : List A)
    → all p s ≡ true
    → all p t ≡ true
    → all p (s ++ t) ≡ true
all-append p [] t h k = k
all-append p (c ∷ s) t h k =
    let (here, there) = &&-true (p c) (all p s) h in rw (here, all-append p s t there k) refl

pub is_line-append :
    (s t : Bytes) → is_line s ≡ true → all not_cr t ≡ true → is_line (s ++ t) ≡ true
is_line-append [] t h k = cc
is_line-append (c ∷ s) t h k =
    let (here, there) = &&-true (not_cr c) (all not_cr s) h in
    rw (here, all-append not_cr s t there k) refl

abbrev pub blank : Bytes
blank = bytes "\r\n\r\n"

-- A line's bytes hold no start of the pattern.
find_past :
    (s rest : Bytes) (k : ℕ)
    → all not_cr s ≡ true
    → find rest blank ≡ some k
    → find (s ++ rest) blank ≡ some (length s + k)
unfolding find starts_with
find_past [] rest k h e = e ∙ ap some (omega arith)
find_past (c ∷ s) rest k h e =
    let (here, there) = &&-true (not_cr c) (all not_cr s) h in
    let other : (c == b'\r') ≡ false = ground arith in
    let later = find_past s rest k there e in rw (other, later) (ap some (omega arith))

find_cons_other :
    (c : ℕ) (s pat : Bytes)
    → starts_with (c ∷ s) pat ≡ false
    → find (c ∷ s) pat ≡ Option.map suc (find s pat)
unfolding find
find_cons_other c s pat h = rw h refl

no_blank : (c : ℕ) (s : Bytes) → not_cr c ≡ true → starts_with (b'\r' ∷ b'\n' ∷ c ∷ s) blank ≡ false
unfolding starts_with
no_blank c s h = ground arith

no_start : (s : Bytes) → starts_with (b'\n' ∷ s) blank ≡ false
unfolding starts_with
no_start s = refl

-- The line break of a line that another line follows.
find_break :
    (c : ℕ) (s : Bytes) (k : ℕ)
    → not_cr c ≡ true
    → find (c ∷ s) blank ≡ some k
    → find (b'\r' ∷ b'\n' ∷ c ∷ s) blank ≡ some (2 + k)
find_break c s k h e =
    find_cons_other b'\r' (b'\n' ∷ c ∷ s) blank (no_blank c s h)
    ∙ ap (Option.map suc) (find_cons_other b'\n' (c ∷ s) blank (no_start (c ∷ s)))
    ∙ ap (λ o. Option.map suc (Option.map suc o)) e
    ∙ ap some (omega arith)

find_here : (s : Bytes) → find (b'\r' ∷ b'\n' ∷ b'\r' ∷ b'\n' ∷ s) blank ≡ some 0
unfolding find starts_with
find_here s = refl

put_lines_cons :
    (l : Bytes) (ls : List Bytes) (rest : Bytes)
    → put_lines (l ∷ ls) ++ rest ≡ l ++ (b'\r' ∷ b'\n' ∷ (put_lines ls ++ rest))
unfolding put_lines
put_lines_cons l ls rest = append_assoc l (b'\r' ∷ b'\n' ∷ put_lines ls) rest

length-put_lines :
    (l : Bytes) (ls : List Bytes)
    → length (put_lines (l ∷ ls)) ≡ length l + 2 + length (put_lines ls)
unfolding put_lines
length-put_lines l ls = omega (arith, length-append l (b'\r' ∷ b'\n' ∷ put_lines ls))

pub line_bytes : (l : Bytes) → is_line l ≡ true → all not_cr l ≡ true
line_bytes [] h = refl
line_bytes (c ∷ s) h = h

-- The first blank line of a text of lines is the one behind the last line.
pub find-put_lines :
    (l : Bytes) (ls : List Bytes) (rest : Bytes)
    → is_line l ≡ true
    → all is_line ls ≡ true
    → (k : ℕ) × (find (put_lines (l ∷ ls) ++ (b'\r' ∷ b'\n' ∷ rest)) blank ≡ some k)
      × (k + 2 ≡ length (put_lines (l ∷ ls)))
unfolding put_lines
find-put_lines l [] rest h hs = (
  length l + 0,
  ap (λ t. find t blank) (put_lines_cons l [] (b'\r' ∷ b'\n' ∷ rest))
      ∙ find_past l (b'\r' ∷ b'\n' ∷ b'\r' ∷ b'\n' ∷ rest) 0 (line_bytes l h) (find_here rest),
  omega (arith, length-put_lines l []),
)
find-put_lines l ([] ∷ ls) rest h hs = cc
find-put_lines l ((c ∷ s) ∷ ls) rest h hs =
    let (line, more) = &&-true (is_line (c ∷ s)) (all is_line ls) hs in
    let (start, others) = &&-true (not_cr c) (all not_cr s) line in
    let (k, e, len) = find-put_lines (c ∷ s) ls rest line more in
    (
      length l + (2 + k),
      ap (λ t. find t blank) (put_lines_cons l ((c ∷ s) ∷ ls) (b'\r' ∷ b'\n' ∷ rest))
          ∙ find_past l (b'\r' ∷ b'\n' ∷ (put_lines ((c ∷ s) ∷ ls) ++ (b'\r' ∷ b'\n' ∷ rest)))
              (2 + k) (line_bytes l h) (find_break c _ k start e),
      omega (arith, length-put_lines l ((c ∷ s) ∷ ls), len),
    )
