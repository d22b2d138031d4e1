-- ===== src/Sql/Fetch/Chunks.antt =====
-- The loops around SQLGetData with a driver that does what the ODBC reference says: which texts they
-- read.
use mathlib.Core.List.{append-nil, append_assoc}
use apiserver_asymetric_encr.Base.{
  ltb, ◌==◌, if◌then◌else◌, ==_iff, Bool-cases, length, take, drop, length-append, length-take,
  length-drop, take-length_self, take_all, pos, ℕ, zero, suc, ◌-◌, ◌≤◌, ◌<◌, ◌≡◌, refl, sym, ap,
  ◌∙◌, inl, inr, Bool, true, false, List, [], ◌∷◌, ◌++◌, arith,
}
use apiserver_asymetric_encr.Text.{Bytes}
use apiserver_asymetric_encr.Sql.Fetch.{
  sql_success, sql_success_with_info, GetData, complete, past_buffer, fetch_chunks,
}

-- SQLGetData on what is left of a text: the indicator is the length of all that is left, and a
-- text that does not fit with its terminator is cut.
unfoldable pub get_data : ℕ → Bytes → GetData × Bytes
get_data size left =
    if ltb (length left) size
    then (record { code = sql_success; indicator = pos (length left); buffer = left ++ 0 ∷ [] }, [])
    else (
      record {
        code = sql_success_with_info;
        indicator = pos (length left);
        buffer = take (size - 1) left ++ 0 ∷ [];
      },
      drop (size - 1) left,
    )

-- As many calls as wanted, one behind the other.
unfoldable pub driver_calls : ℕ → ℕ → Bytes → List GetData
unfolding get_data
driver_calls zero size left = []
driver_calls (suc n) size left =
    let (call, rest) = get_data size left in call ∷ driver_calls n size rest

abbrev whole_call : Bytes → GetData
whole_call left = record {
  code = sql_success;
  indicator = pos (length left);
  buffer = left ++ 0 ∷ [];
}

abbrev cut_call : ℕ → Bytes → GetData
cut_call size left = record {
  code = sql_success_with_info;
  indicator = pos (length left);
  buffer = take (size - 1) left ++ 0 ∷ [];
}

driver_short :
    (size n : ℕ) (left : Bytes)
    → ltb (length left) size ≡ true
    → driver_calls (suc n) size left ≡ whole_call left ∷ driver_calls n size []
unfolding driver_calls
driver_short size n left h = rw (h, get_data) refl

driver_long :
    (size n : ℕ) (left : Bytes)
    → ltb (length left) size ≡ false
    → driver_calls (suc n) size left
      ≡ cut_call size left ∷ driver_calls n size (drop (size - 1) left)
unfolding driver_calls
driver_long size n left h = rw (h, get_data) refl

some_left : (n : ℕ) → (suc n == 0) ≡ false
some_left n = ground arith

-- One round of the loop.
round_whole :
    (checks : Bool) (size : ℕ) (cell left : Bytes) (calls : List GetData)
    → ltb size (length left) ≡ false
    → fetch_chunks checks size cell (whole_call left ∷ calls)
      ≡ complete (cell ++ left) (pos (length left))
unfolding fetch_chunks
round_whole true size cell [] calls h = ap (λ s. complete s (pos 0)) (sym (append-nil cell))
round_whole false size cell [] calls h = ap (λ s. complete s (pos 0)) (sym (append-nil cell))
round_whole true size cell (c ∷ left) calls h =
    rw (some_left (length left)) (rw h (rw (take-length_self (c ∷ left) (0 ∷ [])) refl))
round_whole false size cell (c ∷ left) calls h =
    rw (some_left (length left)) (rw h (rw (take-length_self (c ∷ left) (0 ∷ [])) refl))

round_cut :
    (checks : Bool) (size : ℕ) (cell left : Bytes) (calls : List GetData)
    → 0 < length left
    → fetch_chunks checks size cell (cut_call size left ∷ calls) ≡ (
        if ltb size (length left)
        then past_buffer
        else fetch_chunks checks size
            (cell ++ take (length left) (take (size - 1) left ++ (0 ∷ [])))
            calls)
unfolding fetch_chunks
round_cut checks size cell [] calls h = absurd (omega arith)
round_cut true size cell (c ∷ left) calls h =
    rw (some_left (length left)) (elim (Bool-cases (ltb size (suc (length left)))) [
      | inl more ↦ rw more refl
      | inr fits ↦ rw fits refl
    ])
round_cut false size cell (c ∷ left) calls h =
    rw (some_left (length left)) (elim (Bool-cases (ltb size (suc (length left)))) [
      | inl more ↦ rw more refl
      | inr fits ↦ rw fits refl
    ])

length-cut :
    (size : ℕ) (v : Bytes)
    → length v ≡ size
    → 0 < size
    → length (take (size - 1) v ++ 0 ∷ []) ≡ length v
length-cut size v e h =
    omega (arith, length-append (take (size - 1) v) (0 ∷ []), length-take (size - 1) v)

-- Behind a first call that was cut.
behind_cut :
    (checks : Bool) (size n : ℕ) (v : Bytes)
    → 1 < size
    → size ≤ length v
    → (if ltb size (length v)
        then past_buffer
        else fetch_chunks checks size
            (take (length v) (take (size - 1) v ++ (0 ∷ [])))
            (driver_calls (suc n) size (drop (size - 1) v)))
      ≡ (if length v == size
          then complete (take (size - 1) v ++ (0 ∷ drop (size - 1) v)) (pos 1)
          else past_buffer)
behind_cut checks size n v h long = elim (Bool-cases (length v == size)) [
  | inr other ↦ let more : ltb size (length v) ≡ true = ground arith in rw (other, more) refl
  | inl exact ↦
      let e : length v ≡ size = (==_iff (length v) size).0 exact in
      let fits : ltb size (length v) ≡ false = ground arith in
      let last : length (drop (size - 1) v) ≡ 1 = omega (arith, length-drop (size - 1) v) in
      let short : ltb (length (drop (size - 1) v)) size ≡ true = ground arith in
      let cut = take (size - 1) v ++ (0 ∷ []) in
      rw
        (
          exact,
          fits,
          take_all cut (length v) (omega (arith, length-cut size v e (omega arith))),
          driver_short size n (drop (size - 1) v) short,
        )
        (round_whole checks size cut (drop (size - 1) v) (driver_calls n size []) (ground arith)
          ∙ ap (λ k. complete (cut ++ drop (size - 1) v) (pos k)) last
          ∙ ap (λ s. complete s (pos 1))
              (append_assoc (take (size - 1) v) (0 ∷ []) (drop (size - 1) v)))
]

-- A text that fits is appended.
pub fetch_short :
    (checks : Bool) (size n : ℕ) (cell v : Bytes)
    → length v < size
    → fetch_chunks checks size cell (driver_calls (suc (suc n)) size v)
      ≡ complete (cell ++ v) (pos (length v))
fetch_short checks size n cell v h =
    let short : ltb (length v) size ≡ true = ground arith in
    rw (driver_short size (suc n) v short)
      (round_whole checks size cell v (driver_calls (suc n) size []) (ground arith))

-- With a driver that does what the ODBC reference says, the loop around SQLGetData reads exactly
-- the texts that are shorter than the buffer: a text as long as the buffer is read with a zero byte
-- in it, and for a longer one the callback gives back a size past the buffer.
pub fetch_chunks-driver_calls :
    (checks : Bool) (size n : ℕ) (v : Bytes)
    → 1 < size
    → fetch_chunks checks size [] (driver_calls (suc (suc n)) size v) ≡ (
        if ltb (length v) size
        then complete v (pos (length v))
        else if length v == size
        then complete (take (size - 1) v ++ (0 ∷ drop (size - 1) v)) (pos 1)
        else past_buffer)
fetch_chunks-driver_calls checks size n v h = elim (Bool-cases (ltb (length v) size)) [
  | inl short ↦
      rw (driver_short size (suc n) v short, short)
        (round_whole checks size [] v (driver_calls (suc n) size []) (ground arith))
  | inr long ↦
      rw (driver_long size (suc n) v long, long)
        (round_cut checks size [] v (driver_calls (suc n) size (drop (size - 1) v)) (ground arith)
          ∙ behind_cut checks size n v h (ground arith))
]
