-- ===== src/Logger/Json.antt =====
-- What a JSON reader makes of the text that `json_escape` of src/logger.hpp writes.
use apiserver_asymetric_encr.Base.{
  ltb, leb, ◌==◌, if◌then◌else◌, ltb→lt, Bool-cases, All, All-append, ℕ, zero, suc, ◌+◌, ◌-◌, ◌*◌,
  ◌/◌, ◌%◌, ◌≤◌, ◌<◌, ◌≡◌, refl, ap, ◌∙◌, inl, inr, false, ◌&&◌, Option, none, some, [], ◌∷◌, ◌++◌,
  arith,
}
use apiserver_asymetric_encr.Text.{Bytes, same}
use apiserver_asymetric_encr.Logger.{hex_digit, unicode_escape, escape_byte, json_escape}
use mathlib.Core.Option
use mathlib.Core.List.{append_assoc}

-- Where a reader stands in a JSON string: between characters, after a backslash, or before `left`
-- further hexadecimal digits of a character.
pub data Place : Type 0 where
  between : Place
  after_backslash : Place
  hexadecimal : (left value : ℕ) → Place

unfoldable pub hex_value : ℕ → Option ℕ
hex_value d =
    if leb 48 d && leb d 57
    then some (d - 48)
    else if leb 97 d && leb d 102
    then some (d - 87)
    else none

unfoldable pub short_escape : ℕ → Option ℕ
short_escape c =
    if c == 34
    then some 34
    else if c == 92
    then some 92
    else if c == 47
    then some 47
    else if c == 98
    then some 8
    else if c == 102
    then some 12
    else if c == 110
    then some 10
    else if c == 114
    then some 13
    else if c == 116
    then some 9
    else none

abbrev pub prefix_with : ℕ → Option (Bytes × Bytes) → Option (Bytes × Bytes)
prefix_with c o = Option.map (λ (s, rest). (c ∷ s, rest)) o

-- The characters of a JSON string up to its closing quote, and what follows it, by the grammar of
-- RFC 8259.
unfoldable pub read_json : Place → Bytes → Option (Bytes × Bytes)
unfolding hex_value short_escape
read_json between [] = none
read_json after_backslash [] = none
read_json (hexadecimal left value) [] = none
read_json between (c ∷ cs) =
    let escaped = read_json after_backslash cs in
    let plain = read_json between cs in
    if c == 92
    then escaped
    else if c == 34
    then some ([], cs)
    else if ltb c 32
    then none
    else prefix_with c plain
read_json after_backslash (c ∷ cs) =
    let digits = read_json (hexadecimal 3 0) cs in
    let rest = read_json between cs in
    if c == 117 then digits else elim (short_escape c) [ none ↦ none | some d ↦ prefix_with d rest ]
read_json (hexadecimal zero value) (c ∷ cs) =
    let rest = read_json between cs in
    elim (hex_value c) [ none ↦ none | some d ↦ prefix_with (value * 16 + d) rest ]
read_json (hexadecimal (suc left) value) (c ∷ cs) = elim (hex_value c) [
  | none ↦ none
  | some d ↦ read_json (hexadecimal left (value * 16 + d)) cs
]

hex_value-hex_digit : (n : ℕ) → n < 16 → hex_value (hex_digit n) ≡ some n
unfolding hex_value hex_digit
hex_value-hex_digit n h = ground arith

read-unicode :
    (c : ℕ) (rest : Bytes)
    → c < 32
    → read_json between (unicode_escape c ++ rest) ≡ prefix_with c (read_json between rest)
unfolding read_json unicode_escape
read-unicode c rest h =
    rw (hex_value-hex_digit (c / 16) (omega arith), hex_value-hex_digit (c % 16) (omega arith))
      (ap (λ d. prefix_with d (read_json between rest)) (omega arith))

data Written (c : ℕ) (out : Bytes) : Type 0 where
  short :
      (e : ℕ)
      → 32 ≤ e
      → (e == 117) ≡ false
      → short_escape e ≡ some c
      → out ≡ 92 ∷ e ∷ []
      → Written c out
  unicode : c < 32 → out ≡ unicode_escape c → Written c out
  unchanged :
      ltb c 32 ≡ false → (c == 34) ≡ false → (c == 92) ≡ false → out ≡ c ∷ [] → Written c out

-- The text of a byte, when the byte is one of the short escapes and when it is not.
short_or :
    (c d e : ℕ) (out : Bytes)
    → 32 ≤ e
    → (e == 117) ≡ false
    → short_escape e ≡ some d
    → ((c == d) ≡ false → Written c out)
    → Written c (if c == d then 92 ∷ e ∷ [] else out)
short_or c d e out printable digits known other = elim (Bool-cases (c == d)) [
  | inl same ↦ rw same (short e printable digits (known ∙ ap some (ground arith)) refl)
  | inr different ↦ rw different (other different)
]

escape_byte-Written : (c : ℕ) → Written c (escape_byte c)
unfolding escape_byte short_escape
escape_byte-Written c = short_or c 34 34 _ (omega arith) refl refl (λ no_quote.
    short_or c 92 92 _ (omega arith) refl refl (λ no_backslash.
      short_or c 8 98 _ (omega arith) refl refl (λ _.
        short_or c 12 102 _ (omega arith) refl refl (λ _.
          short_or c 10 110 _ (omega arith) refl refl (λ _.
            short_or c 13 114 _ (omega arith) refl refl (λ _.
              short_or c 9 116 _ (omega arith) refl refl (λ _. elim (Bool-cases (ltb c 32)) [
                | inl control ↦ rw control (unicode (ltb→lt c 32 control) refl)
                | inr plain ↦ rw plain (unchanged plain no_quote no_backslash refl)
              ])))))))

read-Written :
    {c : ℕ} {out : Bytes} (rest : Bytes)
    → Written c out
    → read_json between (out ++ rest) ≡ prefix_with c (read_json between rest)
unfolding read_json
read-Written rest (short e printable digits known written) = rw (written, digits, known) refl
read-Written {c} rest (unicode control written) = rw written (read-unicode c rest control)
read-Written rest (unchanged plain no_quote no_backslash written) =
    rw (written, no_backslash, no_quote) (rw plain refl)

-- A reader that follows the JSON grammar, started behind an opening quote, makes of the text that a
-- message is escaped to the message again, and stops behind the closing quote, at whatever follows
-- it.
pub read_json-json_escape :
    (s rest : Bytes) → read_json between (json_escape s ++ (34 ∷ rest)) ≡ some (s, rest)
unfolding json_escape read_json
read_json-json_escape [] rest = refl
read_json-json_escape (c ∷ cs) rest =
    rw (append_assoc (escape_byte c) (json_escape cs) (34 ∷ rest)) (
      read-Written (json_escape cs ++ (34 ∷ rest)) (escape_byte-Written c)
      ∙ ap (prefix_with c) (read_json-json_escape cs rest))

bytes_printable : {c : ℕ} {out : Bytes} → Written c out → All (λ b. 32 ≤ b) out
unfolding unicode_escape hex_digit
bytes_printable (short e printable digits known written) = rw written (omega arith, (printable, tt))
bytes_printable (unicode control written) =
    rw written
      (omega arith, (omega arith, (omega arith, (omega arith, (ground arith, (ground arith, tt))))))
bytes_printable (unchanged plain no_quote no_backslash written) = rw written (ground arith, tt)

-- No byte of the text that a message is escaped to is a control character, so no message breaks a
-- log line in two.
pub json_escape_printable : (s : Bytes) → All (λ b. 32 ≤ b) (json_escape s)
unfolding json_escape
json_escape_printable [] = tt
json_escape_printable (c ∷ cs) =
    All-append (λ b. 32 ≤ b) (escape_byte c) (json_escape cs)
      (bytes_printable (escape_byte-Written c)) (json_escape_printable cs)
