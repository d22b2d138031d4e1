-- ===== src/Crypto/Base64.antt =====
-- Decoding gives back what was encoded.
use mathlib.Core.Option
use apiserver_asymetric_encr.Base.{
  leb, ◌==◌, All, ℕ, ◌+◌, ◌-◌, ◌*◌, ◌/◌, ◌%◌, ◌^◌, ◌≤◌, ◌<◌, ◌≡◌, refl, ap, ◌∙◌, true, false,
  Option, none, some, [], ◌∷◌, arith,
}
use apiserver_asymetric_encr.Text.{Bytes}
use apiserver_asymetric_encr.Crypto.{
  b64_char, is_b64, b64_pos, base64_encode, base64_decode_from, base64_decode,
}
use apiserver_asymetric_encr.Crypto.Sextets.{
  sextet_1, sextet_2, sextet_3, sextet_4, byte_1, byte_2, byte_3,
}

abbrev pub AllBytes : Bytes → Type 0
AllBytes s = All (λ c. c < 256) s

b64_char_lem :
    (n : ℕ)
    → n < 64
    → (is_b64 (b64_char n) ≡ true) × ((b64_char n == b'=') ≡ false) × (b64_pos (b64_char n) ≡ n)
unfolding b64_char is_b64 b64_pos
b64_char_lem n h = ground arith

-- One round of the decoder.
decode_step :
    (val have n : ℕ) (rest : Bytes)
    → n < 64
    → have < 2
    → base64_decode_from val have (b64_char n ∷ rest)
      ≡ base64_decode_from ((val * 64 + n) % 2 ^ 32) (have + 6) rest
unfolding base64_decode_from
decode_step val have n rest h k =
    let (ok, no_pad, place) = b64_char_lem n h in
    let few : leb 2 have ≡ false = ground arith in rw (no_pad, ok, few, place) refl

decode_emit :
    (val have n : ℕ) (rest : Bytes)
    → n < 64
    → 2 ≤ have
    → base64_decode_from val have (b64_char n ∷ rest)
      ≡ Option.map
          (λ out. (val * 64 + n) % 2 ^ 32 / 2 ^ (have - 2) % 256 ∷ out)
          (base64_decode_from ((val * 64 + n) % 2 ^ 32) (have - 2) rest)
unfolding base64_decode_from
decode_emit val have n rest h k =
    let (ok, no_pad, place) = b64_char_lem n h in
    let enough : leb 2 have ≡ true = ground arith in rw (no_pad, ok, enough, place) refl

decode_pad : (val have : ℕ) (rest : Bytes) → base64_decode_from val have (b'=' ∷ rest) ≡ some []
unfolding base64_decode_from
decode_pad val have rest = refl

decode_nil : (v : ℕ) → base64_decode_from v 0 [] ≡ some []
unfolding base64_decode_from
decode_nil v = refl

map_three :
    {a b c x y z : ℕ} (o : Option Bytes)
    → a ≡ x
    → b ≡ y
    → c ≡ z
    → Option.map
        (λ (out : Bytes). a ∷ out)
        (Option.map (λ (out : Bytes). b ∷ out) (Option.map (λ (out : Bytes). c ∷ out) o))
      ≡ Option.map (λ (out : Bytes). x ∷ y ∷ z ∷ out) o
map_three none e f g = refl
map_three (some out) e f g = rw (e, f, g) refl

-- A whole group.
decode_group :
    (v x y z : ℕ) (rest : Bytes)
    → x < 256
    → y < 256
    → z < 256
    → (w : ℕ) × (base64_decode_from v 0 (
          b64_char (x / 4)
          ∷ b64_char (x % 4 * 16 + y / 16)
          ∷ b64_char (y % 16 * 4 + z / 64)
          ∷ b64_char (z % 64)
          ∷ rest)
        ≡ Option.map (λ out. x ∷ y ∷ z ∷ out) (base64_decode_from w 0 rest))
decode_group v x y z rest h k l =
    let v1 = (v * 64 + x / 4) % 2 ^ 32 in
    let v2 = (v1 * 64 + (x % 4 * 16 + y / 16)) % 2 ^ 32 in
    let v3 = (v2 * 64 + (y % 16 * 4 + z / 64)) % 2 ^ 32 in
    let v4 = (v3 * 64 + z % 64) % 2 ^ 32 in
    let e1 =
      decode_step v 0 (x / 4)
        (b64_char (x % 4 * 16 + y / 16) ∷ b64_char (y % 16 * 4 + z / 64) ∷ b64_char (z % 64) ∷ rest)
        (omega arith) (omega arith) in
    let e2 =
      decode_emit v1 6 (x % 4 * 16 + y / 16)
        (b64_char (y % 16 * 4 + z / 64) ∷ b64_char (z % 64) ∷ rest) (omega arith) (omega arith) in
    let e3 =
      decode_emit v2 4 (y % 16 * 4 + z / 64) (b64_char (z % 64) ∷ rest) (omega arith)
        (omega arith) in
    let e4 = decode_emit v3 2 (z % 64) rest (omega arith) (omega arith) in
    let tail =
      ap (Option.map (λ (out : Bytes). v2 / 2 ^ (6 - 2) % 256 ∷ out))
        (e3 ∙ ap (Option.map (λ (out : Bytes). v3 / 2 ^ (4 - 2) % 256 ∷ out)) e4) in
    (
      v4,
      e1
          ∙ e2
          ∙ tail
          ∙ map_three (base64_decode_from v4 0 rest) (byte_1 v x y h k)
              (byte_2 v2 y z k l (omega arith)) (byte_3 v3 z l (omega arith)),
    )

-- The last group, of one byte or of two.
decode_one :
    (v x : ℕ)
    → x < 256
    → base64_decode_from v 0 (b64_char (x / 4) ∷ b64_char (x % 4 * 16 + 0 / 16) ∷ b'=' ∷ b'=' ∷ [])
      ≡ some (x ∷ [])
decode_one v x h =
    let v1 = (v * 64 + x / 4) % 2 ^ 32 in
    let v2 = (v1 * 64 + (x % 4 * 16 + 0 / 16)) % 2 ^ 32 in
    let e1 =
      decode_step v 0 (x / 4) (b64_char (x % 4 * 16 + 0 / 16) ∷ b'=' ∷ b'=' ∷ []) (omega arith)
        (omega arith) in
    let e2 =
      decode_emit v1 6 (x % 4 * 16 + 0 / 16) (b'=' ∷ b'=' ∷ []) (omega arith) (omega arith) in
    e1
    ∙ e2
    ∙ ap (Option.map (λ (out : Bytes). v2 / 2 ^ (6 - 2) % 256 ∷ out)) (decode_pad v2 4 (b'=' ∷ []))
    ∙ ap (λ (n : ℕ). some (n ∷ [])) (byte_1 v x 0 h (omega arith))

decode_two :
    (v x y : ℕ)
    → x < 256
    → y < 256
    → base64_decode_from v 0 (
        b64_char (x / 4)
        ∷ b64_char (x % 4 * 16 + y / 16)
        ∷ b64_char (y % 16 * 4 + 0 / 64)
        ∷ b'='
        ∷ [])
      ≡ some (x ∷ y ∷ [])
decode_two v x y h k =
    let v1 = (v * 64 + x / 4) % 2 ^ 32 in
    let v2 = (v1 * 64 + (x % 4 * 16 + y / 16)) % 2 ^ 32 in
    let v3 = (v2 * 64 + (y % 16 * 4 + 0 / 64)) % 2 ^ 32 in
    let e1 =
      decode_step v 0 (x / 4)
        (b64_char (x % 4 * 16 + y / 16) ∷ b64_char (y % 16 * 4 + 0 / 64) ∷ b'=' ∷ []) (omega arith)
        (omega arith) in
    let e2 =
      decode_emit v1 6 (x % 4 * 16 + y / 16) (b64_char (y % 16 * 4 + 0 / 64) ∷ b'=' ∷ [])
        (omega arith) (omega arith) in
    let e3 = decode_emit v2 4 (y % 16 * 4 + 0 / 64) (b'=' ∷ []) (omega arith) (omega arith) in
    e1
    ∙ e2
    ∙ ap (Option.map (λ (out : Bytes). v2 / 2 ^ (6 - 2) % 256 ∷ out))
        (e3 ∙ ap (Option.map (λ (out : Bytes). v3 / 2 ^ (4 - 2) % 256 ∷ out)) (decode_pad v3 2 []))
    ∙ ap (λ (n : ℕ × ℕ). some (n.0 ∷ n.1 ∷ []))
        (pair_path (byte_1 v x y h k) (byte_2 v2 y 0 k (omega arith) (omega arith)))
  where
    pair_path : {a b c d : ℕ} → a ≡ b → c ≡ d → Path (ℕ × ℕ) (a, c) (b, d)
    pair_path e f = rw (e, f) refl

decode_from-base64_encode :
    (v : ℕ) (s : Bytes) → AllBytes s → base64_decode_from v 0 (base64_encode s) ≡ some s
unfolding base64_encode
decode_from-base64_encode v [] h = decode_nil v
decode_from-base64_encode v (x ∷ []) h =
    let whole : x * 65536 ≡ x * 65536 + 0 * 256 + 0 = omega arith in
    rw
      (
        whole,
        sextet_1 x 0 0 h.0 (omega arith) (omega arith),
        sextet_2 x 0 0 h.0 (omega arith) (omega arith),
      )
      (decode_one v x h.0)
decode_from-base64_encode v (x ∷ y ∷ []) h =
    let whole : x * 65536 + y * 256 ≡ x * 65536 + y * 256 + 0 = omega arith in
    rw
      (
        whole,
        sextet_1 x y 0 h.0 h.1.0 (omega arith),
        sextet_2 x y 0 h.0 h.1.0 (omega arith),
        sextet_3 x y 0 h.0 h.1.0 (omega arith),
      )
      (decode_two v x y h.0 h.1.0)
decode_from-base64_encode v (x ∷ y ∷ z ∷ rest) h =
    let (w, group) = decode_group v x y z (base64_encode rest) h.0 h.1.0 h.1.1.0 in
    let later = decode_from-base64_encode w rest h.1.1.1 in
    rw
      (
        sextet_1 x y z h.0 h.1.0 h.1.1.0,
        sextet_2 x y z h.0 h.1.0 h.1.1.0,
        sextet_3 x y z h.0 h.1.0 h.1.1.0,
        sextet_4 x y z,
      )
      (group ∙ ap (Option.map (λ (out : Bytes). x ∷ y ∷ z ∷ out)) later)

-- Decoding the base64 text of any bytes gives the bytes, at every length and so with every padding.
pub base64_decode-base64_encode :
    (s : Bytes) → AllBytes s → base64_decode (base64_encode s) ≡ some s
unfolding base64_decode
base64_decode-base64_encode s h = decode_from-base64_encode 0 s h
