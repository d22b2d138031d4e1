-- ===== src/Crypto/Sextets.antt =====
-- The bits of a base64 group: three bytes, four sextets, and the bytes again.
use apiserver_asymetric_encr.Base.{ℕ, ◌+◌, ◌*◌, ◌/◌, ◌%◌, ◌^◌, ◌<◌, ◌≡◌, arith}

-- The four sextets of three bytes.
pub sextet_1 :
    (x y z : ℕ) → x < 256 → y < 256 → z < 256 → (x * 65536 + y * 256 + z) / 262144 % 64 ≡ x / 4
sextet_1 x y z h k l = omega arith

pub sextet_2 :
    (x y z : ℕ)
    → x < 256
    → y < 256
    → z < 256
    → (x * 65536 + y * 256 + z) / 4096 % 64 ≡ x % 4 * 16 + y / 16
sextet_2 x y z h k l = omega arith

pub sextet_3 :
    (x y z : ℕ)
    → x < 256
    → y < 256
    → z < 256
    → (x * 65536 + y * 256 + z) / 64 % 64 ≡ y % 16 * 4 + z / 64
sextet_3 x y z h k l = omega arith

pub sextet_4 : (x y z : ℕ) → (x * 65536 + y * 256 + z) % 64 ≡ z % 64
sextet_4 x y z = omega arith

-- The three bytes that the decoder puts together again.
pub byte_1 :
    (v x y : ℕ)
    → x < 256
    → y < 256
    → ((v * 64 + x / 4) % 2 ^ 32 * 64 + (x % 4 * 16 + y / 16)) % 2 ^ 32 / 16 % 256 ≡ x
byte_1 v x y h k = omega arith

pub byte_2 :
    (w y z : ℕ)
    → y < 256
    → z < 256
    → w % 16 ≡ y / 16
    → (w * 64 + (y % 16 * 4 + z / 64)) % 2 ^ 32 / 4 % 256 ≡ y
byte_2 w y z h k e = omega arith

pub byte_3 : (w z : ℕ) → z < 256 → w % 4 ≡ z / 64 → (w * 64 + z % 64) % 2 ^ 32 / 1 % 256 ≡ z
byte_3 w z h e = omega arith
