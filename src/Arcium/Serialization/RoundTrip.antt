-- ===== src/Arcium/Serialization/RoundTrip.antt =====
-- kit-plugin-arcium/src/lib/serialization.ts: what deserializeLE makes of serializeLE's bytes.
use solana_kit_plugins.Prelude.{
  ℕ, zero, suc, ◌+◌, ◌-◌, ◌*◌, ◌/◌, ◌^◌, ◌<◌, [], ◌∷◌, ◌≡◌, refl, ap, length, arith,
}
use solana_kit_plugins.Prelude.Int.{ℤ, pos, negsuc}
use solana_kit_plugins.Bytes.{Bytes, le_value}
use solana_kit_plugins.Arcium.Serialization.{add_bytes, deserialize_le, shift_byte, serialize_le}
use native.Mathlib.Nat.{pow-suc, mul_assoc, mul_comm}

add_bytes_lem :
    (result place : ℕ) (bytes : Bytes)
    → add_bytes result place bytes ≡ result + place * le_value bytes
unfolding add_bytes le_value
add_bytes_lem result place [] = omega arith
add_bytes_lem result place (b ∷ bytes) = omega (
  arith,
  add_bytes_lem (result + b * place) (place * 256) bytes,
  mul_assoc place 256 (le_value bytes),
  mul_comm b place,
)

pub length-serialize_le : (value : ℤ) (n : ℕ) → length (serialize_le value n) ≡ n
unfolding serialize_le
length-serialize_le value zero = refl
length-serialize_le value (suc n) = ap suc (length-serialize_le (shift_byte value) n)

-- a value of `n` bytes: -256^n ≤ value < 256^n
abbrev pub Fits : ℕ → ℤ → Type 0
Fits n (pos m) = m < 256 ^ n
Fits n (negsuc m) = m < 256 ^ n

-- the value modulo 256^n
abbrev pub residue : ℕ → ℤ → ℕ
residue n (pos m) = m
residue n (negsuc m) = 256 ^ n - (m + 1)

le_value-serialize_le :
    (value : ℤ) (n : ℕ) → Fits n value → le_value (serialize_le value n) ≡ residue n value
unfolding serialize_le le_value
le_value-serialize_le (pos m) zero h = omega arith
le_value-serialize_le (negsuc m) zero h = omega arith
le_value-serialize_le (pos m) (suc n) h =
    omega (arith, le_value-serialize_le (pos (m / 256)) n (omega (arith, pow-suc 256 n)))
le_value-serialize_le (negsuc m) (suc n) h =
    let small : m / 256 < 256 ^ n = omega (arith, pow-suc 256 n) in
    omega (arith, small, pow-suc 256 n, le_value-serialize_le (negsuc (m / 256)) n small)

-- Of a value v with -256^n ≤ v < 256^n, serializeLE makes n bytes, and deserializeLE makes v of them
-- if v is not negative, and v + 256^n if it is.
pub deserialize_le-serialize_le :
    (value : ℤ) (n : ℕ)
    → Fits n value
    → (length (serialize_le value n) ≡ n)
      × (deserialize_le (serialize_le value n) ≡ residue n value)
unfolding deserialize_le
deserialize_le-serialize_le value n h = (
  length-serialize_le value n,
  omega (arith, add_bytes_lem 0 1 (serialize_le value n), le_value-serialize_le value n h),
)
