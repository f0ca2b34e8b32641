-- ===== src/Bytes/Parts.antt =====
-- Reads from bytes that are put together from parts.
use mathlib.Core.List.{flatten}
use solana_kit_plugins.Prelude.{
  ℕ, zero, suc, ◌+◌, ◌/◌, ◌%◌, ◌^◌, List, [], ◌∷◌, ◌++◌, length, take, drop, ◌≡◌, refl, ap, arith,
  ◌∙◌,
}
use solana_kit_plugins.Bytes.{Bytes, field, le_bytes, le_value}
use solana_kit_plugins.Bytes.Laws.{field-skip}
use solana_kit_plugins.Prelude.{length-append, length, ◌+◌, ◌≡◌, refl, arith}

-- the number of bytes in the parts
abbrev pub size : List Bytes → ℕ
size [] = 0
size (part ∷ parts) = length part + size parts

-- A read behind the first `k` parts is one from the parts that are left.
pub field-flatten :
    (w k : ℕ) (parts : List Bytes) (offset rest : ℕ)
    → offset ≡ size (take k parts) + rest
    → field w (flatten parts) offset ≡ field w (flatten (drop k parts)) rest
unfolding flatten
field-flatten w zero parts offset rest e = ap (field w (flatten parts)) (omega (arith, e))
field-flatten w (suc k) [] offset rest e = ap (field w (flatten [])) (omega (arith, e))
field-flatten w (suc k) (part ∷ parts) offset rest e =
    ap (field w (flatten (part ∷ parts))) {x = offset}
      {y = length part + (size (take k parts) + rest)} (omega (arith, e))
    ∙ field-skip w part (flatten parts) (length part) (size (take k parts) + rest) refl
    ∙ field-flatten w k parts (size (take k parts) + rest) rest refl

-- Sixteen bytes are eight for the low half and eight for the high one.
pub le_bytes_halves : (n : ℕ) → le_bytes 16 n ≡ le_bytes 8 n ++ le_bytes 8 (n / 256 ^ 8)
unfolding le_bytes
le_bytes_halves n =
    let e : n / 256 / 256 / 256 / 256 / 256 / 256 / 256 / 256 ≡ n / 256 ^ 8 = omega arith in
    ap (λ m. le_bytes 8 n ++ le_bytes 8 m) e

pub le_value-le_bytes_low : (n : ℕ) → le_value (le_bytes 8 n) ≡ n % 256 ^ 8
unfolding le_bytes le_value
le_value-le_bytes_low n = omega arith

pub length-flatten : (parts : List Bytes) → length (flatten parts) ≡ size parts
unfolding flatten
length-flatten [] = refl
length-flatten (part ∷ parts) =
    omega (arith, length-append part (flatten parts), length-flatten parts)
