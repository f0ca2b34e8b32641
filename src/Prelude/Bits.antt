-- ===== src/Prelude/Bits.antt =====
-- `&` with a mask of one bit, as the source uses it to test a bit.
use Prim.Native.Nat.{ℕ, zero, suc, ◌*◌, ◌/◌, ◌%◌, ◌^◌, ◌≤◌, min, digits, bit_and, bit_and-bitwise}
use mathlib.Core.Path.{◌≡◌, refl, ap, sym, ◌∙◌}
use mathlib.Core.Logic.{◌↔◌}
use native.Mathlib.Nat.{pow-suc, div-div-eq-div-mul, one-le-pow, zero-mul}
use native.Mathlib.Omega.{arith}

-- the loop over the binary digits that `&` stands for, with room for `room` digits
abbrev masked : (room value mask : ℕ) → ℕ
masked room value mask = digits (λ rest. 0) min room value mask

masked-zero : (room value : ℕ) → masked room value 0 ≡ 0
masked-zero zero value = refl
masked-zero (suc room) zero = refl
masked-zero (suc room) (suc value) = omega (arith, masked-zero room (suc value / 2))

bit_of_zero : (k : ℕ) → 0 / 2 ^ k % 2 * 2 ^ k ≡ 0
bit_of_zero k =
    let nothing : 0 / 2 ^ k ≡ 0 = grind (arith, one-le-pow k 2) in
    ap (λ (t : ℕ). t % 2 * 2 ^ k) nothing ∙ zero-mul (2 ^ k)

-- The next bit of a value is the bit of its half.
bit_of_half : (value k : ℕ) → value / 2 ^ suc k ≡ value / 2 / 2 ^ k
bit_of_half value k =
    sym
      (div-div-eq-div-mul value 2 (2 ^ k) ∙ ap (λ (t : ℕ). value / t) (omega (arith, pow-suc 2 k)))

masked-power :
    (k room value : ℕ) → value ≤ room → masked room value (2 ^ k) ≡ value / 2 ^ k % 2 * 2 ^ k
masked-power k zero zero h = sym (bit_of_zero k)
masked-power k zero (suc value) h = absurd (omega arith)
masked-power k (suc room) zero h = sym (bit_of_zero k)
masked-power zero (suc room) (suc value) h = omega (arith, masked-zero room (suc value / 2))
masked-power (suc k) (suc room) (suc value) h =
    let halved : 2 ^ suc k / 2 ≡ 2 ^ k = omega (arith, pow-suc 2 k) in
    omega (
      arith,
      pow-suc 2 k,
      ap (masked room (suc value / 2)) halved,
      masked-power k room (suc value / 2) (omega arith),
      ap (λ (t : ℕ). t % 2 * 2 ^ suc k) (bit_of_half (suc value) k),
      ap (λ (t : ℕ). suc value / 2 / 2 ^ k % 2 * t) (pow-suc 2 k),
    )

-- `(a & (1 << k)) === 0` says that bit `k` of `a` is clear.
pub bit_and-eq-zero : (k a : ℕ) → (bit_and a (1 * 2 ^ k) ≡ 0) ↔ (a / 2 ^ k % 2 ≡ 0)
bit_and-eq-zero k a =
    let e : bit_and a (1 * 2 ^ k) ≡ a / 2 ^ k % 2 * 2 ^ k =
      ap (bit_and a) (omega arith) ∙ bit_and-bitwise a (2 ^ k) ∙ masked-power k a a (omega arith) in
    (
      (λ h. grind (arith, e, one-le-pow k 2)),
      (λ h. e ∙ ap (λ (t : ℕ). t * 2 ^ k) h ∙ zero-mul (2 ^ k)),
    )
