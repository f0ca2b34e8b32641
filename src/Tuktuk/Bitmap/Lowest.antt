-- ===== src/Tuktuk/Bitmap/Lowest.antt =====
-- kit-plugin-tuktuk-task-scheduler/src/lib/tuktuk-client.ts: which task id the search finds.
use Prim.Native.Nat.{bit_and}
use solana_kit_plugins.Prelude.{
  ℕ, zero, suc, ◌+◌, ◌-◌, ◌*◌, ◌/◌, ◌%◌, ◌^◌, ◌<◌, ◌≤◌, ◌≡◌, refl, false, Option, none, some, [],
  ◌∷◌, length, ltb, ◌==◌, arith, if◌then◌else◌, ℕ_discrete, Bool-cases, inl, inr,
}
use solana_kit_plugins.Bytes.{Bytes}
use solana_kit_plugins.Prelude.Bits.{bit_and-eq-zero}
use solana_kit_plugins.Tuktuk.Bitmap.{
  first_clear_bit, free_in_byte, next_from, next_available_task_id,
}
use solana_kit_plugins.Prelude.{refl, dec_lt, ◌∙◌, ap, ◌≢◌, none}

-- bit `j` of a number, and of a bitmap: bit 0 is the lowest of the first byte
abbrev pub bit : ℕ → ℕ → ℕ
bit n j = n / 2 ^ j % 2

abbrev pub used : Bytes → ℕ → ℕ
used [] j = 0
used (byte ∷ rest) j = if ltb j 8 then bit byte j else used rest (j - 8)

-- the answer of a search from bit `from` of a byte
abbrev LowestBit : ℕ → ℕ → ℕ → Option ℕ → Type 0
LowestBit byte from end none = (j : ℕ) → from ≤ j → j < end → bit byte j ≡ 1
LowestBit byte from end (some b) =
    (b < end) × (from ≤ b) × (bit byte b ≡ 0) × ((j : ℕ) → from ≤ j → j < b → bit byte j ≡ 1)

bit_set : (byte k : ℕ) → (bit_and byte (1 * 2 ^ k) == 0) ≡ false → bit byte k ≡ 1
bit_set byte k set =
    let ne : bit byte k ≢ 0 = λ z. ground (arith, (bit_and-eq-zero k byte).1 z) in omega arith

widen :
    (left byte from : ℕ) (r : Option ℕ)
    → bit byte from ≡ 1
    → LowestBit byte (from + 1) (from + 1 + left) r
    → LowestBit byte from (from + suc left) r
widen left byte from none set low = λ j h k. elim (ℕ_discrete from j) [
  | yes e ↦ rw (← e) set
  | no ne ↦ low j (omega arith) (omega arith)
]
widen left byte from (some b) set (small, later, clear, low) = (
  omega arith,
  omega arith,
  clear,
  λ j h k. elim (ℕ_discrete from j) [
    | yes e ↦ rw (← e) set
    | no ne ↦ low j (omega arith) (omega arith)
  ],
)

first_clear_bit-LowestBit :
    (left byte from : ℕ) → LowestBit byte from (from + left) (first_clear_bit left byte from)
unfolding first_clear_bit
first_clear_bit-LowestBit zero byte from = λ j h k. absurd (omega arith)
first_clear_bit-LowestBit (suc left) byte from =
    elim (Bool-cases (bit_and byte (1 * 2 ^ from) == 0)) [
      | inl clear ↦ rw clear (
        omega arith,
        omega arith,
        (bit_and-eq-zero from byte).0 (ground arith),
        λ j h k. absurd (omega arith),
      )
      | inr set ↦ rw set (
          widen left byte from (first_clear_bit left byte (from + 1)) (bit_set byte from set)
            (first_clear_bit-LowestBit left byte (from + 1)))
    ]

all_ones : (j : ℕ) → j < 8 → bit 0xff j ≡ 1
all_ones zero h = refl
all_ones (suc zero) h = refl
all_ones (suc (suc zero)) h = refl
all_ones (suc (suc (suc zero))) h = refl
all_ones (suc (suc (suc (suc zero)))) h = refl
all_ones (suc (suc (suc (suc (suc zero))))) h = refl
all_ones (suc (suc (suc (suc (suc (suc zero)))))) h = refl
all_ones (suc (suc (suc (suc (suc (suc (suc zero))))))) h = refl
all_ones (suc (suc (suc (suc (suc (suc (suc (suc j)))))))) h = absurd (omega arith)

free_in_byte-LowestBit : (byte : ℕ) → LowestBit byte 0 8 (free_in_byte byte)
unfolding free_in_byte
free_in_byte-LowestBit byte = elim (Bool-cases (byte == 0xff)) [
  | inl full ↦ let e : byte ≡ 0xff = ground arith in rw full (λ j _ h. rw e (all_ones j h))
  | inr other ↦ rw other (first_clear_bit-LowestBit 8 byte 0)
]

-- The lowest free bit of a bitmap, counted from `8 * offset` on, or that there is none.
abbrev pub LowestFrom : Bytes → ℕ → Option ℕ → Type 0
LowestFrom bitmap offset none = (j : ℕ) → j < 8 * length bitmap → used bitmap j ≡ 1
LowestFrom bitmap offset (some n) =
    (id : ℕ) × (n ≡ offset * 8 + id)
    × (id < 8 * length bitmap)
    × (used bitmap id ≡ 0)
    × ((j : ℕ) → j < id → used bitmap j ≡ 1)

shifted : (byte : ℕ) (rest : Bytes) (id : ℕ) → used rest id ≡ 0 → used (byte ∷ rest) (id + 8) ≡ 0
shifted byte rest id h =
    let far : ltb (id + 8) 8 ≡ false = ground arith in rw far (ap (used rest) (omega arith) ∙ h)

-- the search in the first byte, and what the search in the rest adds
cons_case :
    (byte : ℕ) (rest : Bytes) (offset : ℕ) (r s : Option ℕ)
    → LowestBit byte 0 8 r
    → LowestFrom rest (offset + 1) s
    → LowestFrom (byte ∷ rest) offset (elim r [ some b ↦ some (offset * 8 + b) | none ↦ s ])
cons_case byte rest offset (some b) s (small, _, clear, low) later =
    (b, refl, omega arith, ground (arith, clear), λ j h. ground (arith, low j))
cons_case byte rest offset none none full later = λ j h. elim (dec_lt j 8) [
  | yes p ↦ ground (arith, full j)
  | no p ↦ ground (arith, later (j - 8))
]
cons_case byte rest offset none (some n) full (id, e, small, clear, low) = (
  id + 8,
  omega arith,
  omega arith,
  shifted byte rest id clear,
  λ j h. elim (dec_lt j 8) [ yes p ↦ ground (arith, full j) | no p ↦ ground (arith, low (j - 8)) ],
)

next_from-LowestFrom :
    (bitmap : Bytes) (offset : ℕ) → LowestFrom bitmap offset (next_from bitmap offset)
unfolding next_from
next_from-LowestFrom [] offset = λ j h. absurd (omega arith)
next_from-LowestFrom (byte ∷ rest) offset =
    cons_case byte rest offset (free_in_byte byte) (next_from rest (offset + 1))
      (free_in_byte-LowestBit byte) (next_from-LowestFrom rest (offset + 1))

abbrev pub IsLowest : Bytes → Option ℕ → Type 0
IsLowest bitmap none = (j : ℕ) → j < 8 * length bitmap → used bitmap j ≡ 1
IsLowest bitmap (some id) =
    (id < 8 * length bitmap) × (used bitmap id ≡ 0) × ((j : ℕ) → j < id → used bitmap j ≡ 1)

from_zero : (bitmap : Bytes) (r : Option ℕ) → LowestFrom bitmap 0 r → IsLowest bitmap r
from_zero bitmap none low = low
from_zero bitmap (some n) (id, e, small, clear, low) =
    let same : n ≡ id = omega arith in rw same (small, clear, low)

-- The search returns the lowest task id whose bit is clear, and `null` exactly when every bit of
-- the bitmap is set.
pub next_available_task_id-IsLowest :
    (task_bitmap : Bytes) → IsLowest task_bitmap (next_available_task_id task_bitmap)
unfolding next_available_task_id
next_available_task_id-IsLowest task_bitmap =
    from_zero task_bitmap (next_from task_bitmap 0) (next_from-LowestFrom task_bitmap 0)
