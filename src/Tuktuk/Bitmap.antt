-- ===== src/Tuktuk/Bitmap.antt =====
-- kit-plugin-tuktuk-task-scheduler/src/lib/tuktuk-client.ts: `nextAvailableTaskId`.
pub mod Lowest
use Prim.Native.Nat.{bit_and}
use solana_kit_plugins.Prelude.{
  ℕ, zero, suc, ◌+◌, ◌*◌, ◌^◌, Option, none, some, [], ◌∷◌, ◌==◌, if◌then◌else◌,
}
use solana_kit_plugins.Bytes.{Bytes}

-- the loop over the bits, `left` of them from `bit_idx` on
unfoldable pub first_clear_bit : ℕ → ℕ → ℕ → Option ℕ
first_clear_bit zero byte bit_idx = none
first_clear_bit (suc left) byte bit_idx =
    let rest = first_clear_bit left byte (bit_idx + 1) in
    if bit_and byte (1 * 2 ^ bit_idx) == 0 then some bit_idx else rest

-- what the loop over the bytes does with a byte, before it goes on
unfoldable pub free_in_byte : ℕ → Option ℕ
unfolding first_clear_bit
free_in_byte byte = if byte == 0xff then none else first_clear_bit 8 byte 0

-- the loop over the bytes from `byte_idx` on
unfoldable pub next_from : Bytes → ℕ → Option ℕ
next_from [] byte_idx = none
next_from (byte ∷ rest) byte_idx = elim (free_in_byte byte) [
  | some bit_idx ↦ some (byte_idx * 8 + bit_idx)
  | none ↦ next_from rest (byte_idx + 1)
]

unfoldable pub next_available_task_id : Bytes → Option ℕ
unfolding next_from free_in_byte
next_available_task_id task_bitmap = next_from task_bitmap 0
