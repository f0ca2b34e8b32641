-- ===== src/Arcium/Serialization.antt =====
-- kit-plugin-arcium/src/lib/serialization.ts: the little-endian form of a bigint, which may be
-- negative. The random numbers and the variable of the environment are not modelled.
pub mod RoundTrip
use solana_kit_plugins.Prelude.{ℕ, zero, suc, ◌+◌, ◌-◌, ◌*◌, ◌/◌, ◌%◌, [], ◌∷◌}
use solana_kit_plugins.Prelude.Int.{ℤ, pos, negsuc}
use solana_kit_plugins.Bytes.{Bytes}

-- The loop over the bytes: `place` is the weight of the next one. The bits of a byte shifted to its
-- place are free in the result, so `|=` adds.
unfoldable pub add_bytes : ℕ → ℕ → Bytes → ℕ
add_bytes result place [] = result
add_bytes result place (byte ∷ bytes) = add_bytes (result + byte * place) (place * 256) bytes

unfoldable pub deserialize_le : Bytes → ℕ
deserialize_le bytes = add_bytes 0 1 bytes

-- remaining & 0xff, in two's complement
abbrev pub low_byte : ℤ → ℕ
low_byte (pos n) = n % 256
low_byte (negsuc n) = 255 - n % 256

-- remaining >> 8, which rounds down
abbrev pub shift_byte : ℤ → ℤ
shift_byte (pos n) = pos (n / 256)
shift_byte (negsuc n) = negsuc (n / 256)

unfoldable pub serialize_le : ℤ → ℕ → Bytes
serialize_le value zero = []
serialize_le value (suc length) = low_byte value ∷ serialize_le (shift_byte value) length
