-- ===== src/Bytes.antt =====
-- `Uint8Array` and `DataView` as the source uses them: a byte array is a list of numbers.
pub mod Laws
pub mod Parts
use solana_kit_plugins.Prelude.{
  ℕ, zero, suc, ◌+◌, ◌-◌, ◌*◌, ◌/◌, ◌%◌, ◌^◌, ◌<◌, List, [], ◌∷◌, ◌++◌, Option, none, some, String,
  length, take, drop, replicate, get_or, leb, ltb, if◌then◌else◌,
}
use solana_kit_plugins.Prelude.Int.{ℤ, pos, negsuc}
use Prim.Native.String

abbrev pub Bytes : Type 0
Bytes = List ℕ

abbrev pub IsByte : ℕ → Type 0
IsByte b = b < 256

-- new Uint8Array(n)
abbrev pub zeros : ℕ → Bytes
zeros n = replicate n 0

-- bytes.slice(from, to) and bytes.subarray(from, to): what lies past the end is left out
abbrev pub slice : Bytes → ℕ → ℕ → Bytes
slice bytes from to = take (to - from) (drop from bytes)

unfoldable pub le_value : Bytes → ℕ
le_value [] = 0
le_value (b ∷ bs) = b + 256 * le_value bs

unfoldable pub be_value_from : ℕ → Bytes → ℕ
be_value_from acc [] = acc
be_value_from acc (b ∷ bs) = be_value_from (acc * 256 + b) bs

abbrev pub be_value : Bytes → ℕ
be_value = be_value_from 0

-- the two's complement reading of a word of `width` bytes
abbrev pub signed : ℕ → ℕ → ℤ
signed width n = if ltb (2 * n) (256 ^ width) then pos n else negsuc (256 ^ width - n - 1)

-- The reads of a DataView: `none` is the RangeError past the end.
unfoldable pub field : ℕ → Bytes → ℕ → Option Bytes
field width view offset =
    if leb (offset + width) (length view) then some (take width (drop offset view)) else none

-- `target.set(bytes, offset)`: `none` is the RangeError of a write past the end
unfoldable pub write : Bytes → Bytes → ℕ → Option Bytes
write target bytes offset =
    if leb (offset + length bytes) (length target)
    then some (take offset target ++ (bytes ++ drop (offset + length bytes) target))
    else none

-- `setUint32(0, n, true)` and the like on a fresh buffer: `width` bytes, the value wraps
unfoldable pub le_bytes : ℕ → ℕ → Bytes
le_bytes zero n = []
le_bytes (suc width) n = n % 256 ∷ le_bytes width (n / 256)

unfoldable pub be_bytes : ℕ → ℕ → Bytes
be_bytes zero n = []
be_bytes (suc width) n = be_bytes width (n / 256) ++ (n % 256) ∷ []

hex_digit : ℕ → String
hex_digit n =
    get_or
      ("0" ∷ "1" ∷ "2" ∷ "3" ∷ "4" ∷ "5" ∷ "6" ∷ "7" ∷ "8" ∷ "9" ∷ "a" ∷ "b" ∷ "c" ∷ "d" ∷ "e" ∷ "f"
        ∷ [])
      n ""

-- Buffer.from(bytes).toString("hex")
unfoldable pub hex : Bytes → String
unfolding hex_digit
hex [] = ""
hex (b ∷ bs) = String.◌++◌ (hex_digit (b / 16)) (String.◌++◌ (hex_digit (b % 16)) (hex bs))
