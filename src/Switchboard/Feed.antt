-- ===== src/Switchboard/Feed.antt =====
-- kit-plugin-switchboard/src/lib/switchboard-client.ts: the decoder of a pull feed account.
pub mod Layout
use solana_kit_plugins.Prelude.{
  ℕ, ◌+◌, ◌-◌, ◌*◌, ◌^◌, String, List, [], ◌∷◌, Option, none, some, Bool, true, false, not, ◌&&◌,
  ◌==◌, length, ltb, if◌then◌else◌,
}
use solana_kit_plugins.Prelude.Int.{ℤ, pos, negsuc}
use solana_kit_plugins.Prelude.Number.{Number}
use solana_kit_plugins.Prelude.Result.{Result, ok, ◌>>=◌, require}
use solana_kit_plugins.Bytes.{Bytes, field, le_value, signed}
use solana_kit_plugins.Switchboard.{
  Error, range_error, SwitchboardFeedValue, pull_feed_discriminator, switchboard_decimal_scale,
  offset_last_update_timestamp, offset_result, result_offset_value, result_offset_std_dev,
  result_offset_mean, result_offset_min_value, result_offset_max_value, result_offset_num_samples,
  result_offset_slot, pull_feed_account_min_size,
}

-- view.getUint8(o) and view.getBigUint64(o, true), by their width in bytes
abbrev pub get_uint : ℕ → Bytes → ℕ → Result Error ℕ
get_uint width view offset = do
  bytes ← require range_error (field width view offset)
  ok (le_value bytes)

-- view.getBigInt64(o, true)
abbrev pub get_int : ℕ → Bytes → ℕ → Result Error ℤ
get_int width view offset = do
  bytes ← require range_error (field width view offset)
  ok (signed width (le_value bytes))

-- `(hi << 64n) | lo` for `lo` below 2 ^ 64: the low 64 bits of `hi << 64n` are zero
abbrev pub joined : ℤ → ℕ → ℤ
joined (pos hi) lo = pos (hi * 2 ^ 64 + lo)
joined (negsuc hi) lo = negsuc (hi * 2 ^ 64 + (2 ^ 64 - 1 - lo))

abbrev pub get_int128_le : Bytes → ℕ → Result Error ℤ
get_int128_le view offset = do
  lo ← get_uint 8 view offset
  hi ← get_int 8 view (offset + 8)
  ok (joined hi lo)

-- the loop over the discriminator; `data[i]` past the end is undefined, which is no byte
unfoldable pub has_discriminator : Bytes → Bytes → Bool
has_discriminator [] view = true
has_discriminator (b ∷ bs) [] = false
has_discriminator (b ∷ bs) (c ∷ view) = (c == b) && has_discriminator bs view

module _ (num : Number) where
  open num use {Float, of_int, quot}

  abbrev pub scaled_to_number : ℤ → Float
  scaled_to_number raw = quot (of_int raw) (of_int switchboard_decimal_scale)

  unfoldable pub read_feed : Bytes → String → Result Error (SwitchboardFeedValue Float)
  read_feed view feed_address = do
    last_updated_at ← get_int 8 view offset_last_update_timestamp
    value_raw ← get_int128_le view (offset_result + result_offset_value)
    std_dev_raw ← get_int128_le view (offset_result + result_offset_std_dev)
    mean_raw ← get_int128_le view (offset_result + result_offset_mean)
    min_value_raw ← get_int128_le view (offset_result + result_offset_min_value)
    max_value_raw ← get_int128_le view (offset_result + result_offset_max_value)
    num_samples ← get_uint 1 view (offset_result + result_offset_num_samples)
    slot ← get_uint 8 view (offset_result + result_offset_slot)
    ok (record {
      address = feed_address;
      value = scaled_to_number value_raw;
      value_raw = value_raw;
      standard_deviation = scaled_to_number std_dev_raw;
      mean = scaled_to_number mean_raw;
      min_value = scaled_to_number min_value_raw;
      max_value = scaled_to_number max_value_raw;
      num_samples = num_samples;
      slot = slot;
      last_updated_at = last_updated_at;
    })

  unfoldable pub parse_switchboard_feed_account_data :
      Bytes → String → Result Error (Option (SwitchboardFeedValue Float))
  parse_switchboard_feed_account_data view feed_address =
      if ltb (length view) pull_feed_account_min_size
      then ok none
      else if not (has_discriminator pull_feed_discriminator view)
      then ok none
      else (do value ← read_feed view feed_address; ok (some value))
