-- ===== src/Switchboard/Feed/Layout.antt =====
-- The layout of a pull feed account, and the decoder against it.
use solana_kit_plugins.Prelude.{
  ℕ, ◌*◌, ◌-◌, ◌<◌, ◌^◌, ◌≡◌, arith, length, List, ◌≤◌, ◌++◌, some, ap,
}
use solana_kit_plugins.Prelude.Int.{ℤ, pos, negsuc}
use solana_kit_plugins.Bytes.{Bytes, le_bytes, field}
use solana_kit_plugins.Switchboard.Feed.{pull_feed_discriminator, get_uint, get_int, ok}
use mathlib.Core.List.{flatten}
use solana_kit_plugins.Prelude.{
  ◌∷◌, ◌+◌, ◌<◌, ◌≤◌, ◌∙◌, length, some, [], take, drop, ◌++◌, ap, arith,
}
use solana_kit_plugins.Prelude.Result.{ok}
use solana_kit_plugins.Bytes.{field, le_bytes}
use solana_kit_plugins.Switchboard.{pull_feed_discriminator}
use solana_kit_plugins.Switchboard.Feed.{get_uint, get_int, get_int128_le}
use solana_kit_plugins.Prelude.{
  ◌∷◌, ◌+◌, ◌<◌, ◌≤◌, ◌∙◌, length, some, ltb, false, true, String, [], take, drop, ◌++◌, ap, arith,
}
use solana_kit_plugins.Prelude.Number.{Number}
use solana_kit_plugins.Prelude.Result.{ok}
use solana_kit_plugins.Switchboard.{SwitchboardFeedValue, pull_feed_discriminator}
use solana_kit_plugins.Switchboard.Feed.{
  get_uint, get_int, get_int128_le, scaled_to_number, parse_switchboard_feed_account_data,
}
use solana_kit_plugins.Prelude.{false, true, ltb, some}
use solana_kit_plugins.Switchboard.Feed.{parse_switchboard_feed_account_data}

-- the two's complement word of an integer, and the integers that have one
abbrev pub word : ℕ → ℤ → ℕ
word w (pos n) = n
word w (negsuc n) = 256 ^ w - n - 1

abbrev pub Fits : ℕ → ℤ → Type 0
Fits w (pos n) = 2 * n < 256 ^ w
Fits w (negsuc n) = 2 * n < 256 ^ w

-- The fields that the decoder reads, and the parts between them.
pub record PullFeedAccount : Type 0 where
  pub before : Bytes
  pub last_update_timestamp : ℤ
  pub reserved : Bytes
  pub value : ℤ
  pub std_dev : ℤ
  pub mean : ℤ
  pub range : Bytes
  pub min_value : ℤ
  pub max_value : ℤ
  pub num_samples : ℕ
  pub padding : Bytes
  pub slot : ℕ
  pub rest : Bytes

pub record IsAccount (a : PullFeedAccount) : Type 0 where
  pub before_size : length a.before ≡ 2208
  pub reserved_size : length a.reserved ≡ 40
  pub range_size : length a.range ≡ 16
  pub padding_size : length a.padding ≡ 7
  pub rest_size : 16 ≤ length a.rest
  pub timestamp_fits : Fits 8 a.last_update_timestamp
  pub value_fits : Fits 16 a.value
  pub std_dev_fits : Fits 16 a.std_dev
  pub mean_fits : Fits 16 a.mean
  pub min_value_fits : Fits 16 a.min_value
  pub max_value_fits : Fits 16 a.max_value
  pub num_samples_fits : a.num_samples < 256
  pub slot_fits : a.slot < 256 ^ 8

abbrev pub i128 : ℤ → Bytes
i128 z = le_bytes 16 (word 16 z)

abbrev pub parts : PullFeedAccount → List Bytes
parts a =
    pull_feed_discriminator
    ∷ a.before
    ∷ le_bytes 8 (word 8 a.last_update_timestamp)
    ∷ a.reserved
    ∷ i128 a.value
    ∷ i128 a.std_dev
    ∷ i128 a.mean
    ∷ a.range
    ∷ i128 a.min_value
    ∷ i128 a.max_value
    ∷ le_bytes 1 a.num_samples
    ∷ a.padding
    ∷ le_bytes 8 a.slot
    ∷ a.rest
    ∷ []

-- the bytes of an account
abbrev pub account_bytes : PullFeedAccount → Bytes
account_bytes a = flatten (parts a)

module _ (a : PullFeedAccount) (h : IsAccount a) where
  module _ (num : Number) where
    open num use {Float}

    -- what the decoder is to return for an account
    abbrev pub feed_value : String → SwitchboardFeedValue Float
    feed_value feed_address = record {
      address = feed_address;
      value = scaled_to_number num a.value;
      value_raw = a.value;
      standard_deviation = scaled_to_number num a.std_dev;
      mean = scaled_to_number num a.mean;
      min_value = scaled_to_number num a.min_value;
      max_value = scaled_to_number num a.max_value;
      num_samples = a.num_samples;
      slot = a.slot;
      last_updated_at = a.last_update_timestamp;
    }
