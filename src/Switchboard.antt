-- ===== src/Switchboard.antt =====
-- kit-plugin-switchboard/src/lib/{constants,types}.ts: the data of the Switchboard plugin.
pub mod Feed
pub mod Client
mod Tests
use solana_kit_plugins.Prelude.{ℕ, ◌+◌, ◌*◌, ◌^◌, String, List, [], ◌∷◌}
use solana_kit_plugins.Prelude.Int.{ℤ, pos}
use solana_kit_plugins.Bytes.{Bytes}

abbrev pub pull_feed_discriminator : Bytes
pull_feed_discriminator = 196 ∷ 27 ∷ 108 ∷ 196 ∷ 10 ∷ 215 ∷ 219 ∷ 40 ∷ []

abbrev pub switchboard_decimal_scale : ℤ
switchboard_decimal_scale = pos 1_000_000_000_000_000_000

abbrev pub offset_name : ℕ
offset_name = 8 + 2048 + 32 + 32 + 32 + 8 + 8 + 8 + 4

abbrev pub offset_last_update_timestamp : ℕ
offset_last_update_timestamp = offset_name + 32 + 2 + 1 + 1

abbrev pub offset_result : ℕ
offset_result = offset_last_update_timestamp + 8 + 8 + 32

abbrev pub result_offset_value : ℕ
result_offset_value = 0

abbrev pub result_offset_std_dev : ℕ
result_offset_std_dev = 16

abbrev pub result_offset_mean : ℕ
result_offset_mean = 32

abbrev pub result_offset_min_value : ℕ
result_offset_min_value = 64

abbrev pub result_offset_max_value : ℕ
result_offset_max_value = 80

abbrev pub result_offset_num_samples : ℕ
result_offset_num_samples = 96

abbrev pub result_offset_slot : ℕ
result_offset_slot = 104

abbrev pub result_offset_max_slot : ℕ
result_offset_max_slot = 120

abbrev pub pull_feed_account_min_size : ℕ
pull_feed_account_min_size = offset_result + result_offset_max_slot + 8

-- `Float` is the type of JavaScript's numbers.
pub record SwitchboardFeedValue (Float : Type 0) : Type 0 where
  pub address : String
  pub value : Float
  pub value_raw : ℤ
  pub standard_deviation : Float
  pub mean : Float
  pub min_value : Float
  pub max_value : Float
  pub num_samples : ℕ
  pub slot : ℕ
  pub last_updated_at : ℤ

pub data Error : Type 0 where
  range_error : Error
  -- any error of a call to the network
  failure : String → Error
