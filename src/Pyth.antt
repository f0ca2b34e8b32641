-- ===== src/Pyth.antt =====
-- kit-plugin-pyth/src/lib/{constants,types}.ts: the data of the Pyth plugin, and what it throws.
pub mod Price
pub mod Accumulator
pub mod Borsh
pub mod Client
mod Tests
use solana_kit_plugins.Prelude.{ℕ, String, List, [], ◌∷◌}
use solana_kit_plugins.Prelude.Map.{Map}
use solana_kit_plugins.Prelude.Int.{ℤ}
use solana_kit_plugins.Bytes.{Bytes}

abbrev pub pyth_price_account_magic : ℕ
pyth_price_account_magic = 0xa1b2c3d4

abbrev pub pyth_account_type_price : ℕ
pyth_account_type_price = 3

abbrev pub pyth_price_account_min_size : ℕ
pyth_price_account_min_size = 132

abbrev pub pyth_status_unknown : ℕ
pyth_status_unknown = 0

abbrev pub pyth_status_trading : ℕ
pyth_status_trading = 1

abbrev pub pyth_status_halted : ℕ
pyth_status_halted = 2

abbrev pub pyth_status_auction : ℕ
pyth_status_auction = 3

abbrev pub accumulator_update_magic : ℕ
accumulator_update_magic = 0x504e4155

abbrev pub accumulator_update_type_wormhole_merkle : ℕ
accumulator_update_type_wormhole_merkle = 0

abbrev pub post_update_atomic_discriminator : Bytes
post_update_atomic_discriminator = 49 ∷ 172 ∷ 84 ∷ 192 ∷ 175 ∷ 180 ∷ 52 ∷ 234 ∷ []

abbrev pub default_treasury_id : ℕ
default_treasury_id = 0

abbrev pub accumulator_price_message_type : ℕ
accumulator_price_message_type = 0

pub data PythPriceStatus : Type 0 where
  trading halted auction unknown : PythPriceStatus

-- `Float` is the type of JavaScript's numbers.
pub record PythOnchainPriceData (Float : Type 0) : Type 0 where
  pub price : Float
  pub confidence : Float
  pub exponent : ℤ
  pub ema_price : Float
  pub ema_confidence : Float
  pub status : PythPriceStatus
  pub publish_time : ℤ
  pub slot : ℕ

-- the entry of a feed in an accumulator update
pub record MerkleUpdate : Type 0 where
  pub message : Bytes
  pub proof : List Bytes

pub record AccumulatorUpdate : Type 0 where
  pub vaa : Bytes
  pub updates_by_feed_id : Map MerkleUpdate

pub data Error : Type 0 where
  range_error : Error
  invalid_accumulator_magic : ℕ → Error
  unsupported_accumulator_version : ℕ → Error
  unsupported_accumulator_update_type : ℕ → Error
  hermes_api_error : (status : ℕ) → Error
  no_binary_data : Error
  feed_not_found : (feed_id : String) → Error
  price_not_found : (feed_id : String) → Error
  -- any error of a call to the network or of the libraries
  failure : String → Error

abbrev pub hermes_url : String
hermes_url = "https://hermes.pyth.network"

abbrev pub pyth_receiver_program_id : String
pyth_receiver_program_id = "rec5EKMGg6MxZYaMdyBfgwp4d5rB9T1VQH5pJv5LtFJ"

abbrev pub wormhole_program_id : String
wormhole_program_id = "worm2ZoG2kUd4vFXhvjh93UUH596ayRfgQ2MgjNMTth"

pub record PythPrice (Float : Type 0) : Type 0 where
  pub price : Float
  pub confidence : Float
  pub exponent : ℤ
  pub publish_time : Float

pub record PythPriceFeed (Float : Type 0) : Type 0 where
  pub id : String
  pub price : PythPrice Float
  pub ema_price : PythPrice Float

-- the attributes of a feed are passed on as they are
pub record PythFeedInfo (Attributes : Type 0) : Type 0 where
  pub id : String
  pub attributes : Attributes
