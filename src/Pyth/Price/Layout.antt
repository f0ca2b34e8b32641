-- ===== src/Pyth/Price/Layout.antt =====
-- The layout of a price account, and the decoder against it.
use solana_kit_plugins.Prelude.{ℕ, ◌*◌, ◌-◌, ◌<◌, ◌^◌, ◌≡◌, ◌++◌, length}
use solana_kit_plugins.Prelude.Int.{ℤ, pos, negsuc}
use solana_kit_plugins.Bytes.{Bytes, le_bytes}
use solana_kit_plugins.Pyth.{pyth_price_account_magic, PythOnchainPriceData}
use solana_kit_plugins.Pyth.Price.{Number, status_by_code}

-- the two's complement word of an integer, and the integers that have one
abbrev pub word : ℕ → ℤ → ℕ
word w (pos n) = n
word w (negsuc n) = 256 ^ w - n - 1

abbrev pub Fits : ℕ → ℤ → Type 0
Fits w (pos n) = 2 * n < 256 ^ w
Fits w (negsuc n) = 2 * n < 256 ^ w

-- The fields that the decoder reads, and the parts between them.
pub record PriceAccount : Type 0 where
  pub version : Bytes
  pub account_type : ℕ
  pub header : Bytes
  pub exponent : ℤ
  pub counts : Bytes
  pub ema_price : ℤ
  pub ema_conf : ℕ
  pub timestamp : ℤ
  pub keys : Bytes
  pub price : ℤ
  pub conf : ℕ
  pub status : ℕ
  pub corp_act : Bytes
  pub slot : ℕ

pub record IsAccount (a : PriceAccount) : Type 0 where
  pub version_size : length a.version ≡ 4
  pub header_size : length a.header ≡ 8
  pub counts_size : length a.counts ≡ 24
  pub keys_size : length a.keys ≡ 28
  pub corp_act_size : length a.corp_act ≡ 4
  pub type_fits : a.account_type < 256 ^ 4
  pub exponent_fits : Fits 4 a.exponent
  pub ema_price_fits : Fits 8 a.ema_price
  pub ema_conf_fits : a.ema_conf < 256 ^ 8
  pub timestamp_fits : Fits 8 a.timestamp
  pub price_fits : Fits 8 a.price
  pub conf_fits : a.conf < 256 ^ 8
  pub status_fits : a.status < 256 ^ 4
  pub slot_fits : a.slot < 256 ^ 8

-- The bytes of an account from a field on, whatever follows the fields that the decoder reads.
module _ (a : PriceAccount) (rest : Bytes) where
  abbrev from_slot : Bytes
  from_slot = le_bytes 8 a.slot ++ rest

  abbrev from_status : Bytes
  from_status = le_bytes 4 a.status ++ (a.corp_act ++ from_slot)

  abbrev from_conf : Bytes
  from_conf = le_bytes 8 a.conf ++ from_status

  abbrev from_price : Bytes
  from_price = le_bytes 8 (word 8 a.price) ++ from_conf

  abbrev from_timestamp : Bytes
  from_timestamp = le_bytes 8 (word 8 a.timestamp) ++ (a.keys ++ from_price)

  abbrev from_ema_conf : Bytes
  from_ema_conf = le_bytes 8 a.ema_conf ++ from_timestamp

  abbrev from_ema_price : Bytes
  from_ema_price = le_bytes 8 (word 8 a.ema_price) ++ from_ema_conf

  abbrev from_exponent : Bytes
  from_exponent = le_bytes 4 (word 4 a.exponent) ++ (a.counts ++ from_ema_price)

  abbrev from_type : Bytes
  from_type = le_bytes 4 a.account_type ++ (a.header ++ from_exponent)

  abbrev pub account_bytes : Bytes
  account_bytes = le_bytes 4 pyth_price_account_magic ++ (a.version ++ from_type)

-- What the decoder is to return for an account.
module _ (N : Number) where
  open N use {Float, of_int, mul, pow10}

  abbrev pub account_price : PriceAccount → PythOnchainPriceData Float
  account_price a = record {
    price = mul (of_int a.price) (pow10 a.exponent);
    confidence = mul (of_int (pos a.conf)) (pow10 a.exponent);
    exponent = a.exponent;
    ema_price = mul (of_int a.ema_price) (pow10 a.exponent);
    ema_confidence = mul (of_int (pos a.ema_conf)) (pow10 a.exponent);
    status = status_by_code a.status;
    publish_time = a.timestamp;
    slot = a.slot;
  }
