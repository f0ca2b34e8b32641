-- ===== src/Pyth/Price.antt =====
-- kit-plugin-pyth/src/lib/pyth-client.ts: the decoder of a price account.

pub mod Layout
pub mod Total
use solana_kit_plugins.Prelude.{ℕ, Option, none, some, length, ltb, ◌==◌, not, if◌then◌else◌}
use solana_kit_plugins.Prelude.Result.{Result, ok, ◌>>=◌, require}
use solana_kit_plugins.Prelude.Int.{ℤ, pos}
use solana_kit_plugins.Prelude.Number.{Number}
use solana_kit_plugins.Bytes.{Bytes, field, le_value, signed}
use solana_kit_plugins.Pyth.{
  Error, range_error, PythPriceStatus, trading, halted, auction, unknown, PythOnchainPriceData,
  pyth_price_account_magic, pyth_account_type_price, pyth_price_account_min_size,
  pyth_status_unknown, pyth_status_trading, pyth_status_halted, pyth_status_auction,
}

-- view.getUint32(o, true) and view.getBigUint64(o, true), by their width in bytes
abbrev pub get_uint : ℕ → Bytes → ℕ → Result Error ℕ
get_uint width view offset = do
  bytes ← require range_error (field width view offset)
  ok (le_value bytes)

-- view.getInt32(o, true) and view.getBigInt64(o, true)
abbrev pub get_int : ℕ → Bytes → ℕ → Result Error ℤ
get_int width view offset = do
  bytes ← require range_error (field width view offset)
  ok (signed width (le_value bytes))

-- `statusByCode[statusCode] ?? "unknown"`
abbrev pub status_by_code : ℕ → PythPriceStatus
status_by_code code =
    if code == pyth_status_unknown
    then unknown
    else if code == pyth_status_trading
    then trading
    else if code == pyth_status_halted
    then halted
    else if code == pyth_status_auction
    then auction
    else unknown

module _ (N : Number) where
  open N use {Float, of_int, mul, pow10}

  read_price_fields : Bytes → Result Error (PythOnchainPriceData Float)
  read_price_fields view = do
    exponent ← get_int 4 view 20
    ema_price_raw ← get_int 8 view 48
    ema_conf_raw ← get_uint 8 view 56
    timestamp ← get_int 8 view 64
    price_raw ← get_int 8 view 100
    conf_raw ← get_uint 8 view 108
    status_code ← get_uint 4 view 116
    slot ← get_uint 8 view 124
    let multiplier = pow10 exponent
    ok (record {
      price = mul (of_int price_raw) multiplier;
      confidence = mul (of_int (pos conf_raw)) multiplier;
      exponent = exponent;
      ema_price = mul (of_int ema_price_raw) multiplier;
      ema_confidence = mul (of_int (pos ema_conf_raw)) multiplier;
      status = status_by_code status_code;
      publish_time = timestamp;
      slot = slot;
    })

  -- `ok none` is the code's `null`.
  unfoldable pub parse_pyth_price_account_data :
      Bytes → Result Error (Option (PythOnchainPriceData Float))
  unfolding read_price_fields
  parse_pyth_price_account_data view =
      if ltb (length view) pyth_price_account_min_size then ok none else do
        magic ← get_uint 4 view 0
        if not (magic == pyth_price_account_magic) then ok none else do
          account_type ← get_uint 4 view 8
          if not (account_type == pyth_account_type_price)
              then ok none
              else do price ← read_price_fields view; ok (some price)
