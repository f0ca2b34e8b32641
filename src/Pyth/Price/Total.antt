-- ===== src/Pyth/Price/Total.antt =====
-- The decoder on arbitrary bytes.
use solana_kit_plugins.Prelude.{
  ℕ, ◌≡◌, arith, ◌≢◌, ◌+◌, ◌≤◌, Bool-cases, length, ltb, leb, true, inl, take, inr, drop,
}
use solana_kit_plugins.Prelude.Number.{Number}
use solana_kit_plugins.Prelude.Result.{ok, throw}
use solana_kit_plugins.Bytes.{Bytes, field, signed, le_value}
use solana_kit_plugins.Prelude.Int.{ℤ}
use solana_kit_plugins.Pyth.{Error}
use solana_kit_plugins.Pyth.Price.{
  read_price_fields, parse_pyth_price_account_data, get_uint, get_int,
}
use solana_kit_plugins.Prelude.{refl}

get_uint_in_range :
    (w : ℕ) (view : Bytes) (offset : ℕ)
    → offset + w ≤ length view
    → (n : ℕ) × (get_uint w view offset ≡ ok n)
unfolding field
get_uint_in_range w view offset h =
    let fits : leb (offset + w) (length view) ≡ true = ground arith in
    (le_value (take w (drop offset view)), rw fits refl)

get_int_in_range :
    (w : ℕ) (view : Bytes) (offset : ℕ)
    → offset + w ≤ length view
    → (z : ℤ) × (get_int w view offset ≡ ok z)
unfolding field
get_int_in_range w view offset h =
    let fits : leb (offset + w) (length view) ≡ true = ground arith in
    (signed w (le_value (take w (drop offset view))), rw fits refl)

module _ (N : Number) where
  open N use {Float}

  read_price_fields-ne-throw :
      (view : Bytes) (e : Error) → 132 ≤ length view → read_price_fields N view ≢ throw e
  unfolding read_price_fields
  read_price_fields-ne-throw view e h =
      rw
        (
          (get_int_in_range 4 view 20 (omega arith)).1,
          (get_int_in_range 8 view 48 (omega arith)).1,
          (get_uint_in_range 8 view 56 (omega arith)).1,
          (get_int_in_range 8 view 64 (omega arith)).1,
          (get_int_in_range 8 view 100 (omega arith)).1,
          (get_uint_in_range 8 view 108 (omega arith)).1,
          (get_uint_in_range 4 view 116 (omega arith)).1,
          (get_uint_in_range 8 view 124 (omega arith)).1,
        )
        (λ p. cc)

  -- Whatever the bytes are, the decoder throws nothing: it returns a price or `null`, since no read
  -- is out of range.
  pub parse_pyth_price_account_data-ne-throw :
      (view : Bytes) (e : Error) → parse_pyth_price_account_data N view ≢ throw e
  unfolding parse_pyth_price_account_data
  parse_pyth_price_account_data-ne-throw view e = elim (Bool-cases (ltb (length view) 132)) [
    | inl short ↦ rw short (λ p. cc)
    | inr long ↦
        let fits : 132 ≤ length view = ground arith in
        rw
          (
            long,
            (get_uint_in_range 4 view 0 (omega arith)).1,
            (get_uint_in_range 4 view 8 (omega arith)).1,
          )
          (ground (arith, read_price_fields-ne-throw view e fits))
  ]
