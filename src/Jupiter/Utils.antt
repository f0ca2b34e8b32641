-- ===== src/Jupiter/Utils.antt =====
-- kit-plugin-jupiter-pricing/src/lib/utils.ts. How JavaScript writes a number, and `BigInt` of a
-- rounded one, are parameters.
use Prim.Native.String
use solana_kit_plugins.Prelude.{ℕ, String, Bool, if◌then◌else◌}
use solana_kit_plugins.Prelude.Int.{ℤ, pos}
use solana_kit_plugins.Prelude.Number.{Number}
use solana_kit_plugins.Prelude.Result.{Result}
use solana_kit_plugins.Jupiter.Client.{Error}

pub record Formats (Float : Type 0) : Type 0 where
  -- value === 0, value < 0.01, value < 1
  pub is_zero : Float → Bool
  pub below_cent : Float → Bool
  pub below_one : Float → Bool
  pub to_exponential : ℕ → Float → String
  pub to_fixed : ℕ → Float → String
  -- Intl.NumberFormat("en-US", …) with USD and two digits
  pub currency : Float → String
  -- BigInt(Math.floor(value))
  pub floor_big_int : Float → Result Error ℤ

module _ (num : Number) where
  abbrev pub token_amount_to_ui_amount : ℤ → ℕ → num.Float
  token_amount_to_ui_amount amount decimals =
      num.quot (num.of_int amount) (num.pow10 (pos decimals))

module _ (num : Number) (formats : Formats num.Float) where
  abbrev pub ui_amount_to_token_amount : num.Float → ℕ → Result Error ℤ
  ui_amount_to_token_amount ui_amount decimals =
      formats.floor_big_int (num.mul ui_amount (num.pow10 (pos decimals)))

module _ {Float : Type 0} (formats : Formats Float) where
  abbrev pub format_usd_value : Float → String
  format_usd_value value =
      if formats.is_zero value
      then "$0.00"
      else if formats.below_cent value
      then String.◌++◌ "$" (formats.to_exponential 2 value)
      else if formats.below_one value
      then String.◌++◌ "$" (formats.to_fixed 4 value)
      else formats.currency value
