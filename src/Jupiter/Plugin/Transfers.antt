-- ===== src/Jupiter/Plugin/Transfers.antt =====
-- kit-plugin-jupiter-pricing/src/lib/plugin.ts: `transferTokens`, and what the calls of the client in
-- front of it keep.
use solana_kit_plugins.Prelude.{String, [], Option, none, some, ◌≡◌}
use solana_kit_plugins.Prelude.Result.{Result, ok}
use solana_kit_plugins.Prelude.Texts.{utf16_length}
use solana_kit_plugins.Prelude.Effect.{◌>>=◌}
use solana_kit_plugins.Jupiter.{TokenPriceInfo, ℕ}
use solana_kit_plugins.Jupiter.Client.{Env, State, Error, resolve_token_symbol}
use solana_kit_plugins.Jupiter.Plugin.{
  PluginState, using, Connection, TransferOptions, TransferAmount, Transfer, of_amount,
  of_usd_value, amount_of, transfer_tokens, send, ask, Exec,
}
use solana_kit_plugins.Jupiter.Utils.{Formats, ui_amount_to_token_amount}
use solana_kit_plugins.Jupiter.Client.Valid.{IsValid, IsPriceOf}
use solana_kit_plugins.Prelude.Effect.{require}
use solana_kit_plugins.Jupiter.Client.{
  could_not_fetch_price, could_not_fetch_mint_info, get_token_price,
}
use solana_kit_plugins.Jupiter.Client.Prices.{get_token_price-IsPriceOf}
use solana_kit_plugins.Prelude.{◌⊎◌, ◌++◌}
use solana_kit_plugins.Prelude.Number.{Number}
use solana_kit_plugins.Prelude.Int.{ℤ}
use solana_kit_plugins.Prelude.{◌∷◌}
use solana_kit_plugins.Jupiter.Plugin.{ask, using, amount_of, transfer_tokens, send, of_usd_value}
use solana_kit_plugins.Jupiter.Client.Prices.{get_token_price-IsPriceOf}
use solana_kit_plugins.Prelude.Effect.{lift}
use solana_kit_plugins.Jupiter.Client.{
  could_not_fetch_price, could_not_fetch_mint_info, get_token_price,
}
use solana_kit_plugins.Prelude.{◌≤◌, ◌<◌}
use solana_kit_plugins.Jupiter.Plugin.{amount_of, transfer_tokens, send, of_amount}
use solana_kit_plugins.Jupiter.Client.{could_not_fetch_price}

module _ (num : Number) (env : Env num.Float) (connection : Connection)
    (formats : Formats num.Float) (options : TransferOptions) (token : String)
    (wanted : TransferAmount num.Float) where
  open num use {Float}

  -- the amount is the given one, or the value divided by a price of the mint, in its units, of which
  -- the connection has told the number of decimals
  abbrev pub IsAmount : String → TransferAmount Float → ℤ → Type 0
  IsAmount mint (of_amount given) sent = sent ≡ given
  IsAmount mint (of_usd_value value) sent =
      (price : TokenPriceInfo Float) × (decimals : ℕ) × IsPriceOf env mint (some price)
      × ((n : ℕ) × (connection.mint_decimals n mint ≡ ok (some decimals)))
      × (ui_amount_to_token_amount num formats (num.quot value price.price_usd) decimals ≡ ok sent)

  -- from some state of the client, resolveTokenSymbol gives that mint for the token
  abbrev pub Resolves : String → Type 0
  Resolves mint = (s : State Float) × ((resolve_token_symbol env token s).0 ≡ ok (some mint))

  -- a text of at most 10 characters is resolved, and a longer one is the mint itself
  abbrev pub IsMint : String → Type 0
  IsMint mint =
      ((utf16_length token ≤ 10) × Resolves mint) ⊎ ((10 < utf16_length token) × (mint ≡ token))

  abbrev pub IsWanted : Transfer → Type 0
  IsWanted transfer =
      (transfer.options ≡ options)
      × IsMint transfer.mint_address
      × IsAmount transfer.mint_address wanted transfer.amount

  -- one transfer more than before
  abbrev pub IsSent : PluginState Float → PluginState Float → Type 0
  IsSent p q =
      (transfer : Transfer) × IsWanted transfer × (q.transfers ≡ p.transfers ++ transfer ∷ [])

  abbrev IsReady : PluginState Float → PluginState Float → Type 0
  IsReady p q = IsValid env q.client × (q.transfers ≡ p.transfers)

  abbrev pub IsUnsent : PluginState Float → PluginState Float → Type 0
  IsUnsent p q = (q.transfers ≡ p.transfers) ⊎ IsSent p q

  abbrev IsNamed : Option String → Type 0
  IsNamed none = Unit
  IsNamed (some mint) = Resolves mint

  -- a call of the connection has told the decimals of the mint
  abbrev HasDecimals : String → Option ℕ → Type 0
  HasDecimals mint found = (n : ℕ) × (connection.mint_decimals n mint ≡ ok found)

  -- the end of the computation of the amount, with the price
  abbrev amount_from : String → Float → TokenPriceInfo Float → Exec (PluginState Float) Error ℤ
  amount_from mint value price = ask (λ n. connection.mint_decimals n mint) >>= λ found.
      require (could_not_fetch_mint_info token) found >>= λ decimals.
      lift (ui_amount_to_token_amount num formats (num.quot value price.price_usd) decimals)
