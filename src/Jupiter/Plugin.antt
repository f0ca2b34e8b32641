-- ===== src/Jupiter/Plugin.antt =====
-- kit-plugin-jupiter-pricing/src/lib/plugin.ts: the methods that the plugin adds. The connection's
-- own methods are parameters.
pub mod Portfolio
pub mod Transfers
use solana_kit_plugins.Prelude.{
  ℕ, ◌+◌, ◌-◌, String, [], ◌∷◌, List, Option, none, some, Bool, leb, ◌++◌, if◌then◌else◌, map,
  length, take,
}
use solana_kit_plugins.Prelude.Int.{ℤ, pos, negsuc, ltb_ℤ}
use solana_kit_plugins.Prelude.Number.{Number}
use solana_kit_plugins.Prelude.Map.{Map, get}
use solana_kit_plugins.Prelude.Result.{Result, ok, throw}
use solana_kit_plugins.Prelude.Sort.{sort_by}
use solana_kit_plugins.Prelude.Texts.{utf16_length}
use solana_kit_plugins.Prelude.Effect.{Exec, ◌>>=◌, pure, lift, require}
use solana_kit_plugins.Jupiter.{
  wrapped_sol_mint, TokenPriceInfo, PortfolioToken, PortfolioBreakdown,
}
use solana_kit_plugins.Jupiter.Client.{
  Env, State, Error, could_not_resolve_token_symbol, could_not_fetch_price,
  could_not_fetch_mint_info, get_token_price, get_token_prices, resolve_token_symbol, date_now,
  non_empty,
}
use solana_kit_plugins.Jupiter.Utils.{Formats, token_amount_to_ui_amount, ui_amount_to_token_amount}

-- `account.data.parsed.info` of a token account
pub record ParsedTokenAccountInfo : Type 0 where
  pub mint : String
  pub amount : String
  pub decimals : ℕ

pub record TokenAccount : Type 0 where
  pub mint : String
  pub amount : ℤ
  pub decimals : ℕ

pub data TransferAmount (Float : Type 0) : Type 0 where
  of_amount : ℤ → TransferAmount Float
  of_usd_value : Float → TransferAmount Float

-- the parameters that are passed on as they are; a signal stands for itself
pub record TransferOptions : Type 0 where
  pub sender : String
  pub destination : String
  pub maximum_client_side_retries : Option ℕ
  pub abort_signal : Option ℕ
  pub use_token_extensions : Option Bool

-- a call of the connection's own transferTokens
pub record Transfer : Type 0 where
  pub options : TransferOptions
  pub mint_address : String
  pub amount : ℤ

-- the connection: balances in lamports, token accounts, the decimals of a mint
pub record Connection : Type 0 where
  pub lamport_balance : ℕ → String → Result Error ℤ
  pub token_accounts : ℕ → String → Result Error (List ParsedTokenAccountInfo)
  pub mint_decimals : ℕ → String → Result Error (Option ℕ)
  pub transfer_tokens : ℕ → Transfer → Result Error String
  -- BigInt(text)
  pub big_int : String → Result Error ℤ

pub record PluginState (Float : Type 0) : Type 0 where
  pub client : State Float
  pub transfers : List Transfer

abbrev pub or_null : {A B : Type 0} → Option A → (A → B) → Option B
or_null none f = none
or_null (some a) f = some (f a)

-- lamports in a SOL
abbrev pub sol : ℤ
sol = pos 1000000000

-- xs.slice(0, limit)
abbrev pub slice_to {ℓ} : {A : Type ℓ} → ℤ → List A → List A
slice_to (pos n) xs = take n xs
slice_to (negsuc n) xs = take (length xs - (n + 1)) xs

-- the variables of the loop over the token accounts of a portfolio
pub record Totals (Float : Type 0) : Type 0 where
  pub tokens : List (PortfolioToken Float)
  pub total_value_usd : Float
  pub tokens_without_price : ℕ

abbrev pub and_then : {A B : Type 0} → Result Error A → (A → Result Error B) → Result Error B
and_then (ok a) f = f a
and_then (throw e) f = throw e

module _ {Float : Type 0} where
  abbrev pub tick : PluginState Float → PluginState Float
  tick p = record p { client = record p.client { clock = p.client.clock + 1 } }

  -- a call of the connection that reads
  abbrev pub ask : {A : Type 0} → (ℕ → Result Error A) → Exec (PluginState Float) Error A
  ask reply p = (reply p.client.clock, tick p)

  -- a call of the client
  abbrev pub using : {A : Type 0} → Exec (State Float) Error A → Exec (PluginState Float) Error A
  using m p = let (r, s) = m p.client in (r, record p { client = s })

module _ (num : Number) (env : Env num.Float) where
  open num use {Float}

  abbrev pub Run : Type 0 → Type 0
  Run A = Exec (PluginState Float) Error A

  unfoldable pub get_token_value_in_usd : String → ℤ → ℕ → Run (Option Float)
  get_token_value_in_usd mint amount decimals = do
    price_info ← using (get_token_price env mint)
    pure (
        or_null price_info
          λ price. num.mul (token_amount_to_ui_amount num amount decimals) price.price_usd)

  -- the SOL of the portfolio, if it has a price and there is some
  abbrev pub sol_token : ℤ → Option (TokenPriceInfo Float) → List (PortfolioToken Float)
  sol_token sol_balance none = []
  sol_token sol_balance (some price) =
      if ltb_ℤ (pos 0) sol_balance
      then record {
        mint = wrapped_sol_mint;
        symbol = "SOL";
        balance = sol_balance;
        decimals = 9;
        price_usd = price.price_usd;
        value_usd = num.mul (num.quot (num.of_int sol_balance) (num.of_int sol)) price.price_usd;
      }
        ∷ []
      else []

  abbrev pub portfolio_token : TokenAccount → TokenPriceInfo Float → PortfolioToken Float
  portfolio_token account price = record {
    mint = account.mint;
    symbol = price.symbol;
    balance = account.amount;
    decimals = account.decimals;
    price_usd = price.price_usd;
    value_usd =
        num.mul (token_amount_to_ui_amount num account.amount account.decimals) price.price_usd;
  }

  -- one round of the loop
  abbrev pub add_account :
      TokenAccount → Option (TokenPriceInfo Float) → Totals Float → Totals Float
  add_account account none totals = record totals {
    tokens_without_price = totals.tokens_without_price + 1;
  }
  add_account account (some price) totals = record totals {
    tokens = totals.tokens ++ portfolio_token account price ∷ [];
    total_value_usd = num.add totals.total_value_usd (portfolio_token account price).value_usd;
  }

  unfoldable pub add_accounts :
      Map (TokenPriceInfo Float) → List TokenAccount → Totals Float → Totals Float
  add_accounts price_map [] totals = totals
  add_accounts price_map (account ∷ accounts) totals =
      add_accounts price_map accounts (add_account account (get price_map account.mint) totals)

  -- `(a, b) => b.valueUsd - a.valueUsd` is above zero
  abbrev pub behind : PortfolioToken Float → PortfolioToken Float → Bool
  behind a b = num.lt (num.of_int (pos 0)) (num.sub b.value_usd a.value_usd)

  -- the total after `totalValueUsd += solValueUsd`, where there is SOL
  abbrev pub sol_total : List (PortfolioToken Float) → Float
  sol_total [] = num.of_int (pos 0)
  sol_total (token ∷ tokens) = num.add (num.of_int (pos 0)) token.value_usd

  abbrev pub totals_of : ℤ → List TokenAccount → Map (TokenPriceInfo Float) → Totals Float
  totals_of sol_balance accounts price_map =
      let tokens = sol_token sol_balance (get price_map wrapped_sol_mint) in
      add_accounts price_map accounts
        (record { tokens = tokens; total_value_usd = sol_total tokens; tokens_without_price = 0 })

  unfoldable pub breakdown_of :
      ℤ → List TokenAccount → Map (TokenPriceInfo Float) → ℕ → PortfolioBreakdown Float
  breakdown_of sol_balance accounts price_map fetched_at =
      let totals = totals_of sol_balance accounts price_map in
      record {
        tokens = sort_by behind totals.tokens;
        total_value_usd = totals.total_value_usd;
        token_count = length (sort_by behind totals.tokens);
        tokens_without_price = totals.tokens_without_price;
        fetched_at = fetched_at;
      }

  -- the end of convertBetweenTokens, with the prices of the two mints
  abbrev pub converted :
      Formats Float
      → ℤ
      → ℕ
      → Option (TokenPriceInfo Float)
      → Option (TokenPriceInfo Float)
      → Result Error (Option ℤ)
  converted formats from_amount decimals none to_price = ok none
  converted formats from_amount decimals (some from_price) none = ok none
  converted formats from_amount decimals (some from_price) (some to_price) =
      and_then
        (ui_amount_to_token_amount num formats
          (num.quot
            (num.mul (token_amount_to_ui_amount num from_amount decimals) from_price.price_usd)
            to_price.price_usd)
          decimals)
        λ to_amount. ok (some to_amount)

  unfoldable pub convert_between_tokens : Formats Float → String → String → ℤ → ℕ → Run (Option ℤ)
  convert_between_tokens formats from_mint to_mint from_amount decimals = do
    prices ← using (get_token_prices env (from_mint ∷ to_mint ∷ []))
    lift (converted formats from_amount decimals (get prices from_mint) (get prices to_mint))

module _ (num : Number) (env : Env num.Float) (connection : Connection) where
  open num use {Float}

  -- the token accounts with their amounts
  unfoldable pub accounts_of : List ParsedTokenAccountInfo → Result Error (List TokenAccount)
  accounts_of [] = ok []
  accounts_of (info ∷ infos) = and_then (connection.big_int info.amount) λ parsed.
      and_then (accounts_of infos) λ accounts.
        ok (record { mint = info.mint; amount = parsed; decimals = info.decimals } ∷ accounts)

  unfoldable pub get_portfolio_breakdown : String → Run num env (PortfolioBreakdown Float)
  get_portfolio_breakdown address = do
    sol_balance ← ask (λ n. connection.lamport_balance n address)
    raw_token_accounts ← ask (λ n. connection.token_accounts n address)
    accounts ← lift (accounts_of raw_token_accounts)
    price_map ←
        using
          (get_token_prices env (wrapped_sol_mint ∷ map (λ (a : TokenAccount). a.mint) accounts))
    fetched_at ← using (date_now env)
    pure (breakdown_of num env sol_balance accounts price_map fetched_at)

  unfoldable pub get_portfolio_value : String → Run num env Float
  get_portfolio_value address = do
    breakdown ← get_portfolio_breakdown address
    pure breakdown.total_value_usd

  unfoldable pub get_top_holdings : String → ℤ → Run num env (List (PortfolioToken Float))
  get_top_holdings address limit = do
    breakdown ← get_portfolio_breakdown address
    pure (slice_to limit breakdown.tokens)

  -- the part of transferTokens that turns the token into the address of a mint
  abbrev pub mint_address_of : String → Run num env String
  mint_address_of token =
      if leb (utf16_length token) 10
      then (do
        resolved ← using (resolve_token_symbol env token)
        require (could_not_resolve_token_symbol token) (non_empty resolved))
      else pure token

  abbrev pub amount_of : Formats Float → String → String → TransferAmount Float → Run num env ℤ
  amount_of formats token mint_address (of_amount given) = pure given
  amount_of formats token mint_address (of_usd_value value) = do
    found ← using (get_token_price env mint_address)
    price ← require (could_not_fetch_price token) found
    mint ← ask (λ n. connection.mint_decimals n mint_address)
    decimals ← require (could_not_fetch_mint_info token) mint
    lift (ui_amount_to_token_amount num formats (num.quot value price.price_usd) decimals)

  abbrev pub send : Transfer → Run num env String
  send transfer p = (
    connection.transfer_tokens p.client.clock transfer,
    record (tick p) { transfers = p.transfers ++ transfer ∷ [] },
  )

  unfoldable pub transfer_tokens :
      Formats Float → TransferOptions → String → TransferAmount Float → Run num env String
  transfer_tokens formats options token wanted = do
    mint_address ← mint_address_of token
    transfer_amount ← amount_of formats token mint_address wanted
    send (record { options = options; mint_address = mint_address; amount = transfer_amount })
