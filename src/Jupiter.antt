-- ===== src/Jupiter.antt =====
-- kit-plugin-jupiter-pricing/src/lib: constants.ts and types.ts. `Float` is the type of JavaScript's
-- numbers where the code computes with prices.
pub mod Client
pub mod Utils
pub mod Plugin
mod Tests
use solana_kit_plugins.Prelude.Int.{ℤ}
use solana_kit_plugins.Prelude.{ℕ, String, List, Option}

abbrev pub wrapped_sol_mint : String
wrapped_sol_mint = "So11111111111111111111111111111111111111112"

abbrev pub jupiter_price_api_v3 : String
jupiter_price_api_v3 = "https://api.jup.ag/price/v3"

abbrev pub jupiter_token_search_api : String
jupiter_token_search_api = "https://api.jup.ag/tokens/v2/search"

abbrev pub jupiter_strict_token_list_api : String
jupiter_strict_token_list_api = "https://api.jup.ag/tokens/v2/tag?query=verified"

abbrev pub default_cache_time_ms : ℕ
default_cache_time_ms = 60000

abbrev pub default_vs_token : String
default_vs_token = "USDC"

-- the field that is read
pub record JupiterPriceData (Float : Type 0) : Type 0 where
  pub usd_price : Float

-- the fields that are read
pub record JupiterTokenInfo : Type 0 where
  pub address : String
  pub symbol : String

pub record TokenPriceInfo (Float : Type 0) : Type 0 where
  pub mint : String
  pub symbol : String
  pub price_usd : Float
  pub fetched_at : ℕ

pub record PortfolioToken (Float : Type 0) : Type 0 where
  pub mint : String
  pub symbol : String
  pub balance : ℤ
  pub decimals : ℕ
  pub price_usd : Float
  pub value_usd : Float

pub record PortfolioBreakdown (Float : Type 0) : Type 0 where
  pub tokens : List (PortfolioToken Float)
  pub total_value_usd : Float
  pub token_count : ℕ
  pub tokens_without_price : ℕ
  pub fetched_at : ℕ
