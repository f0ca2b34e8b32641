-- ===== src/Jupiter/Tests.antt =====
-- Concrete runs of the Jupiter plugin.
use solana_kit_plugins.Prelude.{
  ℕ, ◌+◌, ◌-◌, ◌*◌, ◌/◌, ◌^◌, String, [], ◌∷◌, List, none, some, true, false, ltb, ◌==◌, not, ◌≡◌,
  refl, ◌++◌, All, drop, length, arith,
}
use mathlib.Core.List.{Perm}
use solana_kit_plugins.Prelude.Int.{pos, pos_part}
use solana_kit_plugins.Prelude.Number.{Number}
use solana_kit_plugins.Prelude.Map.{get, get-empty}
use solana_kit_plugins.Prelude.Sort.{IsOrder}
use solana_kit_plugins.Prelude.Result.{ok}
use solana_kit_plugins.Jupiter.{TokenPriceInfo, JupiterTokenInfo, wrapped_sol_mint}
use solana_kit_plugins.Jupiter.Client.{
  Env, State, new_client, get_token_price, get_token_prices, resolve_token_symbol, look_up,
  add_prices, get_token_symbol,
}
use solana_kit_plugins.Jupiter.Client.Again.{get_token_price-again}
use solana_kit_plugins.Jupiter.Client.Symbols.{resolve_token_symbol-resolved, resolved, after_list}
use solana_kit_plugins.Jupiter.Utils.{Formats}
use solana_kit_plugins.Jupiter.Plugin.{
  Connection, PluginState, TokenAccount, TransferOptions, breakdown_of, slice_to, transfer_tokens,
}
use solana_kit_plugins.Jupiter.Plugin.Portfolio.{
  breakdown_of_lem, slice_to-breakdown_of, found, sum_from, is_worth_less,
}
use solana_kit_plugins.Prelude.Map
use solana_kit_plugins.Jupiter.Plugin.{add_accounts}
use solana_kit_plugins.Jupiter.Client.{look_up, add_prices, get_token_symbol}

-- whole numbers
abbrev whole : Number
whole = record {
  Float = ℕ;
  of_int = pos_part;
  mul = λ a b. a * b;
  quot = λ a b. a / b;
  add = λ a b. a + b;
  sub = λ a b. a - b;
  pow10 = λ e. 10 ^ pos_part e;
  lt = ltb;
}

abbrev tokens : List JupiterTokenInfo
tokens =
    record { address = "mint_a"; symbol = "SOL" }
    ∷ record { address = "mint_b"; symbol = "USDC" }
    ∷ record { address = "mint_c"; symbol = "SOL" }
    ∷ []

-- a service with one price; the clock goes on by 1000 at each call
abbrev service : Env ℕ
service = record {
  api_key = some "key";
  cache_time_ms = 60000;
  vs_token = "USDC";
  now = λ n. 1000 * n;
  to_upper_case = λ text. text;
  truthy = λ price. not (price == 0);
  fetch_prices = λ n headers url. ok (record {
    is_ok = true;
    json =
        ok (("mint_a", record { usd_price = 150 }) ∷ ("mint_c", record { usd_price = 150 }) ∷ []);
  });
  fetch_search = λ n headers url. ok (record { is_ok = true; json = ok (some tokens) });
  fetch_token_list = λ n headers url. ok (record { is_ok = true; json = ok tokens });
}

abbrev start : State ℕ
start = new_client ℕ 0

abbrev sol_price : TokenPriceInfo ℕ
sol_price = record { mint = "mint_a"; symbol = "SOL"; price_usd = 150; fetched_at = 1000 }

priced : (get_token_price service "mint_a" start).0 ≡ ok (some sol_price)
unfolding get_token_price get_token_prices look_up add_prices get_token_symbol get Map.set
priced = refl

abbrev later : State ℕ
later = record (get_token_price service "mint_a" start).1 { clock = 50 }

get_token_price-again_example :
    get_token_price service "mint_a" later ≡ (ok (some sol_price), record later { clock = 51 })
get_token_price-again_example =
    get_token_price-again service "mint_a" start later sol_price (get-empty "mint_a")
      (λ n h. omega arith) priced refl (omega arith)

resolve_token_symbol-resolved_example :
    resolve_token_symbol service "SOL" start
    ≡ (ok (resolved service "SOL" (some tokens) start), after_list service (some tokens) start)
unfolding get
resolve_token_symbol-resolved_example =
    resolve_token_symbol-resolved service "SOL" (ok (record { is_ok = true; json = ok tokens }))
      start refl refl refl

last_wins : resolved service "SOL" (some tokens) start ≡ some "mint_c"
unfolding get
last_wins = refl

abbrev accounts : List TokenAccount
accounts =
    record { mint = "mint_a"; amount = pos 700; decimals = 2 }
    ∷ record { mint = "mint_x"; amount = pos 5; decimals = 0 }
    ∷ record { mint = "mint_b"; amount = pos 3000; decimals = 2 }
    ∷ []

abbrev info : String → ℕ → TokenPriceInfo ℕ
info mint price = record { mint = mint; symbol = mint; price_usd = price; fetched_at = 0 }

abbrev prices : List (String × TokenPriceInfo ℕ)
prices =
    (wrapped_sol_mint, info wrapped_sol_mint 150)
    ∷ ("mint_a", info "mint_a" 150)
    ∷ ("mint_b", info "mint_b" 40)
    ∷ []

breakdown_of_lem_example :
    let b = breakdown_of whole service (pos 2000000000) accounts prices 0 in
    Perm b.tokens (found whole service (pos 2000000000) accounts prices)
    × (b.total_value_usd
        ≡ sum_from whole service 0 (found whole service (pos 2000000000) accounts prices))
    × (b.token_count ≡ length b.tokens)
    × (b.token_count + b.tokens_without_price ≡ 4)
unfolding get
breakdown_of_lem_example = breakdown_of_lem whole service (pos 2000000000) accounts prices 0

total : (breakdown_of whole service (pos 2000000000) accounts prices 0).total_value_usd ≡ 2550
unfolding breakdown_of add_accounts get
total = refl

below_is_order : IsOrder (is_worth_less whole service) (λ token. Unit {0})
below_is_order = record {
  asym = λ a b p q h. ground arith;
  chain = λ a b c p q r h k. ground arith;
}

slice_to-breakdown_of_example :
    let tokens = (breakdown_of whole service (pos 2000000000) accounts prices 0).tokens in
    (slice_to (pos 1) tokens ++ drop 1 tokens ≡ tokens)
    × All
        (λ top. All (λ other. is_worth_less whole service top other ≡ false) (drop 1 tokens))
        (slice_to (pos 1) tokens)
unfolding get
slice_to-breakdown_of_example =
    slice_to-breakdown_of whole service (λ token. Unit) (pos 2000000000) accounts prices 0 1
      below_is_order (tt, (tt, (tt, tt)))

abbrev formats : Formats ℕ
formats = record {
  is_zero = λ n. n == 0;
  below_cent = λ n. false;
  below_one = λ n. false;
  to_exponential = λ digits n. "1e0";
  to_fixed = λ digits n. "0.0000";
  currency = λ n. "$1.00";
  floor_big_int = λ n. ok (pos n);
}

abbrev connection : Connection
connection = record {
  lamport_balance = λ n address. ok (pos 0);
  token_accounts = λ n address. ok [];
  mint_decimals = λ n mint. ok (some 9);
  transfer_tokens = λ n transfer. ok "signature";
  big_int = λ text. ok (pos 0);
}

abbrev options : TransferOptions
options = record {
  sender = "alice";
  destination = "bob";
  maximum_client_side_retries = none;
  abort_signal = none;
  use_token_extensions = none;
}

abbrev wallet : PluginState ℕ
wallet = record { client = start; transfers = [] }
