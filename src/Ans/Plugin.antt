-- ===== src/Ans/Plugin.antt =====
-- kit-plugin-ans-name-service/src/lib/plugin.ts: the methods that resolve a name before they call
-- the connection's method of the same name. The connection's methods are parameters.
pub mod Resolved
mod Tests
use solana_kit_plugins.Prelude.{ℕ, String, List, Option, none, some, Bool}
use solana_kit_plugins.Prelude.Effect.{◌>>=◌}
use solana_kit_plugins.Ans.Client.{Env, Run, get_address_for_ans_name, get_ans_names_for_address}

-- TransferTokensParams
pub record TransferTokens (Signer Signal : Type 0) : Type 0 where
  pub sender : Signer
  pub destination : String
  pub mint_address : String
  pub amount : ℕ
  pub maximum_client_side_retries : Option ℕ
  pub abort_signal : Option Signal
  pub use_token_extensions : Option Bool

pub record TransferSol (Signer Signal : Type 0) : Type 0 where
  pub sender : Signer
  pub destination : String
  pub lamports : ℕ
  pub maximum_client_side_retries : Option ℕ
  pub abort_signal : Option Signal

-- the types of the values that pass through
pub record Types : Type 1 where
  pub Signer : Type 0
  pub Signal : Type 0
  pub Commitment : Type 0
  pub Account : Type 0
  pub Value : Type 0
  pub Breakdown : Type 0
  pub Token : Type 0
  pub Callback : Type 0
  pub Stop : Type 0

-- The result of a call that returns at once. A method that returns a promise has a `Run` as its
-- result.
pub data Direct (A : Type 0) : Type 0 where
  direct : Run A → Direct A

abbrev pub call : {A : Type 0} → Direct A → Run A
call (direct m) = m

-- The connection's methods; those that other plugins add may be missing. What a method takes after
-- the address is one argument. `Stopper` is the result of watchPortfolioValue.
pub record Connection (types : Types) (Stopper : Type 0) : Type 0 where
  pub get_lamport_balance : String → Option types.Commitment → Run ℕ
  pub get_token_accounts : String → Option Bool → Run (List types.Account)
  pub transfer_tokens : Option (TransferTokens types.Signer types.Signal → Run String)
  pub transfer_sol : Option (TransferSol types.Signer types.Signal → Run String)
  pub get_portfolio_value : Option (String → Unit {0} → Run types.Value)
  pub get_portfolio_breakdown : Option (String → Unit {0} → Run types.Breakdown)
  pub get_top_holdings : Option (String → ℕ → Run (List types.Token))
  pub watch_portfolio_value : Option (String → types.Callback × Option ℕ → Stopper)

-- a method is added only if the connection has the original
abbrev pub if_there : {F G : Type 0} → (F → G) → Option F → Option G
if_there enhance none = none
if_there enhance (some original) = some (enhance original)

module _ (env : Env) where
  -- the wrapper of a method whose first argument is the address
  unfoldable pub enhanced : {A V : Type 0} → (String → A → Run V) → String → A → Run V
  enhanced original address_or_name rest = do
    resolved_address ← get_address_for_ans_name env address_or_name
    original resolved_address rest

  -- the wrapper of watchPortfolioValue: the original returns at once, the wrapper a promise
  unfoldable pub enhanced_watch_portfolio_value :
      {A V : Type 0} → (String → A → Direct V) → String → A → Run V
  enhanced_watch_portfolio_value original address_or_name rest = do
    resolved_address ← get_address_for_ans_name env address_or_name
    call (original resolved_address rest)

  module _ {Signer Signal : Type 0} where
    unfoldable pub enhanced_transfer_tokens :
        (TransferTokens Signer Signal → Run String) → TransferTokens Signer Signal → Run String
    enhanced_transfer_tokens original params = do
      resolved_destination ← get_address_for_ans_name env params.destination
      original (record params { destination = resolved_destination })

    unfoldable pub enhanced_transfer_sol :
        (TransferSol Signer Signal → Run String) → TransferSol Signer Signal → Run String
    enhanced_transfer_sol original params = do
      resolved_destination ← get_address_for_ans_name env params.destination
      original (record params { destination = resolved_destination })

  -- the connection with the methods replaced
  unfoldable pub ans :
      {types : Types} → Connection types (Direct types.Stop) → Connection types (Run types.Stop)
  ans connection = record {
    get_lamport_balance = enhanced connection.get_lamport_balance;
    get_token_accounts = enhanced connection.get_token_accounts;
    transfer_tokens = if_there enhanced_transfer_tokens connection.transfer_tokens;
    transfer_sol = if_there enhanced_transfer_sol connection.transfer_sol;
    get_portfolio_value = if_there enhanced connection.get_portfolio_value;
    get_portfolio_breakdown = if_there enhanced connection.get_portfolio_breakdown;
    get_top_holdings = if_there enhanced connection.get_top_holdings;
    watch_portfolio_value =
        if_there enhanced_watch_portfolio_value connection.watch_portfolio_value;
  }
