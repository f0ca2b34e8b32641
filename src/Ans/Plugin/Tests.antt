-- ===== src/Ans/Plugin/Tests.antt =====
-- Concrete runs of the methods that resolve a name first.
use solana_kit_plugins.Prelude.{ℕ, [], ◌∷◌, ◌≡◌, refl, String, none, some, replicate, ◌*◌}
use solana_kit_plugins.Prelude.Result.{ok}
use solana_kit_plugins.Prelude.Effect.{pure}
use solana_kit_plugins.Prelude.Map.{get}
use solana_kit_plugins.Ans.{split}
use solana_kit_plugins.Ans.Client.{
  Env, new_client, get_address_for_ans_name, get_domain_account_key,
}
use solana_kit_plugins.Ans.Plugin.{Types, Connection, Direct, direct, ans, enhanced}
use solana_kit_plugins.Ans.Plugin.Resolved.{IsResolvedAt, ans-IsResolvedAt}
use solana_kit_plugins.Prelude.{inr}
use solana_kit_plugins.Prelude.Map.{set}
use solana_kit_plugins.Ans.Client.{State}

abbrev network : Env
network = record {
  cache_time = 3600000;
  connect = ok tt;
  now = λ n. 1000 * n;
  sha256 = λ text. replicate 32 1;
  utf8 = λ text. replicate 32 2;
  from_base64 = λ text. replicate 200 3;
  to_base58 = λ bytes. "owner";
  to_address = λ text. ok text;
  program_derived_address = λ program seeds. ok "key";
  account_info = λ n key. ok (some "data");
}

abbrev types : Types
types = record {
  Signer = String;
  Signal = Unit {0};
  Commitment = String;
  Account = String;
  Value = ℕ;
  Breakdown = String;
  Token = String;
  Callback = String;
  Stop = String;
}

-- a connection with one method of another plugin, which answers with the destination
abbrev connection : Connection types (Direct types.Stop)
connection = record {
  get_lamport_balance = λ address commitment. pure 5;
  get_token_accounts = λ address include_zero. pure (address ∷ []);
  transfer_tokens = none;
  transfer_sol = some (λ params. pure params.destination);
  get_portfolio_value = none;
  get_portfolio_breakdown = none;
  get_top_holdings = none;
  watch_portfolio_value = some (λ address rest. direct (pure address));
}

-- the name is resolved before the connection is called
enhanced_test :
    (enhanced network connection.get_token_accounts "alice.sol" none (new_client 0)).0
    ≡ ok ("owner" ∷ [])
unfolding enhanced get_address_for_ans_name get_domain_account_key split get
enhanced_test = refl

abbrev resolved : State
resolved = record {
  clock = 2;
  forward_cache = ("alice.sol", record { address = "owner"; expires_at = 3601000 }) ∷ [];
  reverse_cache = [];
}

ans-IsResolvedAt_example :
    IsResolvedAt "alice.sol"
      (new_client 0)
      (ok "owner")
      resolved
      connection
      (ans network connection)
unfolding split get set get_address_for_ans_name get_domain_account_key
ans-IsResolvedAt_example =
    ans-IsResolvedAt network "alice.sol" (new_client 0) (ok "owner") resolved connection (inr refl)
