-- ===== src/Ans/Tests.antt =====
-- Concrete runs of the ANS client.
use solana_kit_plugins.Prelude.{
  ℕ, ◌*◌, String, List, [], ◌∷◌, ◌≡◌, refl, arith, some, ltb, replicate, length, if◌then◌else◌,
}
use solana_kit_plugins.Prelude.Map.{get, set}
use solana_kit_plugins.Prelude.Result.{Result, ok, throw}
use solana_kit_plugins.Bytes.{Bytes}
use solana_kit_plugins.Ans.{split}
use solana_kit_plugins.Ans.Client.{
  Env, State, new_client, tick, get_address_for_ans_name, get_ans_names_for_address,
  failed_to_resolve, failure, get_domain_account_key, Error,
}
use solana_kit_plugins.Ans.Client.Forward.{get_address_for_ans_name-again}
use solana_kit_plugins.Ans.Client.Resolve.{get_address_for_ans_name-throw}
use solana_kit_plugins.Ans.Client.Reverse.{
  Call, resolve_call, names_call, clear_call, after_calls, get_ans_names_for_address-nil,
}

-- the derivation as it is documented: at most 32 bytes in a seed
abbrev within_limit : List Bytes → Result Error String
within_limit [] = ok "key"
within_limit (seed ∷ seeds) =
    let rest = within_limit seeds in
    if ltb 32 (length seed) then throw (failure "max seed length exceeded") else rest

-- a network whose addresses have texts of `size` bytes; the clock goes on by 1000 at each call
abbrev network : ℕ → Env
network size = record {
  cache_time = 3600000;
  connect = ok tt;
  now = λ n. 1000 * n;
  sha256 = λ text. replicate 32 1;
  utf8 = λ text. replicate size 2;
  from_base64 = λ text. replicate 200 3;
  to_base58 = λ bytes. "owner";
  to_address = λ text. ok text;
  program_derived_address = λ program seeds. within_limit seeds;
  account_info = λ n key. ok (some "data");
}

resolved : (get_address_for_ans_name (network 32) "alice.sol" (new_client 0)).0 ≡ ok "owner"
unfolding get_address_for_ans_name split get get_domain_account_key set
resolved = refl

abbrev later : State
later = record (get_address_for_ans_name (network 32) "alice.sol" (new_client 0)).1 { clock = 3000 }

get_address_for_ans_name-again_example :
    get_address_for_ans_name (network 32) "alice.sol" later ≡ (ok "owner", tick later)
unfolding split get
get_address_for_ans_name-again_example =
    get_address_for_ans_name-again (network 32) "alice.sol" (new_client 0) later "owner" refl refl
      resolved refl refl (omega arith)

get_address_for_ans_name-throw_example :
    get_address_for_ans_name (network 44) "alice.sol" (new_client 0)
    ≡ (throw (failed_to_resolve "alice.sol" (failure "max seed length exceeded")), new_client 0)
unfolding split get
get_address_for_ans_name-throw_example =
    get_address_for_ans_name-throw (network 44) (failure "max seed length exceeded") "key"
      "alice.sol" (new_client 0) (λ program a b c long. ground (arith, long)) refl refl
      (omega arith) refl refl

abbrev calls : List Call
calls = resolve_call "alice.sol" ∷ names_call "owner" ∷ clear_call ∷ resolve_call "alice.sol" ∷ []

get_ans_names_for_address-nil_example :
    (get_ans_names_for_address
      (network 32)
      "owner"
      (after_calls (network 32) calls (new_client 0))).0
    ≡ ok []
get_ans_names_for_address-nil_example = get_ans_names_for_address-nil (network 32) calls 0 "owner"
