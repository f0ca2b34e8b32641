-- ===== src/Switchboard/Client/Values.antt =====
-- kit-plugin-switchboard/src/lib/switchboard-client.ts: what `getFeedValues` answers.
use solana_kit_plugins.Prelude.{
  ℕ, ◌+◌, String, List, [], ◌∷◌, Option, none, some, if◌then◌else◌, ◌===◌, ◌≡◌, refl, ap, ◌∙◌,
  Bool-cases, inl, inr,
}
use solana_kit_plugins.Prelude.Number.{Number}
use solana_kit_plugins.Prelude.Map.{Map, get, get-set, get-empty}
use solana_kit_plugins.Prelude.Result.{Result, ok, throw}
use solana_kit_plugins.Prelude.Effect.{recover, pure, continue, lift}
use solana_kit_plugins.Switchboard.{Error, SwitchboardFeedValue}
use solana_kit_plugins.Switchboard.Client.{
  Env, decode, get_feed_value, get_all, add_value, add_values, get_feed_values,
}
use solana_kit_plugins.Prelude.{Bool-cases, inl, inr, refl, ap, ◌∙◌, []}
use solana_kit_plugins.Prelude.Map.{get-empty}
use solana_kit_plugins.Switchboard.Client.{get_feed_values}
use solana_kit_plugins.Prelude.Result.{ok}

module _ (num : Number) (env : Env) where
  open num use {Float}

  abbrev or_null :
      Result Error (Option (SwitchboardFeedValue Float)) → Option (SwitchboardFeedValue Float)
  or_null (ok value) = value
  or_null (throw e) = none

  abbrev decoded : String → Result Error (Option String) → Option (SwitchboardFeedValue Float)
  decoded feed_address (ok account) = or_null (decode num env feed_address account)
  decoded feed_address (throw e) = none

  -- the value of a feed in the answer to call `n`; `none` if there is no account, if it cannot be
  -- decoded, and if the call throws
  abbrev pub value_at : ℕ → String → Option (SwitchboardFeedValue Float)
  value_at n feed_address = decoded feed_address (env.account_info n feed_address)

  recovered :
      (r : Result Error (Option (SwitchboardFeedValue Float))) (n : ℕ)
      → recover r (λ error. pure none) n ≡ (ok (or_null r), n)
  recovered (ok value) n = refl
  recovered (throw e) n = refl

  caught :
      (feed_address : String) (r : Result Error (Option String)) (n : ℕ)
      → recover
          (continue r (λ account. lift (decode num env feed_address account)) n).0
          (λ error. pure none)
          (continue r (λ account. lift (decode num env feed_address account)) n).1
        ≡ (ok (decoded feed_address r), n)
  caught feed_address (ok account) n = recovered (decode num env feed_address account) n
  caught feed_address (throw e) n = refl

  get_feed_value_lem :
      (feed_address : String) (n : ℕ)
      → get_feed_value num env feed_address n ≡ (ok (value_at n feed_address), n + 1)
  unfolding get_feed_value
  get_feed_value_lem feed_address n = caught feed_address (env.account_info n feed_address) (n + 1)

  abbrev values : ℕ → List String → List (Option (SwitchboardFeedValue Float))
  values n [] = []
  values n (feed_address ∷ rest) = value_at n feed_address ∷ values (n + 1) rest

  -- the number of calls after one for each address
  abbrev pub calls_after : ℕ → List String → ℕ
  calls_after n [] = n
  calls_after n (feed_address ∷ rest) = calls_after (n + 1) rest

  get_all_lem :
      (feed_addresses : List String) (n : ℕ)
      → get_all num env feed_addresses n
        ≡ (ok (values n feed_addresses), calls_after n feed_addresses)
  unfolding get_all
  get_all_lem [] n = refl
  get_all_lem (feed_address ∷ rest) n =
      rw (get_feed_value_lem feed_address n, get_all_lem rest (n + 1)) refl

  abbrev newer :
      Option (SwitchboardFeedValue Float)
      → Option (SwitchboardFeedValue Float)
      → Option (SwitchboardFeedValue Float)
  newer none before = before
  newer (some value) before = some value

  -- the value of the last call for the address that gave one, or else `before`
  abbrev pub last_value :
      String
      → ℕ
      → List String
      → Option (SwitchboardFeedValue Float)
      → Option (SwitchboardFeedValue Float)
  last_value key n [] before = before
  last_value key n (feed_address ∷ rest) before =
      last_value key (n + 1) rest
        (if feed_address === key then newer (value_at n feed_address) before else before)

  get-add_value :
      (key feed_address : String) (value : Option (SwitchboardFeedValue Float))
      (results : Map (SwitchboardFeedValue Float))
      → get (add_value num env feed_address value results) key
        ≡ (if feed_address === key then newer value (get results key) else get results key)
  get-add_value key feed_address none results = elim (Bool-cases (feed_address === key)) [
    | inl e ↦ rw e refl
    | inr e ↦ rw e refl
  ]
  get-add_value key feed_address (some value) results = get-set results feed_address key value

  get-add_values :
      (key : String) (feed_addresses : List String) (n : ℕ)
      (results : Map (SwitchboardFeedValue Float))
      → get (add_values num env feed_addresses (values n feed_addresses) results) key
        ≡ last_value key n feed_addresses (get results key)
  unfolding add_values
  get-add_values key [] n results = refl
  get-add_values key (feed_address ∷ rest) n results =
      get-add_values key rest (n + 1)
        (add_value num env feed_address (value_at n feed_address) results)
      ∙ ap (last_value key (n + 1) rest)
          (get-add_value key feed_address (value_at n feed_address) results)

  -- getFeedValues does not throw, and makes one call to the network for each address. Its map has, for
  -- every key, the value that the last call for that address brought that brought one; addresses for
  -- which no call brought a value, and texts that were not asked for, are not in it.
  pub get_feed_values_lem :
      (feed_addresses : List String) (n : ℕ)
      → (results : Map (SwitchboardFeedValue Float)) × (get_feed_values num env feed_addresses n
          ≡ (ok results, calls_after n feed_addresses))
        × ((key : String) → get results key ≡ last_value key n feed_addresses none)
  unfolding get_feed_values
  get_feed_values_lem feed_addresses n = (
    add_values num env feed_addresses (values n feed_addresses) [],
    rw (get_all_lem feed_addresses n) refl,
    λ key.
        get-add_values key feed_addresses n []
        ∙ ap (last_value key n feed_addresses) (get-empty key),
  )
