-- ===== src/Switchboard/Client.antt =====
-- kit-plugin-switchboard/src/lib/switchboard-client.ts: `SwitchboardClient`. The network is a
-- parameter; a Map keyed by addresses is one keyed by texts.
pub mod Values
use solana_kit_plugins.Prelude.{ℕ, ◌+◌, String, List, [], ◌∷◌, Option, none, some}
use solana_kit_plugins.Prelude.Number.{Number}
use solana_kit_plugins.Prelude.Map.{Map, set}
use solana_kit_plugins.Prelude.Result.{Result, ok}
use solana_kit_plugins.Prelude.Effect.{Exec, ◌>>=◌, pure, lift, catch, together}
use solana_kit_plugins.Bytes.{Bytes}
use solana_kit_plugins.Switchboard.{Error, SwitchboardFeedValue}
use solana_kit_plugins.Switchboard.Feed.{parse_switchboard_feed_account_data}

-- Each call to the network gets the number of the calls before it; the answer is the base64 text
-- of an account.
pub record Env : Type 0 where
  pub from_base64 : String → Bytes
  pub account_info : ℕ → String → Result Error (Option String)

abbrev pub Run : Type 0 → Type 0
Run A = Exec ℕ Error A

module _ (num : Number) (env : Env) where
  open num use {Float}

  abbrev pub decode : String → Option String → Result Error (Option (SwitchboardFeedValue Float))
  decode feed_address none = ok none
  decode feed_address (some encoded) =
      parse_switchboard_feed_account_data num (env.from_base64 encoded) feed_address

  abbrev pub account_info : String → Run (Option String)
  account_info feed_address n = (env.account_info n feed_address, n + 1)

  unfoldable pub get_feed_value : String → Run (Option (SwitchboardFeedValue Float))
  get_feed_value feed_address =
      catch (do account ← account_info feed_address; lift (decode feed_address account))
        (λ error. pure none)

  abbrev pub cons :
      Option (SwitchboardFeedValue Float)
      → List (Option (SwitchboardFeedValue Float))
      → List (Option (SwitchboardFeedValue Float))
  cons value values = value ∷ values

  -- what Promise.all waits for, in the order in which it is started
  unfoldable pub get_all : List String → Run (List (Option (SwitchboardFeedValue Float)))
  get_all [] = pure []
  get_all (feed_address ∷ feed_addresses) =
      together cons (get_feed_value feed_address) (get_all feed_addresses)

  abbrev pub add_value :
      String
      → Option (SwitchboardFeedValue Float)
      → Map (SwitchboardFeedValue Float)
      → Map (SwitchboardFeedValue Float)
  add_value feed_address none results = results
  add_value feed_address (some value) results = set results feed_address value

  -- the loop over the values
  unfoldable pub add_values :
      List String
      → List (Option (SwitchboardFeedValue Float))
      → Map (SwitchboardFeedValue Float)
      → Map (SwitchboardFeedValue Float)
  add_values [] values results = results
  add_values (feed_address ∷ feed_addresses) [] results = results
  add_values (feed_address ∷ feed_addresses) (value ∷ values) results =
      add_values feed_addresses values (add_value feed_address value results)

  unfoldable pub get_feed_values : List String → Run (Map (SwitchboardFeedValue Float))
  get_feed_values feed_addresses = do
    values ← get_all feed_addresses
    pure (add_values feed_addresses values [])
