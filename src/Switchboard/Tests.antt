-- ===== src/Switchboard/Tests.antt =====
-- Concrete runs of the Switchboard plugin.
use solana_kit_plugins.Prelude.{
  ℕ, ◌+◌, ◌-◌, ◌*◌, ◌/◌, ◌^◌, String, [], ◌∷◌, none, some, ltb, ◌≡◌, replicate, ◌===◌,
  if◌then◌else◌,
}
use solana_kit_plugins.Prelude.Int.{pos, negsuc, pos_part}
use solana_kit_plugins.Prelude.Number.{Number}
use solana_kit_plugins.Prelude.Map.{Map, get}
use solana_kit_plugins.Prelude.Result.{ok, throw}
use solana_kit_plugins.Switchboard.{SwitchboardFeedValue, failure}
use solana_kit_plugins.Switchboard.Feed.Layout.{PullFeedAccount, account_bytes}
use solana_kit_plugins.Switchboard.Client.{Env, get_feed_values}
use solana_kit_plugins.Switchboard.Client.Values.{get_feed_values_lem, last_value}

-- whole numbers
abbrev whole : Number
whole = record {
  Float = ℕ;
  of_int = pos_part;
  mul = λ a b. a * b;
  quot = λ a b. a / b;
  add = λ a b. a + b;
  sub = λ a b. a - b;
  pow10 = λ e. 10 ^ pos_part e;
  lt = ltb;
}

-- a feed with a negative smallest value
abbrev feed : PullFeedAccount
feed = record {
  before = replicate 2208 3;
  last_update_timestamp = pos 1700000000;
  reserved = replicate 40 0;
  value = pos 150_000_000_000_000_000_000;
  std_dev = pos 12;
  mean = pos 149_000_000_000_000_000_000;
  range = replicate 16 0;
  min_value = negsuc 4;
  max_value = pos 151_000_000_000_000_000_000;
  num_samples = 3;
  padding = replicate 7 0;
  slot = 230000000;
  rest = replicate 16 0;
}

-- one feed, and no answer for any other address
abbrev network : Env
network = record {
  from_base64 = λ text. account_bytes feed;
  account_info =
      λ n address. if address === "feed" then ok (some "base64") else throw (failure "offline");
}

get_feed_values_lem_example :
    (results : Map (SwitchboardFeedValue ℕ)) × (get_feed_values whole network
        ("feed" ∷ "other" ∷ [])
        0
      ≡ (ok results, 2))
    × ((key : String)
        → get results key ≡ last_value whole network key 0 ("feed" ∷ "other" ∷ []) none)
get_feed_values_lem_example = get_feed_values_lem whole network ("feed" ∷ "other" ∷ []) 0
