-- ===== src/Pyth/Client.antt =====
-- kit-plugin-pyth/src/lib/pyth-client.ts: `PythClient` and the helpers of its requests. `fetch`, the
-- network, the clock, new key pairs and the derivation of addresses are parameters.
pub mod Post
pub mod Feeds
pub mod Ids
pub mod Stale
mod Tests
use Prim.Native.String
use Prim.Native.Char.{code}
use solana_kit_plugins.Prelude.{
  ℕ, ◌+◌, String, [], ◌∷◌, List, Option, none, some, Bool, true, ◌&&◌, ◌==◌, ◌++◌, if◌then◌else◌,
  map, take, drop,
}
use solana_kit_plugins.Prelude.Int.{ℤ, pos}
use solana_kit_plugins.Prelude.Number.{Number}
use solana_kit_plugins.Prelude.Map.{Map, get, set}
use solana_kit_plugins.Prelude.Result.{Result, ok, throw}
use solana_kit_plugins.Prelude.Effect.{Exec, ◌>>=◌, pure, lift, require, raise, together}
use solana_kit_plugins.Bytes.{Bytes, be_bytes}
use solana_kit_plugins.Connection.{Net, Seed, text, bytes, ask, send}
use solana_kit_plugins.Pyth.{
  Error, hermes_api_error, no_binary_data, feed_not_found, price_not_found, PythPrice,
  PythPriceFeed, PythFeedInfo, PythOnchainPriceData, AccumulatorUpdate, MerkleUpdate,
  pyth_receiver_program_id, wormhole_program_id, default_treasury_id,
}
use solana_kit_plugins.Pyth.Price.{parse_pyth_price_account_data}
use solana_kit_plugins.Pyth.Accumulator.{parse_accumulator_update, get_uint_be}
use solana_kit_plugins.Pyth.Borsh.{build_post_update_atomic_data}

pub record HermesPriceData (Float : Type 0) : Type 0 where
  pub price : String
  pub conf : String
  pub expo : ℤ
  pub publish_time : Float

pub record HermesParsedFeed (Float : Type 0) : Type 0 where
  pub id : String
  pub price : HermesPriceData Float
  pub ema_price : HermesPriceData Float

-- `binary` has the texts of `data.binary?.data`
pub record HermesResponse (Float : Type 0) : Type 0 where
  pub binary : List String
  pub parsed : List (HermesParsedFeed Float)

pub record Response (Json : Type 0) : Type 0 where
  pub is_ok : Bool
  pub status : ℕ
  pub json : Result Error Json

pub data AccountRole : Type 0 where
  readonly writable readonly_signer writable_signer : AccountRole

pub record Instruction : Type 0 where
  pub program_address : String
  pub accounts : List (String × AccountRole)
  pub instruction_data : Bytes

-- Each call out of the client, a reading of the clock and a new key pair included, gets the number
-- of the calls before it. `query` writes the parameters of a URL; `account_info` gives the base64
-- text of an account.
pub record Env (Float Attributes : Type 0) : Type 0 where
  pub hermes_url : String
  -- Number(text)
  pub number_of : String → Float
  pub query : List (String × String) → String
  pub from_base64 : String → Bytes
  pub pda : String → List Seed → Result Error String
  -- Date.now()
  pub now : ℕ → ℕ
  pub key_pair : ℕ → String
  pub fetch_latest : ℕ → String → Result Error (Response (HermesResponse Float))
  pub fetch_price_feeds : ℕ → String → Result Error (Response (List (PythFeedInfo Attributes)))
  pub account_info : ℕ → String → Result Error (Option String)
  pub submit : ℕ → List Instruction → Result Error String

abbrev pub Run : Type 0 → Type 0
Run A = Exec (Net Instruction) Error A

-- feedId.startsWith("0x") ? feedId.slice(2) : feedId
unfoldable pub normalize_feed_id : String → String
normalize_feed_id String.[] = String.[]
normalize_feed_id (String.◌∷◌ c String.[]) = String.◌∷◌ c String.[]
normalize_feed_id (String.◌∷◌ c (String.◌∷◌ d rest)) =
    if (code c == 48) && (code d == 120) then rest else String.◌∷◌ c (String.◌∷◌ d rest)

abbrev pub to_result : {Json : Type 0} → Response Json → Result Error Json
to_result response =
    if response.is_ok then response.json else throw (hermes_api_error response.status)

-- `data.binary?.data?.[0]`
abbrev pub first : List String → Option String
first [] = none
first (encoded ∷ rest) = some encoded

abbrev pub map_option : {A B : Type 0} → (A → B) → Option A → Option B
map_option f none = none
map_option f (some a) = some (f a)

-- the parameters of a request for the latest prices
abbrev pub latest_query : List String → List (String × String)
latest_query feed_ids =
    map (λ feed_id. ("ids[]", String.◌++◌ "0x" feed_id)) feed_ids
    ++ (("parsed", "true") ∷ ("encoding", "base64") ∷ [])

abbrev pub search_query : String → Option String → List (String × String)
search_query query none = ("query", query) ∷ []
search_query query (some asset_type) = ("query", query) ∷ ("asset_type", asset_type) ∷ []

module _ (num : Number) {Attributes : Type 0} (env : Env num.Float Attributes) where
  open num use {Float}

  abbrev pub parse_hermes_price : HermesPriceData Float → PythPrice Float
  parse_hermes_price found =
      let multiplier = num.pow10 found.expo in
      record {
        price = num.mul (env.number_of found.price) multiplier;
        confidence = num.mul (env.number_of found.conf) multiplier;
        exponent = found.expo;
        publish_time = found.publish_time;
      }

  abbrev pub to_feed : HermesParsedFeed Float → PythPriceFeed Float
  to_feed feed = record {
    id = normalize_feed_id feed.id;
    price = parse_hermes_price feed.price;
    ema_price = parse_hermes_price feed.ema_price;
  }

  -- the loop over `data.parsed`
  unfoldable pub add_feeds :
      List (HermesParsedFeed Float) → Map (PythPriceFeed Float) → Map (PythPriceFeed Float)
  add_feeds [] feeds = feeds
  add_feeds (feed ∷ parsed) feeds =
      add_feeds parsed (set feeds (normalize_feed_id feed.id) (to_feed feed))

  abbrev pub latest_url : List String → String
  latest_url feed_ids =
      String.◌++◌ env.hermes_url
        (String.◌++◌ "/v2/updates/price/latest?" (env.query (latest_query feed_ids)))

  unfoldable pub fetch_hermes_latest : List String → Run (Map (PythPriceFeed Float) × Option Bytes)
  fetch_hermes_latest feed_ids = do
    response ← ask (λ n. env.fetch_latest n (latest_url feed_ids))
    found ← lift (to_result response)
    pure (add_feeds found.parsed [], map_option env.from_base64 (first found.binary))

  unfoldable pub get_pyth_price_feed : String → Run (Option (PythPriceFeed Float))
  get_pyth_price_feed feed_id = do
    found ← fetch_hermes_latest (normalize_feed_id feed_id ∷ [])
    pure (get found.0 (normalize_feed_id feed_id))

  unfoldable pub get_pyth_price_feeds : List String → Run (Map (PythPriceFeed Float))
  get_pyth_price_feeds feed_ids = do
    found ← fetch_hermes_latest (map normalize_feed_id feed_ids)
    pure found.0

  abbrev pub decode_account : Option String → Result Error (Option (PythOnchainPriceData Float))
  decode_account none = ok none
  decode_account (some encoded) = parse_pyth_price_account_data num (env.from_base64 encoded)

  unfoldable pub get_pyth_onchain_price : String → Run (Option (PythOnchainPriceData Float))
  get_pyth_onchain_price address = do
    account ← ask (λ n. env.account_info n address)
    lift (decode_account account)

  abbrev pub too_old : Float → ℕ → PythPriceFeed Float → Bool
  too_old max_age now feed =
      num.lt max_age
        (num.sub (num.quot (num.of_int (pos now)) (num.of_int (pos 1000))) feed.price.publish_time)

  abbrev pub stale : Float → Option (PythPriceFeed Float) → Run Bool
  stale max_age none = pure true
  stale max_age (some feed) = do now ← ask (λ n. ok (env.now n)); pure (too_old max_age now feed)

  unfoldable pub is_pyth_price_stale : String → Float → Run Bool
  is_pyth_price_stale feed_id max_age = do feed ← get_pyth_price_feed feed_id; stale max_age feed

  unfoldable pub search_pyth_feeds : String → Option String → Run (List (PythFeedInfo Attributes))
  search_pyth_feeds query asset_type = do
    response ← ask (λ n. env.fetch_price_feeds n (
        String.◌++◌ env.hermes_url
          (String.◌++◌ "/v2/price_feeds?" (env.query (search_query query asset_type)))))
    found ← lift (to_result response)
    pure (
        map (λ (feed : PythFeedInfo Attributes). record feed { id = normalize_feed_id feed.id })
          found)
