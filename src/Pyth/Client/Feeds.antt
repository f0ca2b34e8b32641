-- ===== src/Pyth/Client/Feeds.antt =====
-- kit-plugin-pyth/src/lib/pyth-client.ts: `getPythPriceFeed`.
use solana_kit_plugins.Prelude.{
  ℕ, ◌+◌, String, [], ◌∷◌, List, Option, none, some, true, if◌then◌else◌, ◌===◌, ◌≡◌, refl, ap, ◌∙◌,
}
use solana_kit_plugins.Prelude.Number.{Number}
use solana_kit_plugins.Prelude.Map.{Map, get, set, get-set, get-empty}
use solana_kit_plugins.Prelude.Result.{Result, ok, throw}
use solana_kit_plugins.Connection.{Net}
use solana_kit_plugins.Pyth.{Error, PythPriceFeed, hermes_api_error}
use solana_kit_plugins.Pyth.Client.{
  Env, Instruction, HermesParsedFeed, HermesResponse, Response, normalize_feed_id, to_feed,
  add_feeds, latest_url, fetch_hermes_latest, get_pyth_price_feed, to_result,
}
use solana_kit_plugins.Prelude.Effect.{pure}
use solana_kit_plugins.Pyth.Client.{map_option, first}
use solana_kit_plugins.Prelude.Effect.{Exec, lift, ◌>>=◌}
use solana_kit_plugins.Prelude.{Bool-cases, inl, inr}
use solana_kit_plugins.Bytes.{Bytes}
use solana_kit_plugins.Prelude.{ap, refl, ◌∙◌}
use solana_kit_plugins.Prelude.Map.{get-empty}
use solana_kit_plugins.Prelude.{true}

module _ (num : Number) {Attributes : Type 0} (env : Env num.Float Attributes) where
  open num use {Float}

  -- the last of the parsed feeds whose normalized id is `feed_id`, or else `before`
  abbrev pub last_of :
      String
      → List (HermesParsedFeed Float)
      → Option (PythPriceFeed Float)
      → Option (PythPriceFeed Float)
  last_of feed_id [] before = before
  last_of feed_id (feed ∷ parsed) before =
      last_of feed_id parsed
        (if normalize_feed_id feed.id === feed_id then some (to_feed num env feed) else before)

  get-add_feeds :
      (feed_id : String) (parsed : List (HermesParsedFeed Float))
      (feeds : Map (PythPriceFeed Float))
      → get (add_feeds num env parsed feeds) feed_id ≡ last_of feed_id parsed (get feeds feed_id)
  unfolding add_feeds
  get-add_feeds feed_id [] feeds = refl
  get-add_feeds feed_id (feed ∷ parsed) feeds =
      rw
        (
          get-add_feeds feed_id parsed
              (set feeds (normalize_feed_id feed.id) (to_feed num env feed)),
          get-set,
        )
        refl

  -- the feed in an answer of Hermes, or the error
  abbrev pub feed_in :
      String
      → Result Error (Response (HermesResponse Float))
      → Result Error (Option (PythPriceFeed Float))
  feed_in feed_id (throw e) = throw e
  feed_in feed_id (ok response) =
      if response.is_ok
      then elim response.json [
        | ok found ↦ ok (last_of feed_id found.parsed none)
        | throw e ↦ throw e
      ]
      else throw (hermes_api_error response.status)

  -- what fetchHermesLatest makes of an answer
  abbrev latest :
      Result Error (Response (HermesResponse Float))
      → Exec (Net Instruction) Error (Map (PythPriceFeed Float) × Option Bytes)
  latest r = lift r >>= λ response. lift (to_result response) >>= λ found.
      pure (add_feeds num env found.parsed [], map_option env.from_base64 (first found.binary))

  abbrev pick :
      String
      → Map (PythPriceFeed Float) × Option Bytes
      → Exec (Net Instruction) Error (Option (PythPriceFeed Float))
  pick feed_id found = pure (get found.0 feed_id)

  picked-json :
      (feed_id : String) (status : ℕ) (json : Result Error (HermesResponse Float))
      (s : Net Instruction)
      → (latest (ok (record { is_ok = true; status = status; json = json })) >>= pick feed_id) s
        ≡ (feed_in feed_id (ok (record { is_ok = true; status = status; json = json })), s)
  picked-json feed_id status (ok found) s =
      ap (λ feed. (ok feed, s))
        (get-add_feeds feed_id found.parsed []
          ∙ ap (last_of feed_id found.parsed) (get-empty feed_id))
  picked-json feed_id status (throw e) s = refl

  picked :
      (feed_id : String) (r : Result Error (Response (HermesResponse Float))) (s : Net Instruction)
      → (latest r >>= pick feed_id) s ≡ (feed_in feed_id r, s)
  picked feed_id (throw e) s = refl
  picked feed_id (ok response) s = elim (Bool-cases response.is_ok) [
    | inl e ↦ rw e (picked-json feed_id response.status response.json s)
    | inr e ↦ rw e refl
  ]

  pub get_pyth_price_feed_lem :
      (feed_id : String) (s : Net Instruction)
      → get_pyth_price_feed num env feed_id s ≡ (
        feed_in
            (normalize_feed_id feed_id)
            (env.fetch_latest s.clock (latest_url num env (normalize_feed_id feed_id ∷ []))),
        record s { clock = s.clock + 1 },
      )
  unfolding get_pyth_price_feed fetch_hermes_latest
  get_pyth_price_feed_lem feed_id s =
      picked (normalize_feed_id feed_id)
        (env.fetch_latest s.clock (latest_url num env (normalize_feed_id feed_id ∷ [])))
        (record s { clock = s.clock + 1 })
