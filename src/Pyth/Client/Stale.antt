-- ===== src/Pyth/Client/Stale.antt =====
-- kit-plugin-pyth/src/lib/pyth-client.ts: `isPythPriceStale`.
use Prim.Native.String
use solana_kit_plugins.Prelude.{
  ℕ, ◌+◌, String, [], ◌∷◌, List, Option, none, some, true, false, Bool, if◌then◌else◌, ◌≡◌, refl,
  ap, ◌∙◌, ◌⊎◌, inl, inr, Bool-cases,
}
use solana_kit_plugins.Prelude.Int.{pos}
use solana_kit_plugins.Prelude.Number.{Number}
use solana_kit_plugins.Prelude.Result.{Result, ok, throw}
use solana_kit_plugins.Connection.{Net}
use solana_kit_plugins.Pyth.{Error, hermes_api_error}
use solana_kit_plugins.Pyth.Client.{
  Env, Instruction, HermesParsedFeed, HermesResponse, Response, normalize_feed_id, to_feed,
  is_pyth_price_stale, stale, map_option,
}
use solana_kit_plugins.Pyth.Client.Feeds.{last_of, feed_in, get_pyth_price_feed_lem}
use solana_kit_plugins.Prelude.Effect.{continue}
use solana_kit_plugins.Pyth.Client.Ids.{
  IsBare, names, normalize_feed_id-0x, normalize_feed_id-bare, normalize_feed_id-names,
}

module _ (num : Number) {Attributes : Type 0} (env : Env num.Float Attributes) (bare : String)
    (max_age : num.Float) where
  open num use {Float}

  -- the last of the parsed feeds with that id, however it is written, or else `before`
  abbrev pub last_feed :
      List (HermesParsedFeed Float)
      → Option (HermesParsedFeed Float)
      → Option (HermesParsedFeed Float)
  last_feed [] before = before
  last_feed (feed ∷ parsed) before =
      last_feed parsed (if names bare feed.id then some feed else before)

  -- without the feed true; with it, whether `Date.now() / 1000 - publishTime > maxAgeSeconds`
  abbrev pub verdict :
      Option (HermesParsedFeed Float) → Net Instruction → Result Error Bool × Net Instruction
  verdict none s = (ok true, s)
  verdict (some feed) s = (
    ok (
        num.lt max_age (
          num.sub (num.quot (num.of_int (pos (env.now s.clock))) (num.of_int (pos 1000)))
            feed.price.publish_time)),
    record s { clock = s.clock + 1 },
  )

  abbrev pub judged :
      Result Error (Response (HermesResponse Float))
      → Net Instruction
      → Result Error Bool × Net Instruction
  judged (throw e) s = (throw e, s)
  judged (ok response) s =
      if response.is_ok
      then elim response.json [
        | ok found ↦ verdict (last_feed found.parsed none) s
        | throw e ↦ (throw e, s)
      ]
      else (throw (hermes_api_error response.status), s)

  -- where the feed's latest price is asked for
  abbrev pub url : String
  url = String.◌++◌ env.hermes_url (
      String.◌++◌ "/v2/updates/price/latest?" (
        env.query
          (("ids[]", String.◌++◌ "0x" bare) ∷ ("parsed", "true") ∷ ("encoding", "base64") ∷ [])))

  if_map :
      (test : Bool) (feed : HermesParsedFeed Float) (before : Option (HermesParsedFeed Float))
      → (if test then some (to_feed num env feed) else map_option (to_feed num env) before)
        ≡ map_option (to_feed num env) (if test then some feed else before)
  if_map true feed before = refl
  if_map false feed before = refl

  last_of-last_feed :
      (parsed : List (HermesParsedFeed Float)) (before : Option (HermesParsedFeed Float))
      → IsBare bare
      → last_of num env bare parsed (map_option (to_feed num env) before)
        ≡ map_option (to_feed num env) (last_feed parsed before)
  last_of-last_feed [] before h = refl
  last_of-last_feed (feed ∷ parsed) before h =
      rw (normalize_feed_id-names bare feed.id h, if_map (names bare feed.id) feed before)
        (last_of-last_feed parsed (if names bare feed.id then some feed else before) h)

  stale-verdict :
      (found : Option (HermesParsedFeed Float)) (s : Net Instruction)
      → stale num env max_age (map_option (to_feed num env) found) s ≡ verdict found s
  stale-verdict none s = refl
  stale-verdict (some feed) s = refl

  judged_json :
      (status : ℕ) (json : Result Error (HermesResponse Float)) (s : Net Instruction)
      → IsBare bare
      → continue
          (feed_in num env bare (ok (record { is_ok = true; status = status; json = json })))
          (stale num env max_age)
          s
        ≡ judged (ok (record { is_ok = true; status = status; json = json })) s
  judged_json status (ok found) s h =
      ap (λ feed. stale num env max_age feed s) (last_of-last_feed found.parsed none h)
      ∙ stale-verdict (last_feed found.parsed none) s
  judged_json status (throw e) s h = refl

  judged_lem :
      (r : Result Error (Response (HermesResponse Float))) (s : Net Instruction)
      → IsBare bare
      → continue (feed_in num env bare r) (stale num env max_age) s ≡ judged r s
  judged_lem (throw e) s h = refl
  judged_lem (ok response) s h = elim (Bool-cases response.is_ok) [
    | inl e ↦ rw e (judged_json response.status response.json s h)
    | inr e ↦ rw e refl
  ]

  normalized :
      (feed_id : String)
      → IsBare bare
      → (feed_id ≡ bare) ⊎ (feed_id ≡ String.◌++◌ "0x" bare)
      → normalize_feed_id feed_id ≡ bare
  normalized feed_id h (inl e) = ap normalize_feed_id e ∙ normalize_feed_id-bare bare h
  normalized feed_id h (inr e) = ap normalize_feed_id e ∙ normalize_feed_id-0x bare

  -- For an id that is written with a leading "0x" or without it, isPythPriceStale makes one request,
  -- for the id with the "0x". It throws what the request throws, or an error with the status of a
  -- response that is not ok, or what the body throws. It answers true if no feed of the body has
  -- that id, written in either way; and otherwise whether the clock, as it is read then, in seconds,
  -- less the publish time of the last such feed is more than the limit.
  pub is_pyth_price_stale_lem :
      (feed_id : String) (s : Net Instruction)
      → IsBare bare
      → (feed_id ≡ bare) ⊎ (feed_id ≡ String.◌++◌ "0x" bare)
      → is_pyth_price_stale num env feed_id max_age s
        ≡ judged (env.fetch_latest s.clock url) (record s { clock = s.clock + 1 })
  unfolding is_pyth_price_stale
  is_pyth_price_stale_lem feed_id s h written =
      rw (get_pyth_price_feed_lem num env feed_id s, normalized feed_id h written)
        (judged_lem (env.fetch_latest s.clock url) (record s { clock = s.clock + 1 }) h)
