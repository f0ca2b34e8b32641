-- ===== src/Jupiter/Client/Again.antt =====
-- kit-plugin-jupiter-pricing/src/lib/jupiter.ts: a price that `getTokenPrice` has fetched, when it is
-- asked for again.
use solana_kit_plugins.Prelude.{
  ℕ, ◌+◌, ◌≤◌, String, [], Option, none, some, ◌≡◌, refl, Bool-cases, inl, inr, arith, ===_refl, ap,
  false,
}
use solana_kit_plugins.Prelude.Map.{Map, get, set, get-set}
use solana_kit_plugins.Prelude.Hoare.{Ensures, Ensures-bind, Never}
use solana_kit_plugins.Jupiter.{TokenPriceInfo, JupiterPriceData}
use solana_kit_plugins.Jupiter.Client.{
  Env, State, PriceCacheEntry, add_price, price_info, get_token_symbol, add_prices, Response,
  fetch_missing, get_token_price, Result, read_prices, get_token_prices, ok, Error, look_up, ltb,
}
use solana_kit_plugins.Jupiter.Client.Valid.{IsSame, get_token_symbol-IsSame}
use solana_kit_plugins.Prelude.{ap, ◌∷◌, ◌+◌, ◌≤◌, arith, []}
use mathlib.Core.Path.{subst}
use solana_kit_plugins.Prelude.Effect.{◌>>=◌, pure, lift}
use solana_kit_plugins.Prelude.Hoare.{Ensures-weaken, Ensures-catch, Ensures-result}
use solana_kit_plugins.Jupiter.Client.{
  request_prices, read_prices, date_now, fetch_missing, get_token_prices, get_token_price, Response,
  add_prices, look_up, Error,
}
use solana_kit_plugins.Prelude.Result.{throw}

module _ {Float : Type 0} (env : Env Float) (mint : String) (from : ℕ) where
  -- The cache holds the answer, until the time `from` and the cache time at the least.
  abbrev IsKept : Option (TokenPriceInfo Float) → Option (PriceCacheEntry Float) → Type 0
  IsKept none none = Unit
  IsKept none (some cached) = ⊥
  IsKept (some price) none = ⊥
  IsKept (some price) (some cached) =
      (cached.price ≡ price) × (from + env.cache_time_ms ≤ cached.expires_at)

  -- not in the cache, and from now on the clock is not before `from`
  abbrev IsFresh : State Float → Type 0
  IsFresh s = (get s.price_cache mint ≡ none) × ((n : ℕ) → s.clock ≤ n → from ≤ env.now n)

  abbrev KeepsAll : Map (TokenPriceInfo Float) → State Float → Type 0
  KeepsAll prices t = IsKept (get prices mint) (get t.price_cache mint)

  later_IsFresh : (s t : State Float) → IsSame env s t → IsFresh s → IsFresh t
  later_IsFresh s t same fresh = (rw same.0 fresh.0, λ n h. fresh.1 n (omega (arith, h, same.1)))

  nothing_kept : (s : State Float) → IsFresh s → KeepsAll [] s
  unfolding get
  nothing_kept s fresh = rw fresh.0 tt

  price-IsKept :
      (price : TokenPriceInfo Float) (expires_at : ℕ) (t : State Float)
      → from + env.cache_time_ms ≤ expires_at
      → IsKept
          (get (set [] mint price) mint)
          (get (set t.price_cache mint (record { price = price; expires_at = expires_at })) mint)
  price-IsKept price expires_at t h = rw (get-set, get-set, ===_refl mint) (refl, h)

  add_price-KeepsAll :
      (fetched_at : ℕ) (found : Option (JupiterPriceData Float)) (s : State Float)
      → IsFresh s
      → Ensures KeepsAll Never (add_price env fetched_at mint found [] s)
  add_price-KeepsAll fetched_at none s fresh = nothing_kept s fresh
  add_price-KeepsAll fetched_at (some price_data) s fresh =
      elim (Bool-cases (env.truthy price_data.usd_price)) [
        | inl e ↦ rw e (
            Ensures-bind (λ symbol t. IsSame env s t) KeepsAll Never (get_token_symbol env mint) _ s
              (get_token_symbol-IsSame env mint s)
              (λ symbol t same.
                price-IsKept (price_info env mint symbol price_data.usd_price fetched_at)
                  (env.now t.clock + env.cache_time_ms) t
                  (omega (arith, (later_IsFresh s t same fresh).1 t.clock (omega arith)))))
        | inr e ↦ rw e (nothing_kept s fresh)
      ]

  add_prices-KeepsAll :
      (response : Map (JupiterPriceData Float)) (fetched_at : ℕ) (s : State Float)
      → IsFresh s
      → Ensures KeepsAll Never (add_prices env response fetched_at (mint ∷ []) [] s)
  unfolding add_prices
  add_prices-KeepsAll response fetched_at s fresh =
      Ensures-bind KeepsAll KeepsAll Never (add_price env fetched_at mint (get response mint) [])
        (λ added. pure added) s (add_price-KeepsAll fetched_at (get response mint) s fresh)
        (λ added t kept. kept)

  read_prices-KeepsAll :
      (response : Response (Map (JupiterPriceData Float))) (s : State Float)
      → IsFresh s
      → Ensures KeepsAll (λ e t. IsFresh t) (read_prices env (mint ∷ []) [] response s)
  read_prices-KeepsAll response s fresh = elim (Bool-cases response.is_ok) [
    | inl e ↦ rw e (
        Ensures-bind (λ json t. IsFresh t) KeepsAll (λ e' t. IsFresh t) (lift response.json)
          (λ json. date_now env >>= λ fetched_at. add_prices env json fetched_at (mint ∷ []) []) s
          (Ensures-result IsFresh response.json s fresh)
          (λ json t waits.
            Ensures-weaken KeepsAll KeepsAll Never (λ e' u. IsFresh u)
              (add_prices env json (env.now t.clock) (mint ∷ []) [] (date_now env t).1)
              (add_prices-KeepsAll json (env.now t.clock) (date_now env t).1
                (waits.0, λ n h. waits.1 n (omega (arith, h))))
              (λ added u h. h) (λ e' u h. absurd h)))
    | inr e ↦ rw e (nothing_kept s fresh)
  ]

  fetch_missing-KeepsAll :
      (s : State Float) → IsFresh s → Ensures KeepsAll Never (fetch_missing env [] (mint ∷ []) s)
  fetch_missing-KeepsAll s fresh =
      Ensures-catch KeepsAll (λ e t. IsFresh t) Never
        (request_prices env (mint ∷ []) >>= read_prices env (mint ∷ []) []) (λ error. pure []) s
        (Ensures-bind (λ response t. IsFresh t) KeepsAll (λ e t. IsFresh t)
          (request_prices env (mint ∷ [])) (read_prices env (mint ∷ []) []) s
          (Ensures-result IsFresh (request_prices env (mint ∷ []) s).0
            (request_prices env (mint ∷ []) s).1 (fresh.0, λ n h. fresh.1 n (omega (arith, h))))
          (λ response t waits. read_prices-KeepsAll response t waits))
        (λ e t waits. nothing_kept t waits)

  get_token_price-IsKept :
      (s : State Float)
      → IsFresh s
      → Ensures
          (λ price t. IsKept price (get t.price_cache mint))
          Never
          (get_token_price env mint s)
  unfolding get_token_price get_token_prices look_up
  get_token_price-IsKept s fresh =
      rw (fresh.0, fresh.0)
        (Ensures-bind KeepsAll (λ price t. IsKept price (get t.price_cache mint)) Never
          (fetch_missing env [] (mint ∷ [])) (λ prices. pure (get prices mint)) s
          (fetch_missing-KeepsAll s fresh) (λ prices t kept. kept))

module _ {Float : Type 0} (env : Env Float) (mint : String) where
  get_token_price-cached :
      (s : State Float) (cached : PriceCacheEntry Float)
      → get s.price_cache mint ≡ some cached
      → env.now s.clock ≤ cached.expires_at
      → get_token_price env mint s ≡ (ok (some cached.price), record s { clock = s.clock + 1 })
  unfolding get_token_price
  get_token_price-cached s cached found in_time =
      let late : ltb cached.expires_at (env.now s.clock) ≡ false = ground arith in
      rw (found, late) refl

  answer-again :
      (from : ℕ) (later : State Float) (price : TokenPriceInfo Float)
      (found : Option (PriceCacheEntry Float))
      → IsKept env mint from (some price) found
      → get later.price_cache mint ≡ found
      → env.now later.clock ≤ from + env.cache_time_ms
      → get_token_price env mint later ≡ (ok (some price), record later { clock = later.clock + 1 })
  answer-again from later price none kept same in_time = absurd kept
  answer-again from later price (some cached) kept same in_time =
      rw (get_token_price-cached later cached same (omega (arith, kept.1)), kept.0) refl

  IsKept-answer :
      (from : ℕ) (x : Result Error (Option (TokenPriceInfo Float)) × State Float)
      (price : TokenPriceInfo Float)
      → Ensures (λ answer t. IsKept env mint from answer (get t.price_cache mint)) Never x
      → x.0 ≡ ok (some price)
      → IsKept env mint from (some price) (get x.1.price_cache mint)
  IsKept-answer from (ok answer, t) price kept e =
      let same : answer ≡ some price = ground arith in
      subst (λ a. IsKept env mint from a (get t.price_cache mint)) same kept
  IsKept-answer from (throw e', t) price kept e = absurd kept

  -- A price that getTokenPrice fetches for a mint with no cached price is what it answers in every
  -- later state with the price cache as it was left, without a request, as long as the clock is not
  -- past its reading at the start of the first call plus the cache time. The clock does not go back
  -- during the first call.
  pub get_token_price-again :
      (s later : State Float) (price : TokenPriceInfo Float)
      → get s.price_cache mint ≡ none
      → ((n : ℕ) → s.clock ≤ n → env.now s.clock ≤ env.now n)
      → (get_token_price env mint s).0 ≡ ok (some price)
      → later.price_cache ≡ (get_token_price env mint s).1.price_cache
      → env.now later.clock ≤ env.now s.clock + env.cache_time_ms
      → get_token_price env mint later ≡ (ok (some price), record later { clock = later.clock + 1 })
  get_token_price-again s later price missing forward answered same in_time =
      answer-again (env.now s.clock) later price
        (get (get_token_price env mint s).1.price_cache mint)
        (IsKept-answer (env.now s.clock) (get_token_price env mint s) price
          (get_token_price-IsKept env mint (env.now s.clock) s (missing, forward)) answered)
        (ap (λ cache. get cache mint) same) in_time
