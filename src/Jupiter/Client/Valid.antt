-- ===== src/Jupiter/Client/Valid.antt =====
-- kit-plugin-jupiter-pricing/src/lib/jupiter.ts: the price cache through `getTokenPrices` and
-- `getTokenPrice`.
use solana_kit_plugins.Prelude.{
  ℕ, String, [], ◌∷◌, List, Option, none, some, true, false, ltb, ◌≤◌, ◌≡◌, refl, ◌===◌, ===_iff,
  ===_refl, All, All-append, includes, Bool-cases, inl, inr, arith, ◌∙◌,
}
use solana_kit_plugins.Prelude.Map.{Map, get, set, delete, get-set, get-delete}
use solana_kit_plugins.Prelude.Result.{Result}
use solana_kit_plugins.Prelude.Effect.{◌>>=◌, pure}
use solana_kit_plugins.Prelude.Hoare.{Ensures, Ensures-bind, Ensures-catch, Ensures-result, Never}
use solana_kit_plugins.Jupiter.{TokenPriceInfo, JupiterPriceData, JupiterTokenInfo}
use solana_kit_plugins.Jupiter.Client.{
  Env, State, Error, PriceCacheEntry, Response, fresh, get_cached_price, get_token_symbol, look_up,
  add_price, add_prices, price_info, first_symbol, read_search, search_symbol, non_empty,
  add_result, add_to_fetch, lift, request_search, short_name,
}

includes-grow :
    (y : String) (ys xs : List String)
    → All (λ x. includes ys x ≡ true) xs
    → All (λ x. includes (y ∷ ys) x ≡ true) xs
includes-grow y ys [] h = tt
includes-grow y ys (x ∷ xs) h = (ground (arith, h.0), includes-grow y ys xs h.1)

pub includes_self : (xs : List String) → All (λ x. includes xs x ≡ true) xs
includes_self [] = tt
includes_self (x ∷ xs) = (rw ===_refl refl, includes-grow x xs xs (includes_self xs))

module _ {Float : Type 0} (env : Env Float) where
  -- a price for the mint, neither zero nor NaN
  abbrev pub IsPriceOf : String → Option (TokenPriceInfo Float) → Type 0
  IsPriceOf mint none = Unit
  IsPriceOf mint (some price) = (price.mint ≡ mint) × (env.truthy price.price_usd ≡ true)

  abbrev pub price_of : Option (PriceCacheEntry Float) → Option (TokenPriceInfo Float)
  price_of none = none
  price_of (some cached) = some cached.price

  -- every cached price is one for its key
  abbrev pub IsValid : State Float → Type 0
  IsValid s = (mint : String) → IsPriceOf mint (price_of (get s.price_cache mint))

  -- a price in the answer is one for its key, and the key is a mint that was asked for
  abbrev pub IsAnswer : List String → Map (TokenPriceInfo Float) → Type 0
  IsAnswer mints prices =
      (mint : String)
      → IsPriceOf mint (get prices mint) × (includes mints mint ≡ false → get prices mint ≡ none)

  delete-IsValid :
      (mint : String) (s : State Float)
      → IsValid s
      → IsValid (record s { price_cache = delete s.price_cache mint })
  delete-IsValid mint s valid other =
      rw get-delete
        (elim (Bool-cases (mint === other)) [ inl e ↦ rw e tt | inr e ↦ rw e (valid other) ])

  pub fresh-IsPriceOf :
      (mint : String) (found : Option (PriceCacheEntry Float)) (s : State Float)
      → IsPriceOf mint (price_of found)
      → IsValid s
      → Ensures (λ price t. IsPriceOf mint price × IsValid t) Never (fresh env mint found s)
  fresh-IsPriceOf mint none s priced valid = (tt, valid)
  fresh-IsPriceOf mint (some cached) s priced valid =
      elim (Bool-cases (ltb cached.expires_at (env.now s.clock))) [
        | inl e ↦ rw e (tt, delete-IsValid mint s valid)
        | inr e ↦ rw e (priced, valid)
      ]

  -- the price cache is as it was, and the calls are counted
  abbrev pub IsSame : State Float → State Float → Type 0
  IsSame s t = (t.price_cache ≡ s.price_cache) × (s.clock ≤ t.clock)

  first_symbol-IsSame :
      (mint : String) (tokens : Option (List JupiterTokenInfo)) (s t : State Float)
      → IsSame s t
      → Ensures (λ symbol u. IsSame s u) (λ e u. IsSame s u) (first_symbol env mint tokens t)
  first_symbol-IsSame mint none s t h = h
  first_symbol-IsSame mint (some []) s t h = h
  first_symbol-IsSame mint (some (token ∷ tokens)) s t h = h

  read_search-IsSame :
      (mint : String) (response : Response (Option (List JupiterTokenInfo))) (s t : State Float)
      → IsSame s t
      → Ensures (λ symbol u. IsSame s u) (λ e u. IsSame s u) (read_search env mint response t)
  read_search-IsSame mint response s t h = elim (Bool-cases response.is_ok) [
    | inl e ↦ rw e (
        Ensures-bind (λ tokens u. IsSame s u) _ _ (lift response.json) (first_symbol env mint) t
          (Ensures-result (IsSame s) response.json t h)
          (λ tokens u same. first_symbol-IsSame mint tokens s u same))
    | inr e ↦ rw e h
  ]

  search_symbol-IsSame :
      (mint : String) (cached : Option String) (s : State Float)
      → Ensures (λ symbol t. IsSame s t) Never (search_symbol env mint cached s)
  search_symbol-IsSame mint (some symbol) s = (refl, omega arith)
  search_symbol-IsSame mint none s =
      Ensures-catch (λ symbol t. IsSame s t) (λ e t. IsSame s t) Never
        (request_search env mint >>= read_search env mint) (λ error. pure (short_name mint)) s
        (Ensures-bind (λ response t. IsSame s t) (λ symbol t. IsSame s t) (λ e t. IsSame s t)
          (request_search env mint) (read_search env mint) s
          (searched (request_search env mint s).0)
          (λ response t same. read_search-IsSame mint response s t same))
        (λ e t same. same)
    where
      searched :
          (r : Result Error (Response (Option (List JupiterTokenInfo))))
          → Ensures
              (λ response t. IsSame s t)
              (λ e t. IsSame s t)
              (r, (request_search env mint s).1)
      searched r = Ensures-result (IsSame s) r (request_search env mint s).1 (refl, omega arith)

  pub get_token_symbol-IsSame :
      (mint : String) (s : State Float)
      → Ensures (λ symbol t. IsSame s t) Never (get_token_symbol env mint s)
  unfolding get_token_symbol
  get_token_symbol-IsSame mint s = search_symbol-IsSame mint (non_empty (get s.symbol_cache mint)) s

  set-IsValid :
      (mint symbol : String) (usd_price : Float) (fetched_at expires_at : ℕ) (s : State Float)
      → env.truthy usd_price ≡ true
      → IsValid s
      → IsValid (record s {
        price_cache = set s.price_cache mint (record {
          price = price_info env mint symbol usd_price fetched_at;
          expires_at = expires_at;
        });
      })
  set-IsValid mint symbol usd_price fetched_at expires_at s priced valid other =
      rw get-set (elim (Bool-cases (mint === other)) [
        | inl e ↦ rw e ((===_iff mint other).0 e, priced)
        | inr e ↦ rw e (valid other)
      ])

  set-IsAnswer :
      (mints : List String) (mint : String) (price : TokenPriceInfo Float)
      (prices : Map (TokenPriceInfo Float))
      → includes mints mint ≡ true
      → IsPriceOf mint (some price)
      → IsAnswer mints prices
      → IsAnswer mints (set prices mint price)
  set-IsAnswer mints mint price prices asked priced answer other =
      rw get-set (elim (Bool-cases (mint === other)) [
        | inl e ↦ rw e (
          (priced.0 ∙ (===_iff mint other).0 e, priced.1),
          λ absent. absurd (ground (arith, asked, absent, (===_iff mint other).0 e)),
        )
        | inr e ↦ rw e (answer other)
      ])

  add_result-IsAnswer :
      (mints : List String) (mint : String) (found : Option (TokenPriceInfo Float))
      (prices : Map (TokenPriceInfo Float))
      → includes mints mint ≡ true
      → IsPriceOf mint found
      → IsAnswer mints prices
      → IsAnswer mints (add_result env mint found prices)
  add_result-IsAnswer mints mint none prices asked priced answer = answer
  add_result-IsAnswer mints mint (some price) prices asked priced answer =
      set-IsAnswer mints mint price prices asked priced answer

  abbrev pub IsAsked : List String → List String → Type 0
  IsAsked mints xs = All (λ mint. includes mints mint ≡ true) xs

  add_to_fetch-IsAsked :
      (mints : List String) (mint : String) (found : Option (TokenPriceInfo Float))
      (xs : List String)
      → includes mints mint ≡ true
      → IsAsked mints xs
      → IsAsked mints (add_to_fetch env mint found xs)
  add_to_fetch-IsAsked mints mint none xs asked all =
      All-append (λ mint. includes mints mint ≡ true) xs (mint ∷ []) all (asked, tt)
  add_to_fetch-IsAsked mints mint (some price) xs asked all = all

  pub look_up-IsAnswer :
      (mints todo : List String) (prices : Map (TokenPriceInfo Float)) (to_fetch : List String)
      (s : State Float)
      → IsAsked mints todo
      → IsAsked mints to_fetch
      → IsAnswer mints prices
      → IsValid s
      → Ensures
          (λ found t. IsAnswer mints found.0 × IsAsked mints found.1 × IsValid t)
          Never
          (look_up env todo prices to_fetch s)
  unfolding look_up
  look_up-IsAnswer mints [] prices to_fetch s asked all answer valid = (answer, all, valid)
  look_up-IsAnswer mints (mint ∷ todo) prices to_fetch s (asked, more) all answer valid =
      Ensures-bind (λ price t. IsPriceOf mint price × IsValid t) _ _ (get_cached_price env mint) _ s
        (fresh-IsPriceOf mint (get s.price_cache mint) s (valid mint) valid)
        (λ price t (priced, kept).
          look_up-IsAnswer mints todo (add_result env mint price prices)
            (add_to_fetch env mint price to_fetch) t more
            (add_to_fetch-IsAsked mints mint price to_fetch asked all)
            (add_result-IsAnswer mints mint price prices asked priced answer) kept)

  add_price-IsAnswer :
      (mints : List String) (fetched_at : ℕ) (mint : String)
      (found : Option (JupiterPriceData Float)) (prices : Map (TokenPriceInfo Float))
      (s : State Float)
      → includes mints mint ≡ true
      → IsAnswer mints prices
      → IsValid s
      → Ensures
          (λ added t. IsAnswer mints added × IsValid t)
          Never
          (add_price env fetched_at mint found prices s)
  add_price-IsAnswer mints fetched_at mint none prices s asked answer valid = (answer, valid)
  add_price-IsAnswer mints fetched_at mint (some price_data) prices s asked answer valid =
      elim (Bool-cases (env.truthy price_data.usd_price)) [
        | inl e ↦ rw e (
            Ensures-bind (λ symbol t. IsSame s t) (λ added t. IsAnswer mints added × IsValid t)
              Never (get_token_symbol env mint) _ s (get_token_symbol-IsSame mint s)
              (λ symbol t same. (
                set-IsAnswer mints mint (price_info env mint symbol price_data.usd_price fetched_at)
                    prices asked (refl, e) answer,
                set-IsValid mint symbol price_data.usd_price fetched_at _ t e
                    (λ other. rw same.0 (valid other)),
              )))
        | inr e ↦ rw e (answer, valid)
      ]

  pub add_prices-IsAnswer :
      (mints : List String) (response : Map (JupiterPriceData Float)) (fetched_at : ℕ)
      (todo : List String) (prices : Map (TokenPriceInfo Float)) (s : State Float)
      → IsAsked mints todo
      → IsAnswer mints prices
      → IsValid s
      → Ensures
          (λ added t. IsAnswer mints added × IsValid t)
          Never
          (add_prices env response fetched_at todo prices s)
  unfolding add_prices
  add_prices-IsAnswer mints response fetched_at [] prices s all answer valid = (answer, valid)
  add_prices-IsAnswer mints response fetched_at (mint ∷ todo) prices s (asked, all) answer valid =
      Ensures-bind (λ added t. IsAnswer mints added × IsValid t)
        (λ added t. IsAnswer mints added × IsValid t) Never
        (add_price env fetched_at mint (get response mint) prices)
        (add_prices env response fetched_at todo) s
        (add_price-IsAnswer mints fetched_at mint (get response mint) prices s asked answer valid)
        (λ added t (kept, still).
          add_prices-IsAnswer mints response fetched_at todo added t all kept still)
