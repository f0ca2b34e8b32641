-- ===== src/Jupiter/Client/Prices.antt =====
-- kit-plugin-jupiter-pricing/src/lib/jupiter.ts: what `getTokenPrices` and `getTokenPrice` answer.
use solana_kit_plugins.Prelude.{
  ℕ, String, [], ◌∷◌, List, Option, none, some, refl, Bool-cases, inl, inr,
}
use solana_kit_plugins.Prelude.Map.{Map, get, get-empty}
use solana_kit_plugins.Prelude.Result.{Result}
use solana_kit_plugins.Prelude.Effect.{◌>>=◌, pure, lift}
use solana_kit_plugins.Prelude.Hoare.{
  Ensures, Ensures-bind, Ensures-catch, Ensures-result, Never, Ensures-weaken,
}
use solana_kit_plugins.Jupiter.{TokenPriceInfo, JupiterPriceData}
use solana_kit_plugins.Jupiter.Client.{
  Env, State, Error, Response, get_cached_price, request_prices, read_prices, date_now, add_prices,
  look_up, fetch_missing, get_token_prices, get_token_price, price_or_fetch,
}
use solana_kit_plugins.Jupiter.Client.Valid.{
  IsPriceOf, IsAnswer, IsValid, IsAsked, includes_self, fresh-IsPriceOf, look_up-IsAnswer,
  add_prices-IsAnswer,
}

module _ {Float : Type 0} (env : Env Float) where
  abbrev IsPriced : List String → Map (TokenPriceInfo Float) → State Float → Type 0
  IsPriced mints prices s = IsAnswer env mints prices × IsValid env s

  IsValid-result :
      {A : Type 0} (r : Result Error A) (s : State Float)
      → IsValid env s
      → Ensures (λ a t. IsValid env t) (λ e t. IsValid env t) (r, s)
  IsValid-result r s valid = Ensures-result (IsValid env) r s valid

  add_prices-Ensures :
      (mints todo : List String) (response : Map (JupiterPriceData Float))
      (prices : Map (TokenPriceInfo Float)) (fetched_at : ℕ) (s : State Float)
      → IsAsked env mints todo
      → IsAnswer env mints prices
      → IsValid env s
      → Ensures
          (IsPriced mints)
          (λ e t. IsValid env t)
          (add_prices env response fetched_at todo prices s)
  add_prices-Ensures mints todo response prices fetched_at s all answer valid =
      Ensures-weaken (IsPriced mints) (IsPriced mints) Never (λ e t. IsValid env t)
        (add_prices env response fetched_at todo prices s)
        (add_prices-IsAnswer env mints response fetched_at todo prices s all answer valid)
        (λ added t h. h) (λ e t h. absurd h)

  read_prices-IsPriced :
      (mints todo : List String) (prices : Map (TokenPriceInfo Float))
      (response : Response (Map (JupiterPriceData Float))) (s : State Float)
      → IsAsked env mints todo
      → IsAnswer env mints prices
      → IsValid env s
      → Ensures (IsPriced mints) (λ e t. IsValid env t) (read_prices env todo prices response s)
  read_prices-IsPriced mints todo prices response s all answer valid =
      elim (Bool-cases response.is_ok) [
        | inl e ↦ rw e (
            Ensures-bind (λ json t. IsValid env t) (IsPriced mints) (λ e' t. IsValid env t)
              (lift response.json)
              (λ json. date_now env >>= λ fetched_at. add_prices env json fetched_at todo prices) s
              (IsValid-result response.json s valid)
              (λ json t kept.
                add_prices-Ensures mints todo json prices (env.now t.clock) (date_now env t).1 all
                  answer kept))
        | inr e ↦ rw e (answer, valid)
      ]

  fetch_missing-IsPriced :
      (mints todo : List String) (prices : Map (TokenPriceInfo Float)) (s : State Float)
      → IsAsked env mints todo
      → IsAnswer env mints prices
      → IsValid env s
      → Ensures (IsPriced mints) Never (fetch_missing env prices todo s)
  fetch_missing-IsPriced mints [] prices s all answer valid = (answer, valid)
  fetch_missing-IsPriced mints (mint ∷ todo) prices s all answer valid =
      Ensures-catch (IsPriced mints) (λ e t. IsValid env t) Never
        (request_prices env (mint ∷ todo) >>= read_prices env (mint ∷ todo) prices)
        (λ error. pure prices) s
        (Ensures-bind (λ response t. IsValid env t) (IsPriced mints) (λ e t. IsValid env t)
          (request_prices env (mint ∷ todo)) (read_prices env (mint ∷ todo) prices) s
          (IsValid-result (request_prices env (mint ∷ todo) s).0
            (request_prices env (mint ∷ todo) s).1 valid)
          (λ response t kept.
            read_prices-IsPriced mints (mint ∷ todo) prices response t all answer kept))
        (λ e t kept. (answer, kept))

  pub get_token_prices-IsAnswer :
      (mints : List String) (s : State Float)
      → IsValid env s
      → Ensures
          (λ prices t. IsAnswer env mints prices × IsValid env t)
          Never
          (get_token_prices env mints s)
  unfolding get_token_prices
  get_token_prices-IsAnswer mints s valid =
      Ensures-bind
        (λ found t. IsAnswer env mints found.0 × IsAsked env mints found.1 × IsValid env t)
        (IsPriced mints) Never (look_up env mints [] [])
        (λ found. fetch_missing env found.0 found.1) s
        (look_up-IsAnswer env mints mints [] [] s (includes_self mints) tt
          (λ mint. rw get-empty (tt, λ absent. refl)) valid)
        (λ found t (answer, asked, kept).
          fetch_missing-IsPriced mints found.1 found.0 t asked answer kept)

  price_or_fetch-IsPriceOf :
      (mint : String) (cached : Option (TokenPriceInfo Float)) (s : State Float)
      → IsPriceOf env mint cached
      → IsValid env s
      → Ensures
          (λ price t. IsPriceOf env mint price × IsValid env t)
          Never
          (price_or_fetch env mint cached s)
  price_or_fetch-IsPriceOf mint (some price) s priced valid = (priced, valid)
  price_or_fetch-IsPriceOf mint none s priced valid =
      Ensures-bind (IsPriced (mint ∷ [])) (λ price t. IsPriceOf env mint price × IsValid env t)
        Never (get_token_prices env (mint ∷ [])) (λ prices. pure (get prices mint)) s
        (get_token_prices-IsAnswer (mint ∷ []) s valid)
        (λ prices t (answer, kept). ((answer mint).0, kept))

  pub get_token_price-IsPriceOf :
      (mint : String) (s : State Float)
      → IsValid env s
      → Ensures
          (λ price t. IsPriceOf env mint price × IsValid env t)
          Never
          (get_token_price env mint s)
  unfolding get_token_price
  get_token_price-IsPriceOf mint s valid =
      Ensures-bind (λ price t. IsPriceOf env mint price × IsValid env t)
        (λ price t. IsPriceOf env mint price × IsValid env t) Never (get_cached_price env mint)
        (price_or_fetch env mint) s
        (fresh-IsPriceOf env mint (get s.price_cache mint) s (valid mint) valid)
        (λ price t (priced, kept). price_or_fetch-IsPriceOf mint price t priced kept)
