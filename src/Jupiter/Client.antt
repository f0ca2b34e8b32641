-- ===== src/Jupiter/Client.antt =====
-- kit-plugin-jupiter-pricing/src/lib/jupiter.ts: `JupiterClient`. `fetch`, the clock, the case of
-- texts and the truth of a number are parameters; warnings on the console have no model.
pub mod Valid
pub mod Prices
pub mod Again
pub mod Symbols
pub mod Keeps
use solana_kit_plugins.Prelude.{
  ℕ, ◌+◌, ◌*◌, String, [], ◌∷◌, List, Option, none, some, Bool, ltb, ◌++◌, ◌===◌, if◌then◌else◌,
}
use Prim.Native.String
use solana_kit_plugins.Prelude.Map.{Map, get, set, delete}
use solana_kit_plugins.Prelude.Result.{Result, ok}
use solana_kit_plugins.Prelude.Effect.{Exec, ◌>>=◌, pure, lift, gets, catch}
use solana_kit_plugins.Prelude.Texts.{utf16_length, substring_to, join}
use solana_kit_plugins.Jupiter.{
  jupiter_price_api_v3, jupiter_token_search_api, jupiter_strict_token_list_api, JupiterPriceData,
  JupiterTokenInfo, TokenPriceInfo,
}

pub data Error : Type 0 where
  could_not_resolve_token_symbol : (token : String) → Error
  could_not_fetch_price : (token : String) → Error
  could_not_fetch_mint_info : (token : String) → Error
  price_not_found : (mint : String) → Error
  -- any error of a call to the network or of the language
  failure : String → Error

pub record PriceCacheEntry (Float : Type 0) : Type 0 where
  pub price : TokenPriceInfo Float
  pub expires_at : ℕ

-- a response, with what its `json()` gives
pub record Response (Json : Type 0) : Type 0 where
  pub is_ok : Bool
  pub json : Result Error Json

-- Each call out of the client, a reading of the clock included, gets the number of the calls
-- before it; `fetch` gets the headers and the URL. The JSON of a search may be no array.
pub record Env (Float : Type 0) : Type 0 where
  pub api_key : Option String
  pub cache_time_ms : ℕ
  pub vs_token : String
  pub now : ℕ → ℕ
  pub to_upper_case : String → String
  -- neither zero nor NaN
  pub truthy : Float → Bool
  pub fetch_prices :
      ℕ → Map String → String → Result Error (Response (Map (JupiterPriceData Float)))
  pub fetch_search :
      ℕ → Map String → String → Result Error (Response (Option (List JupiterTokenInfo)))
  pub fetch_token_list : ℕ → Map String → String → Result Error (Response (List JupiterTokenInfo))

pub record State (Float : Type 0) : Type 0 where
  pub clock : ℕ
  -- the URLs that were fetched
  pub fetched : List String
  pub price_cache : Map (PriceCacheEntry Float)
  pub symbol_cache : Map String
  pub symbol_to_mint_cache : Map String
  pub token_list_cache : Option (List JupiterTokenInfo)
  pub token_list_cache_expiry : ℕ

-- an empty text is falsy
abbrev pub non_empty : Option String → Option String
non_empty none = none
non_empty (some a) = if a === "" then none else some a

abbrev pub headers_of : Option String → Map String
headers_of none = []
headers_of (some api_key) = ("x-api-key", api_key) ∷ []

-- mintString.substring(0, 8)
abbrev pub short_name : String → String
short_name mint = substring_to 8 mint

abbrev pub Run : Type 0 → Type 0 → Type 0
Run Float A = Exec (State Float) Error A

-- the constructor's state
abbrev pub new_client : (Float : Type 0) → ℕ → State Float
new_client Float clock = record {
  clock = clock;
  fetched = [];
  price_cache = [];
  symbol_cache = [];
  symbol_to_mint_cache = [];
  token_list_cache = none;
  token_list_cache_expiry = 0;
}

module _ {Float : Type 0} where
  abbrev pub modify : (State Float → State Float) → Run Float (Unit {0})
  modify f s = (ok tt, f s)

  abbrev pub request : {A : Type 0} → (ℕ → String → Result Error A) → String → Run Float A
  request reply url s =
      (reply s.clock url, record s { clock = s.clock + 1; fetched = s.fetched ++ url ∷ [] })

module _ {Float : Type 0} (env : Env Float) where
  abbrev pub get_headers : Map String
  get_headers = headers_of (non_empty env.api_key)

  -- Date.now()
  abbrev pub date_now : Run Float ℕ
  date_now s = (ok (env.now s.clock), record s { clock = s.clock + 1 })

  -- the entry, unless it is past its time, when it is deleted
  abbrev pub fresh :
      String → Option (PriceCacheEntry Float) → Run Float (Option (TokenPriceInfo Float))
  fresh mint none = pure none
  fresh mint (some cached) = do
    now ← date_now
    (if ltb cached.expires_at now
        then (do _ ← modify (λ s. record s { price_cache = delete s.price_cache mint }); pure none)
        else pure (some cached.price))

  abbrev pub get_cached_price : String → Run Float (Option (TokenPriceInfo Float))
  get_cached_price mint = do cached ← gets (λ s. get s.price_cache mint); fresh mint cached

  abbrev pub set_cached_price : String → TokenPriceInfo Float → Run Float (Unit {0})
  set_cached_price mint price = do
    now ← date_now
    modify λ s. record s {
      price_cache =
          set s.price_cache mint (record { price = price; expires_at = now + env.cache_time_ms });
    }

  abbrev pub first_symbol : String → Option (List JupiterTokenInfo) → Run Float String
  first_symbol mint none = pure (short_name mint)
  first_symbol mint (some []) = pure (short_name mint)
  first_symbol mint (some (token ∷ tokens)) = do
    _ ← modify (λ s. record s { symbol_cache = set s.symbol_cache mint token.symbol })
    pure token.symbol

  abbrev pub read_search : String → Response (Option (List JupiterTokenInfo)) → Run Float String
  read_search mint response =
      if response.is_ok
      then (do tokens ← lift response.json; first_symbol mint tokens)
      else pure (short_name mint)

  abbrev pub request_search : String → Run Float (Response (Option (List JupiterTokenInfo)))
  request_search mint =
      request (λ n url. env.fetch_search n get_headers url)
        (String.◌++◌ jupiter_token_search_api (String.◌++◌ "?query=" mint))

  abbrev pub search_symbol : String → Option String → Run Float String
  search_symbol mint (some cached) = pure cached
  search_symbol mint none =
      catch (do response ← request_search mint; read_search mint response)
        (λ error. pure (short_name mint))

  unfoldable pub get_token_symbol : String → Run Float String
  get_token_symbol mint = do
    cached ← gets (λ s. get s.symbol_cache mint)
    search_symbol mint (non_empty cached)

  abbrev pub add_result :
      String
      → Option (TokenPriceInfo Float)
      → Map (TokenPriceInfo Float)
      → Map (TokenPriceInfo Float)
  add_result mint none result = result
  add_result mint (some cached) result = set result mint cached

  abbrev pub add_to_fetch : String → Option (TokenPriceInfo Float) → List String → List String
  add_to_fetch mint none mints_to_fetch = mints_to_fetch ++ mint ∷ []
  add_to_fetch mint (some cached) mints_to_fetch = mints_to_fetch

  -- the first loop of getTokenPrices, over the cache
  unfoldable pub look_up :
      List String
      → Map (TokenPriceInfo Float)
      → List String
      → Run Float (Map (TokenPriceInfo Float) × List String)
  look_up [] result mints_to_fetch = pure (result, mints_to_fetch)
  look_up (mint ∷ mints) result mints_to_fetch = do
    cached ← get_cached_price mint
    look_up mints (add_result mint cached result) (add_to_fetch mint cached mints_to_fetch)

  abbrev pub price_info : String → String → Float → ℕ → TokenPriceInfo Float
  price_info mint symbol usd_price fetched_at = record {
    mint = mint;
    symbol = symbol;
    price_usd = usd_price;
    fetched_at = fetched_at;
  }

  -- one round of the second loop, over the response
  abbrev pub add_price :
      ℕ
      → String
      → Option (JupiterPriceData Float)
      → Map (TokenPriceInfo Float)
      → Run Float (Map (TokenPriceInfo Float))
  add_price fetched_at mint none result = pure result
  add_price fetched_at mint (some price_data) result =
      if env.truthy price_data.usd_price
      then (do
        symbol ← get_token_symbol mint
        _ ← set_cached_price mint (price_info mint symbol price_data.usd_price fetched_at)
        pure (set result mint (price_info mint symbol price_data.usd_price fetched_at)))
      else pure result

  unfoldable pub add_prices :
      Map (JupiterPriceData Float)
      → ℕ
      → List String
      → Map (TokenPriceInfo Float)
      → Run Float (Map (TokenPriceInfo Float))
  add_prices response fetched_at [] result = pure result
  add_prices response fetched_at (mint ∷ mints) result = do
    added ← add_price fetched_at mint (get response mint) result
    add_prices response fetched_at mints added

  abbrev pub read_prices :
      List String
      → Map (TokenPriceInfo Float)
      → Response (Map (JupiterPriceData Float))
      → Run Float (Map (TokenPriceInfo Float))
  read_prices mints_to_fetch result response =
      if response.is_ok
      then (do
        jupiter_response ← lift response.json
        fetched_at ← date_now
        add_prices jupiter_response fetched_at mints_to_fetch result)
      else pure result

  -- `${JUPITER_PRICE_API_V3}?ids=${idsParam}&vsToken=${this.vsToken}`
  abbrev pub price_url : List String → String
  price_url mints =
      String.◌++◌ jupiter_price_api_v3
        (String.◌++◌ "?ids=" (String.◌++◌ (join mints) (String.◌++◌ "&vsToken=" env.vs_token)))

  abbrev pub request_prices : List String → Run Float (Response (Map (JupiterPriceData Float)))
  request_prices mints = request (λ n url. env.fetch_prices n get_headers url) (price_url mints)

  abbrev pub fetch_missing :
      Map (TokenPriceInfo Float) → List String → Run Float (Map (TokenPriceInfo Float))
  fetch_missing result [] = pure result
  fetch_missing result (mint ∷ mints) =
      catch
        (do response ← request_prices (mint ∷ mints); read_prices (mint ∷ mints) result response)
        (λ error. pure result)

  unfoldable pub get_token_prices : List String → Run Float (Map (TokenPriceInfo Float))
  get_token_prices mints = do found ← look_up mints [] []; fetch_missing found.0 found.1

  abbrev pub price_or_fetch :
      String → Option (TokenPriceInfo Float) → Run Float (Option (TokenPriceInfo Float))
  price_or_fetch mint (some cached) = pure (some cached)
  price_or_fetch mint none = do prices ← get_token_prices (mint ∷ []); pure (get prices mint)

  unfoldable pub get_token_price : String → Run Float (Option (TokenPriceInfo Float))
  get_token_price mint = do cached ← get_cached_price mint; price_or_fetch mint cached

  -- the last loop of getStrictTokenList
  unfoldable pub add_symbols : List JupiterTokenInfo → Map String → Map String
  add_symbols [] cache = cache
  add_symbols (token ∷ tokens) cache =
      add_symbols tokens (set cache (env.to_upper_case token.symbol) token.address)

  abbrev pub read_token_list : Response (List JupiterTokenInfo) → Run Float (List JupiterTokenInfo)
  read_token_list response =
      if response.is_ok
      then (do
        tokens ← lift response.json
        _ ← modify (λ s. record s { token_list_cache = some tokens })
        now ← date_now
        _ ← modify (λ s. record s { token_list_cache_expiry = now + env.cache_time_ms * 10 })
        _ ←
            modify
              (λ s. record s { symbol_to_mint_cache = add_symbols tokens s.symbol_to_mint_cache })
        pure tokens)
      else pure []

  abbrev pub request_token_list : Run Float (Response (List JupiterTokenInfo))
  request_token_list =
      request (λ n url. env.fetch_token_list n get_headers url) jupiter_strict_token_list_api

  abbrev pub fetch_strict_token_list : Run Float (List JupiterTokenInfo)
  fetch_strict_token_list =
      catch (do response ← request_token_list; read_token_list response) (λ error. pure [])

  -- `this.tokenListCache && Date.now() < this.tokenListCacheExpiry`
  abbrev pub list_or_fetch : Option (List JupiterTokenInfo) → Run Float (List JupiterTokenInfo)
  list_or_fetch none = fetch_strict_token_list
  list_or_fetch (some tokens) = do
    now ← date_now
    expiry ← gets (λ s. s.token_list_cache_expiry)
    (if ltb now expiry then pure tokens else fetch_strict_token_list)

  unfoldable pub get_strict_token_list : Run Float (List JupiterTokenInfo)
  get_strict_token_list = do cached ← gets (λ s. s.token_list_cache); list_or_fetch cached

  abbrev pub resolve_uncached : String → Option String → Run Float (Option String)
  resolve_uncached input (some cached) = pure (some cached)
  resolve_uncached input none = if ltb 32 (utf16_length input) then pure (some input) else (do
    _ ← get_strict_token_list
    gets (λ s. non_empty (get s.symbol_to_mint_cache (env.to_upper_case input))))

  unfoldable pub resolve_token_symbol : String → Run Float (Option String)
  resolve_token_symbol input = do
    cached ← gets (λ s. get s.symbol_to_mint_cache (env.to_upper_case input))
    resolve_uncached input (non_empty cached)

  unfoldable pub clear_cache : Run Float (Unit {0})
  clear_cache s = (
    ok tt,
    record s {
      price_cache = [];
      symbol_cache = [];
      symbol_to_mint_cache = [];
      token_list_cache = none;
      token_list_cache_expiry = 0;
    },
  )
