-- ===== src/Jupiter/Client/Symbols.antt =====
-- kit-plugin-jupiter-pricing/src/lib/jupiter.ts: `resolveTokenSymbol` and the list of the tokens.
use solana_kit_plugins.Prelude.{
  ◌+◌, ◌*◌, String, [], ◌∷◌, List, Option, none, some, true, ltb, ◌≡◌, refl, ◌===◌, if◌then◌else◌,
  Bool-cases, inl, inr, ◌++◌,
}
use solana_kit_plugins.Prelude.Map.{Map, get, set, get-set}
use solana_kit_plugins.Prelude.Result.{Result, ok, throw}
use solana_kit_plugins.Prelude.Texts.{utf16_length}
use solana_kit_plugins.Jupiter.{JupiterTokenInfo, jupiter_strict_token_list_api}
use solana_kit_plugins.Jupiter.Client.{
  Env, State, Response, Error, add_symbols, get_strict_token_list, resolve_token_symbol, non_empty,
  get_headers, resolve_uncached,
}
use solana_kit_plugins.Prelude.Effect.{recover, pure}
use solana_kit_plugins.Jupiter.Client.{read_token_list, fetch_strict_token_list}
use solana_kit_plugins.Prelude.{ap, ◌∙◌}
use solana_kit_plugins.Jupiter.Client.{list_or_fetch, resolve_uncached, resolve_token_symbol}
use solana_kit_plugins.Prelude.Texts.{utf16_length}
use solana_kit_plugins.Prelude.{inl, inr, refl, ltb}
use solana_kit_plugins.Prelude.{if◌then◌else◌}

module _ {Float : Type 0} (env : Env Float) where
  -- the address of the last token of the list with the symbol, in upper case, or else `before`
  abbrev pub last_with : String → List JupiterTokenInfo → Option String → Option String
  last_with symbol [] before = before
  last_with symbol (token ∷ tokens) before =
      last_with symbol tokens
        (if env.to_upper_case token.symbol === symbol then some token.address else before)

  pub get-add_symbols :
      (symbol : String) (tokens : List JupiterTokenInfo) (cache : Map String)
      → get (add_symbols env tokens cache) symbol ≡ last_with symbol tokens (get cache symbol)
  unfolding add_symbols
  get-add_symbols symbol [] cache = refl
  get-add_symbols symbol (token ∷ tokens) cache =
      rw
        (
          get-add_symbols symbol tokens (set cache (env.to_upper_case token.symbol) token.address),
          get-set,
        )
        refl

  -- the state after a token list was fetched
  abbrev pub listed : List JupiterTokenInfo → State Float → State Float
  listed tokens s = record s {
    clock = s.clock + 1 + 1;
    fetched = s.fetched ++ jupiter_strict_token_list_api ∷ [];
    symbol_to_mint_cache = add_symbols env tokens s.symbol_to_mint_cache;
    token_list_cache = some tokens;
    token_list_cache_expiry = env.now (s.clock + 1) + env.cache_time_ms * 10;
  }

  -- the state after a request for the token list that brought none
  abbrev pub requested : State Float → State Float
  requested s = record s {
    clock = s.clock + 1;
    fetched = s.fetched ++ jupiter_strict_token_list_api ∷ [];
  }

  -- the tokens of a response, if it brings any
  abbrev pub tokens_of :
      Result Error (Response (List JupiterTokenInfo)) → Option (List JupiterTokenInfo)
  tokens_of (throw e) = none
  tokens_of (ok response) =
      if response.is_ok
      then elim response.json [ ok tokens ↦ some tokens | throw e ↦ none ]
      else none

  abbrev pub or_empty : Option (List JupiterTokenInfo) → List JupiterTokenInfo
  or_empty none = []
  or_empty (some tokens) = tokens

  abbrev pub after_list : Option (List JupiterTokenInfo) → State Float → State Float
  after_list none s = requested s
  after_list (some tokens) s = listed tokens s

  read_token_list_lem :
      (response : Response (List JupiterTokenInfo)) (s : State Float)
      → recover
          (read_token_list env response (requested s)).0
          (λ error. pure [])
          (read_token_list env response (requested s)).1
        ≡ (ok (or_empty (tokens_of (ok response))), after_list (tokens_of (ok response)) s)
  read_token_list_lem response s = elim (Bool-cases response.is_ok) [
    | inl e ↦ rw e (read_json response.json)
    | inr e ↦ rw e refl
  ]
    where
      read_json :
          (json : Result Error (List JupiterTokenInfo))
          → recover
              (read_token_list env (record { is_ok = true; json = json }) (requested s)).0
              (λ error. pure [])
              (read_token_list env (record { is_ok = true; json = json }) (requested s)).1
            ≡ (
              ok (or_empty (tokens_of (ok (record { is_ok = true; json = json })))),
              after_list (tokens_of (ok (record { is_ok = true; json = json }))) s,
            )
      read_json (ok tokens) = refl
      read_json (throw e) = refl

  fetch_strict_token_list_lem :
      (r : Result Error (Response (List JupiterTokenInfo))) (s : State Float)
      → env.fetch_token_list s.clock (get_headers env) jupiter_strict_token_list_api ≡ r
      → fetch_strict_token_list env s ≡ (ok (or_empty (tokens_of r)), after_list (tokens_of r) s)
  fetch_strict_token_list_lem (ok response) s e = rw e (read_token_list_lem response s)
  fetch_strict_token_list_lem (throw error) s e = rw e refl

  pub get_strict_token_list-fetches :
      (r : Result Error (Response (List JupiterTokenInfo))) (s : State Float)
      → s.token_list_cache ≡ none
      → env.fetch_token_list s.clock (get_headers env) jupiter_strict_token_list_api ≡ r
      → get_strict_token_list env s ≡ (ok (or_empty (tokens_of r)), after_list (tokens_of r) s)
  unfolding get_strict_token_list
  get_strict_token_list-fetches r s none_yet e =
      ap (λ cached. list_or_fetch env cached s) none_yet ∙ fetch_strict_token_list_lem r s e

  -- what the symbol resolves to with the tokens of a response
  abbrev pub resolved : String → Option (List JupiterTokenInfo) → State Float → Option String
  resolved symbol none s = none
  resolved symbol (some tokens) s =
      non_empty (last_with symbol tokens (get s.symbol_to_mint_cache symbol))

  listed-resolved :
      (symbol : String) (found : Option (List JupiterTokenInfo)) (s : State Float)
      → non_empty (get s.symbol_to_mint_cache symbol) ≡ none
      → non_empty (get (after_list found s).symbol_to_mint_cache symbol) ≡ resolved symbol found s
  listed-resolved symbol none s unknown = unknown
  listed-resolved symbol (some tokens) s unknown =
      ap non_empty (get-add_symbols symbol tokens s.symbol_to_mint_cache)

  -- With no token list in the cache and no mint known for the symbol, resolveTokenSymbol gives an
  -- input of more than 32 characters back as it is, without a request. For any other input it makes
  -- one request for the list. A list that comes back is kept, and the symbol resolves to the address
  -- of its last token with that symbol in upper case, if that is not empty, or else to nothing;
  -- without a list it resolves to nothing and no cache changes.
  pub resolve_token_symbol-resolved :
      (input : String) (r : Result Error (Response (List JupiterTokenInfo))) (s : State Float)
      → non_empty (get s.symbol_to_mint_cache (env.to_upper_case input)) ≡ none
      → s.token_list_cache ≡ none
      → env.fetch_token_list s.clock (get_headers env) jupiter_strict_token_list_api ≡ r
      → resolve_token_symbol env input s ≡ (
          if ltb 32 (utf16_length input) then (ok (some input), s) else (
            ok (resolved (env.to_upper_case input) (tokens_of r) s),
            after_list (tokens_of r) s,
          ))
  unfolding resolve_token_symbol
  resolve_token_symbol-resolved input r s unknown none_yet e =
      ap (λ cached. resolve_uncached env input cached s) unknown
      ∙ elim (Bool-cases (ltb 32 (utf16_length input))) [
        | inl long ↦ rw long refl
        | inr short ↦
            rw
              (
                short,
                get_strict_token_list-fetches r s none_yet e,
                listed-resolved (env.to_upper_case input) (tokens_of r) s unknown,
              )
              refl
      ]
