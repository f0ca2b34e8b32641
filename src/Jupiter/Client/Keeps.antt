-- ===== src/Jupiter/Client/Keeps.antt =====
-- kit-plugin-jupiter-pricing/src/lib/jupiter.ts: the price cache through `resolveTokenSymbol`.
use solana_kit_plugins.Prelude.{
  ◌+◌, String, [], List, Option, none, some, true, ltb, refl, inl, inr, Bool-cases, arith,
}
use solana_kit_plugins.Prelude.Map.{get}
use solana_kit_plugins.Prelude.Result.{Result, ok, throw}
use solana_kit_plugins.Prelude.Texts.{utf16_length}
use solana_kit_plugins.Prelude.Effect.{◌>>=◌, pure, gets}
use solana_kit_plugins.Prelude.Hoare.{Ensures, Ensures-bind, Ensures-catch, Ensures-result}
use solana_kit_plugins.Jupiter.{JupiterTokenInfo}
use solana_kit_plugins.Jupiter.Client.{
  Env, State, Error, Response, read_token_list, request_token_list, fetch_strict_token_list,
  list_or_fetch, get_strict_token_list, resolve_uncached, resolve_token_symbol, non_empty,
}
use solana_kit_plugins.Jupiter.Client.Valid.{IsSame}

module _ {Float : Type 0} (env : Env Float) where
  abbrev Keeps : {A : Type 0} → State Float → Result Error A × State Float → Type 0
  Keeps s x = Ensures (λ a t. IsSame env s t) (λ e t. IsSame env s t) x

  kept_result :
      {A : Type 0} (r : Result Error A) (s t : State Float) → IsSame env s t → Keeps s (r, t)
  kept_result r s t same = Ensures-result (IsSame env s) r t same

  read_json-Keeps :
      (json : Result Error (List JupiterTokenInfo)) (s t : State Float)
      → IsSame env s t
      → Keeps s (read_token_list env (record { is_ok = true; json = json }) t)
  read_json-Keeps (ok tokens) s t (same, later) = (same, omega arith)
  read_json-Keeps (throw e) s t same = same

  read_token_list-Keeps :
      (response : Response (List JupiterTokenInfo)) (s t : State Float)
      → IsSame env s t
      → Keeps s (read_token_list env response t)
  read_token_list-Keeps response s t same = elim (Bool-cases response.is_ok) [
    | inl e ↦ rw e (read_json-Keeps response.json s t same)
    | inr e ↦ rw e same
  ]

  fetch_strict_token_list-Keeps :
      (s t : State Float) → IsSame env s t → Keeps s (fetch_strict_token_list env t)
  fetch_strict_token_list-Keeps s t same =
      Ensures-catch (λ tokens u. IsSame env s u) (λ e u. IsSame env s u) (λ e u. IsSame env s u)
        (request_token_list env >>= read_token_list env) (λ error. pure []) t
        (Ensures-bind (λ response u. IsSame env s u) (λ tokens u. IsSame env s u)
          (λ e u. IsSame env s u) (request_token_list env) (read_token_list env) t
          (kept_result (request_token_list env t).0 s (request_token_list env t).1
            (same.0, omega (arith, same.1)))
          (λ response u kept. read_token_list-Keeps response s u kept))
        (λ e u kept. kept)

  list_or_fetch-Keeps :
      (cached : Option (List JupiterTokenInfo)) (s : State Float)
      → Keeps s (list_or_fetch env cached s)
  list_or_fetch-Keeps none s = fetch_strict_token_list-Keeps s s (refl, omega arith)
  list_or_fetch-Keeps (some tokens) s =
      elim (Bool-cases (ltb (env.now s.clock) s.token_list_cache_expiry)) [
        | inl e ↦ rw e (refl, omega arith)
        | inr e ↦
            rw e (
              fetch_strict_token_list-Keeps s (record s { clock = s.clock + 1 })
                (refl, omega arith))
      ]

  resolve_uncached-Keeps :
      (input : String) (cached : Option String) (s : State Float)
      → Keeps s (resolve_uncached env input cached s)
  unfolding get_strict_token_list
  resolve_uncached-Keeps input (some mint) s = (refl, omega arith)
  resolve_uncached-Keeps input none s = elim (Bool-cases (ltb 32 (utf16_length input))) [
    | inl e ↦ rw e (refl, omega arith)
    | inr e ↦ rw e (
        Ensures-bind (λ tokens u. IsSame env s u) (λ mint u. IsSame env s u)
          (λ e' u. IsSame env s u) (get_strict_token_list env)
          (λ tokens. gets (λ u. non_empty (get u.symbol_to_mint_cache (env.to_upper_case input)))) s
          (list_or_fetch-Keeps s.token_list_cache s) (λ tokens u kept. kept))
  ]

  pub resolve_token_symbol-Keeps :
      (input : String) (s : State Float) → Keeps s (resolve_token_symbol env input s)
  unfolding resolve_token_symbol
  resolve_token_symbol-Keeps input s =
      resolve_uncached-Keeps input
        (non_empty (get s.symbol_to_mint_cache (env.to_upper_case input))) s
