-- ===== src/Metaplex/Client/Ownership/Calls.antt =====
-- kit-plugin-metaplex/src/lib/metaplex-client.ts: sequences of the methods of `MetaplexClient`.
use solana_kit_plugins.Prelude.{
  ℕ, String, Option, none, some, Bool, true, false, ◌≡◌, refl, Bool-cases, inl, inr, ltb,
}
use solana_kit_plugins.Prelude.Map.{get, get-empty}
use solana_kit_plugins.Prelude.Result.{Result, ok, throw}
use solana_kit_plugins.Metaplex.{TokenMetadata, MetadataCacheEntry, List, MetadataSource}
use solana_kit_plugins.Metaplex.Client.{
  Env, State, UpdateParams, cache_key, Error, Response, fetch_metadata_json, complete,
  get_token_metadata, get_complete_metadata, read_response, tick, failed_to_get_complete,
  get_cached_metadata, ◌∷◌, clear_cache, failed_to_fetch, update_token_metadata,
}
use solana_kit_plugins.Metaplex.Client.Answers.{first_answer}
use solana_kit_plugins.Metaplex.Client.Cache.{
  after_cache, cached_answer, get_token_metadata_lem, get_cached_metadata_lem,
}
use solana_kit_plugins.Prelude.{◌∙◌}
use solana_kit_plugins.Prelude.{ap}
use solana_kit_plugins.Prelude.Effect.{recover, raise, lift, continue, pure, continue-state}
use mathlib.Core.List.{[]}
use mathlib.Core.Path.{subst, sym}
use solana_kit_plugins.Metaplex.Client.Update.{
  fetched, updated, forget, cache_after, update_token_metadata_request,
}
use solana_kit_plugins.Metaplex.{token_extensions, metaplex, no_source}
use solana_kit_plugins.Metaplex.Client.Ownership.{IsAbout, IsEntryOf, IsOwnCache}
use solana_kit_plugins.Metaplex.Client.Ownership.{
  found_in, first_answer-IsAbout, remember-IsOwnCache, delete-IsOwnCache,
}

-- the methods that read or write the cache
pub data Call : Type 0 where
  get_token_metadata_call : (mint : String) (use_cache : Bool) → Call
  get_cached_metadata_call : (mint : String) → Call
  get_complete_metadata_call : (mint : String) → Call
  update_token_metadata_call : UpdateParams → Call
  clear_cache_call : Call

module _ {Json : Type 0} (env : Env Json) where
  cached_answer-IsAbout :
      (mint : String) (found : Option MetadataCacheEntry) (n : ℕ)
      → IsEntryOf env mint found
      → IsAbout env mint (cached_answer env mint found n).0
  cached_answer-IsAbout mint none n h = tt
  cached_answer-IsAbout mint (some cached) n h =
      elim (Bool-cases (ltb (env.now n) cached.expires_at)) [ inl e ↦ rw e h | inr e ↦ rw e tt ]

  after_cache-IsOwnCache :
      (mint : String) (x : Option TokenMetadata × ℕ) (s : State)
      → IsAbout env mint x.0
      → IsOwnCache env s.metadata_cache
      → IsAbout env mint (after_cache env mint x s).0
        × IsOwnCache env (after_cache env mint x s).1.metadata_cache
  after_cache-IsOwnCache mint (some metadata, n) s about own = (about, own)
  after_cache-IsOwnCache mint (none, n) s about own = (
    first_answer-IsAbout env mint n,
    remember-IsOwnCache env mint (first_answer env mint n) (record s { clock = n })
        (first_answer-IsAbout env mint n) own,
  )

  -- A rethrow changes no state.
  rethrow-state :
      {A : Type 0} (r : Result Error A) (f : Error → Error) (s : State)
      → (recover r (λ e. raise (f e)) s).1 ≡ s
  rethrow-state (ok a) f s = refl
  rethrow-state (throw e) f s = refl

  fetched-state :
      (r : Result Error (Response Json)) (uri : String) (s : State)
      → (recover
          (continue r (λ response. lift (read_response env response)) s).0
          (λ e. raise (failed_to_fetch uri e))
          (continue r (λ response. lift (read_response env response)) s).1).1
        ≡ s
  fetched-state (ok response) uri s =
      rethrow-state (read_response env response) (failed_to_fetch uri) s
  fetched-state (throw e) uri s = refl

  pub fetch_metadata_json-state :
      (uri : String) (s : State) → (fetch_metadata_json env uri s).1 ≡ tick s
  unfolding fetch_metadata_json
  fetch_metadata_json-state uri s = fetched-state (env.fetch s.clock uri) uri (tick s)

  complete-state :
      (found : Option TokenMetadata) (s : State)
      → (complete env found s).1.metadata_cache ≡ s.metadata_cache
  complete-state none s = refl
  complete-state (some metadata) s =
      ap (λ (t : State). t.metadata_cache)
        (rethrow-state
            (continue (fetch_metadata_json env metadata.uri s).0
              (λ json. pure (some (metadata, json))) (fetch_metadata_json env metadata.uri s).1).0
            failed_to_get_complete _
          ∙ continue-state (fetch_metadata_json env metadata.uri s).0
              (λ json. some (metadata, json)) (fetch_metadata_json env metadata.uri s).1
          ∙ fetch_metadata_json-state metadata.uri s)

  -- one call of a method, as far as it changes the state
  abbrev pub after_call : Call → State → State
  after_call (get_token_metadata_call mint use_cache) s =
      (get_token_metadata env mint use_cache s).1
  after_call (get_cached_metadata_call mint) s = (get_cached_metadata env mint s).1
  after_call (get_complete_metadata_call mint) s = (get_complete_metadata env mint s).1
  after_call (update_token_metadata_call params) s = (update_token_metadata env params s).1
  after_call clear_cache_call s = (clear_cache env s).1

  abbrev pub after_calls : List Call → State → State
  after_calls [] s = s
  after_calls (call ∷ calls) s = after_calls calls (after_call call s)

  get_token_metadata-IsOwnCache :
      (mint : String) (use_cache : Bool) (s : State)
      → IsOwnCache env s.metadata_cache
      → (IsAbout env mint (found_in env mint (get_token_metadata env mint use_cache s).0))
        × IsOwnCache env (get_token_metadata env mint use_cache s).1.metadata_cache
  get_token_metadata-IsOwnCache mint true s own = rw (get_token_metadata_lem env mint s).0 (
      after_cache-IsOwnCache mint
        (cached_answer env mint (get s.metadata_cache (cache_key mint)) s.clock) s
        (cached_answer-IsAbout mint (get s.metadata_cache (cache_key mint)) s.clock (own mint)) own)
  get_token_metadata-IsOwnCache mint false s own = rw (get_token_metadata_lem env mint s).1 (
    first_answer-IsAbout env mint s.clock,
    remember-IsOwnCache env mint (first_answer env mint s.clock) s
        (first_answer-IsAbout env mint s.clock) own,
  )

  complete-IsOwnCache :
      (found : Option TokenMetadata) (s : State)
      → IsOwnCache env s.metadata_cache
      → IsOwnCache env (complete env found s).1.metadata_cache
  complete-IsOwnCache found s own = subst (IsOwnCache env) (sym (complete-state found s)) own

  forget-IsOwnCache :
      (params : UpdateParams) (s : State) (reply : Result Error String)
      → IsOwnCache env (fetched env params s).metadata_cache
      → IsOwnCache env (forget env params s reply)
  forget-IsOwnCache params s (ok signature) own =
      delete-IsOwnCache env (fetched env params s).metadata_cache params.mint_address own
  forget-IsOwnCache params s (throw e) own = own

  cache_after-IsOwnCache :
      (params : UpdateParams) (s : State) (source : MetadataSource) (reply : Result Error String)
      → IsOwnCache env (fetched env params s).metadata_cache
      → IsOwnCache env (cache_after env params s source reply)
  cache_after-IsOwnCache params s token_extensions reply own = own
  cache_after-IsOwnCache params s metaplex reply own = forget-IsOwnCache params s reply own
  cache_after-IsOwnCache params s no_source reply own = forget-IsOwnCache params s reply own

  updated-IsOwnCache :
      (params : UpdateParams) (s : State) (found : Option TokenMetadata)
      → IsOwnCache env (fetched env params s).metadata_cache
      → IsOwnCache env (updated env params s found).1.metadata_cache
  updated-IsOwnCache params s none own = own
  updated-IsOwnCache params s (some metadata) own =
      cache_after-IsOwnCache params s metadata.source _ own

  after_call-IsOwnCache :
      (call : Call) (s : State)
      → IsOwnCache env s.metadata_cache
      → IsOwnCache env (after_call call s).metadata_cache
  unfolding get_complete_metadata clear_cache
  after_call-IsOwnCache (get_token_metadata_call mint use_cache) s own =
      (get_token_metadata-IsOwnCache mint use_cache s own).1
  after_call-IsOwnCache (get_cached_metadata_call mint) s own =
      rw (after_call, get_cached_metadata_lem env mint s) own
  after_call-IsOwnCache (get_complete_metadata_call mint) s own =
      rw (after_call, (get_token_metadata_lem env mint s).0)
        (complete-IsOwnCache _ _
          (after_cache-IsOwnCache mint
            (cached_answer env mint (get s.metadata_cache (cache_key mint)) s.clock) s
            (cached_answer-IsAbout mint (get s.metadata_cache (cache_key mint)) s.clock (own mint))
            own).1)
  after_call-IsOwnCache (update_token_metadata_call params) s own =
      rw (after_call, update_token_metadata_request env params s)
        (updated-IsOwnCache params s (first_answer env params.mint_address s.clock).0 (
          remember-IsOwnCache env params.mint_address (first_answer env params.mint_address s.clock)
            s (first_answer-IsAbout env params.mint_address s.clock) own))
  after_call-IsOwnCache clear_cache_call s own = λ mint. rw (get-empty (cache_key mint)) tt

  after_calls-IsOwnCache :
      (calls : List Call) (s : State)
      → IsOwnCache env s.metadata_cache
      → IsOwnCache env (after_calls calls s).metadata_cache
  after_calls-IsOwnCache [] s own = own
  after_calls-IsOwnCache (call ∷ calls) s own =
      after_calls-IsOwnCache calls (after_call call s) (after_call-IsOwnCache call s own)

  -- From a client whose cache is empty, after any sequence of the methods, updates and clears
  -- included: metadata that getTokenMetadata gives for a mint, from the cache or from a source, is
  -- what a call has answered for that mint. Either the call was for the account at the address
  -- derived from the metadata program and the mint, and the metadata is what its decoded bytes map
  -- to, or it was for the mint's extension, and the metadata has its fields. The metadata of every
  -- entry of the cache is such for the mint of its key.
  pub get_token_metadata-IsAbout :
      (calls : List Call) (s : State) (mint : String) (use_cache : Bool)
      → s.metadata_cache ≡ []
      → (IsAbout env mint
          (found_in env mint (get_token_metadata env mint use_cache (after_calls calls s)).0))
        × IsOwnCache env
            (get_token_metadata env mint use_cache (after_calls calls s)).1.metadata_cache
  get_token_metadata-IsAbout calls s mint use_cache empty =
      get_token_metadata-IsOwnCache mint use_cache (after_calls calls s)
        (after_calls-IsOwnCache calls s (λ other. rw (empty, get-empty (cache_key other)) tt))
