-- ===== src/Metaplex/Client/Cache.antt =====
-- kit-plugin-metaplex/src/lib/metaplex-client.ts: `getTokenMetadata` and its cache.
use solana_kit_plugins.Prelude.{
  ℕ, ◌+◌, String, Option, none, some, true, false, ltb, ◌≡◌, refl, if◌then◌else◌, ◌===◌, ◌≢◌,
}
use solana_kit_plugins.Prelude.Map.{Map, get, set, get-set}
use solana_kit_plugins.Prelude.Result.{Result, ok}
use solana_kit_plugins.Metaplex.{TokenMetadata, MetadataCacheEntry}
use solana_kit_plugins.Metaplex.Client.Answers.{first_answer, fetch_preferred_lem}
use solana_kit_plugins.Metaplex.Client.{
  Env, State, get_cached_metadata, get_token_metadata, cache_key, store, load, live, Error,
}
use solana_kit_plugins.Prelude.{Bool-cases, inl, inr, ap, sym, ◌∙◌, arith, ===_iff, ===_refl}
use text.Mathlib.TextLemmas.{append_cancel_left}
use mathlib.Core.Path.{Path}

module _ {Json : Type 0} (env : Env Json) (mint : String) where
  -- the entry that is stored for an answer, with the clock read at call `n`
  abbrev pub entry : TokenMetadata → ℕ → MetadataCacheEntry
  entry metadata n = record { metadata = metadata; expires_at = env.now n + env.cache_time }

  abbrev pub remember : Option TokenMetadata × ℕ → State → State
  remember (none, n) s = record s { clock = n }
  remember (some metadata, n) s = record s {
    clock = n + 1;
    metadata_cache = set s.metadata_cache (cache_key mint) (entry metadata n);
  }

  store_lem :
      (x : Option TokenMetadata × ℕ) (s : State)
      → store env mint x.0 (record s { clock = x.1 }) ≡ (ok x.0, remember x s)
  store_lem (none, n) s = refl
  store_lem (some metadata, n) s = refl

  pub load_lem :
      (s : State)
      → load env mint none s
        ≡ (ok (first_answer env mint s.clock).0, remember (first_answer env mint s.clock) s)
  load_lem s = rw (fetch_preferred_lem env mint s) (store_lem (first_answer env mint s.clock) s)

  -- what the cache has for the mint: the metadata of an entry that has not expired, and the number
  -- of the next call
  abbrev pub cached_answer : Option MetadataCacheEntry → ℕ → Option TokenMetadata × ℕ
  cached_answer none n = (none, n)
  cached_answer (some cached) n =
      (if ltb (env.now n) cached.expires_at then some cached.metadata else none, n + 1)

  live_lem :
      (found : Option MetadataCacheEntry) (s : State)
      → live env found s
        ≡ (ok (cached_answer found s.clock).0, record s { clock = (cached_answer found s.clock).1 })
  live_lem none s = refl
  live_lem (some cached) s = refl

  pub get_cached_metadata_lem :
      (s : State)
      → get_cached_metadata env mint s ≡ (
        ok (cached_answer (get s.metadata_cache (cache_key mint)) s.clock).0,
        record s { clock = (cached_answer (get s.metadata_cache (cache_key mint)) s.clock).1 },
      )
  unfolding get_cached_metadata
  get_cached_metadata_lem s = live_lem (get s.metadata_cache (cache_key mint)) s

  -- an answer of the cache, or else the sources' first one, remembered
  abbrev pub after_cache : Option TokenMetadata × ℕ → State → Option TokenMetadata × State
  after_cache (some metadata, n) s = (some metadata, record s { clock = n })
  after_cache (none, n) s =
      ((first_answer env mint n).0, remember (first_answer env mint n) (record s { clock = n }))

  load-after_cache :
      (x : Option TokenMetadata × ℕ) (s : State)
      → load env mint x.0 (record s { clock = x.1 }) ≡ (ok (after_cache x s).0, (after_cache x s).1)
  load-after_cache (some metadata, n) s = refl
  load-after_cache (none, n) s = load_lem (record s { clock = n })

  -- getTokenMetadata never throws. With `useCache` it gives the metadata of the mint's cache entry
  -- if that is there and does not expire at or before the present time, without a call to the
  -- network. Otherwise, and always without `useCache`, it gives the preferred source's answer, or
  -- the other source's if the preferred one has none or fails; an answer with metadata is stored
  -- under the mint's key with the present time plus the cache time, and otherwise the cache stays
  -- as it was. Nothing is sent.
  pub get_token_metadata_lem :
      (s : State)
      → (get_token_metadata env mint true s ≡ (
          let (answer, s') =
            after_cache (cached_answer (get s.metadata_cache (cache_key mint)) s.clock) s in
          (ok answer, s')))
        × (get_token_metadata env mint false s
            ≡ (ok (first_answer env mint s.clock).0, remember (first_answer env mint s.clock) s))
  unfolding get_token_metadata
  get_token_metadata_lem s = (
    rw (get_cached_metadata_lem s)
        (load-after_cache (cached_answer (get s.metadata_cache (cache_key mint)) s.clock) s),
    load_lem s,
  )

abbrev first : Result Error (Option TokenMetadata) × State → Result Error (Option TokenMetadata)
first r = r.0

abbrev cache_after : Result Error (Option TokenMetadata) × State → Map MetadataCacheEntry
cache_after r = r.1.metadata_cache

some_of :
    {x y : Option TokenMetadata} → Path (Result Error (Option TokenMetadata)) (ok x) (ok y) → x ≡ y
some_of e = ground arith

-- The entry of one mint is not the entry of another.
pub cache_key-ne :
    (mint other : String) → mint ≢ other → (cache_key mint === cache_key other) ≡ false
cache_key-ne mint other h = elim (Bool-cases (cache_key mint === cache_key other)) [
  | inl e ↦ absurd (
      h (
        append_cancel_left "metadata:" mint other
          ((===_iff (cache_key mint) (cache_key other)).0 e)))
  | inr e ↦ e
]

module _ {Json : Type 0} (env : Env Json) (mint : String) where
  remembered :
      (x : Option TokenMetadata × ℕ) (s later : State) (metadata : TokenMetadata)
      → x.0 ≡ some metadata
      → later.metadata_cache ≡ (remember env mint x s).metadata_cache
      → (get_cached_metadata env mint later).0
        ≡ ok (
            if ltb (env.now later.clock) (env.now x.1 + env.cache_time)
            then some metadata
            else none)
  remembered (none, n) s later metadata e same = absurd (ground arith)
  remembered (some found, n) s later metadata e same =
      rw
        (
          get_cached_metadata_lem env mint later,
          same,
          get-set s.metadata_cache (cache_key mint) (cache_key mint) (entry env mint found n),
          ===_refl (cache_key mint),
        )
        (ap (λ m. ok (if ltb (env.now later.clock) (env.now n + env.cache_time) then m else none))
          e)

  pub remember-others :
      (x : Option TokenMetadata × ℕ) (s : State) (other : String)
      → mint ≢ other
      → get (remember env mint x s).metadata_cache (cache_key other)
        ≡ get s.metadata_cache (cache_key other)
  remember-others (none, n) s other h = refl
  remember-others (some found, n) s other h =
      rw
        (
          get-set s.metadata_cache (cache_key mint) (cache_key other) (entry env mint found n),
          cache_key-ne mint other h,
        )
        refl

  -- What getTokenMetadata fetched without the cache, getCachedMetadata gives afterwards for the
  -- same mint, in every later state with the cache as it was left, as long as the clock is below
  -- the clock's reading right after the fetch plus the cache time, and nothing from then on. What
  -- the cache has for another mint did not change.
  pub get_cached_metadata-get_token_metadata :
      (s later : State) (metadata : TokenMetadata) (other : String)
      → (get_token_metadata env mint false s).0 ≡ ok (some metadata)
      → later.metadata_cache ≡ (get_token_metadata env mint false s).1.metadata_cache
      → mint ≢ other
      → ((get_cached_metadata env mint later).0
          ≡ ok (
              if ltb
                (env.now later.clock)
                (env.now (first_answer env mint s.clock).1 + env.cache_time)
              then some metadata
              else none))
        × (get later.metadata_cache (cache_key other) ≡ get s.metadata_cache (cache_key other))
  get_cached_metadata-get_token_metadata s later metadata other e same h = (
    remembered (first_answer env mint s.clock) s later metadata
        (some_of (sym (ap first (get_token_metadata_lem env mint s).1) ∙ e))
        (same ∙ ap cache_after (get_token_metadata_lem env mint s).1),
    ap (λ (m : Map MetadataCacheEntry). get m (cache_key other))
          (same ∙ ap cache_after (get_token_metadata_lem env mint s).1)
        ∙ remember-others (first_answer env mint s.clock) s other h,
  )
