-- ===== src/Metaplex/Client/Ownership.antt =====
-- kit-plugin-metaplex/src/lib/metaplex-client.ts: which mint metadata and cache entries are about.
pub mod Calls
use solana_kit_plugins.Prelude.{
  ℕ, ◌+◌, String, Option, none, some, Bool, true, false, ◌≡◌, refl, ◌===◌, if◌then◌else◌,
  Bool-cases, inl, inr, ===_iff, ltb, arith,
}
use solana_kit_plugins.Prelude.Map.{Map, get, delete, get-delete, get-set, get-empty}
use solana_kit_plugins.Prelude.Result.{Result, ok, throw}
use solana_kit_plugins.Metaplex.{TokenMetadata, MetadataCacheEntry, List, MetadataSource}
use solana_kit_plugins.Metaplex.Client.{
  Env, State, UpdateParams, cache_key, Error, map_result, metadata_of_account, account_bytes,
  AccountData, ExtensionMetadata, truthy, map_option, to_token_metadata,
  get_metaplex_metadata_address, Response, fetch_metadata_json, complete, get_token_metadata,
  get_complete_metadata, read_response, tick, failed_to_get_complete, get_cached_metadata, ◌∷◌,
  clear_cache, failed_to_fetch, update_token_metadata,
}
use solana_kit_plugins.Metaplex.Deserialize.{Metadata, map_metadata_to_token_metadata}
use solana_kit_plugins.Metaplex.Client.Answers.{
  first_answer, metaplex_answer, extension_answer, first_of, answer_of,
}
use solana_kit_plugins.Metaplex.Client.Cache.{
  remember, after_cache, cached_answer, entry, get_token_metadata_lem, get_cached_metadata_lem,
}
use package.text.Mathlib.TextLemmas.{append_cancel_left}
use solana_kit_plugins.Prelude.{◌∙◌}
use solana_kit_plugins.Prelude.{ap}
use solana_kit_plugins.Prelude.Effect.{recover, raise, lift, continue, pure, continue-state}
use mathlib.Core.List.{[]}
use mathlib.Core.Path.{subst, sym}
use solana_kit_plugins.Metaplex.Client.Update.{
  fetched, updated, forget, cache_after, update_token_metadata_request,
}
use solana_kit_plugins.Metaplex.{token_extensions, metaplex, no_source}
use solana_kit_plugins.Metaplex.{metadata_program_id}
use solana_kit_plugins.Connection.{text, pair, string, raw}
use solana_kit_plugins.Prelude.{◌⊎◌}

module _ {Json : Type 0} (env : Env Json) (mint : String) where
  -- A call has answered with the account at the mint's address under the metadata program, and the
  -- metadata is what its decoded bytes give for the mint.
  abbrev pub IsOfAccount : TokenMetadata → Type 0
  IsOfAccount metadata =
      (n : ℕ) × (account : AccountData) × (on_chain : Metadata) × (env.account_info n (
          env.pda metadata_program_id (text "metadata" ∷ text metadata_program_id ∷ text mint ∷ []))
        ≡ ok (some account))
      × (env.decode_metadata (account_bytes env account) ≡ ok on_chain)
      × (metadata ≡ map_metadata_to_token_metadata on_chain mint)

  -- A call has answered with the mint's extension, and the metadata has its fields.
  abbrev pub IsOfExtension : TokenMetadata → Type 0
  IsOfExtension metadata =
      (n : ℕ) × (extension : ExtensionMetadata) × (env.extension_metadata n mint
        ≡ ok (some extension))
      × (metadata ≡ record {
        source = token_extensions;
        name = extension.name;
        symbol = extension.symbol;
        uri = extension.uri;
        seller_fee_basis_points = none;
        creators = none;
        collection = none;
        uses = none;
        update_authority = none;
        mint = mint;
        is_mutable = none;
        primary_sale_happened = none;
        additional_metadata = extension.additional_metadata;
      })

  abbrev pub IsFrom : TokenMetadata → Type 0
  IsFrom metadata = IsOfAccount metadata ⊎ IsOfExtension metadata

  -- metadata, if there is any, is what the network has answered for the mint
  abbrev pub IsAbout : Option TokenMetadata → Type 0
  IsAbout none = Unit
  IsAbout (some metadata) = IsFrom metadata

  abbrev pub IsEntryOf : Option MetadataCacheEntry → Type 0
  IsEntryOf none = Unit
  IsEntryOf (some cached) = IsFrom cached.metadata

abbrev pub IsOwnCache : {Json : Type 0} → Env Json → Map MetadataCacheEntry → Type 0
IsOwnCache env cache = (mint : String) → IsEntryOf env mint (get cache (cache_key mint))

unless_some :
    (test : Bool) (x a : AccountData) → (if test then none else some x) ≡ some a → some x ≡ some a
unless_some true x a e = absurd (ground arith)
unless_some false x a e = e

truthy-some :
    (account : Option AccountData) (a : AccountData) → truthy account ≡ some a → account ≡ some a
truthy-some none a e = absurd (ground arith)
truthy-some (some (pair base64 encoding)) a e = e
truthy-some (some (raw bytes)) a e = e
truthy-some (some (string base64)) a e = unless_some (base64 === "") (string base64) a e

module _ {Json : Type 0} (env : Env Json) (mint : String) where
  abbrev pub found_in : Result Error (Option TokenMetadata) → Option TokenMetadata
  found_in r = elim r [ ok found ↦ found | throw e ↦ none ]

  decoded-IsAbout :
      (n : ℕ) (account : AccountData) (r : Result Error Metadata)
      → env.account_info n (get_metaplex_metadata_address env mint) ≡ ok (some account)
      → env.decode_metadata (account_bytes env account) ≡ r
      → IsAbout env mint
          (found_in (map_result some (map_result (λ m. map_metadata_to_token_metadata m mint) r)))
  decoded-IsAbout n account (ok m) there decoded = inl (n, account, m, there, decoded, refl)
  decoded-IsAbout n account (throw e) there decoded = tt

  account-IsAbout :
      (n : ℕ) (account used : Option AccountData)
      → env.account_info n (get_metaplex_metadata_address env mint) ≡ ok account
      → truthy account ≡ used
      → IsAbout env mint (found_in (metadata_of_account env mint used))
  account-IsAbout n account none there e = tt
  account-IsAbout n account (some a) there e =
      decoded-IsAbout n a (env.decode_metadata (account_bytes env a))
        (there ∙ ap ok (truthy-some account a e)) refl

  metaplex-IsAbout :
      (n : ℕ) (r : Result Error (Option AccountData))
      → env.account_info n (get_metaplex_metadata_address env mint) ≡ r
      → IsAbout env mint (answer_of r (λ account. metadata_of_account env mint (truthy account)))
  metaplex-IsAbout n (ok account) e = account-IsAbout n account (truthy account) e refl
  metaplex-IsAbout n (throw x) e = tt

  extension-IsAbout :
      (n : ℕ) (r : Result Error (Option ExtensionMetadata))
      → env.extension_metadata n mint ≡ r
      → IsAbout env mint
          (answer_of r (λ metadata. ok (map_option (to_token_metadata env mint) metadata)))
  extension-IsAbout n (ok none) e = tt
  extension-IsAbout n (ok (some metadata)) e = inr (n, metadata, e, refl)
  extension-IsAbout n (throw x) e = tt

  first_of-IsAbout :
      (x y : Option TokenMetadata) (n : ℕ)
      → IsAbout env mint x
      → IsAbout env mint y
      → IsAbout env mint (first_of env mint x y n).0
  first_of-IsAbout (some metadata) y n hx hy = hx
  first_of-IsAbout none y n hx hy = hy

  if-IsAbout :
      (b : Bool) (x y : Option TokenMetadata × ℕ)
      → IsAbout env mint x.0
      → IsAbout env mint y.0
      → IsAbout env mint (if b then x else y).0
  if-IsAbout true x y hx hy = hx
  if-IsAbout false x y hx hy = hy

  metaplex_answer-IsAbout : (n : ℕ) → IsAbout env mint (metaplex_answer env mint n)
  metaplex_answer-IsAbout n =
      metaplex-IsAbout n (env.account_info n (get_metaplex_metadata_address env mint)) refl

  extension_answer-IsAbout : (n : ℕ) → IsAbout env mint (extension_answer env mint n)
  extension_answer-IsAbout n = extension-IsAbout n (env.extension_metadata n mint) refl

  pub first_answer-IsAbout : (n : ℕ) → IsAbout env mint (first_answer env mint n).0
  first_answer-IsAbout n =
      if-IsAbout env.prefer_metaplex _ _
        (first_of-IsAbout (metaplex_answer env mint n) (extension_answer env mint (n + 1)) n
          (metaplex_answer-IsAbout n) (extension_answer-IsAbout (n + 1)))
        (first_of-IsAbout (extension_answer env mint n) (metaplex_answer env mint (n + 1)) n
          (extension_answer-IsAbout n) (metaplex_answer-IsAbout (n + 1)))

  pub remember-IsOwnCache :
      (x : Option TokenMetadata × ℕ) (s : State)
      → IsAbout env mint x.0
      → IsOwnCache env s.metadata_cache
      → IsOwnCache env (remember env mint x s).metadata_cache
  remember-IsOwnCache (none, n) s about own other = own other
  remember-IsOwnCache (some metadata, n) s about own other =
      rw (get-set s.metadata_cache (cache_key mint) (cache_key other) (entry env mint metadata n))
        (elim (Bool-cases (cache_key mint === cache_key other)) [
          | inl e ↦ rw e (
              subst (λ m. IsFrom env m metadata)
                (append_cancel_left "metadata:" mint other
                  ((===_iff (cache_key mint) (cache_key other)).0 e))
                about)
          | inr e ↦ rw e (own other)
        ])

pub delete-IsOwnCache :
    {Json : Type 0} (env : Env Json) (cache : Map MetadataCacheEntry) (mint : String)
    → IsOwnCache env cache
    → IsOwnCache env (delete cache (cache_key mint))
delete-IsOwnCache env cache mint own other =
    rw (get-delete cache (cache_key mint) (cache_key other))
      (elim (Bool-cases (cache_key mint === cache_key other)) [
        | inl e ↦ rw e tt
        | inr e ↦ rw e (own other)
      ])
