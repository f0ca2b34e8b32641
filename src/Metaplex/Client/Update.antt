-- ===== src/Metaplex/Client/Update.antt =====
-- kit-plugin-metaplex/src/lib/metaplex-client.ts: what `updateTokenMetadata` sends, and its cache.
use solana_kit_plugins.Prelude.{ℕ, ◌+◌, String, Option, none, some, ◌≡◌, refl, ◌++◌, [], ◌∷◌}
use solana_kit_plugins.Prelude.Map.{Map, delete}
use solana_kit_plugins.Prelude.Result.{Result, ok, throw}
use solana_kit_plugins.Prelude.Effect.{continue}
use solana_kit_plugins.Connection.{text}
use solana_kit_plugins.Metaplex.{
  metadata_program_id, TokenMetadata, token_extensions, metaplex, no_source, MetadataSource,
  MetadataCacheEntry, List,
}
use solana_kit_plugins.Metaplex.Client.{
  Env, State, UpdateParams, Request, transaction, connection_update, or_else, update_token_metadata,
  cache_key, no_metadata_found, Error, require, update_by_source,
}
use solana_kit_plugins.Metaplex.Client.Answers.{first_answer}
use solana_kit_plugins.Metaplex.Client.Cache.{remember, get_token_metadata_lem}

-- a value that may be missing, or else another one
abbrev pub given : {A : Type 0} → Option A → A → A
given o otherwise = elim o [ none ↦ otherwise | some a ↦ a ]

or_else-given :
    {A : Type 0} (o : Option A) (otherwise : A) → or_else o otherwise ≡ given o otherwise
or_else-given none otherwise = refl
or_else-given (some a) otherwise = refl

module _ {Json : Type 0} (env : Env Json) (params : UpdateParams) (s : State) where
  abbrev pub answer : Option TokenMetadata × ℕ
  answer = first_answer env params.mint_address s.clock

  -- the state after the metadata was fetched
  abbrev pub fetched : State
  fetched = remember env params.mint_address answer s

  -- the one request of an update: of the Metaplex account with the merged data, or the
  -- connection's own for Token Extensions
  abbrev pub metaplex_request : TokenMetadata → Request
  metaplex_request metadata = transaction (record {
    metadata =
        env.pda metadata_program_id
          (text "metadata" ∷ text metadata_program_id ∷ text params.mint_address ∷ []);
    update_authority = params.update_authority;
    token_data = record {
      name = given params.name metadata.name;
      symbol = given params.symbol metadata.symbol;
      uri = given params.uri metadata.uri;
      seller_fee_basis_points = given metadata.seller_fee_basis_points 0;
      creators = metadata.creators;
      collection = metadata.collection;
      uses = none;
    };
  })

  abbrev pub request_for : TokenMetadata → MetadataSource → Request
  request_for metadata token_extensions = connection_update params
  request_for metadata metaplex = metaplex_request metadata
  request_for metadata no_source = metaplex_request metadata

  -- The Metaplex update forgets the mint's entry once the transaction is through.
  abbrev pub forget : Result Error String → Map MetadataCacheEntry
  forget (ok signature) = delete fetched.metadata_cache (cache_key params.mint_address)
  forget (throw e) = fetched.metadata_cache

  abbrev pub cache_after : MetadataSource → Result Error String → Map MetadataCacheEntry
  cache_after token_extensions reply = fetched.metadata_cache
  cache_after metaplex reply = forget reply
  cache_after no_source reply = forget reply

  abbrev pub updated_by : TokenMetadata → MetadataSource → Result Error String × State
  updated_by metadata source = (
    env.submit fetched.clock (request_for metadata source),
    record {
      clock = fetched.clock + 1;
      sent = s.sent ++ request_for metadata source ∷ [];
      metadata_cache = cache_after source (env.submit fetched.clock (request_for metadata source));
    },
  )

  abbrev pub updated : Option TokenMetadata → Result Error String × State
  updated none = (throw (no_metadata_found params.mint_address), fetched)
  updated (some metadata) = updated_by metadata metadata.source

  fetched-sent :
      (x : Option TokenMetadata × ℕ) → (remember env params.mint_address x s).sent ≡ s.sent
  fetched-sent (none, n) = refl
  fetched-sent (some metadata, n) = refl

  forget_lem :
      (reply : Result Error String) (sent : List Request)
      → continue reply
          (λ signature t. (
            ok signature,
            record t { metadata_cache = delete t.metadata_cache (cache_key params.mint_address) },
          ))
          (record fetched { clock = fetched.clock + 1; sent = sent })
        ≡ (reply, record { clock = fetched.clock + 1; sent = sent; metadata_cache = forget reply })
  forget_lem (ok signature) sent = refl
  forget_lem (throw e) sent = refl

  by_source :
      (metadata : TokenMetadata) (source : MetadataSource)
      → update_by_source env params metadata source fetched ≡ updated_by metadata source
  by_source metadata token_extensions = rw (fetched-sent answer) refl
  by_source metadata metaplex =
      rw
        (
          fetched-sent answer,
          or_else-given params.name metadata.name,
          or_else-given params.symbol metadata.symbol,
          or_else-given params.uri metadata.uri,
          or_else-given metadata.seller_fee_basis_points 0,
        )
        (forget_lem (env.submit fetched.clock (metaplex_request metadata)) _)
  by_source metadata no_source =
      rw
        (
          fetched-sent answer,
          or_else-given params.name metadata.name,
          or_else-given params.symbol metadata.symbol,
          or_else-given params.uri metadata.uri,
          or_else-given metadata.seller_fee_basis_points 0,
        )
        (forget_lem (env.submit fetched.clock (metaplex_request metadata)) _)

  -- An update asks the sources and not the cache. Without metadata it throws and sends nothing.
  -- With metadata it sends exactly one request: for Token Extensions the caller's parameters as they
  -- are, and otherwise the Metaplex instruction with the caller's name, symbol and URI where given
  -- and the fetched ones where not, the fetched royalty (0 if absent), creators and collection, and
  -- no uses; the result is the network's answer to it. The cache has what the fetch put there,
  -- without the mint's entry if a Metaplex update succeeded.
  pub update_token_metadata_request : update_token_metadata env params s ≡ updated answer.0
  unfolding update_token_metadata
  update_token_metadata_request =
      rw (get_token_metadata_lem env params.mint_address s).1 (by_answer answer.0)
    where
      by_answer :
          (found : Option TokenMetadata)
          → continue
              (require (no_metadata_found params.mint_address) found fetched).0
              (λ metadata. update_by_source env params metadata metadata.source)
              (require (no_metadata_found params.mint_address) found fetched).1
            ≡ updated found
      by_answer none = refl
      by_answer (some metadata) = by_source metadata metadata.source
