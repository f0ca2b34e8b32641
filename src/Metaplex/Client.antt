-- ===== src/Metaplex/Client.antt =====
-- kit-plugin-metaplex/src/lib/metaplex-client.ts: `MetaplexClient`. The generated decoder, the
-- derivation of addresses, the network, `fetch` and the clock are parameters; the generated
-- instruction is the record of its input.
pub mod Answers
pub mod Cache
pub mod Ownership
pub mod Update
use solana_kit_plugins.Prelude.{
  ℕ, ◌+◌, String, [], ◌∷◌, List, Option, none, some, Bool, true, false, ltb, ◌++◌, ◌===◌,
  if◌then◌else◌,
}
use Prim.Native.String
use solana_kit_plugins.Prelude.Map.{Map, get, set, delete}
use solana_kit_plugins.Prelude.Result.{Result, ok, throw}
use solana_kit_plugins.Prelude.Effect.{Exec, ◌>>=◌, pure, raise, lift, gets, catch, require}
use solana_kit_plugins.Bytes.{Bytes}
use solana_kit_plugins.Connection.{Seed, text, AccountData, pair, string, raw}
use solana_kit_plugins.Metaplex.{
  metadata_program_id, MetadataSource, metaplex, token_extensions, no_source, Creator, Collection,
  TokenMetadata, MetadataCacheEntry,
}
use solana_kit_plugins.Metaplex.Deserialize.{
  OnChainUses, map_option, Metadata, map_metadata_to_token_metadata,
}

pub data Error : Type 0 where
  no_metadata_found : (mint : String) → Error
  http_error : (status : ℕ) → Error
  failed_to_fetch : (uri : String) → Error → Error
  failed_to_get_complete : Error → Error
  -- any error of a call to the network or of a decoder
  failure : String → Error

-- what the connection's getTokenMetadata finds
pub record ExtensionMetadata : Type 0 where
  pub name : String
  pub symbol : String
  pub uri : String
  pub additional_metadata : Option (Map String)

-- `DataV2Args`
pub record DataV2 : Type 0 where
  pub name : String
  pub symbol : String
  pub uri : String
  pub seller_fee_basis_points : ℕ
  pub creators : Option (List Creator)
  pub collection : Option Collection
  pub uses : Option OnChainUses

pub record UpdateMetadataAccountV2 : Type 0 where
  pub metadata : String
  pub update_authority : String
  pub token_data : DataV2

-- the parameter of updateTokenMetadata
pub record UpdateParams : Type 0 where
  pub mint_address : String
  pub update_authority : String
  pub name : Option String
  pub symbol : Option String
  pub uri : Option String
  pub additional_metadata : Option (Map String)

-- what goes out: a transaction with one instruction, or a call of the connection's own update
pub data Request : Type 0 where
  transaction : UpdateMetadataAccountV2 → Request
  connection_update : UpdateParams → Request

pub record Response (Json : Type 0) : Type 0 where
  pub is_ok : Bool
  pub status : ℕ
  pub json : Result Error Json

-- Each call out of the client, a reading of the clock included, gets the number of the calls
-- before it. `none` is a value that is not there.
pub record Env (Json : Type 0) : Type 0 where
  pub cache_time : ℕ
  pub prefer_metaplex : Bool
  pub now : ℕ → ℕ
  pub pda : String → List Seed → String
  pub from_base64 : String → Bytes
  pub decode_metadata : Bytes → Result Error Metadata
  pub account_info : ℕ → String → Result Error (Option AccountData)
  pub extension_metadata : ℕ → String → Result Error (Option ExtensionMetadata)
  pub fetch : ℕ → String → Result Error (Response Json)
  pub submit : ℕ → Request → Result Error String

pub record State : Type 0 where
  pub clock : ℕ
  pub sent : List Request
  pub metadata_cache : Map MetadataCacheEntry

abbrev pub tick : State → State
tick s = record s { clock = s.clock + 1 }

abbrev pub Run : Type 0 → Type 0
Run A = Exec State Error A

abbrev pub ask : {A : Type 0} → (ℕ → Result Error A) → Run A
ask reply s = (reply s.clock, tick s)

abbrev pub send : (ℕ → Request → Result Error String) → Request → Run String
send reply request s =
    (reply s.clock request, record s { clock = s.clock + 1; sent = s.sent ++ request ∷ [] })

abbrev pub modify : (Map MetadataCacheEntry → Map MetadataCacheEntry) → Run (Unit {0})
modify f s = (ok tt, record s { metadata_cache = f s.metadata_cache })

-- `metadata:${mintAddress}`
abbrev pub cache_key : String → String
cache_key mint = String.◌++◌ "metadata:" mint

abbrev pub map_result : {A B : Type 0} → (A → B) → Result Error A → Result Error B
map_result f (ok a) = ok (f a)
map_result f (throw e) = throw e

abbrev pub or_else : {A : Type 0} → Option A → A → A
or_else none d = d
or_else (some a) d = a

-- an empty text is falsy
abbrev pub truthy : Option AccountData → Option AccountData
truthy none = none
truthy (some (pair base64 encoding)) = some (pair base64 encoding)
truthy (some (string base64)) = if base64 === "" then none else some (string base64)
truthy (some (raw bytes)) = some (raw bytes)

module _ {Json : Type 0} (env : Env Json) where
  abbrev pub get_metaplex_metadata_address : String → String
  get_metaplex_metadata_address mint =
      env.pda metadata_program_id (text "metadata" ∷ text metadata_program_id ∷ text mint ∷ [])

  abbrev pub account_bytes : AccountData → Bytes
  account_bytes (pair base64 _) = env.from_base64 base64
  account_bytes (string base64) = env.from_base64 base64
  account_bytes (raw bytes) = bytes

  -- deserializeMetaplexMetadata
  abbrev pub deserialize_metaplex_metadata : Bytes → String → Result Error TokenMetadata
  deserialize_metaplex_metadata bytes mint =
      map_result (λ metadata. map_metadata_to_token_metadata metadata mint)
        (env.decode_metadata bytes)

  abbrev pub metadata_of_account : String → Option AccountData → Result Error (Option TokenMetadata)
  metadata_of_account mint none = ok none
  metadata_of_account mint (some account) =
      map_result some (deserialize_metaplex_metadata (account_bytes account) mint)

  unfoldable pub fetch_metaplex_metadata : String → Run (Option TokenMetadata)
  fetch_metaplex_metadata mint =
      catch
        (do
          account ← ask (λ n. env.account_info n (get_metaplex_metadata_address mint))
          lift (metadata_of_account mint (truthy account)))
        (λ error. pure none)

  abbrev pub to_token_metadata : String → ExtensionMetadata → TokenMetadata
  to_token_metadata mint metadata = record {
    source = token_extensions;
    name = metadata.name;
    symbol = metadata.symbol;
    uri = metadata.uri;
    seller_fee_basis_points = none;
    creators = none;
    collection = none;
    uses = none;
    update_authority = none;
    mint = mint;
    is_mutable = none;
    primary_sale_happened = none;
    additional_metadata = metadata.additional_metadata;
  }

  unfoldable pub fetch_token_extensions_metadata : String → Run (Option TokenMetadata)
  fetch_token_extensions_metadata mint =
      catch
        (do
          metadata ← ask (λ n. env.extension_metadata n mint)
          pure (map_option (to_token_metadata mint) metadata))
        (λ error. pure none)

  -- `cached && cached.expiresAt > Date.now()`: the clock is read if an entry is there
  abbrev pub live : Option MetadataCacheEntry → Run (Option TokenMetadata)
  live none = pure none
  live (some cached) = do
    now ← ask (λ n. ok (env.now n))
    pure (if ltb now cached.expires_at then some cached.metadata else none)

  unfoldable pub get_cached_metadata : String → Run (Option TokenMetadata)
  get_cached_metadata mint = do
    cached ← gets (λ s. get s.metadata_cache (cache_key mint))
    live cached

  -- the second source, asked only if the first has no metadata
  abbrev pub fall_back :
      Option TokenMetadata → Run (Option TokenMetadata) → Run (Option TokenMetadata)
  fall_back none second = second
  fall_back (some metadata) second = pure (some metadata)

  unfoldable pub fetch_preferred : String → Run (Option TokenMetadata)
  fetch_preferred mint =
      if env.prefer_metaplex
      then (do
        metadata ← fetch_metaplex_metadata mint
        fall_back metadata (fetch_token_extensions_metadata mint))
      else (do
        metadata ← fetch_token_extensions_metadata mint
        fall_back metadata (fetch_metaplex_metadata mint))

  -- `if (metadata) { this.metadataCache.set(…) }`, and the return
  abbrev pub store : String → Option TokenMetadata → Run (Option TokenMetadata)
  store mint none = pure none
  store mint (some metadata) = do
    now ← ask (λ n. ok (env.now n))
    _ ← modify (λ cache.
        set cache (cache_key mint)
          (record { metadata = metadata; expires_at = now + env.cache_time }))
    pure (some metadata)

  abbrev pub load : String → Option TokenMetadata → Run (Option TokenMetadata)
  load mint (some metadata) = pure (some metadata)
  load mint none = do metadata ← fetch_preferred mint; store mint metadata

  unfoldable pub get_token_metadata : String → Bool → Run (Option TokenMetadata)
  get_token_metadata mint use_cache = do
    cached ← if use_cache then get_cached_metadata mint else pure none
    load mint cached

  -- one answer of `fetch`
  abbrev pub read_response : Response Json → Result Error Json
  read_response response =
      if response.is_ok then response.json else throw (http_error response.status)

  unfoldable pub fetch_metadata_json : String → Run Json
  fetch_metadata_json uri =
      catch (do response ← ask (λ n. env.fetch n uri); lift (read_response response))
        (λ error. raise (failed_to_fetch uri error))

  abbrev pub complete : Option TokenMetadata → Run (Option (TokenMetadata × Json))
  complete none = pure none
  complete (some on_chain) =
      catch (do off_chain ← fetch_metadata_json on_chain.uri; pure (some (on_chain, off_chain)))
        (λ error. raise (failed_to_get_complete error))

  unfoldable pub get_complete_metadata : String → Run (Option (TokenMetadata × Json))
  get_complete_metadata mint = do on_chain ← get_token_metadata mint true; complete on_chain

  unfoldable pub validate_metadata_uri : String → Run Bool
  validate_metadata_uri uri =
      catch (do _ ← fetch_metadata_json uri; pure true) (λ error. pure false)

  -- the `dataV2` of updateTokenMetadata
  abbrev pub merged : UpdateParams → TokenMetadata → DataV2
  merged params existing = record {
    name = or_else params.name existing.name;
    symbol = or_else params.symbol existing.symbol;
    uri = or_else params.uri existing.uri;
    seller_fee_basis_points = or_else existing.seller_fee_basis_points 0;
    creators = existing.creators;
    collection = existing.collection;
    uses = none;
  }

  abbrev pub update_metaplex : UpdateParams → TokenMetadata → Run String
  update_metaplex params existing = do
    signature ← send env.submit (
        transaction (record {
          metadata = get_metaplex_metadata_address params.mint_address;
          update_authority = params.update_authority;
          token_data = merged params existing;
        }))
    _ ← modify (λ cache. delete cache (cache_key params.mint_address))
    pure signature

  abbrev pub update_by_source : UpdateParams → TokenMetadata → MetadataSource → Run String
  update_by_source params metadata token_extensions = send env.submit (connection_update params)
  update_by_source params metadata metaplex = update_metaplex params metadata
  update_by_source params metadata no_source = update_metaplex params metadata

  unfoldable pub update_token_metadata : UpdateParams → Run String
  update_token_metadata params = do
    found ← get_token_metadata params.mint_address false
    metadata ← require (no_metadata_found params.mint_address) found
    update_by_source params metadata metadata.source

  unfoldable pub clear_cache : Run (Unit {0})
  clear_cache = modify (λ cache. [])
