-- ===== src/Ans/Client.antt =====
-- kit-plugin-ans-name-service/src/lib/ans.ts: `ANSClient`. SHA-256, the encodings, the derivation
-- and the check of addresses, the network and the clock are parameters.
pub mod Resolve
pub mod Forward
pub mod Reverse
use solana_kit_plugins.Prelude.{
  ℕ, ◌+◌, String, [], ◌∷◌, List, Option, none, some, Bool, ltb, ◌===◌, if◌then◌else◌, length,
}
use Prim.Native.String
use solana_kit_plugins.Prelude.Map.{Map, get, set, delete}
use solana_kit_plugins.Prelude.Result.{Result, ok, throw}
use solana_kit_plugins.Prelude.Effect.{Exec, ◌>>=◌, pure, raise, lift, gets, catch, require}
use solana_kit_plugins.Bytes.{Bytes, zeros, slice}
use solana_kit_plugins.Ans.{
  ans_program_id, hash_prefix, origin_tld, ans_owner_offset_start, ans_owner_offset_end,
  AnsCacheEntry, split,
}

pub data Error : Type 0 where
  invalid_domain_format : (domain : String) → Error
  not_an_address_or_domain : (input : String) → Error
  domain_not_found : (domain : String) → Error
  failed_to_resolve : (input : String) → Error → Error
  -- any error of a call to the network or of the libraries
  failure : String → Error

-- Each call out of the client, a reading of the clock included, gets the number of the calls
-- before it. `account_info` gives the base64 text of the account's data.
pub record Env : Type 0 where
  pub cache_time : ℕ
  -- connect(cluster), which may throw; the connection is behind `account_info`
  pub connect : Result Error (Unit {0})
  pub now : ℕ → ℕ
  pub sha256 : String → Bytes
  -- Buffer.from(text)
  pub utf8 : String → Bytes
  pub from_base64 : String → Bytes
  pub to_base58 : Bytes → String
  -- address(text): throws unless the text is an address
  pub to_address : String → Result Error String
  -- getProgramDerivedAddress, without the bump
  pub program_derived_address : String → List Bytes → Result Error String
  pub account_info : ℕ → String → Result Error (Option String)

pub record State : Type 0 where
  pub clock : ℕ
  pub forward_cache : Map AnsCacheEntry
  pub reverse_cache : Map (List String)

abbrev pub Run : Type 0 → Type 0
Run A = Exec State Error A

abbrev pub tick : State → State
tick s = record s { clock = s.clock + 1 }

abbrev pub ask : {A : Type 0} → (ℕ → Result Error A) → Run A
ask reply s = (reply s.clock, tick s)

abbrev pub modify_forward : (Map AnsCacheEntry → Map AnsCacheEntry) → Run (Unit {0})
modify_forward f s = (ok tt, record s { forward_cache = f s.forward_cache })

-- the constructor's state
abbrev pub new_client : ℕ → State
new_client clock = record { clock = clock; forward_cache = []; reverse_cache = [] }

abbrev pub and_then : {A B : Type 0} → Result Error A → (A → Result Error B) → Result Error B
and_then (ok a) f = f a
and_then (throw e) f = throw e

-- an empty text is falsy
abbrev pub truthy : Option String → Option String
truthy none = none
truthy (some a) = if a === "" then none else some a

module _ (env : Env) where
  abbrev pub get_hashed_name : String → Bytes
  get_hashed_name name = env.sha256 (String.◌++◌ hash_prefix name)

  -- the cached entry, unless it is past its time, when it is deleted
  abbrev pub fresh : String → Option AnsCacheEntry → Run (Option String)
  fresh domain none = pure none
  fresh domain (some cached) = do
    now ← ask (λ n. ok (env.now n))
    (if ltb cached.expires_at now
        then (do _ ← modify_forward (λ cache. delete cache domain); pure none)
        else pure (some cached.address))

  abbrev pub get_cached_address : String → Run (Option String)
  get_cached_address domain = do
    cached ← gets (λ s. get s.forward_cache domain)
    fresh domain cached

  abbrev pub set_cached_address : String → String → Run (Unit {0})
  set_cached_address domain resolved_address = do
    now ← ask (λ n. ok (env.now n))
    modify_forward (λ cache.
        set cache domain (record { address = resolved_address; expires_at = now + env.cache_time }))

  abbrev pub get_origin_name_account_key : Result Error String
  get_origin_name_account_key =
      env.program_derived_address ans_program_id
        (get_hashed_name origin_tld ∷ zeros 32 ∷ zeros 32 ∷ [])

  abbrev pub owner_of : String → Result Error String
  owner_of base64 =
      env.to_address
        (env.to_base58 (slice (env.from_base64 base64) ans_owner_offset_start ans_owner_offset_end))

  -- the account of the domain with the parts `domain_name` and `tld_name`
  unfoldable pub get_domain_account_key : String → String → Result Error String
  get_domain_account_key domain_name tld_name =
      and_then get_origin_name_account_key λ origin_name_account_key.
        and_then
          (env.program_derived_address ans_program_id (
            get_hashed_name (String.◌++◌ "." tld_name)
            ∷ zeros 32
            ∷ env.utf8 origin_name_account_key
            ∷ []))
          λ tld_parent_account_key.
            env.program_derived_address ans_program_id
              (get_hashed_name domain_name ∷ zeros 32 ∷ env.utf8 tld_parent_account_key ∷ [])

  abbrev pub fetch_owner : String → String → Run String
  fetch_owner domain domain_account_key = do
    account_info ← ask (λ n. env.account_info n domain_account_key)
    base64 ← require (domain_not_found domain) account_info
    lift (owner_of base64)

  abbrev pub resolve_parts : String → String → String → Run String
  resolve_parts domain domain_name tld_name = do
    domain_account_key ← lift (get_domain_account_key domain_name tld_name)
    fetch_owner domain domain_account_key

  abbrev pub resolve_of : String → List String → Run String
  resolve_of domain (domain_name ∷ tld_name ∷ rest) = resolve_parts domain domain_name tld_name
  resolve_of domain parts = raise (invalid_domain_format domain)

  abbrev pub resolve_ans : String → Run String
  resolve_ans domain = do _ ← lift env.connect; resolve_of domain (split domain)

  -- the part of getAddressForANSName after the look into the cache
  abbrev pub use_cached : String → Option String → Run String
  use_cached input (some cached) = pure cached
  use_cached input none =
      catch
        (do
          resolved_address ← resolve_ans input
          _ ← set_cached_address input resolved_address
          pure resolved_address)
        (λ error. raise (failed_to_resolve input error))

  unfoldable pub get_address_for_ans_name : String → Run String
  get_address_for_ans_name input =
      if ltb (length (split input)) 2
      then catch (lift (env.to_address input)) (λ error. raise (not_an_address_or_domain input))
      else (do cached ← get_cached_address input; use_cached input (truthy cached))

  abbrev pub or_empty : Option (List String) → List String
  or_empty none = []
  or_empty (some names) = names

  unfoldable pub get_ans_names_for_address : String → Run (List String)
  get_ans_names_for_address resolved_address =
      gets (λ s. or_empty (get s.reverse_cache resolved_address))

  unfoldable pub clear_cache : Run (Unit {0})
  clear_cache s = (ok tt, record s { forward_cache = []; reverse_cache = [] })
