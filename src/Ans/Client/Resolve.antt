-- ===== src/Ans/Client/Resolve.antt =====
-- kit-plugin-ans-name-service/src/lib/ans.ts: the seeds that `resolveANS` derives addresses from.
use solana_kit_plugins.Prelude.{
  ◌<◌, ◌≡◌, refl, String, List, [], ◌∷◌, none, ltb, length, false, arith,
}
use solana_kit_plugins.Prelude.Map.{get}
use solana_kit_plugins.Prelude.{ap, ◌∙◌}
use solana_kit_plugins.Prelude.Effect.{continue}
use solana_kit_plugins.Prelude.Result.{ok, throw}
use solana_kit_plugins.Bytes.{Bytes}
use solana_kit_plugins.Ans.{split}
use solana_kit_plugins.Ans.Client.{
  Env, State, Error, failed_to_resolve, get_address_for_ans_name, get_origin_name_account_key,
  resolve_of, resolve_ans, get_domain_account_key,
}
use solana_kit_plugins.Ans.Client.Forward.{get_address_for_ans_name-uncached}

module _ (env : Env) (e : Error) where
  get_domain_account_key-throw :
      (origin domain_name tld_name : String)
      → ((program : String) (a b c : Bytes)
          → 32 < length c
          → env.program_derived_address program (a ∷ b ∷ c ∷ []) ≡ throw e)
      → get_origin_name_account_key env ≡ ok origin
      → 32 < length (env.utf8 origin)
      → get_domain_account_key env domain_name tld_name ≡ throw e
  unfolding get_domain_account_key
  get_domain_account_key-throw origin domain_name tld_name limit derived long =
      rw (derived, limit _ _ _ (env.utf8 origin) long) refl

  resolve_of-throw :
      (domain : String) (parts : List String) (s : State)
      → ((domain_name tld_name : String)
          → get_domain_account_key env domain_name tld_name ≡ throw e)
      → ltb (length parts) 2 ≡ false
      → resolve_of env domain parts s ≡ (throw e, s)
  resolve_of-throw domain [] s h dotted = absurd (ground arith)
  resolve_of-throw domain (x ∷ []) s h dotted = absurd (ground arith)
  resolve_of-throw domain (x ∷ y ∷ rest) s h dotted = rw (h x y) refl

  resolve_ans-throw :
      (domain : String) (s : State)
      → env.connect ≡ ok tt
      → resolve_of env domain (split domain) s ≡ (throw e, s)
      → resolve_ans env domain s ≡ (throw e, s)
  resolve_ans-throw domain s connected refused =
      ap (λ c. continue c (λ _. resolve_of env domain (split domain)) s) connected ∙ refused

  -- The derivation of an address throws for a seed of more than 32 bytes. If a connection to the
  -- cluster can be made, and the account of the origin has an address whose text is longer than
  -- that, as base58 texts of 32 bytes mostly are, then every name with a dot that is not cached
  -- fails to resolve, with that error, no call to the network is made, and nothing is cached.
  pub get_address_for_ans_name-throw :
      (origin input : String) (s : State)
      → ((program : String) (a b c : Bytes)
          → 32 < length c
          → env.program_derived_address program (a ∷ b ∷ c ∷ []) ≡ throw e)
      → env.connect ≡ ok tt
      → get_origin_name_account_key env ≡ ok origin
      → 32 < length (env.utf8 origin)
      → ltb (length (split input)) 2 ≡ false
      → get s.forward_cache input ≡ none
      → get_address_for_ans_name env input s ≡ (throw (failed_to_resolve input e), s)
  get_address_for_ans_name-throw origin input s limit connected derived long dotted missing =
      rw
        (
          get_address_for_ans_name-uncached env input s dotted missing,
          resolve_ans-throw input s connected (
              resolve_of-throw input (split input) s
                (λ x y. get_domain_account_key-throw origin x y limit derived long) dotted),
        )
        refl
