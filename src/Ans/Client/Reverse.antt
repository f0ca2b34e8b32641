-- ===== src/Ans/Client/Reverse.antt =====
-- kit-plugin-ans-name-service/src/lib/ans.ts: the reverse cache through a sequence of the methods.
use solana_kit_plugins.Prelude.{ℕ, String, List, [], ◌∷◌, ◌≡◌, refl}
use solana_kit_plugins.Prelude.Map.{get-empty}
use solana_kit_plugins.Prelude.Result.{ok}
use solana_kit_plugins.Ans.Client.{
  Env, State, get_address_for_ans_name, get_ans_names_for_address, clear_cache, new_client, Error,
  resolve_of, use_cached, AnsCacheEntry, split, fetch_owner, get_domain_account_key, resolve_ans,
  fresh, truthy, not_an_address_or_domain, tick,
}
use solana_kit_plugins.Prelude.{ap, ◌∙◌, Bool-cases, inl, inr, Option, none, some, length, ltb}
use solana_kit_plugins.Prelude.Result.{Result, throw}
use solana_kit_plugins.Prelude.Map.{get}
use solana_kit_plugins.Prelude.Effect.{raise, continue, recover}
use solana_kit_plugins.Ans.Client.Forward.{asked-state, finish}

-- the public methods
pub data Call : Type 0 where
  resolve_call : (input : String) → Call
  names_call : (address : String) → Call
  clear_call : Call

module _ (env : Env) where
  keyed-reverse_cache :
      (domain : String) (key : Result Error String) (s : State)
      → (continue key (fetch_owner env domain) s).1.reverse_cache ≡ s.reverse_cache
  keyed-reverse_cache domain (ok key) s =
      ap (λ (t : State). t.reverse_cache)
        (asked-state env domain (env.account_info s.clock key) (tick s))
  keyed-reverse_cache domain (throw e) s = refl

  resolve_of-reverse_cache :
      (domain : String) (parts : List String) (s : State)
      → (resolve_of env domain parts s).1.reverse_cache ≡ s.reverse_cache
  resolve_of-reverse_cache domain [] s = refl
  resolve_of-reverse_cache domain (x ∷ []) s = refl
  resolve_of-reverse_cache domain (x ∷ y ∷ rest) s =
      keyed-reverse_cache domain (get_domain_account_key env x y) s

  connected-reverse_cache :
      (domain : String) (connected : Result Error Unit) (s : State)
      → (continue connected (λ _. resolve_of env domain (split domain)) s).1.reverse_cache
        ≡ s.reverse_cache
  connected-reverse_cache domain (ok _) s = resolve_of-reverse_cache domain (split domain) s
  connected-reverse_cache domain (throw e) s = refl

  finish-reverse_cache :
      (input : String) (r : Result Error String) (t : State)
      → (finish env input r t).1.reverse_cache ≡ t.reverse_cache
  finish-reverse_cache input (ok a) t = refl
  finish-reverse_cache input (throw e) t = refl

  use_cached-reverse_cache :
      (input : String) (cached : Option String) (s : State)
      → (use_cached env input cached s).1.reverse_cache ≡ s.reverse_cache
  use_cached-reverse_cache input (some a) s = refl
  use_cached-reverse_cache input none s =
      finish-reverse_cache input (resolve_ans env input s).0 (resolve_ans env input s).1
      ∙ connected-reverse_cache input env.connect s

  fresh-reverse_cache :
      (domain : String) (found : Option AnsCacheEntry) (s : State)
      → (fresh env domain found s).1.reverse_cache ≡ s.reverse_cache
  fresh-reverse_cache domain none s = refl
  fresh-reverse_cache domain (some cached) s =
      elim (Bool-cases (ltb cached.expires_at (env.now s.clock))) [
        | inl e ↦ rw e refl
        | inr e ↦ rw e refl
      ]

  looked_up-reverse_cache :
      (input : String) (r : Result Error (Option String)) (s : State)
      → (continue r (λ cached. use_cached env input (truthy cached)) s).1.reverse_cache
        ≡ s.reverse_cache
  looked_up-reverse_cache input (ok cached) s = use_cached-reverse_cache input (truthy cached) s
  looked_up-reverse_cache input (throw e) s = refl

  checked-reverse_cache :
      (input : String) (r : Result Error String) (s : State)
      → (recover r (λ e. raise (not_an_address_or_domain input)) s).1.reverse_cache
        ≡ s.reverse_cache
  checked-reverse_cache input (ok a) s = refl
  checked-reverse_cache input (throw e) s = refl

  get_address_for_ans_name-reverse_cache :
      (input : String) (s : State)
      → (get_address_for_ans_name env input s).1.reverse_cache ≡ s.reverse_cache
  unfolding get_address_for_ans_name
  get_address_for_ans_name-reverse_cache input s =
      elim (Bool-cases (ltb (length (split input)) 2)) [
        | inl e ↦ rw e (checked-reverse_cache input (env.to_address input) s)
        | inr e ↦ rw e (
            looked_up-reverse_cache input (fresh env input (get s.forward_cache input) s).0
              (fresh env input (get s.forward_cache input) s).1
            ∙ fresh-reverse_cache input (get s.forward_cache input) s)
      ]

  abbrev pub after_call : Call → State → State
  after_call (resolve_call input) s = (get_address_for_ans_name env input s).1
  after_call (names_call address) s = (get_ans_names_for_address env address s).1
  after_call clear_call s = (clear_cache env s).1

  abbrev pub after_calls : List Call → State → State
  after_calls [] s = s
  after_calls (call ∷ calls) s = after_calls calls (after_call call s)

  after_call-reverse_cache :
      (call : Call) (s : State) → s.reverse_cache ≡ [] → (after_call call s).reverse_cache ≡ []
  unfolding get_ans_names_for_address clear_cache
  after_call-reverse_cache (resolve_call input) s empty =
      get_address_for_ans_name-reverse_cache input s ∙ empty
  after_call-reverse_cache (names_call address) s empty = empty
  after_call-reverse_cache clear_call s empty = refl

  after_calls-reverse_cache :
      (calls : List Call) (s : State)
      → s.reverse_cache ≡ []
      → (after_calls calls s).reverse_cache ≡ []
  after_calls-reverse_cache [] s empty = empty
  after_calls-reverse_cache (call ∷ calls) s empty =
      after_calls-reverse_cache calls (after_call call s) (after_call-reverse_cache call s empty)

  -- After any sequence of a new client's methods, getANSNamesForAddress gives no names, for every
  -- address, those that a name has been resolved to included.
  pub get_ans_names_for_address-nil :
      (calls : List Call) (clock : ℕ) (address : String)
      → (get_ans_names_for_address env address (after_calls calls (new_client clock))).0 ≡ ok []
  unfolding get_ans_names_for_address
  get_ans_names_for_address-nil calls clock address =
      rw
        (
          after_calls-reverse_cache calls (new_client clock) refl,
          get-empty {V = List String} address,
        )
        refl
