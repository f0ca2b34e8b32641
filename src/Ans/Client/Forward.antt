-- ===== src/Ans/Client/Forward.antt =====
-- kit-plugin-ans-name-service/src/lib/ans.ts: `getAddressForANSName` and the forward cache.
use solana_kit_plugins.Prelude.{
  ◌+◌, ◌≤◌, String, Option, none, some, false, ltb, ◌≡◌, refl, if◌then◌else◌, ◌===◌, length, arith,
  ===_refl, Bool-cases, inl, inr,
}
use solana_kit_plugins.Prelude.Map.{get, set, delete, get-set}
use solana_kit_plugins.Prelude.Result.{Result, ok, throw}
use solana_kit_plugins.Prelude.Effect.{continue, raise, pure}
use solana_kit_plugins.Ans.{AnsCacheEntry, split, List, ◌∷◌}
use solana_kit_plugins.Ans.Client.{
  Env, State, Error, Run, tick, get_address_for_ans_name, use_cached, resolve_ans, resolve_of,
  failed_to_resolve, require, domain_not_found, lift, owner_of, fetch_owner, get_domain_account_key,
  set_cached_address,
}
use solana_kit_plugins.Prelude.Effect.{◌>>=◌}
use solana_kit_plugins.Prelude.{List, [], ◌∷◌}
use solana_kit_plugins.Prelude.Effect.{◌>>=◌, lift, require}
use solana_kit_plugins.Prelude.Effect.{catch}
use mathlib.Core.Path.{Path, ap, ◌∙◌}
use solana_kit_plugins.Prelude.Map.{set}
use solana_kit_plugins.Prelude.Result.{Result}
use solana_kit_plugins.Prelude.{arith}
use solana_kit_plugins.Prelude.Map.{get-set}

ok-injective : {x y : String} → Path (Result Error String) (ok x) (ok y) → x ≡ y
ok-injective e = ground arith

module _ (env : Env) where
  pub asked-state :
      (domain : String) (r : Result Error (Option String)) (t : State)
      → (continue r
          (λ account_info.
            require (domain_not_found domain) account_info >>= λ base64. lift (owner_of env base64))
          t).1
        ≡ t
  asked-state domain (ok none) t = refl
  asked-state domain (ok (some base64)) t = refl
  asked-state domain (throw e) t = refl

  keyed-state :
      (domain : String) (key : Result Error String) (s : State) {a : String}
      → (continue key (fetch_owner env domain) s).0 ≡ ok a
      → (continue key (fetch_owner env domain) s).1 ≡ tick s
  keyed-state domain (ok key) s e = asked-state domain (env.account_info s.clock key) (tick s)
  keyed-state domain (throw x) s e = absurd (ground arith)

  resolve_of-state :
      (domain : String) (parts : List String) (s : State) {a : String}
      → (resolve_of env domain parts s).0 ≡ ok a
      → (resolve_of env domain parts s).1 ≡ tick s
  resolve_of-state domain [] s e = absurd (ground arith)
  resolve_of-state domain (x ∷ []) s e = absurd (ground arith)
  resolve_of-state domain (x ∷ y ∷ rest) s e =
      keyed-state domain (get_domain_account_key env x y) s e

  connected-state :
      (domain : String) (connected : Result Error Unit) (s : State) {a : String}
      → (continue connected (λ _. resolve_of env domain (split domain)) s).0 ≡ ok a
      → (continue connected (λ _. resolve_of env domain (split domain)) s).1 ≡ tick s
  connected-state domain (ok _) s e = resolve_of-state domain (split domain) s e
  connected-state domain (throw x) s e = absurd (ground arith)

  abbrev pub resolved_entry : String → State → AnsCacheEntry
  resolved_entry a s = record { address = a; expires_at = env.now (s.clock + 1) + env.cache_time }

  -- the state after a resolution that succeeded
  abbrev pub after_resolve : String → String → State → State
  after_resolve input a s = record s {
    clock = s.clock + 1 + 1;
    forward_cache = set s.forward_cache input (resolved_entry a s);
  }

  -- the answer for a name that is in the cache
  pub get_address_for_ans_name-cached :
      (input : String) (s : State) (cached : AnsCacheEntry)
      → ltb (length (split input)) 2 ≡ false
      → get s.forward_cache input ≡ some cached
      → (cached.address === "") ≡ false
      → get_address_for_ans_name env input s ≡ (
          if ltb cached.expires_at (env.now s.clock)
          then use_cached env input none
              (record (tick s) { forward_cache = delete s.forward_cache input })
          else (ok cached.address, tick s))
  unfolding get_address_for_ans_name
  get_address_for_ans_name-cached input s cached dotted found nonempty =
      elim (Bool-cases (ltb cached.expires_at (env.now s.clock))) [
        | inl e ↦ rw (dotted, found, e) refl
        | inr e ↦ rw (dotted, found, e, nonempty) refl
      ]

  pub get_address_for_ans_name-uncached :
      (input : String) (s : State)
      → ltb (length (split input)) 2 ≡ false
      → get s.forward_cache input ≡ none
      → get_address_for_ans_name env input s ≡ use_cached env input none s
  unfolding get_address_for_ans_name
  get_address_for_ans_name-uncached input s dotted missing = rw (dotted, missing) refl

  -- the end of getAddressForANSName, after a resolution with the result `r`
  abbrev pub finish : String → Result Error String → Run String
  finish input r =
      catch
        (lift r >>= λ resolved. set_cached_address env input resolved >>= λ stored. pure resolved)
        (λ error. raise (failed_to_resolve input error))

  finish-ok :
      (input : String) (r : Result Error String) (t : State) {a : String}
      → (finish input r t).0 ≡ ok a
      → (r ≡ ok a)
        × ((finish input r t).1 ≡ record t {
          clock = t.clock + 1;
          forward_cache =
              set t.forward_cache input
                (record { address = a; expires_at = env.now t.clock + env.cache_time });
        })
  finish-ok input (ok b) t e = (
    e,
    ap
        (λ x. record t {
          clock = t.clock + 1;
          forward_cache =
              set t.forward_cache input
                (record { address = x; expires_at = env.now t.clock + env.cache_time });
        })
        (ok-injective e),
  )
  finish-ok input (throw x) t e = absurd (ground arith)

  use_cached-ok :
      (input : String) (s : State) {a : String}
      → (use_cached env input none s).0 ≡ ok a
      → (use_cached env input none s).1 ≡ after_resolve input a s
  use_cached-ok input s {a} e =
      let (resolved, stored) =
        finish-ok input (resolve_ans env input s).0 (resolve_ans env input s).1 e in
      stored
      ∙ ap
          (λ (t : State). record t {
            clock = t.clock + 1;
            forward_cache =
                set t.forward_cache input
                  (record { address = a; expires_at = env.now t.clock + env.cache_time });
          })
          (connected-state input env.connect s resolved)

  -- A dotted name that is not cached and resolves to an address is answered with that address in
  -- every later state with the cache as it was left, without a call to the network, as long as the
  -- clock is not past its reading at the resolution plus the cache time.
  pub get_address_for_ans_name-again :
      (input : String) (s later : State) (a : String)
      → ltb (length (split input)) 2 ≡ false
      → get s.forward_cache input ≡ none
      → (get_address_for_ans_name env input s).0 ≡ ok a
      → (a === "") ≡ false
      → later.forward_cache ≡ (get_address_for_ans_name env input s).1.forward_cache
      → env.now later.clock ≤ env.now (s.clock + 1) + env.cache_time
      → get_address_for_ans_name env input later ≡ (ok a, tick later)
  get_address_for_ans_name-again input s later a dotted missing resolved nonempty same in_time =
      rw
        (
          get_address_for_ans_name-cached input later (resolved_entry a s) dotted found nonempty,
          late,
        )
        refl
    where
      late : ltb (env.now (s.clock + 1) + env.cache_time) (env.now later.clock) ≡ false
      late = ground arith

      through : (use_cached env input none s).0 ≡ ok a
      through = rw⁻¹ (get_address_for_ans_name-uncached input s dotted missing) resolved

      found : get later.forward_cache input ≡ some (resolved_entry a s)
      found =
          rw
            (
              same,
              get_address_for_ans_name-uncached input s dotted missing,
              use_cached-ok input s through,
              get-set s.forward_cache input input (resolved_entry a s),
              ===_refl input,
            )
            refl
