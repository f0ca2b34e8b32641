-- ===== src/Ans/Plugin/Resolved.antt =====
-- kit-plugin-ans-name-service/src/lib/plugin.ts: what the methods do with a name or an address.
use solana_kit_plugins.Prelude.{
  String, Option, none, some, true, ltb, length, ◌≡◌, refl, ap, ◌∙◌, ◌⊎◌, inl, inr,
}
use solana_kit_plugins.Prelude.Result.{Result, ok, throw}
use solana_kit_plugins.Prelude.Effect.{continue}
use solana_kit_plugins.Ans.{split}
use solana_kit_plugins.Ans.Client.{Env, State, Run, Error, get_address_for_ans_name}
use solana_kit_plugins.Ans.Plugin.{
  TransferTokens, TransferSol, Types, Connection, Direct, call, enhanced,
  enhanced_watch_portfolio_value, enhanced_transfer_tokens, enhanced_transfer_sol, ans, if_there,
}

-- a call of the original after a resolution: with the address, from the state that the resolution
-- left; none if the resolution threw
abbrev pub after :
    {V : Type 0} → Result Error String → (String → Run V) → State → Result Error V × State
after (ok address) original t = original address t
after (throw e) original t = (throw e, t)

-- The name's resolution from state `s` has the result `r`, and leaves `t`.
module _ (name : String) (s : State) (r : Result Error String) (t : State) where
  -- a method that takes the name first, and may be missing
  abbrev pub FollowsAt :
      {A V : Type 0} → Option (String → A → Run V) → Option (String → A → Run V) → Type 0
  FollowsAt none none = Unit
  FollowsAt none (some g) = ⊥
  FollowsAt (some f) none = ⊥
  FollowsAt {A} (some f) (some g) = (a : A) → g name a s ≡ after r (λ address. f address a) t

  -- A method whose original returns at once, and the promise of the same.
  abbrev pub PromisesAt :
      {A V : Type 0} → Option (String → A → Direct V) → Option (String → A → Run V) → Type 0
  PromisesAt none none = Unit
  PromisesAt none (some g) = ⊥
  PromisesAt (some f) none = ⊥
  PromisesAt {A} (some f) (some g) =
      (a : A) → g name a s ≡ after r (λ address. call (f address a)) t

  module _ {Signer Signal : Type 0} where
    abbrev pub TransfersTokensTo :
        Option (TransferTokens Signer Signal → Run String)
        → Option (TransferTokens Signer Signal → Run String)
        → Type 0
    TransfersTokensTo none none = Unit
    TransfersTokensTo none (some g) = ⊥
    TransfersTokensTo (some f) none = ⊥
    TransfersTokensTo (some f) (some g) =
        (p : TransferTokens Signer Signal)
        → g (record p { destination = name }) s
          ≡ after r (λ address. f (record p { destination = address })) t

    abbrev pub TransfersSolTo :
        Option (TransferSol Signer Signal → Run String)
        → Option (TransferSol Signer Signal → Run String)
        → Type 0
    TransfersSolTo none none = Unit
    TransfersSolTo none (some g) = ⊥
    TransfersSolTo (some f) none = ⊥
    TransfersSolTo (some f) (some g) =
        (p : TransferSol Signer Signal)
        → g (record p { destination = name }) s
          ≡ after r (λ address. f (record p { destination = address })) t

  -- what the plugin's connection has in common with the original at the name
  abbrev pub IsResolvedAt :
      {types : Types}
      → Connection types (Direct types.Stop)
      → Connection types (Run types.Stop)
      → Type 0
  IsResolvedAt c d =
      FollowsAt (some c.get_lamport_balance) (some d.get_lamport_balance)
      × FollowsAt (some c.get_token_accounts) (some d.get_token_accounts)
      × TransfersTokensTo c.transfer_tokens d.transfer_tokens
      × TransfersSolTo c.transfer_sol d.transfer_sol
      × FollowsAt c.get_portfolio_value d.get_portfolio_value
      × FollowsAt c.get_portfolio_breakdown d.get_portfolio_breakdown
      × FollowsAt c.get_top_holdings d.get_top_holdings
      × PromisesAt c.watch_portfolio_value d.watch_portfolio_value

module _ (env : Env) (name : String) (s : State) (r : Result Error String) (t : State) where
  -- a text without a dot that is an address, which stands for itself and changes nothing
  abbrev pub IsAddress : Type 0
  IsAddress =
      (ltb (length (split name)) 2 ≡ true)
      × (env.to_address name ≡ ok name)
      × (r ≡ ok name)
      × (t ≡ s)

  -- what getAddressForANSName does with the name
  abbrev pub IsResolution : Type 0
  IsResolution = get_address_for_ans_name env name s ≡ (r, t)

  resolution : IsAddress ⊎ IsResolution → IsResolution
  unfolding get_address_for_ans_name
  resolution (inl (plain, valid, same, unchanged)) = rw (plain, valid, same, unchanged) refl
  resolution (inr e) = e

  continue-after :
      {V : Type 0} (f : String → Run V) (result : Result Error String) (u : State)
      → continue result f u ≡ after result f u
  continue-after f (ok address) u = refl
  continue-after f (throw e) u = refl

  bind-after :
      {V : Type 0} (f : String → Run V)
      → IsResolution
      → (let (result, u) = get_address_for_ans_name env name s in continue result f u) ≡ after r f t
  bind-after f h = ap (λ x. continue x.0 f x.1) h ∙ continue-after f r t

  enhanced-FollowsAt :
      {A V : Type 0} (method : Option (String → A → Run V))
      → IsResolution
      → FollowsAt name s r t method (if_there (enhanced env) method)
  unfolding enhanced
  enhanced-FollowsAt none h = tt
  enhanced-FollowsAt (some f) h = λ a. bind-after (λ address. f address a) h

  watch-PromisesAt :
      {A V : Type 0} (method : Option (String → A → Direct V))
      → IsResolution
      → PromisesAt name s r t method (if_there (enhanced_watch_portfolio_value env) method)
  unfolding enhanced_watch_portfolio_value
  watch-PromisesAt none h = tt
  watch-PromisesAt (some f) h = λ a. bind-after (λ address. call (f address a)) h

  module _ {Signer Signal : Type 0} where
    transfer_tokens-TransfersTokensTo :
        (method : Option (TransferTokens Signer Signal → Run String))
        → IsResolution
        → TransfersTokensTo name s r t method (if_there (enhanced_transfer_tokens env) method)
    unfolding enhanced_transfer_tokens
    transfer_tokens-TransfersTokensTo none h = tt
    transfer_tokens-TransfersTokensTo (some f) h =
        λ p. bind-after (λ address. f (record p { destination = address })) h

    transfer_sol-TransfersSolTo :
        (method : Option (TransferSol Signer Signal → Run String))
        → IsResolution
        → TransfersSolTo name s r t method (if_there (enhanced_transfer_sol env) method)
    unfolding enhanced_transfer_sol
    transfer_sol-TransfersSolTo none h = tt
    transfer_sol-TransfersSolTo (some f) h =
        λ p. bind-after (λ address. f (record p { destination = address })) h

  -- Of the eight methods that resolve a name, the plugin's connection has those that the original
  -- has. Let `r` and `t` be the result and the state of getAddressForANSName for the name, or, if
  -- the name is an address without a dot, that address and the state as it was. If `r` is an
  -- address, a method does with the name what the original does with the address, from `t`, and all
  -- its other parameters are as they were; if it is an error, the method throws it and the original
  -- is not called. Only watchPortfolioValue differs: the original returns the function that stops
  -- the watcher, and the plugin's a promise that runs the original and resolves to that function.
  pub ans-IsResolvedAt :
      {types : Types} (connection : Connection types (Direct types.Stop))
      → IsAddress ⊎ IsResolution
      → IsResolvedAt name s r t connection (ans env connection)
  unfolding ans
  ans-IsResolvedAt connection found =
      let h = resolution found in
      (
        enhanced-FollowsAt (some connection.get_lamport_balance) h,
        enhanced-FollowsAt (some connection.get_token_accounts) h,
        transfer_tokens-TransfersTokensTo connection.transfer_tokens h,
        transfer_sol-TransfersSolTo connection.transfer_sol h,
        enhanced-FollowsAt connection.get_portfolio_value h,
        enhanced-FollowsAt connection.get_portfolio_breakdown h,
        enhanced-FollowsAt connection.get_top_holdings h,
        watch-PromisesAt connection.watch_portfolio_value h,
      )
