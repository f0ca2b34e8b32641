-- ===== src/Jupiter/Plugin/Portfolio.antt =====
-- kit-plugin-jupiter-pricing/src/lib/plugin.ts: `getPortfolioBreakdown` and `getTopHoldings`.
use mathlib.Core.List.{Perm}
use solana_kit_plugins.Prelude.{
  ℕ, zero, ◌+◌, [], ◌∷◌, List, Option, none, some, false, ◌++◌, ◌≡◌, refl, ap, length, drop, All,
  arith, length-append, append_assoc, append-nil, ◌∙◌, sym,
}
use solana_kit_plugins.Prelude.Int.{ℤ, pos}
use solana_kit_plugins.Prelude.Number.{Number}
use solana_kit_plugins.Prelude.Map.{Map, get}
use solana_kit_plugins.Prelude.Sort.{
  IsOrder, IsSorted-cut, sort_by, sort_by-perm, sort_by-IsSorted, length-sort_by,
}
use solana_kit_plugins.Jupiter.{wrapped_sol_mint, TokenPriceInfo, PortfolioToken}
use solana_kit_plugins.Jupiter.Client.{Env}
use solana_kit_plugins.Jupiter.Plugin.{
  TokenAccount, Totals, sol_token, add_account, add_accounts, behind, breakdown_of, slice_to,
  sol_total, totals_of, negsuc, Bool,
}
use mathlib.Core.Path.{subst}
use solana_kit_plugins.Prelude.{suc, ◌≤◌, take-append-drop}

module _ (num : Number) (env : Env num.Float) where
  open num use {Float}

  -- the token of an account, if there is a price
  abbrev pub token_of : TokenAccount → Option (TokenPriceInfo Float) → List (PortfolioToken Float)
  token_of account none = []
  token_of account (some price) =
      record {
        mint = account.mint;
        symbol = price.symbol;
        balance = account.amount;
        decimals = account.decimals;
        price_usd = price.price_usd;
        value_usd =
            num.mul (num.quot (num.of_int account.amount) (num.pow10 (pos account.decimals)))
              price.price_usd;
      }
      ∷ []

  -- the SOL, if the balance is above zero and there is a price
  abbrev pub sol_of : ℤ → Option (TokenPriceInfo Float) → List (PortfolioToken Float)
  sol_of (negsuc n) price = []
  sol_of (pos zero) price = []
  sol_of (pos (suc n)) none = []
  sol_of (pos (suc n)) (some price) =
      record {
        mint = "So11111111111111111111111111111111111111112";
        symbol = "SOL";
        balance = pos (suc n);
        decimals = 9;
        price_usd = price.price_usd;
        value_usd =
            num.mul (num.quot (num.of_int (pos (suc n))) (num.of_int (pos 1000000000)))
              price.price_usd;
      }
      ∷ []

  sol_token-sol_of :
      (sol_balance : ℤ) (price : Option (TokenPriceInfo Float))
      → sol_token num env sol_balance price ≡ sol_of sol_balance price
  sol_token-sol_of (negsuc n) none = refl
  sol_token-sol_of (negsuc n) (some price) = ground arith
  sol_token-sol_of (pos zero) none = refl
  sol_token-sol_of (pos zero) (some price) = refl
  sol_token-sol_of (pos (suc n)) none = refl
  sol_token-sol_of (pos (suc n)) (some price) = ground arith

  -- the tokens of the accounts that have a price, in their order
  abbrev pub held : Map (TokenPriceInfo Float) → List TokenAccount → List (PortfolioToken Float)
  held price_map [] = []
  held price_map (account ∷ accounts) =
      token_of account (get price_map account.mint) ++ held price_map accounts

  -- the values added up from the left, from `acc` on
  abbrev pub sum_from : Float → List (PortfolioToken Float) → Float
  sum_from acc [] = acc
  sum_from acc (token ∷ tokens) = sum_from (num.add acc token.value_usd) tokens

  -- what a round adds to the totals
  abbrev IsSumOf : List (PortfolioToken Float) → ℕ → Totals Float → Totals Float → Type 0
  IsSumOf tokens count before after =
      (after.tokens ≡ before.tokens ++ tokens)
      × (after.total_value_usd ≡ sum_from before.total_value_usd tokens)
      × (length tokens + after.tokens_without_price ≡ before.tokens_without_price + count)

  add_account-IsSumOf :
      (account : TokenAccount) (price : Option (TokenPriceInfo Float)) (totals : Totals Float)
      → IsSumOf (token_of account price) 1 totals (add_account num env account price totals)
  add_account-IsSumOf account none totals = (sym (append-nil totals.tokens), refl, omega arith)
  add_account-IsSumOf account (some price) totals = (refl, refl, omega arith)

  sum_from-append :
      (acc : Float) (xs ys : List (PortfolioToken Float))
      → sum_from acc (xs ++ ys) ≡ sum_from (sum_from acc xs) ys
  sum_from-append acc [] ys = refl
  sum_from-append acc (x ∷ xs) ys = sum_from-append (num.add acc x.value_usd) xs ys

  IsSumOf-trans :
      (xs ys : List (PortfolioToken Float)) (m n k : ℕ) (a b c : Totals Float)
      → m + n ≡ k
      → IsSumOf xs m a b
      → IsSumOf ys n b c
      → IsSumOf (xs ++ ys) k a c
  IsSumOf-trans xs ys m n k a b c e (tokens, total, count) (tokens', total', count') = (
    tokens' ∙ ap (λ l. l ++ ys) tokens ∙ append_assoc a.tokens xs ys,
    total' ∙ ap (λ x. sum_from x ys) total ∙ sym (sum_from-append a.total_value_usd xs ys),
    omega (arith, length-append xs ys, count, count', e),
  )

  add_accounts-IsSumOf :
      (price_map : Map (TokenPriceInfo Float)) (accounts : List TokenAccount)
      (totals : Totals Float)
      → IsSumOf
          (held price_map accounts)
          (length accounts)
          totals
          (add_accounts num env price_map accounts totals)
  unfolding add_accounts
  add_accounts-IsSumOf price_map [] totals = (sym (append-nil totals.tokens), refl, omega arith)
  add_accounts-IsSumOf price_map (account ∷ accounts) totals =
      let next = add_account num env account (get price_map account.mint) totals in
      IsSumOf-trans (token_of account (get price_map account.mint)) (held price_map accounts) 1
        (length accounts) (suc (length accounts)) totals next
        (add_accounts num env price_map accounts next) (omega arith)
        (add_account-IsSumOf account (get price_map account.mint) totals)
        (add_accounts-IsSumOf price_map accounts next)

  -- the tokens that a breakdown lists, in the order in which they are found
  abbrev pub found :
      ℤ → List TokenAccount → Map (TokenPriceInfo Float) → List (PortfolioToken Float)
  found sol_balance accounts price_map =
      sol_of sol_balance (get price_map wrapped_sol_mint) ++ held price_map accounts

  sol_total_lem :
      (tokens : List (PortfolioToken Float))
      → length tokens ≤ 1
      → sol_total num env tokens ≡ sum_from (num.of_int (pos 0)) tokens
  sol_total_lem [] h = refl
  sol_total_lem (token ∷ []) h = refl
  sol_total_lem (token ∷ token' ∷ tokens) h = absurd (omega arith)

  length-sol_token :
      (sol_balance : ℤ) (price : Option (TokenPriceInfo Float))
      → length (sol_token num env sol_balance price) ≤ 1
  length-sol_token sol_balance none = omega arith
  length-sol_token sol_balance (some price) = ground arith

  totals_of_lem :
      (sol_balance : ℤ) (accounts : List TokenAccount) (price_map : Map (TokenPriceInfo Float))
      → let totals = totals_of num env sol_balance accounts price_map in
        (totals.tokens ≡ found sol_balance accounts price_map)
        × (totals.total_value_usd
            ≡ sum_from (num.of_int (pos 0)) (found sol_balance accounts price_map))
        × (length (held price_map accounts) + totals.tokens_without_price ≡ length accounts)
  totals_of_lem sol_balance accounts price_map =
      let tokens = sol_token num env sol_balance (get price_map wrapped_sol_mint) in
      let start : Totals Float = record {
        tokens = tokens;
        total_value_usd = sol_total num env tokens;
        tokens_without_price = 0;
      } in
      let (listed, total, count) = add_accounts-IsSumOf price_map accounts start in
      let e = sol_token-sol_of sol_balance (get price_map wrapped_sol_mint) in
      (
        listed ∙ ap (λ l. l ++ held price_map accounts) e,
        total
            ∙ ap (λ x. sum_from x (held price_map accounts))
                (sol_total_lem tokens
                  (length-sol_token sol_balance (get price_map wrapped_sol_mint)))
            ∙ sym (sum_from-append (num.of_int (pos 0)) tokens (held price_map accounts))
            ∙ ap (λ l. sum_from (num.of_int (pos 0)) (l ++ held price_map accounts)) e,
        omega (arith, count),
      )

  -- A breakdown lists the SOL, if it has a price and the balance is above zero, and each token
  -- account that has a price, each with its balance, its price and their product as its value, with nothing lost and nothing twice; its total is the sum of their values, added up in
  -- the order in which they are found; its count is the number of tokens, and with the number of
  -- tokens without a price it is the number of the accounts, and the SOL.
  pub breakdown_of_lem :
      (sol_balance : ℤ) (accounts : List TokenAccount) (price_map : Map (TokenPriceInfo Float))
      (fetched_at : ℕ)
      → let b = breakdown_of num env sol_balance accounts price_map fetched_at in
        Perm b.tokens (found sol_balance accounts price_map)
        × (b.total_value_usd ≡ sum_from (num.of_int (pos 0)) (found sol_balance accounts price_map))
        × (b.token_count ≡ length b.tokens)
        × (b.token_count + b.tokens_without_price
            ≡ length (sol_of sol_balance (get price_map wrapped_sol_mint)) + length accounts)
  unfolding breakdown_of
  breakdown_of_lem sol_balance accounts price_map fetched_at =
      let (listed, total, count) = totals_of_lem sol_balance accounts price_map in
      let tokens = (totals_of num env sol_balance accounts price_map).tokens in
      (
        subst (λ l. Perm (sort_by (behind num env) tokens) l) listed
            (sort_by-perm (behind num env) tokens),
        total,
        refl,
        omega (
          arith,
          length-sort_by (behind num env) tokens,
          ap length listed,
          length-append (sol_of sol_balance (get price_map wrapped_sol_mint))
              (held price_map accounts),
          count,
        ),
      )

  -- the other token is worth more: the difference is above zero
  abbrev pub is_worth_less : PortfolioToken Float → PortfolioToken Float → Bool
  is_worth_less token other = num.lt (num.of_int (pos 0)) (num.sub other.value_usd token.value_usd)

  -- If the sign of the difference of their values is an order on the tokens that are found, the
  -- first `limit` tokens of a breakdown are the top ones: none of the tokens that are left out is
  -- worth more than one of them.
  pub slice_to-breakdown_of :
      (P : PortfolioToken Float → Type 0) (sol_balance : ℤ) (accounts : List TokenAccount)
      (price_map : Map (TokenPriceInfo Float)) (fetched_at limit : ℕ)
      → IsOrder is_worth_less P
      → All P (found sol_balance accounts price_map)
      → let tokens = (breakdown_of num env sol_balance accounts price_map fetched_at).tokens in
        (slice_to (pos limit) tokens ++ drop limit tokens ≡ tokens)
        × All
            (λ top. All (λ other. is_worth_less top other ≡ false) (drop limit tokens))
            (slice_to (pos limit) tokens)
  unfolding breakdown_of
  slice_to-breakdown_of P sol_balance accounts price_map fetched_at limit order all =
      let tokens = (totals_of num env sol_balance accounts price_map).tokens in
      let (listed, total, count) = totals_of_lem sol_balance accounts price_map in
      (
        take-append-drop limit (sort_by (behind num env) tokens),
        IsSorted-cut (behind num env) limit (sort_by (behind num env) tokens)
            (sort_by-IsSorted (behind num env) P order tokens (subst (All P) (sym listed) all)),
      )
