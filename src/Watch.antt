-- ===== src/Watch.antt =====
-- The watchers of kit-plugin-pyth/src/lib/pyth-client.ts (`watchPythPriceFeed`) and
-- kit-plugin-jupiter-pricing/src/lib/plugin.ts (`watchTokenPrice`, `watchPortfolioValue`): a poll at
-- once and one at each tick of an interval, each of which tells a callback how it went. Polls may
-- overlap, and they may be answered in any order.
pub mod Stopped
mod Tests
use solana_kit_plugins.Prelude.{
  ℕ, zero, suc, ◌+◌, ◌-◌, String, List, [], ◌∷◌, ◌++◌, Option, none, some, Bool, true, false,
  if◌then◌else◌, length, take, ◌≡◌, refl, ap, arith, append-nil, append_assoc, ◌∙◌, sym,
}
use solana_kit_plugins.Prelude.Result.{Result, ok, throw}
use solana_kit_plugins.Prelude.Effect.{Exec, ◌>>=◌, catch, lift, raise, pure}

-- callback(error, null) and callback(null, value)
pub data Call (E A : Type 0) : Type 0 where
  error : E → Call E A
  value : A → Call E A

module _ {E A : Type 0} (callback : Call E A → Result E (Unit {0})) (missing : E) where
  -- a call of the callback, which is made whether or not the callback throws
  abbrev pub tell : Call E A → Exec (List (Call E A)) E (Unit {0})
  tell call calls = (callback call, calls ++ call ∷ [])

  abbrev pub deliver : Option A → Exec (List (Call E A)) E (Unit {0})
  deliver none = tell (error missing)
  deliver (some a) = tell (value a)

  -- The end of a poll, with the answer of its call to the service. An error that is thrown here is
  -- one of the callback in the catch clause, which nothing catches.
  unfoldable pub poll : Result E (Option A) → Exec (List (Call E A)) E (Unit {0})
  poll answer = catch (do found ← lift answer; deliver found) (λ thrown. tell (error thrown))

  -- the calls that a poll makes
  abbrev pub calls_of : Result E (Option A) → List (Call E A)
  unfolding poll
  calls_of answer = (poll answer []).1

pub record Watcher (E A : Type 0) : Type 0 where
  -- the interval is not cleared
  pub active : Bool
  -- the polls whose answer is still to come
  pub in_flight : ℕ
  pub calls : List (Call E A)

-- what happens to a watcher: its interval is due, a poll is answered, the function that
-- stops it is called
pub data Event (E A : Type 0) : Type 0 where
  tick : Event E A
  answer : Result E (Option A) → Event E A
  stop : Event E A

module _ {E A : Type 0} (callback : Call E A → Result E (Unit {0})) (missing : E) where
  -- `poll(); setInterval(poll, intervalMs)`
  abbrev pub watch : Watcher E A
  watch = record { active = true; in_flight = 1; calls = [] }

  abbrev pub finish : ℕ → Result E (Option A) → Watcher E A → Watcher E A
  finish zero r w = w
  finish (suc n) r w = record w { in_flight = n; calls = (poll callback missing r w.calls).1 }

  unfoldable pub step : Event E A → Watcher E A → Watcher E A
  step tick w = if w.active then record w { in_flight = w.in_flight + 1 } else w
  step (answer r) w = finish w.in_flight r w
  step stop w = record w { active = false }

  unfoldable pub run : List (Event E A) → Watcher E A → Watcher E A
  run [] w = w
  run (event ∷ events) w = run events (step event w)
