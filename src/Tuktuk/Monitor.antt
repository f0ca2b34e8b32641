-- ===== src/Tuktuk/Monitor.antt =====
-- kit-plugin-tuktuk-task-scheduler/src/lib/tuktuk-client.ts: `monitorTask`, as the sequence of the
-- runs of its interval, in the order in which their calls to the network come back.
use solana_kit_plugins.Prelude.{
  ℕ, ◌≤◌, ◌≡◌, refl, String, List, [], ◌∷◌, ◌++◌, Option, none, some, Bool, true, false, ltb,
  if◌then◌else◌, All, arith,
}
use solana_kit_plugins.Prelude.Result.{Result, ok, throw}
use solana_kit_plugins.Prelude.{◌∙◌}
use solana_kit_plugins.Prelude.{append-nil, ap, sym}
use mathlib.Core.Path.{Path}

-- one run: `Date.now() - startTime`, and whether the account is there, if the run asks
pub record Tick : Type 0 where
  pub elapsed : ℕ
  pub account : Result String Bool

-- how a run resolves the promise, if it does
unfoldable pub poll : ℕ → Tick → Option Bool
poll timeout_ms tick =
    if ltb timeout_ms tick.elapsed
    then some false
    else elim tick.account [ ok true ↦ none | ok false ↦ some true | throw e ↦ some true ]

-- the first run that resolves it decides; `none` is a promise that waits for further runs
unfoldable pub monitor_task : ℕ → List Tick → Option Bool
unfolding poll
monitor_task timeout_ms [] = none
monitor_task timeout_ms (tick ∷ ticks) = elim (poll timeout_ms tick) [
  | none ↦ monitor_task timeout_ms ticks
  | some result ↦ some result
]

-- the task's account is there, and the time is not over
abbrev pub IsPending : ℕ → Tick → Type 0
IsPending timeout_ms tick = (tick.elapsed ≤ timeout_ms) × (tick.account ≡ ok true)

poll-IsPending :
    (timeout_ms : ℕ) (tick : Tick) → IsPending timeout_ms tick → poll timeout_ms tick ≡ none
unfolding poll
poll-IsPending timeout_ms tick (in_time, there) =
    let e : ltb timeout_ms tick.elapsed ≡ false = ground arith in rw (e, there) refl

monitor_task-skip :
    (timeout_ms : ℕ) (pending ticks : List Tick)
    → All (IsPending timeout_ms) pending
    → monitor_task timeout_ms (pending ++ ticks) ≡ monitor_task timeout_ms ticks
unfolding monitor_task
monitor_task-skip timeout_ms [] ticks h = refl
monitor_task-skip timeout_ms (tick ∷ pending) ticks (h, hs) =
    rw (monitor_task, poll-IsPending timeout_ms tick h)
      (monitor_task-skip timeout_ms pending ticks hs)

decided :
    (late : Bool) (account : Result String Bool) (rest : Option Bool)
    → Path
        (Option Bool)
        (elim (if late
          then some false
          else elim account [ ok true ↦ none | ok false ↦ some true | throw e ↦ some true ]) [
            | none ↦ rest
            | some result ↦ some result
          ])
        (if late
          then some false
          else elim account [ ok there ↦ if there then rest else some true | throw e ↦ some true ])
decided true account rest = refl
decided false (ok true) rest = refl
decided false (ok false) rest = refl
decided false (throw e) rest = refl

-- Runs that find the task's account within the time resolve nothing, and the run after any number
-- of them decides: past the time the result is false; within it the result is true if the account
-- is gone, and also if the call to the network throws; and if the account is there, the decision is
-- left to the runs that follow.
pub monitor_task_first :
    (timeout_ms : ℕ) (pending : List Tick) (tick : Tick) (ticks : List Tick)
    → All (IsPending timeout_ms) pending
    → (monitor_task timeout_ms pending ≡ none)
      × (monitor_task timeout_ms (pending ++ tick ∷ ticks) ≡ (
          if ltb timeout_ms tick.elapsed then some false else elim tick.account [
            | ok there ↦ if there then monitor_task timeout_ms ticks else some true
            | throw e ↦ some true
          ]))
unfolding monitor_task poll
monitor_task_first timeout_ms pending tick ticks h = (
  sym (ap (monitor_task timeout_ms) (append-nil pending))
      ∙ monitor_task-skip timeout_ms pending [] h,
  monitor_task-skip timeout_ms pending (tick ∷ ticks) h
      ∙ decided (ltb timeout_ms tick.elapsed) tick.account (monitor_task timeout_ms ticks),
)
