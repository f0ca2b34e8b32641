-- ===== src/Watch/Tests.antt =====
-- Concrete runs of the watchers.
use mathlib.Core.List.{flatten}
use solana_kit_plugins.Prelude.{ℕ, String, List, [], ◌∷◌, ◌==◌, if◌then◌else◌, false, some, ◌≡◌}
use solana_kit_plugins.Prelude.Result.{Result, ok, throw}
use solana_kit_plugins.Watch.{Call, error, value, Event, tick, answer, stop, Watcher, run, watch}
use solana_kit_plugins.Watch.Stopped.{run-stop}

-- throws at the value 7
abbrev callback : Call String ℕ → Result String (Unit {0})
callback (error e) = ok tt
callback (value n) = if n == 7 then throw "seven" else ok tt

-- one poll at once, one at a tick, and the function that stops the watcher; a tick and three
-- answers come too late
abbrev events : List (Event String ℕ)
events = tick ∷ answer (ok (some 7)) ∷ answer (throw "offline") ∷ answer (ok (some 8)) ∷ []

abbrev busy : Watcher String ℕ
busy = record (watch callback "missing") { in_flight = 2 }

run-stop_example : run callback "missing" (stop ∷ events) busy ≡ record {
  active = false;
  in_flight = 0;
  calls = value 7 ∷ error "seven" ∷ error "offline" ∷ [];
}
unfolding flatten
run-stop_example = run-stop callback "missing" busy events
