-- ===== src/Watch/Stopped.antt =====
-- Watchers that have been stopped: what their callback still hears.
use mathlib.Core.List.{flatten}
use solana_kit_plugins.Prelude.{
  ℕ, zero, suc, ◌-◌, List, [], ◌∷◌, ◌++◌, Option, none, some, false, length, take, map, ◌≡◌, refl,
  ap, arith, append-nil, append_assoc, ◌∙◌, sym,
}
use solana_kit_plugins.Prelude.Result.{Result, ok, throw}
use solana_kit_plugins.Prelude.Effect.{recover}
use solana_kit_plugins.Watch.{
  Call, error, value, Watcher, Event, tick, answer, stop, poll, tell, finish, step, run,
}
use mathlib.Core.Path.{ap₂}
use solana_kit_plugins.Prelude.{append-nil, ◌∙◌, sym, refl}

module _ {E A : Type 0} (callback : Call E A → Result E (Unit {0})) (missing : E) where
  -- the call that an answer leads to
  abbrev pub first_call : Option A → Call E A
  first_call none = error missing
  first_call (some a) = value a

  -- and the one that follows if the callback throws
  abbrev pub second_call : Result E (Unit {0}) → List (Call E A)
  second_call (ok _) = []
  second_call (throw thrown) = error thrown ∷ []

  -- the calls of the callback for one answer
  abbrev pub heard : Result E (Option A) → List (Call E A)
  heard (ok found) = first_call found ∷ second_call (callback (first_call found))
  heard (throw e) = error e ∷ []

  recovered :
      (r : Result E (Unit {0})) (call : Call E A) (calls : List (Call E A))
      → (recover r (λ thrown. tell callback missing (error thrown)) (calls ++ call ∷ [])).1
        ≡ calls ++ (call ∷ second_call r)
  recovered (ok _) call calls = refl
  recovered (throw thrown) call calls = append_assoc calls (call ∷ []) (error thrown ∷ [])

  poll-heard :
      (r : Result E (Option A)) (calls : List (Call E A))
      → (poll callback missing r calls).1 ≡ calls ++ heard r
  unfolding poll
  poll-heard (ok none) calls = recovered (callback (error missing)) (error missing) calls
  poll-heard (ok (some a)) calls = recovered (callback (value a)) (value a) calls
  poll-heard (throw e) calls = refl

  -- the answers among the events
  abbrev pub answers : List (Event E A) → List (Result E (Option A))
  answers [] = []
  answers (tick ∷ events) = answers events
  answers (answer r ∷ events) = r ∷ answers events
  answers (stop ∷ events) = answers events

  abbrev pub stopped : ℕ → List (Call E A) → Watcher E A
  stopped n calls = record { active = false; in_flight = n; calls = calls }

  -- the watcher after the answers, once it is stopped
  abbrev pub settled : Watcher E A → List (Result E (Option A)) → Watcher E A
  settled w rs = record {
    active = false;
    in_flight = w.in_flight - length rs;
    calls = w.calls ++ flatten (map heard (take w.in_flight rs));
  }

  settle :
      (n : ℕ) (calls : List (Call E A)) (r : Result E (Option A)) (rs : List (Result E (Option A)))
      → settled (finish callback missing n r (stopped n calls)) rs
        ≡ settled (stopped n calls) (r ∷ rs)
  unfolding flatten
  settle zero calls r rs =
      let e : 0 - length rs ≡ 0 - suc (length rs) = omega arith in
      ap (λ k. stopped k (calls ++ [])) e
  settle (suc n) calls r rs =
      let e : n - length rs ≡ suc n - suc (length rs) = omega arith in
      let rest = flatten (map heard (take n rs)) in
      ap₂ stopped e (ap (λ l. l ++ rest) (poll-heard r calls) ∙ append_assoc calls (heard r) rest)

  nothing : (n : ℕ) → ◌≡◌ {A = List (Call E A)} (flatten (map heard (take n []))) []
  unfolding flatten
  nothing zero = refl
  nothing (suc n) = refl

  run-settled :
      (events : List (Event E A)) (n : ℕ) (calls : List (Call E A))
      → run callback missing events (stopped n calls) ≡ settled (stopped n calls) (answers events)
  unfolding run step flatten
  run-settled [] n calls =
      let e : n ≡ n - 0 = omega arith in
      ap₂ stopped e (sym (ap (λ l. calls ++ l) (nothing n) ∙ append-nil calls))
  run-settled (tick ∷ events) n calls = run-settled events n calls
  run-settled (stop ∷ events) n calls = run-settled events n calls
  run-settled (answer r ∷ events) zero calls =
      run-settled events zero calls ∙ settle zero calls r (answers events)
  run-settled (answer r ∷ events) (suc n) calls =
      run-settled events n (poll callback missing r calls).1
      ∙ settle (suc n) calls r (answers events)

  -- Whatever happens after a watcher is stopped, no tick starts a poll: the polls that were still to
  -- be answered call the callback as their answers come in, in the order of the answers, and all
  -- further answers are none of this watcher's. Each answer leads to one call, with the value or
  -- an error, and to a second one with what the callback throws in a first call for an answer that
  -- is not an error. When as many answers have come in as polls were out, no poll is out any more.
  pub run-stop :
      (w : Watcher E A) (events : List (Event E A))
      → run callback missing (stop ∷ events) w ≡ settled w (answers events)
  unfolding run step
  run-stop w events = run-settled events w.in_flight w.calls
