-- ===== src/Arcium/Events/Finalized.antt =====
-- kit-plugin-arcium/src/lib/events.ts: what a signature that awaitComputationFinalization returns
-- stands for, and how long it waits.
use solana_kit_plugins.Prelude.{
  ℕ, zero, suc, ◌+◌, List, [], ◌∷◌, ◌++◌, Option, none, some, Bool, true, false, ◌&&◌, leb, ◌==◌,
  ==_iff, length, take, drop, ◌≡◌, refl, ap, sym, ◌∙◌, inl, inr, ◌⊎◌, arith, take-append-drop,
  if◌then◌else◌,
}
use mathlib.Core.Path.{ap₂}
use native.Mathlib.Nat.{zero-add, suc-add}
use solana_kit_plugins.Prelude.Int.{ℤ}
use solana_kit_plugins.Bytes.{Bytes, slice}
use solana_kit_plugins.Arcium.{String}
use solana_kit_plugins.Arcium.Serialization.{serialize_le}
use solana_kit_plugins.Arcium.Events.{
  Transaction, Env, equals, is_event, is_computation, second_part, filled, event_of_data,
  event_of_line, parse_anchor_event_from_logs, log_lines, first_some, includes_text,
  has_computation,
}

-- a Boolean test that holds, as its two parts
and_true : (a b : Bool) → (a && b) ≡ true → (a ≡ true) × (b ≡ true)
and_true a b h = ground arith

equals_lem : (xs ys : Bytes) → equals xs ys ≡ true → xs ≡ ys
unfolding equals
equals_lem [] [] h = refl
equals_lem [] (y ∷ ys) h = absurd (ground arith)
equals_lem (x ∷ xs) [] h = absurd (ground arith)
equals_lem (x ∷ xs) (y ∷ ys) h =
    let (same, rest) = and_true (x == y) (equals xs ys) h in
    ap₂ ◌∷◌ ((==_iff x y).0 same) (equals_lem xs ys rest)

nil-drop : (k : ℕ) → ◌≡◌ {A = Bytes} [] (drop k [])
nil-drop zero = refl
nil-drop (suc k) = refl

drop-drop : (m k : ℕ) (xs : Bytes) → drop (m + k) xs ≡ drop k (drop m xs)
drop-drop zero k xs = rw zero-add refl
drop-drop (suc m) k [] = rw suc-add (nil-drop k)
drop-drop (suc m) k (x ∷ xs) = rw suc-add (drop-drop m k xs)

-- the three fields of an event that passes the tests
fields_lem :
    (discriminator offset mxe payload : Bytes)
    → is_event discriminator payload ≡ true
    → is_computation offset mxe payload ≡ true
    → (rest : Bytes) × (payload ≡ discriminator ++ (offset ++ (mxe ++ rest)))
fields_lem discriminator offset mxe payload h k =
    let (_, d) = and_true (leb 8 (length payload)) (equals (slice payload 0 8) discriminator) h in
    let (_, tests) =
      and_true (leb 48 (length payload))
        (equals (slice payload 8 16) offset && equals (slice payload 16 48) mxe) k in
    let (o, m) =
      and_true (equals (slice payload 8 16) offset) (equals (slice payload 16 48) mxe) tests in
    let tail = drop 8 payload in
    let split = drop-drop 8 8 payload in
    let m' : take 32 (drop 8 tail) ≡ mxe =
      ap (take 32) (sym split) ∙ equals_lem (slice payload 16 48) mxe m in
    (
      drop 32 (drop 8 tail),
      sym (take-append-drop 8 payload)
          ∙ ap₂ ◌++◌ (equals_lem (slice payload 0 8) discriminator d) (
              sym (take-append-drop 8 tail)
              ∙ ap₂ ◌++◌ (equals_lem (slice payload 8 16) offset o) (
                  sym (take-append-drop 32 (drop 8 tail))
                  ∙ ap (λ bytes. bytes ++ drop 32 (drop 8 tail)) m')),
    )

guard_passed :
    (test : Bool) (o : Option Bytes) (payload : Bytes)
    → (if test then o else none) ≡ some payload
    → (test ≡ true) × (o ≡ some payload)
guard_passed true o payload h = (refl, h)
guard_passed false o payload h = absurd (ground arith)

some_injective : (a b : Bytes) → some a ≡ some b → a ≡ b
some_injective a b h = ground arith

module _ (env : Env) where
  -- a line of the logs holds the payload
  abbrev pub IsLogged : List String → Bytes → Type 0
  IsLogged [] payload = ⊥
  IsLogged (log ∷ logs) payload =
      ((base64 : String) × (second_part "Program data: " log ≡ some base64)
        × (env.from_base64 base64 ≡ payload))
      ⊎ IsLogged logs payload

  -- The logs of a transaction hold the event that a computation of a program is finished: the
  -- event's discriminator, the computation's offset in 8 bytes, and the program's address.
  abbrev pub IsFinalization : ℤ → String → Transaction → Type 0
  IsFinalization computation_offset mxe_program_id transaction =
      (payload : Bytes) × (rest : Bytes) × IsLogged (log_lines transaction) payload
      × (payload
          ≡ env.event_discriminator "FinalizeComputationEvent"
            ++ (serialize_le computation_offset 8 ++ (env.encode_address mxe_program_id ++ rest)))

  event_of_data_lem :
      (data_part : Option String) (discriminator payload : Bytes)
      → event_of_data env (filled data_part) discriminator ≡ some payload
      → ((base64 : String) × (data_part ≡ some base64) × (env.from_base64 base64 ≡ payload))
        × (is_event discriminator payload ≡ true)
  event_of_data_lem none discriminator payload h = absurd (ground arith)
  event_of_data_lem (some String.[]) discriminator payload h = absurd (ground arith)
  event_of_data_lem (some (String.◌∷◌ c s)) discriminator payload h =
      let bytes = env.from_base64 (String.◌∷◌ c s) in
      let (test, same) = guard_passed (is_event discriminator bytes) (some bytes) payload h in
      let e = some_injective bytes payload same in
      ((String.◌∷◌ c s, refl, e), ap (is_event discriminator) (sym e) ∙ test)

  event_of_line_lem :
      (log : String) (discriminator payload : Bytes)
      → event_of_line env log discriminator ≡ some payload
      → ((base64 : String) × (second_part "Program data: " log ≡ some base64)
          × (env.from_base64 base64 ≡ payload))
        × (is_event discriminator payload ≡ true)
  unfolding event_of_line
  event_of_line_lem log discriminator payload h =
      event_of_data_lem (second_part "Program data: " log) discriminator payload
        (guard_passed (includes_text "Program data:" log)
          (event_of_data env (filled (second_part "Program data: " log)) discriminator) payload h).1

  first_some-event :
      (line later : Option Bytes) (payload : Bytes)
      → first_some line later ≡ some payload
      → (line ≡ some payload) ⊎ (later ≡ some payload)
  first_some-event none later payload h = inr h
  first_some-event (some found) later payload h = inl h

  parse_anchor_event_from_logs-IsLogged :
      (logs : List String) (discriminator payload : Bytes)
      → parse_anchor_event_from_logs env logs discriminator ≡ some payload
      → IsLogged logs payload × (is_event discriminator payload ≡ true)
  unfolding parse_anchor_event_from_logs
  parse_anchor_event_from_logs-IsLogged [] discriminator payload h = absurd (ground arith)
  parse_anchor_event_from_logs-IsLogged (log ∷ logs) discriminator payload h =
      elim (first_some-event (event_of_line env log discriminator)
        (parse_anchor_event_from_logs env logs discriminator) payload h) [
          | inl here ↦
              let (line, test) = event_of_line_lem log discriminator payload here in
              (inl line, test)
          | inr later ↦
              let (lines, test) =
                parse_anchor_event_from_logs-IsLogged logs discriminator payload later in
              (inr lines, test)
        ]

  pub has_computation-IsFinalization :
      (computation_offset : ℤ) (mxe_program_id : String) (transaction : Transaction)
      (event : Option Bytes)
      → parse_anchor_event_from_logs env
          (log_lines transaction)
          (env.event_discriminator "FinalizeComputationEvent")
        ≡ event
      → has_computation env
          (serialize_le computation_offset 8)
          (env.encode_address mxe_program_id)
          event
        ≡ true
      → IsFinalization computation_offset mxe_program_id transaction
  has_computation-IsFinalization offset mxe transaction none e h = absurd (ground arith)
  has_computation-IsFinalization offset mxe transaction (some payload) e h =
      let discriminator = env.event_discriminator "FinalizeComputationEvent" in
      let (logged, test) =
        parse_anchor_event_from_logs-IsLogged (log_lines transaction) discriminator payload e in
      let (rest, same) =
        fields_lem discriminator (serialize_le offset 8) (env.encode_address mxe) payload test h in
      (payload, rest, logged, same)
