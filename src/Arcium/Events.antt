-- ===== src/Arcium/Events.antt =====
-- kit-plugin-arcium/src/lib/events.ts: the parser of the events in a transaction's logs, and the
-- polls of awaitComputationFinalization. The network, the encoder of addresses, the decoder of
-- base64 and the discriminators, which are in arcium.json, are parameters.
pub mod Finalized
pub mod Awaited
mod Tests
use solana_kit_plugins.Prelude.{
  ℕ, zero, suc, ◌+◌, List, [], ◌∷◌, Option, none, some, Bool, true, false, ◌&&◌, leb, ◌==◌,
  if◌then◌else◌, length,
}
use Prim.Native.String
use Prim.Native.Char.{code}
use solana_kit_plugins.Prelude.Int.{ℤ}
use solana_kit_plugins.Prelude.Result.{Result, ok, throw}
use solana_kit_plugins.Prelude.Effect.{Exec, ◌>>=◌, pure, raise, catch}
use solana_kit_plugins.Bytes.{Bytes, slice}
use solana_kit_plugins.Arcium.{String, arcium_program_id}
use solana_kit_plugins.Arcium.Serialization.{serialize_le}

pub data Error : Type 0 where
  timed_out : (computation_offset : ℤ) → Error
  -- any error of a call to the network
  failure : (message : String) → Error

-- `log_messages` is `meta?.logMessages`
pub record Transaction : Type 0 where
  pub log_messages : Option (List String)

-- Each call to the network gets the number of the calls before it.
pub record Env : Type 0 where
  pub event_discriminator : String → Bytes
  pub encode_address : String → Bytes
  pub from_base64 : String → Bytes
  -- getSignaturesForAddress, with its limit
  pub signatures_for_address : ℕ → String → ℕ → Result Error (List String)
  -- getTransaction, with the commitment and the options of the call
  pub get_transaction : ℕ → String → Result Error (Option Transaction)

-- `waited` is the time of the pauses, in milliseconds
pub record State : Type 0 where
  pub clock : ℕ
  pub waited : ℕ

abbrev pub Run : Type 0 → Type 0
Run A = Exec State Error A

abbrev pub ask : {A : Type 0} → (ℕ → Result Error A) → Run A
ask reply s = (reply s.clock, record s { clock = s.clock + 1 })

-- setTimeoutPromise
abbrev pub pause : ℕ → Run (Unit {0})
pause interval s = (ok tt, record s { waited = s.waited + interval })

-- the text behind a prefix
abbrev pub strip : String → String → Option String
strip String.[] s = some s
strip (String.◌∷◌ c prefix) String.[] = none
strip (String.◌∷◌ c prefix) (String.◌∷◌ d s) = if code c == code d then strip prefix s else none

abbrev pub or_skip : Option String → Option String → Option String
or_skip none later = later
or_skip (some s) later = some s

-- the text behind the first place of a separator that is not empty
abbrev pub behind : String → String → Option String
behind separator String.[] = none
behind separator (String.◌∷◌ c s) = or_skip (strip separator (String.◌∷◌ c s)) (behind separator s)

abbrev pub keep_unless : Option String → String → String
keep_unless none s = s
keep_unless (some rest) s = String.[]

-- the text in front of it, the whole text if there is none
abbrev pub in_front : String → String → String
in_front separator String.[] = String.[]
in_front separator (String.◌∷◌ c s) =
    keep_unless (strip separator (String.◌∷◌ c s)) (String.◌∷◌ c (in_front separator s))

-- log.includes(separator)
abbrev pub includes_text : String → String → Bool
includes_text separator log = elim (behind separator log) [ none ↦ false | some rest ↦ true ]

-- log.split(separator)[1]
abbrev pub second_part : String → String → Option String
second_part separator log = elim (behind separator log) [
  | none ↦ none
  | some rest ↦ some (in_front separator rest)
]

-- `!base64Data`: an empty text is falsy too
abbrev pub filled : Option String → Option String
filled none = none
filled (some String.[]) = none
filled (some (String.◌∷◌ c s)) = some (String.◌∷◌ c s)

unfoldable pub equals : Bytes → Bytes → Bool
equals [] [] = true
equals [] (b ∷ bs) = false
equals (a ∷ rest) [] = false
equals (a ∷ rest) (b ∷ bs) = (a == b) && equals rest bs

-- the eight bytes that name an event
abbrev pub is_event : Bytes → Bytes → Bool
is_event discriminator payload = leb 8 (length payload) && equals (slice payload 0 8) discriminator

abbrev pub first_some : Option Bytes → Option Bytes → Option Bytes
first_some none later = later
first_some (some payload) later = some payload

-- the test of the bytes 8 to 16 and 16 to 48
abbrev pub is_computation : Bytes → Bytes → Bytes → Bool
is_computation offset_bytes mxe_program_id_bytes payload =
    leb 48 (length payload)
    && (equals (slice payload 8 16) offset_bytes
        && equals (slice payload 16 48) mxe_program_id_bytes)

abbrev pub log_lines : Transaction → List String
log_lines transaction = elim transaction.log_messages [ none ↦ [] | some logs ↦ logs ]

module _ (env : Env) where
  abbrev pub event_of_data : Option String → Bytes → Option Bytes
  event_of_data none discriminator = none
  event_of_data (some base64) discriminator =
      if is_event discriminator (env.from_base64 base64)
      then some (env.from_base64 base64)
      else none

  -- one turn of the loop over the lines
  unfoldable pub event_of_line : String → Bytes → Option Bytes
  event_of_line log discriminator =
      if includes_text "Program data:" log
      then event_of_data (filled (second_part "Program data: " log)) discriminator
      else none

  unfoldable pub parse_anchor_event_from_logs : List String → Bytes → Option Bytes
  parse_anchor_event_from_logs [] discriminator = none
  parse_anchor_event_from_logs (log ∷ logs) discriminator =
      first_some (event_of_line log discriminator) (parse_anchor_event_from_logs logs discriminator)

  abbrev pub has_computation : Bytes → Bytes → Option Bytes → Bool
  has_computation offset_bytes mxe_program_id_bytes none = false
  has_computation offset_bytes mxe_program_id_bytes (some payload) =
      is_computation offset_bytes mxe_program_id_bytes payload

  abbrev pub is_finalization : Bytes → Bytes → Option Transaction → Bool
  is_finalization offset_bytes mxe_program_id_bytes none = false
  is_finalization offset_bytes mxe_program_id_bytes (some transaction) =
      has_computation offset_bytes mxe_program_id_bytes (
        parse_anchor_event_from_logs (log_lines transaction)
          (env.event_discriminator "FinalizeComputationEvent"))

  -- the loop over the signatures; `none` is a loop that ends
  unfoldable pub scan : Bytes → Bytes → List String → Run (Option String)
  scan offset_bytes mxe_program_id_bytes [] = pure none
  scan offset_bytes mxe_program_id_bytes (signature ∷ signatures) = do
    transaction ← ask (λ n. env.get_transaction n signature)
    if is_finalization offset_bytes mxe_program_id_bytes transaction
        then pure (some signature)
        else scan offset_bytes mxe_program_id_bytes signatures

  abbrev pub pause_unless : Option String → Run (Option String)
  pause_unless (some signature) = pure (some signature)
  pause_unless none = do done ← pause 1000; pure none

  -- one attempt
  unfoldable pub poll : Bytes → Bytes → Run (Option String)
  poll offset_bytes mxe_program_id_bytes =
      catch
        (do
          signatures ← ask (λ n. env.signatures_for_address n arcium_program_id 10)
          found ← scan offset_bytes mxe_program_id_bytes signatures
          pause_unless found)
        (λ error. pause_unless none)

  abbrev pub return_or : Run String → Option String → Run String
  return_or later none = later
  return_or later (some signature) = pure signature

  -- the attempts that are left
  unfoldable pub attempts : ℤ → Bytes → Bytes → ℕ → Run String
  attempts computation_offset offset_bytes mxe_program_id_bytes zero =
      raise (timed_out computation_offset)
  attempts computation_offset offset_bytes mxe_program_id_bytes (suc left) = do
    found ← poll offset_bytes mxe_program_id_bytes
    return_or (attempts computation_offset offset_bytes mxe_program_id_bytes left) found

  unfoldable pub await_computation_finalization : ℤ → String → Run String
  await_computation_finalization computation_offset mxe_program_id =
      attempts computation_offset (serialize_le computation_offset 8)
        (env.encode_address mxe_program_id) 120
