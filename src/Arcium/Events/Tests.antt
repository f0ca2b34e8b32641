-- ===== src/Arcium/Events/Tests.antt =====
-- Concrete runs of the parser of events, of the wait for one, and of the form of its offset.
use solana_kit_plugins.Prelude.{
  ◌==◌, ◌===◌, [], ◌∷◌, ◌++◌, none, some, replicate, if◌then◌else◌, ◌≡◌, refl, arith, length,
}
use solana_kit_plugins.Prelude.Int.{pos, negsuc}
use solana_kit_plugins.Prelude.Result.{ok, throw}
use solana_kit_plugins.Prelude.Hoare.{Ensures}
use solana_kit_plugins.Bytes.{Bytes}
use solana_kit_plugins.Arcium.Serialization.{deserialize_le, serialize_le}
use solana_kit_plugins.Arcium.Serialization.RoundTrip.{residue, deserialize_le-serialize_le}
use solana_kit_plugins.Arcium.Events.{
  Env, State, failure, second_part, await_computation_finalization, attempts, poll, scan,
  parse_anchor_event_from_logs, event_of_line, equals,
}
use solana_kit_plugins.Arcium.Events.Awaited.{
  Awaited, IsTimedOut, await_computation_finalization-IsFinalized,
}

-- -2 in two bytes
deserialize_le-serialize_le_example :
    (length (serialize_le (negsuc 1) 2) ≡ 2)
    × (deserialize_le (serialize_le (negsuc 1) 2) ≡ residue 2 (negsuc 1))
deserialize_le-serialize_le_example = deserialize_le-serialize_le (negsuc 1) 2 (omega arith)

serialize_le_test : serialize_le (negsuc 1) 2 ≡ 254 ∷ 255 ∷ []
unfolding serialize_le
serialize_le_test = refl

second_part_test : second_part "data: " "log data: ab data: cd" ≡ some "ab "
second_part_test = refl

-- the event of offset 1 and of a program whose address is 32 times the byte 9
abbrev event : Bytes
event = replicate 8 5 ++ (1 ∷ [] ++ (replicate 7 0 ++ replicate 32 9))

-- The first call throws, and the second attempt finds the event in the transaction "b".
abbrev network : Env
network = record {
  event_discriminator = λ name. replicate 8 5;
  encode_address = λ address. replicate 32 9;
  from_base64 = λ text. if text === "QQ==" then event else [];
  signatures_for_address =
      λ n address limit. if n == 0 then throw (failure "429") else ok ("a" ∷ "b" ∷ "c" ∷ []);
  get_transaction = λ n signature.
      if signature === "b"
      then ok (some (record { log_messages = some ("Program log: x" ∷ "Program data: QQ==" ∷ []) }))
      else ok none;
}

abbrev start : State
start = record { clock = 0; waited = 0 }

await_computation_finalization_test :
    await_computation_finalization network (pos 1) "mxe" start
    ≡ (ok "b", record { clock = 4; waited = 1000 })
unfolding await_computation_finalization attempts poll scan parse_anchor_event_from_logs
    event_of_line equals serialize_le
await_computation_finalization_test = refl

await_computation_finalization-IsFinalized_example :
    Ensures
      (Awaited network (pos 1) "mxe" 0 120000)
      (IsTimedOut network (pos 1) "mxe" 120000)
      (await_computation_finalization network (pos 1) "mxe" start)
await_computation_finalization-IsFinalized_example =
    await_computation_finalization-IsFinalized network (pos 1) "mxe" start
