-- ===== src/Pyth/Accumulator.antt =====
-- kit-plugin-pyth/src/lib/pyth-client.ts: the parser of Hermes' binary accumulator update.

pub mod Wire
pub mod RoundTrip
use solana_kit_plugins.Prelude.{
  ℕ, zero, suc, ◌+◌, List, [], ◌∷◌, String, length, Bool, get_or, leb, ◌==◌, ◌&&◌, if◌then◌else◌,
}
use solana_kit_plugins.Prelude.Map.{Map, set}
use solana_kit_plugins.Prelude.Result.{Result, ok, ◌>>=◌, ◌>>◌, guard, require}
use solana_kit_plugins.Bytes.{Bytes, field, be_value, slice, hex}
use solana_kit_plugins.Pyth.{
  Error, range_error, invalid_accumulator_magic, unsupported_accumulator_version,
  unsupported_accumulator_update_type, MerkleUpdate, AccumulatorUpdate, accumulator_update_magic,
  accumulator_update_type_wormhole_merkle, accumulator_price_message_type,
}

-- view.getUint8(o), view.getUint16(o, false) and view.getUint32(o, false)
abbrev pub get_uint_be : ℕ → Bytes → ℕ → Result Error ℕ
get_uint_be width view offset = do
  bytes ← require range_error (field width view offset)
  ok (be_value bytes)

-- the loop over `proofCount`: the proof, and the offset behind it
unfoldable pub read_proof : ℕ → Bytes → ℕ → List Bytes × ℕ
read_proof zero view offset = ([], offset)
read_proof (suc left) view offset =
    let (rest, end) = read_proof left view (offset + 20) in
    (slice view offset (offset + 20) ∷ rest, end)

-- `message[0] === ACCUMULATOR_PRICE_MESSAGE_TYPE` on a message of 33 bytes or more
abbrev pub is_price_message : Bytes → Bool
is_price_message message =
    leb 33 (length message) && (get_or message 0 256 == accumulator_price_message_type)

abbrev pub message_feed_id : Bytes → String
message_feed_id message = hex (slice message 1 33)

-- `updatesByFeedId.set(feedId, { message, proof })`, for a price message only
unfoldable pub add_update : Map MerkleUpdate → MerkleUpdate → Map MerkleUpdate
add_update updates update =
    if is_price_message update.message
    then set updates (message_feed_id update.message) update
    else updates

-- the loop over `numUpdates`
unfoldable pub read_updates : ℕ → Bytes → ℕ → Map MerkleUpdate → Result Error (Map MerkleUpdate)
read_updates zero view offset updates = ok updates
read_updates (suc left) view offset updates = do
  message_length ← get_uint_be 2 view offset
  let message = slice view (offset + 2) (offset + 2 + message_length)
  proof_count ← get_uint_be 1 view (offset + 2 + message_length)
  let (proof, end) = read_proof proof_count view (offset + 2 + message_length + 1)
  read_updates left view end (add_update updates (record { message = message; proof = proof }))

unfoldable pub parse_accumulator_update : Bytes → Result Error AccumulatorUpdate
parse_accumulator_update view = do
  magic ← get_uint_be 4 view 0
  guard (magic == accumulator_update_magic) (invalid_accumulator_magic magic)
  major_version ← get_uint_be 1 view 4
  guard (major_version == 1) (unsupported_accumulator_version major_version)
  trailing_header_size ← get_uint_be 1 view 6
  let offset = 7 + trailing_header_size
  update_type ← get_uint_be 1 view offset
  guard (update_type == accumulator_update_type_wormhole_merkle)
      (unsupported_accumulator_update_type update_type)
  vaa_length ← get_uint_be 2 view (offset + 1)
  let vaa = slice view (offset + 3) (offset + 3 + vaa_length)
  num_updates ← get_uint_be 1 view (offset + 3 + vaa_length)
  updates ← read_updates num_updates view (offset + 3 + vaa_length + 1) []
  ok (record { vaa = vaa; updates_by_feed_id = updates })
