-- ===== src/Pyth/Accumulator/RoundTrip.antt =====
-- kit-plugin-pyth/src/lib/pyth-client.ts: `parseAccumulatorUpdate` and the wire format that it reads.
use solana_kit_plugins.Prelude.{
  ℕ, ◌+◌, ◌<◌, ◌^◌, ◌≡◌, refl, List, [], ◌++◌, append_assoc, length, length-append, All, arith,
}
use solana_kit_plugins.Prelude.Result.{ok}
use solana_kit_plugins.Bytes.{Bytes, be_bytes}
use solana_kit_plugins.Bytes.Laws.{length-be_bytes, slice-append}
use solana_kit_plugins.Pyth.{MerkleUpdate, accumulator_update_magic}
use solana_kit_plugins.Pyth.Accumulator.{add_update, parse_accumulator_update}
use mathlib.Core.List.{foldl}
use solana_kit_plugins.Pyth.Accumulator.Wire.{
  wire_updates, IsWire, read_updates-wire, get_uint_be-be_bytes,
}

-- The wire format of a whole update: magic, version, trailing header, type, VAA, updates.
abbrev pub wire : ℕ → Bytes → Bytes → List MerkleUpdate → Bytes
wire minor trailing vaa us =
    be_bytes 4 accumulator_update_magic
    ++ (be_bytes 1 1
        ++ (be_bytes 1 minor
            ++ (be_bytes 1 (length trailing)
                ++ (trailing
                    ++ (be_bytes 1 0
                        ++ (be_bytes 2 (length vaa)
                            ++ (vaa ++ (be_bytes 1 (length us) ++ wire_updates us))))))))

-- Bytes behind a header of fixed width.
length-be_bytes-append :
    (w n : ℕ) (bytes : Bytes) → length (be_bytes w n ++ bytes) ≡ w + length bytes
length-be_bytes-append w n bytes =
    omega (arith, length-append (be_bytes w n) bytes, length-be_bytes w n)

-- The parts of a whole update, in the order of the format, and how far they reach.
module _ (minor : ℕ) (trailing vaa : Bytes) (us : List MerkleUpdate) (rest : Bytes) where
  abbrev view : Bytes
  view = wire minor trailing vaa us ++ rest

  abbrev magic : Bytes
  magic = be_bytes 4 accumulator_update_magic

  abbrev major : Bytes
  major = be_bytes 1 1

  abbrev min : Bytes
  min = be_bytes 1 minor

  abbrev size : Bytes
  size = be_bytes 1 (length trailing)

  abbrev kind : Bytes
  kind = be_bytes 1 0

  abbrev vaa_len : Bytes
  vaa_len = be_bytes 2 (length vaa)

  abbrev update_count : Bytes
  update_count = be_bytes 1 (length us)

  abbrev behind : Bytes
  behind = wire_updates us ++ rest

  abbrev head : Bytes
  head = magic ++ (major ++ min)

  abbrev to_type : Bytes
  to_type = head ++ (size ++ trailing)

  abbrev type_len : Bytes
  type_len = kind ++ vaa_len

  length-head : length head ≡ 6
  length-head = omega (
    arith,
    length-be_bytes-append 4 accumulator_update_magic (major ++ min),
    length-be_bytes-append 1 1 min,
    length-be_bytes 1 minor,
  )

  length-to_type : length to_type ≡ 7 + length trailing
  length-to_type = omega (
    arith,
    length-append head (size ++ trailing),
    length-be_bytes-append 1 (length trailing) trailing,
    length-head,
  )

  length-type_len : length type_len ≡ 3
  length-type_len =
      omega (arith, length-be_bytes-append 1 0 vaa_len, length-be_bytes 2 (length vaa))

  pub parse_accumulator_update-wire :
      length trailing < 256
      → length vaa < 2 ^ 16
      → length us < 256
      → All IsWire us
      → parse_accumulator_update (wire minor trailing vaa us ++ rest)
        ≡ ok (record { vaa = vaa; updates_by_feed_id = foldl add_update [] us })
  unfolding parse_accumulator_update
  parse_accumulator_update-wire ht hv hu hs =
      rw
        (
          get_uint_be-be_bytes 4 accumulator_update_magic view []
              (major
                ++ (min
                    ++ (size
                        ++ (trailing ++ (kind ++ (vaa_len ++ (vaa ++ (update_count ++ behind))))))))
              0 (simp append_assoc) refl (omega arith),
          get_uint_be-be_bytes 1 1 view magic
              (min
                ++ (size ++ (trailing ++ (kind ++ (vaa_len ++ (vaa ++ (update_count ++ behind)))))))
              4 (simp append_assoc) (rw length-be_bytes) (omega arith),
          get_uint_be-be_bytes 1 (length trailing) view head
              (trailing ++ (kind ++ (vaa_len ++ (vaa ++ (update_count ++ behind))))) 6
              (simp append_assoc) (omega (arith, length-head)) ht,
          get_uint_be-be_bytes 1 0 view to_type (vaa_len ++ (vaa ++ (update_count ++ behind)))
              (7 + length trailing) (simp append_assoc) (omega (arith, length-to_type))
              (omega arith),
          get_uint_be-be_bytes 2 (length vaa) view (to_type ++ kind)
              (vaa ++ (update_count ++ behind)) (7 + length trailing + 1) (simp append_assoc)
              (omega (arith, length-to_type, length-append to_type kind, length-be_bytes 1 0)) hv,
          slice-append view (to_type ++ type_len) vaa (update_count ++ behind)
              (7 + length trailing + 3) (7 + length trailing + 3 + length vaa) (simp append_assoc)
              (omega (arith, length-to_type, length-append to_type type_len, length-type_len)) refl,
          get_uint_be-be_bytes 1 (length us) view (to_type ++ (type_len ++ vaa)) behind
              (7 + length trailing + 3 + length vaa) (simp append_assoc)
              (omega (
                arith,
                length-to_type,
                length-append to_type (type_len ++ vaa),
                length-append type_len vaa,
                length-type_len,
              ))
              hu,
          read_updates-wire us view (to_type ++ (type_len ++ (vaa ++ update_count))) rest
              (7 + length trailing + 3 + length vaa + 1) [] (simp append_assoc)
              (omega (
                arith,
                length-to_type,
                length-append to_type (type_len ++ (vaa ++ update_count)),
                length-append type_len (vaa ++ update_count),
                length-append vaa update_count,
                length-be_bytes 1 (length us),
                length-type_len,
              ))
              hs,
        )
        refl
