-- ===== src/Pyth/Accumulator/Wire.antt =====
-- kit-plugin-pyth/src/lib/pyth-client.ts: the updates of an accumulator update and the wire format
-- of one.
use solana_kit_plugins.Prelude.{
  ℕ, ◌+◌, ◌*◌, ◌<◌, ◌^◌, ◌≡◌, refl, ◌∙◌, ap, List, [], ◌∷◌, ◌++◌, append_assoc, length,
  length-append, All, arith,
}
use solana_kit_plugins.Prelude.Map.{Map}
use solana_kit_plugins.Prelude.Result.{ok}
use solana_kit_plugins.Bytes.{Bytes, be_bytes}
use solana_kit_plugins.Bytes.Laws.{
  field-skip, field-here, be_value-be_bytes, length-be_bytes, slice-append,
}
use solana_kit_plugins.Pyth.{MerkleUpdate}
use solana_kit_plugins.Pyth.Accumulator.{get_uint_be, read_proof, add_update, read_updates}
use mathlib.Core.List.{flatten, foldl}
use native.Mathlib.Nat.{add-zero}

-- A number in the format is read back at its place.
pub get_uint_be-be_bytes :
    (w n : ℕ) (view pre post : Bytes) (offset : ℕ)
    → view ≡ pre ++ (be_bytes w n ++ post)
    → offset ≡ length pre
    → n < 256 ^ w
    → get_uint_be w view offset ≡ ok n
get_uint_be-be_bytes w n view pre post offset e q h =
    rw
      (
        e,
        q,
        ← add-zero (length pre),
        field-skip w pre (be_bytes w n ++ post) (length pre) 0 refl,
        field-here w (be_bytes w n) post (length-be_bytes w n),
      )
      (ap ok (be_value-be_bytes w n h))

abbrev pub IsProof : List Bytes → Type 0
IsProof proof = All (λ node. length node ≡ 20) proof

pub read_proof-flatten :
    (proof : List Bytes) (view pre post : Bytes) (offset : ℕ)
    → view ≡ pre ++ (flatten proof ++ post)
    → offset ≡ length pre
    → IsProof proof
    → read_proof (length proof) view offset ≡ (proof, offset + length proof * 20)
unfolding read_proof flatten
read_proof-flatten [] view pre post offset e q h = ap (λ n. ([], n)) (omega arith)
read_proof-flatten (node ∷ proof) view pre post offset e q (h, hs) =
    rw
      (
        read_proof-flatten proof view (pre ++ node) post (offset + 20) (e ∙ simp append_assoc)
            (omega (arith, length-append pre node)) hs,
        slice-append view pre node (flatten proof ++ post) offset (offset + 20)
            (e ∙ simp append_assoc) q (omega arith),
      )
      (ap (λ n. (node ∷ proof, n)) (omega arith))

-- The wire format of one update: the message with its length, then the proof with its count.
abbrev pub wire_update : MerkleUpdate → Bytes
wire_update u =
    be_bytes 2 (length u.message) ++ (u.message ++ (be_bytes 1 (length u.proof) ++ flatten u.proof))

abbrev pub IsWire : MerkleUpdate → Type 0
IsWire u = (length u.message < 2 ^ 16) × (length u.proof < 256) × IsProof u.proof

pub length-flatten :
    (proof : List Bytes) → IsProof proof → length (flatten proof) ≡ length proof * 20
unfolding flatten
length-flatten [] h = refl
length-flatten (node ∷ proof) (h, hs) =
    omega (arith, length-append node (flatten proof), length-flatten proof hs)

abbrev pub wire_updates : List MerkleUpdate → Bytes
wire_updates [] = []
wire_updates (u ∷ us) = wire_update u ++ wire_updates us

-- where the parts of an update stand, from the offset of the update on
abbrev message_end : MerkleUpdate → ℕ → ℕ
message_end u offset = offset + 2 + length u.message

pub read_updates-wire :
    (us : List MerkleUpdate) (view pre post : Bytes) (offset : ℕ) (updates : Map MerkleUpdate)
    → view ≡ pre ++ (wire_updates us ++ post)
    → offset ≡ length pre
    → All IsWire us
    → read_updates (length us) view offset updates ≡ ok (foldl add_update updates us)
unfolding read_updates
read_updates-wire [] view pre post offset updates e q h = refl
read_updates-wire (u ∷ us) view pre post offset updates e q ((hm, hp, hn), hs) =
    let len : Bytes = be_bytes 2 (length u.message) in
    let count : Bytes = be_bytes 1 (length u.proof) in
    let len_two : length len ≡ 2 = length-be_bytes 2 (length u.message) in
    let count_one : length count ≡ 1 = length-be_bytes 1 (length u.proof) in
    let behind : Bytes = wire_updates us ++ post in
    rw
      (
        get_uint_be-be_bytes 2 (length u.message) view pre
            (u.message ++ (count ++ (flatten u.proof ++ behind))) offset (e ∙ simp append_assoc) q
            hm,
        slice-append view (pre ++ len) u.message (count ++ (flatten u.proof ++ behind)) (offset + 2)
            (message_end u offset) (e ∙ simp append_assoc) (omega (arith, length-append pre len))
            (omega arith),
        get_uint_be-be_bytes 1 (length u.proof) view (pre ++ (len ++ u.message))
            (flatten u.proof ++ behind) (message_end u offset) (e ∙ simp append_assoc)
            (omega (arith, length-append pre (len ++ u.message), length-append len u.message)) hp,
        read_proof-flatten u.proof view (pre ++ (len ++ (u.message ++ count))) behind
            (message_end u offset + 1) (e ∙ simp append_assoc)
            (omega (
              arith,
              length-append pre (len ++ (u.message ++ count)),
              length-append len (u.message ++ count),
              length-append u.message count,
            ))
            hn,
      )
      (read_updates-wire us view (pre ++ wire_update u) post
        (message_end u offset + 1 + length u.proof * 20) (add_update updates u)
        (e ∙ simp append_assoc)
        (omega (
          arith,
          length-append pre (wire_update u),
          length-append len (u.message ++ (count ++ flatten u.proof)),
          length-append u.message (count ++ flatten u.proof),
          length-append count (flatten u.proof),
          length-flatten u.proof hn,
        ))
        hs)
