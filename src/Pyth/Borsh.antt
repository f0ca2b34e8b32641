-- ===== src/Pyth/Borsh.antt =====
-- kit-plugin-pyth/src/lib/pyth-client.ts: the Borsh encoding of the `postUpdateAtomic` arguments.
pub mod Layout
use solana_kit_plugins.Prelude.{ℕ, ◌+◌, ◌*◌, ◌%◌, List, [], ◌∷◌, length, replicate}
use solana_kit_plugins.Prelude.Result.{Result, ok, ◌>>=◌, require}
use solana_kit_plugins.Bytes.{Bytes, le_bytes, zeros, write, slice}
use solana_kit_plugins.Pyth.{Error, range_error, post_update_atomic_discriminator}

-- `result.set(bytes, offset)` on a `Uint8Array`
abbrev pub set_bytes : Bytes → Bytes → ℕ → Result Error Bytes
set_bytes result bytes offset = require range_error (write result bytes offset)

unfoldable pub borsh_encode_bytes : Bytes → Result Error Bytes
borsh_encode_bytes bytes = do
  let result = zeros (4 + length bytes)
  result ← set_bytes result (le_bytes 4 (length bytes)) 0
  set_bytes result bytes 4

-- the loop over the proofs
unfoldable pub set_proofs : List Bytes → Bytes → ℕ → Result Error Bytes
set_proofs [] result offset = ok result
set_proofs (proof ∷ proofs) result offset = do
  result ← set_bytes result (slice proof 0 20) offset
  set_proofs proofs result (offset + 20)

unfoldable pub borsh_encode_proof_vec : List Bytes → Result Error Bytes
borsh_encode_proof_vec proofs = do
  let result = zeros (4 + length proofs * 20)
  result ← set_bytes result (le_bytes 4 (length proofs)) 0
  set_proofs proofs result 4

-- `parts.reduce((sum, part) => sum + part.length, 0)`
unfoldable pub total_length : List Bytes → ℕ
total_length [] = 0
total_length (part ∷ parts) = length part + total_length parts

-- the loop over the parts
unfoldable pub set_parts : List Bytes → Bytes → ℕ → Result Error Bytes
set_parts [] result offset = ok result
set_parts (part ∷ parts) result offset = do
  result ← set_bytes result part offset
  set_parts parts result (offset + length part)

unfoldable pub build_post_update_atomic_data : Bytes → Bytes → List Bytes → ℕ → Result Error Bytes
build_post_update_atomic_data vaa message proof treasury_id = do
  vaa_bytes ← borsh_encode_bytes vaa
  message_bytes ← borsh_encode_bytes message
  proof_bytes ← borsh_encode_proof_vec proof
  let parts =
      post_update_atomic_discriminator
      ∷ vaa_bytes
      ∷ message_bytes
      ∷ proof_bytes
      ∷ ((treasury_id % 256) ∷ [])
      ∷ []
  set_parts parts (zeros (total_length parts)) 0
