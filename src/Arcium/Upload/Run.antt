-- ===== src/Arcium/Upload/Run.antt =====
-- kit-plugin-arcium/src/lib/upload-circuit.ts: `uploadToCircuitAcc` and `uploadCircuit`. What
-- `Promise.all` starts runs here one after the other, in the order in which it is started, and all of
-- it runs even if a part of it throws.
pub mod Completes
use solana_kit_plugins.Prelude.{
  ℕ, suc, ◌+◌, ◌*◌, String, List, [], ◌∷◌, ◌++◌, length, take, replicate,
}
use solana_kit_plugins.Prelude.Result.{Result, ok, throw}
use solana_kit_plugins.Prelude.Effect.{Exec, ◌>>=◌, pure, lift, together}
use solana_kit_plugins.Bytes.{Bytes, le_value}
use solana_kit_plugins.Connection.{Net, send}
use solana_kit_plugins.Arcium.{Instruction}
use solana_kit_plugins.Arcium.Plan.{account_parts, upload_chunks, resize_counts, ceil_div}
use solana_kit_plugins.Arcium.Upload.{
  Env, Error, build_init_raw_circuit_acc_instruction, build_embiggen_raw_circuit_acc_instruction,
  build_upload_circuit_instruction, build_finalize_comp_def_instruction,
}

abbrev pub Run : Type 0 → Type 0
Run A = Exec (Net Instruction) Error A

abbrev pub cons : String → List String → List String
cons signature signatures = signature ∷ signatures

abbrev pub append : List String → List String → List String
append xs ys = xs ++ ys

-- getComputationDefinitionAccountOffset, and its reading as a number
abbrev pub computation_definition_offset : Env → String → ℕ
computation_definition_offset env circuit_name = le_value (take 4 (env.sha256 circuit_name))

module _ (env : Env) (signer : String) (comp_def_offset : ℕ) (mxe_program_id : String) where
  module _ (raw_circuit_index : ℕ) where
    -- the loop over the resize transactions
    unfoldable pub send_resizes : List ℕ → Run (List String)
    send_resizes [] = pure []
    send_resizes (count ∷ counts) = do
      signature ← send env.submit (
          replicate count (
            build_embiggen_raw_circuit_acc_instruction env signer comp_def_offset mxe_program_id
              raw_circuit_index))
      signatures ← send_resizes counts
      pure (signature ∷ signatures)

    abbrev pub send_piece : Bytes × ℕ → Run String
    send_piece (slice, circuit_offset) = do
      instruction ← lift (
          build_upload_circuit_instruction env signer comp_def_offset mxe_program_id
            raw_circuit_index slice circuit_offset)
      send env.submit (instruction ∷ [])

    -- the upload transactions of one chunk
    unfoldable pub send_chunk : List (Bytes × ℕ) → Run (List String)
    send_chunk [] = pure []
    send_chunk (p ∷ ps) = together cons (send_piece p) (send_chunk ps)

    unfoldable pub send_chunks : List (List (Bytes × ℕ)) → Run (List String)
    send_chunks [] = pure []
    send_chunks (chunk ∷ chunks) = do
      chunk_signatures ← send_chunk chunk
      signatures ← send_chunks chunks
      pure (chunk_signatures ++ signatures)

    unfoldable pub upload_to_circuit_acc : ℕ → Bytes → Run (List String)
    upload_to_circuit_acc chunk_size raw_circuit_part = do
      init_signature ← send env.submit (
          build_init_raw_circuit_acc_instruction env signer comp_def_offset mxe_program_id
            raw_circuit_index
          ∷ [])
      resize_signatures ← send_resizes (resize_counts (length raw_circuit_part))
      upload_signatures ← send_chunks (
          upload_chunks (ceil_div (length raw_circuit_part) env.max_upload_per_tx_bytes)
            env.max_upload_per_tx_bytes chunk_size raw_circuit_part 0)
      pure (init_signature ∷ resize_signatures ++ upload_signatures)

  -- the parts from the account `i` on
  unfoldable pub upload_parts : ℕ → ℕ → List Bytes → Run (List String)
  upload_parts chunk_size i [] = pure []
  upload_parts chunk_size i (part ∷ parts) =
      together append (upload_to_circuit_acc i chunk_size part)
        (upload_parts chunk_size (suc i) parts)

  unfoldable pub upload_all : ℕ → Bytes → Run (List String)
  upload_all chunk_size raw_circuit = do
    signatures ← upload_parts chunk_size 0 (account_parts raw_circuit)
    finalize_signature ←
        send env.submit
          (build_finalize_comp_def_instruction env signer comp_def_offset mxe_program_id ∷ [])
    pure (signatures ++ finalize_signature ∷ [])

unfoldable pub upload_circuit : Env → String → String → String → Bytes → ℕ → Run (List String)
upload_circuit env signer circuit_name mxe_program_id raw_circuit chunk_size =
    upload_all env signer (computation_definition_offset env circuit_name) mxe_program_id chunk_size
      raw_circuit
