-- ===== src/Arcium/Upload/Layout.antt =====
-- The data of an upload instruction, read as the program reads it: fields at fixed offsets.
use solana_kit_plugins.Prelude.{
  ℕ, ◌+◌, ◌-◌, ◌≤◌, ◌<◌, ◌^◌, ◌≡◌, refl, ap, ◌∙◌, String, ◌++◌, length, length-append, arith, some,
  append_assoc,
}
use solana_kit_plugins.Bytes.{Bytes, le_bytes, le_value, field, zeros, slice}
use solana_kit_plugins.Bytes.Laws.{
  field-skip, field-here, length-le_bytes, le_value-le_bytes, slice-append,
}
use solana_kit_plugins.Prelude.Result.{ok}
use solana_kit_plugins.Arcium.{Instruction, arcium_program_id}
use solana_kit_plugins.Arcium.Upload.{Env, build_upload_circuit_instruction, upload_payload}
use solana_kit_plugins.Bytes.Laws.{length-zeros}
use solana_kit_plugins.Prelude.{sym, append-nil, [], false, ltb}
use solana_kit_plugins.Arcium.Upload.{
  instruction_header, index_bytes, padded_data, raw_circuit_accounts,
}

-- A field at the end of the bytes.
field-append_end :
    (w n : ℕ) (xs ys : Bytes) → length xs ≡ n → length ys ≡ w → field w (xs ++ ys) n ≡ some ys
field-append_end w n xs ys hx hy =
    ap (field w (xs ++ ys)) (omega arith)
    ∙ field-skip w xs ys n 0 hx
    ∙ ap (λ (bytes : Bytes). field w bytes 0) (sym (append-nil ys))
    ∙ field-here w ys [] hy

module _ (env : Env) (comp_def_offset : ℕ) (mxe_program_id : String) (raw_circuit_index : ℕ)
    (upload_data : Bytes) (offset : ℕ) where
  -- what stands in front of the data
  abbrev front : Bytes
  front =
      instruction_header env "upload_circuit" comp_def_offset mxe_program_id
      ++ index_bytes raw_circuit_index

  abbrev payload : Bytes
  payload = upload_payload env comp_def_offset mxe_program_id raw_circuit_index upload_data offset

  module _ (hd : length (env.discriminator "upload_circuit") ≡ 8)
      (ha : length (env.encode_address mxe_program_id) ≡ 32) where
    length-front : length front ≡ 45
    length-front = omega (
      arith,
      hd,
      ha,
      length-append (instruction_header env "upload_circuit" comp_def_offset mxe_program_id)
          (index_bytes raw_circuit_index),
      length-append (env.discriminator "upload_circuit")
          (le_bytes 4 comp_def_offset ++ env.encode_address mxe_program_id),
      length-append (le_bytes 4 comp_def_offset) (env.encode_address mxe_program_id),
      length-le_bytes 4 comp_def_offset,
    )

    slice-payload : slice payload 45 (45 + length upload_data) ≡ upload_data
    slice-payload =
        slice-append payload front upload_data
          (zeros (env.max_upload_per_tx_bytes - length upload_data) ++ le_bytes 4 offset) 45
          (45 + length upload_data) (simp append_assoc) (omega (arith, length-front)) refl

    module _ (hu : length upload_data ≤ env.max_upload_per_tx_bytes) where
      length-padded :
          length (front ++ padded_data env upload_data) ≡ 45 + env.max_upload_per_tx_bytes
      length-padded = omega (
        arith,
        hu,
        length-front,
        length-append front (padded_data env upload_data),
        length-append upload_data (zeros (env.max_upload_per_tx_bytes - length upload_data)),
        length-zeros (env.max_upload_per_tx_bytes - length upload_data),
      )

      behind : payload ≡ (front ++ padded_data env upload_data) ++ le_bytes 4 offset
      behind = simp append_assoc

      field-payload : field 4 payload (45 + env.max_upload_per_tx_bytes) ≡ some (le_bytes 4 offset)
      field-payload =
          ap (λ (bytes : Bytes). field 4 bytes (45 + env.max_upload_per_tx_bytes)) behind
          ∙ field-append_end 4 (45 + env.max_upload_per_tx_bytes)
              (front ++ padded_data env upload_data) (le_bytes 4 offset) length-padded
              (length-le_bytes 4 offset)

      length-payload : length payload ≡ 49 + env.max_upload_per_tx_bytes
      length-payload = omega (
        arith,
        ap (λ (bytes : Bytes). length bytes) behind,
        length-append (front ++ padded_data env upload_data) (le_bytes 4 offset),
        length-padded,
        length-le_bytes 4 offset,
      )

module _ (env : Env) where
  -- With a discriminator of 8 bytes and an address of 32, an instruction for data that fits a
  -- transaction is built, its data has the data's bytes from offset 45 on, and behind the padding,
  -- at an offset that does not depend on the data, the position in the circuit account.
  pub build_upload_circuit_instruction_layout :
      (signer : String) (comp_def_offset : ℕ) (mxe_program_id : String) (raw_circuit_index : ℕ)
      (upload_data : Bytes) (offset : ℕ)
      → length (env.discriminator "upload_circuit") ≡ 8
      → length (env.encode_address mxe_program_id) ≡ 32
      → length upload_data ≤ env.max_upload_per_tx_bytes
      → offset < 2 ^ 32
      → (ix : Instruction) × (build_upload_circuit_instruction env signer comp_def_offset
            mxe_program_id raw_circuit_index upload_data offset
          ≡ ok ix)
        × (slice ix.payload 45 (45 + length upload_data) ≡ upload_data)
        × (field 4 ix.payload (45 + env.max_upload_per_tx_bytes) ≡ some (le_bytes 4 offset))
        × (le_value (le_bytes 4 offset) ≡ offset)
        × (length ix.payload ≡ 49 + env.max_upload_per_tx_bytes)
  unfolding build_upload_circuit_instruction
  build_upload_circuit_instruction_layout signer comp_def_offset mxe_program_id raw_circuit_index
        upload_data offset hd ha hu ho =
      let fits : ltb env.max_upload_per_tx_bytes (length upload_data) ≡ false = ground arith in
      (
        record {
          program_address = arcium_program_id;
          payload =
              upload_payload env comp_def_offset mxe_program_id raw_circuit_index upload_data
                offset;
          accounts =
              raw_circuit_accounts env signer comp_def_offset mxe_program_id raw_circuit_index;
        },
        rw fits refl,
        slice-payload env comp_def_offset mxe_program_id raw_circuit_index upload_data offset hd ha,
        field-payload env comp_def_offset mxe_program_id raw_circuit_index upload_data offset hd ha
            hu,
        le_value-le_bytes 4 offset (omega arith),
        length-payload env comp_def_offset mxe_program_id raw_circuit_index upload_data offset hd ha
            hu,
      )
