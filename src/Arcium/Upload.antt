-- ===== src/Arcium/Upload.antt =====
-- kit-plugin-arcium/src/lib/upload-circuit.ts, pda.ts and idl-helpers.ts: the instructions of a
-- circuit's upload. The discriminators and the size of an upload come from arcium.json, and are
-- parameters with the derivation of addresses and their encoding.
pub mod Layout
pub mod Run
use solana_kit_plugins.Prelude.{
  ℕ, ◌+◌, ◌-◌, ◌%◌, String, List, [], ◌∷◌, ◌++◌, length, ltb, replicate, if◌then◌else◌,
}
use solana_kit_plugins.Prelude.Result.{Result, ok, throw}
use solana_kit_plugins.Bytes.{Bytes, le_bytes, zeros}
use solana_kit_plugins.Connection.{Seed, text, bytes}
use solana_kit_plugins.Arcium.{
  arcium_program_id, system_program_id, computation_definition_account_seed,
  computation_definition_raw_seed, readonly, writable, writable_signer, AccountMeta, Instruction,
  AccountRole,
}

pub data Error : Type 0 where
  upload_data_too_long : Error
  -- any error of a call to the network
  failure : String → Error

pub record Env : Type 0 where
  -- getInstructionDiscriminator of an instruction that is there
  pub discriminator : String → Bytes
  pub max_upload_per_tx_bytes : ℕ
  pub pda : String → List Seed → String
  pub encode_address : String → Bytes
  pub sha256 : String → Bytes
  pub submit : ℕ → List Instruction → Result Error String

-- new Uint8Array([i])
abbrev pub index_bytes : ℕ → Bytes
index_bytes i = i % 256 ∷ []

abbrev pub account : String → AccountRole → AccountMeta
account address role = record { address = address; role = role }

module _ (env : Env) where
  abbrev pub get_computation_definition_account_address : String → Bytes → String
  get_computation_definition_account_address mxe_program_id offset =
      env.pda arcium_program_id
        (text computation_definition_account_seed ∷ text mxe_program_id ∷ bytes offset ∷ [])

  abbrev pub get_computation_definition_raw_address : String → ℕ → String
  get_computation_definition_raw_address comp_def_acc raw_circuit_index =
      env.pda arcium_program_id (
        text computation_definition_raw_seed
        ∷ text comp_def_acc
        ∷ bytes (index_bytes raw_circuit_index)
        ∷ [])

  abbrev pub comp_def_acc : ℕ → String → String
  comp_def_acc comp_def_offset mxe_program_id =
      get_computation_definition_account_address mxe_program_id (le_bytes 4 comp_def_offset)

  abbrev pub comp_def_raw : ℕ → String → ℕ → String
  comp_def_raw comp_def_offset mxe_program_id raw_circuit_index =
      get_computation_definition_raw_address (comp_def_acc comp_def_offset mxe_program_id)
        raw_circuit_index

  -- The parts of an instruction's data are set one behind the other, and fill the array.
  abbrev pub instruction_header : String → ℕ → String → Bytes
  instruction_header name comp_def_offset mxe_program_id =
      env.discriminator name ++ (le_bytes 4 comp_def_offset ++ env.encode_address mxe_program_id)

  unfoldable pub build_finalize_comp_def_instruction : String → ℕ → String → Instruction
  build_finalize_comp_def_instruction signer comp_def_offset mxe_program_id = record {
    program_address = arcium_program_id;
    payload = instruction_header "finalize_computation_definition" comp_def_offset mxe_program_id;
    accounts =
        account signer writable_signer
        ∷ account (comp_def_acc comp_def_offset mxe_program_id) writable
        ∷ account (comp_def_raw comp_def_offset mxe_program_id 0) readonly
        ∷ [];
  }

  -- the accounts of the instructions that write to a raw circuit account
  abbrev pub raw_circuit_accounts : String → ℕ → String → ℕ → List AccountMeta
  raw_circuit_accounts signer comp_def_offset mxe_program_id raw_circuit_index =
      account signer writable_signer
      ∷ account (comp_def_acc comp_def_offset mxe_program_id) readonly
      ∷ account (comp_def_raw comp_def_offset mxe_program_id raw_circuit_index) writable
      ∷ account system_program_id readonly
      ∷ []

  unfoldable pub build_init_raw_circuit_acc_instruction : String → ℕ → String → ℕ → Instruction
  build_init_raw_circuit_acc_instruction signer comp_def_offset mxe_program_id raw_circuit_index =
      record {
        program_address = arcium_program_id;
        payload =
            instruction_header "init_raw_circuit_acc" comp_def_offset mxe_program_id
            ++ index_bytes raw_circuit_index;
        accounts = raw_circuit_accounts signer comp_def_offset mxe_program_id raw_circuit_index;
      }

  unfoldable pub build_embiggen_raw_circuit_acc_instruction : String → ℕ → String → ℕ → Instruction
  build_embiggen_raw_circuit_acc_instruction signer comp_def_offset mxe_program_id
        raw_circuit_index =
      record {
        program_address = arcium_program_id;
        payload =
            instruction_header "embiggen_raw_circuit_acc" comp_def_offset mxe_program_id
            ++ index_bytes raw_circuit_index;
        accounts = raw_circuit_accounts signer comp_def_offset mxe_program_id raw_circuit_index;
      }

  -- `paddedData`
  abbrev pub padded_data : Bytes → Bytes
  padded_data upload_data = upload_data ++ zeros (env.max_upload_per_tx_bytes - length upload_data)

  abbrev pub upload_payload : ℕ → String → ℕ → Bytes → ℕ → Bytes
  upload_payload comp_def_offset mxe_program_id raw_circuit_index upload_data offset =
      instruction_header "upload_circuit" comp_def_offset mxe_program_id
      ++ (index_bytes raw_circuit_index ++ (padded_data upload_data ++ le_bytes 4 offset))

  unfoldable pub build_upload_circuit_instruction :
      String → ℕ → String → ℕ → Bytes → ℕ → Result Error Instruction
  build_upload_circuit_instruction signer comp_def_offset mxe_program_id raw_circuit_index
        upload_data offset =
      if ltb env.max_upload_per_tx_bytes (length upload_data)
      then throw upload_data_too_long
      else ok (record {
        program_address = arcium_program_id;
        payload =
            upload_payload comp_def_offset mxe_program_id raw_circuit_index upload_data offset;
        accounts = raw_circuit_accounts signer comp_def_offset mxe_program_id raw_circuit_index;
      })
