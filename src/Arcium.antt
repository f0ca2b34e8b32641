-- ===== src/Arcium.antt =====
-- kit-plugin-arcium/src/lib: the constants of constants.ts and idl-helpers.ts, and the instructions.
pub mod Plan
pub mod Pda
pub mod Upload
pub mod Serialization
pub mod Events
pub mod Encryption
mod Tests
use solana_kit_plugins.Prelude.{ℕ, String, List}
use solana_kit_plugins.Bytes.{Bytes}

abbrev pub arcium_program_id : String
arcium_program_id = "Arcj82pX7HxYKLR92qvgZUAd7vGS1k4hQvAFcPATFdEQ"

abbrev pub system_program_id : String
system_program_id = "11111111111111111111111111111111"

abbrev pub computation_definition_account_seed : String
computation_definition_account_seed = "ComputationDefinitionAccount"

abbrev pub computation_definition_raw_seed : String
computation_definition_raw_seed = "ComputationDefinitionRaw"

abbrev pub max_realloc_per_ix : ℕ
max_realloc_per_ix = 10240

abbrev pub max_account_size : ℕ
max_account_size = 10485760

abbrev pub max_embiggen_ix_per_tx : ℕ
max_embiggen_ix_per_tx = 18

-- `AccountRole`, as far as the builders use it
pub data AccountRole : Type 0 where
  readonly writable writable_signer : AccountRole

pub record AccountMeta : Type 0 where
  pub address : String
  pub role : AccountRole

pub record Instruction : Type 0 where
  pub program_address : String
  pub payload : Bytes
  pub accounts : List AccountMeta
