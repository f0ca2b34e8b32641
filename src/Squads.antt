-- ===== src/Squads.antt =====
-- kit-plugin-squads-multisig/src/lib/{constants,types}.ts: the data of the Squads plugin.
pub mod Client
mod Tests
use solana_kit_plugins.Prelude.{ℕ, String, List, Option}

abbrev pub squads_program_id : String
squads_program_id = "SQDS4ep65T869zMMBKyuUq6aD6EgTu8psMjkvj52pCf"

pub record MultisigConfig : Type 0 where
  pub threshold : ℕ
  pub members : List String
  pub time_lock : Option ℕ
  pub rent_collector : Option String

pub record MultisigAccount : Type 0 where
  pub address : String
  pub threshold : ℕ
  pub members : List String
  pub time_lock : ℕ
  pub transaction_index : ℕ
  pub config_authority : String
  pub rent_collector : Option String

pub data ProposalStatus : Type 0 where
  active approved rejected cancelled executed : ProposalStatus

pub record ProposalAccount : Type 0 where
  pub address : String
  pub multisig : String
  pub transaction_index : ℕ
  pub status : ProposalStatus
  pub approved_by : List String
  pub rejected_by : List String
  pub approval_count : ℕ
  pub rejection_count : ℕ
