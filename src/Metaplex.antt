-- ===== src/Metaplex.antt =====
-- kit-plugin-metaplex/src/lib: types.ts and constants.ts.
pub mod Deserialize
pub mod Client
mod Tests
use solana_kit_plugins.Prelude.{ℕ, String, List, Option, Bool}
use solana_kit_plugins.Prelude.Map.{Map}

abbrev pub metadata_program_id : String
metadata_program_id = "metaqbxxUerdq28cj1RbAWkYQm3ybzjb6a8bt518x1s"

pub data MetadataSource : Type 0 where
  metaplex : MetadataSource
  token_extensions : MetadataSource
  no_source : MetadataSource

pub data UseMethod : Type 0 where
  burn : UseMethod
  multiple : UseMethod
  single : UseMethod

pub record Creator : Type 0 where
  pub address : String
  pub verified : Bool
  pub share : ℕ

pub record Collection : Type 0 where
  pub verified : Bool
  pub key : String

-- the method by its name
pub record Uses : Type 0 where
  pub use_method : String
  pub remaining : ℕ
  pub total : ℕ

pub record TokenMetadata : Type 0 where
  pub source : MetadataSource
  pub name : String
  pub symbol : String
  pub uri : String
  pub seller_fee_basis_points : Option ℕ
  pub creators : Option (List Creator)
  pub collection : Option Collection
  pub uses : Option Uses
  pub update_authority : Option String
  pub mint : String
  pub is_mutable : Option Bool
  pub primary_sale_happened : Option Bool
  pub additional_metadata : Option (Map String)

pub record MetadataCacheEntry : Type 0 where
  pub metadata : TokenMetadata
  pub expires_at : ℕ
