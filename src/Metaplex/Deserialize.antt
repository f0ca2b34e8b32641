-- ===== src/Metaplex/Deserialize.antt =====
-- kit-plugin-metaplex/src/lib/metadata-deserializer.ts: from the decoded account to the plugin's
-- metadata. The generated decoder is a parameter of the client.
pub mod Padding
use Prim.Native.String.{String, [], ◌∷◌, ◌++◌}
use Prim.Native.Char.{Char, code, nul}
use solana_kit_plugins.Prelude.{
  ℕ, zero, suc, List, Option, none, some, Bool, true, ◌≡◌, refl, map, ◌==◌, if◌then◌else◌, ap, sym,
  ◌∙◌, arith,
}
use solana_kit_plugins.Metaplex.{
  metaplex, UseMethod, burn, multiple, single, Creator, Collection, Uses, TokenMetadata,
}

-- the generated `Metadata` and its parts, as far as the code reads them
pub record OnChainUses : Type 0 where
  pub use_method : UseMethod
  pub remaining : ℕ
  pub total : ℕ

pub record Data : Type 0 where
  pub name : String
  pub symbol : String
  pub uri : String
  pub seller_fee_basis_points : ℕ
  pub creators : Option (List Creator)

pub record Metadata : Type 0 where
  pub update_authority : String
  pub mint : String
  pub token_data : Data
  pub primary_sale_happened : Bool
  pub is_mutable : Bool
  pub collection : Option Collection
  pub uses : Option OnChainUses

-- a character in front of a text from which the padding is gone
unfoldable pub keep : Char → String → String
keep c [] = if code c == 0 then [] else c ∷ []
keep c (d ∷ s) = c ∷ (d ∷ s)

-- value.replace(/\0+$/, "")
unfoldable pub trim_nuls : String → String
unfolding keep
trim_nuls [] = []
trim_nuls (c ∷ s) = keep c (trim_nuls s)

abbrev pub use_method_names : UseMethod → String
use_method_names burn = "Burn"
use_method_names multiple = "Multiple"
use_method_names single = "Single"

-- the copy of one creator
abbrev pub to_creator : Creator → Creator
to_creator creator = record {
  address = creator.address;
  verified = creator.verified;
  share = creator.share;
}

abbrev pub map_option : {A B : Type 0} → (A → B) → Option A → Option B
map_option f none = none
map_option f (some a) = some (f a)

abbrev pub to_collection : Collection → Collection
to_collection value = record { verified = value.verified; key = value.key }

abbrev pub to_uses : OnChainUses → Uses
to_uses value = record {
  use_method = use_method_names value.use_method;
  remaining = value.remaining;
  total = value.total;
}

unfoldable pub map_metadata_to_token_metadata : Metadata → String → TokenMetadata
unfolding trim_nuls
map_metadata_to_token_metadata metadata mint_address = record {
  source = metaplex;
  mint = mint_address;
  update_authority = some metadata.update_authority;
  name = trim_nuls metadata.token_data.name;
  symbol = trim_nuls metadata.token_data.symbol;
  uri = trim_nuls metadata.token_data.uri;
  seller_fee_basis_points = some metadata.token_data.seller_fee_basis_points;
  creators = map_option (map to_creator) metadata.token_data.creators;
  collection = map_option to_collection metadata.collection;
  uses = map_option to_uses metadata.uses;
  primary_sale_happened = some metadata.primary_sale_happened;
  is_mutable = some metadata.is_mutable;
  additional_metadata = none;
}
