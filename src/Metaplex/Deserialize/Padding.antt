-- ===== src/Metaplex/Deserialize/Padding.antt =====
-- kit-plugin-metaplex/src/lib/metadata-deserializer.ts: the fixed-length texts of an account.
use Prim.Native.String.{String, ◌++◌}
use Prim.Native.String.append
use Prim.Native.Char.{Char, code, nul}
use solana_kit_plugins.Prelude.{◌⊎◌, inl, inr, ◌==◌, false, sym, ◌∙◌}
use solana_kit_plugins.Prelude.{ℕ, zero, suc, ◌≡◌, refl, ap, map, List, ◌∷◌, [], Option, none, some}
use solana_kit_plugins.Metaplex.{
  metaplex, Creator, Collection, Uses, UseMethod, burn, multiple, single,
}
use solana_kit_plugins.Metaplex.Deserialize.{
  Metadata, trim_nuls, keep, map_metadata_to_token_metadata, to_creator, to_collection, to_uses,
  map_option, OnChainUses, use_method_names,
}

abbrev pub nuls : ℕ → String
nuls zero = ""
nuls (suc n) = String.◌∷◌ nul (nuls n)

trim_nuls-nuls : (n : ℕ) → trim_nuls (nuls n) ≡ ""
unfolding trim_nuls keep
trim_nuls-nuls zero = refl
trim_nuls-nuls (suc n) = rw (trim_nuls-nuls n) refl

pub trim_nuls-append : (s : String) (n : ℕ) → trim_nuls (s ++ nuls n) ≡ trim_nuls s
unfolding trim_nuls
trim_nuls-append String.[] n = rw (append.nil (nuls n)) (trim_nuls-nuls n)
trim_nuls-append (String.◌∷◌ c s) n =
    rw (append.cons c s (nuls n)) (ap (keep c) (trim_nuls-append s n))

-- the text is empty, or ends in a character that is not a NUL
abbrev pub IsUnpadded : String → Type 0
IsUnpadded s =
    (s ≡ "")
    ⊎ ((front : String) × (last : Char) × (s ≡ front ++ String.◌∷◌ last "")
        × ((code last == 0) ≡ false))

keep-append :
    (c d : Char) (s : String) → keep c (s ++ String.◌∷◌ d "") ≡ String.◌∷◌ c (s ++ String.◌∷◌ d "")
unfolding keep
keep-append c d String.[] = rw (append.nil (String.◌∷◌ d "")) refl
keep-append c d (String.◌∷◌ e s) = rw (append.cons e s (String.◌∷◌ d "")) refl

trim_nuls-last :
    (front : String) (last : Char)
    → (code last == 0) ≡ false
    → trim_nuls (front ++ String.◌∷◌ last "") ≡ front ++ String.◌∷◌ last ""
unfolding trim_nuls keep
trim_nuls-last String.[] last h = rw (append.nil (String.◌∷◌ last ""), h) refl
trim_nuls-last (String.◌∷◌ c s) last h =
    rw (append.cons c s (String.◌∷◌ last ""))
      (ap (keep c) (trim_nuls-last s last h) ∙ keep-append c last s)

trim_nuls_unpadded : (s : String) → IsUnpadded s → trim_nuls s ≡ s
unfolding trim_nuls
trim_nuls_unpadded s (inl e) = ap trim_nuls e ∙ sym e
trim_nuls_unpadded s (inr (front, last, e, h)) =
    ap trim_nuls e ∙ trim_nuls-last front last h ∙ sym e

-- the account's texts, each padded with NULs
abbrev pub pad : Metadata → ℕ → ℕ → ℕ → Metadata
pad metadata i j k = record metadata {
  token_data = record metadata.token_data {
    name = metadata.token_data.name ++ nuls i;
    symbol = metadata.token_data.symbol ++ nuls j;
    uri = metadata.token_data.uri ++ nuls k;
  };
}

map-to_creator : (creators : List Creator) → map to_creator creators ≡ creators
map-to_creator [] = refl
map-to_creator (c ∷ cs) = ap (◌∷◌ c) (map-to_creator cs)

map_option-creators :
    (creators : Option (List Creator)) → map_option (map to_creator) creators ≡ creators
map_option-creators none = refl
map_option-creators (some creators) = ap some (map-to_creator creators)

map_option-to_collection : (value : Option Collection) → map_option to_collection value ≡ value
map_option-to_collection none = refl
map_option-to_collection (some value) = refl

-- the use method by its English name, with its counts
abbrev pub uses_of : Option OnChainUses → Option Uses
uses_of none = none
uses_of (some value) = some (record {
  use_method = elim value.use_method [ burn ↦ "Burn" | multiple ↦ "Multiple" | single ↦ "Single" ];
  remaining = value.remaining;
  total = value.total;
})

use_method_names_lem :
    (m : UseMethod)
    → use_method_names m ≡ elim m [ burn ↦ "Burn" | multiple ↦ "Multiple" | single ↦ "Single" ]
use_method_names_lem burn = refl
use_method_names_lem multiple = refl
use_method_names_lem single = refl

map_option-to_uses : (value : Option OnChainUses) → map_option to_uses value ≡ uses_of value
map_option-to_uses none = refl
map_option-to_uses (some value) =
    ap
      (λ name.
        some (record { use_method = name; remaining = value.remaining; total = value.total }))
      (use_method_names_lem value.use_method)

-- For an account whose name, symbol and URI are empty or end in a character that is not a NUL,
-- mapping it with these texts padded by any number of NULs gives metadata of the Metaplex source
-- with exactly those texts, the account's authority and royalty, its list of creators and its
-- collection if it has them, the name and the counts of its use method, and the mint that the
-- caller asked for.
pub map_metadata_to_token_metadata-pad :
    (metadata : Metadata) (mint_address : String) (i j k : ℕ)
    → IsUnpadded metadata.token_data.name
    → IsUnpadded metadata.token_data.symbol
    → IsUnpadded metadata.token_data.uri
    → map_metadata_to_token_metadata (pad metadata i j k) mint_address ≡ record {
      source = metaplex;
      name = metadata.token_data.name;
      symbol = metadata.token_data.symbol;
      uri = metadata.token_data.uri;
      seller_fee_basis_points = some metadata.token_data.seller_fee_basis_points;
      creators = metadata.token_data.creators;
      collection = metadata.collection;
      uses = uses_of metadata.uses;
      update_authority = some metadata.update_authority;
      mint = mint_address;
      is_mutable = some metadata.is_mutable;
      primary_sale_happened = some metadata.primary_sale_happened;
      additional_metadata = none;
    }
unfolding map_metadata_to_token_metadata
map_metadata_to_token_metadata-pad metadata mint_address i j k name symbol uri =
    rw
      (
        trim_nuls-append metadata.token_data.name i,
        trim_nuls-append metadata.token_data.symbol j,
        trim_nuls-append metadata.token_data.uri k,
        trim_nuls_unpadded metadata.token_data.name name,
        trim_nuls_unpadded metadata.token_data.symbol symbol,
        trim_nuls_unpadded metadata.token_data.uri uri,
      )
      (rw
        (
          map_option-creators metadata.token_data.creators,
          map_option-to_collection metadata.collection,
          map_option-to_uses metadata.uses,
        )
        refl)
