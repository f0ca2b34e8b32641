-- ===== src/Metaplex/Tests.antt =====
-- Concrete runs of the Metaplex client.
use solana_kit_plugins.Prelude.{
  ◌*◌, List, [], ◌∷◌, ◌≡◌, refl, arith, none, some, true, false, ===_iff, inr,
}
use solana_kit_plugins.Prelude.Map.{get}
use solana_kit_plugins.Prelude.Result.{ok, throw}
use solana_kit_plugins.Connection.{raw}
use solana_kit_plugins.Metaplex.{TokenMetadata, metaplex, single}
use solana_kit_plugins.Metaplex.Deserialize.{
  Metadata, map_metadata_to_token_metadata, trim_nuls, keep,
}
use solana_kit_plugins.Metaplex.Deserialize.Padding.{pad, map_metadata_to_token_metadata-pad}
use solana_kit_plugins.Metaplex.Client.{
  Env, State, UpdateParams, get_token_metadata, get_cached_metadata, update_token_metadata,
  cache_key, failure, fetch_preferred, fetch_metaplex_metadata,
}
use solana_kit_plugins.Metaplex.Client.Cache.{
  get_token_metadata_lem, get_cached_metadata-get_token_metadata,
}
use solana_kit_plugins.Metaplex.Client.Update.{update_token_metadata_request}
use solana_kit_plugins.Metaplex.Client.Ownership.{IsAbout, IsOwnCache}
use solana_kit_plugins.Metaplex.Client.Ownership.Calls.{
  get_token_metadata-IsAbout, get_token_metadata_call, clear_cache_call, update_token_metadata_call,
  after_calls,
}
use solana_kit_plugins.Prelude.Map.{set}
use solana_kit_plugins.Prelude.Map.{delete}
use solana_kit_plugins.Metaplex.Client.{transaction, UpdateParams, update_token_metadata}
use solana_kit_plugins.Metaplex.Client.Update.{update_token_metadata_request}
use solana_kit_plugins.Metaplex.Client.Ownership.{IsAbout, IsOwnCache, found_in}
use solana_kit_plugins.Metaplex.Client.Ownership.Calls.{
  Call, get_token_metadata-IsAbout, get_token_metadata_call, clear_cache_call,
  update_token_metadata_call, after_calls, get_complete_metadata_call,
}

abbrev on_chain : Metadata
on_chain = record {
  update_authority = "authority";
  mint = "mint";
  token_data = record {
    name = "Art";
    symbol = "ART";
    uri = "https://example.org/art.json";
    seller_fee_basis_points = 500;
    creators = some (record { address = "artist"; verified = true; share = 100 } ∷ []);
  };
  primary_sale_happened = false;
  is_mutable = true;
  collection = none;
  uses = some (record { use_method = single; remaining = 1; total = 3 });
}

abbrev art : TokenMetadata
art = record {
  source = metaplex;
  name = "Art";
  symbol = "ART";
  uri = "https://example.org/art.json";
  seller_fee_basis_points = some 500;
  creators = some (record { address = "artist"; verified = true; share = 100 } ∷ []);
  collection = none;
  uses = some (record { use_method = "Single"; remaining = 1; total = 3 });
  update_authority = some "authority";
  mint = "mint";
  is_mutable = some true;
  primary_sale_happened = some false;
  additional_metadata = none;
}

map_metadata_to_token_metadata-pad_example :
    map_metadata_to_token_metadata (pad on_chain 29 7 172) "mint" ≡ art
map_metadata_to_token_metadata-pad_example =
    map_metadata_to_token_metadata-pad on_chain "mint" 29 7 172 (inr ("Ar", "t", refl, refl))
      (inr ("AR", "T", refl, refl)) (inr ("https://example.org/art.jso", "n", refl, refl))

-- a network with the account of one token; the clock goes on by 1000 at each call
abbrev network : Env Unit
network = record {
  cache_time = 3600000;
  prefer_metaplex = true;
  now = λ n. 1000 * n;
  pda = λ program seeds. "account";
  from_base64 = λ text. [];
  decode_metadata = λ bytes. ok on_chain;
  account_info = λ n address. ok (some (raw (4 ∷ [])));
  extension_metadata = λ n mint. throw (failure "no extension");
  fetch = λ n uri. throw (failure "offline");
  submit = λ n request. ok "signature";
}

abbrev start : State
start = record { clock = 0; sent = []; metadata_cache = [] }

get_token_metadata_lem_example :
    (get_token_metadata network "mint" true start ≡ (
      ok (some art),
      record {
        clock = 2;
        sent = [];
        metadata_cache = (cache_key "mint", record { metadata = art; expires_at = 3601000 }) ∷ [];
      },
    ))
    × (get_token_metadata network "mint" false start ≡ (
      ok (some art),
      record {
        clock = 2;
        sent = [];
        metadata_cache = (cache_key "mint", record { metadata = art; expires_at = 3601000 }) ∷ [];
      },
    ))
unfolding map_metadata_to_token_metadata trim_nuls keep get set
get_token_metadata_lem_example = get_token_metadata_lem network "mint" start

found : (get_token_metadata network "mint" false start).0 ≡ ok (some art)
unfolding map_metadata_to_token_metadata trim_nuls keep get_token_metadata fetch_preferred
    fetch_metaplex_metadata set
found = refl

-- an hour later: the last reading before is at call 1
get_cached_metadata-get_token_metadata_example :
    ((get_cached_metadata network "mint"
        (record (get_token_metadata network "mint" false start).1 { clock = 3602 })).0
      ≡ ok none)
    × (get (get_token_metadata network "mint" false start).1.metadata_cache (cache_key "other")
        ≡ none)
unfolding get
get_cached_metadata-get_token_metadata_example =
    get_cached_metadata-get_token_metadata network "mint" start
      (record (get_token_metadata network "mint" false start).1 { clock = 3602 }) art "other" found
      refl (λ e. ground (arith, (===_iff "mint" "other").1 e))

abbrev rename : UpdateParams
rename = record {
  mint_address = "mint";
  update_authority = "authority";
  name = some "New art";
  symbol = none;
  uri = none;
  additional_metadata = none;
}

update_token_metadata_request_example : update_token_metadata network rename start ≡ (
  ok "signature",
  record {
    clock = 3;
    sent =
        transaction (record {
          metadata = "account";
          update_authority = "authority";
          token_data = record {
            name = "New art";
            symbol = "ART";
            uri = "https://example.org/art.json";
            seller_fee_basis_points = 500;
            creators = some (record { address = "artist"; verified = true; share = 100 } ∷ []);
            collection = none;
            uses = none;
          };
        })
        ∷ [];
    metadata_cache = [];
  },
)
unfolding map_metadata_to_token_metadata trim_nuls keep set delete
update_token_metadata_request_example = update_token_metadata_request network rename start

abbrev calls : List Call
calls =
    get_token_metadata_call "mint" true
    ∷ update_token_metadata_call rename
    ∷ get_complete_metadata_call "mint"
    ∷ clear_cache_call
    ∷ get_token_metadata_call "other" true
    ∷ []

get_token_metadata-IsAbout_example :
    IsAbout network "other" (
      found_in network "other"
        (get_token_metadata network "other" true (after_calls network calls start)).0)
    × IsOwnCache network
        (get_token_metadata network "other" true (after_calls network calls start)).1.metadata_cache
get_token_metadata-IsAbout_example =
    get_token_metadata-IsAbout network calls start "other" true refl
