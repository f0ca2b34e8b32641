-- ===== src/Pyth/Tests.antt =====
-- Concrete runs of the Pyth plugin's decoders and encoders.
use solana_kit_plugins.Prelude.{List, [], ◌∷◌, ◌++◌, ◌≡◌, ◌≢◌, refl, replicate, false}
use solana_kit_plugins.Prelude.Int.{ℤ, pos, negsuc}
use solana_kit_plugins.Prelude.Number.{Number}
use solana_kit_plugins.Prelude.Result.{ok, throw}
use solana_kit_plugins.Bytes.{le_bytes}
use solana_kit_plugins.Pyth.{MerkleUpdate, post_update_atomic_discriminator}
use solana_kit_plugins.Pyth.Price.{parse_pyth_price_account_data}
use solana_kit_plugins.Pyth.Price.Layout.{PriceAccount, account_bytes}
use solana_kit_plugins.Pyth.Price.Total.{parse_pyth_price_account_data-ne-throw}
use solana_kit_plugins.Pyth.Borsh.{build_post_update_atomic_data}
use solana_kit_plugins.Pyth.Borsh.Layout.{build_post_update_atomic_data_layout}
use mathlib.Core.List.{flatten}
use solana_kit_plugins.Pyth.{range_error}

-- numbers as the expressions that compute them
data Expression : Type 0 where
  integer : ℤ → Expression
  product : Expression → Expression → Expression
  quotient : Expression → Expression → Expression
  sum : Expression → Expression → Expression
  difference : Expression → Expression → Expression
  ten_to : ℤ → Expression

abbrev expressions : Number
expressions = record {
  Float = Expression;
  of_int = integer;
  mul = product;
  quot = quotient;
  add = sum;
  sub = difference;
  pow10 = ten_to;
  lt = λ a b. false;
}

abbrev sol_account : PriceAccount
sol_account = record {
  version = 2 ∷ 0 ∷ 0 ∷ 0 ∷ [];
  account_type = 3;
  header = replicate 8 0;
  exponent = negsuc 7;
  counts = replicate 24 1;
  ema_price = pos 15012345678;
  ema_conf = 9000000;
  timestamp = pos 1700000000;
  keys = replicate 28 7;
  price = pos 15098765432;
  conf = 8500000;
  status = 1;
  corp_act = replicate 4 0;
  slot = 230000000;
}

parse_pyth_price_account_data-ne-throw_example :
    parse_pyth_price_account_data expressions (account_bytes sol_account []) ≢ throw range_error
parse_pyth_price_account_data-ne-throw_example =
    parse_pyth_price_account_data-ne-throw expressions (account_bytes sol_account []) range_error

-- a price message: its type, then the 32 bytes of the feed id
abbrev price_update : MerkleUpdate
price_update = record {
  message = 0 ∷ replicate 32 0xab ++ 9 ∷ [];
  proof = replicate 20 1 ∷ replicate 20 2 ∷ [];
}

-- a message of another type
abbrev other_update : MerkleUpdate
other_update = record { message = 1 ∷ 2 ∷ []; proof = [] }

abbrev updates : List MerkleUpdate
updates = price_update ∷ other_update ∷ []

build_post_update_atomic_data_layout_example :
    build_post_update_atomic_data (1 ∷ 2 ∷ []) (3 ∷ []) (replicate 20 4 ∷ []) 300
    ≡ ok (
        post_update_atomic_discriminator
        ++ (2 ∷ 0 ∷ 0 ∷ 0 ∷ 1 ∷ 2 ∷ 1 ∷ 0 ∷ 0 ∷ 0 ∷ 3 ∷ 1 ∷ 0 ∷ 0 ∷ 0 ∷ [])
        ++ replicate 20 4
        ++ 44 ∷ [])
unfolding le_bytes flatten
build_post_update_atomic_data_layout_example =
    build_post_update_atomic_data_layout (1 ∷ 2 ∷ []) (3 ∷ []) (replicate 20 4 ∷ []) 300 (refl, tt)
