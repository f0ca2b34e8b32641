-- ===== src/Arcium/Encryption/Tests.antt =====
-- Concrete runs of the key fetch.
use solana_kit_plugins.Prelude.{
  [], ◌∷◌, ◌++◌, none, some, replicate, ◌≡◌, refl, arith, if◌then◌else◌, ltb,
}
use solana_kit_plugins.Prelude.Result.{ok, throw}
use solana_kit_plugins.Bytes.{Bytes, field, le_bytes, le_value}
use solana_kit_plugins.Arcium.Encryption.{
  Env, not_fully_initialized, failure, failed_to_fetch, mxe_public_key, all_true, attempt, attempts,
  get_mxe_public_key_with_retry,
}
use solana_kit_plugins.Arcium.Encryption.Layout.{
  before_keys, vector, nonzero, mxe_public_key-before_keys,
}

abbrev header : Bytes
header = replicate 61 7

abbrev key : Bytes
key = replicate 32 9

-- keys that are not set, of which one flag is 0, behind an authority
mxe_public_key-before_keys_example :
    (mxe_public_key
        (before_keys header (some (replicate 32 1)) ++ (0 ∷ (key ++ (replicate 128 2 ++ []))))
      ≡ ok key)
    × (mxe_public_key (
          before_keys header (some (replicate 32 1))
          ++ (1 ∷ (key ++ (replicate 128 2 ++ vector (1 ∷ 0 ∷ []) []))))
        ≡ (if nonzero (1 ∷ 0 ∷ []) then ok key else throw not_fully_initialized))
mxe_public_key-before_keys_example =
    mxe_public_key-before_keys header (some (replicate 32 1)) key (replicate 128 2) (1 ∷ 0 ∷ []) []
      refl refl refl refl (omega arith)

-- A vector that is cut off: the flag that is missing counts as true.
missing_flag_test :
    mxe_public_key (before_keys header none ++ (1 ∷ (key ++ (replicate 128 2 ++ le_bytes 4 1))))
    ≡ ok key
unfolding mxe_public_key all_true field le_value le_bytes
missing_flag_test = refl

-- the first two calls throw
abbrev network : Env
network = record {
  mxe_account_address = λ program_id. program_id;
  from_base64 = λ text. before_keys header none ++ (0 ∷ key);
  account_info = λ n address. if ltb n 2 then throw (failure "429") else ok (some "data");
}

get_mxe_public_key_with_retry_test :
    get_mxe_public_key_with_retry network "mxe" 20 500 (record { clock = 0; waited = 0 })
    ≡ (ok key, record { clock = 3; waited = 1000 })
unfolding get_mxe_public_key_with_retry attempts attempt mxe_public_key
get_mxe_public_key_with_retry_test = refl

last_attempt_test :
    get_mxe_public_key_with_retry network "mxe" 2 500 (record { clock = 0; waited = 0 })
    ≡ (throw (failed_to_fetch 2), record { clock = 2; waited = 500 })
unfolding get_mxe_public_key_with_retry attempts attempt
last_attempt_test = refl
