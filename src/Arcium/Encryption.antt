-- ===== src/Arcium/Encryption.antt =====
-- kit-plugin-arcium/src/lib/encryption.ts: getMXEPublicKeyWithRetry. The network, the decoder of
-- base64 and the derivation of the account's address are parameters. The keys that are made of the
-- public key come from other code, and are not modelled.
pub mod Layout
mod Tests
use solana_kit_plugins.Prelude.{
  ℕ, zero, suc, ◌+◌, Option, none, some, Bool, true, false, ◌&&◌, not, ltb, ◌==◌, if◌then◌else◌,
  get_elem?,
}
use solana_kit_plugins.Prelude.Result.{Result, ok, throw}
use solana_kit_plugins.Prelude.Effect.{Exec, ◌>>=◌, pure, raise, lift, catch, require}
use solana_kit_plugins.Bytes.{Bytes, slice, field, le_value}
use solana_kit_plugins.Arcium.{String}

pub data Error : Type 0 where
  mxe_account_not_found : (address : String) → Error
  not_fully_initialized : Error
  invalid_variant : (variant : Option ℕ) → Error
  -- readUInt32LE past the end
  range_error : Error
  failed_to_fetch : (max_retries : ℕ) → Error
  -- any error of a call to the network
  failure : (message : String) → Error

-- `byte === n`; past the end is undefined
abbrev pub is_byte : Option ℕ → ℕ → Bool
is_byte none n = false
is_byte (some byte) n = byte == n

-- the flags at `offset` and behind; past the end is undefined, which is not 0
unfoldable pub all_true : Bytes → ℕ → ℕ → Bool
all_true data_ offset zero = true
all_true data_ offset (suc n) =
    let rest = all_true data_ (offset + 1) n in not (is_byte (get_elem? data_ offset) 0) && rest

abbrev pub public_key_at : Bytes → ℕ → Bytes
public_key_at data_ offset = slice data_ offset (offset + 32)

abbrev pub flags_checked : Bytes → ℕ → Option Bytes → Result Error Bytes
flags_checked data_ offset none = throw range_error
flags_checked data_ offset (some word) =
    if all_true data_ (offset + 160 + 4) (le_value word)
    then ok (public_key_at data_ offset)
    else throw not_fully_initialized

-- the key at `offset`, by the variant in front of it
abbrev pub key_by_variant : Bytes → ℕ → Option ℕ → Result Error Bytes
key_by_variant data_ offset variant =
    if is_byte variant 0
    then ok (public_key_at data_ offset)
    else if is_byte variant 1
    then flags_checked data_ offset (field 4 data_ (offset + 160))
    else throw (invalid_variant variant)

abbrev pub variant_offset : Bytes → ℕ
variant_offset data_ = if is_byte (get_elem? data_ 61) 1 then 94 else 62

unfoldable pub mxe_public_key : Bytes → Result Error Bytes
mxe_public_key data_ =
    key_by_variant data_ (variant_offset data_ + 1) (get_elem? data_ (variant_offset data_))

pub record Env : Type 0 where
  pub mxe_account_address : String → String
  pub from_base64 : String → Bytes
  -- the base64 text of the account's data, by the number of the calls before
  pub account_info : ℕ → String → Result Error (Option String)

-- `waited` is the time of the pauses, in milliseconds
pub record State : Type 0 where
  pub clock : ℕ
  pub waited : ℕ

abbrev pub Run : Type 0 → Type 0
Run A = Exec State Error A

abbrev pub ask : {A : Type 0} → (ℕ → Result Error A) → Run A
ask reply s = (reply s.clock, record s { clock = s.clock + 1 })

abbrev pub pause : ℕ → Run (Unit {0})
pause delay s = (ok tt, record s { waited = s.waited + delay })

module _ (env : Env) where
  -- the body of the loop; `none` is an attempt that failed
  unfoldable pub attempt : String → Run (Option Bytes)
  attempt mxe_account_address =
      catch
        (do
          account_info ← ask (λ n. env.account_info n mxe_account_address)
          base64 ← require (mxe_account_not_found mxe_account_address) account_info
          key ← lift (mxe_public_key (env.from_base64 base64))
          pure (some key))
        (λ error. pure none)

  abbrev pub return_or : Run Bytes → Option Bytes → Run Bytes
  return_or later (some key) = pure key
  return_or later none = later

  -- the attempts that are left; there is a pause between two of them
  unfoldable pub attempts : ℕ → ℕ → String → ℕ → Run Bytes
  attempts max_retries retry_delay_ms mxe_account_address zero = raise (failed_to_fetch max_retries)
  attempts max_retries retry_delay_ms mxe_account_address (suc left) = do
    found ← attempt mxe_account_address
    return_or
        (do
          _ ← if ltb 0 left then pause retry_delay_ms else pure tt
          attempts max_retries retry_delay_ms mxe_account_address left)
        found

  unfoldable pub get_mxe_public_key_with_retry : String → ℕ → ℕ → Run Bytes
  get_mxe_public_key_with_retry program_id max_retries retry_delay_ms =
      attempts max_retries retry_delay_ms (env.mxe_account_address program_id) max_retries
