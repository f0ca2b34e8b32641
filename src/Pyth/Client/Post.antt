-- ===== src/Pyth/Client/Post.antt =====
-- kit-plugin-pyth/src/lib/pyth-client.ts: `postPythPriceUpdates` and `reclaimPythPriceUpdateRent`.
-- What Promise.all starts runs here one after the other, in the order in which it is started, and
-- all of it runs even if a part of it throws.
pub mod Sent
pub mod Completes
use solana_kit_plugins.Prelude.{ℕ, String, [], ◌∷◌, List, Option, map}
use solana_kit_plugins.Prelude.Map.{get}
use solana_kit_plugins.Prelude.Number.{Number}
use solana_kit_plugins.Prelude.Result.{Result, ok}
use solana_kit_plugins.Prelude.Effect.{Exec, ◌>>=◌, pure, lift, require, together}
use solana_kit_plugins.Bytes.{Bytes, be_bytes}
use solana_kit_plugins.Connection.{Net, Seed, text, bytes, ask, send}
use solana_kit_plugins.Pyth.{
  Error, no_binary_data, feed_not_found, AccumulatorUpdate, MerkleUpdate, pyth_receiver_program_id,
  wormhole_program_id, default_treasury_id,
}
use solana_kit_plugins.Pyth.Accumulator.{parse_accumulator_update, get_uint_be}
use solana_kit_plugins.Pyth.Borsh.{build_post_update_atomic_data}
use solana_kit_plugins.Pyth.Client.{
  Env, Run, Instruction, AccountRole, readonly, writable, readonly_signer, writable_signer,
  normalize_feed_id, fetch_hermes_latest,
}

abbrev pub reclaim_rent_discriminator : Bytes
reclaim_rent_discriminator = 218 ∷ 200 ∷ 19 ∷ 197 ∷ 227 ∷ 89 ∷ 192 ∷ 22 ∷ []

abbrev pub system_program_id : String
system_program_id = "11111111111111111111111111111111"

-- the addresses that all updates of a call share
pub record Shared : Type 0 where
  pub config_address : String
  pub treasury_address : String
  pub guardian_set_address : String

abbrev pub cons : String → List String → List String
cons address addresses = address ∷ addresses

abbrev pub head : List String → Result Error String
head [] = ok "undefined"
head (address ∷ addresses) = ok address

module _ {Float Attributes : Type 0} (env : Env Float Attributes) where
  abbrev pub shared_of : ℕ → Run Shared
  shared_of guardian_set_index = do
    config_address ← lift (env.pda pyth_receiver_program_id (text "config" ∷ []))
    treasury_address ←
        lift (
          env.pda pyth_receiver_program_id
            (text "treasury" ∷ bytes (default_treasury_id ∷ []) ∷ []))
    guardian_set_address ← lift (
        env.pda wormhole_program_id
          (text "GuardianSet" ∷ bytes (be_bytes 4 guardian_set_index) ∷ []))
    pure (record {
      config_address = config_address;
      treasury_address = treasury_address;
      guardian_set_address = guardian_set_address;
    })

  module _ (payer : String) where
    abbrev pub post_instruction : Shared → String → Bytes → Instruction
    post_instruction shared price_update instruction_data = record {
      program_address = pyth_receiver_program_id;
      accounts =
          (payer, writable_signer)
          ∷ (shared.guardian_set_address, readonly)
          ∷ (shared.config_address, readonly)
          ∷ (shared.treasury_address, writable)
          ∷ (price_update, writable_signer)
          ∷ (system_program_id, readonly)
          ∷ (payer, readonly_signer)
          ∷ [];
      instruction_data = instruction_data;
    }

    abbrev pub send_post : Shared → String → Bytes → Run String
    send_post shared price_update instruction_data = do
      _ ← send env.submit (post_instruction shared price_update instruction_data ∷ [])
      pure price_update

    abbrev pub post_update : AccumulatorUpdate → Shared → MerkleUpdate → Run String
    post_update accumulator shared update = do
      price_update ← ask (λ n. ok (env.key_pair n))
      instruction_data ← lift (
          build_post_update_atomic_data accumulator.vaa update.message update.proof
            default_treasury_id)
      send_post shared price_update instruction_data

    -- the function that is mapped over the feeds
    unfoldable pub post_one : AccumulatorUpdate → Shared → String → Run String
    post_one accumulator shared feed_id = do
      update ← require (feed_not_found feed_id) (get accumulator.updates_by_feed_id feed_id)
      post_update accumulator shared update

    unfoldable pub post_all : AccumulatorUpdate → Shared → List String → Run (List String)
    post_all accumulator shared [] = pure []
    post_all accumulator shared (feed_id ∷ feed_ids) =
        together cons (post_one accumulator shared feed_id) (post_all accumulator shared feed_ids)

    unfoldable pub post_updates : List String → Bytes → Run (List String)
    post_updates feed_ids binary_data = do
      accumulator ← lift (parse_accumulator_update binary_data)
      guardian_set_index ← lift (get_uint_be 4 accumulator.vaa 1)
      shared ← shared_of guardian_set_index
      post_all accumulator shared feed_ids

    unfoldable pub reclaim_pyth_price_update_rent : String → Run String
    reclaim_pyth_price_update_rent price_update = send env.submit (
        record {
          program_address = pyth_receiver_program_id;
          accounts = (payer, writable_signer) ∷ (price_update, writable) ∷ [];
          instruction_data = reclaim_rent_discriminator;
        }
        ∷ [])

module _ (num : Number) {Attributes : Type 0} (env : Env num.Float Attributes)
    (payer : String) where
  unfoldable pub post_pyth_price_updates : List String → Run (List String)
  post_pyth_price_updates feed_ids = do
    found ← fetch_hermes_latest num env (map normalize_feed_id feed_ids)
    binary_data ← require no_binary_data found.1
    post_updates env payer (map normalize_feed_id feed_ids) binary_data

  unfoldable pub post_pyth_price_update : String → Run String
  post_pyth_price_update feed_id = do
    addresses ← post_pyth_price_updates (feed_id ∷ [])
    lift (head addresses)
