-- ===== src/Pyth/Client/Post/Completes.antt =====
-- kit-plugin-pyth/src/lib/pyth-client.ts: the runs of `postPythPriceUpdates` that return.
use solana_kit_plugins.Prelude.{
  ℕ, ◌+◌, String, [], ◌∷◌, List, ◌++◌, Option, none, some, ◌≡◌, refl, All, arith,
}
use solana_kit_plugins.Prelude.Map.{get}
use solana_kit_plugins.Prelude.Number.{Number}
use solana_kit_plugins.Prelude.Result.{Result, ok, throw}
use solana_kit_plugins.Prelude.Effect.{continue, pure, require, ◌>>=◌, both}
use solana_kit_plugins.Bytes.{Bytes}
use solana_kit_plugins.Connection.{Net}
use solana_kit_plugins.Pyth.{
  Error, AccumulatorUpdate, MerkleUpdate, default_treasury_id, feed_not_found,
}
use solana_kit_plugins.Pyth.Borsh.{build_post_update_atomic_data}
use solana_kit_plugins.Pyth.Client.{Env, Instruction}
use solana_kit_plugins.Pyth.Client.Post.{
  Shared, post_instruction, send_post, post_update, post_one, post_all, cons,
}
use solana_kit_plugins.Pyth.Client.Post.Sent.{payload, payload_of, to_option}

module _ {Float Attributes : Type 0} (env : Env Float Attributes) where
  -- the network takes every transaction
  abbrev pub TakesAll : Type 0
  TakesAll =
      (n : ℕ) (instructions : List Instruction)
      → (signature : String) × (env.submit n instructions ≡ ok signature)

module _ {Float Attributes : Type 0} (env : Env Float Attributes) (payer : String)
    (accumulator : AccumulatorUpdate) (shared : Shared) where
  abbrev pub HasPayload : String → Type 0
  HasPayload feed_id = (b : Bytes) × (payload env payer accumulator shared feed_id ≡ some b)

module _ {Float Attributes : Type 0} (env : Env Float Attributes) (payer : String)
    (accumulator : AccumulatorUpdate) (shared : Shared) (takes : TakesAll env) where
  abbrev Returns : {A : Type 0} → Result Error A → Type 0
  Returns {A} r = (a : A) × (r ≡ ok a)

  submitted :
      (r : Result Error String) (key : String) (s : Net Instruction)
      → Returns r
      → Returns (continue r (λ signature. pure {E = Error} key) s).0
  submitted r key s (signature, e) = rw e (key, refl)

  built :
      (r : Result Error Bytes) (key : String) (s : Net Instruction)
      → ((b : Bytes) × (to_option env payer accumulator shared r ≡ some b))
      → Returns (continue r (send_post env payer shared key) s).0
  built (ok b) key s has =
      submitted (env.submit s.clock (post_instruction env payer shared key b ∷ [])) key
        (record s {
          clock = s.clock + 1;
          sent = s.sent ++ (post_instruction env payer shared key b ∷ []) ∷ [];
        })
        (takes s.clock (post_instruction env payer shared key b ∷ []))
  built (throw error) key s (b, e) = absurd (ground arith)

  found :
      (feed_id : String) (update : Option MerkleUpdate) (s : Net Instruction)
      → ((b : Bytes) × (payload_of env payer accumulator shared update ≡ some b))
      → Returns
          ((require (feed_not_found feed_id) update >>= post_update env payer accumulator shared)
            s).0
  found feed_id none s (b, e) = absurd (ground arith)
  found feed_id (some update) s has =
      built
        (build_post_update_atomic_data accumulator.vaa update.message update.proof
          default_treasury_id)
        (env.key_pair s.clock) (record s { clock = s.clock + 1 }) has

  both_return :
      (r : Result Error String) (r' : Result Error (List String))
      → Returns r
      → Returns r'
      → Returns (both cons r r')
  both_return r r' (a, e) (b, e') = rw (e, e') (cons a b, refl)

  pub post_all-ok :
      (feed_ids : List String) (s : Net Instruction)
      → All (HasPayload env payer accumulator shared) feed_ids
      → Returns (post_all env payer accumulator shared feed_ids s).0
  unfolding post_all post_one
  post_all-ok [] s all = ([], refl)
  post_all-ok (feed_id ∷ feed_ids) s (has, all) =
      both_return (post_one env payer accumulator shared feed_id s).0
        (post_all env payer accumulator shared feed_ids
          (post_one env payer accumulator shared feed_id s).1).0
        (found feed_id (get accumulator.updates_by_feed_id feed_id) s has)
        (post_all-ok feed_ids (post_one env payer accumulator shared feed_id s).1 all)

module _ (num : Number) {Attributes : Type 0} (env : Env num.Float Attributes)
    (payer : String) where
  open num use {Float}

  abbrev asked : Net Instruction → Net Instruction
  asked s = record s { clock = s.clock + 1 }
