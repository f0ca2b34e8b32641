-- ===== src/Pyth/Client/Post/Sent.antt =====
-- kit-plugin-pyth/src/lib/pyth-client.ts: the transactions of `postPythPriceUpdates`.
use solana_kit_plugins.Prelude.{
  ℕ, String, [], ◌∷◌, List, ◌++◌, Option, none, some, map, length, ◌≡◌,
}
use solana_kit_plugins.Prelude.Map.{get}
use solana_kit_plugins.Prelude.Result.{Result, ok, throw}
use solana_kit_plugins.Bytes.{Bytes}
use solana_kit_plugins.Connection.{Net}
use solana_kit_plugins.Pyth.{Error, AccumulatorUpdate, MerkleUpdate, default_treasury_id}
use solana_kit_plugins.Pyth.Borsh.{build_post_update_atomic_data}
use solana_kit_plugins.Pyth.Client.{Env, Instruction}
use solana_kit_plugins.Pyth.Client.Post.{Shared, post_instruction}

module _ {Float Attributes : Type 0} (env : Env Float Attributes) (payer : String)
    (accumulator : AccumulatorUpdate) (shared : Shared) where
  abbrev pub to_option : Result Error Bytes → Option Bytes
  to_option (ok b) = some b
  to_option (throw e) = none

  -- the arguments of the instruction for a feed, if the update has the feed and they can be written
  abbrev pub payload_of : Option MerkleUpdate → Option Bytes
  payload_of none = none
  payload_of (some update) = to_option (
      build_post_update_atomic_data accumulator.vaa update.message update.proof default_treasury_id)

  abbrev pub payload : String → Option Bytes
  payload feed_id = payload_of (get accumulator.updates_by_feed_id feed_id)

  abbrev pub present : Option Bytes → List Bytes → List Bytes
  present none rest = rest
  present (some b) rest = b ∷ rest

  -- the payloads of the feeds that have one
  abbrev pub payloads : List String → List Bytes
  payloads [] = []
  payloads (feed_id ∷ feed_ids) = present (payload feed_id) (payloads feed_ids)

  -- a transaction, by its price update account and its payload
  abbrev pub transaction : String × Bytes → List Instruction
  transaction post = post_instruction env payer shared post.0 post.1 ∷ []

  abbrev pub account : String × Bytes → String
  account post = post.0

  abbrev pub payload_in : String × Bytes → Bytes
  payload_in post = post.1

  -- A result that is there lists the accounts of the posts, one for each of `n` feeds.
  abbrev pub Lists : ℕ → List (String × Bytes) → Result Error (List String) → Type 0
  Lists n posts (ok addresses) = (addresses ≡ map account posts) × (length addresses ≡ n)
  Lists n posts (throw e) = Unit

  abbrev pub IsPosted :
      List Bytes → ℕ → Net Instruction → Result Error (List String) × Net Instruction → Type 0
  IsPosted wanted n s x =
      (posts : List (String × Bytes)) × (x.1.sent ≡ s.sent ++ map transaction posts)
      × (map payload_in posts ≡ wanted)
      × Lists n posts x.0

  abbrev single : Result Error String → Result Error (List String)
  single (ok address) = ok (address ∷ [])
  single (throw e) = throw e

  abbrev singleton :
      Result Error String × Net Instruction → Result Error (List String) × Net Instruction
  singleton x = (single x.0, x.1)
