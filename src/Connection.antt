-- ===== src/Connection.antt =====
-- The connection that a plugin is given: calls to the network, one after the other, and the
-- transactions that are sent. What a call answers is a parameter, and may differ from call to call:
-- it depends on how many calls were made before.
use solana_kit_plugins.Prelude.{ℕ, ◌+◌, String, List, [], ◌∷◌, ◌++◌}
use solana_kit_plugins.Prelude.Result.{Result}
use solana_kit_plugins.Prelude.Effect.{Exec}
use solana_kit_plugins.Bytes.{Bytes}

-- a seed of a program-derived address
pub data Seed : Type 0 where
  text : String → Seed
  bytes : Bytes → Seed
  index : ℕ → Seed

-- the shapes in which the RPC gives an account's data
pub data AccountData : Type 0 where
  pair : String → String → AccountData
  string : String → AccountData
  raw : Bytes → AccountData

-- `Ix` is the type of the instructions that the plugin builds.
pub record Net (Ix : Type 0) : Type 0 where
  pub clock : ℕ
  pub sent : List (List Ix)

module _ {Ix E A : Type 0} where
  -- a call that reads
  abbrev pub ask : (ℕ → Result E A) → Exec (Net Ix) E A
  ask reply s = (reply s.clock, record s { clock = s.clock + 1 })

module _ {Ix E : Type 0} where
  -- sendTransactionFromInstructions: the transaction goes out, whatever the answer is
  abbrev pub send : (ℕ → List Ix → Result E String) → List Ix → Exec (Net Ix) E String
  send reply instructions s = (
    reply s.clock instructions,
    record s { clock = s.clock + 1; sent = s.sent ++ instructions ∷ [] },
  )
