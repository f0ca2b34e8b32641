-- ===== src/Arcium/Pda.antt =====
-- kit-plugin-arcium/src/lib/pda.ts: the addresses of a cluster and its computations, as their seeds.
-- The derivation of an address from seeds is a parameter.
use solana_kit_plugins.Prelude.{ℕ, ◌<◌, ◌^◌, ◌≡◌, String, List, [], ◌∷◌, ap, ◌∙◌, sym, suc}
use solana_kit_plugins.Bytes.{Bytes, le_bytes, le_value}
use solana_kit_plugins.Bytes.Laws.{le_value-le_bytes}
use solana_kit_plugins.Connection.{Seed, text, bytes, index}
use solana_kit_plugins.Arcium.{arcium_program_id}
use solana_kit_plugins.Prelude.{zero, suc}

abbrev pub mxe_account_seed : String
mxe_account_seed = "MXEAccount"

abbrev pub computation_account_seed : String
computation_account_seed = "ComputationAccount"

abbrev pub mempool_seed : String
mempool_seed = "Mempool"

abbrev pub executing_pool_seed : String
executing_pool_seed = "Execpool"

abbrev pub cluster_seed : String
cluster_seed = "Cluster"

unfoldable pub number_to_le8_byte_array : ℕ → Bytes
number_to_le8_byte_array num = le_bytes 8 num

unfoldable pub cluster_offset_to_bytes : ℕ → Bytes
cluster_offset_to_bytes cluster_offset = le_bytes 4 cluster_offset

abbrev pub computation_account_seeds : ℕ → ℕ → List Seed
computation_account_seeds cluster_offset computation_offset =
    text computation_account_seed
    ∷ bytes (cluster_offset_to_bytes cluster_offset)
    ∷ bytes (number_to_le8_byte_array computation_offset)
    ∷ []

module _ (pda : String → List Seed → String) where
  abbrev pub get_mxe_account_address : String → String
  get_mxe_account_address program_id =
      pda arcium_program_id (text mxe_account_seed ∷ text program_id ∷ [])

  abbrev pub get_computation_account_address : ℕ → ℕ → String
  get_computation_account_address cluster_offset computation_offset =
      pda arcium_program_id (computation_account_seeds cluster_offset computation_offset)

  abbrev pub get_mempool_account_address : ℕ → String
  get_mempool_account_address cluster_offset =
      pda arcium_program_id
        (text mempool_seed ∷ bytes (cluster_offset_to_bytes cluster_offset) ∷ [])

  abbrev pub get_executing_pool_account_address : ℕ → String
  get_executing_pool_account_address cluster_offset =
      pda arcium_program_id
        (text executing_pool_seed ∷ bytes (cluster_offset_to_bytes cluster_offset) ∷ [])

  abbrev pub get_cluster_account_address : ℕ → String
  get_cluster_account_address cluster_offset =
      pda arcium_program_id
        (text cluster_seed ∷ bytes (cluster_offset_to_bytes cluster_offset) ∷ [])

-- the bytes of a seed of bytes
abbrev seed_bytes : Seed → Bytes
seed_bytes (text t) = []
seed_bytes (bytes b) = b
seed_bytes (index i) = []

abbrev seed_at : List Seed → ℕ → Bytes
seed_at [] i = []
seed_at (s ∷ seeds) zero = seed_bytes s
seed_at (s ∷ seeds) (suc i) = seed_at seeds i

-- Computations whose cluster offsets fit 32 bits and whose own offsets fit 64 have the same seeds
-- only if both offsets are the same.
computation_account_seeds_injective :
    (cluster computation cluster' computation' : ℕ)
    → cluster < 256 ^ 4
    → cluster' < 256 ^ 4
    → computation < 256 ^ 8
    → computation' < 256 ^ 8
    → computation_account_seeds cluster computation
      ≡ computation_account_seeds cluster' computation'
    → (cluster ≡ cluster') × (computation ≡ computation')
unfolding cluster_offset_to_bytes number_to_le8_byte_array
computation_account_seeds_injective cluster computation cluster' computation' h h' k k' e = (
  sym (le_value-le_bytes 4 cluster h)
      ∙ ap (λ (seeds : List Seed). le_value (seed_at seeds 1)) e
      ∙ le_value-le_bytes 4 cluster' h',
  sym (le_value-le_bytes 8 computation k)
      ∙ ap (λ (seeds : List Seed). le_value (seed_at seeds 2)) e
      ∙ le_value-le_bytes 8 computation' k',
)
