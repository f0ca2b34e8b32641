-- ===== src/Tuktuk/Compile.antt =====
-- kit-plugin-tuktuk-task-scheduler/src/lib/tuktuk-client.ts: `compileTukTukTransaction`.
pub mod Order
pub mod Collect
pub mod Index
use solana_kit_plugins.Prelude.{
  ℕ, suc, ◌+◌, ◌%◌, String, List, [], ◌∷◌, ◌++◌, map, Option, none, some, Bool, true, false, not,
  ◌&&◌, length, filter, sort, includes, if◌then◌else◌,
}
use solana_kit_plugins.Prelude.Int.{ℤ, pos, negsuc}
use solana_kit_plugins.Prelude.Map.{Map, get, set}
use solana_kit_plugins.Bytes.{Bytes}
use mathlib.Core.List.{foldl}

-- an element of `accountMetas`
pub record Meta : Type 0 where
  pub address : String
  pub is_signer : Bool
  pub is_writable : Bool

-- The role of an account, with the library's two tests on roles, is a parameter.
pub record AccountMeta (Role : Type 0) : Type 0 where
  pub address : String
  pub role : Role

pub record Instruction (Role : Type 0) : Type 0 where
  pub program_address : String
  pub accounts : Option (List (AccountMeta Role))
  pub payload : Option Bytes

pub record CompiledInstruction : Type 0 where
  -- `none` is the `undefined` of a missing key
  pub program_id_index : Option ℕ
  pub accounts : Bytes
  pub payload : Bytes

pub record CompiledTransaction : Type 0 where
  pub num_rw_signers : ℕ
  pub num_ro_signers : ℕ
  pub num_rw : ℕ
  pub accounts : List String
  pub instructions : List CompiledInstruction
  pub signer_seeds : List (List Bytes)

-- `accountSet` and `accountMetas`
pub record Collected : Type 0 where
  pub seen : List String
  pub metas : List Meta

-- one round of `if (!accountSet.has(address)) { … }`
abbrev pub add_meta : Collected → Meta → Collected
add_meta c m =
    if includes c.seen m.address
    then c
    else record { seen = c.seen ++ m.address ∷ []; metas = c.metas ++ m ∷ [] }

-- a !== b
abbrev pub differ : Bool → Bool → Bool
differ true b = not b
differ false b = b

-- the comparison that `accountMetas.sort` is given
abbrev pub order_metas : Meta → Meta → ℤ
order_metas a b =
    if differ a.is_signer b.is_signer
    then if b.is_signer then pos 1 else negsuc 0
    else if differ a.is_writable b.is_writable
    then if b.is_writable then pos 1 else negsuc 0
    else pos 0

-- `new Map(accounts.map((address, index) => [address, index]))`, from an index on
abbrev pub index_from : ℕ → List String → Map ℕ → Map ℕ
index_from i [] m = m
index_from i (a ∷ rest) m = index_from (suc i) rest (set m a i)

-- an element of `Buffer.from(numbers)`: a byte, and 0 for `undefined`
abbrev pub to_byte : Option ℕ → ℕ
to_byte none = 0
to_byte (some n) = n % 256

abbrev pub or_empty {ℓ} : {A : Type ℓ} → Option (List A) → List A
or_empty none = []
or_empty (some xs) = xs

module _ {Role : Type 0} (is_signer_role is_writable_role : Role → Bool) where
  abbrev pub account_meta : AccountMeta Role → Meta
  account_meta account = record {
    address = account.address;
    is_signer = is_signer_role account.role;
    is_writable = is_writable_role account.role;
  }

  abbrev pub program_meta : Instruction Role → Meta
  program_meta instruction = record {
    address = instruction.program_address;
    is_signer = false;
    is_writable = false;
  }

  -- the body of the outer loop
  unfoldable pub collect_instruction : Collected → Instruction Role → Collected
  collect_instruction c instruction =
      add_meta
        (foldl (λ c' account. add_meta c' (account_meta account)) c (or_empty instruction.accounts))
        (program_meta instruction)

  unfoldable pub collect : List (Instruction Role) → Collected
  unfolding collect_instruction
  collect instructions = foldl collect_instruction (record { seen = []; metas = [] }) instructions

  abbrev pub compile_instruction : Map ℕ → Instruction Role → CompiledInstruction
  compile_instruction account_map instruction = record {
    program_id_index = get account_map instruction.program_address;
    accounts =
        map (λ account. to_byte (get account_map account.address)) (or_empty instruction.accounts);
    payload = or_empty instruction.payload;
  }

  abbrev pub sorted_metas : List (Instruction Role) → List Meta
  sorted_metas instructions = sort order_metas (collect instructions).metas

  unfoldable pub compile_tuk_tuk_transaction : List (Instruction Role) → CompiledTransaction
  compile_tuk_tuk_transaction instructions =
      let account_metas = sorted_metas instructions in
      let accounts = map (λ m. m.address) account_metas in
      let account_map = index_from 0 accounts [] in
      record {
        num_rw_signers = length (filter (λ m. m.is_signer && m.is_writable) account_metas);
        num_ro_signers = length (filter (λ m. m.is_signer && not m.is_writable) account_metas);
        num_rw = length (filter (λ m. not m.is_signer && m.is_writable) account_metas);
        accounts = accounts;
        instructions = map (compile_instruction account_map) instructions;
        signer_seeds = [];
      }
