-- ===== src/Squads/Client.antt =====
-- kit-plugin-squads-multisig/src/lib/squads-client.ts: `SquadsClient`. The derivation of addresses,
-- the network, new key pairs and the JSON of instructions are parameters; a generated instruction
-- is the record of its input, and the generated fetchers give decoded accounts.
pub mod Life
use solana_kit_plugins.Prelude.{
  ℕ, ◌+◌, ◌%◌, String, List, [], ◌∷◌, Option, none, some, Bool, false, length, map,
}
use solana_kit_plugins.Prelude.Map.{Map, get}
use solana_kit_plugins.Prelude.Result.{Result, ok, throw}
use solana_kit_plugins.Prelude.Effect.{Exec, ◌>>=◌, pure, lift}
use solana_kit_plugins.Bytes.{Bytes}
use solana_kit_plugins.Connection.{Net, Seed, text, bytes, index, ask, send}
use solana_kit_plugins.Squads.{
  squads_program_id, MultisigConfig, MultisigAccount, ProposalAccount, ProposalStatus, active,
  approved, rejected, cancelled, executed,
}

pub data Error : Type 0 where
  -- any error of a call to the network or of the libraries
  failure : String → Error

pub data Commitment : Type 0 where
  processed confirmed finalized : Commitment

-- a member with the mask of its permissions
pub record Member : Type 0 where
  pub key : String
  pub mask : ℕ

pub record MultisigCreate : Type 0 where
  pub program_config : String
  pub treasury : String
  pub multisig : String
  pub create_key : String
  pub creator : String
  pub config_authority : Option String
  pub threshold : ℕ
  pub members : List Member
  pub time_lock : ℕ
  pub rent_collector : Option String
  pub memo : Option String

pub record ProposalCreate : Type 0 where
  pub multisig : String
  pub proposal : String
  pub creator : String
  pub rent_payer : String
  pub transaction_index : ℕ
  pub draft : Bool

pub record VaultTransactionCreate : Type 0 where
  pub multisig : String
  pub transaction : String
  pub creator : String
  pub rent_payer : String
  pub vault_index : ℕ
  pub ephemeral_signers : ℕ
  pub transaction_message : Bytes
  pub memo : Option String

-- of an approval or a rejection
pub record Vote : Type 0 where
  pub multisig : String
  pub member : String
  pub proposal : String
  pub memo : Option String

pub record VaultTransactionExecute : Type 0 where
  pub multisig : String
  pub proposal : String
  pub transaction : String
  pub member : String

pub data Instruction : Type 0 where
  multisig_create : MultisigCreate → Instruction
  proposal_create : ProposalCreate → Instruction
  vault_transaction_create : VaultTransactionCreate → Instruction
  proposal_approve : Vote → Instruction
  proposal_reject : Vote → Instruction
  vault_transaction_execute : VaultTransactionExecute → Instruction

-- the parameter of sendTransactionFromInstructions
pub record Request : Type 0 where
  pub fee_payer : String
  pub instructions : List Instruction
  pub commitment : Commitment

-- decoded accounts: the kind of a status is a text
pub record Multisig : Type 0 where
  pub threshold : ℕ
  pub members : List Member
  pub time_lock : ℕ
  pub transaction_index : ℕ
  pub config_authority : String
  pub rent_collector : Option String

pub record Proposal : Type 0 where
  pub multisig : String
  pub transaction_index : ℕ
  pub status_kind : String
  pub approved_by : List String
  pub rejected_by : List String

-- Each call to the network and each new key pair gets the number of the calls before it. `Inner` is
-- the type of the instructions that are proposed.
pub record Env (Inner : Type 0) : Type 0 where
  -- getPDAAndBump, without the bump
  pub pda : String → List Seed → Result Error String
  pub key_pair : ℕ → String
  pub fetch_treasury : ℕ → String → Commitment → Result Error String
  pub fetch_multisig : ℕ → String → Result Error Multisig
  pub fetch_proposal : ℕ → String → Result Error Proposal
  -- Buffer.from(JSON.stringify(instructions))
  pub to_json : List Inner → Bytes
  pub submit : ℕ → List Request → Result Error String

abbrev pub Run : Type 0 → Type 0
Run A = Exec (Net Request) Error A

pub record CreatedMultisig : Type 0 where
  pub multisig : String
  pub signature : String

pub record CreatedProposal : Type 0 where
  pub proposal : String
  pub transaction_index : ℕ
  pub signature : String

abbrev pub created_as : String → ℕ → String → CreatedProposal
created_as proposal transaction_index signature = record {
  proposal = proposal;
  transaction_index = transaction_index;
  signature = signature;
}

abbrev pub or_else : {A : Type 0} → Option A → A → A
or_else none d = d
or_else (some a) d = a

abbrev pub to_multisig_account : String → Multisig → MultisigAccount
to_multisig_account multisig account = record {
  address = multisig;
  threshold = account.threshold;
  members = map (λ (member : Member). member.key) account.members;
  time_lock = account.time_lock;
  transaction_index = account.transaction_index;
  config_authority = account.config_authority;
  rent_collector = account.rent_collector;
}

-- statusMap
abbrev pub status_map : Map ProposalStatus
status_map =
    ("Active", active)
    ∷ ("Approved", approved)
    ∷ ("Rejected", rejected)
    ∷ ("Cancelled", cancelled)
    ∷ ("Executed", executed)
    ∷ []

unfoldable pub status_of : String → ProposalStatus
status_of kind = or_else (get status_map kind) active

module _ {Inner : Type 0} (env : Env Inner) where
  abbrev pub get_program_config_address : Result Error String
  get_program_config_address =
      env.pda squads_program_id (text "multisig" ∷ text "program_config" ∷ [])

  abbrev pub get_multisig_address : String → Result Error String
  get_multisig_address create_key =
      env.pda squads_program_id (text "multisig" ∷ text "multisig" ∷ text create_key ∷ [])

  abbrev pub get_transaction_address : String → ℕ → Result Error String
  get_transaction_address multisig transaction_index =
      env.pda squads_program_id
        (text "multisig" ∷ text multisig ∷ text "transaction" ∷ index transaction_index ∷ [])

  abbrev pub get_proposal_address : String → ℕ → Result Error String
  get_proposal_address multisig transaction_index = env.pda squads_program_id (
      text "multisig"
      ∷ text multisig
      ∷ text "transaction"
      ∷ index transaction_index
      ∷ text "proposal"
      ∷ [])

  -- a Uint8Array keeps the index modulo 256
  abbrev pub get_vault_address : String → ℕ → Result Error String
  get_vault_address multisig vault_index =
      env.pda squads_program_id
        (text "multisig" ∷ text multisig ∷ text "vault" ∷ bytes ((vault_index % 256) ∷ []) ∷ [])

  abbrev pub send_request : String → List Instruction → Commitment → Run String
  send_request fee_payer instructions commitment =
      send env.submit (
        record { fee_payer = fee_payer; instructions = instructions; commitment = commitment } ∷ [])

  unfoldable pub create_multisig : String → MultisigConfig → Commitment → Run CreatedMultisig
  create_multisig creator config commitment = do
    create_key ← ask (λ n. ok (env.key_pair n))
    multisig ← lift (get_multisig_address create_key)
    program_config ← lift get_program_config_address
    treasury ← ask (λ n. env.fetch_treasury n program_config commitment)
    signature ←
        send_request creator
          (multisig_create (record {
            program_config = program_config;
            treasury = treasury;
            multisig = multisig;
            create_key = create_key;
            creator = creator;
            config_authority = none;
            threshold = config.threshold;
            members = map (λ member. record { key = member; mask = 7 }) config.members;
            time_lock = or_else config.time_lock 0;
            rent_collector = config.rent_collector;
            memo = none;
          })
            ∷ [])
          commitment
    pure (record { multisig = multisig; signature = signature })

  unfoldable pub get_multisig_account : String → Run MultisigAccount
  get_multisig_account multisig = do
    account ← ask (λ n. env.fetch_multisig n multisig)
    pure (to_multisig_account multisig account)

  -- the two instructions of a proposal, in their order
  abbrev pub proposal_instructions :
      String → String → List Inner → ℕ → String → String → List Instruction
  proposal_instructions multisig creator instructions transaction_index proposal transaction =
      proposal_create (record {
        multisig = multisig;
        proposal = proposal;
        creator = creator;
        rent_payer = creator;
        transaction_index = transaction_index;
        draft = false;
      })
      ∷ vault_transaction_create (record {
        multisig = multisig;
        transaction = transaction;
        creator = creator;
        rent_payer = creator;
        vault_index = 0;
        ephemeral_signers = 0;
        transaction_message = env.to_json instructions;
        memo = none;
      })
      ∷ []

  -- createProposal, after the multisig's account was read
  abbrev pub create_numbered : String → String → List Inner → Commitment → ℕ → Run CreatedProposal
  create_numbered multisig creator instructions commitment transaction_index = do
    proposal ← lift (get_proposal_address multisig transaction_index)
    transaction ← lift (get_transaction_address multisig transaction_index)
    signature ←
        send_request creator
          (proposal_instructions multisig creator instructions transaction_index proposal
            transaction)
          commitment
    pure (created_as proposal transaction_index signature)

  unfoldable pub create_proposal : String → String → List Inner → Commitment → Run CreatedProposal
  create_proposal multisig creator instructions commitment = do
    account ← get_multisig_account multisig
    create_numbered multisig creator instructions commitment (account.transaction_index + 1)

  abbrev pub vote : String → String → String → Vote
  vote multisig member proposal = record {
    multisig = multisig;
    member = member;
    proposal = proposal;
    memo = none;
  }

  unfoldable pub approve_proposal : String → ℕ → String → Commitment → Run String
  approve_proposal multisig transaction_index member commitment = do
    proposal ← lift (get_proposal_address multisig transaction_index)
    send_request member (proposal_approve (vote multisig member proposal) ∷ []) commitment

  unfoldable pub reject_proposal : String → ℕ → String → Commitment → Run String
  reject_proposal multisig transaction_index member commitment = do
    proposal ← lift (get_proposal_address multisig transaction_index)
    send_request member (proposal_reject (vote multisig member proposal) ∷ []) commitment

  abbrev pub execution : String → String → String → String → Instruction
  execution multisig member proposal transaction = vault_transaction_execute (record {
    multisig = multisig;
    proposal = proposal;
    transaction = transaction;
    member = member;
  })

  unfoldable pub execute_proposal : String → ℕ → String → Commitment → Run String
  execute_proposal multisig transaction_index member commitment = do
    proposal ← lift (get_proposal_address multisig transaction_index)
    transaction ← lift (get_transaction_address multisig transaction_index)
    send_request member (execution multisig member proposal transaction ∷ []) commitment

  unfoldable pub get_proposal_account : String → Run ProposalAccount
  get_proposal_account proposal = do
    account ← ask (λ n. env.fetch_proposal n proposal)
    pure (record {
      address = proposal;
      multisig = account.multisig;
      transaction_index = account.transaction_index;
      status = status_of account.status_kind;
      approved_by = account.approved_by;
      rejected_by = account.rejected_by;
      approval_count = length account.approved_by;
      rejection_count = length account.rejected_by;
    })
