-- ===== src/Squads/Client/Life.antt =====
-- kit-plugin-squads-multisig/src/lib/squads-client.ts: a proposal from its creation to its execution.
use solana_kit_plugins.Prelude.{ℕ, String, ◌≡◌}
use solana_kit_plugins.Prelude.Result.{Result}
use solana_kit_plugins.Prelude.Effect.{pure, continue}
use solana_kit_plugins.Connection.{Net}
use solana_kit_plugins.Squads.Client.{Env, Error, Request, CreatedProposal}
use solana_kit_plugins.Squads.Client.{created_as}
use solana_kit_plugins.Prelude.{List, [], ◌∷◌, ◌++◌, ◌∙◌, ap, ◌+◌, String, ℕ}
use solana_kit_plugins.Squads.Client.{
  Commitment, Multisig, proposal_instructions, send_request, create_proposal, create_numbered,
  approve_proposal, reject_proposal, execute_proposal, vote, execution, proposal_approve,
  proposal_reject,
}
use solana_kit_plugins.Prelude.Effect.{Exec, ◌>>=◌, lift}
use solana_kit_plugins.Squads.Client.{create_proposal, create_numbered, Multisig, execution}
use solana_kit_plugins.Prelude.{ap, ◌∙◌}
use solana_kit_plugins.Prelude.Effect.{continue}
use solana_kit_plugins.Squads.Client.{to_multisig_account}

module _ {Inner : Type 0} (env : Env Inner) (multisig : String) where
  -- The votes and the execution for an index name the proposal, and the execution the transaction.
  abbrev pub IsNamedBy : ℕ → String → String → Type 0
  IsNamedBy transaction_index proposal transaction =
      (member : String) (commitment : Commitment) (t : Net Request)
      → (approve_proposal env multisig transaction_index member commitment t
          ≡ send_request env member (proposal_approve (vote env multisig member proposal) ∷ [])
              commitment t)
        × (reject_proposal env multisig transaction_index member commitment t
            ≡ send_request env member (proposal_reject (vote env multisig member proposal) ∷ [])
                commitment t)
        × (execute_proposal env multisig transaction_index member commitment t
            ≡ send_request env member (execution env multisig member proposal transaction ∷ [])
                commitment t)

  module _ (creator : String) (instructions : List Inner) (commitment : Commitment) where
    abbrev pub request : ℕ → String → String → Request
    request transaction_index proposal transaction = record {
      fee_payer = creator;
      instructions =
          proposal_instructions env multisig creator instructions transaction_index proposal
            transaction;
      commitment = commitment;
    }

    -- The proposal was created with one transaction, and is what the other calls name.
    abbrev pub IsCreated : ℕ → CreatedProposal → Net Request → Net Request → Type 0
    IsCreated transaction_index created s t =
        (created.transaction_index ≡ transaction_index)
        × ((transaction : String) × (t.sent
              ≡ s.sent
                ++ (request created.transaction_index created.proposal transaction ∷ []) ∷ [])
            × IsNamedBy created.transaction_index created.proposal transaction)

    -- createProposal with its two addresses
    abbrev finish :
        Result Error String → Result Error String → ℕ → Exec (Net Request) Error CreatedProposal
    finish p q transaction_index = lift p >>= λ proposal. lift q >>= λ transaction.
        send_request env creator
          (proposal_instructions env multisig creator instructions transaction_index proposal
            transaction)
          commitment
        >>= λ signature. pure (created_as proposal transaction_index signature)

    -- createProposal with the answer to its question for the multisig
    abbrev through : Result Error Multisig → Exec (Net Request) Error CreatedProposal
    through r = (lift r >>= λ account. pure (to_multisig_account multisig account)) >>= λ found.
        create_numbered env multisig creator instructions commitment (found.transaction_index + 1)
