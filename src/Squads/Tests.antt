-- ===== src/Squads/Tests.antt =====
-- Concrete runs of the Squads plugin.
use solana_kit_plugins.Prelude.{String, List, [], ◌∷◌, none, ◌≡◌, refl}
use solana_kit_plugins.Prelude.Result.{ok}
use solana_kit_plugins.Prelude.Map.{get}
use solana_kit_plugins.Connection.{Net, Seed}
use solana_kit_plugins.Squads.{active}
use solana_kit_plugins.Squads.Client.{Env, Request, Multisig, CreatedProposal, status_of}

abbrev wallet : Multisig
wallet = record {
  threshold = 2;
  members = record { key = "alice"; mask = 7 } ∷ record { key = "bob"; mask = 7 } ∷ [];
  time_lock = 0;
  transaction_index = 4;
  config_authority = "none";
  rent_collector = none;
}

-- one address for a proposal, and another one for a transaction
abbrev derive : List Seed → String
derive (a ∷ b ∷ c ∷ d ∷ []) = "transaction"
derive seeds = "proposal"

abbrev network : Env String
network = record {
  pda = λ program seeds. ok (derive seeds);
  key_pair = λ n. "key";
  fetch_treasury = λ n config commitment. ok "treasury";
  fetch_multisig = λ n address. ok wallet;
  fetch_proposal = λ n address. ok (record {
    multisig = "multisig";
    transaction_index = 5;
    status_kind = "Draft";
    approved_by = [];
    rejected_by = [];
  });
  to_json = λ instructions. 1 ∷ 2 ∷ [];
  submit = λ n requests. ok "signature";
}

abbrev start : Net Request
start = record { clock = 0; sent = [] }

abbrev created : CreatedProposal
created = record { proposal = "proposal"; transaction_index = 5; signature = "signature" }

-- a kind that the client has no status for
draft_is_active : status_of "Draft" ≡ active
unfolding status_of get
draft_is_active = refl
