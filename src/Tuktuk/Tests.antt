-- ===== src/Tuktuk/Tests.antt =====
-- Concrete runs of the TukTuk client.
use solana_kit_plugins.Prelude.{
  String, List, [], ◌∷◌, ◌≡◌, refl, arith, none, some, Bool, true, false, map,
}
use solana_kit_plugins.Tuktuk.Compile.{
  Instruction, AccountMeta, compile_tuk_tuk_transaction, collect, Meta, collect_instruction,
}
use solana_kit_plugins.Tuktuk.Compile.Order.{compile_tuk_tuk_transaction_groups}
use solana_kit_plugins.Tuktuk.Compile.Collect.{collect-first_mentions, first_mentions}
use solana_kit_plugins.Tuktuk.Compile.Index.{compile_tuk_tuk_transaction_indices, resolved}
use solana_kit_plugins.Prelude.Result.{ok, throw}
use solana_kit_plugins.Connection.{Net, raw}
use solana_kit_plugins.Tuktuk.Client.{
  Env, Ix, QueueTaskParams, now, url, get_or_create_task_queue, add_queue_authority,
}
use solana_kit_plugins.Tuktuk.Client.Laws.{get_or_create_task_queue_mapped}
use solana_kit_plugins.Prelude.{replicate}
use solana_kit_plugins.Tuktuk.Monitor.{Tick, monitor_task, monitor_task_first}

-- `AccountRole`
data Role : Type 0 where
  readonly writable readonly_signer writable_signer : Role

abbrev is_signer_role : Role → Bool
is_signer_role readonly = false
is_signer_role writable = false
is_signer_role readonly_signer = true
is_signer_role writable_signer = true

abbrev is_writable_role : Role → Bool
is_writable_role readonly = false
is_writable_role writable = true
is_writable_role readonly_signer = false
is_writable_role writable_signer = true

abbrev account : String → Role → AccountMeta Role
account address role = record { address = address; role = role }

-- "vault" is mentioned as a read-only account first and as a writable one later
abbrev instructions : List (Instruction Role)
instructions =
    record {
      program_address = "token";
      accounts = some (account "vault" readonly ∷ account "user" writable_signer ∷ []);
      payload = some (1 ∷ 2 ∷ []);
    }
    ∷ record {
      program_address = "memo";
      accounts = some (account "vault" writable ∷ account "witness" readonly_signer ∷ []);
      payload = none;
    }
    ∷ []

abbrev compiled_accounts : List String
compiled_accounts = "user" ∷ "witness" ∷ "vault" ∷ "token" ∷ "memo" ∷ []

compile_tuk_tuk_transaction_groups_example :
    ((compile_tuk_tuk_transaction is_signer_role is_writable_role instructions).accounts
      ≡ compiled_accounts)
    × ((compile_tuk_tuk_transaction is_signer_role is_writable_role instructions).num_rw_signers
        ≡ 1)
    × ((compile_tuk_tuk_transaction is_signer_role is_writable_role instructions).num_ro_signers
        ≡ 1)
    × ((compile_tuk_tuk_transaction is_signer_role is_writable_role instructions).num_rw ≡ 0)
unfolding collect collect_instruction
compile_tuk_tuk_transaction_groups_example =
    compile_tuk_tuk_transaction_groups is_signer_role is_writable_role instructions

abbrev meta : String → Bool → Bool → Meta
meta address is_signer is_writable = record {
  address = address;
  is_signer = is_signer;
  is_writable = is_writable;
}

-- the later mention of "vault" does not make it writable
collect-first_mentions_example :
    (collect is_signer_role is_writable_role instructions).metas
    ≡ meta "vault" false false
      ∷ meta "user" true true
      ∷ meta "token" false false
      ∷ meta "witness" true false
      ∷ meta "memo" false false
      ∷ []
unfolding first_mentions
collect-first_mentions_example = collect-first_mentions is_signer_role is_writable_role instructions

compile_tuk_tuk_transaction_indices_example :
    map
      (resolved is_signer_role is_writable_role
        (compile_tuk_tuk_transaction is_signer_role is_writable_role instructions).accounts)
      (compile_tuk_tuk_transaction is_signer_role is_writable_role instructions).instructions
    ≡ (some "token", some "vault" ∷ some "user" ∷ [])
      ∷ (some "memo", some "vault" ∷ some "witness" ∷ [])
      ∷ []
unfolding compile_tuk_tuk_transaction collect collect_instruction
compile_tuk_tuk_transaction_indices_example =
    compile_tuk_tuk_transaction_indices is_signer_role is_writable_role instructions (omega arith)

-- a network with one queue, whose bitmap has the first nine ids in use
abbrev network : Env
network = record {
  tuktuk_program = "tuktuk";
  cron_program = "cron";
  pda = λ program seeds. program;
  sha256 = λ name. replicate 32 0;
  from_base64 = λ text. [];
  decode_task_bitmap = λ account. ok account;
  name_mappings = λ n. ok (none ∷ some (record { name = "tasks"; task_queue = "queue" }) ∷ []);
  next_task_queue_id = λ n config. ok (some 0);
  queue_authority_exists = λ n address. ok false;
  account_info = λ n address. ok (some (raw (0xff ∷ 1 ∷ [])));
  task_bitmap = λ n queue. ok (0xff ∷ 1 ∷ []);
  next_cron_job_id = λ n address. ok none;
  cron_job_of_mapping = λ n mapping. ok none;
  submit = λ n transaction. ok "signature";
}

abbrev fresh : Net Ix
fresh = record { clock = 0; sent = [] }

abbrev task : QueueTaskParams
task = record {
  trigger = now;
  transaction = url "https://example.org/task";
  crank_reward = some 0;
  free_tasks = none;
  description = none;
}

get_or_create_task_queue_mapped_example :
    ((get_or_create_task_queue network "user" "tasks" fresh).1.sent
      ≡ (add_queue_authority (record {
        payer = "user";
        update_authority = "user";
        queue_authority = "user";
        task_queue_authority = "tuktuk";
        task_queue = "queue";
      })
          ∷ [])
        ∷ [])
    × ((get_or_create_task_queue network "user" "tasks" fresh).0 ≡ ok "queue")
get_or_create_task_queue_mapped_example =
    get_or_create_task_queue_mapped network "user" fresh (none ∷ []) []
      (record { name = "tasks"; task_queue = "queue" }) false refl (tt, tt) refl

abbrev pending_tick : Tick
pending_tick = record { elapsed = 2000; account = ok true }

-- the network throws at the second run
monitor_task_first_example :
    (monitor_task 60000 (pending_tick ∷ []) ≡ none)
    × (monitor_task 60000 (pending_tick ∷ record { elapsed = 4000; account = throw "offline" } ∷ [])
        ≡ some true)
monitor_task_first_example =
    monitor_task_first 60000 (pending_tick ∷ [])
      (record { elapsed = 4000; account = throw "offline" }) [] ((omega arith, refl), tt)
