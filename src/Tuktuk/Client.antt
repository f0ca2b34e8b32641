-- ===== src/Tuktuk/Client.antt =====
-- kit-plugin-tuktuk-task-scheduler/src/lib/tuktuk-client.ts: the methods of `TukTukClient` that talk
-- to the network. The generated account fetchers, the two programs' addresses, the derivation of
-- addresses and SHA-256 are parameters; a generated instruction builder is the record of its input.
pub mod Laws
use solana_kit_plugins.Prelude.{
  ℕ, ◌*◌, String, List, [], ◌∷◌, Option, none, some, Bool, true, false, ◌==◌, ◌===◌, if◌then◌else◌,
}
use solana_kit_plugins.Prelude.Int.{ℤ}
use solana_kit_plugins.Prelude.Result.{Result, ok, throw}
use solana_kit_plugins.Prelude.Effect.{Exec, ◌>>=◌, pure, lift, require}
use solana_kit_plugins.Bytes.{Bytes}
use solana_kit_plugins.Connection.{
  Seed, text, bytes, Net, ask, send, AccountData, pair, string, raw,
}
use solana_kit_plugins.Tuktuk.Compile.{CompiledTransaction}
use solana_kit_plugins.Tuktuk.Bitmap.{next_available_task_id}
use solana_kit_plugins.Tuktuk.Seed.{big_int_to_seed}

pub data Error : Type 0 where
  config_not_found : Error
  task_queue_account_not_found : Error
  no_available_task_slots : Error
  -- any error of a call to the network or of a decoder
  failure : String → Error
  error_fetching_cron_job : String → Error → Error

pub data TaskTrigger : Type 0 where
  now : TaskTrigger
  timestamp : ℤ → TaskTrigger

-- `CompiledTransaction | { url: string }`
pub data TransactionParam : Type 0 where
  compiled : CompiledTransaction → TransactionParam
  url : String → TransactionParam

-- `TransactionSourceV0Args`
pub data TransactionSource : Type 0 where
  compiled_v0 : CompiledTransaction → TransactionSource
  remote_v0 : (url : String) (signer : String) → TransactionSource

pub record QueueTaskParams : Type 0 where
  pub trigger : TaskTrigger
  pub transaction : TransactionParam
  pub crank_reward : Option ℕ
  pub free_tasks : Option ℕ
  pub description : Option String

pub record CronJobParams : Type 0 where
  pub name : String
  pub schedule : String
  pub free_tasks_per_transaction : ℕ
  pub num_tasks_per_queue_call : ℕ

pub record InitializeTaskQueue : Type 0 where
  pub payer : String
  pub tuktuk_config : String
  pub update_authority : String
  pub task_queue : String
  pub task_queue_name_mapping : String
  pub min_crank_reward : ℕ
  pub name : String
  pub capacity : ℕ
  pub lookup_tables : List String
  pub stale_task_age : ℕ

pub record AddQueueAuthority : Type 0 where
  pub payer : String
  pub update_authority : String
  pub queue_authority : String
  pub task_queue_authority : String
  pub task_queue : String

pub record QueueTask : Type 0 where
  pub payer : String
  pub queue_authority : String
  pub task_queue : String
  pub task : String
  pub id : ℕ
  pub trigger : TaskTrigger
  pub transaction : TransactionSource
  pub crank_reward : Option ℕ
  pub free_tasks : ℕ
  pub description : String

pub record InitializeCronJob : Type 0 where
  pub payer : String
  pub queue_authority : String
  pub authority : String
  pub cron_job : String
  pub cron_job_name_mapping : String
  pub task_queue : String
  pub task : String
  pub schedule : String
  pub name : String
  pub free_tasks_per_transaction : ℕ
  pub num_tasks_per_queue_call : ℕ

pub record AddCronTransaction : Type 0 where
  pub payer : String
  pub authority : String
  pub cron_job : String
  pub cron_job_transaction : String
  pub index : ℕ
  pub transaction_source : TransactionSource

pub data Ix : Type 0 where
  initialize_task_queue : InitializeTaskQueue → Ix
  add_queue_authority : AddQueueAuthority → Ix
  queue_task : QueueTask → Ix
  initialize_cron_job : InitializeCronJob → Ix
  add_cron_transaction : AddCronTransaction → Ix
  transfer_sol : (source destination : String) (amount : ℕ) → Ix

-- the name and the queue of an existing name mapping
pub record NameMapping : Type 0 where
  pub name : String
  pub task_queue : String

-- Each call of the network gets the number of the calls before it. `none` is an account that does
-- not exist.
pub record Env : Type 0 where
  pub tuktuk_program : String
  pub cron_program : String
  pub pda : String → List Seed → String
  pub sha256 : String → Bytes
  pub from_base64 : String → Bytes
  -- the generated decoder of a task queue, and the bitmap that it finds
  pub decode_task_bitmap : Bytes → Result Error Bytes
  pub name_mappings : ℕ → Result Error (List (Option NameMapping))
  pub next_task_queue_id : ℕ → String → Result Error (Option ℕ)
  pub queue_authority_exists : ℕ → String → Result Error Bool
  pub account_info : ℕ → String → Result Error (Option AccountData)
  pub task_bitmap : ℕ → String → Result Error Bytes
  pub next_cron_job_id : ℕ → String → Result Error (Option ℕ)
  pub cron_job_of_mapping : ℕ → String → Result Error (Option String)
  pub submit : ℕ → List Ix → Result Error String

abbrev pub or_else {ℓ} : {A : Type ℓ} → Option A → A → A
or_else none d = d
or_else (some a) d = a

-- `nameMappings.find((m) => m.exists && m.data.name === taskQueueName)`
unfoldable pub find_mapping : List (Option NameMapping) → String → Option NameMapping
find_mapping [] name = none
find_mapping (none ∷ rest) name = find_mapping rest name
find_mapping (some m ∷ rest) name = if m.name === name then some m else find_mapping rest name

-- `x || null` on a bigint: 0n is falsy
abbrev pub non_zero : Option ℕ → Option ℕ
non_zero none = none
non_zero (some n) = if n == 0 then none else some n

module _ (env : Env) where
  open env use {tuktuk_program, cron_program, pda, sha256, from_base64}

  abbrev pub tuktuk_config : String
  tuktuk_config = pda tuktuk_program (text "tuktuk_config" ∷ [])

  abbrev pub task_address : String → ℕ → String
  task_address task_queue task_id =
      pda tuktuk_program (text "task" ∷ text task_queue ∷ bytes (big_int_to_seed task_id 2) ∷ [])

  -- the branch of getOrCreateTaskQueue that creates the queue
  unfoldable pub create_task_queue : String → String → Exec (Net Ix) Error String
  create_task_queue user name = do
    found ← ask (λ n. env.next_task_queue_id n tuktuk_config)
    next_task_queue_id ← require config_not_found found
    let task_queue =
        pda tuktuk_program (
          text "task_queue"
          ∷ text tuktuk_config
          ∷ bytes (big_int_to_seed next_task_queue_id 4)
          ∷ [])
    _ ← send env.submit (
        initialize_task_queue (record {
          payer = user;
          tuktuk_config = tuktuk_config;
          update_authority = user;
          task_queue = task_queue;
          task_queue_name_mapping =
              pda tuktuk_program
                (text "task_queue_name_mapping" ∷ text tuktuk_config ∷ bytes (sha256 name) ∷ []);
          min_crank_reward = 10000;
          name = name;
          capacity = 10;
          lookup_tables = [];
          stale_task_age = 48 * (60 * 60);
        })
        ∷ [])
    pure task_queue

  abbrev pub find_or_create : String → String → Option NameMapping → Exec (Net Ix) Error String
  find_or_create user name none = create_task_queue user name
  find_or_create user name (some mapping) = pure mapping.task_queue

  abbrev pub task_queue_authority : String → String → String
  task_queue_authority task_queue user =
      pda tuktuk_program (text "task_queue_authority" ∷ text task_queue ∷ text user ∷ [])

  -- `if (!queueAuthorityAccount.exists) { … }`, and the return
  abbrev pub ensure_authority : String → String → Bool → Exec (Net Ix) Error String
  ensure_authority user task_queue true = pure task_queue
  ensure_authority user task_queue false = do
    _ ← send env.submit (
        add_queue_authority (record {
          payer = user;
          update_authority = user;
          queue_authority = user;
          task_queue_authority = task_queue_authority task_queue user;
          task_queue = task_queue;
        })
        ∷ [])
    pure task_queue

  unfoldable pub get_or_create_task_queue : String → String → Exec (Net Ix) Error String
  unfolding create_task_queue
  get_or_create_task_queue user name = do
    mappings ← ask env.name_mappings
    task_queue ← find_or_create user name (find_mapping mappings name)
    exists ← ask (λ n. env.queue_authority_exists n (task_queue_authority task_queue user))
    ensure_authority user task_queue exists

  abbrev pub account_bytes : AccountData → Bytes
  account_bytes (pair base64 _) = from_base64 base64
  account_bytes (string base64) = from_base64 base64
  account_bytes (raw data_bytes) = data_bytes

  abbrev pub transaction_source : String → TransactionParam → TransactionSource
  transaction_source user (url u) = remote_v0 u user
  transaction_source user (compiled t) = compiled_v0 t

  -- the instruction of queueTask for a task id
  abbrev pub queue_task_instruction : String → String → QueueTaskParams → ℕ → Ix
  queue_task_instruction user task_queue params task_id = queue_task (record {
    payer = user;
    queue_authority = user;
    task_queue = task_queue;
    task = task_address task_queue task_id;
    id = task_id;
    trigger = params.trigger;
    transaction = transaction_source user params.transaction;
    crank_reward = non_zero params.crank_reward;
    free_tasks = or_else params.free_tasks 0;
    description = or_else params.description "";
  })

  -- queueTask: the signature, the task id and the task's address
  unfoldable pub queue_task_method :
      String → String → QueueTaskParams → Exec (Net Ix) Error (String × ℕ × String)
  queue_task_method user task_queue params = do
    found ← ask (λ n. env.account_info n task_queue)
    account ← require task_queue_account_not_found found
    task_bitmap ← lift (env.decode_task_bitmap (account_bytes account))
    task_id ← require no_available_task_slots (next_available_task_id task_bitmap)
    signature ← send env.submit (queue_task_instruction user task_queue params task_id ∷ [])
    pure (signature, task_id, task_address task_queue task_id)

  abbrev pub cron_job_address : String → ℕ → String
  cron_job_address user id =
      pda cron_program (text "cron_job" ∷ text user ∷ bytes (big_int_to_seed id 4) ∷ [])

  unfoldable pub create_cron_job : String → String → CronJobParams → Exec (Net Ix) Error String
  create_cron_job user task_queue params = do
    found ←
        ask
          (λ n. env.next_cron_job_id n (pda cron_program (text "user_cron_jobs" ∷ text user ∷ [])))
    let cron_job = cron_job_address user (or_else found 0)
    task_bitmap ← ask (λ n. env.task_bitmap n task_queue)
    next_task_id ← require no_available_task_slots (next_available_task_id task_bitmap)
    _ ← send env.submit (
        initialize_cron_job (record {
          payer = user;
          queue_authority = user;
          authority = user;
          cron_job = cron_job;
          cron_job_name_mapping =
              pda cron_program
                (text "cron_job_name_mapping" ∷ text user ∷ bytes (sha256 params.name) ∷ []);
          task_queue = task_queue;
          task = task_address task_queue next_task_id;
          schedule = params.schedule;
          name = params.name;
          free_tasks_per_transaction = params.free_tasks_per_transaction;
          num_tasks_per_queue_call = params.num_tasks_per_queue_call;
        })
        ∷ [])
    pure cron_job

  unfoldable pub add_cron_transaction_method :
      String → String → ℕ → CompiledTransaction → Exec (Net Ix) Error String
  add_cron_transaction_method user cron_job transaction_id transaction = send env.submit (
      add_cron_transaction (record {
        payer = user;
        authority = user;
        cron_job = cron_job;
        cron_job_transaction = pda cron_program (
            text "cron_job_transaction"
            ∷ text cron_job
            ∷ bytes (big_int_to_seed transaction_id 4)
            ∷ []);
        index = transaction_id;
        transaction_source = compiled_v0 transaction;
      })
      ∷ [])

  unfoldable pub get_cron_job_for_name : String → String → Exec (Net Ix) Error (Option String)
  get_cron_job_for_name user cron_name s =
      let (r, s') =
        ask
          (λ n. env.cron_job_of_mapping n (
            pda cron_program
              (text "cron_job_name_mapping" ∷ text user ∷ bytes (sha256 cron_name) ∷ [])))
          s in
      (elim r [ ok found ↦ ok found | throw e ↦ throw (error_fetching_cron_job cron_name e) ], s')

  unfoldable pub fund_task_queue : String → String → ℕ → Exec (Net Ix) Error String
  fund_task_queue user task_queue amount =
      send env.submit (transfer_sol user task_queue amount ∷ [])
