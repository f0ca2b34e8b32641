-- ===== src/Tuktuk/Client/Laws.antt =====
-- What `queueTask` and `getOrCreateTaskQueue` send, and what they return.
use solana_kit_plugins.Prelude.{
  ◌+◌, String, List, [], ◌∷◌, ◌++◌, Option, none, some, Bool, true, false, ◌≡◌, refl, ===_iff,
}
use solana_kit_plugins.Prelude.Result.{ok, throw, Result}
use solana_kit_plugins.Bytes.{Bytes}
use solana_kit_plugins.Connection.{Net}
use solana_kit_plugins.Tuktuk.Client.{
  Ix, Env, NameMapping, task_queue_authority, find_mapping, get_or_create_task_queue,
  add_queue_authority, Error,
}
use solana_kit_plugins.Prelude.{All, ◌≢◌, Bool-cases, ◌===◌, ===_refl}
use solana_kit_plugins.Prelude.{inl, inr, if◌then◌else◌}
use solana_kit_plugins.Prelude.{ap}
use solana_kit_plugins.Prelude.Effect.{continue-state, continue, pure}
use solana_kit_plugins.Prelude.Effect.{continue, pure, continue-state}

-- the result of a call whose signature goes into the method's own result
abbrev pub with_signature : {A B : Type 0} → (A → B) → Result Error A → Result Error B
with_signature f (ok a) = ok (f a)
with_signature f (throw e) = throw e

continue-result :
    {S A B : Type 0} (r : Result Error A) (f : A → B) (s : S)
    → (continue r (λ a. pure (f a)) s).0 ≡ with_signature f r
continue-result (ok a) f s = refl
continue-result (throw e) f s = refl

-- a mapping that is not there, or has another name
abbrev pub IsOther : String → Option NameMapping → Type 0
IsOther name none = Unit
IsOther name (some m) = m.name ≢ name

find_mapping-append :
    (before after : List (Option NameMapping)) (m : NameMapping)
    → All (IsOther m.name) before
    → find_mapping (before ++ some m ∷ after) m.name ≡ some m
unfolding find_mapping
find_mapping-append [] after m others = rw (===_refl m.name) refl
find_mapping-append (none ∷ before) after m (_, others) = find_mapping-append before after m others
find_mapping-append (some k ∷ before) after m (other, others) =
    elim (Bool-cases (k.name === m.name)) [
      | inl e ↦ absurd (other ((===_iff k.name m.name).0 e))
      | inr e ↦ rw e (find_mapping-append before after m others)
    ]

module _ (env : Env) (user : String) (s : Net Ix) where
  -- A queue whose name is mapped is never created again: wherever in the list the first mapping of
  -- the name stands, its queue is the one that is used. If the user is an authority of the mapped
  -- queue, nothing is sent and the queue is returned. Otherwise only the instruction that makes the
  -- user one is sent, and the queue is returned unless the sending throws.
  pub get_or_create_task_queue_mapped :
      (before after : List (Option NameMapping)) (m : NameMapping) (exists : Bool)
      → env.name_mappings s.clock ≡ ok (before ++ some m ∷ after)
      → All (IsOther m.name) before
      → env.queue_authority_exists (s.clock + 1) (task_queue_authority env m.task_queue user)
        ≡ ok exists
      → ((get_or_create_task_queue env user m.name s).1.sent ≡ (
          if exists
          then s.sent
          else s.sent
            ++ (add_queue_authority (record {
              payer = user;
              update_authority = user;
              queue_authority = user;
              task_queue_authority = task_queue_authority env m.task_queue user;
              task_queue = m.task_queue;
            })
                ∷ [])
              ∷ []))
        × ((get_or_create_task_queue env user m.name s).0 ≡ (
            if exists
            then ok m.task_queue
            else with_signature
                (λ signature. m.task_queue)
                (env.submit (s.clock + 1 + 1) (
                  add_queue_authority (record {
                    payer = user;
                    update_authority = user;
                    queue_authority = user;
                    task_queue_authority = task_queue_authority env m.task_queue user;
                    task_queue = m.task_queue;
                  })
                  ∷ []))))
  unfolding get_or_create_task_queue
  get_or_create_task_queue_mapped before after m true listed others authority = (
    rw (listed, find_mapping-append before after m others, authority) refl,
    rw (listed, find_mapping-append before after m others, authority) refl,
  )
  get_or_create_task_queue_mapped before after m false listed others authority = (
    rw (listed, find_mapping-append before after m others, authority)
        (ap (λ (n : Net Ix). n.sent)
          (continue-state (env.submit (s.clock + 1 + 1) _) (λ _. m.task_queue) _)),
    rw (listed, find_mapping-append before after m others, authority)
        (continue-result (env.submit (s.clock + 1 + 1) _) (λ _. m.task_queue) _),
  )
