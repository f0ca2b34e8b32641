-- ===== src/Tuktuk/Compile/Index.antt =====
-- kit-plugin-tuktuk-task-scheduler/src/lib/tuktuk-client.ts: the indices in compiled instructions.
use solana_kit_plugins.Prelude.{
  ℕ, suc, ◌+◌, ◌<◌, ◌≡◌, refl, ap, ◌∙◌, String, List, [], ◌∷◌, true, false, some, includes,
  get_elem?, length, arith, Bool-cases, inl, inr, ===_iff, Option, ◌≤◌, Bool, map,
}
use solana_kit_plugins.Prelude.Map.{Map, get, set, get-set}
use solana_kit_plugins.Tuktuk.Compile.{
  index_from, to_byte, Instruction, CompiledInstruction, AccountMeta, compile_tuk_tuk_transaction,
  or_empty, compile_instruction,
}
use solana_kit_plugins.Prelude.{count, ◌++◌, ◌||◌}
use solana_kit_plugins.Tuktuk.Compile.{account_meta}
use solana_kit_plugins.Tuktuk.Compile.Collect.{
  all_mentions, addresses_of, count-compile_tuk_tuk_transaction,
}
use solana_kit_plugins.Prelude.{none, ◌===◌, append_assoc}
use mathlib.Core.Path.{ap₂}
use mathlib.Core.List.{map-append}

index_from_absent :
    (i : ℕ) (accounts : List String) (m : Map ℕ) (a : String)
    → includes accounts a ≡ false
    → get (index_from i accounts m) a ≡ get m a
index_from_absent i [] m a h = refl
index_from_absent i (b ∷ accounts) m a h =
    ground (arith, index_from_absent (suc i) accounts (set m b i) a, get-set m b a i, ===_iff b a)

-- A key of the map is found at an index at which it stands.
index_from_present :
    (i : ℕ) (accounts : List String) (m : Map ℕ) (a : String)
    → includes accounts a ≡ true
    → (j : ℕ) × (get (index_from i accounts m) a ≡ some (i + j))
      × (get_elem? accounts j ≡ some a)
      × (j < length accounts)
index_from_present i [] m a h = absurd (ground arith)
index_from_present i (b ∷ accounts) m a h = elim (Bool-cases (includes accounts a)) [
  | inl e ↦
      let (j, found, there, small) = index_from_present (suc i) accounts (set m b i) a e in
      (suc j, found ∙ ap some (omega arith), there, omega arith)
  | inr e ↦ (
    0,
    index_from_absent (suc i) accounts (set m b i) a e
        ∙ get-set m b a i
        ∙ ground (arith, ===_iff b a),
    ground (arith, ===_iff b a),
    omega arith,
  )
]

includes_of_count : (a : String) (xs : List String) → count a xs ≡ 1 → includes xs a ≡ true
includes_of_count a [] h = absurd (omega arith)
includes_of_count a (x ∷ xs) h = ground (arith, includes_of_count a xs)

includes-append :
    (xs ys : List String) (a : String) → includes (xs ++ ys) a ≡ (includes xs a || includes ys a)
includes-append [] ys a = refl
includes-append (x ∷ xs) ys a = ground (arith, includes-append xs ys a)

abbrev look_up : List String → Option ℕ → Option String
look_up accounts none = none
look_up accounts (some i) = get_elem? accounts i

-- The key of a mentioned address, and the byte of one among at most 256, point at it.
module _ (accounts : List String) (a : String) (h : includes accounts a ≡ true) where
  look_up-get : look_up accounts (get (index_from 0 accounts []) a) ≡ some a
  look_up-get =
      let (j, found, there, _) = index_from_present 0 accounts [] a h in
      rw found (ap (get_elem? accounts) (omega arith) ∙ there)

  get_elem?-to_byte :
      length accounts ≤ 256
      → get_elem? accounts (to_byte (get (index_from 0 accounts []) a)) ≡ some a
  get_elem?-to_byte few =
      let (j, found, there, small) = index_from_present 0 accounts [] a h in
      rw found (ap (get_elem? accounts) (omega arith) ∙ there)

module _ {Role : Type 0} (is_signer_role is_writable_role : Role → Bool) where
  abbrev all_addresses : List (Instruction Role) → List String
  all_addresses ixs = addresses_of (all_mentions is_signer_role is_writable_role ixs)

  -- what the indices of a compiled instruction stand for, and what they are to stand for
  abbrev pub resolved : List String → CompiledInstruction → Option String × List (Option String)
  resolved accounts ci =
      (look_up accounts ci.program_id_index, map (get_elem? accounts) ci.accounts)

  abbrev pub addressed : Instruction Role → Option String × List (Option String)
  addressed ix = (some ix.program_address, map (λ a. some a.address) (or_empty ix.accounts))

  abbrev pair : Option String → List (Option String) → Option String × List (Option String)
  pair i bytes = (i, bytes)

  includes-all_addresses :
      (ix : Instruction Role) (ixs : List (Instruction Role)) (a : String)
      → includes (all_addresses (ix ∷ ixs)) a ≡ (
          includes
            (addresses_of
              (map (account_meta is_signer_role is_writable_role) (or_empty ix.accounts)))
            a
          || (ix.program_address === a || includes (all_addresses ixs) a))
  includes-all_addresses ix ixs a =
      ap (λ l. includes l a) split ∙ includes-append _ (ix.program_address ∷ all_addresses ixs) a
    where
      split :
          all_addresses (ix ∷ ixs)
          ≡ addresses_of (map (account_meta is_signer_role is_writable_role) (or_empty ix.accounts))
            ++ (ix.program_address ∷ all_addresses ixs)
      split = simp (map-append, append_assoc)

  module _ (accounts : List String) (few : length accounts ≤ 256) where
    resolved_accounts :
        (metas : List (AccountMeta Role))
        → ((a : String)
            → includes (addresses_of (map (account_meta is_signer_role is_writable_role) metas)) a
              ≡ true
            → includes accounts a ≡ true)
        → map
            (get_elem? accounts)
            (map (λ a. to_byte (get (index_from 0 accounts []) a.address)) metas)
          ≡ map (λ a. some a.address) metas
    resolved_accounts [] h = refl
    resolved_accounts (m ∷ metas) h =
        ap₂ ◌∷◌
          (get_elem?-to_byte accounts m.address
            (h m.address (ground (arith, ===_iff m.address m.address))) few)
          (resolved_accounts metas (λ a e. h a (ground (arith, e))))

    resolved_all :
        (ixs : List (Instruction Role))
        → ((a : String) → includes (all_addresses ixs) a ≡ true → includes accounts a ≡ true)
        → map (resolved accounts) (
            map
              (compile_instruction is_signer_role is_writable_role (index_from 0 accounts []))
              ixs)
          ≡ map addressed ixs
    resolved_all [] h = refl
    resolved_all (ix ∷ ixs) h =
        ap₂ ◌∷◌
          (ap₂ pair
            (look_up-get accounts ix.program_address (
              h ix.program_address (
                ground (
                  arith,
                  includes-all_addresses ix ixs ix.program_address,
                  ===_iff ix.program_address ix.program_address,
                ))))
            (resolved_accounts (or_empty ix.accounts)
              (λ a e. h a (ground (arith, e, includes-all_addresses ix ixs a)))))
          (resolved_all ixs (λ a e. h a (ground (arith, e, includes-all_addresses ix ixs a))))

  -- If there are at most 256 accounts, each index of each compiled instruction points at the
  -- account, and at the program, that the instruction names at that place.
  pub compile_tuk_tuk_transaction_indices :
      (instructions : List (Instruction Role))
      → length (compile_tuk_tuk_transaction is_signer_role is_writable_role instructions).accounts
        ≤ 256
      → map
          (resolved
            (compile_tuk_tuk_transaction is_signer_role is_writable_role instructions).accounts)
          (compile_tuk_tuk_transaction is_signer_role is_writable_role instructions).instructions
        ≡ map addressed instructions
  compile_tuk_tuk_transaction_indices instructions few =
      unfold compile_tuk_tuk_transaction in
      resolved_all _ few instructions (λ a e. includes_of_count a _ (
        count-compile_tuk_tuk_transaction is_signer_role is_writable_role instructions a
        ∙ rw e refl))
