-- ===== src/Tuktuk/Compile/Collect.antt =====
-- kit-plugin-tuktuk-task-scheduler/src/lib/tuktuk-client.ts: which accounts are collected, and with
-- which flags.
use solana_kit_plugins.Prelude.{
  ◌≡◌, refl, ap, ◌∙◌, sym, String, List, [], ◌∷◌, ◌++◌, map, Bool, true, false, not, ◌&&◌, filter,
  sort, insert_sorted, includes, count, append_assoc, append-nil, arith, Bool-cases, inl, inr,
  if◌then◌else◌, ===_iff,
}
use solana_kit_plugins.Tuktuk.Compile.{
  Meta, Collected, Instruction, add_meta, account_meta, program_meta, or_empty, order_metas,
  collect_instruction, collect, compile_tuk_tuk_transaction, AccountMeta,
}
use mathlib.Core.List.{foldl}
use solana_kit_plugins.Prelude.{◌===◌, ◌||◌}
use solana_kit_plugins.Prelude.Int.{ltb_ℤ, pos}

-- The first mention of each address, in order.
unfoldable pub first_mentions : List Meta → List Meta
first_mentions [] = []
first_mentions (m ∷ ms) = m ∷ filter (λ n. not (n.address === m.address)) (first_mentions ms)

filter-filter {ℓ} :
    {A : Type ℓ} (p q r : A → Bool) (xs : List A)
    → ((x : A) → (q x && p x) ≡ r x)
    → filter p (filter q xs) ≡ filter r xs
filter-filter p q r [] h = refl
filter-filter p q r (x ∷ xs) h = ground (arith, h x, filter-filter p q r xs h)

filter_all {ℓ} : {A : Type ℓ} (xs : List A) → filter (λ _. true) xs ≡ xs
filter_all [] = refl
filter_all (x ∷ xs) = ap (◌∷◌ x) (filter_all xs)

includes-append_one :
    (seen : List String) (a b : String) → includes (seen ++ a ∷ []) b ≡ (includes seen b || a === b)
includes-append_one [] a b = ground arith
includes-append_one (s ∷ seen) a b = ground (arith, includes-append_one seen a b)

abbrev is_fresh : List String → Meta → Bool
is_fresh seen m = not (includes seen m.address)

add_meta_seen : (c : Collected) (m : Meta) → includes c.seen m.address ≡ true → add_meta c m ≡ c
add_meta_seen c m e = rw e refl

abbrev with_meta : Collected → Meta → Collected
with_meta c m = record { seen = c.seen ++ m.address ∷ []; metas = c.metas ++ m ∷ [] }

add_meta_new :
    (c : Collected) (m : Meta) → includes c.seen m.address ≡ false → add_meta c m ≡ with_meta c m
add_meta_new c m e = rw e refl

-- what is left of the later mentions when a first one was seen before, and when it was not
module _ (seen : List String) (m : Meta) (ms : List Meta) where
  abbrev later : List Meta
  later = filter (λ n. not (n.address === m.address)) ms

  fresh_seen :
      includes seen m.address ≡ true
      → filter (is_fresh seen) ms ≡ filter (is_fresh seen) (m ∷ later)
  fresh_seen e = rw e (
      sym (
        filter-filter (is_fresh seen) _ (is_fresh seen) ms
          (λ n. ground (arith, e, ===_iff n.address m.address))))

  fresh_new :
      includes seen m.address ≡ false
      → m ∷ filter (is_fresh (seen ++ m.address ∷ [])) ms ≡ filter (is_fresh seen) (m ∷ later)
  fresh_new e = rw e (
      ap (◌∷◌ m) (
        sym (
          filter-filter (is_fresh seen) _ (is_fresh (seen ++ m.address ∷ [])) ms (λ n. ground (
            arith,
            includes-append_one seen m.address n.address,
            ===_iff n.address m.address,
            ===_iff m.address n.address,
          )))))

-- the loop collects the first mentions of the addresses that it has not seen
add_all-fresh :
    (c : Collected) (ms : List Meta)
    → (foldl add_meta c ms).metas ≡ c.metas ++ filter (is_fresh c.seen) (first_mentions ms)
unfolding first_mentions
add_all-fresh c [] = sym (append-nil c.metas)
add_all-fresh c (m ∷ ms) = elim (Bool-cases (includes c.seen m.address)) [
  | inl e ↦
      ap (λ c'. (foldl add_meta c' ms).metas) (add_meta_seen c m e)
      ∙ add_all-fresh c ms
      ∙ ap (◌++◌ c.metas) (fresh_seen c.seen m (first_mentions ms) e)
  | inr e ↦
      ap (λ c'. (foldl add_meta c' ms).metas) (add_meta_new c m e)
      ∙ add_all-fresh (with_meta c m) ms
      ∙ append_assoc c.metas (m ∷ []) _
      ∙ ap (◌++◌ c.metas) (fresh_new c.seen m (first_mentions ms) e)
]

abbrev pub addresses_of : List Meta → List String
addresses_of ms = map (λ m. m.address) ms

count-filter_ne :
    (a b : String) (ms : List Meta)
    → count a (addresses_of (filter (λ n. not (n.address === b)) ms))
      ≡ (if b === a then 0 else count a (addresses_of ms))
count-filter_ne a b [] = ground arith
count-filter_ne a b (m ∷ ms) =
    ground (arith, count-filter_ne a b ms, ===_iff m.address b, ===_iff b a, ===_iff m.address a)

count-first_mentions :
    (a : String) (ms : List Meta)
    → count a (addresses_of (first_mentions ms)) ≡ (if includes (addresses_of ms) a then 1 else 0)
unfolding first_mentions
count-first_mentions a [] = refl
count-first_mentions a (m ∷ ms) =
    ground (arith, count-filter_ne a m.address (first_mentions ms), count-first_mentions a ms)

count-insert :
    (a : String) (x : Meta) (ms : List Meta)
    → count a (addresses_of (insert_sorted order_metas x ms)) ≡ count a (addresses_of (x ∷ ms))
count-insert a x [] = refl
count-insert a x (m ∷ ms) = elim (Bool-cases (ltb_ℤ (pos 0) (order_metas x m))) [
  | inl e ↦ rw e (ground (arith, count-insert a x ms))
  | inr e ↦ rw e refl
]

count-sort :
    (a : String) (ms : List Meta)
    → count a (addresses_of (sort order_metas ms)) ≡ count a (addresses_of ms)
count-sort a [] = refl
count-sort a (m ∷ ms) = count-insert a m (sort order_metas ms) ∙ ground (arith, count-sort a ms)

module _ {Role : Type 0} (is_signer_role is_writable_role : Role → Bool) where
  -- what an instruction mentions, in the order in which the loop meets it: its accounts with their
  -- roles, then its program as a read-only account
  abbrev pub mentions : Instruction Role → List Meta
  mentions instruction =
      map (account_meta is_signer_role is_writable_role) (or_empty instruction.accounts)
      ++ program_meta is_signer_role is_writable_role instruction ∷ []

  abbrev pub all_mentions : List (Instruction Role) → List Meta
  all_mentions [] = []
  all_mentions (instruction ∷ instructions) = mentions instruction ++ all_mentions instructions

  foldl-accounts :
      (c : Collected) (accounts : List (AccountMeta Role)) (ms : List Meta)
      → foldl add_meta
          (foldl (λ c' a. add_meta c' (account_meta is_signer_role is_writable_role a)) c accounts)
          ms
        ≡ foldl add_meta c (map (account_meta is_signer_role is_writable_role) accounts ++ ms)
  foldl-accounts c [] ms = refl
  foldl-accounts c (a ∷ accounts) ms =
      foldl-accounts (add_meta c (account_meta is_signer_role is_writable_role a)) accounts ms

  collect-all_mentions :
      (instructions : List (Instruction Role)) (c : Collected)
      → foldl (collect_instruction is_signer_role is_writable_role) c instructions
        ≡ foldl add_meta c (all_mentions instructions)
  unfolding collect_instruction
  collect-all_mentions [] c = refl
  collect-all_mentions (ix ∷ ixs) c =
      collect-all_mentions ixs _
      ∙ foldl-accounts c (or_empty ix.accounts)
          (program_meta is_signer_role is_writable_role ix ∷ all_mentions ixs)
      ∙ ap (foldl add_meta c) (
          sym (
            append_assoc (map (account_meta is_signer_role is_writable_role) (or_empty ix.accounts))
              (program_meta is_signer_role is_writable_role ix ∷ []) (all_mentions ixs)))

  -- The collected accounts are the first mentions, one for each address, in the order of the
  -- mentions; so an account has the flags of the place where it is mentioned first.
  pub collect-first_mentions :
      (instructions : List (Instruction Role))
      → (collect is_signer_role is_writable_role instructions).metas
        ≡ first_mentions (all_mentions instructions)
  unfolding collect
  collect-first_mentions instructions =
      ap (λ c. c.metas) (collect-all_mentions instructions _)
      ∙ add_all-fresh _ (all_mentions instructions)
      ∙ filter_all (first_mentions (all_mentions instructions))

  -- Among the compiled accounts an address stands exactly once if some instruction mentions it, as
  -- an account or as its program, and does not stand at all otherwise.
  pub count-compile_tuk_tuk_transaction :
      (instructions : List (Instruction Role)) (a : String)
      → count a (compile_tuk_tuk_transaction is_signer_role is_writable_role instructions).accounts
        ≡ (if includes (addresses_of (all_mentions instructions)) a then 1 else 0)
  unfolding compile_tuk_tuk_transaction
  count-compile_tuk_tuk_transaction instructions a =
      count-sort a (collect is_signer_role is_writable_role instructions).metas
      ∙ ap (λ ms. count a (addresses_of ms)) (collect-first_mentions instructions)
      ∙ count-first_mentions a (all_mentions instructions)
