-- ===== src/Tuktuk/Compile/Order.antt =====
-- The order of the compiled accounts: the four groups that the counts describe.
use solana_kit_plugins.Prelude.{
  ◌≡◌, refl, ap, ◌∙◌, List, [], ◌∷◌, ◌++◌, Bool, true, false, not, ◌&&◌, filter, sort,
  insert_sorted, All, All-append, All-filter, arith, String, length, map, Bool-cases, inl, inr,
}
use solana_kit_plugins.Tuktuk.Compile.{Meta, order_metas, Instruction, compile_tuk_tuk_transaction}
use solana_kit_plugins.Prelude.Int.{pos, ltb_ℤ}
use solana_kit_plugins.Tuktuk.Compile.{collect, CompiledTransaction}
use solana_kit_plugins.Prelude.{sym, length-map, String, refl}

abbrev pub is_rw_signer : Meta → Bool
is_rw_signer m = m.is_signer && m.is_writable

abbrev pub is_ro_signer : Meta → Bool
is_ro_signer m = m.is_signer && not m.is_writable

abbrev pub is_rw : Meta → Bool
is_rw m = not m.is_signer && m.is_writable

abbrev pub is_ro : Meta → Bool
is_ro m = not m.is_signer && not m.is_writable

abbrev pub grouped : List Meta → List Meta
grouped ms =
    filter is_rw_signer ms ++ (filter is_ro_signer ms ++ (filter is_rw ms ++ filter is_ro ms))

-- `a` goes behind `b`
abbrev IsBehind : Meta → Meta → Type 0
IsBehind a b = ltb_ℤ (pos 0) (order_metas a b) ≡ true

abbrev IsNotBehind : Meta → Meta → Type 0
IsNotBehind a b = ltb_ℤ (pos 0) (order_metas a b) ≡ false

insert_past :
    (x : Meta) (ys zs : List Meta)
    → All (IsBehind x) ys
    → insert_sorted order_metas x (ys ++ zs) ≡ ys ++ insert_sorted order_metas x zs
insert_past x [] zs h = refl
insert_past x (y ∷ ys) zs (h, hs) = rw h (ap (◌∷◌ y) (insert_past x ys zs hs))

insert_front :
    (x : Meta) (zs : List Meta) → All (IsNotBehind x) zs → insert_sorted order_metas x zs ≡ x ∷ zs
insert_front x [] h = refl
insert_front x (z ∷ zs) (h, hs) = rw h refl

All-imp {ℓ κ κ'} :
    {A : Type ℓ} (P : A → Type κ) (Q : A → Type κ') (xs : List A)
    → ((x : A) → P x → Q x)
    → All P xs
    → All Q xs
All-imp P Q [] f h = tt
All-imp P Q (x ∷ xs) f (h, hs) = (f x h, All-imp P Q xs f hs)

-- A group as a whole is in front of, or not in front of, an account.
module _ (x : Meta) (group : Meta → Bool) (ms : List Meta) where
  group_first : ((y : Meta) → group y ≡ true → IsBehind x y) → All (IsBehind x) (filter group ms)
  group_first f =
      All-imp (λ y. group y ≡ true) (IsBehind x) (filter group ms) f (All-filter group ms)

  group_last :
      ((y : Meta) → group y ≡ true → IsNotBehind x y) → All (IsNotBehind x) (filter group ms)
  group_last f =
      All-imp (λ y. group y ≡ true) (IsNotBehind x) (filter group ms) f (All-filter group ms)

meta : String → Bool → Bool → Meta
meta address s w = record { address = address; is_signer = s; is_writable = w }

insert-grouped :
    (address : String) (s w : Bool) (ms : List Meta)
    → insert_sorted order_metas (meta address s w) (grouped ms) ≡ grouped (meta address s w ∷ ms)
unfolding meta
insert-grouped address true true ms =
    let x = meta address true true in
    insert_front x (grouped ms) (
      All-append _ _ _ (group_last x is_rw_signer ms λ y h. ground arith) (
        All-append _ _ _ (group_last x is_ro_signer ms λ y h. ground arith) (
          All-append _ _ _ (group_last x is_rw ms λ y h. ground arith)
            (group_last x is_ro ms λ y h. ground arith))))
insert-grouped address true false ms =
    let x = meta address true false in
    insert_past x (filter is_rw_signer ms) _ (group_first x is_rw_signer ms λ y h. ground arith)
    ∙ ap (◌++◌ (filter is_rw_signer ms)) (
        insert_front x _ (
          All-append _ _ _ (group_last x is_ro_signer ms λ y h. ground arith) (
            All-append _ _ _ (group_last x is_rw ms λ y h. ground arith)
              (group_last x is_ro ms λ y h. ground arith))))
insert-grouped address false true ms =
    let x = meta address false true in
    insert_past x (filter is_rw_signer ms) _ (group_first x is_rw_signer ms λ y h. ground arith)
    ∙ ap (◌++◌ (filter is_rw_signer ms)) (
        insert_past x (filter is_ro_signer ms) _ (group_first x is_ro_signer ms λ y h. ground arith)
        ∙ ap (◌++◌ (filter is_ro_signer ms)) (
            insert_front x _ (
              All-append _ _ _ (group_last x is_rw ms λ y h. ground arith)
                (group_last x is_ro ms λ y h. ground arith))))
insert-grouped address false false ms =
    let x = meta address false false in
    insert_past x (filter is_rw_signer ms) _ (group_first x is_rw_signer ms λ y h. ground arith)
    ∙ ap (◌++◌ (filter is_rw_signer ms)) (
        insert_past x (filter is_ro_signer ms) _ (group_first x is_ro_signer ms λ y h. ground arith)
        ∙ ap (◌++◌ (filter is_ro_signer ms)) (
            insert_past x (filter is_rw ms) _ (group_first x is_rw ms λ y h. ground arith)
            ∙ ap (◌++◌ (filter is_rw ms))
                (insert_front x _ (group_last x is_ro ms λ y h. ground arith))))

pub sort-grouped : (ms : List Meta) → sort order_metas ms ≡ grouped ms
sort-grouped [] = refl
sort-grouped (m ∷ ms) =
    rw (sort-grouped ms) (unfold meta in insert-grouped m.address m.is_signer m.is_writable ms)

-- Sorting keeps how many accounts pass a test.
length-filter-insert :
    (test : Meta → Bool) (x : Meta) (ms : List Meta)
    → length (filter test (insert_sorted order_metas x ms)) ≡ length (filter test (x ∷ ms))
length-filter-insert test x [] = refl
length-filter-insert test x (m ∷ ms) = elim (Bool-cases (ltb_ℤ (pos 0) (order_metas x m))) [
  | inl e ↦ rw e (ground (arith, length-filter-insert test x ms))
  | inr e ↦ rw e refl
]

length-filter-sort :
    (test : Meta → Bool) (ms : List Meta)
    → length (filter test (sort order_metas ms)) ≡ length (filter test ms)
length-filter-sort test [] = refl
length-filter-sort test (m ∷ ms) =
    length-filter-insert test m (sort order_metas ms) ∙ ground (arith, length-filter-sort test ms)

map-append {ℓ κ} :
    {A : Type ℓ} {B : Type κ} (f : A → B) (xs ys : List A) → map f (xs ++ ys) ≡ map f xs ++ map f ys
map-append f [] ys = refl
map-append f (x ∷ xs) ys = ap (◌∷◌ (f x)) (map-append f xs ys)

module _ {Role : Type 0} (is_signer_role is_writable_role : Role → Bool) where
  abbrev collected : List (Instruction Role) → List Meta
  collected instructions = (collect is_signer_role is_writable_role instructions).metas

  abbrev addresses : (Meta → Bool) → List (Instruction Role) → List String
  addresses group instructions = map (λ m. m.address) (filter group (collected instructions))

  abbrev compiled : List (Instruction Role) → CompiledTransaction
  compiled = compile_tuk_tuk_transaction is_signer_role is_writable_role

  -- The compiled accounts are the writable signers, the other signers, the other writable accounts
  -- and the rest, in this order and each group in the order of collection; the three counts are the
  -- sizes of the first three groups.
  pub compile_tuk_tuk_transaction_groups :
      (instructions : List (Instruction Role))
      → ((compiled instructions).accounts
          ≡ addresses is_rw_signer instructions
            ++ (addresses is_ro_signer instructions
                ++ (addresses is_rw instructions ++ addresses is_ro instructions)))
        × ((compiled instructions).num_rw_signers ≡ length (addresses is_rw_signer instructions))
        × ((compiled instructions).num_ro_signers ≡ length (addresses is_ro_signer instructions))
        × ((compiled instructions).num_rw ≡ length (addresses is_rw instructions))
  unfolding compile_tuk_tuk_transaction
  compile_tuk_tuk_transaction_groups instructions =
      let ms = collected instructions in
      (
        ap (map (λ m. m.address)) (sort-grouped ms) ∙ simp map-append,
        length-filter-sort is_rw_signer ms ∙ sym (length-map (filter is_rw_signer ms) _),
        length-filter-sort is_ro_signer ms ∙ sym (length-map (filter is_ro_signer ms) _),
        length-filter-sort is_rw ms ∙ sym (length-map (filter is_rw ms) _),
      )
