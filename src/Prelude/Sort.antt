-- ===== src/Prelude/Sort.antt =====
-- xs.sort(compare) on a list, by the test `behind x y` for `compare(x, y) > 0`.
use mathlib.Core.Path.{◌≡◌, ap, ◌∙◌}
use mathlib.Core.Bool.{Bool, false, true}
use mathlib.Core.Logic.{inl, inr}
use mathlib.Core.List.{List, [], ◌∷◌, Perm}
use mathlib.Core.List.Perm
use solana_kit_plugins.Prelude.Tests.{if◌then◌else◌, Bool-cases}
use solana_kit_plugins.Prelude.Lists.{All, take, drop, All-drop, length}
use Prim.Native.Nat.{ℕ, zero, suc}
use mathlib.Core.Path.{refl, ap, ◌∙◌}

module _ {ℓ} {A : Type ℓ} (behind : A → A → Bool) where
  -- in front of the first element that `x` is not behind
  abbrev pub insert_by : A → List A → List A
  insert_by x [] = x ∷ []
  insert_by x (y ∷ ys) = let rest = insert_by x ys in if behind x y then y ∷ rest else x ∷ y ∷ ys

  abbrev pub sort_by : List A → List A
  sort_by [] = []
  sort_by (x ∷ xs) = insert_by x (sort_by xs)

  insert_by-perm : (x : A) (xs : List A) → Perm (insert_by x xs) (x ∷ xs)
  insert_by-perm x [] = Perm.refl (x ∷ [])
  insert_by-perm x (y ∷ ys) = elim (Bool-cases (behind x y)) [
    | inl e ↦ rw e (Perm.trans (Perm.cons y (insert_by-perm x ys)) (Perm.swap x y ys))
    | inr e ↦ rw e (Perm.refl (x ∷ y ∷ ys))
  ]

  pub sort_by-perm : (xs : List A) → Perm (sort_by xs) xs
  sort_by-perm [] = Perm.refl []
  sort_by-perm (x ∷ xs) = Perm.trans (insert_by-perm x (sort_by xs)) (Perm.cons x (sort_by-perm xs))

  -- no element is behind one that comes later
  abbrev pub IsSorted : List A → Type ℓ
  IsSorted [] = Unit
  IsSorted (x ∷ xs) = All (λ y. behind x y ≡ false) xs × IsSorted xs

  pub All-insert_by {κ} :
      (Q : A → Type κ) (x : A) (xs : List A) → Q x → All Q xs → All Q (insert_by x xs)
  All-insert_by Q x [] q all = (q, tt)
  All-insert_by Q x (y ∷ ys) q (p, all) = elim (Bool-cases (behind x y)) [
    | inl e ↦ rw e (p, All-insert_by Q x ys q all)
    | inr e ↦ rw e (q, (p, all))
  ]

  pub All-sort_by {κ} : (Q : A → Type κ) (xs : List A) → All Q xs → All Q (sort_by xs)
  All-sort_by Q [] all = tt
  All-sort_by Q (x ∷ xs) (q, all) = All-insert_by Q x (sort_by xs) q (All-sort_by Q xs all)

-- On the elements with `P`, `behind` is the strict part of a total preorder.
pub record IsOrder {ℓ κ} {A : Type ℓ} (behind : A → A → Bool) (P : A → Type κ) : Type (ℓ ⊔ κ) where
  pub asym : (x y : A) → P x → P y → behind x y ≡ true → behind y x ≡ false
  pub chain :
      (x y z : A) → P x → P y → P z → behind x y ≡ false → behind y z ≡ false → behind x z ≡ false

module _ {ℓ κ} {A : Type ℓ} (behind : A → A → Bool) (P : A → Type κ)
    (order : IsOrder behind P) where
  chain-All :
      (x y : A) (ys : List A)
      → P x
      → P y
      → All P ys
      → behind x y ≡ false
      → All (λ z. behind y z ≡ false) ys
      → All (λ z. behind x z ≡ false) ys
  chain-All x y [] px py all front fronts = tt
  chain-All x y (z ∷ zs) px py (pz, all) front (h, fronts) =
      (order.chain x y z px py pz front h, chain-All x y zs px py all front fronts)

  insert_by-IsSorted :
      (x : A) (xs : List A)
      → P x
      → All P xs
      → IsSorted behind xs
      → IsSorted behind (insert_by behind x xs)
  insert_by-IsSorted x [] px all sorted = (tt, tt)
  insert_by-IsSorted x (y ∷ ys) px (py, all) (front, sorted) = elim (Bool-cases (behind x y)) [
    | inl e ↦ rw e (
      All-insert_by behind (λ z. behind y z ≡ false) x ys (order.asym x y px py e) front,
      insert_by-IsSorted x ys px all sorted,
    )
    | inr e ↦ rw e ((e, chain-All x y ys px py all e front), (front, sorted))
  ]

  pub sort_by-IsSorted : (xs : List A) → All P xs → IsSorted behind (sort_by behind xs)
  sort_by-IsSorted [] all = tt
  sort_by-IsSorted (x ∷ xs) (px, all) =
      insert_by-IsSorted x (sort_by behind xs) px (All-sort_by behind P xs all)
        (sort_by-IsSorted xs all)

module _ {ℓ} {A : Type ℓ} (behind : A → A → Bool) where
  -- Of a sorted list cut in two, no element of the first part is behind one of the second.
  pub IsSorted-cut :
      (n : ℕ) (xs : List A)
      → IsSorted behind xs
      → All (λ x. All (λ y. behind x y ≡ false) (drop n xs)) (take n xs)
  IsSorted-cut zero xs sorted = tt
  IsSorted-cut (suc n) [] sorted = tt
  IsSorted-cut (suc n) (x ∷ xs) (front, sorted) =
      (All-drop (λ y. behind x y ≡ false) n xs front, IsSorted-cut n xs sorted)

  length-insert_by : (x : A) (xs : List A) → length (insert_by behind x xs) ≡ suc (length xs)
  length-insert_by x [] = refl
  length-insert_by x (y ∷ ys) = elim (Bool-cases (behind x y)) [
    | inl e ↦ rw e (ap suc (length-insert_by x ys))
    | inr e ↦ rw e refl
  ]

  pub length-sort_by : (xs : List A) → length (sort_by behind xs) ≡ length xs
  length-sort_by [] = refl
  length-sort_by (x ∷ xs) = length-insert_by x (sort_by behind xs) ∙ ap suc (length-sort_by xs)
