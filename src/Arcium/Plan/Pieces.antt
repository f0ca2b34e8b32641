-- ===== src/Arcium/Plan/Pieces.antt =====
-- kit-plugin-arcium/src/lib/upload-circuit.ts: the parts and slices of a circuit, and their order.
use solana_kit_plugins.Prelude.{
  ℕ, zero, suc, ◌+◌, ◌-◌, ◌*◌, ◌≤◌, ◌<◌, ◌≡◌, refl, ap, ◌∙◌, sym, [], ◌∷◌, ◌++◌, length, min, take,
  drop, length-take, arith, All, map, ltb, Bool-cases, inl, inr,
}
use mathlib.Core.List.{flatten}
use native.Mathlib.Nat.{add-zero, lt-div-mul-add}
use solana_kit_plugins.Bytes.{Bytes}
use solana_kit_plugins.Arcium.Plan.{
  ceil_div, tabulate, bytes_per_account, piece, account_parts, upload_piece, upload_chunks,
}
use native.Mathlib.Nat.{add-mul, lt-div-mul-add}
use solana_kit_plugins.Prelude.{append-nil}
use native.Mathlib.Nat.{mul_comm, zero-mul}
use mathlib.Core.Path.{ap₂}

-- A slice with its end cut off at the end of the bytes, and what follows it.
take-append-drop_at :
    (a b n : ℕ) (xs : Bytes)
    → a ≤ b
    → n ≡ min b (length xs) - a
    → take n (drop a xs) ++ drop b xs ≡ drop a xs
take-append-drop_at zero zero n xs h e = let nothing : n ≡ 0 = omega arith in rw nothing refl
take-append-drop_at zero (suc b) n [] h e = let nothing : n ≡ 0 = omega arith in rw nothing refl
take-append-drop_at zero (suc b) zero (x ∷ xs) h e = absurd (omega arith)
take-append-drop_at zero (suc b) (suc n) (x ∷ xs) h e =
    ap (◌∷◌ x) (take-append-drop_at zero b n xs (omega arith) (omega arith))
take-append-drop_at (suc a) zero n xs h e = absurd (omega arith)
take-append-drop_at (suc a) (suc b) n [] h e = let nothing : n ≡ 0 = omega arith in rw nothing refl
take-append-drop_at (suc a) (suc b) n (x ∷ xs) h e =
    take-append-drop_at a b n xs (omega arith) (omega arith)

drop_all : (n : ℕ) (xs : Bytes) → length xs ≤ n → drop n xs ≡ []
drop_all zero [] h = refl
drop_all zero (x ∷ xs) h = absurd (omega arith)
drop_all (suc n) [] h = refl
drop_all (suc n) (x ∷ xs) h = drop_all n xs (omega arith)

-- Pieces with the ends `i * size` and `(i + 1) * size` leave nothing out.
pieces-flatten :
    (size n i : ℕ) (xs : Bytes)
    → length xs ≤ (i + n) * size
    → flatten (tabulate n i (piece size xs)) ≡ drop (i * size) xs
unfolding tabulate flatten
pieces-flatten size zero i xs h =
    sym (drop_all (i * size) xs (omega (arith, h, ap (λ (k : ℕ). k * size) (add-zero i))))
pieces-flatten size (suc n) i xs h =
    ap (◌++◌ (piece size xs i)) (
      pieces-flatten size n (suc i) xs (
        omega
          (arith, h, ap (λ (k : ℕ). k * size) (let e : i + suc n ≡ suc i + n = omega arith in e))))
    ∙ ap (λ (k : ℕ). piece size xs i ++ drop (k * size) xs) (omega arith)
    ∙ take-append-drop_at (i * size) ((i + 1) * size) _ xs (omega (arith, add-mul i 1 size)) refl

ceil_div-mul : (a b : ℕ) → 0 < b → a ≤ ceil_div a b * b
ceil_div-mul a b h = omega (arith, lt-div-mul-add {a = a + (b - 1)} h)

pub All-tabulate {ℓ κ} :
    {A : Type ℓ} (P : A → Type κ) (n i : ℕ) (f : ℕ → A)
    → ((j : ℕ) → P (f j))
    → All P (tabulate n i f)
unfolding tabulate
All-tabulate P zero i f h = tt
All-tabulate P (suc n) i f h = (h i, All-tabulate P n (suc i) f h)

length-piece : (size : ℕ) (xs : Bytes) (i : ℕ) → length (piece size xs i) ≤ size
length-piece size xs i = omega (
  arith,
  length-take (min ((i + 1) * size) (length xs) - i * size) (drop (i * size) xs),
  add-mul i 1 size,
)

-- The parts of a circuit, one behind the other, are the circuit, and each fits its account.
pub account_parts-flatten :
    (raw_circuit : Bytes)
    → (flatten (account_parts raw_circuit) ≡ raw_circuit)
      × All (λ part. length part ≤ bytes_per_account) (account_parts raw_circuit)
unfolding account_parts
account_parts-flatten raw_circuit = (
  pieces-flatten bytes_per_account (ceil_div (length raw_circuit) bytes_per_account) 0 raw_circuit
      (omega (arith, ceil_div-mul (length raw_circuit) bytes_per_account (omega arith))),
  All-tabulate (λ part. length part ≤ bytes_per_account)
      (ceil_div (length raw_circuit) bytes_per_account) 0 (piece bytes_per_account raw_circuit)
      (length-piece bytes_per_account raw_circuit),
)

tabulate-append {ℓ} :
    {A : Type ℓ} (m n k i j : ℕ) (f : ℕ → A)
    → j ≡ i + m
    → k ≡ m + n
    → tabulate m i f ++ tabulate n j f ≡ tabulate k i f
unfolding tabulate
tabulate-append zero n k i j f p q =
    let here : j ≡ i = omega arith in let same : k ≡ n = omega arith in rw (here, same) refl
tabulate-append (suc m) n zero i j f p q = absurd (omega arith)
tabulate-append (suc m) n (suc k) i j f p q =
    ap (◌∷◌ (f i)) (tabulate-append m n k (suc i) j f (omega arith) (omega arith))

-- a chunk, and what is left after it
chunk-append {ℓ} :
    {A : Type ℓ} (count chunk_size i : ℕ) (f : ℕ → A)
    → tabulate (min chunk_size (count - i)) i f
        ++ tabulate (count - (i + chunk_size)) (i + chunk_size) f
      ≡ tabulate (count - i) i f
unfolding tabulate
chunk-append count chunk_size i f = elim (Bool-cases (ltb (count - i) chunk_size)) [
  | inl e ↦
      let all : min chunk_size (count - i) ≡ count - i = ground arith in
      let nothing : count - (i + chunk_size) ≡ 0 = ground arith in
      rw (all, nothing) (append-nil (tabulate (count - i) i f))
  | inr e ↦
      let full : min chunk_size (count - i) ≡ chunk_size = ground arith in
      rw full (
        tabulate-append chunk_size (count - (i + chunk_size)) (count - i) i (i + chunk_size) f refl
          (ground arith))
]

-- The rounds of the chunk loop visit each transaction once and in order.
upload_chunks-tabulate :
    (fuel max_upload chunk_size i : ℕ) (part : Bytes)
    → 0 < chunk_size
    → ceil_div (length part) max_upload ≤ i + fuel
    → flatten (upload_chunks fuel max_upload chunk_size part i)
      ≡ tabulate (ceil_div (length part) max_upload - i) i (upload_piece max_upload part)
unfolding upload_chunks flatten tabulate
upload_chunks-tabulate zero max_upload chunk_size i part h enough =
    let nothing : ceil_div (length part) max_upload - i ≡ 0 = omega arith in rw nothing refl
upload_chunks-tabulate (suc fuel) max_upload chunk_size i part h enough =
    elim (Bool-cases (ltb i (ceil_div (length part) max_upload))) [
      | inl e ↦ rw e (
          ap (◌++◌ _) (
            upload_chunks-tabulate fuel max_upload chunk_size (i + chunk_size) part h
              (omega (arith, enough)))
          ∙ chunk-append (ceil_div (length part) max_upload) chunk_size i
              (upload_piece max_upload part))
      | inr e ↦
          let nothing : ceil_div (length part) max_upload - i ≡ 0 = ground arith in
          rw (e, nothing) refl
    ]

same_slice :
    (max_upload i : ℕ) (part : Bytes) → (upload_piece max_upload part i).0 ≡ piece max_upload part i
same_slice max_upload i part =
    let from : max_upload * i ≡ i * max_upload = omega (arith, mul_comm max_upload i) in
    let to : i * max_upload + max_upload ≡ (i + 1) * max_upload =
      omega (arith, add-mul i 1 max_upload) in
    rw (from, to) refl

slices-tabulate :
    (max_upload n i : ℕ) (part : Bytes)
    → map (λ p. p.0) (tabulate n i (upload_piece max_upload part))
      ≡ tabulate n i (piece max_upload part)
unfolding tabulate
slices-tabulate max_upload zero i part = refl
slices-tabulate max_upload (suc n) i part =
    ap₂ ◌∷◌ (same_slice max_upload i part) (slices-tabulate max_upload n (suc i) part)

take-length-take : (n : ℕ) (xs : Bytes) → take n xs ≡ take (length (take n xs)) xs
take-length-take zero xs = refl
take-length-take (suc n) [] = refl
take-length-take (suc n) (x ∷ xs) = ap (◌∷◌ x) (take-length-take n xs)

-- For a chunk size and a transaction size above 0, the slices that the chunk loop uploads, in the
-- order of the loop, are together the part; the number of transactions is fuel enough. Each slice
-- fits a transaction and stands in the part at the offset that is sent with it.
pub upload_chunks-flatten :
    (max_upload chunk_size : ℕ) (part : Bytes)
    → 0 < max_upload
    → 0 < chunk_size
    → (flatten (
          map
            (λ p. p.0)
            (flatten
              (upload_chunks (ceil_div (length part) max_upload) max_upload chunk_size part 0)))
        ≡ part)
      × All
          (λ p. (length p.0 ≤ max_upload) × (p.0 ≡ take (length p.0) (drop p.1 part)))
          (flatten (upload_chunks (ceil_div (length part) max_upload) max_upload chunk_size part 0))
upload_chunks-flatten max_upload chunk_size part hm hc =
    rw
      (upload_chunks-tabulate (ceil_div (length part) max_upload) max_upload chunk_size 0 part hc
        (omega arith))
      (
        ap flatten (slices-tabulate max_upload _ 0 part)
            ∙ pieces-flatten max_upload (ceil_div (length part) max_upload - 0) 0 part (
                omega (
                  arith,
                  ceil_div-mul (length part) max_upload hm,
                  ap (λ (k : ℕ). k * max_upload)
                      (let e : 0 + (ceil_div (length part) max_upload - 0)
                            ≡ ceil_div (length part) max_upload =
                          omega arith in
                        e),
                ))
            ∙ ap (λ (k : ℕ). drop k part) (zero-mul max_upload),
        All-tabulate _ _ 0 (upload_piece max_upload part) (λ j. (
          omega (
            arith,
            length-take (min (max_upload * j + max_upload) (length part) - max_upload * j)
                (drop (max_upload * j) part),
          ),
          take-length-take (min (max_upload * j + max_upload) (length part) - max_upload * j)
              (drop (max_upload * j) part),
        )),
      )
