-- ===== src/Arcium/Plan/Resize.antt =====
-- kit-plugin-arcium/src/lib/upload-circuit.ts: the number of the resize instructions.
use solana_kit_plugins.Prelude.{
  ℕ, zero, suc, ◌+◌, ◌-◌, ◌*◌, ◌≤◌, ◌≡◌, List, [], ◌∷◌, ltb, arith, All, Bool-cases, inl, inr, ◌∙◌,
}
use solana_kit_plugins.Arcium.{max_realloc_per_ix, max_embiggen_ix_per_tx}
use solana_kit_plugins.Arcium.Plan.{
  ceil_div, tabulate, resize_tx_count, instruction_count, resize_counts,
}
use solana_kit_plugins.Arcium.Plan.Pieces.{All-tabulate}

abbrev pub total : List ℕ → ℕ
total [] = 0
total (n ∷ ns) = n + total ns

total-tabulate :
    (n i size : ℕ)
    → size ≤ max_realloc_per_ix + (i + n) * (max_realloc_per_ix * max_embiggen_ix_per_tx)
    → total (tabulate n i (instruction_count size))
      ≡ ceil_div
          (size - (max_realloc_per_ix + i * (max_realloc_per_ix * max_embiggen_ix_per_tx)))
          max_realloc_per_ix
unfolding tabulate
total-tabulate zero i size h = omega arith
total-tabulate (suc n) i size h = omega (arith, total-tabulate n (suc i) size (omega arith))

-- For a part of any size, each resize transaction has at most as many instructions as fit one, and
-- together they are exactly as many as the bytes beyond the first reallocation need; so the account
-- is as long as the part afterwards.
pub resize_counts-total :
    (size : ℕ)
    → (total (resize_counts size) ≡ ceil_div (size - max_realloc_per_ix) max_realloc_per_ix)
      × (size ≤ max_realloc_per_ix * (1 + total (resize_counts size)))
      × All (λ n. n ≤ max_embiggen_ix_per_tx) (resize_counts size)
unfolding resize_counts
resize_counts-total size = (
  needed,
  omega (arith, needed),
  All-tabulate (λ n. n ≤ max_embiggen_ix_per_tx) (resize_tx_count size) 0 (instruction_count size)
      (λ i. omega arith),
)
  where
    needed : total (resize_counts size) ≡ ceil_div (size - max_realloc_per_ix) max_realloc_per_ix
    needed = elim (Bool-cases (ltb max_realloc_per_ix size)) [
      | inl e ↦ rw e (total-tabulate _ 0 size (omega arith) ∙ omega arith)
      | inr e ↦ rw e (ground arith)
    ]
