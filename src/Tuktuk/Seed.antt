-- ===== src/Tuktuk/Seed.antt =====
-- kit-plugin-tuktuk-task-scheduler/src/lib/tuktuk-client.ts: `bigIntToSeed`. The code gives it only
-- ids, which are not negative.
use solana_kit_plugins.Prelude.{
  ℕ, zero, suc, ◌/◌, ◌%◌, ◌^◌, ◌<◌, ◌≡◌, refl, ap, ◌∙◌, sym, [], ◌∷◌, ltb, if◌then◌else◌, arith,
  Bool-cases, inl, inr,
}
use solana_kit_plugins.Bytes.{Bytes, zeros, le_bytes, le_value}
use solana_kit_plugins.Bytes.Laws.{le_value-le_bytes}

-- The loop runs while there is room and the value is not 0; the other bytes stay 0.
unfoldable pub big_int_to_seed : ℕ → ℕ → Bytes
big_int_to_seed value zero = []
big_int_to_seed value (suc left) =
    let rest = big_int_to_seed (value / 256) left in
    if ltb 0 value then value % 256 ∷ rest else zeros (suc left)

zero-le_bytes : (w : ℕ) → le_bytes w 0 ≡ zeros w
unfolding le_bytes
zero-le_bytes zero = refl
zero-le_bytes (suc w) = ap (◌∷◌ 0) (zero-le_bytes w)

-- The early end of the loop changes nothing: a seed is the value in little-endian form.
pub big_int_to_seed-le_bytes : (w value : ℕ) → big_int_to_seed value w ≡ le_bytes w value
unfolding big_int_to_seed le_bytes
big_int_to_seed-le_bytes zero value = refl
big_int_to_seed-le_bytes (suc w) value = elim (Bool-cases (ltb 0 value)) [
  | inl e ↦ rw e (ap (◌∷◌ (value % 256)) (big_int_to_seed-le_bytes w (value / 256)))
  | inr e ↦
      let nothing : value ≡ 0 = ground arith in rw (e, nothing) (ap (◌∷◌ 0) (sym (zero-le_bytes w)))
]

-- Ids that fit the width of the seed have different seeds, so tasks, queues, cron jobs and cron
-- transactions with different ids have different addresses as far as the seeds decide.
big_int_to_seed_injective :
    (w a b : ℕ) → a < 256 ^ w → b < 256 ^ w → big_int_to_seed a w ≡ big_int_to_seed b w → a ≡ b
big_int_to_seed_injective w a b ha hb e =
    sym (le_value-le_bytes w a ha)
    ∙ ap le_value (sym (big_int_to_seed-le_bytes w a) ∙ e ∙ big_int_to_seed-le_bytes w b)
    ∙ le_value-le_bytes w b hb
