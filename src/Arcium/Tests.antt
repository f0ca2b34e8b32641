-- ===== src/Arcium/Tests.antt =====
-- Concrete runs of a circuit's upload.
use solana_kit_plugins.Prelude.{
  ◌+◌, ◌*◌, ◌≤◌, [], ◌∷◌, ◌≡◌, refl, arith, some, replicate, length, All, map, take, drop,
}
use mathlib.Core.List.{flatten}
use solana_kit_plugins.Prelude.Result.{ok}
use solana_kit_plugins.Bytes.{Bytes, slice, field, le_bytes, le_value}
use solana_kit_plugins.Arcium.{Instruction, max_embiggen_ix_per_tx, max_realloc_per_ix}
use solana_kit_plugins.Arcium.Plan.{
  account_parts, bytes_per_account, upload_chunks, resize_counts, tabulate, ceil_div,
}
use solana_kit_plugins.Arcium.Plan.Pieces.{account_parts-flatten, upload_chunks-flatten}
use solana_kit_plugins.Arcium.Plan.Resize.{total, resize_counts-total}
use solana_kit_plugins.Arcium.Upload.{Env, build_upload_circuit_instruction}
use solana_kit_plugins.Arcium.Upload.Layout.{build_upload_circuit_instruction_layout}
use solana_kit_plugins.Arcium.Upload.Run.{upload_circuit}
use solana_kit_plugins.Arcium.Upload.Run.Completes.{Sends, upload_circuit-Sends}

abbrev network : Env
network = record {
  discriminator = λ name. replicate 8 1;
  max_upload_per_tx_bytes = 4;
  pda = λ program seeds. program;
  encode_address = λ address. replicate 32 2;
  sha256 = λ name. replicate 32 3;
  submit = λ n instructions. ok "signature";
}

abbrev circuit : Bytes
circuit = 1 ∷ 2 ∷ 3 ∷ 4 ∷ 5 ∷ 6 ∷ 7 ∷ 8 ∷ 9 ∷ []

account_parts-flatten_example :
    (flatten (account_parts circuit) ≡ circuit)
    × All (λ part. length part ≤ bytes_per_account) (account_parts circuit)
account_parts-flatten_example = account_parts-flatten circuit

-- three transactions of at most 4 bytes, in chunks of 2
upload_chunks_test :
    upload_chunks 3 4 2 circuit 0
    ≡ ((1 ∷ 2 ∷ 3 ∷ 4 ∷ [], 0) ∷ (5 ∷ 6 ∷ 7 ∷ 8 ∷ [], 4) ∷ []) ∷ ((9 ∷ [], 8) ∷ []) ∷ []
unfolding upload_chunks tabulate
upload_chunks_test = refl

upload_chunks-flatten_example :
    (flatten (map (λ p. p.0) (flatten (upload_chunks (ceil_div (length circuit) 4) 4 2 circuit 0)))
      ≡ circuit)
    × All
        (λ p. (length p.0 ≤ 4) × (p.0 ≡ take (length p.0) (drop p.1 circuit)))
        (flatten (upload_chunks (ceil_div (length circuit) 4) 4 2 circuit 0))
upload_chunks-flatten_example = upload_chunks-flatten 4 2 circuit (omega arith) (omega arith)

-- The last resize transaction of a part of 184321 bytes has no instructions.
resize_counts_test : resize_counts 184321 ≡ 18 ∷ 0 ∷ []
unfolding resize_counts tabulate
resize_counts_test = refl

resize_counts-total_example :
    (total (resize_counts 184321) ≡ 18)
    × (184321 ≤ max_realloc_per_ix * (1 + total (resize_counts 184321)))
    × All (λ n. n ≤ max_embiggen_ix_per_tx) (resize_counts 184321)
resize_counts-total_example = resize_counts-total 184321

build_upload_circuit_instruction_layout_example :
    (ix : Instruction) × (build_upload_circuit_instruction network "user" 7 "program" 0
        (5 ∷ 6 ∷ 7 ∷ [])
        300
      ≡ ok ix)
    × (slice ix.payload 45 48 ≡ 5 ∷ 6 ∷ 7 ∷ [])
    × (field 4 ix.payload 49 ≡ some (le_bytes 4 300))
    × (le_value (le_bytes 4 300) ≡ 300)
    × (length ix.payload ≡ 53)
build_upload_circuit_instruction_layout_example =
    build_upload_circuit_instruction_layout network "user" 7 "program" 0 (5 ∷ 6 ∷ 7 ∷ []) 300 refl
      refl (omega arith) (omega arith)

upload_circuit-Sends_example :
    Sends length (upload_circuit network "user" "add" "program" circuit 2)
upload_circuit-Sends_example =
    upload_circuit-Sends network (λ n instructions. ("signature", refl)) "user" "add" "program"
      circuit 2 (omega arith) (omega arith)
