-- ===== src/Arcium/Upload/Run/Completes.antt =====
-- kit-plugin-arcium/src/lib/upload-circuit.ts: `uploadCircuit` with a network that answers.
use solana_kit_plugins.Prelude.{
  ℕ, suc, ◌+◌, ◌<◌, ◌≤◌, ◌≡◌, refl, String, List, [], ◌∷◌, ◌++◌, length, length-append, arith, All,
  false,
}
use solana_kit_plugins.Prelude.Result.{ok}
use solana_kit_plugins.Prelude.Effect.{◌>>=◌, pure}
use solana_kit_plugins.Bytes.{Bytes}
use solana_kit_plugins.Connection.{Net, send}
use solana_kit_plugins.Arcium.{Instruction}
use solana_kit_plugins.Arcium.Plan.{account_parts, resize_counts}
use solana_kit_plugins.Arcium.Plan.Pieces.{upload_chunks-flatten}
use solana_kit_plugins.Arcium.Upload.{Env, build_upload_circuit_instruction, ltb}
use solana_kit_plugins.Arcium.Upload.Run.{
  Run, send_resizes, send_piece, send_chunk, send_chunks, cons, append, upload_to_circuit_acc,
  upload_parts, upload_all, upload_circuit, computation_definition_offset,
}
use mathlib.Core.List.{flatten}
use solana_kit_plugins.Prelude.Effect.{together}
use solana_kit_plugins.Prelude.{ltb, false}

-- The computation throws nothing, and sends as many transactions as its result has signatures.
abbrev pub Sends : {A : Type 0} → (A → ℕ) → Run A → Type 0
Sends {A} size m =
    (s : Net Instruction)
    → (a : A) × ((m s).0 ≡ ok a) × (length (m s).1.sent ≡ length s.sent + size a)

All-split : {A : Type 0} (P : A → Type 0) (xs ys : List A) → All P (xs ++ ys) → All P xs × All P ys
All-split P [] ys h = (tt, h)
All-split P (x ∷ xs) ys (h, hs) = let (left, right) = All-split P xs ys hs in ((h, left), right)

All-first : {A : Type 0} (P Q : A → Type 0) (xs : List A) → All (λ x. P x × Q x) xs → All P xs
All-first P Q [] h = tt
All-first P Q (x ∷ xs) (h, hs) = (h.0, All-first P Q xs hs)

abbrev one : String → ℕ
one signature = 1

two-Sends :
    {A B C : Type 0} (size_a : A → ℕ) (size_b : B → ℕ) (size_c : C → ℕ) (f : A → B → C) (m : Run A)
    (k : Run B)
    → Sends size_a m
    → Sends size_b k
    → ((a : A) (b : B) → size_c (f a b) ≡ size_a a + size_b b)
    → Sends size_c (m >>= λ a. k >>= λ b. pure (f a b))
two-Sends size_a size_b size_c f m k hm hk hf s =
    let (a, result_a, sent_a) = hm s in
    let (b, result_b, sent_b) = hk (m s).1 in
    (
      f a b,
      rw (result_a, result_b) refl,
      rw (result_a, result_b) (omega (arith, sent_a, sent_b, hf a b)),
    )

three-Sends :
    {A B C D : Type 0} (size_a : A → ℕ) (size_b : B → ℕ) (size_c : C → ℕ) (size_d : D → ℕ)
    (f : A → B → C → D) (m : Run A) (k : Run B) (l : Run C)
    → Sends size_a m
    → Sends size_b k
    → Sends size_c l
    → ((a : A) (b : B) (c : C) → size_d (f a b c) ≡ size_a a + size_b b + size_c c)
    → Sends size_d (m >>= λ a. k >>= λ b. l >>= λ c. pure (f a b c))
three-Sends size_a size_b size_c size_d f m k l hm hk hl hf s =
    let (a, result_a, sent_a) = hm s in
    let (b, result_b, sent_b) = hk (m s).1 in
    let (c, result_c, sent_c) = hl (k (m s).1).1 in
    (
      f a b c,
      rw (result_a, result_b, result_c) refl,
      rw (result_a, result_b, result_c) (omega (arith, sent_a, sent_b, sent_c, hf a b c)),
    )

together-Sends :
    {A B C : Type 0} (size_a : A → ℕ) (size_b : B → ℕ) (size_c : C → ℕ) (f : A → B → C) (m : Run A)
    (k : Run B)
    → Sends size_a m
    → Sends size_b k
    → ((a : A) (b : B) → size_c (f a b) ≡ size_a a + size_b b)
    → Sends size_c (together f m k)
together-Sends size_a size_b size_c f m k hm hk hf s =
    let (a, result_a, sent_a) = hm s in
    let (b, result_b, sent_b) = hk (m s).1 in
    (f a b, rw (result_a, result_b) refl, omega (arith, sent_a, sent_b, hf a b))

module _ (env : Env)
    (answers : (n : ℕ) (instructions : List Instruction)
      → (signature : String) × (env.submit n instructions ≡ ok signature)) where
  send-Sends : (instructions : List Instruction) → Sends one (send env.submit instructions)
  send-Sends instructions s =
      let (signature, answered) = answers s.clock instructions in
      (signature, answered, length-append s.sent (instructions ∷ []))

  module _ (signer : String) (comp_def_offset : ℕ) (mxe_program_id : String) where
    module _ (raw_circuit_index : ℕ) where
      send_resizes-Sends :
          (counts : List ℕ)
          → Sends length
              (send_resizes env signer comp_def_offset mxe_program_id raw_circuit_index counts)
      unfolding send_resizes
      send_resizes-Sends [] = λ s. ([], refl, omega arith)
      send_resizes-Sends (count ∷ counts) =
          two-Sends one length length cons _ _ (send-Sends _) (send_resizes-Sends counts)
            (λ signature signatures. omega arith)

      send_piece-Sends :
          (p : Bytes × ℕ)
          → length p.0 ≤ env.max_upload_per_tx_bytes
          → Sends one (send_piece env signer comp_def_offset mxe_program_id raw_circuit_index p)
      unfolding build_upload_circuit_instruction
      send_piece-Sends (slice, circuit_offset) fits s =
          let e : ltb env.max_upload_per_tx_bytes (length slice) ≡ false = ground (arith, fits) in
          rw e (send-Sends _ s)

      send_chunk-Sends :
          (chunk : List (Bytes × ℕ))
          → All (λ p. length p.0 ≤ env.max_upload_per_tx_bytes) chunk
          → Sends length
              (send_chunk env signer comp_def_offset mxe_program_id raw_circuit_index chunk)
      unfolding send_chunk
      send_chunk-Sends [] h = λ s. ([], refl, omega arith)
      send_chunk-Sends (p ∷ ps) (h, hs) =
          together-Sends one length length cons
            (send_piece env signer comp_def_offset mxe_program_id raw_circuit_index p)
            (send_chunk env signer comp_def_offset mxe_program_id raw_circuit_index ps)
            (send_piece-Sends p h) (send_chunk-Sends ps hs) (λ signature signatures. omega arith)

      send_chunks-Sends :
          (chunks : List (List (Bytes × ℕ)))
          → All (λ p. length p.0 ≤ env.max_upload_per_tx_bytes) (flatten chunks)
          → Sends length
              (send_chunks env signer comp_def_offset mxe_program_id raw_circuit_index chunks)
      unfolding send_chunks flatten
      send_chunks-Sends [] h = λ s. ([], refl, omega arith)
      send_chunks-Sends (chunk ∷ chunks) h =
          two-Sends length length length append
            (send_chunk env signer comp_def_offset mxe_program_id raw_circuit_index chunk)
            (send_chunks env signer comp_def_offset mxe_program_id raw_circuit_index chunks)
            (send_chunk-Sends chunk
              (All-split (λ p. length p.0 ≤ env.max_upload_per_tx_bytes) chunk (flatten chunks)
                h).0)
            (send_chunks-Sends chunks
              (All-split (λ p. length p.0 ≤ env.max_upload_per_tx_bytes) chunk (flatten chunks)
                h).1)
            (λ xs ys. length-append xs ys)

      upload_to_circuit_acc-Sends :
          (chunk_size : ℕ) (part : Bytes)
          → 0 < env.max_upload_per_tx_bytes
          → 0 < chunk_size
          → Sends length (
              upload_to_circuit_acc env signer comp_def_offset mxe_program_id raw_circuit_index
                chunk_size part)
      unfolding upload_to_circuit_acc
      upload_to_circuit_acc-Sends chunk_size part hm hc =
          three-Sends one length length length (λ init resizes uploads. init ∷ resizes ++ uploads) _
            _ _ (send-Sends _) (send_resizes-Sends (resize_counts (length part)))
            (send_chunks-Sends _ (
              All-first (λ p. length p.0 ≤ env.max_upload_per_tx_bytes) _ _
                (upload_chunks-flatten env.max_upload_per_tx_bytes chunk_size part hm hc).1))
            (λ init resizes uploads. omega (arith, length-append resizes uploads))

    upload_parts-Sends :
        (chunk_size i : ℕ) (parts : List Bytes)
        → 0 < env.max_upload_per_tx_bytes
        → 0 < chunk_size
        → Sends length (upload_parts env signer comp_def_offset mxe_program_id chunk_size i parts)
    unfolding upload_parts
    upload_parts-Sends chunk_size i [] hm hc = λ s. ([], refl, omega arith)
    upload_parts-Sends chunk_size i (part ∷ parts) hm hc =
        together-Sends length length length append
          (upload_to_circuit_acc env signer comp_def_offset mxe_program_id i chunk_size part)
          (upload_parts env signer comp_def_offset mxe_program_id chunk_size (suc i) parts)
          (upload_to_circuit_acc-Sends i chunk_size part hm hc)
          (upload_parts-Sends chunk_size (suc i) parts hm hc) (λ xs ys. length-append xs ys)

    upload_all-Sends :
        (chunk_size : ℕ) (raw_circuit : Bytes)
        → 0 < env.max_upload_per_tx_bytes
        → 0 < chunk_size
        → Sends length (upload_all env signer comp_def_offset mxe_program_id chunk_size raw_circuit)
    unfolding upload_all
    upload_all-Sends chunk_size raw_circuit hm hc =
        two-Sends length one length (λ xs x. xs ++ x ∷ []) _ _
          (upload_parts-Sends chunk_size 0 (account_parts raw_circuit) hm hc) (send-Sends _)
          (λ xs x. length-append xs (x ∷ []))

  -- If the network answers every transaction with a signature, and the chunk size and the number of
  -- bytes of an upload are positive, uploadCircuit throws nothing, for a circuit of any length, and
  -- returns exactly one signature for each transaction that it sent.
  pub upload_circuit-Sends :
      (signer circuit_name mxe_program_id : String) (raw_circuit : Bytes) (chunk_size : ℕ)
      → 0 < env.max_upload_per_tx_bytes
      → 0 < chunk_size
      → Sends length (upload_circuit env signer circuit_name mxe_program_id raw_circuit chunk_size)
  unfolding upload_circuit
  upload_circuit-Sends signer circuit_name mxe_program_id raw_circuit chunk_size hm hc =
      upload_all-Sends signer (computation_definition_offset env circuit_name) mxe_program_id
        chunk_size raw_circuit hm hc
