-- ===== src/Arcium/Plan.antt =====
-- kit-plugin-arcium/src/lib/upload-circuit.ts: how a circuit is divided into accounts, transactions
-- and resize instructions.
pub mod Pieces
pub mod Resize
use solana_kit_plugins.Prelude.{
  ℕ, zero, suc, ◌+◌, ◌-◌, ◌*◌, ◌/◌, List, [], ◌∷◌, length, min, ltb, if◌then◌else◌,
}
use solana_kit_plugins.Bytes.{Bytes, slice}
use solana_kit_plugins.Arcium.{max_account_size, max_realloc_per_ix, max_embiggen_ix_per_tx}

-- Math.ceil(a / b), for b > 0
abbrev pub ceil_div : ℕ → ℕ → ℕ
ceil_div a b = (a + (b - 1)) / b

-- Array.from({ length: n }, (_, j) => f(i + j))
unfoldable pub tabulate {ℓ} : {A : Type ℓ} → ℕ → ℕ → (ℕ → A) → List A
tabulate zero i f = []
tabulate (suc n) i f = f i ∷ tabulate n (suc i) f

-- `bytesPerAccount`
abbrev pub bytes_per_account : ℕ
bytes_per_account = max_account_size - 9

-- the piece number `i` of at most `size` bytes
abbrev pub piece : ℕ → Bytes → ℕ → Bytes
piece size bytes i = slice bytes (i * size) (min ((i + 1) * size) (length bytes))

-- the parts of a circuit, one for each account
unfoldable pub account_parts : Bytes → List Bytes
unfolding tabulate
account_parts raw_circuit =
    tabulate (ceil_div (length raw_circuit) bytes_per_account) 0
      (piece bytes_per_account raw_circuit)

-- a slice of a part, with its offset
abbrev pub upload_piece : ℕ → Bytes → ℕ → Bytes × ℕ
upload_piece max_upload part index =
    let circuit_offset = max_upload * index in
    (slice part circuit_offset (min (circuit_offset + max_upload) (length part)), circuit_offset)

-- the loop over the chunks of upload transactions, from transaction `i` on: the pieces of each
-- chunk. `fuel` bounds the rounds.
unfoldable pub upload_chunks : ℕ → ℕ → ℕ → Bytes → ℕ → List (List (Bytes × ℕ))
unfolding tabulate
upload_chunks zero max_upload chunk_size part i = []
upload_chunks (suc fuel) max_upload chunk_size part i =
    let count = ceil_div (length part) max_upload in
    let rest = upload_chunks fuel max_upload chunk_size part (i + chunk_size) in
    if ltb i count
    then tabulate (min chunk_size (count - i)) i (upload_piece max_upload part) ∷ rest
    else []

-- `resizeTxCount`, where the part needs any
abbrev pub resize_tx_count : ℕ → ℕ
resize_tx_count size =
    if ltb max_realloc_per_ix size
    then ceil_div size (max_realloc_per_ix * max_embiggen_ix_per_tx)
    else 0

-- `instructionCount` of resize transaction `i`. Where the source has a `resizeSize` below 0, its
-- `instructionCount` is not above 0 and `Array.from` makes no instructions, as for 0.
abbrev pub instruction_count : ℕ → ℕ → ℕ
instruction_count size i =
    let current_size = max_realloc_per_ix + i * (max_realloc_per_ix * max_embiggen_ix_per_tx) in
    let resize_size = min (size - current_size) (max_embiggen_ix_per_tx * max_realloc_per_ix) in
    ceil_div resize_size max_realloc_per_ix

-- the numbers of instructions of the resize transactions
unfoldable pub resize_counts : ℕ → List ℕ
unfolding tabulate
resize_counts size = tabulate (resize_tx_count size) 0 (instruction_count size)
