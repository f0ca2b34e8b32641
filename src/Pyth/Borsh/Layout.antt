-- ===== src/Pyth/Borsh/Layout.antt =====
-- What the Borsh encoders write, against the format: lengths first, then the bytes.
use solana_kit_plugins.Prelude.{
  ℕ, ◌+◌, ◌*◌, ◌%◌, ◌≡◌, refl, List, [], ◌∷◌, ◌++◌, append-nil, append_assoc, length, length-append,
  arith, All, take_all, ◌∙◌, ap,
}
use solana_kit_plugins.Prelude.Result.{ok}
use solana_kit_plugins.Bytes.{Bytes, le_bytes, zeros}
use solana_kit_plugins.Bytes.Laws.{write-zeros, length-le_bytes}
use solana_kit_plugins.Pyth.{post_update_atomic_discriminator}
use solana_kit_plugins.Pyth.Borsh.{
  set_bytes, borsh_encode_bytes, set_proofs, borsh_encode_proof_vec, total_length, set_parts,
  build_post_update_atomic_data,
}
use mathlib.Core.List.{flatten}

-- A write right behind what is filled, into a buffer of zeros that has room.
set_bytes-zeros :
    (pre bytes : Bytes) (n k offset : ℕ)
    → n ≡ length bytes + k
    → offset ≡ length pre
    → set_bytes (pre ++ zeros n) bytes offset ≡ ok ((pre ++ bytes) ++ zeros k)
set_bytes-zeros pre bytes n k offset p q = rw (p, q) (rw (write-zeros pre bytes k) refl)

-- the loop over the parts writes one behind the other
set_parts-flatten :
    (parts : List Bytes) (pre : Bytes)
    → set_parts parts (pre ++ zeros (total_length parts)) (length pre) ≡ ok (pre ++ flatten parts)
unfolding set_parts total_length flatten
set_parts-flatten [] pre = refl
set_parts-flatten (part ∷ parts) pre =
    rw (write-zeros pre part (total_length parts), ← length-append pre part)
      (set_parts-flatten parts (pre ++ part) ∙ ap ok (append_assoc pre part (flatten parts)))

-- Borsh's form of a byte vector
abbrev pub byte_vec : Bytes → Bytes
byte_vec bytes = le_bytes 4 (length bytes) ++ bytes

borsh_encode_bytes-byte_vec : (bytes : Bytes) → borsh_encode_bytes bytes ≡ ok (byte_vec bytes)
unfolding borsh_encode_bytes
borsh_encode_bytes-byte_vec bytes = rw (
  set_bytes-zeros [] (le_bytes 4 (length bytes)) (4 + length bytes) (length bytes) 0
      (rw length-le_bytes) refl,
  set_bytes-zeros (le_bytes 4 (length bytes)) bytes (length bytes) 0 4 (omega arith)
      (rw length-le_bytes),
  append-nil,
)

-- each proof node has 20 bytes
abbrev pub IsProof : List Bytes → Type 0
IsProof proofs = All (λ proof. length proof ≡ 20) proofs

set_proofs-flatten :
    (proofs : List Bytes) (pre : Bytes) (n offset : ℕ)
    → IsProof proofs
    → n ≡ length proofs * 20
    → offset ≡ length pre
    → set_proofs proofs (pre ++ zeros n) offset ≡ ok (pre ++ flatten proofs)
unfolding set_proofs flatten
set_proofs-flatten [] pre n offset h p q = rw p refl
set_proofs-flatten (proof ∷ proofs) pre n offset (h, hs) p q =
    rw
      (take_all proof 20 h, set_bytes-zeros pre proof n (length proofs * 20) offset (omega arith) q)
      (set_proofs-flatten proofs (pre ++ proof) (length proofs * 20) (offset + 20) hs refl
          (omega (arith, length-append pre proof))
        ∙ ap ok (append_assoc pre proof (flatten proofs)))

-- Borsh's form of a vector of 20-byte arrays
abbrev pub proof_vec : List Bytes → Bytes
proof_vec proofs = le_bytes 4 (length proofs) ++ flatten proofs

borsh_encode_proof_vec-proof_vec :
    (proofs : List Bytes) → IsProof proofs → borsh_encode_proof_vec proofs ≡ ok (proof_vec proofs)
unfolding borsh_encode_proof_vec
borsh_encode_proof_vec-proof_vec proofs h =
    rw
      (set_bytes-zeros [] (le_bytes 4 (length proofs)) (4 + length proofs * 20) (length proofs * 20)
        0 (rw length-le_bytes) refl)
      (set_proofs-flatten proofs (le_bytes 4 (length proofs)) (length proofs * 20) 4 h refl
        (rw length-le_bytes))

-- With 20-byte proof nodes no write is out of range, and the data of the instruction is the
-- discriminator, the two byte vectors, the proof vector and the treasury's byte, with nothing
-- between them.
pub build_post_update_atomic_data_layout :
    (vaa message : Bytes) (proof : List Bytes) (treasury_id : ℕ)
    → IsProof proof
    → build_post_update_atomic_data vaa message proof treasury_id
      ≡ ok (
          post_update_atomic_discriminator
          ++ (byte_vec vaa
              ++ (byte_vec message ++ (proof_vec proof ++ ((treasury_id % 256) ∷ [])))))
unfolding build_post_update_atomic_data
build_post_update_atomic_data_layout vaa message proof treasury_id h =
    rw
      (
        borsh_encode_bytes-byte_vec vaa,
        borsh_encode_bytes-byte_vec message,
        borsh_encode_proof_vec-proof_vec proof h,
      )
      (set_parts-flatten _ [] ∙ unfold flatten in rw append-nil refl)
