-- ===== src/Arcium/Encryption/Layout.antt =====
-- kit-plugin-arcium/src/lib/encryption.ts: the key that is read of an MXEAccount.
use solana_kit_plugins.Prelude.{
  ℕ, zero, suc, ◌+◌, ◌^◌, ◌<◌, [], ◌∷◌, ◌++◌, some, Bool, true, ◌&&◌, not, ◌==◌, get_elem?, length,
  ◌≡◌, refl, ap, sym, ◌∙◌, arith, append_assoc, length-append,
}
use native.Mathlib.Nat.{add-zero}
use solana_kit_plugins.Bytes.{Bytes, field, le_bytes, le_value}
use solana_kit_plugins.Bytes.Laws.{
  slice-append, field-skip, field-here, le_value-le_bytes, length-le_bytes,
}
use solana_kit_plugins.Arcium.Encryption.{
  all_true, public_key_at, variant_offset, flags_checked, key_by_variant, mxe_public_key,
  not_fully_initialized,
}
use solana_kit_plugins.Prelude.{none, if◌then◌else◌, Option}
use solana_kit_plugins.Prelude.Result.{ok, throw}

get_elem?-append :
    (pre post : Bytes) (b n : ℕ) → n ≡ length pre → get_elem? (pre ++ b ∷ post) n ≡ some b
get_elem?-append [] post b zero h = refl
get_elem?-append [] post b (suc n) h = absurd (omega arith)
get_elem?-append (x ∷ pre) post b zero h = absurd (omega arith)
get_elem?-append (x ∷ pre) post b (suc n) h = get_elem?-append pre post b n (omega arith)

abbrev pub nonzero : Bytes → Bool
nonzero [] = true
nonzero (b ∷ bs) = not (b == 0) && nonzero bs

all_true_lem :
    (flags pre post : Bytes) (offset : ℕ)
    → offset ≡ length pre
    → all_true (pre ++ (flags ++ post)) offset (length flags) ≡ nonzero flags
unfolding all_true
all_true_lem [] pre post offset h = refl
all_true_lem (b ∷ flags) pre post offset h = rw (get_elem?-append pre (flags ++ post) b offset h) (
    ap (λ rest. not (b == 0) && rest)
      (ap (λ bytes. all_true bytes (offset + 1) (length flags))
          (sym (append_assoc pre (b ∷ []) (flags ++ post)))
        ∙ all_true_lem flags (pre ++ b ∷ []) post (offset + 1)
            (omega (arith, length-append pre (b ∷ [])))))

-- the key stands behind the variant, at `offset`
module _ (pre key more : Bytes) (variant offset : ℕ) (h : offset ≡ length pre + 1)
    (size : length key ≡ 32) where
  abbrev account_with : Bytes
  account_with = pre ++ (variant ∷ (key ++ more))

  key_read : public_key_at account_with offset ≡ key
  key_read =
      slice-append account_with (pre ++ variant ∷ []) key more offset (offset + 32)
        (sym (append_assoc pre (variant ∷ []) (key ++ more)))
        (omega (arith, length-append pre (variant ∷ []))) (omega arith)

abbrev pub vector : Bytes → Bytes → Bytes
vector flags post = le_bytes 4 (length flags) ++ (flags ++ post)

vector_read :
    (pre flags post : Bytes) (offset : ℕ)
    → offset ≡ length pre
    → length flags < 256 ^ 4
    → (field 4 (pre ++ vector flags post) offset ≡ some (le_bytes 4 (length flags)))
      × (all_true (pre ++ vector flags post) (offset + 4) (le_value (le_bytes 4 (length flags)))
          ≡ nonzero flags)
vector_read pre flags post offset h small = (
  rw (← add-zero offset) (
      field-skip 4 pre (vector flags post) offset 0 (sym h)
      ∙ field-here 4 (le_bytes 4 (length flags)) (flags ++ post)
          (length-le_bytes 4 (length flags))),
  ap (all_true (pre ++ vector flags post) (offset + 4)) (le_value-le_bytes 4 (length flags) small)
      ∙ ap (λ bytes. all_true bytes (offset + 4) (length flags))
          (sym (append_assoc pre (le_bytes 4 (length flags)) (flags ++ post)))
      ∙ all_true_lem flags (pre ++ le_bytes 4 (length flags)) post (offset + 4) (
          omega (
            arith,
            length-append pre (le_bytes 4 (length flags)),
            length-le_bytes 4 (length flags),
          )),
)

unset_read :
    (pre key others flags post : Bytes)
    → length key ≡ 32
    → length others ≡ 128
    → length flags < 256 ^ 4
    → key_by_variant (pre ++ (1 ∷ (key ++ (others ++ vector flags post)))) (length pre + 1) (some 1)
      ≡ (if nonzero flags then ok key else throw not_fully_initialized)
unset_read pre key others flags post k o small =
    let account = pre ++ (1 ∷ (key ++ (others ++ vector flags post))) in
    let front = pre ++ (1 ∷ (key ++ others)) in
    let split : account ≡ front ++ vector flags post = sym (
      append_assoc pre (1 ∷ (key ++ others)) (vector flags post)
      ∙ ap (λ rest. pre ++ (1 ∷ rest)) (append_assoc key others (vector flags post))) in
    let (word, tests) =
      vector_read front flags post (length pre + 1 + 160)
        (omega (arith, length-append pre (1 ∷ (key ++ others)), length-append key others)) small in
    ap (flags_checked account (length pre + 1))
      (ap (λ bytes. field 4 bytes (length pre + 1 + 160)) split ∙ word)
    ∙ ap
        (λ test.
          if test then ok (public_key_at account (length pre + 1)) else throw not_fully_initialized)
        (ap
            (λ bytes.
              all_true bytes (length pre + 1 + 160 + 4) (le_value (le_bytes 4 (length flags))))
            split
          ∙ tests)
    ∙ ap (λ found. if nonzero flags then ok found else throw not_fully_initialized)
        (key_read pre key (others ++ vector flags post) 1 (length pre + 1) refl k)

-- what stands in front of the variant: the fields up to the program's id, and the authority
abbrev pub before_keys : Bytes → Option Bytes → Bytes
before_keys header none = header ++ 0 ∷ []
before_keys header (some authority) = header ++ 1 ∷ authority

abbrev pub IsAuthority : Option Bytes → Type 0
IsAuthority none = Unit
IsAuthority (some authority) = length authority ≡ 32

tag_read :
    (header rest post : Bytes) (tag : ℕ)
    → length header ≡ 61
    → get_elem? ((header ++ tag ∷ rest) ++ post) 61 ≡ some tag
tag_read header rest post tag h =
    ap (λ bytes. get_elem? bytes 61) (append_assoc header (tag ∷ rest) post)
    ∙ get_elem?-append header (rest ++ post) tag 61 (sym h)

variant_offset-before_keys :
    (header : Bytes) (authority : Option Bytes) (post : Bytes)
    → length header ≡ 61
    → IsAuthority authority
    → variant_offset (before_keys header authority ++ post) ≡ length (before_keys header authority)
variant_offset-before_keys header none post h a =
    rw (tag_read header [] post 0 h) (omega (arith, length-append header (0 ∷ [])))
variant_offset-before_keys header (some authority) post h a =
    rw (tag_read header authority post 1 h) (omega (arith, length-append header (1 ∷ authority)))

-- the read of an account, once the place of the variant is known
variant_read :
    (pre post : Bytes) (variant : ℕ)
    → variant_offset (pre ++ variant ∷ post) ≡ length pre
    → mxe_public_key (pre ++ variant ∷ post)
      ≡ key_by_variant (pre ++ variant ∷ post) (length pre + 1) (some variant)
unfolding mxe_public_key
variant_read pre post variant h =
    ap
      (λ offset.
        key_by_variant (pre ++ variant ∷ post) (offset + 1)
          (get_elem? (pre ++ variant ∷ post) offset))
      h
    ∙ ap (key_by_variant (pre ++ variant ∷ post) (length pre + 1))
        (get_elem?-append pre post variant (length pre) refl)

-- The account of an MXE as the comment of the source lays it out: 61 bytes, an optional authority,
-- and the keys. Of keys that are set, the first 32 bytes come back. Of keys that are not, they come
-- back if none of the flags behind the 160 bytes of keys is 0, and else the read throws.
pub mxe_public_key-before_keys :
    (header : Bytes) (authority : Option Bytes) (key others flags post : Bytes)
    → length header ≡ 61
    → IsAuthority authority
    → length key ≡ 32
    → length others ≡ 128
    → length flags < 256 ^ 4
    → (mxe_public_key (before_keys header authority ++ (0 ∷ (key ++ (others ++ post)))) ≡ ok key)
      × (mxe_public_key
            (before_keys header authority ++ (1 ∷ (key ++ (others ++ vector flags post))))
          ≡ (if nonzero flags then ok key else throw not_fully_initialized))
mxe_public_key-before_keys header authority key others flags post h a k o small =
    let pre = before_keys header authority in
    (
      variant_read pre (key ++ (others ++ post)) 0
            (variant_offset-before_keys header authority (0 ∷ (key ++ (others ++ post))) h a)
          ∙ ap ok (key_read pre key (others ++ post) 0 (length pre + 1) refl k),
      variant_read pre (key ++ (others ++ vector flags post)) 1 (
            variant_offset-before_keys header authority (1 ∷ (key ++ (others ++ vector flags post)))
              h a)
          ∙ unset_read pre key others flags post k o small,
    )
