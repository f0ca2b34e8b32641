-- ===== src/Bytes/Laws.antt =====
-- Reads and writes of fixed-width fields.
use solana_kit_plugins.Prelude.{
  ℕ, zero, suc, ◌+◌, ◌-◌, ◌*◌, ◌/◌, ◌%◌, ◌^◌, ◌<◌, List, [], ◌∷◌, ◌++◌, some, length, take, drop,
  length-replicate, length-append, append_assoc, ◌≡◌, refl, ap, arith,
}
use solana_kit_plugins.Bytes.{
  Bytes, le_value, le_bytes, be_bytes, be_value_from, field, zeros, write, slice,
}
use native.Mathlib.Nat.{pow-suc, zero-add, suc-add, add-zero}

pub length-le_bytes : (w n : ℕ) → length (le_bytes w n) ≡ w
unfolding le_bytes
length-le_bytes zero n = refl
length-le_bytes (suc w) n = ap suc (length-le_bytes w (n / 256))

pub le_value-le_bytes : (w n : ℕ) → n < 256 ^ w → le_value (le_bytes w n) ≡ n
unfolding le_bytes le_value
le_value-le_bytes zero n h = omega arith
le_value-le_bytes (suc w) n h =
    omega (arith, le_value-le_bytes w (n / 256) (omega (arith, pow-suc 256 w)))

pub length-be_bytes : (w n : ℕ) → length (be_bytes w n) ≡ w
unfolding be_bytes
length-be_bytes zero n = refl
length-be_bytes (suc w) n =
    omega
      (arith, length-append (be_bytes w (n / 256)) ((n % 256) ∷ []), length-be_bytes w (n / 256))

be_value-snoc :
    (acc : ℕ) (bs : Bytes) (b : ℕ)
    → be_value_from acc (bs ++ b ∷ []) ≡ be_value_from acc bs * 256 + b
unfolding be_value_from
be_value-snoc acc [] b = refl
be_value-snoc acc (c ∷ bs) b = be_value-snoc (acc * 256 + c) bs b

pub be_value-be_bytes : (w n : ℕ) → n < 256 ^ w → be_value_from 0 (be_bytes w n) ≡ n
unfolding be_bytes
be_value-be_bytes zero n h = unfold be_value_from in omega arith
be_value-be_bytes (suc w) n h = omega (
  arith,
  be_value-snoc 0 (be_bytes w (n / 256)) (n % 256),
  be_value-be_bytes w (n / 256) (omega (arith, pow-suc 256 w)),
)

module _ {ℓ} {A : Type ℓ} where
  pub take-append : (xs ys : List A) (n : ℕ) → length xs ≡ n → take n (xs ++ ys) ≡ xs
  take-append [] ys zero h = refl
  take-append [] ys (suc n) h = absurd (omega arith)
  take-append (x ∷ xs) ys zero h = absurd (omega arith)
  take-append (x ∷ xs) ys (suc n) h = ap (◌∷◌ x) (take-append xs ys n (omega arith))

  pub drop-append : (xs ys : List A) (n o : ℕ) → length xs ≡ n → drop (n + o) (xs ++ ys) ≡ drop o ys
  drop-append [] ys zero o h = rw zero-add refl
  drop-append [] ys (suc n) o h = absurd (omega arith)
  drop-append (x ∷ xs) ys zero o h = absurd (omega arith)
  drop-append (x ∷ xs) ys (suc n) o h = rw suc-add (drop-append xs ys n o (omega arith))

-- A read at an offset past the first part reads the second part.
pub field-skip :
    (w : ℕ) (xs ys : Bytes) (n o : ℕ) → length xs ≡ n → field w (xs ++ ys) (n + o) ≡ field w ys o
unfolding field
field-skip w xs ys n o h = ground (arith, drop-append xs ys n o h, length-append xs ys)

pub field-here : (w : ℕ) (xs ys : Bytes) → length xs ≡ w → field w (xs ++ ys) 0 ≡ some xs
unfolding field
field-here w xs ys h = ground (arith, take-append xs ys w h, length-append xs ys)

pub length-zeros : (n : ℕ) → length (zeros n) ≡ n
length-zeros n = length-replicate n 0

zeros-add : (m n : ℕ) → zeros (m + n) ≡ zeros m ++ zeros n
zeros-add zero n = rw zero-add refl
zeros-add (suc m) n = rw suc-add (ap (◌∷◌ 0) (zeros-add m n))

-- A write at the first zero of a buffer that is filled up to there.
pub write-zeros :
    (pre bytes : Bytes) (k : ℕ)
    → write (pre ++ zeros (length bytes + k)) bytes (length pre) ≡ some ((pre ++ bytes) ++ zeros k)
unfolding write
write-zeros pre bytes k = ground (
  arith,
  zeros-add (length bytes) k,
  take-append pre (zeros (length bytes + k)) (length pre) refl,
  drop-append pre (zeros (length bytes + k)) (length pre) (length bytes) refl,
  drop-append (zeros (length bytes)) (zeros k) (length bytes) 0 (length-zeros (length bytes)),
  length-append pre (zeros (length bytes + k)),
  length-zeros (length bytes + k),
  append_assoc pre bytes (zeros k),
  add-zero (length bytes),
)

-- A slice that covers exactly the middle part.
pub slice-append :
    (bytes pre mid post : Bytes) (from to : ℕ)
    → bytes ≡ pre ++ (mid ++ post)
    → from ≡ length pre
    → to ≡ from + length mid
    → slice bytes from to ≡ mid
slice-append bytes pre mid post from to e p q =
    rw (e, drop_front pre (mid ++ post) from p) (take-append mid post (to - from) (omega arith))
  where
    drop_front : (xs ys : Bytes) (n : ℕ) → n ≡ length xs → drop n (xs ++ ys) ≡ ys
    drop_front xs ys n h = rw (← add-zero n) (drop-append xs ys n 0 (omega arith))
