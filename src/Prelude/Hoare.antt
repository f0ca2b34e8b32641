-- ===== src/Prelude/Hoare.antt =====
-- What a computation of Effect ensures: one property of its value and the state that it leaves, and
-- one of its error and the state that it leaves.
use solana_kit_plugins.Prelude.Result.{Result, ok, throw}
use solana_kit_plugins.Prelude.Effect.{Exec, ◌>>=◌, continue, recover, catch}

module _ {ℓ κ} {S E A : Type ℓ} where
  abbrev pub Ensures : (A → S → Type κ) → (E → S → Type κ) → Result E A × S → Type κ
  Ensures Q X (ok a, s) = Q a s
  Ensures Q X (throw e, s) = X e s

module _ {ℓ κ} {S E A B : Type ℓ} where
  Ensures-continue :
      (Q : A → S → Type κ) (R : B → S → Type κ) (X : E → S → Type κ) (f : A → Exec S E B)
      → (r : Result E A) (s : S) → Ensures Q X (r, s)
      → ((a : A) (t : S) → Q a t → Ensures R X (f a t))
      → Ensures R X (continue r f s)
  Ensures-continue Q R X f (ok a) s h next = next a s h
  Ensures-continue Q R X f (throw e) s h next = h

  pub Ensures-bind :
      (Q : A → S → Type κ) (R : B → S → Type κ) (X : E → S → Type κ) (m : Exec S E A)
      (f : A → Exec S E B) (s : S)
      → Ensures Q X (m s)
      → ((a : A) (t : S) → Q a t → Ensures R X (f a t))
      → Ensures R X ((m >>= f) s)
  Ensures-bind Q R X m f s h next = Ensures-continue Q R X f (m s).0 (m s).1 h next

module _ {ℓ κ} {S E A : Type ℓ} where
  Ensures-recover :
      (Q : A → S → Type κ) (X Y : E → S → Type κ) (handler : E → Exec S E A) (r : Result E A)
      (s : S)
      → Ensures Q X (r, s)
      → ((e : E) (t : S) → X e t → Ensures Q Y (handler e t))
      → Ensures Q Y (recover r handler s)
  Ensures-recover Q X Y handler (ok a) s h next = h
  Ensures-recover Q X Y handler (throw e) s h next = next e s h

  pub Ensures-catch :
      (Q : A → S → Type κ) (X Y : E → S → Type κ) (m : Exec S E A) (handler : E → Exec S E A)
      (s : S)
      → Ensures Q X (m s)
      → ((e : E) (t : S) → X e t → Ensures Q Y (handler e t))
      → Ensures Q Y (catch m handler s)
  Ensures-catch Q X Y m handler s h next = Ensures-recover Q X Y handler (m s).0 (m s).1 h next

  pub Ensures-weaken :
      (Q R : A → S → Type κ) (X Y : E → S → Type κ) (x : Result E A × S)
      → Ensures Q X x
      → ((a : A) (t : S) → Q a t → R a t)
      → ((e : E) (t : S) → X e t → Y e t)
      → Ensures R Y x
  Ensures-weaken Q R X Y (ok a, s) h f g = f a s h
  Ensures-weaken Q R X Y (throw e, s) h f g = g e s h

module _ {ℓ κ} {S E A : Type ℓ} where
  -- an answer of either kind, with a state that has the property
  pub Ensures-result :
      (P : S → Type κ) (r : Result E A) (s : S) → P s → Ensures (λ a. P) (λ e. P) (r, s)
  Ensures-result P (ok a) s h = h
  Ensures-result P (throw e) s h = h

-- the computation does not throw
abbrev pub Never {ℓ} : {S E : Type ℓ} → E → S → Type 0
Never e s = ⊥
