-- ===== src/Prelude/Effect.antt =====
-- Code that may throw and changes a state. What was written before a throw stays written, so the
-- state comes back beside the error too. An `await` is the result of the call that it waits for.
use mathlib.Core.Option.{Option, none, some}
use solana_kit_plugins.Prelude.Result.{Result, ok, throw}
use mathlib.Core.Path.{◌≡◌, refl}

abbrev pub Exec {ℓ} : Type ℓ → Type ℓ → Type ℓ → Type ℓ
Exec S E A = S → Result E A × S

module _ {ℓ} {S E A : Type ℓ} where
  abbrev pub pure : A → Exec S E A
  pure a s = (ok a, s)

  abbrev pub raise : E → Exec S E A
  raise e s = (throw e, s)

  abbrev pub lift : Result E A → Exec S E A
  lift r s = (r, s)

  abbrev pub gets : (S → A) → Exec S E A
  gets f s = (ok (f s), s)

  -- `if (!x) throw e`
  abbrev pub require : E → Option A → Exec S E A
  require e none s = (throw e, s)
  require e (some a) s = (ok a, s)

  abbrev pub recover : Result E A → (E → Exec S E A) → S → Result E A × S
  recover (ok a) handler s = (ok a, s)
  recover (throw e) handler s = handler e s

  -- `try { m } catch (e) { handler(e) }`
  abbrev pub catch : Exec S E A → (E → Exec S E A) → Exec S E A
  catch m handler s = let (r, s') = m s in recover r handler s'

module _ {ℓ} {S E A B : Type ℓ} where
  abbrev pub continue : Result E A → (A → Exec S E B) → S → Result E B × S
  continue (ok a) f s = f a s
  continue (throw e) f s = (throw e, s)

  infixl 5 ◌>>=◌
  abbrev pub ◌>>=◌ : Exec S E A → (A → Exec S E B) → Exec S E B
  ◌>>=◌ m f s = let (r, s') = m s in continue r f s'

module _ {ℓ} {S E A B : Type ℓ} where
  -- A last step that only computes changes no state.
  pub continue-state : (r : Result E A) (f : A → B) (s : S) → (continue r (λ a. pure (f a)) s).1 ≡ s
  continue-state (ok a) f s = refl
  continue-state (throw e) f s = refl

module _ {ℓ} {E A B C : Type ℓ} where
  abbrev pub both : (A → B → C) → Result E A → Result E B → Result E C
  both f (ok a) (ok b) = ok (f a b)
  both f (ok a) (throw e) = throw e
  both f (throw e) r = throw e

module _ {ℓ} {S E A B C : Type ℓ} where
  -- two computations that `Promise.all` waits for: the second is started whatever the first does
  abbrev pub together : (A → B → C) → Exec S E A → Exec S E B → Exec S E C
  together f m k s = let (r, s') = m s in let (r', s'') = k s' in (both f r r', s'')
