-- ===== src/Prelude/Keys.antt =====
-- `===` on texts, with what it decides.
use Prim.Native.String.{String}
use mathlib.Core.Path.{◌≡◌}
use mathlib.Core.Logic.{◌↔◌}
use mathlib.Core.Bool.{Bool, true}
use text.Mathlib.Text.{◌==◌ as str_eq}
use text.Mathlib.TextEquality.{eq_iff}
use text.Mathlib.TextPositions.{eq_refl}

infix 50 ◌===◌
abbrev pub ◌===◌ : String → String → Bool
s === t = str_eq s t

pub ===_iff : (s t : String) → ((s === t) ≡ true) ↔ (s ≡ t)
===_iff s t = eq_iff s t

pub ===_refl : (s : String) → (s === s) ≡ true
===_refl s = eq_refl s
