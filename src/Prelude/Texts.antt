-- ===== src/Prelude/Texts.antt =====
-- Texts as JavaScript has them. Positions count UTF-16 units; a cut through a pair of surrogates has
-- no model, so `substring_to` is for texts of the basic plane, as addresses are.
use Prim.Native.String.{String, [], ◌∷◌, ◌++◌}
use Prim.Native.Char.{code}
use Prim.Native.Nat.{ℕ, zero, suc, ◌+◌}
use mathlib.Core.List.{List}
use solana_kit_plugins.Prelude.Tests.{leb, if◌then◌else◌}

-- text.length
abbrev pub utf16_length : String → ℕ
utf16_length [] = 0
utf16_length (c ∷ s) = (if leb 65536 (code c) then 2 else 1) + utf16_length s

-- text.substring(0, n)
abbrev pub substring_to : ℕ → String → String
substring_to zero s = []
substring_to (suc n) [] = []
substring_to (suc n) (c ∷ s) = c ∷ substring_to n s

-- texts.join(",")
abbrev pub join : List String → String
join List.[] = ""
join (List.◌∷◌ s List.[]) = s
join (List.◌∷◌ s (List.◌∷◌ t ts)) = s ++ ("," ++ join (List.◌∷◌ t ts))
