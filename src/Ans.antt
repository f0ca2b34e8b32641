-- ===== src/Ans.antt =====
-- kit-plugin-ans-name-service/src/lib: constants.ts, types.ts and `split` as ans.ts uses it.
pub mod Client
pub mod Plugin
mod Tests
use Prim.Native.String.{String, [], ◌∷◌}
use Prim.Native.Char.{Char, code}
use solana_kit_plugins.Prelude.{ℕ, List, ◌==◌, if◌then◌else◌, length, ltb, Bool}
use mathlib.Core.List

abbrev pub ans_program_id : String
ans_program_id = "ALTNSZ46uaAUU7XUV6awvdorLGqAsPwa9shm7h4uP2FK"

abbrev pub hash_prefix : String
hash_prefix = "AllDomains\0"

abbrev pub origin_tld : String
origin_tld = "ANS"

abbrev pub ans_owner_offset_start : ℕ
ans_owner_offset_start = 72

abbrev pub ans_owner_offset_end : ℕ
ans_owner_offset_end = 104

abbrev pub default_cache_time : ℕ
default_cache_time = 3600000

pub record AnsCacheEntry : Type 0 where
  pub address : String
  pub expires_at : ℕ

-- a character in front of the first part
abbrev pub prepend : Char → List String → List String
prepend c List.[] = List.◌∷◌ (c ∷ []) List.[]
prepend c (List.◌∷◌ part parts) = List.◌∷◌ (c ∷ part) parts

-- s.split(".")
unfoldable pub split : String → List String
split [] = List.◌∷◌ [] List.[]
split (c ∷ s) = let parts = split s in if code c == 46 then List.◌∷◌ [] parts else prepend c parts
