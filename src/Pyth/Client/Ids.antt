-- ===== src/Pyth/Client/Ids.antt =====
-- kit-plugin-pyth/src/lib/pyth-client.ts: `normalizeFeedId`, on ids with and without the "0x".
use package.text.Mathlib.Text.{starts_with}
use package.text.Mathlib.TextPositions.{starts_with-append}
use Prim.Native.String
use Prim.Native.String.append
use Prim.Native.Char.{Char, code, char, IsScalar}
use mathlib.Core.Path.{subst, ap₂}
use solana_kit_plugins.Prelude.{
  ℕ, String, true, false, Bool, ◌===◌, ◌==◌, ==_iff, ===_iff, ◌≡◌, refl, ap, sym, ◌∙◌, ◌⊎◌, inl,
  inr, ◌||◌, ◌&&◌, Bool-cases, arith,
}
use solana_kit_plugins.Pyth.Client.{normalize_feed_id}

char_lem :
    (c : Char) (n : ℕ) (p : IsScalar n) → ((q r : IsScalar n) → q ≡ r) → code c ≡ n → c ≡ char n p
char_lem (char m q) n p prop e =
    subst (λ k. (r : IsScalar k) → char k r ≡ char n p) (sym e) (λ r. ap (char n) (prop r p)) q

prefix_0x :
    (rest : String)
    → String.◌++◌ "0x" rest ≡ String.◌∷◌ (char 48 tt) (String.◌∷◌ (char 120 tt) rest)
prefix_0x rest =
    append.cons (char 48 tt) "x" rest
    ∙ ap (String.◌∷◌ (char 48 tt))
        (append.cons (char 120 tt) "" rest ∙ ap (String.◌∷◌ (char 120 tt)) (append.nil rest))

and_true : (a b : Bool) → (a && b) ≡ true → (a ≡ true) × (b ≡ true)
and_true a b h = ground arith

pub normalize_feed_id-0x : (rest : String) → normalize_feed_id (String.◌++◌ "0x" rest) ≡ rest
unfolding normalize_feed_id
normalize_feed_id-0x rest = rw (prefix_0x rest) refl

zero_x :
    (c d : Char) (rest : String)
    → ((code c == 48) ≡ true) × ((code d == 120) ≡ true)
    → String.◌∷◌ c (String.◌∷◌ d rest) ≡ String.◌∷◌ (char 48 tt) (String.◌∷◌ (char 120 tt) rest)
zero_x c d rest (first, second) =
    ap₂ String.◌∷◌ (char_lem c 48 tt (λ q r. refl) ((==_iff (code c) 48).0 first)) (
      ap (λ e. String.◌∷◌ e rest)
        (char_lem d 120 tt (λ q r. refl) ((==_iff (code d) 120).0 second)))

normalize_feed_id-cases :
    (id : String) → (id ≡ normalize_feed_id id) ⊎ (id ≡ String.◌++◌ "0x" (normalize_feed_id id))
unfolding normalize_feed_id
normalize_feed_id-cases String.[] = inl refl
normalize_feed_id-cases (String.◌∷◌ c String.[]) = inl refl
normalize_feed_id-cases (String.◌∷◌ c (String.◌∷◌ d rest)) =
    elim (Bool-cases ((code c == 48) && (code d == 120))) [
      | inl e ↦
          inr (rw (e, prefix_0x rest) (zero_x c d rest (and_true (code c == 48) (code d == 120) e)))
      | inr e ↦ inl (rw e refl)
    ]

not_both : (b : Bool) → b ≡ false → b ≡ true → ⊥
not_both b h k = ground arith

-- a feed id without the leading "0x"
abbrev pub IsBare : String → Type 0
IsBare bare = starts_with bare "0x" ≡ false

pub normalize_feed_id-bare : (bare : String) → IsBare bare → normalize_feed_id bare ≡ bare
normalize_feed_id-bare bare h = elim (normalize_feed_id-cases bare) [
  | inl e ↦ sym e
  | inr e ↦ absurd (
      not_both _ h
        (ap (λ s. starts_with s "0x") e ∙ starts_with-append "0x" (normalize_feed_id bare)))
]

-- the id is written without the leading "0x", or with it
abbrev pub names : String → String → Bool
names bare id = (id === bare) || (id === String.◌++◌ "0x" bare)

same_test : (a b : Bool) → (a ≡ true → b ≡ true) → (b ≡ true → a ≡ true) → a ≡ b
same_test true true f g = refl
same_test true false f g = sym (f refl)
same_test false true f g = g refl
same_test false false f g = refl

or_true : (a b : Bool) → (a || b) ≡ true → (a ≡ true) ⊎ (b ≡ true)
or_true true b h = inl refl
or_true false b h = inr h

or_left : (a b : Bool) → a ≡ true → (a || b) ≡ true
or_left true b h = refl
or_left false b h = absurd (ground arith)

or_right : (a b : Bool) → b ≡ true → (a || b) ≡ true
or_right true b h = refl
or_right false b h = h

pub normalize_feed_id-names :
    (bare id : String) → IsBare bare → (normalize_feed_id id === bare) ≡ names bare id
normalize_feed_id-names bare id h =
    same_test (normalize_feed_id id === bare) (names bare id)
      (λ e. elim (normalize_feed_id-cases id) [
        | inl same ↦
            or_left (id === bare) (id === String.◌++◌ "0x" bare)
              ((===_iff id bare).1 (same ∙ (===_iff (normalize_feed_id id) bare).0 e))
        | inr same ↦ or_right (id === bare) (id === String.◌++◌ "0x" bare) (
            (===_iff id (String.◌++◌ "0x" bare)).1
              (same ∙ ap (String.◌++◌ "0x") ((===_iff (normalize_feed_id id) bare).0 e)))
      ])
      (λ e.
        (===_iff (normalize_feed_id id) bare).1
          (elim (or_true (id === bare) (id === String.◌++◌ "0x" bare) e) [
            | inl same ↦
                ap normalize_feed_id ((===_iff id bare).0 same) ∙ normalize_feed_id-bare bare h
            | inr same ↦
                ap normalize_feed_id ((===_iff id (String.◌++◌ "0x" bare)).0 same)
                ∙ normalize_feed_id-0x bare
          ]))
