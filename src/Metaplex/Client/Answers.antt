-- ===== src/Metaplex/Client/Answers.antt =====
-- kit-plugin-metaplex/src/lib/metaplex-client.ts: what the two sources of metadata answer at a call.
use solana_kit_plugins.Prelude.{
  ℕ, ◌+◌, String, Option, none, some, Bool, true, false, ◌≡◌, refl, if◌then◌else◌,
}
use solana_kit_plugins.Prelude.Result.{Result, ok, throw}
use solana_kit_plugins.Prelude.Effect.{continue, recover, lift, pure}
use solana_kit_plugins.Metaplex.{TokenMetadata}
use solana_kit_plugins.Metaplex.Client.{
  Error, Env, State, get_metaplex_metadata_address, map_option, fetch_metaplex_metadata,
  fetch_token_extensions_metadata, fetch_preferred, metadata_of_account, to_token_metadata, tick,
  truthy, Run, fall_back,
}

module _ {A B : Type 0} where
  abbrev pub answer_of : Result Error A → (A → Result Error (Option B)) → Option B
  answer_of (throw e) f = none
  answer_of (ok a) f = elim (f a) [ ok found ↦ found | throw e ↦ none ]

  -- what `try { … } catch { return null }` gives around one call and a computation on its answer
  pub tried :
      (r : Result Error A) (f : A → Result Error (Option B)) (s : State)
      → (let (result, s') = continue r (λ a. lift (f a)) s in recover result (λ e. pure none) s')
        ≡ (ok (answer_of r f), s)
  tried (throw e) f s = refl
  tried (ok a) f s = decided (f a)
    where
      decided :
          (x : Result Error (Option B))
          → recover x (λ e. pure none) s ≡ (ok (elim x [ ok found ↦ found | throw e ↦ none ]), s)
      decided (ok found) = refl
      decided (throw e) = refl

module _ {Json : Type 0} (env : Env Json) (mint : String) where
  -- the metadata of the Metaplex account as call number `n` shows it
  abbrev pub metaplex_answer : ℕ → Option TokenMetadata
  metaplex_answer n =
      answer_of (env.account_info n (get_metaplex_metadata_address env mint))
        (λ account. metadata_of_account env mint (truthy account))

  abbrev pub extension_answer : ℕ → Option TokenMetadata
  extension_answer n =
      answer_of (env.extension_metadata n mint)
        (λ metadata. ok (map_option (to_token_metadata env mint) metadata))

  pub fetch_metaplex_metadata_lem :
      (s : State) → fetch_metaplex_metadata env mint s ≡ (ok (metaplex_answer s.clock), tick s)
  unfolding fetch_metaplex_metadata
  fetch_metaplex_metadata_lem s =
      tried (env.account_info s.clock (get_metaplex_metadata_address env mint)) _ (tick s)

  pub fetch_token_extensions_metadata_lem :
      (s : State)
      → fetch_token_extensions_metadata env mint s ≡ (ok (extension_answer s.clock), tick s)
  unfolding fetch_token_extensions_metadata
  fetch_token_extensions_metadata_lem s =
      tried (env.extension_metadata s.clock mint)
        (λ metadata. ok (map_option (to_token_metadata env mint) metadata)) (tick s)

  -- the preferred source's answer, or else the other's, which is asked one call later; and the
  -- number of the next call
  abbrev pub first_of : Option TokenMetadata → Option TokenMetadata → ℕ → Option TokenMetadata × ℕ
  first_of (some metadata) second n = (some metadata, n + 1)
  first_of none second n = (second, n + 1 + 1)

  abbrev pub first_answer : ℕ → Option TokenMetadata × ℕ
  first_answer n =
      if env.prefer_metaplex
      then first_of (metaplex_answer n) (extension_answer (n + 1)) n
      else first_of (extension_answer n) (metaplex_answer (n + 1)) n

  fall_back_lem :
      (s : State) (first : Option TokenMetadata) (second : Run (Option TokenMetadata))
      {answer : Option TokenMetadata}
      → second (tick s) ≡ (ok answer, tick (tick s))
      → fall_back env first second (tick s) ≡ (
        ok (first_of first answer s.clock).0,
        record s { clock = (first_of first answer s.clock).1 },
      )
  fall_back_lem s (some metadata) second e = refl
  fall_back_lem s none second e = e

  if_lem :
      (s : State) (b : Bool) (m k : Run (Option TokenMetadata)) (x y : Option TokenMetadata × ℕ)
      → m s ≡ (ok x.0, record s { clock = x.1 })
      → k s ≡ (ok y.0, record s { clock = y.1 })
      → (if b then m else k) s
        ≡ (ok (if b then x else y).0, record s { clock = (if b then x else y).1 })
  if_lem s true m k x y left right = left
  if_lem s false m k x y left right = right

  pub fetch_preferred_lem :
      (s : State)
      → fetch_preferred env mint s
        ≡ (ok (first_answer s.clock).0, record s { clock = (first_answer s.clock).1 })
  unfolding fetch_preferred
  fetch_preferred_lem s =
      if_lem s env.prefer_metaplex _ _ _ _
        (rw (fetch_metaplex_metadata_lem s) (
          fall_back_lem s (metaplex_answer s.clock) (fetch_token_extensions_metadata env mint)
            (fetch_token_extensions_metadata_lem (tick s))))
        (rw (fetch_token_extensions_metadata_lem s) (
          fall_back_lem s (extension_answer s.clock) (fetch_metaplex_metadata env mint)
            (fetch_metaplex_metadata_lem (tick s))))
