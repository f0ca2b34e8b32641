-- ===== src/Arcium/Events/Awaited.antt =====
-- kit-plugin-arcium/src/lib/events.ts: what awaitComputationFinalization returns, and how long it
-- waits.
use solana_kit_plugins.Prelude.{
  ℕ, zero, suc, ◌+◌, ◌*◌, ◌≤◌, ◌<◌, List, [], ◌∷◌, Option, none, some, Bool, true, false, ◌≡◌, refl,
  arith, if◌then◌else◌,
}
use solana_kit_plugins.Prelude.Int.{ℤ}
use solana_kit_plugins.Prelude.Result.{Result, ok, throw}
use solana_kit_plugins.Prelude.Effect.{pure, ◌>>=◌}
use solana_kit_plugins.Prelude.Hoare.{
  Ensures, Ensures-bind, Ensures-catch, Ensures-weaken, Ensures-result, Never,
}
use solana_kit_plugins.Bytes.{Bytes}
use solana_kit_plugins.Arcium.{String, arcium_program_id}
use solana_kit_plugins.Arcium.Serialization.{serialize_le}
use solana_kit_plugins.Arcium.Events.{
  Error, timed_out, Transaction, Env, State, ask, parse_anchor_event_from_logs, log_lines,
  is_finalization, scan, poll, pause_unless, return_or, attempts, await_computation_finalization,
}
use solana_kit_plugins.Arcium.Events.Finalized.{IsFinalization, has_computation-IsFinalization}

module _ (env : Env) (computation_offset : ℤ) (mxe_program_id : String) where
  abbrev offset_bytes : Bytes
  offset_bytes = serialize_le computation_offset 8

  abbrev mxe_program_id_bytes : Bytes
  mxe_program_id_bytes = env.encode_address mxe_program_id

  -- One of the calls from `first` on and before `end` answers the signature's transaction, and its
  -- logs hold the event.
  abbrev pub IsFinalized : ℕ → ℕ → String → Type 0
  IsFinalized first end signature =
      (n : ℕ) × (transaction : Transaction) × (first ≤ n)
      × (n < end)
      × (env.get_transaction n signature ≡ ok (some transaction))
      × IsFinalization env computation_offset mxe_program_id transaction

  abbrev IsFound : ℕ → Option String → State → Type 0
  IsFound first none t = Unit
  IsFound first (some signature) t = IsFinalized first t.clock signature

  -- what a loop over signatures leaves: `waited` as it was
  abbrev Scanned : ℕ → ℕ → Option String → State → Type 0
  Scanned first waited found t = (first ≤ t.clock) × (t.waited ≡ waited) × IsFound first found t

  abbrev Unchanged : ℕ → ℕ → State → Type 0
  Unchanged first waited t = (first ≤ t.clock) × (t.waited ≡ waited)

  -- the answer to a call, as a transaction or nothing
  finalization :
      (answer : Option Transaction)
      → is_finalization env offset_bytes mxe_program_id_bytes answer ≡ true
      → (transaction : Transaction) × (answer ≡ some transaction)
        × IsFinalization env computation_offset mxe_program_id transaction
  finalization none h = absurd (ground arith)
  finalization (some transaction) h = (
    transaction,
    refl,
    has_computation-IsFinalization env computation_offset mxe_program_id transaction
        (parse_anchor_event_from_logs env (log_lines transaction)
          (env.event_discriminator "FinalizeComputationEvent"))
        refl h,
  )

  -- `answer` is what one of the calls answers for the signature
  abbrev Answered : ℕ → ℕ → String → Option Transaction → State → Type 0
  Answered first waited signature answer t =
      (t.waited ≡ waited)
      × ((n : ℕ) × (first ≤ n) × (n < t.clock) × (env.get_transaction n signature ≡ ok answer))

  answered :
      (first waited : ℕ) (signature : String) (s : State) (r : Result Error (Option Transaction))
      → first ≤ s.clock
      → s.waited ≡ waited
      → env.get_transaction s.clock signature ≡ r
      → Ensures
          (Answered first waited signature)
          (λ error. Unchanged first waited)
          (r, record s { clock = s.clock + 1 })
  answered first waited signature s (ok answer) h w e = (w, (s.clock, h, omega arith, e))
  answered first waited signature s (throw error) h w e = (omega arith, w)

  scan_decided :
      (first waited : ℕ) (signature : String) (answer : Option Transaction) (t : State)
      (rest : State → Result Error (Option String) × State) (test : Bool)
      → is_finalization env offset_bytes mxe_program_id_bytes answer ≡ test
      → Answered first waited signature answer t
      → Ensures (Scanned first waited) (λ error. Unchanged first waited) (rest t)
      → Ensures
          (Scanned first waited)
          (λ error. Unchanged first waited)
          ((if test then pure (some signature) else rest) t)
  scan_decided first waited signature answer t rest false e h next = next
  scan_decided first waited signature answer t rest true e (w, (n, low, high, call)) next =
      let (transaction, there, event) = finalization answer e in
      (omega arith, w, (n, transaction, low, high, rw (call, there) refl, event))

  after_call :
      {P : ℕ → Type 0} (first : ℕ) (t : State)
      → (n : ℕ) × (first ≤ n) × (n < t.clock) × P n
      → first ≤ t.clock
  after_call first t (n, low, high, _) = omega arith

  scan-Scanned :
      (signatures : List String) (first waited : ℕ) (s : State)
      → first ≤ s.clock
      → s.waited ≡ waited
      → Ensures
          (Scanned first waited)
          (λ error. Unchanged first waited)
          (scan env offset_bytes mxe_program_id_bytes signatures s)
  unfolding scan
  scan-Scanned [] first waited s h w = (h, w, tt)
  scan-Scanned (signature ∷ signatures) first waited s h w =
      Ensures-bind (Answered first waited signature) (Scanned first waited)
        (λ error. Unchanged first waited) (ask (λ n. env.get_transaction n signature))
        (λ transaction.
          if is_finalization env offset_bytes mxe_program_id_bytes transaction
          then pure (some signature)
          else scan env offset_bytes mxe_program_id_bytes signatures)
        s (answered first waited signature s (env.get_transaction s.clock signature) h w refl)
        (λ answer t q.
          scan_decided first waited signature answer t
            (scan env offset_bytes mxe_program_id_bytes signatures)
            (is_finalization env offset_bytes mxe_program_id_bytes answer) refl q
            (scan-Scanned signatures first waited t (after_call first t q.1) q.0))

  abbrev wait : Option String → ℕ → ℕ
  wait none waited = waited + 1000
  wait (some signature) waited = waited

  -- what an attempt leaves: it has waited if it found nothing
  abbrev Polled : ℕ → ℕ → Option String → State → Type 0
  Polled first waited found t =
      (first ≤ t.clock) × (t.waited ≡ wait found waited) × IsFound first found t

  pause_unless-Polled :
      (first waited : ℕ) (found : Option String) (t : State)
      → Scanned first waited found t
      → Ensures (Polled first waited) (λ error. Unchanged first waited) (pause_unless env found t)
  pause_unless-Polled first waited none t (low, w, _) = (low, rw w refl, tt)
  pause_unless-Polled first waited (some signature) t (low, w, found) = (low, w, found)

  poll-Polled :
      (first waited : ℕ) (s : State)
      → first ≤ s.clock
      → s.waited ≡ waited
      → Ensures (Polled first waited) Never (poll env offset_bytes mxe_program_id_bytes s)
  unfolding poll
  poll-Polled first waited s h w =
      Ensures-catch (Polled first waited) (λ error. Unchanged first waited) Never
        (do
          signatures ← ask (λ n. env.signatures_for_address n arcium_program_id 10)
          found ← scan env offset_bytes mxe_program_id_bytes signatures
          pause_unless env found)
        (λ error. pause_unless env none) s
        (Ensures-bind (λ signatures. Unchanged first waited) (Polled first waited)
          (λ error. Unchanged first waited)
          (ask (λ n. env.signatures_for_address n arcium_program_id 10))
          (λ signatures. scan env offset_bytes mxe_program_id_bytes signatures >>= pause_unless env)
          s
          (Ensures-result (Unchanged first waited)
            (env.signatures_for_address s.clock arcium_program_id 10)
            (record s { clock = s.clock + 1 }) (omega arith, w))
          (λ signatures t q.
            Ensures-bind (Scanned first waited) (Polled first waited)
              (λ error. Unchanged first waited)
              (scan env offset_bytes mxe_program_id_bytes signatures) (pause_unless env) t
              (scan-Scanned signatures first waited t q.0 q.1) (pause_unless-Polled first waited)))
        (λ error t q. (q.0, rw q.1 refl, tt))

  -- a signature after a wait of `limit` at the most, or the error after exactly that
  abbrev pub Awaited : ℕ → ℕ → String → State → Type 0
  Awaited first limit signature t = IsFinalized first t.clock signature × (t.waited + 1000 ≤ limit)

  abbrev pub IsTimedOut : ℕ → Error → State → Type 0
  IsTimedOut limit e t = (e ≡ timed_out computation_offset) × (t.waited ≡ limit)

  attempt_decided :
      (left first limit waited : ℕ) (found : Option String) (t : State)
      → waited + suc left * 1000 ≡ limit
      → Polled first waited found t
      → (first ≤ t.clock
          → t.waited + left * 1000 ≡ limit
          → Ensures
              (Awaited first limit)
              (IsTimedOut limit)
              (attempts env computation_offset offset_bytes mxe_program_id_bytes left t))
      → Ensures (Awaited first limit) (IsTimedOut limit) (
          return_or env
            (attempts env computation_offset offset_bytes mxe_program_id_bytes left)
            found
            t)
  attempt_decided left first limit waited none t h (low, w, _) next = next low (omega arith)
  attempt_decided left first limit waited (some signature) t h (low, w, found) next =
      (found, omega arith)

  attempts-Awaited :
      (left first limit : ℕ) (s : State)
      → first ≤ s.clock
      → s.waited + left * 1000 ≡ limit
      → Ensures
          (Awaited first limit)
          (IsTimedOut limit)
          (attempts env computation_offset offset_bytes mxe_program_id_bytes left s)
  unfolding attempts
  attempts-Awaited zero first limit s h w = (refl, omega arith)
  attempts-Awaited (suc left) first limit s h w =
      Ensures-bind (Polled first s.waited) (Awaited first limit) (IsTimedOut limit)
        (poll env offset_bytes mxe_program_id_bytes)
        (return_or env (attempts env computation_offset offset_bytes mxe_program_id_bytes left)) s
        (Ensures-weaken (Polled first s.waited) (Polled first s.waited) Never (IsTimedOut limit)
          (poll env offset_bytes mxe_program_id_bytes s) (poll-Polled first s.waited s h refl)
          (λ found t q. q) (λ e t q. absurd q))
        (λ found t q.
          attempt_decided left first limit s.waited found t w q
            (λ h w. attempts-Awaited left first limit t h w))

  -- From every state the wait ends. A signature comes back after at most 119 pauses of 1000 ms, and
  -- one of the calls of the wait has answered its transaction, whose logs hold the event of this
  -- computation of this program. The one error is the timeout for this computation, after exactly
  -- 120 pauses, whatever the calls throw in between.
  pub await_computation_finalization-IsFinalized :
      (s : State)
      → Ensures
          (Awaited s.clock (s.waited + 120000))
          (IsTimedOut (s.waited + 120000))
          (await_computation_finalization env computation_offset mxe_program_id s)
  unfolding await_computation_finalization
  await_computation_finalization-IsFinalized s =
      attempts-Awaited 120 s.clock (s.waited + 120000) s (omega arith) refl
