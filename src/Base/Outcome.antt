-- ===== src/Base/Outcome.antt =====
-- errors/app-error.ts, and the two ways in which code that throws is modelled: `Result` for code
-- that reads no state, and `Outcome` for code that writes, which keeps the writes made before a
-- throw. An error's message and details are not modelled.
use Prim.Native.Nat.{ℕ}
use mathlib.Core.Path.{◌≡◌, refl}
use mathlib.Core.Bool.{Bool, true, false}
use native.Mathlib.Omega.{arith}

-- The `code` of an AppError.
pub data Code : Type 0 where
  validation_failed not_found membership_revoked session_deleted forbidden : Code
  session_closed session_not_active invalid_session_state session_must_be_closed : Code
  live_draft_not_empty live_draft_busy live_draft_discard_failed : Code
  mutation_id_reused idempotency_key_required cursor_expired payload_too_large : Code
  version_conflict live_draft_field_locked live_draft_lock_not_found : Code
  live_draft_lock_required rate_limited token_invalid log_already_exists : Code
  live_draft_missing live_draft_corrupt live_draft_version_conflict : Code
  live_draft_client_seq_reused live_draft_client_seq_gap live_draft_field_conflict : Code
  live_draft_already_committed live_draft_incomplete : Code
  live_draft_history_preview_stale live_draft_history_preview_not_owned : Code
  live_draft_history_candidate_not_found event_retention_integrity_failed : Code

-- An AppError with its status and code, or any other exception.
pub data Fault : Type 0 where
  app_error : ℕ → Code → Fault
  internal : Fault

-- What a check or a conversion yields: it throws, or it returns a value.
pub data Result {ℓ} (Value : Type ℓ) : Type ℓ where
  err : Fault → Result Value
  ok : Value → Result Value

infixl 5 ◌>>=◌ ◌>>◌
-- Statements in a row: the first that throws ends them.
abbrev pub ◌>>=◌ {α β} :
    {First : Type α} {Last : Type β} → Result First → (First → Result Last) → Result Last
err fault >>= next = err fault
ok value >>= next = next value

abbrev pub ◌>>◌ {β} : {Last : Type β} → Result (Unit {0}) → Result Last → Result Last
check >> next = check >>= λ checked. next

abbrev pub require : Bool → ℕ → Code → Result (Unit {0})
require true status code = ok tt
require false status code = err (app_error status code)

-- When statements in a row return, the first of them has.
pub >>=-eq-ok {α β} :
    {First : Type α} {Last : Type β} (first : Result First) (next : First → Result Last)
    {last : Last}
    → first >>= next ≡ ok last
    → (value : First) × (first ≡ ok value) × (next value ≡ ok last)
>>=-eq-ok (err fault) next h = cc
>>=-eq-ok (ok value) next h = (value, refl, h)

pub require-eq-ok :
    (b : Bool) (status : ℕ) (code : Code) {u : Unit {0}} → require b status code ≡ ok u → b ≡ true
require-eq-ok b status code h = ground arith

-- A run that ends with a value, or that a throw leaves; both with the state that was written.
pub data Outcome (S A : Type 0) : Type 0 where
  done : A → S → Outcome S A
  raised : Fault → S → Outcome S A

-- The state that a run leaves behind.
abbrev pub state : {S A : Type 0} → Outcome S A → S
state (done a s) = s
state (raised f s) = s

module _ {S A B : Type 0} where
  -- A check or a conversion that may throw, before the state is touched again.
  unfoldable pub attempt : Result A → S → (A → Outcome S B) → Outcome S B
  attempt (ok a) s k = k a
  attempt (err fault) s k = raised fault s

  abbrev pub and_then : Outcome S A → (A → S → Outcome S B) → Outcome S B
  and_then (done a s) k = k a s
  and_then (raised fault s) k = raised fault s
