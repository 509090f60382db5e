-- ===== src/LiveDraft/Locks.antt =====
-- LiveDraftLockManager of collaboration/live-draft.ts. A StoredLock is an object that both maps
-- share, so it stands in a store and the maps hold its address. Time is an argument of each call,
-- in milliseconds; `expiresAt` is `expiresAtMs` printed. The text `randomUUID()` is an argument.
pub mod Invariant
pub mod View
pub mod Exclusion
pub mod Leases
pub mod Reach
use open_log_tool_server.Base.{
  ℕ, ◌+◌, Text, Bool, true, false, not, ◌&&◌, List, [], ◌∷◌, Option, none, some, text_eq, leb,
  if◌then◌else◌, any, ◌≡◌, ◌↔◌, arith, text_eq_iff,
}
use open_log_tool_server.Base.Dict.{Eq, lookup, put, erase, values, nat_key, text_key}
use open_log_tool_server.Base.Outcome.{
  Outcome, done, raised, app_error, forbidden, live_draft_field_locked, live_draft_lock_not_found,
  live_draft_lock_required,
}
use open_log_tool_server.LiveDraft.{Field, rank, field_key, field_eq_iff}

-- LIVE_DRAFT_LEASE_MS.
abbrev pub lease_ms : ℕ
lease_ms = 30000

pub record StoredLock : Type 0 where
  pub lease_id : Text
  pub session_id : Text
  pub field : Field
  pub user_id : Text
  pub username : Text
  pub device_id : Text
  pub expires_at_ms : ℕ

-- `${sessionId}\0${field}`. No field's name holds a NUL, so the text is read as this pair.
pub record FieldKey : Type 0 where
  pub session_id : Text
  pub field : Field

abbrev pub same_key : FieldKey → FieldKey → Bool
same_key a b = text_eq a.session_id b.session_id && field_key.beq a.field b.field

pub same_key_iff : (a b : FieldKey) → (same_key a b ≡ true) ↔ (a ≡ b)
same_key_iff a b =
    ground (arith, text_eq_iff a.session_id b.session_id, field_eq_iff a.field b.field)

instance abbrev pub key_eq : Eq FieldKey
key_eq = record { beq = same_key; beq_iff = same_key_iff }

pub record Locks : Type 0 where
  pub by_field : List (FieldKey × ℕ)
  pub by_lease : List (Text × ℕ)
  pub objects : List (ℕ × StoredLock)
  pub next_address : ℕ

unfoldable pub empty : Locks
empty = record { by_field = []; by_lease = []; objects = []; next_address = 0 }

abbrev pub at_address : ℕ → Option StoredLock → Option (ℕ × StoredLock)
at_address address none = none
at_address address (some lock) = some (address, lock)

-- Through an address to the object.
abbrev pub follow : Locks → Option ℕ → Option (ℕ × StoredLock)
follow m none = none
follow m (some address) = at_address address (lookup address m.objects)

-- `this.byField.get(key)` and `this.byLease.get(leaseId)`, as the object with its address.
unfoldable pub get_field : FieldKey → Locks → Option (ℕ × StoredLock)
get_field key m = follow m (lookup key m.by_field)

unfoldable pub get_lease : Text → Locks → Option (ℕ × StoredLock)
get_lease lease m = follow m (lookup lease m.by_lease)

abbrev pub key_of : StoredLock → FieldKey
key_of lock = record { session_id = lock.session_id; field = lock.field }

unfoldable pub remove : Locks → StoredLock → Locks
remove m lock = record m {
  by_field = erase (key_of lock) m.by_field;
  by_lease = erase lock.lease_id m.by_lease;
}

unfoldable pub remove_all : List StoredLock → Locks → Locks
unfolding remove
remove_all [] m = m
remove_all (lock ∷ rest) m = remove_all rest (remove m lock)

-- Of the objects at these addresses, those that `p` picks.
unfoldable pub filter_locks : (StoredLock → Bool) → List ℕ → Locks → List StoredLock
filter_locks p [] m = []
filter_locks p (address ∷ rest) m =
    let others = filter_locks p rest m in
    elim (lookup address m.objects) [
      | none ↦ others
      | some lock ↦ if p lock then lock ∷ others else others
    ]

-- `[...this.byLease.values()].filter(p)`.
unfoldable pub stored_where : (StoredLock → Bool) → Locks → List StoredLock
unfolding filter_locks
stored_where p m = filter_locks p (values m.by_lease) m

abbrev pub expired : ℕ → StoredLock → Bool
expired now lock = leb lock.expires_at_ms now

-- A loop that removes the entry that it visits goes on with the entries after it, as one over a
-- copy does.
unfoldable pub prune : ℕ → Locks → Locks
unfolding remove_all stored_where
prune now m = remove_all (stored_where (expired now) m) m

-- `sort` by the field's name.
unfoldable pub insert_by_field : StoredLock → List StoredLock → List StoredLock
insert_by_field lock [] = lock ∷ []
insert_by_field lock (x ∷ xs) =
    let later = x ∷ insert_by_field lock xs in
    if leb (rank lock.field) (rank x.field) then lock ∷ x ∷ xs else later

unfoldable pub sort_by_field : List StoredLock → List StoredLock
unfolding insert_by_field
sort_by_field [] = []
sort_by_field (x ∷ xs) = insert_by_field x (sort_by_field xs)

unfoldable pub list : ℕ → Text → Locks → List StoredLock × Locks
list now session m =
    let pruned = prune now m in
    (sort_by_field (stored_where (λ lock. text_eq lock.session_id session) pruned), pruned)

-- The arguments of the calls; each call reads some of them.
pub record Input : Type 0 where
  pub session_id : Text
  pub field : Field
  pub lease_id : Text
  pub user_id : Text
  pub username : Text
  pub device_id : Text

abbrev pub input_key : Input → FieldKey
input_key input = record { session_id = input.session_id; field = input.field }

-- A write to the expiry of an object.
abbrev pub renewed : ℕ → StoredLock → StoredLock
renewed now lock = record lock { expires_at_ms = now + lease_ms }

unfoldable pub extend : ℕ → ℕ → StoredLock → Locks → Locks
extend now address lock m = record m { objects = put address (renewed now lock) m.objects }

abbrev pub owned_by : StoredLock → Input → Bool
owned_by lock input = text_eq lock.user_id input.user_id && text_eq lock.device_id input.device_id

abbrev pub new_lock : ℕ → Text → Input → StoredLock
new_lock now uuid input = record {
  lease_id = uuid;
  session_id = input.session_id;
  field = input.field;
  user_id = input.user_id;
  username = input.username;
  device_id = input.device_id;
  expires_at_ms = now + lease_ms;
}

unfoldable pub store : StoredLock → Locks → Locks
store lock m = record m {
  by_field = put (key_of lock) m.next_address m.by_field;
  by_lease = put lock.lease_id m.next_address m.by_lease;
  objects = put m.next_address lock m.objects;
  next_address = m.next_address + 1;
}

-- What `acquire` does once the expired locks are gone. The flag is `reused`.
unfoldable pub acquire_pruned : ℕ → Text → Input → Locks → Outcome Locks (StoredLock × Bool)
acquire_pruned now uuid input m = elim (get_field (input_key input) m) [
  | none ↦ done (new_lock now uuid input, false) (store (new_lock now uuid input) m)
  | some (address, existing) ↦
      if owned_by existing input
      then done (renewed now existing, true) (extend now address existing m)
      else raised (app_error 409 live_draft_field_locked) m
]

unfoldable pub acquire : ℕ → Text → Input → Locks → Outcome Locks (StoredLock × Bool)
acquire now uuid input m = acquire_pruned now uuid input (prune now m)

-- The checks that `renew` and `release` share.
unfoldable pub find_owned :
    Input → Locks → (ℕ → StoredLock → Outcome Locks StoredLock) → Outcome Locks StoredLock
find_owned input m proceed = elim (get_lease input.lease_id m) [
  | none ↦ raised (app_error 404 live_draft_lock_not_found) m
  | some (address, lock) ↦
      if not (text_eq lock.session_id input.session_id)
      then raised (app_error 404 live_draft_lock_not_found) m
      else if owned_by lock input
      then proceed address lock
      else raised (app_error 403 forbidden) m
]

unfoldable pub renew : ℕ → Input → Locks → Outcome Locks StoredLock
renew now input m =
    let pruned = prune now m in
    find_owned input pruned
      (λ address lock. done (renewed now lock) (extend now address lock pruned))

unfoldable pub release : ℕ → Input → Locks → Outcome Locks StoredLock
release now input m =
    let pruned = prune now m in find_owned input pruned (λ _ lock. done lock (remove pruned lock))

-- The lease is for this Session, field, user and device.
abbrev pub grants : StoredLock → Input → Bool
grants lock input =
    text_eq lock.session_id input.session_id
    && field_key.beq lock.field input.field
    && owned_by lock input

-- No pruning here: an expired lease that is still stored is consumed too.
unfoldable pub consume : Input → Locks → Option StoredLock × Locks
consume input m = elim (get_lease input.lease_id m) [
  | none ↦ (none, m)
  | some (_, lock) ↦ if grants lock input then (some lock, remove m lock) else (none, m)
]

unfoldable pub assert_lease : ℕ → Input → Locks → Outcome Locks (Unit {0})
assert_lease now input m =
    let pruned = prune now m in
    elim (get_lease input.lease_id pruned) [
      | none ↦ raised (app_error 409 live_draft_lock_required) pruned
      | some (_, lock) ↦
          if grants lock input
          then done tt pruned
          else raised (app_error 409 live_draft_lock_required) pruned
    ]

-- What `clearUser`, `clearFields` and `clearSession` share: prune, collect, remove.
unfoldable pub clear_where : ℕ → (StoredLock → Bool) → Locks → List StoredLock × Locks
clear_where now p m =
    let pruned = prune now m in
    let removed = stored_where p pruned in (removed, remove_all removed pruned)

unfoldable pub clear_user : ℕ → Text → Text → Locks → List StoredLock × Locks
clear_user now session user =
    clear_where now (λ lock. text_eq lock.session_id session && text_eq lock.user_id user)

unfoldable pub clear_fields : ℕ → Text → List Field → Locks → List StoredLock × Locks
clear_fields now session fields =
    clear_where now
      (λ lock. text_eq lock.session_id session && any (λ f. field_key.beq f lock.field) fields)

unfoldable pub clear_session : ℕ → Text → Locks → List StoredLock × Locks
clear_session now session = clear_where now (λ lock. text_eq lock.session_id session)
