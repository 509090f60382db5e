-- ===== src/LiveDraft/Locks/Reach.antt =====
-- Any history of calls on the lock manager, in any order and from any number of clients.
use open_log_tool_server.Base.{
  ℕ, ◌<◌, ◌+◌, Text, Bool, false, List, none, some, ◌≡◌, sym, ◌∙◌, arith, inl, inr, Option-cases,
  refl, leb,
}
use open_log_tool_server.Base.Dict.{lookup, text_key}
use open_log_tool_server.Base.Outcome.{
  Outcome, done, raised, state, app_error, live_draft_field_locked,
}
use open_log_tool_server.LiveDraft.{Field}
use open_log_tool_server.LiveDraft.Locks.{
  Locks, empty, StoredLock, Input, input_key, key_eq, key_of, same_key_iff, get_field, get_lease,
  remove, prune, owned_by, new_lock, lease_ms, find_owned, acquire, renew, release, consume,
  assert_lease, clear_where, clear_user, clear_fields, clear_session, list,
}
use open_log_tool_server.LiveDraft.Locks.Invariant.{
  Inv, Lists-Alone, extend-Inv, remove-Inv, remove_where-Inv,
}
use open_log_tool_server.LiveDraft.Locks.View.{get_field-Lists}
use open_log_tool_server.LiveDraft.Locks.Exclusion.{
  holder, prune-Inv, acquire_pruned-Inv, acquire_refused, acquire_free,
}
use open_log_tool_server.LiveDraft.Locks.Leases.{get_lease-Lists_of}

-- One call. The identifier that `randomUUID()` yields is no lease's yet.
pub data Step (m : Locks) : Locks → Type 0 where
  acquires :
      (now : ℕ) (uuid : Text) (input : Input)
      → get_lease uuid (prune now m) ≡ none
      → Step m (state (acquire now uuid input m))
  renews : (now : ℕ) (input : Input) → Step m (state (renew now input m))
  releases : (now : ℕ) (input : Input) → Step m (state (release now input m))
  consumes : (input : Input) → Step m (consume input m).1
  asserts : (now : ℕ) (input : Input) → Step m (state (assert_lease now input m))
  lists : (now : ℕ) (session : Text) → Step m (list now session m).1
  clears_user : (now : ℕ) (session user : Text) → Step m (clear_user now session user m).1
  clears_fields :
      (now : ℕ) (session : Text) (fields : List Field)
      → Step m (clear_fields now session fields m).1
  clears_session : (now : ℕ) (session : Text) → Step m (clear_session now session m).1

pub data Reach : Locks → Type 0 where
  start : Reach empty
  next : {m m' : Locks} → Reach m → Step m m' → Reach m'

empty-Inv : Inv empty
unfolding empty lookup
empty-Inv = record {
  field_listed = λ k a e. cc;
  lease_listed = λ l a e. cc;
  fresh = λ a lock e. cc;
  one_entry = tt;
}

-- `renew` and `release` act on a listed lock, or change nothing.
find_owned-Inv :
    (input : Input) (m : Locks) (proceed : ℕ → StoredLock → Outcome Locks StoredLock)
    → Inv m
    → ((a : ℕ) (lock : StoredLock)
        → get_lease input.lease_id m ≡ some (a, lock)
        → Inv (state (proceed a lock)))
    → Inv (state (find_owned input m proceed))
unfolding find_owned
find_owned-Inv input m proceed v h = elim (Option-cases (get_lease input.lease_id m)) [
  | inl absent ↦ rw (absent, find_owned) v
  | inr ((a, lock), at) ↦ rw (at, find_owned) (ground (arith, h a lock at))
]

acquire-Inv :
    (now : ℕ) (uuid : Text) (input : Input) (m : Locks)
    → Inv m
    → get_lease uuid (prune now m) ≡ none
    → Inv (state (acquire now uuid input m))
unfolding acquire
acquire-Inv now uuid input m v fresh =
    acquire_pruned-Inv now uuid input (prune now m) (prune-Inv now m v) fresh

remove_listed-Inv :
    (l : Text) (a : ℕ) (lock : StoredLock) (m : Locks)
    → Inv m
    → get_lease l m ≡ some (a, lock)
    → Inv (remove m lock)
remove_listed-Inv l a lock m v at =
    let (_, listed, _) = get_lease-Lists_of l m a lock v at in
    remove-Inv m lock v (Lists-Alone m lock v listed)

renew-Inv : (now : ℕ) (input : Input) (m : Locks) → Inv m → Inv (state (renew now input m))
unfolding renew
renew-Inv now input m v = find_owned-Inv input (prune now m) _ (prune-Inv now m v) λ a lock at.
    let (_, listed, same) =
      get_lease-Lists_of input.lease_id (prune now m) a lock (prune-Inv now m v) at in
    extend-Inv now a lock (prune now m) (prune-Inv now m v) (rw (← same) listed.object)

release-Inv : (now : ℕ) (input : Input) (m : Locks) → Inv m → Inv (state (release now input m))
unfolding release
release-Inv now input m v =
    find_owned-Inv input (prune now m) _ (prune-Inv now m v)
      λ a lock at. remove_listed-Inv input.lease_id a lock (prune now m) (prune-Inv now m v) at

consume-Inv : (input : Input) (m : Locks) → Inv m → Inv (consume input m).1
unfolding consume
consume-Inv input m v = elim (Option-cases (get_lease input.lease_id m)) [
  | inl absent ↦ rw (absent, consume) v
  | inr ((a, lock), at) ↦
      rw (at, consume) (ground (arith, remove_listed-Inv input.lease_id a lock m v at))
]

assert_lease-Inv :
    (now : ℕ) (input : Input) (m : Locks) → Inv m → Inv (state (assert_lease now input m))
unfolding assert_lease
assert_lease-Inv now input m v =
    let kept = prune-Inv now m v in
    elim (Option-cases (get_lease input.lease_id (prune now m))) [
      | inl absent ↦ rw (absent, assert_lease) kept
      | inr ((a, lock), at) ↦ rw (at, assert_lease) (ground arith)
    ]

clear_where-Inv :
    (now : ℕ) (p : StoredLock → Bool) (m : Locks) → Inv m → Inv (clear_where now p m).1
unfolding clear_where
clear_where-Inv now p m v = remove_where-Inv p (prune now m) (prune-Inv now m v)

pub Step-Inv : {m m' : Locks} → Step m m' → Inv m → Inv m'
unfolding list clear_user clear_fields clear_session
Step-Inv {m} (acquires now uuid input fresh) v = acquire-Inv now uuid input m v fresh
Step-Inv {m} (renews now input) v = renew-Inv now input m v
Step-Inv {m} (releases now input) v = release-Inv now input m v
Step-Inv {m} (consumes input) v = consume-Inv input m v
Step-Inv {m} (asserts now input) v = assert_lease-Inv now input m v
Step-Inv {m} (lists now session) v = prune-Inv now m v
Step-Inv {m} (clears_user now session user) v = clear_where-Inv now _ m v
Step-Inv {m} (clears_fields now session fields) v = clear_where-Inv now _ m v
Step-Inv {m} (clears_session now session) v = clear_where-Inv now _ m v

-- After any history of calls the two maps list the same locks.
pub Reach-Inv : {m : Locks} → Reach m → Inv m
Reach-Inv start = empty-Inv
Reach-Inv (next r s) = Step-Inv s (Reach-Inv r)

-- After any history of calls on the lock manager that starts from the empty one, two stored
-- leases for one field of one Session are the same lease.
pub Reach-one_holder :
    {m : Locks} (l l' : Text) (a a' : ℕ) (lock lock' : StoredLock)
    → Reach m
    → get_lease l m ≡ some (a, lock)
    → get_lease l' m ≡ some (a', lock')
    → key_of lock ≡ key_of lock'
    → (l ≡ l') × (lock ≡ lock')
Reach-one_holder {m} l l' a a' lock lock' r at at' same =
    let v : Inv m = Reach-Inv r in
    let (id, listed, _) = get_lease-Lists_of l m a lock v at in
    let (id', listed', _) = get_lease-Lists_of l' m a' lock' v at' in
    let first = get_field-Lists m lock v listed in
    let second = get_field-Lists m lock' v listed' in
    let one : lock ≡ lock' = ground arith in (sym id ∙ rw one id', one)

-- After any history, a lock that is granted on a free field keeps a call by another user or
-- device for the same field out for the whole of its thirty seconds.
pub acquire_excludes :
    (now later : ℕ) (uuid uuid' : Text) (input rival : Input) (m : Locks)
    → Reach m
    → get_lease uuid (prune now m) ≡ none
    → holder now (input_key input) m ≡ none
    → later < now + lease_ms
    → input_key rival ≡ input_key input
    → owned_by (new_lock now uuid input) rival ≡ false
    → let m' = state (acquire now uuid input m) in
      (acquire now uuid input m ≡ done (new_lock now uuid input, false) m')
      × (acquire later uuid' rival m'
          ≡ raised (app_error 409 live_draft_field_locked) (prune later m'))
acquire_excludes now later uuid uuid' input rival m r fresh free soon same other =
    let v : Inv m = Reach-Inv r in
    let (m', a, got, view) = acquire_free now uuid input m v free in
    let reached : state (acquire now uuid input m) ≡ m' = rw got in
    let held : get_field (input_key input) m' ≡ some (a, new_lock now uuid input) =
      view (input_key input) ∙ rw ((same_key_iff (input_key input) (input_key input)).1 refl) in
    let v' : Inv m' = rw reached at (acquire-Inv now uuid input m v fresh) in
    let lasting : leb (now + lease_ms) later ≡ false = ground arith in
    let held_then : holder later (input_key rival) m' ≡ some (a, new_lock now uuid input) =
      rw (same, held) (rw lasting) in
    rw reached
      (got, acquire_refused later uuid' rival m' v' a (new_lock now uuid input) held_then other)
