-- ===== src/LiveDraft/Locks/Exclusion.antt =====
-- One holder for each field of a live draft, for as long as its lease runs.
use open_log_tool_server.Base.{
  ℕ, Text, true, false, Option, none, some, ◌≡◌, ◌≢◌, ◌∙◌, arith, inl, inr, Bool-cases,
  Option-cases, ap, if◌then◌else◌,
}
use open_log_tool_server.Base.Dict.{
  lookup, nat_key, text_key, lookup-put, lookup-put_self, lookup-put_ne,
}
use open_log_tool_server.Base.Outcome.{done, raised, state, app_error, live_draft_field_locked}
use open_log_tool_server.LiveDraft.Locks.{
  Locks, StoredLock, Input, input_key, FieldKey, key_eq, key_of, same_key, same_key_iff, get_field,
  get_lease, prune, expired, extend, renewed, store, new_lock, owned_by, acquire, acquire_pruned,
}
use open_log_tool_server.LiveDraft.Locks.Invariant.{Inv, store-Inv, extend-Inv, remove_where-Inv}
use open_log_tool_server.LiveDraft.Locks.View.{unless, get_field-prune}

pub prune-Inv : (now : ℕ) (m : Locks) → Inv m → Inv (prune now m)
unfolding prune
prune-Inv now m v = remove_where-Inv (expired now) m v

-- What `get_field` yields is listed under its key.
pub get_field-key :
    (key : FieldKey) (m : Locks) (a : ℕ) (lock : StoredLock)
    → Inv m
    → get_field key m ≡ some (a, lock)
    → (key_of lock ≡ key) × (lookup a m.objects ≡ some lock) × (lookup key m.by_field ≡ some a)
unfolding get_field
get_field-key key m a lock v h = elim (Option-cases (lookup key m.by_field)) [
  | inl absent ↦ cc (rw absent at h)
  | inr (b, e) ↦
      let (o, at_o, same, id) = v.field_listed key b e in (ground arith, ground arith, ground arith)
]

get_field-none :
    (key : FieldKey) (m : Locks) → Inv m → get_field key m ≡ none → lookup key m.by_field ≡ none
unfolding get_field
get_field-none key m v h = elim (Option-cases (lookup key m.by_field)) [
  | inl absent ↦ absent
  | inr (b, e) ↦ let (o, at_o, same, id) = v.field_listed key b e in ground arith
]

get_lease-none : (l : Text) (m : Locks) → Inv m → get_lease l m ≡ none → lookup l m.by_lease ≡ none
unfolding get_lease
get_lease-none l m v h = elim (Option-cases (lookup l m.by_lease)) [
  | inl absent ↦ absent
  | inr (b, e) ↦ let (o, at_o, same, key) = v.lease_listed l b e in ground arith
]

-- The lock of a field, unless it has run out.
abbrev pub holder : ℕ → FieldKey → Locks → Option (ℕ × StoredLock)
holder now key m = unless (expired now) (get_field key m)

-- A new lock is the one that its field has, and the other fields keep theirs.
get_field-store :
    (key : FieldKey) (lock : StoredLock) (m : Locks)
    → Inv m
    → get_field key (store lock m)
      ≡ (if same_key (key_of lock) key then some (m.next_address, lock) else get_field key m)
unfolding get_field store
get_field-store key lock m v = elim (Bool-cases (same_key (key_of lock) key)) [
  | inl same ↦ ground (
    arith,
    lookup-put (key_of lock) key m.next_address m.by_field,
    lookup-put_self m.next_address lock m.objects,
  )
  | inr other ↦ elim (Option-cases (lookup key m.by_field)) [
    | inl absent ↦ ground (arith, lookup-put (key_of lock) key m.next_address m.by_field)
    | inr (b, e) ↦
        let (o, at_o, listed, id) = v.field_listed key b e in
        let apart : m.next_address ≢ b = λ same. omega (arith, v.fresh b o at_o) in
        ground (
          arith,
          lookup-put (key_of lock) key m.next_address m.by_field,
          lookup-put_ne m.next_address b lock m.objects apart,
        )
  ]
]

pub get_field-extend :
    (now a : ℕ) (key : FieldKey) (lock : StoredLock) (m : Locks)
    → Inv m
    → get_field (key_of lock) m ≡ some (a, lock)
    → get_field key (extend now a lock m)
      ≡ (if same_key (key_of lock) key then some (a, renewed now lock) else get_field key m)
unfolding get_field extend
get_field-extend now a key lock m v h = elim (Bool-cases (same_key (key_of lock) key)) [
  | inl same ↦
      let (_, at_lock, listed) = get_field-key (key_of lock) m a lock v h in
      let listed' : lookup key m.by_field ≡ some a =
        rw (← (same_key_iff (key_of lock) key).0 same) listed in
      rw (same, listed') (rw (lookup-put_self a (renewed now lock) m.objects))
  | inr other ↦ elim (Option-cases (lookup key m.by_field)) [
    | inl absent ↦ rw (other, absent)
    | inr (b, e) ↦
        let (o, at_o, listed, id) = v.field_listed key b e in
        let (_, at_lock, _) = get_field-key (key_of lock) m a lock v h in
        let apart : a ≢ b = λ one. ground (arith, same_key_iff (key_of lock) key) in
        rw (other, e) (rw (lookup-put_ne a b (renewed now lock) m.objects apart))
  ]
]

pub acquire_pruned-Inv :
    (now : ℕ) (uuid : Text) (input : Input) (m : Locks)
    → Inv m
    → get_lease uuid m ≡ none
    → Inv (state (acquire_pruned now uuid input m))
unfolding acquire_pruned
acquire_pruned-Inv now uuid input m v fresh = elim (Option-cases (get_field (input_key input) m)) [
  | inl free ↦
      rw (free, acquire_pruned)
        (store-Inv (new_lock now uuid input) m v (get_field-none (input_key input) m v free)
          (get_lease-none uuid m v fresh))
  | inr ((a, lock), held) ↦
      rw (held, acquire_pruned)
        (elim (Bool-cases (owned_by lock input)) [
          | inl own ↦
              rw own (extend-Inv now a lock m v (get_field-key (input_key input) m a lock v held).1)
          | inr other ↦ rw other v
        ])
]

module _ (now : ℕ) (uuid : Text) (input : Input) (m : Locks) (v : Inv m) where
  pruned : get_field (input_key input) (prune now m) ≡ holder now (input_key input) m
  pruned = get_field-prune now (input_key input) m v

  -- A free field: the caller gets a new lease on it, and the other fields keep their holders.
  pub acquire_free :
      holder now (input_key input) m ≡ none
      → (m' : Locks) × (a : ℕ) × (acquire now uuid input m
          ≡ done (new_lock now uuid input, false) m')
        × ((key : FieldKey)
            → get_field key m' ≡ (
                if same_key (input_key input) key
                then some (a, new_lock now uuid input)
                else holder now key m))
  unfolding acquire acquire_pruned
  acquire_free free = (
    store (new_lock now uuid input) (prune now m),
    (prune now m).next_address,
    (let at : get_field (input_key input) (prune now m) ≡ none = pruned ∙ free in
        rw (at, acquire_pruned)),
    λ key.
        get_field-store key (new_lock now uuid input) (prune now m) (prune-Inv now m v)
        ∙ rw (get_field-prune now key m v),
  )

  -- The holder itself gets the same lease, prolonged.
  pub acquire_held :
      (a : ℕ) (lock : StoredLock)
      → holder now (input_key input) m ≡ some (a, lock)
      → owned_by lock input ≡ true
      → (m' : Locks) × (acquire now uuid input m ≡ done (renewed now lock, true) m')
        × ((key : FieldKey)
            → get_field key m' ≡ (
                if same_key (input_key input) key
                then some (a, renewed now lock)
                else holder now key m))
  unfolding acquire acquire_pruned
  acquire_held a lock held own =
      let at : get_field (input_key input) (prune now m) ≡ some (a, lock) = pruned ∙ held in
      let key_at : key_of lock ≡ input_key input =
        (get_field-key (input_key input) (prune now m) a lock (prune-Inv now m v) at).0 in
      (
        extend now a lock (prune now m),
        rw (at, acquire_pruned) (rw own),
        λ key.
            get_field-extend now a key lock (prune now m) (prune-Inv now m v) (rw key_at at)
            ∙ ap
                (λ k.
                  if same_key k key
                  then some (a, renewed now lock)
                  else get_field key (prune now m))
                key_at
            ∙ rw (get_field-prune now key m v),
      )

  -- In a manager that meets its invariant, asking for a field that another user or device holds
  -- now is refused with 409, and no lock but those that have run out is lost.
  pub acquire_refused :
      (a : ℕ) (lock : StoredLock)
      → holder now (input_key input) m ≡ some (a, lock)
      → owned_by lock input ≡ false
      → acquire now uuid input m ≡ raised (app_error 409 live_draft_field_locked) (prune now m)
  unfolding acquire acquire_pruned
  acquire_refused a lock held other =
      let at : get_field (input_key input) (prune now m) ≡ some (a, lock) = pruned ∙ held in
      rw (at, acquire_pruned) (rw other)
