-- ===== src/LiveDraft/Locks/Leases.antt =====
-- `renew`, `release`, `consume` and `assertLease`: the calls that name a lease.
use open_log_tool_server.Base.{
  ℕ, ◌+◌, Text, true, Option, none, some, ◌≡◌, ◌↔◌, sym, ◌∙◌, arith, inl, inr, Option-cases,
  if◌then◌else◌, text_eq_iff,
}
use open_log_tool_server.Base.Dict.{lookup, nat_key, text_key}
use open_log_tool_server.Base.Outcome.{done}
use open_log_tool_server.LiveDraft.{field_key}
use open_log_tool_server.LiveDraft.Locks.{
  Locks, StoredLock, Input, input_key, FieldKey, key_eq, key_of, same_key, same_key_iff, get_field,
  get_lease, remove, prune, expired, extend, owned_by, grants, find_owned, renew, release,
  assert_lease,
}
use open_log_tool_server.LiveDraft.Locks.Invariant.{Inv, Lists, Lists-Alone, extend-Inv, remove-Inv}
use open_log_tool_server.LiveDraft.Locks.View.{
  unless, get_field-prune, get_lease-prune, get_field-Lists, get_field-remove,
}
use open_log_tool_server.LiveDraft.Locks.Exclusion.{
  holder, prune-Inv, get_field-key, get_field-extend,
}

-- What `get_lease` yields is listed, under its own lease.
pub get_lease-Lists_of :
    (l : Text) (m : Locks) (a : ℕ) (lock : StoredLock)
    → Inv m
    → get_lease l m ≡ some (a, lock)
    → (lock.lease_id ≡ l) × (h : Lists m lock) × (h.address ≡ a)
unfolding get_lease
get_lease-Lists_of l m a lock v e = elim (Option-cases (lookup l m.by_lease)) [
  | inl absent ↦ cc (rw absent at e)
  | inr (b, found) ↦
      let (o, at_o, id, key) = v.lease_listed l b found in
      let same_b : b ≡ a = ground arith in
      let same_o : o ≡ lock = ground arith in
      let id' : lock.lease_id ≡ l = rw (← same_o) id in
      (id', record { address = b; object = rw (← same_o) at_o; lease = rw id' found }, same_b)
]

-- So its field has it.
pub get_lease-get_field :
    (l : Text) (m : Locks) (a : ℕ) (lock : StoredLock)
    → Inv m
    → get_lease l m ≡ some (a, lock)
    → get_field (key_of lock) m ≡ some (a, lock)
get_lease-get_field l m a lock v e =
    let (_, listed, at) = get_lease-Lists_of l m a lock v e in
    get_field-Lists m lock v listed ∙ rw at

-- And what `get_field` yields is what its lease yields.
pub get_field-get_lease :
    (key : FieldKey) (m : Locks) (a : ℕ) (lock : StoredLock)
    → Inv m
    → get_field key m ≡ some (a, lock)
    → get_lease lock.lease_id m ≡ some (a, lock)
unfolding get_lease
get_field-get_lease key m a lock v e =
    let (same, at, found) = get_field-key key m a lock v e in
    let (o, at_o, _, id) = v.field_listed key a found in
    let one : o ≡ lock = ground arith in
    let id' : lookup lock.lease_id m.by_lease ≡ some a = rw (← one) id in rw id' (rw at)

grants_iff :
    (lock : StoredLock) (input : Input)
    → (grants lock input ≡ true) ↔ ((key_of lock ≡ input_key input) × (owned_by lock input ≡ true))
grants_iff lock input = ground (arith, same_key_iff (key_of lock) (input_key input))

-- A lease, unless it has run out.
abbrev pub lease : ℕ → Text → Locks → Option (ℕ × StoredLock)
lease now l m = unless (expired now) (get_lease l m)

module _ (now : ℕ) (input : Input) (m : Locks) (v : Inv m) where
  lease_pruned : get_lease input.lease_id (prune now m) ≡ lease now input.lease_id m
  lease_pruned = get_lease-prune now input.lease_id m v

  passed :
      assert_lease now input m ≡ done tt (prune now m)
      → (a : ℕ) × (lock : StoredLock) × (holder now (input_key input) m ≡ some (a, lock))
        × (lock.lease_id ≡ input.lease_id)
        × (owned_by lock input ≡ true)
  unfolding assert_lease
  passed e = elim (Option-cases (get_lease input.lease_id (prune now m))) [
    | inl absent ↦ cc (rw (absent, assert_lease) at e)
    | inr ((a, lock), at) ↦
        let e' = rw (at, assert_lease) at e in
        let granted : grants lock input ≡ true = ground arith in
        let (key, own) = (grants_iff lock input).0 granted in
        let (id, _, _) =
          get_lease-Lists_of input.lease_id (prune now m) a lock (prune-Inv now m v) at in
        let at_field =
          get_lease-get_field input.lease_id (prune now m) a lock (prune-Inv now m v) at in
        (a, lock, sym (get_field-prune now (input_key input) m v) ∙ rw (← key) at_field, id, own)
  ]

  passes :
      (a : ℕ) (lock : StoredLock)
      → holder now (input_key input) m ≡ some (a, lock)
      → lock.lease_id ≡ input.lease_id
      → owned_by lock input ≡ true
      → assert_lease now input m ≡ done tt (prune now m)
  unfolding assert_lease
  passes a lock held id own =
      let at_field = get_field-prune now (input_key input) m v ∙ held in
      let at : get_lease input.lease_id (prune now m) ≡ some (a, lock) =
        rw (← id) (
          get_field-get_lease (input_key input) (prune now m) a lock (prune-Inv now m v)
            at_field) in
      let (key, _, _) =
        get_field-key (input_key input) (prune now m) a lock (prune-Inv now m v) at_field in
      rw (at, assert_lease) (rw ((grants_iff lock input).1 (key, own)))

  -- In a manager that meets its invariant, the lease check passes exactly if the field is held
  -- now, under this lease, by this user on this device.
  pub assert_lease_iff : (assert_lease now input m ≡ done tt (prune now m)) ↔ (
      (a : ℕ) × (lock : StoredLock) × (holder now (input_key input) m ≡ some (a, lock))
      × (lock.lease_id ≡ input.lease_id)
      × (owned_by lock input ≡ true))
  assert_lease_iff = (passed, λ (a, lock, held, id, own). passes a lock held id own)

  -- Releasing a lease that has not run out and is one's own returns its lock, keeps the
  -- invariant, frees its field and changes the holder of no other field.
  pub release_owned :
      (a : ℕ) (lock : StoredLock)
      → lease now input.lease_id m ≡ some (a, lock)
      → lock.session_id ≡ input.session_id
      → owned_by lock input ≡ true
      → (m' : Locks) × (release now input m ≡ done lock m')
        × Inv m'
        × ((key : FieldKey)
            → get_field key m' ≡ (if same_key (key_of lock) key then none else holder now key m))
  unfolding release find_owned
  release_owned a lock held same own =
      let at : get_lease input.lease_id (prune now m) ≡ some (a, lock) = lease_pruned ∙ held in
      let (_, listed, _) =
        get_lease-Lists_of input.lease_id (prune now m) a lock (prune-Inv now m v) at in
      (
        remove (prune now m) lock,
        rw (at, find_owned) (rw ((text_eq_iff lock.session_id input.session_id).1 same, own)),
        remove-Inv (prune now m) lock (prune-Inv now m v)
            (Lists-Alone (prune now m) lock (prune-Inv now m v) listed),
        λ key. get_field-remove key lock (prune now m) ∙ rw (get_field-prune now key m v),
      )

  -- Renewing a lease that has not run out and is one's own moves its end to thirty seconds from
  -- now, keeps the invariant and changes the holder of no other field.
  pub renew_owned :
      (a : ℕ) (lock : StoredLock)
      → lease now input.lease_id m ≡ some (a, lock)
      → lock.session_id ≡ input.session_id
      → owned_by lock input ≡ true
      → (m' : Locks) × (renew now input m ≡ done (record lock { expires_at_ms = now + 30000 }) m')
        × Inv m'
        × ((key : FieldKey)
            → get_field key m' ≡ (
                if same_key (key_of lock) key
                then some (a, record lock { expires_at_ms = now + 30000 })
                else holder now key m))
  unfolding renew find_owned
  renew_owned a lock held same own =
      let at : get_lease input.lease_id (prune now m) ≡ some (a, lock) = lease_pruned ∙ held in
      let at_field =
        get_lease-get_field input.lease_id (prune now m) a lock (prune-Inv now m v) at in
      (
        extend now a lock (prune now m),
        rw (at, find_owned) (rw ((text_eq_iff lock.session_id input.session_id).1 same, own)),
        extend-Inv now a lock (prune now m) (prune-Inv now m v)
            (get_field-key (key_of lock) (prune now m) a lock (prune-Inv now m v) at_field).1,
        λ key.
            get_field-extend now a key lock (prune now m) (prune-Inv now m v) at_field
            ∙ rw (get_field-prune now key m v),
      )
