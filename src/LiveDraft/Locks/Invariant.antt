-- ===== src/LiveDraft/Locks/Invariant.antt =====
-- The two maps of the lock manager agree: each lists the locks that the other lists.
use open_log_tool_server.Base.{
  ℕ, ◌<◌, Text, Bool, true, List, [], ◌∷◌, none, some, ◌≡◌, ◌≢◌, sym, ◌∙◌, arith, All, All-map, inl,
  inr, Bool-cases, ◌==◌, ==_iff, refl, ap,
}
use open_log_tool_server.Base.Dict.{
  lookup, values, nat_key, text_key, lookup-put_self, lookup-put_ne, lookup-put_cases,
  lookup-erase_ne, lookup-erase-some, HasDistinctKeys, HasDistinctKeys-entries, put-HasDistinctKeys,
  erase-HasDistinctKeys,
}
use open_log_tool_server.LiveDraft.Locks.{
  Locks, StoredLock, FieldKey, key_eq, key_of, remove, remove_all, filter_locks, stored_where,
  store, extend, renewed,
}

pub record Inv (m : Locks) : Type 0 where
  pub field_listed :
      (k : FieldKey) (a : ℕ)
      → lookup k m.by_field ≡ some a
      → (lock : StoredLock) × (lookup a m.objects ≡ some lock)
        × (key_of lock ≡ k)
        × (lookup lock.lease_id m.by_lease ≡ some a)
  pub lease_listed :
      (l : Text) (a : ℕ)
      → lookup l m.by_lease ≡ some a
      → (lock : StoredLock) × (lookup a m.objects ≡ some lock)
        × (lock.lease_id ≡ l)
        × (lookup (key_of lock) m.by_field ≡ some a)
  pub fresh : (a : ℕ) (lock : StoredLock) → lookup a m.objects ≡ some lock → a < m.next_address
  pub one_entry : HasDistinctKeys m.by_lease

-- The manager lists this lock.
pub record Lists (m : Locks) (lock : StoredLock) : Type 0 where
  pub address : ℕ
  pub object : lookup address m.objects ≡ some lock
  pub lease : lookup lock.lease_id m.by_lease ≡ some address

-- Removing this lock takes no other lock out of either map.
pub record Alone (m : Locks) (lock : StoredLock) : Type 0 where
  pub by_key :
      (a : ℕ) (o : StoredLock)
      → lookup a m.objects ≡ some o
      → lookup (key_of lock) m.by_field ≡ some a
      → o.lease_id ≡ lock.lease_id
  pub by_id :
      (a : ℕ) (o : StoredLock)
      → lookup a m.objects ≡ some o
      → lookup lock.lease_id m.by_lease ≡ some a
      → key_of o ≡ key_of lock

pub Lists-Alone : (m : Locks) (lock : StoredLock) → Inv m → Lists m lock → Alone m lock
Lists-Alone m lock v s = record {
  by_key = λ a o found listed.
      let (x, at_x, id, key) = v.lease_listed lock.lease_id s.address s.lease in
      ground (arith, s.object);
  by_id = λ a o found listed. ground (arith, s.object, s.lease);
}

remove-Alone : (m : Locks) (lock other : StoredLock) → Alone m other → Alone (remove m lock) other
unfolding remove
remove-Alone m lock other h = record {
  by_key = λ a o found listed.
      h.by_key a o found (lookup-erase-some (key_of lock) (key_of other) a m.by_field listed).1;
  by_id = λ a o found listed.
      h.by_id a o found (lookup-erase-some lock.lease_id other.lease_id a m.by_lease listed).1;
}

pub remove-Inv : (m : Locks) (lock : StoredLock) → Inv m → Alone m lock → Inv (remove m lock)
unfolding remove
remove-Inv m lock v h = record {
  field_listed = λ k a e.
      let (ne, e0) = lookup-erase-some (key_of lock) k a m.by_field e in
      let (o, at_o, key, id) = v.field_listed k a e0 in
      let apart : lock.lease_id ≢ o.lease_id =
        λ same. ne (sym (h.by_id a o at_o (rw same id)) ∙ key) in
      (o, at_o, key, lookup-erase_ne lock.lease_id o.lease_id m.by_lease apart ∙ id);
  lease_listed = λ l a e.
      let (ne, e0) = lookup-erase-some lock.lease_id l a m.by_lease e in
      let (o, at_o, id, key) = v.lease_listed l a e0 in
      let apart : key_of lock ≢ key_of o =
        λ same. ne (sym (h.by_key a o at_o (rw same key)) ∙ id) in
      (o, at_o, id, lookup-erase_ne (key_of lock) (key_of o) m.by_field apart ∙ key);
  fresh = v.fresh;
  one_entry = erase-HasDistinctKeys lock.lease_id m.by_lease v.one_entry;
}

pub remove_all-Inv :
    (locks : List StoredLock) (m : Locks) → Inv m → All (Alone m) locks → Inv (remove_all locks m)
unfolding remove_all
remove_all-Inv [] m v h = v
remove_all-Inv (lock ∷ rest) m v (h, hs) =
    remove_all-Inv rest (remove m lock) (remove-Inv m lock v h)
      (All-map rest (λ other. remove-Alone m lock other) hs)

-- A lock that the filter yields is listed, and the filter picked it.
filter_locks-Lists :
    (p : StoredLock → Bool) (entries : List (Text × ℕ)) (m : Locks)
    → Inv m
    → All (λ entry. lookup entry.0 m.by_lease ≡ some entry.1) entries
    → All (λ lock. Lists m lock × (p lock ≡ true)) (filter_locks p (values entries) m)
unfolding filter_locks
filter_locks-Lists p [] m v h = tt
filter_locks-Lists p ((l, a) ∷ entries) m v (e, h) =
    let (lock, at_lock, id, key) = v.lease_listed l a e in
    let rest = filter_locks-Lists p entries m v h in
    let here : Lists m lock = record { address = a; object = at_lock; lease = rw id e } in
    rw (at_lock, filter_locks)
      (elim (Bool-cases (p lock)) [
        | inl picked ↦ rw picked ((here, picked), rest)
        | inr left ↦ rw left rest
      ])

pub stored_where-Lists :
    (p : StoredLock → Bool) (m : Locks)
    → Inv m
    → All (λ lock. Lists m lock × (p lock ≡ true)) (stored_where p m)
unfolding stored_where
stored_where-Lists p m v =
    filter_locks-Lists p m.by_lease m v (HasDistinctKeys-entries m.by_lease v.one_entry)

pub remove_where-Inv :
    (p : StoredLock → Bool) (m : Locks) → Inv m → Inv (remove_all (stored_where p m) m)
remove_where-Inv p m v =
    remove_all-Inv (stored_where p m) m v
      (All-map (stored_where p m) (λ lock h. Lists-Alone m lock v h.0) (stored_where-Lists p m v))

-- A write to the expiry of a stored lock changes neither its key nor its lease.
extend-object :
    (now a b : ℕ) (lock o : StoredLock) (m : Locks)
    → lookup a m.objects ≡ some lock
    → lookup b m.objects ≡ some o
    → (x : StoredLock) × (lookup b (extend now a lock m).objects ≡ some x)
      × (key_of x ≡ key_of o)
      × (x.lease_id ≡ o.lease_id)
unfolding extend
extend-object now a b lock o m at_lock at_o = elim (Bool-cases (a == b)) [
  | inl same ↦
      let e : a ≡ b = (==_iff a b).0 same in
      let one : lock ≡ o = cc in
      (
        renewed now lock,
        rw e (lookup-put_self b (renewed now lock) m.objects),
        ap key_of one,
        ap (λ x. x.lease_id) one,
      )
  | inr other ↦
      (o, lookup-put_ne a b (renewed now lock) m.objects (ground arith) ∙ at_o, refl, refl)
]

extend-fresh :
    (now a b : ℕ) (lock o : StoredLock) (m : Locks)
    → Inv m
    → lookup a m.objects ≡ some lock
    → lookup b (extend now a lock m).objects ≡ some o
    → b < m.next_address
unfolding extend
extend-fresh now a b lock o m v at_lock e =
    elim (lookup-put_cases a b (renewed now lock) o m.objects e) [
      | inl (same, _) ↦ rw (← same) (v.fresh a lock at_lock)
      | inr (_, e0) ↦ v.fresh b o e0
    ]

pub extend-Inv :
    (now a : ℕ) (lock : StoredLock) (m : Locks)
    → Inv m
    → lookup a m.objects ≡ some lock
    → Inv (extend now a lock m)
extend-Inv now a lock m v at_lock = record {
  field_listed = λ k b e.
      let (o, at_o, key, id) = v.field_listed k b (unfold extend in e) in
      let (x, at_x, same_key, same_id) = extend-object now a b lock o m at_lock at_o in
      (x, at_x, same_key ∙ key, unfold extend in rw same_id id);
  lease_listed = λ l b e.
      let (o, at_o, id, key) = v.lease_listed l b (unfold extend in e) in
      let (x, at_x, same_key, same_id) = extend-object now a b lock o m at_lock at_o in
      (x, at_x, same_id ∙ id, unfold extend in rw same_key key);
  fresh = λ b o e. unfold extend in extend-fresh now a b lock o m v at_lock e;
  one_entry = unfold extend in v.one_entry;
}

-- A lock with a new lease, on a field that nobody holds.
module _ (lock : StoredLock) (m : Locks) (v : Inv m)
    (no_field : lookup (key_of lock) m.by_field ≡ none)
    (no_lease : lookup lock.lease_id m.by_lease ≡ none) where
  store-object :
      (b : ℕ) (o : StoredLock)
      → lookup b m.objects ≡ some o
      → lookup b (store lock m).objects ≡ some o
  unfolding store
  store-object b o at_o =
      lookup-put_ne m.next_address b lock m.objects (λ e. omega (arith, v.fresh b o at_o)) ∙ at_o

  store-field_listed :
      (k : FieldKey) (b : ℕ)
      → lookup k (store lock m).by_field ≡ some b
      → (o : StoredLock) × (lookup b (store lock m).objects ≡ some o)
        × (key_of o ≡ k)
        × (lookup o.lease_id (store lock m).by_lease ≡ some b)
  unfolding store
  store-field_listed k b e = elim (lookup-put_cases (key_of lock) k m.next_address b m.by_field e) [
    | inl (same, here) ↦ (
      lock,
      rw (← here) (lookup-put_self m.next_address lock m.objects),
      same,
      rw (← here) (lookup-put_self lock.lease_id m.next_address m.by_lease),
    )
    | inr (_, e0) ↦
        let (o, at_o, key, id) = v.field_listed k b e0 in
        let apart : lock.lease_id ≢ o.lease_id = λ same. cc in
        (
          o,
          store-object b o at_o,
          key,
          lookup-put_ne lock.lease_id o.lease_id m.next_address m.by_lease apart ∙ id,
        )
  ]

  store-lease_listed :
      (l : Text) (b : ℕ)
      → lookup l (store lock m).by_lease ≡ some b
      → (o : StoredLock) × (lookup b (store lock m).objects ≡ some o)
        × (o.lease_id ≡ l)
        × (lookup (key_of o) (store lock m).by_field ≡ some b)
  unfolding store
  store-lease_listed l b e = elim (lookup-put_cases lock.lease_id l m.next_address b m.by_lease e) [
    | inl (same, here) ↦ (
      lock,
      rw (← here) (lookup-put_self m.next_address lock m.objects),
      same,
      rw (← here) (lookup-put_self (key_of lock) m.next_address m.by_field),
    )
    | inr (_, e0) ↦
        let (o, at_o, id, key) = v.lease_listed l b e0 in
        let apart : key_of lock ≢ key_of o = λ same. cc in
        (
          o,
          store-object b o at_o,
          id,
          lookup-put_ne (key_of lock) (key_of o) m.next_address m.by_field apart ∙ key,
        )
  ]

  store-fresh :
      (b : ℕ) (o : StoredLock)
      → lookup b (store lock m).objects ≡ some o
      → b < (store lock m).next_address
  unfolding store
  store-fresh b o e = elim (lookup-put_cases m.next_address b lock o m.objects e) [
    | inl (here, _) ↦ omega arith
    | inr (_, e0) ↦ omega (arith, v.fresh b o e0)
  ]

  pub store-Inv : Inv (store lock m)
  store-Inv = record {
    field_listed = store-field_listed;
    lease_listed = store-lease_listed;
    fresh = store-fresh;
    one_entry =
        unfold store in put-HasDistinctKeys lock.lease_id m.next_address m.by_lease v.one_entry;
  }
