-- ===== src/LiveDraft/Locks/View.antt =====
-- The lock manager as its callers see it: which lock a field and which lock a lease has, and how
-- pruning and clearing change that.
use open_log_tool_server.Base.{
  ℕ, Text, Bool, true, false, List, [], ◌∷◌, Option, none, some, ◌≡◌, ◌∙◌, arith, All, any, inl,
  inr, Bool-cases, Option-cases, refl, if◌then◌else◌, text_eq, text_eq_iff, ◌||◌,
}
use open_log_tool_server.Base.Dict.{lookup, values, nat_key, text_key, lookup-erase}
use open_log_tool_server.LiveDraft.Locks.{
  Locks, StoredLock, FieldKey, key_eq, key_of, same_key, same_key_iff, get_field, get_lease, remove,
  remove_all, filter_locks, stored_where, prune, expired,
}
use open_log_tool_server.LiveDraft.Locks.Invariant.{Inv, Lists, stored_where-Lists}

-- The lock, unless `p` holds of it.
abbrev pub unless : (StoredLock → Bool) → Option (ℕ × StoredLock) → Option (ℕ × StoredLock)
unless p none = none
unless p (some (a, lock)) = if p lock then none else some (a, lock)

abbrev pub holds : (StoredLock → Bool) → Option (ℕ × StoredLock) → Bool
holds p none = false
holds p (some (a, lock)) = p lock

pub get_field-remove :
    (key : FieldKey) (lock : StoredLock) (m : Locks)
    → get_field key (remove m lock) ≡ (if same_key (key_of lock) key then none else get_field key m)
unfolding get_field remove
get_field-remove key lock m = ground (arith, lookup-erase (key_of lock) key m.by_field)

get_lease-remove :
    (l : Text) (lock : StoredLock) (m : Locks)
    → get_lease l (remove m lock) ≡ (if text_eq lock.lease_id l then none else get_lease l m)
unfolding get_lease remove
get_lease-remove l lock m = ground (arith, lookup-erase lock.lease_id l m.by_lease)

abbrev on_key : FieldKey → StoredLock → Bool
on_key key lock = same_key (key_of lock) key

abbrev on_lease : Text → StoredLock → Bool
on_lease l lock = text_eq lock.lease_id l

get_field-remove_all :
    (key : FieldKey) (locks : List StoredLock) (m : Locks)
    → get_field key (remove_all locks m)
      ≡ (if any (on_key key) locks then none else get_field key m)
unfolding remove_all
get_field-remove_all key [] m = refl
get_field-remove_all key (lock ∷ rest) m =
    get_field-remove_all key rest (remove m lock)
    ∙ rw (get_field-remove key lock m) (split (on_key key lock) (any (on_key key) rest))
  where
    split :
        (b c : Bool)
        → (if c then none else if b then none else get_field key m)
          ≡ (if b || c then none else get_field key m)
    split true true = refl
    split true false = refl
    split false c = refl

get_lease-remove_all :
    (l : Text) (locks : List StoredLock) (m : Locks)
    → get_lease l (remove_all locks m) ≡ (if any (on_lease l) locks then none else get_lease l m)
unfolding remove_all
get_lease-remove_all l [] m = refl
get_lease-remove_all l (lock ∷ rest) m =
    get_lease-remove_all l rest (remove m lock)
    ∙ rw (get_lease-remove l lock m) (split (on_lease l lock) (any (on_lease l) rest))
  where
    split :
        (b c : Bool)
        → (if c then none else if b then none else get_lease l m)
          ≡ (if b || c then none else get_lease l m)
    split true true = refl
    split true false = refl
    split false c = refl

-- A listed lock is the one that its field and its lease have.
pub get_field-Lists :
    (m : Locks) (lock : StoredLock)
    → Inv m
    → (h : Lists m lock) → get_field (key_of lock) m ≡ some (h.address, lock)
unfolding get_field
get_field-Lists m lock v h =
    let (x, at_x, id, key) = v.lease_listed lock.lease_id h.address h.lease in
    let one : x ≡ lock = ground (arith, h.object) in
    let key' : lookup (key_of lock) m.by_field ≡ some h.address = rw (← one) key in
    rw key' (rw h.object)

pub get_lease-Lists :
    (m : Locks) (lock : StoredLock) (h : Lists m lock)
    → get_lease lock.lease_id m ≡ some (h.address, lock)
unfolding get_lease
get_lease-Lists m lock h = rw h.lease (rw h.object)

-- The filter finds what is listed.
any-filter_locks :
    (p q : StoredLock → Bool) (l : Text) (a : ℕ) (lock : StoredLock) (entries : List (Text × ℕ))
    (m : Locks)
    → lookup l entries ≡ some a
    → lookup a m.objects ≡ some lock
    → p lock ≡ true
    → q lock ≡ true
    → any q (filter_locks p (values entries) m) ≡ true
unfolding filter_locks lookup
any-filter_locks p q l a lock [] m e at_lock hp hq = cc
any-filter_locks p q l a lock ((k, b) ∷ entries) m e at_lock hp hq =
    ground (arith, any-filter_locks p q l a lock entries m)

-- Conversely, what the filter yields on a field or a lease is the lock that the map gives.
any-on_key :
    (p : StoredLock → Bool) (key : FieldKey) (locks : List StoredLock) (m : Locks)
    → Inv m
    → All (λ lock. Lists m lock × (p lock ≡ true)) locks
    → any (on_key key) locks ≡ true
    → holds p (get_field key m) ≡ true
any-on_key p key [] m v h e = cc
any-on_key p key (lock ∷ rest) m v ((listed, picked), h) e = elim (Bool-cases (on_key key lock)) [
  | inl same ↦
      let at : get_field key m ≡ some (listed.address, lock) =
        rw (← (same_key_iff (key_of lock) key).0 same) (get_field-Lists m lock v listed) in
      rw at picked
  | inr other ↦ any-on_key p key rest m v h (ground arith)
]

any-on_lease :
    (p : StoredLock → Bool) (l : Text) (locks : List StoredLock) (m : Locks)
    → All (λ lock. Lists m lock × (p lock ≡ true)) locks
    → any (on_lease l) locks ≡ true
    → holds p (get_lease l m) ≡ true
any-on_lease p l [] m h e = cc
any-on_lease p l (lock ∷ rest) m ((listed, picked), h) e = elim (Bool-cases (on_lease l lock)) [
  | inl same ↦
      let at : get_lease l m ≡ some (listed.address, lock) =
        rw (← (text_eq_iff lock.lease_id l).0 same) (get_lease-Lists m lock listed) in
      rw at picked
  | inr other ↦ any-on_lease p l rest m h (ground arith)
]

unless_of_iff :
    (p : StoredLock → Bool) (o : Option (ℕ × StoredLock)) (b : Bool)
    → (b ≡ true → holds p o ≡ true)
    → (holds p o ≡ true → b ≡ true)
    → (if b then none else o) ≡ unless p o
unless_of_iff p none true to from = refl
unless_of_iff p none false to from = refl
unless_of_iff p (some (a, lock)) true to from = rw (to refl)
unless_of_iff p (some (a, lock)) false to from = ground (arith, from)

module _ (p : StoredLock → Bool) (m : Locks) (v : Inv m) where
  holds-any_key :
      (key : FieldKey)
      → holds p (get_field key m) ≡ true
      → any (on_key key) (stored_where p m) ≡ true
  unfolding get_field stored_where
  holds-any_key key h = elim (Option-cases (lookup key m.by_field)) [
    | inl absent ↦ ground arith
    | inr (a, e) ↦
        let (lock, at_lock, same, id) = v.field_listed key a e in
        any-filter_locks p (on_key key) lock.lease_id a lock m.by_lease m id at_lock (ground arith)
          ((same_key_iff (key_of lock) key).1 same)
  ]

  holds-any_lease :
      (l : Text) → holds p (get_lease l m) ≡ true → any (on_lease l) (stored_where p m) ≡ true
  unfolding get_lease stored_where
  holds-any_lease l h = elim (Option-cases (lookup l m.by_lease)) [
    | inl absent ↦ ground arith
    | inr (a, e) ↦
        let (lock, at_lock, same, key) = v.lease_listed l a e in
        any-filter_locks p (on_lease l) l a lock m.by_lease m e at_lock (ground arith)
          ((text_eq_iff lock.lease_id l).1 same)
  ]

  -- Removing the locks that `p` picks takes exactly those out of the view by field.
  pub get_field-remove_where :
      (key : FieldKey)
      → get_field key (remove_all (stored_where p m) m) ≡ unless p (get_field key m)
  get_field-remove_where key =
      get_field-remove_all key (stored_where p m) m
      ∙ unless_of_iff p (get_field key m) (any (on_key key) (stored_where p m))
          (any-on_key p key (stored_where p m) m v (stored_where-Lists p m v)) (holds-any_key key)

  -- So it does out of the view by lease.
  pub get_lease-remove_where :
      (l : Text) → get_lease l (remove_all (stored_where p m) m) ≡ unless p (get_lease l m)
  get_lease-remove_where l =
      get_lease-remove_all l (stored_where p m) m
      ∙ unless_of_iff p (get_lease l m) (any (on_lease l) (stored_where p m))
          (any-on_lease p l (stored_where p m) m (stored_where-Lists p m v)) (holds-any_lease l)

-- Pruning takes the expired locks out of the view, and no others.
pub get_field-prune :
    (now : ℕ) (key : FieldKey) (m : Locks)
    → Inv m
    → get_field key (prune now m) ≡ unless (expired now) (get_field key m)
unfolding prune
get_field-prune now key m v = get_field-remove_where (expired now) m v key

pub get_lease-prune :
    (now : ℕ) (l : Text) (m : Locks)
    → Inv m
    → get_lease l (prune now m) ≡ unless (expired now) (get_lease l m)
unfolding prune
get_lease-prune now l m v = get_lease-remove_where (expired now) m v l
