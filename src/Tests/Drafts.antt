-- ===== src/Tests/Drafts.antt =====
-- The lock manager's theorems at concrete inputs.
use open_log_tool_server.Base.{
  ℕ, Text, true, false, none, some, codes, text_eq, ◌≡◌, ◌↔◌, refl, arith, if◌then◌else◌, leb,
}
use open_log_tool_server.Base.Dict.{lookup, put}
use open_log_tool_server.Base.Outcome.{done, raised, state, app_error, live_draft_field_locked}
use open_log_tool_server.LiveDraft.{callsign}
use open_log_tool_server.LiveDraft.Locks.{
  Locks, empty, Input, StoredLock, FieldKey, input_key, key_of, same_key, get_field, get_lease,
  prune, new_lock, acquire, acquire_pruned, renew, release, assert_lease, owned_by, store,
  filter_locks, stored_where, remove_all,
}
use open_log_tool_server.LiveDraft.Locks.Invariant.{Inv}
use open_log_tool_server.LiveDraft.Locks.Exclusion.{holder, acquire_refused}
use open_log_tool_server.LiveDraft.Locks.Leases.{
  lease, assert_lease_iff, release_owned, renew_owned,
}
use open_log_tool_server.LiveDraft.Locks.Reach.{
  Reach, start, next, acquires, Reach-Inv, Reach-one_holder, acquire_excludes,
}

abbrev asked : Text → Input
asked user = record {
  session_id = codes "s1";
  field = callsign;
  lease_id = codes "l1";
  user_id = user;
  username = user;
  device_id = codes "d";
}

abbrev mine : Input
mine = asked (codes "ann")

abbrev rival : Input
rival = asked (codes "bob")

abbrev granted : StoredLock
granted = new_lock 0 (codes "l1") mine

abbrev pub locked : Locks
locked = state (acquire 0 (codes "l1") mine empty)

unlisted : get_lease (codes "l1") (prune 0 empty) ≡ none
unfolding get_lease prune empty lookup stored_where filter_locks remove_all
unlisted = refl

reached : Reach locked
reached = next start (acquires 0 (codes "l1") mine unlisted)

listed : get_lease (codes "l1") locked ≡ some (0, granted)
unfolding get_lease acquire acquire_pruned get_field store prune empty lookup put stored_where
    filter_locks remove_all text_eq
listed = refl

held :
    (now : ℕ)
    → leb granted.expires_at_ms now ≡ false
    → holder now (input_key mine) locked ≡ some (0, granted)
unfolding get_field acquire acquire_pruned store prune empty lookup put stored_where filter_locks
    remove_all text_eq
held now h = rw h refl

leased : lease 5 mine.lease_id locked ≡ some (0, granted)
unfolding get_lease acquire acquire_pruned get_field store prune empty lookup put stored_where
    filter_locks remove_all text_eq
leased = refl

Reach-one_holder_example : (codes "l1" ≡ codes "l1") × (granted ≡ granted)
Reach-one_holder_example =
    Reach-one_holder (codes "l1") (codes "l1") 0 0 granted granted reached listed listed refl

free : holder 0 (input_key mine) empty ≡ none
unfolding get_field empty lookup
free = refl

acquire_excludes_example :
    (acquire 0 (codes "l1") mine empty ≡ done (granted, false) locked)
    × (acquire 29999 (codes "l2") rival locked
        ≡ raised (app_error 409 live_draft_field_locked) (prune 29999 locked))
acquire_excludes_example =
    acquire_excludes 0 29999 (codes "l1") (codes "l2") mine rival empty start unlisted free
      (omega arith) refl (unfold text_eq in refl)

assert_lease_iff_example : (assert_lease 5 mine locked ≡ done tt (prune 5 locked)) ↔ (
    (a : ℕ) × (lock : StoredLock) × (holder 5 (input_key mine) locked ≡ some (a, lock))
    × (lock.lease_id ≡ mine.lease_id)
    × (owned_by lock mine ≡ true))
assert_lease_iff_example = assert_lease_iff 5 mine locked (Reach-Inv reached)

own : owned_by granted mine ≡ true
unfolding text_eq
own = refl

release_owned_example :
    (m' : Locks) × (release 5 mine locked ≡ done granted m')
    × Inv m'
    × ((key : FieldKey)
        → get_field key m' ≡ (if same_key (key_of granted) key then none else holder 5 key locked))
release_owned_example = release_owned 5 mine locked (Reach-Inv reached) 0 granted leased refl own

renew_owned_example :
    (m' : Locks) × (renew 5 mine locked ≡ done (record granted { expires_at_ms = 30005 }) m')
    × Inv m'
    × ((key : FieldKey)
        → get_field key m' ≡ (
            if same_key (key_of granted) key
            then some (0, record granted { expires_at_ms = 30005 })
            else holder 5 key locked))
renew_owned_example = renew_owned 5 mine locked (Reach-Inv reached) 0 granted leased refl own

acquire_refused_example :
    acquire 5 (codes "l2") rival locked
    ≡ raised (app_error 409 live_draft_field_locked) (prune 5 locked)
acquire_refused_example =
    acquire_refused 5 (codes "l2") rival locked (Reach-Inv reached) 0 granted (held 5 refl)
      (unfold text_eq in refl)
