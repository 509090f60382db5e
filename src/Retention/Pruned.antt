-- ===== src/Retention/Pruned.antt =====
-- What a run of the retention plan that returns has done.
use open_log_tool_server.Base.{
  ℕ, ◌+◌, ◌-◌, ◌≤◌, Text, Bool, true, false, some, text_eq_iff, ==_iff, ◌==◌, if◌then◌else◌, ◌≡◌,
  ◌≢◌, ◌⊎◌, inl, inr, refl, sym, ◌∙◌, Bool-cases, Option-cases, arith,
}
use open_log_tool_server.Base.Table.{
  select, modify, delete, changes, select-holds, select-modify, select-modify-none,
}
use open_log_tool_server.Base.Outcome.{done}
use open_log_tool_server.Base.Run.{Run, when, continue, continue-demand, demand-eq-done}
use open_log_tool_server.Collaboration.Rows.{SessionRow, Database}
use open_log_tool_server.Collaboration.Access.{has_id, find_session}
use open_log_tool_server.Retention.{
  Policy, Candidate, Progress, in_range, is_cursor, with_bound, write_prune,
}
use open_log_tool_server.Retention.Range.{select-changes}

pub when-cases :
    {S : Type 0} (b : Bool) (run : Run S (Unit {0})) (s : S) {u : Unit {0}} {s' : S}
    → when b run s ≡ done u s'
    → ((b ≡ true) × (run s ≡ done u s')) ⊎ ((b ≡ false) × (s' ≡ s))
unfolding when
when-cases true run s h = inl (refl, h)
when-cases false run s h = inr (refl, cc h)

abbrev pub pruned_database : Candidate → ℕ → Database → Database
pruned_database c target db = record db {
  sessions = modify (is_cursor c) (with_bound target) db.sessions;
  events = delete (in_range c.id c.min_retained_seq target) db.events;
}

-- The two statements, when they return.
pub write_prune-eq-done :
    (c : Candidate) (target : ℕ) (s s' : Progress) {u : Unit {0}}
    → write_prune c target s ≡ done u s'
    → (changes (is_cursor c) s.database.sessions ≡ 1)
      × (changes (in_range c.id c.min_retained_seq target) s.database.events
          ≡ target - c.min_retained_seq)
      × (s' ≡ record s { database = pruned_database c target s.database })
unfolding write_prune continue
write_prune-eq-done c target s s' h =
    let s1 : Progress = record s {
      database = record s.database {
        sessions = modify (is_cursor c) (with_bound target) s.database.sessions;
      };
    } in
    let (one, h1) = continue-demand _ s1 (changes (is_cursor c) s.database.sessions == 1) _ _ h in
    let s2 : Progress = record s { database = pruned_database c target s.database } in
    let deleted = changes (in_range c.id c.min_retained_seq target) s.database.events in
    let (all_gone, same) = demand-eq-done (deleted == target - c.min_retained_seq) _ _ s2 h1 in
    (
      (==_iff (changes (is_cursor c) s.database.sessions) 1).0 one,
      (==_iff deleted (target - c.min_retained_seq)).0 all_gone,
      same,
    )

-- The primary key of `sessions`.
abbrev pub IsKeyed : Database → Type 0
IsKeyed db = (id : Text) → changes (has_id id) db.sessions ≤ 1

-- A Session's row of which at most the retention bound has gone up, and then not so far that fewer
-- than the minimum of events are left.
abbrev pub Advanced : Policy → SessionRow → SessionRow → Type 0
Advanced policy row row' =
    (row' ≡ with_bound row'.min_retained_seq row)
    × (row.min_retained_seq ≤ row'.min_retained_seq)
    × ((row'.min_retained_seq ≡ row.min_retained_seq)
        ⊎ (row'.min_retained_seq + policy.minimum_events ≤ row.event_seq))

module _ (c : Candidate) (target : ℕ) (db : Database) (keyed : IsKeyed db)
    (one : changes (is_cursor c) db.sessions ≡ 1) where
  cursor-id : (row : SessionRow) → is_cursor c row ≡ true → has_id c.id row ≡ true
  cursor-id row h = ground arith

  -- The row that the UPDATE has written is the Session's row.
  cursor-found : (row : SessionRow) × (find_session db c.id ≡ some row) × (is_cursor c row ≡ true)
  unfolding find_session
  cursor-found = select-changes (has_id c.id) (is_cursor c) cursor-id db.sessions (keyed c.id) one

  -- A Session's row after the prune is its row before, with the new bound if it is the one pruned.
  pub pruned-row :
      (id : Text) (row' : SessionRow)
      → find_session (pruned_database c target db) id ≡ some row'
      → (row : SessionRow) × (find_session db id ≡ some row)
        × (((id ≡ c.id) × (is_cursor c row ≡ true) × (row' ≡ with_bound target row))
            ⊎ ((id ≢ c.id) × (row' ≡ row)))
  unfolding find_session
  pruned-row id row' h = elim (Option-cases (select (has_id id) db.sessions)) [
    | inl absent ↦ cc (
        select-modify-none (has_id id) (is_cursor c) (with_bound target) db.sessions (λ y. refl)
          absent)
    | inr (row, at) ↦
        let e =
          select-modify (has_id id) (is_cursor c) (with_bound target) db.sessions row (λ y. refl)
            at in
        let is : (if is_cursor c row then with_bound target row else row) ≡ row' = cc (sym e ∙ h) in
        let own : row.id ≡ id =
          (text_eq_iff row.id id).0 (select-holds (has_id id) db.sessions row at) in
        elim (Bool-cases (is_cursor c row)) [
          | inl hit ↦
              let same : row.id ≡ c.id = (text_eq_iff row.id c.id).0 (cursor-id row hit) in
              (row, at, inl (sym own ∙ same, hit, sym (rw hit at is)))
          | inr missed ↦
              let (row0, at0, hit0) = cursor-found in
              let apart : id ≢ c.id = λ e.
                let both : some row ≡ some row0 = sym at ∙ rw e at0 in
                let same : row ≡ row0 = cc both in cc in
              (row, at, inr (apart, sym (rw missed at is)))
        ]
  ]
