-- ===== src/DraftRoutes/Steps/Databases.antt =====
-- What the shared statements of the handlers do to the database.
use open_log_tool_server.Base.{
  Text, true, false, List, some, text_eq, text_eq_iff, ◌==◌, ◌≡◌, refl, ap, ◌∙◌, inl, inr,
  Bool-cases, Option-cases, arith,
}
use open_log_tool_server.Base.Table.{
  select, modify, changes, select-modify, select-modify_apart, select-holds,
}
use open_log_tool_server.Base.Outcome.{ok, >>=-eq-ok, Fault, Outcome, done, raised}
use open_log_tool_server.Base.Run.{Run, continue, continue-eq-done}
use open_log_tool_server.LiveDraft.Locks.{Locks}
use open_log_tool_server.Collaboration.Drafts.{Draft, DraftDto, Revisions}
use open_log_tool_server.Collaboration.Rows.{Database}
use open_log_tool_server.Sync.Drafts.{draft_of}
use open_log_tool_server.DraftRoutes.Previews.{Previews}
use open_log_tool_server.DraftRoutes.Room.{
  Room, on_locks, on_database, with_locks, with_previews, to_locks, to_database, transaction,
  rolled_back,
}
use open_log_tool_server.DraftRoutes.Store.{LiveDraftRow, read_draft, draft_dto, dto_of, revisions}
use open_log_tool_server.DraftRoutes.Steps.{update_draft, at_version}

to_locks-done :
    {A : Type 0} (s : Room) (o : Outcome Locks A) {a : A} {s' : Room}
    → to_locks s o ≡ done a s'
    → (locks : Locks) × (o ≡ done a locks) × (s' ≡ record s { locks = locks })
to_locks-done s (done b locks) h = (locks, cc h, cc h)
to_locks-done s (raised fault locks) h = cc

pub on_locks-eq-done :
    {A : Type 0} (run : Locks → Outcome Locks A) (s : Room) {a : A} {s' : Room}
    → on_locks run s ≡ done a s'
    → (locks : Locks) × (run s.locks ≡ done a locks) × (s' ≡ record s { locks = locks })
unfolding on_locks
on_locks-eq-done run s h = to_locks-done s (run s.locks) h

to_database-done :
    {A : Type 0} (s : Room) (o : Outcome Database A) {a : A} {s' : Room}
    → to_database s o ≡ done a s'
    → (db : Database) × (o ≡ done a db) × (s' ≡ record s { database = db })
to_database-done s (done b db) h = (db, cc h, cc h)
to_database-done s (raised fault db) h = cc

pub on_database-eq-done :
    {A : Type 0} (run : Database → Outcome Database A) (s : Room) {a : A} {s' : Room}
    → on_database run s ≡ done a s'
    → (db : Database) × (run s.database ≡ done a db) × (s' ≡ record s { database = db })
unfolding on_database
on_database-eq-done run s h = to_database-done s (run s.database) h

pub with_locks-database :
    {A : Type 0} (call : Locks → A × Locks) (s : Room) {a : A} {s' : Room}
    → with_locks call s ≡ done a s'
    → s'.database ≡ s.database
unfolding with_locks
with_locks-database call s h = cc

pub with_previews-database :
    {A : Type 0} (call : Previews → A × Previews) (s : Room) {a : A} {s' : Room}
    → with_previews call s ≡ done a s'
    → s'.database ≡ s.database
unfolding with_previews
with_previews-database call s h = cc

-- A draft that is read is the Session's.
pub read_draft-eq-ok :
    (db : Database) (session : Text) (row : LiveDraftRow)
    → read_draft db session ≡ ok row
    → (select (draft_of session) db.drafts ≡ some row.draft) × (row.draft.session_id ≡ session)
unfolding read_draft
read_draft-eq-ok db session row h = elim (Option-cases (select (draft_of session) db.drafts)) [
  | inl missing ↦ cc (rw (missing, read_draft) at h)
  | inr (draft, found) ↦
      let h' = rw (found, read_draft) at h in
      let same : draft ≡ row.draft = cc in
      (
        rw same at found,
        rw same at (
            (text_eq_iff draft.session_id session).0
              (select-holds (draft_of session) db.drafts draft found)),
      )
]

module _ (f : Draft → Draft) (current : Draft) (db db' : Database) where
  -- An update that returns has written the Session's draft and no other row.
  pub update_draft-eq-done :
      {u : Unit {0}}
      → update_draft f current db ≡ done u db'
      → db'
        ≡ record db { drafts = modify (at_version current.session_id current.version) f db.drafts }
  unfolding update_draft
  update_draft-eq-done h =
      elim (Bool-cases (changes (at_version current.session_id current.version) db.drafts == 1)) [
        | inl one ↦ cc (rw (one, update_draft) at h)
        | inr other ↦ cc (rw (other, update_draft) at h)
      ]

-- The drafts after an update of the draft of a Session.
module _ (f : Draft → Draft) (current : Draft) (drafts : List Draft) (session : Text)
    (keep : (d : Draft) → (f d).session_id ≡ d.session_id)
    (own : current.session_id ≡ session) where
  pub select-updated :
      select (draft_of session) drafts ≡ some current
      → select (draft_of session) (modify (at_version current.session_id current.version) f drafts)
        ≡ some (f current)
  select-updated found =
      let mine : at_version current.session_id current.version current ≡ true =
        ground (arith, text_eq_iff current.session_id current.session_id) in
      select-modify (draft_of session) (at_version current.session_id current.version) f drafts
        current (λ d. ap (λ id. text_eq id session) (keep d)) found
      ∙ rw mine refl

  pub select-updated_other :
      (other : Text)
      → text_eq session other ≡ false
      → select (draft_of other) (modify (at_version current.session_id current.version) f drafts)
        ≡ select (draft_of other) drafts
  select-updated_other other apart =
      select-modify_apart (draft_of other) (at_version current.session_id current.version) f drafts
        (λ d. ap (λ id. text_eq id other) (keep d))
        (λ d mine. ground (
          arith,
          own,
          text_eq_iff d.session_id current.session_id,
          text_eq_iff d.session_id other,
          text_eq_iff session other,
        ))

module _ {A B : Type 0} (next : A → Run Room B) (s : Room) {b : B} {s' : Room} where
  -- The statement after one that works on the database, or on the locks.
  pub continue-on_database :
      (run : Database → Outcome Database A)
      → continue (on_database run s) next ≡ done b s'
      → (a : A) × (db : Database) × (run s.database ≡ done a db)
        × (next a (record s { database = db }) ≡ done b s')
  continue-on_database run h =
      let (a, s1, first, last) = continue-eq-done (on_database run s) next h in
      let (db, ran, same) = on_database-eq-done run s first in (a, db, ran, rw same at last)

  pub continue-on_locks :
      (run : Locks → Outcome Locks A)
      → continue (on_locks run s) next ≡ done b s'
      → (a : A) × (locks : Locks) × (run s.locks ≡ done a locks)
        × (next a (record s { locks = locks }) ≡ done b s')
  continue-on_locks run h =
      let (a, s1, first, last) = continue-eq-done (on_locks run s) next h in
      let (locks, ran, same) = on_locks-eq-done run s first in (a, locks, ran, rw same at last)

rolled_back-done :
    {A : Type 0} (s : Room) (o : Outcome Room A) {a : A} {s' : Room}
    → rolled_back s o ≡ done a s'
    → o ≡ done a s'
rolled_back-done s (done b s1) h = h
rolled_back-done s (raised fault s1) h = cc h

-- A transaction that returns has run its body to the end.
pub transaction-eq-done :
    {A : Type 0} (run : Run Room A) (s : Room) {a : A} {s' : Room}
    → transaction run s ≡ done a s'
    → run s ≡ done a s'
unfolding transaction
transaction-eq-done run s h = rolled_back-done s (run s) h

-- A draft that is shown has its columns and the revisions that are read of it.
pub draft_dto-eq-ok :
    (row : LiveDraftRow) (dto : DraftDto)
    → draft_dto row ≡ ok dto
    → (revs : Revisions) × (revisions row.draft ≡ ok revs) × (dto_of row revs ≡ dto)
unfolding draft_dto
draft_dto-eq-ok row dto h =
    let (revs, read, last) = >>=-eq-ok (revisions row.draft) _ h in (revs, read, cc last)

rolled_back-raised :
    {A : Type 0} (s : Room) (o : Outcome Room A) {fault : Fault} {s' : Room}
    → rolled_back s o ≡ raised fault s'
    → s'.database ≡ s.database
rolled_back-raised s (done b s1) h = cc h
rolled_back-raised s (raised fault s1) h = cc h

-- A transaction that throws leaves the database as it was.
pub transaction-raised :
    {A : Type 0} (run : Run Room A) (s : Room) {fault : Fault} {s' : Room}
    → transaction run s ≡ raised fault s'
    → s'.database ≡ s.database
unfolding transaction
transaction-raised run s h = rolled_back-raised s (run s) h
