-- ===== src/DraftRoutes/Extends.antt =====
-- What no request to the live draft routes takes back, and the rules by which a handler is seen to
-- keep it.
pub mod Statements
pub mod Routes
pub mod Writes
use open_log_tool_server.Base.{
  ℕ, ◌+◌, ◌≤◌, Text, Bool, true, false, ◌&&◌, List, [], ◌∷◌, ◌++◌, some, ◌==◌, if◌then◌else◌, ◌≡◌,
  refl, sym, ap, ◌∙◌, arith,
}
use open_log_tool_server.Base.Table.{select}
use open_log_tool_server.Base.Outcome.{Result, ok, err, Code, Outcome, done, raised, state}
use open_log_tool_server.Base.Run.{
  Run, ◌>>=◌, ◌>>◌, return, throw, read, write, reading, demand, when, continue, end_with,
}
use open_log_tool_server.LiveDraft.Locks.{Locks}
use open_log_tool_server.Collaboration.Drafts.{Draft}
use open_log_tool_server.Collaboration.Rows.{LogRow, Event, StoredMutation, Database}
use open_log_tool_server.Collaboration.Idempotency.{answers}
use open_log_tool_server.Sync.Drafts.{draft_of}
use open_log_tool_server.DraftRoutes.Previews.{Previews}
use open_log_tool_server.DraftRoutes.Room.{
  Room, Control, on_locks, on_database, with_locks, with_previews, publish_control, publish_event,
  transaction, to_locks, to_database, rolled_back,
}
use mathlib.Core.List.{append-nil, append_assoc}

-- A draft that is there stays and its version does not go down, logs and events are only added at
-- the end, and a stored response stays.
pub record Extends (db db' : Database) : Type 0 where
  pub drafts :
      (session : Text) (d : Draft)
      → select (draft_of session) db.drafts ≡ some d
      → (d' : Draft) × (select (draft_of session) db'.drafts ≡ some d') × (d.version ≤ d'.version)
  pub events : (more : List Event) × (db'.events ≡ db.events ++ more)
  pub logs : (more : List LogRow) × (db'.logs ≡ db.logs ++ more)
  pub stored :
      (id : Text) (row : StoredMutation)
      → select (answers id) db.processed ≡ some row
      → select (answers id) db'.processed ≡ some row

pub Extends-refl : (db : Database) → Extends db db
Extends-refl db = record {
  drafts = λ session d found. (d, found, omega arith);
  events = ([], sym (append-nil db.events));
  logs = ([], sym (append-nil db.logs));
  stored = λ id row found. found;
}

pub Extends-trans : {a b c : Database} → Extends a b → Extends b c → Extends a c
Extends-trans x y = record {
  drafts = λ session d found.
      let (d1, found1, le1) = x.drafts session d found in
      let (d2, found2, le2) = y.drafts session d1 found1 in (d2, found2, omega (arith, le1, le2));
  events =
      let (more1, e1) = x.events in
      let (more2, e2) = y.events in (more1 ++ more2, e2 ∙ rw (e1, append_assoc) refl);
  logs =
      let (more1, e1) = x.logs in
      let (more2, e2) = y.logs in (more1 ++ more2, e2 ∙ rw (e1, append_assoc) refl);
  stored = λ id row found. y.stored id row (x.stored id row found);
}

-- A run keeps this of every database, whether it returns or throws.
pub record Within {A : Type 0} (run : Run Room A) : Type 0 where
  pub extends : (s : Room) → Extends s.database (state (run s)).database

bind_outcome :
    {A B : Type 0} (db : Database) (o : Outcome Room A) (next : A → Run Room B)
    → Extends db (state o).database
    → ((a : A) → Within (next a))
    → Extends db (state (continue o next)).database
unfolding continue
bind_outcome db (done a s) next first rest = Extends-trans first ((rest a).extends s)
bind_outcome db (raised fault s) next first rest = first

pub Within-bind :
    {A B : Type 0} (first : Run Room A) (next : A → Run Room B)
    → Within first
    → ((a : A) → Within (next a))
    → Within (first >>= next)
Within-bind first next w rest = record {
  extends = λ s. bind_outcome s.database (first s) next (w.extends s) rest;
}

pub Within-then :
    {B : Type 0} (first : Run Room (Unit {0})) (next : Run Room B)
    → Within first
    → Within next
    → Within (first >> next)
Within-then first next w rest = record {
  extends = λ s. bind_outcome s.database (first s) (λ _. next) (w.extends s) (λ _. rest);
}

same-Within :
    {A : Type 0} (run : Run Room A)
    → ((s : Room) → (state (run s)).database ≡ s.database)
    → Within run
same-Within run same = record { extends = λ s. rw (same s) (Extends-refl s.database) }

pub Within-return : {A : Type 0} (a : A) → Within (return a)
Within-return a = same-Within (return a) (λ s. refl)

pub Within-throw : {A : Type 0} (status : ℕ) (code : Code) → Within {A = A} (throw status code)
Within-throw status code = same-Within (throw status code) (λ s. refl)

pub Within-read : {A : Type 0} (f : Room → A) → Within (read f)
Within-read f = same-Within (read f) (λ s. refl)

end_with-state : {A : Type 0} (r : Result A) (s : Room) → state (end_with r s) ≡ s
end_with-state (ok a) s = refl
end_with-state (err fault) s = refl

pub Within-reading : {A : Type 0} (r : Room → Result A) → Within (reading r)
unfolding reading
Within-reading r =
    same-Within (reading r) (λ s. ap (λ (t : Room). t.database) (end_with-state (r s) s))

pub Within-demand : (b : Bool) (status : ℕ) (code : Code) → Within (demand b status code)
unfolding demand
Within-demand true status code = same-Within _ (λ s. refl)
Within-demand false status code = same-Within _ (λ s. refl)

pub Within-when : (b : Bool) (run : Run Room (Unit {0})) → Within run → Within (when b run)
unfolding when
Within-when true run w = record { extends = λ s. w.extends s }
Within-when false run w = same-Within _ (λ s. refl)

pub Within-if :
    {A : Type 0} (b : Bool) (yes_run no_run : Run Room A)
    → Within yes_run
    → Within no_run
    → Within (if b then yes_run else no_run)
Within-if true yes_run no_run y n = y
Within-if false yes_run no_run y n = n

to_locks-database :
    {A : Type 0} (s : Room) (o : Outcome Locks A) → (state (to_locks s o)).database ≡ s.database
to_locks-database s (done a locks) = refl
to_locks-database s (raised fault locks) = refl

pub Within-on_locks : {A : Type 0} (run : Locks → Outcome Locks A) → Within (on_locks run)
unfolding on_locks
Within-on_locks run = same-Within (on_locks run) (λ s. to_locks-database s (run s.locks))

pub Within-with_locks : {A : Type 0} (call : Locks → A × Locks) → Within (with_locks call)
unfolding with_locks
Within-with_locks call = same-Within (with_locks call) (λ s. refl)

pub Within-with_previews :
    {A : Type 0} (call : Previews → A × Previews) → Within (with_previews call)
unfolding with_previews
Within-with_previews call = same-Within (with_previews call) (λ s. refl)

pub Within-publish_control : (control : Control) → Within (publish_control control)
unfolding publish_control
Within-publish_control control = same-Within (publish_control control) (λ s. refl)

pub Within-publish_event : (event : Event) → Within (publish_event event)
unfolding publish_event
Within-publish_event event = same-Within (publish_event event) (λ s. refl)

pub Within-updating :
    (f : Database → Database)
    → ((db : Database) → Extends db (f db))
    → Within (write (λ (s : Room). record s { database = f s.database }))
Within-updating f w = record { extends = λ s. w s.database }

to_database-state :
    {A : Type 0} (s : Room) (o : Outcome Database A) → (state (to_database s o)).database ≡ state o
to_database-state s (done a db) = refl
to_database-state s (raised fault db) = refl

pub Within-on_database :
    {A : Type 0} (run : Database → Outcome Database A)
    → ((db : Database) → Extends db (state (run db)))
    → Within (on_database run)
unfolding on_database
Within-on_database run w = record {
  extends = λ s. rw (to_database-state s (run s.database)) (w s.database);
}

rolled_back-Extends :
    {A : Type 0} (s : Room) (o : Outcome Room A)
    → Extends s.database (state o).database
    → Extends s.database (state (rolled_back s o)).database
rolled_back-Extends s (done a s') w = w
rolled_back-Extends s (raised fault s') w = Extends-refl s.database

pub Within-transaction : {A : Type 0} (run : Run Room A) → Within run → Within (transaction run)
unfolding transaction
Within-transaction run w = record { extends = λ s. rolled_back-Extends s (run s) (w.extends s) }
