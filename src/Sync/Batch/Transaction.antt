-- ===== src/Sync/Batch/Transaction.antt =====
-- The transaction of one operation: what it adds to the event log.
use open_log_tool_server.Base.{
  ◌<◌, Text, Bool, true, false, List, [], ◌∷◌, ◌++◌, Option, none, some, leb, if◌then◌else◌,
  is_some, ◌≡◌, inl, inr, refl, ap, arith, Bool-cases, Option-cases,
}
use open_log_tool_server.Base.Table.{select, select-append_some}
use open_log_tool_server.Base.Runtime.{Runtime}
use open_log_tool_server.Base.Outcome.{
  Result, ok, err, app_error, internal, forbidden, Outcome, done, raised, attempt,
}
use open_log_tool_server.Collaboration.Rows.{
  Role, owner, SessionRow, Event, StoredBody, rejected, mutation_body, StoredMutation, EntityType,
  session, log, Database,
}
use open_log_tool_server.Collaboration.Access.{same_role, find_session, require_membership}
use open_log_tool_server.Collaboration.Access.Member.{require_membership-Member}
use open_log_tool_server.Collaboration.Events.Gapless.{IsGapless}
use open_log_tool_server.Collaboration.Idempotency.{answers, store_response}
use open_log_tool_server.Sync.Operation.{Operation, Mutated}
use open_log_tool_server.Sync.Logs.Fate.{Fate}
use open_log_tool_server.Sync.Logs.Mutate.{mutate_log-Fate}
use open_log_tool_server.Sync.Sessions.{World}
use open_log_tool_server.Sync.Sessions.Fate.{SessionFate, mutate_session-Fate}
use open_log_tool_server.Sync.Batch.{
  Request, Draws, call_of, Committed, transaction, in_world, ordinary, commit, mutate_entity,
  mutate, caught, mutate_and_store, run_new, run_typed, run_operation,
}
use open_log_tool_server.Sync.Batch.Replay.{
  run_operation-new, run_operation-answer, answer_of-event,
}

abbrev pub to_list : Option Event → List Event
to_list none = []
to_list (some event) = event ∷ []

-- The log has grown by these events, and is still free of gaps if it was.
pub record Grown (db : Database) (events : List Event) (db' : Database) : Type 0 where
  pub log_is : db'.events ≡ db.events ++ events
  pub gapless : IsGapless db → IsGapless db'
  pub kept :
      (id : Text) (row : StoredMutation)
      → select (answers id) db.processed ≡ some row
      → select (answers id) db'.processed ≡ some row

pub append-nil_event : (xs : List Event) → xs ++ [] ≡ xs
append-nil_event [] = refl
append-nil_event (x ∷ xs) = ap (◌∷◌ x) (append-nil_event xs)

pub same-Grown : (db db' : Database) → db' ≡ db → Grown db [] db'
same-Grown db db' same = record {
  log_is = rw (same, append-nil_event db.events) refl;
  gapless = λ g. rw same g;
  kept = λ id row at. rw same at;
}

-- What a mutation has done before its response is stored.
unfoldable Adds : World → Outcome World Mutated → Type 0
Adds w (done m w') = Grown w.database (to_list m.event) w'.database
Adds w (raised (app_error status code) w') = status < 500 → w'.database ≡ w.database
Adds w (raised internal w') = Unit

log-Adds :
    (id : Text) (op : Operation) (w : World) (o : Outcome Database Mutated)
    → Fate id op w.database o
    → Adds w (in_world w o)
unfolding Fate Adds
log-Adds id op w (done m db') (inl c) = rw c.result (same-Grown w.database db' c.unchanged)
log-Adds id op w (done m db') (inr v) =
    rw v.result
      (record { log_is = v.event_log; gapless = v.gapless; kept = λ id row at. rw v.processed at })
log-Adds id op w (raised (app_error status code) db') same = λ _. same
log-Adds id op w (raised internal db') _ = tt

session-Adds :
    (row : SessionRow) (op : Operation) (w : World) (o : Outcome World Mutated)
    → SessionFate row op w o
    → Adds w o
unfolding SessionFate Adds
session-Adds row op w (done m w') (inl r) =
    rw r.result (same-Grown w.database w'.database (rw r.unchanged refl))
session-Adds row op w (done m w') (inr v) =
    rw v.result
      (record { log_is = v.events; gapless = v.gapless; kept = λ id row at. rw v.processed at })
session-Adds row op w (raised (app_error status code) w') same = same
session-Adds row op w (raised internal w') _ = tt

-- What an operation has done once its response is stored.
unfoldable pub Commits : World → Outcome World Committed → Type 0
Commits w (done c w') = Grown w.database (to_list c.event) w'.database
Commits w (raised fault w') = Unit

attempt-Commits :
    {A : Type 0} (r : Result A) (w : World) (k : A → Outcome World Committed)
    → ((a : A) → Commits w (k a))
    → Commits w (attempt r w k)
unfolding Commits attempt
attempt-Commits (ok a) w k h = h a
attempt-Commits (err fault) w k h = tt

processed-Grown :
    (db db1 : Database) (events : List Event) (new : StoredMutation)
    → Grown db events db1
    → Grown db events (record db1 { processed = db1.processed ++ new ∷ [] })
unfolding find_session
processed-Grown db db1 events new g = record {
  log_is = g.log_is;
  gapless = λ v. let v' = g.gapless v in record { bounded = v'.bounded; counted = v'.counted };
  kept =
      λ id row at. select-append_some (answers id) db1.processed (new ∷ []) row (g.kept id row at);
}

module _ (runtime : Runtime) (request : Request) (op : Operation) where
  commit-Commits :
      (draws : Draws) (result : StoredBody) (event : Option Event) (w w1 : World)
      → Grown w.database (to_list event) w1.database
      → Commits w (commit runtime request op draws result event w1)
  unfolding commit store_response
  commit-Commits draws result event w w1 g =
      elim (Bool-cases (is_some (select (answers op.mutation_id) w1.database.processed))) [
        | inl old ↦ rw old (unfold Commits in tt)
        | inr new ↦
            rw new (unfold Commits in processed-Grown w.database w1.database (to_list event) _ g)
      ]

  mutate_entity-Adds :
      (draws : Draws) (w : World) (row : SessionRow) (role : Role) (type : EntityType)
      → find_session w.database row.id ≡ some row
      → row.deleted_at ≡ none
      → Adds w (mutate_entity runtime request op draws w row role type)
  unfolding mutate_entity
  mutate_entity-Adds draws w row role log found kept =
      log-Adds row.id op w _
        (mutate_log-Fate runtime row op (call_of request draws) w.database role false)
  mutate_entity-Adds draws w row role session found kept =
      session-Adds row op w _
        (mutate_session-Fate row op (call_of request draws) ordinary w found kept role)

  attempt-Adds :
      {A : Type 0} (r : Result A) (w : World) (k : A → Outcome World Mutated)
      → ((a : A) → r ≡ ok a → Adds w (k a))
      → Adds w (attempt r w k)
  unfolding Adds attempt
  attempt-Adds (ok a) w k h = h a refl
  attempt-Adds (err (app_error status code)) w k h = λ _. refl
  attempt-Adds (err internal) w k h = tt

  mutate-Adds : (draws : Draws) (w : World) → Adds w (mutate runtime request op draws w)
  unfolding mutate
  mutate-Adds draws w =
      attempt-Adds (require_membership w.database request.session_id request.user_id none) w _
        λ access h.
          let m =
            require_membership-Member w.database request.session_id request.user_id none access.0
              access.1 h in
          mutate_entity-Adds draws w access.0 access.1.role op.entity_type m.found m.kept

  caught-Commits :
      (draws : Draws) (w : World) (o : Outcome World Mutated)
      → Adds w o
      → Commits w (caught runtime request op draws o)
  unfolding Adds
  caught-Commits draws w (done m w1) g =
      commit-Commits draws (mutation_body m.result) m.event w w1 g
  caught-Commits draws w (raised internal w1) g = unfold Commits in tt
  caught-Commits draws w (raised (app_error status code) w1) g =
      elim (Bool-cases (leb 500 status)) [
        | inl severe ↦ rw severe (unfold Commits in tt)
        | inr mild ↦
            let same : w1.database ≡ w.database = g (ground arith) in
            rw mild (
              commit-Commits draws (mutation_body (rejected op.mutation_id code)) none w w1
                (same-Grown w.database w1.database same))
      ]

  mutate_and_store-Commits :
      (draws : Draws) (w : World) → Commits w (mutate_and_store runtime request op draws w)
  unfolding mutate_and_store
  mutate_and_store-Commits draws w =
      caught-Commits draws w (mutate runtime request op draws w) (mutate-Adds draws w)

  owner-Commits :
      (draws : Draws) (w : World) (b : Bool)
      → Commits w (
          if b
          then mutate_and_store runtime request op draws w
          else commit runtime request op draws
              (mutation_body (rejected op.mutation_id forbidden))
              none
              w)
  owner-Commits draws w true = mutate_and_store-Commits draws w
  owner-Commits draws w false =
      commit-Commits draws (mutation_body (rejected op.mutation_id forbidden)) none w w
        (same-Grown w.database w.database refl)

  run_typed-Commits :
      (draws : Draws) (w : World) (type : EntityType)
      → Commits w (run_typed runtime request op draws w type)
  unfolding run_typed
  run_typed-Commits draws w log = mutate_and_store-Commits draws w
  run_typed-Commits draws w session =
      attempt-Commits _ w _ (λ access. owner-Commits draws w (same_role access.1.role owner))

  -- The transaction of one operation.
  unfoldable pub Transacts : World → Outcome World Committed → Type 0
  Transacts w (done c w') = Grown w.database (to_list c.event) w'.database
  Transacts w (raised fault w') = w'.database ≡ w.database

  transaction-Transacts :
      (w : World) (o : Outcome World Committed) → Commits w o → Transacts w (transaction w o)
  unfolding Commits Transacts
  transaction-Transacts w (done c w') g = g
  transaction-Transacts w (raised fault w') g = refl

  -- One operation of a batch either commits, and then the log has grown by just the event that
  -- is returned and no stored response is lost, or throws, and then the database is as it was.
  pub run_operation-Transacts :
      (draws : Draws) (w : World) → Transacts w (run_operation runtime request op draws w)
  run_operation-Transacts draws w =
      elim (Option-cases (select (answers op.mutation_id) w.database.processed)) [
        | inl new ↦
            rw (run_operation-new runtime request op draws w new) (
              transaction-Transacts w _
                (unfold run_new in run_typed-Commits draws w op.entity_type))
        | inr (row, old) ↦ rw (run_operation-answer runtime request op draws w row old) (
            unfold Transacts in
            rw (answer_of-event runtime request op row) (same-Grown w.database w.database refl))
      ]
