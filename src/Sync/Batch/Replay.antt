-- ===== src/Sync/Batch/Replay.antt =====
-- What a client gets that sends an operation again.
use open_log_tool_server.Base.{
  Bool, true, false, Option, none, some, text_eq_refl, leb, if◌then◌else◌, ◌≡◌, inl, inr, refl, sym,
  ◌∙◌, Bool-cases, Option-cases,
}
use open_log_tool_server.Base.Table.{select, select-snoc_new}
use open_log_tool_server.Base.Runtime.{Runtime}
use open_log_tool_server.Base.Outcome.{
  Result, ok, err, app_error, internal, forbidden, mutation_id_reused, Outcome, done, raised,
  attempt,
}
use open_log_tool_server.Collaboration.Rows.{
  owner, Event, StoredBody, rejected, mutation_body, StoredMutation, EntityType, session, log,
}
use open_log_tool_server.Collaboration.Access.{same_role}
use open_log_tool_server.Collaboration.Idempotency.{
  answers, same_request, read_stored_response, store_response,
}
use open_log_tool_server.Sync.Operation.{Operation, Mutated}
use open_log_tool_server.Sync.Sessions.{World}
use open_log_tool_server.Sync.Batch.{
  Request, Draws, Committed, transaction, request_hash, stored_of, commit, mutate, caught,
  mutate_and_store, run_new, run_typed, run_operation,
}

pub transaction-done :
    {A : Type 0} (w : World) (o : Outcome World A) (a : A) (w1 : World)
    → transaction w o ≡ done a w1
    → o ≡ done a w1
transaction-done w (done b w2) a w1 h = h
transaction-done w (raised fault w2) a w1 h = cc

module _ (runtime : Runtime) (request : Request) (op : Operation) where
  -- A run that commits has stored its result under the operation's identifier.
  unfoldable Stores : Draws → Outcome World Committed → Type 0
  Stores draws (done c w) =
      select (answers op.mutation_id) w.database.processed
      ≡ some (stored_of runtime request op draws c.result)
  Stores draws (raised fault w) = Unit

  attempt-Stores :
      {A : Type 0} (draws : Draws) (r : Result A) (w : World) (k : A → Outcome World Committed)
      → ((a : A) → Stores draws (k a))
      → Stores draws (attempt r w k)
  unfolding Stores attempt
  attempt-Stores draws (ok a) w k h = h a
  attempt-Stores draws (err fault) w k h = tt

  commit-Stores :
      (draws : Draws) (result : StoredBody) (event : Option Event) (w : World)
      → Stores draws (commit runtime request op draws result event w)
  unfolding commit store_response
  commit-Stores draws result event w =
      elim (Option-cases (select (answers op.mutation_id) w.database.processed)) [
        | inl new ↦ rw new (
            unfold Stores in
            select-snoc_new (answers op.mutation_id) w.database.processed _ new
              (text_eq_refl op.mutation_id))
        | inr (row, old) ↦ rw old (unfold Stores in tt)
      ]

  caught-Stores :
      (draws : Draws) (o : Outcome World Mutated) → Stores draws (caught runtime request op draws o)
  caught-Stores draws (done m w) = commit-Stores draws (mutation_body m.result) m.event w
  caught-Stores draws (raised internal w) = unfold Stores in tt
  caught-Stores draws (raised (app_error status code) w) = elim (Bool-cases (leb 500 status)) [
    | inl severe ↦ rw severe (unfold Stores in tt)
    | inr mild ↦ rw mild (commit-Stores draws (mutation_body (rejected op.mutation_id code)) none w)
  ]

  mutate_and_store-Stores :
      (draws : Draws) (w : World) → Stores draws (mutate_and_store runtime request op draws w)
  unfolding mutate_and_store
  mutate_and_store-Stores draws w = caught-Stores draws (mutate runtime request op draws w)

  owner-Stores :
      (draws : Draws) (w : World) (b : Bool)
      → Stores draws (
          if b
          then mutate_and_store runtime request op draws w
          else commit runtime request op draws
              (mutation_body (rejected op.mutation_id forbidden))
              none
              w)
  owner-Stores draws w true = mutate_and_store-Stores draws w
  owner-Stores draws w false =
      commit-Stores draws (mutation_body (rejected op.mutation_id forbidden)) none w

  run_typed-Stores :
      (draws : Draws) (w : World) (type : EntityType)
      → Stores draws (run_typed runtime request op draws w type)
  unfolding run_typed
  run_typed-Stores draws w log = mutate_and_store-Stores draws w
  run_typed-Stores draws w session =
      attempt-Stores draws _ w _ (λ access. owner-Stores draws w (same_role access.1.role owner))

  run_new-Stores : (draws : Draws) (w : World) → Stores draws (run_new runtime request op draws w)
  unfolding run_new
  run_new-Stores draws w = run_typed-Stores draws w op.entity_type

  -- The answer to an operation whose identifier is in use.
  abbrev pub answer_of : StoredMutation → Committed
  answer_of row =
      if same_request request.user_id (request_hash runtime request op) row
      then record { result = row.response; event = none; replayed = true }
      else record {
        result = mutation_body (rejected op.mutation_id mutation_id_reused);
        event = none;
        replayed = false;
      }

  pub run_operation-answer :
      (draws : Draws) (w : World) (row : StoredMutation)
      → select (answers op.mutation_id) w.database.processed ≡ some row
      → run_operation runtime request op draws w ≡ done (answer_of row) w
  unfolding run_operation read_stored_response
  run_operation-answer draws w row h =
      elim (Bool-cases (same_request request.user_id (request_hash runtime request op) row)) [
        | inl same ↦ rw (h, run_operation, read_stored_response) (rw same refl)
        | inr other ↦ rw (h, run_operation, read_stored_response) (rw other refl)
      ]

  pub run_operation-new :
      (draws : Draws) (w : World)
      → select (answers op.mutation_id) w.database.processed ≡ none
      → run_operation runtime request op draws w
        ≡ transaction w (run_new runtime request op draws w)
  unfolding run_operation read_stored_response
  run_operation-new draws w h = rw (h, run_operation, read_stored_response) refl

  pub answer_of-event : (row : StoredMutation) → (answer_of row).event ≡ none
  answer_of-event row =
      elim (Bool-cases (same_request request.user_id (request_hash runtime request op) row)) [
        | inl same ↦ rw same refl
        | inr other ↦ rw other refl
      ]

  answer_of-stored :
      (draws : Draws) (result : StoredBody)
      → (answer_of (stored_of runtime request op draws result)).result ≡ result
  answer_of-stored draws result =
      rw (text_eq_refl request.user_id, text_eq_refl (request_hash runtime request op)) refl

  -- The row that answers an operation after it has committed.
  pub run_operation-row :
      (draws : Draws) (w w1 : World) (c : Committed)
      → run_operation runtime request op draws w ≡ done c w1
      → (row : StoredMutation) × (select (answers op.mutation_id) w1.database.processed ≡ some row)
        × ((answer_of row).result ≡ c.result)
  run_operation-row draws w w1 c h =
      elim (Option-cases (select (answers op.mutation_id) w.database.processed)) [
        | inl new ↦
            let ran : run_new runtime request op draws w ≡ done c w1 =
              transaction-done w (run_new runtime request op draws w) c w1
                (sym (run_operation-new draws w new) ∙ h) in
            let stored : Stores draws (done c w1) = rw (← ran) (run_new-Stores draws w) in
            let at : select (answers op.mutation_id) w1.database.processed
                ≡ some (stored_of runtime request op draws c.result) =
              unfold Stores in stored in
            (stored_of runtime request op draws c.result, at, answer_of-stored draws c.result)
        | inr (row, old) ↦
            let ran : done (answer_of row) w ≡ done c w1 =
              sym (run_operation-answer draws w row old) ∙ h in
            (row, cc ran, cc ran)
      ]

  -- Once an operation of a batch has committed, sending it again in any later world that keeps
  -- its stored response changes nothing, publishes nothing and returns the result of the first
  -- run.
  pub run_operation-repeated :
      (draws later : Draws) (w w1 w2 : World) (c : Committed)
      → run_operation runtime request op draws w ≡ done c w1
      → select (answers op.mutation_id) w2.database.processed
        ≡ select (answers op.mutation_id) w1.database.processed
      → (again : Committed) × (run_operation runtime request op later w2 ≡ done again w2)
        × (again.result ≡ c.result)
        × (again.event ≡ none)
  run_operation-repeated draws later w w1 w2 c h kept =
      let (row, at, same) = run_operation-row draws w w1 c h in
      (answer_of row, run_operation-answer later w2 row (kept ∙ at), same, answer_of-event row)
