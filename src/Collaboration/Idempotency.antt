-- ===== src/Collaboration/Idempotency.antt =====
-- collaboration/idempotency.ts: the responses that are stored under a mutation's identifier.
use open_log_tool_server.Base.{
  Text, String, Bool, ◌&&◌, [], ◌∷◌, ◌++◌, Option, none, some, codes, text_eq, if◌then◌else◌,
  is_some, trim,
}
use open_log_tool_server.Base.Json.{
  Json, null, boolean, natural, other_number, string, array, object, Items, nil, cons, Fields, end,
  field,
}
use open_log_tool_server.Base.Table.{select}
use open_log_tool_server.Base.Runtime.{Runtime}
use open_log_tool_server.Base.Outcome.{
  Result, ok, err, app_error, internal, mutation_id_reused, idempotency_key_required, ◌>>◌, require,
  Outcome, done, raised,
}
use open_log_tool_server.Validation.{is_stable_id}
use open_log_tool_server.Collaboration.Rows.{StoredMutation, Database}

-- One step of `sort`, which is stable.
abbrev insert_entry : Runtime → String → Json → Fields → Fields
insert_entry runtime k v end = field k v end
insert_entry runtime k v (field k' v' rest) =
    let later = insert_entry runtime k v rest in
    if runtime.locale_le k k' then field k v (field k' v' rest) else field k' v' later

-- The order is that of the sort; `Object.fromEntries` would also put keys that are array indices
-- first.
unfoldable mutual
  pub canonicalize : Runtime → Json → Json
  canonicalize runtime null = null
  canonicalize runtime (boolean b) = boolean b
  canonicalize runtime (natural n) = natural n
  canonicalize runtime (other_number n) = other_number n
  canonicalize runtime (string s) = string s
  canonicalize runtime (array items) = array (canonical_items runtime items)
  canonicalize runtime (object fields) = object (canonical_fields runtime fields)

  pub canonical_items : Runtime → Items → Items
  canonical_items runtime nil = nil
  canonical_items runtime (cons j rest) =
      cons (canonicalize runtime j) (canonical_items runtime rest)

  pub canonical_fields : Runtime → Fields → Fields
  canonical_fields runtime end = end
  canonical_fields runtime (field k v rest) =
      insert_entry runtime k (canonicalize runtime v) (canonical_fields runtime rest)

-- `value` is the trimmed header.
unfoldable pub require_idempotency_key : Option Text → Result Text
require_idempotency_key none = err (app_error 400 idempotency_key_required)
require_idempotency_key (some header) = do
  require (is_stable_id (trim header)) 400 idempotency_key_required
  ok (trim header)

unfoldable pub compute_request_hash : Runtime → Text → Text → Json → Text
compute_request_hash runtime method path body = runtime.sha256_hex (
    runtime.to_upper_case method
    ++ codes "\n"
    ++ path
    ++ codes "\n"
    ++ runtime.stringify (canonicalize runtime body))

abbrev pub answers : Text → StoredMutation → Bool
answers mutation_id row = text_eq row.mutation_id mutation_id

-- The row was stored by this user for this request.
abbrev pub same_request : Text → Text → StoredMutation → Bool
same_request user_id request_hash row =
    text_eq row.user_id user_id && text_eq row.request_hash request_hash

unfoldable pub read_stored_response : Database → Text → Text → Text → Result (Option StoredMutation)
read_stored_response db mutation_id user_id request_hash =
    elim (select (answers mutation_id) db.processed) [
      | none ↦ ok none
      | some row ↦
          if same_request user_id request_hash row
          then ok (some row)
          else err (app_error 409 mutation_id_reused)
    ]

-- The INSERT; a second row under the primary key is a plain exception.
unfoldable pub store_response : StoredMutation → Database → Outcome Database (Unit {0})
store_response row db =
    if is_some (select (answers row.mutation_id) db.processed)
    then raised internal db
    else done tt (record db { processed = db.processed ++ row ∷ [] })
