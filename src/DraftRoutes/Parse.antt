-- ===== src/DraftRoutes/Parse.antt =====
-- The bodies of the live draft routes: the checks at the top of api/live-draft-v1.ts.
pub mod Accepted
use open_log_tool_server.Base.{
  ℕ, Text, String, Bool, true, false, not, ◌&&◌, ◌||◌, List, [], ◌∷◌, map, Option, none, some,
  text_eq, leb, ◌==◌, if◌then◌else◌, trim, length, any, is_some,
}
use open_log_tool_server.Base.Json.{Json, null, natural, string, array, Fields, get, to_list}
use open_log_tool_server.Base.Runtime.{Runtime}
use open_log_tool_server.Base.Outcome.{
  Result, ok, err, app_error, validation_failed, ◌>>=◌, ◌>>◌, require,
}
use open_log_tool_server.LiveDraft.{
  Field, time, controller, callsign, rst_sent, rst_rcvd, qth, device, power, antenna, height,
  remarks, field_key,
}
use open_log_tool_server.Validation.{
  require_json_object, reject_unknown_keys, non_negative_integer, normalize_stable_id, to_lower,
  max_safe_integer,
}
use open_log_tool_server.Validation.Timestamp.{validate_timestamp}
use open_log_tool_server.DraftRoutes.Names.{
  field_name, field_named, reuse_fields, reuse_names, at_field,
}

-- TEXT_LIMITS.
abbrev pub text_limit : Field → ℕ
text_limit time = 64
text_limit controller = 32
text_limit callsign = 32
text_limit rst_sent = 16
text_limit rst_rcvd = 16
text_limit qth = 200
text_limit device = 200
text_limit power = 64
text_limit antenna = 200
text_limit height = 64
text_limit remarks = 2000

-- `split(separator)`.
unfoldable pub split : ℕ → Text → List Text
split separator [] = [] ∷ []
split separator (c ∷ s) = elim (split separator s) [
  | [] ↦ [] ∷ []
  | piece ∷ pieces ↦ if c == separator then [] ∷ piece ∷ pieces else (c ∷ piece) ∷ pieces
]

abbrev first_piece : List Text → Text
first_piece [] = []
first_piece (piece ∷ pieces) = piece

-- One item of the header: up to its parameters, in lower case.
abbrev pub names_preference : Text → Text → Bool
names_preference preference item =
    text_eq (map to_lower (trim (first_piece (split b';' item)))) preference

-- The preference is a constant in lower case. Only ASCII letters are made lower here: a header is
-- Latin-1, where no other letter has a lower case among them.
unfoldable pub has_preference : Option Text → Text → Bool
unfolding split to_lower
has_preference none preference = any (names_preference preference) (split b',' [])
has_preference (some value) preference = any (names_preference preference) (split b',' value)

unfoldable pub positive_integer : Option Json → Result ℕ
positive_integer (some (natural n)) = do
  require (leb 1 n && leb n max_safe_integer) 422 validation_failed
  ok n
positive_integer _ = err (app_error 422 validation_failed)

abbrev pub in_upper_case : Field → Bool
in_upper_case controller = true
in_upper_case callsign = true
in_upper_case _ = false

abbrev pub is_time : Field → Bool
is_time time = true
is_time _ = false

abbrev pub some_result : Result Text → Result (Option Text)
some_result r = r >>= λ text. ok (some text)

-- What `canonicalFieldValue` does with the trimmed text.
unfoldable pub canonical_text : Runtime → Field → Text → Result (Option Text)
canonical_text runtime field [] = ok none
canonical_text runtime field (c ∷ s) =
    if is_time field
    then some_result (validate_timestamp runtime (c ∷ s))
    else if in_upper_case field
    then ok (some (runtime.to_upper_case (c ∷ s)))
    else ok (some (c ∷ s))

-- A property that is absent is `undefined`, which is neither null nor a string.
unfoldable pub canonical_field_value : Runtime → Field → Option Json → Result (Option Text)
unfolding canonical_text trim
canonical_field_value runtime field (some null) = ok none
canonical_field_value runtime field (some (string s)) = do
  require (leb (length s) (text_limit field)) 422 validation_failed
  canonical_text runtime field (trim s)
canonical_field_value runtime field _ = err (app_error 422 validation_failed)

-- ParsedUpdate.
pub record Update : Type 0 where
  pub field : Field
  pub value : Option Text
  pub expected_revision : ℕ
  pub lease_id : Text

-- `isLiveDraftField`, as the field that the text names.
unfoldable pub live_draft_field : Option Json → Option Field
unfolding field_named
live_draft_field (some (string s)) = field_named s
live_draft_field _ = none

abbrev pub require_field : Option Json → Result Field
require_field value = elim (live_draft_field value) [
  | none ↦ err (app_error 422 validation_failed)
  | some field ↦ ok field
]

abbrev pub updates_field : Field → Update → Bool
updates_field field update = field_key.beq field update.field

abbrev pub update_keys : List String
update_keys = "field" ∷ "value" ∷ "expectedRevision" ∷ "leaseId" ∷ []

-- One item. The updates parsed so far stand for the set of their fields.
unfoldable pub parse_update : Runtime → List Update → Json → Result Update
parse_update runtime seen item = do
  update ← require_json_object item
  reject_unknown_keys update update_keys
  field ← require_field (get "field" update)
  require (not (any (updates_field field) seen)) 422 validation_failed
  require (is_some (get "value" update)) 422 validation_failed
  value ← canonical_field_value runtime field (get "value" update)
  expected_revision ← non_negative_integer (get "expectedRevision" update)
  lease_id ← normalize_stable_id (get "leaseId" update)
  ok (record {
    field = field;
    value = value;
    expected_revision = expected_revision;
    lease_id = lease_id;
  })

unfoldable pub parse_each : Runtime → List Update → List Json → Result (List Update)
parse_each runtime seen [] = ok []
parse_each runtime seen (item ∷ rest) = do
  update ← parse_update runtime seen item
  updates ← parse_each runtime (update ∷ seen) rest
  ok (update ∷ updates)

-- An array with this many items at least and at most.
abbrev pub array_of : ℕ → ℕ → Option Json → Result (List Json)
array_of min max (some (array items)) = do
  require (leb min (length (to_list items)) && leb (length (to_list items)) max) 422
      validation_failed
  ok (to_list items)
array_of min max _ = err (app_error 422 validation_failed)

unfoldable pub parse_updates : Runtime → Option Json → Result (List Update)
parse_updates runtime raw = array_of 1 11 raw >>= parse_each runtime []

-- LiveDraftHistoryCandidate; the five fields of LIVE_DRAFT_HISTORY_REUSE_FIELDS are a function.
pub record Candidate : Type 0 where
  pub candidate_id : Text
  pub source_time : Text
  pub value : Field → Option Text

-- `canonicalFieldValue(field, hasOwnProperty ? candidate[field] : null)`.
abbrev own_or_null : Option Json → Option Json
own_or_null none = some null
own_or_null (some value) = some value

unfoldable pub candidate_values : Runtime → Fields → List Field → Result (Field → Option Text)
candidate_values runtime candidate [] = ok (λ _. none)
candidate_values runtime candidate (field ∷ rest) = do
  value ← canonical_field_value runtime field (own_or_null (get (field_name field) candidate))
  values ← candidate_values runtime candidate rest
  ok (at_field field value values)

abbrev pub required_text : Option Text → Result Text
required_text none = err (app_error 422 validation_failed)
required_text (some []) = err (app_error 422 validation_failed)
required_text (some (c ∷ s)) = ok (c ∷ s)

unfoldable pub parse_candidate : Runtime → List Candidate → Json → Result Candidate
parse_candidate runtime seen item = do
  candidate ← require_json_object item
  reject_unknown_keys candidate ("candidateId" ∷ "sourceTime" ∷ reuse_names)
  candidate_id ← normalize_stable_id (get "candidateId" candidate)
  require (not (any (λ (c : Candidate). text_eq candidate_id c.candidate_id) seen)) 422
      validation_failed
  source ← canonical_field_value runtime time (get "sourceTime" candidate)
  source_time ← required_text source
  values ← candidate_values runtime candidate reuse_fields
  require (any (λ field. is_some (values field)) reuse_fields) 422 validation_failed
  ok (record { candidate_id = candidate_id; source_time = source_time; value = values })

unfoldable pub parse_candidates : Runtime → List Candidate → List Json → Result (List Candidate)
parse_candidates runtime seen [] = ok []
parse_candidates runtime seen (item ∷ rest) = do
  candidate ← parse_candidate runtime seen item
  candidates ← parse_candidates runtime (candidate ∷ seen) rest
  ok (candidate ∷ candidates)

unfoldable pub parse_history_candidates : Runtime → Option Json → Result (List Candidate)
parse_history_candidates runtime raw = array_of 1 10 raw >>= parse_candidates runtime []
