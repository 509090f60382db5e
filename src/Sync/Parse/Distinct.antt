-- ===== src/Sync/Parse/Distinct.antt =====
-- What a batch that has been parsed is known to be.
use open_log_tool_server.Base.{
  ℕ, suc, ◌≤◌, Text, Bool, true, false, not, ◌&&◌, List, [], ◌∷◌, Option, none, some, text_eq,
  text_eq_iff, leb, leb→le, length, any, ◌≡◌, refl, ap, ◌∙◌, arith, inl, inr, Bool-cases,
}
use open_log_tool_server.Base.Json.{
  Json, null, boolean, natural, other_number, string, array, object, Fields, get,
}
use open_log_tool_server.Base.Runtime.{Runtime}
use open_log_tool_server.Base.Outcome.{ok, require, >>=-eq-ok, require-eq-ok}
use open_log_tool_server.Validation.{
  require_json_object, reject_unknown_keys, uuid_field, require_string, between,
  normalize_stable_id, non_negative_integer, max_safe_integer,
}
use open_log_tool_server.Collaboration.Rows.{EntityType, session, log}
use open_log_tool_server.Sync.Operation.{Operation}
use open_log_tool_server.Sync.Parse.{
  entity_type_of, same_type, same_entity, same_mutation, parse_operation, parse_all, items_of,
  is_one, parse_operations, operation_keys, check_observed_seq, check_queued_at,
}

-- No operation of the list meets this one.
abbrev pub Apart : (Operation → Operation → Bool) → Operation → List Operation → Type 0
Apart same op ops = any (same op) ops ≡ false

-- No two operations of the list meet.
abbrev pub Distinct : (Operation → Operation → Bool) → List Operation → Type 0
Distinct same [] = Unit
Distinct same (op ∷ ops) = Apart same op ops × Distinct same ops

-- The operation meets none of those before it.
pub record Fresh (seen : List Operation) (op : Operation) : Type 0 where
  pub mutation : any (same_mutation op) seen ≡ false
  pub entity : any (same_entity op) seen ≡ false
  pub bounded : op.base_version ≤ max_safe_integer

ok-injective : {A : Type 0} {a b : A} → ok a ≡ ok b → a ≡ b
ok-injective h = cc

not-true : (b : Bool) → not b ≡ true → b ≡ false
not-true true h = ground arith
not-true false h = refl

non_negative_integer-bounded :
    (value : Option Json) (n : ℕ) → non_negative_integer value ≡ ok n → n ≤ max_safe_integer
unfolding non_negative_integer
non_negative_integer-bounded none n h = cc
non_negative_integer-bounded (some null) n h = cc
non_negative_integer-bounded (some (boolean b)) n h = cc
non_negative_integer-bounded (some (other_number k)) n h = cc
non_negative_integer-bounded (some (string s)) n h = cc
non_negative_integer-bounded (some (array items)) n h = cc
non_negative_integer-bounded (some (object fields)) n h = cc
non_negative_integer-bounded (some (natural m)) n h =
    let (_, safe, same) = >>=-eq-ok (require (leb m max_safe_integer) _ _) _ h in
    let le : m ≤ max_safe_integer = leb→le m max_safe_integer (require-eq-ok _ _ _ safe) in
    let is : m ≡ n = ok-injective same in rw (← is) le

text_eq-sym : (s t : Text) → text_eq s t ≡ text_eq t s
text_eq-sym s t = elim (Bool-cases (text_eq s t)) [
  | inl same ↦ ground (arith, text_eq_iff s t, text_eq_iff t s)
  | inr differ ↦ ground (arith, text_eq_iff s t, text_eq_iff t s)
]

parse_operation-Fresh :
    (runtime : Runtime) (seen : List Operation) (raw : Json) (op : Operation)
    → parse_operation runtime seen raw ≡ ok op
    → Fresh seen op
unfolding parse_operation
parse_operation-Fresh runtime seen raw op h =
    let (value, _, h1) = >>=-eq-ok (require_json_object raw) _ h in
    let (_, _, h2) = >>=-eq-ok (reject_unknown_keys value operation_keys) _ h1 in
    let (mutation_id, _, h3) = >>=-eq-ok (uuid_field value "mutationId") _ h2 in
    let (_, new_id, h4) =
      >>=-eq-ok
        (require (not (any (λ (o : Operation). text_eq mutation_id o.mutation_id) seen)) _ _) _
        h3 in
    let (type_text, _, h5) = >>=-eq-ok (require_string value "entityType" (between 3 7)) _ h4 in
    let (type, _, h6) = >>=-eq-ok (entity_type_of type_text) _ h5 in
    let (id, _, h7) = >>=-eq-ok (normalize_stable_id (get "entityId" value)) _ h6 in
    let (_, new_entity, h8) =
      >>=-eq-ok
        (require
          (not
            (any (λ (o : Operation). same_type type o.entity_type && text_eq id o.entity_id) seen))
          _ _)
        _ h7 in
    let (name, _, h9) = >>=-eq-ok (require_string value "operation" (between 3 16)) _ h8 in
    let (version, safe, h10) = >>=-eq-ok (non_negative_integer (get "baseVersion" value)) _ h9 in
    let (_, _, h11) = >>=-eq-ok (check_observed_seq (get "observedSeq" value)) _ h10 in
    let (_, _, same) = >>=-eq-ok (check_queued_at runtime value (get "queuedAt" value)) _ h11 in
    let is = ok-injective same in
    rw (← is) (record {
      mutation = not-true _ (require-eq-ok _ _ _ new_id);
      entity = not-true _ (require-eq-ok _ _ _ new_entity);
      bounded = non_negative_integer-bounded (get "baseVersion" value) version safe;
    })

any-same :
    (same : Operation → Operation → Bool) (op new : Operation) (ops : List Operation)
    → any (same op) (new ∷ ops) ≡ false
    → (same op new ≡ false) × (any (same op) ops ≡ false)
any-same same op new ops h = ground arith

same_mutation-sym : (a b : Operation) → same_mutation a b ≡ same_mutation b a
same_mutation-sym a b = text_eq-sym a.mutation_id b.mutation_id

same_type-sym : (a b : EntityType) → same_type a b ≡ same_type b a
same_type-sym session session = refl
same_type-sym session log = refl
same_type-sym log session = refl
same_type-sym log log = refl

same_entity-sym : (a b : Operation) → same_entity a b ≡ same_entity b a
same_entity-sym a b =
    rw (same_type-sym a.entity_type b.entity_type, text_eq-sym a.entity_id b.entity_id) refl

-- Every operation of the list meets none of those before it.
abbrev AllFresh : List Operation → List Operation → Type 0
AllFresh seen [] = Unit
AllFresh seen (op ∷ ops) = Fresh seen op × AllFresh (op ∷ seen) ops

parse_all-AllFresh :
    (runtime : Runtime) (seen : List Operation) (raws : List Json) (ops : List Operation)
    → parse_all runtime seen raws ≡ ok ops
    → AllFresh seen ops × (length ops ≡ length raws)
unfolding parse_all
parse_all-AllFresh runtime seen [] ops h =
    let is : [] ≡ ops = ok-injective h in rw (← is) (tt, refl)
parse_all-AllFresh runtime seen (raw ∷ rest) ops h =
    let (op, one, h1) = >>=-eq-ok (parse_operation runtime seen raw) _ h in
    let (others, more, h2) = >>=-eq-ok (parse_all runtime (op ∷ seen) rest) _ h1 in
    let is : op ∷ others ≡ ops = ok-injective h2 in
    let (fresh, long) = parse_all-AllFresh runtime (op ∷ seen) rest others more in
    rw (← is) ((parse_operation-Fresh runtime seen raw op one, fresh), ap suc long)

-- What stands before a list of fresh operations meets none of them.
abbrev Before : List Operation → List Operation → Type 0
Before [] ops = Unit
Before (x ∷ seen) ops = (Apart same_mutation x ops × Apart same_entity x ops) × Before seen ops

any-false-snoc :
    (same : Operation → Operation → Bool) (x op : Operation) (ops : List Operation)
    → same x op ≡ false
    → any (same x) ops ≡ false
    → any (same x) (op ∷ ops) ≡ false
any-false-snoc same x op ops h k = ground arith

Before-extend :
    (seen : List Operation) (op : Operation) (ops : List Operation)
    → any (same_mutation op) seen ≡ false
    → any (same_entity op) seen ≡ false
    → Before seen ops
    → Before seen (op ∷ ops)
Before-extend [] op ops m e before = tt
Before-extend (x ∷ seen) op ops m e ((apart, apart'), before) =
    let (m1, m2) = any-same same_mutation op x seen m in
    let (e1, e2) = any-same same_entity op x seen e in
    (
      (
        any-false-snoc same_mutation x op ops (same_mutation-sym x op ∙ m1) apart,
        any-false-snoc same_entity x op ops (same_entity-sym x op ∙ e1) apart',
      ),
      Before-extend seen op ops m2 e2 before,
    )

Before-nil : (seen : List Operation) → Before seen []
Before-nil [] = tt
Before-nil (x ∷ seen) = ((refl, refl), Before-nil seen)

AllFresh-Distinct :
    (seen ops : List Operation)
    → AllFresh seen ops
    → Before seen ops × Distinct same_mutation ops × Distinct same_entity ops
AllFresh-Distinct seen [] fresh = (Before-nil seen, tt, tt)
AllFresh-Distinct seen (op ∷ ops) (f, fresh) =
    let (((apart, apart'), before), mutations, entities) =
      AllFresh-Distinct (op ∷ seen) ops fresh in
    (Before-extend seen op ops f.mutation f.entity before, (apart, mutations), (apart', entities))

-- A batch that parseOperations accepts has from 1 to 100 operations, no two of which share a
-- mutation identifier or name the same entity.
pub parse_operations-Distinct :
    (runtime : Runtime) (body : Fields) (ops : List Operation)
    → parse_operations runtime body ≡ ok ops
    → (1 ≤ length ops) × (length ops ≤ 100) × Distinct same_mutation ops × Distinct same_entity ops
unfolding parse_operations
parse_operations-Distinct runtime body ops h =
    let (_, _, h1) = >>=-eq-ok (require (is_one (get "protocolVersion" body)) _ _) _ h in
    let (items, _, h2) = >>=-eq-ok (items_of (get "operations" body)) _ h1 in
    let (_, sized, h3) =
      >>=-eq-ok (require (leb 1 (length items) && leb (length items) 100) _ _) _ h2 in
    let fits = require-eq-ok (leb 1 (length items) && leb (length items) 100) _ _ sized in
    let (fresh, long) = parse_all-AllFresh runtime [] items ops h3 in
    let (_, mutations, entities) = AllFresh-Distinct [] ops fresh in
    let low : 1 ≤ length items = ground (arith, fits) in
    let high : length items ≤ 100 = ground (arith, fits) in
    (rw long low, rw long high, mutations, entities)
