-- ===== src/DraftRoutes/Parse/Accepted.antt =====
-- What a list of updates that has been accepted is known to be.
use open_log_tool_server.Base.{
  ℕ, suc, ◌≤◌, Bool, true, false, not, ◌&&◌, List, [], ◌∷◌, Option, some, leb, leb→le, length, any,
  ◌≡◌, refl, ap, subst, arith, inl, inr, Bool-cases, is_some,
}
use open_log_tool_server.Base.Lists.{All}
use open_log_tool_server.Base.Json.{Json, natural, array, get, to_list}
use open_log_tool_server.Base.Runtime.{Runtime}
use open_log_tool_server.Base.Outcome.{ok, require, >>=-eq-ok, require-eq-ok}
use open_log_tool_server.Validation.{
  require_json_object, reject_unknown_keys, non_negative_integer, normalize_stable_id,
  max_safe_integer,
}
use open_log_tool_server.LiveDraft.{Field, field_eq_iff}
use open_log_tool_server.DraftRoutes.Parse.{
  Update, update_keys, updates_field, require_field, canonical_field_value, parse_update,
  parse_each, array_of, parse_updates,
}

-- No update of the list is for a field of another one.
abbrev pub DistinctFields : List Update → Type 0
DistinctFields [] = Unit
DistinctFields (update ∷ rest) =
    (any (updates_field update.field) rest ≡ false) × DistinctFields rest

-- The fields of the list are none of those before.
abbrev Fresh : List Update → List Update → Type 0
Fresh seen [] = Unit
Fresh seen (update ∷ rest) =
    (any (updates_field update.field) seen ≡ false)
    × (update.expected_revision ≤ max_safe_integer)
    × Fresh (update ∷ seen) rest

ok-injective : {A : Type 0} {a b : A} → ok a ≡ ok b → a ≡ b
ok-injective h = cc h

not-true : (b : Bool) → not b ≡ true → b ≡ false
not-true true h = cc h
not-true false h = refl

non_negative_integer-safe :
    (value : Option Json) (n : ℕ) → non_negative_integer value ≡ ok n → n ≤ max_safe_integer
unfolding non_negative_integer
non_negative_integer-safe (some (natural m)) n h =
    let (_, safe, same) = >>=-eq-ok (require (leb m max_safe_integer) _ _) _ h in
    let le : m ≤ max_safe_integer = leb→le m max_safe_integer (require-eq-ok _ _ _ safe) in
    let is : m ≡ n = ok-injective same in rw (← is) le
non_negative_integer-safe _ n h = cc h

parse_update-new :
    (runtime : Runtime) (seen : List Update) (item : Json) (update : Update)
    → parse_update runtime seen item ≡ ok update
    → (any (updates_field update.field) seen ≡ false)
      × (update.expected_revision ≤ max_safe_integer)
unfolding parse_update
parse_update-new runtime seen item update h =
    let (fields, _, h1) = >>=-eq-ok (require_json_object item) _ h in
    let (_, _, h2) = >>=-eq-ok (reject_unknown_keys fields update_keys) _ h1 in
    let (field, _, h3) = >>=-eq-ok (require_field (get "field" fields)) _ h2 in
    let (_, new, h4) = >>=-eq-ok (require (not (any (updates_field field) seen)) _ _) _ h3 in
    let (_, _, h5) = >>=-eq-ok (require (is_some (get "value" fields)) _ _) _ h4 in
    let (value, _, h6) =
      >>=-eq-ok (canonical_field_value runtime field (get "value" fields)) _ h5 in
    let (revision, safe, h7) =
      >>=-eq-ok (non_negative_integer (get "expectedRevision" fields)) _ h6 in
    let (lease, _, same) = >>=-eq-ok (normalize_stable_id (get "leaseId" fields)) _ h7 in
    let is = ok-injective same in
    rw (← is) (
      not-true _ (require-eq-ok _ _ _ new),
      non_negative_integer-safe (get "expectedRevision" fields) revision safe,
    )

parse_each-Fresh :
    (runtime : Runtime) (seen : List Update) (items : List Json) (updates : List Update)
    → parse_each runtime seen items ≡ ok updates
    → Fresh seen updates × (length updates ≡ length items)
unfolding parse_each
parse_each-Fresh runtime seen [] updates h =
    let is : [] ≡ updates = ok-injective h in rw (← is) (tt, refl)
parse_each-Fresh runtime seen (item ∷ rest) updates h =
    let (update, one, h1) = >>=-eq-ok (parse_update runtime seen item) _ h in
    let (others, more, h2) = >>=-eq-ok (parse_each runtime (update ∷ seen) rest) _ h1 in
    let is : update ∷ others ≡ updates = ok-injective h2 in
    let (fresh, long) = parse_each-Fresh runtime (update ∷ seen) rest others more in
    let (new, safe) = parse_update-new runtime seen item update one in
    rw (← is) ((new, safe, fresh), ap suc long)

-- No field that stands before the list is in it.
Fresh-apart :
    (seen updates : List Update) (x : Field)
    → any (updates_field x) seen ≡ true
    → Fresh seen updates
    → any (updates_field x) updates ≡ false
Fresh-apart seen [] x hit fresh = refl
Fresh-apart seen (update ∷ rest) x hit (new, safe, fresh) =
    let later = Fresh-apart (update ∷ seen) rest x (ground (arith, hit)) fresh in
    elim (Bool-cases (updates_field x update)) [
      | inl same ↦
          let is : x ≡ update.field = (field_eq_iff x update.field).0 same in
          let clash : any (updates_field update.field) seen ≡ true =
            subst (λ f. any (updates_field f) seen ≡ true) is hit in
          cc (new, clash)
      | inr other ↦ rw (other, later) refl
    ]

Fresh-DistinctFields :
    (seen updates : List Update)
    → Fresh seen updates
    → DistinctFields updates × All (λ (u : Update). u.expected_revision ≤ max_safe_integer) updates
Fresh-DistinctFields seen [] fresh = (tt, tt)
Fresh-DistinctFields seen (update ∷ rest) (new, safe, fresh) =
    let (distinct, all_safe) = Fresh-DistinctFields (update ∷ seen) rest fresh in
    let mine : updates_field update.field update ≡ true =
      (field_eq_iff update.field update.field).1 refl in
    (
      (Fresh-apart (update ∷ seen) rest update.field (rw mine refl) fresh, distinct),
      (safe, all_safe),
    )

array_of-sized :
    (min max : ℕ) (raw : Option Json) (items : List Json)
    → array_of min max raw ≡ ok items
    → (min ≤ length items) × (length items ≤ max)
array_of-sized min max (some (array xs)) items h =
    let (_, sized, same) =
      >>=-eq-ok (require (leb min (length (to_list xs)) && leb (length (to_list xs)) max) _ _) _
        h in
    let fits = require-eq-ok _ _ _ sized in
    let is : to_list xs ≡ items = ok-injective same in
    rw (← is) (ground (arith, fits), ground (arith, fits))
array_of-sized min max _ items h = cc h

-- Updates that parseUpdates accepts are between 1 and 11, no two of them are for one field, and
-- each expects a revision that is a safe integer.
pub parse_updates-DistinctFields :
    (runtime : Runtime) (raw : Option Json) (updates : List Update)
    → parse_updates runtime raw ≡ ok updates
    → (1 ≤ length updates)
      × (length updates ≤ 11)
      × DistinctFields updates
      × All (λ (u : Update). u.expected_revision ≤ max_safe_integer) updates
unfolding parse_updates
parse_updates-DistinctFields runtime raw updates h =
    let (items, sized, each) = >>=-eq-ok (array_of 1 11 raw) _ h in
    let (low, high) = array_of-sized 1 11 raw items sized in
    let (fresh, long) = parse_each-Fresh runtime [] items updates each in
    let (distinct, safe) = Fresh-DistinctFields [] updates fresh in
    (rw long low, rw long high, distinct, safe)
