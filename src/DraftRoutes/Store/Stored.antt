-- ===== src/DraftRoutes/Store/Stored.antt =====
-- The field revisions, written as JSON and read back.
use open_log_tool_server.Base.{
  ℕ, ◌≤◌, Bool, true, List, [], ◌∷◌, some, any, ◌≡◌, refl, ap, ◌∙◌, inl, inr, Bool-cases, arith,
}
use open_log_tool_server.Base.Json.{natural, Fields, get}
use open_log_tool_server.Base.Outcome.{ok, >>=-eq-ok}
use open_log_tool_server.Validation.{max_safe_integer}
use open_log_tool_server.LiveDraft.{
  Field, time, controller, callsign, rst_sent, rst_rcvd, qth, device, power, antenna, height,
  remarks, field_key, field_eq_iff,
}
use open_log_tool_server.Collaboration.Drafts.{Draft, Revisions}
use open_log_tool_server.DraftRoutes.Names.{field_name, live_draft_fields, at_field}
use open_log_tool_server.DraftRoutes.Store.{
  revision_fields, json_of_revisions, revision_at, read_revisions, revisions,
}
use mathlib.Core.Path.{fun_ext}

abbrev pub listed : Field → List Field → Bool
listed field fields = any (λ f. field_key.beq f field) fields

pub every-listed : (f : Field) → listed f live_draft_fields ≡ true
every-listed f = ground arith

get-revision_fields :
    (revs : Revisions) (f : Field)
    → get (field_name f) (revision_fields revs live_draft_fields) ≡ some (natural (revs f))
unfolding get
get-revision_fields revs time = refl
get-revision_fields revs controller = refl
get-revision_fields revs callsign = refl
get-revision_fields revs rst_sent = refl
get-revision_fields revs rst_rcvd = refl
get-revision_fields revs qth = refl
get-revision_fields revs device = refl
get-revision_fields revs power = refl
get-revision_fields revs antenna = refl
get-revision_fields revs height = refl
get-revision_fields revs remarks = refl

revision_at-natural : (n m : ℕ) → revision_at (some (natural n)) ≡ ok m → m ≡ n
unfolding revision_at
revision_at-natural n m h = ground arith

-- A field's revision is the one that is read under its name.
read_revisions-at :
    (parsed : Fields) (fields : List Field) (revs : Revisions)
    → read_revisions parsed fields ≡ ok revs
    → (f : Field) → listed f fields ≡ true
    → revision_at (get (field_name f) parsed) ≡ ok (revs f)
unfolding read_revisions
read_revisions-at parsed [] revs h f at = ground arith
read_revisions-at parsed (g ∷ rest) revs h f at =
    let (n, first, h1) = >>=-eq-ok (revision_at (get (field_name g) parsed)) _ h in
    let (others, more, h2) = >>=-eq-ok (read_revisions parsed rest) _ h1 in
    let is : at_field g n others ≡ revs = cc h2 in
    rw (← is) (elim (Bool-cases (field_key.beq g f)) [
      | inl same ↦ let e : g ≡ f = (field_eq_iff g f).0 same in rw same (rw (← e) first)
      | inr other ↦ rw other (read_revisions-at parsed rest others more f (ground arith))
    ])

-- Revisions that are read from a draft are those that were written to it.
pub revisions-written :
    (draft : Draft) (revs read : Revisions)
    → draft.field_revisions ≡ some (json_of_revisions revs)
    → revisions draft ≡ ok read
    → read ≡ revs
unfolding revisions json_of_revisions
revisions-written draft revs read stored h = fun_ext λ f.
    let h' : read_revisions (revision_fields revs live_draft_fields) live_draft_fields ≡ ok read =
      rw stored at h in
    let at_f =
      read_revisions-at (revision_fields revs live_draft_fields) live_draft_fields read h' f
        (every-listed f) in
    revision_at-natural (revs f) (read f) (rw (get-revision_fields revs f) at at_f)

-- Reading ends when every field has a revision.
read_revisions-ok :
    (parsed : Fields) (revs : Revisions)
    → ((f : Field) → revision_at (get (field_name f) parsed) ≡ ok (revs f))
    → (fields : List Field) → (read : Revisions) × (read_revisions parsed fields ≡ ok read)
unfolding read_revisions
read_revisions-ok parsed revs h [] = (_, refl)
read_revisions-ok parsed revs h (f ∷ rest) =
    let (others, more) = read_revisions-ok parsed revs h rest in
    (at_field f (revs f) others, rw (h f, more) refl)

revision_at-bounded : (n : ℕ) → n ≤ max_safe_integer → revision_at (some (natural n)) ≡ ok n
unfolding revision_at
revision_at-bounded n h = ground arith

-- Field revisions that are safe integers are read back from the JSON text that is stored of
-- them: what is read is each field's number.
pub revisions-json_of_revisions :
    (draft : Draft) (revs : Revisions)
    → draft.field_revisions ≡ some (json_of_revisions revs)
    → ((f : Field) → revs f ≤ max_safe_integer)
    → revisions draft ≡ ok revs
unfolding revisions json_of_revisions
revisions-json_of_revisions draft revs stored safe =
    let parsed = revision_fields revs live_draft_fields in
    let each : (f : Field) → revision_at (get (field_name f) parsed) ≡ ok (revs f) =
      λ f. rw (get-revision_fields revs f) (revision_at-bounded (revs f) (safe f)) in
    let (read, h) = read_revisions-ok parsed revs each live_draft_fields in
    let h' : revisions draft ≡ ok read = rw stored h in
    h' ∙ ap ok (revisions-written draft revs read stored h')
