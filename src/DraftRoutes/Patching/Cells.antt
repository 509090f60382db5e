-- ===== src/DraftRoutes/Patching/Cells.antt =====
-- A live draft as eleven cells, each with a value and a revision, that a client writes by comparing
-- the revision: the abstract view of PATCH /:sessionId/live-draft.
use open_log_tool_server.Base.{
  ℕ, ◌+◌, Text, false, not, List, [], ◌∷◌, Option, ◌==◌, if◌then◌else◌, ◌≡◌, refl, ap, ◌∙◌, inl,
  inr, Bool-cases, arith,
}
use open_log_tool_server.Base.Outcome.{done}
use open_log_tool_server.Base.Run.{when, when-eq-done, continue-eq-done, continue-throws, returned}
use open_log_tool_server.LiveDraft.{Field, field_key}
use open_log_tool_server.LiveDraft.Locks.{assert_lease}
use open_log_tool_server.Collaboration.Drafts.{DraftFields, Revisions}
use open_log_tool_server.DraftRoutes.Names.{column, set_column, at_field}
use open_log_tool_server.DraftRoutes.Parse.{Update}
use open_log_tool_server.DraftRoutes.Previewing.{lease_of}
use open_log_tool_server.DraftRoutes.Room.{Room, Draws, on_locks}
use open_log_tool_server.DraftRoutes.Steps.Databases.{on_locks-eq-done}
use open_log_tool_server.DraftRoutes.Store.{LiveDraftRow, draft_dto}
use open_log_tool_server.DraftRoutes.Locking.{checking}
use open_log_tool_server.DraftRoutes.Patching.{
  PatchRequest, set_updates, check_updates, field_conflict,
}
use mathlib.Core.Path.{fun_ext}

-- The cells of a draft with these columns and revisions.
abbrev pub cells_of : DraftFields → Revisions → Field → Option Text × ℕ
cells_of fields revs field = (column field fields, revs field)

-- The updates are applied in their order. Each one finds its cell at the revision that it expects,
-- and leaves its value there under the next one.
pub data Applies
    : List Update → (Field → Option Text × ℕ) → (Field → Option Text × ℕ) → Type 0 where
  applied : {cells : Field → Option Text × ℕ} → Applies [] cells cells
  apply :
      {update : Update} {rest : List Update} {cells last : Field → Option Text × ℕ}
      → (cells update.field).1 ≡ update.expected_revision
      → Applies rest (at_field update.field (update.value, update.expected_revision + 1) cells) last
      → Applies (update ∷ rest) cells last

column-set_column :
    (f g : Field) (value : Option Text) (row : DraftFields)
    → column g (set_column f value row) ≡ (if field_key.beq f g then value else column g row)
column-set_column f g value row = ground arith

-- A write to one column and one revision is a write to one cell.
cells_of-set :
    (f : Field) (value : Option Text) (revision : ℕ) (row : DraftFields) (revs : Revisions)
    → cells_of (set_column f value row) (at_field f revision revs)
      ≡ at_field f (value, revision) (cells_of row revs)
cells_of-set f value revision row revs = fun_ext λ g. elim (Bool-cases (field_key.beq f g)) [
  | inl same ↦ rw same (ap (λ v. (v, revision)) (column-set_column f g value row ∙ rw same refl))
  | inr other ↦ rw other (ap (λ v. (v, revs g)) (column-set_column f g value row ∙ rw other refl))
]

field_conflict-throws :
    (current : LiveDraftRow) (s : Room) → returned (field_conflict current s) ≡ false
unfolding field_conflict
field_conflict-throws current s =
    continue-throws (checking (draft_dto current) s) _ (λ dto s1. refl)

module _ (draws : Draws) (user : Text) (request : PatchRequest) where
  -- The loop over the updates checks what the cells are compared with, and writes no row.
  pub check_updates-Applies :
      (current : LiveDraftRow) (n : ℕ) (updates : List Update) (revs last : Revisions)
      (row : DraftFields) (s s' : Room)
      → check_updates draws user request current n updates revs s ≡ done last s'
      → Applies updates (cells_of row revs) (cells_of (set_updates updates row) last)
        × (s'.database ≡ s.database)
  unfolding check_updates set_updates
  check_updates-Applies current n [] revs last row s s' h =
      let same : revs ≡ last = cc h in (rw same applied, cc h)
  check_updates-Applies current n (update ∷ rest) revs last row s s' h =
      let (_, s1, leased, h1) =
        continue-eq-done
          (on_locks
            (assert_lease (draws.at (10 + n))
              (lease_of request.session_id user request.device_id update.field update.lease_id))
            s)
          _ h in
      let (_, s2, compared, h2) =
        continue-eq-done
          (when (not (revs update.field == update.expected_revision)) (field_conflict current) s1) _
          h1 in
      let (hit, same) =
        when-eq-done (not (revs update.field == update.expected_revision)) (field_conflict current)
          s1 (field_conflict-throws current s1) compared in
      let (locks, _, locked) = on_locks-eq-done _ s leased in
      let expected : revs update.field ≡ update.expected_revision = ground (arith, hit) in
      let (others, kept) =
        check_updates-Applies current (n + 1) rest
          (at_field update.field (revs update.field + 1) revs) last
          (set_column update.field update.value row) s2 s' h2 in
      let moved : cells_of (set_column update.field update.value row)
            (at_field update.field (revs update.field + 1) revs)
          ≡ at_field update.field (update.value, update.expected_revision + 1) (cells_of row revs) =
        cells_of-set update.field update.value (revs update.field + 1) row revs
        ∙ ap (λ n. at_field update.field (update.value, n + 1) (cells_of row revs)) expected in
      (
        apply expected (rw moved at others),
        kept ∙ ap (λ (r : Room). r.database) same ∙ ap (λ (r : Room). r.database) locked,
      )
