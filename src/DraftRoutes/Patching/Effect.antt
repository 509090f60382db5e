-- ===== src/DraftRoutes/Patching/Effect.antt =====
-- What PATCH /:sessionId/live-draft does to the database.
use open_log_tool_server.Base.{
  ◌+◌, Text, true, false, Option, none, some, text_eq, ◌==◌, ◌≡◌, refl, sym, ap, subst, ◌∙◌, inl,
  inr, Bool-cases,
}
use open_log_tool_server.Base.Table.{select, modify}
use open_log_tool_server.Base.Outcome.{ok, done}
use open_log_tool_server.Base.Run.{continue, continue-eq-done, continue-reading, done-injective}
use open_log_tool_server.Collaboration.Drafts.{Draft, DeviceState, Revisions, DraftDto}
use open_log_tool_server.Collaboration.Rows.{Database}
use open_log_tool_server.Sync.Drafts.{draft_of}
use open_log_tool_server.DraftRoutes.Room.{Room, Draws}
use open_log_tool_server.DraftRoutes.Store.{
  LiveDraftRow, require_draft_access, ensure_draft, read_draft, draft_dto, revisions,
}
use open_log_tool_server.DraftRoutes.Store.Stored.{revisions-written}
use open_log_tool_server.DraftRoutes.Steps.{update_draft, touch_session, at_version}
use open_log_tool_server.DraftRoutes.Steps.Databases.{
  continue-on_database, read_draft-eq-ok, update_draft-eq-done, select-updated,
  select-updated_other, transaction-eq-done, draft_dto-eq-ok,
}
use open_log_tool_server.DraftRoutes.Patching.{
  PatchRequest, Patched, check_updates, apply_updates, confirm_update, after_state,
  patch_transaction, upsert_device_state, is_device, patched_body, patched_row,
}
use open_log_tool_server.DraftRoutes.Patching.Cells.{Applies, cells_of, check_updates-Applies}

-- What an update leaves: `db` is the database in which the draft was read.
pub record Updated (request : PatchRequest) (db db' : Database) (result : Patched) : Type 0 where
  pub current : Draft
  pub found : select (draft_of request.session_id) db.drafts ≡ some current
  pub before : Revisions
  pub read : revisions current ≡ ok before
  pub next : Draft
  pub written : select (draft_of request.session_id) db'.drafts ≡ some next
  pub after : Revisions
  pub reread : revisions next ≡ ok after
  pub refines :
      Applies request.updates (cells_of current.fields before) (cells_of next.fields after)
  pub version : next.version ≡ current.version + 1
  pub same_draft : next.draft_id ≡ current.draft_id
  pub shown :
      (result.draft.fields ≡ next.fields)
      × (result.draft.field_revisions ≡ after)
      × (result.draft.version ≡ next.version)
  pub others :
      (other : Text)
      → text_eq request.session_id other ≡ false
      → select (draft_of other) db'.drafts ≡ select (draft_of other) db.drafts
  pub rest : (db'.logs ≡ db.logs) × (db'.events ≡ db.events) × (db'.processed ≡ db.processed)

some-injective : {A : Type 0} {a b : A} → some a ≡ some b → a ≡ b
some-injective h = cc h

module _ (draws : Draws) (user : Text) (request : PatchRequest) where
  apply_updates-Updated :
      (current : LiveDraftRow) (s s' : Room) (result : Patched)
      → select (draft_of request.session_id) s.database.drafts ≡ some current.draft
      → current.draft.session_id ≡ request.session_id
      → apply_updates draws user request current s ≡ done result s'
      → Updated request s.database s'.database result
  unfolding apply_updates continue upsert_device_state touch_session patched_row
  apply_updates-Updated current s s' result found own h =
      let (before, read, h1) = continue-reading _ s (λ _. revisions current.draft) h in
      let (after, s1, checked, h2) =
        continue-eq-done (check_updates draws user request current 0 request.updates before s) _
          h1 in
      let (refines, kept) =
        check_updates-Applies draws user request current 0 request.updates before after
          current.draft.fields s s1 checked in
      let f : Draft → Draft = patched_row user (draws.at 1) after request.updates in
      let (_, db2, ran, h3) = continue-on_database _ s1 (update_draft f current.draft) h2 in
      let s2 : Room = record s1 { database = touch_session request.session_id (draws.at 1) db2 } in
      let (row, reads, h4) =
        continue-reading _ s2 (λ (r : Room). read_draft r.database request.session_id) h3 in
      let (dto, shows, h5) = continue-reading _ s2 (λ _. draft_dto row) h4 in
      let (written, _) = read_draft-eq-ok s2.database request.session_id row reads in
      let db2_is : db2 ≡ record (s.database) {
        drafts =
            modify (at_version current.draft.session_id current.draft.version) f s.database.drafts;
      } =
        rw kept at (update_draft-eq-done f current.draft s1.database db2 ran) in
      let drafts_are : s2.database.drafts
          ≡ modify (at_version current.draft.session_id current.draft.version) f s.database.drafts =
        ap (λ (d : Database). d.drafts) db2_is in
      let updated : select (draft_of request.session_id) s2.database.drafts
          ≡ some (f current.draft) =
        ap (select (draft_of request.session_id)) drafts_are
        ∙ select-updated f current.draft s.database.drafts request.session_id (λ d. refl) own
            found in
      let next_is : row.draft ≡ f current.draft = some-injective (sym written ∙ updated) in
      let (after', reread, is_dto) = draft_dto-eq-ok row dto shows in
      let same_after : after' ≡ after =
        revisions-written row.draft after after' (ap (λ (d : Draft). d.field_revisions) next_is)
          reread in
      let (is, left) = done-injective h5 in
      subst (λ r. Updated request s.database s'.database r) is
        (subst
          (λ (t : Room). Updated request s.database t.database (patched_body request dto false))
          left
          (record {
            current = current.draft;
            found = found;
            before = before;
            read = read;
            next = row.draft;
            written = written;
            after = after;
            reread = reread ∙ ap ok same_after;
            refines = rw next_is refines;
            version = ap (λ (d : Draft). d.version) next_is;
            same_draft = ap (λ (d : Draft). d.draft_id) next_is;
            shown = (
              ap (λ (d : DraftDto). d.fields) (sym is_dto),
              ap (λ (d : DraftDto). d.field_revisions) (sym is_dto) ∙ same_after,
              ap (λ (d : DraftDto). d.version) (sym is_dto),
            );
            others = λ other apart.
                ap (select (draft_of other)) drafts_are
                ∙ select-updated_other f current.draft s.database.drafts request.session_id
                    (λ d. refl) own other apart;
            rest = (
              ap (λ (d : Database). d.logs) db2_is,
              ap (λ (d : Database). d.events) db2_is,
              ap (λ (d : Database). d.processed) db2_is,
            );
          }))

  -- A device that sends a number for the first time has its updates applied.
  after_state-Updated :
      (current : LiveDraftRow) (state : Option DeviceState) (s s' : Room) (result : Patched)
      → select (draft_of request.session_id) s.database.drafts ≡ some current.draft
      → current.draft.session_id ≡ request.session_id
      → result.replayed ≡ false
      → after_state draws user request current state s ≡ done result s'
      → Updated request s.database s'.database result
  unfolding after_state confirm_update
  after_state-Updated current none s s' result found own new h =
      apply_updates-Updated current s s' result found own h
  after_state-Updated current (some state) s s' result found own new h =
      elim (Bool-cases (state.last_client_seq == request.client_seq)) [
        | inl repeated ↦ elim (Bool-cases (text_eq state.request_hash request.request_hash)) [
          | inl same ↦
              let h' = rw (repeated, same, after_state, confirm_update) at h in
              let (dto, _, last) = continue-reading _ s (λ _. draft_dto current) h' in
              let (is, _) = done-injective last in cc (ap (λ (p : Patched). p.replayed) is)
          | inr other ↦ cc (rw (repeated, other, after_state, confirm_update) at h)
        ]
        | inr fresh ↦ elim (Bool-cases (request.client_seq == state.last_client_seq + 1)) [
          | inl serial ↦
              apply_updates-Updated current s s' result found own
                (rw (fresh, serial, after_state) at h)
          | inr gap ↦ cc (rw (fresh, gap, after_state) at h)
        ]
      ]

  -- A PATCH whose transaction returns and is not a replay refines the abstract draft of eleven
  -- cells, each with a value and a revision: it compares each field's revision with the one that
  -- its update expects, in the order of the updates, writes the value under the next revision,
  -- and counts the draft's version up by one. The draft stays the same draft, the answer shows
  -- what is stored, and no draft of another Session, log, event or stored response is written.
  -- What is compared with is the database after ensureDraft.
  pub patch_transaction-Updated :
      (s s' : Room) (result : Patched)
      → patch_transaction draws user request s ≡ done result s'
      → result.replayed ≡ false
      → Updated request
          (ensure_draft request.session_id (draws.uuid 0) (draws.at 0) s.database)
          s'.database
          result
  unfolding patch_transaction continue
  patch_transaction-Updated s s' result h new =
      let h0 = transaction-eq-done _ s h in
      let (_, _, h1) =
        continue-reading _ s
          (λ (r : Room). require_draft_access r.database request.session_id user true) h0 in
      let s1 : Room = record s {
        database = ensure_draft request.session_id (draws.uuid 0) (draws.at 0) s.database;
      } in
      let (current, reads, h2) =
        continue-reading _ s1 (λ (r : Room). read_draft r.database request.session_id) h1 in
      let (state, _, h3) =
        continue-reading _ s1
          (λ (r : Room).
            ok (
              select (is_device request.session_id user request.device_id)
                r.database.device_states))
          h2 in
      let (found, own) = read_draft-eq-ok s1.database request.session_id current reads in
      after_state-Updated current state s1 s' result found own new h3
