-- ===== src/DraftRoutes/Previews.antt =====
-- LiveDraftHistoryPreviewManager of collaboration/live-draft-history-preview.ts. Time is an argument
-- of each call; `expiresAt` is the number of its milliseconds. The text of `randomUUID()` is an
-- argument.
pub mod Shown
use open_log_tool_server.Base.{
  ℕ, ◌+◌, Text, Bool, true, List, Option, none, some, text_eq, leb, if◌then◌else◌,
}
use open_log_tool_server.Base.Dict.{lookup, put, erase, text_key}
use open_log_tool_server.DraftRoutes.Parse.{Candidate}

-- LIVE_DRAFT_HISTORY_PREVIEW_TTL_MS.
abbrev pub preview_ttl_ms : ℕ
preview_ttl_ms = 20000

-- LiveDraftHistoryPreview.
pub record Preview : Type 0 where
  pub preview_id : Text
  pub draft_id : Text
  pub device_id : Text
  pub callsign : Text
  pub actor_user_id : Text
  pub actor_username : Text
  pub expires_at : ℕ
  pub candidates : List Candidate

abbrev pub Previews : Type 0
Previews = List (Text × Preview)

-- The preview that is stored for a Session; one that has expired is deleted.
unfoldable pub current_preview : ℕ → Text → Previews → Option Preview × Previews
current_preview now session m = elim (lookup session m) [
  | none ↦ (none, m)
  | some preview ↦ if leb preview.expires_at now then (none, erase session m) else (some preview, m)
]

-- The argument of `publish`.
pub record PreviewInput : Type 0 where
  pub session_id : Text
  pub draft_id : Text
  pub device_id : Text
  pub callsign : Text
  pub actor_user_id : Text
  pub actor_username : Text
  pub candidates : List Candidate

abbrev pub preview_of : ℕ → Text → PreviewInput → Preview
preview_of now uuid input = record {
  preview_id = uuid;
  draft_id = input.draft_id;
  device_id = input.device_id;
  callsign = input.callsign;
  actor_user_id = input.actor_user_id;
  actor_username = input.actor_username;
  expires_at = now + preview_ttl_ms;
  candidates = input.candidates;
}

unfoldable pub publish_preview : ℕ → Text → PreviewInput → Previews → Preview × Previews
publish_preview now uuid input m =
    (preview_of now uuid input, put input.session_id (preview_of now uuid input) m)

-- `previewId === undefined || preview.previewId === previewId`.
abbrev pub is_preview : Option Text → Preview → Bool
is_preview none preview = true
is_preview (some id) preview = text_eq preview.preview_id id

unfoldable pub clear_preview : ℕ → Text → Option Text → Previews → Option Preview × Previews
unfolding current_preview
clear_preview now session id m =
    let (current, kept) = current_preview now session m in
    elim current [
      | none ↦ (none, kept)
      | some preview ↦
          if is_preview id preview then (some preview, erase session kept) else (none, kept)
    ]
