-- ===== src/DraftRoutes/Previews/Shown.antt =====
-- How long a history preview is shown, and to whom.
use open_log_tool_server.Base.{
  ℕ, ◌+◌, Text, true, false, Option, none, some, leb, ltb, if◌then◌else◌, ◌≡◌, ◌≢◌, refl, sym, ap,
  ◌∙◌, inl, inr, Bool-cases, Option-cases, arith,
}
use open_log_tool_server.Base.Dict.{text_key, lookup, lookup-put_self, lookup-put_ne}
use open_log_tool_server.DraftRoutes.Previews.{
  Preview, Previews, PreviewInput, preview_of, current_preview, publish_preview,
}

-- What `get` returns is read off the entry of the Session.
abbrev live_at : ℕ → Option Preview → Option Preview
live_at now none = none
live_at now (some preview) = if leb preview.expires_at now then none else some preview

current_preview-live_at :
    (now : ℕ) (session : Text) (m : Previews)
    → (current_preview now session m).0 ≡ live_at now (lookup session m)
unfolding current_preview
current_preview-live_at now session m = elim (Option-cases (lookup session m)) [
  | inl absent ↦ rw (absent, current_preview) refl
  | inr (preview, at) ↦ elim (Bool-cases (leb preview.expires_at now)) [
    | inl old ↦ rw (at, current_preview) (rw old refl)
    | inr young ↦ rw (at, current_preview) (rw young refl)
  ]
]

-- A preview that is published is what get returns of its Session until 20 seconds have passed,
-- and nothing from then on; what get returns of every other Session is as it was.
pub current_preview-publish :
    (now later : ℕ) (uuid : Text) (input : PreviewInput) (m : Previews)
    → ((current_preview later input.session_id (publish_preview now uuid input m).1).0
        ≡ (if ltb later (now + 20000) then some (preview_of now uuid input) else none))
      × ((other : Text)
          → input.session_id ≢ other
          → (current_preview later other (publish_preview now uuid input m).1).0
            ≡ (current_preview later other m).0)
unfolding publish_preview
current_preview-publish now later uuid input m = (
  current_preview-live_at later input.session_id _
      ∙ ap (live_at later) (lookup-put_self input.session_id (preview_of now uuid input) m)
      ∙ elim (Bool-cases (ltb later (now + 20000))) [
        | inl young ↦
            let alive : leb (now + 20000) later ≡ false = ground arith in rw (young, alive) refl
        | inr old ↦ let over : leb (now + 20000) later ≡ true = ground arith in rw (old, over) refl
      ],
  λ other apart.
      current_preview-live_at later other _
      ∙ ap (live_at later)
          (lookup-put_ne input.session_id other (preview_of now uuid input) m apart)
      ∙ sym (current_preview-live_at later other m),
)
