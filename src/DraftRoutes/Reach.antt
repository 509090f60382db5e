-- ===== src/DraftRoutes/Reach.antt =====
-- Requests to the live draft routes, one after the other: what no sequence of them takes back.
use open_log_tool_server.Base.{Text, Option}
use open_log_tool_server.Base.Json.{Json, Fields}
use open_log_tool_server.Base.Runtime.{Runtime}
use open_log_tool_server.Base.Outcome.{state}
use open_log_tool_server.DraftRoutes.Room.{Room, Draws}
use open_log_tool_server.DraftRoutes.Locking.{get_live_draft, post_lock, renew_lock, release_lock}
use open_log_tool_server.DraftRoutes.Previewing.{put_history_preview, delete_history_preview}
use open_log_tool_server.DraftRoutes.Selecting.{select_candidate}
use open_log_tool_server.DraftRoutes.Patching.{patch_live_draft}
use open_log_tool_server.DraftRoutes.Ending.{commit_live_draft, discard_live_draft}
use open_log_tool_server.DraftRoutes.Extends.{Extends, Extends-refl, Extends-trans}
use open_log_tool_server.DraftRoutes.Extends.Routes.{
  get_live_draft-Within, post_lock-Within, renew_lock-Within, release_lock-Within,
  put_history_preview-Within, delete_history_preview-Within,
}
use open_log_tool_server.DraftRoutes.Extends.Writes.{
  select_candidate-Within, patch_live_draft-Within, commit_live_draft-Within,
  discard_live_draft-Within,
}

-- One request, with what it draws: the state that it leaves, whether it returns or throws.
pub data Request (s : Room) : Room → Type 0 where
  gets :
      (draws : Draws) (user : Text) (query : Fields) (session : Option Json)
      → Request s (state (get_live_draft draws user query session s))
  locks_field :
      (draws : Draws) (user : Text) (query : Fields) (session : Option Json) (body : Json)
      → Request s (state (post_lock draws user query session body s))
  renews :
      (draws : Draws) (user : Text) (query : Fields) (session lease : Option Json) (body : Json)
      → Request s (state (renew_lock draws user query session lease body s))
  releases :
      (draws : Draws) (user : Text) (query : Fields) (session lease : Option Json) (body : Json)
      → Request s (state (release_lock draws user query session lease body s))
  puts :
      (runtime : Runtime) (draws : Draws) (user : Text) (query : Fields) (session : Option Json)
      (body : Json)
      → Request s (state (put_history_preview runtime draws user query session body s))
  deletes :
      (draws : Draws) (user : Text) (query : Fields) (session : Option Json) (body : Json)
      → Request s (state (delete_history_preview draws user query session body s))
  selects :
      (runtime : Runtime) (draws : Draws) (user : Text) (query : Fields)
      (session preview : Option Json) (key : Option Text) (body : Json)
      → Request s (state (select_candidate draws user runtime query session preview key body s))
  patches :
      (runtime : Runtime) (draws : Draws) (user : Text) (query : Fields) (session : Option Json)
      (prefer : Option Text) (body : Json)
      → Request s (state (patch_live_draft runtime draws user query session prefer body s))
  commits :
      (runtime : Runtime) (draws : Draws) (user : Text) (query : Fields) (session : Option Json)
      (key : Option Text) (body : Json)
      → Request s (state (commit_live_draft runtime query session key body draws user s))
  discards :
      (runtime : Runtime) (draws : Draws) (user : Text) (query : Fields) (session : Option Json)
      (key : Option Text) (body : Json)
      → Request s (state (discard_live_draft runtime query session key body draws user s))

-- Any number of requests.
pub data Requests (s : Room) : Room → Type 0 where
  none_yet : Requests s s
  then_one : {mid last : Room} → Requests s mid → Request mid last → Requests s last

Request-Extends : {s s' : Room} → Request s s' → Extends s.database s'.database
Request-Extends {s} (gets draws user query session) =
    (get_live_draft-Within draws user query session).extends s
Request-Extends {s} (locks_field draws user query session body) =
    (post_lock-Within draws user query session body).extends s
Request-Extends {s} (renews draws user query session lease body) =
    (renew_lock-Within draws user query session lease body).extends s
Request-Extends {s} (releases draws user query session lease body) =
    (release_lock-Within draws user query session lease body).extends s
Request-Extends {s} (puts runtime draws user query session body) =
    (put_history_preview-Within draws user runtime query session body).extends s
Request-Extends {s} (deletes draws user query session body) =
    (delete_history_preview-Within draws user query session body).extends s
Request-Extends {s} (selects runtime draws user query session preview key body) =
    (select_candidate-Within draws user runtime query session preview key body).extends s
Request-Extends {s} (patches runtime draws user query session prefer body) =
    (patch_live_draft-Within runtime draws user query session prefer body).extends s
Request-Extends {s} (commits runtime draws user query session key body) =
    (commit_live_draft-Within runtime query session key body draws user).extends s
Request-Extends {s} (discards runtime draws user query session key body) =
    (discard_live_draft-Within runtime query session key body draws user).extends s

-- After any sequence of requests to the ten live draft routes, each of which may return or
-- throw, a Session's draft that was there is still there and its version has not gone down, the
-- tables of logs and of events have at most grown at their ends, and every stored response is
-- still stored.
pub Requests-Extends : {s s' : Room} → Requests s s' → Extends s.database s'.database
Requests-Extends {s} none_yet = Extends-refl s.database
Requests-Extends (then_one before one) =
    Extends-trans (Requests-Extends before) (Request-Extends one)
