-- ===== src/Sync/Access.antt =====
-- The access check of the sync routes.
use open_log_tool_server.Base.{Text, not, ◌&&◌, Option, some, is_some}
use open_log_tool_server.Base.Outcome.{
  Result, ok, err, app_error, not_found, membership_revoked, ◌>>◌, require,
}
use open_log_tool_server.Collaboration.Rows.{owner, SessionRow, MembershipRow, Database}
use open_log_tool_server.Collaboration.Access.{
  same_role, find_session, find_membership_including_removed,
}
use open_log_tool_server.Sync.Sessions.{is_initializing}

abbrev pub access_found :
    Option SessionRow → Option MembershipRow → Result (SessionRow × MembershipRow)
access_found (some row) (some membership) = do
  require (not (is_some membership.removed_at)) 403 membership_revoked
  require
      (not (
        is_initializing row.status
        && not (is_some row.deleted_at)
        && not (same_role membership.role owner)))
      404 not_found
  ok (row, membership)
access_found _ _ = err (app_error 404 not_found)

unfoldable pub read_session_access_including_deleted :
    Database → Text → Text → Result (SessionRow × MembershipRow)
read_session_access_including_deleted db id user =
    access_found (find_session db id) (find_membership_including_removed db id user)
