-- ===== src/Collaboration/Access.antt =====
-- collaboration/access.ts.
pub mod Member
use open_log_tool_server.Base.{
  ℕ, Text, Bool, true, false, not, ◌&&◌, List, [], ◌∷◌, Option, none, some, text_eq, is_some,
  if◌then◌else◌, any,
}
use open_log_tool_server.Base.Table.{select}
use open_log_tool_server.Base.Outcome.{
  Result, ok, err, app_error, not_found, membership_revoked, session_deleted, forbidden, ◌>>=◌,
  ◌>>◌, require,
}
use open_log_tool_server.Collaboration.Rows.{
  Role, owner, editor, viewer, SessionRow, MembershipRow, Database,
}

abbrev pub has_id : Text → SessionRow → Bool
has_id id row = text_eq row.id id

unfoldable pub find_session : Database → Text → Option SessionRow
find_session db id = select (has_id id) db.sessions

-- A membership of this user in this Session.
abbrev pub joins : Text → Text → MembershipRow → Bool
joins session user row = text_eq row.session_id session && text_eq row.user_id user

unfoldable pub find_membership : Database → Text → Text → Option MembershipRow
find_membership db session user =
    select (λ row. joins session user row && not (is_some row.removed_at)) db.members

unfoldable pub find_membership_including_removed : Database → Text → Text → Option MembershipRow
find_membership_including_removed db session user = select (joins session user) db.members

abbrev pub same_role : Role → Role → Bool
same_role owner owner = true
same_role editor editor = true
same_role viewer viewer = true
same_role _ _ = false

-- `!roles || roles.includes(role)`.
abbrev pub role_allowed : Option (List Role) → Role → Bool
role_allowed none role = true
role_allowed (some roles) role = any (λ r. same_role r role) roles

-- The checks of `requireMembership` on the rows that it has found.
unfoldable pub check_membership :
    Option (List Role) → SessionRow → MembershipRow → Result (SessionRow × MembershipRow)
check_membership roles session membership = do
  require (not (is_some membership.removed_at)) 403 membership_revoked
  require (not (is_some session.deleted_at)) 410 session_deleted
  require (role_allowed roles membership.role) 403 forbidden
  ok (session, membership)

abbrev pub both_found :
    Option SessionRow
    → Option MembershipRow
    → (SessionRow → MembershipRow → Result (SessionRow × MembershipRow))
    → Result (SessionRow × MembershipRow)
both_found (some session) (some membership) check = check session membership
both_found _ _ check = err (app_error 404 not_found)

unfoldable pub require_membership :
    Database → Text → Text → Option (List Role) → Result (SessionRow × MembershipRow)
require_membership db session user roles =
    both_found (find_session db session) (find_membership_including_removed db session user)
      (check_membership roles)
