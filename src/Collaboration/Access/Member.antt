-- ===== src/Collaboration/Access/Member.antt =====
-- What a caller may rely on once `requireMembership` has returned.
use open_log_tool_server.Base.{
  Text, true, not, List, Option, none, some, text_eq_iff, is_some, ◌≡◌, refl, ap, ◌∙◌, inl, inr,
  Option-cases, arith,
}
use open_log_tool_server.Base.Table.{select, select-holds}
use open_log_tool_server.Base.Outcome.{ok, require, >>=-eq-ok, require-eq-ok}
use open_log_tool_server.Collaboration.Rows.{Role, SessionRow, MembershipRow, Database}
use open_log_tool_server.Collaboration.Access.{
  has_id, find_session, joins, find_membership_including_removed, role_allowed, check_membership,
  require_membership,
}

-- A member: the Session is there and not deleted, and the membership is of this user in it, not
-- removed, and of an allowed role.
pub record Member (db : Database) (id user : Text) (roles : Option (List Role)) (row : SessionRow)
    (membership : MembershipRow) : Type 0 where
  pub found : find_session db row.id ≡ some row
  pub same_id : row.id ≡ id
  pub kept : row.deleted_at ≡ none
  pub joined : find_membership_including_removed db id user ≡ some membership
  pub of_session : membership.session_id ≡ id
  pub of_user : membership.user_id ≡ user
  pub not_removed : membership.removed_at ≡ none
  pub allowed : role_allowed roles membership.role ≡ true

not-is_some : {A : Type 0} (o : Option A) → not (is_some o) ≡ true → o ≡ none
not-is_some none h = refl
not-is_some (some x) h = ground arith

check_membership-ok :
    (roles : Option (List Role)) (s row : SessionRow) (m membership : MembershipRow)
    → check_membership roles s m ≡ ok (row, membership)
    → (s ≡ row)
      × (m ≡ membership)
      × (m.removed_at ≡ none)
      × (s.deleted_at ≡ none)
      × (role_allowed roles m.role ≡ true)
unfolding check_membership
check_membership-ok roles s row m membership h =
    let (_, present, rest) = >>=-eq-ok (require (not (is_some m.removed_at)) _ _) _ h in
    let (_, live, rest') = >>=-eq-ok (require (not (is_some s.deleted_at)) _ _) _ rest in
    let (_, allowed, same) = >>=-eq-ok (require (role_allowed roles m.role) _ _) _ rest' in
    (
      cc same,
      cc same,
      not-is_some m.removed_at (require-eq-ok _ _ _ present),
      not-is_some s.deleted_at (require-eq-ok _ _ _ live),
      require-eq-ok _ _ _ allowed,
    )

-- When requireMembership returns, the Session is there and not deleted, and the membership is of
-- this user in this Session, not removed, and of an allowed role.
pub require_membership-Member :
    (db : Database) (id user : Text) (roles : Option (List Role)) (row : SessionRow)
    (membership : MembershipRow)
    → require_membership db id user roles ≡ ok (row, membership)
    → Member db id user roles row membership
unfolding require_membership find_session find_membership_including_removed
require_membership-Member db id user roles row membership h =
    elim (Option-cases (select (has_id id) db.sessions)) [
      | inl absent ↦ cc (rw (absent, require_membership) at h)
      | inr (s, found) ↦ elim (Option-cases (select (joins id user) db.members)) [
        | inl outside ↦ cc (rw (found, outside, require_membership) at h)
        | inr (m, joined) ↦
            let (same, same_m, present, live, allowed) =
              check_membership-ok roles s row m membership
                (rw (found, joined, require_membership) at h) in
            let own = (text_eq_iff s.id id).0 (select-holds (has_id id) db.sessions s found) in
            let joins_it = select-holds (joins id user) db.members m joined in
            rw (← same, ← same_m)
              (record {
                found = ap (λ x. select (has_id x) db.sessions) own ∙ found;
                same_id = own;
                kept = live;
                joined = joined;
                of_session = ground (arith, text_eq_iff m.session_id id);
                of_user = ground (arith, text_eq_iff m.user_id user);
                not_removed = present;
                allowed = allowed;
              })
      ]
    ]
