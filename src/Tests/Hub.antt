-- ===== src/Tests/Hub.antt =====
-- The hub's theorems at concrete inputs.
use open_log_tool_server.Base.{ℕ, Text, Bool, [], ◌∷◌, none, some, codes, text_eq, ◌==◌, ◌&&◌, refl}
use open_log_tool_server.Collaboration.Realtime.{
  Connection, member, Message, revoke, Hub, is_text, is_member, of_member, joined,
  membership_changed, session_deleted, revoke_member, revoke_user, revoke_auth_session,
  role_changed, end_session, publish,
}
use open_log_tool_server.Collaboration.Realtime.Expel.{IsSetOf, Expelled, revocations-Expelled}
use open_log_tool_server.Collaboration.Realtime.Publish.{Heard, publish-Heard}
use open_log_tool_server.Tests.Data.{ticket}
use open_log_tool_server.Tests.Collaborations.{first_event}

abbrev device : ℕ → Text → Connection
device number user = record {
  number = number;
  audience = some member;
  session_id = codes "s1";
  user_id = some user;
  auth_session_id = none;
  public_share_id = none;
  ip_address = codes "::1";
}

abbrev hub : Hub
hub = record {
  connections = device 0 (codes "ann") ∷ device 1 (codes "bob") ∷ device 2 (codes "ann") ∷ [];
  ws_tickets = ticket ∷ [];
  calls = [];
}

-- The transport of the last connection is broken.
abbrev returns : Connection → Message → Bool
returns c message = c.number == 1

hub-IsSetOf : IsSetOf hub.connections
hub-IsSetOf = ((refl, (refl, tt)), ((refl, tt), (tt, tt)))

revocations-Expelled_example :
    Expelled returns
      (of_member returns (codes "s1") (codes "ann"))
      (joined returns (codes "s1") (codes "ann"))
      (revoke (codes "LEFT"))
      hub
      (revoke_member returns (codes "s1") (codes "ann") (codes "LEFT") hub)
    × Expelled returns
        (λ ticket. text_eq ticket.user_id (codes "ann"))
        (λ c. is_member c.audience && is_text c.user_id (codes "ann"))
        (revoke (codes "LEFT"))
        hub
        (revoke_user returns (codes "ann") (codes "LEFT") hub)
    × Expelled returns
        (λ ticket.
          text_eq ticket.user_id (codes "ann") && is_text ticket.auth_session_id (codes "f"))
        (λ c.
          is_member c.audience
          && is_text c.user_id (codes "ann")
          && is_text c.auth_session_id (codes "f"))
        (revoke (codes "LEFT"))
        hub
        (revoke_auth_session returns (codes "ann") (codes "f") (codes "LEFT") hub)
    × Expelled returns
        (of_member returns (codes "s1") (codes "ann"))
        (joined returns (codes "s1") (codes "ann"))
        (membership_changed (codes "viewer") 2)
        hub
        (role_changed returns (codes "s1") (codes "ann") (codes "viewer") 2 hub)
    × Expelled returns
        (λ ticket. text_eq ticket.session_id (codes "s1"))
        (λ c. text_eq c.session_id (codes "s1"))
        session_deleted
        hub
        (end_session returns (codes "s1") hub)
revocations-Expelled_example =
    revocations-Expelled returns (codes "s1") (codes "ann") (codes "f") (codes "LEFT")
      (codes "viewer") 2 hub hub-IsSetOf

publish-Heard_example : Heard returns first_event hub (publish returns first_event hub)
publish-Heard_example = publish-Heard returns first_event hub hub-IsSetOf
