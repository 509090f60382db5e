-- ===== src/Collaboration/Realtime.antt =====
-- CollaborationRealtimeHub of collaboration/realtime.ts. A connection is known by a number, which
-- stands for the identity of its object. Whether a method of a connection returns or throws is a
-- parameter; a method does not call the hub. The social hub and the metrics, which a call also
-- tells, are left out.
pub mod Expel
pub mod Publish
use open_log_tool_server.Base.{
  ℕ, ◌+◌, Text, Bool, true, false, not, ◌&&◌, List, [], ◌∷◌, ◌++◌, Option, none, some, text_eq,
  ◌==◌, if◌then◌else◌, is_some, any, codes,
}
use open_log_tool_server.Base.Table.{delete, changes}
use open_log_tool_server.Collaboration.Rows.{WsTicket, Event}

pub data Audience : Type 0 where
  member public : Audience

-- RealtimeConnection, without its methods.
pub record Connection : Type 0 where
  pub number : ℕ
  pub audience : Option Audience
  pub session_id : Text
  pub user_id : Option Text
  pub auth_session_id : Option Text
  pub public_share_id : Option Text
  pub ip_address : Text

-- The methods that the hub calls on a connection. A control message is known by its Session.
pub data Message : Type 0 where
  deliver : Event → Message
  deliver_control : Text → Message
  revoke : Text → Message
  membership_changed : Text → ℕ → Message
  session_deleted : Message
  close : Message

-- The set of connections in the order of insertion, the tickets of the database, and the calls that
-- have been made.
pub record Hub : Type 0 where
  pub connections : List Connection
  pub ws_tickets : List WsTicket
  pub calls : List (ℕ × Message)

abbrev pub same : Connection → Connection → Bool
same a b = a.number == b.number

-- `Set.add` and `Set.delete`.
unfoldable pub add : Connection → Hub → Hub
add c h =
    if any (same c) h.connections then h else record h { connections = h.connections ++ c ∷ [] }

unfoldable pub remove : Connection → Hub → Hub
remove c h = record h { connections = delete (same c) h.connections }

unfoldable pub told : Connection → Message → Hub → Hub
told c message h = record h { calls = h.calls ++ (c.number, message) ∷ [] }

abbrev pub is_text : Option Text → Text → Bool
is_text none t = false
is_text (some s) t = text_eq s t

abbrev pub is_member : Option Audience → Bool
is_member (some member) = true
is_member _ = false

module _ (returns : Connection → Message → Bool) where
  -- The loop of `publish`: a connection that fails is removed and closed.
  unfoldable pub publish_to : (Connection → Bool) → Message → List Connection → Hub → Hub
  publish_to p message [] h = h
  publish_to p message (c ∷ cs) h = publish_to p message cs (
      if p c
      then if returns c message
        then told c message h
        else told c close (remove c (told c message h))
      else h)

  unfoldable pub publish : Event → Hub → Hub
  publish event h =
      publish_to (λ c. text_eq c.session_id event.session_id) (deliver event) h.connections h

  unfoldable pub publish_control : Text → Hub → Hub
  publish_control session h =
      publish_to (λ c. is_member c.audience && text_eq c.session_id session)
        (deliver_control session) h.connections h

  -- What is called on a connection that is expelled.
  abbrev pub last_words : Connection → Message → List (ℕ × Message)
  last_words c message =
      if returns c message
      then (c.number, message) ∷ []
      else (c.number, message) ∷ (c.number, close) ∷ []

  -- The loop of the calls that revoke: a connection is removed before it is told.
  unfoldable pub expel : (Connection → Bool) → Message → List Connection → Hub → Hub
  expel p message [] h = h
  expel p message (c ∷ cs) h = expel p message cs (
      if p c
      then record h {
        connections = delete (same c) h.connections;
        calls = h.calls ++ last_words c message;
      }
      else h)

  abbrev pub unused : (WsTicket → Bool) → WsTicket → Bool
  unused p ticket = p ticket && not (is_some ticket.consumed_at)

  -- DELETE FROM ws_tickets WHERE … AND consumed_at IS NULL, and the loop.
  unfoldable pub revoke_where : (WsTicket → Bool) → (Connection → Bool) → Message → Hub → Hub
  revoke_where tickets p message h =
      expel p message h.connections (record h { ws_tickets = delete (unused tickets) h.ws_tickets })

  abbrev pub of_member : Text → Text → WsTicket → Bool
  of_member session user ticket = text_eq ticket.session_id session && text_eq ticket.user_id user

  abbrev pub joined : Text → Text → Connection → Bool
  joined session user c = text_eq c.session_id session && is_text c.user_id user

  unfoldable pub revoke_member : Text → Text → Text → Hub → Hub
  revoke_member session user reason =
      revoke_where (of_member session user) (joined session user) (revoke reason)

  unfoldable pub revoke_user : Text → Text → Hub → Hub
  revoke_user user reason =
      revoke_where (λ ticket. text_eq ticket.user_id user)
        (λ c. is_member c.audience && is_text c.user_id user) (revoke reason)

  unfoldable pub revoke_auth_session : Text → Text → Text → Hub → Hub
  revoke_auth_session user auth_session reason =
      revoke_where
        (λ ticket. text_eq ticket.user_id user && is_text ticket.auth_session_id auth_session)
        (λ c.
          is_member c.audience && is_text c.user_id user && is_text c.auth_session_id auth_session)
        (revoke reason)

  unfoldable pub role_changed : Text → Text → Text → ℕ → Hub → Hub
  role_changed session user role version =
      revoke_where (of_member session user) (joined session user) (membership_changed role version)

  unfoldable pub end_session : Text → Hub → Hub
  end_session session =
      revoke_where (λ ticket. text_eq ticket.session_id session) (λ c. text_eq c.session_id session)
        session_deleted

  unfoldable pub revoke_public_share : Text → Hub → Hub
  revoke_public_share share h =
      expel (λ c. is_text c.public_share_id share) (revoke (codes "PUBLIC_SHARE_REVOKED"))
        h.connections h

  -- `closeAll`: a connection that fails to close is dropped all the same.
  unfoldable pub close_each : List Connection → Hub → Hub
  close_each [] h = h
  close_each (c ∷ cs) h = close_each cs (told c close h)

  unfoldable pub close_all : Hub → Hub
  close_all h = record (close_each h.connections h) { connections = [] }

-- A filter of `connectionCount`: `none` is a field that is left out.
pub record Filter : Type 0 where
  pub audience : Option Audience
  pub session_id : Option Text
  pub user_id : Option Text
  pub auth_session_id : Option Text
  pub public_share_id : Option Text
  pub ip_address : Option Text

abbrev same_audience : Option Audience → Option Audience → Bool
same_audience none a = true
same_audience (some member) (some member) = true
same_audience (some public) (some public) = true
same_audience (some _) _ = false

abbrev wanted : Option Text → Option Text → Bool
wanted none value = true
wanted (some text) value = is_text value text

unfoldable pub connection_count : Filter → Hub → ℕ
connection_count f h =
    changes
      (λ (c : Connection).
        same_audience f.audience c.audience
        && wanted f.session_id (some c.session_id)
        && wanted f.user_id c.user_id
        && wanted f.auth_session_id c.auth_session_id
        && wanted f.public_share_id c.public_share_id
        && wanted f.ip_address (some c.ip_address))
      h.connections
