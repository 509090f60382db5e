-- ===== src/DraftRoutes/Names.antt =====
-- The names of the fields of a live draft, in JSON and as properties of a draft.
use open_log_tool_server.Base.{
  Text, String, List, [], ◌∷◌, map, Option, none, some, codes, text_eq, if◌then◌else◌,
}
use open_log_tool_server.LiveDraft.{
  Field, time, controller, callsign, rst_sent, rst_rcvd, qth, device, power, antenna, height,
  remarks, field_key,
}
use open_log_tool_server.Collaboration.Drafts.{DraftFields}

abbrev pub field_name : Field → String
field_name time = "time"
field_name controller = "controller"
field_name callsign = "callsign"
field_name rst_sent = "rstSent"
field_name rst_rcvd = "rstRcvd"
field_name qth = "qth"
field_name device = "device"
field_name power = "power"
field_name antenna = "antenna"
field_name height = "height"
field_name remarks = "remarks"

-- LIVE_DRAFT_FIELDS.
abbrev pub live_draft_fields : List Field
live_draft_fields =
    time ∷ controller ∷ callsign ∷ rst_sent ∷ rst_rcvd ∷ qth ∷ device ∷ power ∷ antenna ∷ height
    ∷ remarks ∷ []

-- The first of these fields that has this name.
unfoldable pub find_named : List Field → Text → Option Field
find_named [] s = none
find_named (field ∷ rest) s =
    if text_eq s (codes (field_name field)) then some field else find_named rest s

unfoldable pub field_named : Text → Option Field
unfolding find_named
field_named s = find_named live_draft_fields s

-- LIVE_DRAFT_HISTORY_REUSE_FIELDS.
abbrev pub reuse_fields : List Field
reuse_fields = qth ∷ device ∷ power ∷ antenna ∷ height ∷ []

abbrev pub reuse_names : List String
reuse_names = map field_name reuse_fields

-- FIELD_COLUMNS: the column of a field, read and written.
abbrev pub column : Field → DraftFields → Option Text
column time row = row.time
column controller row = row.controller
column callsign row = row.callsign
column rst_sent row = row.rst_sent
column rst_rcvd row = row.rst_rcvd
column qth row = row.qth
column device row = row.device
column power row = row.power
column antenna row = row.antenna
column height row = row.height
column remarks row = row.remarks

abbrev pub set_column : Field → Option Text → DraftFields → DraftFields
set_column time value row = record row { time = value }
set_column controller value row = record row { controller = value }
set_column callsign value row = record row { callsign = value }
set_column rst_sent value row = record row { rst_sent = value }
set_column rst_rcvd value row = record row { rst_rcvd = value }
set_column qth value row = record row { qth = value }
set_column device value row = record row { device = value }
set_column power value row = record row { power = value }
set_column antenna value row = record row { antenna = value }
set_column height value row = record row { height = value }
set_column remarks value row = record row { remarks = value }

-- A Record<LiveDraftField, A> with one more property set.
abbrev pub at_field : {A : Type 0} → Field → A → (Field → A) → Field → A
at_field field value values other = if field_key.beq field other then value else values other
