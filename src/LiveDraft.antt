-- ===== src/LiveDraft.antt =====
-- collaboration/live-draft.ts: the fields of a live draft, and whether a stored draft has content.
pub mod Locks
use open_log_tool_server.Base.{
  ℕ, Text, Bool, true, false, not, ◌&&◌, ◌||◌, Option, none, some, codes, text_eq, is_some, ◌≡◌,
  ◌↔◌, arith, ==_iff, ◌==◌, String,
}
use open_log_tool_server.Base.Dict.{Eq}

-- LIVE_DRAFT_FIELDS.
pub data Field : Type 0 where
  time controller callsign rst_sent rst_rcvd qth device power antenna height remarks : Field

-- The place of a field in the order of `left.field.localeCompare(right.field)`.
abbrev pub rank : Field → ℕ
rank antenna = 0
rank callsign = 1
rank controller = 2
rank device = 3
rank height = 4
rank power = 5
rank qth = 6
rank remarks = 7
rank rst_rcvd = 8
rank rst_sent = 9
rank time = 10

rank_injective : (a b : Field) → rank a ≡ rank b → a ≡ b
rank_injective a b h = ground arith

pub field_eq_iff : (a b : Field) → ((rank a == rank b) ≡ true) ↔ (a ≡ b)
field_eq_iff a b = ground arith

instance abbrev pub field_key : Eq Field
field_key = record { beq = λ a b. rank a == rank b; beq_iff = field_eq_iff }
