-- ===== src/Retention/Present.antt =====
-- The events that the retention plan asks for are in a log without gaps.
use open_log_tool_server.Base.{
  ℕ, zero, suc, length, ◌+◌, ◌-◌, ◌≤◌, ◌<◌, Text, true, List, [], ◌∷◌, some, any, ◌==◌, is_some,
  ◌≡◌, refl, ap, ◌∙◌, arith,
}
use open_log_tool_server.Base.Table.{select, select_all, delete, changes}
use open_log_tool_server.Collaboration.Rows.{SessionRow, Event, Database}
use open_log_tool_server.Collaboration.Access.{find_session}
use open_log_tool_server.Collaboration.Events.Gapless.{count_up, seqs, of_session, IsGapless}
use open_log_tool_server.Retention.{is_event, in_range}
use open_log_tool_server.Base.Counts.{length-delete}
use open_log_tool_server.Retention.Range.{between, delete-count_up}

is_some-select :
    (id : Text) (k : ℕ) (xs : List Event)
    → is_some (select (is_event id k) xs) ≡ any (λ n. n == k) (seqs (select_all (of_session id) xs))
unfolding select select_all
is_some-select id k [] = refl
is_some-select id k (x ∷ xs) = ground (arith, is_some-select id k xs)

any-count_up : (k m n : ℕ) → m < k → k ≤ m + n → any (λ x. x == k) (count_up m n) ≡ true
any-count_up k m zero low high = ground arith
any-count_up k m (suc n) low high = ground (arith, any-count_up k (m + 1) n)

changes-seqs :
    (id : Text) (m t : ℕ) (xs : List Event)
    → changes (in_range id m t) xs ≡ changes (between m t) (seqs (select_all (of_session id) xs))
unfolding changes select_all
changes-seqs id m t [] = refl
changes-seqs id m t (x ∷ xs) = ground (arith, changes-seqs id m t xs)

length-count_up : (m n : ℕ) → length (count_up m n) ≡ n
length-count_up m zero = refl
length-count_up m (suc n) = ap suc (length-count_up (m + 1) n)

changes-count_up : (m t n : ℕ) → m ≤ t → t ≤ m + n → changes (between m t) (count_up m n) ≡ t - m
changes-count_up m t n low high =
    let total = length-delete (between m t) (count_up m n) in
    let left : length (delete (between m t) (count_up m n)) ≡ m + n - t =
      ap length (delete-count_up m t m n (omega arith) low high) ∙ length-count_up t (m + n - t) in
    let all = length-count_up m n in omega (arith, total, left, all)

module _ (db : Database) (g : IsGapless db) (id : Text) (row : SessionRow)
    (found : find_session db id ≡ some row) where
  -- Each number after the bound, up to the counter, is that of an event.
  pub event-present :
      (k : ℕ)
      → row.min_retained_seq < k
      → k ≤ row.event_seq
      → is_some (select (is_event id k) db.events) ≡ true
  event-present k low high =
      is_some-select id k db.events
      ∙ ap (any (λ n. n == k)) (g.counted id row found)
      ∙ any-count_up k row.min_retained_seq (row.event_seq - row.min_retained_seq) low (omega arith)

  -- The number of events after the bound, up to a number.
  pub changes-present :
      (t : ℕ)
      → row.min_retained_seq ≤ t
      → t ≤ row.event_seq
      → changes (in_range id row.min_retained_seq t) db.events ≡ t - row.min_retained_seq
  changes-present t low high =
      changes-seqs id row.min_retained_seq t db.events
      ∙ ap (changes (between row.min_retained_seq t)) (g.counted id row found)
      ∙ changes-count_up row.min_retained_seq t (row.event_seq - row.min_retained_seq) low
          (omega arith)
