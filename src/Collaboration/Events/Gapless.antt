-- ===== src/Collaboration/Events/Gapless.antt =====
-- The event log of each Session has no gaps, and what `readEventsAfter` reads of it.
use open_log_tool_server.Base.{
  ℕ, zero, suc, ◌+◌, ◌-◌, ◌≤◌, Text, Bool, true, false, List, [], ◌∷◌, ◌++◌, map, some, text_eq,
  text_eq_iff, if◌then◌else◌, ◌≡◌, refl, sym, ap, ◌∙◌, inl, inr, Bool-cases, Option-cases, arith,
}
use open_log_tool_server.Base.Table.{select_all, select_all-append, select-holds}
use open_log_tool_server.Base.Outcome.{done}
use open_log_tool_server.Collaboration.Rows.{SessionRow, Event, Database}
use open_log_tool_server.Collaboration.Access.{has_id, find_session}
use open_log_tool_server.Collaboration.Events.{
  EventInput, next_seq, allocate_seq, append_session_event,
}
use open_log_tool_server.Collaboration.Events.Append.{
  Appended, append-Appended, find_session-allocate_seq, find_session-allocate_seq-none,
}
use mathlib.Core.List.{append-nil}

-- m + 1, m + 2, …, m + n.
abbrev pub count_up : ℕ → ℕ → List ℕ
count_up m zero = []
count_up m (suc n) = (m + 1) ∷ count_up (m + 1) n

abbrev pub seqs : List Event → List ℕ
seqs = map (λ event. event.seq)

abbrev pub of_session : Text → Event → Bool
of_session session event = text_eq event.session_id session

-- The log of a Session holds each number after the retention bound, up to its counter, once and in
-- order.
pub record IsGapless (db : Database) : Type 0 where
  pub bounded :
      (id : Text) (row : SessionRow)
      → find_session db id ≡ some row
      → row.min_retained_seq ≤ row.event_seq
  pub counted :
      (id : Text) (row : SessionRow)
      → find_session db id ≡ some row
      → seqs (select_all (of_session id) db.events)
        ≡ count_up row.min_retained_seq (row.event_seq - row.min_retained_seq)

count_up-suc : (m n : ℕ) → count_up m (suc n) ≡ count_up m n ++ (m + n + 1) ∷ []
count_up-suc m zero = ground arith
count_up-suc m (suc n) =
    let same : m + 1 + n + 1 ≡ m + suc n + 1 = omega arith in
    ap (◌∷◌ (m + 1)) (count_up-suc (m + 1) n ∙ ap (λ k. count_up (m + 1) n ++ k ∷ []) same)

seqs-append : (xs ys : List Event) → seqs (xs ++ ys) ≡ seqs xs ++ seqs ys
seqs-append [] ys = refl
seqs-append (x ∷ xs) ys = rw (seqs-append xs ys)

-- The log of a Session after one more event.
seqs-snoc :
    (id : Text) (events : List Event) (event : Event)
    → seqs (select_all (of_session id) (events ++ event ∷ [])) ≡ (
        if of_session id event
        then seqs (select_all (of_session id) events) ++ event.seq ∷ []
        else seqs (select_all (of_session id) events))
unfolding select_all
seqs-snoc id events event = elim (Bool-cases (of_session id event)) [
  | inl own ↦
      rw (select_all-append (of_session id) events (event ∷ []))
        (rw own (seqs-append (select_all (of_session id) events) (event ∷ [])))
  | inr other ↦
      rw (select_all-append (of_session id) events (event ∷ []))
        (rw other (ap seqs (append-nil (select_all (of_session id) events))))
]

has_id-of_found :
    (db : Database) (id : Text) (row : SessionRow) → find_session db id ≡ some row → row.id ≡ id
unfolding find_session
has_id-of_found db id row h = (text_eq_iff row.id id).0 (select-holds (has_id id) db.sessions row h)

-- A Session of the database after an append is the one before, with its counter one up if the
-- event is its own.
find_session-Appended :
    (input : EventInput) (db : Database) (event : Event) (db' : Database) (id : Text)
    (row' : SessionRow)
    → Appended input db event db'
    → find_session db' id ≡ some row'
    → (row : SessionRow) × (find_session db id ≡ some row)
      × (row' ≡ (if has_id input.session_id row then next_seq input.occurred_at row else row))
find_session-Appended input db event db' id row' a h =
    let h' : find_session (allocate_seq input.session_id input.occurred_at db) id ≡ some row' =
      unfold find_session allocate_seq in rw a.state_is at h in
    elim (Option-cases (find_session db id)) [
      | inl absent ↦
          cc (find_session-allocate_seq-none input.session_id id input.occurred_at db absent)
      | inr (row, found) ↦ (
        row,
        found,
        cc (find_session-allocate_seq input.session_id id input.occurred_at db row found),
      )
    ]

count_up-snoc :
    (m k : ℕ) (xs : List ℕ)
    → m ≤ k
    → xs ≡ count_up m (k - m)
    → xs ++ (k + 1) ∷ [] ≡ count_up m (k + 1 - m)
count_up-snoc m k xs le e =
    let grown : k + 1 - m ≡ suc (k - m) = omega arith in
    let last : k + 1 ≡ m + (k - m) + 1 = omega arith in
    rw (e, grown) (ap (λ n. count_up m (k - m) ++ n ∷ []) last ∙ sym (count_up-suc m (k - m)))

append-counted :
    (input : EventInput) (db : Database) (event : Event) (db' : Database) (id : Text)
    (row' : SessionRow)
    → IsGapless db
    → Appended input db event db'
    → find_session db' id ≡ some row'
    → seqs (select_all (of_session id) db'.events)
      ≡ count_up row'.min_retained_seq (row'.event_seq - row'.min_retained_seq)
append-counted input db event db' id row' v a found' =
    let (row, found, e) = find_session-Appended input db event db' id row' a found' in
    let events : db'.events ≡ db.events ++ event ∷ [] =
      unfold allocate_seq in ap (λ d. d.events) a.state_is in
    let before = v.counted id row found in
    let same_id = has_id-of_found db id row found in
    let session_is : event.session_id ≡ input.session_id = ap (λ x. x.session_id) a.event_is in
    rw (events, seqs-snoc id db.events event)
      (elim (Bool-cases (has_id input.session_id row)) [
        | inl own ↦
            let own_id : row.id ≡ input.session_id = (text_eq_iff row.id input.session_id).0 own in
            let one : id ≡ input.session_id = sym same_id ∙ own_id in
            let same_row : a.row ≡ row = cc (a.found) in
            let seq_is : event.seq ≡ row.event_seq + 1 =
              ap (λ x. x.seq) a.event_is ∙ ap (λ (x : SessionRow). x.event_seq + 1) same_row in
            let mine : of_session id event ≡ true =
              (text_eq_iff event.session_id id).1 (session_is ∙ sym one) in
            rw (mine, e, own, seq_is)
              (count_up-snoc row.min_retained_seq row.event_seq _ (v.bounded id row found) before)
        | inr other ↦
            let apart : of_session id event ≡ false =
              ground
                (arith, text_eq_iff event.session_id id, text_eq_iff row.id input.session_id) in
            rw (apart, e, other) before
      ])

-- An append that returns keeps every Session's log free of gaps: each number after the retention
-- bound, up to the counter, once and in order.
pub append-IsGapless :
    (input : EventInput) (db : Database) (event : Event) (db' : Database)
    → IsGapless db
    → append_session_event input db ≡ done event db'
    → IsGapless db'
append-IsGapless input db event db' v h =
    let a = append-Appended input db event db' h in
    record {
      bounded = λ id row' found'.
          let (row, found, e) = find_session-Appended input db event db' id row' a found' in
          let le : row.min_retained_seq ≤ row.event_seq = v.bounded id row found in ground arith;
      counted = λ id row' found'. append-counted input db event db' id row' v a found';
    }
