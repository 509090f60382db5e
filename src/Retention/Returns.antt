-- ===== src/Retention/Returns.antt =====
-- The retention plan meets no integrity failure in a database whose logs have no gaps.
use Prim.Native.Nat.{min}
use open_log_tool_server.Base.{
  ℕ, ◌+◌, ◌-◌, ◌≤◌, ◌<◌, Bool, true, false, not, ◌&&◌, Option, none, some, text_eq_iff, ==_iff, ltb,
  ltb→lt, is_some, ◌≡◌, ◌≢◌, ◌⊎◌, inl, inr, refl, ◌∙◌, arith,
}
use open_log_tool_server.Base.Table.{select, changes, select-delete, select-modify_apart}
use open_log_tool_server.Base.Outcome.{Code, done}
use open_log_tool_server.Base.Run.{Run, when, demand, continue}
use open_log_tool_server.Collaboration.Rows.{SessionRow, Event, Database}
use open_log_tool_server.Collaboration.Access.{has_id, find_session}
use open_log_tool_server.Collaboration.Events.Gapless.{IsGapless}
use open_log_tool_server.Retention.{
  Policy, Candidate, Progress, is_event, in_range, is_cursor, with_bound, write_prune, counted,
  more, target_of, first_by_seq, is_old, unsafe_in, look_ahead, advance, prune_up_to, prune_session,
}
use open_log_tool_server.Retention.Range.{changes-select_one, first_by_seq-holds}
use open_log_tool_server.Retention.Pruned.{pruned_database, IsKeyed}
use open_log_tool_server.Retention.Present.{event-present, changes-present}
use open_log_tool_server.Retention.Distinct.{Standing}

demand-true :
    {S : Type 0} (b : Bool) (status : ℕ) (code : Code) (s : S)
    → b ≡ true
    → demand b status code s ≡ done tt s
unfolding demand
demand-true b status code s h = rw h refl

-- A statement under an `if` returns in a state with a property.
when-returns :
    {S : Type 0} (P : S → Type 0) (b : Bool) (run : Run S (Unit {0})) (s : S)
    → (b ≡ true → (s' : S) × (run s ≡ done tt s') × P s')
    → P s
    → (s' : S) × (when b run s ≡ done tt s') × P s'
unfolding when
when-returns P true run s runs here = runs refl
when-returns P false run s runs here = (s, refl, here)

write_prune-returns :
    (c : Candidate) (target : ℕ) (s : Progress)
    → changes (is_cursor c) s.database.sessions ≡ 1
    → changes (in_range c.id c.min_retained_seq target) s.database.events
      ≡ target - c.min_retained_seq
    → write_prune c target s ≡ done tt (record s { database = pruned_database c target s.database })
unfolding write_prune continue demand
write_prune-returns c target s one all_gone =
    let first = (==_iff (changes (is_cursor c) s.database.sessions) 1).1 one in
    let last =
      (==_iff (changes (in_range c.id c.min_retained_seq target) s.database.events)
          (target - c.min_retained_seq)).1
        all_gone in
    rw (first, last) refl

-- What a prune of one Session may do to the database.
abbrev pub Touched : Candidate → Database → Database → Type 0
Touched c db db' = (db' ≡ db) ⊎ ((target : ℕ) × (db' ≡ pruned_database c target db))

-- The Sessions that are not pruned stand as before.
pub Touched-Standing :
    (c d : Candidate) (db db' : Database)
    → Touched c db db'
    → d.id ≢ c.id
    → Standing db d
    → Standing db' d
unfolding find_session
Touched-Standing c d db db' (inl same) apart standing = rw same standing
Touched-Standing c d db db' (inr (target, is)) apart (row, found, holds) =
    let kept =
      select-modify_apart (has_id d.id) (is_cursor c) (with_bound target) db.sessions (λ y. refl)
        (λ y hit. ground (arith, text_eq_iff y.id c.id, text_eq_iff y.id d.id)) in
    (row, rw is (kept ∙ found), holds)

module _ (is_canonical : Event → Bool) (cutoff : ℕ) (policy : Policy) (apply : Bool) where
  look_ahead-returns :
      (c : Candidate) (bound : ℕ) (s : Progress)
      → is_some (select (is_event c.id (bound + 1)) s.database.events) ≡ true
      → (s' : Progress) × (look_ahead is_canonical cutoff c bound s ≡ done tt s')
        × (s'.database ≡ s.database)
  unfolding look_ahead continue demand
  look_ahead-returns c bound s there =
      let next = select (is_event c.id (bound + 1)) s.database.events in
      let (s', runs, same) =
        when-returns (λ (s' : Progress). s'.database ≡ s.database) (is_old is_canonical cutoff next)
          (λ r. done tt (more r)) s (λ old. (more s, refl, refl)) refl in
      (s', rw there runs, same)

  module _ (c : Candidate) (s : Progress) (keyed : IsKeyed s.database) (g : IsGapless s.database)
      (row : SessionRow) (found : find_session s.database c.id ≡ some row)
      (stands : is_cursor c row ≡ true) where
    one_row : changes (is_cursor c) s.database.sessions ≡ 1
    unfolding find_session
    one_row =
        changes-select_one (has_id c.id) (is_cursor c) (λ y h. ground arith) s.database.sessions row
          (keyed c.id) found stands

    counters : (row.min_retained_seq ≡ c.min_retained_seq) × (row.event_seq ≡ c.event_seq)
    counters = (ground arith, ground arith)

    range_count :
        (t : ℕ)
        → c.min_retained_seq ≤ t
        → t ≤ c.event_seq
        → changes (in_range c.id c.min_retained_seq t) s.database.events ≡ t - c.min_retained_seq
    range_count t low high =
        let (min_is, seq_is) = counters in
        rw min_is at (
          changes-present s.database g c.id row found t (omega (arith, min_is, low))
            (omega (arith, seq_is, high)))

    next_present :
        (t : ℕ)
        → c.min_retained_seq ≤ t
        → t < c.event_seq
        → is_some (select (is_event c.id (t + 1)) s.database.events) ≡ true
    next_present t low high =
        let (min_is, seq_is) = counters in
        event-present s.database g c.id row found (t + 1) (omega (arith, min_is, low))
          (omega (arith, seq_is, high))

    writes-return :
        (t : ℕ)
        → c.min_retained_seq ≤ t
        → t ≤ c.event_seq
        → (s' : Progress) × (when apply (write_prune c t) s ≡ done tt s')
          × ((s'.database ≡ s.database) ⊎ (s'.database ≡ pruned_database c t s.database))
    writes-return t low high =
        when-returns
          (λ (s' : Progress).
            (s'.database ≡ s.database) ⊎ (s'.database ≡ pruned_database c t s.database))
          apply (write_prune c t) s
          (λ on. (
            record s { database = pruned_database c t s.database },
            write_prune-returns c t s one_row (range_count t low high),
            inr refl,
          ))
          (inl refl)

    -- The event after the prune is there before it and after it.
    next_kept :
        (t : ℕ) (db : Database)
        → c.min_retained_seq ≤ t
        → t < c.event_seq
        → (db ≡ s.database) ⊎ (db ≡ pruned_database c t s.database)
        → is_some (select (is_event c.id (t + 1)) db.events) ≡ true
    next_kept t db low high (inl same) = rw same (next_present t low high)
    next_kept t db low high (inr is) =
        let kept =
          select-delete (is_event c.id (t + 1)) (in_range c.id c.min_retained_seq t)
            s.database.events (λ y h. ground arith) in
        rw (is, kept) (next_present t low high)

    advance-returns :
        (count_bound budget_bound t : ℕ) (unsafe : Option Event)
        → c.min_retained_seq ≤ t
        → t ≤ c.event_seq
        → (not (is_some unsafe) && ltb budget_bound count_bound ≡ true
            → (budget_bound ≡ t) × (t < c.event_seq))
        → (s' : Progress) × (advance is_canonical cutoff policy apply c count_bound budget_bound
              unsafe t s
            ≡ done tt s')
          × Touched c s.database s'.database
    unfolding advance continue demand
    advance-returns count_bound budget_bound t unsafe low high ahead =
        let n = t - c.min_retained_seq in
        let exact =
          (==_iff (changes (in_range c.id c.min_retained_seq t) s.database.events) n).1
            (range_count t low high) in
        let (s1, runs1, how) = writes-return t low high in
        let touched : Touched c s.database s1.database = elim how [
          | inl same ↦ inl same
          | inr is ↦ inr (t, is)
        ] in
        let (s2, runs2, touched2) =
          when-returns (λ (s' : Progress). Touched c s.database s'.database)
            (not (is_some unsafe) && ltb budget_bound count_bound)
            (look_ahead is_canonical cutoff c budget_bound) (counted n s1)
            (λ on.
              let (bound_is, short) = ahead on in
              let (s', runs, same) =
                look_ahead-returns c budget_bound (counted n s1)
                  (rw bound_is (next_kept t s1.database low short how)) in
              (s', runs, rw same touched))
            touched in
        (s2, rw (exact, runs1) runs2, touched2)

    target-ahead :
        (bound count_bound : ℕ) (unsafe : Option Event)
        → bound ≤ count_bound
        → count_bound ≤ c.event_seq
        → not (is_some unsafe) && ltb bound count_bound ≡ true
        → (bound ≡ target_of unsafe bound) × (target_of unsafe bound < c.event_seq)
    target-ahead bound count_bound none le high on = (refl, ground arith)
    target-ahead bound count_bound (some y) le high on = ground arith

    target-below :
        (bound : ℕ) (unsafe : Option Event)
        → ((y : Event) → unsafe ≡ some y → y.seq ≤ bound)
        → target_of unsafe bound ≤ bound
    target-below bound none inside = omega arith
    target-below bound (some y) inside = let le = inside y refl in omega (arith, le)

    prune_up_to-returns :
        (count_bound : ℕ)
        → count_bound ≤ c.event_seq
        → (s' : Progress) × (prune_up_to is_canonical cutoff policy apply c count_bound s
            ≡ done tt s')
          × Touched c s.database s'.database
    unfolding prune_up_to continue
    prune_up_to-returns count_bound high =
        let bound = min count_bound (c.min_retained_seq + s.remaining) in
        let le : bound ≤ count_bound = omega arith in
        let p = unsafe_in is_canonical cutoff c.id c.min_retained_seq bound in
        let unsafe = first_by_seq p s.database.events in
        let t = target_of unsafe bound in
        let below : t ≤ bound =
          target-below bound unsafe
            (λ y is. let q = first_by_seq-holds p s.database.events y is in ground (arith, q)) in
        when-returns (λ (s' : Progress). Touched c s.database s'.database)
          (ltb c.min_retained_seq t)
          (advance is_canonical cutoff policy apply c count_bound bound unsafe t) s
          (λ on.
            let low = ltb→lt c.min_retained_seq t on in
            advance-returns count_bound bound t unsafe (omega (arith, low))
              (omega (arith, below, le, high)) (target-ahead bound count_bound unsafe le high))
          (inl refl)

    pub prune_session-returns :
        is_some c.first_event_seq ≡ true
        → (s' : Progress) × (prune_session is_canonical cutoff policy apply c s ≡ done tt s')
          × Touched c s.database s'.database
    unfolding prune_session continue demand
    prune_session-returns there =
        let count_bound = c.event_seq - policy.minimum_events in
        let (s', runs, touched) =
          when-returns (λ (s' : Progress). Touched c s.database s'.database)
            (ltb c.min_retained_seq count_bound)
            (prune_up_to is_canonical cutoff policy apply c count_bound) s
            (λ on. prune_up_to-returns count_bound (omega arith)) (inl refl) in
        (s', rw there runs, touched)
