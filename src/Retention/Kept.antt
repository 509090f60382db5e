-- ===== src/Retention/Kept.antt =====
-- What the retention plan keeps, from one state of its loop to the next.
use open_log_tool_server.Base.{
  ℕ, ◌+◌, ◌≤◌, Text, Bool, true, ◌&&◌, [], some, ◌≡◌, inl, inr, refl, ap, ◌∙◌, arith,
}
use open_log_tool_server.Base.Table.{select_all, changes}
use open_log_tool_server.Collaboration.Rows.{SessionRow, Event, Database}
use open_log_tool_server.Collaboration.Access.{has_id, find_session}
use open_log_tool_server.Collaboration.Events.Gapless.{seqs, IsGapless}
use open_log_tool_server.Retention.{Policy, Candidate, in_range, is_cursor, with_bound}
use open_log_tool_server.Retention.Range.{
  changes-modify, seqs-prune, select_all-other, select_all-delete,
}
use open_log_tool_server.Retention.Pruned.{pruned_database, IsKeyed, Advanced, pruned-row}

-- The rows of `sessions` change at most in their bounds, gap-free logs stay so, and no event is
-- deleted that is not provably old.
pub record Kept (young : Event → Bool) (policy : Policy) (db db' : Database) : Type 0 where
  pub keyed : IsKeyed db → IsKeyed db'
  pub gapless : IsKeyed db → IsGapless db → IsGapless db'
  pub rows :
      IsKeyed db
      → (id : Text) (row' : SessionRow) → find_session db' id ≡ some row'
      → (row : SessionRow) × (find_session db id ≡ some row) × Advanced policy row row'
  pub young_events : select_all young db'.events ≡ select_all young db.events
  pub rest : db' ≡ record db { sessions = db'.sessions; events = db'.events }

module _ (young : Event → Bool) (policy : Policy) where
  Advanced-trans :
      {a b c : SessionRow} → Advanced policy a b → Advanced policy b c → Advanced policy a c
  Advanced-trans {a} {b} {c} (e, le, low) (e', le', low') =
      let seq : b.event_seq ≡ a.event_seq = ap (λ r. r.event_seq) e in
      (
        e' ∙ ap (with_bound c.min_retained_seq) e,
        omega (arith, le, le'),
        elim low' [
          | inl same' ↦ elim low [
            | inl same ↦ inl (same' ∙ same)
            | inr bound ↦ inr (rw same' bound)
          ]
          | inr bound' ↦ inr (rw seq at bound')
        ],
      )

  pub Kept-refl : (db : Database) → Kept young policy db db
  Kept-refl db = record {
    keyed = λ k. k;
    gapless = λ k g. g;
    rows = λ k id row' found. (row', found, (refl, omega arith, inl refl));
    young_events = refl;
    rest = refl;
  }

  pub Kept-trans :
      {a b c : Database} → Kept young policy a b → Kept young policy b c → Kept young policy a c
  Kept-trans {a} {b} {c} x y = record {
    keyed = λ k. y.keyed (x.keyed k);
    gapless = λ k g. y.gapless (x.keyed k) (x.gapless k g);
    rows = λ k id row' found.
        let (row1, found1, moved1) = y.rows (x.keyed k) id row' found in
        let (row, found0, moved0) = x.rows k id row1 found1 in
        (row, found0, Advanced-trans moved0 moved1);
    young_events = y.young_events ∙ x.young_events;
    rest =
        y.rest
        ∙ ap (λ (d : Database). record d { sessions = c.sessions; events = c.events }) x.rest;
  }

module _ (c : Candidate) (target : ℕ) (db : Database) (one : changes (is_cursor c) db.sessions ≡ 1)
    (low : c.min_retained_seq ≤ target) (high : target ≤ c.event_seq) where
  cursor-fields :
      (row : SessionRow)
      → is_cursor c row ≡ true
      → (row.min_retained_seq ≡ c.min_retained_seq) × (row.event_seq ≡ c.event_seq)
  cursor-fields row h = (ground arith, ground arith)

  pruned-IsGapless : IsKeyed db → IsGapless db → IsGapless (pruned_database c target db)
  pruned-IsGapless keyed g = record {
    bounded = λ id row' found.
        let (row, at, how) = pruned-row c target db keyed one id row' found in
        elim how [
          | inl (own, hit, is) ↦
              let (min_is, seq_is) = cursor-fields row hit in rw (is, seq_is) high
          | inr (apart, is) ↦ rw is (g.bounded id row at)
        ];
    counted = λ id row' found.
        let (row, at, how) = pruned-row c target db keyed one id row' found in
        elim how [
          | inl (own, hit, is) ↦
              let (min_is, seq_is) = cursor-fields row hit in
              let before = rw (min_is, seq_is) at (g.counted id row at) in
              rw (is, seq_is, own)
                (seqs-prune c.id c.min_retained_seq target c.event_seq db.events low high
                  (rw own at before))
          | inr (apart, is) ↦ rw is (
              ap seqs (select_all-other c.id id c.min_retained_seq target db.events apart)
              ∙ g.counted id row at)
        ];
  }

  pub pruned-Kept :
      (young : Event → Bool) (policy : Policy)
      → target + policy.minimum_events ≤ c.event_seq
      → select_all (λ x. in_range c.id c.min_retained_seq target x && young x) db.events ≡ []
      → Kept young policy db (pruned_database c target db)
  pruned-Kept young policy left old = record {
    keyed = λ keyed id.
        rw (changes-modify (has_id id) (is_cursor c) (with_bound target) db.sessions (λ y. refl))
          (keyed id);
    gapless = pruned-IsGapless;
    rows = λ keyed id row' found.
        let (row, at, how) = pruned-row c target db keyed one id row' found in
        elim how [
          | inl (own, hit, is) ↦
              let (min_is, seq_is) = cursor-fields row hit in
              (row, at, rw is (refl, rw min_is low, inr (rw seq_is left)))
          | inr (apart, is) ↦ (row, at, rw is (refl, omega arith, inl refl))
        ];
    young_events = select_all-delete young (in_range c.id c.min_retained_seq target) db.events old;
    rest = refl;
  }
