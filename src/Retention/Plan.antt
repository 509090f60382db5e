-- ===== src/Retention/Plan.antt =====
-- What a run of the retention plan does, when it returns.
use Prim.Native.Nat.{min}
use open_log_tool_server.Base.{
  ℕ, length, ◌+◌, ◌-◌, ◌≤◌, ◌<◌, Bool, true, false, not, ◌&&◌, List, [], ◌∷◌, Option, none, some,
  ltb, ltb→lt, take, ◌==◌, ◌≡◌, inl, inr, refl, ◌∙◌, Bool-cases, arith,
}
use open_log_tool_server.Base.Table.{select_all}
use open_log_tool_server.Base.Outcome.{done}
use open_log_tool_server.Base.Run.{
  when, continue, continue-eq-done, continue-demand, done-injective,
}
use open_log_tool_server.Collaboration.Rows.{Event, Database}
use open_log_tool_server.Retention.{
  Policy, PlanResult, Candidate, Progress, in_range, write_prune, counted, more, target_of,
  first_by_seq, provably_old, unsafe_in, look_ahead, candidates, advance, prune_up_to,
  prune_session, prune_each, start, execute_retention_plan,
}
use open_log_tool_server.Base.Counts.{length-delete}
use open_log_tool_server.Retention.Range.{
  AtMost, first_by_seq-AtMost, below-first, first_by_seq-holds,
}
use open_log_tool_server.Retention.Pruned.{when-cases, write_prune-eq-done}
use open_log_tool_server.Retention.Kept.{Kept, Kept-refl, Kept-trans, pruned-Kept}

-- An event that the plan may not delete.
abbrev pub is_young : (Event → Bool) → ℕ → Event → Bool
is_young is_canonical cutoff event = not (provably_old is_canonical cutoff event)

module _ (is_canonical : Event → Bool) (cutoff : ℕ) (policy : Policy) (apply : Bool) where
  abbrev young : Event → Bool
  young = is_young is_canonical cutoff

  -- From one state of the loop to a later one.
  pub record Runs (s s' : Progress) : Type 0 where
    pub kept : Kept young policy s.database s'.database
    budget : s'.remaining + s'.event_count ≡ s.remaining + s.event_count
    gone :
        apply ≡ true
        → s'.event_count + length s'.database.events ≡ s.event_count + length s.database.events
    preview : apply ≡ false → s'.database ≡ s.database

  Runs-refl : (s : Progress) → Runs s s
  Runs-refl s = record {
    kept = Kept-refl young policy s.database;
    budget = refl;
    gone = λ on. refl;
    preview = λ off. refl;
  }

  Runs-trans : {a b c : Progress} → Runs a b → Runs b c → Runs a c
  Runs-trans x y = record {
    kept = Kept-trans young policy x.kept y.kept;
    budget = y.budget ∙ x.budget;
    gone = λ on. y.gone on ∙ x.gone on;
    preview = λ off. y.preview off ∙ x.preview off;
  }

  more-Runs : (s : Progress) → Runs s (more s)
  more-Runs s = record {
    kept = Kept-refl young policy s.database;
    budget = refl;
    gone = λ on. refl;
    preview = λ off. refl;
  }

  look_ahead-Runs :
      (c : Candidate) (bound : ℕ) (s s' : Progress) {u : Unit {0}}
      → look_ahead is_canonical cutoff c bound s ≡ done u s'
      → Runs s s'
  unfolding look_ahead continue
  look_ahead-Runs c bound s s' h =
      let (there, h1) = continue-demand _ s _ _ _ h in
      elim (when-cases _ _ s h1) [
        | inl (old, last) ↦ let (one, same) = done-injective last in rw (← same) (more-Runs s)
        | inr (new, same) ↦ rw same (Runs-refl s)
      ]

  -- The numbers of a prune and the events that it deletes.
  record Target (c : Candidate) (target : ℕ) (s : Progress) : Type 0 where
    some_gone : c.min_retained_seq < target
    left : target + policy.minimum_events ≤ c.event_seq
    within : target ≤ c.min_retained_seq + s.remaining
    old :
        select_all (λ x. in_range c.id c.min_retained_seq target x && young x) s.database.events
        ≡ []

  written-Runs :
      (c : Candidate) (target : ℕ) (s s' : Progress) {u : Unit {0}}
      → Target c target s
      → when apply (write_prune c target) s ≡ done u s'
      → Runs s (counted (target - c.min_retained_seq) s')
  written-Runs c target s s' t h =
      let le : target - c.min_retained_seq ≤ s.remaining = omega (arith, t.some_gone, t.within) in
      elim (when-cases apply (write_prune c target) s h) [
        | inl (on, writes) ↦
            let (one, all_gone, same) = write_prune-eq-done c target s s' writes in
            let fewer = length-delete (in_range c.id c.min_retained_seq target) s.database.events in
            rw same (record {
              kept =
                  pruned-Kept c target s.database one (omega (arith, t.some_gone))
                    (omega (arith, t.left)) young policy t.left t.old;
              budget = omega (arith, le);
              gone = λ on. omega (arith, fewer, all_gone);
              preview = λ off. cc;
            })
        | inr (off, same) ↦ rw same (record {
          kept = Kept-refl young policy s.database;
          budget = omega (arith, le);
          gone = λ on. cc;
          preview = λ off. refl;
        })
      ]

  advance-Runs :
      (c : Candidate) (count_bound budget_bound target : ℕ) (unsafe : Option Event)
      (s s' : Progress) {u : Unit {0}}
      → Target c target s
      → advance is_canonical cutoff policy apply c count_bound budget_bound unsafe target s
        ≡ done u s'
      → Runs s s'
  unfolding advance continue
  advance-Runs c count_bound budget_bound target unsafe s s' t h =
      let (checked, h1) = continue-demand _ s _ _ _ h in
      let (_, s1, writes, h2) = continue-eq-done (when apply (write_prune c target) s) _ h1 in
      let s2 = counted (target - c.min_retained_seq) s1 in
      let first = written-Runs c target s s1 t writes in
      elim (when-cases _ (look_ahead is_canonical cutoff c budget_bound) s2 h2) [
        | inl (on, looks) ↦ Runs-trans first (look_ahead-Runs c budget_bound s2 s' looks)
        | inr (off, same) ↦ rw same first
      ]

  -- The target is such that only old events come before it, and no more of them than the budget.
  target_of-Target :
      (c : Candidate) (bound : ℕ) (unsafe : Option Event) (s : Progress)
      → AtMost unsafe (
          select_all
            (unsafe_in is_canonical cutoff c.id c.min_retained_seq bound)
            s.database.events)
      → ((y : Event) → unsafe ≡ some y → (c.min_retained_seq < y.seq) × (y.seq ≤ bound))
      → bound + policy.minimum_events ≤ c.event_seq
      → bound ≤ c.min_retained_seq + s.remaining
      → c.min_retained_seq < target_of unsafe bound
      → Target c (target_of unsafe bound) s
  target_of-Target c bound none s least inside left within some_gone = record {
    some_gone = some_gone;
    left = left;
    within = within;
    old = least;
  }
  target_of-Target c bound (some y) s least inside left within some_gone =
      let (low, high) = inside y refl in
      record {
        some_gone = some_gone;
        left = omega (arith, left, high);
        within = omega (arith, within, high);
        old = below-first young c.id c.min_retained_seq bound y s.database.events least high low;
      }

  prune_up_to-Runs :
      (c : Candidate) (count_bound : ℕ) (s s' : Progress) {u : Unit {0}}
      → count_bound + policy.minimum_events ≤ c.event_seq
      → prune_up_to is_canonical cutoff policy apply c count_bound s ≡ done u s'
      → Runs s s'
  unfolding prune_up_to continue
  prune_up_to-Runs c count_bound s s' left h =
      let bound = min count_bound (c.min_retained_seq + s.remaining) in
      let p = unsafe_in is_canonical cutoff c.id c.min_retained_seq bound in
      let unsafe = first_by_seq p s.database.events in
      let target = target_of unsafe bound in
      elim (when-cases (ltb c.min_retained_seq target) _ s h) [
        | inl (some_gone, advances) ↦
            let t : Target c target s =
              target_of-Target c bound unsafe s (first_by_seq-AtMost p s.database.events)
                (λ y is.
                  let q = first_by_seq-holds p s.database.events y is in
                  (ground (arith, q), ground (arith, q)))
                (omega (arith, left)) (omega arith) (ltb→lt c.min_retained_seq target some_gone) in
            advance-Runs c count_bound bound target unsafe s s' t advances
        | inr (off, same) ↦ rw same (Runs-refl s)
      ]

  pub prune_session-Runs :
      (c : Candidate) (s s' : Progress) {u : Unit {0}}
      → prune_session is_canonical cutoff policy apply c s ≡ done u s'
      → Runs s s'
  unfolding prune_session continue
  prune_session-Runs c s s' h =
      let count_bound = c.event_seq - policy.minimum_events in
      let (there, h1) = continue-demand _ s _ _ _ h in
      elim (when-cases (ltb c.min_retained_seq count_bound) _ s h1) [
        | inl (on, prunes) ↦
            let left : count_bound + policy.minimum_events ≤ c.event_seq = ground arith in
            prune_up_to-Runs c count_bound s s' left prunes
        | inr (off, same) ↦ rw same (Runs-refl s)
      ]

  prune_each-Runs :
      (cs : List Candidate) (s s' : Progress) {u : Unit {0}}
      → prune_each is_canonical cutoff policy apply cs s ≡ done u s'
      → Runs s s'
  unfolding prune_each continue
  prune_each-Runs [] s s' h = let (_, same) = done-injective h in rw (← same) (Runs-refl s)
  prune_each-Runs (c ∷ cs) s s' h = elim (Bool-cases (s.remaining == 0)) [
    | inl out ↦ let (_, same) = done-injective (rw out at h) in rw (← same) (more-Runs s)
    | inr left ↦
        let (_, s1, first, last) = continue-eq-done _ _ (rw left at h) in
        Runs-trans (prune_session-Runs c s s1 first) (prune_each-Runs cs s1 s' last)
  ]

-- What the whole plan has done when it returns.
pub record Retained (is_canonical : Event → Bool) (cutoff : ℕ) (policy : Policy) (apply : Bool)
    (db : Database) (result : PlanResult) (db' : Database) : Type 0 where
  pub kept : Kept (is_young is_canonical cutoff) policy db db'
  pub within : result.event_count ≤ policy.max_events
  pub gone : apply ≡ true → result.event_count + length db'.events ≡ length db.events
  pub preview : apply ≡ false → db' ≡ db

-- When executeRetentionPlan returns, no event has been deleted that is not provably older than
-- the cutoff; where no two Sessions have one identifier, no row of a Session has changed but in
-- its bound, which has stayed or has gone up so as to leave at least the minimum of events, and
-- logs free of gaps have stayed so; no other table has changed; the events that it counts are at
-- most the budget, and are as many as a prune has deleted; and a preview has changed nothing.
pub execute_retention_plan-Retained :
    (is_canonical : Event → Bool) (cutoff : ℕ) (policy : Policy) (apply : Bool) (db : Database)
    (result : PlanResult) (s : Progress)
    → execute_retention_plan is_canonical cutoff policy apply db ≡ done result s
    → Retained is_canonical cutoff policy apply db result s.database
unfolding execute_retention_plan
execute_retention_plan-Retained is_canonical cutoff policy apply db result s h =
    let selected = take policy.max_sessions (candidates is_canonical cutoff policy db) in
    let before = start is_canonical cutoff policy db in
    let (_, s1, loops, last) =
      continue-eq-done (prune_each is_canonical cutoff policy apply selected before) _ h in
    let (result_is, same) = done-injective last in
    let r = prune_each-Runs is_canonical cutoff policy apply selected before s1 loops in
    rw (← same, ← result_is)
      (record {
        kept = r.kept;
        within = let b = r.budget in omega (arith, b);
        gone = λ on. let g = r.gone on in omega (arith, g);
        preview = r.preview;
      })
