-- ===== src/Retention/Total.antt =====
-- The retention plan as a whole returns, in a database whose logs have no gaps.
use open_log_tool_server.Base.{
  ℕ, ◌+◌, ◌<◌, length, Bool, true, List, [], ◌∷◌, Option, none, some, All, text_eq_refl, take, ◌==◌,
  is_some, ◌≡◌, ◌≢◌, inl, inr, refl, ◌∙◌, Bool-cases, arith,
}
use open_log_tool_server.Base.Table.{select}
use open_log_tool_server.Base.Outcome.{done}
use open_log_tool_server.Base.Run.{continue}
use open_log_tool_server.Collaboration.Rows.{Event, Database}
use open_log_tool_server.Collaboration.Events.Gapless.{IsGapless}
use open_log_tool_server.Retention.{
  Policy, PlanResult, Candidate, Progress, is_event, first_seq, more, candidates, prune_each, start,
  plan_result, execute_retention_plan,
}
use open_log_tool_server.Retention.Pruned.{IsKeyed}
use open_log_tool_server.Retention.Plan.{prune_session-Runs}
use open_log_tool_server.Retention.Present.{event-present}
use open_log_tool_server.Retention.Distinct.{
  Distinct, Standing, candidates-Distinct, All-candidates, All-take, take-Distinct,
}
use open_log_tool_server.Retention.Returns.{Touched, Touched-Standing, prune_session-returns}

-- A candidate that has been read well and has not been pruned yet.
abbrev Ready : Database → Candidate → Type 0
Ready db c = Standing db c × (is_some c.first_event_seq ≡ true)

-- The other candidates are as ready as before.
others-Ready :
    (ds : List Candidate) (db db' : Database) (c : Candidate)
    → Touched c db db'
    → All (λ e. e.id ≢ c.id) ds
    → All (Ready db) ds
    → All (Ready db') ds
others-Ready [] db db' c touched apart ready = tt
others-Ready (e ∷ ds) db db' c touched (other, apart) ((standing, there), ready) = (
  (Touched-Standing c e db db' touched other standing, there),
  others-Ready ds db db' c touched apart ready,
)

is_some-first_seq : (o : Option Event) → is_some (first_seq o) ≡ is_some o
is_some-first_seq none = refl
is_some-first_seq (some event) = refl

module _ (is_canonical : Event → Bool) (cutoff : ℕ) (policy : Policy) (apply : Bool) where
  prune_each-returns :
      (cs : List Candidate) (s : Progress)
      → IsKeyed s.database
      → IsGapless s.database
      → All (Ready s.database) cs
      → Distinct cs
      → (s' : Progress) × (prune_each is_canonical cutoff policy apply cs s ≡ done tt s')
  unfolding prune_each continue
  prune_each-returns [] s keyed g ready d = (s, refl)
  prune_each-returns (c ∷ cs) s keyed g (((row, found, stands), there), ready) (apart, d) =
      elim (Bool-cases (s.remaining == 0)) [
        | inl out ↦ (more s, rw out refl)
        | inr left ↦
            let (s1, runs1, touched) =
              prune_session-returns is_canonical cutoff policy apply c s keyed g row found stands
                there in
            let r = prune_session-Runs is_canonical cutoff policy apply c s s1 runs1 in
            let (s2, runs2) =
              prune_each-returns cs s1 (r.kept.keyed keyed) (r.kept.gapless keyed g)
                (others-Ready cs s.database s1.database c touched apart ready) d in
            (s2, rw (left, runs1) runs2)
      ]

  candidates-Ready :
      (db : Database)
      → IsKeyed db
      → IsGapless db
      → All (Ready db) (candidates is_canonical cutoff policy db)
  candidates-Ready db keyed g =
      All-candidates is_canonical cutoff policy db keyed (Ready db) (λ row found picked.
        let bound : row.min_retained_seq + policy.minimum_events < row.event_seq = ground arith in
        let there =
          event-present db g row.id row found (row.min_retained_seq + 1) (omega arith)
            (omega (arith, bound)) in
        let same = text_eq_refl row.id in
        (
          (row, found, ground (arith, same)),
          is_some-first_seq (select (is_event row.id (row.min_retained_seq + 1)) db.events) ∙ there,
        ))

-- Where no two Sessions have one identifier and no log has a gap, executeRetentionPlan meets no
-- integrity failure, whatever the policy and the cutoff, in a preview and in a prune: it
-- returns.
pub execute_retention_plan-returns :
    (is_canonical : Event → Bool) (cutoff : ℕ) (policy : Policy) (apply : Bool) (db : Database)
    → IsKeyed db
    → IsGapless db
    → (result : PlanResult) × (s : Progress) × (execute_retention_plan is_canonical cutoff policy
          apply db
        ≡ done result s)
unfolding execute_retention_plan continue
execute_retention_plan-returns is_canonical cutoff policy apply db keyed g =
    let selected = take policy.max_sessions (candidates is_canonical cutoff policy db) in
    let (s, runs) =
      prune_each-returns is_canonical cutoff policy apply selected
        (start is_canonical cutoff policy db) keyed g
        (All-take (Ready db) policy.max_sessions (candidates is_canonical cutoff policy db)
          (candidates-Ready is_canonical cutoff policy apply db keyed g))
        (take-Distinct policy.max_sessions (candidates is_canonical cutoff policy db)
          (candidates-Distinct is_canonical cutoff policy db keyed)) in
    (plan_result (length selected) s, s, rw runs refl)
