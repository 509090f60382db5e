-- ===== src/Retention/Preview.antt =====
-- A preview of the retention plan counts what a prune deletes.
use Prim.Native.Nat.{min}
use open_log_tool_server.Base.{
  ℕ, ◌+◌, ◌-◌, Text, Bool, true, false, not, ◌&&◌, List, [], ◌∷◌, Option, none, some, All, ltb,
  take, length, ◌==◌, is_some, ◌≡◌, ◌≢◌, inl, inr, refl, sym, ap, ◌∙◌, Bool-cases, arith,
}
use open_log_tool_server.Base.Table.{select, select_all, changes, select-delete}
use open_log_tool_server.Base.Outcome.{done}
use open_log_tool_server.Base.Run.{
  when, demand, continue, continue-eq-done, continue-demand, done-injective,
}
use open_log_tool_server.Collaboration.Rows.{Event, Database}
use open_log_tool_server.Collaboration.Events.{sort_by_seq}
use open_log_tool_server.Collaboration.Events.Gapless.{of_session}
use open_log_tool_server.Retention.{
  Policy, PlanResult, Candidate, Progress, is_event, in_range, first, first_by_seq, write_prune,
  counted, target_of, is_old, unsafe_in, look_ahead, candidates, advance, prune_up_to,
  prune_session, prune_each, start, plan_result, execute_retention_plan,
}
use open_log_tool_server.Retention.Range.{select_all-other}
use open_log_tool_server.Retention.Pruned.{
  IsKeyed, pruned_database, when-cases, write_prune-eq-done,
}
use open_log_tool_server.Retention.Distinct.{Distinct, candidates-Distinct, take-Distinct}

module _ {A : Type 0} (p q : A → Bool) (within : (x : A) → p x ≡ true → q x ≡ true) where
  select_all-within : (xs : List A) → select_all p xs ≡ select_all p (select_all q xs)
  unfolding select_all
  select_all-within [] = refl
  select_all-within (x ∷ xs) = ground (arith, within x, select_all-within xs)

  changes-of_all : (xs : List A) → changes p xs ≡ changes p (select_all q xs)
  unfolding select_all changes
  changes-of_all [] = refl
  changes-of_all (x ∷ xs) = ground (arith, within x, changes-of_all xs)

  select-of_all : (xs : List A) → select p xs ≡ select p (select_all q xs)
  unfolding select_all select
  select-of_all [] = refl
  select-of_all (x ∷ xs) = ground (arith, within x, select-of_all xs)

-- Two tables of events hold the same log of a Session.
abbrev SameLog : Database → Database → Text → Type 0
SameLog a b id = select_all (of_session id) a.events ≡ select_all (of_session id) b.events

-- The state of a preview beside that of a prune: the database has not changed.
abbrev pub previewed : Database → Progress → Progress
previewed db s = record s { database = db }

target_of-bound :
    (bound count_bound : ℕ) (unsafe : Option Event)
    → not (is_some unsafe) && ltb bound count_bound ≡ true
    → bound ≡ target_of unsafe bound
target_of-bound bound count_bound none on = refl
target_of-bound bound count_bound (some y) on = ground arith

module _ (is_canonical : Event → Bool) (cutoff : ℕ) (policy : Policy) (db : Database) where
  look_ahead-previewed :
      (c : Candidate) (bound : ℕ) (s s' : Progress) {u : Unit {0}}
      → select (is_event c.id (bound + 1)) db.events
        ≡ select (is_event c.id (bound + 1)) s.database.events
      → look_ahead is_canonical cutoff c bound s ≡ done u s'
      → (look_ahead is_canonical cutoff c bound (previewed db s) ≡ done u (previewed db s'))
        × (s'.database ≡ s.database)
  unfolding look_ahead continue demand when
  look_ahead-previewed c bound s s' same h =
      let next = select (is_event c.id (bound + 1)) s.database.events in
      let (there, h1) = continue-demand _ s (is_some next) _ _ h in
      elim (when-cases (is_old is_canonical cutoff next) _ s h1) [
        | inl (old, last) ↦
            let (_, is) = done-injective last in rw (← is, same, there, old) (refl, refl)
        | inr (new, is) ↦ rw (is, same, there, new) (refl, refl)
      ]

  module _ (c : Candidate) (s : Progress) (same : SameLog db s.database c.id) where
    same_range :
        (t : ℕ)
        → changes (in_range c.id c.min_retained_seq t) db.events
          ≡ changes (in_range c.id c.min_retained_seq t) s.database.events
    same_range t =
        let p = in_range c.id c.min_retained_seq t in
        changes-of_all p (of_session c.id) (λ x h. ground arith) db.events
        ∙ ap (changes p) same
        ∙ sym (changes-of_all p (of_session c.id) (λ x h. ground arith) s.database.events)

    same_event :
        (k : ℕ) → select (is_event c.id k) db.events ≡ select (is_event c.id k) s.database.events
    same_event k =
        let p = is_event c.id k in
        select-of_all p (of_session c.id) (λ x h. ground arith) db.events
        ∙ ap (select p) same
        ∙ sym (select-of_all p (of_session c.id) (λ x h. ground arith) s.database.events)

    same_unsafe :
        (b : ℕ)
        → first_by_seq (unsafe_in is_canonical cutoff c.id c.min_retained_seq b) db.events
          ≡ first_by_seq (unsafe_in is_canonical cutoff c.id c.min_retained_seq b) s.database.events
    unfolding first_by_seq
    same_unsafe b =
        let p = unsafe_in is_canonical cutoff c.id c.min_retained_seq b in
        let all =
          select_all-within p (of_session c.id) (λ x h. ground arith) db.events
          ∙ ap (select_all p) same
          ∙ sym (select_all-within p (of_session c.id) (λ x h. ground arith) s.database.events) in
        ap (λ xs. first (sort_by_seq xs)) all

    -- What a prune of this Session does, and the preview of it.
    abbrev Mirrors : Progress → Type 0
    Mirrors s' = (other : Text) → other ≢ c.id → SameLog s'.database s.database other

    advance-previewed :
        (count_bound bound t : ℕ) (unsafe : Option Event) (s' : Progress) {u : Unit {0}}
        → t ≡ target_of unsafe bound
        → advance is_canonical cutoff policy true c count_bound bound unsafe t s ≡ done u s'
        → (advance is_canonical cutoff policy false c count_bound bound unsafe t (previewed db s)
            ≡ done u (previewed db s'))
          × Mirrors s'
    unfolding advance continue demand when
    advance-previewed count_bound bound t unsafe s' target h =
        let n = t - c.min_retained_seq in
        let cond = not (is_some unsafe) && ltb bound count_bound in
        let (counts, h1) =
          continue-demand _ s (changes (in_range c.id c.min_retained_seq t) s.database.events == n)
            _ _ h in
        let (_, s1, writes, h2) = continue-eq-done (write_prune c t s) _ h1 in
        let (one, gone, is) = write_prune-eq-done c t s s1 writes in
        let s2 : Progress = counted n (record s { database = pruned_database c t s.database }) in
        let h3 : when cond (look_ahead is_canonical cutoff c bound) s2 ≡ done _ s' = rw is at h2 in
        let others : Mirrors s2 =
          λ other apart. select_all-other c.id other c.min_retained_seq t s.database.events apart in
        elim (when-cases cond (look_ahead is_canonical cutoff c bound) s2 h3) [
          | inl (on, looks) ↦
              let bound_is : bound ≡ t = target_of-bound bound count_bound unsafe on ∙ sym target in
              let kept =
                select-delete (is_event c.id (bound + 1)) (in_range c.id c.min_retained_seq t)
                  s.database.events (λ y h. ground arith) in
              let (runs, db_is) =
                look_ahead-previewed c bound s2 s' (same_event (bound + 1) ∙ sym kept) looks in
              (rw (same_range t, counts, on) runs, rw db_is others)
          | inr (off, is') ↦ (rw (same_range t, counts, off, is') refl, rw is' others)
        ]

    prune_up_to-previewed :
        (count_bound : ℕ) (s' : Progress) {u : Unit {0}}
        → prune_up_to is_canonical cutoff policy true c count_bound s ≡ done u s'
        → (prune_up_to is_canonical cutoff policy false c count_bound (previewed db s)
            ≡ done u (previewed db s'))
          × Mirrors s'
    unfolding prune_up_to continue when
    prune_up_to-previewed count_bound s' h =
        let bound = min count_bound (c.min_retained_seq + s.remaining) in
        let p = unsafe_in is_canonical cutoff c.id c.min_retained_seq bound in
        let unsafe = first_by_seq p s.database.events in
        let t = target_of unsafe bound in
        elim (when-cases (ltb c.min_retained_seq t)
          (advance is_canonical cutoff policy true c count_bound bound unsafe t) s h) [
            | inl (on, advances) ↦
                let (runs, others) =
                  advance-previewed count_bound bound t unsafe s' refl advances in
                (rw (same_unsafe bound, on) runs, others)
            | inr (off, is) ↦ (rw (same_unsafe bound, off, is) refl, rw is (λ other apart. refl))
          ]

    prune_session-previewed :
        (s' : Progress) {u : Unit {0}}
        → prune_session is_canonical cutoff policy true c s ≡ done u s'
        → (prune_session is_canonical cutoff policy false c (previewed db s)
            ≡ done u (previewed db s'))
          × Mirrors s'
    unfolding prune_session continue demand when
    prune_session-previewed s' h =
        let count_bound = c.event_seq - policy.minimum_events in
        let (there, h1) = continue-demand _ s (is_some c.first_event_seq) _ _ h in
        elim (when-cases (ltb c.min_retained_seq count_bound)
          (prune_up_to is_canonical cutoff policy true c count_bound) s h1) [
            | inl (on, prunes) ↦
                let (runs, others) = prune_up_to-previewed count_bound s' prunes in
                (rw (there, on) runs, others)
            | inr (off, is) ↦ (rw (there, off, is) refl, rw is (λ other apart. refl))
          ]

  still_same :
      (c : Candidate) (cs : List Candidate) (s s' : Progress)
      → ((other : Text) → other ≢ c.id → SameLog s'.database s.database other)
      → All (λ d. d.id ≢ c.id) cs
      → All (λ d. SameLog db s.database d.id) cs
      → All (λ d. SameLog db s'.database d.id) cs
  still_same c [] s s' others apart same = tt
  still_same c (d ∷ cs) s s' others (other, apart) (log, same) =
      (log ∙ sym (others d.id other), still_same c cs s s' others apart same)

  prune_each-previewed :
      (cs : List Candidate) (s s' : Progress) {u : Unit {0}}
      → Distinct cs
      → All (λ d. SameLog db s.database d.id) cs
      → prune_each is_canonical cutoff policy true cs s ≡ done u s'
      → prune_each is_canonical cutoff policy false cs (previewed db s) ≡ done u (previewed db s')
  unfolding prune_each continue
  prune_each-previewed [] s s' d same h = let (_, is) = done-injective h in rw (← is) refl
  prune_each-previewed (c ∷ cs) s s' (apart, d) (log, same) h =
      elim (Bool-cases (s.remaining == 0)) [
        | inl out ↦ let (_, is) = done-injective (rw out at h) in rw (← is, out) refl
        | inr left ↦
            let (_, s1, prunes, rest) =
              continue-eq-done (prune_session is_canonical cutoff policy true c s)
                (λ _. prune_each is_canonical cutoff policy true cs) (rw left at h) in
            let (runs, others) = prune_session-previewed c s log s1 prunes in
            let last =
              prune_each-previewed cs s1 s' d (still_same c cs s s1 others apart same) rest in
            rw (left, runs) last
      ]

same_logs : (db : Database) (cs : List Candidate) → All (λ d. SameLog db db d.id) cs
same_logs db [] = tt
same_logs db (c ∷ cs) = (refl, same_logs db cs)

-- Where no two Sessions have one identifier and a prune returns, a preview of the same database
-- with the same policy and cutoff returns the same counts and says the same of whether there is
-- more, and its database is as it was.
pub execute_retention_plan-previewed :
    (is_canonical : Event → Bool) (cutoff : ℕ) (policy : Policy) (db : Database)
    (result : PlanResult) (s : Progress)
    → IsKeyed db
    → execute_retention_plan is_canonical cutoff policy true db ≡ done result s
    → execute_retention_plan is_canonical cutoff policy false db ≡ done result (previewed db s)
unfolding execute_retention_plan continue
execute_retention_plan-previewed is_canonical cutoff policy db result s keyed h =
    let all = candidates is_canonical cutoff policy db in
    let selected = take policy.max_sessions all in
    let before = start is_canonical cutoff policy db in
    let (_, s1, loops, last) =
      continue-eq-done (prune_each is_canonical cutoff policy true selected before)
        (λ _ s. done (plan_result (length selected) s) s) h in
    let (result_is, is) = done-injective last in
    let runs =
      prune_each-previewed is_canonical cutoff policy db selected before s1
        (take-Distinct policy.max_sessions all
          (candidates-Distinct is_canonical cutoff policy db keyed))
        (same_logs db selected) loops in
    rw (← is, ← result_is, runs) refl
