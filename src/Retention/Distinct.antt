-- ===== src/Retention/Distinct.antt =====
-- The candidates of the retention plan are different Sessions, and each is as its row is.
use open_log_tool_server.Base.{
  ℕ, zero, suc, ◌+◌, ◌≤◌, Text, Bool, true, false, List, [], ◌∷◌, some, map, take, All, All-map,
  text_eq_iff, text_eq_refl, ◌≡◌, ◌≢◌, inl, inr, refl, sym, ◌∙◌, Bool-cases, arith,
}
use open_log_tool_server.Base.Table.{select, select_all, changes}
use open_log_tool_server.Collaboration.Rows.{SessionRow, Event, Database}
use open_log_tool_server.Collaboration.Access.{has_id, find_session}
use open_log_tool_server.Retention.{
  Policy, Candidate, text_leb, candidate, insert_by_id, sort_by_id, is_candidate, candidates,
  is_cursor,
}
use open_log_tool_server.Retention.Pruned.{IsKeyed}

selected_counts :
    {A : Type 0} (p : A → Bool) (xs : List A) (x : A) → select p xs ≡ some x → 1 ≤ changes p xs
unfolding select changes
selected_counts p [] x h = cc
selected_counts p (y ∷ xs) x h = ground (arith, selected_counts p xs x)

-- Each row is the one that its key selects.
keyed-found :
    (xs : List SessionRow)
    → ((id : Text) → changes (has_id id) xs ≤ 1)
    → All (λ x. select (has_id x.id) xs ≡ some x) xs
unfolding select changes
keyed-found [] keyed = tt
keyed-found (x ∷ xs) keyed =
    let rest = keyed-found xs (λ id. let k = keyed id in ground arith) in
    (
      rw (text_eq_refl x.id) refl,
      All-map xs
          (λ y found.
            let one = selected_counts (has_id y.id) xs y found in
            let k = keyed y.id in
            let apart : has_id y.id x ≡ false = ground (arith, one, k) in rw apart found)
          rest,
    )

-- No two of them are one Session.
abbrev pub Distinct : List Candidate → Type 0
Distinct [] = Unit
Distinct (c ∷ cs) = All (λ d. d.id ≢ c.id) cs × Distinct cs

abbrev DistinctRows : List SessionRow → Type 0
DistinctRows [] = Unit
DistinctRows (x ∷ xs) = All (λ y. y.id ≢ x.id) xs × DistinctRows xs

keyed-DistinctRows :
    (xs : List SessionRow) → ((id : Text) → changes (has_id id) xs ≤ 1) → DistinctRows xs
unfolding select changes
keyed-DistinctRows [] keyed = tt
keyed-DistinctRows (x ∷ xs) keyed =
    let rest : (id : Text) → changes (has_id id) xs ≤ 1 = λ id. let k = keyed id in ground arith in
    (
      All-map xs
          (λ y found same.
            let one = selected_counts (has_id y.id) xs y found in
            let k = keyed y.id in
            let apart : has_id y.id x ≡ false = ground (arith, one, k) in
            ground (arith, text_eq_iff x.id y.id))
          (keyed-found xs rest),
      keyed-DistinctRows xs rest,
    )

pub All-select_all :
    {A : Type 0} (P : A → Type 0) (p : A → Bool) (xs : List A)
    → All P xs
    → All (λ x. P x × (p x ≡ true)) (select_all p xs)
unfolding select_all
All-select_all P p [] all = tt
All-select_all P p (x ∷ xs) (h, all) = elim (Bool-cases (p x)) [
  | inl hit ↦ rw hit ((h, hit), All-select_all P p xs all)
  | inr missed ↦ rw missed (All-select_all P p xs all)
]

select_all-DistinctRows :
    (p : SessionRow → Bool) (xs : List SessionRow)
    → DistinctRows xs
    → DistinctRows (select_all p xs)
unfolding select_all
select_all-DistinctRows p [] d = tt
select_all-DistinctRows p (x ∷ xs) (apart, d) = elim (Bool-cases (p x)) [
  | inl hit ↦ rw hit (
    All-map (select_all p xs) (λ y h. h.0) (All-select_all (λ y. y.id ≢ x.id) p xs apart),
    select_all-DistinctRows p xs d,
  )
  | inr missed ↦ rw missed (select_all-DistinctRows p xs d)
]

All-of_map :
    {A B : Type 0} (P : B → Type 0) (f : A → B) (xs : List A)
    → All (λ x. P (f x)) xs
    → All P (map f xs)
All-of_map P f [] all = tt
All-of_map P f (x ∷ xs) (h, all) = (h, All-of_map P f xs all)

All-insert_by_id :
    (P : Candidate → Type 0) (c : Candidate) (cs : List Candidate)
    → P c
    → All P cs
    → All P (insert_by_id c cs)
unfolding insert_by_id
All-insert_by_id P c [] h all = (h, tt)
All-insert_by_id P c (x ∷ xs) h (hx, all) = elim (Bool-cases (text_leb c.id x.id)) [
  | inl le ↦ rw le (h, (hx, all))
  | inr gt ↦ rw gt (hx, All-insert_by_id P c xs h all)
]

All-sort_by_id : (P : Candidate → Type 0) (cs : List Candidate) → All P cs → All P (sort_by_id cs)
unfolding sort_by_id
All-sort_by_id P [] all = tt
All-sort_by_id P (c ∷ cs) (h, all) =
    All-insert_by_id P c (sort_by_id cs) h (All-sort_by_id P cs all)

insert_by_id-Distinct :
    (c : Candidate) (cs : List Candidate)
    → All (λ d. d.id ≢ c.id) cs
    → Distinct cs
    → Distinct (insert_by_id c cs)
unfolding insert_by_id
insert_by_id-Distinct c [] apart d = (tt, tt)
insert_by_id-Distinct c (x ∷ xs) (other, apart) (d, ds) = elim (Bool-cases (text_leb c.id x.id)) [
  | inl le ↦ rw le ((other, apart), (d, ds))
  | inr gt ↦ rw gt (
    All-insert_by_id (λ y. y.id ≢ x.id) c xs (λ e. other (sym e)) d,
    insert_by_id-Distinct c xs apart ds,
  )
]

sort_by_id-Distinct : (cs : List Candidate) → Distinct cs → Distinct (sort_by_id cs)
unfolding sort_by_id
sort_by_id-Distinct [] d = tt
sort_by_id-Distinct (c ∷ cs) (apart, d) =
    insert_by_id-Distinct c (sort_by_id cs) (All-sort_by_id (λ y. y.id ≢ c.id) cs apart)
      (sort_by_id-Distinct cs d)

pub All-take : {A : Type 0} (P : A → Type 0) (n : ℕ) (xs : List A) → All P xs → All P (take n xs)
All-take P zero xs all = tt
All-take P (suc n) [] all = tt
All-take P (suc n) (x ∷ xs) (h, all) = (h, All-take P n xs all)

pub take-Distinct : (n : ℕ) (cs : List Candidate) → Distinct cs → Distinct (take n cs)
take-Distinct zero cs d = tt
take-Distinct (suc n) [] d = tt
take-Distinct (suc n) (c ∷ cs) (apart, d) =
    (All-take (λ y. y.id ≢ c.id) n cs apart, take-Distinct n cs d)

map-Distinct :
    (f : SessionRow → Candidate)
    → ((row : SessionRow) → (f row).id ≡ row.id)
    → (xs : List SessionRow) → DistinctRows xs
    → Distinct (map f xs)
map-Distinct f same [] d = tt
map-Distinct f same (x ∷ xs) (apart, d) = (
  All-of_map (λ c. c.id ≢ (f x).id) f xs
      (All-map xs (λ y other e. other (sym (same y) ∙ e ∙ same x)) apart),
  map-Distinct f same xs d,
)

-- A Session's row has the counters that the candidate was read with.
abbrev pub Standing : Database → Candidate → Type 0
Standing db c = (row : SessionRow) × (find_session db c.id ≡ some row) × (is_cursor c row ≡ true)

module _ (is_canonical : Event → Bool) (cutoff : ℕ) (policy : Policy) (db : Database)
    (keyed : IsKeyed db) where
  pub candidates-Distinct : Distinct (candidates is_canonical cutoff policy db)
  unfolding candidates
  candidates-Distinct =
      let p = is_candidate is_canonical cutoff policy db in
      let rows = select_all p db.sessions in
      take-Distinct (policy.max_sessions + 1) (sort_by_id (map (candidate db) rows)) (
        sort_by_id-Distinct (map (candidate db) rows) (
          map-Distinct (candidate db) (λ row. refl) rows
            (select_all-DistinctRows p db.sessions (keyed-DistinctRows db.sessions keyed))))

  -- What holds of the candidate of each row that is selected holds of each candidate.
  pub All-candidates :
      (P : Candidate → Type 0)
      → ((row : SessionRow)
          → find_session db row.id ≡ some row
          → is_candidate is_canonical cutoff policy db row ≡ true
          → P (candidate db row))
      → All P (candidates is_canonical cutoff policy db)
  unfolding candidates find_session
  All-candidates P each =
      let p = is_candidate is_canonical cutoff policy db in
      let rows = select_all p db.sessions in
      All-take P (policy.max_sessions + 1) (sort_by_id (map (candidate db) rows)) (
        All-sort_by_id P (map (candidate db) rows) (
          All-of_map P (candidate db) rows (
            All-map rows (λ row (found, picked). each row found picked)
              (All-select_all (λ x. select (has_id x.id) db.sessions ≡ some x) p db.sessions
                (keyed-found db.sessions keyed)))))
