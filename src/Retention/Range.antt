-- ===== src/Retention/Range.antt =====
-- What the statements of the retention plan read and write, over the rows of a table.
use open_log_tool_server.Base.{
  ℕ, zero, suc, ◌+◌, ◌-◌, ◌≤◌, ◌<◌, Text, Bool, true, false, ◌&&◌, List, [], ◌∷◌, Option, none,
  some, All, All-map, text_eq_iff, leb, ltb, ◌≡◌, ◌≢◌, inl, inr, refl, sym, ap, ◌∙◌, Bool-cases,
  arith,
}
use open_log_tool_server.Base.Table.{select, select_all, modify, delete, changes}
use open_log_tool_server.Collaboration.Rows.{Event}
use open_log_tool_server.Collaboration.Events.{insert_by_seq, sort_by_seq}
use open_log_tool_server.Collaboration.Events.Gapless.{count_up, seqs, of_session}
use open_log_tool_server.Retention.{in_range, first, first_by_seq}

module _ {A : Type 0} (p q : A → Bool) (within : (y : A) → q y ≡ true → p y ≡ true) where
  -- A narrower condition holds of no more rows.
  changes-within : (xs : List A) → changes q xs ≤ changes p xs
  unfolding changes
  changes-within [] = omega arith
  changes-within (x ∷ xs) = ground (arith, within x, changes-within xs)

  -- An update that has changed one row has changed the row that a unique key selects.
  pub select-changes :
      (xs : List A)
      → changes p xs ≤ 1
      → changes q xs ≡ 1
      → (x : A) × (select p xs ≡ some x) × (q x ≡ true)
  unfolding changes select
  select-changes [] unique one = ground arith
  select-changes (x ∷ xs) unique one = elim (Bool-cases (p x)) [
    | inl hit ↦
        let none_left = changes-within xs in
        (
          x,
          rw hit refl,
          elim (Bool-cases (q x)) [ inl here ↦ here | inr apart ↦ ground (arith, none_left) ],
        )
    | inr missed ↦
        let apart : q x ≡ false = ground (arith, within x) in
        let (y, found, holds) = select-changes xs (rw missed at unique) (rw apart at one) in
        (y, rw missed found, holds)
  ]

  -- The rows that a narrower condition holds of, where a unique key selects one of them.
  pub changes-select_one :
      (xs : List A) (x : A)
      → changes p xs ≤ 1
      → select p xs ≡ some x
      → q x ≡ true
      → changes q xs ≡ 1
  unfolding changes select
  changes-select_one [] x unique found holds = cc
  changes-select_one (y ∷ xs) x unique found holds = elim (Bool-cases (p y)) [
    | inl hit ↦
        let same : y ≡ x = cc (rw hit at found) in
        let here : q y ≡ true = rw same holds in
        let fewer = changes-within xs in
        let none_left : changes p xs ≤ 0 = ground arith in ground (arith, fewer, none_left)
    | inr missed ↦
        let apart : q y ≡ false = ground (arith, within y) in
        rw apart (changes-select_one xs x (rw missed at unique) (rw missed at found) holds)
  ]

pub changes-modify :
    {A : Type 0} (p q : A → Bool) (f : A → A) (xs : List A)
    → ((y : A) → p (f y) ≡ p y)
    → changes p (modify q f xs) ≡ changes p xs
unfolding changes modify
changes-modify p q f [] keep = refl
changes-modify p q f (x ∷ xs) keep = ground (arith, keep x, changes-modify p q f xs keep)

abbrev pub between : ℕ → ℕ → ℕ → Bool
between after last n = ltb after n && leb n last

seqs-delete :
    (id : Text) (m t : ℕ) (xs : List Event)
    → seqs (select_all (of_session id) (delete (in_range id m t) xs))
      ≡ delete (between m t) (seqs (select_all (of_session id) xs))
unfolding select_all delete
seqs-delete id m t [] = refl
seqs-delete id m t (x ∷ xs) = ground (arith, seqs-delete id m t xs)

delete-above : (m t k n : ℕ) → t ≤ k → delete (between m t) (count_up k n) ≡ count_up k n
unfolding delete
delete-above m t k zero h = refl
delete-above m t k (suc n) h = ground (arith, delete-above m t (k + 1) n)

pub delete-count_up :
    (m t k n : ℕ)
    → m ≤ k
    → k ≤ t
    → t ≤ k + n
    → delete (between m t) (count_up k n) ≡ count_up t (k + n - t)
unfolding delete
delete-count_up m t k zero low le high =
    let none_left : k + 0 - t ≡ 0 = omega arith in rw none_left refl
delete-count_up m t k (suc n) low le high = elim (Bool-cases (ltb k t)) [
  | inl gone ↦
      let deleted : between m t (k + 1) ≡ true = ground arith in
      let same : k + suc n ≡ k + 1 + n = omega arith in
      rw (deleted, same) (delete-count_up m t (k + 1) n (omega arith) (ground arith) (omega arith))
  | inr all_left ↦
      let here : t ≡ k = ground arith in
      let rest : k + suc n - t ≡ suc n = omega arith in
      rw rest (delete-above m t k (suc n) (omega arith) ∙ ap (λ x. count_up x (suc n)) (sym here))
]

-- A Session's log without the events after one number and up to another.
pub seqs-prune :
    (id : Text) (m t k : ℕ) (xs : List Event)
    → m ≤ t
    → t ≤ k
    → seqs (select_all (of_session id) xs) ≡ count_up m (k - m)
    → seqs (select_all (of_session id) (delete (in_range id m t) xs)) ≡ count_up t (k - t)
seqs-prune id m t k xs le high h =
    let end : m + (k - m) - t ≡ k - t = omega arith in
    seqs-delete id m t xs
    ∙ ap (delete (between m t)) h
    ∙ delete-count_up m t m (k - m) (omega arith) le (omega arith)
    ∙ ap (count_up t) end

-- The logs of the other Sessions.
pub select_all-other :
    (id other : Text) (m t : ℕ) (xs : List Event)
    → other ≢ id
    → select_all (of_session other) (delete (in_range id m t) xs) ≡ select_all (of_session other) xs
unfolding select_all delete
select_all-other id other m t [] apart = refl
select_all-other id other m t (x ∷ xs) apart = ground (
  arith,
  text_eq_iff x.session_id id,
  text_eq_iff x.session_id other,
  select_all-other id other m t xs,
)

-- No event comes before the first by number.
abbrev pub AtMost : Option Event → List Event → Type 0
AtMost none xs = xs ≡ []
AtMost (some y) xs = All (λ x. y.seq ≤ x.seq) xs

insert-AtMost :
    (e : Event) (s es : List Event)
    → AtMost (first s) es
    → AtMost (first (insert_by_seq e s)) (e ∷ es)
unfolding insert_by_seq
insert-AtMost e [] es h = rw h (omega arith, tt)
insert-AtMost e (z ∷ s) es h = elim (Bool-cases (leb e.seq z.seq)) [
  | inl le ↦
      let low : e.seq ≤ z.seq = ground arith in
      rw le (omega arith, All-map es (λ x z_le. omega (arith, low, z_le)) h)
  | inr gt ↦ let low : z.seq ≤ e.seq = ground arith in rw gt (low, h)
]

first-AtMost : (xs : List Event) → AtMost (first (sort_by_seq xs)) xs
unfolding sort_by_seq
first-AtMost [] = refl
first-AtMost (x ∷ xs) = insert-AtMost x (sort_by_seq xs) xs (first-AtMost xs)

pub first_by_seq-AtMost :
    (p : Event → Bool) (events : List Event) → AtMost (first_by_seq p events) (select_all p events)
unfolding first_by_seq
first_by_seq-AtMost p events = first-AtMost (select_all p events)

-- A deletion that the selection does not see.
pub select_all-delete :
    (p q : Event → Bool) (xs : List Event)
    → select_all (λ x. q x && p x) xs ≡ []
    → select_all p (delete q xs) ≡ select_all p xs
unfolding select_all delete
select_all-delete p q [] h = refl
select_all-delete p q (x ∷ xs) h = ground (arith, select_all-delete p q xs)

-- Events with a number below the first one that is not old are old.
pub below-first :
    (young : Event → Bool) (id : Text) (m b : ℕ) (y : Event) (xs : List Event)
    → All (λ x. y.seq ≤ x.seq) (select_all (λ x. in_range id m b x && young x) xs)
    → y.seq ≤ b
    → m < y.seq
    → select_all (λ x. in_range id m (y.seq - 1) x && young x) xs ≡ []
unfolding select_all
below-first young id m b y [] least le lt = refl
below-first young id m b y (x ∷ xs) least le lt = elim (Bool-cases (in_range id m b x && young x)) [
  | inl picked ↦
      let (first_le, rest) = rw picked at least in
      let out : (in_range id m (y.seq - 1) x && young x) ≡ false = ground (arith, first_le) in
      rw out (below-first young id m b y xs rest le lt)
  | inr left ↦
      let rest = rw left at least in
      let out : (in_range id m (y.seq - 1) x && young x) ≡ false = ground arith in
      rw out (below-first young id m b y xs rest le lt)
]

select_all-holds :
    {A : Type 0} (p : A → Bool) (xs : List A) → All (λ x. p x ≡ true) (select_all p xs)
unfolding select_all
select_all-holds p [] = tt
select_all-holds p (x ∷ xs) = elim (Bool-cases (p x)) [
  | inl hit ↦ rw hit (hit, select_all-holds p xs)
  | inr missed ↦ rw missed (select_all-holds p xs)
]

-- The first event by number is one that was selected.
insert-All :
    (P : Event → Type 0) (e : Event) (s : List Event) → P e → All P s → All P (insert_by_seq e s)
unfolding insert_by_seq
insert-All P e [] h all = (h, tt)
insert-All P e (z ∷ s) h (hz, all) = elim (Bool-cases (leb e.seq z.seq)) [
  | inl le ↦ rw le (h, (hz, all))
  | inr gt ↦ rw gt (hz, insert-All P e s h all)
]

sort_by_seq-All : (P : Event → Type 0) (xs : List Event) → All P xs → All P (sort_by_seq xs)
unfolding sort_by_seq
sort_by_seq-All P [] all = tt
sort_by_seq-All P (x ∷ xs) (h, all) = insert-All P x (sort_by_seq xs) h (sort_by_seq-All P xs all)

All-first : (P : Event → Type 0) (xs : List Event) (y : Event) → All P xs → first xs ≡ some y → P y
All-first P [] y all h = cc
All-first P (x ∷ xs) y (hx, all) h = let same : x ≡ y = cc h in rw (← same) hx

pub first_by_seq-holds :
    (p : Event → Bool) (events : List Event) (y : Event)
    → first_by_seq p events ≡ some y
    → p y ≡ true
unfolding first_by_seq
first_by_seq-holds p events y h =
    All-first (λ x. p x ≡ true) (sort_by_seq (select_all p events)) y
      (sort_by_seq-All (λ x. p x ≡ true) (select_all p events) (select_all-holds p events)) h
