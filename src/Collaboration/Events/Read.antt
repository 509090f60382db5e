-- ===== src/Collaboration/Events/Read.antt =====
-- What `readEventsAfter` reads of a log without gaps.
use Prim.Native.Nat.{min}
use open_log_tool_server.Base.{
  ℕ, zero, suc, ◌+◌, ◌-◌, ◌≤◌, Text, Bool, true, List, [], ◌∷◌, Option, none, some, leb, ltb,
  if◌then◌else◌, ◌≡◌, refl, sym, ap, ◌∙◌, inl, inr, Bool-cases, arith, take,
}
use open_log_tool_server.Base.Table.{select_all}
use open_log_tool_server.Collaboration.Rows.{SessionRow, Event, Database}
use open_log_tool_server.Collaboration.Access.{find_session}
use open_log_tool_server.Collaboration.Events.{
  of_session_after, insert_by_seq, sort_by_seq, limited, read_events_after,
}
use open_log_tool_server.Collaboration.Events.Gapless.{count_up, seqs, of_session, IsGapless}

abbrev newer : ℕ → Event → Bool
newer after event = ltb after event.seq

select_all-both :
    (id : Text) (after : ℕ) (xs : List Event)
    → select_all (of_session_after id after) xs
      ≡ select_all (newer after) (select_all (of_session id) xs)
unfolding select_all
select_all-both id after [] = refl
select_all-both id after (x ∷ xs) = ground (arith, select_all-both id after xs)

-- The numbers above a bound.
abbrev above : ℕ → List ℕ → List ℕ
above after [] = []
above after (n ∷ ns) = if ltb after n then n ∷ above after ns else above after ns

seqs-newer :
    (after : ℕ) (xs : List Event) → seqs (select_all (newer after) xs) ≡ above after (seqs xs)
unfolding select_all
seqs-newer after [] = refl
seqs-newer after (x ∷ xs) = ground (arith, seqs-newer after xs)

above-all : (after m n : ℕ) → after ≤ m → above after (count_up m n) ≡ count_up m n
above-all after m zero h = refl
above-all after m (suc n) h = ground (arith, above-all after (m + 1) n)

above-count_up :
    (after m n : ℕ)
    → m ≤ after
    → after ≤ m + n
    → above after (count_up m n) ≡ count_up after (m + n - after)
above-count_up after m zero h k = let none_left : m + 0 - after ≡ 0 = omega arith in rw none_left
above-count_up after m (suc n) h k = elim (Bool-cases (ltb after (m + 1))) [
  | inl first ↦
      let here : after ≡ m = ground arith in
      let all_left : m + suc n - after ≡ suc n = omega arith in
      rw all_left
        (above-all after m (suc n) (omega arith) ∙ ap (λ x. count_up x (suc n)) (sym here))
  | inr later ↦
      let same : m + suc n ≡ m + 1 + n = omega arith in
      rw (later, same) (above-count_up after (m + 1) n (ground arith) (omega arith))
]

sort_by_seq-count_up : (m n : ℕ) (xs : List Event) → seqs xs ≡ count_up m n → sort_by_seq xs ≡ xs
unfolding sort_by_seq
sort_by_seq-count_up m n [] h = refl
sort_by_seq-count_up m zero (x ∷ xs) h = ground arith
sort_by_seq-count_up m (suc zero) (x ∷ []) h = refl
sort_by_seq-count_up m (suc zero) (x ∷ y ∷ xs) h = ground arith
sort_by_seq-count_up m (suc (suc n)) (x ∷ []) h = refl
sort_by_seq-count_up m (suc (suc n)) (x ∷ y ∷ xs) h =
    let rest : sort_by_seq (y ∷ xs) ≡ y ∷ xs =
      sort_by_seq-count_up (m + 1) (suc n) (y ∷ xs) (ground arith) in
    let le : leb x.seq y.seq ≡ true = ground arith in ap (insert_by_seq x) rest ∙ rw le

seqs-take :
    (k m n : ℕ) (xs : List Event) → seqs xs ≡ count_up m n → seqs (take k xs) ≡ count_up m (min k n)
seqs-take zero m n xs h = let done : min 0 n ≡ 0 = omega arith in rw done
seqs-take (suc k) m zero [] h = let done : min (suc k) 0 ≡ 0 = omega arith in rw done
seqs-take (suc k) m zero (x ∷ xs) h = ground arith
seqs-take (suc k) m (suc n) [] h = ground arith
seqs-take (suc k) m (suc n) (x ∷ xs) h =
    let one : x.seq ≡ m + 1 = ground arith in
    let rest = seqs-take k (m + 1) n xs (ground arith) in
    let count : min (suc k) (suc n) ≡ suc (min k n) = omega arith in
    rw (count, one) (ap (◌∷◌ (m + 1)) rest)

abbrev pub limited_to : Option ℕ → ℕ → ℕ
limited_to none n = n
limited_to (some k) n = min k n

seqs-limited :
    (limit : Option ℕ) (m n : ℕ) (xs : List Event)
    → seqs xs ≡ count_up m n
    → seqs (limited limit xs) ≡ count_up m (limited_to limit n)
seqs-limited none m n xs h = h
seqs-limited (some k) m n xs h = seqs-take k m n xs h

-- Of a log without gaps, a read from a cursor that is kept yields the numbers that follow the
-- cursor, up to the limit or to the head, each once and in order.
pub seqs-read_events_after :
    (db : Database) (id : Text) (after : ℕ) (limit : Option ℕ) (row : SessionRow)
    → IsGapless db
    → find_session db id ≡ some row
    → row.min_retained_seq ≤ after
    → after ≤ row.event_seq
    → seqs (read_events_after db id after limit)
      ≡ count_up after (limited_to limit (row.event_seq - after))
unfolding read_events_after
seqs-read_events_after db id after limit row v found low high =
    let all = select_all (of_session_after id after) db.events in
    let total : row.min_retained_seq + (row.event_seq - row.min_retained_seq) ≡ row.event_seq =
      omega (arith, v.bounded id row found) in
    let counted : seqs all ≡ count_up after (row.event_seq - after) =
      ap seqs (select_all-both id after db.events)
      ∙ seqs-newer after (select_all (of_session id) db.events)
      ∙ ap (above after) (v.counted id row found)
      ∙ above-count_up after row.min_retained_seq _ low (omega (arith, v.bounded id row found))
      ∙ rw total in
    let sorted = sort_by_seq-count_up after (row.event_seq - after) all counted in
    seqs-limited limit after (row.event_seq - after) (sort_by_seq all) (rw sorted counted)
