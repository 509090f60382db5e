-- ===== src/Middleware/RateLimit/Window.antt =====
-- How many requests of one key are let through in a window.
use Prim.Native.Nat.{min}
use open_log_tool_server.Base.{
  ℕ, suc, ◌+◌, ◌-◌, ◌≤◌, ◌<◌, Text, Bool, false, not, List, [], ◌∷◌, some, leb, ltb, if◌then◌else◌,
  length, is_some, All, text_eq, text_eq_refl, text_eq_iff, ◌≡◌, ◌≢◌, refl, sym, ap, ◌∙◌, arith,
  inl, inr, Bool-cases,
}
use open_log_tool_server.Base.Dict.{lookup, put, text_key, lookup-put_self, lookup-put_ne}
use open_log_tool_server.Middleware.RateLimit.{
  RateLimitOptions, Counter, Counters, Verdict, fresh, live_or_fresh, counted, clean_up, handle,
}

-- The requests, each with its time and key.
abbrev pub Requests : Type 0
Requests = List (ℕ × Text)

abbrev pub lets_through : Verdict → Bool
lets_through verdict = not (is_some verdict.fault)

-- How many requests of a key a list holds, and how many of them are let through.
abbrev pub asked : Text → Requests → ℕ
asked key [] = 0
asked key ((now, k) ∷ rest) = if text_eq k key then suc (asked key rest) else asked key rest

abbrev pub passed : RateLimitOptions → Text → Requests → Counters → ℕ
passed options key [] m = 0
passed options key ((now, k) ∷ rest) m =
    let later = passed options key rest (handle options now k m).1 in
    if text_eq k key
    then if lets_through (handle options now k m).0 then suc later else later
    else later

-- The map never holds more keys than it may, so no counter is dropped.
abbrev pub Roomy : RateLimitOptions → Requests → Counters → Type 0
Roomy options [] m = Unit
Roomy options ((now, k) ∷ rest) m =
    (length (put k (counted options now k m) m) ≤ options.max_keys)
    × Roomy options rest (handle options now k m).1

handle-roomy :
    (options : RateLimitOptions) (now : ℕ) (k : Text) (m : Counters)
    → length (put k (counted options now k m) m) ≤ options.max_keys
    → (handle options now k m).1 ≡ put k (counted options now k m) m
unfolding handle clean_up
handle-roomy options now k m room =
    let not_full : ltb options.max_keys (length (put k (counted options now k m) m)) ≡ false =
      ground arith in
    elim (Bool-cases (ltb options.max (counted options now k m).count)) [
      | inl refused ↦ rw refused refl
      | inr admitted ↦ rw admitted (rw not_full refl)
    ]

lets_through-handle :
    (options : RateLimitOptions) (now : ℕ) (k : Text) (m : Counters)
    → lets_through (handle options now k m).0
      ≡ not (ltb options.max (counted options now k m).count)
unfolding handle
lets_through-handle options now k m =
    elim (Bool-cases (ltb options.max (counted options now k m).count)) [
      | inl refused ↦ rw refused refl
      | inr admitted ↦ rw admitted refl
    ]

-- Of the requests before the end of a live counter, as many are let through as it has left.
passed-live :
    (options : RateLimitOptions) (key : Text) (requests : Requests) (m : Counters) (c : Counter)
    → lookup key m ≡ some c
    → All (λ request. request.0 < c.reset_at) requests
    → Roomy options requests m
    → passed options key requests m ≡ min (options.max - c.count) (asked key requests)
passed-live options key [] m c found soon roomy = omega arith
passed-live options key ((now, k) ∷ rest) m c found (first, soon) (room, roomy) =
    let stored = handle-roomy options now k m room in
    elim (Bool-cases (text_eq k key)) [
      | inl own ↦
          let one : k ≡ key = (text_eq_iff k key).0 own in
          let at : lookup k m ≡ some c = rw one found in
          let running : leb c.reset_at now ≡ false = ground (arith, first) in
          let next : Counter = record c { count = c.count + 1 } in
          let is : counted options now k m ≡ next = rw at (rw running refl) in
          let kept : lookup key (handle options now k m).1 ≡ some next =
            ap (lookup key) stored
            ∙ ap (λ x. lookup x (put k (counted options now k m) m)) (sym one)
            ∙ lookup-put_self k (counted options now k m) m
            ∙ ap some is in
          let later =
            passed-live options key rest (handle options now k m).1 next kept soon roomy in
          let through : lets_through (handle options now k m).0
              ≡ not (ltb options.max (c.count + 1)) =
            lets_through-handle options now k m
            ∙ ap (λ (x : Counter). not (ltb options.max x.count)) is in
          rw (own, through, later)
            (elim (Bool-cases (ltb options.max (c.count + 1))) [
              | inl spent ↦
                  let left : options.max - c.count ≡ 0 = ground arith in
                  let left' : options.max - (c.count + 1) ≡ 0 = ground arith in
                  rw (spent, left, left') (omega arith)
              | inr has_left ↦
                  let le : c.count + 1 ≤ options.max = ground arith in
                  rw has_left (omega (arith, le))
            ])
      | inr other ↦
          let apart : k ≢ key = λ e. ground (arith, text_eq_iff k key) in
          let kept : lookup key (handle options now k m).1 ≡ some c =
            ap (lookup key) stored
            ∙ lookup-put_ne k key (counted options now k m) m apart
            ∙ found in
          rw other (passed-live options key rest (handle options now k m).1 c kept soon roomy)
    ]

-- Where the map never holds more keys than it may, just the first max requests of a key are let
-- through in the window that its first request opens, whatever other keys ask for in between.
pub passed-window :
    (options : RateLimitOptions) (key : Text) (now : ℕ) (rest : Requests) (m : Counters)
    → (live_or_fresh options now (lookup key m)) ≡ fresh options now
    → All (λ request. request.0 < now + options.window_ms) rest
    → Roomy options ((now, key) ∷ rest) m
    → passed options key ((now, key) ∷ rest) m ≡ min options.max (asked key ((now, key) ∷ rest))
passed-window options key now rest m opens soon (room, roomy) =
    let stored = handle-roomy options now key m room in
    let next : Counter = record { count = 1; reset_at = now + options.window_ms } in
    let is : counted options now key m ≡ next =
      ap (λ (c : Counter). record c { count = c.count + 1 }) opens in
    let kept : lookup key (handle options now key m).1 ≡ some next =
      ap (lookup key) stored ∙ lookup-put_self key (counted options now key m) m ∙ ap some is in
    let later = passed-live options key rest (handle options now key m).1 next kept soon roomy in
    let through : lets_through (handle options now key m).0 ≡ not (ltb options.max 1) =
      lets_through-handle options now key m
      ∙ ap (λ (x : Counter). not (ltb options.max x.count)) is in
    rw (text_eq_refl key, through, later)
      (elim (Bool-cases (ltb options.max 1)) [
        | inl shut ↦
            let zero_max : options.max ≡ 0 = ground arith in rw (shut, zero_max) (omega arith)
        | inr has_left ↦ let le : 1 ≤ options.max = ground arith in rw has_left (omega (arith, le))
      ])
