-- ===== src/Middleware/RateLimit/Size.antt =====
-- The map of counters does not grow without bound.
use open_log_tool_server.Base.{
  ℕ, ◌≤◌, Text, [], ◌∷◌, some, ltb, length, ◌≡◌, refl, arith, inl, inr, Bool-cases, Option-cases,
}
use open_log_tool_server.Base.Dict.{lookup, put, text_key}
use open_log_tool_server.Middleware.RateLimit.{
  RateLimitOptions, Counter, Counters, counted, sweep, drop_oldest, clean_up, handle,
}

length-drop_oldest : (max_keys : ℕ) (m : Counters) → length (drop_oldest max_keys m) ≤ max_keys
unfolding drop_oldest
length-drop_oldest max_keys [] = omega arith
length-drop_oldest max_keys (entry ∷ rest) = ground (arith, length-drop_oldest max_keys rest)

length-clean_up : (now max_keys : ℕ) (m : Counters) → length (clean_up now max_keys m) ≤ max_keys
unfolding clean_up
length-clean_up now max_keys m = elim (Bool-cases (ltb max_keys (length m))) [
  | inl full ↦ rw full (length-drop_oldest max_keys (sweep now max_keys (length m) m))
  | inr room ↦ rw room (ground arith)
]

length-put_old :
    (key : Text) (c old : Counter) (m : Counters)
    → lookup key m ≡ some old
    → length (put key c m) ≡ length m
unfolding lookup put
length-put_old key c old [] h = ground arith
length-put_old key c old ((k, d) ∷ m) h = ground (arith, length-put_old key c old m)

-- Where max is at least 1, a request never leaves the map of counters with more keys than it may
-- hold.
pub length-handle :
    (options : RateLimitOptions) (now : ℕ) (key : Text) (m : Counters)
    → 1 ≤ options.max
    → length m ≤ options.max_keys
    → length (handle options now key m).1 ≤ options.max_keys
unfolding handle
length-handle options now key m some_max room =
    elim (Bool-cases (ltb options.max (counted options now key m).count)) [
      | inr admitted ↦
          rw admitted (length-clean_up now options.max_keys (put key (counted options now key m) m))
      | inl refused ↦ elim (Option-cases (lookup key m)) [
        | inl new ↦
            let first : (counted options now key m).count ≡ 1 = rw new refl in
            absurd (ground (arith, first, refused))
        | inr (old, found) ↦
            let same = length-put_old key (counted options now key m) old m found in
            rw refused (rw same room)
      ]
    ]
