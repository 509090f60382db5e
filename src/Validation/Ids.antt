-- ===== src/Validation/Ids.antt =====
-- What the checks of identifiers let through.
use open_log_tool_server.Base.{
  ℕ, ◌≤◌, ◌⊎◌, inl, Text, true, All, all, [], ◌∷◌, Option, none, some, leb, leb→le, length, trim,
  ◌≡◌, arith,
}
use open_log_tool_server.Base.Json.{
  Json, null, boolean, natural, other_number, string, array, object,
}
use open_log_tool_server.Base.Outcome.{ok, require, >>=-eq-ok, require-eq-ok}
use open_log_tool_server.Validation.{is_id_char, is_stable_id, normalize_stable_id}

-- A letter or a digit.
abbrev pub IsAlphanumeric : ℕ → Type 0
IsAlphanumeric c = ((48 ≤ c) × (c ≤ 57)) ⊎ (((65 ≤ c) × (c ≤ 90)) ⊎ ((97 ≤ c) × (c ≤ 122)))

-- Also `-`, `.`, `:` and `_`.
abbrev pub IsIdChar : ℕ → Type 0
IsIdChar c = IsAlphanumeric c ⊎ ((c ≡ 45) ⊎ ((c ≡ 46) ⊎ ((c ≡ 58) ⊎ (c ≡ 95))))

-- A letter or a digit comes first.
abbrev pub StartsWell : Text → Type 0
StartsWell [] = ⊥
StartsWell (c ∷ s) = IsAlphanumeric c

is_id_char-IsIdChar : (c : ℕ) → is_id_char c ≡ true → IsIdChar c
is_id_char-IsIdChar c h = ground arith

all-All : (s : Text) → all is_id_char s ≡ true → All IsIdChar s
all-All [] h = tt
all-All (c ∷ s) h = (is_id_char-IsIdChar c (ground arith), all-All s (ground arith))

is_stable_id-chars : (id : Text) → is_stable_id id ≡ true → StartsWell id × All IsIdChar id
unfolding is_stable_id
is_stable_id-chars [] h = cc h
is_stable_id-chars (c ∷ s) h =
    let first : IsAlphanumeric c = ground arith in (first, (inl first, all-All s (ground arith)))

is_stable_id-length : (id : Text) → is_stable_id id ≡ true → (1 ≤ length id) × (length id ≤ 128)
unfolding is_stable_id
is_stable_id-length [] h = ground arith
is_stable_id-length (c ∷ s) h =
    let le : leb (length s) 127 ≡ true = ground (arith, h) in
    let bound = leb→le (length s) 127 le in (omega arith, omega (arith, bound))

normalized : (s id : Text) → normalize_stable_id (some (string s)) ≡ ok id → is_stable_id id ≡ true
unfolding normalize_stable_id
normalized s id h =
    let (_, stable, same) = >>=-eq-ok (require (is_stable_id (trim s)) _ _) _ h in
    let is : trim s ≡ id = cc same in rw (← is) (require-eq-ok _ _ _ stable)

-- What normalizeStableId accepts is a stable identifier: from 1 to 128 ASCII letters, digits,
-- dashes, dots, colons and underscores, the first of them a letter or a digit.
pub normalize_stable_id-stable :
    (value : Option Json) (id : Text)
    → normalize_stable_id value ≡ ok id
    → (is_stable_id id ≡ true)
      × StartsWell id
      × All IsIdChar id
      × (1 ≤ length id)
      × (length id ≤ 128)
unfolding normalize_stable_id
normalize_stable_id-stable none id h = cc
normalize_stable_id-stable (some null) id h = cc
normalize_stable_id-stable (some (boolean b)) id h = cc
normalize_stable_id-stable (some (natural k)) id h = cc
normalize_stable_id-stable (some (other_number k)) id h = cc
normalize_stable_id-stable (some (array items)) id h = cc
normalize_stable_id-stable (some (object fields)) id h = cc
normalize_stable_id-stable (some (string s)) id h =
    let stable = normalized s id h in
    let (first, chars) = is_stable_id-chars id stable in
    let (low, high) = is_stable_id-length id stable in (stable, first, chars, low, high)
