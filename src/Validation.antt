-- ===== src/Validation.antt =====
-- utils/validation.ts, and the checks of one value in collaboration/access.ts and
-- api/collaboration-sync-v1.ts.
pub mod Timestamp
pub mod Ids
use text.Mathlib.Text.{◌==◌ as str_eq}
use open_log_tool_server.Base.{
  ℕ, zero, suc, ◌+◌, Text, String, Bool, true, false, not, ◌&&◌, ◌||◌, List, [], ◌∷◌, map, Option,
  none, some, leb, ltb, ◌==◌, if◌then◌else◌, trim, length, any, all,
}
use open_log_tool_server.Base.Json.{
  Json, null, boolean, natural, other_number, string, array, object, Fields, get, keys,
}
use open_log_tool_server.Base.Outcome.{
  Result, ok, err, app_error, validation_failed, ◌>>=◌, ◌>>◌, require,
}

abbrev pub max_safe_integer : ℕ
max_safe_integer = 9007199254740991

-- `Array.isArray` and `typeof` are read off the constructor.
unfoldable pub require_json_object : Json → Result Fields
require_json_object (object fields) = ok fields
require_json_object _ = err (app_error 422 validation_failed)

abbrev pub includes : List String → String → Bool
includes allowed key = any (λ k. str_eq k key) allowed

unfoldable pub reject_unknown_keys : Fields → List String → Result (Unit {0})
reject_unknown_keys value allowed =
    require (all (includes allowed) (keys value)) 422 validation_failed

-- The options of `requireString`, with their defaults filled in.
pub record StringOptions : Type 0 where
  pub min : ℕ
  pub max : ℕ
  pub trims : Bool

abbrev pub between : ℕ → ℕ → StringOptions
between min max = record { min = min; max = max; trims = true }

abbrev bounded_text : StringOptions → Text → Result Text
bounded_text options s = do
  require (leb options.min (length s) && leb (length s) options.max) 422 validation_failed
  ok s

unfoldable pub require_string : Fields → String → StringOptions → Result Text
require_string value key options = elim (get key value) [
  | some (string s) ↦ bounded_text options (if options.trims then trim s else s)
  | _ ↦ err (app_error 422 validation_failed)
]

unfoldable pub optional_string : Fields → String → StringOptions → Result (Option Text)
unfolding require_string
optional_string value key options = elim (get key value) [
  | none ↦ ok none
  | some _ ↦ do some_text ← require_string value key options; ok (some some_text)
]

-- A character class of a regular expression, as the test of one code unit.
abbrev pub is_digit : ℕ → Bool
is_digit c = leb b'0' c && leb c b'9'

abbrev pub is_hex : ℕ → Bool
is_hex c = is_digit c || (leb b'a' c && leb c b'f') || (leb b'A' c && leb c b'F')

abbrev pub is_letter : ℕ → Bool
is_letter c = (leb b'a' c && leb c b'z') || (leb b'A' c && leb c b'Z')

abbrev pub is_dash : ℕ → Bool
is_dash c = c == b'-'

-- A text that meets one class for each code unit.
unfoldable pub fits : List (ℕ → Bool) → Text → Bool
fits [] [] = true
fits [] (c ∷ s) = false
fits (p ∷ ps) [] = false
fits (p ∷ ps) (c ∷ s) = p c && fits ps s

abbrev pub repeated : ℕ → (ℕ → Bool) → List (ℕ → Bool) → List (ℕ → Bool)
repeated zero p rest = rest
repeated (suc n) p rest = p ∷ repeated n p rest

abbrev is_uuid_version : ℕ → Bool
is_uuid_version c = leb b'1' c && leb c b'8'

abbrev is_uuid_variant : ℕ → Bool
is_uuid_variant c = c == b'8' || c == b'9' || c == b'a' || c == b'b' || c == b'A' || c == b'B'

abbrev pub uuid_pattern : List (ℕ → Bool)
uuid_pattern = repeated 8 is_hex (
    is_dash
    ∷ repeated 4 is_hex (
        is_dash
        ∷ is_uuid_version
        ∷ repeated 3 is_hex
            (is_dash ∷ is_uuid_variant ∷ repeated 3 is_hex (is_dash ∷ repeated 12 is_hex []))))

-- `toLowerCase` on a text that the pattern has let through, which is ASCII.
unfoldable pub to_lower : ℕ → ℕ
to_lower c = if leb b'A' c && leb c b'Z' then c + 32 else c

unfoldable pub optional_uuid : Fields → String → Result (Option Text)
unfolding optional_string fits to_lower
optional_uuid value key = do
  result ← optional_string value key (between 36 36)
  elim result [
    | none ↦ ok none
    | some s ↦ do require (fits uuid_pattern s) 422 validation_failed; ok (some (map to_lower s))
  ]

-- `uuidField` of collaboration-sync-v1.ts. An empty text is refused before it is tested.
unfoldable pub uuid_field : Fields → String → Result Text
unfolding optional_uuid
uuid_field value key = do
  result ← optional_uuid value key
  elim result [ none ↦ err (app_error 422 validation_failed) | some s ↦ ok s ]

unfoldable pub non_negative_integer : Option Json → Result ℕ
non_negative_integer (some (natural n)) = do
  require (leb n max_safe_integer) 422 validation_failed
  ok n
non_negative_integer _ = err (app_error 422 validation_failed)

abbrev pub is_id_char : ℕ → Bool
is_id_char c = is_letter c || is_digit c || c == b'.' || c == b'_' || c == b':' || c == b'-'

-- `/^[A-Za-z0-9][A-Za-z0-9._:-]{0,127}$/`.
unfoldable pub is_stable_id : Text → Bool
is_stable_id [] = false
is_stable_id (c ∷ s) = (is_letter c || is_digit c) && all is_id_char s && leb (length s) 127

-- `normalizeStableId` of collaboration/access.ts.
unfoldable pub normalize_stable_id : Option Json → Result Text
unfolding is_stable_id trim
normalize_stable_id (some (string s)) = do
  require (is_stable_id (trim s)) 422 validation_failed
  ok (trim s)
normalize_stable_id _ = err (app_error 422 validation_failed)

abbrev pub none_if_empty : Text → Option Text
none_if_empty [] = none
none_if_empty (c ∷ s) = some (c ∷ s)

abbrev nullable_value : ℕ → Json → Result (Option Text)
nullable_value max null = ok none
nullable_value max (string s) = do
  require (leb (length s) max) 422 validation_failed
  ok (none_if_empty (trim s))
nullable_value max _ = err (app_error 422 validation_failed)

unfoldable pub nullable_text : Fields → String → ℕ → Result (Option Text)
nullable_text value key max = elim (get key value) [
  | none ↦ ok none
  | some raw ↦ nullable_value max raw
]
