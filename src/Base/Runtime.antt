-- ===== src/Base/Runtime.antt =====
-- What the language's library computes from tables, from floating point or by cryptography, and is
-- not defined here: the definitions that use it take it as a parameter.
use Prim.Native.Nat.{ℕ}
use Prim.Native.String.{String}
use mathlib.Core.Bool.{Bool}
use open_log_tool_server.Base.Texts.{Text}
use open_log_tool_server.Base.Json.{Json}

pub record Runtime : Type 0 where
  -- `String.prototype.toUpperCase`.
  pub to_upper_case : Text → Text
  -- `Number.isFinite(Date.parse(text))`.
  pub parses_as_date : Text → Bool
  -- `JSON.stringify`, and the length of a text in UTF-8.
  pub stringify : Json → Text
  pub byte_length : Text → ℕ
  -- The hexadecimal SHA-256 digest of a text.
  pub sha256_hex : Text → Text
  -- `left.localeCompare(right) <= 0`.
  pub locale_le : String → String → Bool
