-- ===== src/Middleware/RateLimit.antt =====
-- middleware/rate-limit.ts: a limiter that counts the requests of each key in windows of time. Its
-- `Map` is the list of its entries in the order of insertion; `now` is an argument.
pub mod Size
pub mod Window
use Prim.Native.Nat.{◌/◌}
use open_log_tool_server.Base.{
  ℕ, ◌+◌, ◌-◌, Text, Bool, true, false, List, [], ◌∷◌, Option, none, some, codes, leb, ltb,
  if◌then◌else◌, length,
}
use open_log_tool_server.Base.Dict.{lookup, put, text_key}
use open_log_tool_server.Base.Outcome.{Fault, app_error, rate_limited}

-- RateLimitOptions; `maxKeys` is 10 000 where it is left out.
pub record RateLimitOptions : Type 0 where
  pub window_ms : ℕ
  pub max : ℕ
  pub max_keys : ℕ

pub record Counter : Type 0 where
  pub count : ℕ
  pub reset_at : ℕ

abbrev pub Counters : Type 0
Counters = List (Text × Counter)

-- `a || b || …` over texts that may be undefined.
abbrev pub first_text : List (Option Text) → Text
first_text [] = codes "unknown"
first_text (none ∷ rest) = first_text rest
first_text (some [] ∷ rest) = first_text rest
first_text (some (c ∷ s) ∷ rest) = c ∷ s

-- The key of a request: that of the generator, the address of the client, or that of the socket.
unfoldable pub key_of : Option Text → Option Text → Option Text → Text
key_of generated ip remote_address = first_text (generated ∷ ip ∷ remote_address ∷ [])

abbrev pub fresh : RateLimitOptions → ℕ → Counter
fresh options now = record { count = 0; reset_at = now + options.window_ms }

abbrev pub live_or_fresh : RateLimitOptions → ℕ → Option Counter → Counter
live_or_fresh options now none = fresh options now
live_or_fresh options now (some counter) =
    if leb counter.reset_at now then fresh options now else counter

-- The counter of the request, which it has been counted in.
abbrev pub counted : RateLimitOptions → ℕ → Text → Counters → Counter
counted options now key m =
    let counter = live_or_fresh options now (lookup key m) in
    record counter { count = counter.count + 1 }

-- The sweep over the entries: those that have run out go, until there are few enough; `size` is
-- the size of the map so far.
unfoldable pub sweep : ℕ → ℕ → ℕ → Counters → Counters
sweep now max_keys size [] = []
sweep now max_keys size (entry ∷ rest) =
    let less = sweep now max_keys (size - 1) rest in
    let same = sweep now max_keys size rest in
    if leb entry.1.reset_at now
    then if leb (size - 1) max_keys then rest else less
    else if leb size max_keys
    then entry ∷ rest
    else entry ∷ same

-- The loop that drops the oldest entries.
unfoldable pub drop_oldest : ℕ → Counters → Counters
drop_oldest max_keys [] = []
drop_oldest max_keys (entry ∷ rest) =
    let fewer = drop_oldest max_keys rest in
    if ltb max_keys (length (entry ∷ rest)) then fewer else entry ∷ rest

unfoldable pub clean_up : ℕ → ℕ → Counters → Counters
clean_up now max_keys m =
    if ltb max_keys (length m) then drop_oldest max_keys (sweep now max_keys (length m) m) else m

-- `Math.ceil(ms / 1000)`.
abbrev pub seconds : ℕ → ℕ
seconds ms = (ms + 999) / 1000

abbrev pub at_least_one : ℕ → ℕ
at_least_one n = if leb 1 n then n else 1

-- The headers, and the error that is passed to `next`.
pub record Verdict : Type 0 where
  pub limit : ℕ
  pub remaining : ℕ
  pub reset_seconds : ℕ
  pub retry_after : Option ℕ
  pub fault : Option Fault

abbrev pub verdict_of : RateLimitOptions → ℕ → Counter → Verdict
verdict_of options now counter =
    if ltb options.max counter.count
    then record {
      limit = options.max;
      remaining = options.max - counter.count;
      reset_seconds = seconds counter.reset_at;
      retry_after = some (at_least_one (seconds (counter.reset_at - now)));
      fault = some (app_error 429 rate_limited);
    }
    else record {
      limit = options.max;
      remaining = options.max - counter.count;
      reset_seconds = seconds counter.reset_at;
      retry_after = none;
      fault = none;
    }

-- The handler. A request that is refused returns before the map is cleaned up.
unfoldable pub handle : RateLimitOptions → ℕ → Text → Counters → Verdict × Counters
handle options now key m =
    let counter = counted options now key m in
    let stored = put key counter m in
    (
      verdict_of options now counter,
      if ltb options.max counter.count then stored else clean_up now options.max_keys stored,
    )
