-- ===== src/Tests/Limits.antt =====
-- The limiter's theorems at concrete inputs.
use Prim.Native.Nat.{min}
use open_log_tool_server.Base.{◌≤◌, [], ◌∷◌, codes, text_eq, ◌≡◌, refl, arith, length}
use open_log_tool_server.Base.Dict.{lookup, put}
use open_log_tool_server.Middleware.RateLimit.{RateLimitOptions, Counters, clean_up, handle}
use open_log_tool_server.Middleware.RateLimit.Size.{length-handle}
use open_log_tool_server.Middleware.RateLimit.Window.{Requests, Roomy, asked, passed, passed-window}

abbrev options : RateLimitOptions
options = record { window_ms = 60; max = 2; max_keys = 2 }

abbrev known : Counters
known = (codes "a", record { count = 1; reset_at = 5 }) ∷ []

length-handle_example : length (handle options 3 (codes "b") known).1 ≤ 2
length-handle_example = length-handle options 3 (codes "b") known (omega arith) (omega arith)

-- Two keys, and three requests of the first.
abbrev requests : Requests
requests = (11, codes "b") ∷ (12, codes "a") ∷ (13, codes "a") ∷ []

room : Roomy options ((10, codes "a") ∷ requests) known
unfolding handle clean_up lookup put text_eq
room = (omega arith, (omega arith, (omega arith, (omega arith, tt))))

passed-window_example :
    passed options (codes "a") ((10, codes "a") ∷ requests) known
    ≡ min 2 (asked (codes "a") ((10, codes "a") ∷ requests))
passed-window_example =
    passed-window options (codes "a") 10 requests known (unfold lookup text_eq in refl)
      (omega arith, (omega arith, (omega arith, tt))) room
