-- ===== src/Sync/Batch/History.antt =====
-- Sending an operation again after any number of later batches.
use open_log_tool_server.Base.{ℕ, Text, List, [], ◌∷◌, Option, none, ◌≡◌, refl}
use open_log_tool_server.Base.Json.{Json}
use open_log_tool_server.Base.Runtime.{Runtime}
use open_log_tool_server.Base.Outcome.{done}
use open_log_tool_server.Sync.Operation.{Operation}
use open_log_tool_server.Sync.Sessions.{World}
use open_log_tool_server.Sync.Batch.{Request, Draws, Committed, run_operation}
use open_log_tool_server.Sync.Route.{Served, post_mutations}
use open_log_tool_server.Sync.Batch.Replay.{
  run_operation-row, run_operation-answer, answer_of, answer_of-event,
}
use open_log_tool_server.Sync.Batch.Published.{
  Serves, Serves-trans, same-Serves, served, post_mutations-Serves,
}

-- A request for the route, with what it draws.
pub record Sent : Type 0 where
  pub draws : ℕ → Draws
  pub user_id : Text
  pub session_param : Option Json
  pub body : Json

-- The requests of any clients, one after the other.
unfoldable pub after_all : Runtime → List Sent → Served → Served
after_all runtime [] s = s
after_all runtime (r ∷ rs) s =
    after_all runtime rs
      (served (post_mutations runtime r.draws r.user_id r.session_param r.body s))

pub after_all-Serves :
    (runtime : Runtime) (sent : List Sent) (s : Served) → Serves s (after_all runtime sent s)
unfolding after_all
after_all-Serves runtime [] s = same-Serves s s.world refl
after_all-Serves runtime (r ∷ rs) s =
    let next = served (post_mutations runtime r.draws r.user_id r.session_param r.body s) in
    Serves-trans s next (after_all runtime rs next)
      (post_mutations-Serves runtime r.draws r.user_id r.session_param r.body s)
      (after_all-Serves runtime rs next)

-- Once an operation of a batch has committed, sending it again after any requests of any clients
-- for the route changes nothing, adds no event and returns the result of the first run.
pub after_all-repeated :
    (runtime : Runtime) (request : Request) (op : Operation) (draws later : Draws) (w : World)
    (c : Committed) (sent : List Sent) (s : Served)
    → run_operation runtime request op draws w ≡ done c s.world
    → let w' = (after_all runtime sent s).world in
      (again : Committed) × (run_operation runtime request op later w' ≡ done again w')
      × (again.result ≡ c.result)
      × (again.event ≡ none)
after_all-repeated runtime request op draws later w c sent s h =
    let (row, at, same) = run_operation-row runtime request op draws w s.world c h in
    let v = after_all-Serves runtime sent s in
    (
      answer_of runtime request op row,
      run_operation-answer runtime request op later (after_all runtime sent s).world row
          (v.grown.kept op.mutation_id row at),
      same,
      answer_of-event runtime request op row,
    )
