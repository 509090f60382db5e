-- ===== src/Sync/Batch/Published.antt =====
-- What a batch adds to the event log, and what it hands to the subscribers.
use open_log_tool_server.Base.{
  ℕ, ◌+◌, Text, List, [], ◌∷◌, ◌++◌, Option, none, some, ◌≡◌, inl, inr, refl, sym, ap, ◌∙◌,
  Bool-cases,
}
use open_log_tool_server.Base.Json.{Json}
use open_log_tool_server.Base.Runtime.{Runtime}
use open_log_tool_server.Base.Outcome.{Result, ok, err, Outcome, done, raised, attempt}
use open_log_tool_server.Collaboration.Rows.{Event, StoredBody, Database}
use open_log_tool_server.Sync.Operation.{Operation}
use open_log_tool_server.Sync.Sessions.{World}
use open_log_tool_server.Sync.Batch.{Request, Draws, Committed}
use open_log_tool_server.Sync.Route.{
  Served, ends_draft, after_commit, and_result, go_on, run_operations, respond, post_mutations,
}
use open_log_tool_server.Sync.Batch.Transaction.{
  to_list, Grown, append-nil_event, same-Grown, Transacts, run_operation-Transacts,
}

append_assoc : (xs ys zs : List Event) → (xs ++ ys) ++ zs ≡ xs ++ (ys ++ zs)
append_assoc [] ys zs = refl
append_assoc (x ∷ xs) ys zs = ap (◌∷◌ x) (append_assoc xs ys zs)

Grown-append :
    (a b c : Database) (es fs : List Event) → Grown a es b → Grown b fs c → Grown a (es ++ fs) c
Grown-append a b c es fs g h = record {
  log_is = h.log_is ∙ ap (λ xs. xs ++ fs) g.log_is ∙ append_assoc a.events es fs;
  gapless = λ v. h.gapless (g.gapless v);
  kept = λ id row at. h.kept id row (g.kept id row at);
}

-- However a batch ends, the events that it has published are the events that it has added to the
-- log, in their order, and the log is still free of gaps.
pub record Serves (s s' : Served) : Type 0 where
  pub events : List Event
  pub published : s'.published ≡ s.published ++ events
  pub grown : Grown s.world.database events s'.world.database

abbrev pub served : {A : Type 0} → Outcome Served A → Served
served (done a s) = s
served (raised fault s) = s

pub same-Serves :
    (s : Served) (w : World) → w.database ≡ s.world.database → Serves s (record s { world = w })
same-Serves s w same = record {
  events = [];
  published = sym (append-nil_event s.published);
  grown = same-Grown s.world.database w.database same;
}

after_commit-Serves :
    (request : Request) (draws : Draws) (event : Option Event) (s : Served) (w : World)
    → Grown s.world.database (to_list event) w.database
    → Serves s (after_commit request draws event (record s { world = w }))
unfolding after_commit
after_commit-Serves request draws none s w g = record {
  events = [];
  published = sym (append-nil_event s.published);
  grown = g;
}
after_commit-Serves request draws (some event) s w g = elim (Bool-cases (ends_draft event.type)) [
  | inl ends ↦ rw ends (record { events = event ∷ []; published = refl; grown = g })
  | inr goes_on ↦ rw goes_on (record { events = event ∷ []; published = refl; grown = g })
]

pub Serves-trans : (a b c : Served) → Serves a b → Serves b c → Serves a c
Serves-trans a b c v u = record {
  events = v.events ++ u.events;
  published =
      u.published
      ∙ ap (λ xs. xs ++ u.events) v.published
      ∙ append_assoc a.published v.events u.events;
  grown =
      Grown-append a.world.database b.world.database c.world.database v.events u.events v.grown
        u.grown;
}

and_result-served :
    (r : StoredBody) (o : Outcome Served (List StoredBody)) → served (and_result r o) ≡ served o
and_result-served r (done rs s) = refl
and_result-served r (raised fault s) = refl

go_on-Serves :
    (runtime : Runtime) (request : Request) (op : Operation) (draws : Draws) (s : Served)
    (rest : Served → Outcome Served (List StoredBody)) (o : Outcome World Committed)
    → ((s' : Served) → Serves s' (served (rest s')))
    → Transacts runtime request op s.world o
    → Serves s (served (go_on request draws s rest o))
unfolding go_on Transacts
go_on-Serves runtime request op draws s rest (raised fault w) h same = same-Serves s w same
go_on-Serves runtime request op draws s rest (done c w) h g =
    let next = after_commit request draws c.event (record s { world = w }) in
    rw (and_result-served c.result (rest next)) (
      Serves-trans s next (served (rest next)) (after_commit-Serves request draws c.event s w g)
        (h next))

pub run_operations-Serves :
    (runtime : Runtime) (request : Request) (draws : ℕ → Draws) (n : ℕ) (ops : List Operation)
    (s : Served)
    → Serves s (served (run_operations runtime request draws n ops s))
unfolding run_operations
run_operations-Serves runtime request draws n [] s = same-Serves s s.world refl
run_operations-Serves runtime request draws n (op ∷ ops) s =
    go_on-Serves runtime request op (draws n) s _ _
      (λ s'. run_operations-Serves runtime request draws (n + 1) ops s')
      (run_operation-Transacts runtime request op (draws n) s.world)

respond-served :
    (id : Text) (o : Outcome Served (List StoredBody)) → served (respond id o) ≡ served o
respond-served id (done results s) = refl
respond-served id (raised fault s) = refl

attempt-Serves :
    {A B : Type 0} (s : Served) (r : Result A) (k : A → Outcome Served B)
    → ((a : A) → Serves s (served (k a)))
    → Serves s (served (attempt r s k))
unfolding attempt
attempt-Serves s (ok a) k h = h a
attempt-Serves s (err fault) k h = same-Serves s s.world refl

-- Whatever POST /:sessionId/mutations is sent, and however it ends, the events that it has given
-- to the subscribers are just the events that it has added to the database, in their order, a
-- log without gaps stays without gaps, and no stored response is lost.
pub post_mutations-Serves :
    (runtime : Runtime) (draws : ℕ → Draws) (user_id : Text) (session_param : Option Json)
    (body : Json) (s : Served)
    → Serves s (served (post_mutations runtime draws user_id session_param body s))
unfolding post_mutations
post_mutations-Serves runtime draws user_id session_param body s = attempt-Serves s _ _ λ batch.
    rw (respond-served batch.0.session_id (run_operations runtime batch.0 draws 0 batch.1 s))
      (run_operations-Serves runtime batch.0 draws 0 batch.1 s)
