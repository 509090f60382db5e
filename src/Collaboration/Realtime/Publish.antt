-- ===== src/Collaboration/Realtime/Publish.antt =====
-- Who hears of an event, and that the connections stay a set.
use open_log_tool_server.Base.{
  Bool, true, false, not, ◌&&◌, ◌||◌, List, [], ◌∷◌, ◌++◌, text_eq, ◌≡◌, refl, sym, ap, ◌∙◌, inl,
  inr, Bool-cases,
}
use mathlib.Core.List.{append-nil, append_assoc}
use open_log_tool_server.Base.Table.{delete}
use open_log_tool_server.Collaboration.Rows.{Event}
use open_log_tool_server.Collaboration.Realtime.{
  Connection, Message, deliver, close, Hub, same, remove, told, publish_to, publish,
}
use open_log_tool_server.Collaboration.Realtime.Expel.{
  IsSetOf, hit, hit_self, delete-same, delete-delete, delete-none, farewells,
}

module _ (returns : Connection → Message → Bool) (p : Connection → Bool) (message : Message) where
  -- The connections that the loop drops.
  abbrev pub broken : Connection → Bool
  broken c = p c && not (returns c message)

  publish_to-calls :
      (cs : List Connection) (h : Hub)
      → (publish_to returns p message cs h).calls ≡ h.calls ++ farewells returns p message cs
  unfolding publish_to told remove
  publish_to-calls [] h = sym (append-nil h.calls)
  publish_to-calls (c ∷ cs) h = elim (Bool-cases (p c)) [
    | inr other ↦ rw (other, publish_to) (publish_to-calls cs h)
    | inl own ↦ elim (Bool-cases (returns c message)) [
      | inl heard ↦
          rw (own, publish_to, heard)
            (publish_to-calls cs _
              ∙ append_assoc h.calls ((c.number, message) ∷ []) (farewells returns p message cs))
      | inr failed ↦
          rw (own, publish_to, failed)
            (publish_to-calls cs _
              ∙ ap (λ xs. xs ++ farewells returns p message cs)
                  (append_assoc h.calls ((c.number, message) ∷ []) ((c.number, close) ∷ []))
              ∙ append_assoc h.calls ((c.number, message) ∷ (c.number, close) ∷ [])
                  (farewells returns p message cs))
    ]
  ]

  publish_to-connections :
      (cs : List Connection) (h : Hub)
      → (publish_to returns p message cs h).connections ≡ delete (hit broken cs) h.connections
  unfolding publish_to told remove
  publish_to-connections [] h = sym (delete-none h.connections)
  publish_to-connections (c ∷ cs) h =
      let after : Bool → List Connection =
        λ b. delete (λ d. (b && same c d) || hit broken cs d) h.connections in
      elim (Bool-cases (p c)) [
        | inr other ↦
            let whole : broken c ≡ false = rw other refl in
            rw (other, publish_to) (publish_to-connections cs h ∙ ap after (sym whole))
        | inl own ↦ elim (Bool-cases (returns c message)) [
          | inl heard ↦
              let whole : broken c ≡ false = rw (own, heard) refl in
              rw (own, publish_to, heard) (publish_to-connections cs _ ∙ ap after (sym whole))
          | inr failed ↦
              let gone : broken c ≡ true = rw (own, failed) refl in
              rw (own, publish_to, failed)
                (publish_to-connections cs _
                  ∙ delete-delete (same c) (hit broken cs) h.connections
                  ∙ ap after (sym gone))
        ]
      ]

-- What a publication does.
pub record Heard (returns : Connection → Message → Bool) (event : Event) (h h' : Hub) : Type 0 where
  pub told :
      h'.calls
      ≡ h.calls
        ++ farewells returns
            (λ c. text_eq c.session_id event.session_id)
            (deliver event)
            h.connections
  pub left :
      h'.connections
      ≡ delete
          (broken returns (λ c. text_eq c.session_id event.session_id) (deliver event))
          h.connections

-- Where the connections are a set, a publication calls each connection of the event's Session
-- once, in the order of the set, closes and removes just those that fail, and keeps all others.
pub publish-Heard :
    (returns : Connection → Message → Bool) (event : Event) (h : Hub)
    → IsSetOf h.connections
    → Heard returns event h (publish returns event h)
unfolding publish
publish-Heard returns event h v =
    let p : Connection → Bool = λ c. text_eq c.session_id event.session_id in
    let b = broken returns p (deliver event) in
    record {
      told = publish_to-calls returns p (deliver event) h.connections h;
      left =
          publish_to-connections returns p (deliver event) h.connections h
          ∙ delete-same (hit b h.connections) b h.connections (hit_self b h.connections v);
    }
