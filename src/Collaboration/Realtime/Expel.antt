-- ===== src/Collaboration/Realtime/Expel.antt =====
-- Who is left when connections are expelled, and what they are told.
use open_log_tool_server.Base.{
  ℕ, Text, text_eq, Bool, true, false, ◌&&◌, ◌||◌, List, [], ◌∷◌, ◌++◌, none, ==_iff, if◌then◌else◌,
  any, All, All-map, ◌≡◌, refl, sym, ap, ◌∙◌, arith, inl, inr, Bool-cases,
}
use mathlib.Core.List.{append-nil, append_assoc}
use open_log_tool_server.Base.Table.{select, delete, select-delete_self}
use open_log_tool_server.Collaboration.Rows.{WsTicket}
use open_log_tool_server.Collaboration.Realtime.{
  Connection, Message, Hub, same, last_words, expel, unused, of_member, joined, is_text, is_member,
  revoke_where, revoke, membership_changed, session_deleted, revoke_member, revoke_user,
  revoke_auth_session, role_changed, end_session,
}

-- No two entries of the set are one object.
abbrev pub IsSetOf : List Connection → Type 0
IsSetOf [] = Unit
IsSetOf (c ∷ cs) = All (λ d. same c d ≡ false) cs × IsSetOf cs

pub delete-delete :
    (p q : Connection → Bool) (xs : List Connection)
    → delete q (delete p xs) ≡ delete (λ d. p d || q d) xs
unfolding delete
delete-delete p q [] = refl
delete-delete p q (x ∷ xs) = ground (arith, delete-delete p q xs)

pub delete-same :
    (p q : Connection → Bool) (xs : List Connection)
    → All (λ d. p d ≡ q d) xs
    → delete p xs ≡ delete q xs
unfolding delete
delete-same p q [] h = refl
delete-same p q (x ∷ xs) (e, h) = ground (arith, delete-same p q xs h)

-- A connection of the list that is picked and is this object.
abbrev pub hit : (Connection → Bool) → List Connection → Connection → Bool
hit p cs d = any (λ c. p c && same c d) cs

hit-apart :
    (p : Connection → Bool) (x : Connection) (cs : List Connection)
    → All (λ d. same x d ≡ false) cs
    → hit p cs x ≡ false
hit-apart p x [] h = refl
hit-apart p x (c ∷ cs) (e, h) =
    let e' : same c x ≡ false = ground (arith, e) in ground (arith, e', hit-apart p x cs h)

and-true : (b : Bool) → (b && true) || false ≡ b
and-true true = refl
and-true false = refl

All-both :
    (P Q : Connection → Type 0) (xs : List Connection)
    → All P xs
    → All Q xs
    → All (λ x. P x × Q x) xs
All-both P Q [] p q = tt
All-both P Q (x ∷ xs) (p, ps) (q, qs) = ((p, q), All-both P Q xs ps qs)

-- In a set, an object is hit if it is picked itself.
pub hit_self :
    (p : Connection → Bool) (cs : List Connection) → IsSetOf cs → All (λ d. hit p cs d ≡ p d) cs
hit_self p [] v = tt
hit_self p (x ∷ cs) (apart, v) =
    let itself : same x x ≡ true = (==_iff x.number x.number).1 refl in
    let alone : hit p cs x ≡ false = hit-apart p x cs apart in
    (
      rw (itself, alone) (and-true (p x)),
      All-map cs (λ d both. let e = both.0 in let e' = both.1 in ground (arith, e, e'))
          (All-both _ _ cs apart (hit_self p cs v)),
    )

pub delete-none : (xs : List Connection) → delete (λ _. false) xs ≡ xs
unfolding delete
delete-none [] = refl
delete-none (x ∷ xs) = ap (◌∷◌ x) (delete-none xs)

module _ (returns : Connection → Message → Bool) where
  expel-connections :
      (p : Connection → Bool) (message : Message) (cs : List Connection) (h : Hub)
      → (expel returns p message cs h).connections ≡ delete (hit p cs) h.connections
  unfolding expel
  expel-connections p message [] h = sym (delete-none h.connections)
  expel-connections p message (c ∷ cs) h =
      let after : Bool → List Connection =
        λ b. delete (λ d. (b && same c d) || hit p cs d) h.connections in
      elim (Bool-cases (p c)) [
        | inl own ↦
            rw (own, expel)
              (expel-connections p message cs _
                ∙ delete-delete (same c) (hit p cs) h.connections
                ∙ ap after (sym own))
        | inr other ↦ rw (other, expel) (expel-connections p message cs h ∙ ap after (sym other))
      ]

  expel-tickets :
      (p : Connection → Bool) (message : Message) (cs : List Connection) (h : Hub)
      → (expel returns p message cs h).ws_tickets ≡ h.ws_tickets
  unfolding expel
  expel-tickets p message [] h = refl
  expel-tickets p message (c ∷ cs) h = elim (Bool-cases (p c)) [
    | inl own ↦ rw (own, expel) (expel-tickets p message cs _)
    | inr other ↦ rw (other, expel) (expel-tickets p message cs h)
  ]

  -- The last calls on the connections that are picked, in the order of the set.
  abbrev pub farewells : (Connection → Bool) → Message → List Connection → List (ℕ × Message)
  farewells p message [] = []
  farewells p message (c ∷ cs) =
      if p c then last_words returns c message ++ farewells p message cs else farewells p message cs

  expel-calls :
      (p : Connection → Bool) (message : Message) (cs : List Connection) (h : Hub)
      → (expel returns p message cs h).calls ≡ h.calls ++ farewells p message cs
  unfolding expel
  expel-calls p message [] h = sym (append-nil h.calls)
  expel-calls p message (c ∷ cs) h = elim (Bool-cases (p c)) [
    | inl own ↦
        rw (own, expel)
          (expel-calls p message cs _
            ∙ append_assoc h.calls (last_words returns c message) (farewells p message cs))
    | inr other ↦ rw (other, expel) (expel-calls p message cs h)
  ]

  pub record Expelled (tickets : WsTicket → Bool) (p : Connection → Bool) (message : Message)
      (h h' : Hub) : Type 0 where
    pub left : h'.connections ≡ delete p h.connections
    pub told : h'.calls ≡ h.calls ++ farewells p message h.connections
    pub spent : h'.ws_tickets ≡ delete (unused returns tickets) h.ws_tickets
    pub no_ticket : select (unused returns tickets) h'.ws_tickets ≡ none
    pub nobody : select p h'.connections ≡ none

  revoke_where-Expelled :
      (tickets : WsTicket → Bool) (p : Connection → Bool) (message : Message) (h : Hub)
      → IsSetOf h.connections
      → Expelled tickets p message h (revoke_where returns tickets p message h)
  unfolding revoke_where
  revoke_where-Expelled tickets p message h v =
      let h1 : Hub = record h { ws_tickets = delete (unused returns tickets) h.ws_tickets } in
      let left =
        expel-connections p message h.connections h1
        ∙ delete-same (hit p h.connections) p h.connections (hit_self p h.connections v) in
      let spent = expel-tickets p message h.connections h1 in
      record {
        left = left;
        told = expel-calls p message h.connections h1;
        spent = spent;
        no_ticket =
            ap (select (unused returns tickets)) spent
            ∙ select-delete_self (unused returns tickets) h.ws_tickets;
        nobody = ap (select p) left ∙ select-delete_self p h.connections;
      }

  -- Where the connections are a set, each of revoke, revokeUser, revokeAuthSession, roleChanged
  -- and sessionDeleted removes just the connections that it is about, tells each of them once,
  -- in the order of the set, closes those that fail, and leaves no unused ticket that it is
  -- about.
  pub revocations-Expelled :
      (session user auth_session reason role : Text) (version : ℕ) (h : Hub)
      → IsSetOf h.connections
      → Expelled
          (of_member returns session user)
          (joined returns session user)
          (revoke reason)
          h
          (revoke_member returns session user reason h)
        × Expelled
            (λ ticket. text_eq ticket.user_id user)
            (λ c. is_member c.audience && is_text c.user_id user)
            (revoke reason)
            h
            (revoke_user returns user reason h)
        × Expelled
            (λ ticket. text_eq ticket.user_id user && is_text ticket.auth_session_id auth_session)
            (λ c.
              is_member c.audience
              && is_text c.user_id user
              && is_text c.auth_session_id auth_session)
            (revoke reason)
            h
            (revoke_auth_session returns user auth_session reason h)
        × Expelled
            (of_member returns session user)
            (joined returns session user)
            (membership_changed role version)
            h
            (role_changed returns session user role version h)
        × Expelled
            (λ ticket. text_eq ticket.session_id session)
            (λ c. text_eq c.session_id session)
            session_deleted
            h
            (end_session returns session h)
  unfolding revoke_member revoke_user revoke_auth_session role_changed end_session
  revocations-Expelled session user auth_session reason role version h v = (
    revoke_where-Expelled _ _ (revoke reason) h v,
    revoke_where-Expelled _ _ (revoke reason) h v,
    revoke_where-Expelled _ _ (revoke reason) h v,
    revoke_where-Expelled _ _ (membership_changed role version) h v,
    revoke_where-Expelled _ _ session_deleted h v,
  )
