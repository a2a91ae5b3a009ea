-- ===== src/Store/Tickets/SingleUse.antt =====
-- store/repository.go: a ticket admits one connection, before its expiry, with its own binding.
use harness_platform_monorep.Prelude.{
  ℕ, ◌<◌, ◌≡◌, refl, ap, ◌⊎◌, inl, inr, Bool, true, false, ◌||◌, Option, none, some, List, [], ◌∷◌,
  arith, ◌==◌, if◌then◌else◌, Bool-cases, Option-cases,
}
use mathlib.Core.Path.{subst}
use harness_platform_monorep.Domain.Credential.{WsTicket, TicketStatus, is_ticket_status}
use harness_platform_monorep.Store.Table.{
  ok, is_ok, find, update_where, absent, find-holds, find-update_where, absent-find-some,
}
use harness_platform_monorep.Store.Tickets.{
  Binding, binding_matches, create_ticket, consume_ticket, revoke_tickets, still_issued,
  as_consumed,
}

-- The operations on the table of tickets.
pub data Op : Type 0 where
  create : WsTicket → ℕ → Op
  consume : ℕ → Binding → ℕ → Op
  revoke : ℕ → Op

unfoldable pub apply : Op → List WsTicket → List WsTicket
apply (create t max_ttl) rows = (create_ticket t max_ttl rows).0
apply (consume token_hash b now) rows = (consume_ticket token_hash b now rows).0
apply (revoke endpoint_id) rows = revoke_tickets endpoint_id rows

unfoldable pub run : List Op → List WsTicket → List WsTicket
run [] rows = rows
run (op ∷ ops) rows = run ops (apply op rows)

-- The ticket of a token, as `First` finds it.
abbrev pub ticket_of : ℕ → List WsTicket → Option WsTicket
ticket_of token_hash = find (λ r. r.token_hash == token_hash)

abbrev pub IsUsed : Option WsTicket → Type 0
IsUsed none = ⊥
IsUsed (some t) = t.status ≡ TicketStatus.consumed

-- An update of issued tickets that leaves the token alone.
update_issued-IsUsed :
    (hash : ℕ) (p : WsTicket → Bool) (f : WsTicket → WsTicket) (rows : List WsTicket)
    → ((r : WsTicket) → p r ≡ true → is_ticket_status r.status TicketStatus.issued ≡ true)
    → ((r : WsTicket) → ((f r).token_hash == hash) ≡ (r.token_hash == hash))
    → IsUsed (ticket_of hash rows)
    → IsUsed (ticket_of hash (update_where p f rows))
update_issued-IsUsed hash p f rows issued same used =
    rw (find-update_where p (λ r. r.token_hash == hash) f rows same)
      (kept (ticket_of hash rows) used)
  where
    kept :
        (o : Option WsTicket)
        → IsUsed o
        → IsUsed (elim o [ none ↦ none | some x ↦ some (if p x then f x else x) ])
    kept none u = u
    kept (some x) u = elim (Bool-cases (p x)) [
      | inl e ↦ absurd (ground (arith, issued x e))
      | inr e ↦ rw e u
    ]

create_ticket_cases :
    (t : WsTicket) (max_ttl : ℕ) (rows : List WsTicket)
    → ((create_ticket t max_ttl rows).0 ≡ rows)
      ⊎ (((create_ticket t max_ttl rows).0 ≡ t ∷ rows)
          × (absent (λ r. r.id == t.id || r.token_hash == t.token_hash) rows ≡ true))
unfolding create_ticket
create_ticket_cases t max_ttl rows = ground arith

added-IsUsed :
    (hash : ℕ) (t : WsTicket) (rows : List WsTicket)
    → absent (λ r. r.id == t.id || r.token_hash == t.token_hash) rows ≡ true
    → IsUsed (ticket_of hash rows)
    → IsUsed (ticket_of hash (t ∷ rows))
unfolding find
added-IsUsed hash t rows a used = elim (Option-cases (ticket_of hash rows)) [
  | inl e ↦ absurd (rw e at used)
  | inr (x, e) ↦ ground (
    arith,
    absent-find-some (λ r. r.id == t.id || r.token_hash == t.token_hash) (λ r. r.token_hash == hash)
        rows a e,
    find-holds (λ r. r.token_hash == hash) rows e,
  )
]

create-IsUsed :
    (hash : ℕ) (t : WsTicket) (max_ttl : ℕ) (rows : List WsTicket)
    → IsUsed (ticket_of hash rows)
    → IsUsed (ticket_of hash (create_ticket t max_ttl rows).0)
create-IsUsed hash t max_ttl rows used = elim (create_ticket_cases t max_ttl rows) [
  | inl e ↦ rw e used
  | inr (e, a) ↦ rw e (added-IsUsed hash t rows a used)
]

consume_ticket_cases :
    (token_hash : ℕ) (b : Binding) (now : ℕ) (rows : List WsTicket)
    → (((consume_ticket token_hash b now rows).0 ≡ rows)
        × (is_ok (consume_ticket token_hash b now rows).1 ≡ false))
      ⊎ ((t : WsTicket) × (ticket_of token_hash rows ≡ some t)
          × (consume_ticket token_hash b now rows
              ≡ (update_where (still_issued t) (as_consumed now t) rows, ok (as_consumed now t t)))
          × (still_issued t t ≡ true)
          × (binding_matches b t ≡ true)
          × (now < t.expires_at))
unfolding consume_ticket
consume_ticket_cases token_hash b now rows = elim (Option-cases (ticket_of token_hash rows)) [
  | inl e ↦ inl (ground arith, ground arith)
  | inr (t, e) ↦ ground arith
]

consume-IsUsed :
    (hash token_hash : ℕ) (b : Binding) (now : ℕ) (rows : List WsTicket)
    → IsUsed (ticket_of hash rows)
    → IsUsed (ticket_of hash (consume_ticket token_hash b now rows).0)
consume-IsUsed hash token_hash b now rows used = elim (consume_ticket_cases token_hash b now rows) [
  | inl (e, _) ↦ rw e used
  | inr (t, _, e, _, _, _) ↦ rw e (
      update_issued-IsUsed hash (still_issued t) (as_consumed now t) rows (λ r h. ground arith)
        (λ r. refl) used)
]

revoke-IsUsed :
    (hash endpoint_id : ℕ) (rows : List WsTicket)
    → IsUsed (ticket_of hash rows)
    → IsUsed (ticket_of hash (revoke_tickets endpoint_id rows))
unfolding revoke_tickets
revoke-IsUsed hash endpoint_id rows used =
    update_issued-IsUsed hash _ _ rows (λ r h. ground arith) (λ r. refl) used

apply-IsUsed :
    (hash : ℕ) (op : Op) (rows : List WsTicket)
    → IsUsed (ticket_of hash rows)
    → IsUsed (ticket_of hash (apply op rows))
unfolding apply
apply-IsUsed hash (create t max_ttl) rows used = create-IsUsed hash t max_ttl rows used
apply-IsUsed hash (consume token_hash b now) rows used =
    consume-IsUsed hash token_hash b now rows used
apply-IsUsed hash (revoke endpoint_id) rows used = revoke-IsUsed hash endpoint_id rows used

run-IsUsed :
    (hash : ℕ) (ops : List Op) (rows : List WsTicket)
    → IsUsed (ticket_of hash rows)
    → IsUsed (ticket_of hash (run ops rows))
unfolding run
run-IsUsed hash [] rows used = used
run-IsUsed hash (op ∷ ops) rows used =
    run-IsUsed hash ops (apply op rows) (apply-IsUsed hash op rows used)

consumed-IsUsed :
    (hash : ℕ) (b : Binding) (now : ℕ) (rows : List WsTicket)
    → is_ok (consume_ticket hash b now rows).1 ≡ true
    → IsUsed (ticket_of hash (consume_ticket hash b now rows).0)
consumed-IsUsed hash b now rows h = elim (consume_ticket_cases hash b now rows) [
  | inl (_, e) ↦ cc
  | inr (t, found, e, here, _, _) ↦ rw (
    e,
    find-update_where (still_issued t) (λ r. r.token_hash == hash) (as_consumed now t) rows
        (λ r. refl),
    found,
    here,
  )
]

used_refused :
    (hash : ℕ) (b : Binding) (now : ℕ) (rows : List WsTicket)
    → IsUsed (ticket_of hash rows)
    → is_ok (consume_ticket hash b now rows).1 ≡ false
used_refused hash b now rows used = elim (consume_ticket_cases hash b now rows) [
  | inl (_, e) ↦ e
  | inr (t, found, _, here, _, _) ↦ absurd (ground (arith, subst IsUsed found used))
]

-- A ticket is consumed at most once: after a consumption that succeeds, and any further creations,
-- consumptions and revocations, no consumption of the same token succeeds, whatever the binding.
pub consume_once :
    (hash : ℕ) (b b' : Binding) (now now' : ℕ) (ops : List Op) (rows : List WsTicket)
    → is_ok (consume_ticket hash b now rows).1 ≡ true
    → is_ok (consume_ticket hash b' now' (run ops (consume_ticket hash b now rows).0)).1 ≡ false
consume_once hash b b' now now' ops rows h =
    used_refused hash b' now' (run ops (consume_ticket hash b now rows).0)
      (run-IsUsed hash ops (consume_ticket hash b now rows).0 (consumed-IsUsed hash b now rows h))

-- A consumption that fails writes nothing: in particular the expiry that `ConsumeTicket` records is
-- undone with its transaction. One that succeeds finds an issued, unexpired ticket with the
-- presented binding.
pub consume_ticket_lem :
    (hash : ℕ) (b : Binding) (now : ℕ) (rows : List WsTicket)
    → ((is_ok (consume_ticket hash b now rows).1 ≡ false)
        × ((consume_ticket hash b now rows).0 ≡ rows))
      ⊎ ((t : WsTicket) × (ticket_of hash rows ≡ some t)
          × ((consume_ticket hash b now rows).1 ≡ ok (as_consumed now t t))
          × (t.status ≡ TicketStatus.issued)
          × (binding_matches b t ≡ true)
          × (now < t.expires_at))
consume_ticket_lem hash b now rows = elim (consume_ticket_cases hash b now rows) [
  | inl (e, f) ↦ inl (f, e)
  | inr (t, found, e, here, bound, live) ↦
      inr (t, found, ap (λ r. r.1) e, ground arith, bound, live)
]
