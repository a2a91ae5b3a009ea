-- ===== src/Store/Tickets.antt =====
-- store/repository.go: WebSocket tickets. A row holds the ticket's fields; the unique index on
-- `token_hash` and the primary key refuse a second row.
pub mod SingleUse
use harness_platform_monorep.Prelude.{
  ℕ, zero, suc, ◌+◌, ◌-◌, ◌*◌, ◌/◌, ◌%◌, ◌^◌, ◌≤◌, ◌<◌, ◌≡◌, refl, sym, ap, ◌∙◌, ◌≢◌, ◌↔◌, ◌⊎◌, inl,
  inr, Bool, true, false, not, ◌&&◌, ◌||◌, Option, none, some, List, [], ◌∷◌, ◌++◌, map, arith, ltb,
  leb, ◌==◌, if◌then◌else◌, u64_mod, u64_inc, ltb→lt, lt→ltb, leb→le, ==_iff, Bool-cases,
  Option-cases, is_some, is_none, length, take, drop, replicate, length-append, length-take-le,
  keep, any, all, All, All-append, Text, text, text_eq, text_eq_refl, text_eq→eq, is_empty,
  byte_len, trim_space,
}
use harness_platform_monorep.Domain.Problem.{ErrorCode}
use harness_platform_monorep.Domain.Credential.{WsTicket, TicketStatus, is_ticket_status}
use harness_platform_monorep.Store.Table.{
  Result, ok, err, transaction, find, update_where, affected, absent,
}

-- `Store.CreateTicket`.
unfoldable pub create_ticket : WsTicket → ℕ → List WsTicket → List WsTicket × Option ErrorCode
create_ticket t max_ttl rows =
    if t.id == 0
      || t.endpoint_id == 0
      || t.credential_id == 0
      || t.token_hash == 0
      || not (is_ticket_status t.status TicketStatus.issued)
      || is_empty (trim_space t.purpose)
      || is_empty (trim_space t.origin)
      || is_empty (trim_space t.protocol)
      || t.created_at == 0
      || not (ltb t.created_at t.expires_at)
      || max_ttl == 0
      || ltb max_ttl (t.expires_at - t.created_at)
    then (rows, some ErrorCode.invalid_argument)
    else if absent (λ r. r.id == t.id || r.token_hash == t.token_hash) rows
    then (t ∷ rows, none)
    else (rows, some ErrorCode.conflict)

-- The binding that a client presents with a ticket's token.
pub record Binding : Type 0 where
  pub endpoint_id : ℕ
  pub credential_id : ℕ
  pub purpose : Text
  pub origin : Text
  pub protocol : Text

abbrev pub binding_matches : Binding → WsTicket → Bool
binding_matches b t =
    t.endpoint_id == b.endpoint_id
    && t.credential_id == b.credential_id
    && text_eq t.purpose b.purpose
    && text_eq t.origin b.origin
    && text_eq t.protocol b.protocol

-- The `switch` of `ConsumeTicket`.
abbrev pub status_error : TicketStatus → Option ErrorCode
status_error TicketStatus.issued = none
status_error TicketStatus.consumed = some ErrorCode.conflict
status_error TicketStatus.expired = some ErrorCode.expired
status_error TicketStatus.revoked = some ErrorCode.revoked
status_error TicketStatus.unknown = some ErrorCode.invalid_state

-- The condition of the update that consumes a locked ticket, and what it writes.
abbrev pub still_issued : WsTicket → WsTicket → Bool
still_issued t r =
    r.id == t.id && r.row_version == t.row_version && is_ticket_status r.status TicketStatus.issued

abbrev pub as_consumed : ℕ → WsTicket → WsTicket → WsTicket
as_consumed now t r = record r {
  status = TicketStatus.consumed;
  consumed_at = some now;
  row_version = u64_inc t.row_version;
}

abbrev as_expired : WsTicket → WsTicket → WsTicket
as_expired t r = record r { status = TicketStatus.expired; row_version = u64_inc t.row_version }

-- What the transaction of `ConsumeTicket` does with the row that it locked.
unfoldable pub consume_row :
    WsTicket → Binding → ℕ → List WsTicket → List WsTicket × Result WsTicket
consume_row t b now rows =
    if not (binding_matches b t)
    then (rows, err ErrorCode.security_violation)
    else elim (status_error t.status) [
      | some e ↦ (rows, err e)
      | none ↦
          if not (ltb now t.expires_at)
          then (update_where (λ r. r.id == t.id) (as_expired t) rows, err ErrorCode.expired)
          else if affected (still_issued t) rows == 1
          then (update_where (still_issued t) (as_consumed now t) rows, ok (as_consumed now t t))
          else (rows, err ErrorCode.conflict)
    ]

-- `Store.ConsumeTicket`.
unfoldable pub consume_ticket : ℕ → Binding → ℕ → List WsTicket → List WsTicket × Result WsTicket
unfolding consume_row
consume_ticket token_hash b now rows =
    if token_hash == 0 || b.endpoint_id == 0 || b.credential_id == 0
    then (rows, err ErrorCode.invalid_argument)
    else elim (find (λ r. r.token_hash == token_hash) rows) [
      | none ↦ (rows, err ErrorCode.not_found)
      | some t ↦ transaction rows (consume_row t b now rows)
    ]

-- The tickets' part of a revocation: the issued tickets of an endpoint are revoked.
unfoldable pub revoke_tickets : ℕ → List WsTicket → List WsTicket
revoke_tickets endpoint_id rows =
    update_where
      (λ r. r.endpoint_id == endpoint_id && is_ticket_status r.status TicketStatus.issued)
      (λ r. record r { status = TicketStatus.revoked; row_version = u64_inc r.row_version }) rows
