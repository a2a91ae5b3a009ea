-- ===== src/Store/SessionRequests.antt =====
-- store/session_create.go and store/session_close.go: an endpoint creates or closes a session, with
-- the idempotency record and the audit event of the request in the same transaction. Whether bytes
-- are JSON is the parameter `json_valid`.
pub mod Steps
pub mod Limit
pub mod Repeated
use harness_platform_monorep.Prelude.{
  ℕ, zero, suc, ◌+◌, ◌-◌, ◌*◌, ◌/◌, ◌%◌, ◌^◌, ◌≤◌, ◌<◌, ◌≡◌, refl, sym, ap, ◌∙◌, ◌≢◌, ◌↔◌, ◌⊎◌, inl,
  inr, Bool, true, false, not, ◌&&◌, ◌||◌, Option, none, some, List, [], ◌∷◌, ◌++◌, map, arith, ltb,
  leb, ◌==◌, if◌then◌else◌, u64_mod, u64_inc, ltb→lt, lt→ltb, leb→le, ==_iff, Bool-cases,
  Option-cases, is_some, is_none, length, take, drop, replicate, length-append, length-take-le,
  keep, any, all, All, All-append, Text, text, text_eq, text_eq_refl, text_eq→eq, is_empty,
  byte_len, trim_space, trim_space_twice, trim_space-unspaced, byte_len-ascii, is_space,
}
use harness_platform_monorep.Domain.Problem.{ErrorCode}
use harness_platform_monorep.Domain.Id.{id_string}
use harness_platform_monorep.Domain.Audit.{SecurityAuditEvent, is_endpoint_actor}
use harness_platform_monorep.Domain.Endpoint
use harness_platform_monorep.Domain.Endpoint.{Endpoint, EndpointStatus}
use harness_platform_monorep.Domain.Session
use harness_platform_monorep.Domain.Session.{Session, SessionStatus, close}
use harness_platform_monorep.Domain.Idempotency.{
  IdempotencyRecord, IdempotencyStatus, is_idempotency_status,
}
use harness_platform_monorep.Store.Table.{
  Result, ok, err, ◌>>=◌, ◌>>◌, guard, try_check, or_error, transaction, find, update_where,
  affected, and_then, insert_row,
}
use harness_platform_monorep.Store.Audit.{append_audit}
use harness_platform_monorep.Store.Idempotency.{
  ReserveOutcome, acquired, still_running, replay, reserve_idempotency, complete_idempotency,
}
use harness_platform_monorep.Store.Revocation.{Tables, is_aba}
use harness_platform_monorep.Store.Sessions.{is_session_row, with_session}
use harness_platform_monorep.Store.KeyPackages.{is_hc, is_owned_session}

-- The tables of a request.
pub record RequestTables : Type 0 where
  pub tables : Tables
  pub idempotency : List IdempotencyRecord
  pub audits : List SecurityAuditEvent

abbrev pub on_sessions {ℓ} :
    {A : Type ℓ} → RequestTables → List Session × Result A → RequestTables × Result A
on_sessions t (rows, r) = (record t { tables = record t.tables { sessions = rows } }, r)

abbrev pub on_audits {ℓ} :
    {A : Type ℓ} → RequestTables → List SecurityAuditEvent × Result A → RequestTables × Result A
on_audits t (rows, r) = (record t { audits = rows }, r)

abbrev pub on_idempotency {ℓ} :
    {A : Type ℓ} → RequestTables → List IdempotencyRecord × Result A → RequestTables × Result A
on_idempotency t (rows, r) = (record t { idempotency = rows }, r)

-- `bytes.Contains`.
abbrev starts_with : List ℕ → List ℕ → Bool
starts_with [] s = true
starts_with (c ∷ part) [] = false
starts_with (c ∷ part) (d ∷ s) = c == d && starts_with part s

abbrev pub contains : List ℕ → List ℕ → Bool
contains [] part = is_empty part
contains (c ∷ s) part = starts_with part (c ∷ s) || contains s part

-- The tests of both operations on their arguments.
abbrev pub names_session : Session → IdempotencyRecord → SecurityAuditEvent → Bool
names_session s reservation audit =
    is_idempotency_status reservation.status IdempotencyStatus.in_progress
    && text_eq reservation.owner_user_id s.owner_user_id
    && text_eq reservation.tenant_id s.tenant_id
    && text_eq reservation.actor_id (id_string s.hc_endpoint_id)
    && text_eq audit.owner_user_id s.owner_user_id
    && text_eq audit.tenant_id s.tenant_id
    && is_endpoint_actor audit.actor_type
    && text_eq audit.actor_id (id_string s.hc_endpoint_id)
    && text_eq audit.object_type (text "session")
    && text_eq audit.object_id (id_string s.id)

abbrev pub create_input : Session → IdempotencyRecord → SecurityAuditEvent → ℕ → List ℕ → Bool
create_input s reservation audit http_status response_json =
    names_session s reservation audit
    && not (ltb http_status 200)
    && not (ltb 299 http_status)
    && not (is_empty response_json)
    && contains response_json (id_string s.id)

abbrev pub close_input : Session → IdempotencyRecord → SecurityAuditEvent → List ℕ → Bool
close_input s reservation audit response_json =
    not (s.id == 0)
    && not (s.hc_endpoint_id == 0)
    && names_session s reservation audit
    && text_eq reservation.operation (text "endpoint.session.close")
    && text_eq audit.action (text "session.close")
    && not (is_empty response_json)
    && contains response_json (id_string s.id)
    && contains response_json (text "\"status\":\"CLOSED\"")

-- The statuses that count for the limit.
abbrev pub is_running_session : SessionStatus → Bool
is_running_session SessionStatus.creating = true
is_running_session SessionStatus.waiting_key = true
is_running_session SessionStatus.active = true
is_running_session SessionStatus.rekey_required = true
is_running_session SessionStatus.draining = true
is_running_session SessionStatus.uncertain = true
is_running_session _ = false

abbrev pub max_active_sessions_per_aba : ℕ
max_active_sessions_per_aba = 4

-- `Count` of an ABA endpoint's sessions.
unfoldable pub active_sessions : ℕ → List Session → ℕ
active_sessions aba = affected (λ s. s.aba_endpoint_id == aba && is_running_session s.status)

abbrev pub lock_creation_endpoint : ℕ → Tables → Result Endpoint
lock_creation_endpoint id t = or_error ErrorCode.not_found (find (λ e. e.id == id) t.endpoints)

abbrev pub is_in_scope : Session → Endpoint → Bool
is_in_scope s e =
    text_eq e.owner_user_id (trim_space s.owner_user_id)
    && text_eq e.tenant_id (trim_space s.tenant_id)

abbrev pub is_available : Endpoint → Bool
is_available e = Endpoint.is_status e.status EndpointStatus.active && is_none e.revoked_at

-- The tests of `authorizeAndCreateEndpointSession`.
unfoldable pub authorize_creation : Session → Tables → Result (Unit {0})
authorize_creation s t = do
  aba ← lock_creation_endpoint s.aba_endpoint_id t
  hc ← lock_creation_endpoint s.hc_endpoint_id t
  guard (is_in_scope s aba && is_in_scope s hc) ErrorCode.not_found
  guard (is_aba aba && is_hc hc) ErrorCode.security_violation
  guard (is_available aba && is_available hc) ErrorCode.revoked
  guard (ltb (active_sessions aba.id t.sessions) max_active_sessions_per_aba)
      ErrorCode.resource_limit

-- `authorizeAndCreateEndpointSession`.
unfoldable pub authorize_and_create : Session → RequestTables → RequestTables × Result (Unit {0})
authorize_and_create s t = elim (authorize_creation s t.tables) [
  | err e ↦ (t, err e)
  | ok _ ↦ on_sessions t (insert_row (λ r. r.id == s.id) s t.tables.sessions)
]

-- The row's part of `CloseEndpointSession`.
unfoldable pub close_locked : Session → RequestTables → RequestTables × Result (Unit {0})
close_locked s t =
    elim (find
      (λ r.
        is_owned_session s.id s.owner_user_id s.tenant_id r && r.hc_endpoint_id == s.hc_endpoint_id)
      t.tables.sessions) [
        | none ↦ (t, err ErrorCode.not_found)
        | some row ↦
            let (current, error) = close s.updated_at row in
            elim error [
              | some e ↦ (t, err e)
              | none ↦ on_sessions t (
                update_where (is_session_row row) (with_session current) t.tables.sessions,
                if not (affected (is_session_row row) t.tables.sessions == 1)
                    then err ErrorCode.conflict
                    else ok tt,
              )
            ]
      ]

-- The completed record of a request.
abbrev pub completed_of : IdempotencyRecord → ℕ → List ℕ → ℕ → IdempotencyRecord
completed_of reservation http_status response_json now = record reservation {
  status = IdempotencyStatus.completed;
  http_status = http_status;
  response_json = response_json;
  updated_at = now;
}

-- The `switch` on the reservation.
abbrev pub proceed :
    (RequestTables → RequestTables × Result (List ℕ × Bool))
    → ReserveOutcome × IdempotencyRecord
    → RequestTables
    → RequestTables × Result (List ℕ × Bool)
proceed change (replay, v) t = (t, ok (v.response_json, true))
proceed change (still_running, v) t = (t, err ErrorCode.conflict)
proceed change (acquired, v) t = change t

module _ (json_valid : List ℕ → Bool) where
  -- What follows the change of the session: the audit event and the completion.
  unfoldable pub finish :
      SecurityAuditEvent
      → IdempotencyRecord
      → RequestTables
      → RequestTables × Result (List ℕ × Bool)
  finish audit completed t = and_then (on_audits t (append_audit audit t.audits)) (λ _ t'.
      and_then (on_idempotency t' (complete_idempotency json_valid completed t'.idempotency))
        (λ _ t''. (t'', ok (completed.response_json, false))))

  -- The transaction that both operations share: `change` is what the request does.
  unfoldable pub once :
      IdempotencyRecord
      → (RequestTables → RequestTables × Result (List ℕ × Bool))
      → RequestTables
      → RequestTables × Result (List ℕ × Bool)
  once reservation change t =
      and_then (on_idempotency t (reserve_idempotency json_valid reservation t.idempotency))
        (proceed change)

  -- `Store.CreateEndpointSession`, without the session, which it returns as it was given.
  unfoldable pub create_endpoint_session :
      Session
      → IdempotencyRecord
      → SecurityAuditEvent
      → ℕ
      → List ℕ
      → RequestTables
      → RequestTables × Result (List ℕ × Bool)
  create_endpoint_session s reservation audit http_status response_json t =
      if not (create_input s reservation audit http_status response_json)
      then (t, err ErrorCode.invalid_argument)
      else transaction t (
          once reservation
            (λ t'.
              and_then (authorize_and_create s t') (λ _.
                finish audit (completed_of reservation http_status response_json s.updated_at)))
            t)

  -- `Store.CloseEndpointSession`, without the session.
  unfoldable pub close_endpoint_session :
      Session
      → IdempotencyRecord
      → SecurityAuditEvent
      → List ℕ
      → RequestTables
      → RequestTables × Result (List ℕ × Bool)
  close_endpoint_session s reservation audit response_json t =
      if not (close_input s reservation audit response_json)
      then (t, err ErrorCode.invalid_argument)
      else transaction t (
          once reservation
            (λ t'.
              and_then (close_locked s t')
                (λ _. finish audit (completed_of reservation 200 response_json s.updated_at)))
            t)
