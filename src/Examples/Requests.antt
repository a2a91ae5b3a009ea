-- ===== src/Examples/Requests.antt =====
-- Tests of idempotency records and of the requests that create and close sessions.
use harness_platform_monorep.Prelude.{
  ℕ, ◌≡◌, refl, Bool, true, false, some, List, [], ◌∷◌, ◌++◌, arith, ◌==◌, text, trim_space,
}
use harness_platform_monorep.Domain.Endpoint.{Endpoint, EndpointType}
use harness_platform_monorep.Domain.Session.{Session, SessionStatus}
use harness_platform_monorep.Domain.Id.{id_string, hex, parse_id}
use harness_platform_monorep.Domain.Id.RoundTrip.{parse_id-id_string}
use harness_platform_monorep.Domain.Audit
use harness_platform_monorep.Domain.Audit.{SecurityAuditEvent, AuditActorType}
use harness_platform_monorep.Domain.Idempotency.{
  IdempotencyRecord, IdempotencyStatus, validate_request, validate_result, validate,
  safe_audit_value,
}
use harness_platform_monorep.Store.Table.{ok, find, affected, absent, is_ok}
use harness_platform_monorep.Store.Audit.{append_audit}
use harness_platform_monorep.Store.Idempotency.{
  replay, from_row, argument_error, reserve_idempotency, complete_row, complete_idempotency,
  same_scope, same_result,
}
use harness_platform_monorep.Store.Idempotency.Once.{
  reserve_call, complete_call, call, serve, is_acquired, acquired_once,
}
use harness_platform_monorep.Store.Idempotency.Replayed.{completed_replayed}
use harness_platform_monorep.Store.Idempotency.Progress.{acquired_completes}
use harness_platform_monorep.Store.SessionRequests.{
  RequestTables, active_sessions, authorize_creation, authorize_and_create, finish, once,
  create_endpoint_session,
}
use harness_platform_monorep.Store.SessionRequests.Limit.{
  create_request, IsLimited, handle_all, handle_all-IsLimited,
}
use harness_platform_monorep.Store.SessionRequests.Repeated.{create_endpoint_session_repeated}
use harness_platform_monorep.Examples.Data.{hc, session}

-- A stand-in for `json.Valid`: an object's text.
abbrev is_object : List ℕ → Bool
is_object [] = false
is_object (c ∷ s) = c == b'{'

abbrev reservation : IdempotencyRecord
reservation = record {
  id = 71;
  owner_user_id = text "ann ";
  tenant_id = text "home";
  actor_id = id_string 2;
  operation = text "endpoint.session.create";
  idempotency_key = text "0123456789abcdef";
  request_hash = 5;
  status = IdempotencyStatus.in_progress;
  http_status = 0;
  response_json = [];
  error_code = [];
  created_at = 10;
  updated_at = 10;
  expires_at = 100;
  row_version = 0;
}

abbrev response : List ℕ
response = text "{\"id\":\"" ++ (id_string 3 ++ text "\"}")

abbrev completion : IdempotencyRecord
completion = record reservation {
  status = IdempotencyStatus.completed;
  http_status = 201;
  response_json = response;
  updated_at = 20;
}

abbrev retry : IdempotencyRecord
retry = record reservation { id = 81; owner_user_id = text "ann"; created_at = 30 }

parse_id-id_string_example : parse_id (id_string 0xab12) ≡ some 0xab12
parse_id-id_string_example = parse_id-id_string 0xab12 (omega arith) (omega arith)

completed_replayed_example :
    let rows =
      serve is_object
        (reserve_call retry ∷ [])
        (complete_idempotency is_object completion
          (serve is_object (reserve_call reservation ∷ []) [])).0 in
    (v : IdempotencyRecord) × (reserve_idempotency is_object retry rows ≡ (rows, ok (replay, v)))
    × (same_result v completion ≡ true)
unfolding serve call reserve_idempotency complete_idempotency complete_row argument_error from_row
    validate validate_request validate_result safe_audit_value absent find affected same_scope
    trim_space hex
completed_replayed_example =
    completed_replayed is_object (reserve_call reservation ∷ []) (reserve_call retry ∷ [])
      completion retry refl refl refl refl

acquired_once_example :
    is_acquired
      (reserve_idempotency is_object retry (
        serve is_object
          (complete_call completion ∷ [])
          (reserve_idempotency is_object reservation []).0)).1
    ≡ false
unfolding reserve_idempotency argument_error validate validate_request validate_result
    safe_audit_value absent same_scope trim_space hex
acquired_once_example =
    acquired_once is_object reservation retry (complete_call completion ∷ []) [] refl refl

acquired_completes_example :
    is_ok
      (complete_idempotency is_object completion (reserve_idempotency is_object reservation []).0).1
    ≡ true
unfolding reserve_idempotency argument_error validate validate_request validate_result
    safe_audit_value absent same_scope trim_space hex
acquired_completes_example =
    acquired_completes is_object reservation completion [] refl refl refl refl refl

abbrev bridge : Endpoint
bridge = record hc { id = 1; type = EndpointType.aba }

abbrev new_session : Session
new_session = record session { owner_user_id = text "ann "; status = SessionStatus.creating }

abbrev audit : SecurityAuditEvent
audit = record {
  id = 72;
  owner_user_id = text "ann ";
  tenant_id = text "home";
  actor_type = AuditActorType.endpoint;
  actor_id = id_string 2;
  action = text "session.create";
  object_type = text "session";
  object_id = id_string 3;
  result = text "accepted";
  error_code = [];
  metadata = [];
  created_at = 10;
}

abbrev start : RequestTables
start = record {
  tables = record {
    endpoints = hc ∷ bridge ∷ [];
    credentials = [];
    refresh_credentials = [];
    tickets = [];
    key_packages = [];
    sessions = [];
  };
  idempotency = [];
  audits = [];
}

no_sessions : IsLimited []
unfolding IsLimited active_sessions affected
no_sessions aba = omega arith

handle_all-IsLimited_example :
    IsLimited
      (handle_all is_object
        (create_request new_session reservation audit 201 response ∷ [])
        start).tables.sessions
handle_all-IsLimited_example =
    handle_all-IsLimited is_object (create_request new_session reservation audit 201 response ∷ [])
      start no_sessions

create_endpoint_session_repeated_example :
    let t' =
      (create_endpoint_session is_object new_session reservation audit 201 response start).0 in
    create_endpoint_session is_object new_session
      (record reservation { id = 82 })
      audit
      200
      response
      t'
    ≡ (t', ok (response, true))
unfolding create_endpoint_session once finish authorize_and_create authorize_creation
    active_sessions append_audit Audit.validate Audit.validate_metadata reserve_idempotency
    complete_idempotency complete_row argument_error from_row validate validate_request
    validate_result safe_audit_value absent find affected same_scope trim_space hex
create_endpoint_session_repeated_example =
    create_endpoint_session_repeated is_object new_session new_session reservation
      (record reservation { id = 82 }) audit audit 201 200 response response start tt refl refl refl
      refl refl refl
