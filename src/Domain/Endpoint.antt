-- ===== src/Domain/Endpoint.antt =====
-- domain/model.go and domain/state.go: an endpoint (an ABA or an HC) and its life cycle.
-- A string that is none of the declared constants is the constructor `unknown`.
pub mod Lifecycle
use harness_platform_monorep.Prelude.{
  ℕ, Bool, true, false, not, ◌&&◌, Option, none, some, List, ◌==◌, if◌then◌else◌, u64_inc, Text,
}
use harness_platform_monorep.Domain.Problem.{ErrorCode, Outcome, done, fail, on_receiver}

pub data EndpointType : Type 0 where
  aba hc_web hc_reference unknown : EndpointType

-- `EndpointType.Valid`.
unfoldable pub endpoint_type_valid : EndpointType → Bool
endpoint_type_valid EndpointType.aba = true
endpoint_type_valid EndpointType.hc_web = true
endpoint_type_valid EndpointType.hc_reference = true
endpoint_type_valid EndpointType.unknown = false

-- `==` on the type's strings.
abbrev pub endpoint_type_code : EndpointType → ℕ
endpoint_type_code EndpointType.aba = 0
endpoint_type_code EndpointType.hc_web = 1
endpoint_type_code EndpointType.hc_reference = 2
endpoint_type_code EndpointType.unknown = 3

abbrev pub is_type : EndpointType → EndpointType → Bool
is_type a b = endpoint_type_code a == endpoint_type_code b

pub data EndpointStatus : Type 0 where
  pending active suspended revoked unknown : EndpointStatus

-- `==` on the status's strings.
abbrev pub endpoint_status_code : EndpointStatus → ℕ
endpoint_status_code EndpointStatus.pending = 0
endpoint_status_code EndpointStatus.active = 1
endpoint_status_code EndpointStatus.suspended = 2
endpoint_status_code EndpointStatus.revoked = 3
endpoint_status_code EndpointStatus.unknown = 4

abbrev pub is_status : EndpointStatus → EndpointStatus → Bool
is_status a b = endpoint_status_code a == endpoint_status_code b

pub record Endpoint : Type 0 where
  pub id : ℕ
  pub owner_user_id : Text
  pub tenant_id : Text
  pub type : EndpointType
  pub name : Text
  pub signing_public_jwk : List ℕ
  pub kem_public_jwk : List ℕ
  pub signing_jkt : Text
  pub kem_jkt : Text
  pub status : EndpointStatus
  pub credential_family_id : ℕ
  pub software_version : Text
  pub platform_name : Text
  pub last_seen_at : Option ℕ
  pub revoked_at : Option ℕ
  pub row_version : ℕ
  pub created_at : ℕ
  pub updated_at : ℕ

-- `Endpoint.Activate`.
unfoldable pub activate : ℕ → Endpoint → Outcome Endpoint
activate now e =
    if not (is_status e.status EndpointStatus.pending)
    then fail e ErrorCode.invalid_state
    else done (record e {
      status = EndpointStatus.active;
      updated_at = now;
      row_version = u64_inc e.row_version;
    })

-- `Endpoint.Suspend`.
unfoldable pub suspend : ℕ → Endpoint → Outcome Endpoint
suspend now e =
    if is_status e.status EndpointStatus.revoked
    then fail e ErrorCode.revoked
    else if not (is_status e.status EndpointStatus.active)
    then fail e ErrorCode.invalid_state
    else done (record e {
      status = EndpointStatus.suspended;
      updated_at = now;
      row_version = u64_inc e.row_version;
    })

-- `Endpoint.Resume`.
unfoldable pub resume : ℕ → Endpoint → Outcome Endpoint
resume now e =
    if is_status e.status EndpointStatus.revoked
    then fail e ErrorCode.revoked
    else if not (is_status e.status EndpointStatus.suspended)
    then fail e ErrorCode.invalid_state
    else done (record e {
      status = EndpointStatus.active;
      updated_at = now;
      row_version = u64_inc e.row_version;
    })

-- `Endpoint.Revoke`.
unfoldable pub revoke : ℕ → Endpoint → Outcome Endpoint
revoke now e =
    if is_status e.status EndpointStatus.revoked
    then done e
    else if not (is_status e.status EndpointStatus.pending)
        && not (is_status e.status EndpointStatus.active)
        && not (is_status e.status EndpointStatus.suspended)
    then fail e ErrorCode.invalid_state
    else done (record e {
      status = EndpointStatus.revoked;
      revoked_at = some now;
      updated_at = now;
      row_version = u64_inc e.row_version;
    })

-- The four methods of the life cycle.
pub data Op : Type 0 where
  activate_op suspend_op resume_op revoke_op : Op

unfoldable pub step : Op → ℕ → Endpoint → Outcome Endpoint
unfolding activate suspend resume revoke
step activate_op now e = activate now e
step suspend_op now e = suspend now e
step resume_op now e = resume now e
step revoke_op now e = revoke now e

-- A method called through a pointer, which may be nil.
unfoldable pub call : Op → ℕ → Option Endpoint → Outcome (Option Endpoint)
unfolding step
call op now = on_receiver (step op now)
