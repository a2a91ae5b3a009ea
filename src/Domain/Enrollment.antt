-- ===== src/Domain/Enrollment.antt =====
-- domain/model.go and domain/state.go: an enrollment, by which a device asks to become an endpoint.
-- A status that is none of the declared constants is `unknown`.
pub mod Lifecycle
use harness_platform_monorep.Prelude.{
  ℕ, zero, suc, ◌+◌, ◌-◌, ◌*◌, ◌/◌, ◌%◌, ◌^◌, ◌≤◌, ◌<◌, ◌≡◌, refl, sym, ap, ◌∙◌, ◌≢◌, ◌↔◌, ◌⊎◌, inl,
  inr, Bool, true, false, not, ◌&&◌, ◌||◌, Option, none, some, List, [], ◌∷◌, ◌++◌, map, arith, ltb,
  leb, ◌==◌, if◌then◌else◌, u64_mod, u64_inc, ltb→lt, lt→ltb, leb→le, ==_iff, Bool-cases,
  Option-cases, is_some, is_none, length, take, drop, replicate, length-append, length-take-le,
  keep, any, all, All, All-append, Text, text, text_eq, text_eq_refl, text_eq→eq, is_empty,
  byte_len, trim_space,
}
use harness_platform_monorep.Domain.Problem.{ErrorCode, Outcome, done, fail, on_receiver}
use harness_platform_monorep.Domain.Endpoint.{EndpointType}

pub data EnrollmentStatus : Type 0 where
  pending approved denied expired consumed unknown : EnrollmentStatus

-- `==` on the status's strings.
abbrev pub enrollment_status_code : EnrollmentStatus → ℕ
enrollment_status_code EnrollmentStatus.pending = 0
enrollment_status_code EnrollmentStatus.approved = 1
enrollment_status_code EnrollmentStatus.denied = 2
enrollment_status_code EnrollmentStatus.expired = 3
enrollment_status_code EnrollmentStatus.consumed = 4
enrollment_status_code EnrollmentStatus.unknown = 5

abbrev pub is_status : EnrollmentStatus → EnrollmentStatus → Bool
is_status a b = enrollment_status_code a == enrollment_status_code b

pub record Enrollment : Type 0 where
  pub id : ℕ
  pub owner_user_id : Text
  pub tenant_id : Text
  pub endpoint_type : EndpointType
  pub endpoint_name : Text
  pub device_code_hash : ℕ
  pub user_code_hash : ℕ
  pub signing_public_jwk : List ℕ
  pub kem_public_jwk : List ℕ
  pub signing_jkt : Text
  pub kem_jkt : Text
  pub status : EnrollmentStatus
  pub expires_at : ℕ
  pub approved_by : Text
  pub approved_at : Option ℕ
  pub consumed_at : Option ℕ
  pub endpoint_id : ℕ
  pub row_version : ℕ
  pub created_at : ℕ
  pub updated_at : ℕ

-- `Enrollment.Approve`.
unfoldable pub approve : Text → ℕ → Enrollment → Outcome Enrollment
approve actor now e =
    if not (is_status e.status EnrollmentStatus.pending)
    then fail e ErrorCode.invalid_state
    else if not (ltb now e.expires_at)
    then fail
        (record e {
          status = EnrollmentStatus.expired;
          updated_at = now;
          row_version = u64_inc e.row_version;
        })
        ErrorCode.expired
    else if is_empty (trim_space actor)
    then fail e ErrorCode.invalid_argument
    else done (record e {
      status = EnrollmentStatus.approved;
      approved_by = actor;
      approved_at = some now;
      updated_at = now;
      row_version = u64_inc e.row_version;
    })

-- `Enrollment.Deny`.
unfoldable pub deny : Text → ℕ → Enrollment → Outcome Enrollment
deny actor now e =
    if not (is_status e.status EnrollmentStatus.pending)
    then fail e ErrorCode.invalid_state
    else if is_empty (trim_space actor)
    then fail e ErrorCode.invalid_argument
    else done (record e {
      status = EnrollmentStatus.denied;
      approved_by = actor;
      approved_at = some now;
      updated_at = now;
      row_version = u64_inc e.row_version;
    })

-- `Enrollment.Expire`.
unfoldable pub expire : ℕ → Enrollment → Outcome Enrollment
expire now e =
    if is_status e.status EnrollmentStatus.expired
    then done e
    else if not (is_status e.status EnrollmentStatus.pending)
        && not (is_status e.status EnrollmentStatus.approved)
    then fail e ErrorCode.invalid_state
    else if ltb now e.expires_at
    then fail e ErrorCode.invalid_state
    else done (record e {
      status = EnrollmentStatus.expired;
      updated_at = now;
      row_version = u64_inc e.row_version;
    })

-- `Enrollment.Consume`; the zero ID is the number 0.
unfoldable pub consume : ℕ → ℕ → Enrollment → Outcome Enrollment
consume endpoint_id now e =
    if is_status e.status EnrollmentStatus.consumed
    then (if e.endpoint_id == endpoint_id then done e else fail e ErrorCode.conflict)
    else if not (is_status e.status EnrollmentStatus.approved)
    then fail e ErrorCode.invalid_state
    else if not (ltb now e.expires_at)
    then fail
        (record e {
          status = EnrollmentStatus.expired;
          updated_at = now;
          row_version = u64_inc e.row_version;
        })
        ErrorCode.expired
    else if endpoint_id == 0
    then fail e ErrorCode.invalid_argument
    else done (record e {
      status = EnrollmentStatus.consumed;
      endpoint_id = endpoint_id;
      consumed_at = some now;
      updated_at = now;
      row_version = u64_inc e.row_version;
    })

-- The methods of the life cycle.
pub data Op : Type 0 where
  approve_op : Text → Op
  deny_op : Text → Op
  expire_op : Op
  consume_op : ℕ → Op

unfoldable pub step : Op → ℕ → Enrollment → Outcome Enrollment
unfolding approve deny expire consume
step (approve_op actor) now e = approve actor now e
step (deny_op actor) now e = deny actor now e
step expire_op now e = expire now e
step (consume_op endpoint_id) now e = consume endpoint_id now e

-- A method called through a pointer, which may be nil.
unfoldable pub call : Op → ℕ → Option Enrollment → Outcome (Option Enrollment)
unfolding step
call op now = on_receiver (step op now)
