-- ===== src/Store/Enrollments/Aba.antt =====
-- store/aba_enrollment.go: the consumption of an enrollment by an ABA bridge, which also creates its
-- refresh credential and its audit event.
pub mod Consumed
pub mod Once
use harness_platform_monorep.Prelude.{
  ℕ, zero, suc, ◌+◌, ◌-◌, ◌*◌, ◌/◌, ◌%◌, ◌^◌, ◌≤◌, ◌<◌, ◌≡◌, refl, sym, ap, ◌∙◌, ◌≢◌, ◌↔◌, ◌⊎◌, inl,
  inr, Bool, true, false, not, ◌&&◌, ◌||◌, Option, none, some, List, [], ◌∷◌, ◌++◌, map, arith, ltb,
  leb, ◌==◌, if◌then◌else◌, u64_mod, u64_inc, ltb→lt, lt→ltb, leb→le, ==_iff, Bool-cases,
  Option-cases, is_some, is_none, length, take, drop, replicate, length-append, length-take-le,
  keep, any, all, All, All-append, Text, text, text_eq, text_eq_refl, text_eq→eq, is_empty,
  byte_len, trim_space, trim_space_twice, trim_space-unspaced, byte_len-ascii, is_space,
}
use harness_platform_monorep.Domain.Problem.{ErrorCode}
use harness_platform_monorep.Domain.Id.{id_string}
use harness_platform_monorep.Domain.Audit
use harness_platform_monorep.Domain.Audit.{SecurityAuditEvent, is_endpoint_actor}
use harness_platform_monorep.Domain.Endpoint.{Endpoint, EndpointType, is_type}
use harness_platform_monorep.Domain.Enrollment
use harness_platform_monorep.Domain.Enrollment.{Enrollment, EnrollmentStatus, consume}
use harness_platform_monorep.Domain.Keys.{Encodings}
use harness_platform_monorep.Domain.Credential.{EndpointCredential, RefreshCredential}
use harness_platform_monorep.Store.Table.{
  Result, ok, err, transaction, find, update_where, affected, and_then, insert_row,
}
use harness_platform_monorep.Store.Audit.{audit_row}
use harness_platform_monorep.Store.Refresh.{validate_credential, validate_refresh}
use harness_platform_monorep.Store.Enrollments.{
  EnrollmentTables, insert_endpoint, insert_credential, is_approved_row, validate_persisted,
}

pub record AbaTables : Type 0 where
  pub enrolled : EnrollmentTables
  pub refresh_credentials : List RefreshCredential
  pub audits : List SecurityAuditEvent

-- What is handed to `ConsumeABAEnrollment` beside the enrollment.
pub record Consumption : Type 0 where
  pub endpoint : Endpoint
  pub access : EndpointCredential
  pub refresh : RefreshCredential
  pub audit : SecurityAuditEvent

abbrev pub on_enrolled {ℓ} :
    {A : Type ℓ} → AbaTables → EnrollmentTables × Result A → AbaTables × Result A
on_enrolled t (b, r) = (record t { enrolled = b }, r)

abbrev pub insert_refresh : RefreshCredential → AbaTables → AbaTables × Result (Unit {0})
insert_refresh c t =
    let (rows, r) =
      insert_row (λ x. x.id == c.id || x.token_hash == c.token_hash) c t.refresh_credentials in
    (record t { refresh_credentials = rows }, r)

abbrev pub insert_audit : SecurityAuditEvent → AbaTables → AbaTables × Result (Unit {0})
insert_audit a t =
    let (rows, r) = insert_row (λ x. x.id == a.id) (audit_row a) t.audits in
    (record t { audits = rows }, r)

-- The update of `ConsumeABAEnrollment`.
abbrev pub with_aba_consumption : ℕ → ℕ → Enrollment → Enrollment → Enrollment
with_aba_consumption endpoint_id now e' r = record r {
  status = e'.status;
  endpoint_id = endpoint_id;
  consumed_at = some now;
  updated_at = now;
  row_version = e'.row_version;
}

unfoldable pub write_aba_consumption :
    ℕ → ℕ → Enrollment → Enrollment → AbaTables → AbaTables × Result (Unit {0})
write_aba_consumption endpoint_id now e e' t =
    let rows = t.enrolled.enrollments in
    (
      record t {
        enrolled = record t.enrolled {
          enrollments =
              update_where (is_approved_row e) (with_aba_consumption endpoint_id now e') rows;
        };
      },
      if not (affected (is_approved_row e) rows == 1) then err ErrorCode.conflict else ok tt,
    )

-- The bindings that `ConsumeABAEnrollment` tests.
abbrev pub aba_matches : Enrollment → Endpoint → ℕ → Bool
aba_matches e p now = not (
    not (Enrollment.is_status e.status EnrollmentStatus.approved)
    || not (text_eq e.owner_user_id p.owner_user_id)
    || not (text_eq e.tenant_id p.tenant_id)
    || not (is_type e.endpoint_type p.type)
    || not (text_eq e.signing_jkt p.signing_jkt)
    || not (text_eq e.kem_jkt p.kem_jkt)
    || not (ltb now e.expires_at))

-- `validateABAEnrollmentAudit`.
unfoldable pub aba_audit_error : SecurityAuditEvent → Endpoint → Option ErrorCode
aba_audit_error a p = elim (Audit.validate a) [
  | some c ↦ some c
  | none ↦
      if not (text_eq a.owner_user_id p.owner_user_id)
        || not (text_eq a.tenant_id p.tenant_id)
        || not (is_endpoint_actor a.actor_type)
        || not (text_eq a.actor_id (id_string p.id))
        || not (text_eq a.action (text "aba.endpoint.enroll"))
        || not (text_eq a.object_type (text "endpoint"))
        || not (text_eq a.object_id (id_string p.id))
        || not (text_eq a.result (text "success"))
      then some ErrorCode.security_violation
      else none
]

-- The writes of `ConsumeABAEnrollment`.
unfoldable pub create_aba :
    Consumption → ℕ → Enrollment → Enrollment → AbaTables → AbaTables × Result (Unit {0})
create_aba c now e e' t = and_then (on_enrolled t (insert_endpoint c.endpoint t.enrolled)) (λ _ t₁.
    and_then (on_enrolled t₁ (insert_credential c.access t₁.enrolled)) (λ _ t₂.
      and_then (insert_refresh c.refresh t₂) (λ _ t₃.
        and_then (insert_audit c.audit t₃)
          (λ _ t₄. write_aba_consumption c.endpoint.id now e e' t₄))))

-- The transaction of `ConsumeABAEnrollment`, from the row on.
unfoldable pub consume_aba_row :
    ℕ → Consumption → ℕ → Enrollment → AbaTables → AbaTables × Result (Unit {0})
consume_aba_row device_code_hash c now e t =
    if not (e.device_code_hash == device_code_hash)
    then (t, err ErrorCode.not_found)
    else if Enrollment.is_status e.status EnrollmentStatus.consumed
    then (t, err ErrorCode.conflict)
    else if not (aba_matches e c.endpoint now)
    then (t, err ErrorCode.security_violation)
    else (let (e', error) = consume c.endpoint.id now e in
        elim error [ some code ↦ (t, err code) | none ↦ create_aba c now e e' t ])

-- `Store.GetEnrollmentByDeviceCode`.
unfoldable pub get_enrollment_by_device_code : ℕ → ℕ → ℕ → List Enrollment → Result Enrollment
get_enrollment_by_device_code id device_code_hash now rows =
    if id == 0 || device_code_hash == 0 || now == 0
    then err ErrorCode.invalid_argument
    else elim (find (λ r. r.id == id) rows) [
      | none ↦ err ErrorCode.not_found
      | some e ↦
          if not (e.device_code_hash == device_code_hash)
          then err ErrorCode.not_found
          else if not (Enrollment.is_status e.status EnrollmentStatus.consumed)
              && not (ltb now e.expires_at)
          then ok (record e { status = EnrollmentStatus.expired })
          else ok e
    ]

module _ (encodings : Encodings) where
  -- The tests of `ConsumeABAEnrollment` on its arguments.
  unfoldable pub aba_argument_error : ℕ → ℕ → Consumption → ℕ → Option ErrorCode
  aba_argument_error id device_code_hash c now =
      let p = c.endpoint in
      if id == 0
        || device_code_hash == 0
        || not (is_type p.type EndpointType.aba)
        || is_empty (trim_space p.owner_user_id)
        || now == 0
      then some ErrorCode.invalid_argument
      else elim (validate_persisted encodings p) [
        | some code ↦ some code
        | none ↦
            if not (validate_credential c.access p now) || not (validate_refresh c.refresh p now)
            then some ErrorCode.security_violation
            else aba_audit_error c.audit p
      ]

  -- `Store.ConsumeABAEnrollment`.
  unfoldable pub consume_aba_enrollment :
      ℕ → ℕ → Consumption → ℕ → AbaTables → AbaTables × Result (Unit {0})
  consume_aba_enrollment id device_code_hash c now t =
      elim (aba_argument_error id device_code_hash c now) [
        | some code ↦ (t, err code)
        | none ↦ elim (find (λ r. r.id == id) t.enrolled.enrollments) [
          | none ↦ (t, err ErrorCode.not_found)
          | some e ↦ transaction t (consume_aba_row device_code_hash c now e t)
        ]
      ]
