-- ===== src/Store/Enrollments.antt =====
-- store/repository.go: the table of enrollments, and the endpoints and credentials that a consumed
-- enrollment creates.
pub mod Aba
pub mod Consumed
pub mod Once
use harness_platform_monorep.Prelude.{
  ℕ, zero, suc, ◌+◌, ◌-◌, ◌*◌, ◌/◌, ◌%◌, ◌^◌, ◌≤◌, ◌<◌, ◌≡◌, refl, sym, ap, ◌∙◌, ◌≢◌, ◌↔◌, ◌⊎◌, inl,
  inr, Bool, true, false, not, ◌&&◌, ◌||◌, Option, none, some, List, [], ◌∷◌, ◌++◌, map, arith, ltb,
  leb, ◌==◌, if◌then◌else◌, u64_mod, u64_inc, ltb→lt, lt→ltb, leb→le, ==_iff, Bool-cases,
  Option-cases, is_some, is_none, length, take, drop, replicate, length-append, length-take-le,
  keep, any, all, All, All-append, Text, text, text_eq, text_eq_refl, text_eq→eq, is_empty,
  byte_len, trim_space, trim_space_twice, trim_space-unspaced, byte_len-ascii, is_space,
}
use harness_platform_monorep.Domain.Problem.{ErrorCode}
use harness_platform_monorep.Domain.Id.{id_string}
use harness_platform_monorep.Domain.Audit
use harness_platform_monorep.Domain.Audit.{SecurityAuditEvent, is_endpoint_actor}
use harness_platform_monorep.Domain.Endpoint
use harness_platform_monorep.Domain.Endpoint.{Endpoint, EndpointType, EndpointStatus, is_type}
use harness_platform_monorep.Domain.Enrollment
use harness_platform_monorep.Domain.Enrollment.{Enrollment, EnrollmentStatus, approve, consume}
use harness_platform_monorep.Domain.Keys.{Encodings, validate_endpoint, validate_enrollment}
use harness_platform_monorep.Domain.Credential.{EndpointCredential, RefreshCredential}
use harness_platform_monorep.Store.Table.{
  Result, ok, err, ◌>>=◌, ◌>>◌, guard, try_check, or_error, transaction, find, update_where,
  affected, and_then, insert_row,
}
use harness_platform_monorep.Store.Frames.{bytes_equal}
use harness_platform_monorep.Store.Audit.{audit_row}
use harness_platform_monorep.Store.Refresh.{validate_credential, validate_refresh}

pub record EnrollmentTables : Type 0 where
  pub enrollments : List Enrollment
  pub endpoints : List Endpoint
  pub credentials : List EndpointCredential

-- The keys of the tables that an insert can meet.
abbrev pub enrollment_clash : Enrollment → Enrollment → Bool
enrollment_clash e r =
    r.id == e.id || r.device_code_hash == e.device_code_hash || r.user_code_hash == e.user_code_hash

abbrev pub endpoint_clash : Endpoint → Endpoint → Bool
endpoint_clash e r =
    r.id == e.id
    || (text_eq r.owner_user_id e.owner_user_id
        && (text_eq r.signing_jkt e.signing_jkt || text_eq r.kem_jkt e.kem_jkt))

abbrev pub insert_endpoint : Endpoint → EnrollmentTables → EnrollmentTables × Result (Unit {0})
insert_endpoint e t =
    let (rows, r) = insert_row (endpoint_clash e) e t.endpoints in
    (record t { endpoints = rows }, r)

abbrev pub insert_credential :
    EndpointCredential → EnrollmentTables → EnrollmentTables × Result (Unit {0})
insert_credential c t =
    let (rows, r) =
      insert_row (λ x. x.id == c.id || x.token_hash == c.token_hash) c t.credentials in
    (record t { credentials = rows }, r)

-- The update of `ApproveEnrollment`.
abbrev pub is_enrollment_row : Enrollment → Enrollment → Bool
is_enrollment_row e r = r.id == e.id && r.row_version == e.row_version

abbrev pub with_approval : Text → Enrollment → Enrollment → Enrollment
with_approval owner e' r = record r {
  owner_user_id = owner;
  status = e'.status;
  approved_by = e'.approved_by;
  approved_at = e'.approved_at;
  updated_at = e'.updated_at;
  row_version = e'.row_version;
}

abbrev pub on_enrollments {ℓ} :
    {A : Type ℓ} → EnrollmentTables → List Enrollment × Result A → EnrollmentTables × Result A
on_enrollments t (rows, r) = (record t { enrollments = rows }, r)

-- The transaction of `ApproveEnrollment`, from the row on.
unfoldable pub approve_row :
    Text → ℕ → Enrollment → List Enrollment → List Enrollment × Result Enrollment
approve_row owner now e rows =
    if not (is_empty e.owner_user_id) && not (text_eq e.owner_user_id owner)
    then (rows, err ErrorCode.not_found)
    else (let (e', error) = approve owner now e in
        elim error [
          | some c ↦ (rows, err c)
          | none ↦ (
            update_where (is_enrollment_row e) (with_approval owner e') rows,
            if not (affected (is_enrollment_row e) rows == 1)
                then err ErrorCode.conflict
                else ok (record e' { owner_user_id = owner }),
          )
        ])

-- `Store.ApproveEnrollment`.
unfoldable pub approve_enrollment :
    ℕ → Text → ℕ → List Enrollment → List Enrollment × Result Enrollment
approve_enrollment id owner now rows =
    if id == 0 || is_empty (trim_space owner)
    then (rows, err ErrorCode.invalid_argument)
    else elim (find (λ r. r.id == id) rows) [
      | none ↦ (rows, err ErrorCode.not_found)
      | some e ↦ transaction rows (approve_row owner now e rows)
    ]

-- The update of `ConsumeEnrollment`.
abbrev pub is_approved_row : Enrollment → Enrollment → Bool
is_approved_row e r =
    r.id == e.id
    && r.row_version == e.row_version
    && Enrollment.is_status r.status EnrollmentStatus.approved

abbrev pub with_consumption : ℕ → Enrollment → Enrollment → Enrollment
with_consumption endpoint_id e' r = record r {
  status = e'.status;
  endpoint_id = endpoint_id;
  consumed_at = e'.consumed_at;
  updated_at = e'.updated_at;
  row_version = e'.row_version;
}

unfoldable pub write_consumption :
    ℕ → Enrollment → Enrollment → List Enrollment → List Enrollment × Result (Unit {0})
write_consumption endpoint_id e e' rows = (
  update_where (is_approved_row e) (with_consumption endpoint_id e') rows,
  if not (affected (is_approved_row e) rows == 1) then err ErrorCode.conflict else ok tt,
)

-- The bindings that `ConsumeEnrollment` tests.
abbrev pub matches_endpoint : Enrollment → Endpoint → Bool
matches_endpoint e p = not (
    is_empty e.owner_user_id
    || not (text_eq e.owner_user_id p.owner_user_id)
    || not (is_type e.endpoint_type p.type)
    || not (text_eq e.signing_jkt p.signing_jkt)
    || not (text_eq e.kem_jkt p.kem_jkt)
    || not (bytes_equal e.signing_public_jwk p.signing_public_jwk)
    || not (bytes_equal e.kem_public_jwk p.kem_public_jwk))

-- The writes of `ConsumeEnrollment`.
unfoldable pub create_consumed :
    Endpoint
    → EndpointCredential
    → Enrollment
    → Enrollment
    → EnrollmentTables
    → EnrollmentTables × Result (Unit {0})
create_consumed p c e e' t = and_then (insert_endpoint p t) (λ _ t₁.
    and_then (insert_credential c t₁)
      (λ _ t₂. on_enrollments t₂ (write_consumption p.id e e' t₂.enrollments)))

-- The transaction of `ConsumeEnrollment`, from the row on.
unfoldable pub consume_row :
    Endpoint
    → EndpointCredential
    → ℕ
    → Enrollment
    → EnrollmentTables
    → EnrollmentTables × Result (Unit {0})
consume_row p c now e t =
    if Enrollment.is_status e.status EnrollmentStatus.consumed
    then (t, if e.endpoint_id == p.id then ok tt else err ErrorCode.conflict)
    else if not (matches_endpoint e p)
    then (t, err ErrorCode.security_violation)
    else (let (e', error) = consume p.id now e in
        elim error [ some code ↦ (t, err code) | none ↦ create_consumed p c e e' t ])

module _ (encodings : Encodings) where
  -- `Store.CreateEnrollment`.
  unfoldable pub create_enrollment :
      Enrollment → List Enrollment → List Enrollment × Result (Unit {0})
  create_enrollment e rows = elim (validate_enrollment encodings e) [
    | some c ↦ (rows, err c)
    | none ↦
        if not (Enrollment.is_status e.status EnrollmentStatus.pending)
        then (rows, err ErrorCode.invalid_state)
        else insert_row (enrollment_clash e) e rows
  ]

  -- `validatePersistedEndpoint`.
  unfoldable pub validate_persisted : Endpoint → Option ErrorCode
  validate_persisted p = elim (validate_endpoint encodings p) [
    | some c ↦ some c
    | none ↦
        if p.credential_family_id == 0
          || not (Endpoint.is_status p.status EndpointStatus.active)
          || p.created_at == 0
          || p.updated_at == 0
        then some ErrorCode.invalid_argument
        else none
  ]

  -- `Store.CreateEndpoint`.
  unfoldable pub create_endpoint : Endpoint → List Endpoint → List Endpoint × Result (Unit {0})
  create_endpoint p rows = elim (validate_persisted p) [
    | some c ↦ (rows, err c)
    | none ↦ insert_row (endpoint_clash p) p rows
  ]

  -- The tests of `ConsumeEnrollment` on its arguments.
  unfoldable pub consume_argument_error : ℕ → Endpoint → EndpointCredential → ℕ → Option ErrorCode
  consume_argument_error id p c now =
      if id == 0 then some ErrorCode.invalid_argument else elim (validate_persisted p) [
        | some code ↦ some code
        | none ↦
            if not (validate_credential c p now) then some ErrorCode.security_violation else none
      ]

  -- `Store.ConsumeEnrollment`.
  unfoldable pub consume_enrollment :
      ℕ
      → Endpoint
      → EndpointCredential
      → ℕ
      → EnrollmentTables
      → EnrollmentTables × Result (Unit {0})
  consume_enrollment id p c now t = elim (consume_argument_error id p c now) [
    | some code ↦ (t, err code)
    | none ↦ elim (find (λ r. r.id == id) t.enrollments) [
      | none ↦ (t, err ErrorCode.not_found)
      | some e ↦ transaction t (consume_row p c now e t)
    ]
  ]
