-- ===== src/Examples/Enrolled.antt =====
-- Tests of the enrollments in the store.
use harness_platform_monorep.Prelude.{
  ◌≡◌, refl, ◌⊎◌, true, false, some, [], ◌∷◌, arith, ◌==◌, text, trim_space,
}
use harness_platform_monorep.Domain.Endpoint.{Endpoint, EndpointType}
use harness_platform_monorep.Domain.Enrollment.{Enrollment, EnrollmentStatus, consume}
use harness_platform_monorep.Domain.Keys.{
  Encodings, public_key_valid, thumbprint_valid, keys_error, validate_endpoint,
}
use harness_platform_monorep.Domain.Credential.{EndpointCredential}
use harness_platform_monorep.Store.Table.{ok, find, affected, update_where, absent, is_ok}
use harness_platform_monorep.Store.Enrollments.{
  EnrollmentTables, validate_persisted, consume_argument_error, consume_enrollment, consume_row,
  create_consumed, write_consumption, matches_endpoint,
}
use harness_platform_monorep.Store.Enrollments.Consumed.{IsConsumedFor, consume_enrollment_atomic}
use harness_platform_monorep.Store.Enrollments.Once.{approve_call, serve, enrollment_consumed_once}
use harness_platform_monorep.Store.Enrollments.Aba.{
  AbaTables, Consumption, consume_aba_enrollment, get_enrollment_by_device_code, aba_argument_error,
  consume_aba_row, create_aba, write_aba_consumption, aba_audit_error,
}
use harness_platform_monorep.Store.Enrollments.Aba.Once.{
  aba_enrollment_consumed_once, aba_enrollment_polled,
}
use harness_platform_monorep.Domain.Audit
use harness_platform_monorep.Domain.Audit.{SecurityAuditEvent, AuditActorType}
use harness_platform_monorep.Domain.Id.{id_string, hex}
use harness_platform_monorep.Domain.Idempotency.{safe_audit_value}
use harness_platform_monorep.Examples.Data.{hc, credential, refresh, enrollment}

-- Every key is a public P-256 key, and every thumbprint has 32 bytes.
abbrev encodings : Encodings
encodings = record {
  parse_object = λ bytes. some (record {
    kty = some (text "EC");
    crv = some (text "P-256");
    has_d = false;
    x = some (text "x");
    y = some (text "y");
  });
  decoded_length = λ t. some 32;
}

abbrev bridge : Endpoint
bridge = record hc { id = 1; type = EndpointType.aba }

abbrev bridge_credential : EndpointCredential
bridge_credential = record credential { endpoint_id = 1 }

abbrev approved : EnrollmentTables
approved = record {
  enrollments = record enrollment { status = EnrollmentStatus.approved } ∷ [];
  endpoints = [];
  credentials = [];
}

enrollment_consumed_once_example :
    is_ok
      (consume_enrollment encodings 51
        (record bridge { id = 7 })
        bridge_credential
        60
        (serve encodings
          (approve_call 51 (text "ann") 55 ∷ [])
          (consume_enrollment encodings 51 bridge bridge_credential 50 approved).0)).1
    ≡ false
unfolding consume_enrollment consume_argument_error validate_persisted validate_endpoint keys_error
    public_key_valid thumbprint_valid consume_row consume create_consumed write_consumption find
    affected update_where absent trim_space
enrollment_consumed_once_example =
    enrollment_consumed_once encodings 51 bridge (record bridge { id = 7 }) bridge_credential
      bridge_credential 50 60 (approve_call 51 (text "ann") 55 ∷ []) approved refl (omega arith)

consume_enrollment_atomic_example :
    let r = consume_enrollment encodings 51 bridge bridge_credential 50 approved in
    ((is_ok r.1 ≡ false) × (r.0 ≡ approved))
    ⊎ (IsConsumedFor 51 1 r.0.enrollments
        × ((r.0 ≡ approved)
            ⊎ ((e : Enrollment) × (find (λ x. x.id == 51) approved.enrollments ≡ some e)
                × (e.status ≡ EnrollmentStatus.approved)
                × (matches_endpoint e bridge ≡ true)
                × (r.0.endpoints ≡ bridge ∷ [])
                × (r.0.credentials ≡ bridge_credential ∷ []))))
consume_enrollment_atomic_example =
    consume_enrollment_atomic encodings 51 bridge bridge_credential 50 approved

abbrev aba_consumption : Consumption
aba_consumption = record {
  endpoint = bridge;
  access = bridge_credential;
  refresh = record refresh { endpoint_id = 1 };
  audit = record {
    id = 72;
    owner_user_id = text "ann";
    tenant_id = text "home";
    actor_type = AuditActorType.endpoint;
    actor_id = id_string 1;
    action = text "aba.endpoint.enroll";
    object_type = text "endpoint";
    object_id = id_string 1;
    result = text "success";
    error_code = [];
    metadata = [];
    created_at = 10;
  };
}

abbrev aba_tables : AbaTables
aba_tables = record { enrolled = approved; refresh_credentials = []; audits = [] }

aba_enrollment_consumed_once_example :
    let t = (consume_aba_enrollment encodings 51 52 aba_consumption 50 aba_tables).0 in
    let enrolled' = serve encodings (approve_call 51 (text "ann") 55 ∷ []) t.enrolled in
    (is_ok
        (consume_aba_enrollment encodings 51 52 aba_consumption 60
          (record t { enrolled = enrolled' })).1
      ≡ false)
    × (is_ok
          (consume_enrollment encodings 51
            (record bridge { id = 7 })
            bridge_credential
            60
            enrolled').1
        ≡ false)
unfolding consume_aba_enrollment aba_argument_error aba_audit_error validate_persisted
    validate_endpoint keys_error public_key_valid thumbprint_valid consume_aba_row consume
    create_aba write_aba_consumption Audit.validate Audit.validate_metadata safe_audit_value hex
    find affected update_where absent trim_space
aba_enrollment_consumed_once_example =
    aba_enrollment_consumed_once encodings 51 52 52 aba_consumption aba_consumption
      (record bridge { id = 7 }) bridge_credential 50 60 (approve_call 51 (text "ann") 55 ∷ [])
      aba_tables refl (omega arith)

aba_enrollment_polled_example :
    let t = (consume_aba_enrollment encodings 51 52 aba_consumption 50 aba_tables).0 in
    (v : Enrollment) × (get_enrollment_by_device_code 51 52 900 t.enrolled.enrollments ≡ ok v)
    × (v.status ≡ EnrollmentStatus.consumed)
    × (v.endpoint_id ≡ 1)
unfolding consume_aba_enrollment aba_argument_error aba_audit_error validate_persisted
    validate_endpoint keys_error public_key_valid thumbprint_valid consume_aba_row consume
    create_aba write_aba_consumption Audit.validate Audit.validate_metadata safe_audit_value hex
    find affected update_where absent trim_space
aba_enrollment_polled_example =
    aba_enrollment_polled encodings 51 52 aba_consumption 50 900 aba_tables refl (omega arith)
