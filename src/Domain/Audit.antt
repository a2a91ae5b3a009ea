-- ===== src/Domain/Audit.antt =====
-- domain/m1_audit.go: security audit events. Metadata, a map, is the list of its entries in the
-- order in which `range` visits them.
use harness_platform_monorep.Prelude.{
  ℕ, Bool, true, false, not, ◌&&◌, ◌||◌, Option, none, some, List, [], ◌∷◌, ltb, ◌==◌,
  if◌then◌else◌, length, any, Text, text, text_eq, is_empty, trim_space,
}
use harness_platform_monorep.Domain.Problem.{ErrorCode}
use harness_platform_monorep.Domain.Idempotency.{is_audit_token, is_audit_code, safe_audit_value}

abbrev pub max_audit_metadata_entries : ℕ
max_audit_metadata_entries = 16

abbrev pub max_audit_metadata_value_bytes : ℕ
max_audit_metadata_value_bytes = 256

pub data AuditActorType : Type 0 where
  human endpoint system unknown : AuditActorType

-- `AuditActorType.Valid`.
abbrev pub actor_type_valid : AuditActorType → Bool
actor_type_valid AuditActorType.unknown = false
actor_type_valid _ = true

abbrev pub is_endpoint_actor : AuditActorType → Bool
is_endpoint_actor AuditActorType.endpoint = true
is_endpoint_actor _ = false

pub record SecurityAuditEvent : Type 0 where
  pub id : ℕ
  pub owner_user_id : Text
  pub tenant_id : Text
  pub actor_type : AuditActorType
  pub actor_id : Text
  pub action : Text
  pub object_type : Text
  pub object_id : Text
  pub result : Text
  pub error_code : Text
  pub metadata : List (Text × Text)
  pub created_at : ℕ

-- `allowedAuditMetadataKeys`.
abbrev pub allowed_metadata_keys : List Text
allowed_metadata_keys =
    text "currentStatus"
    ∷ text "decision"
    ∷ text "endpointType"
    ∷ text "httpStatus"
    ∷ text "keyGeneration"
    ∷ text "previousStatus"
    ∷ text "replayed"
    ∷ text "requestOutcome"
    ∷ text "resourceVersion"
    ∷ text "sessionStatus"
    ∷ []

-- The loop over the metadata.
unfoldable pub validate_metadata : List (Text × Text) → Option ErrorCode
validate_metadata [] = none
validate_metadata ((key, value) ∷ rest) =
    if not (any (text_eq key) allowed_metadata_keys)
    then some ErrorCode.security_violation
    else if not (safe_audit_value value max_audit_metadata_value_bytes)
    then some ErrorCode.invalid_argument
    else validate_metadata rest

-- `SecurityAuditEvent.Validate`.
unfoldable pub validate : SecurityAuditEvent → Option ErrorCode
validate event =
    if event.id == 0
      || is_empty (trim_space event.owner_user_id)
      || not (actor_type_valid event.actor_type)
      || not (safe_audit_value event.actor_id 128)
      || not (is_audit_token event.action)
      || not (is_audit_token event.object_type)
      || not (is_audit_token event.result)
      || not (safe_audit_value event.object_id 256)
    then some ErrorCode.invalid_argument
    else if not (is_empty event.error_code) && not (is_audit_code event.error_code)
    then some ErrorCode.invalid_argument
    else if event.created_at == 0
    then some ErrorCode.invalid_argument
    else if ltb max_audit_metadata_entries (length event.metadata)
    then some ErrorCode.resource_limit
    else validate_metadata event.metadata
