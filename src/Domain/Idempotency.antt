-- ===== src/Domain/Idempotency.antt =====
-- domain/m1_idempotency.go and the patterns of domain/m1_audit.go that it uses. Whether bytes are
-- JSON is the parameter `json_valid`, for `json.Valid`. An HTTP status that is negative, which every
-- check refuses as it refuses 1, has no number here.
use harness_platform_monorep.Prelude.{
  ℕ, ◌*◌, Bool, true, false, not, ◌&&◌, ◌||◌, Option, none, some, List, [], ◌∷◌, ltb, leb, ◌==◌,
  if◌then◌else◌, length, any, all, Text, is_empty, byte_len, trim_space,
}
use harness_platform_monorep.Domain.Problem.{ErrorCode}
use harness_platform_monorep.Domain.KeyPackage.{or_default}

abbrev pub max_idempotency_response_bytes : ℕ
max_idempotency_response_bytes = 64 * 1024

pub data IdempotencyStatus : Type 0 where
  in_progress completed unknown : IdempotencyStatus

-- `==` on the status's strings.
abbrev pub idempotency_status_code : IdempotencyStatus → ℕ
idempotency_status_code IdempotencyStatus.in_progress = 0
idempotency_status_code IdempotencyStatus.completed = 1
idempotency_status_code IdempotencyStatus.unknown = 2

abbrev pub is_idempotency_status : IdempotencyStatus → IdempotencyStatus → Bool
is_idempotency_status a b = idempotency_status_code a == idempotency_status_code b

-- `IdempotencyStatus.Valid`.
abbrev pub idempotency_status_valid : IdempotencyStatus → Bool
idempotency_status_valid IdempotencyStatus.unknown = false
idempotency_status_valid _ = true

pub record IdempotencyRecord : Type 0 where
  pub id : ℕ
  pub owner_user_id : Text
  pub tenant_id : Text
  pub actor_id : Text
  pub operation : Text
  pub idempotency_key : Text
  pub request_hash : ℕ
  pub status : IdempotencyStatus
  pub http_status : ℕ
  pub response_json : List ℕ
  pub error_code : Text
  pub created_at : ℕ
  pub updated_at : ℕ
  pub expires_at : ℕ
  pub row_version : ℕ

abbrev is_between : ℕ → ℕ → ℕ → Bool
is_between low high c = leb low c && leb c high

abbrev is_lower : ℕ → Bool
is_lower c = is_between b'a' b'z' c

abbrev is_letter : ℕ → Bool
is_letter c = is_lower c || is_between b'A' b'Z' c

-- `[0-9._:-]`.
abbrev is_mark : ℕ → Bool
is_mark c = is_between b'0' b'9' c || c == b'.' || c == b'_' || c == b':' || c == b'-'

-- `auditTokenPattern`.
abbrev pub is_audit_token : Text → Bool
is_audit_token [] = false
is_audit_token (c ∷ s) = is_lower c && leb (length s) 127 && all (λ d. is_lower d || is_mark d) s

-- `auditCodePattern`.
abbrev pub is_audit_code : Text → Bool
is_audit_code [] = false
is_audit_code (c ∷ s) = is_letter c && leb (length s) 127 && all (λ d. is_letter d || is_mark d) s

-- `forbiddenMetadataValue`, on one character.
abbrev pub is_forbidden : ℕ → Bool
is_forbidden c = leb c 8 || c == 0x0b || c == 0x0c || is_between 0x0e 0x1f c || c == 0x7f

-- `safeAuditValue`. A text is valid UTF-8.
unfoldable pub safe_audit_value : Text → ℕ → Bool
safe_audit_value value max_bytes =
    let v = trim_space value in
    not (is_empty v) && leb (byte_len v) max_bytes && not (any is_forbidden v)

-- `ValidateIdempotencyKey`.
abbrev pub validate_idempotency_key : Text → Option ErrorCode
validate_idempotency_key value =
    if not (all (is_between 0x21 0x7e) value && leb 16 (length value) && leb (length value) 128)
    then some ErrorCode.invalid_argument
    else none

-- The tests of `Validate` before its `switch`.
unfoldable pub validate_request : IdempotencyRecord → Option ErrorCode
validate_request r =
    if r.id == 0
    then some ErrorCode.invalid_argument
    else if is_empty (trim_space r.owner_user_id) || not (safe_audit_value r.actor_id 128)
    then some ErrorCode.invalid_argument
    else if not (is_audit_token r.operation)
    then some ErrorCode.invalid_argument
    else elim (validate_idempotency_key r.idempotency_key) [
      | some e ↦ some e
      | none ↦
          if r.request_hash == 0 || not (idempotency_status_valid r.status)
          then some ErrorCode.invalid_argument
          else if r.created_at == 0 || r.updated_at == 0 || not (ltb r.created_at r.expires_at)
          then some ErrorCode.invalid_argument
          else none
    ]

module _ (json_valid : List ℕ → Bool) where
  -- The `switch` of `Validate`.
  unfoldable pub validate_result : ℕ → IdempotencyRecord → Option ErrorCode
  validate_result max r = elim r.status [
    | IdempotencyStatus.in_progress ↦
        if not (r.http_status == 0) || not (is_empty r.response_json) || not (is_empty r.error_code)
        then some ErrorCode.invalid_state
        else none
    | IdempotencyStatus.completed ↦
        if ltb r.http_status 100
          || ltb 599 r.http_status
          || is_empty r.response_json
          || ltb max (length r.response_json)
          || not (json_valid r.response_json)
        then some ErrorCode.invalid_argument
        else if not (is_empty r.error_code) && not (is_audit_code r.error_code)
        then some ErrorCode.invalid_argument
        else none
    | IdempotencyStatus.unknown ↦ none
  ]

  -- `IdempotencyRecord.Validate`.
  unfoldable pub validate : ℕ → IdempotencyRecord → Option ErrorCode
  validate max_response_bytes r = elim (validate_request r) [
    | some e ↦ some e
    | none ↦ validate_result (or_default max_response_bytes max_idempotency_response_bytes) r
  ]
