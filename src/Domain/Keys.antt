-- ===== src/Domain/Keys.antt =====
-- domain/model.go: the checks of public keys, endpoints and enrollments. What `json.Unmarshal` reads
-- from a key's bytes and what `base64.RawURLEncoding` reads from a thumbprint are the operations of
-- the parameter `Encodings`.
use harness_platform_monorep.Prelude.{
  ℕ, Bool, true, false, not, ◌&&◌, ◌||◌, Option, none, some, List, ltb, ◌==◌, if◌then◌else◌,
  is_none, length, Text, text, text_eq, is_empty, byte_len, trim_space,
}
use harness_platform_monorep.Domain.Problem.{ErrorCode}
use harness_platform_monorep.Domain.Endpoint
use harness_platform_monorep.Domain.Endpoint.{Endpoint, EndpointType, EndpointStatus}
use harness_platform_monorep.Domain.Enrollment.{Enrollment}

-- The fields of a JSON object that the check reads; a text is what `fmt.Sprint` gives, and `kty` and
-- `crv` are missing when they are no strings.
pub record ParsedKey : Type 0 where
  pub kty : Option Text
  pub crv : Option Text
  pub has_d : Bool
  pub x : Option Text
  pub y : Option Text

pub record Encodings : Type 0 where
  pub parse_object : List ℕ → Option ParsedKey
  pub decoded_length : Text → Option ℕ

abbrev is_text : Option Text → Text → Bool
is_text none s = false
is_text (some t) s = text_eq t s

-- A field that is missing or `null` prints as `<nil>`.
abbrev is_present : Option Text → Bool
is_present none = false
is_present (some t) = not (is_empty (trim_space t)) && not (text_eq t (text "<nil>"))

-- `EndpointType.Valid`.
abbrev pub endpoint_type_valid : EndpointType → Bool
endpoint_type_valid EndpointType.unknown = false
endpoint_type_valid _ = true

module _ (encodings : Encodings) where
  -- `validatePublicJWK`.
  unfoldable pub public_key_valid : List ℕ → Bool
  public_key_valid value =
      if length value == 0 || ltb 8192 (length value)
      then false
      else elim (encodings.parse_object value) [
        | none ↦ false
        | some key ↦
            is_text key.kty (text "EC")
            && is_text key.crv (text "P-256")
            && not key.has_d
            && is_present key.x
            && is_present key.y
      ]

  -- `validateJKT`.
  unfoldable pub thumbprint_valid : Text → Bool
  thumbprint_valid value = elim (encodings.decoded_length (trim_space value)) [
    | none ↦ false
    | some size ↦ size == 32
  ]

  -- The tests of the two keys, which `Endpoint.Validate` and `Enrollment.Validate` share.
  unfoldable pub keys_error : List ℕ → List ℕ → Text → Text → Option ErrorCode
  keys_error signing kem signing_jkt kem_jkt =
      if not (public_key_valid signing)
        || not (public_key_valid kem)
        || not (thumbprint_valid signing_jkt)
        || not (thumbprint_valid kem_jkt)
      then some ErrorCode.invalid_argument
      else if text_eq signing_jkt kem_jkt
      then some ErrorCode.security_violation
      else none

  -- `Endpoint.Validate`.
  unfoldable pub validate_endpoint : Endpoint → Option ErrorCode
  validate_endpoint e =
      if e.id == 0
        || is_empty (trim_space e.owner_user_id)
        || not (endpoint_type_valid e.type)
        || is_empty (trim_space e.name)
        || ltb 120 (byte_len (trim_space e.name))
      then some ErrorCode.invalid_argument
      else elim (keys_error e.signing_public_jwk e.kem_public_jwk e.signing_jkt e.kem_jkt) [
        | some c ↦ some c
        | none ↦
            if Endpoint.is_status e.status EndpointStatus.revoked && is_none e.revoked_at
            then some ErrorCode.invalid_state
            else none
      ]

  -- `Enrollment.Validate`.
  unfoldable pub validate_enrollment : Enrollment → Option ErrorCode
  validate_enrollment e =
      if e.id == 0
        || not (endpoint_type_valid e.endpoint_type)
        || is_empty (trim_space e.endpoint_name)
      then some ErrorCode.invalid_argument
      else if e.device_code_hash == 0 || e.user_code_hash == 0
      then some ErrorCode.security_violation
      else if e.expires_at == 0
      then some ErrorCode.invalid_argument
      else keys_error e.signing_public_jwk e.kem_public_jwk e.signing_jkt e.kem_jkt
