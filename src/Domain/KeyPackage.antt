-- ===== src/Domain/KeyPackage.antt =====
-- domain/key_package_security.go: the checks on a session's key packages, and their
-- acknowledgement. An `int` limit that is not positive is 0.
pub mod Issuance
use harness_platform_monorep.Prelude.{
  ℕ, zero, suc, ◌+◌, ◌-◌, ◌*◌, ◌/◌, ◌%◌, ◌^◌, ◌≤◌, ◌<◌, ◌≡◌, refl, sym, ap, ◌∙◌, ◌≢◌, ◌↔◌, ◌⊎◌, inl,
  inr, Bool, true, false, not, ◌&&◌, ◌||◌, Option, none, some, List, [], ◌∷◌, ◌++◌, map, arith, ltb,
  leb, ◌==◌, if◌then◌else◌, u64_mod, u64_inc, ltb→lt, lt→ltb, leb→le, ==_iff, Bool-cases,
  Option-cases, is_some, is_none, length, take, drop, replicate, length-append, length-take-le,
  keep, any, all, All, All-append, Text, text, text_eq, text_eq_refl, text_eq→eq, is_empty,
  byte_len, trim_space,
}
use harness_platform_monorep.Domain.Problem.{ErrorCode, Outcome, done, fail, on_receiver}
use harness_platform_monorep.Domain.Endpoint
use harness_platform_monorep.Domain.Endpoint.{EndpointStatus}
use harness_platform_monorep.Domain.Session.{Session, SessionStatus}
use harness_platform_monorep.Domain.Credential.{SessionKeyPackage, KeyPackageStatus}

abbrev pub max_encapsulated_key_bytes : ℕ
max_encapsulated_key_bytes = 512

abbrev pub max_ciphertext_bytes : ℕ
max_ciphertext_bytes = 16384

abbrev pub max_uint64 : ℕ
max_uint64 = u64_mod - 1

abbrev pub package_status_code : KeyPackageStatus → ℕ
package_status_code KeyPackageStatus.pending = 0
package_status_code KeyPackageStatus.delivered = 1
package_status_code KeyPackageStatus.acknowledged = 2
package_status_code KeyPackageStatus.expired = 3
package_status_code KeyPackageStatus.revoked = 4
package_status_code KeyPackageStatus.unknown = 5

abbrev pub is_package_status : KeyPackageStatus → KeyPackageStatus → Bool
is_package_status a b = package_status_code a == package_status_code b

-- `KeyPackageStatus.Valid`.
abbrev pub package_status_valid : KeyPackageStatus → Bool
package_status_valid KeyPackageStatus.unknown = false
package_status_valid _ = true

-- `ValidateKeyPackageCryptoSuite`.
abbrev pub validate_crypto_suite : ℕ → Option ErrorCode
validate_crypto_suite suite =
    if suite == 0
    then some ErrorCode.invalid_argument
    else if suite == 1
    then none
    else some ErrorCode.security_violation

-- `EndpointStatus.AllowsSessionKeyPackage`.
abbrev pub allows_session_key_package : EndpointStatus → Bool
allows_session_key_package status = Endpoint.is_status status EndpointStatus.active

-- The `switch` of `Session.ValidateNextKeyPackageGeneration`.
abbrev pub next_generation_error : SessionStatus → ℕ → ℕ → Option ErrorCode
next_generation_error SessionStatus.waiting_key current generation =
    if not (current == 0) || not (generation == 1) then some ErrorCode.invalid_state else none
next_generation_error SessionStatus.rekey_required current generation =
    if current == 0 || current == max_uint64 || not (generation == current + 1)
    then some ErrorCode.invalid_state
    else none
next_generation_error _ current generation = some ErrorCode.invalid_state

-- `Session.ValidateNextKeyPackageGeneration`.
unfoldable pub validate_next_generation : ℕ → Session → Option ErrorCode
validate_next_generation generation s =
    if generation == 0
    then some ErrorCode.invalid_argument
    else next_generation_error s.status s.current_key_generation generation

abbrev pub or_default : ℕ → ℕ → ℕ
or_default value default = if value == 0 then default else value

-- The last tests of `Validate`, on the times.
abbrev pub validate_times : SessionKeyPackage → Option ErrorCode
validate_times p =
    if p.created_at == 0 || not (ltb p.created_at p.expires_at)
    then some ErrorCode.invalid_argument
    else if is_package_status p.status KeyPackageStatus.acknowledged && is_none p.acknowledged_at
    then some ErrorCode.invalid_state
    else elim p.acknowledged_at [
      | none ↦ none
      | some at ↦ if ltb at p.created_at then some ErrorCode.invalid_argument else none
    ]

-- `SessionKeyPackage.Validate`, from the suite's test on.
abbrev pub validate_material : ℕ → ℕ → SessionKeyPackage → Option ErrorCode
validate_material max_key max_text p = elim (validate_crypto_suite p.crypto_suite) [
  | some e ↦ some e
  | none ↦
      if length p.encapsulated_key == 0
        || ltb max_key (length p.encapsulated_key)
        || length p.ciphertext == 0
        || ltb max_text (length p.ciphertext)
      then some ErrorCode.resource_limit
      else if p.context_hash == 0
          || not (length p.issuer_signature == 64)
          || all (λ b. b == 0) p.issuer_signature
      then some ErrorCode.invalid_argument
      else validate_times p
]

-- `SessionKeyPackage.Validate`.
unfoldable pub validate : ℕ → ℕ → SessionKeyPackage → Option ErrorCode
validate max_key max_text p =
    if p.id == 0
      || p.session_id == 0
      || p.issuer_aba_endpoint_id == 0
      || p.recipient_hc_endpoint_id == 0
      || p.issuer_credential_id == 0
    then some ErrorCode.invalid_argument
    else if p.issuer_aba_endpoint_id == p.recipient_hc_endpoint_id
    then some ErrorCode.security_violation
    else if p.generation == 0 || not (package_status_valid p.status)
    then some ErrorCode.invalid_argument
    else validate_material (or_default max_key max_encapsulated_key_bytes)
        (or_default max_text max_ciphertext_bytes) p

-- `SessionKeyPackage.Acknowledge`, on a receiver that is not nil.
unfoldable pub acknowledge : ℕ → ℕ → SessionKeyPackage → Outcome SessionKeyPackage
acknowledge recipient now p =
    if recipient == 0 || not (recipient == p.recipient_hc_endpoint_id)
    then fail p ErrorCode.security_violation
    else if is_package_status p.status KeyPackageStatus.acknowledged
    then done p
    else if not (is_package_status p.status KeyPackageStatus.pending)
        && not (is_package_status p.status KeyPackageStatus.delivered)
    then fail p ErrorCode.invalid_state
    else if now == 0 || not (ltb now p.expires_at)
    then fail p ErrorCode.expired
    else done (record p { status = KeyPackageStatus.acknowledged; acknowledged_at = some now })

-- `SessionKeyPackage.Acknowledge`.
unfoldable pub call_acknowledge :
    ℕ → ℕ → Option SessionKeyPackage → Outcome (Option SessionKeyPackage)
unfolding acknowledge
call_acknowledge recipient now = on_receiver (acknowledge recipient now)
