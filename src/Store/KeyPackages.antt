-- ===== src/Store/KeyPackages.antt =====
-- store/key_package.go: the table of session key packages, with the sessions, endpoints and
-- credentials that its transactions read. On SQLite a transaction is also tried again when the
-- database is locked; one attempt is modelled, and the fence, which writes a session's version on
-- itself under a condition that the locked row meets.
pub mod Acknowledgement
pub mod Issuing
pub mod Revoked
use harness_platform_monorep.Prelude.{
  ℕ, zero, suc, ◌+◌, ◌-◌, ◌*◌, ◌/◌, ◌%◌, ◌^◌, ◌≤◌, ◌<◌, ◌≡◌, refl, sym, ap, ◌∙◌, ◌≢◌, ◌↔◌, ◌⊎◌, inl,
  inr, Bool, true, false, not, ◌&&◌, ◌||◌, Option, none, some, List, [], ◌∷◌, ◌++◌, map, arith, ltb,
  leb, ◌==◌, if◌then◌else◌, u64_mod, u64_inc, ltb→lt, lt→ltb, leb→le, ==_iff, Bool-cases,
  Option-cases, is_some, is_none, length, take, drop, replicate, length-append, length-take-le,
  keep, any, all, All, All-append, Text, text, text_eq, text_eq_refl, text_eq→eq, is_empty,
  byte_len, trim_space, trim_space_twice, trim_space-unspaced, byte_len-ascii, is_space,
}
use harness_platform_monorep.Domain.Problem.{ErrorCode, Outcome, done}
use harness_platform_monorep.Domain.Endpoint
use harness_platform_monorep.Domain.Endpoint.{Endpoint, EndpointType, EndpointStatus, is_type}
use harness_platform_monorep.Domain.Session
use harness_platform_monorep.Domain.Session.{Session, SessionStatus}
use harness_platform_monorep.Domain.Credential.{
  EndpointCredential, CredentialStatus, is_credential_status, SessionKeyPackage, KeyPackageStatus,
}
use harness_platform_monorep.Domain.KeyPackage
use harness_platform_monorep.Store.Table.{
  Result, ok, err, ◌>>=◌, ◌>>◌, guard, try_check, or_error, transaction, find, update_where,
  affected, absent, and_then,
}
use harness_platform_monorep.Store.Frames.{bytes_equal, PutFrameOutcome, stored, duplicate}
use harness_platform_monorep.Store.Revocation
use harness_platform_monorep.Store.Revocation.{Tables, is_owned, is_aba}
use harness_platform_monorep.Store.Sessions
use harness_platform_monorep.Store.Sessions.{update_session}

-- `sameKeyPackage`.
unfoldable pub same_key_package : SessionKeyPackage → SessionKeyPackage → Bool
same_key_package l r =
    l.session_id == r.session_id
    && l.generation == r.generation
    && l.issuer_aba_endpoint_id == r.issuer_aba_endpoint_id
    && l.recipient_hc_endpoint_id == r.recipient_hc_endpoint_id
    && l.crypto_suite == r.crypto_suite
    && bytes_equal l.encapsulated_key r.encapsulated_key
    && bytes_equal l.ciphertext r.ciphertext
    && l.context_hash == r.context_hash
    && bytes_equal l.issuer_signature r.issuer_signature
    && l.issuer_credential_id == r.issuer_credential_id
    && l.expires_at == r.expires_at

-- The condition of `lockKeyPackageSession`.
abbrev pub is_owned_session : ℕ → Text → Text → Session → Bool
is_owned_session id owner tenant s =
    s.id == id && text_eq s.owner_user_id owner && text_eq s.tenant_id tenant

-- `lockKeyPackageSession` and `lockKeyPackageEndpoint`.
abbrev pub lock_session : ℕ → Text → Text → Tables → Result Session
lock_session id owner tenant t =
    or_error ErrorCode.not_found (find (is_owned_session id owner tenant) t.sessions)

abbrev pub lock_endpoint : ℕ → Text → Text → Tables → Result Endpoint
lock_endpoint id owner tenant t =
    or_error ErrorCode.not_found (find (is_owned id owner tenant) t.endpoints)

-- `lockKeyPackageIssuerCredential`.
abbrev pub is_credential_of : ℕ → ℕ → EndpointCredential → Bool
is_credential_of id endpoint_id c = c.id == id && c.endpoint_id == endpoint_id

abbrev pub lock_issuer_credential : ℕ → ℕ → Tables → Result EndpointCredential
lock_issuer_credential id endpoint_id t =
    or_error ErrorCode.security_violation (find (is_credential_of id endpoint_id) t.credentials)

-- `requireKeyPackageEndpointActive`.
abbrev pub require_active : EndpointStatus → Option ErrorCode
require_active status =
    if KeyPackage.allows_session_key_package status
    then none
    else if Endpoint.is_status status EndpointStatus.revoked
    then some ErrorCode.revoked
    else some ErrorCode.security_violation

abbrev pub is_hc : Endpoint → Bool
is_hc e = is_type e.type EndpointType.hc_web || is_type e.type EndpointType.hc_reference

-- The test of the issuer's credential.
abbrev pub is_live_issuer : SessionKeyPackage → Endpoint → EndpointCredential → Bool
is_live_issuer value issuer c = not (
    not (is_credential_status c.status CredentialStatus.active)
    || is_some c.revoked_at
    || not (ltb value.created_at c.expires_at)
    || ltb value.created_at c.created_at
    || not (c.family_id == issuer.credential_family_id)
    || not (text_eq c.signing_jkt issuer.signing_jkt))

-- The tests of `putSessionKeyPackageOnce` before it writes.
unfoldable pub check_put : Text → Text → SessionKeyPackage → Tables → Result (Unit {0})
check_put owner tenant value t = do
  s ← lock_session value.session_id owner tenant t
  guard
      (s.aba_endpoint_id == value.issuer_aba_endpoint_id
        && s.hc_endpoint_id == value.recipient_hc_endpoint_id)
      ErrorCode.security_violation
  try_check (KeyPackage.validate_next_generation value.generation s)
  issuer ← lock_endpoint value.issuer_aba_endpoint_id owner tenant t
  guard (is_aba issuer) ErrorCode.security_violation
  try_check (require_active issuer.status)
  recipient ← lock_endpoint value.recipient_hc_endpoint_id owner tenant t
  guard (is_hc recipient) ErrorCode.security_violation
  try_check (require_active recipient.status)
  c ← lock_issuer_credential value.issuer_credential_id value.issuer_aba_endpoint_id t
  guard (is_live_issuer value issuer c) ErrorCode.security_violation

-- Two rows that the primary key or the unique index does not allow together.
abbrev pub clashes : SessionKeyPackage → SessionKeyPackage → Bool
clashes p r =
    r.id == p.id
    || (r.session_id == p.session_id
        && r.generation == p.generation
        && r.recipient_hc_endpoint_id == p.recipient_hc_endpoint_id)

-- `First` under a condition: of the rows that meet it, the one with the smallest primary key.
abbrev pub smaller : SessionKeyPackage → Option SessionKeyPackage → SessionKeyPackage
smaller p none = p
smaller p (some q) = if ltb q.id p.id then q else p

unfoldable pub first_package :
    (SessionKeyPackage → Bool) → List SessionKeyPackage → Option SessionKeyPackage
first_package f [] = none
first_package f (p ∷ ps) = if f p then some (smaller p (first_package f ps)) else first_package f ps

-- The insert, which does nothing on a conflict, and what is made of a conflict.
unfoldable pub insert_package :
    SessionKeyPackage
    → List SessionKeyPackage
    → List SessionKeyPackage × Result (PutFrameOutcome × SessionKeyPackage)
insert_package value rows =
    if absent (clashes value) rows
    then (value ∷ rows, ok (stored, value))
    else elim (first_package (clashes value) rows) [
      | none ↦ (rows, err ErrorCode.not_found)
      | some existing ↦
          if not (same_key_package existing value)
          then (rows, err ErrorCode.conflict)
          else (rows, ok (duplicate, existing))
    ]

abbrev pub with_packages {ℓ} :
    {A : Type ℓ} → Tables → List SessionKeyPackage × Result A → Tables × Result A
with_packages t (rows, r) = (record t { key_packages = rows }, r)

-- `putSessionKeyPackageOnce`. A conflict of contents leaves the transaction without an error, and
-- the rows as they were.
unfoldable pub put_once :
    Text → Text → SessionKeyPackage → Tables → Tables × Result (PutFrameOutcome × SessionKeyPackage)
put_once owner tenant value t = elim (check_put owner tenant value t) [
  | err e ↦ (t, err e)
  | ok _ ↦ with_packages t (insert_package value t.key_packages)
]

-- `Store.PutSessionKeyPackage`.
unfoldable pub put_session_key_package :
    Text → Text → SessionKeyPackage → Tables → Tables × Result (PutFrameOutcome × SessionKeyPackage)
put_session_key_package owner tenant value t =
    if is_empty (trim_space owner)
    then (t, err ErrorCode.invalid_argument)
    else elim (KeyPackage.validate KeyPackage.max_encapsulated_key_bytes
        KeyPackage.max_ciphertext_bytes value) [
          | some e ↦ (t, err e)
          | none ↦
              if not (KeyPackage.is_package_status value.status KeyPackageStatus.pending)
              then (t, err ErrorCode.invalid_state)
              else put_once (trim_space owner) (trim_space tenant) value t
        ]
