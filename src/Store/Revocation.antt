-- ===== src/Store/Revocation.antt =====
-- store/revocation_scope.go, store/repository.go and store/gateway_identity.go: the revocation of
-- an endpoint with all that hangs on it, and the lookups by which its credentials are used.
pub mod Cascade
pub mod Standing
pub mod Unscoped
pub mod Access
use harness_platform_monorep.Prelude.{
  ℕ, zero, suc, ◌+◌, ◌-◌, ◌*◌, ◌/◌, ◌%◌, ◌^◌, ◌≤◌, ◌<◌, ◌≡◌, refl, sym, ap, ◌∙◌, ◌≢◌, ◌↔◌, ◌⊎◌, inl,
  inr, Bool, true, false, not, ◌&&◌, ◌||◌, Option, none, some, List, [], ◌∷◌, ◌++◌, map, arith, ltb,
  leb, ◌==◌, if◌then◌else◌, u64_mod, u64_inc, ltb→lt, lt→ltb, leb→le, ==_iff, Bool-cases,
  Option-cases, is_some, is_none, length, take, drop, replicate, length-append, length-take-le,
  keep, any, all, All, All-append, Text, text, text_eq, text_eq_refl, text_eq→eq, is_empty,
  byte_len, trim_space,
}
use harness_platform_monorep.Domain.Problem.{ErrorCode}
use harness_platform_monorep.Domain.Endpoint
use harness_platform_monorep.Domain.Endpoint.{
  Endpoint, EndpointType, EndpointStatus, is_type, revoke,
}
use harness_platform_monorep.Domain.Session
use harness_platform_monorep.Domain.Session.{Session, SessionStatus}
use harness_platform_monorep.Domain.Credential.{
  EndpointCredential, CredentialStatus, is_credential_status, WsTicket, RefreshCredential,
  SessionKeyPackage, KeyPackageStatus,
}
use harness_platform_monorep.Store.Table.{
  Result, ok, err, transaction, find, update_where, affected,
}
use harness_platform_monorep.Store.Tickets.{revoke_tickets}

pub record Tables : Type 0 where
  pub endpoints : List Endpoint
  pub credentials : List EndpointCredential
  pub refresh_credentials : List RefreshCredential
  pub tickets : List WsTicket
  pub key_packages : List SessionKeyPackage
  pub sessions : List Session

abbrev pub is_aba : Endpoint → Bool
is_aba e = is_type e.type EndpointType.aba

-- The credentials' part: the active ones are revoked.
unfoldable pub revoke_credentials : ℕ → ℕ → List EndpointCredential → List EndpointCredential
revoke_credentials endpoint_id now =
    update_where
      (λ c. c.endpoint_id == endpoint_id && is_credential_status c.status CredentialStatus.active)
      (λ c. record c { status = CredentialStatus.revoked; revoked_at = some now; updated_at = now })

unfoldable pub revoke_refresh_credentials : ℕ → ℕ → List RefreshCredential → List RefreshCredential
revoke_refresh_credentials endpoint_id now =
    update_where
      (λ c. c.endpoint_id == endpoint_id && is_credential_status c.status CredentialStatus.active)
      (λ c. record c { status = CredentialStatus.revoked; revoked_at = some now; updated_at = now })

-- The session's column that names the endpoint: `hc_endpoint_id` or `aba_endpoint_id`.
abbrev pub names_endpoint : Endpoint → Session → Bool
names_endpoint e s = if is_aba e then s.aba_endpoint_id == e.id else s.hc_endpoint_id == e.id

abbrev is_pending : KeyPackageStatus → Bool
is_pending KeyPackageStatus.pending = true
is_pending KeyPackageStatus.delivered = true
is_pending KeyPackageStatus.acknowledged = true
is_pending _ = false

-- What becomes of a session.
abbrev pub end_session : Endpoint → ℕ → Session → Session
end_session e now s =
    if is_aba e
    then record s {
      status = SessionStatus.aba_revoked;
      updated_at = now;
      row_version = u64_inc s.row_version;
      closed_at = some now;
    }
    else record s {
      status = SessionStatus.rekey_required;
      updated_at = now;
      row_version = u64_inc s.row_version;
    }

abbrev is_over : SessionStatus → Bool
is_over SessionStatus.closed = true
is_over SessionStatus.aba_revoked = true
is_over SessionStatus.failed = true
is_over _ = false

abbrev in_scope : Text → Text → Session → Bool
in_scope owner tenant s = text_eq s.owner_user_id owner && text_eq s.tenant_id tenant

-- The sessions that `RevokeEndpointForOwner` changes.
abbrev pub is_revoked_with : Text → Text → Endpoint → Session → Bool
is_revoked_with owner tenant e s =
    in_scope owner tenant s && names_endpoint e s && not (is_over s.status)

-- The key packages of the scoped sessions (`session_id IN ?`).
unfoldable pub revoke_key_packages :
    Text → Text → Endpoint → List Session → List SessionKeyPackage → List SessionKeyPackage
revoke_key_packages owner tenant e sessions =
    update_where
      (λ p.
        any (λ s. in_scope owner tenant s && names_endpoint e s && s.id == p.session_id) sessions
        && is_pending p.status)
      (λ p. record p { status = KeyPackageStatus.revoked })

abbrev pub is_endpoint_row : Endpoint → Endpoint → Bool
is_endpoint_row e r =
    r.id == e.id
    && text_eq r.owner_user_id e.owner_user_id
    && text_eq r.tenant_id e.tenant_id
    && r.row_version == e.row_version

abbrev pub with_revocation : Endpoint → Endpoint → Endpoint
with_revocation e' r = record r {
  status = e'.status;
  revoked_at = e'.revoked_at;
  updated_at = e'.updated_at;
  row_version = e'.row_version;
}

-- The transaction of `RevokeEndpointForOwner`, with the endpoint's row locked.
unfoldable pub revoke_row : Text → Text → Endpoint → ℕ → Tables → Tables × Result Endpoint
revoke_row owner tenant e now t =
    let (e', error) = revoke now e in
    elim error [
      | some c ↦ (t, err c)
      | none ↦
          if not (affected (is_endpoint_row e) t.endpoints == 1)
          then (t, err ErrorCode.conflict)
          else (
            record {
              endpoints = update_where (is_endpoint_row e) (with_revocation e') t.endpoints;
              credentials = revoke_credentials e.id now t.credentials;
              refresh_credentials = revoke_refresh_credentials e.id now t.refresh_credentials;
              tickets = revoke_tickets e.id t.tickets;
              key_packages = revoke_key_packages owner tenant e t.sessions t.key_packages;
              sessions =
                  update_where (is_revoked_with owner tenant e) (end_session e now) t.sessions;
            },
            ok e',
          )
    ]

abbrev pub is_owned : ℕ → Text → Text → Endpoint → Bool
is_owned id owner tenant r =
    r.id == id && text_eq r.owner_user_id owner && text_eq r.tenant_id tenant

-- `Store.RevokeEndpointForOwner`.
unfoldable pub revoke_endpoint_for_owner : ℕ → Text → Text → ℕ → Tables → Tables × Result Endpoint
revoke_endpoint_for_owner id owner tenant now t =
    if is_empty (trim_space owner) || id == 0 || now == 0
    then (t, err ErrorCode.invalid_argument)
    else elim (find (is_owned id (trim_space owner) (trim_space tenant)) t.endpoints) [
      | none ↦ (t, err ErrorCode.not_found)
      | some e ↦ transaction t (revoke_row (trim_space owner) (trim_space tenant) e now t)
    ]

-- The sessions' part of the older `Store.RevokeEndpoint`, which has no scope and does not except
-- failed sessions.
unfoldable pub revoke_sessions_unscoped : Endpoint → ℕ → List Session → List Session
revoke_sessions_unscoped e now =
    update_where
      (λ s.
        names_endpoint e s
        && not (Session.is_status s.status SessionStatus.closed)
        && not (Session.is_status s.status SessionStatus.aba_revoked))
      (end_session e now)

-- The tests of `AuthenticateAccessToken` on the rows that it read.
unfoldable pub check_access :
    ℕ → Endpoint → EndpointCredential → Result (Endpoint × EndpointCredential)
check_access now e c =
    if not (Endpoint.is_status e.status EndpointStatus.active)
      || is_some e.revoked_at
      || is_credential_status c.status CredentialStatus.revoked
      || is_credential_status c.status CredentialStatus.rotated
      || is_some c.revoked_at
    then err ErrorCode.revoked
    else if is_credential_status c.status CredentialStatus.expired || not (ltb now c.expires_at)
    then err ErrorCode.expired
    else if not (is_credential_status c.status CredentialStatus.active)
        || not (c.endpoint_id == e.id)
        || not (c.family_id == e.credential_family_id)
        || not (text_eq c.signing_jkt e.signing_jkt)
    then err ErrorCode.security_violation
    else ok (e, c)

-- `Store.AuthenticateAccessToken`.
unfoldable pub authenticate_access_token : ℕ → ℕ → Tables → Result (Endpoint × EndpointCredential)
authenticate_access_token token_hash now t =
    if token_hash == 0 || now == 0
    then err ErrorCode.invalid_argument
    else elim (find (λ c. c.token_hash == token_hash) t.credentials) [
      | none ↦ err ErrorCode.not_found
      | some c ↦ elim (find (λ e. e.id == c.endpoint_id) t.endpoints) [
        | none ↦ err ErrorCode.not_found
        | some e ↦ check_access now e c
      ]
    ]
