-- ===== src/Store/Refresh.antt =====
-- store/refresh.go and domain/m2_identity.go: the rotation of refresh credentials. The audit
-- event's own checks and its row are a parameter: whether `validateRefreshAudit` accepts the event.
pub mod Rotation
pub mod Linked
use harness_platform_monorep.Prelude.{
  ℕ, zero, suc, ◌+◌, ◌-◌, ◌*◌, ◌/◌, ◌%◌, ◌^◌, ◌≤◌, ◌<◌, ◌≡◌, refl, sym, ap, ◌∙◌, ◌≢◌, ◌↔◌, ◌⊎◌, inl,
  inr, Bool, true, false, not, ◌&&◌, ◌||◌, Option, none, some, List, [], ◌∷◌, ◌++◌, map, arith, ltb,
  leb, ◌==◌, if◌then◌else◌, u64_mod, u64_inc, ltb→lt, lt→ltb, leb→le, ==_iff, Bool-cases,
  Option-cases, is_some, is_none, length, take, drop, replicate, length-append, length-take-le,
  keep, any, all, All, All-append, Text, text, text_eq, text_eq_refl, text_eq→eq, is_empty,
  byte_len, trim_space,
}
use harness_platform_monorep.Domain.Problem.{ErrorCode}
use harness_platform_monorep.Domain.Endpoint
use harness_platform_monorep.Domain.Endpoint.{Endpoint, EndpointStatus}
use harness_platform_monorep.Domain.Credential.{
  EndpointCredential, CredentialStatus, is_credential_status, RefreshCredential,
}
use harness_platform_monorep.Store.Table.{
  Result, ok, err, transaction, find, update_where, affected, absent,
}

pub record RefreshTables : Type 0 where
  pub endpoints : List Endpoint
  pub credentials : List EndpointCredential
  pub refresh_credentials : List RefreshCredential

-- `RefreshCredential.Validate`.
abbrev pub validate_refresh : RefreshCredential → Endpoint → ℕ → Bool
validate_refresh c e now = not (
    c.id == 0
    || not (c.endpoint_id == e.id)
    || not (c.family_id == e.credential_family_id)
    || not (text_eq c.signing_jkt e.signing_jkt)
    || c.token_hash == 0
    || not (is_credential_status c.status CredentialStatus.active)
    || not (ltb now c.expires_at)
    || c.created_at == 0
    || c.updated_at == 0
    || is_some c.used_at
    || is_some c.revoked_at
    || not (c.rotated_to == 0))

-- `validateCredential`.
abbrev pub validate_credential : EndpointCredential → Endpoint → ℕ → Bool
validate_credential c e now = not (
    c.id == 0
    || not (c.endpoint_id == e.id)
    || not (c.family_id == e.credential_family_id)
    || not (text_eq c.signing_jkt e.signing_jkt)
    || c.token_hash == 0
    || not (is_credential_status c.status CredentialStatus.active)
    || not (ltb now c.expires_at)
    || c.created_at == 0
    || c.updated_at == 0
    || length c.scopes == 0)

-- `revokeCredentialFamily`.
unfoldable pub revoke_credential_family : ℕ → ℕ → RefreshTables → RefreshTables
revoke_credential_family family now t = record t {
  credentials =
      update_where
        (λ c. c.family_id == family && is_credential_status c.status CredentialStatus.active)
        (λ c. record c {
          status = CredentialStatus.revoked;
          revoked_at = some now;
          updated_at = now;
        })
        t.credentials;
  refresh_credentials =
      update_where
        (λ c.
          c.family_id == family
          && (is_credential_status c.status CredentialStatus.active
              || is_credential_status c.status CredentialStatus.rotated))
        (λ c. record c {
          status = CredentialStatus.revoked;
          revoked_at = some now;
          updated_at = now;
        })
        t.refresh_credentials;
}

abbrev pub is_active_in : ℕ → EndpointCredential → Bool
is_active_in family c =
    c.family_id == family && is_credential_status c.status CredentialStatus.active

-- `Order("created_at DESC")` with `Take`: of the rows that meet the condition, one created last.
abbrev newer : EndpointCredential → Option EndpointCredential → EndpointCredential
newer c none = c
newer c (some best) = if ltb c.created_at best.created_at then best else c

unfoldable pub find_newest :
    (EndpointCredential → Bool) → List EndpointCredential → Option EndpointCredential
find_newest p [] = none
find_newest p (c ∷ cs) = if p c then some (newer c (find_newest p cs)) else find_newest p cs

-- The update that marks the presented refresh credential as rotated.
abbrev pub is_current : RefreshCredential → RefreshCredential → Bool
is_current c r =
    r.id == c.id && is_credential_status r.status CredentialStatus.active && r.rotated_to == 0

abbrev pub as_rotated : ℕ → ℕ → RefreshCredential → RefreshCredential
as_rotated next_id now r = record r {
  status = CredentialStatus.rotated;
  used_at = some now;
  rotated_to = next_id;
  updated_at = now;
}

-- The inserts, which the primary keys and the unique indexes on `token_hash` guard.
abbrev pub is_fresh_access : EndpointCredential → List EndpointCredential → Bool
is_fresh_access a rows = absent (λ r. r.id == a.id || r.token_hash == a.token_hash) rows

abbrev pub is_fresh_refresh : RefreshCredential → List RefreshCredential → Bool
is_fresh_refresh n rows = absent (λ r. r.id == n.id || r.token_hash == n.token_hash) rows

-- The transaction's writes, once the lineage is checked. The value tells whether the presented
-- credential was reused.
unfoldable pub rotate :
    RefreshCredential
    → EndpointCredential
    → RefreshCredential
    → ℕ
    → RefreshTables
    → RefreshTables × Result Bool
rotate c access next now t = elim (find_newest (is_active_in c.family_id) t.credentials) [
  | none ↦ (t, err ErrorCode.not_found)
  | some a ↦
      let t' = record t {
        credentials =
            record access { rotated_from = a.id }
            ∷ update_where (is_active_in c.family_id)
                (λ r. record r { status = CredentialStatus.rotated; updated_at = now })
                t.credentials;
        refresh_credentials =
            next ∷ update_where (is_current c) (as_rotated next.id now) t.refresh_credentials;
      } in
      if not (affected (is_current c) t.refresh_credentials == 1)
        || not (is_fresh_access access t.credentials)
        || not (is_fresh_refresh next t.refresh_credentials)
      then (t', err ErrorCode.conflict)
      else (t', ok false)
]

-- The tests of the transaction of `RotateRefreshCredential` on the rows that it locked.
unfoldable pub row_error : Text → RefreshCredential → Endpoint → ℕ → Option ErrorCode
row_error jkt c e now =
    if not (Endpoint.is_status e.status EndpointStatus.active)
      || is_some c.revoked_at
      || is_credential_status c.status CredentialStatus.revoked
    then some ErrorCode.revoked
    else if not (ltb now c.expires_at)
    then some ErrorCode.expired
    else if not (text_eq c.signing_jkt jkt)
        || not (text_eq e.signing_jkt jkt)
        || not (c.endpoint_id == e.id)
        || not (c.family_id == e.credential_family_id)
    then some ErrorCode.security_violation
    else none

-- Its tests on the credentials that are to follow.
unfoldable pub next_error :
    RefreshCredential
    → Endpoint
    → EndpointCredential
    → RefreshCredential
    → Option ErrorCode
    → ℕ
    → Option ErrorCode
next_error c e access next audit_error now =
    if not (validate_credential access e now) || not (validate_refresh next e now)
    then some ErrorCode.security_violation
    else if not (next.rotated_from == c.id) || access.id == 0 || next.id == 0
    then some ErrorCode.security_violation
    else audit_error

-- The transaction of `RotateRefreshCredential` from the rows on.
unfoldable pub rotate_row :
    Text
    → RefreshCredential
    → Endpoint
    → EndpointCredential
    → RefreshCredential
    → Option ErrorCode
    → ℕ
    → RefreshTables
    → RefreshTables × Result Bool
rotate_row jkt c e access next audit_error now t = elim (row_error jkt c e now) [
  | some code ↦ (t, err code)
  | none ↦
      if is_credential_status c.status CredentialStatus.rotated
      then (revoke_credential_family c.family_id now t, ok true)
      else if not (is_credential_status c.status CredentialStatus.active)
      then (t, err ErrorCode.invalid_state)
      else elim (next_error c e access next audit_error now) [
        | some code ↦ (t, err code)
        | none ↦ rotate c access next now t
      ]
]

-- The result of `RotateRefreshCredential`, whose transaction commits the revocation of a reused
-- credential's family and only then reports it.
abbrev pub report : RefreshTables × Result Bool → RefreshTables × Option ErrorCode
report (t, ok true) = (t, some ErrorCode.revoked)
report (t, ok false) = (t, none)
report (t, err e) = (t, some e)

-- `Store.RotateRefreshCredential`.
unfoldable pub rotate_refresh_credential :
    ℕ
    → Text
    → EndpointCredential
    → RefreshCredential
    → Option ErrorCode
    → ℕ
    → RefreshTables
    → RefreshTables × Option ErrorCode
rotate_refresh_credential presented_hash jkt access next audit_error now t =
    if presented_hash == 0 || is_empty (trim_space jkt) || now == 0
    then (t, some ErrorCode.invalid_argument)
    else elim (find (λ r. r.token_hash == presented_hash) t.refresh_credentials) [
      | none ↦ (t, some ErrorCode.not_found)
      | some c ↦ elim (find (λ e. e.id == c.endpoint_id) t.endpoints) [
        | none ↦ (t, some ErrorCode.not_found)
        | some e ↦ report (transaction t (rotate_row jkt c e access next audit_error now t))
      ]
    ]
