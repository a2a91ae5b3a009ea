-- ===== src/Examples/Tokens.antt =====
-- store/revocation_scope.go, store/refresh.go: the theorems on credentials, at the shared values.
use harness_platform_monorep.Prelude.{
  ℕ, ◌≡◌, refl, ◌≢◌, Option, none, some, [], ◌∷◌, arith, ◌==◌, text, trim_space,
}
use harness_platform_monorep.Domain.Problem.{ErrorCode}
use harness_platform_monorep.Domain.Endpoint
use harness_platform_monorep.Domain.Endpoint.{Endpoint, EndpointType, EndpointStatus}
use harness_platform_monorep.Domain.Credential.{EndpointCredential}
use harness_platform_monorep.Store.Table.{ok, find, update_where, affected, absent}
use harness_platform_monorep.Store.Revocation.{
  Tables, is_owned, revoke_endpoint_for_owner, revoke_row, authenticate_access_token, check_access,
  revoke_credentials, with_revocation,
}
use harness_platform_monorep.Store.Revocation.Cascade.{IsCutOff, revoke_endpoint_for_owner-IsCutOff}
use harness_platform_monorep.Store.Revocation.Access.{revoked_never_authenticates}
use harness_platform_monorep.Store.Refresh.{
  RefreshTables, rotate_refresh_credential, rotate_row, row_error, next_error, rotate, find_newest,
  revoke_credential_family,
}
use harness_platform_monorep.Domain.Session
use harness_platform_monorep.Domain.Session.{Session, SessionStatus}
use harness_platform_monorep.Store.Revocation.{revoke_sessions_unscoped}
use harness_platform_monorep.Store.Revocation.Unscoped.{revoke_sessions_unscoped-failed}
use harness_platform_monorep.Store.Refresh.Linked.{rotate_refresh_credential-IsLinked}
use harness_platform_monorep.Store.Refresh.Rotation.{
  IsLinked, IsFamilyRevoked, reuse-IsFamilyRevoked,
}
use harness_platform_monorep.Examples.Data.{
  hc, credential, refresh, next_refresh, next_access, ticket, session, key_package,
}

abbrev tables : Tables
tables = record {
  endpoints = hc ∷ [];
  credentials = credential ∷ [];
  refresh_credentials = refresh ∷ [];
  tickets = ticket ∷ [];
  key_packages = key_package ∷ [];
  sessions = session ∷ [];
}

revoke_endpoint_for_owner-IsCutOff_example :
    (e : Endpoint) × (find
        (is_owned 2 (trim_space (text " ann")) (trim_space (text "home")))
        tables.endpoints
      ≡ some e)
    × ((revoke_endpoint_for_owner 2 (text " ann") (text "home") 50 tables).1
        ≡ ok (Endpoint.revoke 50 e).0)
    × (find
          (is_owned 2 (trim_space (text " ann")) (trim_space (text "home")))
          (revoke_endpoint_for_owner 2 (text " ann") (text "home") 50 tables).0.endpoints
        ≡ some (with_revocation (Endpoint.revoke 50 e).0 e))
    × ((Endpoint.revoke 50 e).0.status ≡ EndpointStatus.revoked)
    × IsCutOff
        (trim_space (text " ann"))
        (trim_space (text "home"))
        e
        (revoke_endpoint_for_owner 2 (text " ann") (text "home") 50 tables).0
unfolding revoke_endpoint_for_owner revoke_row Endpoint.revoke find affected trim_space
revoke_endpoint_for_owner-IsCutOff_example =
    revoke_endpoint_for_owner-IsCutOff 2 (text " ann") (text "home") 50 tables refl

abbrev aba : Endpoint
aba = record hc { id = 1; type = EndpointType.aba; name = text "desk" }

abbrev aba_credential : EndpointCredential
aba_credential = record credential { id = 35; endpoint_id = 1; token_hash = 78 }

abbrev both : Tables
both = record tables { endpoints = hc ∷ aba ∷ []; credentials = credential ∷ aba_credential ∷ [] }

revoked_never_authenticates_example : ◌≢◌ {A = ℕ} 1 2
unfolding revoke_endpoint_for_owner revoke_row Endpoint.revoke find affected update_where trim_space
    authenticate_access_token check_access revoke_credentials
revoked_never_authenticates_example =
    revoked_never_authenticates 2 (text "ann") (text "home") 50 both 78 60 aba aba_credential refl
      refl

abbrev refresh_tables : RefreshTables
refresh_tables = record {
  endpoints = hc ∷ [];
  credentials = credential ∷ [];
  refresh_credentials = refresh ∷ [];
}

abbrev rotated : RefreshTables
unfolding rotate_refresh_credential rotate_row row_error next_error rotate find_newest find affected
    update_where absent trim_space
rotated =
    (rotate_refresh_credential 88 (text "sig") next_access next_refresh none 50 refresh_tables).0

abbrev reused : RefreshTables
unfolding revoke_credential_family
reused = revoke_credential_family 4 70 rotated

reuse-IsFamilyRevoked_example :
    (◌≡◌ {A = Option ErrorCode} (some ErrorCode.revoked) (some ErrorCode.revoked))
    × IsFamilyRevoked 4 reused
unfolding rotate_refresh_credential rotate_row row_error next_error rotate find_newest find affected
    update_where absent trim_space revoke_credential_family
reuse-IsFamilyRevoked_example =
    reuse-IsFamilyRevoked 88 (text "sig") next_access credential next_refresh refresh none none 50
      70 refresh_tables rotated reused refresh (some ErrorCode.revoked) (refl, tt) refl refl
      (omega arith) (omega arith) refl

rotate_refresh_credential-IsLinked_example :
    IsLinked
      (rotate_refresh_credential 88 (text "sig") next_access next_refresh none 50 refresh_tables).0
rotate_refresh_credential-IsLinked_example =
    rotate_refresh_credential-IsLinked 88 (text "sig") next_access next_refresh none 50
      refresh_tables (refl, tt)

abbrev failed : Session
failed = record session { status = SessionStatus.failed; current_key_generation = 1 }

revoke_sessions_unscoped-failed_example :
    let t = record tables { sessions = failed ∷ [] } in
    (find
        (λ r. r.id == session.id)
        (revoke_endpoint_for_owner 2 (text "ann") (text "home") 50 t).0.sessions
      ≡ some failed)
    × ((s' : Session) × (find
            (λ r. r.id == session.id)
            (revoke_sessions_unscoped hc 50 (failed ∷ []))
          ≡ some s')
        × (s'.status ≡ SessionStatus.rekey_required)
        × ((Session.activate 2 60 s').1 ≡ none)
        × ((Session.activate 2 60 s').0.status ≡ SessionStatus.active))
unfolding find
revoke_sessions_unscoped-failed_example =
    revoke_sessions_unscoped-failed session.id 2 (text "ann") (text "home") hc 50 60 2
      (record tables { sessions = failed ∷ [] }) failed refl refl refl refl (omega arith)
