-- ===== src/Store/KeyPackages/Revoked.antt =====
-- store/key_package.go and store/revocation_scope.go: key packages after the revocation of an
-- endpoint.
use harness_platform_monorep.Prelude.{
  ℕ, ◌≡◌, sym, ◌≢◌, ◌⊎◌, inl, inr, true, false, some, List, arith, Bool-cases, Text, trim_space,
}
use mathlib.Core.Path.{subst}
use harness_platform_monorep.Domain.Endpoint.{Endpoint, EndpointStatus}
use harness_platform_monorep.Domain.Credential.{SessionKeyPackage}
use harness_platform_monorep.Store.Table.{find, is_ok}
use harness_platform_monorep.Store.Revocation.{Tables, revoke_endpoint_for_owner, is_owned}
use harness_platform_monorep.Store.Revocation.Standing.{revoked_row}
use harness_platform_monorep.Store.KeyPackages.{put_session_key_package}
use harness_platform_monorep.Store.KeyPackages.Issuing.{put_session_key_package-IsAuthorised}

-- An endpoint that is found cannot be active and revoked.
pub found_once :
    (id id' : ℕ) (owner tenant : Text) (rows : List Endpoint) {e e' : Endpoint}
    → id' ≡ id
    → find (is_owned id owner tenant) rows ≡ some e
    → e.status ≡ EndpointStatus.revoked
    → find (is_owned id' owner tenant) rows ≡ some e'
    → e'.status ≢ EndpointStatus.active
found_once id id' owner tenant rows {e} same x r y a =
    let x' = subst (λ n. find (is_owned n owner tenant) rows ≡ some e) (sym same) x in ground arith

-- After the revocation of an endpoint by its owner, the store accepts no key package of this owner
-- and tenant of which the endpoint is the issuer or the recipient.
pub revoked_endpoint_no_key_package :
    (id : ℕ) (owner tenant : Text) (now : ℕ) (t : Tables) (value : SessionKeyPackage)
    → is_ok (revoke_endpoint_for_owner id owner tenant now t).1 ≡ true
    → (value.issuer_aba_endpoint_id ≡ id) ⊎ (value.recipient_hc_endpoint_id ≡ id)
    → is_ok
        (put_session_key_package owner tenant value
          (revoke_endpoint_for_owner id owner tenant now t).0).1
      ≡ false
revoked_endpoint_no_key_package id owner tenant now t value h names =
    let t' = (revoke_endpoint_for_owner id owner tenant now t).0 in
    let (e, found, revoked) = revoked_row id owner tenant now t h in
    elim (Bool-cases (is_ok (put_session_key_package owner tenant value t').1)) [
      | inr refused ↦ refused
      | inl accepted ↦
          let a = put_session_key_package-IsAuthorised owner tenant value t' accepted in
          elim names [
            | inl x ↦ absurd (
                found_once id value.issuer_aba_endpoint_id (trim_space owner) (trim_space tenant)
                  t'.endpoints x found revoked a.issuer_found a.issuer_active)
            | inr x ↦ absurd (
                found_once id value.recipient_hc_endpoint_id (trim_space owner) (trim_space tenant)
                  t'.endpoints x found revoked a.recipient_found a.recipient_active)
          ]
    ]
