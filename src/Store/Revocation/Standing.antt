-- ===== src/Store/Revocation/Standing.antt =====
-- store/revocation_scope.go: the endpoint's own row after the revocation by its owner.
use harness_platform_monorep.Prelude.{ℕ, ◌≡◌, true, some, Text, trim_space}
use harness_platform_monorep.Domain.Endpoint.{Endpoint, EndpointStatus, revoke}
use harness_platform_monorep.Store.Table.{find, is_ok}
use harness_platform_monorep.Store.Revocation.{
  Tables, revoke_endpoint_for_owner, is_owned, with_revocation,
}
use harness_platform_monorep.Store.Revocation.Cascade.{revoke_endpoint_for_owner-IsCutOff}

-- The row that the owner's scope holds under the identifier is found again, and it is revoked.
pub revoked_row :
    (id : ℕ) (owner tenant : Text) (now : ℕ) (t : Tables)
    → is_ok (revoke_endpoint_for_owner id owner tenant now t).1 ≡ true
    → (e : Endpoint) × (find
          (is_owned id (trim_space owner) (trim_space tenant))
          (revoke_endpoint_for_owner id owner tenant now t).0.endpoints
        ≡ some e)
      × (e.status ≡ EndpointStatus.revoked)
revoked_row id owner tenant now t h =
    let (e, _, _, kept, status, _) = revoke_endpoint_for_owner-IsCutOff id owner tenant now t h in
    (with_revocation (revoke now e).0 e, kept, status)
