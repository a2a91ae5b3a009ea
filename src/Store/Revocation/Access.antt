-- ===== src/Store/Revocation/Access.antt =====
-- store/gateway_identity.go: no access token authenticates as a revoked endpoint.
use harness_platform_monorep.Prelude.{
  ℕ, ◌<◌, ◌≡◌, sym, ap, ◌∙◌, ◌≢◌, inl, inr, true, ◌||◌, some, arith, ◌==◌, Bool-cases, Option-cases,
  Text, trim_space,
}
use harness_platform_monorep.Domain.Endpoint.{Endpoint}
use harness_platform_monorep.Domain.Credential.{
  EndpointCredential, CredentialStatus, is_credential_status,
}
use harness_platform_monorep.Store.Table.{Result, ok, err, is_ok, find, find-holds, All-find}
use harness_platform_monorep.Store.Revocation.{
  Tables, is_owned, revoke_endpoint_for_owner, authenticate_access_token, check_access,
}
use harness_platform_monorep.Store.Revocation.Cascade.{IsCutOff, revoke_endpoint_for_owner-IsCutOff}

ok-injective :
    {e e' : Endpoint} {c c' : EndpointCredential}
    → ◌≡◌ {A = Result (Endpoint × EndpointCredential)} (ok (e, c)) (ok (e', c'))
    → e.id ≡ e'.id
ok-injective {e} h = ap (λ r. elim r [ ok p ↦ p.0.id | err _ ↦ e.id ]) h

IsAdmitted : ℕ → Endpoint → EndpointCredential → Type 0
IsAdmitted now e c =
    (c.endpoint_id ≡ e.id)
    × (is_credential_status c.status CredentialStatus.active ≡ true)
    × (now < c.expires_at)

check_access-IsAdmitted :
    (now : ℕ) (e : Endpoint) (c : EndpointCredential)
    → is_ok (check_access now e c) ≡ true
    → (check_access now e c ≡ ok (e, c)) × IsAdmitted now e c
unfolding check_access IsAdmitted
check_access-IsAdmitted now e c h = ground arith

-- What an access token that authenticates has.
authenticate_cases :
    (token_hash now : ℕ) (t : Tables)
    → is_ok (authenticate_access_token token_hash now t) ≡ true
    → (e : Endpoint) × (c : EndpointCredential) × (authenticate_access_token token_hash now t
        ≡ ok (e, c))
      × (find (λ r. r.token_hash == token_hash) t.credentials ≡ some c)
      × IsAdmitted now e c
unfolding authenticate_access_token
authenticate_cases token_hash now t h =
    elim (Option-cases (find (λ r. r.token_hash == token_hash) t.credentials)) [
      | inl x ↦ absurd (ground arith)
      | inr (c, x) ↦ elim (Option-cases (find (λ r. r.id == c.endpoint_id) t.endpoints)) [
        | inl y ↦ absurd (ground arith)
        | inr (e, y) ↦ elim (Bool-cases (token_hash == 0 || now == 0)) [
          | inl g ↦ absurd (ground arith)
          | inr g ↦
              let (same, admitted) = check_access-IsAdmitted now e c (rw (g, x, y) at h) in
              (e, c, (rw (g, x, y) same), x, admitted)
        ]
      ]
    ]

cut_off_refused :
    (owner tenant : Text) (e₀ : Endpoint) (token_hash later : ℕ) (t : Tables) (e : Endpoint)
    (c : EndpointCredential)
    → IsCutOff owner tenant e₀ t
    → authenticate_access_token token_hash later t ≡ ok (e, c)
    → e.id ≢ e₀.id
unfolding IsAdmitted
cut_off_refused owner tenant e₀ token_hash later t e c cut a same =
    let (e', c', fine, found, admitted) = authenticate_cases token_hash later t (rw a) in
    let unusable =
      All-find _ (λ r. r.token_hash == token_hash) t.credentials cut.no_credential found in
    absurd (ground (arith, unusable, admitted, same, ok-injective (sym fine ∙ a)))

-- After a revocation by the owner that succeeds, no access token authenticates as an endpoint with
-- the revoked identifier, whatever the token and the time.
pub revoked_never_authenticates :
    (id : ℕ) (owner tenant : Text) (now : ℕ) (t : Tables) (token_hash later : ℕ) (e : Endpoint)
    (c : EndpointCredential)
    → is_ok (revoke_endpoint_for_owner id owner tenant now t).1 ≡ true
    → authenticate_access_token token_hash later (revoke_endpoint_for_owner id owner tenant now t).0
      ≡ ok (e, c)
    → e.id ≢ id
revoked_never_authenticates id owner tenant now t token_hash later e c h a same =
    let (e₀, found, _, _, _, cut) = revoke_endpoint_for_owner-IsCutOff id owner tenant now t h in
    let owned = find-holds (is_owned id (trim_space owner) (trim_space tenant)) t.endpoints found in
    cut_off_refused (trim_space owner) (trim_space tenant) e₀ token_hash later
      (revoke_endpoint_for_owner id owner tenant now t).0 e c cut a (ground (arith, owned, same))
