-- ===== src/Store/Refresh/Linked.antt =====
-- store/refresh.go: an active refresh credential never has a successor.
use harness_platform_monorep.Prelude.{
  ℕ, ◌≡◌, refl, ◌⊎◌, inl, inr, Bool, true, false, not, ◌&&◌, ◌||◌, Option, none, ◌∷◌, arith, ◌==◌,
  Bool-cases, Option-cases, Text, is_empty, trim_space,
}
use harness_platform_monorep.Domain.Problem.{ErrorCode}
use harness_platform_monorep.Domain.Endpoint.{Endpoint}
use harness_platform_monorep.Domain.Credential.{
  EndpointCredential, CredentialStatus, is_credential_status, RefreshCredential,
}
use harness_platform_monorep.Store.Table.{
  Result, ok, err, is_ok, transaction, transaction_cases, find, update_where, All-update_where,
}
use harness_platform_monorep.Store.Refresh.{
  RefreshTables, rotate_refresh_credential, rotate_row, row_error, next_error, rotate, report,
  is_current, as_rotated, revoke_credential_family, find_newest, is_active_in,
}
use harness_platform_monorep.Store.Refresh.Rotation.{IsLinked}

abbrev IsLinkedRow : RefreshCredential → Type 0
IsLinkedRow r =
    (is_credential_status r.status CredentialStatus.active && not (r.rotated_to == 0)) ≡ false

revoke_credential_family-IsLinked :
    (family now : ℕ) (t : RefreshTables)
    → IsLinked t
    → IsLinked (revoke_credential_family family now t)
unfolding revoke_credential_family
revoke_credential_family-IsLinked family now t linked =
    All-update_where IsLinkedRow _ _ t.refresh_credentials (λ r h. refl) linked

rotate_ok :
    (c : RefreshCredential) (access : EndpointCredential) (next : RefreshCredential) (now : ℕ)
    (t : RefreshTables)
    → is_ok (rotate c access next now t).1 ≡ true
    → (rotate c access next now t).0.refresh_credentials
      ≡ next ∷ update_where (is_current c) (as_rotated next.id now) t.refresh_credentials
unfolding rotate
rotate_ok c access next now t h =
    elim (Option-cases (find_newest (is_active_in c.family_id) t.credentials)) [
      | inl e ↦ absurd (ground arith)
      | inr (a, e) ↦ ground arith
    ]

next_error-IsLinkedRow :
    (c : RefreshCredential) (e : Endpoint) (access : EndpointCredential) (next : RefreshCredential)
    (audit_error : Option ErrorCode) (now : ℕ)
    → next_error c e access next audit_error now ≡ none
    → IsLinkedRow next
unfolding next_error
next_error-IsLinkedRow c e access next audit_error now h = ground arith

rotate-IsLinked :
    (c : RefreshCredential) (access : EndpointCredential) (next : RefreshCredential) (now : ℕ)
    (t : RefreshTables)
    → is_ok (rotate c access next now t).1 ≡ true
    → IsLinkedRow next
    → IsLinked t
    → IsLinked (rotate c access next now t).0
rotate-IsLinked c access next now t h n linked = rw (rotate_ok c access next now t h) (
  n,
  All-update_where IsLinkedRow (is_current c) (as_rotated next.id now) t.refresh_credentials
      (λ r k. refl) linked,
)

-- What a transaction that commits has done: it revoked the family, or rotated.
rotate_row_ok :
    (jkt : Text) (c : RefreshCredential) (e : Endpoint) (access : EndpointCredential)
    (next : RefreshCredential) (audit_error : Option ErrorCode) (now : ℕ) (t : RefreshTables)
    → is_ok (rotate_row jkt c e access next audit_error now t).1 ≡ true
    → (rotate_row jkt c e access next audit_error now t
        ≡ (revoke_credential_family c.family_id now t, ok true))
      ⊎ ((rotate_row jkt c e access next audit_error now t ≡ rotate c access next now t)
          × (next_error c e access next audit_error now ≡ none))
unfolding rotate_row
rotate_row_ok jkt c e access next audit_error now t h =
    elim (Option-cases (row_error jkt c e now)) [
      | inr (code, x) ↦ absurd (ground arith)
      | inl x ↦ elim (Option-cases (next_error c e access next audit_error now)) [
        | inr (code, y) ↦ ground arith
        | inl y ↦ ground arith
      ]
    ]

rotate_row-IsLinked :
    (jkt : Text) (c : RefreshCredential) (e : Endpoint) (access : EndpointCredential)
    (next : RefreshCredential) (audit_error : Option ErrorCode) (now : ℕ) (t : RefreshTables)
    → is_ok (rotate_row jkt c e access next audit_error now t).1 ≡ true
    → IsLinked t
    → IsLinked (rotate_row jkt c e access next audit_error now t).0
rotate_row-IsLinked jkt c e access next audit_error now t h linked =
    elim (rotate_row_ok jkt c e access next audit_error now t h) [
      | inl same ↦ rw same (revoke_credential_family-IsLinked c.family_id now t linked)
      | inr (same, n) ↦ rw same (
          rotate-IsLinked c access next now t (rw same at h)
            (next_error-IsLinkedRow c e access next audit_error now n) linked)
    ]

report_tables : (r : RefreshTables × Result Bool) → (report r).0 ≡ r.0
report_tables (t, ok true) = refl
report_tables (t, ok false) = refl
report_tables (t, err e) = refl

transaction-IsLinked :
    (t : RefreshTables) (r : RefreshTables × Result Bool)
    → IsLinked t
    → (is_ok r.1 ≡ true → IsLinked r.0)
    → IsLinked (report (transaction t r)).0
transaction-IsLinked t r linked h = elim (transaction_cases t r) [
  | inl (fine, same) ↦ rw (report_tables (transaction t r), same) (h fine)
  | inr (_, same) ↦ rw (report_tables (transaction t r), same) linked
]

-- A call of `RotateRefreshCredential`, whatever it answers, keeps every active refresh credential
-- without a successor.
pub rotate_refresh_credential-IsLinked :
    (hash : ℕ) (jkt : Text) (access : EndpointCredential) (next : RefreshCredential)
    (audit_error : Option ErrorCode) (now : ℕ) (t : RefreshTables)
    → IsLinked t
    → IsLinked (rotate_refresh_credential hash jkt access next audit_error now t).0
unfolding rotate_refresh_credential
rotate_refresh_credential-IsLinked hash jkt access next audit_error now t linked =
    elim (Bool-cases (hash == 0 || is_empty (trim_space jkt) || now == 0)) [
      | inl g ↦ rw g linked
      | inr g ↦ elim (Option-cases (find (λ r. r.token_hash == hash) t.refresh_credentials)) [
        | inl x ↦ rw (g, x) linked
        | inr (c, x) ↦ elim (Option-cases (find (λ r. r.id == c.endpoint_id) t.endpoints)) [
          | inl y ↦ rw (g, x, y) linked
          | inr (e, y) ↦
              rw (g, x, y)
                (transaction-IsLinked t (rotate_row jkt c e access next audit_error now t) linked
                  (λ fine. rotate_row-IsLinked jkt c e access next audit_error now t fine linked))
        ]
      ]
    ]
