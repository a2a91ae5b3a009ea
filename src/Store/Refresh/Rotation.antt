-- ===== src/Store/Refresh/Rotation.antt =====
-- store/refresh.go: a refresh token rotates once, and its reuse revokes its family.
use harness_platform_monorep.Prelude.{
  ℕ, ◌<◌, ◌≡◌, refl, sym, ap, ◌∙◌, inl, inr, Bool, true, false, not, ◌&&◌, ◌||◌, Option, none, some,
  List, ◌∷◌, arith, ◌==◌, Bool-cases, Option-cases, All, Text, is_empty, trim_space,
}
use mathlib.Core.Path.{subst}
use harness_platform_monorep.Domain.Problem.{ErrorCode}
use harness_platform_monorep.Domain.Endpoint.{Endpoint}
use harness_platform_monorep.Domain.Credential.{
  EndpointCredential, CredentialStatus, is_credential_status, RefreshCredential,
}
use harness_platform_monorep.Store.Table.{
  Result, ok, err, transaction, find, update_where, find-update_where, find-holds, absent-find-some,
  All-find, update_where-All,
}
use harness_platform_monorep.Store.Refresh.{
  RefreshTables, rotate_refresh_credential, rotate_row, row_error, next_error, rotate, report,
  is_current, as_rotated, is_fresh_refresh, revoke_credential_family, find_newest, is_active_in,
}

-- An active refresh credential has no successor.
abbrev pub IsLinked : RefreshTables → Type 0
IsLinked t =
    All
      (λ r.
        (is_credential_status r.status CredentialStatus.active && not (r.rotated_to == 0)) ≡ false)
      t.refresh_credentials

-- No access credential of a family is active, and no refresh credential of it active or rotated.
pub record IsFamilyRevoked (family : ℕ) (t : RefreshTables) : Type 0 where
  pub access :
      All
        (λ c.
          (c.family_id == family && is_credential_status c.status CredentialStatus.active) ≡ false)
        t.credentials
  pub refresh :
      All
        (λ c.
          (c.family_id == family
            && (is_credential_status c.status CredentialStatus.active
                || is_credential_status c.status CredentialStatus.rotated))
          ≡ false)
        t.refresh_credentials

revoke_credential_family-IsFamilyRevoked :
    (family now : ℕ) (t : RefreshTables)
    → IsFamilyRevoked family (revoke_credential_family family now t)
unfolding revoke_credential_family
revoke_credential_family-IsFamilyRevoked family now t = record {
  access = update_where-All _ _ _ t.credentials (λ c h. ground arith) (λ c h. h);
  refresh = update_where-All _ _ _ t.refresh_credentials (λ c h. ground arith) (λ c h. h);
}

rotate_cases :
    (c : RefreshCredential) (access : EndpointCredential) (next : RefreshCredential) (now : ℕ)
    (t : RefreshTables)
    → (rotate c access next now t).1 ≡ ok false
    → ((rotate c access next now t).0.refresh_credentials
        ≡ next ∷ update_where (is_current c) (as_rotated next.id now) t.refresh_credentials)
      × ((rotate c access next now t).0.endpoints ≡ t.endpoints)
      × (is_fresh_refresh next t.refresh_credentials ≡ true)
unfolding rotate
rotate_cases c access next now t h =
    elim (Option-cases (find_newest (is_active_in c.family_id) t.credentials)) [
      | inl e ↦ absurd (ground arith)
      | inr (a, e) ↦ ground arith
    ]

row_error_later :
    (jkt : Text) (c : RefreshCredential) (e : Endpoint) (next_id now used later : ℕ)
    → row_error jkt c e now ≡ none
    → later < c.expires_at
    → row_error jkt (as_rotated next_id used c) e later ≡ none
unfolding row_error
row_error_later jkt c e next_id now used later h live = ground arith

rotate_row_cases :
    (jkt : Text) (c : RefreshCredential) (e : Endpoint) (access : EndpointCredential)
    (next : RefreshCredential) (audit_error : Option ErrorCode) (now : ℕ) (t : RefreshTables)
    → (rotate_row jkt c e access next audit_error now t).1 ≡ ok false
    → (row_error jkt c e now ≡ none)
      × (is_credential_status c.status CredentialStatus.active ≡ true)
      × (next_error c e access next audit_error now ≡ none)
      × (rotate_row jkt c e access next audit_error now t ≡ rotate c access next now t)
unfolding rotate_row
rotate_row_cases jkt c e access next audit_error now t h =
    elim (Option-cases (row_error jkt c e now)) [
      | inr (code, x) ↦ absurd (ground arith)
      | inl x ↦ elim (Option-cases (next_error c e access next audit_error now)) [
        | inr (code, y) ↦ absurd (ground arith)
        | inl y ↦ ground arith
      ]
    ]

reuse_row :
    (jkt : Text) (c : RefreshCredential) (e : Endpoint) (access : EndpointCredential)
    (next : RefreshCredential) (audit_error : Option ErrorCode) (later : ℕ) (t : RefreshTables)
    → row_error jkt c e later ≡ none
    → c.status ≡ CredentialStatus.rotated
    → rotate_row jkt c e access next audit_error later t
      ≡ (revoke_credential_family c.family_id later t, ok true)
unfolding rotate_row
reuse_row jkt c e access next audit_error later t h rotated = ground (arith, h, rotated)

-- The transaction's report, seen from a success.
report_cases :
    (t : RefreshTables) (r : RefreshTables × Result Bool)
    → (report (transaction t r)).1 ≡ none
    → (r.1 ≡ ok false) × ((report (transaction t r)).0 ≡ r.0)
report_cases t (s, ok true) h = absurd (cc)
report_cases t (s, ok false) h = (refl, refl)
report_cases t (s, err e) h = absurd (cc)

rotation_cases :
    (hash : ℕ) (jkt : Text) (access : EndpointCredential) (next : RefreshCredential)
    (audit_error : Option ErrorCode) (now : ℕ) (t : RefreshTables)
    → (rotate_refresh_credential hash jkt access next audit_error now t).1 ≡ none
    → (c : RefreshCredential) × (e : Endpoint) × (find
          (λ r. r.token_hash == hash)
          t.refresh_credentials
        ≡ some c)
      × (find (λ r. r.id == c.endpoint_id) t.endpoints ≡ some e)
      × ((hash == 0 || is_empty (trim_space jkt)) ≡ false)
      × (row_error jkt c e now ≡ none)
      × (is_credential_status c.status CredentialStatus.active ≡ true)
      × ((rotate c access next now t).1 ≡ ok false)
      × ((rotate_refresh_credential hash jkt access next audit_error now t).0
          ≡ (rotate c access next now t).0)
unfolding rotate_refresh_credential
rotation_cases hash jkt access next audit_error now t h =
    elim (Option-cases (find (λ r. r.token_hash == hash) t.refresh_credentials)) [
      | inl x ↦ absurd (ground arith)
      | inr (c, x) ↦ elim (Option-cases (find (λ r. r.id == c.endpoint_id) t.endpoints)) [
        | inl y ↦ absurd (ground arith)
        | inr (e, y) ↦ elim (Bool-cases (hash == 0 || is_empty (trim_space jkt) || now == 0)) [
          | inl g ↦ absurd (ground arith)
          | inr g ↦
              let (fine, kept) =
                report_cases t (rotate_row jkt c e access next audit_error now t)
                  (rw (g, x, y) at h) in
              let (row, active, _, same) =
                rotate_row_cases jkt c e access next audit_error now t fine in
              (
                c,
                e,
                x,
                y,
                ground arith,
                row,
                active,
                (rw same at fine),
                (rw (g, x, y) (kept ∙ ap (λ r. r.0) same)),
              )
        ]
      ]
    ]

some-injective : {A : Type 0} {a b : A} → some a ≡ some b → a ≡ b
some-injective {a} h = ap (λ o. elim o [ none ↦ a | some x ↦ x ]) h

is_current_lem :
    (c : RefreshCredential)
    → (is_credential_status c.status CredentialStatus.active && not (c.rotated_to == 0)) ≡ false
    → is_credential_status c.status CredentialStatus.active ≡ true
    → is_current c c ≡ true
is_current_lem c linked active = ground arith

-- The presented credential, where the rotation left it.
find_rotated :
    (hash : ℕ) (c next : RefreshCredential) (now : ℕ) (rows : List RefreshCredential)
    → is_fresh_refresh next rows ≡ true
    → find (λ r. r.token_hash == hash) rows ≡ some c
    → is_current c c ≡ true
    → find
        (λ r. r.token_hash == hash)
        (next ∷ update_where (is_current c) (as_rotated next.id now) rows)
      ≡ some (as_rotated next.id now c)
unfolding find
find_rotated hash c next now rows fresh found current =
    let unused =
      absent-find-some (λ r. r.id == next.id || r.token_hash == next.token_hash)
        (λ r. r.token_hash == hash) rows fresh found in
    let held = find-holds (λ r. r.token_hash == hash) rows found in
    let other : (next.token_hash == hash) ≡ false = ground (arith, unused, held) in
    rw
      (
        other,
        find-update_where (is_current c) (λ r. r.token_hash == hash) (as_rotated next.id now) rows
            (λ r. refl),
        found,
        current,
      )
      refl

reuse_lem :
    (hash : ℕ) (jkt : Text) (access : EndpointCredential) (next : RefreshCredential)
    (audit_error : Option ErrorCode) (later : ℕ) (t : RefreshTables) (c : RefreshCredential)
    (e : Endpoint)
    → find (λ r. r.token_hash == hash) t.refresh_credentials ≡ some c
    → find (λ r. r.id == c.endpoint_id) t.endpoints ≡ some e
    → (hash == 0 || is_empty (trim_space jkt)) ≡ false
    → 0 < later
    → row_error jkt c e later ≡ none
    → c.status ≡ CredentialStatus.rotated
    → rotate_refresh_credential hash jkt access next audit_error later t
      ≡ (revoke_credential_family c.family_id later t, some ErrorCode.revoked)
unfolding rotate_refresh_credential
reuse_lem hash jkt access next audit_error later t c e found endpoint given l fine rotated =
    let guard : (hash == 0 || is_empty (trim_space jkt) || later == 0) ≡ false = ground arith in
    rw (guard, found, endpoint, reuse_row jkt c e access next audit_error later t fine rotated) refl

-- A refresh token that was rotated and is presented again, at a set time before its expiry and with
-- the same key, is refused as revoked, whatever the credentials presented with it; and the call leaves no
-- credential of its family in use, the ones that replaced it included. The tables are linked:
-- no active refresh credential has a successor.
pub reuse-IsFamilyRevoked :
    (hash : ℕ) (jkt : Text) (access access' : EndpointCredential) (next next' : RefreshCredential)
    (audit_error audit_error' : Option ErrorCode) (now later : ℕ) (t t' t'' : RefreshTables)
    (c : RefreshCredential) (result : Option ErrorCode)
    → IsLinked t
    → find (λ r. r.token_hash == hash) t.refresh_credentials ≡ some c
    → rotate_refresh_credential hash jkt access next audit_error now t ≡ (t', none)
    → 0 < later
    → later < c.expires_at
    → rotate_refresh_credential hash jkt access' next' audit_error' later t' ≡ (t'', result)
    → (result ≡ some ErrorCode.revoked) × IsFamilyRevoked c.family_id t''
reuse-IsFamilyRevoked hash jkt access access' next next' audit_error audit_error' now later t t' t''
      c result linked found first l live again =
    let (c', e, found', endpoint, given, row, active, fine, left) =
      rotation_cases hash jkt access next audit_error now t (rw first refl) in
    let same : c' ≡ c = some-injective (sym found' ∙ found) in
    let (rows, endpoints, fresh) = rotate_cases c' access next now t fine in
    let at : t' ≡ (rotate c' access next now t).0 = sym (ap (λ r. r.0) first) ∙ left in
    let current =
      is_current_lem c' (All-find _ (λ r. r.token_hash == hash) t.refresh_credentials linked found')
        active in
    let second =
      reuse_lem hash jkt access' next' audit_error' later t' (as_rotated next.id now c') e
        (rw (at, rows) (find_rotated hash c' next now t.refresh_credentials fresh found' current))
        (rw (at, endpoints) endpoint) given l
        (row_error_later jkt c' e next.id now now later row (rw same live)) refl in
    let last = sym again ∙ second in
    (
      ap (λ r. r.1) last,
      subst (IsFamilyRevoked c.family_id) (sym (ap (λ r. r.0) last)) (
          subst (λ k. IsFamilyRevoked c.family_id (revoke_credential_family k.family_id later t'))
            (sym same) (revoke_credential_family-IsFamilyRevoked c.family_id later t')),
    )
