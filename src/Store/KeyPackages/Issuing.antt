-- ===== src/Store/KeyPackages/Issuing.antt =====
-- store/key_package.go: what a key package that the store accepts has.
use harness_platform_monorep.Prelude.{
  ◌≡◌, refl, sym, ap, ◌∙◌, inl, inr, Bool, true, false, ◌&&◌, none, some, List, [], ◌∷◌, arith,
  ◌==◌, Bool-cases, Option-cases, Text, text_eq_refl, is_empty, trim_space,
}
use harness_platform_monorep.Domain.Problem.{ErrorCode}
use harness_platform_monorep.Domain.Endpoint.{Endpoint, EndpointStatus}
use harness_platform_monorep.Domain.Session.{Session}
use harness_platform_monorep.Domain.Credential.{
  EndpointCredential, SessionKeyPackage, KeyPackageStatus,
}
use harness_platform_monorep.Domain.KeyPackage
use harness_platform_monorep.Store.Table.{
  ok, find, absent, is_ok, Result-cases, guard-eq-ok, try_check-eq-ok, guard-ok, or_error-eq-ok,
}
use harness_platform_monorep.Store.Frames.{PutFrameOutcome, stored, duplicate}
use harness_platform_monorep.Store.Revocation.{Tables, is_owned, is_aba}
use harness_platform_monorep.Store.KeyPackages.{
  check_put, put_session_key_package, put_once, insert_package, first_package, is_owned_session,
  is_hc, is_live_issuer, is_credential_of, require_active, clashes, same_key_package,
}

-- What the tests before the write have found.
pub record IsAuthorised (owner tenant : Text) (value : SessionKeyPackage) (t : Tables)
    : Type 0 where
  pub session : Session
  pub issuer : Endpoint
  pub recipient : Endpoint
  pub credential : EndpointCredential
  pub session_found :
      find (is_owned_session value.session_id owner tenant) t.sessions ≡ some session
  pub issuer_found :
      find (is_owned value.issuer_aba_endpoint_id owner tenant) t.endpoints ≡ some issuer
  pub recipient_found :
      find (is_owned value.recipient_hc_endpoint_id owner tenant) t.endpoints ≡ some recipient
  pub credential_found :
      find (is_credential_of value.issuer_credential_id value.issuer_aba_endpoint_id) t.credentials
      ≡ some credential
  pub route :
      (session.aba_endpoint_id ≡ value.issuer_aba_endpoint_id)
      × (session.hc_endpoint_id ≡ value.recipient_hc_endpoint_id)
  pub next : KeyPackage.validate_next_generation value.generation session ≡ none
  pub issuer_active : issuer.status ≡ EndpointStatus.active
  pub recipient_active : recipient.status ≡ EndpointStatus.active
  pub types : (is_aba issuer ≡ true) × (is_hc recipient ≡ true)
  pub live : is_live_issuer value issuer credential ≡ true

require_active-eq-none :
    (status : EndpointStatus) → require_active status ≡ none → status ≡ EndpointStatus.active
require_active-eq-none status h = ground arith

route_of :
    (s : Session) (value : SessionKeyPackage)
    → (s.aba_endpoint_id == value.issuer_aba_endpoint_id
        && s.hc_endpoint_id == value.recipient_hc_endpoint_id)
      ≡ true
    → (s.aba_endpoint_id ≡ value.issuer_aba_endpoint_id)
      × (s.hc_endpoint_id ≡ value.recipient_hc_endpoint_id)
route_of s value h = ground arith

check_put-IsAuthorised :
    (owner tenant : Text) (value : SessionKeyPackage) (t : Tables)
    → check_put owner tenant value t ≡ ok tt
    → IsAuthorised owner tenant value t
unfolding check_put
check_put-IsAuthorised owner tenant value t h =
    let (s, s_found, h1) = or_error-eq-ok ErrorCode.not_found _ _ h in
    let (route, h2) = guard-eq-ok _ ErrorCode.security_violation _ h1 in
    let (next, h3) = try_check-eq-ok _ _ h2 in
    let (issuer, issuer_found, h4) = or_error-eq-ok ErrorCode.not_found _ _ h3 in
    let (aba, h5) = guard-eq-ok _ ErrorCode.security_violation _ h4 in
    let (issuer_active, h6) = try_check-eq-ok _ _ h5 in
    let (recipient, recipient_found, h7) = or_error-eq-ok ErrorCode.not_found _ _ h6 in
    let (hc, h8) = guard-eq-ok _ ErrorCode.security_violation _ h7 in
    let (recipient_active, h9) = try_check-eq-ok _ _ h8 in
    let (c, c_found, h10) = or_error-eq-ok ErrorCode.security_violation _ _ h9 in
    record {
      session = s;
      issuer = issuer;
      recipient = recipient;
      credential = c;
      session_found = s_found;
      issuer_found = issuer_found;
      recipient_found = recipient_found;
      credential_found = c_found;
      route = route_of s value route;
      next = next;
      issuer_active = require_active-eq-none issuer.status issuer_active;
      recipient_active = require_active-eq-none recipient.status recipient_active;
      types = (aba, hc);
      live = guard-ok _ ErrorCode.security_violation h10;
    }

insert_package_fresh :
    (value : SessionKeyPackage) (rows : List SessionKeyPackage)
    → absent (clashes value) rows ≡ true
    → insert_package value rows ≡ (value ∷ rows, ok (stored, value))
unfolding insert_package
insert_package_fresh value rows h = rw h refl

same_key_package_refl : (p : SessionKeyPackage) → same_key_package p p ≡ true
unfolding same_key_package
same_key_package_refl p = grind (arith, text_eq_refl)

-- Of a stored package and rows without a clash with it, the first that clashes with it is itself.
first_package-absent :
    (f : SessionKeyPackage → Bool) (rows : List SessionKeyPackage)
    → absent f rows ≡ true
    → first_package f rows ≡ none
unfolding first_package absent
first_package-absent f [] h = refl
first_package-absent f (p ∷ ps) h = ground (arith, first_package-absent f ps)

insert_package_again :
    (value : SessionKeyPackage) (rows : List SessionKeyPackage)
    → absent (clashes value) rows ≡ true
    → insert_package value (value ∷ rows) ≡ (value ∷ rows, ok (duplicate, value))
unfolding insert_package first_package absent
insert_package_again value rows h =
    let none_left = first_package-absent (clashes value) rows h in
    let same = same_key_package_refl value in ground arith

insert_package_known :
    (value : SessionKeyPackage) (rows : List SessionKeyPackage)
    → absent (clashes value) rows ≡ false
    → is_ok (insert_package value rows).1 ≡ true
    → (p : SessionKeyPackage) × (insert_package value rows ≡ (rows, ok (duplicate, p)))
      × (same_key_package p value ≡ true)
unfolding insert_package
insert_package_known value rows x h = elim (Option-cases (first_package (clashes value) rows)) [
  | inl y ↦ absurd (ground arith)
  | inr (q, y) ↦ elim (Bool-cases (same_key_package q value)) [
    | inl z ↦ (q, (rw (x, y, z) refl), z)
    | inr z ↦ absurd (ground arith)
  ]
]

-- What an insert without an error has done: it is repeated with no effect.
insert_package_cases :
    (value : SessionKeyPackage) (rows : List SessionKeyPackage)
    → is_ok (insert_package value rows).1 ≡ true
    → (o : PutFrameOutcome) × (p : SessionKeyPackage) × ((insert_package value rows).1 ≡ ok (o, p))
      × (same_key_package p value ≡ true)
      × (insert_package value (insert_package value rows).0
          ≡ ((insert_package value rows).0, ok (duplicate, p)))
insert_package_cases value rows h = elim (Bool-cases (absent (clashes value) rows)) [
  | inl x ↦
      rw (insert_package_fresh value rows x)
        (stored, value, refl, same_key_package_refl value, insert_package_again value rows x)
  | inr x ↦
      let (p, e, same) = insert_package_known value rows x h in
      rw (e, e) (duplicate, p, refl, same, refl)
]

put_once_checked :
    (owner tenant : Text) (value : SessionKeyPackage) (t : Tables)
    → check_put owner tenant value t ≡ ok tt
    → put_once owner tenant value t ≡ (
      record t { key_packages = (insert_package value t.key_packages).0 },
      (insert_package value t.key_packages).1,
    )
unfolding put_once
put_once_checked owner tenant value t h = ground arith

put_once-ok :
    (owner tenant : Text) (value : SessionKeyPackage) (t : Tables)
    → is_ok (put_once owner tenant value t).1 ≡ true
    → check_put owner tenant value t ≡ ok tt
unfolding put_once
put_once-ok owner tenant value t h = elim (Result-cases (check_put owner tenant value t)) [
  | inl (_, x) ↦ x
  | inr (e, x) ↦ absurd (ground arith)
]

-- The tests of the arguments alone.
IsArgument : Text → SessionKeyPackage → Type 0
IsArgument owner value =
    (is_empty (trim_space owner) ≡ false)
    × (KeyPackage.validate KeyPackage.max_encapsulated_key_bytes KeyPackage.max_ciphertext_bytes
          value
        ≡ none)
    × (KeyPackage.is_package_status value.status KeyPackageStatus.pending ≡ true)

put-IsArgument :
    (owner tenant : Text) (value : SessionKeyPackage) (t : Tables)
    → is_ok (put_session_key_package owner tenant value t).1 ≡ true
    → IsArgument owner value
unfolding put_session_key_package IsArgument
put-IsArgument owner tenant value t h = elim (Bool-cases (is_empty (trim_space owner))) [
  | inl x ↦ absurd (ground arith)
  | inr x ↦
      elim (Option-cases (
        KeyPackage.validate KeyPackage.max_encapsulated_key_bytes KeyPackage.max_ciphertext_bytes
          value)) [ inr (e, y) ↦ absurd (ground arith) | inl y ↦ (x, y, ground arith) ]
]

put_argument :
    (owner tenant : Text) (value : SessionKeyPackage) (t : Tables)
    → IsArgument owner value
    → put_session_key_package owner tenant value t
      ≡ put_once (trim_space owner) (trim_space tenant) value t
unfolding put_session_key_package IsArgument
put_argument owner tenant value t (x, y, z) = rw (x, y, z) refl

put_checked :
    (owner tenant : Text) (value : SessionKeyPackage) (t : Tables)
    → is_ok (put_session_key_package owner tenant value t).1 ≡ true
    → check_put (trim_space owner) (trim_space tenant) value t ≡ ok tt
put_checked owner tenant value t h =
    let same = put_argument owner tenant value t (put-IsArgument owner tenant value t h) in
    put_once-ok (trim_space owner) (trim_space tenant) value t (rw same at h)

put_result :
    (owner tenant : Text) (value : SessionKeyPackage) (t : Tables)
    → is_ok (put_session_key_package owner tenant value t).1 ≡ true
    → put_session_key_package owner tenant value t ≡ (
      record t { key_packages = (insert_package value t.key_packages).0 },
      (insert_package value t.key_packages).1,
    )
put_result owner tenant value t h =
    put_argument owner tenant value t (put-IsArgument owner tenant value t h)
    ∙ put_once_checked (trim_space owner) (trim_space tenant) value t
        (put_checked owner tenant value t h)

-- A key package that the store accepts, as new or as a duplicate, belongs to a session of the owner
-- and tenant between its issuer and its recipient and has the session's next generation; the issuer
-- is an active ABA endpoint and the recipient an active HC endpoint, both of the owner and tenant,
-- and the issuer's credential is active, not revoked, and valid when the package was created.
pub put_session_key_package-IsAuthorised :
    (owner tenant : Text) (value : SessionKeyPackage) (t : Tables)
    → is_ok (put_session_key_package owner tenant value t).1 ≡ true
    → IsAuthorised (trim_space owner) (trim_space tenant) value t
put_session_key_package-IsAuthorised owner tenant value t h =
    check_put-IsAuthorised (trim_space owner) (trim_space tenant) value t
      (put_checked owner tenant value t h)

put_again :
    (owner tenant : Text) (value : SessionKeyPackage) (t : Tables)
    → is_ok (put_session_key_package owner tenant value t).1 ≡ true
    → put_session_key_package owner tenant value
        (record t { key_packages = (insert_package value t.key_packages).0 })
      ≡ (
        record t {
          key_packages = (insert_package value (insert_package value t.key_packages).0).0;
        },
        (insert_package value (insert_package value t.key_packages).0).1,
      )
unfolding check_put
put_again owner tenant value t h =
    put_argument owner tenant value
      (record t { key_packages = (insert_package value t.key_packages).0 })
      (put-IsArgument owner tenant value t h)
    ∙ put_once_checked (trim_space owner) (trim_space tenant) value
        (record t { key_packages = (insert_package value t.key_packages).0 })
        (put_checked owner tenant value t h)

-- A retry is harmless: when the store accepts a key package, the stored package has the contents of
-- the one given, and putting the same package again answers that it is a duplicate, with the same
-- stored package, and changes nothing.
pub put_session_key_package_twice :
    (owner tenant : Text) (value : SessionKeyPackage) (t : Tables)
    → is_ok (put_session_key_package owner tenant value t).1 ≡ true
    → let t' = (put_session_key_package owner tenant value t).0 in
      (o : PutFrameOutcome) × (p : SessionKeyPackage) × ((put_session_key_package owner tenant value
          t).1
        ≡ ok (o, p))
      × (same_key_package p value ≡ true)
      × (put_session_key_package owner tenant value t' ≡ (t', ok (duplicate, p)))
put_session_key_package_twice owner tenant value t h =
    let done = put_result owner tenant value t h in
    let inserted : is_ok (insert_package value t.key_packages).1 ≡ true =
      ap (λ r. is_ok r.1) (sym done) ∙ h in
    let (o, p, first, same, second) = insert_package_cases value t.key_packages inserted in
    (
      o,
      p,
      ap (λ r. r.1) done ∙ first,
      same,
      rw done (
          put_again owner tenant value t h
          ∙ ap (λ r. (record t { key_packages = r.0 }, r.1)) second),
    )
