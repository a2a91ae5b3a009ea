-- ===== src/Store/Enrollments/Consumed.antt =====
-- store/repository.go: an enrollment that was consumed stays consumed by its endpoint.
use harness_platform_monorep.Prelude.{
  ℕ, ◌≡◌, refl, sym, ap, ◌∙◌, ◌⊎◌, inl, inr, Bool, true, false, ◌||◌, none, some, List, ◌∷◌, arith,
  ◌==◌, Bool-cases, Option-cases,
}
use harness_platform_monorep.Domain.Endpoint.{Endpoint}
use harness_platform_monorep.Domain.Enrollment
use harness_platform_monorep.Domain.Enrollment.{Enrollment, EnrollmentStatus, approve, consume}
use harness_platform_monorep.Domain.Keys.{Encodings}
use harness_platform_monorep.Domain.Credential.{EndpointCredential}
use harness_platform_monorep.Store.Table.{
  ok, transaction, transaction_cases, find, update_where, find-update_where, and_then-ok,
  insert_row, is_ok,
}
use harness_platform_monorep.Store.Enrollments.{
  EnrollmentTables, endpoint_clash, insert_endpoint, insert_credential, is_approved_row,
  with_consumption, write_consumption, matches_endpoint, create_consumed, consume_row,
  consume_argument_error, consume_enrollment,
}

-- The row of an enrollment that was consumed for an endpoint.
pub record IsConsumedFor (id endpoint_id : ℕ) (rows : List Enrollment) : Type 0 where
  pub row : Enrollment
  pub found : find (λ r. r.id == id) rows ≡ some row
  pub status : row.status ≡ EnrollmentStatus.consumed
  pub endpoint : row.endpoint_id ≡ endpoint_id

pub consume-consumed :
    (endpoint_id now : ℕ) (e : Enrollment)
    → Enrollment.is_status e.status EnrollmentStatus.consumed ≡ false
    → (consume endpoint_id now e).1 ≡ none
    → (e.status ≡ EnrollmentStatus.approved)
      × ((consume endpoint_id now e).0.status ≡ EnrollmentStatus.consumed)
unfolding consume
consume-consumed endpoint_id now e h k = ground arith

insert_row-ok :
    {A : Type 0} (clash : A → Bool) (x : A) (rows : List A)
    → is_ok (insert_row clash x rows).1 ≡ true
    → (insert_row clash x rows).0 ≡ x ∷ rows
insert_row-ok clash x rows h = ground arith

pub create_consumed-ok :
    (p : Endpoint) (c : EndpointCredential) (e e' : Enrollment) (t : EnrollmentTables)
    → is_ok (create_consumed p c e e' t).1 ≡ true
    → ((create_consumed p c e e' t).0.enrollments
        ≡ update_where (is_approved_row e) (with_consumption p.id e') t.enrollments)
      × ((create_consumed p c e e' t).0.endpoints ≡ p ∷ t.endpoints)
      × ((create_consumed p c e e' t).0.credentials ≡ c ∷ t.credentials)
unfolding create_consumed write_consumption
create_consumed-ok p c e e' t h =
    let (_, fine, same) = and_then-ok (insert_endpoint p t) _ h in
    let (_, fine', same') =
      and_then-ok (insert_credential c (insert_endpoint p t).0) _
        (ap (λ r. is_ok r.1) (sym same) ∙ h) in
    (
      ap (λ r. r.0.enrollments) (same ∙ same'),
      ap (λ r. r.0.endpoints) (same ∙ same')
          ∙ insert_row-ok (endpoint_clash p) p t.endpoints (ap is_ok fine),
      ap (λ r. r.0.credentials) (same ∙ same')
          ∙ insert_row-ok (λ x. x.id == c.id || x.token_hash == c.token_hash) c t.credentials
              (ap is_ok fine'),
    )

pub consume_row_cases :
    (p : Endpoint) (c : EndpointCredential) (now : ℕ) (e : Enrollment) (t : EnrollmentTables)
    → is_ok (consume_row p c now e t).1 ≡ true
    → ((e.status ≡ EnrollmentStatus.consumed)
        × (e.endpoint_id ≡ p.id)
        × (consume_row p c now e t ≡ (t, ok tt)))
      ⊎ ((Enrollment.is_status e.status EnrollmentStatus.consumed ≡ false)
          × (matches_endpoint e p ≡ true)
          × ((consume p.id now e).1 ≡ none)
          × (consume_row p c now e t ≡ create_consumed p c e (consume p.id now e).0 t))
unfolding consume_row
consume_row_cases p c now e t h =
    elim (Bool-cases (Enrollment.is_status e.status EnrollmentStatus.consumed)) [
      | inl x ↦ inl (ground (arith, x), ground arith, ground arith)
      | inr x ↦ elim (Bool-cases (matches_endpoint e p)) [
        | inr y ↦ absurd (ground arith)
        | inl y ↦ elim (Option-cases (consume p.id now e).1) [
          | inr (code, z) ↦ absurd (ground arith)
          | inl z ↦ inr (x, y, z, ground arith)
        ]
      ]
    ]

pub consume_row-IsConsumedFor :
    (id : ℕ) (p : Endpoint) (c : EndpointCredential) (now : ℕ) (t : EnrollmentTables)
    (e : Enrollment)
    → find (λ r. r.id == id) t.enrollments ≡ some e
    → is_ok (consume_row p c now e t).1 ≡ true
    → IsConsumedFor id p.id (consume_row p c now e t).0.enrollments
consume_row-IsConsumedFor id p c now t e found h = elim (consume_row_cases p c now e t h) [
  | inl (status, endpoint, same) ↦
      let rows = ap (λ r. r.0.enrollments) same in
      record { row = e; found = rw rows found; status = status; endpoint = endpoint }
  | inr (open_row, _, passed, same) ↦
      let (approved, consumed) = consume-consumed p.id now e open_row passed in
      let (rows, _, _) =
        create_consumed-ok p c e (consume p.id now e).0 t (ap (λ r. is_ok r.1) (sym same) ∙ h) in
      let self : is_approved_row e e ≡ true = ground arith in
      record {
        row = with_consumption p.id (consume p.id now e).0 e;
        found =
            rw
              (
                same,
                rows,
                find-update_where (is_approved_row e) (λ r. r.id == id)
                    (with_consumption p.id (consume p.id now e).0) t.enrollments (λ r. refl),
                found,
                self,
              )
              refl;
        status = consumed;
        endpoint = refl;
      }
]

module _ (encodings : Encodings) where
  pub consume_enrollment_cases :
      (id : ℕ) (p : Endpoint) (c : EndpointCredential) (now : ℕ) (t : EnrollmentTables)
      → ((is_ok (consume_enrollment encodings id p c now t).1 ≡ false)
          × ((consume_enrollment encodings id p c now t).0 ≡ t))
        ⊎ ((e : Enrollment) × (find (λ r. r.id == id) t.enrollments ≡ some e)
            × (is_ok (consume_row p c now e t).1 ≡ true)
            × (consume_enrollment encodings id p c now t ≡ consume_row p c now e t))
  unfolding consume_enrollment
  consume_enrollment_cases id p c now t =
      elim (Option-cases (consume_argument_error encodings id p c now)) [
        | inr (code, x) ↦ inl (ground (arith, x), ground (arith, x))
        | inl x ↦ elim (Option-cases (find (λ r. r.id == id) t.enrollments)) [
          | inl y ↦ inl (ground (arith, x, y), ground (arith, x, y))
          | inr (e, y) ↦
              let same : consume_enrollment encodings id p c now t
                  ≡ transaction t (consume_row p c now e t) =
                ground (arith, x, y) in
              elim (transaction_cases t (consume_row p c now e t)) [
                | inl (fine, kept) ↦ inr (e, y, fine, same ∙ kept)
                | inr (failed, undone) ↦
                    inl (ap (λ r. is_ok r.1) same ∙ failed, ap (λ r. r.0) same ∙ undone)
              ]
        ]
      ]

  -- A consumption is whole or nothing. Either it fails and the tables are as they were, or the
  -- enrollment's row is consumed for the endpoint, and then either it already was and the tables are
  -- as they were, or the endpoint and its credential were added, with the same owner, type and keys
  -- as the enrollment that was found.
  pub consume_enrollment_atomic :
      (id : ℕ) (p : Endpoint) (c : EndpointCredential) (now : ℕ) (t : EnrollmentTables)
      → let r = consume_enrollment encodings id p c now t in
        ((is_ok r.1 ≡ false) × (r.0 ≡ t))
        ⊎ (IsConsumedFor id p.id r.0.enrollments
            × ((r.0 ≡ t)
                ⊎ ((e : Enrollment) × (find (λ x. x.id == id) t.enrollments ≡ some e)
                    × (e.status ≡ EnrollmentStatus.approved)
                    × (matches_endpoint e p ≡ true)
                    × (r.0.endpoints ≡ p ∷ t.endpoints)
                    × (r.0.credentials ≡ c ∷ t.credentials))))
  consume_enrollment_atomic id p c now t = elim (consume_enrollment_cases id p c now t) [
    | inl failed ↦ inl failed
    | inr (e, found, fine, same) ↦
        let left = consume_row-IsConsumedFor id p c now t e found fine in
        inr (
          rw same left,
          elim (consume_row_cases p c now e t fine) [
            | inl (_, _, unchanged) ↦ inl (ap (λ r. r.0) (same ∙ unchanged))
            | inr (open_row, matches, passed, new) ↦
                let (_, endpoints, credentials) =
                  create_consumed-ok p c e (consume p.id now e).0 t
                    (ap (λ r. is_ok r.1) (sym new) ∙ fine) in
                inr (
                  e,
                  found,
                  (consume-consumed p.id now e open_row passed).0,
                  matches,
                  ap (λ r. r.0.endpoints) (same ∙ new) ∙ endpoints,
                  ap (λ r. r.0.credentials) (same ∙ new) ∙ credentials,
                )
          ],
        )
  ]
