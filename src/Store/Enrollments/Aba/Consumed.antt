-- ===== src/Store/Enrollments/Aba/Consumed.antt =====
-- store/aba_enrollment.go: what a successful consumption by an ABA bridge leaves.
use harness_platform_monorep.Prelude.{
  ℕ, ◌≡◌, refl, sym, ap, ◌∙◌, ◌≢◌, ◌⊎◌, inl, inr, true, false, none, some, List, arith, ◌==◌,
  Bool-cases, Option-cases,
}
use harness_platform_monorep.Domain.Enrollment
use harness_platform_monorep.Domain.Enrollment.{Enrollment, EnrollmentStatus, consume}
use harness_platform_monorep.Domain.Keys.{Encodings}
use harness_platform_monorep.Store.Table.{
  transaction, transaction_cases, find, update_where, find-update_where, and_then-ok, is_ok, ok,
}
use harness_platform_monorep.Store.Enrollments.{insert_endpoint, insert_credential, is_approved_row}
use harness_platform_monorep.Store.Enrollments.Consumed.{IsConsumedFor, consume-consumed}
use harness_platform_monorep.Store.Enrollments.Aba.{
  AbaTables, Consumption, on_enrolled, insert_refresh, insert_audit, with_aba_consumption,
  write_aba_consumption, aba_matches, create_aba, consume_aba_row, aba_argument_error,
  consume_aba_enrollment, get_enrollment_by_device_code,
}

create_aba-ok :
    (c : Consumption) (now : ℕ) (e e' : Enrollment) (t : AbaTables)
    → is_ok (create_aba c now e e' t).1 ≡ true
    → (create_aba c now e e' t).0.enrolled.enrollments
      ≡ update_where
          (is_approved_row e)
          (with_aba_consumption c.endpoint.id now e')
          t.enrolled.enrollments
unfolding create_aba write_aba_consumption
create_aba-ok c now e e' t h =
    let t₁ = (on_enrolled t (insert_endpoint c.endpoint t.enrolled)).0 in
    let t₂ = (on_enrolled t₁ (insert_credential c.access t₁.enrolled)).0 in
    let t₃ = (insert_refresh c.refresh t₂).0 in
    let (_, _, first) = and_then-ok (on_enrolled t (insert_endpoint c.endpoint t.enrolled)) _ h in
    let (_, _, second) =
      and_then-ok (on_enrolled t₁ (insert_credential c.access t₁.enrolled)) _
        (ap (λ r. is_ok r.1) (sym first) ∙ h) in
    let (_, _, third) =
      and_then-ok (insert_refresh c.refresh t₂) _
        (ap (λ r. is_ok r.1) (sym (first ∙ second)) ∙ h) in
    let (_, _, fourth) =
      and_then-ok (insert_audit c.audit t₃) _
        (ap (λ r. is_ok r.1) (sym (first ∙ second ∙ third)) ∙ h) in
    ap (λ r. r.0.enrolled.enrollments) (first ∙ second ∙ third ∙ fourth)

consume_aba_row_cases :
    (device_code_hash : ℕ) (c : Consumption) (now : ℕ) (e : Enrollment) (t : AbaTables)
    → is_ok (consume_aba_row device_code_hash c now e t).1 ≡ true
    → (Enrollment.is_status e.status EnrollmentStatus.consumed ≡ false)
      × (e.device_code_hash ≡ device_code_hash)
      × ((consume c.endpoint.id now e).1 ≡ none)
      × (consume_aba_row device_code_hash c now e t
          ≡ create_aba c now e (consume c.endpoint.id now e).0 t)
unfolding consume_aba_row
consume_aba_row_cases hash c now e t h = elim (Bool-cases (e.device_code_hash == hash)) [
  | inr w ↦ absurd (ground arith)
  | inl w ↦ elim (Bool-cases (Enrollment.is_status e.status EnrollmentStatus.consumed)) [
    | inl x ↦ absurd (ground arith)
    | inr x ↦ elim (Bool-cases (aba_matches e c.endpoint now)) [
      | inr y ↦ absurd (ground arith)
      | inl y ↦ elim (Option-cases (consume c.endpoint.id now e).1) [
        | inr (code, z) ↦ absurd (ground arith)
        | inl z ↦ (x, ground arith, z, ground arith)
      ]
    ]
  ]
]

-- What a successful consumption leaves under the enrollment's identifier.
pub find-consume_aba_row :
    (id device_code_hash : ℕ) (c : Consumption) (now : ℕ) (e : Enrollment) (t : AbaTables)
    → find (λ r. r.id == id) t.enrolled.enrollments ≡ some e
    → is_ok (consume_aba_row device_code_hash c now e t).1 ≡ true
    → (find (λ r. r.id == id) (consume_aba_row device_code_hash c now e t).0.enrolled.enrollments
        ≡ some (with_aba_consumption c.endpoint.id now (consume c.endpoint.id now e).0 e))
      × ((consume c.endpoint.id now e).0.status ≡ EnrollmentStatus.consumed)
      × (e.device_code_hash ≡ device_code_hash)
find-consume_aba_row id hash c now e t found h =
    let (open_row, code, passed, same) = consume_aba_row_cases hash c now e t h in
    let e' = (consume c.endpoint.id now e).0 in
    let (approved, consumed) = consume-consumed c.endpoint.id now e open_row passed in
    let rows = create_aba-ok c now e e' t (ap (λ r. is_ok r.1) (sym same) ∙ h) in
    let self : is_approved_row e e ≡ true = ground arith in
    let updated =
      find-update_where (is_approved_row e) (λ r. r.id == id)
        (with_aba_consumption c.endpoint.id now e') t.enrolled.enrollments (λ r. refl) in
    (rw (same, rows, updated, found, self) refl, consumed, code)

pub consume_aba_row-IsConsumedFor :
    (id device_code_hash : ℕ) (c : Consumption) (now : ℕ) (e : Enrollment) (t : AbaTables)
    → find (λ r. r.id == id) t.enrolled.enrollments ≡ some e
    → is_ok (consume_aba_row device_code_hash c now e t).1 ≡ true
    → IsConsumedFor id c.endpoint.id
        (consume_aba_row device_code_hash c now e t).0.enrolled.enrollments
consume_aba_row-IsConsumedFor id hash c now e t found h =
    let (left, consumed, _) = find-consume_aba_row id hash c now e t found h in
    record {
      row = with_aba_consumption c.endpoint.id now (consume c.endpoint.id now e).0 e;
      found = left;
      status = consumed;
      endpoint = refl;
    }

pub get_consumed :
    (id hash later : ℕ) (rows : List Enrollment) (v : Enrollment)
    → id ≢ 0
    → hash ≢ 0
    → later ≢ 0
    → find (λ r. r.id == id) rows ≡ some v
    → v.status ≡ EnrollmentStatus.consumed
    → v.device_code_hash ≡ hash
    → get_enrollment_by_device_code id hash later rows ≡ ok v
unfolding get_enrollment_by_device_code
get_consumed id hash later rows v a b d found status code = ground (arith, found)

pub consumed_row_refused :
    (device_code_hash : ℕ) (c : Consumption) (now : ℕ) (e : Enrollment) (t : AbaTables)
    → e.status ≡ EnrollmentStatus.consumed
    → is_ok (consume_aba_row device_code_hash c now e t).1 ≡ false
unfolding consume_aba_row
consumed_row_refused hash c now e t status = elim (Bool-cases (e.device_code_hash == hash)) [
  | inl w ↦ ground arith
  | inr w ↦ ground arith
]

module _ (encodings : Encodings) where
  argument_error-none :
      (id hash : ℕ) (c : Consumption) (now : ℕ)
      → aba_argument_error encodings id hash c now ≡ none
      → (id ≢ 0) × (hash ≢ 0)
  unfolding aba_argument_error
  argument_error-none id hash c now h = (λ k. absurd (ground arith), λ k. absurd (ground arith))

  pub consume_aba_cases :
      (id device_code_hash : ℕ) (c : Consumption) (now : ℕ) (t : AbaTables)
      → (is_ok (consume_aba_enrollment encodings id device_code_hash c now t).1 ≡ false)
        ⊎ ((e : Enrollment) × (id ≢ 0)
            × (device_code_hash ≢ 0)
            × (find (λ r. r.id == id) t.enrolled.enrollments ≡ some e)
            × (is_ok (consume_aba_row device_code_hash c now e t).1 ≡ true)
            × (consume_aba_enrollment encodings id device_code_hash c now t
                ≡ consume_aba_row device_code_hash c now e t))
  unfolding consume_aba_enrollment
  consume_aba_cases id hash c now t =
      elim (Option-cases (aba_argument_error encodings id hash c now)) [
        | inr (code, x) ↦ inl (ground (arith, x))
        | inl x ↦ elim (Option-cases (find (λ r. r.id == id) t.enrolled.enrollments)) [
          | inl y ↦ inl (ground (arith, x, y))
          | inr (e, y) ↦
              let same : consume_aba_enrollment encodings id hash c now t
                  ≡ transaction t (consume_aba_row hash c now e t) =
                ground (arith, x, y) in
              elim (transaction_cases t (consume_aba_row hash c now e t)) [
                | inl (fine, kept) ↦
                    let (some_id, some_hash) = argument_error-none id hash c now x in
                    inr (e, some_id, some_hash, y, fine, same ∙ kept)
                | inr (failed, undone) ↦ inl (ap (λ r. is_ok r.1) same ∙ failed)
              ]
        ]
      ]
