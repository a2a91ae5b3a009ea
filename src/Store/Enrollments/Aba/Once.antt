-- ===== src/Store/Enrollments/Aba/Once.antt =====
-- store/aba_enrollment.go: an enrollment gives one ABA bridge.
use harness_platform_monorep.Prelude.{
  ℕ, ◌≡◌, refl, sym, ap, ◌∙◌, ◌≢◌, inl, inr, true, false, some, List, arith, ◌==◌,
}
use mathlib.Core.Path.{subst}
use harness_platform_monorep.Domain.Endpoint.{Endpoint}
use harness_platform_monorep.Domain.Enrollment.{Enrollment, EnrollmentStatus, consume}
use harness_platform_monorep.Domain.Keys.{Encodings}
use harness_platform_monorep.Domain.Credential.{EndpointCredential}
use harness_platform_monorep.Store.Table.{find, is_ok, ok}
use harness_platform_monorep.Store.Enrollments.{consume_enrollment}
use harness_platform_monorep.Store.Enrollments.Consumed.{IsConsumedFor, consume_enrollment_cases}
use harness_platform_monorep.Store.Enrollments.Once.{
  Call, serve, serve-IsConsumedFor, consumed_refused, found_same,
}
use harness_platform_monorep.Store.Enrollments.Aba.{
  AbaTables, Consumption, with_aba_consumption, consume_aba_enrollment,
  get_enrollment_by_device_code,
}
use harness_platform_monorep.Store.Enrollments.Aba.Consumed.{
  find-consume_aba_row, consume_aba_row-IsConsumedFor, get_consumed, consumed_row_refused,
  consume_aba_cases,
}

module _ (encodings : Encodings) where
  -- An ABA enrollment is spent by one consumption: once ConsumeABAEnrollment succeeds, and after any
  -- further creations and approvals of any enrollments, consumptions by ConsumeEnrollment and creations
  -- of endpoints, a second ConsumeABAEnrollment of it fails whatever it is handed, and ConsumeEnrollment fails for
  -- an endpoint with another identifier.
  pub aba_enrollment_consumed_once :
      (id hash hash' : ℕ) (c c' : Consumption) (p : Endpoint) (credential : EndpointCredential)
      (now later : ℕ) (calls : List Call) (t : AbaTables)
      → is_ok (consume_aba_enrollment encodings id hash c now t).1 ≡ true
      → c.endpoint.id ≢ p.id
      → let t' = (consume_aba_enrollment encodings id hash c now t).0 in
        let enrolled' = serve encodings calls t'.enrolled in
        (is_ok
            (consume_aba_enrollment encodings id hash' c' later
              (record t' { enrolled = enrolled' })).1
          ≡ false)
        × (is_ok (consume_enrollment encodings id p credential later enrolled').1 ≡ false)
  aba_enrollment_consumed_once id hash hash' c c' p credential now later calls t h other =
      elim (consume_aba_cases encodings id hash c now t) [
        | inl failed ↦ absurd (ground arith)
        | inr (e, _, _, found, fine, same) ↦
            let t' = (consume_aba_enrollment encodings id hash c now t).0 in
            let first : IsConsumedFor id c.endpoint.id t'.enrolled.enrollments =
              subst (λ r. IsConsumedFor id c.endpoint.id r.0.enrolled.enrollments) (sym same)
                (consume_aba_row-IsConsumedFor id hash c now e t found fine) in
            let left = serve-IsConsumedFor encodings calls id c.endpoint.id t'.enrolled first in
            let enrolled' = serve encodings calls t'.enrolled in
            let t'' : AbaTables = record t' { enrolled = enrolled' } in
            (
              elim (consume_aba_cases encodings id hash' c' later t'') [
                | inl refused ↦ refused
                | inr (e', _, _, found', fine', _) ↦
                    let row : left.row ≡ e' = found_same left.found found' in
                    let refused =
                      consumed_row_refused hash' c' later e' t''
                        (ap (λ r. r.status) (sym row) ∙ left.status) in
                    absurd (ground (arith, refused, fine'))
              ],
              elim (consume_enrollment_cases encodings id p credential later enrolled') [
                | inl (refused, _) ↦ refused
                | inr (e', found', fine', _) ↦
                    let row : left.row ≡ e' = found_same left.found found' in
                    let refused =
                      consumed_refused p credential later e' enrolled'
                        (ap (λ r. r.status) (sym row) ∙ left.status)
                        (λ k. other (sym left.endpoint ∙ ap (λ r. r.endpoint_id) row ∙ k)) in
                    absurd (ground (arith, refused, fine'))
              ],
            )
      ]

  -- The device that polls with the code of its enrollment reads what became of it: once
  -- ConsumeABAEnrollment succeeds for a code, GetEnrollmentByDeviceCode with that code answers, at any
  -- time but the zero one, a consumed enrollment that names the endpoint, also when it is overdue.
  pub aba_enrollment_polled :
      (id hash : ℕ) (c : Consumption) (now later : ℕ) (t : AbaTables)
      → is_ok (consume_aba_enrollment encodings id hash c now t).1 ≡ true
      → later ≢ 0
      → let t' = (consume_aba_enrollment encodings id hash c now t).0 in
        (v : Enrollment) × (get_enrollment_by_device_code id hash later t'.enrolled.enrollments
          ≡ ok v)
        × (v.status ≡ EnrollmentStatus.consumed)
        × (v.endpoint_id ≡ c.endpoint.id)
  aba_enrollment_polled id hash c now later t h time =
      elim (consume_aba_cases encodings id hash c now t) [
        | inl failed ↦ absurd (ground arith)
        | inr (e, some_id, some_hash, found, fine, same) ↦
            let v = with_aba_consumption c.endpoint.id now (consume c.endpoint.id now e).0 e in
            let (left, consumed, code) = find-consume_aba_row id hash c now e t found fine in
            let t' = (consume_aba_enrollment encodings id hash c now t).0 in
            let stored : find (λ r. r.id == id) t'.enrolled.enrollments ≡ some v =
              ap (λ r. find (λ x. x.id == id) r.0.enrolled.enrollments) same ∙ left in
            (
              v,
              get_consumed id hash later t'.enrolled.enrollments v some_id some_hash time stored
                  consumed code,
              consumed,
              refl,
            )
      ]
