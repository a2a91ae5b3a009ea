-- ===== src/Store/Enrollments/Once.antt =====
-- store/repository.go: an enrollment gives one endpoint, whatever calls follow.
use harness_platform_monorep.Prelude.{
  ℕ, ◌≡◌, refl, sym, ap, ◌∙◌, ◌≢◌, ◌⊎◌, inl, inr, Bool, true, false, ◌||◌, Option, none, some, List,
  [], ◌∷◌, arith, ◌==◌, Bool-cases, Option-cases, Text, is_empty, trim_space,
}
use mathlib.Core.Path.{subst}
use harness_platform_monorep.Domain.Endpoint.{Endpoint}
use harness_platform_monorep.Domain.Enrollment
use harness_platform_monorep.Domain.Enrollment.{Enrollment, EnrollmentStatus, approve, consume}
use harness_platform_monorep.Domain.Keys.{Encodings, validate_enrollment}
use harness_platform_monorep.Domain.Credential.{EndpointCredential}
use harness_platform_monorep.Store.Table.{
  transaction, transaction_cases, find, find-holds, update_where, find-update_where, absent,
  absent-find-some, is_ok,
}
use harness_platform_monorep.Store.Enrollments.{
  EnrollmentTables, enrollment_clash, is_enrollment_row, with_approval, approve_row,
  approve_enrollment, is_approved_row, with_consumption, consume_row, create_enrollment,
  create_endpoint, consume_enrollment,
}
use harness_platform_monorep.Store.Enrollments.Consumed.{
  IsConsumedFor, consume_row_cases, create_consumed-ok, consume_enrollment_cases,
  consume_row-IsConsumedFor,
}

-- The calls on the table.
pub data Call : Type 0 where
  create_call : Enrollment → Call
  approve_call : ℕ → Text → ℕ → Call
  endpoint_call : Endpoint → Call
  consume_call : ℕ → Endpoint → EndpointCredential → ℕ → Call

moved :
    (id endpoint_id : ℕ) (rows rows' : List Enrollment)
    → (h : IsConsumedFor id endpoint_id rows) → find (λ r. r.id == id) rows' ≡ some h.row
    → IsConsumedFor id endpoint_id rows'
moved id endpoint_id rows rows' h found = record {
  row = h.row;
  found = found;
  status = h.status;
  endpoint = h.endpoint;
}

inserted :
    (id : ℕ) (e : Enrollment) (rows : List Enrollment) {v : Enrollment}
    → absent (enrollment_clash e) rows ≡ true
    → find (λ r. r.id == id) rows ≡ some v
    → find (λ r. r.id == id) (e ∷ rows) ≡ some v
unfolding find
inserted id e rows {v} free found = elim (Bool-cases (e.id == id)) [
  | inr x ↦ rw x found
  | inl x ↦
      let held = find-holds (λ r. r.id == id) rows found in
      let apart = absent-find-some (enrollment_clash e) (λ r. r.id == id) rows free found in
      absurd (ground arith)
]

untouched :
    (id : ℕ) (q : Enrollment → Bool) (f : Enrollment → Enrollment) (rows : List Enrollment)
    {v : Enrollment}
    → ((r : Enrollment) → (f r).id ≡ r.id)
    → q v ≡ false
    → find (λ r. r.id == id) rows ≡ some v
    → find (λ r. r.id == id) (update_where q f rows) ≡ some v
untouched id q f rows same off found =
    rw (find-update_where q (λ r. r.id == id) f rows (λ r. ap (λ n. n == id) (same r)), found, off)
      refl

approve_row_cases :
    (owner : Text) (now : ℕ) (e : Enrollment) (rows : List Enrollment)
    → is_ok (approve_row owner now e rows).1 ≡ true
    → (e.status ≡ EnrollmentStatus.pending)
      × ((approve_row owner now e rows).0
          ≡ update_where (is_enrollment_row e) (with_approval owner (approve owner now e).0) rows)
unfolding approve_row approve
approve_row_cases owner now e rows h = ground arith

approve_cases :
    (id : ℕ) (owner : Text) (now : ℕ) (rows : List Enrollment)
    → ((approve_enrollment id owner now rows).0 ≡ rows)
      ⊎ ((e : Enrollment) × (find (λ r. r.id == id) rows ≡ some e)
          × (e.status ≡ EnrollmentStatus.pending)
          × ((approve_enrollment id owner now rows).0
              ≡ update_where
                  (is_enrollment_row e)
                  (with_approval owner (approve owner now e).0)
                  rows))
unfolding approve_enrollment
approve_cases id owner now rows = elim (Bool-cases (id == 0 || is_empty (trim_space owner))) [
  | inl x ↦ inl (ground (arith, x))
  | inr x ↦ elim (Option-cases (find (λ r. r.id == id) rows)) [
    | inl y ↦ inl (ground (arith, x, y))
    | inr (e, y) ↦
        let same : approve_enrollment id owner now rows
            ≡ transaction rows (approve_row owner now e rows) =
          ground (arith, x, y) in
        elim (transaction_cases rows (approve_row owner now e rows)) [
          | inr (_, undone) ↦ inl (ap (λ r. r.0) same ∙ undone)
          | inl (fine, kept) ↦
              let (pending, written) = approve_row_cases owner now e rows fine in
              inr (e, y, pending, ap (λ r. r.0) (same ∙ kept) ∙ written)
        ]
  ]
]

-- The row that is approved is not the consumed one.
not_approved :
    (id id' : ℕ) (rows : List Enrollment) (e v : Enrollment)
    → find (λ r. r.id == id) rows ≡ some v
    → v.status ≡ EnrollmentStatus.consumed
    → find (λ r. r.id == id') rows ≡ some e
    → e.status ≡ EnrollmentStatus.pending
    → is_enrollment_row e v ≡ false
not_approved id id' rows e v found consumed found' pending = elim (Bool-cases (v.id == e.id)) [
  | inr x ↦ rw x refl
  | inl x ↦
      let held = find-holds (λ r. r.id == id) rows found in
      let held' = find-holds (λ r. r.id == id') rows found' in
      let same : id ≡ id' = ground (arith, x, held, held') in
      absurd (
        ground (
          arith,
          subst (λ n. find (λ r. r.id == n) rows ≡ some v) same found,
          found',
          consumed,
          pending,
        ))
]

consume_row_kept :
    (id endpoint_id : ℕ) (p : Endpoint) (c : EndpointCredential) (now : ℕ) (e : Enrollment)
    (t : EnrollmentTables)
    → is_ok (consume_row p c now e t).1 ≡ true
    → IsConsumedFor id endpoint_id t.enrollments
    → IsConsumedFor id endpoint_id (consume_row p c now e t).0.enrollments
consume_row_kept id endpoint_id p c now e t fine h = elim (consume_row_cases p c now e t fine) [
  | inl (_, _, same) ↦ rw (ap (λ r. r.0.enrollments) same) h
  | inr (_, _, _, same) ↦
      let (rows, _, _) =
        create_consumed-ok p c e (consume p.id now e).0 t (ap (λ r. is_ok r.1) (sym same) ∙ fine) in
      let status = h.status in
      let off : is_approved_row e h.row ≡ false = ground arith in
      moved id endpoint_id t.enrollments (consume_row p c now e t).0.enrollments h (
        ap (λ r. find (λ x. x.id == id) r.0.enrollments) same
        ∙ ap (find (λ x. x.id == id)) rows
        ∙ untouched id (is_approved_row e) (with_consumption p.id (consume p.id now e).0)
            t.enrollments (λ r. refl) off h.found)
]

pub consumed_refused :
    (p : Endpoint) (c : EndpointCredential) (now : ℕ) (e : Enrollment) (t : EnrollmentTables)
    → e.status ≡ EnrollmentStatus.consumed
    → e.endpoint_id ≢ p.id
    → is_ok (consume_row p c now e t).1 ≡ false
unfolding consume_row
consumed_refused p c now e t status other = ground arith

pub found_same : {o : Option Enrollment} {a b : Enrollment} → o ≡ some a → o ≡ some b → a ≡ b
found_same {a} x y = ap (λ r. elim r [ none ↦ a | some v ↦ v ]) (sym x ∙ y)

module _ (encodings : Encodings) where
  create_cases :
      (e : Enrollment) (rows : List Enrollment)
      → ((create_enrollment encodings e rows).0 ≡ rows)
        ⊎ ((absent (enrollment_clash e) rows ≡ true)
            × ((create_enrollment encodings e rows).0 ≡ e ∷ rows))
  unfolding create_enrollment
  create_cases e rows = elim (Option-cases (validate_enrollment encodings e)) [
    | inr (c, x) ↦ inl (ground (arith, x))
    | inl x ↦ elim (Bool-cases (absent (enrollment_clash e) rows)) [
      | inl y ↦ elim (Bool-cases (Enrollment.is_status e.status EnrollmentStatus.pending)) [
        | inl z ↦ inr (y, ground (arith, x, y, z))
        | inr z ↦ inl (ground (arith, x, y, z))
      ]
      | inr y ↦ inl (ground (arith, x, y))
    ]
  ]

  unfoldable pub call : Call → EnrollmentTables → EnrollmentTables
  call (create_call e) t = record t {
    enrollments = (create_enrollment encodings e t.enrollments).0;
  }
  call (approve_call id owner now) t = record t {
    enrollments = (approve_enrollment id owner now t.enrollments).0;
  }
  call (endpoint_call p) t = record t { endpoints = (create_endpoint encodings p t.endpoints).0 }
  call (consume_call id p c now) t = (consume_enrollment encodings id p c now t).0

  unfoldable pub serve : List Call → EnrollmentTables → EnrollmentTables
  serve [] t = t
  serve (x ∷ calls) t = serve calls (call x t)

  call-IsConsumedFor :
      (x : Call) (id endpoint_id : ℕ) (t : EnrollmentTables)
      → IsConsumedFor id endpoint_id t.enrollments
      → IsConsumedFor id endpoint_id (call x t).enrollments
  unfolding call
  call-IsConsumedFor (create_call e) id endpoint_id t h = elim (create_cases e t.enrollments) [
    | inl x ↦ subst (IsConsumedFor id endpoint_id) (sym x) h
    | inr (free, x) ↦ subst (IsConsumedFor id endpoint_id) (sym x) (
        moved id endpoint_id t.enrollments (e ∷ t.enrollments) h
          (inserted id e t.enrollments free h.found))
  ]
  call-IsConsumedFor (approve_call id' owner now) id endpoint_id t h =
      elim (approve_cases id' owner now t.enrollments) [
        | inl x ↦ subst (IsConsumedFor id endpoint_id) (sym x) h
        | inr (e, found, pending, x) ↦
            let off = not_approved id id' t.enrollments e h.row h.found h.status found pending in
            moved id endpoint_id t.enrollments (approve_enrollment id' owner now t.enrollments).0 h
              (ap (find (λ r. r.id == id)) x
                ∙ untouched id (is_enrollment_row e) (with_approval owner (approve owner now e).0)
                    t.enrollments (λ r. refl) off h.found)
      ]
  call-IsConsumedFor (endpoint_call p) id endpoint_id t h = h
  call-IsConsumedFor (consume_call id' p c now) id endpoint_id t h =
      elim (consume_enrollment_cases encodings id' p c now t) [
        | inl (_, x) ↦ subst (λ t'. IsConsumedFor id endpoint_id t'.enrollments) (sym x) h
        | inr (e, _, fine, x) ↦
            subst (λ r. IsConsumedFor id endpoint_id r.0.enrollments) (sym x)
              (consume_row_kept id endpoint_id p c now e t fine h)
      ]

  pub serve-IsConsumedFor :
      (calls : List Call) (id endpoint_id : ℕ) (t : EnrollmentTables)
      → IsConsumedFor id endpoint_id t.enrollments
      → IsConsumedFor id endpoint_id (serve calls t).enrollments
  unfolding serve
  serve-IsConsumedFor [] id endpoint_id t h = h
  serve-IsConsumedFor (x ∷ calls) id endpoint_id t h =
      serve-IsConsumedFor calls id endpoint_id (call x t) (call-IsConsumedFor x id endpoint_id t h)

  -- An enrollment gives one endpoint: once a consumption of it succeeds, and after any further
  -- creations, approvals and consumptions of any enrollments and creations of endpoints, its
  -- consumption for an endpoint with another identifier fails.
  pub enrollment_consumed_once :
      (id : ℕ) (p p' : Endpoint) (c c' : EndpointCredential) (now later : ℕ) (calls : List Call)
      (t : EnrollmentTables)
      → is_ok (consume_enrollment encodings id p c now t).1 ≡ true
      → p.id ≢ p'.id
      → let t' = serve calls (consume_enrollment encodings id p c now t).0 in
        is_ok (consume_enrollment encodings id p' c' later t').1 ≡ false
  enrollment_consumed_once id p p' c c' now later calls t h other =
      elim (consume_enrollment_cases encodings id p c now t) [
        | inl (failed, _) ↦ absurd (ground arith)
        | inr (e, found, fine, same) ↦
            let first : IsConsumedFor id p.id
                (consume_enrollment encodings id p c now t).0.enrollments =
              subst (λ r. IsConsumedFor id p.id r.0.enrollments) (sym same)
                (consume_row-IsConsumedFor id p c now t e found fine) in
            let t' = serve calls (consume_enrollment encodings id p c now t).0 in
            let left =
              serve-IsConsumedFor calls id p.id (consume_enrollment encodings id p c now t).0
                first in
            elim (consume_enrollment_cases encodings id p' c' later t') [
              | inl (refused, _) ↦ refused
              | inr (e', found', fine', _) ↦
                  let row : left.row ≡ e' = found_same left.found found' in
                  absurd (
                    ground (
                      arith,
                      consumed_refused p' c' later e' t'
                          (ap (λ r. r.status) (sym row) ∙ left.status)
                          (λ k. other (sym left.endpoint ∙ ap (λ r. r.endpoint_id) row ∙ k)),
                      fine',
                    ))
            ]
      ]
