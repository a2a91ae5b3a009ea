-- ===== src/Domain/Enrollment/Lifecycle.antt =====
-- domain/state.go: what every sequence of method calls keeps of an enrollment.
use harness_platform_monorep.Prelude.{
  ℕ, ◌≤◌, ◌<◌, ◌≡◌, refl, ap, ◌∙◌, ◌≢◌, ◌⊎◌, Bool, true, false, Option, none, some, List, [], ◌∷◌,
  arith, ◌==◌, if◌then◌else◌, is_empty, trim_space,
}
use harness_platform_monorep.Domain.Problem.{ErrorCode}
use harness_platform_monorep.Domain.Enrollment.{Enrollment, EnrollmentStatus, Op, consume_op, step}

-- A sequence of calls, each with its time; a failed call is not repeated.
unfoldable pub run : List (Op × ℕ) → Enrollment → Enrollment
run [] e = e
run ((op, now) ∷ calls) e = run calls (step op now e).0

-- The statuses that no call leaves.
abbrev pub is_final : EnrollmentStatus → Bool
is_final EnrollmentStatus.denied = true
is_final EnrollmentStatus.expired = true
is_final EnrollmentStatus.consumed = true
is_final _ = false

-- A time that is set, and lies before another.
abbrev pub IsBefore : Option ℕ → ℕ → Type 0
IsBefore none limit = ⊥
IsBefore (some t) limit = t < limit

pub record IsValid (e : Enrollment) : Type 0 where
  pub undecided : e.status ≡ EnrollmentStatus.pending → e.approved_at ≡ none
  pub unconsumed :
      e.status ≢ EnrollmentStatus.consumed → (e.consumed_at ≡ none) × (e.endpoint_id ≡ 0)
  pub approved :
      (e.status ≡ EnrollmentStatus.approved) ⊎ (e.status ≡ EnrollmentStatus.consumed)
      → IsBefore e.approved_at e.expires_at × (is_empty (trim_space e.approved_by) ≡ false)
  pub consumed :
      e.status ≡ EnrollmentStatus.consumed
      → IsBefore e.consumed_at e.expires_at × (e.endpoint_id ≢ 0)
  pub known : e.status ≢ EnrollmentStatus.unknown

step-IsValid : (op : Op) (now : ℕ) (e : Enrollment) → IsValid e → IsValid (step op now e).0
unfolding step
step-IsValid op now e h = ground arith

-- Over any sequence of calls: a consumed enrollment was approved by an actor with a non-blank name
-- before its expiry, and was consumed before its expiry for a non-zero endpoint; in no other status
-- does it name an endpoint.
pub enrollment_run-IsValid :
    (calls : List (Op × ℕ)) (e : Enrollment) → IsValid e → IsValid (run calls e)
unfolding run
enrollment_run-IsValid [] e h = h
enrollment_run-IsValid ((op, now) ∷ calls) e h =
    enrollment_run-IsValid calls (step op now e).0 (step-IsValid op now e h)

step_final : (op : Op) (now : ℕ) (e : Enrollment) → is_final e.status ≡ true → (step op now e).0 ≡ e
unfolding step
step_final op now e h = ground arith

-- A denied, expired or consumed enrollment is never changed again.
pub run_final :
    (calls : List (Op × ℕ)) (e : Enrollment) → is_final e.status ≡ true → run calls e ≡ e
unfolding run
run_final [] e h = refl
run_final ((op, now) ∷ calls) e h = rw (step_final op now e h) (run_final calls e h)

consume_takes :
    (id now : ℕ) (e : Enrollment)
    → (step (consume_op id) now e).1 ≡ none
    → ((step (consume_op id) now e).0.status ≡ EnrollmentStatus.consumed)
      × ((step (consume_op id) now e).0.endpoint_id ≡ id)
unfolding step
consume_takes id now e h = ground arith

consume_other :
    (id now : ℕ) (e : Enrollment)
    → e.status ≡ EnrollmentStatus.consumed
    → (step (consume_op id) now e).1
      ≡ (if e.endpoint_id == id then none else some ErrorCode.conflict)
unfolding step
consume_other id now e h = ground arith

-- An enrollment makes at most one endpoint: after a `Consume` that succeeds, and any further calls,
-- a `Consume` succeeds for the same endpoint, and is a conflict for every other.
pub consume_one_endpoint :
    (id id' now now' : ℕ) (calls : List (Op × ℕ)) (e : Enrollment)
    → (step (consume_op id) now e).1 ≡ none
    → (step (consume_op id') now' (run calls (step (consume_op id) now e).0)).1
      ≡ (if id == id' then none else some ErrorCode.conflict)
consume_one_endpoint id id' now now' calls e h =
    let (status, taken) = consume_takes id now e h in
    let e' = (step (consume_op id) now e).0 in
    rw (run_final calls e' (rw status)) (
      consume_other id' now' e' status
      ∙ ap (λ x. if x == id' then none else some ErrorCode.conflict) taken)

-- Only an expiry is recorded together with an error; on every other error nothing changes.
pub step_error :
    (op : Op) (now : ℕ) (e : Enrollment) {c : ErrorCode}
    → (step op now e).1 ≡ some c
    → ((step op now e).0 ≡ e)
      ⊎ ((c ≡ ErrorCode.expired)
          × ((step op now e).0.status ≡ EnrollmentStatus.expired)
          × (e.expires_at ≤ now))
unfolding step
step_error op now e h = ground arith
