-- ===== src/Domain/Endpoint/Lifecycle.antt =====
-- domain/state.go: what the life cycle of an endpoint keeps, over any sequence of method calls.
use harness_platform_monorep.Prelude.{ℕ, ◌≡◌, ◌≢◌, refl, none, some, List, [], ◌∷◌, arith}
use harness_platform_monorep.Domain.Problem.{ErrorCode}
use harness_platform_monorep.Domain.Endpoint.{Endpoint, EndpointStatus, Op, step}

-- A sequence of calls, each with its time; a failed call is not repeated.
unfoldable pub run : List (Op × ℕ) → Endpoint → Endpoint
run [] e = e
run ((op, now) ∷ calls) e = run calls (step op now e).0

-- An error leaves the endpoint unchanged.
pub step_error_unchanged :
    (op : Op) (now : ℕ) (e : Endpoint) {c : ErrorCode}
    → (step op now e).1 ≡ some c
    → (step op now e).0 ≡ e
unfolding step
step_error_unchanged op now e h = ground arith

step-revoked :
    (op : Op) (now : ℕ) (e : Endpoint) → e.status ≡ EndpointStatus.revoked → (step op now e).0 ≡ e
unfolding step
step-revoked op now e h = ground arith

-- Revocation is final: whatever is called on a revoked endpoint afterwards, it does not change.
pub run-revoked :
    (calls : List (Op × ℕ)) (e : Endpoint) → e.status ≡ EndpointStatus.revoked → run calls e ≡ e
unfolding run
run-revoked [] e h = refl
run-revoked ((op, now) ∷ calls) e h = rw (step-revoked op now e h) (run-revoked calls e h)

-- `revoked_at` is set exactly on revoked endpoints.
pub record IsValid (e : Endpoint) : Type 0 where
  pub stamped : e.status ≡ EndpointStatus.revoked → e.revoked_at ≢ none
  pub not_early : e.status ≢ EndpointStatus.revoked → e.revoked_at ≡ none

pub step-IsValid : (op : Op) (now : ℕ) (e : Endpoint) → IsValid e → IsValid (step op now e).0
unfolding step
step-IsValid op now e h = ground arith

pub run-IsValid : (calls : List (Op × ℕ)) (e : Endpoint) → IsValid e → IsValid (run calls e)
unfolding run
run-IsValid [] e h = h
run-IsValid ((op, now) ∷ calls) e h = run-IsValid calls (step op now e).0 (step-IsValid op now e h)
