-- ===== src/Examples/Lifecycles.antt =====
-- domain/: the theorems on the life cycles, at the shared values.
use harness_platform_monorep.Prelude.{ℕ, refl, inl, inr, some, List, [], ◌∷◌, text, trim_space}
use mathlib.Core.List.{Perm}
use harness_platform_monorep.Domain.Endpoint.{Endpoint, EndpointStatus}
use harness_platform_monorep.Domain.Session
use harness_platform_monorep.Domain.Session.{Session, SessionStatus}
use harness_platform_monorep.Domain.Session.Lifecycle as SessionRuns
use harness_platform_monorep.Domain.Session.Lifecycle.{run-IsValid, close_final}
use harness_platform_monorep.Domain.Session.Generation.{generations, Ascends, generations-Ascends}
use harness_platform_monorep.Domain.Enrollment
use harness_platform_monorep.Domain.Enrollment.{
  Enrollment, EnrollmentStatus, approve_op, deny_op, expire_op, consume_op,
}
use harness_platform_monorep.Domain.Enrollment.Lifecycle as EnrollmentRuns
use harness_platform_monorep.Domain.Enrollment.Lifecycle.{
  enrollment_run-IsValid, consume_one_endpoint, step_error,
}
use harness_platform_monorep.Domain.SessionRequest
use harness_platform_monorep.Domain.SessionRequest.{
  SessionRequest, check_capabilities, safe_local_id,
}
use harness_platform_monorep.Domain.SessionRequest.Accepted.{IsAccepted, IsSorted, validate_lem}
use harness_platform_monorep.Examples.Data.{hc, session, enrollment, request}

abbrev calls : List (Session.Op × ℕ)
calls =
    (Session.activate_op 1, 20)
    ∷ (Session.require_rekey_op, 30)
    ∷ (Session.activate_op 1, 31)
    ∷ (Session.activate_op 5, 32)
    ∷ []

session-IsValid : SessionRuns.IsValid session
session-IsValid = record { ended = λ h. cc; live = λ h. refl; keyed = λ h. cc; known = λ h. cc }

generations-Ascends_example : Ascends 0 (generations calls session)
generations-Ascends_example = generations-Ascends calls session

run-IsValid_example : SessionRuns.IsValid (SessionRuns.run calls session)
run-IsValid_example = run-IsValid calls session session-IsValid

enrollment-IsValid : EnrollmentRuns.IsValid enrollment
enrollment-IsValid = record {
  undecided = λ h. refl;
  unconsumed = λ h. (refl, refl);
  approved = λ h. elim h [ inl e ↦ absurd (cc) | inr e ↦ absurd (cc) ];
  consumed = λ h. absurd (cc);
  known = λ h. cc;
}

abbrev enrolling : List (Enrollment.Op × ℕ)
enrolling = (approve_op (text "ann"), 20) ∷ (consume_op 71, 30) ∷ []

abbrev approved : Enrollment
approved = EnrollmentRuns.run ((approve_op (text "ann"), 20) ∷ []) enrollment

abbrev revoked : Endpoint
revoked = record hc { status = EndpointStatus.revoked; revoked_at = some 20 }

validate_lem_example :
    IsAccepted request (SessionRequest.validate request).0
    × IsSorted (SessionRequest.validate request).0.requested_capabilities
    × Perm
        (SessionRequest.validate request).0.requested_capabilities
        (text "session" ∷ text "cancel" ∷ [])
unfolding SessionRequest.validate check_capabilities safe_local_id trim_space
validate_lem_example = validate_lem request refl
