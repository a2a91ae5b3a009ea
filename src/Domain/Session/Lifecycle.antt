-- ===== src/Domain/Session/Lifecycle.antt =====
-- domain/state.go: which changes of status a session can make, and what every sequence of method
-- calls keeps.
use harness_platform_monorep.Prelude.{
  ℕ, ◌<◌, ◌≡◌, refl, ◌≢◌, Bool, true, false, none, some, List, [], ◌∷◌, arith,
}
use harness_platform_monorep.Domain.Problem.{ErrorCode}
use harness_platform_monorep.Domain.Session.{Session, SessionStatus, Op, close_op, step}

-- A sequence of calls, each with its time; a failed call is not repeated.
unfoldable pub run : List (Op × ℕ) → Session → Session
run [] s = s
run ((op, now) ∷ calls) s = run calls (step op now s).0

-- An error leaves the session unchanged.
pub step_error_unchanged :
    (op : Op) (now : ℕ) (s : Session) {c : ErrorCode}
    → (step op now s).1 ≡ some c
    → (step op now s).0 ≡ s
unfolding step
step_error_unchanged op now s h = ground arith

-- The statuses that end a session.
abbrev pub is_terminal : SessionStatus → Bool
is_terminal SessionStatus.closed = true
is_terminal SessionStatus.aba_revoked = true
is_terminal _ = false

step_terminal :
    (op : Op) (now : ℕ) (s : Session) → is_terminal s.status ≡ true → (step op now s).0 ≡ s
unfolding step
step_terminal op now s h = ground arith

run_terminal : (calls : List (Op × ℕ)) (s : Session) → is_terminal s.status ≡ true → run calls s ≡ s
unfolding run
run_terminal [] s h = refl
run_terminal ((op, now) ∷ calls) s h = rw (step_terminal op now s h) (run_terminal calls s h)

-- The diagram of the statuses, without the counters.
infix 40 ◌⟶◌
pub data ◌⟶◌ : SessionStatus → SessionStatus → Type 0 where
  wait : SessionStatus.creating ⟶ SessionStatus.waiting_key
  key : SessionStatus.waiting_key ⟶ SessionStatus.active
  rekeyed : SessionStatus.rekey_required ⟶ SessionStatus.active
  rekey : SessionStatus.active ⟶ SessionStatus.rekey_required
  doubt : SessionStatus.active ⟶ SessionStatus.uncertain
  doubt_draining : SessionStatus.draining ⟶ SessionStatus.uncertain
  drain : SessionStatus.active ⟶ SessionStatus.draining
  fail_creating : SessionStatus.creating ⟶ SessionStatus.failed
  fail_waiting : SessionStatus.waiting_key ⟶ SessionStatus.failed
  fail_rekey : SessionStatus.rekey_required ⟶ SessionStatus.failed
  close_known :
      {a : SessionStatus}
      → is_terminal a ≡ false
      → a ≢ SessionStatus.unknown
      → a ⟶ SessionStatus.closed
  revoke : {a : SessionStatus} → is_terminal a ≡ false → a ⟶ SessionStatus.aba_revoked
  stay : {a : SessionStatus} → a ⟶ a

ruleset edges = (
  wait, key, rekeyed, rekey, doubt, doubt_draining, drain, fail_creating, fail_waiting, fail_rekey,
  close_known, revoke, stay,
)

-- Every call follows an edge of the diagram.
pub step-⟶ : (op : Op) (now : ℕ) (s : Session) → s.status ⟶ (step op now s).0.status
unfolding step
step-⟶ op now s = grind (arith, edges)

-- The statuses of a session that has been given a key.
abbrev pub is_keyed : SessionStatus → Bool
is_keyed SessionStatus.active = true
is_keyed SessionStatus.rekey_required = true
is_keyed SessionStatus.draining = true
is_keyed SessionStatus.uncertain = true
is_keyed _ = false

pub record IsValid (s : Session) : Type 0 where
  pub ended : is_terminal s.status ≡ true → s.closed_at ≢ none
  pub live : is_terminal s.status ≡ false → s.closed_at ≡ none
  pub keyed : is_keyed s.status ≡ true → 0 < s.current_key_generation
  pub known : s.status ≢ SessionStatus.unknown

pub step-IsValid : (op : Op) (now : ℕ) (s : Session) → IsValid s → IsValid (step op now s).0
unfolding step
step-IsValid op now s h = ground arith

-- From a valid session every sequence of calls keeps the invariant: an end time is set exactly in a
-- final status, a session that was given a key has a positive generation, and no status is unknown.
pub run-IsValid : (calls : List (Op × ℕ)) (s : Session) → IsValid s → IsValid (run calls s)
unfolding run
run-IsValid [] s h = h
run-IsValid ((op, now) ∷ calls) s h = run-IsValid calls (step op now s).0 (step-IsValid op now s h)

step_known_close :
    (now : ℕ) (s : Session)
    → IsValid s
    → is_terminal s.status ≡ false
    → ((step close_op now s).1 ≡ none) × ((step close_op now s).0.status ≡ SessionStatus.closed)
unfolding step
step_known_close now s h t = ground arith

-- Whatever was called before, a valid session can be closed unless it has ended, and is then final:
-- no later call changes it.
pub close_final :
    (before after : List (Op × ℕ)) (now : ℕ) (s : Session)
    → IsValid s
    → is_terminal (run before s).status ≡ false
    → let closed = (step close_op now (run before s)).0 in
      (closed.status ≡ SessionStatus.closed) × (run after closed ≡ closed)
close_final before after now s h t =
    let (_, closed) = step_known_close now (run before s) (run-IsValid before s h) t in
    (closed, run_terminal after (step close_op now (run before s)).0 (rw closed))
