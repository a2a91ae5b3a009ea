-- ===== src/Domain/Session.antt =====
-- domain/model.go and domain/state.go: a session between an HC and an ABA, and its life cycle.
-- A status that is none of the declared constants is `unknown`.
pub mod Lifecycle
pub mod Generation
use harness_platform_monorep.Prelude.{
  ℕ, zero, suc, ◌+◌, ◌-◌, ◌*◌, ◌/◌, ◌%◌, ◌^◌, ◌≤◌, ◌<◌, ◌≡◌, refl, sym, ap, ◌∙◌, ◌≢◌, ◌↔◌, ◌⊎◌, inl,
  inr, Bool, true, false, not, ◌&&◌, ◌||◌, Option, none, some, List, [], ◌∷◌, ◌++◌, map, arith, ltb,
  leb, ◌==◌, if◌then◌else◌, u64_mod, u64_inc, ltb→lt, lt→ltb, leb→le, ==_iff, Bool-cases,
  Option-cases, is_some, is_none, length, take, drop, replicate, length-append, length-take-le,
  keep, any, all, All, All-append, Text, text, text_eq, text_eq_refl, text_eq→eq, is_empty,
  byte_len, trim_space,
}
use harness_platform_monorep.Domain.Problem.{ErrorCode, Outcome, done, fail, on_receiver}

pub data SessionStatus : Type 0 where
  creating waiting_key active rekey_required draining uncertain : SessionStatus
  closed failed aba_revoked unknown : SessionStatus

-- `==` on the status's strings.
abbrev pub session_status_code : SessionStatus → ℕ
session_status_code SessionStatus.creating = 0
session_status_code SessionStatus.waiting_key = 1
session_status_code SessionStatus.active = 2
session_status_code SessionStatus.rekey_required = 3
session_status_code SessionStatus.draining = 4
session_status_code SessionStatus.uncertain = 5
session_status_code SessionStatus.closed = 6
session_status_code SessionStatus.failed = 7
session_status_code SessionStatus.aba_revoked = 8
session_status_code SessionStatus.unknown = 9

abbrev pub is_status : SessionStatus → SessionStatus → Bool
is_status a b = session_status_code a == session_status_code b

pub record Session : Type 0 where
  pub id : ℕ
  pub owner_user_id : Text
  pub tenant_id : Text
  pub aba_endpoint_id : ℕ
  pub hc_endpoint_id : ℕ
  pub runtime_profile_id : Text
  pub workspace_id : Text
  pub requested_capabilities : List Text
  pub status : SessionStatus
  pub current_key_generation : ℕ
  pub created_at : ℕ
  pub updated_at : ℕ
  pub last_activity_at : Option ℕ
  pub closed_at : Option ℕ
  pub row_version : ℕ

-- `Session.move`.
move : SessionStatus → SessionStatus → ℕ → Session → Outcome Session
move from to now s =
    if not (is_status s.status from)
    then fail s ErrorCode.invalid_state
    else done (record s { status = to; updated_at = now; row_version = u64_inc s.row_version })

-- `Session.WaitForKey`.
unfoldable pub wait_for_key : ℕ → Session → Outcome Session
unfolding move
wait_for_key now s = move SessionStatus.creating SessionStatus.waiting_key now s

-- `Session.Activate`.
unfoldable pub activate : ℕ → ℕ → Session → Outcome Session
activate generation now s =
    if not (is_status s.status SessionStatus.waiting_key)
      && not (is_status s.status SessionStatus.rekey_required)
    then fail s ErrorCode.invalid_state
    else if generation == 0 || leb generation s.current_key_generation
    then fail s ErrorCode.invalid_argument
    else done (record s {
      current_key_generation = generation;
      status = SessionStatus.active;
      updated_at = now;
      last_activity_at = some now;
      row_version = u64_inc s.row_version;
    })

-- `Session.RequireRekey`.
unfoldable pub require_rekey : ℕ → Session → Outcome Session
require_rekey now s =
    if is_status s.status SessionStatus.rekey_required
    then done s
    else if not (is_status s.status SessionStatus.active)
    then fail s ErrorCode.invalid_state
    else done (record s {
      status = SessionStatus.rekey_required;
      updated_at = now;
      row_version = u64_inc s.row_version;
    })

-- `Session.MarkUncertain`.
unfoldable pub mark_uncertain : ℕ → Session → Outcome Session
mark_uncertain now s =
    if not (is_status s.status SessionStatus.active)
      && not (is_status s.status SessionStatus.draining)
    then fail s ErrorCode.invalid_state
    else done (record s {
      status = SessionStatus.uncertain;
      updated_at = now;
      row_version = u64_inc s.row_version;
    })

-- The `switch` of `Session.Fail`.
abbrev may_fail : SessionStatus → Bool
may_fail SessionStatus.creating = true
may_fail SessionStatus.waiting_key = true
may_fail SessionStatus.rekey_required = true
may_fail _ = false

-- `Session.Fail`.
unfoldable pub fail_session : ℕ → Session → Outcome Session
fail_session now s =
    if is_status s.status SessionStatus.failed
    then done s
    else if not (may_fail s.status)
    then fail s ErrorCode.invalid_state
    else done (record s {
      status = SessionStatus.failed;
      updated_at = now;
      row_version = u64_inc s.row_version;
    })

-- `Session.StartDraining`.
unfoldable pub start_draining : ℕ → Session → Outcome Session
unfolding move
start_draining now s = move SessionStatus.active SessionStatus.draining now s

-- The `switch` of `Session.Close`.
abbrev may_close : SessionStatus → Bool
may_close SessionStatus.creating = true
may_close SessionStatus.waiting_key = true
may_close SessionStatus.active = true
may_close SessionStatus.rekey_required = true
may_close SessionStatus.draining = true
may_close SessionStatus.uncertain = true
may_close SessionStatus.failed = true
may_close _ = false

-- `Session.Close`.
unfoldable pub close : ℕ → Session → Outcome Session
close now s =
    if is_status s.status SessionStatus.closed
    then done s
    else if not (may_close s.status)
    then fail s ErrorCode.invalid_state
    else done (record s {
      status = SessionStatus.closed;
      closed_at = some now;
      updated_at = now;
      row_version = u64_inc s.row_version;
    })

-- `Session.MarkABARevoked`.
unfoldable pub mark_aba_revoked : ℕ → Session → Outcome Session
mark_aba_revoked now s =
    if is_status s.status SessionStatus.aba_revoked
    then done s
    else if is_status s.status SessionStatus.closed
    then fail s ErrorCode.invalid_state
    else done (record s {
      status = SessionStatus.aba_revoked;
      closed_at = some now;
      updated_at = now;
      row_version = u64_inc s.row_version;
    })

-- The methods of the life cycle.
pub data Op : Type 0 where
  wait_for_key_op require_rekey_op mark_uncertain_op fail_op start_draining_op close_op : Op
  mark_aba_revoked_op : Op
  activate_op : ℕ → Op

unfoldable pub step : Op → ℕ → Session → Outcome Session
unfolding wait_for_key activate require_rekey mark_uncertain fail_session start_draining close
    mark_aba_revoked
step wait_for_key_op now s = wait_for_key now s
step (activate_op generation) now s = activate generation now s
step require_rekey_op now s = require_rekey now s
step mark_uncertain_op now s = mark_uncertain now s
step fail_op now s = fail_session now s
step start_draining_op now s = start_draining now s
step close_op now s = close now s
step mark_aba_revoked_op now s = mark_aba_revoked now s

-- A method called through a pointer, which may be nil.
unfoldable pub call : Op → ℕ → Option Session → Outcome (Option Session)
unfolding step
call op now = on_receiver (step op now)
