-- ===== src/Store/Sessions.antt =====
-- store/repository.go: the table of sessions. A session is its row, read back by `sessionFromRow`.
pub mod History
use harness_platform_monorep.Prelude.{
  ℕ, zero, suc, ◌+◌, ◌-◌, ◌*◌, ◌/◌, ◌%◌, ◌^◌, ◌≤◌, ◌<◌, ◌≡◌, refl, sym, ap, ◌∙◌, ◌≢◌, ◌↔◌, ◌⊎◌, inl,
  inr, Bool, true, false, not, ◌&&◌, ◌||◌, Option, none, some, List, [], ◌∷◌, ◌++◌, map, arith, ltb,
  leb, ◌==◌, if◌then◌else◌, u64_mod, u64_inc, ltb→lt, lt→ltb, leb→le, ==_iff, Bool-cases,
  Option-cases, is_some, is_none, length, take, drop, replicate, length-append, length-take-le,
  keep, any, all, All, All-append, Text, text, text_eq, text_eq_refl, text_eq→eq, is_empty,
  byte_len, trim_space, trim_space_twice, trim_space-unspaced, byte_len-ascii, is_space,
}
use harness_platform_monorep.Domain.Problem.{ErrorCode, Outcome}
use harness_platform_monorep.Domain.Session
use harness_platform_monorep.Domain.Session.{Session, SessionStatus}
use harness_platform_monorep.Domain.SessionRequest
use harness_platform_monorep.Domain.SessionRequest.{SessionRequest}
use harness_platform_monorep.Store.Table.{
  Result, ok, err, transaction, find, update_where, affected, absent, insert_row, or_error,
}

abbrev pub request_of : Session → SessionRequest
request_of s = record {
  aba_endpoint_id = s.aba_endpoint_id;
  hc_endpoint_id = s.hc_endpoint_id;
  runtime_profile_id = s.runtime_profile_id;
  workspace_id = s.workspace_id;
  requested_capabilities = s.requested_capabilities;
}

-- `Store.CreateSession`.
unfoldable pub create_session : Session → List Session → List Session × Result (Unit {0})
create_session s rows =
    if s.id == 0 || is_empty (trim_space s.owner_user_id)
    then (rows, err ErrorCode.invalid_argument)
    else (let (request, error) = SessionRequest.validate (request_of s) in
        elim error [
          | some e ↦ (rows, err e)
          | none ↦
              if not (Session.is_status s.status SessionStatus.creating)
              then (rows, err ErrorCode.invalid_state)
              else insert_row (λ r. r.id == s.id)
                  (record s { requested_capabilities = request.requested_capabilities }) rows
        ])

-- `Store.GetSession`.
unfoldable pub get_session : ℕ → List Session → Result Session
get_session id rows = or_error ErrorCode.not_found (find (λ r. r.id == id) rows)

-- The condition of the update of a locked session, and the columns that it writes.
abbrev pub is_session_row : Session → Session → Bool
is_session_row s r = r.id == s.id && r.row_version == s.row_version

abbrev pub with_session : Session → Session → Session
with_session s' r = record r {
  status = s'.status;
  current_key_generation = s'.current_key_generation;
  last_activity_at = s'.last_activity_at;
  closed_at = s'.closed_at;
  updated_at = s'.updated_at;
  row_version = s'.row_version;
}

-- The transaction of `UpdateSession` from the row on.
unfoldable pub update_session_row :
    (Session → Outcome Session) → Session → List Session → List Session × Result Session
update_session_row mutate s rows =
    let (s', error) = mutate s in
    elim error [
      | some e ↦ (rows, err e)
      | none ↦
          if not (affected (is_session_row s) rows == 1)
          then (update_where (is_session_row s) (with_session s') rows, err ErrorCode.conflict)
          else (update_where (is_session_row s) (with_session s') rows, ok s')
    ]

-- `Store.UpdateSession`, with a callback that is not nil.
unfoldable pub update_session :
    ℕ → (Session → Outcome Session) → List Session → List Session × Result Session
update_session id mutate rows =
    if id == 0 then (rows, err ErrorCode.invalid_argument) else elim (find (λ r. r.id == id) rows) [
      | none ↦ (rows, err ErrorCode.not_found)
      | some s ↦ transaction rows (update_session_row mutate s rows)
    ]
