-- ===== src/Store/Idempotency.antt =====
-- store/idempotency.go: the table of idempotency records. A row is a record whose owner, tenant and
-- actor are trimmed. The primary key is the identifier, and the unique index
-- `ux_harness_idempotency_scope` is on owner, tenant, actor, operation and key; an insert with
-- `OnConflict{DoNothing: true}` that meets either changes nothing.
pub mod Scopes
pub mod Once
pub mod Completion
pub mod Progress
pub mod Replayed
use harness_platform_monorep.Prelude.{
  ℕ, zero, suc, ◌+◌, ◌-◌, ◌*◌, ◌/◌, ◌%◌, ◌^◌, ◌≤◌, ◌<◌, ◌≡◌, refl, sym, ap, ◌∙◌, ◌≢◌, ◌↔◌, ◌⊎◌, inl,
  inr, Bool, true, false, not, ◌&&◌, ◌||◌, Option, none, some, List, [], ◌∷◌, ◌++◌, map, arith, ltb,
  leb, ◌==◌, if◌then◌else◌, u64_mod, u64_inc, ltb→lt, lt→ltb, leb→le, ==_iff, Bool-cases,
  Option-cases, is_some, is_none, length, take, drop, replicate, length-append, length-take-le,
  keep, any, all, All, All-append, Text, text, text_eq, text_eq_refl, text_eq→eq, is_empty,
  byte_len, trim_space, trim_space_twice, trim_space-unspaced, byte_len-ascii, is_space,
}
use harness_platform_monorep.Domain.Problem.{ErrorCode}
use harness_platform_monorep.Domain.Idempotency
use harness_platform_monorep.Domain.Idempotency.{
  IdempotencyRecord, IdempotencyStatus, is_idempotency_status, max_idempotency_response_bytes,
}
use harness_platform_monorep.Store.Table.{
  Result, ok, err, ◌>>=◌, ◌>>◌, guard, try_check, or_error, transaction, find, update_where,
  affected, absent,
}

pub data ReserveOutcome : Type 0 where
  acquired still_running replay : ReserveOutcome

-- `idempotencyToRow`.
abbrev pub to_row : IdempotencyRecord → IdempotencyRecord
to_row r = record r {
  owner_user_id = trim_space r.owner_user_id;
  tenant_id = trim_space r.tenant_id;
  actor_id = trim_space r.actor_id;
}

-- The columns of the unique index are equal.
unfoldable pub same_scope : IdempotencyRecord → IdempotencyRecord → Bool
same_scope a b =
    text_eq a.owner_user_id b.owner_user_id
    && text_eq a.tenant_id b.tenant_id
    && text_eq a.actor_id b.actor_id
    && text_eq a.operation b.operation
    && text_eq a.idempotency_key b.idempotency_key

-- Two rows that the primary key or the unique index does not allow together.
abbrev pub clashes : IdempotencyRecord → IdempotencyRecord → Bool
clashes r x = r.id == x.id || same_scope r x

-- The condition of the update of a locked row, and the columns that it writes.
abbrev pub is_unfinished : IdempotencyRecord → IdempotencyRecord → Bool
is_unfinished row r =
    r.id == row.id
    && r.row_version == row.row_version
    && is_idempotency_status r.status IdempotencyStatus.in_progress

abbrev pub with_completion :
    IdempotencyRecord → IdempotencyRecord → IdempotencyRecord → IdempotencyRecord
with_completion completed row r = record r {
  status = IdempotencyStatus.completed;
  http_status = completed.http_status;
  response_json = completed.response_json;
  error_code = completed.error_code;
  updated_at = completed.updated_at;
  row_version = u64_inc row.row_version;
}

abbrev pub same_result : IdempotencyRecord → IdempotencyRecord → Bool
same_result a b =
    a.http_status == b.http_status
    && text_eq a.error_code b.error_code
    && text_eq a.response_json b.response_json

module _ (json_valid : List ℕ → Bool) where
  -- `idempotencyFromRow`.
  unfoldable pub from_row : IdempotencyRecord → Result IdempotencyRecord
  from_row row = elim (Idempotency.validate json_valid max_idempotency_response_bytes row) [
    | some e ↦ err e
    | none ↦ ok row
  ]

  -- The tests of `ReserveIdempotency` and `CompleteIdempotency` on their arguments.
  unfoldable pub argument_error : IdempotencyStatus → IdempotencyRecord → Option ErrorCode
  argument_error wanted r =
      if is_empty (trim_space r.owner_user_id)
      then some ErrorCode.invalid_argument
      else if not (is_idempotency_status r.status wanted)
      then some ErrorCode.invalid_state
      else Idempotency.validate json_valid max_idempotency_response_bytes r

  -- `ReserveIdempotency`, from the row that holds the scope on.
  unfoldable pub reserve_existing :
      IdempotencyRecord → IdempotencyRecord → Result (ReserveOutcome × IdempotencyRecord)
  reserve_existing r existing = do
    value ← from_row existing
    guard (value.request_hash == r.request_hash) ErrorCode.conflict
    if is_idempotency_status value.status IdempotencyStatus.completed
        then ok (replay, value)
        else if not (ltb r.created_at value.expires_at)
        then err ErrorCode.expired
        else ok (still_running, value)

  -- `Store.ReserveIdempotency`.
  unfoldable pub reserve_idempotency :
      IdempotencyRecord
      → List IdempotencyRecord
      → List IdempotencyRecord × Result (ReserveOutcome × IdempotencyRecord)
  reserve_idempotency r rows = elim (argument_error IdempotencyStatus.in_progress r) [
    | some e ↦ (rows, err e)
    | none ↦
        if absent (clashes (to_row r)) rows
        then (to_row r ∷ rows, ok (acquired, r))
        else elim (find (same_scope (to_row r)) rows) [
          | none ↦ (rows, err ErrorCode.not_found)
          | some existing ↦ (rows, reserve_existing r existing)
        ]
  ]

  -- The transaction of `CompleteIdempotency`, from the locked row on.
  unfoldable pub complete_row :
      IdempotencyRecord
      → IdempotencyRecord
      → List IdempotencyRecord
      → List IdempotencyRecord × Result IdempotencyRecord
  complete_row completed row rows = elim (from_row row) [
    | err e ↦ (rows, err e)
    | ok current ↦
        if not (current.request_hash == completed.request_hash)
        then (rows, err ErrorCode.conflict)
        else if is_idempotency_status current.status IdempotencyStatus.completed
        then (rows, if same_result current completed then ok current else err ErrorCode.conflict)
        else if not (affected (is_unfinished row) rows == 1)
        then (
          update_where (is_unfinished row) (with_completion completed row) rows,
          err ErrorCode.conflict,
        )
        else (
          update_where (is_unfinished row) (with_completion completed row) rows,
          ok (record completed { row_version = u64_inc row.row_version }),
        )
  ]

  -- `Store.CompleteIdempotency`.
  unfoldable pub complete_idempotency :
      IdempotencyRecord → List IdempotencyRecord → List IdempotencyRecord × Result IdempotencyRecord
  complete_idempotency completed rows =
      elim (argument_error IdempotencyStatus.completed completed) [
        | some e ↦ (rows, err e)
        | none ↦ elim (find (λ r. r.id == completed.id && same_scope (to_row completed) r) rows) [
          | none ↦ (rows, err ErrorCode.not_found)
          | some row ↦ transaction rows (complete_row completed row rows)
        ]
      ]
