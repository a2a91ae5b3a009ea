-- ===== src/Store/Idempotency/Completion.antt =====
-- store/idempotency.go: what a completion leaves in the table.
use harness_platform_monorep.Prelude.{
  ℕ, ◌≡◌, refl, ◌≢◌, ◌⊎◌, inl, inr, Bool, true, false, ◌&&◌, none, some, List, arith, ◌==◌,
  Bool-cases, Option-cases, text_eq_refl,
}
use harness_platform_monorep.Domain.Problem.{ErrorCode}
use harness_platform_monorep.Domain.Idempotency.{
  IdempotencyRecord, IdempotencyStatus, is_idempotency_status, max_idempotency_response_bytes,
  validate_request, validate_result, validate,
}
use harness_platform_monorep.Store.Table.{
  ok, err, transaction_cases, find, update_where, find-update_where, is_ok, Result-cases,
}
use harness_platform_monorep.Store.Idempotency.{
  to_row, same_scope, is_unfinished, with_completion, from_row, argument_error, complete_row,
  complete_idempotency, same_result,
}
use harness_platform_monorep.Store.Idempotency.Scopes.{IsUnique, found_by_scope}
use harness_platform_monorep.Store.Idempotency.Once.{complete_found}

pub request_mix :
    (row c : IdempotencyRecord)
    → validate_request row ≡ none
    → validate_request c ≡ none
    → validate_request (with_completion c row row) ≡ none
unfolding validate_request
request_mix row c h k = ground arith

running :
    (row : IdempotencyRecord)
    → validate_request row ≡ none
    → is_idempotency_status row.status IdempotencyStatus.completed ≡ false
    → is_unfinished row row ≡ true
unfolding validate_request
running row h k = ground arith

module _ (json_valid : List ℕ → Bool) where
  result_mix :
      (max : ℕ) (row c : IdempotencyRecord)
      → c.status ≡ IdempotencyStatus.completed
      → validate_result json_valid max c ≡ none
      → validate_result json_valid max (with_completion c row row) ≡ none
  unfolding validate_result
  result_mix max row c s h = ground arith

  pub from_row-valid :
      (row : IdempotencyRecord) {v : IdempotencyRecord}
      → from_row json_valid row ≡ ok v
      → (validate json_valid max_idempotency_response_bytes row ≡ none)
        × (from_row json_valid row ≡ ok row)
  unfolding from_row
  from_row-valid row h =
      elim (Option-cases (validate json_valid max_idempotency_response_bytes row)) [
        | inl x ↦ (x, ground (arith, x))
        | inr (e, x) ↦ absurd (ground arith)
      ]

  pub validate_parts :
      (r : IdempotencyRecord)
      → validate json_valid max_idempotency_response_bytes r ≡ none
      → (validate_request r ≡ none)
        × (validate_result json_valid max_idempotency_response_bytes r ≡ none)
  unfolding validate
  validate_parts r h = elim (Option-cases (validate_request r)) [
    | inl x ↦ (x, ground (arith, x))
    | inr (e, x) ↦ absurd (ground (arith, x))
  ]

  pub validate_both :
      (r : IdempotencyRecord)
      → validate_request r ≡ none
      → validate_result json_valid max_idempotency_response_bytes r ≡ none
      → from_row json_valid r ≡ ok r
  unfolding validate from_row
  validate_both r h k = ground arith

  pub argument_parts :
      (s : IdempotencyStatus) (r : IdempotencyRecord)
      → argument_error json_valid s r ≡ none
      → (is_idempotency_status r.status s ≡ true)
        × (validate json_valid max_idempotency_response_bytes r ≡ none)
  unfolding argument_error
  argument_parts s r h = ground arith

  is_completed :
      (s : IdempotencyStatus)
      → is_idempotency_status s IdempotencyStatus.completed ≡ true
      → s ≡ IdempotencyStatus.completed
  is_completed s h = ground arith

  -- The row that a completion leaves is read back.
  completion-from_row :
      (row c : IdempotencyRecord) {v : IdempotencyRecord}
      → from_row json_valid row ≡ ok v
      → argument_error json_valid IdempotencyStatus.completed c ≡ none
      → from_row json_valid (with_completion c row row) ≡ ok (with_completion c row row)
  completion-from_row row c h k =
      let (row_request, _) = validate_parts row (from_row-valid row h).0 in
      let (is, valid) = argument_parts IdempotencyStatus.completed c k in
      let (request, result) = validate_parts c valid in
      validate_both (with_completion c row row) (request_mix row c row_request request)
        (result_mix max_idempotency_response_bytes row c (is_completed c.status is) result)

  -- What a row says of a completed request.
  pub record IsCompletedAs (k c : IdempotencyRecord) (rows : List IdempotencyRecord) : Type 0 where
    pub row : IdempotencyRecord
    pub found : find (same_scope k) rows ≡ some row
    pub status : row.status ≡ IdempotencyStatus.completed
    pub request_hash : row.request_hash ≡ c.request_hash
    pub result : same_result row c ≡ true
    pub readable : from_row json_valid row ≡ ok row

  complete_row_cases :
      (c row : IdempotencyRecord) (rows : List IdempotencyRecord) {v : IdempotencyRecord}
      → from_row json_valid row ≡ ok v
      → is_ok (complete_row json_valid c row rows).1 ≡ true
      → (row.request_hash ≡ c.request_hash)
        × (((row.status ≡ IdempotencyStatus.completed)
              × (same_result row c ≡ true)
              × ((complete_row json_valid c row rows).0 ≡ rows))
            ⊎ ((is_idempotency_status row.status IdempotencyStatus.completed ≡ false)
                × ((complete_row json_valid c row rows).0
                    ≡ update_where (is_unfinished row) (with_completion c row) rows)))
  unfolding complete_row
  complete_row_cases c row rows x h =
      let readable = from_row-valid row x in
      let read = readable.1 in
      elim (Bool-cases (row.request_hash == c.request_hash)) [
        | inr y ↦ absurd (ground arith)
        | inl y ↦ elim (Bool-cases (is_idempotency_status row.status IdempotencyStatus.completed)) [
          | inl z ↦ (ground (arith, y), ground arith)
          | inr z ↦ (ground (arith, y), ground arith)
        ]
      ]

  unread :
      (c row : IdempotencyRecord) (rows : List IdempotencyRecord) {e : ErrorCode}
      → from_row json_valid row ≡ err e
      → is_ok (complete_row json_valid c row rows).1 ≢ true
  unfolding complete_row
  unread c row rows x h = ground arith

  complete_row-IsCompletedAs :
      (c row : IdempotencyRecord) (rows : List IdempotencyRecord) {v : IdempotencyRecord}
      → argument_error json_valid IdempotencyStatus.completed c ≡ none
      → find (same_scope (to_row c)) rows ≡ some row
      → from_row json_valid row ≡ ok v
      → is_ok (complete_row json_valid c row rows).1 ≡ true
      → IsCompletedAs (to_row c) c (complete_row json_valid c row rows).0
  unfolding same_scope
  complete_row-IsCompletedAs c row rows argument found x h =
      let (hash, cases) = complete_row_cases c row rows x h in
      elim cases [
        | inl (completed, same, unchanged) ↦ record {
          row = row;
          found = rw unchanged found;
          status = completed;
          request_hash = hash;
          result = same;
          readable = (from_row-valid row x).1;
        }
        | inr (open_row, written) ↦ record {
          row = with_completion c row row;
          found =
              let touched = running row (validate_parts row (from_row-valid row x).0).0 open_row in
              rw
                (
                  written,
                  find-update_where (is_unfinished row) (same_scope (to_row c))
                      (with_completion c row) rows (λ y. refl),
                  found,
                  touched,
                )
                refl;
          status = refl;
          request_hash = hash;
          result = grind (arith, text_eq_refl);
          readable = completion-from_row row c x argument;
        }
      ]

  pub complete-IsCompletedAs :
      (c : IdempotencyRecord) (rows : List IdempotencyRecord)
      → IsUnique rows
      → is_ok (complete_idempotency json_valid c rows).1 ≡ true
      → IsCompletedAs (to_row c) c (complete_idempotency json_valid c rows).0
  unfolding complete_idempotency
  complete-IsCompletedAs c rows unique h =
      elim (Option-cases (argument_error json_valid IdempotencyStatus.completed c)) [
        | inr (e, x) ↦ absurd (ground arith)
        | inl x ↦ elim (Option-cases (find (λ r. r.id == c.id && same_scope (to_row c) r) rows)) [
          | inl y ↦ absurd (ground arith)
          | inr (row, y) ↦
              let found = found_by_scope (to_row c) (λ r. r.id == c.id) rows unique y in
              let same = complete_found json_valid c row rows x y in
              elim (transaction_cases rows (complete_row json_valid c row rows)) [
                | inr (failed, _) ↦ absurd (ground arith)
                | inl (fine, kept) ↦ elim (Result-cases (from_row json_valid row)) [
                  | inr (e, z) ↦ absurd (unread c row rows z fine)
                  | inl (v, z) ↦
                      rw (same, kept) (complete_row-IsCompletedAs c row rows x found z fine)
                ]
              ]
        ]
      ]
