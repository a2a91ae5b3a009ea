-- ===== src/Store/Idempotency/Progress.antt =====
-- store/idempotency.go: an acquired request can be completed.
use harness_platform_monorep.Prelude.{
  ℕ, ◌≡◌, refl, ◌∙◌, inl, inr, Bool, true, ◌&&◌, none, some, List, [], ◌∷◌, arith, ◌==◌,
  Option-cases, trim_space_twice,
}
use harness_platform_monorep.Domain.Idempotency.{
  IdempotencyRecord, IdempotencyStatus, is_idempotency_status, max_idempotency_response_bytes,
  validate_request, validate_result, safe_audit_value,
}
use harness_platform_monorep.Store.Table.{
  Result, ok, err, transaction, find, affected, absent, is_ok,
}
use harness_platform_monorep.Store.Idempotency.{
  to_row, same_scope, clashes, is_unfinished, from_row, argument_error, reserve_idempotency,
  complete_row, complete_idempotency,
}
use harness_platform_monorep.Store.Idempotency.Once.{is_acquired, complete_found, acquired_rows}
use harness_platform_monorep.Store.Idempotency.Completion.{
  validate_both, validate_parts, argument_parts,
}

affected-clashes :
    (r : IdempotencyRecord) (rows : List IdempotencyRecord)
    → absent (clashes r) rows ≡ true
    → affected (is_unfinished r) rows ≡ 0
unfolding absent affected
affected-clashes r [] h = refl
affected-clashes r (x ∷ rows) h = ground (arith, affected-clashes r rows)

validate_request-to_row : (r : IdempotencyRecord) → validate_request (to_row r) ≡ validate_request r
unfolding validate_request safe_audit_value
validate_request-to_row r = rw (trim_space_twice r.owner_user_id, trim_space_twice r.actor_id) refl

is_running :
    (s : IdempotencyStatus)
    → is_idempotency_status s IdempotencyStatus.in_progress ≡ true
    → s ≡ IdempotencyStatus.in_progress
is_running s h = ground arith

transaction_ok {ℓ} :
    {D : Type ℓ} {A : Type ℓ} (before : D) (r : D × Result A)
    → is_ok r.1 ≡ true
    → is_ok (transaction before r).1 ≡ true
transaction_ok before (after, ok a) h = refl
transaction_ok before (after, err e) h = h

module _ (json_valid : List ℕ → Bool) where
  validate_result-to_row :
      (max : ℕ) (r : IdempotencyRecord)
      → validate_result json_valid max (to_row r) ≡ validate_result json_valid max r
  unfolding validate_result
  validate_result-to_row max r = refl

  acquired-argument :
      (r : IdempotencyRecord) (rows : List IdempotencyRecord)
      → is_acquired (reserve_idempotency json_valid r rows).1 ≡ true
      → argument_error json_valid IdempotencyStatus.in_progress r ≡ none
  unfolding reserve_idempotency
  acquired-argument r rows h =
      elim (Option-cases (argument_error json_valid IdempotencyStatus.in_progress r)) [
        | inl x ↦ x
        | inr (e, x) ↦ absurd (ground arith)
      ]

  -- The row of an acquired request is read back.
  acquired-from_row :
      (r : IdempotencyRecord)
      → argument_error json_valid IdempotencyStatus.in_progress r ≡ none
      → from_row json_valid (to_row r) ≡ ok (to_row r)
  acquired-from_row r h =
      let (_, valid) = argument_parts json_valid IdempotencyStatus.in_progress r h in
      let (request, result) = validate_parts json_valid r valid in
      validate_both json_valid (to_row r) (validate_request-to_row r ∙ request)
        (validate_result-to_row max_idempotency_response_bytes r ∙ result)

  first_found :
      (c row : IdempotencyRecord) (rows : List IdempotencyRecord)
      → row.id ≡ c.id
      → same_scope (to_row c) row ≡ true
      → find (λ r. r.id == c.id && same_scope (to_row c) r) (row ∷ rows) ≡ some row
  unfolding find
  first_found c row rows x y = ground arith

  complete_fresh :
      (c row : IdempotencyRecord) (rows : List IdempotencyRecord)
      → from_row json_valid row ≡ ok row
      → row.request_hash ≡ c.request_hash
      → row.status ≡ IdempotencyStatus.in_progress
      → affected (is_unfinished row) rows ≡ 0
      → is_ok (complete_row json_valid c row (row ∷ rows)).1 ≡ true
  unfolding complete_row affected
  complete_fresh c row rows x h s a = ground arith

  -- A request that is acquired can be completed: a valid completion with the record's identifier,
  -- scope and request hash succeeds on the table that the reservation leaves.
  pub acquired_completes :
      (r c : IdempotencyRecord) (rows : List IdempotencyRecord)
      → is_acquired (reserve_idempotency json_valid r rows).1 ≡ true
      → argument_error json_valid IdempotencyStatus.completed c ≡ none
      → r.id ≡ c.id
      → same_scope (to_row c) (to_row r) ≡ true
      → r.request_hash ≡ c.request_hash
      → is_ok (complete_idempotency json_valid c (reserve_idempotency json_valid r rows).0).1 ≡ true
  acquired_completes r c rows h argument id scope hash =
      let (free, reserved) = acquired_rows json_valid r rows h in
      let reserve_argument = acquired-argument r rows h in
      let (is, _) = argument_parts json_valid IdempotencyStatus.in_progress r reserve_argument in
      let fine =
        complete_fresh c (to_row r) rows (acquired-from_row r reserve_argument) hash
          (is_running r.status is) (affected-clashes (to_row r) rows free) in
      rw
        (
          reserved,
          complete_found json_valid c (to_row r) (to_row r ∷ rows) argument
              (first_found c (to_row r) rows id scope),
        )
        (transaction_ok (to_row r ∷ rows) (complete_row json_valid c (to_row r) (to_row r ∷ rows))
          fine)
