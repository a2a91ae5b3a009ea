-- ===== src/Store/Idempotency/Once.antt =====
-- store/idempotency.go: a scope is acquired once, and its completed response is what is replayed.
use harness_platform_monorep.Prelude.{
  ℕ, ◌≡◌, refl, ap, ◌∙◌, ◌≢◌, ◌⊎◌, inl, inr, Bool, true, false, ◌&&◌, none, some, List, [], ◌∷◌,
  arith, ◌==◌, Bool-cases, Option-cases, is_some,
}
use harness_platform_monorep.Domain.Idempotency.{IdempotencyRecord, IdempotencyStatus}
use harness_platform_monorep.Store.Table.{
  Result, ok, transaction, transaction_cases, find, update_where, absent, absent-find,
  find-update_where, Result-cases,
}
use harness_platform_monorep.Store.Idempotency.{
  ReserveOutcome, acquired, to_row, same_scope, clashes, is_unfinished, with_completion, from_row,
  argument_error, reserve_existing, reserve_idempotency, complete_row, complete_idempotency,
}
use harness_platform_monorep.Store.Idempotency.Scopes.{same_scope_sym, absent-clashes}

-- The calls on the table.
pub data Call : Type 0 where
  reserve_call complete_call : IdempotencyRecord → Call

abbrev pub is_acquired : Result (ReserveOutcome × IdempotencyRecord) → Bool
is_acquired (ok (acquired, r)) = true
is_acquired _ = false

inserted_kept :
    (r k : IdempotencyRecord) (rows : List IdempotencyRecord)
    → is_some (find (same_scope k) rows) ≡ true
    → is_some (find (same_scope k) (to_row r ∷ rows)) ≡ true
unfolding find
inserted_kept r k rows h = ground arith

inserted_found :
    (row k : IdempotencyRecord) (rows : List IdempotencyRecord)
    → same_scope row k ≡ true
    → is_some (find (same_scope k) (row ∷ rows)) ≡ true
unfolding find
inserted_found row k rows h = rw (same_scope_sym row k h) refl

updated_kept :
    (c row k : IdempotencyRecord) (rows : List IdempotencyRecord)
    → is_some (find (same_scope k) rows) ≡ true
    → is_some (find (same_scope k) (update_where (is_unfinished row) (with_completion c row) rows))
      ≡ true
unfolding same_scope
updated_kept c row k rows h = elim (Option-cases (find (same_scope k) rows)) [
  | inl x ↦ absurd (ground arith)
  | inr (v, x) ↦
      rw
        (
          find-update_where (is_unfinished row) (same_scope k) (with_completion c row) rows
              (λ y. refl),
          x,
        )
        refl
]

module _ (json_valid : List ℕ → Bool) where
  unfoldable pub call : Call → List IdempotencyRecord → List IdempotencyRecord
  call (reserve_call r) rows = (reserve_idempotency json_valid r rows).0
  call (complete_call c) rows = (complete_idempotency json_valid c rows).0

  unfoldable pub serve : List Call → List IdempotencyRecord → List IdempotencyRecord
  serve [] rows = rows
  serve (c ∷ calls) rows = serve calls (call c rows)

  pub reserve_rows :
      (r : IdempotencyRecord) (rows : List IdempotencyRecord)
      → ((reserve_idempotency json_valid r rows).0 ≡ rows)
        ⊎ ((absent (clashes (to_row r)) rows ≡ true)
            × ((reserve_idempotency json_valid r rows).0 ≡ to_row r ∷ rows))
  unfolding reserve_idempotency
  reserve_rows r rows =
      elim (Option-cases (argument_error json_valid IdempotencyStatus.in_progress r)) [
        | inr (e, x) ↦ inl (ground (arith, x))
        | inl x ↦ elim (Bool-cases (absent (clashes (to_row r)) rows)) [
          | inl y ↦ inr (y, ground (arith, x, y))
          | inr y ↦ elim (Option-cases (find (same_scope (to_row r)) rows)) [
            | inl z ↦ inl (ground (arith, x, y, z))
            | inr (e, z) ↦ inl (ground (arith, x, y, z))
          ]
        ]
      ]

  complete_row_rows :
      (c row : IdempotencyRecord) (rows : List IdempotencyRecord)
      → ((complete_row json_valid c row rows).0 ≡ rows)
        ⊎ ((complete_row json_valid c row rows).0
            ≡ update_where (is_unfinished row) (with_completion c row) rows)
  unfolding complete_row
  complete_row_rows c row rows = elim (Result-cases (from_row json_valid row)) [
    | inr (e, x) ↦ inl (ground (arith, x))
    | inl (v, x) ↦ ground (arith, x)
  ]

  pub complete_found :
      (c row : IdempotencyRecord) (rows : List IdempotencyRecord)
      → argument_error json_valid IdempotencyStatus.completed c ≡ none
      → find (λ r. r.id == c.id && same_scope (to_row c) r) rows ≡ some row
      → complete_idempotency json_valid c rows
        ≡ transaction rows (complete_row json_valid c row rows)
  unfolding complete_idempotency
  complete_found c row rows x y = ground arith

  pub complete_rows :
      (c : IdempotencyRecord) (rows : List IdempotencyRecord)
      → ((complete_idempotency json_valid c rows).0 ≡ rows)
        ⊎ ((row : IdempotencyRecord) × ((complete_idempotency json_valid c rows).0
              ≡ update_where (is_unfinished row) (with_completion c row) rows))
  unfolding complete_idempotency
  complete_rows c rows =
      elim (Option-cases (argument_error json_valid IdempotencyStatus.completed c)) [
        | inr (e, x) ↦ inl (ground (arith, x))
        | inl x ↦ elim (Option-cases (find (λ r. r.id == c.id && same_scope (to_row c) r) rows)) [
          | inl y ↦ inl (ground (arith, x, y))
          | inr (row, y) ↦ elim (transaction_cases rows (complete_row json_valid c row rows)) [
            | inr (_, undone) ↦ inl (ap (λ r. r.0) (complete_found c row rows x y) ∙ undone)
            | inl (_, kept) ↦ elim (complete_row_rows c row rows) [
              | inl z ↦ inl (ap (λ r. r.0) (complete_found c row rows x y ∙ kept) ∙ z)
              | inr z ↦ inr (row, ap (λ r. r.0) (complete_found c row rows x y ∙ kept) ∙ z)
            ]
          ]
        ]
      ]

  not_acquired : (r e : IdempotencyRecord) → is_acquired (reserve_existing json_valid r e) ≢ true
  unfolding reserve_existing
  not_acquired r e h = elim (Result-cases (from_row json_valid e)) [
    | inr (c, x) ↦ ground (arith, x)
    | inl (v, x) ↦ ground (arith, x)
  ]

  -- A row with the scope of another keeps being there.
  call_kept :
      (c : Call) (k : IdempotencyRecord) (rows : List IdempotencyRecord)
      → is_some (find (same_scope k) rows) ≡ true
      → is_some (find (same_scope k) (call c rows)) ≡ true
  unfolding call
  call_kept (reserve_call r) k rows h = elim (reserve_rows r rows) [
    | inl x ↦ rw x h
    | inr (_, x) ↦ rw x (inserted_kept r k rows h)
  ]
  call_kept (complete_call c) k rows h = elim (complete_rows c rows) [
    | inl x ↦ rw x h
    | inr (row, x) ↦ rw x (updated_kept c row k rows h)
  ]

  serve_kept :
      (calls : List Call) (k : IdempotencyRecord) (rows : List IdempotencyRecord)
      → is_some (find (same_scope k) rows) ≡ true
      → is_some (find (same_scope k) (serve calls rows)) ≡ true
  unfolding serve
  serve_kept [] k rows h = h
  serve_kept (c ∷ calls) k rows h = serve_kept calls k (call c rows) (call_kept c k rows h)

  pub acquired_rows :
      (r : IdempotencyRecord) (rows : List IdempotencyRecord)
      → is_acquired (reserve_idempotency json_valid r rows).1 ≡ true
      → (absent (clashes (to_row r)) rows ≡ true)
        × (reserve_idempotency json_valid r rows ≡ (to_row r ∷ rows, ok (acquired, r)))
  unfolding reserve_idempotency
  acquired_rows r rows h =
      elim (Option-cases (argument_error json_valid IdempotencyStatus.in_progress r)) [
        | inr (e, x) ↦ absurd (ground arith)
        | inl x ↦ elim (Bool-cases (absent (clashes (to_row r)) rows)) [
          | inl y ↦ (y, ground (arith, x, y))
          | inr y ↦ elim (Option-cases (find (same_scope (to_row r)) rows)) [
            | inl z ↦ absurd (ground arith)
            | inr (e, z) ↦ absurd (not_acquired r e (ground (arith, x, y, z)))
          ]
        ]
      ]

  -- A scope is acquired once: after a reservation that is acquired, and any further calls on the
  -- table, no reservation with the same owner, tenant, actor, operation and key is acquired.
  pub acquired_once :
      (r r' : IdempotencyRecord) (calls : List Call) (rows : List IdempotencyRecord)
      → is_acquired (reserve_idempotency json_valid r rows).1 ≡ true
      → same_scope (to_row r) (to_row r') ≡ true
      → let later = serve calls (reserve_idempotency json_valid r rows).0 in
        is_acquired (reserve_idempotency json_valid r' later).1 ≡ false
  acquired_once r r' calls rows h same =
      let later = serve calls (reserve_idempotency json_valid r rows).0 in
      let (fresh, first) = acquired_rows r rows h in
      elim (Bool-cases (is_acquired (reserve_idempotency json_valid r' later).1)) [
        | inr refused ↦ refused
        | inl again ↦
            let (free, _) = acquired_rows r' later again in
            let none_left =
              absent-find (same_scope (to_row r')) later (absent-clashes (to_row r') later free) in
            let there =
              serve_kept calls (to_row r') (reserve_idempotency json_valid r rows).0
                (rw first (inserted_found (to_row r) (to_row r') rows same)) in
            absurd (ground arith)
      ]
