-- ===== src/Store/Idempotency/Replayed.antt =====
-- store/idempotency.go: a completed response is what every later reservation of its scope replays.
use harness_platform_monorep.Prelude.{
  ℕ, ◌≡◌, refl, sym, ◌∙◌, inl, inr, Bool, true, false, none, some, List, [], ◌∷◌, arith, Bool-cases,
}
use harness_platform_monorep.Domain.Idempotency.{IdempotencyRecord, IdempotencyStatus}
use harness_platform_monorep.Store.Table.{
  ok, find, find-holds, update_where, absent, absent-find, absent-find-some, find-update_where,
  is_ok,
}
use harness_platform_monorep.Store.Idempotency.{
  replay, to_row, same_scope, clashes, is_unfinished, with_completion, from_row, argument_error,
  reserve_existing, reserve_idempotency, complete_idempotency, same_result,
}
use harness_platform_monorep.Store.Idempotency.Scopes.{
  same_scope_move, IsUnique, insert-IsUnique, completion-IsUnique, absent-clashes,
}
use harness_platform_monorep.Store.Idempotency.Once.{
  Call, reserve_call, complete_call, call, serve, reserve_rows, complete_rows,
}
use harness_platform_monorep.Store.Idempotency.Completion.{IsCompletedAs, complete-IsCompletedAs}

pub find_same :
    (p q : IdempotencyRecord → Bool) (rows : List IdempotencyRecord)
    → ((r : IdempotencyRecord) → p r ≡ q r)
    → find p rows ≡ find q rows
unfolding find
find_same p q [] h = refl
find_same p q (x ∷ rows) h = rw (h x, find_same p q rows h) refl

inserted_same :
    (r k : IdempotencyRecord) (rows : List IdempotencyRecord) {v : IdempotencyRecord}
    → absent (clashes (to_row r)) rows ≡ true
    → find (same_scope k) rows ≡ some v
    → find (same_scope k) (to_row r ∷ rows) ≡ some v
unfolding find
inserted_same r k rows {v} free found = elim (Bool-cases (same_scope k (to_row r))) [
  | inr x ↦ rw x found
  | inl x ↦
      let held = find-holds (same_scope k) rows found in
      let apart = absent-find-some (clashes (to_row r)) (same_scope k) rows free found in
      let moved = same_scope_move k (to_row r) v x in absurd (ground arith)
]

updated_same :
    (c row k : IdempotencyRecord) (rows : List IdempotencyRecord) {v : IdempotencyRecord}
    → v.status ≡ IdempotencyStatus.completed
    → find (same_scope k) rows ≡ some v
    → find (same_scope k) (update_where (is_unfinished row) (with_completion c row) rows) ≡ some v
unfolding same_scope
updated_same c row k rows {v} completed found =
    let untouched : is_unfinished row v ≡ false = ground arith in
    rw
      (
        find-update_where (is_unfinished row) (same_scope k) (with_completion c row) rows
            (λ y. refl),
        found,
        untouched,
      )
      refl

module _ (json_valid : List ℕ → Bool) where
  call-IsUnique :
      (c : Call) (rows : List IdempotencyRecord) → IsUnique rows → IsUnique (call json_valid c rows)
  unfolding call
  call-IsUnique (reserve_call r) rows h = elim (reserve_rows json_valid r rows) [
    | inl x ↦ rw x h
    | inr (free, x) ↦ rw x (insert-IsUnique (to_row r) rows free h)
  ]
  call-IsUnique (complete_call c) rows h = elim (complete_rows json_valid c rows) [
    | inl x ↦ rw x h
    | inr (row, x) ↦ rw x (completion-IsUnique c row (is_unfinished row) rows h)
  ]

  -- No sequence of calls makes two rows of one scope.
  pub serve-IsUnique :
      (calls : List Call) (rows : List IdempotencyRecord)
      → IsUnique rows
      → IsUnique (serve json_valid calls rows)
  unfolding serve
  serve-IsUnique [] rows h = h
  serve-IsUnique (c ∷ calls) rows h =
      serve-IsUnique calls (call json_valid c rows) (call-IsUnique c rows h)

  elsewhere :
      (k c : IdempotencyRecord) (rows rows' : List IdempotencyRecord)
      → (h : IsCompletedAs json_valid k c rows) → find (same_scope k) rows' ≡ some h.row
      → IsCompletedAs json_valid k c rows'
  elsewhere k c rows rows' h found = record {
    row = h.row;
    found = found;
    status = h.status;
    request_hash = h.request_hash;
    result = h.result;
    readable = h.readable;
  }

  call-IsCompletedAs :
      (x : Call) (k c : IdempotencyRecord) (rows : List IdempotencyRecord)
      → IsCompletedAs json_valid k c rows
      → IsCompletedAs json_valid k c (call json_valid x rows)
  unfolding call
  call-IsCompletedAs (reserve_call r) k c rows h = elim (reserve_rows json_valid r rows) [
    | inl x ↦ rw x h
    | inr (free, x) ↦
        rw x (elsewhere k c rows (to_row r ∷ rows) h (inserted_same r k rows free h.found))
  ]
  call-IsCompletedAs (complete_call d) k c rows h = elim (complete_rows json_valid d rows) [
    | inl x ↦ rw x h
    | inr (row, x) ↦ rw x (
        elsewhere k c rows (update_where (is_unfinished row) (with_completion d row) rows) h
          (updated_same d row k rows h.status h.found))
  ]

  serve-IsCompletedAs :
      (calls : List Call) (k c : IdempotencyRecord) (rows : List IdempotencyRecord)
      → IsCompletedAs json_valid k c rows
      → IsCompletedAs json_valid k c (serve json_valid calls rows)
  unfolding serve
  serve-IsCompletedAs [] k c rows h = h
  serve-IsCompletedAs (x ∷ calls) k c rows h =
      serve-IsCompletedAs calls k c (call json_valid x rows) (call-IsCompletedAs x k c rows h)

  pub reserve_replays :
      (r row : IdempotencyRecord) (rows : List IdempotencyRecord)
      → argument_error json_valid IdempotencyStatus.in_progress r ≡ none
      → find (same_scope (to_row r)) rows ≡ some row
      → row.status ≡ IdempotencyStatus.completed
      → row.request_hash ≡ r.request_hash
      → from_row json_valid row ≡ ok row
      → reserve_idempotency json_valid r rows ≡ (rows, ok (replay, row))
  unfolding reserve_idempotency reserve_existing
  reserve_replays r row rows argument found completed hash readable =
      elim (Bool-cases (absent (clashes (to_row r)) rows)) [
        | inl x ↦ absurd (
            ground
              (arith, absent-find (same_scope (to_row r)) rows (absent-clashes (to_row r) rows x)))
        | inr x ↦ ground arith
      ]

  -- A completed request is never run again. Whatever calls filled the table from empty, once a
  -- completion succeeds, and after any further calls, a valid reservation with the same owner,
  -- tenant, actor, operation, key and request is answered by a replay of the completed response:
  -- its HTTP status, its error code and its bytes.
  pub completed_replayed :
      (before after : List Call) (c r : IdempotencyRecord)
      → is_ok (complete_idempotency json_valid c (serve json_valid before [])).1 ≡ true
      → argument_error json_valid IdempotencyStatus.in_progress r ≡ none
      → same_scope (to_row c) (to_row r) ≡ true
      → r.request_hash ≡ c.request_hash
      → let rows =
          serve json_valid after
            (complete_idempotency json_valid c (serve json_valid before [])).0 in
        (v : IdempotencyRecord) × (reserve_idempotency json_valid r rows ≡ (rows, ok (replay, v)))
        × (same_result v c ≡ true)
  completed_replayed before after c r done argument same hash =
      let rows = serve json_valid before [] in
      let left =
        serve-IsCompletedAs after (to_row c) c (complete_idempotency json_valid c rows).0
          (complete-IsCompletedAs json_valid c rows (serve-IsUnique before [] tt) done) in
      let later = serve json_valid after (complete_idempotency json_valid c rows).0 in
      let found =
        find_same (same_scope (to_row r)) (same_scope (to_row c)) later
          (λ x. sym (same_scope_move (to_row c) (to_row r) x same))
        ∙ left.found in
      (
        left.row,
        reserve_replays r left.row later argument found left.status (left.request_hash ∙ sym hash)
            left.readable,
        left.result,
      )
