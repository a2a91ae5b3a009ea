-- ===== src/Store/SessionRequests/Repeated.antt =====
-- store/session_create.go and store/session_close.go: a request that is repeated.
use harness_platform_monorep.Prelude.{
  ℕ, ◌≡◌, sym, ap, ◌∙◌, ◌≢◌, inl, inr, Bool, true, false, ◌&&◌, none, List, arith, ◌==◌, text_eq,
  text_eq→eq,
}
use mathlib.Core.Path.{subst}
use harness_platform_monorep.Domain.Audit.{SecurityAuditEvent}
use harness_platform_monorep.Domain.Session.{Session}
use harness_platform_monorep.Domain.Idempotency.{IdempotencyRecord, IdempotencyStatus}
use harness_platform_monorep.Store.Table.{
  Result, ok, err, transaction, transaction_cases, and_then, and_then-ok, is_ok, Result-cases,
}
use harness_platform_monorep.Store.Idempotency.{
  reserve_idempotency, argument_error, same_scope, to_row, same_result,
}
use harness_platform_monorep.Store.Idempotency.Scopes.{IsUnique, insert-IsUnique, same_scope_move}
use harness_platform_monorep.Store.Idempotency.Once.{reserve_rows}
use harness_platform_monorep.Store.Idempotency.Completion.{IsCompletedAs, complete-IsCompletedAs}
use harness_platform_monorep.Store.Idempotency.Replayed.{reserve_replays, find_same}
use harness_platform_monorep.Store.SessionRequests.{
  RequestTables, authorize_creation, authorize_and_create, completed_of, finish, once,
  create_endpoint_session, create_input,
}
use harness_platform_monorep.Store.SessionRequests.Steps.{once_cases, finish-ok, create_accepted}

not_replayed :
    (v json : List ℕ) → ◌≢◌ {A = Result (List ℕ × Bool)} (ok (v, true)) (ok (json, false))
not_replayed v json h = absurd (ground (arith, ap (λ r. elim r [ ok p ↦ p.1 | err _ ↦ true ]) h))

and_last : (a b c : Bool) → (a && b && c) ≡ true → c ≡ true
and_last a b c h = ground arith

same_response :
    (a b : IdempotencyRecord) → same_result a b ≡ true → a.response_json ≡ b.response_json
same_response a b h =
    text_eq→eq a.response_json b.response_json
      (and_last (a.http_status == b.http_status) (text_eq a.error_code b.error_code) _ h)

created_idempotency :
    (s : Session) (t : RequestTables) → (authorize_and_create s t).0.idempotency ≡ t.idempotency
unfolding authorize_and_create
created_idempotency s t = elim (Result-cases (authorize_creation s t.tables)) [
  | inl (_, x) ↦ ground arith
  | inr (e, x) ↦ ground arith
]

module _ (json_valid : List ℕ → Bool) where
  reserved-IsUnique :
      (r : IdempotencyRecord) (rows : List IdempotencyRecord)
      → IsUnique rows
      → IsUnique (reserve_idempotency json_valid r rows).0
  reserved-IsUnique r rows h = elim (reserve_rows json_valid r rows) [
    | inl x ↦ rw x h
    | inr (free, x) ↦ rw x (insert-IsUnique (to_row r) rows free h)
  ]

  -- A first request that succeeds leaves its reservation completed with its response.
  first-IsCompletedAs :
      (r : IdempotencyRecord) (audit : SecurityAuditEvent) (c : IdempotencyRecord)
      (change : RequestTables → RequestTables × Result (Unit {0})) (t : RequestTables)
      (json : List ℕ)
      → ((t' : RequestTables) → (change t').0.idempotency ≡ t'.idempotency)
      → IsUnique t.idempotency
      → let x =
          transaction t
            (once json_valid r (λ t'. and_then (change t') (λ _. finish json_valid audit c)) t) in
        x.1 ≡ ok (json, false) → IsCompletedAs json_valid (to_row c) c x.0.idempotency
  first-IsCompletedAs r audit c change t json keeps unique h =
      let whole = λ (t' : RequestTables). and_then (change t') (λ _. finish json_valid audit c) in
      elim (transaction_cases t (once json_valid r whole t)) [
        | inr (failed, undone) ↦ absurd (ground (arith, ap is_ok h, failed))
        | inl (fine, kept) ↦ elim (once_cases json_valid r whole t fine) [
          | inl (v, _, same) ↦
              absurd (not_replayed v.response_json json (sym (ap (λ x. x.1) (kept ∙ same)) ∙ h))
          | inr (v, _, same) ↦
              let t' = record t {
                idempotency = (reserve_idempotency json_valid r t.idempotency).0;
              } in
              let (a, changed, next) =
                and_then-ok (change t') _ (ap (λ x. is_ok x.1) (sym same) ∙ fine) in
              let (completes, ended) =
                finish-ok json_valid audit c (change t').0
                  (ap (λ x. is_ok x.1) (sym (same ∙ next)) ∙ fine) in
              subst (λ x. IsCompletedAs json_valid (to_row c) c x.0.idempotency)
                (sym (kept ∙ same ∙ next ∙ ended))
                (complete-IsCompletedAs json_valid c (change t').0.idempotency
                  (subst IsUnique (sym (keeps t')) (reserved-IsUnique r t.idempotency unique))
                  completes)
        ]
      ]

  -- What such a table answers to the request again.
  again_replays :
      (c r : IdempotencyRecord) (change : RequestTables → RequestTables × Result (List ℕ × Bool))
      (t : RequestTables)
      → IsCompletedAs json_valid (to_row c) c t.idempotency
      → argument_error json_valid IdempotencyStatus.in_progress r ≡ none
      → same_scope (to_row c) (to_row r) ≡ true
      → r.request_hash ≡ c.request_hash
      → transaction t (once json_valid r change t) ≡ (t, ok (c.response_json, true))
  unfolding once
  again_replays c r change t left argument same hash =
      let found =
        find_same (same_scope (to_row r)) (same_scope (to_row c)) t.idempotency
          (λ x. sym (same_scope_move (to_row c) (to_row r) x same))
        ∙ left.found in
      let answer =
        reserve_replays json_valid r left.row t.idempotency argument found left.status
          (left.request_hash ∙ sym hash) left.readable in
      rw answer (ap (λ j. (t, ok (j, true))) (same_response left.row c left.result))

  -- A session is created once for a request, on a table of idempotency records whose keys are
  -- unique. When a first request, whose arguments pass the checks that CreateEndpointSession makes
  -- on them, succeeds with its own response, a second one under the same owner, tenant, actor,
  -- operation, key and request hash, whose arguments and idempotency record pass the checks too,
  -- answers the first response, marked as a replay, and changes no table, whatever session, audit
  -- event, status and response that second request brings otherwise.
  pub create_endpoint_session_repeated :
      (s s' : Session) (r r' : IdempotencyRecord) (audit audit' : SecurityAuditEvent)
      (http_status http_status' : ℕ) (json json' : List ℕ) (t : RequestTables)
      → IsUnique t.idempotency
      → create_input s r audit http_status json ≡ true
      → (create_endpoint_session json_valid s r audit http_status json t).1 ≡ ok (json, false)
      → create_input s' r' audit' http_status' json' ≡ true
      → argument_error json_valid IdempotencyStatus.in_progress r' ≡ none
      → same_scope (to_row r) (to_row r') ≡ true
      → r'.request_hash ≡ r.request_hash
      → let t' = (create_endpoint_session json_valid s r audit http_status json t).0 in
        create_endpoint_session json_valid s' r' audit' http_status' json' t'
        ≡ (t', ok (json, true))
  unfolding same_scope
  create_endpoint_session_repeated s s' r r' audit audit' http_status http_status' json json' t
        unique input first input' argument same hash =
      let c = completed_of r http_status json s.updated_at in
      let t' = (create_endpoint_session json_valid s r audit http_status json t).0 in
      let accepted = create_accepted json_valid s r audit http_status json t input in
      let left =
        first-IsCompletedAs r audit c (authorize_and_create s) t json (created_idempotency s) unique
          (ap (λ x. x.1) (sym accepted) ∙ first) in
      create_accepted json_valid s' r' audit' http_status' json' t' input'
      ∙ again_replays c r' _ t'
          (subst (λ x. IsCompletedAs json_valid (to_row c) c x.0.idempotency) (sym accepted) left)
          argument same hash
