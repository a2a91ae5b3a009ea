-- ===== src/Store/SessionRequests/Limit.antt =====
-- store/session_create.go and store/session_close.go: the limit on the sessions of an ABA endpoint.
use harness_platform_monorep.Prelude.{
  ℕ, suc, ◌≤◌, ◌<◌, ◌≡◌, refl, sym, ap, ◌∙◌, inl, inr, Bool, true, false, ◌&&◌, none, List, [], ◌∷◌,
  arith, ltb, ◌==◌, ltb→lt, ==_iff, Bool-cases, Option-cases,
}
use mathlib.Core.Path.{subst}
use harness_platform_monorep.Domain.Problem.{ErrorCode}
use harness_platform_monorep.Domain.Audit.{SecurityAuditEvent}
use harness_platform_monorep.Domain.Session.{Session, close}
use harness_platform_monorep.Domain.Idempotency.{IdempotencyRecord}
use harness_platform_monorep.Store.Table.{
  Result, ok, transaction, transaction_cases, find, find-holds, update_where, affected, absent,
  and_then, and_then-ok, is_ok, Result-cases, guard-eq-ok, or_error-eq-ok, guard-ok,
}
use harness_platform_monorep.Store.Idempotency.{reserve_idempotency}
use harness_platform_monorep.Store.Revocation.{Tables}
use harness_platform_monorep.Store.Sessions.{is_session_row, with_session}
use harness_platform_monorep.Store.KeyPackages.{is_owned_session}
use harness_platform_monorep.Store.SessionRequests.{
  RequestTables, is_running_session, max_active_sessions_per_aba, active_sessions,
  authorize_creation, authorize_and_create, close_locked, completed_of, finish, once,
  create_endpoint_session, close_endpoint_session, create_input, close_input,
}
use harness_platform_monorep.Store.SessionRequests.Steps.{
  once_cases, finish-ok, create_accepted, create_refused, close_accepted, close_refused,
}

le_trans : {a b c : ℕ} → b ≤ c → a ≤ b → a ≤ c
le_trans h k = omega arith

and_false : (a : Bool) {b : Bool} → b ≡ false → (a && b) ≡ false
and_false true h = h
and_false false h = refl

-- No ABA endpoint has more running sessions than the limit.
unfoldable pub IsLimited : List Session → Type 0
IsLimited rows = (aba : ℕ) → active_sessions aba rows ≤ max_active_sessions_per_aba

below_limit :
    (a b : ℕ) (rows : List Session)
    → a ≡ b
    → ltb (active_sessions a rows) max_active_sessions_per_aba ≡ true
    → active_sessions b rows < max_active_sessions_per_aba
below_limit a b rows same h =
    subst (λ n. active_sessions n rows < max_active_sessions_per_aba) same
      (ltb→lt (active_sessions a rows) max_active_sessions_per_aba h)

authorize_creation-ok :
    (s : Session) (t : Tables)
    → authorize_creation s t ≡ ok tt
    → active_sessions s.aba_endpoint_id t.sessions < max_active_sessions_per_aba
unfolding authorize_creation
authorize_creation-ok s t h =
    let (aba, found, h1) =
      or_error-eq-ok ErrorCode.not_found (find (λ e. e.id == s.aba_endpoint_id) t.endpoints) _ h in
    let (_, _, h2) =
      or_error-eq-ok ErrorCode.not_found (find (λ e. e.id == s.hc_endpoint_id) t.endpoints) _ h1 in
    let (_, h3) = guard-eq-ok _ ErrorCode.not_found _ h2 in
    let (_, h4) = guard-eq-ok _ ErrorCode.security_violation _ h3 in
    let (_, h5) = guard-eq-ok _ ErrorCode.revoked _ h4 in
    let few = guard-ok _ ErrorCode.resource_limit h5 in
    let same : aba.id ≡ s.aba_endpoint_id =
      (==_iff aba.id s.aba_endpoint_id).0
        (find-holds (λ e. e.id == s.aba_endpoint_id) t.endpoints found) in
    below_limit aba.id s.aba_endpoint_id t.sessions same few

count_insert :
    (aba : ℕ) (s : Session) (rows : List Session)
    → active_sessions aba (s ∷ rows) ≤ suc (active_sessions aba rows)
unfolding active_sessions affected
count_insert aba s rows = ground arith

count_other :
    (aba : ℕ) (s : Session) (rows : List Session)
    → (s.aba_endpoint_id == aba) ≡ false
    → active_sessions aba (s ∷ rows) ≡ active_sessions aba rows
unfolding active_sessions affected
count_other aba s rows h = ground arith

le_trans_suc :
    (a b : ℕ) → a ≤ suc b → b < max_active_sessions_per_aba → a ≤ max_active_sessions_per_aba
le_trans_suc a b h k = omega arith

insert-IsLimited :
    (s : Session) (rows : List Session)
    → IsLimited rows
    → active_sessions s.aba_endpoint_id rows < max_active_sessions_per_aba
    → IsLimited (s ∷ rows)
unfolding IsLimited
insert-IsLimited s rows h few aba = elim (Bool-cases (s.aba_endpoint_id == aba)) [
  | inl x ↦
      let same : s.aba_endpoint_id ≡ aba = (==_iff s.aba_endpoint_id aba).0 x in
      le_trans_suc (active_sessions aba (s ∷ rows)) (active_sessions aba rows)
        (count_insert aba s rows)
        (subst (λ n. active_sessions n rows < max_active_sessions_per_aba) same few)
  | inr x ↦ subst (λ n. n ≤ max_active_sessions_per_aba) (sym (count_other aba s rows x)) (h aba)
]

-- An update that makes no row running makes the count no larger.
affected-update_where-le :
    (p q : Session → Bool) (f : Session → Session) (rows : List Session)
    → ((r : Session) → p (f r) ≡ false)
    → affected p (update_where q f rows) ≤ affected p rows
unfolding affected update_where
affected-update_where-le p q f [] h = omega arith
affected-update_where-le p q f (x ∷ rows) h =
    let rest = affected-update_where-le p q f rows h in
    let off = h x in
    elim (Bool-cases (q x)) [ inl y ↦ rw (y, off) (ground arith) | inr y ↦ rw y (ground arith) ]

close_not_running :
    (now : ℕ) (row : Session)
    → (close now row).1 ≡ none
    → is_running_session (close now row).0.status ≡ false
unfolding close
close_not_running now row h = ground arith

close-IsLimited :
    (q : Session → Bool) (current : Session) (rows : List Session)
    → is_running_session current.status ≡ false
    → IsLimited rows
    → IsLimited (update_where q (with_session current) rows)
unfolding IsLimited active_sessions
close-IsLimited q current rows off h aba = le_trans (h aba) (
    affected-update_where-le (λ s. s.aba_endpoint_id == aba && is_running_session s.status) q
      (with_session current) rows (λ r. and_false (r.aba_endpoint_id == aba) off))

created :
    (s : Session) (t : RequestTables)
    → is_ok (authorize_and_create s t).1 ≡ true
    → (authorize_creation s t.tables ≡ ok tt)
      × ((authorize_and_create s t).0.tables.sessions ≡ s ∷ t.tables.sessions)
unfolding authorize_and_create
created s t h = elim (Result-cases (authorize_creation s t.tables)) [
  | inr (e, x) ↦ absurd (ground arith)
  | inl (_, x) ↦ elim (Bool-cases (absent (λ r. r.id == s.id) t.tables.sessions)) [
    | inl y ↦ (x, ground arith)
    | inr y ↦ absurd (ground arith)
  ]
]

authorize_and_create-IsLimited :
    (s : Session) (t : RequestTables)
    → is_ok (authorize_and_create s t).1 ≡ true
    → IsLimited t.tables.sessions
    → IsLimited (authorize_and_create s t).0.tables.sessions
authorize_and_create-IsLimited s t h limited =
    let (authorized, same) = created s t h in
    subst IsLimited (sym same)
      (insert-IsLimited s t.tables.sessions limited (authorize_creation-ok s t.tables authorized))

abbrev closing : Session → Session → Bool
closing s r =
    is_owned_session s.id s.owner_user_id s.tenant_id r && r.hc_endpoint_id == s.hc_endpoint_id

closed :
    (s : Session) (t : RequestTables)
    → is_ok (close_locked s t).1 ≡ true
    → (row : Session) × ((close s.updated_at row).1 ≡ none)
      × ((close_locked s t).0.tables.sessions
          ≡ update_where
              (is_session_row row)
              (with_session (close s.updated_at row).0)
              t.tables.sessions)
unfolding close_locked
closed s t h = elim (Option-cases (find (closing s) t.tables.sessions)) [
  | inl x ↦ absurd (ground arith)
  | inr (row, x) ↦ elim (Option-cases (close s.updated_at row).1) [
    | inr (e, y) ↦ absurd (ground arith)
    | inl y ↦ (row, y, ground arith)
  ]
]

close_locked-IsLimited :
    (s : Session) (t : RequestTables)
    → is_ok (close_locked s t).1 ≡ true
    → IsLimited t.tables.sessions
    → IsLimited (close_locked s t).0.tables.sessions
close_locked-IsLimited s t h limited =
    let (row, passed, same) = closed s t h in
    subst IsLimited (sym same) (
      close-IsLimited (is_session_row row) (close s.updated_at row).0 t.tables.sessions
        (close_not_running s.updated_at row passed) limited)

module _ (json_valid : List ℕ → Bool) where
  -- A shared step: a change that keeps the limit, in a request.
  change-IsLimited :
      (r : IdempotencyRecord) (audit : SecurityAuditEvent) (c : IdempotencyRecord)
      (change : RequestTables → RequestTables × Result (Unit {0})) (t : RequestTables)
      → ((t' : RequestTables)
          → is_ok (change t').1 ≡ true
          → IsLimited t'.tables.sessions
          → IsLimited (change t').0.tables.sessions)
      → IsLimited t.tables.sessions
      → IsLimited
          (transaction t (
            once json_valid r
              (λ t'. and_then (change t') (λ _. finish json_valid audit c))
              t)).0.tables.sessions
  change-IsLimited r audit c change t keeps limited =
      let whole = λ (t' : RequestTables). and_then (change t') (λ _. finish json_valid audit c) in
      elim (transaction_cases t (once json_valid r whole t)) [
        | inr (_, undone) ↦ rw undone limited
        | inl (fine, kept) ↦ elim (once_cases json_valid r whole t fine) [
          | inl (v, _, same) ↦ rw (kept, same) limited
          | inr (v, _, same) ↦
              let t' = record t {
                idempotency = (reserve_idempotency json_valid r t.idempotency).0;
              } in
              let (a, changed, next) =
                and_then-ok (change t') _ (ap (λ x. is_ok x.1) (sym same) ∙ fine) in
              let (_, ended) =
                finish-ok json_valid audit c (change t').0
                  (ap (λ x. is_ok x.1) (sym (same ∙ next)) ∙ fine) in
              subst (λ x. IsLimited x.0.tables.sessions) (sym (kept ∙ same ∙ next ∙ ended))
                (keeps t' (ap is_ok changed) limited)
        ]
      ]

  -- The requests of endpoints, one after the other.
  pub data Request : Type 0 where
    create_request : Session → IdempotencyRecord → SecurityAuditEvent → ℕ → List ℕ → Request
    close_request : Session → IdempotencyRecord → SecurityAuditEvent → List ℕ → Request

  unfoldable pub handle : Request → RequestTables → RequestTables
  handle (create_request s r audit http_status json) t =
      (create_endpoint_session json_valid s r audit http_status json t).0
  handle (close_request s r audit json) t = (close_endpoint_session json_valid s r audit json t).0

  unfoldable pub handle_all : List Request → RequestTables → RequestTables
  handle_all [] t = t
  handle_all (x ∷ xs) t = handle_all xs (handle x t)

  handle-IsLimited :
      (x : Request) (t : RequestTables)
      → IsLimited t.tables.sessions
      → IsLimited (handle x t).tables.sessions
  unfolding handle
  handle-IsLimited (create_request s r audit http_status json) t h =
      elim (Bool-cases (create_input s r audit http_status json)) [
        | inr x ↦
            subst (λ t'. IsLimited t'.tables.sessions)
              (sym (create_refused json_valid s r audit http_status json t x)) h
        | inl x ↦
            subst (λ y. IsLimited y.0.tables.sessions)
              (sym (create_accepted json_valid s r audit http_status json t x))
              (change-IsLimited r audit (completed_of r http_status json s.updated_at)
                (authorize_and_create s) t (authorize_and_create-IsLimited s) h)
      ]
  handle-IsLimited (close_request s r audit json) t h =
      elim (Bool-cases (close_input s r audit json)) [
        | inr x ↦
            subst (λ t'. IsLimited t'.tables.sessions)
              (sym (close_refused json_valid s r audit json t x)) h
        | inl x ↦
            subst (λ y. IsLimited y.0.tables.sessions)
              (sym (close_accepted json_valid s r audit json t x))
              (change-IsLimited r audit (completed_of r 200 json s.updated_at) (close_locked s) t
                (close_locked-IsLimited s) h)
      ]

  -- Whatever sessions endpoints create and close, no ABA endpoint has more than four running
  -- sessions: a table that keeps this limit keeps it through any sequence of requests.
  pub handle_all-IsLimited :
      (xs : List Request) (t : RequestTables)
      → IsLimited t.tables.sessions
      → IsLimited (handle_all xs t).tables.sessions
  unfolding handle_all
  handle_all-IsLimited [] t h = h
  handle_all-IsLimited (x ∷ xs) t h = handle_all-IsLimited xs (handle x t) (handle-IsLimited x t h)
