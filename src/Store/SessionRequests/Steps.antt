-- ===== src/Store/SessionRequests/Steps.antt =====
-- store/session_create.go and store/session_close.go: what a request that succeeds has done.
use harness_platform_monorep.Prelude.{
  ℕ, ◌≡◌, refl, sym, ap, ◌∙◌, ◌⊎◌, inl, inr, Bool, true, false, List, arith,
}
use harness_platform_monorep.Domain.Audit.{SecurityAuditEvent}
use harness_platform_monorep.Domain.Session.{Session}
use harness_platform_monorep.Domain.Idempotency.{IdempotencyRecord}
use harness_platform_monorep.Store.Table.{Result, ok, transaction, and_then, and_then-ok, is_ok}
use harness_platform_monorep.Store.Audit.{append_audit}
use harness_platform_monorep.Store.Idempotency.{
  ReserveOutcome, acquired, still_running, replay, reserve_idempotency, complete_idempotency,
}
use harness_platform_monorep.Store.SessionRequests.{
  RequestTables, on_audits, on_idempotency, authorize_and_create, close_locked, completed_of,
  finish, once, proceed, create_endpoint_session, close_endpoint_session, create_input, close_input,
}

module _ (json_valid : List ℕ → Bool) where
  -- What the end of a request that succeeds has done.
  pub finish-ok :
      (audit : SecurityAuditEvent) (c : IdempotencyRecord) (t : RequestTables)
      → is_ok (finish json_valid audit c t).1 ≡ true
      → (is_ok (complete_idempotency json_valid c t.idempotency).1 ≡ true)
        × (finish json_valid audit c t ≡ (
          record t {
            idempotency = (complete_idempotency json_valid c t.idempotency).0;
            audits = (append_audit audit t.audits).0;
          },
          ok (c.response_json, false),
        ))
  unfolding finish
  finish-ok audit c t h =
      let appended = on_audits t (append_audit audit t.audits) in
      let (_, _, same) = and_then-ok appended _ h in
      let (_, fine, same') =
        and_then-ok (on_idempotency appended.0 (complete_idempotency json_valid c t.idempotency)) _
          (ap (λ r. is_ok r.1) (sym same) ∙ h) in
      (ap is_ok fine, same ∙ same')

  proceed_cases :
      {E : Type 0} {e : E} (change : RequestTables → RequestTables × Result (List ℕ × Bool))
      (a : ReserveOutcome × IdempotencyRecord) (t : RequestTables)
      (x : RequestTables × Result (List ℕ × Bool)) (f : ReserveOutcome × IdempotencyRecord → E)
      → e ≡ f a
      → is_ok x.1 ≡ true
      → x ≡ proceed change a t
      → ((v : IdempotencyRecord) × (e ≡ f (replay, v)) × (x ≡ (t, ok (v.response_json, true))))
        ⊎ ((v : IdempotencyRecord) × (e ≡ f (acquired, v)) × (x ≡ change t))
  proceed_cases change (replay, v) t x f h k same = inl (v, h, same)
  proceed_cases change (still_running, v) t x f h k same =
      absurd (ground (arith, ap (λ r. is_ok r.1) same))
  proceed_cases change (acquired, v) t x f h k same = inr (v, h, same)

  -- What a request that succeeds has done: it is a replay, or it made its change.
  pub once_cases :
      (r : IdempotencyRecord) (change : RequestTables → RequestTables × Result (List ℕ × Bool))
      (t : RequestTables)
      → is_ok (once json_valid r change t).1 ≡ true
      → let t' = record t { idempotency = (reserve_idempotency json_valid r t.idempotency).0 } in
        ((v : IdempotencyRecord) × ((reserve_idempotency json_valid r t.idempotency).1
            ≡ ok (replay, v))
          × (once json_valid r change t ≡ (t', ok (v.response_json, true))))
        ⊎ ((v : IdempotencyRecord) × ((reserve_idempotency json_valid r t.idempotency).1
              ≡ ok (acquired, v))
            × (once json_valid r change t ≡ change t'))
  unfolding once
  once_cases r change t h =
      let reserved = on_idempotency t (reserve_idempotency json_valid r t.idempotency) in
      let (a, fine, same) = and_then-ok reserved (proceed change) h in
      proceed_cases change a reserved.0 (once json_valid r change t) ok fine h same

  pub create_accepted :
      (s : Session) (r : IdempotencyRecord) (audit : SecurityAuditEvent) (http_status : ℕ)
      (json : List ℕ) (t : RequestTables)
      → create_input s r audit http_status json ≡ true
      → create_endpoint_session json_valid s r audit http_status json t
        ≡ transaction t (
            once json_valid r
              (λ t'.
                and_then
                  (authorize_and_create s t')
                  (λ _. finish json_valid audit (completed_of r http_status json s.updated_at)))
              t)
  unfolding create_endpoint_session
  create_accepted s r audit http_status json t h = rw (create_endpoint_session, h) refl

  pub create_refused :
      (s : Session) (r : IdempotencyRecord) (audit : SecurityAuditEvent) (http_status : ℕ)
      (json : List ℕ) (t : RequestTables)
      → create_input s r audit http_status json ≡ false
      → (create_endpoint_session json_valid s r audit http_status json t).0 ≡ t
  unfolding create_endpoint_session
  create_refused s r audit http_status json t h = rw (create_endpoint_session, h) refl

  pub close_accepted :
      (s : Session) (r : IdempotencyRecord) (audit : SecurityAuditEvent) (json : List ℕ)
      (t : RequestTables)
      → close_input s r audit json ≡ true
      → close_endpoint_session json_valid s r audit json t
        ≡ transaction t (
            once json_valid r
              (λ t'.
                and_then
                  (close_locked s t')
                  (λ _. finish json_valid audit (completed_of r 200 json s.updated_at)))
              t)
  unfolding close_endpoint_session
  close_accepted s r audit json t h = rw (close_endpoint_session, h) refl

  pub close_refused :
      (s : Session) (r : IdempotencyRecord) (audit : SecurityAuditEvent) (json : List ℕ)
      (t : RequestTables)
      → close_input s r audit json ≡ false
      → (close_endpoint_session json_valid s r audit json t).0 ≡ t
  unfolding close_endpoint_session
  close_refused s r audit json t h = rw (close_endpoint_session, h) refl
