-- ===== src/Store/Revocation/Cascade.antt =====
-- store/revocation_scope.go: after a revocation nothing of the endpoint can be used.
use harness_platform_monorep.Prelude.{
  ℕ, ◌≡◌, refl, ◌⊎◌, inl, inr, true, false, not, ◌&&◌, ◌||◌, none, some, List, arith, ◌==◌,
  Bool-cases, Option-cases, All, Text, text_eq_refl, is_empty, trim_space,
}
use harness_platform_monorep.Domain.Endpoint.{Endpoint, EndpointStatus, revoke}
use harness_platform_monorep.Domain.Session
use harness_platform_monorep.Domain.Session.{Session, SessionStatus}
use harness_platform_monorep.Domain.Credential.{
  EndpointCredential, CredentialStatus, is_credential_status, WsTicket, TicketStatus,
  is_ticket_status, RefreshCredential,
}
use harness_platform_monorep.Store.Table.{
  ok, is_ok, find, find-update_where, update_where, transaction_cases, update_where-All,
}
use harness_platform_monorep.Store.Tickets.{revoke_tickets}
use harness_platform_monorep.Store.Revocation.{
  Tables, revoke_credentials, revoke_refresh_credentials, end_session, is_revoked_with,
  is_endpoint_row, with_revocation, revoke_row, is_owned, revoke_endpoint_for_owner,
}

-- What nothing of an endpoint is left to be used means, table by table.
pub record IsCutOff (owner tenant : Text) (e : Endpoint) (t : Tables) : Type 0 where
  pub no_credential :
      All
        (λ c.
          (c.endpoint_id == e.id && is_credential_status c.status CredentialStatus.active) ≡ false)
        t.credentials
  pub no_refresh_credential :
      All
        (λ c.
          (c.endpoint_id == e.id && is_credential_status c.status CredentialStatus.active) ≡ false)
        t.refresh_credentials
  pub no_ticket :
      All
        (λ k. (k.endpoint_id == e.id && is_ticket_status k.status TicketStatus.issued) ≡ false)
        t.tickets
  pub no_session :
      All
        (λ s.
          (is_revoked_with owner tenant e s
            && not (Session.is_status s.status SessionStatus.rekey_required))
          ≡ false)
        t.sessions

pub revoke_row_cases :
    (owner tenant : Text) (e : Endpoint) (now : ℕ) (t : Tables)
    → is_ok (revoke_row owner tenant e now t).1 ≡ true
    → ((revoke_row owner tenant e now t).1 ≡ ok (revoke now e).0)
      × ((revoke_row owner tenant e now t).0.endpoints
          ≡ update_where (is_endpoint_row e) (with_revocation (revoke now e).0) t.endpoints)
      × ((revoke_row owner tenant e now t).0.credentials
          ≡ revoke_credentials e.id now t.credentials)
      × ((revoke_row owner tenant e now t).0.refresh_credentials
          ≡ revoke_refresh_credentials e.id now t.refresh_credentials)
      × ((revoke_row owner tenant e now t).0.tickets ≡ revoke_tickets e.id t.tickets)
      × ((revoke_row owner tenant e now t).0.sessions
          ≡ update_where (is_revoked_with owner tenant e) (end_session e now) t.sessions)
unfolding revoke_row
revoke_row_cases owner tenant e now t h = ground arith

no_credential_left :
    (id now : ℕ) (cs : List EndpointCredential)
    → All
        (λ c.
          (c.endpoint_id == id && is_credential_status c.status CredentialStatus.active) ≡ false)
        (revoke_credentials id now cs)
unfolding revoke_credentials
no_credential_left id now cs = update_where-All _ _ _ cs (λ c h. ground arith) (λ c h. h)

no_refresh_credential_left :
    (id now : ℕ) (cs : List RefreshCredential)
    → All
        (λ c.
          (c.endpoint_id == id && is_credential_status c.status CredentialStatus.active) ≡ false)
        (revoke_refresh_credentials id now cs)
unfolding revoke_refresh_credentials
no_refresh_credential_left id now cs = update_where-All _ _ _ cs (λ c h. ground arith) (λ c h. h)

no_ticket_left :
    (id : ℕ) (ks : List WsTicket)
    → All
        (λ k. (k.endpoint_id == id && is_ticket_status k.status TicketStatus.issued) ≡ false)
        (revoke_tickets id ks)
unfolding revoke_tickets
no_ticket_left id ks = update_where-All _ _ _ ks (λ k h. ground arith) (λ k h. h)

no_session_left :
    (owner tenant : Text) (e : Endpoint) (now : ℕ) (ss : List Session)
    → All
        (λ s.
          (is_revoked_with owner tenant e s
            && not (Session.is_status s.status SessionStatus.rekey_required))
          ≡ false)
        (update_where (is_revoked_with owner tenant e) (end_session e now) ss)
no_session_left owner tenant e now ss =
    update_where-All _ _ _ ss (λ s h. ground arith) (λ s h. ground arith)

revoke_row-IsCutOff :
    (owner tenant : Text) (e : Endpoint) (now : ℕ) (t : Tables)
    → is_ok (revoke_row owner tenant e now t).1 ≡ true
    → IsCutOff owner tenant e (revoke_row owner tenant e now t).0
revoke_row-IsCutOff owner tenant e now t h =
    let (_, _, creds, refreshes, tickets, sessions) = revoke_row_cases owner tenant e now t h in
    record {
      no_credential = rw creds (no_credential_left e.id now t.credentials);
      no_refresh_credential =
          rw refreshes (no_refresh_credential_left e.id now t.refresh_credentials);
      no_ticket = rw tickets (no_ticket_left e.id t.tickets);
      no_session = rw sessions (no_session_left owner tenant e now t.sessions);
    }

pub revoke_endpoint_cases :
    (id : ℕ) (owner tenant : Text) (now : ℕ) (t : Tables)
    → (((revoke_endpoint_for_owner id owner tenant now t).0 ≡ t)
        × (is_ok (revoke_endpoint_for_owner id owner tenant now t).1 ≡ false))
      ⊎ ((e : Endpoint) × (find (is_owned id (trim_space owner) (trim_space tenant)) t.endpoints
            ≡ some e)
          × (is_ok (revoke_row (trim_space owner) (trim_space tenant) e now t).1 ≡ true)
          × (revoke_endpoint_for_owner id owner tenant now t
              ≡ revoke_row (trim_space owner) (trim_space tenant) e now t))
unfolding revoke_endpoint_for_owner
revoke_endpoint_cases id owner tenant now t =
    elim (Option-cases (find (is_owned id (trim_space owner) (trim_space tenant)) t.endpoints)) [
      | inl x ↦ inl (ground arith, ground arith)
      | inr (e, x) ↦ elim (Bool-cases (is_empty (trim_space owner) || id == 0 || now == 0)) [
        | inl g ↦ inl (rw g, rw g)
        | inr g ↦
            elim (transaction_cases t (revoke_row (trim_space owner) (trim_space tenant) e now t)) [
              | inl (fine, kept) ↦ inr (e, x, fine, (rw (g, x) kept))
              | inr (failed, undone) ↦ inl ((rw (g, x) undone), (rw (g, x) failed))
            ]
      ]
    ]

revoke_status :
    (now : ℕ) (e : Endpoint)
    → (revoke now e).1 ≡ none
    → (revoke now e).0.status ≡ EndpointStatus.revoked
unfolding revoke
revoke_status now e h = ground arith

revoke_row-ok :
    (owner tenant : Text) (e : Endpoint) (now : ℕ) (t : Tables)
    → is_ok (revoke_row owner tenant e now t).1 ≡ true
    → (revoke now e).1 ≡ none
unfolding revoke_row
revoke_row-ok owner tenant e now t h = ground arith

self_row : (e : Endpoint) → is_endpoint_row e e ≡ true
self_row e = grind (arith, text_eq_refl)

-- The row that was revoked is found again.
find-revoke_row :
    (id : ℕ) (owner tenant : Text) (e : Endpoint) (now : ℕ) (t : Tables)
    → find (is_owned id owner tenant) t.endpoints ≡ some e
    → is_ok (revoke_row owner tenant e now t).1 ≡ true
    → find (is_owned id owner tenant) (revoke_row owner tenant e now t).0.endpoints
      ≡ some (with_revocation (revoke now e).0 e)
find-revoke_row id owner tenant e now t found h =
    let (_, rows, _, _, _, _) = revoke_row_cases owner tenant e now t h in
    let updated =
      find-update_where (is_endpoint_row e) (is_owned id owner tenant)
        (with_revocation (revoke now e).0) t.endpoints (λ r. refl) in
    rw (rows, updated, found, self_row e) refl

-- A revocation by the owner that succeeds revokes the endpoint that the owner's scope holds under
-- the identifier, and cuts it off: in the tables it leaves, that endpoint's row is found again with
-- the status, times and version of the revoked endpoint that is answered, no access or refresh credential of the
-- endpoint is active, no ticket of it is issued, and every session of the scope that names it
-- is closed, ABA-revoked, failed or waits for new keys.
pub revoke_endpoint_for_owner-IsCutOff :
    (id : ℕ) (owner tenant : Text) (now : ℕ) (t : Tables)
    → is_ok (revoke_endpoint_for_owner id owner tenant now t).1 ≡ true
    → (e : Endpoint) × (find (is_owned id (trim_space owner) (trim_space tenant)) t.endpoints
        ≡ some e)
      × ((revoke_endpoint_for_owner id owner tenant now t).1 ≡ ok (revoke now e).0)
      × (find
            (is_owned id (trim_space owner) (trim_space tenant))
            (revoke_endpoint_for_owner id owner tenant now t).0.endpoints
          ≡ some (with_revocation (revoke now e).0 e))
      × ((revoke now e).0.status ≡ EndpointStatus.revoked)
      × IsCutOff
          (trim_space owner)
          (trim_space tenant)
          e
          (revoke_endpoint_for_owner id owner tenant now t).0
revoke_endpoint_for_owner-IsCutOff id owner tenant now t h =
    elim (revoke_endpoint_cases id owner tenant now t) [
      | inl (_, failed) ↦ absurd (cc)
      | inr (e, found, fine, same) ↦ (
        e,
        found,
        (rw same (revoke_row_cases (trim_space owner) (trim_space tenant) e now t fine).0),
        (rw same (find-revoke_row id (trim_space owner) (trim_space tenant) e now t found fine)),
        revoke_status now e (revoke_row-ok (trim_space owner) (trim_space tenant) e now t fine),
        (rw same (revoke_row-IsCutOff (trim_space owner) (trim_space tenant) e now t fine)),
      )
    ]
