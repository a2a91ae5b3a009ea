-- ===== src/Store/Revocation/Unscoped.antt =====
-- store/repository.go: how the two revocations treat failed sessions.
use harness_platform_monorep.Prelude.{
  ℕ, ◌<◌, ◌≡◌, refl, inl, inr, true, false, not, ◌&&◌, none, some, arith, ◌==◌, Text, trim_space,
}
use harness_platform_monorep.Domain.Endpoint.{Endpoint}
use harness_platform_monorep.Domain.Session
use harness_platform_monorep.Domain.Session.{Session, SessionStatus}
use harness_platform_monorep.Store.Table.{find, find-update_where}
use harness_platform_monorep.Store.Revocation.{
  Tables, is_aba, names_endpoint, end_session, is_revoked_with, revoke_sessions_unscoped,
  revoke_endpoint_for_owner,
}
use harness_platform_monorep.Store.Revocation.Cascade.{revoke_row_cases, revoke_endpoint_cases}

-- The revocation by the owner leaves a failed session as it was found.
failed_kept :
    (key id : ℕ) (owner tenant : Text) (now : ℕ) (t : Tables) (s : Session)
    → find (λ r. r.id == key) t.sessions ≡ some s
    → s.status ≡ SessionStatus.failed
    → find (λ r. r.id == key) (revoke_endpoint_for_owner id owner tenant now t).0.sessions ≡ some s
failed_kept key id owner tenant now t s found failed =
    elim (revoke_endpoint_cases id owner tenant now t) [
      | inl (same, _) ↦ rw same found
      | inr (e, _, fine, same) ↦
          let o = trim_space owner in
          let n = trim_space tenant in
          let (_, _, _, _, _, rows) = revoke_row_cases o n e now t fine in
          let updated =
            find-update_where (is_revoked_with o n e) (λ r. r.id == key) (end_session e now)
              t.sessions (λ r. ground arith) in
          let off : is_revoked_with o n e s ≡ false = ground arith in
          rw (same, rows, updated, found, off) refl
    ]

end_session-activate :
    (e : Endpoint) (now later generation : ℕ) (s : Session)
    → is_aba e ≡ false
    → s.current_key_generation < generation
    → ((Session.activate generation later (end_session e now s)).1 ≡ none)
      × ((Session.activate generation later (end_session e now s)).0.status ≡ SessionStatus.active)
unfolding Session.activate
end_session-activate e now later generation s kind larger = (ground arith, ground arith)

-- The two revocations differ on a failed session, in any table of sessions. The revocation by the
-- owner, of any endpoint, leaves the session that is found under the identifier as it is. The
-- unscoped revocation of an endpoint that is no ABA and that the session names changes it: what is
-- found under the identifier afterwards waits for new keys, and activates with any larger
-- generation.
pub revoke_sessions_unscoped-failed :
    (key id : ℕ) (owner tenant : Text) (e : Endpoint) (now later generation : ℕ) (t : Tables)
    (s : Session)
    → find (λ r. r.id == key) t.sessions ≡ some s
    → s.status ≡ SessionStatus.failed
    → is_aba e ≡ false
    → names_endpoint e s ≡ true
    → s.current_key_generation < generation
    → (find (λ r. r.id == key) (revoke_endpoint_for_owner id owner tenant now t).0.sessions
        ≡ some s)
      × ((s' : Session) × (find (λ r. r.id == key) (revoke_sessions_unscoped e now t.sessions)
            ≡ some s')
          × (s'.status ≡ SessionStatus.rekey_required)
          × ((Session.activate generation later s').1 ≡ none)
          × ((Session.activate generation later s').0.status ≡ SessionStatus.active))
unfolding revoke_sessions_unscoped
revoke_sessions_unscoped-failed key id owner tenant e now later generation t s found failed kind
      named larger =
    let (passes, active) = end_session-activate e now later generation s kind larger in
    let updated =
      find-update_where
        (λ r.
          names_endpoint e r
          && not (Session.is_status r.status SessionStatus.closed)
          && not (Session.is_status r.status SessionStatus.aba_revoked))
        (λ r. r.id == key) (end_session e now) t.sessions (λ r. ground arith) in
    (
      failed_kept key id owner tenant now t s found failed,
      (end_session e now s, rw (updated, found, named, failed) refl, ground arith, passes, active),
    )
