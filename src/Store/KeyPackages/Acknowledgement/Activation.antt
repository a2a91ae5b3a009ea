-- ===== src/Store/KeyPackages/Acknowledgement/Activation.antt =====
-- store/key_package.go: what an acknowledgement that activates its session has done.
use harness_platform_monorep.Prelude.{
  ℕ, ◌≡◌, refl, ap, ◌∙◌, ◌≢◌, ◌⊎◌, inl, inr, true, false, ◌||◌, Option, none, some, List, arith,
  ◌==◌, Bool-cases, Option-cases, Text, is_empty, trim_space,
}
use mathlib.Core.Path.{subst}
use harness_platform_monorep.Domain.Problem.{ErrorCode, Outcome}
use harness_platform_monorep.Domain.Session.{Session, SessionStatus, activate}
use harness_platform_monorep.Domain.Credential.{SessionKeyPackage, KeyPackageStatus}
use harness_platform_monorep.Domain.KeyPackage.{acknowledge}
use harness_platform_monorep.Store.Table.{
  ok, err, or_error, transaction, find, find-holds, update_where, is_ok, transaction_cases,
  Result-cases, find-update_where, >>=-eq-ok, guard-eq-ok, try_check-eq-ok, or_error-eq-ok,
}
use harness_platform_monorep.Store.Revocation.{Tables}
use harness_platform_monorep.Store.KeyPackages.{lock_session, lock_endpoint}
use harness_platform_monorep.Store.KeyPackages.Acknowledgement.{
  acknowledge_row, acknowledge_locked, acknowledge_session_key_package, acknowledge_then_activate,
  acknowledge_and_activate, activate_at, is_open, with_acknowledgement, locked_package,
  is_addressed, is_locked, or_not_found, with_sessions,
}
use harness_platform_monorep.Store.Sessions.{
  update_session, update_session_row, is_session_row, with_session,
}

-- The callback leaves the session active at the generation.
activate_at-active :
    (generation now : ℕ) (s : Session)
    → (activate_at generation now s).1 ≡ none
    → ((activate_at generation now s).0.status ≡ SessionStatus.active)
      × ((activate_at generation now s).0.current_key_generation ≡ generation)
unfolding activate
activate_at-active generation now s h = ground arith

update_row-ok :
    (mutate : Session → Outcome Session) (s : Session) (rows : List Session)
    → is_ok (update_session_row mutate s rows).1 ≡ true
    → ((mutate s).1 ≡ none)
      × (update_session_row mutate s rows
          ≡ (update_where (is_session_row s) (with_session (mutate s).0) rows, ok (mutate s).0))
unfolding update_session_row
update_row-ok mutate s rows h = ground arith

-- A session's update that succeeds answers with what the callback made of the session's row.
pub update_session-ok :
    (id : ℕ) (mutate : Session → Outcome Session) (rows : List Session)
    → is_ok (update_session id mutate rows).1 ≡ true
    → (s : Session) × (find (λ r. r.id == id) rows ≡ some s)
      × ((mutate s).1 ≡ none)
      × (update_session id mutate rows
          ≡ (update_where (is_session_row s) (with_session (mutate s).0) rows, ok (mutate s).0))
unfolding update_session
update_session-ok id mutate rows h = elim (Bool-cases (id == 0)) [
  | inl z ↦ absurd (ground arith)
  | inr z ↦ elim (Option-cases (find (λ r. r.id == id) rows)) [
    | inl x ↦ absurd (ground arith)
    | inr (s, x) ↦ elim (transaction_cases rows (update_session_row mutate s rows)) [
      | inr (failed, _) ↦ absurd (ground arith)
      | inl (fine, kept) ↦
          let (passed, result) = update_row-ok mutate s rows fine in
          (s, x, passed, (rw (z, x, kept) result))
    ]
  ]
]

activate_at-with_session :
    (generation now : ℕ) (s : Session)
    → with_session (activate_at generation now s).0 s ≡ (activate_at generation now s).0
unfolding activate
activate_at-with_session generation now s = ground arith

or_error-found :
    (o : Option SessionKeyPackage) (q : SessionKeyPackage)
    → or_error ErrorCode.not_found o ≡ ok q
    → (o ≡ some q)
or_error-found none q h = absurd (cc)
or_error-found (some a) q h = ap (λ r. elim r [ ok p ↦ some p | err _ ↦ some a ]) h

locked_session :
    (id session_id recipient : ℕ) (q : SessionKeyPackage)
    → is_locked id session_id recipient q ≡ true
    → session_id ≡ q.session_id
locked_session id session_id recipient q h = ground arith

locked_package-found :
    (id recipient : ℕ) (owner tenant : Text) (t : Tables) (q : SessionKeyPackage)
    → locked_package id recipient owner tenant t ≡ ok q
    → find (is_locked id q.session_id recipient) t.key_packages ≡ some q
unfolding locked_package
locked_package-found id recipient owner tenant t q h =
    let (c, _, h1) =
      or_error-eq-ok ErrorCode.not_found (find (is_addressed id recipient) t.key_packages) _ h in
    let (_, _, h2) = >>=-eq-ok (or_not_found (lock_session c.session_id owner tenant t)) _ h1 in
    let (_, h3) = guard-eq-ok _ ErrorCode.security_violation _ h2 in
    let (_, _, h4) = >>=-eq-ok (or_not_found (lock_endpoint recipient owner tenant t)) _ h3 in
    let (_, h5) = try_check-eq-ok _ _ h4 in
    let found = or_error-found (find (is_locked id c.session_id recipient) t.key_packages) _ h5 in
    let held = find-holds (is_locked id c.session_id recipient) t.key_packages found in
    let same : c.session_id ≡ q.session_id = locked_session id c.session_id recipient q held in
    subst (λ n. find (is_locked id n recipient) t.key_packages ≡ some q) same found

acknowledge_row_cases :
    (recipient now : ℕ) (q : SessionKeyPackage) (t : Tables)
    → is_ok (acknowledge_row recipient now q t).1 ≡ true
    → ((acknowledge_row recipient now q t).1 ≡ ok (acknowledge recipient now q).0)
      × ((acknowledge recipient now q).0.status ≡ KeyPackageStatus.acknowledged)
      × (((acknowledge_row recipient now q t).0 ≡ t) × ((acknowledge recipient now q).0 ≡ q)
          ⊎ ((acknowledge_row recipient now q t).0 ≡ record t {
            key_packages =
                update_where
                  (is_open q)
                  (with_acknowledgement (acknowledge recipient now q).0)
                  t.key_packages;
          })
            × (is_open q q ≡ true)
            × (with_acknowledgement (acknowledge recipient now q).0 q
                ≡ (acknowledge recipient now q).0))
unfolding acknowledge_row acknowledge
acknowledge_row_cases recipient now q t h = ground arith

-- What an acknowledgement without an error leaves: the package, acknowledged, in its row.
pub IsAcknowledged : ℕ → ℕ → SessionKeyPackage → Tables → Type 0
IsAcknowledged id recipient p t =
    (p.status ≡ KeyPackageStatus.acknowledged)
    × (find (is_locked id p.session_id recipient) t.key_packages ≡ some p)

acknowledge_session_id :
    (recipient now : ℕ) (q : SessionKeyPackage)
    → (acknowledge recipient now q).0.session_id ≡ q.session_id
unfolding acknowledge
acknowledge_session_id recipient now q = ground arith

row-IsAcknowledged :
    (id recipient now : ℕ) (q : SessionKeyPackage) (t : Tables)
    → find (is_locked id q.session_id recipient) t.key_packages ≡ some q
    → is_ok (acknowledge_row recipient now q t).1 ≡ true
    → IsAcknowledged id recipient
        (acknowledge recipient now q).0
        (acknowledge_row recipient now q t).0
unfolding IsAcknowledged
row-IsAcknowledged id recipient now q t found h =
    let (_, status, tables) = acknowledge_row_cases recipient now q t h in
    (
      status,
      elim tables [
        | inl (same, unchanged) ↦ rw (same, unchanged) found
        | inr (written, open_row, row) ↦
            rw
              (
                acknowledge_session_id recipient now q,
                written,
                find-update_where (is_open q) (is_locked id q.session_id recipient)
                    (with_acknowledgement (acknowledge recipient now q).0) t.key_packages
                    (λ r. refl),
                found,
                open_row,
              )
              (ap some row)
      ],
    )

acknowledge_found :
    (id recipient now : ℕ) (owner tenant : Text) (t : Tables) (q : SessionKeyPackage)
    → (is_empty (trim_space owner) || id == 0 || recipient == 0 || now == 0) ≡ false
    → locked_package id recipient (trim_space owner) (trim_space tenant) t ≡ ok q
    → acknowledge_session_key_package id recipient owner tenant now t
      ≡ transaction t (acknowledge_row recipient now q t)
unfolding acknowledge_session_key_package acknowledge_locked
acknowledge_found id recipient now owner tenant t q g x = ground arith

acknowledged :
    (id recipient now : ℕ) (owner tenant : Text) (t : Tables)
    → is_ok (acknowledge_session_key_package id recipient owner tenant now t).1 ≡ true
    → (p : SessionKeyPackage) × ((acknowledge_session_key_package id recipient owner tenant now t).1
        ≡ ok p)
      × IsAcknowledged id recipient p
          (acknowledge_session_key_package id recipient owner tenant now t).0
unfolding acknowledge_session_key_package acknowledge_locked
acknowledged id recipient now owner tenant t h =
    elim (Bool-cases (is_empty (trim_space owner) || id == 0 || recipient == 0 || now == 0)) [
      | inl g ↦ absurd (ground arith)
      | inr g ↦
          elim (Result-cases
            (locked_package id recipient (trim_space owner) (trim_space tenant) t)) [
              | inr (e, x) ↦ absurd (ground arith)
              | inl (q, x) ↦
                  let same = acknowledge_found id recipient now owner tenant t q g x in
                  elim (transaction_cases t (acknowledge_row recipient now q t)) [
                    | inr (failed, _) ↦ absurd (ground arith)
                    | inl (fine, kept) ↦ (
                      (acknowledge recipient now q).0,
                      ap (λ r. r.1) (same ∙ kept)
                          ∙ (acknowledge_row_cases recipient now q t fine).0,
                      rw (same, kept)
                          (row-IsAcknowledged id recipient now q t
                            (locked_package-found id recipient (trim_space owner)
                              (trim_space tenant) t q x)
                            fine),
                    )
                  ]
            ]
    ]

activated_row :
    (id generation now : ℕ) (s : Session) (rows : List Session)
    → find (λ r. r.id == id) rows ≡ some s
    → find
        (λ r. r.id == id)
        (update_where (is_session_row s) (with_session (activate_at generation now s).0) rows)
      ≡ some (activate_at generation now s).0
activated_row id generation now s rows found =
    let self : is_session_row s s ≡ true = ground arith in
    rw
      (
        find-update_where (is_session_row s) (λ r. r.id == id)
            (with_session (activate_at generation now s).0) rows (λ r. refl),
        found,
        self,
      )
      (ap some (activate_at-with_session generation now s))

-- The session's row after an update that succeeds.
update_session-found :
    (id generation now : ℕ) (rows : List Session)
    → is_ok (update_session id (activate_at generation now) rows).1 ≡ true
    → (s : Session) × ((update_session id (activate_at generation now) rows).1 ≡ ok s)
      × (find (λ r. r.id == id) (update_session id (activate_at generation now) rows).0 ≡ some s)
      × (s.status ≡ SessionStatus.active)
      × (s.current_key_generation ≡ generation)
update_session-found id generation now rows h =
    let (s, found, passed, result) = update_session-ok id (activate_at generation now) rows h in
    let (active, current) = activate_at-active generation now s passed in
    (
      (activate_at generation now s).0,
      ap (λ r. r.1) result,
      ap (λ r. find (λ r'. r'.id == id) r.0) result ∙ activated_row id generation now s rows found,
      active,
      current,
    )

then_update :
    (id recipient : ℕ) (owner tenant : Text) (now : ℕ) (t : Tables) (p : SessionKeyPackage)
    → (acknowledge_session_key_package id recipient owner tenant now t).1 ≡ ok p
    → let t' = (acknowledge_session_key_package id recipient owner tenant now t).0 in
      acknowledge_then_activate id recipient owner tenant now t
      ≡ with_sessions t' (update_session p.session_id (activate_at p.generation now) t'.sessions)
unfolding acknowledge_then_activate
then_update id recipient owner tenant now t p h = ground arith

refused_no_update :
    (id recipient : ℕ) (owner tenant : Text) (now : ℕ) (t : Tables)
    → is_ok (acknowledge_session_key_package id recipient owner tenant now t).1 ≡ false
    → is_ok (acknowledge_then_activate id recipient owner tenant now t).1 ≢ true
unfolding acknowledge_then_activate
refused_no_update id recipient owner tenant now t refused fine =
    elim (Result-cases (acknowledge_session_key_package id recipient owner tenant now t).1) [
      | inl (p, x) ↦ ground arith
      | inr (e, x) ↦ ground arith
    ]

-- The acknowledgement of a key package that activates its session does both or nothing. Either it
-- fails and the tables are as they were, or the package with the given identifier and recipient is
-- acknowledged in its row, and the row of its session, which is the answer, is active at the
-- package's generation.
pub acknowledge_and_activate_atomic :
    (id recipient : ℕ) (owner tenant : Text) (now : ℕ) (t : Tables)
    → let r = acknowledge_and_activate id recipient owner tenant now t in
      ((is_ok r.1 ≡ false) × (r.0 ≡ t))
      ⊎ ((p : SessionKeyPackage) × (s : Session) × (r.1 ≡ ok s)
          × IsAcknowledged id recipient p r.0
          × (find (λ x. x.id == p.session_id) r.0.sessions ≡ some s)
          × (s.status ≡ SessionStatus.active)
          × (s.current_key_generation ≡ p.generation))
unfolding acknowledge_and_activate IsAcknowledged
acknowledge_and_activate_atomic id recipient owner tenant now t =
    elim (transaction_cases t (acknowledge_then_activate id recipient owner tenant now t)) [
      | inr (failed, undone) ↦ inl (failed, undone)
      | inl (fine, kept) ↦
          elim (Bool-cases
            (is_ok (acknowledge_session_key_package id recipient owner tenant now t).1)) [
              | inr refused ↦
                  absurd (refused_no_update id recipient owner tenant now t refused fine)
              | inl accepted ↦
                  let t' = (acknowledge_session_key_package id recipient owner tenant now t).0 in
                  let (p, answer, row) = acknowledged id recipient now owner tenant t accepted in
                  let same = then_update id recipient owner tenant now t p answer in
                  let (s, result, found, active, current) =
                    update_session-found p.session_id p.generation now t'.sessions
                      (rw same at fine) in
                  inr (
                    p,
                    s,
                    ap (λ r. r.1) (kept ∙ same) ∙ result,
                    rw (kept, same) row,
                    rw (kept, same) found,
                    active,
                    current,
                  )
            ]
    ]
