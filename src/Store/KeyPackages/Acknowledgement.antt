-- ===== src/Store/KeyPackages/Acknowledgement.antt =====
-- store/key_package.go: the acknowledgement of a key package, alone and with the activation of its
-- session in one transaction.
pub mod Activation
use harness_platform_monorep.Prelude.{
  ℕ, zero, suc, ◌+◌, ◌-◌, ◌*◌, ◌/◌, ◌%◌, ◌^◌, ◌≤◌, ◌<◌, ◌≡◌, refl, sym, ap, ◌∙◌, ◌≢◌, ◌↔◌, ◌⊎◌, inl,
  inr, Bool, true, false, not, ◌&&◌, ◌||◌, Option, none, some, List, [], ◌∷◌, ◌++◌, map, arith, ltb,
  leb, ◌==◌, if◌then◌else◌, u64_mod, u64_inc, ltb→lt, lt→ltb, leb→le, ==_iff, Bool-cases,
  Option-cases, is_some, is_none, length, take, drop, replicate, length-append, length-take-le,
  keep, any, all, All, All-append, Text, text, text_eq, text_eq_refl, text_eq→eq, is_empty,
  byte_len, trim_space, trim_space_twice, trim_space-unspaced, byte_len-ascii, is_space,
}
use harness_platform_monorep.Domain.Problem.{ErrorCode, Outcome, done}
use harness_platform_monorep.Domain.Session
use harness_platform_monorep.Domain.Session.{Session, SessionStatus}
use harness_platform_monorep.Domain.Credential.{SessionKeyPackage, KeyPackageStatus}
use harness_platform_monorep.Domain.KeyPackage
use harness_platform_monorep.Store.Table.{
  Result, ok, err, ◌>>=◌, ◌>>◌, guard, try_check, or_error, transaction, find, update_where,
  affected, and_then,
}
use harness_platform_monorep.Store.Revocation.{Tables}
use harness_platform_monorep.Store.KeyPackages
use harness_platform_monorep.Store.KeyPackages.{lock_session, lock_endpoint, require_active}
use harness_platform_monorep.Store.Sessions
use harness_platform_monorep.Store.Sessions.{update_session}

-- The condition of the unlocked read.
abbrev pub is_addressed : ℕ → ℕ → SessionKeyPackage → Bool
is_addressed id recipient p = p.id == id && p.recipient_hc_endpoint_id == recipient

-- The condition of the locked read.
abbrev pub is_locked : ℕ → ℕ → ℕ → SessionKeyPackage → Bool
is_locked id session_id recipient p =
    p.id == id && p.session_id == session_id && p.recipient_hc_endpoint_id == recipient

-- An error that the caller replaces by `CodeNotFound`.
abbrev pub or_not_found {ℓ} : {A : Type ℓ} → Result A → Result A
or_not_found (ok a) = ok a
or_not_found (err e) = err ErrorCode.not_found

-- The reads and tests of the transaction, up to the locked package.
unfoldable pub locked_package : ℕ → ℕ → Text → Text → Tables → Result SessionKeyPackage
locked_package id recipient owner tenant t = do
  candidate ← or_error ErrorCode.not_found (find (is_addressed id recipient) t.key_packages)
  s ← or_not_found (lock_session candidate.session_id owner tenant t)
  guard (s.hc_endpoint_id == recipient) ErrorCode.security_violation
  e ← or_not_found (lock_endpoint recipient owner tenant t)
  try_check (require_active e.status)
  or_error ErrorCode.not_found (find (is_locked id candidate.session_id recipient) t.key_packages)

-- The condition of the update, and the columns that it writes.
abbrev pub is_open : SessionKeyPackage → SessionKeyPackage → Bool
is_open p r =
    r.id == p.id
    && (KeyPackage.is_package_status r.status KeyPackageStatus.pending
        || KeyPackage.is_package_status r.status KeyPackageStatus.delivered)

abbrev pub with_acknowledgement : SessionKeyPackage → SessionKeyPackage → SessionKeyPackage
with_acknowledgement p' r = record r { status = p'.status; acknowledged_at = p'.acknowledged_at }

-- The transaction, from the locked package on.
unfoldable pub acknowledge_row :
    ℕ → ℕ → SessionKeyPackage → Tables → Tables × Result SessionKeyPackage
acknowledge_row recipient now p t =
    let (p', error) = KeyPackage.acknowledge recipient now p in
    elim error [
      | some e ↦ (t, err e)
      | none ↦
          if KeyPackage.is_package_status p.status KeyPackageStatus.acknowledged
          then (t, ok p')
          else (let t' = record t {
            key_packages = update_where (is_open p) (with_acknowledgement p') t.key_packages;
          } in
              if not (affected (is_open p) t.key_packages == 1)
              then (t', err ErrorCode.conflict)
              else (t', ok p'))
    ]

unfoldable pub acknowledge_locked :
    ℕ → ℕ → ℕ → Text → Text → Tables → Tables × Result SessionKeyPackage
acknowledge_locked id recipient now owner tenant t =
    elim (locked_package id recipient owner tenant t) [
      | err e ↦ (t, err e)
      | ok p ↦ acknowledge_row recipient now p t
    ]

-- `Store.AcknowledgeSessionKeyPackage`.
unfoldable pub acknowledge_session_key_package :
    ℕ → ℕ → Text → Text → ℕ → Tables → Tables × Result SessionKeyPackage
acknowledge_session_key_package id recipient owner tenant now t =
    if is_empty (trim_space owner) || id == 0 || recipient == 0 || now == 0
    then (t, err ErrorCode.invalid_argument)
    else transaction t
        (acknowledge_locked id recipient now (trim_space owner) (trim_space tenant) t)

-- The callback of the session's update.
abbrev pub activate_at : ℕ → ℕ → Session → Outcome Session
activate_at generation now s =
    if Session.is_status s.status SessionStatus.active && s.current_key_generation == generation
    then done s
    else Session.activate generation now s

abbrev pub with_sessions {ℓ} : {A : Type ℓ} → Tables → List Session × Result A → Tables × Result A
with_sessions t (rows, r) = (record t { sessions = rows }, r)

unfoldable pub acknowledge_then_activate :
    ℕ → ℕ → Text → Text → ℕ → Tables → Tables × Result Session
acknowledge_then_activate id recipient owner tenant now t =
    and_then (acknowledge_session_key_package id recipient owner tenant now t) (λ p t'.
      with_sessions t' (update_session p.session_id (activate_at p.generation now) t'.sessions))

-- `Store.AcknowledgeAndActivateSessionKeyPackage`. A nested transaction that fails makes the whole
-- fail.
unfoldable pub acknowledge_and_activate : ℕ → ℕ → Text → Text → ℕ → Tables → Tables × Result Session
acknowledge_and_activate id recipient owner tenant now t =
    transaction t (acknowledge_then_activate id recipient owner tenant now t)
