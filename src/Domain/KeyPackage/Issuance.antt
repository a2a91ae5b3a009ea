-- ===== src/Domain/KeyPackage/Issuance.antt =====
-- domain/key_package_security.go: a package is issued for the generation that the session takes
-- next, and its acknowledgement keeps it valid.
use harness_platform_monorep.Prelude.{ℕ, suc, ◌≤◌, ◌<◌, ◌≡◌, ◌≢◌, none, arith, u64_mod}
use harness_platform_monorep.Domain.Session
use harness_platform_monorep.Domain.Session.{Session, SessionStatus}
use harness_platform_monorep.Domain.Credential.{SessionKeyPackage}
use harness_platform_monorep.Domain.KeyPackage.{validate_next_generation, validate, acknowledge}

-- A generation that is accepted for a key package is the successor of the session's, below the
-- limit of 64 bits, and the session activates with it: its generation becomes the package's.
pub validate_next_generation-activate :
    (generation now : ℕ) (s : Session)
    → validate_next_generation generation s ≡ none
    → s.current_key_generation < u64_mod
    → (generation ≡ suc s.current_key_generation)
      × (generation < u64_mod)
      × ((Session.activate generation now s).1 ≡ none)
      × ((Session.activate generation now s).0.current_key_generation ≡ generation)
unfolding validate_next_generation Session.activate
validate_next_generation-activate generation now s h bound = ground arith

-- An activated session accepts no package: of the package's generation or any other.
pub activate-validate_next_generation :
    (generation now other : ℕ) (s : Session)
    → (Session.activate generation now s).1 ≡ none
    → validate_next_generation other (Session.activate generation now s).0 ≢ none
unfolding validate_next_generation Session.activate
activate-validate_next_generation generation now other s h k = ground arith

-- A valid package stays valid when its recipient acknowledges it, at a time not before its
-- creation, whether the acknowledgement succeeds or not.
pub acknowledge-validate :
    (max_key max_text recipient now : ℕ) (p : SessionKeyPackage)
    → validate max_key max_text p ≡ none
    → p.created_at ≤ now
    → validate max_key max_text (acknowledge recipient now p).0 ≡ none
unfolding validate acknowledge
acknowledge-validate max_key max_text recipient now p h t = ground arith

-- A second acknowledgement by the recipient, at any later time, changes nothing and succeeds.
pub acknowledge_twice :
    (recipient now later : ℕ) (p : SessionKeyPackage)
    → (acknowledge recipient now p).1 ≡ none
    → acknowledge recipient later (acknowledge recipient now p).0
      ≡ ((acknowledge recipient now p).0, none)
unfolding acknowledge
acknowledge_twice recipient now later p h = ground arith
