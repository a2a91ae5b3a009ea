-- ===== src/Domain/ControlOutbox/Checks.antt =====
-- domain/control_outbox.go: the two checks, and completion between them.
use harness_platform_monorep.Prelude.{ℕ, ◌≤◌, ◌<◌, ◌≡◌, ◌⊎◌, none, arith, length}
use harness_platform_monorep.Domain.ControlOutbox.{
  ControlOutbox, validate_new, validate_stored, complete,
}

-- What `ValidateNew` accepts may be stored: it passes `ValidateStored` under the same limits.
pub validate_new-stored :
    (m p : ℕ) (v : ControlOutbox) → validate_new m p v ≡ none → validate_stored m p v ≡ none
unfolding validate_new validate_stored
validate_new-stored m p v h = ground arith

-- Completion, whether it succeeds or not, leaves an entry that passes `ValidateStored` one that does.
pub complete-stored :
    (m p now : ℕ) (v : ControlOutbox)
    → validate_stored m p v ≡ none
    → validate_stored m p (complete now v).0 ≡ none
unfolding validate_stored complete
complete-stored m p now v h = ground arith

-- Completing twice is completing once: the first completion's time is kept.
pub complete_twice :
    (now later : ℕ) (v : ControlOutbox)
    → 0 < later
    → (complete now v).1 ≡ none
    → complete later (complete now v).0 ≡ ((complete now v).0, none)
unfolding complete
complete_twice now later v p h = ground arith

-- Exactly one of payload and packet is present in a new entry.
pub validate_new_content :
    (m p : ℕ) (v : ControlOutbox)
    → validate_new m p v ≡ none
    → ((length v.payload ≡ 0) × (0 < length v.packet) × (length v.packet ≤ p))
      ⊎ ((length v.packet ≡ 0) × (0 < length v.payload) × (length v.payload ≤ m))
unfolding validate_new
validate_new_content m p v h = ground arith
