-- ===== src/Domain/Session/Generation.antt =====
-- domain/state.go: the key generation of a session.
use harness_platform_monorep.Prelude.{
  ℕ, ◌<◌, ◌≡◌, ◌⊎◌, inl, inr, Option, none, some, List, [], ◌∷◌, arith, u64_inc, Option-cases,
}
use harness_platform_monorep.Domain.Problem.{ErrorCode}
use harness_platform_monorep.Domain.Session.{Session, Op, activate_op, step}

-- The generation that a call installs: that of an `Activate` which succeeds.
abbrev installed : Op → Option ErrorCode → Option ℕ
installed (activate_op generation) none = some generation
installed _ _ = none

step_generation_kept :
    (op : Op) (now : ℕ) (s : Session)
    → installed op (step op now s).1 ≡ none
    → (step op now s).0.current_key_generation ≡ s.current_key_generation
unfolding step
step_generation_kept op now s h = ground arith

step_generation_raised :
    (op : Op) (now : ℕ) (s : Session) {g : ℕ}
    → installed op (step op now s).1 ≡ some g
    → (s.current_key_generation < g) × ((step op now s).0.current_key_generation ≡ g)
unfolding step
step_generation_raised op now s h = ground arith

abbrev prepend : Option ℕ → List ℕ → List ℕ
prepend none gs = gs
prepend (some g) gs = g ∷ gs

-- The generations that a sequence of calls installs, in order.
pub generations : List (Op × ℕ) → Session → List ℕ
generations [] s = []
generations ((op, now) ∷ calls) s =
    let s' = step op now s in prepend (installed op s'.1) (generations calls s'.0)

-- Every number is larger than the one before it, the first larger than the bound.
abbrev pub Ascends : ℕ → List ℕ → Type 0
Ascends bound [] = Unit
Ascends bound (g ∷ gs) = (bound < g) × Ascends g gs

Ascends-generations_cons :
    (op : Op) (now : ℕ) (calls : List (Op × ℕ)) (s : Session)
    → Ascends (step op now s).0.current_key_generation (generations calls (step op now s).0)
    → Ascends s.current_key_generation (generations ((op, now) ∷ calls) s)
unfolding generations
Ascends-generations_cons op now calls s ih = elim (Option-cases (installed op (step op now s).1)) [
  | inl e ↦ rw e (rw (step_generation_kept op now s e) at ih)
  | inr (g, e) ↦
      rw e ((step_generation_raised op now s e).0, rw (step_generation_raised op now s e).1 at ih)
]

-- No key generation is ever installed twice: over any sequence of calls the generations that
-- `Activate` installs ascend strictly, from above the session's own.
pub generations-Ascends :
    (calls : List (Op × ℕ)) (s : Session) → Ascends s.current_key_generation (generations calls s)
unfolding generations
generations-Ascends [] s = tt
generations-Ascends ((op, now) ∷ calls) s =
    Ascends-generations_cons op now calls s (generations-Ascends calls (step op now s).0)

-- A call leaves the session whole, or raises its row version by one (modulo 2 ^ 64) and stamps it.
pub step_version :
    (op : Op) (now : ℕ) (s : Session)
    → ((step op now s).0 ≡ s)
      ⊎ (((step op now s).0.row_version ≡ u64_inc s.row_version)
          × ((step op now s).0.updated_at ≡ now)
          × ((step op now s).1 ≡ none))
unfolding step
step_version op now s = ground arith
