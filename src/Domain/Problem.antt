-- ===== src/Domain/Problem.antt =====
-- domain/errors.go: a `Problem` is kept by its code; the message and the cause are left out.
-- A method that changes its receiver returns the new receiver beside its `error`.
use harness_platform_monorep.Prelude.{Option, none, some}

pub data ErrorCode : Type 0 where
  invalid_argument invalid_state conflict expired revoked not_found : ErrorCode
  resource_limit security_violation : ErrorCode

abbrev pub Outcome : Type 0 → Type 0
Outcome S = S × Option ErrorCode

abbrev pub done : {S : Type 0} → S → Outcome S
done s = (s, none)

abbrev pub fail : {S : Type 0} → S → ErrorCode → Outcome S
fail s code = (s, some code)

-- The guard that opens every method of state.go: a nil receiver is an invalid argument.
abbrev pub on_receiver : {S : Type 0} → (S → Outcome S) → Option S → Outcome (Option S)
on_receiver method none = fail none invalid_argument
on_receiver method (some s) = (some (method s).0, (method s).1)
