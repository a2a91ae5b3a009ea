-- ===== src/Domain/Frame/Delivery.antt =====
-- domain/state.go: what every sequence of method calls keeps of a frame.
use harness_platform_monorep.Prelude.{ℕ, ◌≤◌, ◌≡◌, refl, List, [], ◌∷◌, arith}
use harness_platform_monorep.Domain.Frame.{EncryptedFrame, FrameStatus, Op, step}

-- A sequence of calls, each with its time; a failed call is not repeated.
unfoldable pub run : List (Op × ℕ) → EncryptedFrame → EncryptedFrame
run [] f = f
run ((op, now) ∷ calls) f = run calls (step op now f).0

-- How far the delivery has come; no call goes back.
abbrev pub stage : FrameStatus → ℕ
stage FrameStatus.stored = 0
stage FrameStatus.routed = 1
stage FrameStatus.unknown = 0
stage _ = 2

stage-step :
    (op : Op) (now : ℕ) (f : EncryptedFrame) → stage f.status ≤ stage (step op now f).0.status
unfolding step
stage-step op now f = ground arith

-- Delivery only goes forward: over any sequence of calls a frame's stage (stored, routed, then final)
-- never falls.
pub stage-run :
    (calls : List (Op × ℕ)) (f : EncryptedFrame) → stage f.status ≤ stage (run calls f).status
unfolding run
stage-run [] f = omega arith
stage-run ((op, now) ∷ calls) f =
    omega (arith, stage-step op now f, stage-run calls (step op now f).0)

step_acknowledged :
    (op : Op) (now : ℕ) (f : EncryptedFrame)
    → f.status ≡ FrameStatus.receiver_acknowledged
    → (step op now f).0 ≡ f
unfolding step
step_acknowledged op now f h = ground arith

-- An acknowledged frame never changes again; no conflict can be marked on it.
pub run_acknowledged :
    (calls : List (Op × ℕ)) (f : EncryptedFrame)
    → f.status ≡ FrameStatus.receiver_acknowledged
    → run calls f ≡ f
unfolding run
run_acknowledged [] f h = refl
run_acknowledged ((op, now) ∷ calls) f h =
    rw (step_acknowledged op now f h) (run_acknowledged calls f h)
