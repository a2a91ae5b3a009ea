-- ===== src/Store/Frames/Kept.antt =====
-- store/repository.go: a frame under sequences of calls of `PutFrame`.
use harness_platform_monorep.Prelude.{
  ℕ, ◌≡◌, sym, ap, ◌∙◌, inl, inr, true, false, List, [], ◌∷◌, arith,
}
use harness_platform_monorep.Domain.Frame.{EncryptedFrame}
use harness_platform_monorep.Store.Table.{is_ok}
use harness_platform_monorep.Store.Frames.{same_frame, put_frame}
use harness_platform_monorep.Store.Frames.Idempotent.{IsUnique, put_frame-IsUnique, put_frame_cases}
use harness_platform_monorep.Store.Frames.Slots.{
  put_row_taken, put_row-Holds, put_frame_keeps, IsRival, Holds,
}

-- The table after a sequence of calls.
unfoldable pub run : ℕ → List EncryptedFrame → List EncryptedFrame → List EncryptedFrame
run max [] rows = rows
run max (g ∷ calls) rows = run max calls (put_frame g max rows).0

run-IsUnique :
    (max : ℕ) (calls rows : List EncryptedFrame) → IsUnique rows → IsUnique (run max calls rows)
unfolding run
run-IsUnique max [] rows u = u
run-IsUnique max (g ∷ calls) rows u =
    run-IsUnique max calls (put_frame g max rows).0 (put_frame-IsUnique g max rows u)

run_keeps :
    (f : EncryptedFrame) (max : ℕ) (calls rows : List EncryptedFrame)
    → Holds f rows
    → Holds f (run max calls rows)
unfolding run
run_keeps f max [] rows h = h
run_keeps f max (g ∷ calls) rows h =
    run_keeps f max calls (put_frame g max rows).0 (put_frame_keeps f g max rows h)

-- A message identifier and a place in a sender's sequence belong to the frame that was accepted
-- first. Once `PutFrame` has accepted a frame, after any earlier and later calls from the empty
-- table, a row still holds that frame; and a call with a frame that claims its message identifier,
-- or its session, generation, sender and sequence, but differs from it, is refused, and leaves a
-- row that holds the first.
pub first_frame_kept :
    (f g : EncryptedFrame) (max : ℕ) (earlier later : List EncryptedFrame)
    → is_ok (put_frame f max (run max earlier [])).1 ≡ true
    → IsRival f g
    → same_frame f g ≡ false
    → let rows = run max later (put_frame f max (run max earlier [])).0 in
      Holds f rows × (is_ok (put_frame g max rows).1 ≡ false) × Holds f (put_frame g max rows).0
first_frame_kept f g max earlier later accepted rival other =
    let before = run max earlier [] in
    let unique = run-IsUnique max earlier [] tt in
    let first : Holds f (put_frame f max before).0 = elim (put_frame_cases f max before) [
      | inl (_, failed) ↦ absurd (ground (arith, failed, accepted))
      | inr (_, _, e) ↦ rw e (put_row-Holds f before (ap (λ r. is_ok r.1) (sym e) ∙ accepted))
    ] in
    let rows = run max later (put_frame f max before).0 in
    let held = run_keeps f max later (put_frame f max before).0 first in
    let only =
      run-IsUnique max later (put_frame f max before).0 (put_frame-IsUnique f max before unique) in
    (
      held,
      elim (put_frame_cases g max rows) [
        | inl (_, failed) ↦ failed
        | inr (_, _, e) ↦ ap (λ r. is_ok r.1) e ∙ put_row_taken f g rows only held rival other
      ],
      put_frame_keeps f g max rows held,
    )
