-- ===== src/Store/Frames/Acknowledged.antt =====
-- store/repository.go: how a reuse with other content treats a frame that was acknowledged.
use mathlib.Core.List.{Memᴰ}
use mathlib.Core.List.Memᴰ.{head, tail}
use harness_platform_monorep.Prelude.{
  ℕ, ◌≡◌, refl, sym, ap, ◌∙◌, ◌≢◌, inl, inr, true, false, none, some, List, [], ◌∷◌, arith, ◌==◌,
  Option-cases,
}
use harness_platform_monorep.Domain.Problem.{ErrorCode}
use harness_platform_monorep.Domain.Frame.{EncryptedFrame, FrameStatus, validate, mark_conflict}
use harness_platform_monorep.Store.Table.{err, find, find-holds, find-update_where}
use harness_platform_monorep.Store.Frames.{
  same_frame, clashes, first_by_key, as_conflict, put_frame,
}
use harness_platform_monorep.Store.Frames.Idempotent.{IsUnique, put_frame-put_row}
use harness_platform_monorep.Store.Frames.Slots.{
  mem-find, first_by_key-holds, mem-IsUnique, put_row_refused, taken,
}

unfound_taken :
    (f x : EncryptedFrame) (rows : List EncryptedFrame)
    → Memᴰ x rows
    → clashes f x ≡ true
    → first_by_key (clashes f) rows ≢ none
unfolding first_by_key
unfound_taken f x [] m c = elim m [ ]
unfound_taken f x (y ∷ rows) (head e) c = λ h. ground (arith, ap (clashes f) e)
unfound_taken f x (y ∷ rows) (tail m) c = λ h. unfound_taken f x rows m c (ground arith)

-- What claims a key of the frame claims one of the row that has both its keys.
same_place :
    (x f y : EncryptedFrame)
    → (x.message_id == f.message_id) ≡ true
    → (x.session_id ≡ f.session_id)
      × (x.key_generation ≡ f.key_generation)
      × (x.sender_endpoint_id ≡ f.sender_endpoint_id)
      × (x.sequence ≡ f.sequence)
    → clashes f y ≡ true
    → clashes x y ≡ true
same_place x f y named slot met = ground arith

-- The store marks what the domain refuses to mark. In any table with unique keys where the row
-- under a frame's message identifier was acknowledged by its receiver, a call of `PutFrame` with a
-- valid frame of that identifier, session, generation, sender and sequence, but with other content,
-- answers a conflict and leaves the row with the status conflict, while `EncryptedFrame.Conflict`
-- answers an error for the row and does not change it.
pub put_frame_acknowledged :
    (f x : EncryptedFrame) (max : ℕ) (rows : List EncryptedFrame)
    → IsUnique rows
    → find (λ r. r.message_id == f.message_id) rows ≡ some x
    → x.status ≡ FrameStatus.receiver_acknowledged
    → (x.session_id ≡ f.session_id)
      × (x.key_generation ≡ f.key_generation)
      × (x.sender_endpoint_id ≡ f.sender_endpoint_id)
      × (x.sequence ≡ f.sequence)
    → same_frame x f ≡ false
    → validate max f ≡ none
    → f.status ≡ FrameStatus.stored
    → ((put_frame f max rows).1 ≡ err ErrorCode.conflict)
      × (find (λ r. r.message_id == f.message_id) (put_frame f max rows).0 ≡ some (as_conflict x))
      × (mark_conflict x ≡ (x, some ErrorCode.invalid_state))
unfolding mark_conflict
put_frame_acknowledged f x max rows u found status slot other valid new =
    let same = put_frame-put_row f max rows valid (rw new refl) in
    let member = mem-find (λ r. r.message_id == f.message_id) x rows found in
    let named = find-holds (λ r. r.message_id == f.message_id) rows found in
    let c : clashes f x ≡ true = ground arith in
    let a = taken f x rows member c in
    elim (Option-cases (first_by_key (clashes f) rows)) [
      | inl e ↦ absurd (unfound_taken f x rows member c e)
      | inr (y, e) ↦
          let (m, met) = first_by_key-holds (clashes f) y rows e in
          let one = mem-IsUnique x y rows u member m (same_place x f y named slot met) in
          let marked = put_row_refused f y rows a e (ap (λ r. same_frame r f) (sym one) ∙ other) in
          let updated =
            find-update_where (λ r. r.message_id == y.message_id)
              (λ r. r.message_id == f.message_id) as_conflict rows (λ r. refl) in
          let own : (x.message_id == y.message_id) ≡ true =
            ground (arith, ap (λ r. r.message_id) one) in
          (
            ap (λ r. r.1) (same ∙ marked),
            ap (λ r. find (λ x. x.message_id == f.message_id) r.0) (same ∙ marked)
                ∙ rw (updated, found, own) refl,
            ground arith,
          )
    ]
