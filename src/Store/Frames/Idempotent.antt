-- ===== src/Store/Frames/Idempotent.antt =====
-- store/repository.go: storing a frame is idempotent, and never overwrites another frame.
use harness_platform_monorep.Prelude.{
  ℕ, ◌≡◌, refl, ap, ◌∙◌, ◌⊎◌, inl, inr, Bool, true, false, Option, none, some, List, [], ◌∷◌, map,
  arith, ◌==◌, if◌then◌else◌, Bool-cases, Option-cases, text_eq_refl,
}
use harness_platform_monorep.Domain.Problem.{ErrorCode}
use harness_platform_monorep.Domain.Frame.{EncryptedFrame, FrameStatus, is_status, validate}
use harness_platform_monorep.Store.Table.{Result, ok, err, is_ok, update_where, absent}
use harness_platform_monorep.Store.Frames.{
  PutFrameOutcome, stored, duplicate, same_frame, clashes, first_by_key, as_conflict, put_row,
  put_frame,
}

-- The primary key and the unique index.
abbrev pub IsUnique : List EncryptedFrame → Type 0
IsUnique [] = Unit
IsUnique (f ∷ fs) = (absent (clashes f) fs ≡ true) × IsUnique fs

absent-update :
    (f : EncryptedFrame) (p : EncryptedFrame → Bool) (fs : List EncryptedFrame)
    → absent (clashes f) (update_where p as_conflict fs) ≡ absent (clashes f) fs
unfolding absent update_where
absent-update f p [] = refl
absent-update f p (g ∷ fs) = ground (arith, absent-update f p fs)

update-IsUnique :
    (p : EncryptedFrame → Bool) (fs : List EncryptedFrame)
    → IsUnique fs
    → IsUnique (update_where p as_conflict fs)
unfolding update_where
update-IsUnique p [] u = tt
update-IsUnique p (f ∷ fs) u = elim (Bool-cases (p f)) [
  | inl e ↦ rw e (absent-update f p fs ∙ u.0, update-IsUnique p fs u.1)
  | inr e ↦ rw e (absent-update f p fs ∙ u.0, update-IsUnique p fs u.1)
]

put_row-IsUnique :
    (f : EncryptedFrame) (rows : List EncryptedFrame) → IsUnique rows → IsUnique (put_row f rows).0
unfolding put_row
put_row-IsUnique f rows u = elim (Bool-cases (absent (clashes f) rows)) [
  | inl e ↦ rw e (e, u)
  | inr e ↦ rw e (marked (first_by_key (clashes f) rows))
]
  where
    marked :
        (o : Option EncryptedFrame)
        → IsUnique
            (elim o as (λ _. List EncryptedFrame × Result PutFrameOutcome) [
              | none ↦ (rows, err ErrorCode.not_found)
              | some existing ↦ if same_frame existing f then (rows, ok duplicate) else (
                update_where (λ r. r.message_id == existing.message_id) as_conflict rows,
                err ErrorCode.conflict,
              )
            ]).0
    marked none = u
    marked (some x) = elim (Bool-cases (same_frame x f)) [
      | inl e ↦ rw e u
      | inr e ↦ rw e (update-IsUnique (λ r. r.message_id == x.message_id) rows u)
    ]

pub put_frame_cases :
    (f : EncryptedFrame) (max : ℕ) (rows : List EncryptedFrame)
    → (((put_frame f max rows).0 ≡ rows) × (is_ok (put_frame f max rows).1 ≡ false))
      ⊎ ((validate max f ≡ none)
          × (is_status f.status FrameStatus.stored ≡ true)
          × (put_frame f max rows ≡ put_row f rows))
unfolding put_frame
put_frame_cases f max rows = elim (Option-cases (validate max f)) [
  | inr (x, e) ↦ inl (ground arith, ground arith)
  | inl e ↦ elim (Bool-cases (is_status f.status FrameStatus.stored)) [
    | inl s ↦ inr (e, s, ground arith)
    | inr s ↦ inl (ground arith, ground arith)
  ]
]

-- No call of `PutFrame` brings two rows with one message ID, or with one session, generation,
-- sender and sequence.
pub put_frame-IsUnique :
    (f : EncryptedFrame) (max : ℕ) (rows : List EncryptedFrame)
    → IsUnique rows
    → IsUnique (put_frame f max rows).0
put_frame-IsUnique f max rows u = elim (put_frame_cases f max rows) [
  | inl (e, _) ↦ rw e u
  | inr (_, _, e) ↦ rw e (put_row-IsUnique f rows u)
]

pub same_frame_refl : (f : EncryptedFrame) → same_frame f f ≡ true
unfolding same_frame
same_frame_refl f =
    ground (arith, text_eq_refl f.aad, text_eq_refl f.ciphertext, text_eq_refl f.signature)

absent-first_by_key :
    (p : EncryptedFrame → Bool) (fs : List EncryptedFrame)
    → absent p fs ≡ true
    → first_by_key p fs ≡ none
unfolding absent first_by_key
absent-first_by_key p [] h = refl
absent-first_by_key p (f ∷ fs) h = ground (arith, absent-first_by_key p fs)

put_row_stored :
    (f : EncryptedFrame) (rows : List EncryptedFrame)
    → absent (clashes f) rows ≡ true
    → put_row f (f ∷ rows) ≡ (f ∷ rows, ok duplicate)
unfolding put_row absent
put_row_stored f rows a = ground (arith, absent-first_by_key (clashes f) rows a, same_frame_refl f)

put_row_cases :
    (f : EncryptedFrame) (rows : List EncryptedFrame)
    → ((absent (clashes f) rows ≡ true) × (put_row f rows ≡ (f ∷ rows, ok stored)))
      ⊎ (put_row f rows ≡ (rows, ok duplicate))
      ⊎ (is_ok (put_row f rows).1 ≡ false)
unfolding put_row
put_row_cases f rows = ground arith

put_row_again :
    (f : EncryptedFrame) (rows : List EncryptedFrame)
    → is_ok (put_row f rows).1 ≡ true
    → put_row f (put_row f rows).0 ≡ ((put_row f rows).0, ok duplicate)
put_row_again f rows h = elim (put_row_cases f rows) [
  | inl (a, e) ↦ rw e (put_row_stored f rows a)
  | inr (inl e) ↦ rw (ap (λ r. r.0) e) e
  | inr (inr e) ↦ cc
]

pub put_frame-put_row :
    (f : EncryptedFrame) (max : ℕ) (rows : List EncryptedFrame)
    → validate max f ≡ none
    → is_status f.status FrameStatus.stored ≡ true
    → put_frame f max rows ≡ put_row f rows
unfolding put_frame
put_frame-put_row f max rows e s = ground arith

-- Storing is idempotent: once `PutFrame` has accepted a frame, a second call with the same frame is
-- a duplicate and changes no row.
pub put_frame_again :
    (f : EncryptedFrame) (max : ℕ) (rows : List EncryptedFrame)
    → is_ok (put_frame f max rows).1 ≡ true
    → put_frame f max (put_frame f max rows).0 ≡ ((put_frame f max rows).0, ok duplicate)
put_frame_again f max rows h = elim (put_frame_cases f max rows) [
  | inl (_, e) ↦ cc
  | inr (v, s, e) ↦
      put_frame-put_row f max (put_frame f max rows).0 v s ∙ rw e (put_row_again f rows (rw e at h))
]

-- A row without its status: what the endpoints signed and sealed, and when it came.
abbrev pub content : EncryptedFrame → EncryptedFrame
content f = record f { status = FrameStatus.stored }

content-update :
    (p : EncryptedFrame → Bool) (rows : List EncryptedFrame)
    → map content (update_where p as_conflict rows) ≡ map content rows
unfolding update_where
content-update p [] = refl
content-update p (f ∷ fs) = ground (arith, content-update p fs)

put_row-content :
    (f : EncryptedFrame) (rows : List EncryptedFrame)
    → (map content (put_row f rows).0 ≡ map content rows)
      ⊎ (((put_row f rows).1 ≡ ok stored) × ((put_row f rows).0 ≡ f ∷ rows))
unfolding put_row
put_row-content f rows = elim (Option-cases (first_by_key (clashes f) rows)) [
  | inl e ↦ ground arith
  | inr (x, e) ↦ ground (arith, content-update (λ r. r.message_id == x.message_id) rows)
]

-- The store never overwrites: a call of `PutFrame` adds the frame and answers `STORED`, or leaves
-- every row as it is, but for the status of a row that it marks as a conflict.
pub put_frame-content :
    (f : EncryptedFrame) (max : ℕ) (rows : List EncryptedFrame)
    → (map content (put_frame f max rows).0 ≡ map content rows)
      ⊎ (((put_frame f max rows).1 ≡ ok stored) × ((put_frame f max rows).0 ≡ f ∷ rows))
put_frame-content f max rows = elim (put_frame_cases f max rows) [
  | inl (e, _) ↦ inl (ap (map content) e)
  | inr (_, _, e) ↦ rw e (put_row-content f rows)
]
