-- ===== src/Store/Acks/Monotone.antt =====
-- store/repository.go: a cursor never goes back.
use harness_platform_monorep.Prelude.{
  ℕ, ◌≤◌, ◌≡◌, refl, ◌∙◌, ◌⊎◌, inl, inr, true, false, Option, none, some, List, [], ◌∷◌, map, arith,
  if◌then◌else◌, Bool-cases, Option-cases,
}
use harness_platform_monorep.Domain.Credential.{AckCursor}
use harness_platform_monorep.Store.Table.{is_ok, find, update_where, find-holds, find-update_where}
use harness_platform_monorep.Store.Acks.{
  AckTables, same_key, as_row, is_row, raised, advance_ack_once, advance_ack,
}
use harness_platform_monorep.Store.Acks.Marking.{acknowledged_by, mark_acknowledged_frames-map}

-- The stored cursor reaches at least a sequence number.
abbrev pub IsAtLeast : ℕ → Option AckCursor → Type 0
IsAtLeast n none = ⊥
IsAtLeast n (some r) = n ≤ r.highest_contiguous_sequence

abbrev pub cursor_of : AckCursor → AckTables → Option AckCursor
cursor_of k t = find (same_key k) t.cursors

same_key-find :
    (k c x : AckCursor) (rows : List AckCursor)
    → same_key k x ≡ true
    → same_key c x ≡ true
    → find (same_key k) rows ≡ find (same_key c) rows
unfolding find
same_key-find k c x [] h h' = refl
same_key-find k c x (r ∷ rows) h h' = ground (arith, same_key-find k c x rows h h')

raise-IsAtLeast :
    (n : ℕ) (k c current : AckCursor) (rows : List AckCursor)
    → find (same_key c) rows ≡ some current
    → current.highest_contiguous_sequence ≤ c.highest_contiguous_sequence
    → IsAtLeast n (find (same_key k) rows)
    → IsAtLeast n (find (same_key k) (update_where (is_row current) (raised c current) rows))
raise-IsAtLeast n k c current rows found le h =
    rw (find-update_where (is_row current) (same_key k) (raised c current) rows (λ r. refl))
      (go (find (same_key k) rows) refl h)
  where
    go :
        (o : Option AckCursor)
        → find (same_key k) rows ≡ o
        → IsAtLeast n o
        → IsAtLeast n (elim o [
          | none ↦ none
          | some x ↦ some (if is_row current x then raised c current x else x)
        ])
    go none e h = h
    go (some x) e h = elim (Bool-cases (is_row current x)) [
      | inr other ↦ rw other h
      | inl hit ↦ ground (
        arith,
        find-holds (same_key k) rows e,
        find-holds (same_key c) rows found,
        same_key-find k c x rows,
      )
    ]

as_row-IsAtLeast :
    (n : ℕ) (k c : AckCursor) (rows : List AckCursor)
    → find (same_key c) rows ≡ none
    → IsAtLeast n (find (same_key k) rows)
    → IsAtLeast n (find (same_key k) (as_row 1 c ∷ rows))
unfolding find
as_row-IsAtLeast n k c rows missing h = elim (Option-cases (find (same_key k) rows)) [
  | inl e ↦ absurd (rw e at h)
  | inr (x, e) ↦ ground (arith, find-holds (same_key k) rows e, same_key-find k c x rows)
]

advance_once-IsAtLeast :
    (n : ℕ) (k c : AckCursor) (t : AckTables)
    → IsAtLeast n (cursor_of k t)
    → IsAtLeast n (cursor_of k (advance_ack_once c t).0)
unfolding advance_ack_once
advance_once-IsAtLeast n k c t h = elim (Option-cases (find (same_key c) t.cursors)) [
  | inl e ↦ rw (e, advance_ack_once) (as_row-IsAtLeast n k c t.cursors e h)
  | inr (current, e) ↦ ground (arith, raise-IsAtLeast n k c current t.cursors e)
]

same_key_refl : (c : AckCursor) → same_key c c ≡ true
same_key_refl c = ground arith

raised_self :
    (c current : AckCursor) (rows : List AckCursor)
    → find (same_key c) rows ≡ some current
    → find (same_key c) (update_where (is_row current) (raised c current) rows)
      ≡ some (raised c current current)
raised_self c current rows found =
    find-update_where (is_row current) (same_key c) (raised c current) rows (λ r. refl)
    ∙ rw found (ground arith)

as_row_self :
    (c : AckCursor) (rows : List AckCursor)
    → find (same_key c) (as_row 1 c ∷ rows) ≡ some (as_row 1 c)
unfolding find
as_row_self c rows = ground arith

advanced-IsAtLeast :
    (c : AckCursor) (t : AckTables)
    → is_ok (advance_ack_once c t).1 ≡ true
    → IsAtLeast c.highest_contiguous_sequence (cursor_of c (advance_ack_once c t).0)
unfolding advance_ack_once
advanced-IsAtLeast c t h = elim (Option-cases (find (same_key c) t.cursors)) [
  | inl e ↦ ground (arith, as_row_self c t.cursors)
  | inr (current, e) ↦ ground (arith, raised_self c current t.cursors e)
]

advance_ack_cases :
    (c : AckCursor) (t : AckTables)
    → ((advance_ack c t).0 ≡ t × (is_ok (advance_ack c t).1 ≡ false))
      ⊎ (advance_ack c t ≡ advance_ack_once c t)
unfolding advance_ack
advance_ack_cases c t = ground arith

advance_ack-IsAtLeast :
    (n : ℕ) (k c : AckCursor) (t : AckTables)
    → IsAtLeast n (cursor_of k t)
    → IsAtLeast n (cursor_of k (advance_ack c t).0)
advance_ack-IsAtLeast n k c t h = elim (advance_ack_cases c t) [
  | inl (e, _) ↦ rw e h
  | inr e ↦ rw e (advance_once-IsAtLeast n k c t h)
]

unfoldable pub run : List AckCursor → AckTables → AckTables
run [] t = t
run (c ∷ cs) t = run cs (advance_ack c t).0

run-IsAtLeast :
    (n : ℕ) (k : AckCursor) (cs : List AckCursor) (t : AckTables)
    → IsAtLeast n (cursor_of k t)
    → IsAtLeast n (cursor_of k (run cs t))
unfolding run
run-IsAtLeast n k [] t h = h
run-IsAtLeast n k (c ∷ cs) t h =
    run-IsAtLeast n k cs (advance_ack c t).0 (advance_ack-IsAtLeast n k c t h)

-- Acknowledgements never go back: after an `AdvanceAck` that is accepted, and any further ones, of
-- the same connection or others, the stored cursor is at least what it acknowledged.
pub advance_ack_monotone :
    (c : AckCursor) (later : List AckCursor) (t : AckTables)
    → is_ok (advance_ack c t).1 ≡ true
    → IsAtLeast c.highest_contiguous_sequence (cursor_of c (run later (advance_ack c t).0))
advance_ack_monotone c later t h =
    run-IsAtLeast c.highest_contiguous_sequence c later (advance_ack c t).0
      (elim (advance_ack_cases c t) [
        | inl (_, e) ↦ cc
        | inr e ↦ rw e (advanced-IsAtLeast c t (rw e at h))
      ])

-- The stored cursor, if there is one, is not beyond a sequence number.
abbrev pub IsAtMost : ℕ → Option AckCursor → Type 0
IsAtMost n none = Unit
IsAtMost n (some r) = r.highest_contiguous_sequence ≤ n

-- An `AdvanceAck` that is accepted and not behind the stored cursor acknowledges the frames that it
-- covers.
pub advance_ack-frames :
    (c : AckCursor) (t : AckTables)
    → is_ok (advance_ack c t).1 ≡ true
    → IsAtMost c.highest_contiguous_sequence (cursor_of c t)
    → (advance_ack c t).0.frames ≡ map (acknowledged_by c) t.frames
unfolding advance_ack_once
advance_ack-frames c t h m = elim (advance_ack_cases c t) [
  | inl (_, e) ↦ cc
  | inr e ↦ rw e (elim (Option-cases (find (same_key c) t.cursors)) [
    | inl f ↦ rw (f, advance_ack_once) (mark_acknowledged_frames-map c t.frames)
    | inr (current, f) ↦
        let le = rw f at m in ground (arith, mark_acknowledged_frames-map c t.frames, rw e at h)
  ])
]
