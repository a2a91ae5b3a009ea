-- ===== src/Store/Acks/Marking.antt =====
-- store/repository.go: the updates of an acknowledgement, described at once.
use harness_platform_monorep.Prelude.{
  ◌≡◌, refl, sym, ap, ◌∙◌, inl, inr, Bool, true, false, ◌&&◌, List, [], ◌∷◌, map, arith, ltb, leb,
  if◌then◌else◌, Bool-cases,
}
use harness_platform_monorep.Domain.Credential.{AckCursor}
use harness_platform_monorep.Domain.Frame.{EncryptedFrame}
use harness_platform_monorep.Gateway.Ranges.{SequenceRange, covered, in_ranges}
use harness_platform_monorep.Store.Table.{update_where}
use harness_platform_monorep.Store.Acks.{
  is_open_for, as_acknowledged, mark_ranges, mark_acknowledged_frames,
}

update_map :
    (p : EncryptedFrame → Bool) (f : EncryptedFrame → EncryptedFrame) (xs : List EncryptedFrame)
    → update_where p f xs ≡ map (λ x. if p x then f x else x) xs
unfolding update_where
update_map p f [] = refl
update_map p f (x ∷ xs) = rw (update_map p f xs)

-- What becomes of one frame, by one description: it is acknowledged if it is open for the cursor
-- and covered by it.
abbrev pub acknowledged_by : AckCursor → EncryptedFrame → EncryptedFrame
acknowledged_by c f =
    if is_open_for c f && covered f.sequence c.highest_contiguous_sequence c.received_ranges
    then as_acknowledged c.updated_at f
    else f

abbrev by_ranges : AckCursor → List SequenceRange → EncryptedFrame → EncryptedFrame
by_ranges c rs f =
    if is_open_for c f && in_ranges f.sequence rs then as_acknowledged c.updated_at f else f

by_ranges_cons :
    (c : AckCursor) (r : SequenceRange) (rs : List SequenceRange) (f : EncryptedFrame)
    → by_ranges c rs (
        if is_open_for c f && leb r.start f.sequence && leb f.sequence r.end
        then as_acknowledged c.updated_at f
        else f)
      ≡ by_ranges c (r ∷ rs) f
unfolding in_ranges
by_ranges_cons c r rs f = ground arith

map_twice :
    (g h k : EncryptedFrame → EncryptedFrame) (xs : List EncryptedFrame)
    → ((x : EncryptedFrame) → g (h x) ≡ k x)
    → map g (map h xs) ≡ map k xs
map_twice g h k [] e = refl
map_twice g h k (x ∷ xs) e = ground (arith, e x, map_twice g h k xs e)

map_same :
    (g : EncryptedFrame → EncryptedFrame) (xs : List EncryptedFrame)
    → ((x : EncryptedFrame) → g x ≡ x)
    → map g xs ≡ xs
map_same g [] e = refl
map_same g (x ∷ xs) e = ground (arith, e x, map_same g xs e)

map_ext :
    (g h : EncryptedFrame → EncryptedFrame) (xs : List EncryptedFrame)
    → ((x : EncryptedFrame) → g x ≡ h x)
    → map g xs ≡ map h xs
map_ext g h [] e = refl
map_ext g h (x ∷ xs) e = ground (arith, e x, map_ext g h xs e)

mark_ranges-map :
    (c : AckCursor) (rs : List SequenceRange) (xs : List EncryptedFrame)
    → mark_ranges c rs xs ≡ map (by_ranges c rs) xs
unfolding mark_ranges in_ranges
mark_ranges-map c [] xs = sym (map_same (by_ranges c []) xs (λ x. ground arith))
mark_ranges-map c (r ∷ rs) xs =
    mark_ranges-map c rs _
    ∙ ap (map (by_ranges c rs)) (
        update_map (λ f. is_open_for c f && leb r.start f.sequence && leb f.sequence r.end)
          (as_acknowledged c.updated_at) xs)
    ∙ map_twice _ _ _ xs (by_ranges_cons c r rs)

contiguous_then_ranges :
    (c : AckCursor) (f : EncryptedFrame)
    → ltb 0 c.highest_contiguous_sequence ≡ true
    → by_ranges c c.received_ranges (
        if is_open_for c f && leb f.sequence c.highest_contiguous_sequence
        then as_acknowledged c.updated_at f
        else f)
      ≡ acknowledged_by c f
unfolding covered
contiguous_then_ranges c f h = ground arith

only_ranges :
    (c : AckCursor) (f : EncryptedFrame)
    → ltb 0 c.highest_contiguous_sequence ≡ false
    → by_ranges c c.received_ranges f ≡ acknowledged_by c f
unfolding covered
only_ranges c f h = ground arith

-- The updates of `markAcknowledgedFrames`, one for the contiguous part and one for each range, do
-- together what one pass does: they acknowledge, once and with the cursor's time, exactly the frames
-- of the cursor's key that were stored or routed and that the cursor covers, and change no other.
pub mark_acknowledged_frames-map :
    (c : AckCursor) (xs : List EncryptedFrame)
    → mark_acknowledged_frames c xs ≡ map (acknowledged_by c) xs
unfolding mark_acknowledged_frames
mark_acknowledged_frames-map c xs = elim (Bool-cases (ltb 0 c.highest_contiguous_sequence)) [
  | inl e ↦ rw e (
      mark_ranges-map c c.received_ranges _
      ∙ ap (map (by_ranges c c.received_ranges)) (
          update_map (λ f. is_open_for c f && leb f.sequence c.highest_contiguous_sequence)
            (as_acknowledged c.updated_at) xs)
      ∙ map_twice _ _ _ xs (λ f. contiguous_then_ranges c f e))
  | inr e ↦ rw e (mark_ranges-map c c.received_ranges xs ∙ map_ext _ _ xs (λ f. only_ranges c f e))
]
