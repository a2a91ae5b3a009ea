-- ===== src/Gateway/Ranges.antt =====
-- The ranges of sequence numbers in acknowledgements: gateway/ack.go (`ackRanges`),
-- gateway/resume.go (`resumeRanges`) and store/repository.go (`validReplayRanges`,
-- `validAckRanges`). A range off the wire may be nil.
pub mod Agreement
use harness_platform_monorep.Prelude.{
  ℕ, zero, suc, ◌+◌, ◌-◌, ◌*◌, ◌/◌, ◌%◌, ◌^◌, ◌≤◌, ◌<◌, ◌≡◌, refl, sym, ap, ◌∙◌, ◌≢◌, ◌↔◌, ◌⊎◌, inl,
  inr, Bool, true, false, not, ◌&&◌, ◌||◌, Option, none, some, List, [], ◌∷◌, ◌++◌, map, arith, ltb,
  leb, ◌==◌, if◌then◌else◌, u64_mod, u64_inc, ltb→lt, lt→ltb, leb→le, ==_iff, Bool-cases,
  Option-cases, is_some, is_none, length, take, drop, replicate, length-append, length-take-le,
  keep, any, all, All, All-append, Text, text, text_eq, text_eq_refl, text_eq→eq, is_empty,
  byte_len, trim_space,
}

pub record SequenceRange : Type 0 where
  pub start : ℕ
  pub end : ℕ

pub data RangeError : Type 0 where
  range_limit ranges_invalid : RangeError

pub data Ranges : Type 0 where
  ok : List SequenceRange → Ranges
  err : RangeError → Ranges

abbrev pub max_ack_ranges : ℕ
max_ack_ranges = 32

abbrev prepend : SequenceRange → Ranges → Ranges
prepend r (ok rs) = ok (r ∷ rs)
prepend r (err e) = err e

-- The loop of `ackRanges`; the Go code appends to `output`.
unfoldable pub ack_ranges_from : ℕ → List (Option SequenceRange) → Ranges
ack_ranges_from previous [] = ok []
ack_ranges_from previous (none ∷ input) = err ranges_invalid
ack_ranges_from previous (some r ∷ input) =
    let rest = ack_ranges_from r.end input in
    if r.start == 0 || ltb r.end r.start || leb r.start previous
    then err ranges_invalid
    else prepend r rest

-- `ackRanges`.
unfoldable pub ack_ranges : ℕ → List (Option SequenceRange) → Ranges
unfolding ack_ranges_from
ack_ranges highest input =
    if ltb max_ack_ranges (length input) then err range_limit else ack_ranges_from highest input

-- The loop of `resumeRanges`.
unfoldable pub resume_ranges_from : ℕ → List (Option SequenceRange) → Ranges
resume_ranges_from previous [] = ok []
resume_ranges_from previous (none ∷ input) = err ranges_invalid
resume_ranges_from previous (some r ∷ input) =
    let rest = resume_ranges_from r.end input in
    if r.start == 0 || ltb r.end r.start || leb r.start previous
    then err ranges_invalid
    else prepend r rest

-- `resumeRanges`.
unfoldable pub resume_ranges : ℕ → List (Option SequenceRange) → Ranges
unfolding resume_ranges_from
resume_ranges highest input =
    if ltb max_ack_ranges (length input) then err range_limit else resume_ranges_from highest input

-- The loop of `validReplayRanges` and `validAckRanges`.
unfoldable pub valid_ranges_from : ℕ → List SequenceRange → Bool
valid_ranges_from previous [] = true
valid_ranges_from previous (r ∷ ranges) =
    let rest = valid_ranges_from r.end ranges in
    if r.start == 0 || ltb r.end r.start || leb r.start previous then false else rest

-- `validReplayRanges`.
unfoldable pub valid_replay_ranges : ℕ → List SequenceRange → Bool
unfolding valid_ranges_from
valid_replay_ranges highest ranges =
    if ltb 32 (length ranges) then false else valid_ranges_from highest ranges

-- `validAckRanges`, on the cursor's two fields.
unfoldable pub valid_ack_ranges : ℕ → List SequenceRange → Bool
unfolding valid_ranges_from
valid_ack_ranges highest ranges =
    if highest == 0 && length ranges == 0
    then false
    else if ltb 32 (length ranges)
    then false
    else valid_ranges_from highest ranges

-- A sequence number that a cursor covers: at most the highest contiguous one, if there is one, or
-- in a range.
unfoldable pub in_ranges : ℕ → List SequenceRange → Bool
in_ranges n [] = false
in_ranges n (r ∷ ranges) = (leb r.start n && leb n r.end) || in_ranges n ranges

unfoldable pub covered : ℕ → ℕ → List SequenceRange → Bool
unfolding in_ranges
covered n highest ranges = (ltb 0 highest && leb n highest) || in_ranges n ranges
