-- ===== src/Store/Frames.antt =====
-- store/repository.go: encrypted frames. A row holds the frame's fields. The primary key is the
-- message ID, and the unique index `ux_harness_frame_sequence` is on session, generation, sender
-- and sequence; an insert with `OnConflict{DoNothing: true}` that meets either changes nothing.
pub mod Acknowledged
pub mod Idempotent
pub mod Kept
pub mod Slots
use harness_platform_monorep.Prelude.{
  ℕ, zero, suc, ◌+◌, ◌-◌, ◌*◌, ◌/◌, ◌%◌, ◌^◌, ◌≤◌, ◌<◌, ◌≡◌, refl, sym, ap, ◌∙◌, ◌≢◌, ◌↔◌, ◌⊎◌, inl,
  inr, Bool, true, false, not, ◌&&◌, ◌||◌, Option, none, some, List, [], ◌∷◌, ◌++◌, map, arith, ltb,
  leb, ◌==◌, if◌then◌else◌, u64_mod, u64_inc, ltb→lt, lt→ltb, leb→le, ==_iff, Bool-cases,
  Option-cases, is_some, is_none, length, take, drop, replicate, length-append, length-take-le,
  keep, any, all, All, All-append, Text, text, text_eq, text_eq_refl, text_eq→eq, is_empty,
  byte_len, trim_space, trim_space_twice, trim_space-unspaced, byte_len-ascii, is_space,
}
use harness_platform_monorep.Domain.Problem.{ErrorCode}
use harness_platform_monorep.Domain.Frame.{EncryptedFrame, FrameStatus, is_status, validate}
use harness_platform_monorep.Store.Table.{Result, ok, err, update_where, absent}

pub data PutFrameOutcome : Type 0 where
  stored duplicate : PutFrameOutcome

-- `==` of two byte slices, `bytes.Equal`, is that of texts.
abbrev pub bytes_equal : List ℕ → List ℕ → Bool
bytes_equal = text_eq

-- `sameFrame`.
unfoldable pub same_frame : EncryptedFrame → EncryptedFrame → Bool
same_frame l r =
    l.message_id == r.message_id
    && l.session_id == r.session_id
    && l.channel_id == r.channel_id
    && l.key_generation == r.key_generation
    && l.sender_endpoint_id == r.sender_endpoint_id
    && l.receiver_endpoint_id == r.receiver_endpoint_id
    && l.direction == r.direction
    && l.sequence == r.sequence
    && l.key_id == r.key_id
    && l.created_at_ms == r.created_at_ms
    && l.content_hash == r.content_hash
    && bytes_equal l.aad r.aad
    && bytes_equal l.ciphertext r.ciphertext
    && bytes_equal l.signature r.signature

-- Two rows that the primary key or the unique index does not allow together.
abbrev pub clashes : EncryptedFrame → EncryptedFrame → Bool
clashes f r =
    r.message_id == f.message_id
    || (r.session_id == f.session_id
        && r.key_generation == f.key_generation
        && r.sender_endpoint_id == f.sender_endpoint_id
        && r.sequence == f.sequence)

abbrev pub smaller : EncryptedFrame → Option EncryptedFrame → EncryptedFrame
smaller f none = f
smaller f (some g) = if ltb g.message_id f.message_id then g else f

-- `First` under a condition: of the rows that meet it, the one with the smallest primary key.
unfoldable pub first_by_key : (EncryptedFrame → Bool) → List EncryptedFrame → Option EncryptedFrame
first_by_key p [] = none
first_by_key p (f ∷ fs) = if p f then some (smaller f (first_by_key p fs)) else first_by_key p fs

abbrev pub as_conflict : EncryptedFrame → EncryptedFrame
as_conflict f = record f { status = FrameStatus.conflict }

-- The transaction of `PutFrame`, and `putAuthorizedFrameRow` (store/authorized_frame.go): a reuse
-- with other content is marked in the transaction, which commits, and reported after it.
unfoldable pub put_row :
    EncryptedFrame → List EncryptedFrame → List EncryptedFrame × Result PutFrameOutcome
unfolding same_frame first_by_key
put_row f rows =
    if absent (clashes f) rows
    then (f ∷ rows, ok stored)
    else elim (first_by_key (clashes f) rows) [
      | none ↦ (rows, err ErrorCode.not_found)
      | some existing ↦ if same_frame existing f then (rows, ok duplicate) else (
        update_where (λ r. r.message_id == existing.message_id) as_conflict rows,
        err ErrorCode.conflict,
      )
    ]

-- `Store.PutFrame`.
unfoldable pub put_frame :
    EncryptedFrame → ℕ → List EncryptedFrame → List EncryptedFrame × Result PutFrameOutcome
unfolding put_row
put_frame f max_ciphertext_bytes rows = elim (validate max_ciphertext_bytes f) [
  | some e ↦ (rows, err e)
  | none ↦
      if not (is_status f.status FrameStatus.stored)
      then (rows, err ErrorCode.invalid_state)
      else put_row f rows
]
