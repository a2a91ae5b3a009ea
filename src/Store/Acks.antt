-- ===== src/Store/Acks.antt =====
-- store/repository.go: acknowledgement cursors, and the frames that they acknowledge or that are
-- replayed. A cursor's row has no ranges: `ackToRow` drops them.
pub mod Due
pub mod Marking
pub mod Monotone
pub mod Replay
use harness_platform_monorep.Prelude.{
  ℕ, zero, suc, ◌+◌, ◌-◌, ◌*◌, ◌/◌, ◌%◌, ◌^◌, ◌≤◌, ◌<◌, ◌≡◌, refl, sym, ap, ◌∙◌, ◌≢◌, ◌↔◌, ◌⊎◌, inl,
  inr, Bool, true, false, not, ◌&&◌, ◌||◌, Option, none, some, List, [], ◌∷◌, ◌++◌, map, arith, ltb,
  leb, ◌==◌, if◌then◌else◌, u64_mod, u64_inc, ltb→lt, lt→ltb, leb→le, ==_iff, Bool-cases,
  Option-cases, is_some, is_none, length, take, drop, replicate, length-append, length-take-le,
  keep, any, all, All, All-append, Text, text, text_eq, text_eq_refl, text_eq→eq, is_empty,
  byte_len, trim_space,
}
use harness_platform_monorep.Domain.Problem.{ErrorCode}
use harness_platform_monorep.Domain.Credential.{AckCursor}
use harness_platform_monorep.Domain.Frame.{EncryptedFrame, FrameStatus, is_status, direction_valid}
use harness_platform_monorep.Gateway.Ranges.{
  SequenceRange, valid_ack_ranges, valid_replay_ranges, in_ranges,
}
use harness_platform_monorep.Store.Table.{Result, ok, err, find, update_where, affected}

pub record AckTables : Type 0 where
  pub cursors : List AckCursor
  pub frames : List EncryptedFrame

-- The primary key of a cursor's row.
abbrev pub same_key : AckCursor → AckCursor → Bool
same_key c r =
    r.session_id == c.session_id
    && r.key_generation == c.key_generation
    && r.direction == c.direction
    && r.sender_endpoint_id == c.sender_endpoint_id
    && r.receiver_endpoint_id == c.receiver_endpoint_id

-- The frames that `markAcknowledgedFrames` can change.
abbrev pub is_open_for : AckCursor → EncryptedFrame → Bool
is_open_for c f =
    f.session_id == c.session_id
    && f.key_generation == c.key_generation
    && f.direction == c.direction
    && f.sender_endpoint_id == c.sender_endpoint_id
    && f.receiver_endpoint_id == c.receiver_endpoint_id
    && (is_status f.status FrameStatus.stored || is_status f.status FrameStatus.routed)

abbrev pub as_acknowledged : ℕ → EncryptedFrame → EncryptedFrame
as_acknowledged now f = record f {
  status = FrameStatus.receiver_acknowledged;
  acknowledged_at = some now;
}

-- The loop of `markAcknowledgedFrames` over the ranges: one update for each.
unfoldable pub mark_ranges :
    AckCursor → List SequenceRange → List EncryptedFrame → List EncryptedFrame
mark_ranges c [] frames = frames
mark_ranges c (r ∷ ranges) frames = mark_ranges c ranges (
    update_where (λ f. is_open_for c f && leb r.start f.sequence && leb f.sequence r.end)
      (as_acknowledged c.updated_at) frames)

-- `markAcknowledgedFrames`.
unfoldable pub mark_acknowledged_frames : AckCursor → List EncryptedFrame → List EncryptedFrame
unfolding mark_ranges
mark_acknowledged_frames c frames = mark_ranges c c.received_ranges (
    if ltb 0 c.highest_contiguous_sequence
    then update_where (λ f. is_open_for c f && leb f.sequence c.highest_contiguous_sequence)
        (as_acknowledged c.updated_at) frames
    else frames)

-- `ackToRow`, read back by `ackFromRow`.
abbrev pub as_row : ℕ → AckCursor → AckCursor
as_row version c = record c { received_ranges = []; row_version = version }

-- The update of an existing row.
abbrev pub is_row : AckCursor → AckCursor → Bool
is_row current r = same_key current r && r.row_version == current.row_version

abbrev pub raised : AckCursor → AckCursor → AckCursor → AckCursor
raised c current r = record r {
  highest_contiguous_sequence = c.highest_contiguous_sequence;
  updated_at = c.updated_at;
  row_version = u64_inc current.row_version;
}

-- `advanceAckOnce`, with the row locked: nobody else creates or changes it meanwhile.
unfoldable pub advance_ack_once : AckCursor → AckTables → AckTables × Result AckCursor
unfolding mark_acknowledged_frames
advance_ack_once c t = elim (find (same_key c) t.cursors) [
  | none ↦ (
    record { cursors = as_row 1 c ∷ t.cursors; frames = mark_acknowledged_frames c t.frames },
    ok (record c { row_version = 1 }),
  )
  | some current ↦
      if ltb c.highest_contiguous_sequence current.highest_contiguous_sequence
      then (t, ok current)
      else if c.highest_contiguous_sequence == current.highest_contiguous_sequence
      then (record t { frames = mark_acknowledged_frames c t.frames }, ok current)
      else if affected (is_row current) t.cursors == 1
      then (
        record {
          cursors = update_where (is_row current) (raised c current) t.cursors;
          frames = mark_acknowledged_frames c t.frames;
        },
        ok (record c { row_version = u64_inc current.row_version }),
      )
      else (t, err ErrorCode.conflict)
]

-- `Store.AdvanceAck`; the retries for SQLite's lock errors have nothing to retry here.
unfoldable pub advance_ack : AckCursor → AckTables → AckTables × Result AckCursor
unfolding advance_ack_once
advance_ack c t =
    if c.session_id == 0
      || c.sender_endpoint_id == 0
      || c.receiver_endpoint_id == 0
      || c.key_generation == 0
      || not (direction_valid c.direction)
      || c.updated_at == 0
      || not (valid_ack_ranges c.highest_contiguous_sequence c.received_ranges)
    then (t, err ErrorCode.invalid_argument)
    else advance_ack_once c t

-- The arguments of `ReplayEndpointFrames`.
pub record Request : Type 0 where
  pub receiver_id : ℕ
  pub channel_id : ℕ
  pub key_generation : ℕ
  pub direction : ℕ
  pub highest : ℕ
  pub ranges : List SequenceRange
  pub limit : ℕ

-- The conditions of its query.
abbrev pub wanted : Request → EncryptedFrame → Bool
wanted q f =
    f.receiver_endpoint_id == q.receiver_id
    && f.channel_id == q.channel_id
    && f.key_generation == q.key_generation
    && f.direction == q.direction
    && ltb q.highest f.sequence
    && (is_status f.status FrameStatus.stored || is_status f.status FrameStatus.routed)
    && not (in_ranges f.sequence q.ranges)

-- `Order("sequence")`.
unfoldable pub insert_by_sequence : EncryptedFrame → List EncryptedFrame → List EncryptedFrame
insert_by_sequence f [] = f ∷ []
insert_by_sequence f (g ∷ gs) =
    if leb f.sequence g.sequence then f ∷ g ∷ gs else g ∷ insert_by_sequence f gs

unfoldable pub order_by_sequence : List EncryptedFrame → List EncryptedFrame
unfolding insert_by_sequence
order_by_sequence [] = []
order_by_sequence (f ∷ fs) = insert_by_sequence f (order_by_sequence fs)

-- `Store.ReplayEndpointFrames`.
unfoldable pub replay_endpoint_frames : Request → List EncryptedFrame → Result (List EncryptedFrame)
unfolding order_by_sequence
replay_endpoint_frames q frames =
    if q.receiver_id == 0
      || q.channel_id == 0
      || q.key_generation == 0
      || not (direction_valid q.direction)
      || q.limit == 0
      || ltb 1024 q.limit
      || not (valid_replay_ranges q.highest q.ranges)
    then err ErrorCode.invalid_argument
    else ok (take q.limit (order_by_sequence (keep (wanted q) frames)))
