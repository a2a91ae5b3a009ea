-- ===== src/Domain/Frame.antt =====
-- domain/model.go and domain/state.go: an encrypted frame, its check and its delivery status.
-- Byte slices are lists of bytes; a content hash is the number that its 32 bytes spell.
pub mod Delivery
use harness_platform_monorep.Prelude.{
  ℕ, zero, suc, ◌+◌, ◌-◌, ◌*◌, ◌/◌, ◌%◌, ◌^◌, ◌≤◌, ◌<◌, ◌≡◌, refl, sym, ap, ◌∙◌, ◌≢◌, ◌↔◌, ◌⊎◌, inl,
  inr, Bool, true, false, not, ◌&&◌, ◌||◌, Option, none, some, List, [], ◌∷◌, ◌++◌, map, arith, ltb,
  leb, ◌==◌, if◌then◌else◌, u64_mod, u64_inc, ltb→lt, lt→ltb, leb→le, ==_iff, Bool-cases,
  Option-cases, is_some, is_none, length, take, drop, replicate, length-append, length-take-le,
  keep, any, all, All, All-append, Text, text, text_eq, text_eq_refl, text_eq→eq, is_empty,
  byte_len, trim_space,
}
use harness_platform_monorep.Domain.Problem.{ErrorCode, Outcome, done, fail}

pub data FrameStatus : Type 0 where
  stored routed receiver_acknowledged expired conflict unknown : FrameStatus

-- `==` on the status's strings.
abbrev pub frame_status_code : FrameStatus → ℕ
frame_status_code FrameStatus.stored = 0
frame_status_code FrameStatus.routed = 1
frame_status_code FrameStatus.receiver_acknowledged = 2
frame_status_code FrameStatus.expired = 3
frame_status_code FrameStatus.conflict = 4
frame_status_code FrameStatus.unknown = 5

abbrev pub is_status : FrameStatus → FrameStatus → Bool
is_status a b = frame_status_code a == frame_status_code b

-- `Direction`: a uint8.
abbrev pub direction_hc_to_aba : ℕ
direction_hc_to_aba = 1

abbrev pub direction_aba_to_hc : ℕ
direction_aba_to_hc = 2

-- `Direction.Valid`.
abbrev pub direction_valid : ℕ → Bool
direction_valid value = value == direction_hc_to_aba || value == direction_aba_to_hc

pub record EncryptedFrame : Type 0 where
  pub message_id : ℕ
  pub channel_id : ℕ
  pub session_id : ℕ
  pub sender_endpoint_id : ℕ
  pub receiver_endpoint_id : ℕ
  pub direction : ℕ
  pub sequence : ℕ
  pub key_generation : ℕ
  pub key_id : ℕ
  pub created_at_ms : ℕ
  pub aad : List ℕ
  pub ciphertext : List ℕ
  pub signature : List ℕ
  pub content_hash : ℕ
  pub status : FrameStatus
  pub received_at : ℕ
  pub routed_at : Option ℕ
  pub acknowledged_at : Option ℕ
  pub expires_at : ℕ

-- `EncryptedFrame.Validate`.
unfoldable pub validate : ℕ → EncryptedFrame → Option ErrorCode
validate max_ciphertext_bytes f =
    if f.message_id == 0
      || f.channel_id == 0
      || f.session_id == 0
      || f.sender_endpoint_id == 0
      || f.receiver_endpoint_id == 0
      || f.key_id == 0
    then some ErrorCode.invalid_argument
    else if not (direction_valid f.direction)
    then some ErrorCode.invalid_argument
    else if f.sequence == 0 || f.key_generation == 0
    then some ErrorCode.invalid_argument
    else if not (length f.aad == 148)
    then some ErrorCode.invalid_argument
    else if length f.ciphertext == 0 || ltb max_ciphertext_bytes (length f.ciphertext)
    then some ErrorCode.resource_limit
    else if not (length f.signature == 64)
    then some ErrorCode.invalid_argument
    else if f.content_hash == 0
    then some ErrorCode.invalid_argument
    else none

-- `EncryptedFrame.MarkRouted`.
unfoldable pub mark_routed : ℕ → EncryptedFrame → Outcome EncryptedFrame
mark_routed now f =
    if is_status f.status FrameStatus.routed
    then done f
    else if not (is_status f.status FrameStatus.stored)
    then fail f ErrorCode.invalid_state
    else done (record f { status = FrameStatus.routed; routed_at = some now })

-- `EncryptedFrame.Acknowledge`.
unfoldable pub acknowledge : ℕ → EncryptedFrame → Outcome EncryptedFrame
acknowledge now f =
    if is_status f.status FrameStatus.receiver_acknowledged
    then done f
    else if not (is_status f.status FrameStatus.stored)
        && not (is_status f.status FrameStatus.routed)
    then fail f ErrorCode.invalid_state
    else done (record f { status = FrameStatus.receiver_acknowledged; acknowledged_at = some now })

-- `EncryptedFrame.Conflict`.
unfoldable pub mark_conflict : EncryptedFrame → Outcome EncryptedFrame
mark_conflict f =
    if is_status f.status FrameStatus.receiver_acknowledged
      || is_status f.status FrameStatus.expired
    then fail f ErrorCode.invalid_state
    else done (record f { status = FrameStatus.conflict })

-- The methods of the delivery status.
pub data Op : Type 0 where
  mark_routed_op acknowledge_op conflict_op : Op

unfoldable pub step : Op → ℕ → EncryptedFrame → Outcome EncryptedFrame
unfolding mark_routed acknowledge mark_conflict
step mark_routed_op now f = mark_routed now f
step acknowledge_op now f = acknowledge now f
step conflict_op now f = mark_conflict f
