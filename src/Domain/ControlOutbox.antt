-- ===== src/Domain/ControlOutbox.antt =====
-- domain/control_outbox.go: a control message that is kept until its recipient has it.
-- A kind or status that is none of the declared constants is `unknown`.
pub mod Checks
use harness_platform_monorep.Prelude.{
  ℕ, zero, suc, ◌+◌, ◌-◌, ◌*◌, ◌/◌, ◌%◌, ◌^◌, ◌≤◌, ◌<◌, ◌≡◌, refl, sym, ap, ◌∙◌, ◌≢◌, ◌↔◌, ◌⊎◌, inl,
  inr, Bool, true, false, not, ◌&&◌, ◌||◌, Option, none, some, List, [], ◌∷◌, ◌++◌, map, arith, ltb,
  leb, ◌==◌, if◌then◌else◌, u64_mod, u64_inc, ltb→lt, lt→ltb, leb→le, ==_iff, Bool-cases,
  Option-cases, is_some, is_none, length, take, drop, replicate, length-append, length-take-le,
  keep, any, all, All, All-append, Text, text, text_eq, text_eq_refl, text_eq→eq, is_empty,
  byte_len, trim_space,
}
use harness_platform_monorep.Domain.Problem.{ErrorCode, Outcome, done, fail}

pub data ControlOutboxKind : Type 0 where
  open_tunnel session_key_package session_key_package_ack close_tunnel unknown : ControlOutboxKind

-- `ControlOutboxKind.Valid`.
abbrev pub kind_valid : ControlOutboxKind → Bool
kind_valid ControlOutboxKind.open_tunnel = true
kind_valid ControlOutboxKind.session_key_package = true
kind_valid ControlOutboxKind.session_key_package_ack = true
kind_valid ControlOutboxKind.close_tunnel = true
kind_valid ControlOutboxKind.unknown = false

pub data ControlOutboxStatus : Type 0 where
  pending completed cancelled expired unknown : ControlOutboxStatus

-- `==` on the status's strings.
abbrev pub outbox_status_code : ControlOutboxStatus → ℕ
outbox_status_code ControlOutboxStatus.pending = 0
outbox_status_code ControlOutboxStatus.completed = 1
outbox_status_code ControlOutboxStatus.cancelled = 2
outbox_status_code ControlOutboxStatus.expired = 3
outbox_status_code ControlOutboxStatus.unknown = 4

abbrev pub is_status : ControlOutboxStatus → ControlOutboxStatus → Bool
is_status a b = outbox_status_code a == outbox_status_code b

pub record ControlOutbox : Type 0 where
  pub id : ℕ
  pub owner_user_id : Text
  pub tenant_id : Text
  pub session_id : ℕ
  pub correlation_id : ℕ
  pub recipient_endpoint_id : ℕ
  pub kind : ControlOutboxKind
  pub payload : List ℕ
  pub packet : List ℕ
  pub status : ControlOutboxStatus
  pub created_at : ℕ
  pub updated_at : ℕ
  pub expires_at : ℕ
  pub completed_at : Option ℕ
  pub row_version : ℕ

-- The `switch` of `ValidateNew` on the kind.
validate_content : ControlOutboxKind → List ℕ → List ℕ → ℕ → ℕ → Option ErrorCode
validate_content ControlOutboxKind.open_tunnel payload packet max_payload max_packet =
    if length payload == 0 || ltb max_payload (length payload) || not (length packet == 0)
    then some ErrorCode.invalid_argument
    else none
validate_content ControlOutboxKind.close_tunnel payload packet max_payload max_packet =
    if length payload == 0 || ltb max_payload (length payload) || not (length packet == 0)
    then some ErrorCode.invalid_argument
    else none
validate_content ControlOutboxKind.session_key_package payload packet max_payload max_packet =
    if length packet == 0 || ltb max_packet (length packet) || not (length payload == 0)
    then some ErrorCode.invalid_argument
    else none
validate_content ControlOutboxKind.session_key_package_ack payload packet max_payload max_packet =
    if length packet == 0 || ltb max_packet (length packet) || not (length payload == 0)
    then some ErrorCode.invalid_argument
    else none
validate_content ControlOutboxKind.unknown payload packet max_payload max_packet =
    some ErrorCode.invalid_argument

-- `ControlOutbox.ValidateNew`; the limits are Go ints, of which only positive ones pass.
unfoldable pub validate_new : ℕ → ℕ → ControlOutbox → Option ErrorCode
unfolding validate_content
validate_new max_payload max_packet v =
    if v.id == 0
      || v.session_id == 0
      || v.correlation_id == 0
      || v.recipient_endpoint_id == 0
      || is_empty (trim_space v.owner_user_id)
      || not (kind_valid v.kind)
      || not (is_status v.status ControlOutboxStatus.pending)
      || v.created_at == 0
      || v.updated_at == 0
      || not (ltb v.created_at v.expires_at)
      || is_some v.completed_at
      || max_payload == 0
      || max_packet == 0
    then some ErrorCode.invalid_argument
    else validate_content v.kind v.payload v.packet max_payload max_packet

-- The `switch` of `ValidateStored` on the status.
validate_completion : ControlOutboxStatus → Option ℕ → Option ErrorCode
validate_completion ControlOutboxStatus.pending completed_at =
    if is_some completed_at then some ErrorCode.invalid_state else none
validate_completion ControlOutboxStatus.completed completed_at =
    if is_none completed_at then some ErrorCode.invalid_state else none
validate_completion ControlOutboxStatus.cancelled completed_at =
    if is_none completed_at then some ErrorCode.invalid_state else none
validate_completion ControlOutboxStatus.expired completed_at =
    if is_none completed_at then some ErrorCode.invalid_state else none
validate_completion ControlOutboxStatus.unknown completed_at = some ErrorCode.invalid_state

abbrev or_else : Option ErrorCode → Option ErrorCode → Option ErrorCode
or_else none e = e
or_else (some c) e = some c

-- `ControlOutbox.ValidateStored`.
unfoldable pub validate_stored : ℕ → ℕ → ControlOutbox → Option ErrorCode
unfolding validate_completion validate_new
validate_stored max_payload max_packet v =
    if v.id == 0
      || v.session_id == 0
      || v.correlation_id == 0
      || v.recipient_endpoint_id == 0
      || is_empty (trim_space v.owner_user_id)
      || not (kind_valid v.kind)
      || v.created_at == 0
      || v.updated_at == 0
      || not (ltb v.created_at v.expires_at)
      || max_payload == 0
      || max_packet == 0
    then some ErrorCode.invalid_argument
    else or_else (validate_completion v.status v.completed_at) (
        validate_new max_payload max_packet
          (record v { status = ControlOutboxStatus.pending; completed_at = none }))

-- `ControlOutbox.Complete`.
unfoldable pub complete : ℕ → ControlOutbox → Outcome ControlOutbox
complete now v =
    if now == 0
    then fail v ErrorCode.invalid_argument
    else if is_status v.status ControlOutboxStatus.completed
    then done v
    else if not (is_status v.status ControlOutboxStatus.pending)
    then fail v ErrorCode.invalid_state
    else done (record v {
      status = ControlOutboxStatus.completed;
      completed_at = some now;
      updated_at = now;
      row_version = u64_inc v.row_version;
    })
