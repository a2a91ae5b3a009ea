-- ===== src/Gateway/FrameAad.antt =====
-- gateway/frame.go: the associated data of an encrypted frame and the routes that frames may take.
-- An identifier of the wire is the list of its bytes; `uint64(int64)` is taken on the wire's 64 bits.
pub mod Binding
pub mod Routes
use harness_platform_monorep.Prelude.{
  ℕ, zero, suc, ◌+◌, ◌-◌, ◌*◌, ◌/◌, ◌%◌, ◌^◌, ◌≤◌, ◌<◌, ◌≡◌, refl, sym, ap, ◌∙◌, ◌≢◌, ◌↔◌, ◌⊎◌, inl,
  inr, Bool, true, false, not, ◌&&◌, ◌||◌, Option, none, some, List, [], ◌∷◌, ◌++◌, map, arith, ltb,
  leb, ◌==◌, if◌then◌else◌, u64_mod, u64_inc, ltb→lt, lt→ltb, leb→le, ==_iff, Bool-cases,
  Option-cases, is_some, is_none, length, take, drop, replicate, length-append, length-take-le,
  keep, any, all, All, All-append, Text, text, text_eq, text_eq_refl, text_eq→eq, is_empty,
  byte_len, trim_space,
}
use harness_platform_monorep.Domain.Endpoint.{Endpoint, EndpointType}
use harness_platform_monorep.Domain.Session.{Session}
use harness_platform_monorep.Domain.Frame.{direction_hc_to_aba, direction_aba_to_hc}

-- `validFrameRoute`.
unfoldable pub valid_frame_route : Endpoint → Session → ℕ → ℕ → Bool
valid_frame_route e s receiver_id direction =
    let from_hc =
      e.id == s.hc_endpoint_id
      && receiver_id == s.aba_endpoint_id
      && direction == direction_hc_to_aba in
    elim e.type [
      | EndpointType.hc_web ↦ from_hc
      | EndpointType.hc_reference ↦ from_hc
      | EndpointType.aba ↦
          e.id == s.aba_endpoint_id
          && receiver_id == s.hc_endpoint_id
          && direction == direction_aba_to_hc
      | EndpointType.unknown ↦ false
    ]

-- The fields of the message that `frameAAD` reads.
pub record WireFrame : Type 0 where
  pub message_id : List ℕ
  pub channel_id : List ℕ
  pub session_id : List ℕ
  pub sender_endpoint_id : List ℕ
  pub receiver_endpoint_id : List ℕ
  pub key_id : List ℕ
  pub crypto_suite_id : ℕ
  pub frame_type : ℕ
  pub flags : ℕ
  pub direction : ℕ
  pub sequence : ℕ
  pub key_generation : ℕ
  pub created_at_ms : ℕ
  pub ciphertext : List ℕ

-- `putUint16`, `putUint32` and `putUint64`: the lowest byte is the last.
unfoldable pub put_uint : ℕ → ℕ → List ℕ
put_uint zero value = []
put_uint (suc w) value = put_uint w (value / 256) ++ (value % 256) ∷ []

abbrev pub join : List (List ℕ) → List ℕ
join [] = []
join (part ∷ parts) = part ++ join parts

-- The bytes of `frameAAD`, in the order of their offsets.
unfoldable pub layout : WireFrame → List ℕ
layout f = join (
    text "AWP1"
    ∷ put_uint 2 1
    ∷ put_uint 2 0
    ∷ put_uint 2 (f.crypto_suite_id % 65536)
    ∷ put_uint 2 (f.frame_type % 65536)
    ∷ put_uint 4 f.flags
    ∷ f.message_id
    ∷ f.channel_id
    ∷ f.session_id
    ∷ f.sender_endpoint_id
    ∷ f.receiver_endpoint_id
    ∷ ((f.direction % 256) ∷ replicate 7 0)
    ∷ put_uint 8 f.sequence
    ∷ put_uint 8 f.key_generation
    ∷ f.key_id
    ∷ put_uint 8 f.created_at_ms
    ∷ put_uint 4 (length f.ciphertext % 4294967296)
    ∷ [])

-- `frameAAD`, of a message that is not nil.
unfoldable pub frame_aad : WireFrame → Option (List ℕ)
frame_aad f =
    if not (length f.message_id == 16)
      || not (length f.channel_id == 16)
      || not (length f.session_id == 16)
      || not (length f.sender_endpoint_id == 16)
      || not (length f.receiver_endpoint_id == 16)
      || not (length f.key_id == 16)
    then none
    else some (layout f)
