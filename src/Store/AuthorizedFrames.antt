-- ===== src/Store/AuthorizedFrames.antt =====
-- store/authorized_frame.go: a frame is stored only with its session, its endpoints and its sender's
-- credential checked in the same transaction. SHA-256 is not under the repository: the first 16
-- bytes of a channel's digest are the parameter `channel_digest`. On SQLite a transaction is also
-- tried again when the database is locked; one attempt is modelled, and not the fence.
pub mod Admission
pub mod Revoked
use harness_platform_monorep.Prelude.{
  ℕ, zero, suc, ◌+◌, ◌-◌, ◌*◌, ◌/◌, ◌%◌, ◌^◌, ◌≤◌, ◌<◌, ◌≡◌, refl, sym, ap, ◌∙◌, ◌≢◌, ◌↔◌, ◌⊎◌, inl,
  inr, Bool, true, false, not, ◌&&◌, ◌||◌, Option, none, some, List, [], ◌∷◌, ◌++◌, map, arith, ltb,
  leb, ◌==◌, if◌then◌else◌, u64_mod, u64_inc, ltb→lt, lt→ltb, leb→le, ==_iff, Bool-cases,
  Option-cases, is_some, is_none, length, take, drop, replicate, length-append, length-take-le,
  keep, any, all, All, All-append, Text, text, text_eq, text_eq_refl, text_eq→eq, is_empty,
  byte_len, trim_space, trim_space_twice, trim_space-unspaced, byte_len-ascii, is_space,
}
use harness_platform_monorep.Domain.Problem.{ErrorCode}
use harness_platform_monorep.Domain.Endpoint
use harness_platform_monorep.Domain.Endpoint.{Endpoint, EndpointType, EndpointStatus, is_type}
use harness_platform_monorep.Domain.Session
use harness_platform_monorep.Domain.Session.{Session, SessionStatus}
use harness_platform_monorep.Domain.Credential.{
  EndpointCredential, CredentialStatus, is_credential_status,
}
use harness_platform_monorep.Domain.Frame
use harness_platform_monorep.Domain.Frame.{EncryptedFrame, FrameStatus}
use harness_platform_monorep.Store.Table.{
  Result, ok, err, ◌>>=◌, ◌>>◌, guard, try_check, or_error, find,
}
use harness_platform_monorep.Store.Frames.{PutFrameOutcome, put_row}
use harness_platform_monorep.Store.Revocation.{Tables, is_owned, is_aba}
use harness_platform_monorep.Store.KeyPackages.{
  lock_session, lock_endpoint, is_credential_of, is_hc,
}

-- The tables of the transaction: those of the identities, and the frames.
pub record FrameTables : Type 0 where
  pub tables : Tables
  pub frames : List EncryptedFrame

-- The status' tests of `lockAuthorizedFrameEndpoint`.
abbrev pub endpoint_error : Endpoint → Option ErrorCode
endpoint_error e =
    if not (Endpoint.is_status e.status EndpointStatus.active) || is_some e.revoked_at
    then (if Endpoint.is_status e.status EndpointStatus.revoked
        then some ErrorCode.revoked
        else some ErrorCode.security_violation)
    else none

-- `lockAuthorizedFrameEndpoint`.
unfoldable pub lock_frame_endpoint : ℕ → Text → Text → Tables → Result Endpoint
lock_frame_endpoint id owner tenant t = do
  e ← lock_endpoint id owner tenant t
  try_check (endpoint_error e)
  ok e

-- The `switch` of `lockAuthorizedFrameRouteEndpoints`: sender and receiver.
abbrev pub by_direction : ℕ → Endpoint → Endpoint → Result (Endpoint × Endpoint)
by_direction direction aba hc =
    if direction == 1
    then ok (hc, aba)
    else if direction == 2
    then ok (aba, hc)
    else err ErrorCode.invalid_argument

-- `lockAuthorizedFrameRouteEndpoints`.
unfoldable pub lock_route_endpoints :
    Session → ℕ → Text → Text → Tables → Result (Endpoint × Endpoint)
lock_route_endpoints s direction owner tenant t = do
  aba ← lock_frame_endpoint s.aba_endpoint_id owner tenant t
  hc ← lock_frame_endpoint s.hc_endpoint_id owner tenant t
  by_direction direction aba hc

-- The `switch` of `validateAuthorizedFrameRoute`.
abbrev pub route_error : Session → Endpoint → Endpoint → ℕ → Option ErrorCode
route_error s sender receiver direction =
    if direction == 1
    then (if not (s.hc_endpoint_id == sender.id)
          || not (s.aba_endpoint_id == receiver.id)
          || not (is_hc sender)
          || not (is_aba receiver)
        then some ErrorCode.security_violation
        else none)
    else if direction == 2
    then (if not (s.aba_endpoint_id == sender.id)
          || not (s.hc_endpoint_id == receiver.id)
          || not (is_aba sender)
          || not (is_hc receiver)
        then some ErrorCode.security_violation
        else none)
    else some ErrorCode.invalid_argument

-- The test of the sender's credential.
abbrev pub is_live_sender : ℕ → Endpoint → EndpointCredential → Bool
is_live_sender now sender c = not (
    not (is_credential_status c.status CredentialStatus.active)
    || is_some c.revoked_at
    || ltb c.expires_at now
    || c.expires_at == now
    || ltb now c.created_at
    || not (c.family_id == sender.credential_family_id)
    || not (text_eq c.signing_jkt sender.signing_jkt))

abbrev pub with_frames {ℓ} :
    {A : Type ℓ} → FrameTables → List EncryptedFrame × Result A → FrameTables × Result A
with_frames t (rows, r) = (record t { frames = rows }, r)

-- The tests of `PutAuthorizedEndpointFrame` on its arguments.
unfoldable pub argument_error : Text → ℕ → EncryptedFrame → ℕ → Option ErrorCode
argument_error owner credential_id f now =
    if is_empty (trim_space owner) || credential_id == 0 || now == 0
    then some ErrorCode.invalid_argument
    else elim (Frame.validate 1048576 f) [
      | some e ↦ some e
      | none ↦
          if not (Frame.is_status f.status FrameStatus.stored)
            || f.received_at == 0
            || not (ltb now f.expires_at)
          then some ErrorCode.invalid_state
          else none
    ]

module _ (channel_digest : ℕ → ℕ → ℕ → ℕ) where
  -- `authorizedFrameChannelID`.
  abbrev pub channel_id : ℕ → ℕ → ℕ → Option ℕ
  channel_id session_id aba hc =
      if session_id == 0 || aba == 0 || hc == 0 || aba == hc
      then none
      else some (channel_digest session_id aba hc)

  abbrev pub is_channel : EncryptedFrame → Session → Bool
  is_channel f s = elim (channel_id f.session_id s.aba_endpoint_id s.hc_endpoint_id) [
    | none ↦ false
    | some expected ↦ f.channel_id == expected
  ]

  -- `validateAuthorizedFrameRoute`.
  unfoldable pub validate_route : Session → Endpoint → Endpoint → EncryptedFrame → Option ErrorCode
  validate_route s sender receiver f =
      if not (sender.id == f.sender_endpoint_id) || not (receiver.id == f.receiver_endpoint_id)
      then some ErrorCode.security_violation
      else elim (route_error s sender receiver f.direction) [
        | some e ↦ some e
        | none ↦ if not (is_channel f s) then some ErrorCode.security_violation else none
      ]

  -- The tests of `putAuthorizedEndpointFrameOnce` before it writes.
  unfoldable pub check_authorized :
      Text → Text → ℕ → EncryptedFrame → ℕ → Tables → Result (Unit {0})
  check_authorized owner tenant credential_id f now t = do
    s ← lock_session f.session_id owner tenant t
    guard
        (Session.is_status s.status SessionStatus.active
          && s.current_key_generation == f.key_generation)
        ErrorCode.invalid_state
    (sender, receiver) ← lock_route_endpoints s f.direction owner tenant t
    try_check (validate_route s sender receiver f)
    c ←
        or_error ErrorCode.security_violation
          (find (is_credential_of credential_id sender.id) t.credentials)
    guard (is_live_sender now sender c) ErrorCode.security_violation

  -- `putAuthorizedEndpointFrameOnce`. A conflict of contents leaves the transaction without an error,
  -- so the mark on the stored frame is kept.
  unfoldable pub put_authorized_once :
      Text → Text → ℕ → EncryptedFrame → ℕ → FrameTables → FrameTables × Result PutFrameOutcome
  put_authorized_once owner tenant credential_id f now t =
      elim (check_authorized owner tenant credential_id f now t.tables) [
        | err e ↦ (t, err e)
        | ok _ ↦ with_frames t (put_row f t.frames)
      ]

  -- `Store.PutAuthorizedEndpointFrame`, whose answer is whether the frame is a duplicate.
  unfoldable pub put_authorized_endpoint_frame :
      Text → Text → ℕ → EncryptedFrame → ℕ → FrameTables → FrameTables × Result PutFrameOutcome
  put_authorized_endpoint_frame owner tenant credential_id f now t =
      elim (argument_error owner credential_id f now) [
        | some e ↦ (t, err e)
        | none ↦ put_authorized_once (trim_space owner) (trim_space tenant) credential_id f now t
      ]
