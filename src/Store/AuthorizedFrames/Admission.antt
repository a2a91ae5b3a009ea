-- ===== src/Store/AuthorizedFrames/Admission.antt =====
-- store/authorized_frame.go: what the session and the endpoints of an accepted frame are.
use harness_platform_monorep.Prelude.{
  ℕ, ◌≡◌, sym, ap, ◌∙◌, ◌⊎◌, inl, inr, true, ◌&&◌, none, some, arith, ◌==◌, Option-cases, Text,
  trim_space,
}
use mathlib.Core.Path.{subst}
use harness_platform_monorep.Domain.Problem.{ErrorCode}
use harness_platform_monorep.Domain.Endpoint.{Endpoint, EndpointStatus}
use harness_platform_monorep.Domain.Session
use harness_platform_monorep.Domain.Session.{Session, SessionStatus}
use harness_platform_monorep.Domain.Credential.{EndpointCredential}
use harness_platform_monorep.Domain.Frame.{EncryptedFrame}
use harness_platform_monorep.Store.Table.{
  ok, find, is_ok, Result-cases, >>=-eq-ok, guard-eq-ok, try_check-eq-ok, or_error-eq-ok,
  ok-injective, guard-ok,
}
use harness_platform_monorep.Store.Revocation.{Tables, is_owned, is_aba}
use harness_platform_monorep.Store.KeyPackages.{is_owned_session, is_credential_of, is_hc}
use harness_platform_monorep.Store.AuthorizedFrames.{
  FrameTables, endpoint_error, lock_frame_endpoint, by_direction, lock_route_endpoints,
  is_live_sender, is_channel, validate_route, check_authorized, put_authorized_once, argument_error,
  put_authorized_endpoint_frame,
}

endpoint_error-none :
    (e : Endpoint)
    → endpoint_error e ≡ none
    → (e.status ≡ EndpointStatus.active) × (e.revoked_at ≡ none)
endpoint_error-none e h = ground arith

lock_frame_endpoint-ok :
    (id : ℕ) (owner tenant : Text) (t : Tables) {e : Endpoint}
    → lock_frame_endpoint id owner tenant t ≡ ok e
    → (find (is_owned id owner tenant) t.endpoints ≡ some e)
      × ((e.status ≡ EndpointStatus.active) × (e.revoked_at ≡ none))
unfolding lock_frame_endpoint
lock_frame_endpoint-ok id owner tenant t {e} h =
    let (a, found, h1) = or_error-eq-ok ErrorCode.not_found _ _ h in
    let (passed, h2) = try_check-eq-ok _ _ h1 in
    let same = ok-injective a e h2 in
    let (active, live) = endpoint_error-none a passed in
    (
      found ∙ ap some same,
      (ap (λ x. x.status) (sym same) ∙ active, ap (λ x. x.revoked_at) (sym same) ∙ live),
    )

-- What the lookup of the endpoints of a route finds.
pub record IsRoute (s : Session) (direction : ℕ) (owner tenant : Text) (t : Tables)
    (sender receiver : Endpoint) : Type 0 where
  pub aba : Endpoint
  pub hc : Endpoint
  pub aba_found : find (is_owned s.aba_endpoint_id owner tenant) t.endpoints ≡ some aba
  pub hc_found : find (is_owned s.hc_endpoint_id owner tenant) t.endpoints ≡ some hc
  pub aba_live : (aba.status ≡ EndpointStatus.active) × (aba.revoked_at ≡ none)
  pub hc_live : (hc.status ≡ EndpointStatus.active) × (hc.revoked_at ≡ none)
  pub directed : by_direction direction aba hc ≡ ok (sender, receiver)

lock_route_endpoints-IsRoute :
    (s : Session) (direction : ℕ) (owner tenant : Text) (t : Tables) {r : Endpoint × Endpoint}
    → lock_route_endpoints s direction owner tenant t ≡ ok r
    → IsRoute s direction owner tenant t r.0 r.1
unfolding lock_route_endpoints
lock_route_endpoints-IsRoute s direction owner tenant t h =
    let (aba, aba_ok, h1) = >>=-eq-ok (lock_frame_endpoint s.aba_endpoint_id owner tenant t) _ h in
    let (hc, hc_ok, h2) = >>=-eq-ok (lock_frame_endpoint s.hc_endpoint_id owner tenant t) _ h1 in
    let (aba_found, aba_live) = lock_frame_endpoint-ok s.aba_endpoint_id owner tenant t aba_ok in
    let (hc_found, hc_live) = lock_frame_endpoint-ok s.hc_endpoint_id owner tenant t hc_ok in
    record {
      aba = aba;
      hc = hc;
      aba_found = aba_found;
      hc_found = hc_found;
      aba_live = aba_live;
      hc_live = hc_live;
      directed = h2;
    }

-- The two routes of a frame.
pub IsDirected : EncryptedFrame → Endpoint → Endpoint → Type 0
IsDirected f sender receiver =
    ((f.direction ≡ 1) × (is_hc sender ≡ true) × (is_aba receiver ≡ true))
    ⊎ ((f.direction ≡ 2) × (is_aba sender ≡ true) × (is_hc receiver ≡ true))

module _ (channel_digest : ℕ → ℕ → ℕ → ℕ) where
  validate_route-none :
      (s : Session) (sender receiver : Endpoint) (f : EncryptedFrame)
      → validate_route channel_digest s sender receiver f ≡ none
      → (sender.id ≡ f.sender_endpoint_id)
        × (receiver.id ≡ f.receiver_endpoint_id)
        × IsDirected f sender receiver
        × (is_channel channel_digest f s ≡ true)
  unfolding validate_route IsDirected
  validate_route-none s sender receiver f h = ground arith

  is_channel-digest :
      (f : EncryptedFrame) (s : Session)
      → is_channel channel_digest f s ≡ true
      → f.channel_id ≡ channel_digest f.session_id s.aba_endpoint_id s.hc_endpoint_id
  is_channel-digest f s h = ground arith

  -- What the tests before the write have found.
  pub record IsAdmissible (owner tenant : Text) (credential_id : ℕ) (f : EncryptedFrame) (now : ℕ)
      (t : Tables) : Type 0 where
    pub session : Session
    pub sender : Endpoint
    pub receiver : Endpoint
    pub credential : EndpointCredential
    pub session_found : find (is_owned_session f.session_id owner tenant) t.sessions ≡ some session
    pub session_active : session.status ≡ SessionStatus.active
    pub generation : session.current_key_generation ≡ f.key_generation
    pub route : IsRoute session f.direction owner tenant t sender receiver
    pub sender_id : sender.id ≡ f.sender_endpoint_id
    pub receiver_id : receiver.id ≡ f.receiver_endpoint_id
    pub directed : IsDirected f sender receiver
    pub channel :
        f.channel_id ≡ channel_digest f.session_id session.aba_endpoint_id session.hc_endpoint_id
    pub credential_found :
        find (is_credential_of credential_id f.sender_endpoint_id) t.credentials ≡ some credential
    pub live : is_live_sender now sender credential ≡ true

  session_lem :
      (s : Session) (f : EncryptedFrame)
      → (Session.is_status s.status SessionStatus.active
          && s.current_key_generation == f.key_generation)
        ≡ true
      → (s.status ≡ SessionStatus.active) × (s.current_key_generation ≡ f.key_generation)
  session_lem s f h = ground arith

  check_authorized-IsAdmissible :
      (owner tenant : Text) (credential_id : ℕ) (f : EncryptedFrame) (now : ℕ) (t : Tables)
      → check_authorized channel_digest owner tenant credential_id f now t ≡ ok tt
      → IsAdmissible owner tenant credential_id f now t
  unfolding check_authorized
  check_authorized-IsAdmissible owner tenant credential_id f now t h =
      let (s, s_found, h1) = or_error-eq-ok ErrorCode.not_found _ _ h in
      let (state, h2) = guard-eq-ok _ ErrorCode.invalid_state _ h1 in
      let (r, r_ok, h3) = >>=-eq-ok (lock_route_endpoints s f.direction owner tenant t) _ h2 in
      let (passed, h4) = try_check-eq-ok _ _ h3 in
      let (c, c_found, h5) = or_error-eq-ok ErrorCode.security_violation _ _ h4 in
      let (active, generation) = session_lem s f state in
      let (sender_id, receiver_id, directed, channel) = validate_route-none s r.0 r.1 f passed in
      record {
        session = s;
        sender = r.0;
        receiver = r.1;
        credential = c;
        session_found = s_found;
        session_active = active;
        generation = generation;
        route = lock_route_endpoints-IsRoute s f.direction owner tenant t r_ok;
        sender_id = sender_id;
        receiver_id = receiver_id;
        directed = directed;
        channel = is_channel-digest f s channel;
        credential_found =
            subst (λ n. find (is_credential_of credential_id n) t.credentials ≡ some c) sender_id
              c_found;
        live = guard-ok _ ErrorCode.security_violation h5;
      }

  put_authorized-checked :
      (owner tenant : Text) (credential_id : ℕ) (f : EncryptedFrame) (now : ℕ) (t : FrameTables)
      → is_ok (put_authorized_endpoint_frame channel_digest owner tenant credential_id f now t).1
        ≡ true
      → check_authorized channel_digest
          (trim_space owner)
          (trim_space tenant)
          credential_id
          f
          now
          t.tables
        ≡ ok tt
  unfolding put_authorized_endpoint_frame put_authorized_once
  put_authorized-checked owner tenant credential_id f now t h =
      elim (Option-cases (argument_error owner credential_id f now)) [
        | inr (e, x) ↦ absurd (ground arith)
        | inl x ↦
            elim (Result-cases (
              check_authorized channel_digest (trim_space owner) (trim_space tenant) credential_id f
                now t.tables)) [ inl (_, y) ↦ y | inr (e, y) ↦ absurd (ground arith) ]
      ]

  -- A frame that the store accepts, as new or as a duplicate, belongs to an active session of the
  -- owner and tenant at the frame's key generation; the session's two endpoints are active and not
  -- revoked; the frame's sender and receiver are these endpoints, in the order and with the types
  -- of the frame's direction; its channel is the digest of the session and the endpoints; and the
  -- sender's credential is active, not revoked, and valid at the time of the call.
  pub put_authorized_endpoint_frame-IsAdmissible :
      (owner tenant : Text) (credential_id : ℕ) (f : EncryptedFrame) (now : ℕ) (t : FrameTables)
      → is_ok (put_authorized_endpoint_frame channel_digest owner tenant credential_id f now t).1
        ≡ true
      → IsAdmissible (trim_space owner) (trim_space tenant) credential_id f now t.tables
  put_authorized_endpoint_frame-IsAdmissible owner tenant credential_id f now t h =
      check_authorized-IsAdmissible (trim_space owner) (trim_space tenant) credential_id f now
        t.tables (put_authorized-checked owner tenant credential_id f now t h)
