-- ===== src/Store/AuthorizedFrames/Revoked.antt =====
-- store/authorized_frame.go and store/revocation_scope.go: frames after the revocation of an
-- endpoint.
use harness_platform_monorep.Prelude.{
  ℕ, ◌≡◌, sym, ap, ◌⊎◌, inl, inr, true, false, some, List, arith, ◌==◌, Bool-cases, Text,
  trim_space,
}
use harness_platform_monorep.Domain.Endpoint.{Endpoint}
use harness_platform_monorep.Domain.Session.{Session}
use harness_platform_monorep.Domain.Frame.{EncryptedFrame}
use harness_platform_monorep.Store.Table.{ok, find, find-holds, is_ok, ok-injective}
use harness_platform_monorep.Store.Revocation.{Tables, revoke_endpoint_for_owner, is_owned}
use harness_platform_monorep.Store.Revocation.Standing.{revoked_row}
use harness_platform_monorep.Store.KeyPackages.Revoked.{found_once}
use harness_platform_monorep.Store.AuthorizedFrames.{
  FrameTables, by_direction, put_authorized_endpoint_frame,
}
use harness_platform_monorep.Store.AuthorizedFrames.Admission.{
  IsRoute, put_authorized_endpoint_frame-IsAdmissible,
}

owned_id :
    (id : ℕ) (owner tenant : Text) (rows : List Endpoint) {e : Endpoint}
    → find (is_owned id owner tenant) rows ≡ some e
    → e.id ≡ id
owned_id id owner tenant rows found =
    let held = find-holds (is_owned id owner tenant) rows found in ground arith

by_direction_cases :
    (direction : ℕ) (aba hc sender receiver : Endpoint)
    → by_direction direction aba hc ≡ ok (sender, receiver)
    → ((sender ≡ hc) × (receiver ≡ aba)) ⊎ ((sender ≡ aba) × (receiver ≡ hc))
by_direction_cases direction aba hc sender receiver h = elim (Bool-cases (direction == 1)) [
  | inl x ↦
      let same = ok-injective (hc, aba) (sender, receiver) (rw x at h) in
      inl (ap (λ r. r.0) (sym same), ap (λ r. r.1) (sym same))
  | inr x ↦ elim (Bool-cases (direction == 2)) [
    | inl y ↦
        let same = ok-injective (aba, hc) (sender, receiver) (rw (x, y) at h) in
        inr (ap (λ r. r.0) (sym same), ap (λ r. r.1) (sym same))
    | inr y ↦ absurd (ground arith)
  ]
]

-- The sender and the receiver of a route are the session's endpoints.
names_side :
    (from to id : ℕ) (s : Session) (direction : ℕ) (owner tenant : Text) (t : Tables)
    {sender receiver : Endpoint}
    → IsRoute s direction owner tenant t sender receiver
    → sender.id ≡ from
    → receiver.id ≡ to
    → (from ≡ id) ⊎ (to ≡ id)
    → (s.aba_endpoint_id ≡ id) ⊎ (s.hc_endpoint_id ≡ id)
names_side from to id s direction owner tenant t {sender} {receiver} r x y names =
    let aba_id = owned_id s.aba_endpoint_id owner tenant t.endpoints r.aba_found in
    let hc_id = owned_id s.hc_endpoint_id owner tenant t.endpoints r.hc_found in
    elim (by_direction_cases direction r.aba r.hc sender receiver r.directed) [
      | inl (p, q) ↦ let p' = ap (λ e. e.id) p in let q' = ap (λ e. e.id) q in ground arith
      | inr (p, q) ↦ let p' = ap (λ e. e.id) p in let q' = ap (λ e. e.id) q in ground arith
    ]

module _ (channel_digest : ℕ → ℕ → ℕ → ℕ) where
  -- After the revocation of an endpoint by its owner, the store accepts no frame of this owner and
  -- tenant that the endpoint sends or receives, whatever the credential and the time.
  pub revoked_endpoint_no_frame :
      (id : ℕ) (owner tenant : Text) (now : ℕ) (t : FrameTables) (credential_id : ℕ)
      (f : EncryptedFrame) (later : ℕ)
      → is_ok (revoke_endpoint_for_owner id owner tenant now t.tables).1 ≡ true
      → (f.sender_endpoint_id ≡ id) ⊎ (f.receiver_endpoint_id ≡ id)
      → let t' = record t { tables = (revoke_endpoint_for_owner id owner tenant now t.tables).0 } in
        is_ok (put_authorized_endpoint_frame channel_digest owner tenant credential_id f later t').1
        ≡ false
  revoked_endpoint_no_frame id owner tenant now t credential_id f later h names =
      let t' = record t { tables = (revoke_endpoint_for_owner id owner tenant now t.tables).0 } in
      let (e, found, revoked) = revoked_row id owner tenant now t.tables h in
      let put =
        put_authorized_endpoint_frame channel_digest owner tenant credential_id f later t' in
      elim (Bool-cases (is_ok put.1)) [
        | inr refused ↦ refused
        | inl accepted ↦
            let a =
              put_authorized_endpoint_frame-IsAdmissible channel_digest owner tenant credential_id f
                later t' accepted in
            let side =
              names_side f.sender_endpoint_id f.receiver_endpoint_id id a.session f.direction
                (trim_space owner) (trim_space tenant) t'.tables a.route a.sender_id a.receiver_id
                names in
            absurd (elim side [
              | inl aba ↦
                  found_once id a.session.aba_endpoint_id (trim_space owner) (trim_space tenant)
                    t'.tables.endpoints aba found revoked a.route.aba_found a.route.aba_live.0
              | inr hc ↦
                  found_once id a.session.hc_endpoint_id (trim_space owner) (trim_space tenant)
                    t'.tables.endpoints hc found revoked a.route.hc_found a.route.hc_live.0
            ])
      ]
