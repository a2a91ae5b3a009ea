-- ===== src/Examples/Scopes.antt =====
-- Tests of the tables of sessions, key packages and frames.
use harness_platform_monorep.Prelude.{
  ℕ, ◌+◌, ◌≡◌, refl, ◌⊎◌, inl, inr, true, false, some, List, [], ◌∷◌, arith, ◌==◌, text, trim_space,
}
use harness_platform_monorep.Domain.Endpoint
use harness_platform_monorep.Domain.Endpoint.{Endpoint, EndpointType}
use harness_platform_monorep.Domain.Session.{Session, SessionStatus, activate_op, close_op, Op}
use harness_platform_monorep.Domain.Session.Lifecycle
use harness_platform_monorep.Domain.Credential.{EndpointCredential, SessionKeyPackage}
use harness_platform_monorep.Domain.KeyPackage
use harness_platform_monorep.Domain.Frame
use harness_platform_monorep.Domain.Frame.{EncryptedFrame}
use harness_platform_monorep.Store.Table.{ok, find, affected, update_where, absent, is_ok}
use harness_platform_monorep.Store.Frames.{PutFrameOutcome, put_row}
use harness_platform_monorep.Store.Revocation.{Tables, revoke_endpoint_for_owner, revoke_row}
use harness_platform_monorep.Store.Sessions.History.{find-serve, serve, calls_of}
use harness_platform_monorep.Store.KeyPackages.{
  put_session_key_package, put_once, check_put, insert_package, same_key_package,
}
use harness_platform_monorep.Store.KeyPackages.Issuing.{
  IsAuthorised, put_session_key_package-IsAuthorised, put_session_key_package_twice,
}
use harness_platform_monorep.Store.KeyPackages.Revoked.{revoked_endpoint_no_key_package}
use harness_platform_monorep.Store.KeyPackages.Acknowledgement.{acknowledge_and_activate}
use harness_platform_monorep.Store.KeyPackages.Acknowledgement.Activation.{
  acknowledge_and_activate_atomic, IsAcknowledged,
}
use harness_platform_monorep.Store.AuthorizedFrames.{
  FrameTables, lock_frame_endpoint, lock_route_endpoints, validate_route, check_authorized,
  put_authorized_once, argument_error, put_authorized_endpoint_frame,
}
use harness_platform_monorep.Store.AuthorizedFrames.Admission.{
  IsAdmissible, put_authorized_endpoint_frame-IsAdmissible,
}
use harness_platform_monorep.Store.AuthorizedFrames.Revoked.{revoked_endpoint_no_frame}
use harness_platform_monorep.Examples.Data.{hc, credential, session, key_package, frame}

abbrev bridge : Endpoint
bridge = record hc { id = 1; type = EndpointType.aba }

abbrev bridge_credential : EndpointCredential
bridge_credential = record credential { endpoint_id = 1 }

abbrev tables : Tables
tables = record {
  endpoints = hc ∷ bridge ∷ [];
  credentials = bridge_credential ∷ [];
  refresh_credentials = [];
  tickets = [];
  key_packages = [];
  sessions = session ∷ [];
}

abbrev second_session : Session
second_session = record session { id = 4 }

abbrev calls : List (ℕ × Op × ℕ)
calls = (3, activate_op 1, 20) ∷ (4, close_op, 30) ∷ (3, close_op, 40) ∷ []

find-serve_example :
    find (λ r. r.id == 3) (serve calls (second_session ∷ session ∷ []))
    ≡ some (Lifecycle.run ((activate_op 1, 20) ∷ (close_op, 40) ∷ []) session)
unfolding absent find calls_of
find-serve_example =
    find-serve calls (second_session ∷ session ∷ []) session 3 (refl, (refl, tt)) (omega arith) refl

put_session_key_package-IsAuthorised_example :
    IsAuthorised (trim_space (text "ann")) (trim_space (text "home")) key_package tables
unfolding put_session_key_package put_once check_put insert_package absent find trim_space
    KeyPackage.validate KeyPackage.validate_next_generation
put_session_key_package-IsAuthorised_example =
    put_session_key_package-IsAuthorised (text "ann") (text "home") key_package tables refl

put_session_key_package_twice_example :
    let t' = (put_session_key_package (text "ann") (text "home") key_package tables).0 in
    (o : PutFrameOutcome) × (p : SessionKeyPackage) × ((put_session_key_package
        (text "ann")
        (text "home")
        key_package
        tables).1
      ≡ ok (o, p))
    × (same_key_package p key_package ≡ true)
    × (put_session_key_package (text "ann") (text "home") key_package t'
        ≡ (t', ok (PutFrameOutcome.duplicate, p)))
unfolding put_session_key_package put_once check_put insert_package absent find trim_space
    KeyPackage.validate KeyPackage.validate_next_generation
put_session_key_package_twice_example =
    put_session_key_package_twice (text "ann") (text "home") key_package tables refl

revoked_endpoint_no_key_package_example :
    is_ok
      (put_session_key_package
        (text "ann")
        (text "home")
        key_package
        (revoke_endpoint_for_owner 1 (text "ann") (text "home") 50 tables).0).1
    ≡ false
unfolding revoke_endpoint_for_owner revoke_row Endpoint.revoke find affected update_where trim_space
revoked_endpoint_no_key_package_example =
    revoked_endpoint_no_key_package 1 (text "ann") (text "home") 50 tables key_package refl
      (inl refl)

abbrev issued : Tables
issued = record tables { key_packages = key_package ∷ [] }

acknowledge_and_activate_atomic_example :
    let r = acknowledge_and_activate 11 2 (text "ann") (text "home") 50 issued in
    ((is_ok r.1 ≡ false) × (r.0 ≡ issued))
    ⊎ ((p : SessionKeyPackage) × (s : Session) × (r.1 ≡ ok s)
        × IsAcknowledged 11 2 p r.0
        × (find (λ x. x.id == p.session_id) r.0.sessions ≡ some s)
        × (s.status ≡ SessionStatus.active)
        × (s.current_key_generation ≡ p.generation))
acknowledge_and_activate_atomic_example =
    acknowledge_and_activate_atomic 11 2 (text "ann") (text "home") 50 issued

-- The channel of the session's endpoints.
abbrev digest : ℕ → ℕ → ℕ → ℕ
digest session_id aba hc' = 16 + session_id + aba + hc'

abbrev running : FrameTables
running = record {
  tables = record tables {
    sessions = record session { status = SessionStatus.active; current_key_generation = 1 } ∷ [];
  };
  frames = [];
}

put_authorized_endpoint_frame-IsAdmissible_example :
    IsAdmissible digest
      (trim_space (text "ann"))
      (trim_space (text "home"))
      5
      frame
      50
      running.tables
unfolding put_authorized_endpoint_frame put_authorized_once argument_error check_authorized
    lock_route_endpoints lock_frame_endpoint validate_route find trim_space Frame.validate put_row
    absent
put_authorized_endpoint_frame-IsAdmissible_example =
    put_authorized_endpoint_frame-IsAdmissible digest (text "ann") (text "home") 5 frame 50 running
      refl

revoked_endpoint_no_frame_example :
    is_ok
      (put_authorized_endpoint_frame digest (text "ann") (text "home") 5 frame 60 (record running {
        tables = (revoke_endpoint_for_owner 2 (text "ann") (text "home") 50 running.tables).0;
      })).1
    ≡ false
unfolding revoke_endpoint_for_owner revoke_row Endpoint.revoke find affected update_where trim_space
revoked_endpoint_no_frame_example =
    revoked_endpoint_no_frame digest 2 (text "ann") (text "home") 50 running 5 frame 60 refl
      (inr refl)
