-- ===== src/Examples/Data.antt =====
-- The values that the tests share.
use harness_platform_monorep.Prelude.{none, [], ◌∷◌, replicate, text}
use harness_platform_monorep.Domain.Endpoint.{Endpoint, EndpointType, EndpointStatus}
use harness_platform_monorep.Domain.Session.{Session, SessionStatus}
use harness_platform_monorep.Domain.Enrollment.{Enrollment, EnrollmentStatus}
use harness_platform_monorep.Domain.Frame.{EncryptedFrame, FrameStatus}
use harness_platform_monorep.Domain.ControlOutbox.{
  ControlOutbox, ControlOutboxKind, ControlOutboxStatus,
}
use harness_platform_monorep.Domain.Credential.{
  EndpointCredential, CredentialStatus, WsTicket, TicketStatus, AckCursor, RefreshCredential,
  SessionKeyPackage, KeyPackageStatus,
}
use harness_platform_monorep.Domain.SessionRequest.{SessionRequest}

abbrev pub hc : Endpoint
hc = record {
  id = 2;
  owner_user_id = text "ann";
  tenant_id = text "home";
  type = EndpointType.hc_web;
  name = text "browser";
  signing_public_jwk = 1 ∷ [];
  kem_public_jwk = 2 ∷ [];
  signing_jkt = text "sig";
  kem_jkt = text "kem";
  status = EndpointStatus.active;
  credential_family_id = 4;
  software_version = text "1";
  platform_name = text "web";
  last_seen_at = none;
  revoked_at = none;
  row_version = 1;
  created_at = 10;
  updated_at = 10;
}

abbrev pub credential : EndpointCredential
credential = record {
  id = 5;
  endpoint_id = 2;
  family_id = 4;
  token_hash = 77;
  signing_jkt = text "sig";
  scopes = text "connect" ∷ [];
  status = CredentialStatus.active;
  expires_at = 100;
  rotated_from = 0;
  created_at = 10;
  updated_at = 10;
  revoked_at = none;
}

abbrev pub refresh : RefreshCredential
refresh = record {
  id = 6;
  endpoint_id = 2;
  family_id = 4;
  token_hash = 88;
  signing_jkt = text "sig";
  status = CredentialStatus.active;
  expires_at = 1000;
  rotated_from = 0;
  rotated_to = 0;
  used_at = none;
  revoked_at = none;
  created_at = 10;
  updated_at = 10;
}

abbrev pub next_refresh : RefreshCredential
next_refresh = record refresh { id = 16; token_hash = 188; rotated_from = 6 }

abbrev pub next_access : EndpointCredential
next_access = record credential { id = 15; token_hash = 177; expires_at = 200 }

abbrev pub ticket : WsTicket
ticket = record {
  id = 9;
  token_hash = 99;
  endpoint_id = 2;
  credential_id = 5;
  purpose = text "control";
  origin = text "https";
  protocol = text "awp";
  status = TicketStatus.issued;
  expires_at = 60;
  consumed_at = none;
  created_at = 30;
  row_version = 1;
}

abbrev pub session : Session
session = record {
  id = 3;
  owner_user_id = text "ann";
  tenant_id = text "home";
  aba_endpoint_id = 1;
  hc_endpoint_id = 2;
  runtime_profile_id = text "default";
  workspace_id = text "main";
  requested_capabilities = [];
  status = SessionStatus.waiting_key;
  current_key_generation = 0;
  created_at = 10;
  updated_at = 10;
  last_activity_at = none;
  closed_at = none;
  row_version = 1;
}

abbrev pub key_package : SessionKeyPackage
key_package = record {
  id = 11;
  session_id = 3;
  generation = 1;
  issuer_aba_endpoint_id = 1;
  recipient_hc_endpoint_id = 2;
  crypto_suite = 1;
  encapsulated_key = 1 ∷ [];
  ciphertext = 1 ∷ [];
  context_hash = 1;
  issuer_signature = replicate 64 1;
  issuer_credential_id = 5;
  status = KeyPackageStatus.pending;
  expires_at = 90;
  acknowledged_at = none;
  created_at = 20;
}

abbrev pub frame : EncryptedFrame
frame = record {
  message_id = 21;
  channel_id = 22;
  session_id = 3;
  sender_endpoint_id = 1;
  receiver_endpoint_id = 2;
  direction = 2;
  sequence = 1;
  key_generation = 1;
  key_id = 23;
  created_at_ms = 30;
  aad = replicate 148 1;
  ciphertext = 5 ∷ 6 ∷ [];
  signature = replicate 64 1;
  content_hash = 24;
  status = FrameStatus.stored;
  received_at = 30;
  routed_at = none;
  acknowledged_at = none;
  expires_at = 100;
}

abbrev pub second_frame : EncryptedFrame
second_frame = record frame { message_id = 31; sequence = 2 }

abbrev pub fourth_frame : EncryptedFrame
fourth_frame = record frame { message_id = 41; sequence = 4; status = FrameStatus.routed }

abbrev pub cursor : AckCursor
cursor = record {
  session_id = 3;
  key_generation = 1;
  direction = 2;
  sender_endpoint_id = 1;
  receiver_endpoint_id = 2;
  highest_contiguous_sequence = 1;
  received_ranges = record { start = 4; end = 4 } ∷ [];
  updated_at = 50;
  row_version = 0;
}

abbrev pub enrollment : Enrollment
enrollment = record {
  id = 51;
  owner_user_id = text "ann";
  tenant_id = text "home";
  endpoint_type = EndpointType.aba;
  endpoint_name = text "desk";
  device_code_hash = 52;
  user_code_hash = 53;
  signing_public_jwk = 1 ∷ [];
  kem_public_jwk = 2 ∷ [];
  signing_jkt = text "sig";
  kem_jkt = text "kem";
  status = EnrollmentStatus.pending;
  expires_at = 100;
  approved_by = [];
  approved_at = none;
  consumed_at = none;
  endpoint_id = 0;
  row_version = 1;
  created_at = 10;
  updated_at = 10;
}

abbrev pub outbox : ControlOutbox
outbox = record {
  id = 61;
  owner_user_id = text "ann";
  tenant_id = text "home";
  session_id = 3;
  correlation_id = 62;
  recipient_endpoint_id = 2;
  kind = ControlOutboxKind.open_tunnel;
  payload = 1 ∷ [];
  packet = [];
  status = ControlOutboxStatus.pending;
  created_at = 10;
  updated_at = 10;
  expires_at = 40;
  completed_at = none;
  row_version = 1;
}

abbrev pub request : SessionRequest
request = record {
  aba_endpoint_id = 1;
  hc_endpoint_id = 2;
  runtime_profile_id = text "default";
  workspace_id = text "main-1";
  requested_capabilities = text "session" ∷ text "cancel" ∷ [];
}
