-- ===== src/Domain/Credential.antt =====
-- domain/model.go: endpoint credentials, WebSocket tickets and acknowledgement cursors. A status
-- that is none of the declared constants is `unknown`; a token hash is the number that its 32 bytes
-- spell.
use harness_platform_monorep.Prelude.{ℕ, Bool, Option, List, ◌==◌, Text}
use harness_platform_monorep.Gateway.Ranges.{SequenceRange}

pub data CredentialStatus : Type 0 where
  active rotated revoked expired unknown : CredentialStatus

abbrev pub credential_status_code : CredentialStatus → ℕ
credential_status_code CredentialStatus.active = 0
credential_status_code CredentialStatus.rotated = 1
credential_status_code CredentialStatus.revoked = 2
credential_status_code CredentialStatus.expired = 3
credential_status_code CredentialStatus.unknown = 4

abbrev pub is_credential_status : CredentialStatus → CredentialStatus → Bool
is_credential_status a b = credential_status_code a == credential_status_code b

pub record EndpointCredential : Type 0 where
  pub id : ℕ
  pub endpoint_id : ℕ
  pub family_id : ℕ
  pub token_hash : ℕ
  pub signing_jkt : Text
  pub scopes : List Text
  pub status : CredentialStatus
  pub expires_at : ℕ
  pub rotated_from : ℕ
  pub created_at : ℕ
  pub updated_at : ℕ
  pub revoked_at : Option ℕ

pub data TicketStatus : Type 0 where
  issued consumed expired revoked unknown : TicketStatus

abbrev pub ticket_status_code : TicketStatus → ℕ
ticket_status_code TicketStatus.issued = 0
ticket_status_code TicketStatus.consumed = 1
ticket_status_code TicketStatus.expired = 2
ticket_status_code TicketStatus.revoked = 3
ticket_status_code TicketStatus.unknown = 4

abbrev pub is_ticket_status : TicketStatus → TicketStatus → Bool
is_ticket_status a b = ticket_status_code a == ticket_status_code b

pub record WsTicket : Type 0 where
  pub id : ℕ
  pub token_hash : ℕ
  pub endpoint_id : ℕ
  pub credential_id : ℕ
  pub purpose : Text
  pub origin : Text
  pub protocol : Text
  pub status : TicketStatus
  pub expires_at : ℕ
  pub consumed_at : Option ℕ
  pub created_at : ℕ
  pub row_version : ℕ

pub record AckCursor : Type 0 where
  pub session_id : ℕ
  pub key_generation : ℕ
  pub direction : ℕ
  pub sender_endpoint_id : ℕ
  pub receiver_endpoint_id : ℕ
  pub highest_contiguous_sequence : ℕ
  pub received_ranges : List SequenceRange
  pub updated_at : ℕ
  pub row_version : ℕ

-- domain/m2_identity.go and the row of store/m2_identity_schema.go.
pub record RefreshCredential : Type 0 where
  pub id : ℕ
  pub endpoint_id : ℕ
  pub family_id : ℕ
  pub token_hash : ℕ
  pub signing_jkt : Text
  pub status : CredentialStatus
  pub expires_at : ℕ
  pub rotated_from : ℕ
  pub rotated_to : ℕ
  pub used_at : Option ℕ
  pub revoked_at : Option ℕ
  pub created_at : ℕ
  pub updated_at : ℕ

pub data KeyPackageStatus : Type 0 where
  pending delivered acknowledged expired revoked unknown : KeyPackageStatus

-- `SessionKeyPackage`.
pub record SessionKeyPackage : Type 0 where
  pub id : ℕ
  pub session_id : ℕ
  pub generation : ℕ
  pub issuer_aba_endpoint_id : ℕ
  pub recipient_hc_endpoint_id : ℕ
  pub crypto_suite : ℕ
  pub encapsulated_key : List ℕ
  pub ciphertext : List ℕ
  pub context_hash : ℕ
  pub issuer_signature : List ℕ
  pub issuer_credential_id : ℕ
  pub status : KeyPackageStatus
  pub expires_at : ℕ
  pub acknowledged_at : Option ℕ
  pub created_at : ℕ
