-- ===== src/Model.antt =====
-- internal/model/types.go: the records that the components share. A string type with constants is
-- a data type of those constants, with `unset` for the empty string where the zero value of a
-- struct can show it. A pointer to a time is an option.
use snw_agent_link.Prelude.{ℕ, String, Bool, true, false, Option}
use snw_agent_link.Prelude.Int.{ℤ}
use snw_agent_link.Time.{Time}

pub data ContactState : Type 0 where
  unset unknown pending_outbound pending_inbound awaiting_confirmation active revoked blocked :
      ContactState

pub record AgentRegistration : Type 0 where
  pub agent_id : String
  pub display_name : String
  pub local_endpoint : String
  pub agent_card_json : String
  pub identity_public_key : String
  pub capability_public_key : String
  pub capability_generation : ℕ
  pub registration_token_hash : String
  pub created_at : Time
  pub updated_at : Time

pub record Contact : Type 0 where
  pub local_agent_id : String
  pub remote_agent_id : String
  pub remote_node_id : String
  pub remote_endpoint : String
  pub remote_binding : String
  pub remote_host_fingerprint : String
  pub remote_agent_fingerprint : String
  pub state : ContactState
  pub created_at : Time
  pub updated_at : Time

pub record PairingRequest : Type 0 where
  pub id : String
  pub local_agent_id : String
  pub remote_agent_id : String
  pub remote_host_fingerprint : String
  pub remote_agent_fingerprint : String
  pub secret_hash : String
  pub expires_at : Time
  pub consumed_at : Option Time
  pub created_at : Time

-- `Role`, by the constants of internal/pairing/service.go.
pub data Role : Type 0 where
  inviter invitee : Role

pub record PairingSession : Type 0 where
  pub invite_id : String
  pub local_agent_id : String
  pub remote_agent_id : String
  pub role : Role
  pub local_host_fingerprint : String
  pub remote_host_fingerprint : String
  pub remote_agent_public_key : String
  pub invite_digest : String
  pub acceptance_digest : String
  pub confirmation_digest : String
  pub expires_at : Time
  pub created_at : Time
  pub updated_at : Time

-- `issued_at` counts milliseconds, from the zero time as the tables do.
pub record SignedEnvelope : Type 0 where
  pub agent_id : String
  pub key_fingerprint : String
  pub kind : String
  pub payload : String
  pub issued_at : ℕ
  pub nonce : String
  pub signature : String

pub data OutboxState : Type 0 where
  pending delivered cancelled : OutboxState

pub record OutboxMessage : Type 0 where
  pub message_id : String
  pub idempotency_key : String
  pub source_agent_id : String
  pub target_agent_id : String
  pub context_id : String
  pub payload : String
  pub state : OutboxState
  pub attempt_count : ℕ
  pub next_attempt_at : Time
  pub created_at : Time
  pub updated_at : Time

pub record DeduplicationRecord : Type 0 where
  pub source_agent_id : String
  pub target_agent_id : String
  pub agent_key_epoch : ℕ
  pub message_id : String
  pub task_id : String
  pub response_status : ℕ
  pub response_type : String
  pub response_body : String
  pub created_at : Time

pub record DeliveryReceipt : Type 0 where
  pub message_id : String
  pub target_agent_id : String
  pub remote_receipt_id : String
  pub delivered_at : Time

pub record AttachmentGrant : Type 0 where
  pub grant_id : String
  pub blob_id : String
  pub blob_uri : String
  pub owner_agent_id : String
  pub target_agent_id : String
  pub context_id : String
  pub digest : String
  pub size : ℤ
  pub expires_at : Time
  pub revoked_at : Option Time
  pub created_at : Time
  pub updated_at : Time

pub record InboxMessage : Type 0 where
  pub message_id : String
  pub target_agent_id : String
  pub source_agent_id : String
  pub context_id : String
  pub body : String
  pub state : String
  pub received_at : Time

pub record TaskIndex : Type 0 where
  pub task_id : String
  pub context_id : String
  pub local_agent_id : String
  pub remote_agent_id : String
  pub state : String
  pub cursor : String
  pub updated_at : Time

pub record AuditEntry : Type 0 where
  pub id : String
  pub actor_agent_id : String
  pub remote_agent_id : String
  pub action : String
  pub outcome : String
  pub request_id : String
  pub created_at : Time

-- `==` on the two string types.
unfoldable pub contact_state_eq : ContactState → ContactState → Bool
contact_state_eq unset unset = true
contact_state_eq unknown unknown = true
contact_state_eq pending_outbound pending_outbound = true
contact_state_eq pending_inbound pending_inbound = true
contact_state_eq awaiting_confirmation awaiting_confirmation = true
contact_state_eq active active = true
contact_state_eq revoked revoked = true
contact_state_eq blocked blocked = true
contact_state_eq _ _ = false

unfoldable pub outbox_state_eq : OutboxState → OutboxState → Bool
outbox_state_eq pending pending = true
outbox_state_eq delivered delivered = true
outbox_state_eq cancelled cancelled = true
outbox_state_eq _ _ = false

unfoldable pub role_eq : Role → Role → Bool
role_eq inviter inviter = true
role_eq invitee invitee = true
role_eq _ _ = false
