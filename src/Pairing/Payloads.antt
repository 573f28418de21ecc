-- ===== src/Pairing/Payloads.antt =====
-- The messages of internal/pairing/service.go: each is a payload and the envelope that signs it.
use snw_agent_link.Prelude.{ℕ, String}
use snw_agent_link.Time.{Time}
use snw_agent_link.Model.{SignedEnvelope}

pub record InvitePayload : Type 0 where
  pub invite_id : String
  pub inviting_agent_id : String
  pub inviting_agent_public_key : String
  pub inviting_host_fingerprint : String
  pub inviting_tailscale_address : String
  pub inviting_node_id : String
  pub target_agent_id : String
  pub secret : String
  pub expires_at : Time

pub record AcceptancePayload : Type 0 where
  pub invite_id : String
  pub invite_digest : String
  pub inviting_agent_id : String
  pub accepting_agent_id : String
  pub accepting_agent_public_key : String
  pub accepting_host_fingerprint : String
  pub accepting_tailscale_address : String
  pub accepting_node_id : String
  pub secret_proof : String

pub record ConfirmationPayload : Type 0 where
  pub invite_id : String
  pub invite_digest : String
  pub acceptance_digest : String
  pub inviting_agent_id : String
  pub inviting_agent_public_key : String
  pub inviting_host_fingerprint : String
  pub accepting_agent_id : String
  pub accepting_agent_public_key : String
  pub accepting_host_fingerprint : String

pub record ActivationReceiptPayload : Type 0 where
  pub invite_id : String
  pub confirmation_digest : String
  pub inviting_agent_id : String
  pub accepting_agent_id : String
  pub accepting_agent_public_key : String
  pub accepting_host_fingerprint : String

pub record RevocationPayload : Type 0 where
  pub revoking_agent_id : String
  pub revoking_agent_public_key : String
  pub revoking_host_fingerprint : String
  pub target_agent_id : String
  pub reason : String
  pub revoked_at : Time

-- A payload with its envelope: `PairingInvite`, `PairingAcceptance`, `PairingConfirmation`,
-- `PairingActivationReceipt`, `RevocationNotice`.
pub record Signed (T : Type 0) : Type 0 where
  pub payload : T
  pub envelope : SignedEnvelope

abbrev pub Invite : Type 0
Invite = Signed InvitePayload

abbrev pub Acceptance : Type 0
Acceptance = Signed AcceptancePayload

abbrev pub Confirmation : Type 0
Confirmation = Signed ConfirmationPayload

abbrev pub ActivationReceipt : Type 0
ActivationReceipt = Signed ActivationReceiptPayload

abbrev pub RevocationNotice : Type 0
RevocationNotice = Signed RevocationPayload

-- The inputs of CreateInvite and ApproveAcceptance.
pub record CreateInviteInput : Type 0 where
  pub remote_agent_id : String
  pub local_host_fingerprint : String
  pub local_tailscale_address : String
  pub local_node_id : String
  pub ttl : ℕ

pub record ApproveAcceptanceInput : Type 0 where
  pub expected_host_fingerprint : String
  pub expected_agent_fingerprint : String
