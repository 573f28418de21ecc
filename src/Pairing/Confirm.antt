-- ===== src/Pairing/Confirm.antt =====
-- ApplyConfirmation and ApplyActivationReceipt of internal/pairing/service.go: the two operations
-- that make a contact active.
use snw_agent_link.Prelude.{Bool, ◌||◌, not, Option, String, same}
use snw_agent_link.Errors.{refused, invalid_transition, identity_mismatch}
use snw_agent_link.Exec.{pure, query, reject_if, ◌>>=◌, ◌>>◌}
use snw_agent_link.Model.{
  Contact, PairingSession, awaiting_confirmation, active, inviter, invitee, contact_state_eq,
  role_eq,
}
use snw_agent_link.Platform.{Platform}
use snw_agent_link.Identity.{Identity}
use snw_agent_link.Store.Tables.{Db}
use snw_agent_link.Store.Contacts.{upsert_contact, get_contact}
use snw_agent_link.Store.Pairings.{upsert_pairing_session, get_pairing_session}
use snw_agent_link.Pairing.Payloads.{
  ConfirmationPayload, Confirmation, ActivationReceiptPayload, ActivationReceipt,
}
use snw_agent_link.Pairing.Envelope.{
  kind_confirmation, kind_receipt, public_key, sign_payload, verify_payload, digest_envelope,
}
use snw_agent_link.Pairing.Invite.{Readings, require, or_mismatch}

module _ (p : Platform) where
  unfoldable pub confirmation_mismatch :
      Identity → PairingSession → ConfirmationPayload → String → Bool
  confirmation_mismatch i session c accepting_key =
      not (role_eq session.role invitee)
      || (not (same c.inviting_agent_id session.remote_agent_id)
          || (not (same c.accepting_agent_id i.agent_id)
              || (not (same accepting_key i.public_key)
                  || (not (same c.inviting_host_fingerprint session.remote_host_fingerprint)
                      || (not (same c.accepting_host_fingerprint session.local_host_fingerprint)
                          || (not (same c.invite_digest session.invite_digest)
                              || not (same c.acceptance_digest session.acceptance_digest)))))))

  -- GetContact, the test of its state, and the write that makes it active.
  unfoldable pub activate : Readings → Identity → PairingSession → Db Contact
  activate r i session = do
    contact ← query (get_contact i.agent_id session.remote_agent_id)
    reject_if (not (contact_state_eq contact.state awaiting_confirmation)) invalid_transition
    upsert_contact (r.wall 1) (record contact { state = active })
    pure contact

  receipt_payload : Identity → PairingSession → String → ActivationReceiptPayload
  receipt_payload i session digest = record {
    invite_id = session.invite_id;
    confirmation_digest = digest;
    inviting_agent_id = session.remote_agent_id;
    accepting_agent_id = i.agent_id;
    accepting_agent_public_key = i.public_key;
    accepting_host_fingerprint = session.local_host_fingerprint;
  }

  -- What ApplyConfirmation checks before its first write: the session, and every field.
  unfoldable pub checked_confirmation : Identity → Confirmation → Db PairingSession
  checked_confirmation i confirmation = do
    session ← query (get_pairing_session confirmation.payload.invite_id i.agent_id)
    inviting_key ← or_mismatch p (public_key confirmation.payload.inviting_agent_public_key)
    reject_if (not (same inviting_key session.remote_agent_public_key)) identity_mismatch
    query (λ _.
        verify_payload p p.marshal_confirmation confirmation kind_confirmation
          confirmation.payload.inviting_agent_id inviting_key)
    accepting_key ← or_mismatch p (public_key confirmation.payload.accepting_agent_public_key)
    reject_if (confirmation_mismatch i session confirmation.payload accepting_key) identity_mismatch
    pure session

  unfoldable pub apply_confirmation :
      Readings → Option Identity → Confirmation → Db ActivationReceipt
  unfolding receipt_payload
  apply_confirmation r identity confirmation = do
    i ← require identity refused
    session ← checked_confirmation i confirmation
    upsert_pairing_session (r.wall 0)
        (record session { confirmation_digest = digest_envelope p confirmation.envelope })
    activate r i session
    pure (
        sign_payload p p.marshal_receipt i kind_receipt
          (receipt_payload i session (digest_envelope p confirmation.envelope)) (r.wall 2) r.nonce)

  unfoldable pub receipt_mismatch : Identity → PairingSession → ActivationReceiptPayload → Bool
  receipt_mismatch i session a =
      not (role_eq session.role inviter)
      || (not (same a.inviting_agent_id i.agent_id)
          || (not (same a.accepting_agent_id session.remote_agent_id)
              || (not (same a.accepting_host_fingerprint session.remote_host_fingerprint)
                  || not (same a.confirmation_digest session.confirmation_digest))))

  unfoldable pub checked_receipt : Identity → ActivationReceipt → Db PairingSession
  checked_receipt i receipt = do
    session ← query (get_pairing_session receipt.payload.invite_id i.agent_id)
    key ← or_mismatch p (public_key receipt.payload.accepting_agent_public_key)
    reject_if (not (same key session.remote_agent_public_key)) identity_mismatch
    query (λ _.
        verify_payload p p.marshal_receipt receipt kind_receipt receipt.payload.accepting_agent_id
          key)
    reject_if (receipt_mismatch i session receipt.payload) identity_mismatch
    pure session

  unfoldable pub apply_activation_receipt :
      Readings → Option Identity → ActivationReceipt → Db Contact
  apply_activation_receipt r identity receipt = do
    i ← require identity refused
    session ← checked_receipt i receipt
    contact ← activate r i session
    query (get_contact contact.local_agent_id contact.remote_agent_id)
