-- ===== src/Pairing/Revoke.antt =====
-- Revoke, RevokeWithNotice, ApplyRevocation, Block and CanCommunicate of internal/pairing/service.go.
use snw_agent_link.Prelude.{Bool, ◌||◌, not, Option, String, same}
use snw_agent_link.Errors.{refused, invalid_transition, identity_mismatch}
use snw_agent_link.Exec.{pure, query, reject_if, ◌>>=◌, ◌>>◌}
use snw_agent_link.Model.{Contact, ContactState, active, revoked, blocked, contact_state_eq}
use snw_agent_link.Platform.{Platform}
use snw_agent_link.Identity.{Identity, fingerprint}
use snw_agent_link.Store.Tables.{Db}
use snw_agent_link.Store.Contacts.{upsert_contact, get_contact}
use snw_agent_link.Store.Pairings.{find_pairing_session}
use snw_agent_link.Store.Outbox.{cancel_outbox_for_contact}
use snw_agent_link.Store.Grants.{revoke_attachment_grants_for_contact}
use snw_agent_link.Pairing.Payloads.{RevocationPayload, RevocationNotice}
use snw_agent_link.Pairing.Envelope.{kind_revocation, public_key, sign_payload, verify_payload}
use snw_agent_link.Pairing.Invite.{Readings, require, or_mismatch}

-- The writes that the three operations share: the new state, the queued messages, the grants.
unfoldable pub shut_out : Readings → Contact → ContactState → Db Contact
shut_out r contact state = do
  upsert_contact (r.wall 0) (record contact { state = state })
  cancel_outbox_for_contact (r.wall 1) contact.local_agent_id contact.remote_agent_id
  revoke_attachment_grants_for_contact (r.wall 2) contact.local_agent_id contact.remote_agent_id
      (r.clock 0)
  query (get_contact contact.local_agent_id contact.remote_agent_id)

unfoldable pub revoke : Readings → String → String → Db Contact
revoke r local remote = do
  contact ← query (get_contact local remote)
  reject_if (contact_state_eq contact.state blocked) invalid_transition
  shut_out r contact revoked

unfoldable pub block : Readings → String → String → Db Contact
block r local remote = do contact ← query (get_contact local remote); shut_out r contact blocked

unfoldable pub can_communicate : Contact → Bool
can_communicate contact = contact_state_eq contact.state active

module _ (p : Platform) where
  unfoldable pub revoke_with_notice :
      Readings → Option Identity → String → String → Db (RevocationNotice × Contact)
  revoke_with_notice r identity remote reason = do
    i ← require identity refused
    contact ← revoke r i.agent_id remote
    session ← query (find_pairing_session i.agent_id remote)
    let payload : RevocationPayload = record {
      revoking_agent_id = i.agent_id;
      revoking_agent_public_key = i.public_key;
      revoking_host_fingerprint = session.local_host_fingerprint;
      target_agent_id = remote;
      reason = reason;
      revoked_at = r.clock 1;
    }
    pure (sign_payload p p.marshal_revocation i kind_revocation payload (r.wall 3) r.nonce, contact)

  -- The notice comes from the peer that the contact pins.
  unfoldable pub revocation_mismatch : Contact → RevocationPayload → String → Bool
  unfolding fingerprint
  revocation_mismatch contact n key =
      not (same n.revoking_host_fingerprint contact.remote_host_fingerprint)
      || not (same (fingerprint p key) contact.remote_agent_fingerprint)

  unfoldable pub checked_revocation : Identity → RevocationNotice → Db Contact
  unfolding revocation_mismatch
  checked_revocation i notice = do
    reject_if (not (same notice.payload.target_agent_id i.agent_id)) identity_mismatch
    contact ← query (get_contact i.agent_id notice.payload.revoking_agent_id)
    key ← or_mismatch p (public_key notice.payload.revoking_agent_public_key)
    reject_if (revocation_mismatch contact notice.payload key) identity_mismatch
    query (λ _.
        verify_payload p p.marshal_revocation notice kind_revocation
          notice.payload.revoking_agent_id key)
    pure contact

  unfoldable pub apply_revocation : Readings → Option Identity → RevocationNotice → Db Contact
  apply_revocation r identity notice = do
    i ← require identity identity_mismatch
    contact ← checked_revocation i notice
    shut_out r contact revoked
