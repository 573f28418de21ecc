-- ===== src/Pairing/Accept.antt =====
-- acceptImportedInvite and ApproveAcceptance of internal/pairing/service.go. The exported variants
-- of AcceptImportedInvite call acceptImportedInvite with empty strings for what they leave out.
use snw_agent_link.Prelude.{
  ℕ, suc, Bool, true, false, ◌&&◌, ◌||◌, not, Option, some, List, [], ◌∷◌, String, same, is_empty,
  ltb, if◌then◌else◌,
}
use snw_agent_link.Errors.{
  Result, ok, err, refused, invalid_transition, invite_consumed, invite_expired, invalid_secret,
  identity_mismatch, identity_conflict,
}
use snw_agent_link.Exec.{pure, fail, query, attempt, reject_if, ◌>>=◌, ◌>>◌}
use snw_agent_link.Time.{Time, before}
use snw_agent_link.Model.{
  Contact, PairingRequest, PairingSession, pending_inbound, awaiting_confirmation, inviter,
  contact_state_eq, role_eq,
}
use snw_agent_link.Platform.{Platform}
use snw_agent_link.Identity.{Identity, fingerprint}
use snw_agent_link.Store.Tables.{Db}
use snw_agent_link.Store.Contacts.{upsert_contact, get_contact, list_contacts}
use snw_agent_link.Store.Pairings.{
  Validator, get_pairing_request_for_agent, upsert_pairing_session, get_pairing_session,
  find_pairing_session, validate_and_consume_pairing_request_for_agent,
}
use snw_agent_link.Pairing.Payloads.{
  AcceptancePayload, Acceptance, ConfirmationPayload, Confirmation, ApproveAcceptanceInput,
}
use snw_agent_link.Pairing.Envelope.{
  kind_acceptance, kind_confirmation, public_key, sign_payload, verify_payload, digest_envelope,
  acceptance_secret_proof, endpoint_for_agent,
}
use snw_agent_link.Pairing.Invite.{Readings, zero_contact, require, or_mismatch}

-- The validator that both operations pass: the invite has not expired.
abbrev pub not_expired : Time → Validator
not_expired now r = if not (before now r.expires_at) then err invite_expired else ok tt

-- The loop over the contacts: how many are pending, and the last of them.
pending_loop : ℕ → Contact → List Contact → ℕ × Contact
pending_loop count contact [] = (count, contact)
pending_loop count contact (c ∷ cs) =
    let found = contact_state_eq c.state pending_inbound in
    pending_loop (if found then suc count else count) (if found then c else contact) cs

only_pending : ℕ × Contact → Result Contact
only_pending (count, c) = if ltb 1 count then err invalid_transition else ok c

unfoldable pub chosen_by_id : Identity → String → Db Contact
chosen_by_id i invite_id = do
  session ← query (get_pairing_session invite_id i.agent_id)
  c ← query (get_contact i.agent_id session.remote_agent_id)
  reject_if (not (contact_state_eq c.state pending_inbound)) invalid_transition
  pure c

-- The contact whose invite is accepted, by the invite's id or as the only one that is pending.
unfoldable pub chosen_contact : Identity → String → Db Contact
unfolding pending_loop only_pending chosen_by_id
chosen_contact i invite_id =
    if not (is_empty invite_id)
    then chosen_by_id i invite_id
    else query (λ d. only_pending (pending_loop 0 zero_contact (list_contacts i.agent_id d)))

unfoldable pub require_consumed : PairingRequest × Bool → Db PairingRequest
require_consumed (r, true) = pure r
require_consumed (r, false) = fail invite_consumed

-- ValidateAndConsumePairingRequestForAgent with its two ways to fail.
unfoldable pub consume : String → String → Time → Db PairingRequest
unfolding require_consumed
consume id local now = do
  consumed ← validate_and_consume_pairing_request_for_agent id local now (some (not_expired now))
  require_consumed consumed

module _ (p : Platform) where
  acceptance_payload :
      Identity → PairingSession → PairingRequest → String → String → String → AcceptancePayload
  unfolding fingerprint
  acceptance_payload i session request host address node = record {
    invite_id = request.id;
    invite_digest = session.invite_digest;
    inviting_agent_id = request.remote_agent_id;
    accepting_agent_id = i.agent_id;
    accepting_agent_public_key = i.public_key;
    accepting_host_fingerprint = host;
    accepting_tailscale_address = p.trim_space address;
    accepting_node_id = p.trim_space node;
    secret_proof =
        acceptance_secret_proof p request.secret_hash session.invite_digest i.agent_id host
          (fingerprint p i.public_key);
  }

  -- The writes after the request is consumed.
  unfoldable pub store_accepted :
      Readings → PairingSession → Contact → String → Acceptance → Db Acceptance
  store_accepted r session contact host acceptance = do
    upsert_pairing_session (r.wall 1) (record session {
      local_host_fingerprint = host;
      acceptance_digest = digest_envelope p acceptance.envelope;
    })
    upsert_contact (r.wall 2) (record contact { state = awaiting_confirmation })
    pure acceptance

  unfoldable pub accept_imported_invite :
      Readings → Option Identity → String → String → String → String → Db Acceptance
  unfolding acceptance_payload
  accept_imported_invite r identity invite_id host address node = do
    i ← require identity refused
    contact ← chosen_contact i invite_id
    reject_if (is_empty contact.local_agent_id) invalid_transition
    session ← query (find_pairing_session i.agent_id contact.remote_agent_id)
    request ← consume session.invite_id i.agent_id (r.clock 0)
    store_accepted r session contact host (
        sign_payload p p.marshal_acceptance i kind_acceptance
          (acceptance_payload i session request host address node) (r.wall 0) r.nonce)

  -- The session and the request agree with the acceptance.
  approval_mismatch : Identity → PairingSession → PairingRequest → AcceptancePayload → Bool
  approval_mismatch i session request a =
      not (role_eq session.role inviter)
      || (not (same request.local_agent_id i.agent_id)
          || (not (same request.remote_agent_id a.accepting_agent_id)
              || (not (same a.inviting_agent_id i.agent_id)
                  || not (same a.invite_digest session.invite_digest))))

  -- The operator's expectations; an empty host fingerprint expects nothing.
  unexpected : ApproveAcceptanceInput → AcceptancePayload → String → Bool
  unfolding fingerprint
  unexpected approval a key =
      (not (is_empty approval.expected_host_fingerprint)
        && not (same a.accepting_host_fingerprint approval.expected_host_fingerprint))
      || not (same (fingerprint p key) approval.expected_agent_fingerprint)

  confirmation_payload :
      Identity → PairingSession → PairingRequest → Acceptance → String → ConfirmationPayload
  confirmation_payload i session request acceptance key = record {
    invite_id = request.id;
    invite_digest = session.invite_digest;
    acceptance_digest = digest_envelope p acceptance.envelope;
    inviting_agent_id = i.agent_id;
    inviting_agent_public_key = i.public_key;
    inviting_host_fingerprint = session.local_host_fingerprint;
    accepting_agent_id = acceptance.payload.accepting_agent_id;
    accepting_agent_public_key = key;
    accepting_host_fingerprint = acceptance.payload.accepting_host_fingerprint;
  }

  approved_contact : Identity → AcceptancePayload → String → Contact
  unfolding fingerprint
  approved_contact i a key = record zero_contact {
    local_agent_id = i.agent_id;
    remote_agent_id = a.accepting_agent_id;
    remote_endpoint = endpoint_for_agent p a.accepting_tailscale_address a.accepting_agent_id;
    remote_binding = p.trim_space a.accepting_tailscale_address;
    remote_node_id = p.trim_space a.accepting_node_id;
    remote_host_fingerprint = a.accepting_host_fingerprint;
    remote_agent_fingerprint = fingerprint p key;
    state = awaiting_confirmation;
  }

  -- ErrIdentityConflict of the store is ErrIdentityMismatch here.
  unfoldable pub conflict_is_mismatch : Result (Unit {0}) → Db (Unit {0})
  conflict_is_mismatch (ok _) = pure tt
  conflict_is_mismatch (err identity_conflict) = fail identity_mismatch
  conflict_is_mismatch (err e) = fail e

  unfoldable pub store_approved :
      Readings
      → Identity
      → PairingSession
      → AcceptancePayload
      → String
      → Confirmation
      → Db Confirmation
  unfolding approved_contact conflict_is_mismatch
  store_approved r i session a key confirmation = do
    upsert_pairing_session (r.wall 1) (record session {
      remote_host_fingerprint = confirmation.payload.accepting_host_fingerprint;
      remote_agent_public_key = key;
      acceptance_digest = confirmation.payload.acceptance_digest;
      confirmation_digest = digest_envelope p confirmation.envelope;
    })
    written ← attempt (upsert_contact (r.wall 2) (approved_contact i a key))
    conflict_is_mismatch written
    pure confirmation

  unfoldable pub approve_acceptance :
      Readings → Option Identity → Acceptance → ApproveAcceptanceInput → Db Confirmation
  unfolding approval_mismatch unexpected confirmation_payload
  approve_acceptance r identity acceptance approval = do
    i ← require identity refused
    reject_if (is_empty approval.expected_agent_fingerprint) refused
    key ← or_mismatch p (public_key acceptance.payload.accepting_agent_public_key)
    reject_if (unexpected approval acceptance.payload key) identity_mismatch
    query (λ _.
        verify_payload p p.marshal_acceptance acceptance kind_acceptance
          acceptance.payload.accepting_agent_id key)
    request ← query (get_pairing_request_for_agent acceptance.payload.invite_id i.agent_id)
    session ← query (get_pairing_session acceptance.payload.invite_id i.agent_id)
    reject_if (approval_mismatch i session request acceptance.payload) identity_mismatch
    reject_if
        (not (
          same
            (acceptance_secret_proof p request.secret_hash session.invite_digest
              acceptance.payload.accepting_agent_id acceptance.payload.accepting_host_fingerprint
              (fingerprint p key))
            acceptance.payload.secret_proof))
        invalid_secret
    consume request.id i.agent_id (r.clock 0)
    store_approved r i session acceptance.payload key (
        sign_payload p p.marshal_confirmation i kind_confirmation
          (confirmation_payload i session request acceptance key) (r.wall 0) r.nonce)
