-- ===== src/Pairing/Invite.antt =====
-- CreateInvite and ImportInvite of internal/pairing/service.go. `Readings` holds what an operation
-- takes from outside: the readings of the service's clock and of time.Now() in the order in which it
-- makes them, and the values that it draws at random.
use snw_agent_link.Prelude.{
  ℕ, ◌+◌, ◌||◌, not, Option, none, some, String, same, is_empty, ◌==◌, if◌then◌else◌,
}
use snw_agent_link.Errors.{
  Error, Result, ok, err, not_found, refused, contact_blocked, invite_consumed, invite_expired,
  identity_mismatch,
}
use snw_agent_link.Exec.{pure, fail, query, attempt, reject_if, ◌>>=◌, ◌>>◌}
use snw_agent_link.Time.{Time, before}
use snw_agent_link.Model.{
  Contact, ContactState, PairingRequest, PairingSession, pending_outbound, pending_inbound, blocked,
  inviter, invitee, contact_state_eq,
}
use snw_agent_link.Platform.{Platform}
use snw_agent_link.Identity.{Identity, fingerprint}
use snw_agent_link.Store.Tables.{Database, Db}
use snw_agent_link.Store.Contacts.{upsert_contact, get_contact}
use snw_agent_link.Store.Pairings.{
  create_pairing_request, get_pairing_request_for_agent, upsert_pairing_session,
}
use snw_agent_link.Pairing.Payloads.{InvitePayload, Invite, CreateInviteInput}
use snw_agent_link.Pairing.Envelope.{
  kind_invite, public_key, sign_payload, verify_payload, digest_envelope, hash_secret,
  endpoint_for_agent,
}

pub record Readings : Type 0 where
  pub clock : ℕ → Time
  pub wall : ℕ → Time
  pub uuid : String
  pub nonce : String
  pub random : String

-- The zero value of model.Contact.
abbrev pub zero_contact : Contact
zero_contact = record {
  local_agent_id = "";
  remote_agent_id = "";
  remote_node_id = "";
  remote_endpoint = "";
  remote_binding = "";
  remote_host_fingerprint = "";
  remote_agent_fingerprint = "";
  state = ContactState.unset;
  created_at = 0;
  updated_at = 0;
}

-- A session with the given fields, the others zero.
abbrev pub zero_session : PairingSession
zero_session = record {
  invite_id = "";
  local_agent_id = "";
  remote_agent_id = "";
  role = inviter;
  local_host_fingerprint = "";
  remote_host_fingerprint = "";
  remote_agent_public_key = "";
  invite_digest = "";
  acceptance_digest = "";
  confirmation_digest = "";
  expires_at = 0;
  created_at = 0;
  updated_at = 0;
}

-- `localIdentity == nil` and the like.
unfoldable pub require : {A : Type 0} → Option A → Error → Db A
require none e = fail e
require (some a) e = pure a

blocked_check : Result Contact → Result (Unit {0})
blocked_check (ok c) = if contact_state_eq c.state blocked then err contact_blocked else ok tt
blocked_check (err not_found) = ok tt
blocked_check (err e) = err e

unfoldable pub reject_blocked_contact : String → String → Database → Result (Unit {0})
unfolding blocked_check
reject_blocked_contact local remote d = blocked_check (get_contact local remote d)

module _ (p : Platform) where
  invite_payload : Readings → Identity → CreateInviteInput → InvitePayload
  invite_payload r i input = record {
    invite_id = r.uuid;
    inviting_agent_id = i.agent_id;
    inviting_agent_public_key = i.public_key;
    inviting_host_fingerprint = input.local_host_fingerprint;
    inviting_tailscale_address = input.local_tailscale_address;
    inviting_node_id = p.trim_space input.local_node_id;
    target_agent_id = input.remote_agent_id;
    secret = p.base64_raw_url r.random;
    expires_at = r.clock 0 + input.ttl;
  }

  created_request : Readings → InvitePayload → PairingRequest
  unfolding hash_secret
  created_request r payload = record {
    id = payload.invite_id;
    local_agent_id = payload.inviting_agent_id;
    remote_agent_id = payload.target_agent_id;
    remote_host_fingerprint = "";
    remote_agent_fingerprint = "";
    secret_hash = hash_secret p payload.secret;
    expires_at = payload.expires_at;
    consumed_at = none;
    created_at = r.clock 0;
  }

  -- The three writes of CreateInvite, which are not one transaction.
  unfoldable pub store_created : Readings → Invite → Db Invite
  unfolding created_request
  store_created r invite = do
    create_pairing_request (created_request r invite.payload)
    upsert_pairing_session (r.wall 1) (record zero_session {
      invite_id = invite.payload.invite_id;
      local_agent_id = invite.payload.inviting_agent_id;
      remote_agent_id = invite.payload.target_agent_id;
      role = inviter;
      local_host_fingerprint = invite.payload.inviting_host_fingerprint;
      invite_digest = digest_envelope p invite.envelope;
      expires_at = invite.payload.expires_at;
      created_at = r.clock 0;
    })
    upsert_contact (r.wall 2) (record zero_contact {
      local_agent_id = invite.payload.inviting_agent_id;
      remote_agent_id = invite.payload.target_agent_id;
      state = pending_outbound;
    })
    pure invite

  unfoldable pub create_invite : Readings → Option Identity → CreateInviteInput → Db Invite
  unfolding invite_payload
  create_invite r identity input = do
    i ← require identity refused
    reject_if (is_empty input.remote_agent_id || is_empty input.local_tailscale_address) refused
    reject_if (same input.remote_agent_id i.agent_id) refused
    reject_if (input.ttl == 0) refused
    query (reject_blocked_contact i.agent_id input.remote_agent_id)
    store_created r (
        sign_payload p p.marshal_invite i kind_invite (invite_payload r i input) (r.wall 0) r.nonce)

  -- The look-up that must not find the request.
  unfoldable pub absent : Result PairingRequest → Db (Unit {0})
  absent (ok _) = fail invite_consumed
  absent (err not_found) = pure tt
  absent (err e) = fail e

  -- An INSERT that failed: was the request there after all?
  unfoldable pub consumed_instead : String → String → Result (Unit {0}) → Db (Unit {0})
  consumed_instead id local (ok _) = pure tt
  consumed_instead id local (err e) = do
    again ← attempt (query (get_pairing_request_for_agent id local))
    fail (elim again [ ok _ ↦ invite_consumed | err _ ↦ e ])

  imported_request : Readings → Identity → InvitePayload → String → PairingRequest
  unfolding hash_secret fingerprint
  imported_request r i payload key = record {
    id = payload.invite_id;
    local_agent_id = i.agent_id;
    remote_agent_id = payload.inviting_agent_id;
    remote_host_fingerprint = payload.inviting_host_fingerprint;
    remote_agent_fingerprint = fingerprint p key;
    secret_hash = hash_secret p payload.secret;
    expires_at = payload.expires_at;
    consumed_at = none;
    created_at = r.clock 1;
  }

  imported_session : Invite → PairingRequest → String → PairingSession
  imported_session invite request key = record zero_session {
    invite_id = request.id;
    local_agent_id = request.local_agent_id;
    remote_agent_id = request.remote_agent_id;
    role = invitee;
    remote_host_fingerprint = request.remote_host_fingerprint;
    remote_agent_public_key = key;
    invite_digest = digest_envelope p invite.envelope;
    expires_at = request.expires_at;
    created_at = request.created_at;
  }

  imported_contact : InvitePayload → PairingRequest → Contact
  imported_contact payload request = record zero_contact {
    local_agent_id = request.local_agent_id;
    remote_agent_id = request.remote_agent_id;
    remote_endpoint =
        endpoint_for_agent p payload.inviting_tailscale_address request.remote_agent_id;
    remote_binding = p.trim_space payload.inviting_tailscale_address;
    remote_node_id = p.trim_space payload.inviting_node_id;
    remote_host_fingerprint = request.remote_host_fingerprint;
    remote_agent_fingerprint = request.remote_agent_fingerprint;
    state = pending_inbound;
  }

  -- The three writes of ImportInvite.
  unfoldable pub store_imported : Readings → Invite → PairingRequest → String → Db Contact
  unfolding consumed_instead imported_session imported_contact
  store_imported r invite request key = do
    created ← attempt (create_pairing_request request)
    consumed_instead request.id request.local_agent_id created
    upsert_pairing_session (r.wall 0) (imported_session invite request key)
    upsert_contact (r.wall 1) (imported_contact invite.payload request)
    query (get_contact request.local_agent_id request.remote_agent_id)

  -- `if err != nil { return ErrIdentityMismatch }`
  unfoldable pub or_mismatch : {A : Type 0} → Result A → Db A
  or_mismatch (ok a) = pure a
  or_mismatch (err e) = fail identity_mismatch

  unfoldable pub import_invite : Readings → Option Identity → Invite → Db Contact
  unfolding imported_request
  import_invite r identity invite = do
    i ← require identity refused
    found ← attempt (query (get_pairing_request_for_agent invite.payload.invite_id i.agent_id))
    absent found
    reject_if
        (not (same invite.payload.target_agent_id i.agent_id)
          || is_empty invite.payload.inviting_agent_id)
        identity_mismatch
    query (reject_blocked_contact i.agent_id invite.payload.inviting_agent_id)
    reject_if (not (before (r.clock 0) invite.payload.expires_at)) invite_expired
    key ← or_mismatch (public_key invite.payload.inviting_agent_public_key)
    query (λ _.
        verify_payload p p.marshal_invite invite kind_invite invite.payload.inviting_agent_id key)
    store_imported r invite (imported_request r i invite.payload key) key
