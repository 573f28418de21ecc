-- ===== src/Tests/Pairing.antt =====
-- The theorems on the pairing service, at the handshake of Alice and Bob.
use snw_agent_link.Tests.Toy.{toy, alice, bob, at, empty}
use snw_agent_link.Tests.Scenario.{offer, handshake}
use snw_agent_link.Errors.{Result, ok, err, invalid_transition}
use snw_agent_link.Exec.{◌>>=◌}
use snw_agent_link.Identity.{fingerprint, sign_envelope, verify_envelope, verify_envelope_for_agent}
use snw_agent_link.Model.{
  contact_state_eq, role_eq, outbox_state_eq, Contact, active, blocked, revoked, PairingSession,
  SignedEnvelope,
}
use snw_agent_link.Pairing.Accept.{
  accept_imported_invite, approve_acceptance, chosen_contact, chosen_by_id, consume,
  require_consumed, store_accepted, conflict_is_mismatch, store_approved,
}
use snw_agent_link.Pairing.Activation.{
  IsReceived, apply_confirmation-IsConfirmed, apply_confirmation_failed,
  apply_activation_receipt-IsReceived,
}
use snw_agent_link.Pairing.Authentic.{IsConfirmed, IsActivated, IsSignedBy}
use snw_agent_link.Pairing.Confirm.{
  apply_confirmation, apply_activation_receipt, confirmation_mismatch, activate,
  checked_confirmation, receipt_mismatch, checked_receipt,
}
use snw_agent_link.Pairing.Cutoff.{
  IsShutOut, revoke-IsShutOut, block-IsShutOut, apply_revocation-IsShutOut,
}
use snw_agent_link.Pairing.Envelope.{
  public_key, sign_payload, verify_payload, digest_envelope, hash_secret, acceptance_secret_proof,
  endpoint_for_agent, split_tailnet_address,
}
use snw_agent_link.Pairing.Invite.{
  create_invite, import_invite, require, reject_blocked_contact, store_created, absent,
  consumed_instead, store_imported, or_mismatch, zero_contact,
}
use snw_agent_link.Pairing.Operations.{perform, Operation, create, block_local}
use snw_agent_link.Pairing.Payloads.{Confirmation, ActivationReceipt, RevocationNotice}
use snw_agent_link.Pairing.Revoke.{
  shut_out, revoke, block, revoke_with_notice, revocation_mismatch, checked_revocation,
  apply_revocation,
}
use snw_agent_link.Pairing.Whitelist.{MayActivate, perform-keeps_identity, perform-activates_none}
use snw_agent_link.Prelude.{same, is_empty, size, text_lt, refl, ◌≡◌, some, true, false}
use snw_agent_link.Store.Contacts.{
  contact_key, may_replace, upsert_contact, get_contact, list_contacts, find_contact, is_pinned,
}
use snw_agent_link.Store.Contacts.Pinning.{SameIdentity}
use snw_agent_link.Store.Grants.{revoke_attachment_grants_for_contact, contact_grants}
use snw_agent_link.Store.Outbox.{cancel_outbox_for_contact, contact_messages}
use snw_agent_link.Store.Pairings.{
  request_key, create_pairing_request, get_pairing_request_for_agent, session_key,
  upsert_pairing_session, get_pairing_session, find_pairing_session,
  validate_and_consume_pairing_request_for_agent,
}
use snw_agent_link.Store.Tables.{Database}
use snw_agent_link.Table.{select_one, select, update, affected, delete, taken, insert}
use snw_agent_link.Table.Sort.{order_by}

abbrev or_else : {A : Type 0} → A → Result A → A
or_else a (ok b) = b
or_else a (err e) = a

abbrev no_envelope : SignedEnvelope
no_envelope = record {
  agent_id = "";
  key_fingerprint = "";
  kind = "";
  payload = "";
  issued_at = 0;
  nonce = "";
  signature = "";
}

abbrev notice_of : Result (RevocationNotice × Contact) → Result RevocationNotice
notice_of (ok (n, c)) = ok n
notice_of (err e) = err e

abbrev the_confirmation : Confirmation
the_confirmation =
    or_else
      (record {
        payload = record {
          invite_id = "";
          invite_digest = "";
          acceptance_digest = "";
          inviting_agent_id = "";
          inviting_agent_public_key = "";
          inviting_host_fingerprint = "";
          accepting_agent_id = "";
          accepting_agent_public_key = "";
          accepting_host_fingerprint = "";
        };
        envelope = no_envelope;
      })
      (offer (empty, empty)).0

-- Bob's database when the confirmation comes, and Alice's when she has sent it.
abbrev bob_awaits : Database
bob_awaits = (offer (empty, empty)).1.1

abbrev alice_awaits : Database
alice_awaits = (offer (empty, empty)).1.0

abbrev the_receipt : ActivationReceipt
the_receipt =
    or_else
      (record {
        payload = record {
          invite_id = "";
          confirmation_digest = "";
          inviting_agent_id = "";
          accepting_agent_id = "";
          accepting_agent_public_key = "";
          accepting_host_fingerprint = "";
        };
        envelope = no_envelope;
      })
      (apply_confirmation toy (at 5 "m") (some bob) the_confirmation bob_awaits).0

abbrev bob_paired : Database
bob_paired = (handshake (empty, empty)).1.1

abbrev alice_paired : Database
alice_paired = (handshake (empty, empty)).1.0

-- Alice's contact Bob.
abbrev bob_contact : Contact
bob_contact = or_else zero_contact (handshake (empty, empty)).0

abbrev the_notice : RevocationNotice
the_notice =
    or_else
      (record {
        payload = record {
          revoking_agent_id = "";
          revoking_agent_public_key = "";
          revoking_host_fingerprint = "";
          target_agent_id = "";
          reason = "";
          revoked_at = 0;
        };
        envelope = no_envelope;
      })
      (notice_of (revoke_with_notice toy (at 7 "r") (some bob) "alice" "done" bob_paired).0)

abbrev revoked_contact : Contact
revoked_contact = or_else zero_contact (revoke (at 7 "r") "alice" "bob" alice_paired).0

abbrev blocked_contact : Contact
blocked_contact = or_else zero_contact (block (at 7 "r") "alice" "bob" alice_paired).0

abbrev cut_off_contact : Contact
cut_off_contact =
    or_else zero_contact (apply_revocation toy (at 8 "s") (some alice) the_notice alice_paired).0

abbrev to_carol : Operation
to_carol = create (at 9 "t") (some alice) (record {
  remote_agent_id = "carol";
  local_host_fingerprint = "host-a";
  local_tailscale_address = "10.0.0.1";
  local_node_id = "node-a";
  ttl = 60000000000;
})

abbrev blocking : Operation
blocking = block_local (at 9 "z") "alice" "bob"

paired : find_contact "alice" "bob" alice_paired ≡ some bob_contact
unfolding ◌>>=◌ same is_empty size text_lt select_one select update affected delete taken insert
    order_by contact_key may_replace upsert_contact get_contact list_contacts request_key
    create_pairing_request get_pairing_request_for_agent session_key upsert_pairing_session
    get_pairing_session find_pairing_session validate_and_consume_pairing_request_for_agent
    contact_state_eq role_eq create_invite import_invite accept_imported_invite approve_acceptance
    apply_confirmation apply_activation_receipt require reject_blocked_contact store_created absent
    consumed_instead store_imported or_mismatch chosen_contact chosen_by_id consume require_consumed
    store_accepted conflict_is_mismatch store_approved confirmation_mismatch activate
    checked_confirmation receipt_mismatch checked_receipt public_key sign_payload verify_payload
    digest_envelope hash_secret acceptance_secret_proof endpoint_for_agent split_tailnet_address
    fingerprint sign_envelope verify_envelope
paired = refl

pinned : is_pinned bob_contact.state ≡ true
unfolding ◌>>=◌ same is_empty size text_lt select_one select update affected delete taken insert
    order_by contact_key may_replace upsert_contact get_contact list_contacts request_key
    create_pairing_request get_pairing_request_for_agent session_key upsert_pairing_session
    get_pairing_session find_pairing_session validate_and_consume_pairing_request_for_agent
    contact_state_eq role_eq create_invite import_invite accept_imported_invite approve_acceptance
    apply_confirmation apply_activation_receipt require reject_blocked_contact store_created absent
    consumed_instead store_imported or_mismatch chosen_contact chosen_by_id consume require_consumed
    store_accepted conflict_is_mismatch store_approved confirmation_mismatch activate
    checked_confirmation receipt_mismatch checked_receipt public_key sign_payload verify_payload
    digest_envelope hash_secret acceptance_secret_proof endpoint_for_agent split_tailnet_address
    fingerprint sign_envelope verify_envelope
pinned = refl

perform-keeps_identity_example :
    (c' : Contact) × (find_contact "alice" "bob" (perform toy blocking alice_paired) ≡ some c')
    × SameIdentity bob_contact c'
perform-keeps_identity_example =
    perform-keeps_identity toy blocking alice_paired "alice" "bob" bob_contact paired pinned

still_paired : find_contact "alice" "bob" (perform toy to_carol alice_paired) ≡ some bob_contact
unfolding ◌>>=◌ same is_empty size text_lt select_one select update affected delete taken insert
    order_by contact_key may_replace upsert_contact get_contact list_contacts request_key
    create_pairing_request get_pairing_request_for_agent session_key upsert_pairing_session
    get_pairing_session find_pairing_session validate_and_consume_pairing_request_for_agent
    contact_state_eq role_eq create_invite import_invite accept_imported_invite approve_acceptance
    apply_confirmation apply_activation_receipt require reject_blocked_contact store_created absent
    consumed_instead store_imported or_mismatch chosen_contact chosen_by_id consume require_consumed
    store_accepted conflict_is_mismatch store_approved confirmation_mismatch activate
    checked_confirmation receipt_mismatch checked_receipt public_key sign_payload verify_payload
    digest_envelope hash_secret acceptance_secret_proof endpoint_for_agent split_tailnet_address
    fingerprint sign_envelope verify_envelope verify_envelope_for_agent shut_out revoke block
    revoke_with_notice revocation_mismatch checked_revocation apply_revocation
    cancel_outbox_for_contact contact_messages outbox_state_eq revoke_attachment_grants_for_contact
    contact_grants perform
still_paired = refl

is_active : bob_contact.state ≡ active
unfolding ◌>>=◌ same is_empty size text_lt select_one select update affected delete taken insert
    order_by contact_key may_replace upsert_contact get_contact list_contacts request_key
    create_pairing_request get_pairing_request_for_agent session_key upsert_pairing_session
    get_pairing_session find_pairing_session validate_and_consume_pairing_request_for_agent
    contact_state_eq role_eq create_invite import_invite accept_imported_invite approve_acceptance
    apply_confirmation apply_activation_receipt require reject_blocked_contact store_created absent
    consumed_instead store_imported or_mismatch chosen_contact chosen_by_id consume require_consumed
    store_accepted conflict_is_mismatch store_approved confirmation_mismatch activate
    checked_confirmation receipt_mismatch checked_receipt public_key sign_payload verify_payload
    digest_envelope hash_secret acceptance_secret_proof endpoint_for_agent split_tailnet_address
    fingerprint sign_envelope verify_envelope verify_envelope_for_agent shut_out revoke block
    revoke_with_notice revocation_mismatch checked_revocation apply_revocation
    cancel_outbox_for_contact contact_messages outbox_state_eq revoke_attachment_grants_for_contact
    contact_grants perform
is_active = refl

never : ¬ (MayActivate to_carol)
never e = e

perform-activates_none_example :
    (c : Contact) × (find_contact "alice" "bob" alice_paired ≡ some c) × (c.state ≡ active)
perform-activates_none_example =
    perform-activates_none toy to_carol alice_paired "alice" "bob" bob_contact never still_paired
      is_active

confirmed :
    (apply_confirmation toy (at 5 "m") (some bob) the_confirmation bob_awaits).0 ≡ ok the_receipt
unfolding ◌>>=◌ same is_empty size text_lt select_one select update affected delete taken insert
    order_by contact_key may_replace upsert_contact get_contact list_contacts request_key
    create_pairing_request get_pairing_request_for_agent session_key upsert_pairing_session
    get_pairing_session find_pairing_session validate_and_consume_pairing_request_for_agent
    contact_state_eq role_eq create_invite import_invite accept_imported_invite approve_acceptance
    apply_confirmation apply_activation_receipt require reject_blocked_contact store_created absent
    consumed_instead store_imported or_mismatch chosen_contact chosen_by_id consume require_consumed
    store_accepted conflict_is_mismatch store_approved confirmation_mismatch activate
    checked_confirmation receipt_mismatch checked_receipt public_key sign_payload verify_payload
    digest_envelope hash_secret acceptance_secret_proof endpoint_for_agent split_tailnet_address
    fingerprint sign_envelope verify_envelope
confirmed = refl

apply_confirmation-IsConfirmed_example :
    (s : PairingSession) × IsConfirmed toy bob the_confirmation s bob_awaits
    × IsActivated "bob" s.remote_agent_id bob_awaits
        (apply_confirmation toy (at 5 "m") (some bob) the_confirmation bob_awaits).1
apply_confirmation-IsConfirmed_example =
    apply_confirmation-IsConfirmed toy (at 5 "m") the_confirmation bob_awaits bob the_receipt
      confirmed

confirmed_before :
    (apply_confirmation toy (at 5 "m") (some bob) the_confirmation bob_paired).0
    ≡ err invalid_transition
unfolding ◌>>=◌ same is_empty size text_lt select_one select update affected delete taken insert
    order_by contact_key may_replace upsert_contact get_contact list_contacts request_key
    create_pairing_request get_pairing_request_for_agent session_key upsert_pairing_session
    get_pairing_session find_pairing_session validate_and_consume_pairing_request_for_agent
    contact_state_eq role_eq create_invite import_invite accept_imported_invite approve_acceptance
    apply_confirmation apply_activation_receipt require reject_blocked_contact store_created absent
    consumed_instead store_imported or_mismatch chosen_contact chosen_by_id consume require_consumed
    store_accepted conflict_is_mismatch store_approved confirmation_mismatch activate
    checked_confirmation receipt_mismatch checked_receipt public_key sign_payload verify_payload
    digest_envelope hash_secret acceptance_secret_proof endpoint_for_agent split_tailnet_address
    fingerprint sign_envelope verify_envelope
confirmed_before = refl

apply_confirmation_failed_example :
    (apply_confirmation toy (at 5 "m") (some bob) the_confirmation bob_paired).1.contacts
    ≡ bob_paired.contacts
apply_confirmation_failed_example =
    apply_confirmation_failed toy bob bob_paired (at 5 "m") the_confirmation confirmed_before

received :
    (apply_activation_receipt toy (at 6 "n") (some alice) the_receipt alice_awaits).0
    ≡ ok bob_contact
unfolding ◌>>=◌ same is_empty size text_lt select_one select update affected delete taken insert
    order_by contact_key may_replace upsert_contact get_contact list_contacts request_key
    create_pairing_request get_pairing_request_for_agent session_key upsert_pairing_session
    get_pairing_session find_pairing_session validate_and_consume_pairing_request_for_agent
    contact_state_eq role_eq create_invite import_invite accept_imported_invite approve_acceptance
    apply_confirmation apply_activation_receipt require reject_blocked_contact store_created absent
    consumed_instead store_imported or_mismatch chosen_contact chosen_by_id consume require_consumed
    store_accepted conflict_is_mismatch store_approved confirmation_mismatch activate
    checked_confirmation receipt_mismatch checked_receipt public_key sign_payload verify_payload
    digest_envelope hash_secret acceptance_secret_proof endpoint_for_agent split_tailnet_address
    fingerprint sign_envelope verify_envelope
received = refl

apply_activation_receipt-IsReceived_example :
    (s : PairingSession) × IsReceived toy alice the_receipt s alice_awaits
    × IsActivated "alice" s.remote_agent_id alice_awaits
        (apply_activation_receipt toy (at 6 "n") (some alice) the_receipt alice_awaits).1
apply_activation_receipt-IsReceived_example =
    apply_activation_receipt-IsReceived toy alice alice_awaits (at 6 "n") the_receipt bob_contact
      received

revoked_now : (revoke (at 7 "r") "alice" "bob" alice_paired).0 ≡ ok revoked_contact
unfolding ◌>>=◌ same is_empty size text_lt select_one select update affected delete taken insert
    order_by contact_key may_replace upsert_contact get_contact list_contacts request_key
    create_pairing_request get_pairing_request_for_agent session_key upsert_pairing_session
    get_pairing_session find_pairing_session validate_and_consume_pairing_request_for_agent
    contact_state_eq role_eq create_invite import_invite accept_imported_invite approve_acceptance
    apply_confirmation apply_activation_receipt require reject_blocked_contact store_created absent
    consumed_instead store_imported or_mismatch chosen_contact chosen_by_id consume require_consumed
    store_accepted conflict_is_mismatch store_approved confirmation_mismatch activate
    checked_confirmation receipt_mismatch checked_receipt public_key sign_payload verify_payload
    digest_envelope hash_secret acceptance_secret_proof endpoint_for_agent split_tailnet_address
    fingerprint sign_envelope verify_envelope verify_envelope_for_agent shut_out revoke block
    revoke_with_notice revocation_mismatch checked_revocation apply_revocation
    cancel_outbox_for_contact contact_messages outbox_state_eq revoke_attachment_grants_for_contact
    contact_grants perform
revoked_now = refl

revoke-IsShutOut_example :
    IsShutOut "alice" "bob" revoked (revoke (at 7 "r") "alice" "bob" alice_paired).1
    × (c : Contact) × (find_contact "alice" "bob" alice_paired ≡ some c)
    × (contact_state_eq c.state blocked ≡ false)
revoke-IsShutOut_example =
    revoke-IsShutOut (at 7 "r") "alice" "bob" alice_paired revoked_contact revoked_now

blocked_now : (block (at 7 "r") "alice" "bob" alice_paired).0 ≡ ok blocked_contact
unfolding ◌>>=◌ same is_empty size text_lt select_one select update affected delete taken insert
    order_by contact_key may_replace upsert_contact get_contact list_contacts request_key
    create_pairing_request get_pairing_request_for_agent session_key upsert_pairing_session
    get_pairing_session find_pairing_session validate_and_consume_pairing_request_for_agent
    contact_state_eq role_eq create_invite import_invite accept_imported_invite approve_acceptance
    apply_confirmation apply_activation_receipt require reject_blocked_contact store_created absent
    consumed_instead store_imported or_mismatch chosen_contact chosen_by_id consume require_consumed
    store_accepted conflict_is_mismatch store_approved confirmation_mismatch activate
    checked_confirmation receipt_mismatch checked_receipt public_key sign_payload verify_payload
    digest_envelope hash_secret acceptance_secret_proof endpoint_for_agent split_tailnet_address
    fingerprint sign_envelope verify_envelope verify_envelope_for_agent shut_out revoke block
    revoke_with_notice revocation_mismatch checked_revocation apply_revocation
    cancel_outbox_for_contact contact_messages outbox_state_eq revoke_attachment_grants_for_contact
    contact_grants perform
blocked_now = refl

block-IsShutOut_example :
    IsShutOut "alice" "bob" blocked (block (at 7 "r") "alice" "bob" alice_paired).1
block-IsShutOut_example =
    block-IsShutOut (at 7 "r") "alice" "bob" alice_paired blocked_contact blocked_now

cut_off_now :
    (apply_revocation toy (at 8 "s") (some alice) the_notice alice_paired).0 ≡ ok cut_off_contact
unfolding ◌>>=◌ same is_empty size text_lt select_one select update affected delete taken insert
    order_by contact_key may_replace upsert_contact get_contact list_contacts request_key
    create_pairing_request get_pairing_request_for_agent session_key upsert_pairing_session
    get_pairing_session find_pairing_session validate_and_consume_pairing_request_for_agent
    contact_state_eq role_eq create_invite import_invite accept_imported_invite approve_acceptance
    apply_confirmation apply_activation_receipt require reject_blocked_contact store_created absent
    consumed_instead store_imported or_mismatch chosen_contact chosen_by_id consume require_consumed
    store_accepted conflict_is_mismatch store_approved confirmation_mismatch activate
    checked_confirmation receipt_mismatch checked_receipt public_key sign_payload verify_payload
    digest_envelope hash_secret acceptance_secret_proof endpoint_for_agent split_tailnet_address
    fingerprint sign_envelope verify_envelope verify_envelope_for_agent shut_out revoke block
    revoke_with_notice revocation_mismatch checked_revocation apply_revocation
    cancel_outbox_for_contact contact_messages outbox_state_eq revoke_attachment_grants_for_contact
    contact_grants perform
cut_off_now = refl

apply_revocation-IsShutOut_example :
    (c : Contact) × (find_contact "alice" "bob" alice_paired ≡ some c)
    × (fingerprint toy bob.public_key ≡ c.remote_agent_fingerprint)
    × IsSignedBy toy toy.marshal_revocation the_notice "contact.revocation" "bob" bob.public_key
    × IsShutOut "alice" "bob" revoked
        (apply_revocation toy (at 8 "s") (some alice) the_notice alice_paired).1
unfolding ◌>>=◌ same is_empty size text_lt select_one select update affected delete taken insert
    order_by contact_key may_replace upsert_contact get_contact list_contacts request_key
    create_pairing_request get_pairing_request_for_agent session_key upsert_pairing_session
    get_pairing_session find_pairing_session validate_and_consume_pairing_request_for_agent
    contact_state_eq role_eq create_invite import_invite accept_imported_invite approve_acceptance
    apply_confirmation apply_activation_receipt require reject_blocked_contact store_created absent
    consumed_instead store_imported or_mismatch chosen_contact chosen_by_id consume require_consumed
    store_accepted conflict_is_mismatch store_approved confirmation_mismatch activate
    checked_confirmation receipt_mismatch checked_receipt public_key sign_payload verify_payload
    digest_envelope hash_secret acceptance_secret_proof endpoint_for_agent split_tailnet_address
    fingerprint sign_envelope verify_envelope verify_envelope_for_agent shut_out revoke block
    revoke_with_notice revocation_mismatch checked_revocation apply_revocation
    cancel_outbox_for_contact contact_messages outbox_state_eq revoke_attachment_grants_for_contact
    contact_grants perform
apply_revocation-IsShutOut_example =
    apply_revocation-IsShutOut toy (at 8 "s") alice the_notice alice_paired cut_off_contact
      cut_off_now
