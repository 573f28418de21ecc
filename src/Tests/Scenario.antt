-- ===== src/Tests/Scenario.antt =====
-- Alice invites Bob, and both become active contacts.
use snw_agent_link.Tests.Toy.{toy, alice, bob, at, empty}
use snw_agent_link.Errors.{Result, ok, err}
use snw_agent_link.Exec.{◌>>=◌, Exec, ◌>>◌}
use snw_agent_link.Model.{contact_state_eq, role_eq, Contact, active, awaiting_confirmation}
use snw_agent_link.Pairing.Accept.{
  accept_imported_invite, approve_acceptance, chosen_contact, consume, store_accepted,
  store_approved,
}
use snw_agent_link.Pairing.Confirm.{
  apply_confirmation, apply_activation_receipt, confirmation_mismatch, activate,
  checked_confirmation, receipt_mismatch, checked_receipt,
}
use snw_agent_link.Pairing.Envelope.{
  public_key, sign_payload, verify_payload, digest_envelope, acceptance_secret_proof,
}
use snw_agent_link.Pairing.Invite.{
  create_invite, import_invite, require, reject_blocked_contact, store_created, absent,
  store_imported, or_mismatch,
}
use snw_agent_link.Pairing.Payloads.{Confirmation}
use snw_agent_link.Prelude.{is_empty, size, refl, ◌≡◌, some, Bool, true}
use snw_agent_link.Store.Contacts.{contact_key, may_replace, upsert_contact, get_contact}
use snw_agent_link.Store.Pairings.{
  request_key, create_pairing_request, get_pairing_request_for_agent, session_key,
  upsert_pairing_session, get_pairing_session, find_pairing_session,
  validate_and_consume_pairing_request_for_agent,
}
use snw_agent_link.Store.Tables.{Database, Db}
use snw_agent_link.Table.{select_one, select, update, affected, taken, insert}
use snw_agent_link.Table.Sort.{order_by}

-- The databases of the two agents.
abbrev pub Both : Type 0
Both = Database × Database

abbrev pub on_alice : {A : Type 0} → Db A → Exec Both A
on_alice m s = let (r, d) = m s.0 in (r, (d, s.1))

abbrev pub on_bob : {A : Type 0} → Db A → Exec Both A
on_bob m s = let (r, d) = m s.1 in (r, (s.0, d))

-- Up to the confirmation, which Bob has not seen.
abbrev pub offer : Exec Both Confirmation
offer = do
  invite ← on_alice (
      create_invite toy (at 1 "i") (some alice) (record {
        remote_agent_id = "bob";
        local_host_fingerprint = "host-a";
        local_tailscale_address = "10.0.0.1";
        local_node_id = "node-a";
        ttl = 60000000000;
      }))
  on_bob (import_invite toy (at 2 "j") (some bob) invite)
  acceptance ←
      on_bob (accept_imported_invite toy (at 3 "k") (some bob) "i" "host-b" "10.0.0.2" "node-b")
  on_alice (
      approve_acceptance toy (at 4 "l") (some alice) acceptance (record {
        expected_host_fingerprint = "host-b";
        expected_agent_fingerprint = bob.public_key;
      }))

abbrev pub handshake : Exec Both Contact
handshake = do
  confirmation ← offer
  receipt ← on_bob (apply_confirmation toy (at 5 "m") (some bob) confirmation)
  on_alice (apply_activation_receipt toy (at 6 "n") (some alice) receipt)

abbrev is_active : Result Contact → Bool
is_active (ok c) = contact_state_eq c.state active
is_active (err e) = contact_state_eq active awaiting_confirmation

-- The handshake ends with an active contact on both sides.
handshake_test :
    (is_active (handshake (empty, empty)).0 ≡ true)
    × (is_active (get_contact "bob" "alice" (handshake (empty, empty)).1.1) ≡ true)
unfolding ◌>>=◌ is_empty size select_one select update affected taken insert order_by contact_key
    may_replace upsert_contact get_contact request_key create_pairing_request
    get_pairing_request_for_agent session_key upsert_pairing_session get_pairing_session
    find_pairing_session validate_and_consume_pairing_request_for_agent contact_state_eq role_eq
    create_invite import_invite accept_imported_invite approve_acceptance apply_confirmation
    apply_activation_receipt require reject_blocked_contact store_created absent store_imported
    or_mismatch chosen_contact consume store_accepted store_approved confirmation_mismatch activate
    checked_confirmation receipt_mismatch checked_receipt public_key sign_payload verify_payload
    digest_envelope acceptance_secret_proof
handshake_test = (refl, refl)
