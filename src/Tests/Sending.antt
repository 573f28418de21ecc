-- ===== src/Tests/Sending.antt =====
-- The theorems on the transport, at a contact with an endpoint.
use snw_agent_link.Tests.Toy.{alice, bob, at, empty}
use snw_agent_link.Tests.Web.{signing, toy_web, early, ones}
use snw_agent_link.Prelude.Bytes.{prefix_of, suffix_of}
use snw_agent_link.Prelude.Split.{cut, split, has_prefix, after_prefix}
use snw_agent_link.Http.{Request, Response, unix_time}
use snw_agent_link.Http.Signature.{
  sign_response, verify_response_for_agent, sign_request, within, same_components,
}
use snw_agent_link.Delivery.Exchange.{Client, Instants, task}
use snw_agent_link.Delivery.Gate.{IsSent, deliver_dynamic-IsSent, deliver_dynamic-revoke}
use snw_agent_link.Delivery.Transport.{deliver_dynamic, Transport}
use snw_agent_link.Errors.{ok, err, digest_mismatch}
use snw_agent_link.Exec.{◌>>=◌}
use snw_agent_link.Model.{
  contact_state_eq, Contact, active, revoked, OutboxMessage, PairingSession, inviter, pending,
}
use snw_agent_link.Pairing.Invite.{zero_contact}
use snw_agent_link.Pairing.Revoke.{revoke, shut_out}
use snw_agent_link.Prelude.{is_empty, size, ◌≡◌, ◌≢◌, refl, ◌∷◌, [], some, true, false}
use snw_agent_link.Store.Contacts.{contact_key, may_replace, get_contact, upsert_contact}
use snw_agent_link.Store.Grants.{revoke_attachment_grants_for_contact, contact_grants}
use snw_agent_link.Store.Outbox.{cancel_outbox_for_contact, contact_messages}
use snw_agent_link.Store.Pairings.{find_pairing_session}
use snw_agent_link.Store.Tables.{Database}
use snw_agent_link.Table.{select_one, select, update}
use snw_agent_link.Table.Sort.{order_by}

abbrev reachable_contact : Contact
reachable_contact = record zero_contact {
  local_agent_id = "alice";
  remote_agent_id = "bob";
  remote_endpoint = "http://10.0.0.2:7443";
  state = active;
}

abbrev bob_session : PairingSession
bob_session = record {
  invite_id = "i";
  local_agent_id = "alice";
  remote_agent_id = "bob";
  role = inviter;
  local_host_fingerprint = "";
  remote_host_fingerprint = "";
  remote_agent_public_key = bob.public_key;
  invite_digest = "";
  acceptance_digest = "";
  confirmation_digest = "";
  expires_at = 0;
  created_at = 0;
  updated_at = 0;
}

abbrev alice_db : Database
alice_db = record empty { contacts = reachable_contact ∷ []; sessions = bob_session ∷ [] }

abbrev the_message : OutboxMessage
the_message = record {
  message_id = "m";
  idempotency_key = "k";
  source_agent_id = "alice";
  target_agent_id = "bob";
  context_id = "c";
  payload = "hello";
  state = pending;
  attempt_count = 0;
  next_attempt_at = 1000000;
  created_at = 1000000;
  updated_at = 0;
}

abbrev to_bob : Request
to_bob = record {
  method = "POST";
  url = "http://10.0.0.2:7443/message";
  is_absolute = true;
  request_uri = "/message";
  escaped_path = "/message";
  raw_query = "";
  url_host = "10.0.0.2:7443";
  has_tls = false;
  host = "10.0.0.2:7443";
  remote_addr = "";
  query = λ name. "";
  headers = λ name. "";
  body = "hello";
}

-- Bob answers every request with a signed body.
abbrev from_bob : Response
from_bob = record {
  status = 200;
  headers = sign_response signing toy_web (λ name. "") 200 "task" bob early "n2";
  body = "task";
}

abbrev bob_client : Client
bob_client = record {
  parse_url = λ s. some (record { scheme = "http"; host = "10.0.0.2:7443"; url = s });
  request_of = λ endpoint payload. some to_bob;
  read_answer = λ r. ok (task r.body);
  round_trip = λ r. ok from_bob;
}

abbrev instants : Instants
instants = record { signed_at = early; nonce = "n1"; verified_at = early }

abbrev online : Transport
online = record {
  trim_space = λ s. s;
  require_node_id = false;
  readiness = some (ok tt);
  identity_of = λ s. ok alice;
  client = bob_client;
  keeps_tasks = true;
}

sent_now :
    (deliver_dynamic signing toy_web online instants early the_message alice_db).0 ≡ ok "task"
unfolding ◌>>=◌ is_empty size select_one select order_by contact_key get_contact contact_state_eq
    find_pairing_session deliver_dynamic verify_response_for_agent sign_response unix_time within
    same_components sign_request prefix_of suffix_of cut split has_prefix after_prefix ones
sent_now = refl

-- An answer with another body is refused.
refused_test :
    (deliver_dynamic signing toy_web
      (record online {
        client = record bob_client { round_trip = λ r. ok (record from_bob { body = "other" }) };
      })
      instants
      early
      the_message
      alice_db).0
    ≡ err digest_mismatch
unfolding ◌>>=◌ is_empty size select_one select order_by contact_key get_contact contact_state_eq
    find_pairing_session deliver_dynamic verify_response_for_agent sign_response unix_time within
    same_components sign_request prefix_of suffix_of cut split has_prefix after_prefix ones
refused_test = refl

deliver_dynamic-IsSent_example : IsSent signing toy_web online instants the_message "task" alice_db
deliver_dynamic-IsSent_example =
    deliver_dynamic-IsSent signing toy_web online instants early the_message alice_db "task"
      sent_now

abbrev revoked_contact : Contact
revoked_contact = record reachable_contact { state = revoked; updated_at = 7000000 }

revoked_now : (revoke (at 7 "r") "alice" "bob" alice_db).0 ≡ ok revoked_contact
unfolding ◌>>=◌ is_empty size select_one select update order_by contact_key may_replace get_contact
    upsert_contact contact_state_eq find_pairing_session deliver_dynamic revoke shut_out
    cancel_outbox_for_contact contact_messages revoke_attachment_grants_for_contact contact_grants
revoked_now = refl

deliver_dynamic-revoke_example :
    (deliver_dynamic signing toy_web online instants early the_message
      (revoke (at 7 "r") "alice" "bob" alice_db).1).0
    ≢ ok "task"
deliver_dynamic-revoke_example =
    deliver_dynamic-revoke signing toy_web (at 7 "r") online instants early the_message alice_db
      revoked_contact "task" revoked_now
