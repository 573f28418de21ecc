-- ===== src/Tests/Storage.antt =====
-- The theorems on the store, at small tables.
use snw_agent_link.Tests.Toy.{
  empty, toy_gcm, toy_aead, toy_nonce, toy_cipher, toy_gcm-IsLawful, toy_nonce_size,
}
use snw_agent_link.Errors.{ok}
use snw_agent_link.Exec.{◌>>=◌}
use snw_agent_link.Model.{
  outbox_state_eq, AttachmentGrant, DeliveryReceipt, OutboxMessage, PairingRequest, delivered,
  pending,
}
use snw_agent_link.Prelude.{
  same, is_empty, text_lt, List, false, none, refl, some, true, ℕ, ◌≡◌, ◌∷◌, [], ◌≢◌,
}
use snw_agent_link.Prelude.Int.{pos}
use snw_agent_link.Secure.{encrypt, decrypt}
use snw_agent_link.Secure.RoundTrip.{decrypt-encrypt}
use snw_agent_link.Store.Dedup.{complete_scoped_message}
use snw_agent_link.Store.Grants.{
  grant_key, grant_matches, authorize_attachment_grant, revoke_attachment_grant,
}
use snw_agent_link.Store.Grants.Laws.{create_grant, revoke_attachment_grant_final, run_grants}
use snw_agent_link.Store.Nonces.{claim_replay_nonce}
use snw_agent_link.Store.Outbox.{message_key, enqueue_outbox, get_outbox}
use snw_agent_link.Store.Outbox.Delivery.{get_outbox-enqueue_outbox}
use snw_agent_link.Store.Outbox.Laws.{
  OutboxOperation, cancel, cancel_contact, deliver, enqueue, retry, run_outbox_all,
  run_outbox_all-keeps,
}
use snw_agent_link.Store.Pairings.{
  request_key, get_pairing_request_for_agent, validate_and_consume_pairing_request_for_agent,
  validated,
}
use snw_agent_link.Store.Pairings.Laws.{
  IsConsumed, create_request, run_requests, validate_and_consume_for_agent_once,
  validate_and_consume_for_agent_outcome, validate_and_consume_for_agent_rolls_back,
}
use snw_agent_link.Store.Tables.{Database}
use snw_agent_link.Table.{select_one, affected, delete, taken}

abbrev the_message : OutboxMessage
the_message = record {
  message_id = "m";
  idempotency_key = "k";
  source_agent_id = "alice";
  target_agent_id = "bob";
  context_id = "c";
  payload = "hello";
  state = pending;
  attempt_count = 0;
  next_attempt_at = 1000000;
  created_at = 1000000;
  updated_at = 0;
}

abbrev holding : OutboxMessage → Database
holding m = record empty { outbox = m ∷ [] }

abbrev delivered_message : OutboxMessage
delivered_message = record the_message { state = delivered }

abbrev receipt_at : ℕ → DeliveryReceipt
receipt_at t = record {
  message_id = "m";
  target_agent_id = "bob";
  remote_receipt_id = "r";
  delivered_at = t;
}

abbrev attacks : List OutboxOperation
attacks =
    cancel 5 "m"
    ∷ cancel_contact 6 "alice" "bob"
    ∷ retry 7 "m" 8
    ∷ deliver (receipt_at 9)
    ∷ enqueue "n" 10 the_message
    ∷ []

settled_found :
    select_one (message_key "m") (holding delivered_message).outbox ≡ some delivered_message
unfolding is_empty select_one message_key
settled_found = refl

is_settled : outbox_state_eq delivered pending ≡ false
unfolding is_empty select_one message_key outbox_state_eq
is_settled = refl

run_outbox_all-keeps_example :
    select_one (message_key "m") (run_outbox_all none attacks (holding delivered_message)).outbox
    ≡ some delivered_message
run_outbox_all-keeps_example =
    run_outbox_all-keeps none attacks (holding delivered_message) "m" delivered_message
      settled_found is_settled

enqueued : (enqueue_outbox (some toy_aead) toy_nonce 2000000 the_message empty).0 ≡ ok tt
unfolding ◌>>=◌ taken enqueue_outbox outbox_state_eq encrypt
enqueued = refl

get_outbox-enqueue_outbox_example :
    get_outbox
      (some toy_aead)
      "m"
      (enqueue_outbox (some toy_aead) toy_nonce 2000000 the_message empty).1
    ≡ ok (record the_message { updated_at = 2000000 })
get_outbox-enqueue_outbox_example =
    get_outbox-enqueue_outbox toy_aead toy_gcm toy_nonce 2000000 the_message empty toy_cipher
      toy_gcm-IsLawful toy_nonce_size enqueued

sealed_hello : encrypt toy_aead toy_nonce "hello" "a" ≡ ok "nnnnnnnnnnnnhello"
unfolding ◌>>=◌ taken enqueue_outbox encrypt
sealed_hello = refl

decrypt-encrypt_example : decrypt toy_aead "nnnnnnnnnnnnhello" "a" ≡ ok "hello"
decrypt-encrypt_example =
    decrypt-encrypt toy_aead toy_gcm toy_nonce "hello" "a" {sealed = "nnnnnnnnnnnnhello"} toy_cipher
      toy_gcm-IsLawful toy_nonce_size sealed_hello

abbrev the_grant : AttachmentGrant
the_grant = record {
  grant_id = "g";
  blob_id = "b";
  blob_uri = "";
  owner_agent_id = "alice";
  target_agent_id = "bob";
  context_id = "c";
  digest = "d";
  size = pos 4;
  expires_at = 9000000;
  revoked_at = none;
  created_at = 1000000;
  updated_at = 1000000;
}

abbrev granting : Database
granting = record empty { grants = the_grant ∷ [] }

revoked_once : (revoke_attachment_grant 7 "g" 6 granting).0 ≡ ok tt
unfolding is_empty affected grant_key grant_matches revoke_attachment_grant
revoked_once = refl

revoke_attachment_grant_final_example :
    authorize_attachment_grant "g" "b" "alice" "bob" "c" "d" 5
      (run_grants (create_grant 8 the_grant ∷ []) (revoke_attachment_grant 7 "g" 6 granting).1)
    ≢ ok the_grant
revoke_attachment_grant_final_example =
    revoke_attachment_grant_final 7 6 "g" (create_grant 8 the_grant ∷ []) granting "b" "alice" "bob"
      "c" "d" 5 the_grant revoked_once

abbrev the_request : PairingRequest
the_request = record {
  id = "i";
  local_agent_id = "alice";
  remote_agent_id = "bob";
  remote_host_fingerprint = "";
  remote_agent_fingerprint = "";
  secret_hash = "s";
  expires_at = 9000000;
  consumed_at = none;
  created_at = 1000000;
}

abbrev requested : Database
requested = record empty { requests = the_request ∷ [] }

abbrev consumed_request : PairingRequest
consumed_request = record the_request { consumed_at = some 2000000 }

consumed_now :
    (validate_and_consume_pairing_request_for_agent "i" "alice" 2000000 none requested).0
    ≡ ok (consumed_request, true)
unfolding ◌>>=◌ is_empty select_one affected taken request_key get_pairing_request_for_agent
    validate_and_consume_pairing_request_for_agent
consumed_now = refl

validate_and_consume_for_agent_outcome_example :
    (old : PairingRequest) × (select_one (request_key "i" "alice") requested.requests ≡ some old)
    × (old.consumed_at ≡ none)
    × (validated none old ≡ ok tt)
    × (consumed_request ≡ record old { consumed_at = some 2000000 })
    × IsConsumed "i" "alice"
        (validate_and_consume_pairing_request_for_agent "i" "alice" 2000000 none requested).1
validate_and_consume_for_agent_outcome_example =
    validate_and_consume_for_agent_outcome "i" "alice" requested 2000000 none consumed_request
      consumed_now

validate_and_consume_for_agent_once_example :
    (validate_and_consume_pairing_request_for_agent "i" "alice" 3000000 none (
      run_requests
        (create_request the_request ∷ [])
        (validate_and_consume_pairing_request_for_agent "i" "alice" 2000000 none requested).1)).0
    ≢ ok (consumed_request, true)
validate_and_consume_for_agent_once_example =
    validate_and_consume_for_agent_once "i" "alice" 2000000 3000000 none none consumed_request
      consumed_request (create_request the_request ∷ []) requested consumed_now

missing :
    (r : PairingRequest)
    → (validate_and_consume_pairing_request_for_agent "x" "alice" 2000000 none requested).0
      ≢ ok (r, true)
unfolding ◌>>=◌ same text_lt select_one delete claim_replay_nonce request_key
    get_pairing_request_for_agent validate_and_consume_pairing_request_for_agent
    complete_scoped_message decrypt
missing r e = cc e

validate_and_consume_for_agent_rolls_back_example :
    (validate_and_consume_pairing_request_for_agent "x" "alice" 2000000 none requested).1
    ≡ requested
validate_and_consume_for_agent_rolls_back_example =
    validate_and_consume_for_agent_rolls_back "x" "alice" requested 2000000 none missing
