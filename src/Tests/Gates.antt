-- ===== src/Tests/Gates.antt =====
-- The theorems on admission and delivery, at small inputs.
use snw_agent_link.Tests.Toy.{toy, bob, empty, toy_aead, toy_nonce}
use snw_agent_link.Prelude.Int.{int64_limit}
use snw_agent_link.Prelude.Bytes.{prefix_of, suffix_of}
use snw_agent_link.Secure.{encrypt, decrypt, gcm}
use snw_agent_link.Store.Outbox.{sealed_with, restore_outbox, outbox_associated_data}
use snw_agent_link.Admission.{outside_window, admit, authorize, Input, Moment}
use snw_agent_link.Admission.Laws.{IsAdmitted, authorize-IsAdmitted}
use snw_agent_link.Admission.Replay.{authorize-once, authorize_all}
use snw_agent_link.Delivery.{
  new_service, scaled, retry_exponent, retry_delay, process_one, process_due, Surroundings, Config,
  Service, ProcessResult, indefinite, saturating, exact_limit, float64,
}
use snw_agent_link.Delivery.Attempt.{process_one-outcome}
use snw_agent_link.Delivery.Backoff.{retry_delay-min, min, doubled}
use snw_agent_link.Delivery.Batch.{process_due-keeps_settled}
use snw_agent_link.Errors.{Result, ok, err, undelivered}
use snw_agent_link.Exec.{◌>>=◌}
use snw_agent_link.Identity.{verify_envelope_for_agent}
use snw_agent_link.Model.{
  contact_state_eq, outbox_state_eq, Contact, active, OutboxMessage, pending, delivered,
}
use snw_agent_link.Pairing.Invite.{zero_contact}
use snw_agent_link.Prelude.{
  is_empty, size, text_lt, ◌≡◌, ◌≢◌, refl, ◌∷◌, [], none, some, String, ℕ, ◌+◌, ◌*◌, ◌≤◌, ◌<◌, ◌<>◌,
  false, arith,
}
use snw_agent_link.Prelude.Int.{pos_part, pos}
use snw_agent_link.Store.Audit.{append_audit_entry}
use snw_agent_link.Store.Contacts.{contact_key, get_contact}
use snw_agent_link.Store.Nonces.{nonce_key, claim_replay_nonce}
use snw_agent_link.Store.Outbox.{message_key, schedule_outbox_retry}
use snw_agent_link.Store.Tables.{Database}
use snw_agent_link.Table.{select_one, affected, delete, taken, insert}
use snw_agent_link.Time.{millisecond, stored}

abbrev bob_contact : Contact
bob_contact = record zero_contact {
  local_agent_id = "alice";
  remote_agent_id = "bob";
  remote_host_fingerprint = "host-b";
  remote_agent_fingerprint = bob.public_key;
  state = active;
}

abbrev alice_db : Database
alice_db = record empty { contacts = bob_contact ∷ [] }

abbrev the_input : Input
the_input = record {
  local_agent_id = "alice";
  remote_host_fingerprint = "host-b";
  remote_public_key = bob.public_key;
  envelope = record {
    agent_id = "bob";
    key_fingerprint = bob.public_key;
    kind = "task";
    payload = "do it";
    issued_at = 1000;
    nonce = "n";
    signature = bob.private_key <> "bobtaskdo itn";
  };
}

abbrev moment : ℕ → String → Moment
moment t id = record {
  now = t * millisecond;
  audited_at = t * millisecond;
  wall = t * millisecond;
  uuid = id;
}

abbrev skew : ℕ
skew = 300000000000

admitted : (authorize toy skew (moment 1200 "u") the_input alice_db).0 ≡ ok tt
unfolding ◌>>=◌ is_empty select_one delete taken contact_key get_contact contact_state_eq
    verify_envelope_for_agent claim_replay_nonce append_audit_entry outside_window admit authorize
admitted = refl

authorize-IsAdmitted_example : IsAdmitted toy skew (moment 1200 "u") the_input alice_db
authorize-IsAdmitted_example =
    authorize-IsAdmitted toy skew (moment 1200 "u") the_input alice_db admitted

authorize-once_example :
    (authorize toy skew (moment 1400 "w") the_input (
      authorize_all toy skew
        ((moment 1300 "v", the_input) ∷ [])
        (authorize toy skew (moment 1200 "u") the_input alice_db).1)).0
    ≢ ok tt
authorize-once_example =
    authorize-once toy skew (moment 1200 "u") (moment 1400 "w") the_input the_input
      ((moment 1300 "v", the_input) ∷ []) alice_db admitted refl refl refl (omega arith, tt)
      (omega arith)

-- The limit of the window: at the last instant at which the envelope is accepted, its nonce is no
-- longer held.
admitted_at_the_end_test :
    (authorize toy skew
      (moment 301000 "w")
      the_input
      (authorize toy skew (moment 1200 "u") the_input alice_db).1).0
    ≡ ok tt
unfolding ◌>>=◌ is_empty select_one delete taken insert contact_key get_contact contact_state_eq
    verify_envelope_for_agent nonce_key claim_replay_nonce append_audit_entry outside_window admit
    authorize
admitted_at_the_end_test = refl

abbrev the_message : OutboxMessage
the_message = record {
  message_id = "m";
  idempotency_key = "k";
  source_agent_id = "alice";
  target_agent_id = "bob";
  context_id = "c";
  payload = "hello";
  state = pending;
  attempt_count = 2;
  next_attempt_at = 1000000;
  created_at = 1000000;
  updated_at = 0;
}

abbrev settled_message : OutboxMessage
settled_message = record the_message { message_id = "s"; idempotency_key = "l"; state = delivered }

abbrev queue : Database
queue = record empty { outbox = the_message ∷ settled_message ∷ [] }

abbrev offline : Surroundings
offline = record {
  context = λ n. none;
  send = λ n m. err undelivered;
  wall = λ n. 3000000;
  conversion = indefinite;
}

abbrev no_config : Config
no_config = record { batch_size = pos 0; base_delay = pos 0; max_delay = pos 0; jitter = none }

abbrev service : Service
service = new_service (λ n. 0) no_config

-- The row of the message under a cipher, and the message that is listed of it.
abbrev or_empty : Result String → String
or_empty (ok s) = s
or_empty (err e) = ""

abbrev the_row : OutboxMessage
the_row = record the_message {
  payload =
      or_empty (sealed_with (some toy_aead) toy_nonce "hello" (outbox_associated_data the_message));
}

abbrev sealed_queue : Database
sealed_queue = record empty { outbox = the_row ∷ settled_message ∷ [] }

restored : restore_outbox (some toy_aead) the_row ≡ ok the_message
unfolding restore_outbox encrypt decrypt gcm outbox_associated_data size prefix_of suffix_of
restored = refl

queued : select_one (message_key "m") sealed_queue.outbox ≡ some the_row
unfolding ◌>>=◌ is_empty select_one insert get_contact message_key
queued = refl

abbrev nothing_yet : ProcessResult
nothing_yet = record { delivered = 0; retried = 0 }

retried_now :
    (process_one offline service 2000000 0 the_message nothing_yet sealed_queue).0
    ≡ ok (record nothing_yet { retried = 1 })
unfolding is_empty text_lt affected message_key schedule_outbox_retry outbox_state_eq process_due
retried_now = refl

process_one-outcome_example :
    select_one
      (message_key "m")
      (process_one offline service 2000000 0 the_message nothing_yet sealed_queue).1.outbox
    ≡ some (record the_row {
      attempt_count = 3;
      next_attempt_at = stored (2000000 + retry_delay indefinite service 3);
      updated_at = 3000000;
    })
process_one-outcome_example =
    process_one-outcome the_row sealed_queue queued refl (some toy_aead) the_message offline service
      2000000 0 nothing_yet (record nothing_yet { retried = 1 }) restored retried_now

-- The third attempt waits for four seconds.
third_delay_test : retry_delay indefinite service 3 ≡ 4000000000
unfolding is_empty new_service scaled retry_exponent retry_delay float64
third_delay_test = refl

-- The sixtieth waits for the longest delay.
sixtieth_delay_test : retry_delay saturating service 60 ≡ 900000000000
unfolding new_service retry_delay
sixtieth_delay_test = refl

-- The floats next to 2 ^ 53 + 1 are even numbers.
rounding_test : float64 9007199254740993 ≡ 9007199254740992
unfolding float64
rounding_test = refl

rounding_up_test : float64 9007199254740995 ≡ 9007199254740996
unfolding float64
rounding_up_test = refl

settled_queued : select_one (message_key "s") queue.outbox ≡ some settled_message
unfolding is_empty select_one message_key
settled_queued = refl

settled : outbox_state_eq settled_message.state pending ≡ false
unfolding is_empty outbox_state_eq
settled = refl

process_due-keeps_settled_example :
    select_one (message_key "s") (process_due none offline service 2000000 queue).1.outbox
    ≡ some settled_message
process_due-keeps_settled_example =
    process_due-keeps_settled none offline service 2000000 queue "s" settled_message settled_queued
      settled

positive : 1 ≤ service.base_delay
unfolding new_service
positive = omega arith

exact : service.base_delay < exact_limit
unfolding new_service
exact = omega arith

within : service.max_delay < int64_limit
unfolding new_service
within = omega arith

retry_delay-min_example :
    retry_delay indefinite service 3
    ≡ min service.max_delay (
        min service.max_delay (doubled service 3)
        + pos_part (service.jitter (min service.max_delay (doubled service 3))))
retry_delay-min_example = retry_delay-min indefinite service 3 positive exact within
