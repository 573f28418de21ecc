-- ===== src/Tests/Gateway.antt =====
-- Requests to the gateway at small inputs.
use snw_agent_link.Attachment.Abstract.{sealed, view}
use snw_agent_link.Attachment.ByteRange.{content_range, parse_range, range_header}
use snw_agent_link.Attachment.Invariant.{Sound, entry}
use snw_agent_link.Attachment.Operations.{Operation, Sound-run, complete, init, put, run}
use snw_agent_link.Attachment.Service.{
  Directory, Limits, complete_blob, file_digest, init_blob, owned, put_chunk, put_file, range_of,
  read_range,
}
use snw_agent_link.Attachment.Signature.{
  blob_request_signature_base, blob_response_signature_base, parse_blob_signature_headers,
  parse_blob_signature_params, read_blob_parameter, set_blob_signature_headers, sign_blob_request,
  sign_blob_response, valid_blob_signature_time, verify_blob_request,
}
use snw_agent_link.Errors.{Result, err, ok}
use snw_agent_link.Exec.{◌>>=◌}
use snw_agent_link.Gateway.Access.{Readings, Router, active_contact, authorized}
use snw_agent_link.Gateway.Access.Laws.{IsAuthorized, authorized-IsAuthorized}
use snw_agent_link.Gateway.Access.Replay.{Arrival, authorized-once, run_arrivals}
use snw_agent_link.Gateway.Blob.{Draw, checked_blob_nonce, send_range, serve_blob, write_blob_error}
use snw_agent_link.Gateway.Blob.Laws.{serve_blob-slice}
use snw_agent_link.Gateway.Blob.Signed.{IsSignedBlob}
use snw_agent_link.Gateway.Forward.{
  Resolver, a2a, a2a_target, ingress_headers, loopback_client, new_forwarding_handler,
}
use snw_agent_link.Gateway.Forward.Laws.{a2a-IsAuthorized}
use snw_agent_link.Gateway.Messages.{
  handed_of, Agent, Clock, Handed, Json, Reply, World, deliver, hand_over, inbound_context_id,
  inbound_message, inbound_message_id, serve_a2a_with_dedup, task_id_from_response, task_of,
}
use snw_agent_link.Gateway.Messages.Answers.{deliver_answers}
use snw_agent_link.Gateway.Messages.Replays.{hand_over-replays}
use snw_agent_link.Gateway.Messages.Once.{Call, handed_at_most_once, run_calls, times}
use snw_agent_link.Http.{Request, Response, set_header, unix_seconds, unix_time}
use snw_agent_link.Http.Params.{IsPlain}
use snw_agent_link.Http.RoundTrip.{verify-sign_request}
use snw_agent_link.Http.Signature.{
  join_spaces, parse_signature_headers, read_parameters, read_params_from, request_signature_base,
  same_components, sign_request, unquote_all, verify_request_for_target,
}
use snw_agent_link.Identity.{fingerprint}
use snw_agent_link.Model.{AgentRegistration, AttachmentGrant, Contact, active, contact_state_eq}
use snw_agent_link.Pairing.Invite.{zero_contact}
use snw_agent_link.Prelude.{
  Bool, List, Option, String, [], arith, false, if◌then◌else◌, inl, is_empty, none, refl, same,
  same_refl, size, some, true, ℕ, ◌*◌, ◌+◌, ◌-◌, ◌<>◌, ◌∷◌, ◌≡◌, ◌≢◌, ◌≤◌, ◌⊎◌,
}
use snw_agent_link.Prelude.Bytes.{padded, prefix_of, suffix_of, write_at, zeros}
use snw_agent_link.Prelude.Int.{pos}
use snw_agent_link.Prelude.Split.{after_prefix, cut, has_prefix, is_free, is_free→IsFree, split}
use snw_agent_link.Secure.{decrypt, encrypt, gcm}
use snw_agent_link.Store.Contacts.{contact_key, get_contact}
use snw_agent_link.Store.Dedup.{
  complete_scoped_message, get_scoped_deduplication, record_scoped_message_once,
  scoped_dedup_associated_data, scoped_key,
}
use snw_agent_link.Store.Grants.{
  authorize_attachment_grant, get_attachment_grant, grant_key, grant_matches, grant_row,
}
use snw_agent_link.Store.Grants.Laws.{IsGranted}
use snw_agent_link.Store.Inbox.{inbox_key, record_inbox_message}
use snw_agent_link.Store.Nonces.{claim_replay_nonce, nonce_key}
use snw_agent_link.Store.Outbox.{opened_with, sealed_with}
use snw_agent_link.Store.Registrations.{get_agent_registration}
use snw_agent_link.Store.Tables.{Database}
use snw_agent_link.Table.{affected, delete, insert, select, select_one, taken, update}
use snw_agent_link.Table.Sort.{order_by}
use snw_agent_link.Tailscale.{Addresses, covers, has_address}
use snw_agent_link.Tests.Toy.{
  alice, bob, empty, toy_aead, toy_cipher, toy_gcm, toy_gcm-IsLawful, toy_nonce, toy_nonce_size,
}
use snw_agent_link.Tests.Web.{
  early, ones, signing, sixty_four, toy_library, toy_web, toy_web-IsLawfulWeb,
}
use snw_agent_link.Time.{minute}

-- bob writes to alice.
abbrev bob_contact : Contact
bob_contact = record zero_contact {
  local_agent_id = "alice";
  remote_agent_id = "bob";
  remote_node_id = "node-b";
  remote_agent_fingerprint = bob.public_key;
  state = active;
}

abbrev alice_row : AgentRegistration
alice_row = record {
  agent_id = "alice";
  display_name = "Alice";
  local_endpoint = "http://localhost";
  agent_card_json = "{}";
  identity_public_key = alice.public_key;
  capability_public_key = "";
  capability_generation = 0;
  registration_token_hash = "h";
  created_at = 0;
  updated_at = 0;
}

abbrev the_grant : AttachmentGrant
the_grant = record {
  grant_id = "g";
  blob_id = "b";
  blob_uri = "";
  owner_agent_id = "alice";
  target_agent_id = "bob";
  context_id = "c";
  digest = sixty_four;
  size = pos 6;
  expires_at = early + 60000000000;
  revoked_at = none;
  created_at = 0;
  updated_at = 0;
}

abbrev alice_db : Database
alice_db = record empty {
  contacts = bob_contact ∷ [];
  registrations = alice_row ∷ [];
  grants = the_grant ∷ [];
}

abbrev addresses : Addresses
addresses = record {
  trim_space = λ s. s;
  trim_brackets = λ s. s;
  split_host = λ s. none;
  parse_addr = λ s. some s;
  unmap = λ s. s;
  parse_prefix = λ s. none;
  prefix_contains = λ p a. false;
}

abbrev router : Router
router = record {
  who = some (λ s. ok (record {
    node_id = "1";
    stable_node_id = "node-b";
    node_name = "b";
    user_id = "u";
    login_name = "l";
    addresses = "100.64.0.2" ∷ [];
  }));
  require_who = true;
}

abbrev plain : Request
plain = record {
  method = "POST";
  url = "/agents/alice/a2a/rest";
  is_absolute = false;
  request_uri = "/agents/alice/a2a/rest";
  escaped_path = "/agents/alice/a2a/rest";
  raw_query = "";
  url_host = "";
  has_tls = false;
  host = "node-a";
  remote_addr = "100.64.0.2";
  query =
      λ name. if same name "grant" then "g" else (if same name "context" then "c" else sixty_four);
  headers = set_header "Range" (range_header toy_web 2 4) (λ name. "");
  body = "m1";
}

abbrev or_plain : Result Request → Request
or_plain (ok r) = r
or_plain (err e) = plain

abbrev message : Request
message = or_plain (sign_request signing toy_web plain bob early "n1" "alice")

abbrev now : Readings
now = record { verified_at = early; expiry_from = early; claimed_at = early }

alice_named : is_empty "alice" ≡ false
unfolding is_empty
alice_named = refl

signed_size : size sixty_four ≡ 64
unfolding size
signed_size = refl

key_length : size bob.public_key ≡ 32
unfolding size
key_length = refl

bob_named : is_empty "bob" ≡ false
unfolding is_empty
bob_named = refl

nonce-IsPlain : IsPlain "n1"
unfolding is_empty is_free
nonce-IsPlain = record {
  is_some = refl;
  no_closing = is_free→IsFree ")" "n1" refl;
  no_semicolon = is_free→IsFree ";" "n1" refl;
}

key-IsPlain : IsPlain (fingerprint signing bob.public_key)
unfolding is_empty is_free fingerprint
key-IsPlain = record {
  is_some = refl;
  no_closing = is_free→IsFree ")" bob.public_key refl;
  no_semicolon = is_free→IsFree ";" bob.public_key refl;
}

verify-sign_request_example :
    (r : Request) × (sign_request signing toy_web plain bob early "n1" "alice" ≡ ok r)
    × (verify_request_for_target signing toy_web r "bob" "alice" bob.public_key early (5 * minute)
        ≡ ok "n1")
verify-sign_request_example =
    verify-sign_request signing toy_web toy_web-IsLawfulWeb plain bob early early "n1" "alice"
      (λ text. same_refl sixty_four) (λ text. signed_size) key_length bob_named alice_named
      nonce-IsPlain key-IsPlain (omega arith) (omega arith) (omega arith) (omega arith)

abbrev soon : Readings
soon = record {
  verified_at = early + 60000000000;
  expiry_from = early + 60000000000;
  claimed_at = early + 60000000000;
}

admitted : (authorized signing toy_web addresses router message "alice" now alice_db).0 ≡ ok true
unfolding same is_empty size prefix_of suffix_of zeros has_prefix after_prefix cut split ones
    put_file unix_time unix_seconds parse_signature_headers sign_request sign_blob_request
    verify_blob_request select_one select delete taken contact_key get_contact
    get_agent_registration covers authorized run_arrivals
admitted = refl

authorized-IsAuthorized_example :
    IsAuthorized signing toy_web addresses router message "alice" now alice_db
authorized-IsAuthorized_example =
    authorized-IsAuthorized signing toy_web addresses router message "alice" now alice_db
      alice_named admitted

abbrev again : Arrival
again = record { request = message; local = "alice"; readings = soon }

authorized-once_example :
    (authorized signing toy_web addresses router message "alice" soon (
      run_arrivals signing toy_web addresses router
        (again ∷ [])
        (authorized signing toy_web addresses router message "alice" now alice_db).1)).0
    ≢ ok true
authorized-once_example =
    authorized-once signing toy_web addresses router message "alice" alice_named now soon
      (again ∷ []) alice_db admitted (omega arith, tt) (omega arith)

-- The body is the identifier of the message.
abbrev json : Json
json = record {
  envelope = λ s.
      some (record { message = some (record { id = s; context_id = "c" }); params_message = none });
  task_id = λ s. some "t";
  result_id = λ s. none;
}

abbrev helper : Agent
helper n h = record { status = 200; content_type = "text/plain"; body = "done" }

abbrev clock : Clock
clock = record {
  reservation = "r";
  inbox_nonce = toy_nonce;
  answer_nonce = toy_nonce;
  recorded_at = early;
  received_at = early;
}

abbrev a_call : Call
a_call = record { clock = clock; request = message; local = "alice"; json_rpc = false }

abbrev the_message : Handed
the_message = record { remote = "bob"; local = "alice"; message_id = "m1"; body = "m1" }

abbrev ones_of : ℕ → String
ones_of n = "0"

handed_test :
    (run_calls toy_web json ones_of
      (some toy_aead)
      helper
      the_message
      1
      (a_call ∷ a_call ∷ [])
      (record { database = alice_db; handed = [] })).handed
    ≡ the_message ∷ []
unfolding is_empty size prefix_of suffix_of zeros has_prefix after_prefix cut split ones put_file
    complete_blob range_of run ◌>>=◌ content_range range_header join_spaces unquote_all
    read_parameters read_params_from parse_signature_headers sign_request
    blob_request_signature_base blob_response_signature_base set_blob_signature_headers
    read_blob_parameter sign_blob_response valid_blob_signature_time select_one select update
    affected delete taken insert order_by scoped_key record_scoped_message_once
    scoped_dedup_associated_data get_scoped_deduplication complete_scoped_message inbox_key
    record_inbox_message sealed_with encrypt decrypt inbound_message inbound_message_id
    inbound_context_id task_id_from_response deliver serve_a2a_with_dedup run_calls loopback_client
handed_test = refl

message_named : is_empty "m1" ≡ false
unfolding is_empty same
message_named = refl

handed_at_most_once_example :
    times the_message
      (run_calls toy_web json ones_of
        (some toy_aead)
        helper
        the_message
        1
        (a_call ∷ a_call ∷ [])
        (record { database = alice_db; handed = [] })).handed
    ≤ 1
handed_at_most_once_example =
    handed_at_most_once toy_web json ones_of (some toy_aead) helper the_message 1
      (a_call ∷ a_call ∷ []) alice_db message_named

abbrev before_it : World
before_it = record { database = alice_db; handed = [] }

no_record : select_one (scoped_key "bob" "alice" 0 "m1") alice_db.scoped ≡ none
unfolding select_one
no_record = refl

deliver_answers_example :
    (reply : Reply) × (deliver toy_web json ones_of
        (some toy_aead)
        helper
        3
        clock
        the_message
        false
        before_it
      ≡ (
        some reply,
        (deliver toy_web json ones_of (some toy_aead) helper 1 clock the_message false before_it).1,
      ))
    × ((deliver toy_web json ones_of (some toy_aead) helper 1 clock the_message false before_it).0
        ≡ some reply)
deliver_answers_example =
    deliver_answers toy_web json ones_of (some toy_aead) helper the_message before_it 2 clock false
      (inl no_record)

abbrev reserved : World
reserved = record {
  database = (record_scoped_message_once early "bob" "alice" 0 "m1" "r" alice_db).1;
  handed = [];
}

answer_kept :
    (complete_scoped_message ones_of
      (some toy_aead)
      toy_nonce
      "bob"
      "alice"
      0
      "m1"
      (task_of toy_web json ones_of (some toy_aead) helper clock (helper 0 the_message))
      200
      "text/plain"
      "done"
      reserved.database).0
    ≡ ok tt
unfolding same is_empty ◌>>=◌ update affected delete taken insert order_by scoped_key
    record_scoped_message_once complete_scoped_message inbox_key encrypt decrypt
answer_kept = refl

answer_filled : is_empty "done" ≡ false
unfolding is_empty same
answer_filled = refl

abbrev another_call : Call
another_call = record a_call { request = record message { body = "m2" } }

-- The answer was kept, and then another message came, and the same one again.
abbrev later : World
later =
    run_calls toy_web json ones_of (some toy_aead) helper the_message 1 (another_call ∷ a_call ∷ [])
      (hand_over toy_web json ones_of (some toy_aead) helper clock the_message reserved).1

hand_over-replays_example :
    deliver toy_web json ones_of
      (some toy_aead)
      helper
      1
      clock
      (record the_message { body = "other" })
      false
      later
    ≡ (some (helper 0 the_message), later)
hand_over-replays_example =
    hand_over-replays toy_web json ones_of toy_aead toy_gcm helper toy_cipher toy_gcm-IsLawful clock
      clock the_message "other" false 0 1 (another_call ∷ a_call ∷ []) reserved toy_nonce_size
      answer_kept refl answer_filled

abbrev resolver : Resolver
resolver = record {
  parse_url =
      λ s. some (record { scheme = "http"; has_user = false; hostname = "localhost"; port = "" });
  lookup_ip = λ s. "127.0.0.1" ∷ [];
  is_loopback = λ s. true;
  join_host_port = λ h p. h <> ":" <> p;
}

abbrev path : List String
path = "agents" ∷ "alice" ∷ "a2a" ∷ "rest" ∷ []

abbrev served : Option Reply × World
served =
    a2a signing toy_web addresses resolver json ones_of (some toy_aead) helper router 1 clock now
      path message before_it

served_test : served.1.handed ≡ the_message ∷ []
unfolding same is_empty size prefix_of suffix_of zeros has_prefix after_prefix cut split ones
    put_file run ◌>>=◌ unix_time unix_seconds parse_signature_headers sign_request sign_blob_request
    verify_blob_request select_one select delete taken contact_key get_contact scoped_key
    record_scoped_message_once scoped_dedup_associated_data get_scoped_deduplication
    record_inbox_message sealed_with encrypt decrypt get_agent_registration covers authorized
    run_arrivals inbound_message inbound_message_id inbound_context_id task_id_from_response deliver
    serve_a2a_with_dedup new_forwarding_handler ingress_headers a2a_target a2a
served_test = refl

a2a-IsAuthorized_example :
    (served.1.handed ≡ [])
    ⊎ ((local : String) × (json_rpc : Bool) × (a2a_target path ≡ some (local, json_rpc))
        × (served.1.handed
            ≡ handed_of toy_web json ones_of (some toy_aead) helper message local json_rpc ∷ [])
        × ((is_empty local ≡ true)
            ⊎ IsAuthorized signing toy_web addresses router message local now alice_db))
a2a-IsAuthorized_example =
    a2a-IsAuthorized signing toy_web addresses resolver json ones_of (some toy_aead) helper router 1
      clock now path message before_it

-- A blob of six bytes of alice.
abbrev limits : Limits
limits = record { max_bytes = 100; chunk_size = 4 }

abbrev no_files : Directory
no_files = record { metas = λ id. none; parts = λ id. none; blobs = λ id. none }

abbrev begin : Operation
begin = init "b" 1000 "alice" "notes" "text/plain" sixty_four (pos 6)

abbrev begun : Directory
begun = run toy_library limits begin no_files

abbrev first_chunk : Operation
first_chunk = put 2000 "alice" "b" (pos 0) "abcd"

abbrev second_chunk : Operation
second_chunk = put 3000 "alice" "b" (pos 4) "ef"

abbrev last : Operation
last = complete 4000 "alice" "b"

abbrev with_first : Directory
with_first = run toy_library limits first_chunk begun

abbrev with_second : Directory
with_second = run toy_library limits second_chunk with_first

abbrev files : Directory
files = run toy_library limits last with_second

files-Sound : (id : String) → Sound toy_library id (entry files id)
files-Sound = Sound-run toy_library limits last with_second tt (
    Sound-run toy_library limits second_chunk with_first tt (
      Sound-run toy_library limits first_chunk begun tt
        (Sound-run toy_library limits begin no_files refl (λ id. tt))))

abbrev draw : Draw
draw = record { now = early; signed_at = early; nonce = "n3" }

abbrev blob_request : Request
blob_request = or_plain (sign_blob_request signing toy_web plain bob "alice" early "n2")

abbrev sent : Response × Database
sent =
    serve_blob signing toy_web toy_library limits (some alice) draw blob_request "alice" "b" files
      alice_db

sent_partial : sent.0.status ≡ 206
unfolding is_empty size prefix_of suffix_of zeros has_prefix after_prefix cut split ones put_file
    owned init_blob put_chunk file_digest complete_blob range_of read_range view run ◌>>=◌
    content_range range_header parse_range same_components join_spaces unquote_all unix_time
    unix_seconds fingerprint request_signature_base read_parameters read_params_from
    parse_signature_headers sign_request parse_blob_signature_params parse_blob_signature_headers
    sign_blob_request verify_blob_request select_one select delete taken insert order_by contact_key
    get_contact contact_state_eq nonce_key claim_replay_nonce grant_key grant_row
    get_attachment_grant grant_matches authorize_attachment_grant record_inbox_message sealed_with
    opened_with gcm encrypt decrypt get_agent_registration covers write_blob_error
    checked_blob_nonce send_range serve_blob
sent_partial = refl

sent_test : sent.0.body ≡ "cde"
unfolding is_empty size prefix_of suffix_of zeros padded write_at has_prefix after_prefix cut split
    ones put_file owned init_blob put_chunk file_digest complete_blob range_of read_range view run
    ◌>>=◌ content_range range_header parse_range same_components unix_time unix_seconds
    sign_blob_request verify_blob_request select_one select delete taken contact_key get_contact
    claim_replay_nonce grant_key grant_matches authorize_attachment_grant encrypt decrypt
    get_agent_registration covers has_address active_contact write_blob_error checked_blob_nonce
    send_range serve_blob
sent_test = refl

abbrev after : String → Result Bool × Database
after nonce =
    claim_replay_nonce "alice" (blob_request.headers "X-SNW-Agent-ID") nonce (early + 5 * minute)
      early alice_db

serve_blob-slice_example :
    (c : Contact) × (nonce : String) × (grant : AttachmentGrant) × (content : String) × (a : ℕ)
    × (b : ℕ) × (active_contact
          (get_contact "alice" (blob_request.headers "X-SNW-Agent-ID") alice_db)
        ≡ some c)
    × IsSignedBlob signing toy_web blob_request
        (blob_request.headers "X-SNW-Agent-ID")
        "alice"
        c
        early
        nonce
    × ((after nonce).0 ≡ ok true)
    × IsGranted
        (blob_request.query "grant")
        "b"
        "alice"
        (blob_request.headers "X-SNW-Agent-ID")
        (blob_request.query "context")
        (blob_request.query "digest")
        early
        grant
        (after nonce).1
    × (view files "b" ≡ sealed "alice" grant.digest content)
    × (toy_library.sha256_hex content ≡ grant.digest)
    × (b - a + 1 ≤ 4)
    × (sent.0.body ≡ prefix_of (b - a + 1) (suffix_of a content))
    × (size sent.0.body ≡ b - a + 1)
serve_blob-slice_example =
    serve_blob-slice signing toy_web toy_library limits (some alice) draw blob_request "alice" "b"
      files alice_db (files-Sound "b") sent_partial
