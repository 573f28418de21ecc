-- ===== src/Tests/Blobs.antt =====
-- Blobs and downloads at small inputs.
use snw_agent_link.Attachment.Abstract.{Step, receiving, sealed, view}
use snw_agent_link.Attachment.ByteRange.{
  content_range, parse_range, parse_range-range_header, parse_range_within, range_header,
}
use snw_agent_link.Attachment.Invariant.{Sound, entry}
use snw_agent_link.Attachment.Operations.{Operation, Sound-run, init, put, run, run-Step}
use snw_agent_link.Attachment.Receiver.{
  Download, DownloadSpec, Net, Round, range_end, receive, receive_ranges, validate_download_spec,
}
use snw_agent_link.Attachment.Receiver.Laws.{IsBlob, Rounds, receive-IsBlob, receive_ranges-Rounds}
use snw_agent_link.Attachment.Service.{
  Directory, Limits, Metadata, blob_status, complete_blob, completed, init_blob, initial, owned,
  put_chunk,
}
use snw_agent_link.Attachment.Signature.{
  sign_blob_request, sign_blob_response, verify_blob_response,
}
use snw_agent_link.Attachment.Upload.{Uploading, joined, upload, upload_completes}
use snw_agent_link.Errors.{Result, bad_checksum, err, ok}
use snw_agent_link.Exec.{◌>>=◌}
use snw_agent_link.Http.{Request, Response, set_header, unix_time}
use snw_agent_link.Prelude.{
  All, List, String, [], arith, false, if◌then◌else◌, is_empty, none, refl, same, size, some, true,
  ℕ, ◌+◌, ◌-◌, ◌<>◌, ◌<◌, ◌∷◌, ◌≡◌, ◌≤◌,
}
use snw_agent_link.Prelude.Bytes.{padded, prefix_of, suffix_of, write_at, zeros}
use snw_agent_link.Prelude.Int.{pos}
use snw_agent_link.Prelude.Split.{after_prefix, cut, has_prefix, split}
use snw_agent_link.Tests.Toy.{alice, bob}
use snw_agent_link.Tests.Web.{
  early, ones, signing, sixty_four, toy_library, toy_web, toy_web-FormatsNumbers,
}

abbrev limits : Limits
limits = record { max_bytes = 100; chunk_size = 4 }

abbrev no_files : Directory
no_files = record { metas = λ id. none; parts = λ id. none; blobs = λ id. none }

abbrev begin : Operation
begin = init "b" 1000 "alice" "notes" "text/plain" sixty_four (pos 6)

abbrev chunk : Operation
chunk = put 2000 "alice" "b" (pos 0) "abcd"

abbrev begun : Directory
begun = run toy_library limits begin no_files

begun-Sound : (id : String) → Sound toy_library id (entry begun id)
begun-Sound = Sound-run toy_library limits begin no_files refl (λ id. tt)

view_after : view (run toy_library limits chunk begun) "b" ≡ receiving "alice" 6 sixty_four "abcd"
unfolding is_empty size prefix_of suffix_of padded write_at owned init_blob put_chunk view run ◌>>=◌
view_after = refl

Sound-run_example : Sound toy_library "b" (entry (run toy_library limits chunk begun) "b")
Sound-run_example = Sound-run toy_library limits chunk begun tt begun-Sound "b"

run-Step_example : Step toy_library (view begun "b") (view (run toy_library limits chunk begun) "b")
run-Step_example = run-Step toy_library limits chunk begun tt begun-Sound "b"

abbrev the_metadata : Metadata
the_metadata = initial toy_library "b" 1000 "alice" "notes" "text/plain" sixty_four 6

abbrev chunks : List String
chunks = "abcd" ∷ "ef" ∷ []

begun-Uploading : Uploading toy_library "alice" "b" begun the_metadata ""
unfolding is_empty size prefix_of suffix_of padded write_at owned init_blob put_chunk view run ◌>>=◌
begun-Uploading = record {
  has_name = refl;
  meta = refl;
  arrived = refl;
  own = refl;
  own_id = refl;
  state = refl;
  counted = refl;
}

chunks_fit : All (λ c. size c ≤ limits.chunk_size) chunks
unfolding size
chunks_fit = (omega arith, (omega arith, tt))

chunks_size : the_metadata.received + size (joined chunks) ≡ the_metadata.size_of_blob
unfolding size
chunks_size = refl

upload_completes_example :
    (m : Metadata) × ((upload toy_library limits 2000 "alice" "b" 0 chunks begun).0 ≡ ok m)
    × (m.state ≡ completed)
    × (m.checksum ≡ sixty_four)
    × (view (upload toy_library limits 2000 "alice" "b" 0 chunks begun).1 "b"
        ≡ sealed "alice" sixty_four ("" <> joined chunks))
upload_completes_example =
    upload_completes toy_library limits 2000 "alice" "b" chunks begun the_metadata ""
      begun-Uploading chunks_fit chunks_size refl

wrong_sum_test :
    (complete_blob
      (record toy_library { sha256_hex = λ s. "another" })
      3000
      "alice"
      "b"
      (record {
        metas = λ id. some (record the_metadata { received = 6 });
        parts = λ id. some "abcdef";
        blobs = λ id. none;
      })).0
    ≡ err bad_checksum
unfolding same is_empty complete_blob blob_status ◌>>=◌
wrong_sum_test = refl

range_parsed : parse_range toy_web (range_header toy_web 2 5) (pos 9) 4 ≡ ok (2, 5)
unfolding parse_range range_header has_prefix after_prefix cut prefix_of suffix_of size is_empty
    ones
range_parsed = refl

parse_range_within_example : (2 ≤ 5) × (5 < 9) × (5 - 2 + 1 ≤ 4)
parse_range_within_example =
    parse_range_within toy_web (range_header toy_web 2 5) (pos 9) 4 2 5 range_parsed

parse_range-range_header_example :
    parse_range toy_web (range_header toy_web 2 5) (pos 9) 4 ≡ ok (2, 5)
parse_range-range_header_example =
    parse_range-range_header toy_web toy_web-FormatsNumbers 9 4 2 5 (omega arith) (omega arith)
      (omega arith) (omega arith)

-- A download of two ranges of a blob of six bytes, from a server that signs what it sends.
abbrev spec : DownloadSpec
spec = record {
  url = "http://node/blob";
  grant_id = "g";
  blob_id = "b";
  owner_agent_id = "alice";
  receiver_agent_id = "bob";
  context_id = "c";
  digest = sixty_four;
  size_of_blob = pos 6;
  owner_public_key = alice.public_key;
}

abbrev a_request : Request
a_request = record {
  method = "GET";
  url = "http://node/blob";
  is_absolute = true;
  request_uri = "/blob";
  escaped_path = "/blob";
  raw_query = "";
  url_host = "node";
  has_tls = false;
  host = "node";
  remote_addr = "";
  query = λ name. "";
  headers = λ name. "";
  body = "";
}

abbrev net : Net
net = record {
  parse_url =
      λ s. some (record { scheme = "http"; host = "node"; hostname = "node"; has_user = false });
  lookup_ip = λ s. "100.64.0.1" ∷ [];
  prefix_contains = λ p a. true;
  new_request = λ url grant context digest. a_request;
}

-- The part that a request asks for, with the headers of the server.
abbrev answer : ℕ → ℕ → String → Response
answer a b bytes = record {
  status = 206;
  headers =
      sign_blob_response signing toy_web
        (set_header "Content-Range" (content_range toy_web a b 6) (λ name. "")) 206 bytes alice
        early "n";
  body = bytes;
}

abbrev server : Request → Result Response
server r = ok (
    if same (r.headers "Range") (range_header toy_web 0 3)
    then answer 0 3 "abcd"
    else answer 4 5 "ef")

abbrev rounds : ℕ → Round
rounds n = record { sent_at = early; nonce = "n"; verified_at = early }

abbrev nothing : Download
nothing = record { received = 0; part = none; final = none }

abbrev downloaded : Result (Unit {0}) × Download
downloaded = receive signing toy_web toy_library net server rounds 4 spec bob nothing

downloaded_ok : downloaded.0 ≡ ok tt
unfolding same is_empty size prefix_of suffix_of zeros padded write_at has_prefix after_prefix cut
    split ones ◌>>=◌ content_range range_header unix_time sign_blob_request sign_blob_response
    verify_blob_response validate_download_spec range_end receive_ranges receive
downloaded_ok = refl

downloaded_test : downloaded.1 ≡ record { received = 6; part = none; final = some "abcdef" }
unfolding is_empty size prefix_of suffix_of padded write_at has_prefix after_prefix cut split ones
    ◌>>=◌ content_range range_header unix_time sign_blob_request sign_blob_response
    verify_blob_response validate_download_spec range_end receive_ranges receive
downloaded_test = refl

receive_ranges-Rounds_example :
    Rounds signing toy_web toy_library net server rounds 4 spec bob nothing
      (receive_ranges signing toy_web toy_library net server rounds 4 spec bob 6 nothing).0
      (receive_ranges signing toy_web toy_library net server rounds 4 spec bob 6 nothing).1
receive_ranges-Rounds_example =
    receive_ranges-Rounds signing toy_web toy_library net server rounds 4 spec bob (omega arith) 6
      nothing (omega arith)

receive-IsBlob_example :
    (bytes : String) × (downloaded.1.final ≡ some bytes)
    × IsBlob signing toy_web toy_library net server rounds 4 spec bob bytes
receive-IsBlob_example =
    receive-IsBlob signing toy_web toy_library net server rounds 4 spec bob (omega arith) nothing
      downloaded_ok
