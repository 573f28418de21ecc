-- ===== src/Attachment/Signature.antt =====
-- internal/attachment/http_signature.go: the signatures of the requests for blobs and of the responses.
use snw_agent_link.Prelude.{
  ◌+◌, ◌*◌, ◌<>◌, ◌&&◌, ◌||◌, not, Bool, false, Option, none, some, List, [], ◌∷◌, String, same,
  is_empty, size, ltb, ◌==◌, if◌then◌else◌, ℕ,
}
use snw_agent_link.Prelude.Int.{ℤ, pos, negsuc}
use snw_agent_link.Prelude.Bytes.{suffix_of}
use snw_agent_link.Prelude.Split.{has_prefix, after_prefix, cut, split}
use snw_agent_link.Errors.{Result, ok, err, blob_signature, blob_digest}
use snw_agent_link.Time.{Time, minute}
use snw_agent_link.Platform.{Platform}
use snw_agent_link.Identity.{Identity, fingerprint}
use snw_agent_link.Http.{Headers, set_header, Request, Response, Web, unix_time, unix_seconds}
use snw_agent_link.Http.Signature.{
  same_components, join_spaces, map_text, unquote_all, content_digest, within, skew_or_default,
  verify_response_for_agent,
}

-- `blobSignatureMetadata`
pub record BlobMetadata : Type 0 where
  pub components : List String
  pub created : ℤ
  pub expires : ℤ
  pub key_id : String
  pub nonce : String

abbrev pub label : String
label = "snw-blob"

abbrev pub blob_request_components : List String
blob_request_components =
    "@method" ∷ "@authority" ∷ "@path" ∷ "@query" ∷ "content-digest" ∷ "range" ∷ "x-snw-agent-id"
    ∷ "x-snw-target-agent-id" ∷ []

abbrev pub blob_response_components : List String
blob_response_components =
    "@status" ∷ "content-digest" ∷ "content-range" ∷ "etag" ∷ "x-snw-agent-id" ∷ []

abbrev is_zero_int : ℤ → Bool
is_zero_int (pos n) = n == 0
is_zero_int (negsuc n) = false

unfoldable pub valid_blob_signature_time : BlobMetadata → Time → ℕ → Bool
unfolding within
valid_blob_signature_time m now skew =
    let created = unix_time m.created in
    let expires = unix_time m.expires in
    within (skew_or_default skew) now created
    && (ltb now expires && not (ltb (created + 5 * minute) expires))

module _ (p : Platform) (w : Web) where
  unfoldable pub blob_signature_params : BlobMetadata → String
  unfolding join_spaces
  blob_signature_params m =
      "("
      <> join_spaces (map_text w.quote m.components)
      <> ");created="
      <> w.format_int m.created
      <> ";expires="
      <> w.format_int m.expires
      <> ";keyid="
      <> w.quote m.key_id
      <> ";nonce="
      <> w.quote m.nonce

  unfoldable pub blob_request_signature_base : Request → BlobMetadata → String
  unfolding blob_signature_params
  blob_request_signature_base r m =
      "\"@method\": "
      <> r.method
      <> "\n\"@authority\": "
      <> (if is_empty r.host then r.url_host else r.host)
      <> "\n\"@path\": "
      <> r.escaped_path
      <> "\n\"@query\": "
      <> (if is_empty r.raw_query then "" else ("?" <> r.raw_query))
      <> "\n\"content-digest\": "
      <> r.headers "Content-Digest"
      <> "\n\"range\": "
      <> r.headers "Range"
      <> "\n\"x-snw-agent-id\": "
      <> r.headers "X-SNW-Agent-ID"
      <> "\n\"x-snw-target-agent-id\": "
      <> r.headers "X-SNW-Target-Agent-ID"
      <> "\n\"@signature-params\": "
      <> blob_signature_params m

  unfoldable pub blob_response_signature_base : ℕ → Headers → BlobMetadata → String
  unfolding blob_signature_params
  blob_response_signature_base status headers m =
      "\"@status\": "
      <> w.format_int (pos status)
      <> "\n\"content-digest\": "
      <> headers "Content-Digest"
      <> "\n\"content-range\": "
      <> headers "Content-Range"
      <> "\n\"etag\": "
      <> headers "ETag"
      <> "\n\"x-snw-agent-id\": "
      <> headers "X-SNW-Agent-ID"
      <> "\n\"@signature-params\": "
      <> blob_signature_params m

  unfoldable pub set_blob_signature_headers : Headers → BlobMetadata → String → Headers
  unfolding blob_signature_params set_header
  set_blob_signature_headers headers m signature =
      set_header "Signature" (label <> "=:" <> w.base64 signature <> ":")
        (set_header "Signature-Input" (label <> "=" <> blob_signature_params m) headers)

  unfoldable pub read_blob_parameter : BlobMetadata → String → Option BlobMetadata
  read_blob_parameter m s = elim (cut "=" (p.trim_space s)) [
    | none ↦ some m
    | some (name, value) ↦
        if same name "created"
        then elim (w.parse_int value) [ none ↦ none | some n ↦ some (record m { created = n }) ]
        else if same name "expires"
        then elim (w.parse_int value) [ none ↦ none | some n ↦ some (record m { expires = n }) ]
        else if same name "keyid"
        then elim (w.unquote value) [ none ↦ none | some v ↦ some (record m { key_id = v }) ]
        else if same name "nonce"
        then elim (w.unquote value) [ none ↦ none | some v ↦ some (record m { nonce = v }) ]
        else some m
  ]

  unfoldable pub read_blob_parameters : BlobMetadata → List String → Option BlobMetadata
  unfolding read_blob_parameter
  read_blob_parameters m [] = some m
  read_blob_parameters m (s ∷ ss) = elim (read_blob_parameter m s) [
    | none ↦ none
    | some m' ↦ read_blob_parameters m' ss
  ]

  unfoldable pub read_blob_params_from : String → String → Option BlobMetadata
  unfolding unquote_all read_blob_parameters
  read_blob_params_from inside rest = elim (unquote_all w (w.fields (p.trim_space inside))) [
    | none ↦ none
    | some components ↦
        read_blob_parameters
          (record {
            components = components;
            created = pos 0;
            expires = pos 0;
            key_id = "";
            nonce = "";
          })
          (split ";" rest)
  ]

  abbrev is_complete : BlobMetadata → Bool
  is_complete m =
      not (
        is_zero_int m.created || (is_zero_int m.expires || (is_empty m.key_id || is_empty m.nonce)))

  unfoldable pub parse_blob_signature_params : String → Result BlobMetadata
  unfolding read_blob_params_from
  parse_blob_signature_params value = elim (cut ")" value) [
    | none ↦ err blob_signature
    | some (before_paren, rest) ↦
        if not (has_prefix "(" value)
        then err blob_signature
        else elim (read_blob_params_from (suffix_of 1 before_paren) rest) [
          | none ↦ err blob_signature
          | some m ↦ if is_complete m then ok m else err blob_signature
        ]
  ]

  unfoldable pub parse_blob_signature_headers : Headers → Result (BlobMetadata × String)
  unfolding parse_blob_signature_params
  parse_blob_signature_headers headers =
      let input = headers "Signature-Input" in
      let value = headers "Signature" in
      let prefix = label <> "=" in
      if not (has_prefix prefix input) || not (has_prefix prefix value)
      then err blob_signature
      else elim (parse_blob_signature_params (after_prefix prefix input)) [
        | err e ↦ err e
        | ok m ↦ elim (w.unbase64 (w.trim_colons (after_prefix prefix value))) [
          | none ↦ err blob_signature
          | some s ↦ if size s == 64 then ok (m, s) else err blob_signature
        ]
      ]

  -- `newBlobSignatureMetadata`, and the key: `now` is the reading of time.Now(), `nonce` that of
  -- `blobNonce`.
  abbrev pub new_blob_metadata : List String → Identity → Time → String → BlobMetadata
  unfolding unix_seconds
  new_blob_metadata components signer now nonce = record {
    components = components;
    created = unix_seconds now;
    expires = unix_seconds (now + 2 * minute);
    key_id = fingerprint p signer.public_key;
    nonce = nonce;
  }

  unfoldable pub sign_blob_request : Request → Identity → String → Time → String → Result Request
  unfolding set_header content_digest blob_request_signature_base set_blob_signature_headers
      unix_seconds
  sign_blob_request r signer target now nonce =
      if is_empty target
      then err blob_signature
      else let headed = record r {
        headers = set_header "X-SNW-Agent-Public-Key" (p.base64_raw_url signer.public_key) (
            set_header "X-SNW-Target-Agent-ID" target (
              set_header "X-SNW-Agent-ID" signer.agent_id
                (set_header "Content-Digest" (content_digest p w r.body) r.headers)));
      } in
        let m = new_blob_metadata blob_request_components signer now nonce in
        ok (record headed {
          headers =
              set_blob_signature_headers headed.headers m
                (p.sign signer.private_key (blob_request_signature_base headed m));
        })

  unfoldable pub verify_blob_request : Request → String → String → String → Time → ℕ → Result String
  unfolding parse_blob_signature_headers content_digest blob_request_signature_base fingerprint
      valid_blob_signature_time same_components
  verify_blob_request r agent target public_key now skew =
      if is_empty agent || (is_empty target || not (size public_key == 32))
      then err blob_signature
      else elim (parse_blob_signature_headers r.headers) [
        | err e ↦ err blob_signature
        | ok (m, signature) ↦
            if not (same_components m.components blob_request_components)
            then err blob_signature
            else if not (same (r.headers "X-SNW-Agent-ID") agent)
                || (not (same (r.headers "X-SNW-Target-Agent-ID") target)
                    || (not (same m.key_id (fingerprint p public_key))
                        || not (valid_blob_signature_time m now skew)))
            then err blob_signature
            else if not (same (r.headers "Content-Digest") (content_digest p w r.body))
            then err blob_digest
            else if not (p.verify public_key (blob_request_signature_base r m) signature)
            then err blob_signature
            else ok m.nonce
      ]

  unfoldable pub sign_blob_response : Headers → ℕ → String → Identity → Time → String → Headers
  unfolding set_header content_digest blob_response_signature_base set_blob_signature_headers
      unix_seconds
  sign_blob_response headers status body signer now nonce =
      let headed = set_header "X-SNW-Agent-Public-Key" (p.base64_raw_url signer.public_key) (
        set_header "X-SNW-Agent-ID" signer.agent_id
          (set_header "Content-Digest" (content_digest p w body) headers)) in
      let m = new_blob_metadata blob_response_components signer now nonce in
      set_blob_signature_headers headed m
        (p.sign signer.private_key (blob_response_signature_base status headed m))

  -- The response that carries a signature of the other kind is left to that.
  unfoldable pub verify_blob_response : Response → String → String → Time → ℕ → Result (Unit {0})
  unfolding parse_blob_signature_headers content_digest blob_response_signature_base fingerprint
      valid_blob_signature_time same_components verify_response_for_agent
  verify_blob_response r agent public_key now skew =
      if is_empty agent || not (size public_key == 32)
      then err blob_signature
      else if has_prefix "snw-agent=" (r.headers "Signature-Input")
      then (if same (r.headers "X-SNW-Agent-ID") agent
          then verify_response_for_agent p w r "" public_key now skew
          else err blob_signature)
      else elim (parse_blob_signature_headers r.headers) [
        | err e ↦ err blob_signature
        | ok (m, signature) ↦
            if not (same_components m.components blob_response_components)
              || (not (same (r.headers "X-SNW-Agent-ID") agent)
                  || (not (same m.key_id (fingerprint p public_key))
                      || not (valid_blob_signature_time m now skew)))
            then err blob_signature
            else if not (same (r.headers "Content-Digest") (content_digest p w r.body))
            then err blob_digest
            else if not
                (p.verify public_key (blob_response_signature_base r.status r.headers m) signature)
            then err blob_signature
            else ok tt
      ]
