-- ===== src/Http/Signature.antt =====
-- internal/transport/http_signature.go: the signatures of A2A requests and responses.
use snw_agent_link.Prelude.{
  ◌+◌, ◌-◌, ◌*◌, ◌<>◌, ◌&&◌, ◌||◌, not, Bool, true, false, Option, none, some, List, [], ◌∷◌,
  String, same, is_empty, size, ltb, ◌==◌, if◌then◌else◌, ℕ,
}
use snw_agent_link.Prelude.Int.{ℤ, pos, pos_part}
use snw_agent_link.Prelude.Bytes.{prefix_of, suffix_of}
use snw_agent_link.Prelude.Split.{has_prefix, after_prefix, cut, split}
use snw_agent_link.Errors.{
  Result, ok, err, invalid_signature, missing_signature, digest_mismatch, refused,
}
use snw_agent_link.Time.{Time, Duration, minute}
use snw_agent_link.Platform.{Platform}
use snw_agent_link.Identity.{Identity, fingerprint}
use snw_agent_link.Http.{Headers, set_header, Request, Response, Web, unix_time, unix_seconds}

pub record Metadata : Type 0 where
  pub components : List String
  pub created : ℤ
  pub key_id : String
  pub nonce : String

abbrev pub label : String
label = "snw-agent"

abbrev pub request_components : List String
request_components =
    "@method" ∷ "@target-uri" ∷ "content-digest" ∷ "x-snw-agent-id" ∷ "x-snw-target-agent-id" ∷ []

abbrev pub response_components : List String
response_components = "@status" ∷ "content-digest" ∷ "x-snw-agent-id" ∷ []

-- `sameComponents`
unfoldable pub same_components : List String → List String → Bool
same_components [] [] = true
same_components (s ∷ ss) (t ∷ ts) = same s t && same_components ss ts
same_components _ _ = false

-- `strings.Join(ss, " ")`
unfoldable pub join_spaces : List String → String
join_spaces [] = ""
join_spaces (s ∷ []) = s
join_spaces (s ∷ ss) = s <> " " <> join_spaces ss

-- The unquoted tokens, where all of them are quoted.
unfoldable pub unquote_all : Web → List String → Option (List String)
unquote_all w [] = some []
unquote_all w (s ∷ ss) = elim (w.unquote s) [
  | none ↦ none
  | some c ↦ elim (unquote_all w ss) [ none ↦ none | some cs ↦ some (c ∷ cs) ]
]

abbrev pub map_text : (String → String) → List String → List String
map_text f [] = []
map_text f (s ∷ ss) = f s ∷ map_text f ss

-- `issued` is within `skew` of `now`.
unfoldable pub within : Duration → Time → Time → Bool
within skew now issued = not (ltb (issued + skew) now) && not (ltb (now + skew) issued)

-- The allowance of the clocks: five minutes where none is given.
abbrev pub skew_or_default : ℕ → Duration
skew_or_default skew = if skew == 0 then 5 * minute else skew

module _ (p : Platform) (w : Web) where
  unfoldable pub content_digest : String → String
  content_digest body = "sha-256=:" <> w.base64 (p.sha256 body) <> ":"

  unfoldable pub signature_params : Metadata → String
  unfolding join_spaces
  signature_params m =
      "("
      <> join_spaces (map_text w.quote m.components)
      <> ");created="
      <> w.format_int m.created
      <> ";keyid="
      <> w.quote m.key_id
      <> ";nonce="
      <> w.quote m.nonce

  abbrev pub target_uri : Request → String
  target_uri r =
      if r.is_absolute
      then r.url
      else ((if r.has_tls then "https" else "http") <> "://" <> r.host <> r.request_uri)

  unfoldable pub request_signature_base : Request → Metadata → String
  unfolding signature_params
  request_signature_base r m =
      "\"@method\": "
      <> r.method
      <> "\n\"@target-uri\": "
      <> target_uri r
      <> "\n\"content-digest\": "
      <> r.headers "Content-Digest"
      <> "\n\"x-snw-agent-id\": "
      <> r.headers "X-SNW-Agent-ID"
      <> "\n\"x-snw-target-agent-id\": "
      <> r.headers "X-SNW-Target-Agent-ID"
      <> "\n\"@signature-params\": "
      <> signature_params m

  unfoldable pub response_signature_base : ℕ → Headers → Metadata → String
  unfolding signature_params
  response_signature_base status headers m =
      "\"@status\": "
      <> w.format_int (pos status)
      <> "\n\"content-digest\": "
      <> headers "Content-Digest"
      <> "\n\"x-snw-agent-id\": "
      <> headers "X-SNW-Agent-ID"
      <> "\n\"@signature-params\": "
      <> signature_params m

  unfoldable pub set_signature_headers : Headers → Metadata → String → Headers
  unfolding signature_params set_header
  set_signature_headers headers m signature =
      set_header "Signature" (label <> "=:" <> w.base64 signature <> ":")
        (set_header "Signature-Input" (label <> "=" <> signature_params m) headers)

  -- One parameter after the components; one without "=" or with another name is passed over.
  unfoldable pub read_parameter : Metadata → String → Option Metadata
  read_parameter m s = elim (cut "=" (p.trim_space s)) [
    | none ↦ some m
    | some (name, value) ↦
        if same name "created"
        then elim (w.parse_int value) [ none ↦ none | some n ↦ some (record m { created = n }) ]
        else if same name "keyid"
        then elim (w.unquote value) [ none ↦ none | some v ↦ some (record m { key_id = v }) ]
        else if same name "nonce"
        then elim (w.unquote value) [ none ↦ none | some v ↦ some (record m { nonce = v }) ]
        else some m
  ]

  unfoldable pub read_parameters : Metadata → List String → Option Metadata
  unfolding read_parameter
  read_parameters m [] = some m
  read_parameters m (s ∷ ss) = elim (read_parameter m s) [
    | none ↦ none
    | some m' ↦ read_parameters m' ss
  ]

  -- The components that stand in parentheses, and the parameters after them.
  unfoldable pub read_params_from : String → String → Option Metadata
  unfolding unquote_all read_parameters
  read_params_from inside rest = elim (unquote_all w (w.fields (p.trim_space inside))) [
    | none ↦ none
    | some components ↦
        read_parameters
          (record { components = components; created = pos 0; key_id = ""; nonce = "" })
          (split ";" rest)
  ]

  abbrev is_complete : Metadata → Bool
  is_complete m = not (pos_part m.created == 0 || (is_empty m.key_id || is_empty m.nonce))

  unfoldable pub parse_signature_params : String → Result Metadata
  unfolding read_params_from
  parse_signature_params value = elim (cut ")" value) [
    | none ↦ err invalid_signature
    | some (before_paren, rest) ↦
        if not (has_prefix "(" value)
        then err invalid_signature
        else elim (read_params_from (suffix_of 1 before_paren) rest) [
          | none ↦ err invalid_signature
          | some m ↦ if is_complete m then ok m else err invalid_signature
        ]
  ]

  -- The signature between two colons.
  unfoldable pub parse_signature_value : String → Option String
  parse_signature_value raw =
      if ltb (size raw) 2 || not (has_prefix ":" raw && same (suffix_of (size raw - 1) raw) ":")
      then none
      else elim (w.unbase64 (prefix_of (size raw - 2) (suffix_of 1 raw))) [
        | none ↦ none
        | some s ↦ if size s == 64 then some s else none
      ]

  unfoldable pub parse_signature_headers : Headers → Result (Metadata × String)
  unfolding parse_signature_params parse_signature_value
  parse_signature_headers headers =
      let input = headers "Signature-Input" in
      let value = headers "Signature" in
      let prefix = label <> "=" in
      if is_empty input || is_empty value
      then err missing_signature
      else if not (has_prefix prefix input) || not (has_prefix prefix value)
      then err invalid_signature
      else elim (parse_signature_params (after_prefix prefix input)) [
        | err e ↦ err e
        | ok m ↦ elim (parse_signature_value (after_prefix prefix value)) [
          | none ↦ err invalid_signature
          | some s ↦ ok (m, s)
        ]
      ]

  -- `now` is the reading of time.Now(), `nonce` the new one of `identityNonce`.
  abbrev pub new_metadata : List String → Identity → Time → String → Metadata
  unfolding unix_seconds
  new_metadata components signer now nonce = record {
    components = components;
    created = unix_seconds now;
    key_id = fingerprint p signer.public_key;
    nonce = nonce;
  }

  abbrev pub request_headers : Request → Identity → String → Headers
  unfolding set_header content_digest
  request_headers r signer target = set_header "X-SNW-Target-Agent-ID" target (
      set_header "X-SNW-Agent-Public-Key" (p.base64_raw_url signer.public_key) (
        set_header "X-SNW-Agent-ID" signer.agent_id
          (set_header "Content-Digest" (content_digest r.body) r.headers)))

  unfoldable pub sign_request : Request → Identity → Time → String → String → Result Request
  unfolding set_header content_digest request_signature_base set_signature_headers unix_seconds
  sign_request r signer now nonce target =
      if is_empty target
      then err refused
      else let headed = record r { headers = request_headers r signer target } in
        let m = new_metadata request_components signer now nonce in
        ok (record headed {
          headers =
              set_signature_headers headed.headers m
                (p.sign signer.private_key (request_signature_base headed m));
        })

  -- What is checked of a request before its body: the nonce is the answer.
  unfoldable pub verify_request_for_target :
      Request → String → String → String → Time → ℕ → Result String
  unfolding parse_signature_headers content_digest request_signature_base fingerprint
  verify_request_for_target r agent target public_key now skew =
      if is_empty agent || not (size public_key == 32)
      then err invalid_signature
      else elim (parse_signature_headers r.headers) [
        | err e ↦ err e
        | ok (m, signature) ↦
            let sent_to = r.headers "X-SNW-Target-Agent-ID" in
            if not (same_components m.components request_components)
            then err invalid_signature
            else if not (same m.key_id (fingerprint p public_key))
                || not (same (r.headers "X-SNW-Agent-ID") agent)
            then err invalid_signature
            else if is_empty sent_to || (not (is_empty target) && not (same sent_to target))
            then err invalid_signature
            else if not (within (skew_or_default skew) now (unix_time m.created))
            then err invalid_signature
            else if not (same (r.headers "Content-Digest") (content_digest r.body))
            then err digest_mismatch
            else if not (p.verify public_key (request_signature_base r m) signature)
            then err invalid_signature
            else ok m.nonce
      ]

  unfoldable pub sign_response : Headers → ℕ → String → Identity → Time → String → Headers
  unfolding set_header content_digest response_signature_base set_signature_headers unix_seconds
  sign_response headers status body signer now nonce =
      let headed = set_header "X-SNW-Agent-Public-Key" (p.base64_raw_url signer.public_key) (
        set_header "X-SNW-Agent-ID" signer.agent_id
          (set_header "Content-Digest" (content_digest body) headers)) in
      let m = new_metadata response_components signer now nonce in
      set_signature_headers headed m
        (p.sign signer.private_key (response_signature_base status headed m))

  unfoldable pub verify_response_for_agent :
      Response → String → String → Time → ℕ → Result (Unit {0})
  unfolding parse_signature_headers content_digest response_signature_base fingerprint
  verify_response_for_agent r agent public_key now skew =
      if not (size public_key == 32)
      then err invalid_signature
      else elim (parse_signature_headers r.headers) [
        | err e ↦ err e
        | ok (m, signature) ↦
            if not (same_components m.components response_components)
              || not (same m.key_id (fingerprint p public_key))
            then err invalid_signature
            else if not (is_empty agent) && not (same (r.headers "X-SNW-Agent-ID") agent)
            then err invalid_signature
            else if not (within (skew_or_default skew) now (unix_time m.created))
            then err invalid_signature
            else if not (same (r.headers "Content-Digest") (content_digest r.body))
            then err digest_mismatch
            else if not
                (p.verify public_key (response_signature_base r.status r.headers m) signature)
            then err invalid_signature
            else ok tt
      ]
