-- ===== src/Http/RoundTrip.antt =====
-- A request that is signed and then checked.
use snw_agent_link.Prelude.{
  ◌+◌, ◌-◌, ◌*◌, ◌/◌, ◌≤◌, ◌<◌, ◌≡◌, ◌<>◌, refl, sym, ap, ◌∙◌, true, false, String, same, same_refl,
  is_empty, size, arith,
}
use text.Mathlib.TextLemmas.{append_assoc}
use snw_agent_link.Prelude.Bytes.{is_empty-append}
use snw_agent_link.Prelude.Split.{
  has_prefix, after_prefix, has_prefix-append, after_prefix-append, all_free, All-IsFree, is_free,
}
use snw_agent_link.Prelude.Int.{int64_limit}
use snw_agent_link.Errors.{ok}
use snw_agent_link.Time.{Time, minute}
use snw_agent_link.Platform.{Platform}
use snw_agent_link.Identity.{Identity, fingerprint}
use snw_agent_link.Http.{Headers, set_header, Request, Web, unix_time, unix_seconds}
use snw_agent_link.Http.Signature.{
  Metadata, request_components, same_components, signature_params, parse_signature_params,
  parse_signature_headers, set_signature_headers, content_digest, request_signature_base,
  sign_request, new_metadata, verify_request_for_target, request_headers, within,
}
use snw_agent_link.Http.Params.{
  IsPlain, IsLawfulWeb, parse-signature_params, parse_signature_value-base64,
}

module _ (p : Platform) (w : Web) (law : IsLawfulWeb p w) where
  -- The headers that are set are read back.
  pub parse-set_signature_headers :
      (headers : Headers) (m : Metadata) (signature : String)
      → parse_signature_params p w (signature_params p w m) ≡ ok m
      → size signature ≡ 64
      → parse_signature_headers p w (set_signature_headers p w headers m signature)
        ≡ ok (m, signature)
  unfolding parse_signature_headers set_signature_headers set_header same size
  parse-set_signature_headers headers m signature h i =
      let params = signature_params p w m in
      let raw = ":" <> (w.base64 signature <> ":") in
      let full = "snw-agent" <> ("=" <> params) in
      let full_value = "snw-agent" <> ("=:" <> (w.base64 signature <> ":")) in
      let input : full ≡ "snw-agent=" <> params = sym (append_assoc "snw-agent" "=" params) in
      let value : full_value ≡ "snw-agent=" <> raw =
        ap (λ s. "snw-agent" <> s) (append_assoc "=" ":" (w.base64 signature <> ":"))
        ∙ sym (append_assoc "snw-agent" "=" raw) in
      ground (
        arith,
        is_empty-append "snw-agent" ("=" <> params) (omega arith),
        is_empty-append "snw-agent" ("=:" <> (w.base64 signature <> ":")) (omega arith),
        ap (has_prefix "snw-agent=") input ∙ has_prefix-append "snw-agent=" params,
        ap (has_prefix "snw-agent=") value ∙ has_prefix-append "snw-agent=" raw,
        ap (after_prefix "snw-agent=") input ∙ after_prefix-append "snw-agent=" params,
        ap (after_prefix "snw-agent=") value ∙ after_prefix-append "snw-agent=" raw,
        h,
        parse_signature_value-base64 p w law signature i,
      )

  -- The body of the request is kept, and so are its method and its target.
  abbrev signed : Request → Identity → Time → String → String → Request
  signed r signer now nonce target =
      let headed = record r { headers = request_headers p w r signer target } in
      let m = new_metadata p w request_components signer now nonce in
      record headed {
        headers =
            set_signature_headers p w headed.headers m
              (p.sign signer.private_key (request_signature_base p w headed m));
      }

  verify_accepts :
      (r : Request) (agent target key : String) (later : Time) (m : Metadata) (signature : String)
      → size key ≡ 32
      → is_empty agent ≡ false
      → is_empty target ≡ false
      → parse_signature_headers p w r.headers ≡ ok (m, signature)
      → same_components m.components request_components ≡ true
      → same m.key_id (fingerprint p key) ≡ true
      → same (r.headers "X-SNW-Agent-ID") agent ≡ true
      → r.headers "X-SNW-Target-Agent-ID" ≡ target
      → within (5 * minute) later (unix_time m.created) ≡ true
      → same (r.headers "Content-Digest") (content_digest p w r.body) ≡ true
      → p.verify key (request_signature_base p w r m) signature ≡ true
      → verify_request_for_target p w r agent target key later (5 * minute) ≡ ok m.nonce
  unfolding verify_request_for_target
  verify_accepts r agent target key later m signature a b c d e f g h i j k =
      ground (arith, a, b, c, d, e, f, g, h, i, j, k, same_refl target)

  in_window :
      (now later : Time)
      → 62135596801 * 1000000000 ≤ now
      → now ≤ later + 5 * minute
      → later + 1000000000 ≤ now + 5 * minute
      → within (5 * minute) later (unix_time (unix_seconds now)) ≡ true
  unfolding within unix_time unix_seconds
  in_window now later since a b =
      let n = now / 1000000000 - 62135596800 in
      let low : (62135596800 + n) * 1000000000 ≤ now = omega (arith, since) in
      let high : now ≤ (62135596800 + n) * 1000000000 + 1000000000 = omega (arith, since) in
      ground (arith, low, high, a, b)

  -- With a lawful library, and where a signature by the private key is of 64 bytes and verifies with
  -- the public key of 32 bytes: a request that a named agent signs for a named target, with a nonce
  -- and a key fingerprint that need no escape, at a second of 1970 or later that is an int64, is
  -- accepted as its own, with that nonce, by whoever checks it with that key for that target within
  -- five minutes, less the second that is cut off.
  pub verify-sign_request :
      (r : Request) (signer : Identity) (now later : Time) (nonce target : String)
      → ((text : String) → p.verify signer.public_key text (p.sign signer.private_key text) ≡ true)
      → ((text : String) → size (p.sign signer.private_key text) ≡ 64)
      → size signer.public_key ≡ 32
      → is_empty signer.agent_id ≡ false
      → is_empty target ≡ false
      → IsPlain nonce
      → IsPlain (fingerprint p signer.public_key)
      → 62135596801 * 1000000000 ≤ now
      → now < int64_limit * 1000000000
      → now ≤ later + 5 * minute
      → later + 1000000000 ≤ now + 5 * minute
      → (r' : Request) × (sign_request p w r signer now nonce target ≡ ok r')
        × (verify_request_for_target p w r' signer.agent_id target signer.public_key later
              (5 * minute)
            ≡ ok nonce)
  unfolding sign_request set_header same content_digest request_signature_base unix_seconds
      same_components set_signature_headers all_free is_free
  verify-sign_request r signer now later nonce target verifies long key_size named sent plain_nonce
        plain_key since in_range not_late not_early =
      let headed = record r { headers = request_headers p w r signer target } in
      let m = new_metadata p w request_components signer now nonce in
      let signature = p.sign signer.private_key (request_signature_base p w headed m) in
      let n = now / 1000000000 - 62135596800 in
      let params =
        parse-signature_params p w law n (fingerprint p signer.public_key) nonce request_components
          (omega (arith, since)) (omega (arith, since, in_range)) plain_key plain_nonce
          (All-IsFree ")" request_components refl) (All-IsFree " " request_components refl) in
      let parsed =
        parse-set_signature_headers headed.headers m signature params
          (long (request_signature_base p w headed m)) in
      let key = signer.public_key in
      (
        signed r signer now nonce target,
        ground (arith, sent),
        verify_accepts (signed r signer now nonce target) signer.agent_id target key later m
            signature key_size named sent parsed refl (same_refl (fingerprint p key))
            (same_refl signer.agent_id) refl (in_window now later since not_late not_early)
            (same_refl (content_digest p w r.body))
            (verifies (request_signature_base p w headed m)),
      )
