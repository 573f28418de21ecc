-- ===== src/Pairing/Envelope.antt =====
-- The helpers at the end of internal/pairing/service.go: signing and checking payloads, digests, the
-- proof of the invite's secret, and the endpoint of an agent.
use snw_agent_link.Prelude.{
  ℕ, ◌||◌, not, Option, none, some, String, ◌<>◌, same, is_empty, size, ◌==◌, if◌then◌else◌,
}
use snw_agent_link.Errors.{Result, ok, err, invalid_envelope, refused}
use snw_agent_link.Time.{Time}
use snw_agent_link.Model.{SignedEnvelope}
use snw_agent_link.Platform.{Platform}
use snw_agent_link.Identity.{Identity, sign_envelope, verify_envelope_for_agent}
use snw_agent_link.Pairing.Payloads.{Signed}

-- The five kinds.
abbrev pub kind_invite : String
kind_invite = "pairing.invite"

abbrev pub kind_acceptance : String
kind_acceptance = "pairing.acceptance"

abbrev pub kind_confirmation : String
kind_confirmation = "pairing.confirmation"

abbrev pub kind_receipt : String
kind_receipt = "pairing.activation_receipt"

abbrev pub kind_revocation : String
kind_revocation = "contact.revocation"

-- `ed25519.PublicKeySize`
abbrev pub public_key_size : ℕ
public_key_size = 32

unfoldable pub public_key : String → Result String
public_key value = if size value == public_key_size then ok value else err refused

abbrev zero_byte : String
zero_byte = "\0"

module _ (p : Platform) where
  -- Any failure of the check of the signature is ErrInvalidEnvelope.
  abbrev as_invalid : Result (Unit {0}) → Result (Unit {0})
  as_invalid (ok _) = ok tt
  as_invalid (err e) = err invalid_envelope

  abbrev check_payload : String → SignedEnvelope → Result (Unit {0}) → Result (Unit {0})
  check_payload encoded e (ok _) = if same encoded e.payload then ok tt else err invalid_envelope
  check_payload encoded e (err x) = err x

  module _ {T : Type 0} (marshal : T → String) where
    unfoldable pub sign_payload : Identity → String → T → Time → String → Signed T
    unfolding sign_envelope
    sign_payload signer kind payload wall nonce = record {
      payload = payload;
      envelope = sign_envelope p signer signer.agent_id kind (marshal payload) wall nonce;
    }

    unfoldable pub verify_payload : Signed T → String → String → String → Result (Unit {0})
    unfolding verify_envelope_for_agent
    verify_payload m kind agent key =
        if not (same m.envelope.kind kind)
        then err invalid_envelope
        else check_payload (marshal m.payload) m.envelope
            (as_invalid (verify_envelope_for_agent p m.envelope agent key))

  unfoldable pub digest_envelope : SignedEnvelope → String
  digest_envelope e = p.hex (p.sha256 (p.marshal_envelope e))

  unfoldable pub hash_secret : String → String
  hash_secret secret = p.sha256 secret

  -- The four parts of the message end in a zero byte, but the last.
  unfoldable pub acceptance_secret_proof : String → String → String → String → String → String
  acceptance_secret_proof secret_hash invite_digest agent host_fingerprint agent_fingerprint =
      p.base64_raw_url (
        p.hmac_sha256 secret_hash (
          invite_digest <> zero_byte <> agent <> zero_byte <> host_fingerprint <> zero_byte
          <> agent_fingerprint))

  ip_only : String → String × String
  ip_only raw = if p.is_ip raw then (raw, "") else ("", "")

  abbrev or_raw : String → Option String → String
  or_raw raw none = raw
  or_raw raw (some host) = host

  split_raw : String → String × String
  unfolding ip_only
  split_raw raw = elim (p.split_host_port raw) [
    | some (host, port) ↦ (p.trim_brackets host, port)
    | none ↦ ip_only (if p.is_bracketed raw then p.trim_brackets raw else raw)
  ]

  unfoldable pub split_tailnet_address : String → String × String
  unfolding split_raw
  split_tailnet_address address =
      let raw = p.trim_space address in
      if is_empty raw then ("", "") else split_raw (or_raw raw (p.url_host raw))

  unfoldable pub endpoint_for_agent : String → String → String
  unfolding split_tailnet_address
  endpoint_for_agent address agent =
      let (host, port) = split_tailnet_address address in
      if is_empty host || is_empty agent
      then ""
      else "http://"
        <> p.join_host_port host (if is_empty port then "7443" else port)
        <> "/agents/"
        <> p.path_escape agent
        <> "/a2a/rest"
