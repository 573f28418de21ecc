-- ===== src/Identity.antt =====
-- internal/identity/identity.go: the key pair of an agent, and the envelopes that it signs.
use snw_agent_link.Prelude.{String, same, not, if◌then◌else◌}
use snw_agent_link.Errors.{Result, ok, err, agent_id_mismatch, key_mismatch, invalid_signature}
use snw_agent_link.Time.{Time, millis}
use snw_agent_link.Model.{SignedEnvelope}
use snw_agent_link.Platform.{Platform}

pub record Identity : Type 0 where
  pub agent_id : String
  pub public_key : String
  pub private_key : String

module _ (p : Platform) where
  unfoldable pub fingerprint : String → String
  fingerprint public_key = p.base64_raw_url (p.sha256 public_key)

  -- `signingBytes`: the envelope without its signature.
  abbrev pub signing_bytes : SignedEnvelope → String
  signing_bytes e = p.marshal_unsigned e

  abbrev unsigned : Identity → String → String → String → Time → String → SignedEnvelope
  unfolding fingerprint
  unsigned i claimed kind payload wall nonce = record {
    agent_id = claimed;
    key_fingerprint = fingerprint i.public_key;
    kind = kind;
    payload = payload;
    issued_at = millis wall;
    nonce = nonce;
    signature = "";
  }

  -- `Sign`: `wall` is the reading of time.Now(), `nonce` the new UUID.
  unfoldable pub sign_envelope :
      Identity → String → String → String → Time → String → SignedEnvelope
  unfolding fingerprint
  sign_envelope i claimed kind payload wall nonce =
      let e = unsigned i claimed kind payload wall nonce in
      record e { signature = p.sign i.private_key (signing_bytes e) }

  unfoldable pub verify_envelope : SignedEnvelope → String → Result (Unit {0})
  unfolding fingerprint
  verify_envelope e public_key =
      if not (same e.key_fingerprint (fingerprint public_key))
      then err key_mismatch
      else if not (p.verify public_key (signing_bytes e) e.signature)
      then err invalid_signature
      else ok tt

  unfoldable pub verify_envelope_for_agent : SignedEnvelope → String → String → Result (Unit {0})
  unfolding verify_envelope
  verify_envelope_for_agent e agent public_key =
      if not (same e.agent_id agent) then err agent_id_mismatch else verify_envelope e public_key
