-- ===== src/Platform.antt =====
-- What the program takes from Go's standard library: hashing, signatures, JSON, text encodings and
-- addresses. A `Platform` is a parameter of the components that use it, and no law is assumed of it
-- but by a theorem that names the law.
use snw_agent_link.Prelude.{String, Bool, Option}
use snw_agent_link.Model.{SignedEnvelope}
use snw_agent_link.Pairing.Payloads.{
  InvitePayload, AcceptancePayload, ConfirmationPayload, ActivationReceiptPayload,
  RevocationPayload,
}

pub record Platform : Type 0 where
  -- crypto/sha256, crypto/hmac (key, then message), encoding/base64 and encoding/hex
  pub sha256 : String → String
  pub hmac_sha256 : String → String → String
  pub base64_raw_url : String → String
  pub hex : String → String
  -- crypto/ed25519: Sign(private, content), and Verify(public, content, signature)
  pub sign : String → String → String
  pub verify : String → String → String → Bool
  -- encoding/json: the envelope without its signature, the envelope, and the payloads
  pub marshal_unsigned : SignedEnvelope → String
  pub marshal_envelope : SignedEnvelope → String
  pub marshal_invite : InvitePayload → String
  pub marshal_acceptance : AcceptancePayload → String
  pub marshal_confirmation : ConfirmationPayload → String
  pub marshal_receipt : ActivationReceiptPayload → String
  pub marshal_revocation : RevocationPayload → String
  -- strings.TrimSpace, and strings.Trim(s, "[]")
  pub trim_space : String → String
  pub trim_brackets : String → String
  -- strings.HasPrefix(s, "[") and strings.HasSuffix(s, "]")
  pub is_bracketed : String → Bool
  -- The host of url.Parse(s), where that succeeds with a scheme.
  pub url_host : String → Option String
  -- net.SplitHostPort, where strconv.Atoi reads the port; net.ParseIP; net.JoinHostPort
  pub split_host_port : String → Option (String × String)
  pub is_ip : String → Bool
  pub join_host_port : String → String → String
  -- url.PathEscape
  pub path_escape : String → String
