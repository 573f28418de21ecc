-- ===== src/Tests/Toy.antt =====
-- A platform of small functions, two agents on it, and a store that is empty.
use snw_agent_link.Prelude.{
  ℕ, ◌*◌, String, ◌<>◌, same, none, some, false, true, [], ◌≡◌, refl, size,
}
use snw_agent_link.Errors.{ok}
use snw_agent_link.Time.{millisecond}
use snw_agent_link.Platform.{Platform}
use snw_agent_link.Identity.{Identity}
use snw_agent_link.Secure.{Gcm, Aead, gcm}
use snw_agent_link.Secure.RoundTrip.{IsLawful}
use snw_agent_link.Store.Tables.{Database}
use snw_agent_link.Pairing.Invite.{Readings}

-- A key signs by standing before the text.
abbrev pub toy : Platform
toy = record {
  sha256 = λ s. s;
  hmac_sha256 = λ k m. k <> m;
  base64_raw_url = λ s. s;
  hex = λ s. s;
  sign = λ k m. k <> m;
  verify = λ k m s. same s (k <> m);
  marshal_unsigned = λ e. e.agent_id <> e.kind <> e.payload <> e.nonce;
  marshal_envelope = λ e. e.agent_id <> e.kind <> e.nonce;
  marshal_invite = λ x. x.invite_id <> x.inviting_agent_id <> x.target_agent_id <> x.secret;
  marshal_acceptance = λ x. x.invite_id <> x.accepting_agent_id <> x.secret_proof;
  marshal_confirmation = λ x. x.invite_id <> x.invite_digest <> x.acceptance_digest;
  marshal_receipt = λ x. x.invite_id <> x.confirmation_digest;
  marshal_revocation = λ x. x.revoking_agent_id <> x.target_agent_id <> x.reason;
  trim_space = λ s. s;
  trim_brackets = λ s. s;
  is_bracketed = λ s. false;
  url_host = λ s. none;
  split_host_port = λ s. none;
  is_ip = λ s. true;
  join_host_port = λ h p. h <> ":" <> p;
  path_escape = λ s. s;
}

abbrev pub alice : Identity
alice = record {
  agent_id = "alice";
  public_key = "aaaaaaaaaaaaaaaaaaaaaaaaaaaaaaaa";
  private_key = "aaaaaaaaaaaaaaaaaaaaaaaaaaaaaaaa";
}

abbrev pub bob : Identity
bob = record {
  agent_id = "bob";
  public_key = "bbbbbbbbbbbbbbbbbbbbbbbbbbbbbbbb";
  private_key = "bbbbbbbbbbbbbbbbbbbbbbbbbbbbbbbb";
}

-- The readings of an operation that runs at the given millisecond.
abbrev pub at : ℕ → String → Readings
at t name = record {
  clock = λ n. t * millisecond;
  wall = λ n. t * millisecond;
  uuid = name;
  nonce = name;
  random = "secret";
}

abbrev pub empty : Database
empty = record {
  contacts = [];
  registrations = [];
  requests = [];
  sessions = [];
  outbox = [];
  seen = [];
  scoped = [];
  receipts = [];
  tasks = [];
  inbox = [];
  audits = [];
  nonces = [];
  grants = [];
}

-- A cipher that hides nothing.
abbrev pub toy_gcm : Gcm
toy_gcm = record { seal = λ n s a. s; open_sealed = λ n s a. some s }

abbrev pub toy_aead : Aead
toy_aead = record { key = ok "k"; new_gcm = λ k. ok toy_gcm }

abbrev pub toy_nonce : String
toy_nonce = "nnnnnnnnnnnn"

pub toy_cipher : gcm toy_aead ≡ ok toy_gcm
unfolding gcm
toy_cipher = refl

pub toy_gcm-IsLawful : IsLawful toy_gcm
toy_gcm-IsLawful = record { opens = λ n s a. refl }

pub toy_nonce_size : size toy_nonce ≡ 12
unfolding size
toy_nonce_size = refl
