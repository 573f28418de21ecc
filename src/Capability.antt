-- ===== src/Capability.antt =====
-- internal/capability/capability.go: sessions that allow an agent some methods for some time. The
-- token is drawn at random, and an argument here.
pub mod Laws
use snw_agent_link.Prelude.{
  ℕ, ◌+◌, ◌*◌, Bool, true, false, not, List, [], ◌∷◌, String, same, ◌==◌, if◌then◌else◌,
}
use snw_agent_link.Prelude.Int.{ℤ, pos_part}
use snw_agent_link.Errors.{
  Result, ok, err, wrong_agent, wrong_generation, session_expired, wrong_method,
}
use snw_agent_link.Time.{Time, Duration, minute, before}

pub record Session : Type 0 where
  pub token : String
  pub agent_id : String
  pub generation : ℕ
  pub methods : List String
  pub expires_at : Time

-- `if lifetime <= 0 { lifetime = 15 * time.Minute }`
unfoldable pub session_lifetime : ℤ → Duration
session_lifetime lifetime = if pos_part lifetime == 0 then 15 * minute else pos_part lifetime

unfoldable pub issue_session : String → String → ℕ → List String → Time → ℤ → Session
issue_session token agent_id generation methods now lifetime = record {
  token = token;
  agent_id = agent_id;
  generation = generation;
  methods = methods;
  expires_at = now + session_lifetime lifetime;
}

-- The loop over the methods.
unfoldable pub allow : List String → String → Result (Unit {0})
allow [] method = err wrong_method
allow (allowed ∷ rest) method =
    let others = allow rest method in if same allowed method then ok tt else others

unfoldable pub validate : Session → String → ℕ → String → Time → Result (Unit {0})
unfolding allow
validate s agent_id generation method now =
    if not (same s.agent_id agent_id)
    then err wrong_agent
    else if not (s.generation == generation)
    then err wrong_generation
    else if not (before now s.expires_at)
    then err session_expired
    else allow s.methods method
