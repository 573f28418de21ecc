-- ===== src/Registration.antt =====
-- internal/registration/service.go: agents register and authenticate by a token. net/url, net and the
-- random token are parameters.
pub mod Laws
use snw_agent_link.Prelude.{
  Bool, true, false, ◌||◌, not, List, [], ◌∷◌, String, same, is_empty, if◌then◌else◌, ℕ,
}
use snw_agent_link.Errors.{Result, ok, err, refused, invalid_token}
use snw_agent_link.Exec.{pure, query, reject_if, ◌>>=◌, ◌>>◌}
use snw_agent_link.Time.{Time}
use snw_agent_link.Model.{AgentRegistration}
use snw_agent_link.Platform.{Platform}
use snw_agent_link.Store.Tables.{Database, Db}
use snw_agent_link.Store.Registrations.{register_agent, get_agent_registration}

pub record RegistrationInput : Type 0 where
  pub agent_id : String
  pub display_name : String
  pub local_endpoint : String
  pub agent_card_json : String
  pub identity_public_key : String
  pub capability_public_key : String
  pub capability_generation : ℕ

-- What url.Parse makes of an endpoint: its scheme, whether it has credentials, its host.
pub record Endpoint : Type 0 where
  pub scheme : String
  pub has_user : Bool
  pub hostname : String

-- url.Parse, and net.LookupIP with IsLoopback of each address.
pub record Network : Type 0 where
  pub parse : String → Result Endpoint
  pub lookup : String → Result (List Bool)

-- The loop over the addresses, of which there must be one.
unfoldable pub only_loopback : List Bool → Result (Unit {0})
only_loopback [] = ok tt
only_loopback (loopback ∷ rest) =
    let others = only_loopback rest in if loopback then others else err refused

resolved : Result (List Bool) → Result (Unit {0})
unfolding only_loopback
resolved (err e) = err e
resolved (ok []) = err refused
resolved (ok (a ∷ rest)) = only_loopback (a ∷ rest)

check_endpoint : Network → Endpoint → Result (Unit {0})
unfolding resolved
check_endpoint n e =
    if not (same e.scheme "http" || same e.scheme "https")
    then err refused
    else if e.has_user || is_empty e.hostname
    then err refused
    else resolved (n.lookup e.hostname)

unfoldable pub validate_local_endpoint : Network → String → Result (Unit {0})
unfolding check_endpoint
validate_local_endpoint n raw = elim (n.parse raw) [ ok e ↦ check_endpoint n e | err x ↦ err x ]

abbrev pub misses_fields : RegistrationInput → Bool
misses_fields input =
    is_empty input.agent_id
    || (is_empty input.display_name
        || (is_empty input.local_endpoint
            || (is_empty input.agent_card_json || is_empty input.identity_public_key)))

module _ (p : Platform) where
  unfoldable pub token_hash : String → String
  token_hash token = p.sha256 token

  registration_of : RegistrationInput → String → AgentRegistration
  unfolding token_hash
  registration_of input token = record {
    agent_id = input.agent_id;
    display_name = input.display_name;
    local_endpoint = input.local_endpoint;
    agent_card_json = input.agent_card_json;
    identity_public_key = input.identity_public_key;
    capability_public_key = input.capability_public_key;
    capability_generation = input.capability_generation;
    registration_token_hash = token_hash token;
    created_at = 0;
    updated_at = 0;
  }

  -- `random` are the bytes of the token.
  unfoldable pub register :
      Network → Time → String → RegistrationInput → Db (AgentRegistration × String)
  unfolding registration_of
  register n wall random input = do
    reject_if (misses_fields input) refused
    query (λ _. validate_local_endpoint n input.local_endpoint)
    register_agent wall (registration_of input (p.base64_raw_url random))
    stored_row ← query (get_agent_registration input.agent_id)
    pure (stored_row, p.base64_raw_url random)

  unfoldable pub authenticate : String → String → Database → Result AgentRegistration
  unfolding token_hash
  authenticate agent_id token d = elim (get_agent_registration agent_id d) [
    | err e ↦ err e
    | ok r ↦ if same r.registration_token_hash (token_hash token) then ok r else err invalid_token
  ]
