-- ===== src/Tests/Access.antt =====
-- The theorems on capability sessions and registration, at small inputs.
use snw_agent_link.Tests.Toy.{toy, empty}
use snw_agent_link.Capability.{session_lifetime, issue_session, validate}
use snw_agent_link.Capability.Laws.{IsListed, validate-IsListed}
use snw_agent_link.Errors.{ok, err, session_expired, invalid_token}
use snw_agent_link.Exec.{◌>>=◌}
use snw_agent_link.Model.{AgentRegistration}
use snw_agent_link.Prelude.{
  same, is_empty, size, text_lt, ℕ, ◌≡◌, ◌<◌, ◌+◌, refl, ◌∷◌, [], List, String, true, false,
  if◌then◌else◌,
}
use snw_agent_link.Prelude.Int.{pos}
use snw_agent_link.Registration.{
  validate_local_endpoint, token_hash, register, authenticate, Network, RegistrationInput,
}
use snw_agent_link.Registration.Laws.{authenticate-register}
use snw_agent_link.Store.Registrations.{register_agent, get_agent_registration}
use snw_agent_link.Table.{select_one, select, taken, insert}

abbrev the_agent : String
the_agent = "alice"

abbrev the_epoch : ℕ
the_epoch = 3

abbrev methods : List String
methods = "send" ∷ "read" ∷ []

read_allowed :
    validate (issue_session "t" "alice" 3 methods 1000 (pos 500)) "alice" 3 "read" 1499 ≡ ok tt
unfolding is_empty session_lifetime issue_session validate
read_allowed = refl

late_test :
    validate (issue_session "t" "alice" 3 methods 1000 (pos 500)) "alice" 3 "read" 1500
    ≡ err session_expired
unfolding is_empty session_lifetime issue_session validate
late_test = refl

validate-IsListed_example :
    (the_agent ≡ the_agent)
    × (the_epoch ≡ the_epoch)
    × (1499 < 1000 + session_lifetime (pos 500))
    × IsListed "read" methods
validate-IsListed_example =
    validate-IsListed "t" "alice" 3 methods 1000 (pos 500) "alice" 3 "read" 1499 read_allowed

abbrev local_network : Network
local_network = record {
  parse = λ s. ok (record { scheme = "http"; has_user = false; hostname = s });
  lookup = λ s. ok (true ∷ []);
}

abbrev the_input : RegistrationInput
the_input = record {
  agent_id = "alice";
  display_name = "Alice";
  local_endpoint = "localhost";
  agent_card_json = "{}";
  identity_public_key = "k";
  capability_public_key = "";
  capability_generation = 0;
}

abbrev alice_row : AgentRegistration
alice_row = record {
  agent_id = "alice";
  display_name = "Alice";
  local_endpoint = "localhost";
  agent_card_json = "{}";
  identity_public_key = "k";
  capability_public_key = "";
  capability_generation = 0;
  registration_token_hash = "secret";
  created_at = 1000000;
  updated_at = 1000000;
}

registered_now :
    (register toy local_network 1000000 "secret" the_input empty).0 ≡ ok (alice_row, "secret")
unfolding ◌>>=◌ is_empty size text_lt select_one select taken insert validate_local_endpoint
    register register_agent get_agent_registration
registered_now = refl

authenticate-register_example :
    authenticate toy "alice" "guess" (register toy local_network 1000000 "secret" the_input empty).1
    ≡ (if same (token_hash toy "secret") (token_hash toy "guess")
        then ok alice_row
        else err invalid_token)
authenticate-register_example =
    authenticate-register toy local_network 1000000 "secret" the_input empty alice_row "secret"
      "guess" registered_now
