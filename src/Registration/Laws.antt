-- ===== src/Registration/Laws.antt =====
-- The token that Register returns is the one that authenticates, until the next registration.
use snw_agent_link.Prelude.{◌≡◌, refl, false, some, String, same, same_refl, arith, if◌then◌else◌}
use snw_agent_link.Errors.{ok, err, invalid_token}
use snw_agent_link.Exec.{◌>>=◌}
use snw_agent_link.Time.{Time}
use snw_agent_link.Table.{select_one, taken, insert}
use snw_agent_link.Table.Laws.{taken-select_one, select_one-insert}
use snw_agent_link.Model.{AgentRegistration}
use snw_agent_link.Platform.{Platform}
use snw_agent_link.Store.Tables.{Database}
use snw_agent_link.Store.Registrations.{
  registration_row, registration_key, register_agent, get_agent_registration,
}
use snw_agent_link.Registration.{
  registration_of, RegistrationInput, Network, token_hash, register, authenticate,
}

module _ (p : Platform) (n : Network) (wall : Time) (random : String) (input : RegistrationInput)
    (d : Database) where
  abbrev the_row : AgentRegistration
  the_row = registration_row wall (registration_of p input (p.base64_raw_url random))

  registered :
      (r : AgentRegistration) (token : String)
      → (register p n wall random input d).0 ≡ ok (r, token)
      → (token ≡ p.base64_raw_url random)
        × (get_agent_registration input.agent_id (register p n wall random input d).1 ≡ ok r)
        × (taken (registration_key input.agent_id) d.registrations ≡ false)
        × ((register p n wall random input d).1.registrations ≡ insert the_row d.registrations)
  unfolding register register_agent ◌>>=◌
  registered r token h = ground arith

  found_row :
      taken (registration_key input.agent_id) d.registrations ≡ false
      → select_one (registration_key input.agent_id) (insert the_row d.registrations) ≡ some the_row
  unfolding registration_of
  found_row free = ground (
    arith,
    taken-select_one (registration_key input.agent_id) d.registrations,
    select_one-insert (registration_key input.agent_id) the_row d.registrations,
    same_refl input.agent_id,
  )

  hash_row : the_row.registration_token_hash ≡ token_hash p (p.base64_raw_url random)
  unfolding registration_of
  hash_row = refl

  -- After Register returned a registration and a token, Authenticate answers for the agent with that
  -- registration if the token that it is given has the hash of the one returned, and with
  -- ErrInvalidRegistrationToken otherwise.
  pub authenticate-register :
      (r : AgentRegistration) (token other : String)
      → (register p n wall random input d).0 ≡ ok (r, token)
      → authenticate p input.agent_id other (register p n wall random input d).1
        ≡ (if same (token_hash p token) (token_hash p other) then ok r else err invalid_token)
  unfolding authenticate get_agent_registration
  authenticate-register r token other h =
      let (is, got, free, rows) = registered r token h in
      ground (arith, is, got, rows, found_row free, hash_row)
