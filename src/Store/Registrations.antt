-- ===== src/Store/Registrations.antt =====
-- RegisterAgent, GetAgentRegistration, ListAgentRegistrations and UpdateAgentCapability of
-- internal/store/store.go.
use snw_agent_link.Prelude.{ℕ, Bool, List, String, same, if◌then◌else◌}
use snw_agent_link.Errors.{Result, ok, err, constraint}
use snw_agent_link.Time.{Time, stored}
use snw_agent_link.Table.{select_one, update, affected, taken, insert}
use snw_agent_link.Table.Sort.{order_by}
use snw_agent_link.Model.{AgentRegistration}
use snw_agent_link.Store.Tables.{Database, Db, or_now, or_not_found, require_one_row, text_le}

abbrev pub registration_key : String → AgentRegistration → Bool
registration_key id r = same r.agent_id id

abbrev pub registration_row : Time → AgentRegistration → AgentRegistration
registration_row wall r = record r {
  created_at = stored (or_now r.created_at wall);
  updated_at = stored wall;
}

unfoldable pub register_agent : Time → AgentRegistration → Db (Unit {0})
register_agent wall r d =
    if taken (registration_key r.agent_id) d.registrations
    then (err constraint, d)
    else (ok tt, record d { registrations = insert (registration_row wall r) d.registrations })

unfoldable pub get_agent_registration : String → Database → Result AgentRegistration
get_agent_registration id d = or_not_found (select_one (registration_key id) d.registrations)

unfoldable pub list_agent_registrations : Database → List AgentRegistration
list_agent_registrations d = order_by (λ a b. text_le a.agent_id b.agent_id) d.registrations

unfoldable pub update_agent_capability : Time → String → String → ℕ → Db (Unit {0})
update_agent_capability wall id public_key generation d = (
  require_one_row (affected (registration_key id) d.registrations),
  record d {
    registrations =
        update (registration_key id)
          (λ r. record r {
            capability_public_key = public_key;
            capability_generation = generation;
            updated_at = stored wall;
          })
          d.registrations;
  },
)
