-- ===== src/Delivery/Transport.antt =====
-- internal/delivery/a2a.go: DynamicA2ATransport, which sends a message to the endpoint of its
-- contact.
use snw_agent_link.Prelude.{
  Bool, true, false, ◌&&◌, not, Option, some, none, String, is_empty, size, ◌==◌, if◌then◌else◌,
}
use snw_agent_link.Errors.{Result, ok, err, refused}
use snw_agent_link.Exec.{pure, query, attempt, reject_if, ◌>>=◌, ◌>>◌}
use snw_agent_link.Time.{Time}
use snw_agent_link.Model.{OutboxMessage, TaskIndex, PairingSession, active, contact_state_eq}
use snw_agent_link.Identity.{Identity}
use snw_agent_link.Store.Tables.{Db}
use snw_agent_link.Store.Contacts.{get_contact}
use snw_agent_link.Store.Pairings.{find_pairing_session}
use snw_agent_link.Store.Tasks.{upsert_task_index}
use snw_agent_link.Platform.{Platform}
use snw_agent_link.Http.{Web}
use snw_agent_link.Delivery.Exchange.{Client, Target, Instants, deliver_a2a}
use snw_agent_link.Pairing.Envelope.{public_key_size}

pub record Transport : Type 0 where
  -- strings.TrimSpace
  pub trim_space : String → String
  pub require_node_id : Bool
  pub readiness : Option (Result (Unit {0}))
  pub identity_of : String → Result Identity
  pub client : Client
  pub keeps_tasks : Bool

-- `if transportClient.readinessCheck != nil`
abbrev pub ready : Option (Result (Unit {0})) → Result (Unit {0})
ready none = ok tt
ready (some check) = check

-- The key of the pairing session, when there is one of the right size.
abbrev pub answering_key : Result PairingSession → Option String
answering_key (err e) = none
answering_key (ok s) =
    if size s.remote_agent_public_key == public_key_size
    then some s.remote_agent_public_key
    else none

abbrev working_task : Time → OutboxMessage → String → TaskIndex
working_task now m id = record {
  task_id = id;
  context_id = m.context_id;
  local_agent_id = m.source_agent_id;
  remote_agent_id = m.target_agent_id;
  state = "working";
  cursor = "";
  updated_at = now;
}

-- The index of the task; its error is dropped.
unfoldable pub note_task : Bool → Time → OutboxMessage → String → Db (Unit {0})
note_task false now m id = pure tt
note_task true now m id = do attempt (upsert_task_index now (working_task now m id)); pure tt

abbrev parsed_url : Client → String → Result Target
parsed_url c endpoint = elim (c.parse_url endpoint) [ none ↦ err refused | some e ↦ ok e ]

-- `Deliver`; `now` is the reading of time.Now() for the task.
unfoldable pub deliver_dynamic :
    Platform → Web → Transport → Instants → Time → OutboxMessage → Db String
unfolding note_task deliver_a2a
deliver_dynamic p w t moment now m = do
  query (λ _. ready t.readiness)
  contact ← query (get_contact m.source_agent_id m.target_agent_id)
  reject_if (not (contact_state_eq contact.state active)) refused
  reject_if (t.require_node_id && is_empty (t.trim_space contact.remote_node_id)) refused
  reject_if (is_empty contact.remote_endpoint) refused
  signer ← query (λ _. t.identity_of m.source_agent_id)
  endpoint ← query (λ _. parsed_url t.client contact.remote_endpoint)
  session ← attempt (query (find_pairing_session m.source_agent_id m.target_agent_id))
  id ← query (λ _. deliver_a2a p w t.client moment m endpoint signer (answering_key session))
  note_task t.keeps_tasks now m id
  pure id
