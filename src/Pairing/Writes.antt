-- ===== src/Pairing/Writes.antt =====
-- Each operation of the pairing service writes the table of contacts at most once, and by an upsert.
-- The theorems on the table are then instances, for a relation that every upsert keeps.
use snw_agent_link.Prelude.{◌≡◌, refl, Bool, true, false, Option, List, String, arith}
use snw_agent_link.Errors.{Result}
use snw_agent_link.Exec.{◌>>=◌}
use snw_agent_link.Time.{Time}
use snw_agent_link.Model.{
  Contact, ContactState, PairingRequest, PairingSession, active, awaiting_confirmation,
  pending_outbound, pending_inbound,
}
use snw_agent_link.Platform.{Platform}
use snw_agent_link.Identity.{Identity}
use snw_agent_link.Store.Contacts.{upsert_contact}
use snw_agent_link.Store.Pairings.{
  Validator, create_pairing_request, upsert_pairing_session,
  validate_and_consume_pairing_request_for_agent,
}
use snw_agent_link.Store.Outbox.{cancel_outbox_for_contact}
use snw_agent_link.Store.Grants.{revoke_attachment_grants_for_contact}
use snw_agent_link.Pairing.Payloads.{Invite, AcceptancePayload, Acceptance, Confirmation}
use snw_agent_link.Pairing.Invite.{
  Readings, absent, consumed_instead, store_created, store_imported,
}
use snw_agent_link.Pairing.Accept.{
  chosen_contact, consume, store_accepted, store_approved, require_consumed, conflict_is_mismatch,
}
use snw_agent_link.Pairing.Confirm.{activate}
use snw_agent_link.Pairing.Revoke.{shut_out}
use snw_agent_link.Pairing.Guards.{
  Quiet, Guards, Quiet-bind, Guards-later, Guards-first, Guards-attempt, quiet_rules,
}

pub Quiet-create_pairing_request : (r : PairingRequest) → Quiet (create_pairing_request r)
unfolding create_pairing_request
Quiet-create_pairing_request r = record { at = λ d. ground arith }

pub Quiet-upsert_pairing_session :
    (w : Time) (s : PairingSession) → Quiet (upsert_pairing_session w s)
unfolding upsert_pairing_session
Quiet-upsert_pairing_session w s = record { at = λ d. refl }

pub Quiet-cancel : (w : Time) (a b : String) → Quiet (cancel_outbox_for_contact w a b)
unfolding cancel_outbox_for_contact
Quiet-cancel w a b = record { at = λ d. refl }

pub Quiet-revoke_grants :
    (w : Time) (a b : String) (t : Time) → Quiet (revoke_attachment_grants_for_contact w a b t)
unfolding revoke_attachment_grants_for_contact
Quiet-revoke_grants w a b t = record { at = λ d. refl }

pub Quiet-consume_request :
    (id local : String) (t : Time) (v : Option Validator)
    → Quiet (validate_and_consume_pairing_request_for_agent id local t v)
unfolding validate_and_consume_pairing_request_for_agent ◌>>=◌
Quiet-consume_request id local t v = record { at = λ d. ground arith }

pub ruleset store_rules = (
  quiet_rules, Quiet-create_pairing_request, Quiet-upsert_pairing_session, Quiet-cancel,
  Quiet-revoke_grants, Quiet-consume_request,
)

pub Quiet-require_consumed : (x : PairingRequest × Bool) → Quiet (require_consumed x)
unfolding require_consumed
Quiet-require_consumed (r, true) = search store_rules
Quiet-require_consumed (r, false) = search store_rules

pub Quiet-absent : (p : Platform) (r : Result PairingRequest) → Quiet (absent p r)
unfolding absent ◌>>=◌
Quiet-absent p r = record { at = λ d. ground arith }

pub Quiet-consumed_instead :
    (p : Platform) (id local : String) (r : Result (Unit {0}))
    → Quiet (consumed_instead p id local r)
unfolding consumed_instead ◌>>=◌
Quiet-consumed_instead p id local r = record { at = λ d. ground arith }

pub Quiet-consume : (id local : String) (t : Time) → Quiet (consume id local t)
unfolding consume
Quiet-consume id local t = Quiet-bind _ _ (search store_rules) Quiet-require_consumed

pub Quiet-chosen_contact : (i : Identity) (id : String) → Quiet (chosen_contact i id)
unfolding chosen_contact ◌>>=◌
Quiet-chosen_contact i id = record { at = λ d. ground arith }

pub Quiet-conflict_is_mismatch :
    (p : Platform) (r : Result (Unit {0})) → Quiet (conflict_is_mismatch p r)
unfolding conflict_is_mismatch ◌>>=◌
Quiet-conflict_is_mismatch p r = record { at = λ d. ground arith }

pub ruleset service_rules = (
  store_rules, Quiet-require_consumed, Quiet-absent, Quiet-consumed_instead, Quiet-consume,
  Quiet-chosen_contact, Quiet-conflict_is_mismatch,
)

-- `Allowed` are the contacts that may be written: those whose upsert is guarded.
module _ (p : Platform) (R : List Contact → List Contact → Type 0)
    (same : (xs : List Contact) → R xs xs) (Allowed : Contact → Type 0)
    (writes : (w : Time) (c : Contact) → Allowed c → Guards R (upsert_contact w c)) where
  pub Guards-store_created :
      (r : Readings) (invite : Invite)
      → ((c : Contact) → c.state ≡ pending_outbound → Allowed c)
      → Guards R (store_created p r invite)
  unfolding store_created
  Guards-store_created r invite allow =
      search (service_rules, Guards-later, Guards-first, same, writes, allow, refl) depth 12

  pub Guards-store_imported :
      (r : Readings) (invite : Invite) (request : PairingRequest) (key : String)
      → ((c : Contact) → c.state ≡ pending_inbound → Allowed c)
      → Guards R (store_imported p r invite request key)
  unfolding store_imported
  Guards-store_imported r invite request key allow =
      search (service_rules, Guards-later, Guards-first, same, writes, allow, refl) depth 12

  pub Guards-store_accepted :
      (r : Readings) (s : PairingSession) (contact : Contact) (host : String) (a : Acceptance)
      → ((c : Contact) → c.state ≡ awaiting_confirmation → Allowed c)
      → Guards R (store_accepted p r s contact host a)
  unfolding store_accepted
  Guards-store_accepted r s contact host a allow =
      search (service_rules, Guards-later, Guards-first, same, writes, allow, refl) depth 12

  pub Guards-store_approved :
      (r : Readings) (i : Identity) (s : PairingSession) (a : AcceptancePayload) (key : String)
      (c : Confirmation)
      → ((c : Contact) → c.state ≡ awaiting_confirmation → Allowed c)
      → Guards R (store_approved p r i s a key c)
  unfolding store_approved
  Guards-store_approved r i s a key c allow =
      search (service_rules, Guards-later, Guards-first, Guards-attempt, same, writes, allow, refl)
        depth 12

  pub Guards-shut_out :
      (r : Readings) (contact : Contact) (state : ContactState)
      → ((c : Contact) → c.state ≡ state → Allowed c)
      → Guards R (shut_out r contact state)
  unfolding shut_out
  Guards-shut_out r contact state allow =
      search (service_rules, Guards-later, Guards-first, same, writes, allow, refl) depth 12

  pub Guards-activate :
      (r : Readings) (i : Identity) (s : PairingSession)
      → ((c : Contact) → c.state ≡ active → Allowed c)
      → Guards R (activate p r i s)
  unfolding activate
  Guards-activate r i s allow =
      search (service_rules, Guards-later, Guards-first, same, writes, allow, refl) depth 12
