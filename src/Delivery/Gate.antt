-- ===== src/Delivery/Gate.antt =====
-- A message leaves only for an active contact; nothing leaves for one that was cut off.
use snw_agent_link.Prelude.{
  ◌≡◌, ◌≢◌, true, false, ◌&&◌, none, some, String, is_empty, size, ◌==◌, ◌⊎◌, arith, inl, inr,
  Option-cases,
}
use snw_agent_link.Errors.{Result, ok, err, Result-cases}
use snw_agent_link.Exec.{◌>>=◌}
use snw_agent_link.Time.{Time}
use snw_agent_link.Model.{
  OutboxMessage, Contact, ContactState, PairingSession, active, revoked, contact_state_eq,
}
use snw_agent_link.Identity.{Identity}
use snw_agent_link.Store.Tables.{Database}
use snw_agent_link.Store.Contacts.{get_contact, find_contact}
use snw_agent_link.Store.Pairings.{find_pairing_session}
use snw_agent_link.Pairing.Invite.{Readings}
use snw_agent_link.Pairing.Revoke.{revoke}
use snw_agent_link.Pairing.Cutoff.{revoke-IsShutOut}
use snw_agent_link.Platform.{Platform}
use snw_agent_link.Http.{Response, Web}
use snw_agent_link.Delivery.Exchange.{Target, Instants, deliver_a2a}
use snw_agent_link.Delivery.Checked.{
  IsSignedAnswer, IsAnswerOf, without_key, wrong_size, checked, IsExchanged,
  deliver_a2a-IsExchanged,
}
use snw_agent_link.Delivery.Transport.{Transport, ready, answering_key, deliver_dynamic}

-- There is no key of the right size in the pairing session, or the response has a signature by it.
abbrev pub IsChecked : Platform → Web → Response → String → Result PairingSession → Time → Type 0
IsChecked p w r agent s now =
    (answering_key s ≡ none)
    ⊎ ((k : String) × (answering_key s ≡ some k) × IsSignedAnswer p w r agent k now)

-- What a message that was sent has passed, and what was sent where.
pub record IsSent (p : Platform) (w : Web) (t : Transport) (moment : Instants) (m : OutboxMessage)
    (id : String) (d : Database) : Type 0 where
  pub contact : Contact
  pub signer : Identity
  pub endpoint : Target
  pub is_ready : ready t.readiness ≡ ok tt
  pub found : find_contact m.source_agent_id m.target_agent_id d ≡ some contact
  pub is_active : contact_state_eq contact.state active ≡ true
  pub bound : (t.require_node_id && is_empty (t.trim_space contact.remote_node_id)) ≡ false
  pub reachable : is_empty contact.remote_endpoint ≡ false
  pub owned : t.identity_of m.source_agent_id ≡ ok signer
  pub parsed : t.client.parse_url contact.remote_endpoint ≡ some endpoint
  pub exchanged :
      IsExchanged p w t.client moment m endpoint signer
        (answering_key (find_pairing_session m.source_agent_id m.target_agent_id d))
        id
  pub is_checked :
      IsChecked p w exchanged.response m.target_agent_id
        (find_pairing_session m.source_agent_id m.target_agent_id d)
        moment.verified_at

answering_key-size :
    (s : Result PairingSession) (k : String) → answering_key s ≡ some k → (size k == 32) ≡ true
answering_key-size (err e) k h = absurd (ground (arith, h))
answering_key-size (ok s) k h = ground (arith, h)

IsAnswerOf-IsChecked :
    (p : Platform) (w : Web) (r : Response) (agent : String) (s : Result PairingSession)
    (now : Time)
    → IsAnswerOf p w r agent (answering_key s) now
    → IsChecked p w r agent s now
IsAnswerOf-IsChecked p w r agent s now (without_key e) = inl e
IsAnswerOf-IsChecked p w r agent s now (checked k e signed) = inr (k, e, signed)
IsAnswerOf-IsChecked p w r agent s now (wrong_size k e wrong) =
    absurd (ground (arith, wrong, answering_key-size s k e))

module _ (p : Platform) (w : Web) (t : Transport) (moment : Instants) (now : Time)
    (m : OutboxMessage) (d : Database) where
  -- DynamicA2ATransport.Deliver returns an identifier only if the readiness check passed, the contact
  -- of the message is active, has an endpoint that is an absolute URL, and a node where one is
  -- required, and the signer is the source's own identity. The request that
  -- the A2A library makes of the message's payload for that endpoint was then signed by it for the
  -- target of the message and sent, and the identifier is that of the task or the message that the
  -- library reads off the response. Where the pairing session of the two agents has
  -- a key of 32 bytes, the response is by the target, or the target has no name, with a signature by
  -- that key over its status, the digest of its body and its agent, made within five minutes.
  pub deliver_dynamic-IsSent :
      (id : String) → (deliver_dynamic p w t moment now m d).0 ≡ ok id → IsSent p w t moment m id d
  unfolding deliver_dynamic ◌>>=◌ get_contact
  deliver_dynamic-IsSent id h =
      let key = answering_key (find_pairing_session m.source_agent_id m.target_agent_id d) in
      elim (Option-cases (find_contact m.source_agent_id m.target_agent_id d)) [
        | inl e ↦ absurd (ground (arith, e))
        | inr (c, e) ↦ elim (Result-cases (t.identity_of m.source_agent_id)) [
          | inl (x, bad) ↦ absurd (ground (arith, e, bad))
          | inr (i, good) ↦ elim (Option-cases (t.client.parse_url c.remote_endpoint)) [
            | inl unparsed ↦ absurd (ground (arith, e, good, unparsed))
            | inr (u, parsed) ↦
                let session = find_pairing_session m.source_agent_id m.target_agent_id d in
                let sent : deliver_a2a p w t.client moment m u i key ≡ ok id =
                  ground (arith, e, good, parsed) in
                let exchanged = deliver_a2a-IsExchanged p w t.client moment i m u key id sent in
                record {
                  contact = c;
                  signer = i;
                  endpoint = u;
                  is_ready = ground (arith, e, good, parsed);
                  found = e;
                  is_active = ground (arith, e, good, parsed);
                  bound = ground (arith, e, good, parsed);
                  reachable = ground (arith, e, good, parsed);
                  owned = good;
                  parsed = parsed;
                  exchanged = exchanged;
                  is_checked =
                      IsAnswerOf-IsChecked p w exchanged.response m.target_agent_id session
                        moment.verified_at exchanged.is_checked;
                }
          ]
        ]
      ]

state-active : (s : ContactState) → s ≡ revoked → contact_state_eq s active ≡ false
unfolding contact_state_eq
state-active s h = ground arith

-- After Revoke returned a contact, DynamicA2ATransport.Deliver returns an error for every message to
-- it.
pub deliver_dynamic-revoke :
    (p : Platform) (w : Web) (r : Readings) (t : Transport) (moment : Instants) (now : Time)
    (m : OutboxMessage) (d : Database) (x : Contact) (id : String)
    → (revoke r m.source_agent_id m.target_agent_id d).0 ≡ ok x
    → (deliver_dynamic p w t moment now m (revoke r m.source_agent_id m.target_agent_id d).1).0
      ≢ ok id
deliver_dynamic-revoke p w r t moment now m d x id h k =
    let d' = (revoke r m.source_agent_id m.target_agent_id d).1 in
    let out = (revoke-IsShutOut r m.source_agent_id m.target_agent_id d x h).0 in
    let sent = deliver_dynamic-IsSent p w t moment now m d' id k in
    ground (arith, out.found, sent.found, sent.is_active, state-active out.contact.state out.state)
