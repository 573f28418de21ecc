-- ===== src/Pairing/Authentic.antt =====
-- What a confirmation and an activation receipt have shown when they make a contact active.
use snw_agent_link.Prelude.{◌≡◌, true, false, some, String, arith, same→eq, same}
use mathlib.Core.Path.{subst, subst₂}
use snw_agent_link.Errors.{ok}
use snw_agent_link.Exec.{◌>>=◌}
use snw_agent_link.Model.{
  Contact, PairingSession, active, awaiting_confirmation, Role, invitee, contact_state_eq, role_eq,
}
use snw_agent_link.Platform.{Platform}
use snw_agent_link.Identity.{Identity}
use snw_agent_link.Store.Tables.{Database}
use snw_agent_link.Store.Contacts.{get_contact, find_contact, upsert_contact}
use snw_agent_link.Store.Contacts.Laws.{find-upsert_contact_self, find_contact-key}
use snw_agent_link.Store.Contacts.Pinning.{SameIdentity}
use snw_agent_link.Store.Pairings.{get_pairing_session}
use snw_agent_link.Pairing.Payloads.{Signed, Confirmation, ConfirmationPayload}
use snw_agent_link.Pairing.Envelope.{kind_confirmation, public_key, verify_payload}
use snw_agent_link.Pairing.Invite.{Readings, or_mismatch}
use snw_agent_link.Pairing.Confirm.{confirmation_mismatch, checked_confirmation, activate}

-- The envelope is of this kind, names the agent, carries the payload, and its signature verifies
-- under the key.
pub record IsSignedBy {T : Type 0} (p : Platform) (marshal : T → String) (m : Signed T)
    (kind agent key : String) : Type 0 where
  pub same_kind : m.envelope.kind ≡ kind
  pub same_agent : m.envelope.agent_id ≡ agent
  pub same_payload : marshal m.payload ≡ m.envelope.payload
  pub verified : p.verify key (p.marshal_unsigned m.envelope) m.envelope.signature ≡ true

-- What `verify_payload` accepts is signed.
pub verify_payload-IsSignedBy :
    {T : Type 0} (p : Platform) (marshal : T → String) (m : Signed T) (kind agent key : String)
    → verify_payload p marshal m kind agent key ≡ ok tt
    → IsSignedBy p marshal m kind agent key
unfolding verify_payload
verify_payload-IsSignedBy p marshal m kind agent key h = ground (
  arith,
  same→eq m.envelope.kind kind,
  same→eq m.envelope.agent_id agent,
  same→eq (marshal m.payload) m.envelope.payload,
)

public_key-eq_ok : (v k : String) → public_key v ≡ ok k → k ≡ v
unfolding public_key
public_key-eq_ok v k h = ground arith

pub role_eq→eq : (a b : Role) → role_eq a b ≡ true → a ≡ b
unfolding role_eq
role_eq→eq a b h = ground arith

-- Everything that ApplyConfirmation checks of a confirmation, for the session of its invite.
pub record IsConfirmed (p : Platform) (i : Identity) (c : Confirmation) (s : PairingSession)
    (d : Database) : Type 0 where
  pub session : get_pairing_session c.payload.invite_id i.agent_id d ≡ ok s
  pub role : s.role ≡ invitee
  pub signed :
      IsSignedBy p p.marshal_confirmation c kind_confirmation s.remote_agent_id
        s.remote_agent_public_key
  pub accepting_agent : c.payload.accepting_agent_id ≡ i.agent_id
  pub accepting_key : c.payload.accepting_agent_public_key ≡ i.public_key
  pub inviting_host : c.payload.inviting_host_fingerprint ≡ s.remote_host_fingerprint
  pub accepting_host : c.payload.accepting_host_fingerprint ≡ s.local_host_fingerprint
  pub invite_digest : c.payload.invite_digest ≡ s.invite_digest
  pub acceptance_digest : c.payload.acceptance_digest ≡ s.acceptance_digest

confirmation_mismatch-false :
    (p : Platform) (i : Identity) (s : PairingSession) (c : ConfirmationPayload) (key : String)
    → confirmation_mismatch p i s c key ≡ false
    → (s.role ≡ invitee)
      × (c.inviting_agent_id ≡ s.remote_agent_id)
      × (c.accepting_agent_id ≡ i.agent_id)
      × (key ≡ i.public_key)
      × (c.inviting_host_fingerprint ≡ s.remote_host_fingerprint)
      × (c.accepting_host_fingerprint ≡ s.local_host_fingerprint)
      × (c.invite_digest ≡ s.invite_digest)
      × (c.acceptance_digest ≡ s.acceptance_digest)
unfolding confirmation_mismatch
confirmation_mismatch-false p i s c key h = ground (
  arith,
  role_eq→eq s.role invitee,
  same→eq c.inviting_agent_id s.remote_agent_id,
  same→eq c.accepting_agent_id i.agent_id,
  same→eq key i.public_key,
  same→eq c.inviting_host_fingerprint s.remote_host_fingerprint,
  same→eq c.accepting_host_fingerprint s.local_host_fingerprint,
  same→eq c.invite_digest s.invite_digest,
  same→eq c.acceptance_digest s.acceptance_digest,
)

module _ (p : Platform) (i : Identity) (c : Confirmation) (d : Database) (s : PairingSession) where
  pub confirmation_steps :
      (checked_confirmation p i c d).0 ≡ ok s
      → ((checked_confirmation p i c d).1 ≡ d)
        × (get_pairing_session c.payload.invite_id i.agent_id d ≡ ok s)
        × (same c.payload.inviting_agent_public_key s.remote_agent_public_key ≡ true)
        × (verify_payload p p.marshal_confirmation c kind_confirmation c.payload.inviting_agent_id
              c.payload.inviting_agent_public_key
            ≡ ok tt)
        × (confirmation_mismatch p i s c.payload c.payload.accepting_agent_public_key ≡ false)
  unfolding checked_confirmation ◌>>=◌ public_key or_mismatch
  confirmation_steps h = ground arith

  pub confirmation_shown : (checked_confirmation p i c d).0 ≡ ok s → IsConfirmed p i c s d
  confirmation_shown h =
      let (_, session, key, verified, matched) = confirmation_steps h in
      let m =
        confirmation_mismatch-false p i s c.payload c.payload.accepting_agent_public_key matched in
      let signed =
        verify_payload-IsSignedBy p p.marshal_confirmation c kind_confirmation
          c.payload.inviting_agent_id c.payload.inviting_agent_public_key verified in
      record {
        session = session;
        role = m.0;
        signed =
            subst
              (λ a.
                IsSignedBy p p.marshal_confirmation c kind_confirmation a s.remote_agent_public_key)
              m.1
              (subst
                (IsSignedBy p p.marshal_confirmation c kind_confirmation
                  c.payload.inviting_agent_id)
                (same→eq c.payload.inviting_agent_public_key s.remote_agent_public_key key) signed);
        accepting_agent = m.2;
        accepting_key = m.3;
        inviting_host = m.4;
        accepting_host = m.5;
        invite_digest = m.6;
        acceptance_digest = m.7;
      }

-- The contact was waiting for its confirmation, and is active now, with the identity that it had.
pub record IsActivated (l r : String) (d d' : Database) : Type 0 where
  pub before : Contact
  pub after : Contact
  pub found : find_contact l r d ≡ some before
  pub awaited : before.state ≡ awaiting_confirmation
  pub left : find_contact l r d' ≡ some after
  pub is_active : after.state ≡ active
  pub pinned : SameIdentity before after

module _ (p : Platform) (r : Readings) (i : Identity) (s : PairingSession) (d : Database) where
  activate_steps :
      (x : Contact)
      → (activate p r i s d).0 ≡ ok x
      → (find_contact i.agent_id s.remote_agent_id d ≡ some x)
        × (x.state ≡ awaiting_confirmation)
        × ((upsert_contact (r.wall 1) (record x { state = active }) d).0 ≡ ok tt)
        × ((activate p r i s d).1 ≡ (upsert_contact (r.wall 1) (record x { state = active }) d).1)
  unfolding activate ◌>>=◌ get_contact contact_state_eq
  activate_steps x h = ground arith

  pub activate-IsActivated :
      (x : Contact)
      → (activate p r i s d).0 ≡ ok x
      → IsActivated i.agent_id s.remote_agent_id d (activate p r i s d).1
  activate-IsActivated x h =
      let (found, awaited, written, end) = activate_steps x h in
      let (row, at, is) =
        find-upsert_contact_self (r.wall 1) (record x { state = active }) d written in
      let (same_l, same_r) = find_contact-key i.agent_id s.remote_agent_id x d found in
      record {
        before = x;
        after = row;
        found = found;
        awaited = awaited;
        left = rw end (
            subst₂
              (λ l r'.
                find_contact l r' (upsert_contact (r.wall 1) (record x { state = active }) d).1
                ≡ some row)
              same_l same_r at);
        is_active = is.state;
        pinned = record { host = is.host; agent = is.agent };
      }
