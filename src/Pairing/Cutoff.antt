-- ===== src/Pairing/Cutoff.antt =====
-- What Revoke, Block and ApplyRevocation leave behind: nothing more goes to the peer.
use snw_agent_link.Prelude.{
  ◌≡◌, ap, ◌∙◌, false, some, String, arith, All, same→eq, ◌&&◌, inl, inr, Option-cases,
}
use mathlib.Core.Path.{subst₂}
use snw_agent_link.Errors.{ok, Result-cases}
use snw_agent_link.Exec.{◌>>=◌}
use snw_agent_link.Model.{Contact, ContactState, revoked, blocked, contact_state_eq}
use snw_agent_link.Platform.{Platform}
use snw_agent_link.Identity.{Identity, fingerprint}
use snw_agent_link.Store.Tables.{Database, Db}
use snw_agent_link.Store.Contacts.{find_contact, get_contact, upsert_contact}
use snw_agent_link.Store.Contacts.Laws.{find-upsert_contact_self, find_contact-key}
use snw_agent_link.Store.Contacts.Pinning.{contact_at}
use snw_agent_link.Store.Outbox.{is_pending, contact_messages, cancel_outbox_for_contact}
use snw_agent_link.Store.Outbox.Delivery.{cancel_outbox_for_contact-cancels}
use snw_agent_link.Store.Grants.{contact_grants, is_open, revoke_attachment_grants_for_contact}
use snw_agent_link.Store.Grants.Laws.{revoke_attachment_grants_for_contact-closes}
use snw_agent_link.Pairing.Payloads.{RevocationNotice}
use snw_agent_link.Pairing.Invite.{Readings, require, or_mismatch}
use snw_agent_link.Pairing.Revoke.{
  shut_out, revoke, block, checked_revocation, revocation_mismatch, apply_revocation,
}
use snw_agent_link.Pairing.Envelope.{kind_revocation, public_key, verify_payload}
use snw_agent_link.Pairing.Authentic.{IsSignedBy, verify_payload-IsSignedBy}

-- The contact is in the given state, no message to it is pending, and no grant to it is open.
pub record IsShutOut (l r : String) (s : ContactState) (d : Database) : Type 0 where
  pub contact : Contact
  pub found : find_contact l r d ≡ some contact
  pub state : contact.state ≡ s
  pub no_messages : All (λ m. is_pending (contact_messages l r) m ≡ false) d.outbox
  pub no_grants : All (λ g. (contact_grants l r g && is_open g) ≡ false) d.grants

module _ (r : Readings) (c : Contact) (s : ContactState) (d : Database) where
  abbrev first : Db (Unit {0})
  first = upsert_contact (r.wall 0) (record c { state = s })

  abbrev second : Db (Unit {0})
  second = cancel_outbox_for_contact (r.wall 1) c.local_agent_id c.remote_agent_id

  shut_out_run :
      (x : Contact)
      → (shut_out r c s d).0 ≡ ok x
      → ((first d).0 ≡ ok tt)
        × ((shut_out r c s d).1.contacts ≡ (first d).1.contacts)
        × ((shut_out r c s d).1.outbox ≡ (second (first d).1).1.outbox)
        × ((shut_out r c s d).1.grants
            ≡ (revoke_attachment_grants_for_contact
                (r.wall 2)
                c.local_agent_id
                c.remote_agent_id
                (r.clock 0)
                (second (first d).1).1).1.grants)
  unfolding shut_out ◌>>=◌ cancel_outbox_for_contact revoke_attachment_grants_for_contact
  shut_out_run x h = ground arith

  shut_out-IsShutOut :
      (x : Contact)
      → (shut_out r c s d).0 ≡ ok x
      → IsShutOut c.local_agent_id c.remote_agent_id s (shut_out r c s d).1
  shut_out-IsShutOut x h =
      let (written, contacts, messages, grants) = shut_out_run x h in
      let (row, found, is) =
        find-upsert_contact_self (r.wall 0) (record c { state = s }) d written in
      record {
        contact = row;
        found = ap (contact_at c.local_agent_id c.remote_agent_id) contacts ∙ found;
        state = is.state;
        no_messages = rw messages (
            cancel_outbox_for_contact-cancels (r.wall 1) c.local_agent_id c.remote_agent_id
              (first d).1);
        no_grants = rw grants (
            revoke_attachment_grants_for_contact-closes (r.wall 2) (r.clock 0) c.local_agent_id
              c.remote_agent_id (second (first d).1).1);
      }

module _ (r : Readings) (l remote : String) (d : Database) where
  revoke_run :
      (x : Contact)
      → (revoke r l remote d).0 ≡ ok x
      → (c : Contact) × (find_contact l remote d ≡ some c)
        × (contact_state_eq c.state blocked ≡ false)
        × ((shut_out r c revoked d).0 ≡ ok x)
        × ((revoke r l remote d).1 ≡ (shut_out r c revoked d).1)
  unfolding revoke ◌>>=◌ get_contact
  revoke_run x h = elim (Option-cases (find_contact l remote d)) [
    | inl e ↦ absurd (ground (arith, e))
    | inr (c, e) ↦ (c, e, ground (arith, e), ground (arith, e), ground (arith, e))
  ]

  block_run :
      (x : Contact)
      → (block r l remote d).0 ≡ ok x
      → (c : Contact) × (find_contact l remote d ≡ some c)
        × ((shut_out r c blocked d).0 ≡ ok x)
        × ((block r l remote d).1 ≡ (shut_out r c blocked d).1)
  unfolding block ◌>>=◌ get_contact
  block_run x h = elim (Option-cases (find_contact l remote d)) [
    | inl e ↦ absurd (ground (arith, e))
    | inr (c, e) ↦ (c, e, ground (arith, e), ground (arith, e))
  ]

  IsShutOut-keys :
      (c : Contact) (s : ContactState) (d' : Database)
      → find_contact l remote d ≡ some c
      → IsShutOut c.local_agent_id c.remote_agent_id s d'
      → IsShutOut l remote s d'
  IsShutOut-keys c s d' e h =
      let (same_l, same_r) = find_contact-key l remote c d e in
      subst₂ (λ a b. IsShutOut a b s d') same_l same_r h

  -- After Revoke returned a contact, the contact is revoked, no message to it is pending and no
  -- attachment grant to it is open; and it was not blocked before.
  pub revoke-IsShutOut :
      (x : Contact)
      → (revoke r l remote d).0 ≡ ok x
      → IsShutOut l remote revoked (revoke r l remote d).1
        × (c : Contact) × (find_contact l remote d ≡ some c)
        × (contact_state_eq c.state blocked ≡ false)
  revoke-IsShutOut x h =
      let (c, e, free, done, end) = revoke_run x h in
      (
        rw end (
            IsShutOut-keys c revoked (shut_out r c revoked d).1 e
              (shut_out-IsShutOut r c revoked d x done)),
        c,
        e,
        free,
      )

  -- After Block returned a contact, the contact is blocked, no message to it is pending and no
  -- attachment grant to it is open.
  pub block-IsShutOut :
      (x : Contact)
      → (block r l remote d).0 ≡ ok x
      → IsShutOut l remote blocked (block r l remote d).1
  block-IsShutOut x h =
      let (c, e, done, end) = block_run x h in
      rw end (
        IsShutOut-keys c blocked (shut_out r c blocked d).1 e
          (shut_out-IsShutOut r c blocked d x done))

module _ (p : Platform) (r : Readings) (i : Identity) (n : RevocationNotice) (d : Database) where
  notice_steps :
      (c : Contact)
      → (checked_revocation p i n d).0 ≡ ok c
      → ((checked_revocation p i n d).1 ≡ d)
        × (find_contact i.agent_id n.payload.revoking_agent_id d ≡ some c)
        × (verify_payload p p.marshal_revocation n kind_revocation n.payload.revoking_agent_id
              n.payload.revoking_agent_public_key
            ≡ ok tt)
        × (revocation_mismatch p c n.payload n.payload.revoking_agent_public_key ≡ false)
  unfolding checked_revocation ◌>>=◌ public_key or_mismatch get_contact
  notice_steps c h = ground arith

  pinned_sender :
      (c : Contact) (k : String)
      → revocation_mismatch p c n.payload k ≡ false
      → fingerprint p k ≡ c.remote_agent_fingerprint
  unfolding revocation_mismatch
  pinned_sender c k h = ground (arith, same→eq (fingerprint p k) c.remote_agent_fingerprint)

  -- ApplyRevocation returns a contact only for a notice that the key which the contact pins has
  -- signed; and then the contact, in whatever state it was, is revoked, no message to it is pending
  -- and no attachment grant to it is open.
  pub apply_revocation-IsShutOut :
      (x : Contact)
      → (apply_revocation p r (some i) n d).0 ≡ ok x
      → (c : Contact) × (find_contact i.agent_id n.payload.revoking_agent_id d ≡ some c)
        × (fingerprint p n.payload.revoking_agent_public_key ≡ c.remote_agent_fingerprint)
        × IsSignedBy p p.marshal_revocation n kind_revocation n.payload.revoking_agent_id
            n.payload.revoking_agent_public_key
        × IsShutOut i.agent_id n.payload.revoking_agent_id revoked
            (apply_revocation p r (some i) n d).1
  unfolding apply_revocation ◌>>=◌ require
  apply_revocation-IsShutOut x h = elim (Result-cases (checked_revocation p i n d).0) [
    | inl (e, bad) ↦ absurd (ground (arith, bad))
    | inr (c, good) ↦
        let (same_db, found, signed, matched) = notice_steps c good in
        let end : (apply_revocation p r (some i) n d).1 ≡ (shut_out r c revoked d).1 =
          ground (arith, good, same_db) in
        let done : (shut_out r c revoked d).0 ≡ ok x = ground (arith, good, same_db) in
        (
          c,
          found,
          pinned_sender c n.payload.revoking_agent_public_key matched,
          verify_payload-IsSignedBy p p.marshal_revocation n kind_revocation
              n.payload.revoking_agent_id n.payload.revoking_agent_public_key signed,
          rw end (
              IsShutOut-keys r i.agent_id n.payload.revoking_agent_id d c revoked
                (shut_out r c revoked d).1 found (shut_out-IsShutOut r c revoked d x done)),
        )
  ]
