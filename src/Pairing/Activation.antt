-- ===== src/Pairing/Activation.antt =====
-- ApplyConfirmation and ApplyActivationReceipt: what they have checked when they return, and that
-- they leave the table of contacts alone when they fail.
use snw_agent_link.Prelude.{
  ◌≡◌, sym, ◌∙◌, true, false, some, String, arith, same→eq, inl, inr, same, Option-cases,
}
use mathlib.Core.Path.{subst₂}
use snw_agent_link.Time.{Time}
use snw_agent_link.Errors.{Error, ok, err, Result-cases}
use snw_agent_link.Exec.{◌>>=◌}
use snw_agent_link.Model.{Contact, PairingSession, active, inviter, contact_state_eq}
use snw_agent_link.Platform.{Platform}
use snw_agent_link.Identity.{Identity}
use snw_agent_link.Store.Tables.{Database}
use snw_agent_link.Store.Contacts.{find_contact, get_contact}
use snw_agent_link.Store.Contacts.Pinning.{upsert_contact_outcome}
use snw_agent_link.Store.Pairings.{get_pairing_session, upsert_pairing_session}
use snw_agent_link.Pairing.Payloads.{Confirmation, ActivationReceipt, ActivationReceiptPayload}
use snw_agent_link.Pairing.Envelope.{kind_receipt, public_key, verify_payload, digest_envelope}
use snw_agent_link.Pairing.Invite.{Readings, or_mismatch, require}
use snw_agent_link.Pairing.Confirm.{
  checked_confirmation, receipt_mismatch, checked_receipt, activate, apply_confirmation,
  apply_activation_receipt,
}
use snw_agent_link.Pairing.Authentic.{
  IsSignedBy, verify_payload-IsSignedBy, role_eq→eq, IsConfirmed, confirmation_shown,
  confirmation_steps, IsActivated, activate-IsActivated,
}

-- The session with the digest of what has just been checked.
abbrev digested : (p : Platform) → Confirmation → PairingSession → PairingSession
digested p c s = record s { confirmation_digest = digest_envelope p c.envelope }

find_contact-upsert_pairing_session :
    (l r : String) (w : Time) (s : PairingSession) (d : Database)
    → find_contact l r (upsert_pairing_session w s d).1 ≡ find_contact l r d
unfolding upsert_pairing_session find_contact
find_contact-upsert_pairing_session l r w s d = ground arith

-- The contacts do not depend on the session that is written first.
IsActivated-session :
    (l r : String) (w : Time) (s : PairingSession) (d d' : Database)
    → IsActivated l r (upsert_pairing_session w s d).1 d'
    → IsActivated l r d d'
IsActivated-session l r w s d d' a = record {
  before = a.before;
  after = a.after;
  found = sym (find_contact-upsert_pairing_session l r w s d) ∙ a.found;
  awaited = a.awaited;
  left = a.left;
  is_active = a.is_active;
  pinned = a.pinned;
}

module _ (p : Platform) (r : Readings) (c : Confirmation) (d : Database) where
  confirmation_run :
      (i : Identity) (x : ActivationReceipt)
      → (apply_confirmation p r (some i) c d).0 ≡ ok x
      → (s : PairingSession) × (y : Contact) × ((checked_confirmation p i c d).0 ≡ ok s)
        × ((activate p r i s (upsert_pairing_session (r.wall 0) (digested p c s) d).1).0 ≡ ok y)
        × ((apply_confirmation p r (some i) c d).1
            ≡ (activate p r i s (upsert_pairing_session (r.wall 0) (digested p c s) d).1).1)
  unfolding apply_confirmation ◌>>=◌ require
  confirmation_run i x h = elim (Result-cases (checked_confirmation p i c d).0) [
    | inl (e, bad) ↦ absurd (ground arith)
    | inr (s, good) ↦
        let d' = (upsert_pairing_session (r.wall 0) (digested p c s) d).1 in
        let steps = confirmation_steps p i c d s good in
        elim (Result-cases (activate p r i s d').0) [
          | inl (e, bad) ↦ absurd (ground (arith, steps.0))
          | inr (y, done) ↦ (s, y, good, done, ground (arith, steps.0))
        ]
  ]

  -- ApplyConfirmation returns a receipt only for a confirmation that is signed by the key of the
  -- session of its invite, in which the local agent is the invitee, that has the hosts and digests of
  -- this session, and that names the local agent and key; and then the contact of the session, which
  -- awaited its confirmation, is active under the fingerprints that it had.
  pub apply_confirmation-IsConfirmed :
      (i : Identity) (x : ActivationReceipt)
      → (apply_confirmation p r (some i) c d).0 ≡ ok x
      → (s : PairingSession) × IsConfirmed p i c s d
        × IsActivated i.agent_id s.remote_agent_id d (apply_confirmation p r (some i) c d).1
  apply_confirmation-IsConfirmed i x h =
      let (s, y, good, done, end) = confirmation_run i x h in
      let d' = (upsert_pairing_session (r.wall 0) (digested p c s) d).1 in
      (
        s,
        confirmation_shown p i c d s good,
        rw end (
            IsActivated-session i.agent_id s.remote_agent_id (r.wall 0) (digested p c s) d
              (activate p r i s d').1 (activate-IsActivated p r i s d' y done)),
      )

-- A contact that could not be made active is as it was.
activate_failed :
    (p : Platform) (r : Readings) (i : Identity) (s : PairingSession) (d : Database) {e : Error}
    → (activate p r i s d).0 ≡ err e
    → (activate p r i s d).1 ≡ d
unfolding activate ◌>>=◌ get_contact contact_state_eq
activate_failed p r i s d h = elim (Option-cases (find_contact i.agent_id s.remote_agent_id d)) [
  | inl e ↦ ground arith
  | inr (x, e) ↦ ground (arith, upsert_contact_outcome (r.wall 1) (record x { state = active }) d)
]

-- Everything that ApplyActivationReceipt checks of a receipt, for the session of its invite.
pub record IsReceived (p : Platform) (i : Identity) (c : ActivationReceipt) (s : PairingSession)
    (d : Database) : Type 0 where
  pub session : get_pairing_session c.payload.invite_id i.agent_id d ≡ ok s
  pub role : s.role ≡ inviter
  pub signed :
      IsSignedBy p p.marshal_receipt c kind_receipt s.remote_agent_id s.remote_agent_public_key
  pub inviting_agent : c.payload.inviting_agent_id ≡ i.agent_id
  pub accepting_host : c.payload.accepting_host_fingerprint ≡ s.remote_host_fingerprint
  pub confirmation_digest : c.payload.confirmation_digest ≡ s.confirmation_digest

contacts-upsert_pairing_session :
    (w : Time) (s : PairingSession) (d : Database)
    → (upsert_pairing_session w s d).1.contacts ≡ d.contacts
unfolding upsert_pairing_session
contacts-upsert_pairing_session w s d = ground arith

upsert_pairing_session_ok :
    (w : Time) (s : PairingSession) (d : Database) → (upsert_pairing_session w s d).0 ≡ ok tt
unfolding upsert_pairing_session
upsert_pairing_session_ok w s d = ground arith

module _ (p : Platform) (i : Identity) (d : Database) where
  confirmation_failed :
      (c : Confirmation) {e : Error}
      → (checked_confirmation p i c d).0 ≡ err e
      → (checked_confirmation p i c d).1 ≡ d
  unfolding checked_confirmation ◌>>=◌ or_mismatch
  confirmation_failed c h = ground arith

  receipt_steps :
      (c : ActivationReceipt) (s : PairingSession)
      → (checked_receipt p i c d).0 ≡ ok s
      → ((checked_receipt p i c d).1 ≡ d)
        × (get_pairing_session c.payload.invite_id i.agent_id d ≡ ok s)
        × (same c.payload.accepting_agent_public_key s.remote_agent_public_key ≡ true)
        × (verify_payload p p.marshal_receipt c kind_receipt c.payload.accepting_agent_id
              c.payload.accepting_agent_public_key
            ≡ ok tt)
        × (receipt_mismatch p i s c.payload ≡ false)
  unfolding checked_receipt ◌>>=◌ public_key or_mismatch
  receipt_steps c s h = ground arith

  receipt_matched :
      (s : PairingSession) (a : ActivationReceiptPayload)
      → receipt_mismatch p i s a ≡ false
      → (s.role ≡ inviter)
        × (a.inviting_agent_id ≡ i.agent_id)
        × (a.accepting_agent_id ≡ s.remote_agent_id)
        × (a.accepting_host_fingerprint ≡ s.remote_host_fingerprint)
        × (a.confirmation_digest ≡ s.confirmation_digest)
  unfolding receipt_mismatch
  receipt_matched s a h = ground (
    arith,
    role_eq→eq s.role inviter,
    same→eq a.inviting_agent_id i.agent_id,
    same→eq a.accepting_agent_id s.remote_agent_id,
    same→eq a.accepting_host_fingerprint s.remote_host_fingerprint,
    same→eq a.confirmation_digest s.confirmation_digest,
  )

  receipt_shown :
      (c : ActivationReceipt) (s : PairingSession)
      → (checked_receipt p i c d).0 ≡ ok s
      → IsReceived p i c s d
  receipt_shown c s h =
      let (_, session, key, verified, matched) = receipt_steps c s h in
      let (role, inviting, accepting, host, digest) = receipt_matched s c.payload matched in
      record {
        session = session;
        role = role;
        signed =
            subst₂ (IsSignedBy p p.marshal_receipt c kind_receipt) accepting
              (same→eq c.payload.accepting_agent_public_key s.remote_agent_public_key key)
              (verify_payload-IsSignedBy p p.marshal_receipt c kind_receipt
                c.payload.accepting_agent_id c.payload.accepting_agent_public_key verified);
        inviting_agent = inviting;
        accepting_host = host;
        confirmation_digest = digest;
      }

  receipt_failed :
      (c : ActivationReceipt) {e : Error}
      → (checked_receipt p i c d).0 ≡ err e
      → (checked_receipt p i c d).1 ≡ d
  unfolding checked_receipt ◌>>=◌ or_mismatch
  receipt_failed c h = ground arith

  -- An ApplyConfirmation that returns an error leaves the table of contacts as it was.
  pub apply_confirmation_failed :
      (r : Readings) (c : Confirmation) {e : Error}
      → (apply_confirmation p r (some i) c d).0 ≡ err e
      → (apply_confirmation p r (some i) c d).1.contacts ≡ d.contacts
  unfolding apply_confirmation ◌>>=◌ require
  apply_confirmation_failed r c h = elim (Result-cases (checked_confirmation p i c d).0) [
    | inl (e, bad) ↦ ground (arith, confirmation_failed c bad)
    | inr (s, good) ↦
        let d' = (upsert_pairing_session (r.wall 0) (digested p c s) d).1 in
        let steps = confirmation_steps p i c d s good in
        let written = upsert_pairing_session_ok (r.wall 0) (digested p c s) d in
        let same_contacts = contacts-upsert_pairing_session (r.wall 0) (digested p c s) d in
        elim (Result-cases (activate p r i s d').0) [
          | inl (e, bad) ↦
              ground (arith, steps.0, activate_failed p r i s d' bad, same_contacts, written)
          | inr (y, done) ↦ absurd (ground (arith, steps.0, done, written))
        ]
  ]

  -- ApplyActivationReceipt returns a contact only for a receipt that is signed by the key of the
  -- session's acceptance and names the digest of the confirmation that was sent; and then the
  -- contact, which awaited its confirmation, is active under the fingerprints that it had.
  pub apply_activation_receipt-IsReceived :
      (r : Readings) (c : ActivationReceipt) (x : Contact)
      → (apply_activation_receipt p r (some i) c d).0 ≡ ok x
      → (s : PairingSession) × IsReceived p i c s d
        × IsActivated i.agent_id s.remote_agent_id d (apply_activation_receipt p r (some i) c d).1
  unfolding apply_activation_receipt ◌>>=◌ require
  apply_activation_receipt-IsReceived r c x h = elim (Result-cases (checked_receipt p i c d).0) [
    | inl (e, bad) ↦ absurd (ground arith)
    | inr (s, good) ↦
        let steps = receipt_steps c s good in
        elim (Result-cases (activate p r i s d).0) [
          | inl (e, bad) ↦ absurd (ground (arith, steps.0))
          | inr (y, done) ↦
              let end : (apply_activation_receipt p r (some i) c d).1 ≡ (activate p r i s d).1 =
                ground (arith, steps.0) in
              (s, receipt_shown c s good, rw end (activate-IsActivated p r i s d y done))
        ]
  ]
