-- ===== src/Admission/Laws.antt =====
-- What Authorize has checked when it lets an envelope in, and the audit that it leaves.
use snw_agent_link.Prelude.{
  ◌+◌, ◌≤◌, ◌≡◌, true, false, some, String, arith, same→eq, inl, inr, sym, ◌∙◌, Option-cases, same,
}
use snw_agent_link.Errors.{ok, Result-cases}
use snw_agent_link.Exec.{◌>>=◌}
use snw_agent_link.Time.{Time, Duration, from_millis, stored}
use snw_agent_link.Table.{taken, insert}
use snw_agent_link.Model.{Contact, ContactState, active, contact_state_eq}
use snw_agent_link.Platform.{Platform}
use snw_agent_link.Identity.{fingerprint, verify_envelope, verify_envelope_for_agent}
use snw_agent_link.Store.Tables.{Database, or_now}
use snw_agent_link.Store.Contacts.{find_contact, get_contact}
use snw_agent_link.Store.Nonces.{claim_replay_nonce}
use snw_agent_link.Store.Audit.{append_audit_entry}
use snw_agent_link.Admission.{
  Input, Moment, host_differs, outside_window, audit_entry, admit, outcome_of, authorize,
}

-- Everything that an admitted envelope has passed.
pub record IsAdmitted (p : Platform) (skew : Duration) (t : Moment) (input : Input) (d : Database)
    : Type 0 where
  pub contact : Contact
  pub found : find_contact input.local_agent_id input.envelope.agent_id d ≡ some contact
  pub is_active : contact.state ≡ active
  pub same_host : host_differs input contact ≡ false
  pub pinned : contact.remote_agent_fingerprint ≡ fingerprint p input.remote_public_key
  pub sender : input.envelope.agent_id ≡ contact.remote_agent_id
  pub key : input.envelope.key_fingerprint ≡ contact.remote_agent_fingerprint
  pub verified :
      p.verify input.remote_public_key (p.marshal_unsigned input.envelope) input.envelope.signature
      ≡ true
  pub not_old : t.now ≤ from_millis input.envelope.issued_at + skew
  pub not_early : from_millis input.envelope.issued_at ≤ t.now + skew
  pub claimed :
      (claim_replay_nonce input.local_agent_id input.envelope.agent_id input.envelope.nonce
        (from_millis input.envelope.issued_at + skew)
        t.now
        d).0
      ≡ ok true

verified_envelope :
    (p : Platform) (input : Input) (agent : String)
    → verify_envelope_for_agent p input.envelope agent input.remote_public_key ≡ ok tt
    → (input.envelope.agent_id ≡ agent)
      × (input.envelope.key_fingerprint ≡ fingerprint p input.remote_public_key)
      × (p.verify input.remote_public_key
            (p.marshal_unsigned input.envelope)
            input.envelope.signature
          ≡ true)
unfolding verify_envelope_for_agent verify_envelope
verified_envelope p input agent h = ground (
  arith,
  same→eq input.envelope.agent_id agent,
  same→eq input.envelope.key_fingerprint (fingerprint p input.remote_public_key),
)

in_window :
    (skew : Duration) (issued now : Time)
    → outside_window skew issued now ≡ false
    → (now ≤ issued + skew) × (issued ≤ now + skew)
unfolding outside_window
in_window skew issued now h = ground arith

active_state : (s : ContactState) → contact_state_eq s active ≡ true → s ≡ active
unfolding contact_state_eq
active_state s h = ground arith

module _ (p : Platform) (skew : Duration) (t : Moment) (input : Input) (d : Database) where
  abbrev issued : Time
  issued = from_millis input.envelope.issued_at

  admit_contact :
      (admit p skew t input d).0 ≡ ok tt
      → (c : Contact) × (find_contact input.local_agent_id input.envelope.agent_id d ≡ some c)
  unfolding admit ◌>>=◌ get_contact
  admit_contact h =
      elim (Option-cases (find_contact input.local_agent_id input.envelope.agent_id d)) [
        | inl e ↦ let bad = rw e at h in absurd (cc bad)
        | inr found ↦ found
      ]

  admit_steps :
      (c : Contact)
      → find_contact input.local_agent_id input.envelope.agent_id d ≡ some c
      → (admit p skew t input d).0 ≡ ok tt
      → (contact_state_eq c.state active ≡ true)
        × (host_differs input c ≡ false)
        × (same c.remote_agent_fingerprint (fingerprint p input.remote_public_key) ≡ true)
        × (verify_envelope_for_agent p input.envelope c.remote_agent_id input.remote_public_key
            ≡ ok tt)
        × (outside_window skew issued t.now ≡ false)
        × ((claim_replay_nonce input.local_agent_id input.envelope.agent_id input.envelope.nonce
              (issued + skew)
              t.now
              d).0
            ≡ ok true)
  unfolding admit ◌>>=◌ get_contact
  admit_steps c e h = ground arith

  pub admit-IsAdmitted : (admit p skew t input d).0 ≡ ok tt → IsAdmitted p skew t input d
  admit-IsAdmitted h =
      let (c, found) = admit_contact h in
      let (is, host, pin, signed, window, claimed) = admit_steps c found h in
      let (sender, key, verified) = verified_envelope p input c.remote_agent_id signed in
      let (not_old, not_early) = in_window skew issued t.now window in
      let pinned = same→eq c.remote_agent_fingerprint (fingerprint p input.remote_public_key) pin in
      record {
        contact = c;
        found = found;
        is_active = active_state c.state is;
        same_host = host;
        pinned = pinned;
        sender = sender;
        key = key ∙ sym pinned;
        verified = verified;
        not_old = not_old;
        not_early = not_early;
        claimed = claimed;
      }

  pub authorize-admit : (authorize p skew t input d).0 ≡ ok tt → (admit p skew t input d).0 ≡ ok tt
  unfolding authorize ◌>>=◌
  authorize-admit h = ground arith

  -- Authorize lets an envelope in only if the contact under its agent is active, the host of the
  -- caller agrees with the contact's where both are known, the key of the caller is the one that the
  -- contact pins and the one under which the envelope's signature verifies, the time of issue is at
  -- most the allowed skew from the clock in either direction, and the nonce could be claimed.
  pub authorize-IsAdmitted : (authorize p skew t input d).0 ≡ ok tt → IsAdmitted p skew t input d
  authorize-IsAdmitted h = admit-IsAdmitted (authorize-admit h)

  admit-audits : (admit p skew t input d).1.audits ≡ d.audits
  unfolding admit ◌>>=◌ claim_replay_nonce
  admit-audits = ground arith

  -- Whatever its outcome, a call whose UUID is new adds one audit entry at the end of the audit
  -- table, which says "allowed" exactly when the call returns no error.
  pub authorize-audits :
      taken (λ row. same row.id t.uuid) d.audits ≡ false
      → (authorize p skew t input d).1.audits
        ≡ insert
            (record (audit_entry t input (outcome_of p skew (authorize p skew t input d).0)) {
              created_at = stored (or_now t.audited_at t.wall);
            })
            d.audits
  unfolding authorize append_audit_entry ◌>>=◌
  authorize-audits fresh = elim (Result-cases (admit p skew t input d).0) [
    | inl (e, bad) ↦ ground (arith, admit-audits)
    | inr (_, good) ↦ ground (arith, admit-audits)
  ]
