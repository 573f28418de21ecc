-- ===== src/Admission.antt =====
-- internal/admission/service.go: whether a signed envelope from a peer is let in. A call reads the
-- clock once if it gets to the time window, and once more for the audit entry that it always writes.
pub mod Laws
pub mod Replay
use snw_agent_link.Prelude.{
  ◌+◌, ◌*◌, Bool, true, false, ◌&&◌, ◌||◌, not, String, same, is_empty, if◌then◌else◌, ◌==◌,
}
use snw_agent_link.Prelude.Int.{ℤ, pos_part}
use snw_agent_link.Errors.{
  Error, Result, ok, err, not_found, contact_not_active, host_fingerprint_mismatch,
  agent_fingerprint_mismatch, outside_time_window, replay_detected,
}
use snw_agent_link.Exec.{fail, pure, query, attempt, reject_if, ◌>>=◌, ◌>>◌}
use snw_agent_link.Time.{Time, Duration, from_millis, before, minute}
use snw_agent_link.Model.{Contact, SignedEnvelope, AuditEntry, active, contact_state_eq}
use snw_agent_link.Platform.{Platform}
use snw_agent_link.Identity.{fingerprint, verify_envelope_for_agent}
use snw_agent_link.Store.Tables.{Database, Db}
use snw_agent_link.Store.Contacts.{get_contact}
use snw_agent_link.Store.Nonces.{claim_replay_nonce}
use snw_agent_link.Store.Audit.{append_audit_entry}

pub record Input : Type 0 where
  pub local_agent_id : String
  pub remote_host_fingerprint : String
  pub remote_public_key : String
  pub envelope : SignedEnvelope

-- What a call takes from outside: the two readings of the clock, the reading of time.Now() in
-- AppendAuditEntry, and the new UUID.
pub record Moment : Type 0 where
  pub now : Time
  pub audited_at : Time
  pub wall : Time
  pub uuid : String

-- NewService: a skew that is not positive is five minutes.
unfoldable pub allowed_skew : ℤ → Duration
allowed_skew configured = if pos_part configured == 0 then 5 * minute else pos_part configured

-- `errors.Is(err, store.ErrNotFound)`
abbrev pub inactive_if_missing : Result Contact → Result Contact
inactive_if_missing (ok c) = ok c
inactive_if_missing (err not_found) = err contact_not_active
inactive_if_missing (err e) = err e

-- The three comparisons of the host fingerprint.
abbrev pub host_differs : Input → Contact → Bool
host_differs input contact =
    not (is_empty input.remote_host_fingerprint)
    && (not (is_empty contact.remote_host_fingerprint)
        && not (same contact.remote_host_fingerprint input.remote_host_fingerprint))

-- `issuedAt.Before(now.Add(-skew)) || issuedAt.After(now.Add(skew))`, the first with the skew on the
-- other side.
unfoldable pub outside_window : Duration → Time → Time → Bool
outside_window skew issued now = before (issued + skew) now || before (now + skew) issued

abbrev pub audit_entry : Moment → Input → String → AuditEntry
audit_entry t input outcome = record {
  id = t.uuid;
  actor_agent_id = input.local_agent_id;
  remote_agent_id = input.envelope.agent_id;
  action = "admission.authorize";
  outcome = outcome;
  request_id = input.envelope.nonce;
  created_at = t.audited_at;
}

module _ (p : Platform) (skew : Duration) where
  -- The body of Authorize, up to its deferred function.
  unfoldable pub admit : Moment → Input → Db (Unit {0})
  admit t input = do
    contact ←
        query
          (λ d. inactive_if_missing (get_contact input.local_agent_id input.envelope.agent_id d))
    reject_if (not (contact_state_eq contact.state active)) contact_not_active
    reject_if (host_differs input contact) host_fingerprint_mismatch
    reject_if (not (same contact.remote_agent_fingerprint (fingerprint p input.remote_public_key)))
        agent_fingerprint_mismatch
    query (λ _.
        verify_envelope_for_agent p input.envelope contact.remote_agent_id input.remote_public_key)
    reject_if (outside_window skew (from_millis input.envelope.issued_at) t.now) outside_time_window
    claimed ←
        claim_replay_nonce input.local_agent_id input.envelope.agent_id input.envelope.nonce
          (from_millis input.envelope.issued_at + skew) t.now
    reject_if (not claimed) replay_detected

  -- The result of the deferred function: an error of the audit replaces only a success.
  abbrev audited : Result (Unit {0}) → Result (Unit {0}) → Result (Unit {0})
  audited (ok _) audit = audit
  audited (err e) audit = err e

  abbrev pub outcome_of : Result (Unit {0}) → String
  outcome_of (ok _) = "allowed"
  outcome_of (err e) = "denied"

  unfoldable pub authorize : Moment → Input → Db (Unit {0})
  authorize t input = do
    result ← attempt (admit t input)
    audit ← attempt (append_audit_entry t.wall (audit_entry t input (outcome_of result)))
    query (λ _. audited result audit)
