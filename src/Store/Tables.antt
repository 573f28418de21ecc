-- ===== src/Store/Tables.antt =====
-- The database: one list of rows for each table of `migrate`, and what the operations share.
use snw_agent_link.Prelude.{ℕ, Bool, Option, none, some, List, not, ◌==◌, if◌then◌else◌}
use snw_agent_link.Prelude.Int.{ℤ, pos_part}
use snw_agent_link.Prelude.{String, text_lt}
use snw_agent_link.Errors.{Result, ok, err, not_found}
use snw_agent_link.Exec.{Exec}
use snw_agent_link.Time.{Time, is_zero}
use snw_agent_link.Model.{
  AgentRegistration, Contact, PairingRequest, PairingSession, OutboxMessage, DeduplicationRecord,
  DeliveryReceipt, AttachmentGrant, InboxMessage, TaskIndex, AuditEntry,
}

-- A row of `inbox_messages`: the message, its body as stored, and the time of reading.
pub record InboxRow : Type 0 where
  pub message : InboxMessage
  pub read_at : Option Time

-- A row of `replay_nonces`.
pub record NonceRow : Type 0 where
  pub local_agent_id : String
  pub remote_agent_id : String
  pub nonce : String
  pub expires_at : Time
  pub created_at : Time

-- `deduplication_records` is `seen`, `scoped_deduplication_records` is `scoped`.
pub record Database : Type 0 where
  pub contacts : List Contact
  pub registrations : List AgentRegistration
  pub requests : List PairingRequest
  pub sessions : List PairingSession
  pub outbox : List OutboxMessage
  pub seen : List DeduplicationRecord
  pub scoped : List DeduplicationRecord
  pub receipts : List DeliveryReceipt
  pub tasks : List TaskIndex
  pub inbox : List InboxRow
  pub audits : List AuditEntry
  pub nonces : List NonceRow
  pub grants : List AttachmentGrant

abbrev pub Db : Type 0 → Type 0
Db A = Exec Database A

-- `if t.IsZero() { t = now }`
abbrev pub or_now : Time → Time → Time
or_now t now = if is_zero t then now else t

-- `requireOneRow`
abbrev pub require_one_row : ℕ → Result (Unit {0})
require_one_row rows = if rows == 1 then ok tt else err not_found

-- `if limit <= 0 { limit = 100 }`
abbrev pub limit_or_default : ℤ → ℕ
limit_or_default limit = if pos_part limit == 0 then 100 else pos_part limit

-- The column is at most the other, in the order of texts.
abbrev pub text_le : String → String → Bool
text_le a b = not (text_lt b a)

-- sql.ErrNoRows is ErrNotFound.
abbrev pub or_not_found : {A : Type 0} → Option A → Result A
or_not_found none = err not_found
or_not_found (some a) = ok a
