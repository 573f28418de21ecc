-- ===== src/Store/Audit.antt =====
-- AppendAuditEntry and ListAuditEntries of internal/store/store.go.
use snw_agent_link.Prelude.{
  Bool, ◌&&◌, ◌||◌, List, String, same, is_empty, ltb, ◌==◌, take, if◌then◌else◌,
}
use snw_agent_link.Prelude.Int.{ℤ}
use snw_agent_link.Errors.{ok, err, constraint}
use snw_agent_link.Time.{Time, stored}
use snw_agent_link.Table.{select, taken, insert}
use snw_agent_link.Table.Sort.{order_by}
use snw_agent_link.Model.{AuditEntry}
use snw_agent_link.Store.Tables.{Database, Db, or_now, limit_or_default, text_le}

unfoldable pub append_audit_entry : Time → AuditEntry → Db (Unit {0})
append_audit_entry wall e d =
    if taken (λ row. same row.id e.id) d.audits then (err constraint, d) else (
      ok tt,
      record d {
        audits = insert (record e { created_at = stored (or_now e.created_at wall) }) d.audits;
      },
    )

-- `(? = '' OR actor_agent_id = ?) AND (? = '' OR remote_agent_id = ?)`
abbrev audit_matches : String → String → AuditEntry → Bool
audit_matches actor remote e =
    (is_empty actor || same e.actor_agent_id actor)
    && (is_empty remote || same e.remote_agent_id remote)

-- `ORDER BY created_at DESC, id DESC`
abbrev latest_first : AuditEntry → AuditEntry → Bool
latest_first a b =
    ltb b.created_at a.created_at || (a.created_at == b.created_at && text_le b.id a.id)

unfoldable pub list_audit_entries : String → String → ℤ → Database → List AuditEntry
list_audit_entries actor remote limit d =
    take (limit_or_default limit)
      (order_by latest_first (select (audit_matches actor remote) d.audits))
