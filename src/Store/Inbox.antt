-- ===== src/Store/Inbox.antt =====
-- RecordInboxMessage, ListInboxMessages and MarkInboxMessageRead of internal/store/store.go.
use snw_agent_link.Prelude.{
  ℕ, Bool, ◌&&◌, ◌||◌, not, Option, none, some, List, [], ◌∷◌, String, ◌<>◌, same, is_empty, ltb,
  ◌==◌, take, if◌then◌else◌,
}
use snw_agent_link.Prelude.Int.{ℤ}
use snw_agent_link.Errors.{Result, ok, err, refused}
use snw_agent_link.Exec.{query, reject_if, ◌>>=◌, ◌>>◌}
use snw_agent_link.Time.{Time, stored}
use snw_agent_link.Table.{select, update, affected, taken, insert}
use snw_agent_link.Table.Sort.{order_by}
use snw_agent_link.Secure.{Aead}
use snw_agent_link.Model.{InboxMessage}
use snw_agent_link.Store.Tables.{
  InboxRow, Database, Db, or_now, require_one_row, limit_or_default, text_le,
}
use snw_agent_link.Store.Outbox.{sealed_with, opened_with}

unfoldable pub inbox_associated_data : InboxMessage → String
inbox_associated_data m =
    "snw-agent-link:inbox:" <> m.target_agent_id <> ":" <> m.source_agent_id <> ":" <> m.message_id

unfoldable pub inbox_key : String → String → String → InboxRow → Bool
inbox_key target source id row =
    same row.message.target_agent_id target
    && (same row.message.source_agent_id source && same row.message.message_id id)

-- The message with its defaults: unread, and received now.
abbrev pub inbox_defaults : Time → InboxMessage → InboxMessage
inbox_defaults wall m = record m {
  state = if is_empty m.state then "unread" else m.state;
  received_at = or_now m.received_at wall;
}

-- INSERT OR IGNORE
insert_inbox : InboxMessage → Db (Unit {0})
insert_inbox m d =
    let row : InboxRow = record {
      message = record m { received_at = stored m.received_at };
      read_at = none;
    } in
    (
      ok tt,
      record d {
        inbox =
            if taken (inbox_key m.target_agent_id m.source_agent_id m.message_id) d.inbox
            then d.inbox
            else insert row d.inbox;
      },
    )

unfoldable pub record_inbox_message : Option Aead → String → Time → InboxMessage → Db (Unit {0})
unfolding insert_inbox
record_inbox_message sealing nonce wall m = do
  reject_if
      (is_empty m.target_agent_id
        || (is_empty m.source_agent_id || (is_empty m.message_id || is_empty m.context_id)))
      refused
  body ← query (λ _. sealed_with sealing nonce m.body (inbox_associated_data m))
  insert_inbox (record (inbox_defaults wall m) { body = body })

abbrev opened_message : Option Aead → InboxMessage → Result InboxMessage
opened_message sealing m = elim (opened_with sealing m.body (inbox_associated_data m)) [
  | ok body ↦ ok (record m { body = body })
  | err e ↦ err e
]

abbrev cons_result : Result InboxMessage → Result (List InboxMessage) → Result (List InboxMessage)
cons_result (ok m) (ok ms) = ok (m ∷ ms)
cons_result (ok m) (err e) = err e
cons_result (err e) _ = err e

open_rows : Option Aead → List InboxRow → Result (List InboxMessage)
open_rows sealing [] = ok []
open_rows sealing (row ∷ rows) =
    cons_result (opened_message sealing row.message) (open_rows sealing rows)

-- The WHERE clause, put together from the arguments.
abbrev pub inbox_matches : String → String → Bool → InboxRow → Bool
inbox_matches target context unread_only row =
    same row.message.target_agent_id target
    && ((not unread_only || same row.message.state "unread")
        && (is_empty context || same row.message.context_id context))

-- `ORDER BY received_at DESC, message_id DESC`
abbrev newest_first : InboxRow → InboxRow → Bool
newest_first a b =
    ltb b.message.received_at a.message.received_at
    || (a.message.received_at == b.message.received_at
        && text_le b.message.message_id a.message.message_id)

-- The limit of the page: 100 by default, 500 at most.
abbrev pub page_limit : ℤ → ℕ
page_limit limit = if ltb 500 (limit_or_default limit) then 500 else limit_or_default limit

unfoldable pub list_inbox_messages :
    Option Aead → String → String → Bool → ℤ → Database → Result (List InboxMessage)
unfolding open_rows
list_inbox_messages sealing target context unread_only limit d =
    if is_empty target
    then err refused
    else open_rows sealing (
        take (page_limit limit)
          (order_by newest_first (select (inbox_matches target context unread_only) d.inbox)))

unfoldable pub mark_inbox_message_read : Time → String → String → String → Db (Unit {0})
mark_inbox_message_read wall target source id d =
    let key = inbox_key target source id in
    if is_empty target || (is_empty source || is_empty id) then (err refused, d) else (
      require_one_row (affected key d.inbox),
      record d {
        inbox =
            update key
              (λ row. record row {
                message = record (row.message) { state = "read" };
                read_at = some (stored wall);
              })
              d.inbox;
      },
    )
