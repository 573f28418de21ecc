-- ===== src/Store/Outbox.antt =====
-- The outbox and its receipts, of internal/store/store.go. `sealing` is the store's AEAD, absent in
-- a store that `Open` made; `nonce` is what its encryption draws.
pub mod Laws
pub mod Delivery
use snw_agent_link.Prelude.{
  ℕ, ◌+◌, Bool, true, false, ◌&&◌, ◌||◌, not, Option, none, some, List, [], ◌∷◌, String, ◌<>◌, same,
  leb, ltb, ◌==◌, take, if◌then◌else◌,
}
use snw_agent_link.Prelude.Int.{ℤ}
use snw_agent_link.Errors.{Result, ok, err, constraint, not_found, invalid_state}
use snw_agent_link.Exec.{pure, fail, query, transaction, ◌>>=◌, ◌>>◌}
use snw_agent_link.Time.{Time, millis, stored}
use snw_agent_link.Table.{select_one, select, update, affected, taken, insert}
use snw_agent_link.Table.Sort.{order_by}
use snw_agent_link.Secure.{Aead, encrypt, decrypt}
use snw_agent_link.Model.{
  OutboxMessage, DeliveryReceipt, OutboxState, pending, delivered, cancelled, outbox_state_eq,
}
use snw_agent_link.Store.Tables.{
  Database, Db, or_now, or_not_found, require_one_row, limit_or_default,
}

unfoldable pub message_key : String → OutboxMessage → Bool
message_key id m = same m.message_id id

unfoldable pub outbox_associated_data : OutboxMessage → String
outbox_associated_data m =
    "snw-agent-link:outbox:" <> m.source_agent_id <> ":" <> m.target_agent_id <> ":" <> m.message_id

-- `if s.aead != nil { payload, err = s.aead.Encrypt(…) }`
abbrev pub sealed_with : Option Aead → String → String → String → Result String
sealed_with none nonce text associated = ok text
sealed_with (some a) nonce text associated = encrypt a nonce text associated

abbrev pub opened_with : Option Aead → String → String → Result String
opened_with none text associated = ok text
opened_with (some a) text associated = decrypt a text associated

abbrev pub outbox_row : Time → String → OutboxMessage → OutboxMessage
outbox_row wall payload m = record m {
  payload = payload;
  next_attempt_at = stored m.next_attempt_at;
  created_at = stored (or_now m.created_at wall);
  updated_at = stored wall;
}

-- The primary key, or the UNIQUE idempotency key.
abbrev pub clashes : OutboxMessage → OutboxMessage → Bool
clashes m row = message_key m.message_id row || same row.idempotency_key m.idempotency_key

insert_outbox : OutboxMessage → Db (Unit {0})
insert_outbox row d =
    if taken (clashes row) d.outbox
    then (err constraint, d)
    else (ok tt, record d { outbox = insert row d.outbox })

unfoldable pub enqueue_outbox : Option Aead → String → Time → OutboxMessage → Db (Unit {0})
unfolding insert_outbox
enqueue_outbox sealing nonce wall m = do
  payload ← query (λ _. sealed_with sealing nonce m.payload (outbox_associated_data m))
  insert_outbox (outbox_row wall payload m)

unfoldable pub restore_outbox : Option Aead → OutboxMessage → Result OutboxMessage
restore_outbox sealing m = elim (opened_with sealing m.payload (outbox_associated_data m)) [
  | ok payload ↦ ok (record m { payload = payload })
  | err e ↦ err e
]

unfoldable pub get_outbox : Option Aead → String → Database → Result OutboxMessage
unfolding restore_outbox
get_outbox sealing id d = elim (select_one (message_key id) d.outbox) [
  | some m ↦ restore_outbox sealing m
  | none ↦ err not_found
]

abbrev cons_result :
    Result OutboxMessage → Result (List OutboxMessage) → Result (List OutboxMessage)
cons_result (ok m) (ok ms) = ok (m ∷ ms)
cons_result (ok m) (err e) = err e
cons_result (err e) _ = err e

-- The loop over the rows: the first row that does not open ends it.
unfoldable pub restore_all : Option Aead → List OutboxMessage → Result (List OutboxMessage)
unfolding restore_outbox
restore_all sealing [] = ok []
restore_all sealing (m ∷ ms) = cons_result (restore_outbox sealing m) (restore_all sealing ms)

-- `WHERE state = 'pending' AND next_attempt_at <= ?`
abbrev pub is_due : Time → OutboxMessage → Bool
is_due now m = outbox_state_eq m.state pending && leb (millis m.next_attempt_at) (millis now)

-- `ORDER BY next_attempt_at, created_at`
abbrev pub due_before : OutboxMessage → OutboxMessage → Bool
due_before a b =
    ltb a.next_attempt_at b.next_attempt_at
    || (a.next_attempt_at == b.next_attempt_at && leb a.created_at b.created_at)

unfoldable pub due_rows : Time → ℤ → Database → List OutboxMessage
due_rows now limit d =
    take (limit_or_default limit) (order_by due_before (select (is_due now) d.outbox))

unfoldable pub list_due_outbox : Option Aead → Time → ℤ → Database → Result (List OutboxMessage)
unfolding restore_all due_rows
list_due_outbox sealing now limit d = restore_all sealing (due_rows now limit d)

abbrev pub is_pending : (OutboxMessage → Bool) → OutboxMessage → Bool
is_pending p m = p m && outbox_state_eq m.state pending

-- UPDATE outbox_messages … WHERE … AND state = 'pending', and requireOneRow.
update_outbox : (OutboxMessage → Bool) → (OutboxMessage → OutboxMessage) → Db (Unit {0})
update_outbox p f d =
    (require_one_row (affected p d.outbox), record d { outbox = update p f d.outbox })

unfoldable pub schedule_outbox_retry : Time → String → Time → Db (Unit {0})
unfolding update_outbox
schedule_outbox_retry wall id next = update_outbox (is_pending (message_key id)) λ m. record m {
  attempt_count = m.attempt_count + 1;
  next_attempt_at = stored next;
  updated_at = stored wall;
}

abbrev pub receipt_key : String → String → DeliveryReceipt → Bool
receipt_key id target r = same r.message_id id && same r.target_agent_id target

unfoldable pub get_delivery_receipt : String → String → Database → Result DeliveryReceipt
get_delivery_receipt id target d = or_not_found (select_one (receipt_key id target) d.receipts)

-- `ON CONFLICT … DO NOTHING`
insert_receipt : DeliveryReceipt → Db (Unit {0})
insert_receipt r d =
    let row = record r { delivered_at = stored r.delivered_at } in
    (
      ok tt,
      record d {
        receipts =
            if taken (receipt_key r.message_id r.target_agent_id) d.receipts
            then d.receipts
            else insert row d.receipts;
      },
    )

-- The message that a receipt names.
unfoldable pub delivery_key : String → String → OutboxMessage → Bool
delivery_key id target m = same m.message_id id && same m.target_agent_id target

-- A second delivery is accepted if it repeats the recorded receipt.
same_receipt : DeliveryReceipt → DeliveryReceipt → Db (Unit {0} × Bool)
same_receipt existing r =
    if same existing.remote_receipt_id r.remote_receipt_id
      && existing.delivered_at == r.delivered_at
    then pure (tt, true)
    else fail invalid_state

-- The rest of MarkOutboxDelivered, by the state that the SELECT found.
mark_by_state : DeliveryReceipt → OutboxState → Db (Unit {0} × Bool)
unfolding get_delivery_receipt update_outbox insert_receipt same_receipt
mark_by_state r delivered = do
  existing ← query (get_delivery_receipt r.message_id r.target_agent_id)
  same_receipt existing r
mark_by_state r pending = do
  update_outbox (is_pending (delivery_key r.message_id r.target_agent_id))
      (λ m. record m { state = delivered; updated_at = stored r.delivered_at })
  insert_receipt r
  pure (tt, true)
mark_by_state r cancelled = fail invalid_state

unfoldable pub mark_outbox_delivered : DeliveryReceipt → Db (Unit {0})
unfolding mark_by_state
mark_outbox_delivered r = transaction (do
  m ← query (λ d. or_not_found (select_one (delivery_key r.message_id r.target_agent_id) d.outbox))
  mark_by_state r m.state)

cancel_by_state : Time → String → OutboxState → Db (Unit {0})
unfolding update_outbox
cancel_by_state wall id cancelled = pure tt
cancel_by_state wall id pending =
    update_outbox (is_pending (message_key id))
      λ m. record m { state = cancelled; updated_at = stored wall }
cancel_by_state wall id delivered = fail invalid_state

unfoldable pub cancel_outbox : Time → String → Db (Unit {0})
unfolding cancel_by_state
cancel_outbox wall id = do
  m ← query (λ d. or_not_found (select_one (message_key id) d.outbox))
  cancel_by_state wall id m.state

unfoldable pub contact_messages : String → String → OutboxMessage → Bool
contact_messages source target m = same m.source_agent_id source && same m.target_agent_id target

unfoldable pub cancel_outbox_for_contact : Time → String → String → Db (Unit {0})
cancel_outbox_for_contact wall source target d = (
  ok tt,
  record d {
    outbox =
        update (is_pending (contact_messages source target))
          (λ m. record m { state = cancelled; updated_at = stored wall }) d.outbox;
  },
)
