-- ===== src/Store/Outbox/Delivery.antt =====
-- Sealing, listing, delivering and cancelling outbox messages.
use snw_agent_link.Prelude.{
  ◌≡◌, ◌≤◌, refl, ◌∙◌, Bool, true, false, some, none, List, [], ◌∷◌, String, arith, ap, Bool-cases,
  inl, inr, Option-cases, same, same_refl, ◌==◌, All, length, length-take, if◌then◌else◌,
}
use snw_agent_link.Prelude.Int.{ℤ}
use snw_agent_link.Errors.{ok, err, invalid_state, Result-cases}
use snw_agent_link.Exec.{◌>>=◌}
use snw_agent_link.Time.{Time, stored}
use snw_agent_link.Table.{select_one, select, update, insert, taken}
use snw_agent_link.Table.Laws.{
  select_one-insert, select_one-update, update-clears, select_one-taken, select-holds,
  select_one-holds,
}
use snw_agent_link.Table.Sort.{
  order_by, IsOrdered, IsOrdered-order_by, IsOrdered-take, All-order_by, All-take,
}
use snw_agent_link.Secure.{Aead, Gcm, gcm, encrypt, nonce_size}
use snw_agent_link.Secure.RoundTrip.{IsLawful, decrypt-encrypt}
use snw_agent_link.Prelude.{size}
use snw_agent_link.Model.{
  OutboxMessage, DeliveryReceipt, pending, delivered, cancelled, outbox_state_eq,
}
use snw_agent_link.Store.Tables.{Database, limit_or_default}
use snw_agent_link.Store.Outbox.{
  message_key, outbox_row, outbox_associated_data, enqueue_outbox, restore_outbox, get_outbox,
  is_due, due_before, due_rows, is_pending, mark_outbox_delivered, contact_messages, receipt_key,
  get_delivery_receipt, cancel_outbox_for_contact, delivery_key, clashes,
}

-- No message of the pair is pending after CancelOutboxForContact.
pub cancel_outbox_for_contact-cancels :
    (wall : Time) (source target : String) (d : Database)
    → All
        (λ m. is_pending (contact_messages source target) m ≡ false)
        (cancel_outbox_for_contact wall source target d).1.outbox
unfolding cancel_outbox_for_contact contact_messages outbox_state_eq
cancel_outbox_for_contact-cancels wall source target d =
    update-clears (is_pending (contact_messages source target))
      (λ m. record m { state = cancelled; updated_at = stored wall }) d.outbox
      λ m. ground (
        arith,
        Bool-cases (same m.source_agent_id source),
        Bool-cases (same m.target_agent_id target),
      )

due_before_total : (x y : OutboxMessage) → due_before x y ≡ false → due_before y x ≡ true
due_before_total x y h = ground arith

-- What ListDueOutbox restores is pending and due, at most as many as its limit, and ordered by the
-- time of the next attempt and then by the time of creation.
pub due_rows-IsOrdered :
    (now : Time) (limit : ℤ) (d : Database)
    → All (λ m. is_due now m ≡ true) (due_rows now limit d)
      × (length (due_rows now limit d) ≤ limit_or_default limit)
      × IsOrdered due_before (due_rows now limit d)
unfolding due_rows
due_rows-IsOrdered now limit d =
    let rows = select (is_due now) d.outbox in
    let n = limit_or_default limit in
    (
      All-take (λ m. is_due now m ≡ true) n (order_by due_before rows)
          (All-order_by due_before (λ m. is_due now m ≡ true) rows
            (select-holds (is_due now) d.outbox)),
      length-take n (order_by due_before rows),
      IsOrdered-take due_before n (order_by due_before rows)
          (IsOrdered-order_by due_before due_before_total rows),
    )

-- A message that clashes with no row has an identifier that no row has.
clashes-message_key :
    (row : OutboxMessage) (xs : List OutboxMessage)
    → taken (clashes row) xs ≡ false
    → select_one (message_key row.message_id) xs ≡ none
unfolding taken select_one
clashes-message_key row [] h = refl
clashes-message_key row (x ∷ xs) h = ground (arith, clashes-message_key row xs)

-- What GetOutbox gives back for a message that was just queued.
abbrev pub queued : Time → OutboxMessage → OutboxMessage
queued wall m = outbox_row wall m.payload m

module _ (a : Aead) (g : Gcm) (nonce : String) (wall : Time) (m : OutboxMessage) (d : Database)
    (cipher : gcm a ≡ ok g) (law : IsLawful g) (nonce_fits : size nonce ≡ nonce_size) where
  -- A message that EnqueueOutbox stored under a cipher comes back from GetOutbox with its payload in
  -- the clear and every other field but its times, which are in milliseconds, as it was.
  pub get_outbox-enqueue_outbox :
      (enqueue_outbox (some a) nonce wall m d).0 ≡ ok tt
      → get_outbox (some a) m.message_id (enqueue_outbox (some a) nonce wall m d).1
        ≡ ok (queued wall m)
  unfolding enqueue_outbox get_outbox restore_outbox ◌>>=◌ message_key outbox_associated_data
  get_outbox-enqueue_outbox h =
      elim (Result-cases (encrypt a nonce m.payload (outbox_associated_data m))) [
        | inl (e, bad) ↦ absurd (ground arith)
        | inr (s, good) ↦
            let row = outbox_row wall s m in
            ground (
              arith,
              same_refl m.message_id,
              clashes-message_key row d.outbox,
              select_one-insert (message_key m.message_id) row d.outbox,
              decrypt-encrypt a g nonce m.payload (outbox_associated_data m) {sealed = s} cipher law
                  nonce_fits good,
            )
      ]

-- The message is delivered, and this is its receipt.
record IsDelivered (r : DeliveryReceipt) (d : Database) : Type 0 where
  pub message : OutboxMessage
  pub found : select_one (delivery_key r.message_id r.target_agent_id) d.outbox ≡ some message
  pub is_delivered : message.state ≡ delivered
  pub receipt :
      select_one (receipt_key r.message_id r.target_agent_id) d.receipts
      ≡ some (record r { delivered_at = stored r.delivered_at })

module _ (r : DeliveryReceipt) (d : Database) where
  abbrev the_key : OutboxMessage → Bool
  the_key = delivery_key r.message_id r.target_agent_id

  abbrev mark_row : OutboxMessage → OutboxMessage
  mark_row m = record m { state = delivered; updated_at = stored r.delivered_at }

  abbrev the_receipt : DeliveryReceipt
  the_receipt = record r { delivered_at = stored r.delivered_at }

  marked :
      (mark_outbox_delivered r d).0 ≡ ok tt
      → select_one (receipt_key r.message_id r.target_agent_id) d.receipts ≡ none
      → (m : OutboxMessage) × (select_one the_key d.outbox ≡ some m)
        × (m.state ≡ pending)
        × ((mark_outbox_delivered r d).1.outbox ≡ update (is_pending the_key) mark_row d.outbox)
        × ((mark_outbox_delivered r d).1.receipts ≡ insert the_receipt d.receipts)
  unfolding mark_outbox_delivered ◌>>=◌ get_delivery_receipt
  marked h fresh = elim (Option-cases (select_one the_key d.outbox)) [
    | inl e ↦ absurd (ground arith)
    | inr (m, e) ↦
        let free = select_one-taken (receipt_key r.message_id r.target_agent_id) d.receipts fresh in
        (m, e, ground arith, ground arith, ground (arith, free))
  ]

  marked-IsDelivered :
      (mark_outbox_delivered r d).0 ≡ ok tt
      → select_one (receipt_key r.message_id r.target_agent_id) d.receipts ≡ none
      → IsDelivered r (mark_outbox_delivered r d).1
  unfolding delivery_key outbox_state_eq
  marked-IsDelivered h fresh =
      let (m, found, waiting, messages, receipts) = marked h fresh in
      record {
        message = mark_row m;
        found = rw messages (
            select_one-update the_key (is_pending the_key) mark_row d.outbox (λ _. refl)
            ∙ rw found (ap some (ground (arith, select_one-holds the_key m d.outbox found))));
        is_delivered = refl;
        receipt = rw receipts (
            select_one-insert (receipt_key r.message_id r.target_agent_id) the_receipt d.receipts
            ∙ rw fresh (ground (arith, same_refl r.message_id, same_refl r.target_agent_id)));
      }

delivered_again :
    (r : DeliveryReceipt) (d : Database)
    → IsDelivered r d
    → (mark_outbox_delivered r d).0
      ≡ (if stored r.delivered_at == r.delivered_at then ok tt else err invalid_state)
unfolding mark_outbox_delivered ◌>>=◌ get_delivery_receipt
delivered_again r d i =
    ground (arith, i.found, i.is_delivered, i.receipt, same_refl r.remote_receipt_id)

-- A receipt that MarkOutboxDelivered recorded for a message that had none is accepted again when its
-- time is a whole number of milliseconds, and is refused with ErrInvalidState otherwise.
pub mark_outbox_delivered-again :
    (r : DeliveryReceipt) (d : Database)
    → (mark_outbox_delivered r d).0 ≡ ok tt
    → select_one (receipt_key r.message_id r.target_agent_id) d.receipts ≡ none
    → (mark_outbox_delivered r (mark_outbox_delivered r d).1).0
      ≡ (if stored r.delivered_at == r.delivered_at then ok tt else err invalid_state)
mark_outbox_delivered-again r d h fresh =
    delivered_again r (mark_outbox_delivered r d).1 (marked-IsDelivered r d h fresh)
