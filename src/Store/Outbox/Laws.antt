-- ===== src/Store/Outbox/Laws.antt =====
-- The life of an outbox message: what is delivered or cancelled stays as it is.
use snw_agent_link.Prelude.{
  ◌≡◌, refl, ◌∙◌, Bool, false, Option, some, List, [], ◌∷◌, String, arith, ap, inl, inr,
}
use snw_agent_link.Errors.{Result-cases}
use snw_agent_link.Exec.{◌>>=◌}
use snw_agent_link.Time.{Time, stored}
use snw_agent_link.Table.{select_one, update, insert}
use snw_agent_link.Table.Laws.{select_one-insert, select_one-update, changed}
use snw_agent_link.Secure.{Aead}
use snw_agent_link.Model.{
  OutboxMessage, DeliveryReceipt, pending, delivered, cancelled, outbox_state_eq,
}
use snw_agent_link.Store.Tables.{Database}
use snw_agent_link.Store.Outbox.{
  message_key, outbox_row, sealed_with, outbox_associated_data, enqueue_outbox, is_pending,
  schedule_outbox_retry, mark_outbox_delivered, cancel_outbox, contact_messages,
  cancel_outbox_for_contact, delivery_key,
}

-- The operations of the store on the outbox, with what each reads from its surroundings.
pub data OutboxOperation : Type 0 where
  enqueue : String → Time → OutboxMessage → OutboxOperation
  retry : Time → String → Time → OutboxOperation
  deliver : DeliveryReceipt → OutboxOperation
  cancel : Time → String → OutboxOperation
  cancel_contact : Time → String → String → OutboxOperation

unfoldable pub run_outbox : Option Aead → OutboxOperation → Database → Database
run_outbox sealing (enqueue nonce wall m) d = (enqueue_outbox sealing nonce wall m d).1
run_outbox sealing (retry wall id next) d = (schedule_outbox_retry wall id next d).1
run_outbox sealing (deliver r) d = (mark_outbox_delivered r d).1
run_outbox sealing (cancel wall id) d = (cancel_outbox wall id d).1
run_outbox sealing (cancel_contact wall source target) d =
    (cancel_outbox_for_contact wall source target d).1

unfoldable pub run_outbox_all : Option Aead → List OutboxOperation → Database → Database
run_outbox_all sealing [] d = d
run_outbox_all sealing (o ∷ os) d = run_outbox_all sealing os (run_outbox sealing o d)

-- The messages that are not pending are still there, unchanged.
abbrev pub KeepsSettled : List OutboxMessage → List OutboxMessage → Type 0
KeepsSettled xs ys =
    (id : String) (m : OutboxMessage)
    → select_one (message_key id) xs ≡ some m
    → outbox_state_eq m.state pending ≡ false
    → select_one (message_key id) ys ≡ some m

insert-KeepsSettled : (x : OutboxMessage) (xs : List OutboxMessage) → KeepsSettled xs (insert x xs)
insert-KeepsSettled x xs id m h settled = select_one-insert (message_key id) x xs ∙ rw h

changed-settled :
    (p q : OutboxMessage → Bool) (f : OutboxMessage → OutboxMessage) (m : OutboxMessage)
    → outbox_state_eq m.state pending ≡ false
    → changed p (is_pending q) f m ≡ m
changed-settled p q f m h = ground arith

update-KeepsSettled :
    (q : OutboxMessage → Bool) (f : OutboxMessage → OutboxMessage) (xs : List OutboxMessage)
    → ((id : String) (m : OutboxMessage) → message_key id (f m) ≡ message_key id m)
    → KeepsSettled xs (update (is_pending q) f xs)
update-KeepsSettled q f xs keep id m h settled =
    select_one-update (message_key id) (is_pending q) f xs (keep id)
    ∙ rw h (ap some (changed-settled (message_key id) q f m settled))

refl-KeepsSettled : (xs : List OutboxMessage) → KeepsSettled xs xs
refl-KeepsSettled xs id m h settled = h

module _ (d : Database) (id : String) (m : OutboxMessage)
    (h : select_one (message_key id) d.outbox ≡ some m)
    (settled : outbox_state_eq m.state pending ≡ false) where
  enqueue-keeps :
      (sealing : Option Aead) (nonce : String) (wall : Time) (x : OutboxMessage)
      → select_one (message_key id) (enqueue_outbox sealing nonce wall x d).1.outbox ≡ some m
  unfolding enqueue_outbox ◌>>=◌
  enqueue-keeps sealing nonce wall x =
      elim (Result-cases (sealed_with sealing nonce x.payload (outbox_associated_data x))) [
        | inl (e, bad) ↦ rw (bad, h)
        | inr (s, good) ↦
            ground (arith, insert-KeepsSettled (outbox_row wall s x) d.outbox id m h settled)
      ]

  retry-keeps :
      (wall next : Time) (i : String)
      → select_one (message_key id) (schedule_outbox_retry wall i next d).1.outbox ≡ some m
  unfolding schedule_outbox_retry message_key
  retry-keeps wall next i =
      update-KeepsSettled (message_key i) _ d.outbox (λ _ _. refl) id m h settled

  cancel_contact-keeps :
      (wall : Time) (source target : String)
      → select_one (message_key id) (cancel_outbox_for_contact wall source target d).1.outbox
        ≡ some m
  unfolding cancel_outbox_for_contact message_key
  cancel_contact-keeps wall source target =
      update-KeepsSettled (contact_messages source target) _ d.outbox (λ _ _. refl) id m h settled

  cancel-keeps :
      (wall : Time) (i : String)
      → select_one (message_key id) (cancel_outbox wall i d).1.outbox ≡ some m
  unfolding cancel_outbox ◌>>=◌ message_key
  cancel-keeps wall i = ground (
    arith,
    update-KeepsSettled (message_key i)
        (λ m. record m { state = cancelled; updated_at = stored wall }) d.outbox (λ _ _. refl) id m
        h settled,
  )

  deliver-keeps :
      (r : DeliveryReceipt)
      → select_one (message_key id) (mark_outbox_delivered r d).1.outbox ≡ some m
  unfolding mark_outbox_delivered ◌>>=◌ message_key
  deliver-keeps r = ground (
    arith,
    update-KeepsSettled (delivery_key r.message_id r.target_agent_id)
        (λ m. record m { state = delivered; updated_at = stored r.delivered_at }) d.outbox
        (λ _ _. refl) id m h settled,
  )

module _ (sealing : Option Aead) where
  pub run_outbox-keeps :
      (o : OutboxOperation) (d : Database) → KeepsSettled d.outbox (run_outbox sealing o d).outbox
  unfolding run_outbox
  run_outbox-keeps (enqueue nonce wall x) d id m h s = enqueue-keeps d id m h s sealing nonce wall x
  run_outbox-keeps (retry wall i next) d id m h s = retry-keeps d id m h s wall next i
  run_outbox-keeps (deliver r) d id m h s = deliver-keeps d id m h s r
  run_outbox-keeps (cancel wall i) d id m h s = cancel-keeps d id m h s wall i
  run_outbox-keeps (cancel_contact wall a b) d id m h s = cancel_contact-keeps d id m h s wall a b

  -- Over any sequence of the outbox operations, whether they return errors or not, the row of a
  -- message that was delivered or cancelled stays as it was.
  pub run_outbox_all-keeps :
      (os : List OutboxOperation) (d : Database) (id : String) (m : OutboxMessage)
      → select_one (message_key id) d.outbox ≡ some m
      → outbox_state_eq m.state pending ≡ false
      → select_one (message_key id) (run_outbox_all sealing os d).outbox ≡ some m
  unfolding run_outbox_all
  run_outbox_all-keeps [] d id m h s = h
  run_outbox_all-keeps (o ∷ os) d id m h s =
      run_outbox_all-keeps os (run_outbox sealing o d) id m (run_outbox-keeps o d id m h s) s
