-- ===== src/Delivery/Attempt.antt =====
-- What the loop of ProcessDue leaves of one message.
use snw_agent_link.Prelude.{
  ℕ, ◌+◌, ◌≡◌, refl, ◌∙◌, ap, Bool, true, arith, Option, some, List, [], ◌∷◌, String, inl, inr,
  same, same_refl, ◌&&◌,
}
use snw_agent_link.Errors.{ok, err, Result-cases}
use snw_agent_link.Exec.{◌>>=◌}
use snw_agent_link.Time.{Time, stored}
use snw_agent_link.Table.{select_one, update}
use snw_agent_link.Table.Laws.{select_one-update, changed}
use snw_agent_link.Model.{OutboxMessage, pending, delivered, outbox_state_eq}
use snw_agent_link.Secure.{Aead}
use snw_agent_link.Store.Tables.{Database}
use snw_agent_link.Store.Outbox.{
  message_key, delivery_key, is_pending, restore_outbox, opened_with, outbox_associated_data,
  schedule_outbox_retry, mark_outbox_delivered,
}
use snw_agent_link.Delivery.{
  Service, Surroundings, ProcessResult, receipt_of, process_one, retry_delay,
}

-- A look-up by a narrower key that the first row passes finds that row.
select_one-narrow :
    {A : Type 0} (p q : A → Bool) (a : A) (xs : List A)
    → select_one p xs ≡ some a
    → q a ≡ true
    → select_one (λ x. p x && q x) xs ≡ some a
unfolding select_one
select_one-narrow p q a [] h k = cc
select_one-narrow p q a (x ∷ xs) h k = ground (arith, select_one-narrow p q a xs)

module _ (x : OutboxMessage) (d : Database)
    (found : select_one (message_key x.message_id) d.outbox ≡ some x)
    (waiting : x.state ≡ pending) where
  rescheduled :
      (wall next : Time)
      → select_one
          (message_key x.message_id)
          (schedule_outbox_retry wall x.message_id next d).1.outbox
        ≡ some (record x {
          attempt_count = x.attempt_count + 1;
          next_attempt_at = stored next;
          updated_at = stored wall;
        })
  unfolding schedule_outbox_retry message_key outbox_state_eq
  rescheduled wall next =
      let key = message_key x.message_id in
      let f = λ (y : OutboxMessage). record y {
        attempt_count = y.attempt_count + 1;
        next_attempt_at = stored next;
        updated_at = stored wall;
      } in
      let done : changed key (is_pending key) f x ≡ f x =
        ground (arith, same_refl x.message_id, waiting) in
      select_one-update key (is_pending key) f d.outbox (λ _. refl) ∙ rw found (ap some done)

  delivery_found : select_one (delivery_key x.message_id x.target_agent_id) d.outbox ≡ some x
  unfolding delivery_key message_key
  delivery_found =
      select_one-narrow (message_key x.message_id) (λ y. same y.target_agent_id x.target_agent_id) x
        d.outbox found (same_refl x.target_agent_id)

  marked_row :
      (now : Time) (remote : String)
      → (mark_outbox_delivered (receipt_of now x remote) d).0 ≡ ok tt
      → (mark_outbox_delivered (receipt_of now x remote) d).1.outbox
        ≡ update
            (is_pending (delivery_key x.message_id x.target_agent_id))
            (λ y. record y { state = delivered; updated_at = stored now })
            d.outbox
  unfolding mark_outbox_delivered ◌>>=◌
  marked_row now remote h = ground (arith, delivery_found, waiting)

  delivered_now :
      (now : Time) (remote : String)
      → (mark_outbox_delivered (receipt_of now x remote) d).0 ≡ ok tt
      → select_one
          (message_key x.message_id)
          (mark_outbox_delivered (receipt_of now x remote) d).1.outbox
        ≡ some (record x { state = delivered; updated_at = stored now })
  unfolding message_key delivery_key outbox_state_eq
  delivered_now now remote h =
      let key = message_key x.message_id in
      let q = is_pending (delivery_key x.message_id x.target_agent_id) in
      let f = λ (y : OutboxMessage). record y { state = delivered; updated_at = stored now } in
      let done : changed key q f x ≡ f x =
        ground (arith, same_refl x.message_id, same_refl x.target_agent_id, waiting) in
      rw (marked_row now remote h)
        (select_one-update key q f d.outbox (λ _. refl) ∙ rw found (ap some done))

  -- The message as it is listed: the row with its payload in the clear.
  abbrev listed : String → OutboxMessage
  listed payload = record x { payload = payload }

  listed_outcome :
      (payload : String) (w : Surroundings) (s : Service) (now : Time) (n : ℕ)
      (r r' : ProcessResult)
      → (process_one w s now n (listed payload) r d).0 ≡ ok r'
      → select_one (message_key x.message_id) (process_one w s now n (listed payload) r d).1.outbox
        ≡ some (elim (w.send n (listed payload)) [
          | ok _ ↦ record x { state = delivered; updated_at = stored now }
          | err _ ↦ record x {
            attempt_count = x.attempt_count + 1;
            next_attempt_at = stored (now + retry_delay w.conversion s (x.attempt_count + 1));
            updated_at = stored (w.wall n);
          }
        ])
  unfolding process_one
  listed_outcome payload w s now n r r' h = elim (Result-cases (w.send n (listed payload))) [
    | inl (e, failed) ↦ ground (
      arith,
      failed,
      rescheduled (w.wall n) (now + retry_delay w.conversion s (x.attempt_count + 1)),
    )
    | inr (remote, sent) ↦ ground (arith, sent, delivered_now now remote)
  ]

  -- Where the loop goes on after a message that ListDueOutbox restored of a pending row, its payload
  -- opened where the store has a cipher, the row is delivered at the time of the batch if the
  -- transport returned no error for the message, and otherwise it is pending with one more attempt,
  -- its next one due after the delay for that attempt. The time of its last change is that of the
  -- batch or of the write, and every other field of the row, its sealed payload too, is as it was.
  pub process_one-outcome :
      (sealing : Option Aead) (m : OutboxMessage) (w : Surroundings) (s : Service) (now : Time)
      (n : ℕ) (r r' : ProcessResult)
      → restore_outbox sealing x ≡ ok m
      → (process_one w s now n m r d).0 ≡ ok r'
      → select_one (message_key x.message_id) (process_one w s now n m r d).1.outbox
        ≡ some (elim (w.send n m) [
          | ok _ ↦ record x { state = delivered; updated_at = stored now }
          | err _ ↦ record x {
            attempt_count = x.attempt_count + 1;
            next_attempt_at = stored (now + retry_delay w.conversion s (x.attempt_count + 1));
            updated_at = stored (w.wall n);
          }
        ])
  unfolding restore_outbox
  process_one-outcome sealing m w s now n r r' restored h =
      elim (Result-cases (opened_with sealing x.payload (outbox_associated_data x))) [
        | inl (e, bad) ↦ absurd (ground (arith, restored, bad))
        | inr (payload, good) ↦
            let is_listed : m ≡ listed payload = ground (arith, restored, good) in
            rw is_listed (listed_outcome payload w s now n r r' (rw is_listed at h))
      ]
