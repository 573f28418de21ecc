-- ===== src/Delivery/Batch.antt =====
-- What ProcessDue does to the outbox.
use snw_agent_link.Prelude.{
  ℕ, suc, ◌+◌, ◌≡◌, ap, arith, Option, some, none, List, [], ◌∷◌, length, inl, inr, false, String,
  Option-cases,
}
use snw_agent_link.Prelude.Int.{pos}
use snw_agent_link.Errors.{ok, err, Result-cases}
use snw_agent_link.Time.{Time}
use snw_agent_link.Table.{select_one}
use snw_agent_link.Secure.{Aead}
use snw_agent_link.Model.{OutboxMessage, pending, outbox_state_eq}
use snw_agent_link.Store.Tables.{Database}
use snw_agent_link.Store.Outbox.{
  message_key, list_due_outbox, due_rows, restore_all, restore_outbox,
}
use snw_agent_link.Store.Outbox.Laws.{
  OutboxOperation, retry, deliver, run_outbox, KeepsSettled, run_outbox-keeps,
}
use snw_agent_link.Delivery.{
  Service, Surroundings, ProcessResult, receipt_of, process_one, process, process_due, retry_delay,
}

module _ (w : Surroundings) (s : Service) (now : Time) where
  -- The operation of the store that a message comes to.
  abbrev operation_of : ℕ → OutboxMessage → OutboxOperation
  operation_of n m = elim (w.send n m) [
    | err e ↦ retry (w.wall n) m.message_id (now + retry_delay w.conversion s (m.attempt_count + 1))
    | ok remote ↦ deliver (receipt_of now m remote)
  ]

  process_one-run_outbox :
      (n : ℕ) (m : OutboxMessage) (r : ProcessResult) (d : Database)
      → (process_one w s now n m r d).1 ≡ run_outbox none (operation_of n m) d
  unfolding process_one run_outbox
  process_one-run_outbox n m r d = elim (Result-cases (w.send n m)) [
    | inl (e, failed) ↦ ground (arith, failed)
    | inr (remote, sent) ↦ ground (arith, sent)
  ]

  process_one_count :
      (n : ℕ) (m : OutboxMessage) (r r' : ProcessResult) (d : Database)
      → (process_one w s now n m r d).0 ≡ ok r'
      → r'.delivered + r'.retried ≡ suc (r.delivered + r.retried)
  unfolding process_one
  process_one_count n m r r' d h = elim (Result-cases (w.send n m)) [
    | inl (e, failed) ↦ ground (arith, failed)
    | inr (remote, sent) ↦ ground (arith, sent)
  ]

  process_count :
      (n : ℕ) (ms : List OutboxMessage) (r : ProcessResult) (d : Database)
      → (process w s now n ms r d).0.1 ≡ none
      → (process w s now n ms r d).0.0.delivered + (process w s now n ms r d).0.0.retried
        ≡ r.delivered + r.retried + length ms
  unfolding process
  process_count n [] r d h = ground arith
  process_count n (m ∷ ms) r d h = elim (Option-cases (w.context n)) [
    | inr (e, over) ↦ absurd (ground (arith, over))
    | inl live ↦ elim (Result-cases (process_one w s now n m r d).0) [
      | inl (e, failed) ↦ absurd (ground (arith, live, failed))
      | inr (r', done) ↦
          let rest = process_count (n + 1) ms r' (process_one w s now n m r d).1 in
          ground (arith, live, done, rest, process_one_count n m r r' d done)
    ]
  ]

  process-KeepsSettled :
      (n : ℕ) (ms : List OutboxMessage) (r : ProcessResult) (d : Database)
      → KeepsSettled d.outbox (process w s now n ms r d).1.outbox
  unfolding process
  process-KeepsSettled n [] r d id x h k = h
  process-KeepsSettled n (m ∷ ms) r d id x h k = elim (Option-cases (w.context n)) [
    | inr (e, over) ↦ rw (process, over) h
    | inl live ↦
        let d' = (process_one w s now n m r d).1 in
        let kept : select_one (message_key id) d'.outbox ≡ some x =
          rw (process_one-run_outbox n m r d)
            (run_outbox-keeps none (operation_of n m) d id x h k) in
        rw (process, live)
          (elim (Result-cases (process_one w s now n m r d).0) [
            | inl (e, failed) ↦ rw failed kept
            | inr (r', done) ↦ rw done (process-KeepsSettled (n + 1) ms r' d' id x kept k)
          ])
  ]

length-restore_all :
    (sealing : Option Aead) (rows ms : List OutboxMessage)
    → restore_all sealing rows ≡ ok ms
    → length ms ≡ length rows
unfolding restore_all
length-restore_all sealing [] ms h = ground arith
length-restore_all sealing (x ∷ xs) ms h = elim (Result-cases (restore_outbox sealing x)) [
  | inl (e, bad) ↦ absurd (ground (arith, bad))
  | inr (m, good) ↦ elim (Result-cases (restore_all sealing xs)) [
    | inl (e, bad) ↦ absurd (ground (arith, good, bad))
    | inr (rest, done) ↦
        let whole : m ∷ rest ≡ ms = ground (arith, good, done) in
        let shorter = length-restore_all sealing xs rest done in
        ground (arith, ap (λ l. length l) whole, shorter)
  ]
]

module _ (sealing : Option Aead) (w : Surroundings) (s : Service) (now : Time) (d : Database) where
  -- When ProcessDue returns no error, it has delivered or rescheduled, as it says, as many messages
  -- as were due within the size of a batch.
  pub process_due-count :
      (process_due sealing w s now d).0.1 ≡ none
      → (process_due sealing w s now d).0.0.delivered + (process_due sealing w s now d).0.0.retried
        ≡ length (due_rows now (pos s.batch_size) d)
  unfolding process_due list_due_outbox
  process_due-count h =
      elim (Result-cases (restore_all sealing (due_rows now (pos s.batch_size) d))) [
        | inl (e, bad) ↦ absurd (ground (arith, bad))
        | inr (ms, good) ↦
            let none_yet : ProcessResult = record { delivered = 0; retried = 0 } in
            ground (
              arith,
              good,
              process_count w s now 0 ms none_yet d,
              length-restore_all sealing (due_rows now (pos s.batch_size) d) ms good,
            )
      ]

  -- ProcessDue changes no message that was delivered or cancelled before, whether or not it returns
  -- an error.
  pub process_due-keeps_settled :
      (id : String) (x : OutboxMessage)
      → select_one (message_key id) d.outbox ≡ some x
      → outbox_state_eq x.state pending ≡ false
      → select_one (message_key id) (process_due sealing w s now d).1.outbox ≡ some x
  unfolding process_due list_due_outbox
  process_due-keeps_settled id x h k =
      elim (Result-cases (restore_all sealing (due_rows now (pos s.batch_size) d))) [
        | inl (e, bad) ↦ rw (process_due, list_due_outbox, bad) h
        | inr (ms, good) ↦
            rw (process_due, list_due_outbox, good)
              (process-KeepsSettled w s now 0 ms (record { delivered = 0; retried = 0 }) d id x h k)
      ]
