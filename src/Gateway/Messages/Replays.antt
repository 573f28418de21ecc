-- ===== src/Gateway/Messages/Replays.antt =====
-- What a message that comes again is answered, after any other calls.
use snw_agent_link.Prelude.{
  ℕ, zero, suc, ◌≡◌, ap, ◌∙◌, Bool, true, false, Option, some, List, [], ◌∷◌, String, same_refl,
  is_empty, size, ◌==◌, arith, Bool-cases, inl, inr, length,
}
use snw_agent_link.Errors.{ok, Result-cases}
use snw_agent_link.Secure.{Aead, Gcm, gcm, nonce_size}
use snw_agent_link.Secure.RoundTrip.{IsLawful}
use snw_agent_link.Table.{select_one}
use snw_agent_link.Model.{DeduplicationRecord}
use snw_agent_link.Store.Dedup.{get_scoped_deduplication, complete_scoped_message}
use snw_agent_link.Store.Dedup.Laws.{get_scoped_deduplication_complete}
use snw_agent_link.Http.{Web}
use snw_agent_link.Gateway.Messages.{
  Handed, World, Json, Clock, Agent, forward, hand_over, first_delivery, deliver, replayed, task_of,
  inbox_message, handed_of, serve_a2a_with_dedup,
}
use snw_agent_link.Gateway.Messages.Once.{
  Call, is_of, is_of-same, run_calls, called, inbox_keeps_rows, received, reserved, with_database,
}
use snw_agent_link.Gateway.Messages.Kept.{
  IsAnswered, key, looked_up-IsAnswered, IsAnswered-row, complete_keeps, reserve_keeps,
}

module _ (w : Web) (j : Json) (decimal : ℕ → String) (sealing : Option Aead) (agent : Agent)
    (k : Handed) (r : DeduplicationRecord) where
  abbrev Kept : World → Type 0
  Kept s = IsAnswered decimal sealing k r s.database

  -- Another message.
  module _ (h : Handed) (other : is_of k h ≡ false) where
    hand_over-Kept :
        (c : Clock) (s : World) → Kept s → Kept (hand_over w j decimal sealing agent c h s).1
    unfolding hand_over forward
    hand_over-Kept c s a =
        let reply = agent (length s.handed) h in
        complete_keeps decimal sealing k h other r s.database a c.answer_nonce
          (task_of w j decimal sealing agent c reply) reply.status reply.content_type reply.body

    received-Kept :
        (c : Clock) (json_rpc : Bool) (s : World)
        → Kept s
        → IsAnswered decimal sealing k r (received w j decimal sealing agent h c json_rpc s).1
    received-Kept c json_rpc s a =
        IsAnswered-row decimal sealing k r s.database
          (received w j decimal sealing agent h c json_rpc s).1 a
          (ap (select_one (key decimal sealing k)) (
              inbox_keeps_rows sealing c.inbox_nonce c.received_at
                (inbox_message w j decimal sealing agent h json_rpc) s.database)
            ∙ a.found)

    first_delivery-Kept :
        (c : Clock) (json_rpc : Bool) (s : World)
        → Kept s
        → Kept (first_delivery w j decimal sealing agent c h json_rpc s).1
    unfolding first_delivery
    first_delivery-Kept c json_rpc s a = elim (Bool-cases (is_empty h.remote)) [
      | inl e ↦ rw e (hand_over-Kept c s a)
      | inr e ↦
          let s' =
            with_database w j decimal sealing agent h s
              (received w j decimal sealing agent h c json_rpc s).1 in
          let b = received-Kept c json_rpc s a in
          elim (Result-cases (received w j decimal sealing agent h c json_rpc s).0) [
            | inl (x, bad) ↦ rw (e, bad) b
            | inr (x, good) ↦ rw (e, good) (hand_over-Kept c s' b)
          ]
    ]

    deliver-Kept_other :
        (fuel : ℕ) (c : Clock) (json_rpc : Bool) (s : World)
        → Kept s
        → Kept (deliver w j decimal sealing agent fuel c h json_rpc s).1
    unfolding deliver
    deliver-Kept_other zero c json_rpc s a = a
    deliver-Kept_other (suc fuel) c json_rpc s a =
        let run = deliver w j decimal sealing agent (suc fuel) c h json_rpc s in
        elim (Result-cases
          (get_scoped_deduplication decimal sealing h.remote h.local 0 h.message_id s.database)) [
            | inr (x, q) ↦ let stays : run.1 ≡ s = ground (arith, q) in rw stays a
            | inl (e, q) ↦
                let made = reserved w j decimal sealing agent h c s in
                let s' = with_database w j decimal sealing agent h s made.1 in
                let b : Kept s' = reserve_keeps decimal sealing k h c r s.database a in
                elim (Result-cases made.0) [
                  | inl (x, bad) ↦ let stops : run.1 ≡ s' = ground (arith, q, bad) in rw stops b
                  | inr (created, good) ↦ elim (Bool-cases created) [
                    | inl fresh ↦
                        let delivers : run.1
                            ≡ (first_delivery w j decimal sealing agent c h json_rpc s').1 =
                          ground (arith, q, good, fresh) in
                        rw delivers (first_delivery-Kept c json_rpc s' b)
                    | inr old ↦
                        let again : run.1
                            ≡ (deliver w j decimal sealing agent fuel c h json_rpc s').1 =
                          ground (arith, q, good, old) in
                        rw again (deliver-Kept_other fuel c json_rpc s' b)
                  ]
                ]
          ]

  -- The message itself is answered, and nothing changes.
  own_answer :
      (h : Handed) (own : is_of k h ≡ true) (fuel : ℕ) (c : Clock) (json_rpc : Bool) (s : World)
      → Kept s
      → deliver w j decimal sealing agent (suc fuel) c h json_rpc s ≡ (some (replayed w r), s)
  unfolding deliver
  own_answer h own fuel c json_rpc s a =
      let (x, y, z) = is_of-same k h own in
      let gives : get_scoped_deduplication decimal sealing h.remote h.local 0 h.message_id
            s.database
          ≡ ok r =
        rw (x, y, z) a.gives in
      ground (arith, gives)

  deliver-Kept :
      (h : Handed) (fuel : ℕ) (c : Clock) (json_rpc : Bool) (s : World)
      → Kept s
      → Kept (deliver w j decimal sealing agent fuel c h json_rpc s).1
  unfolding deliver
  deliver-Kept h zero c json_rpc s a = a
  deliver-Kept h (suc fuel) c json_rpc s a = elim (Bool-cases (is_of k h)) [
    | inl own ↦ rw (own_answer h own fuel c json_rpc s a) a
    | inr other ↦ deliver-Kept_other h other (suc fuel) c json_rpc s a
  ]

  called-Kept :
      (fuel : ℕ) (c : Call) (s : World)
      → Kept s
      → Kept (called w j decimal sealing agent k fuel c s)
  unfolding serve_a2a_with_dedup forward
  called-Kept fuel c s a =
      let h = handed_of w j decimal sealing agent c.request c.local c.json_rpc in
      let out = called w j decimal sealing agent k fuel c s in
      elim (Bool-cases (is_empty h.message_id)) [
        | inl e ↦
            let hands : out ≡ record s { handed = h ∷ s.handed } = ground (arith, e) in rw hands a
        | inr e ↦
            let delivers : out ≡ (deliver w j decimal sealing agent fuel c.clock h c.json_rpc s).1 =
              ground (arith, e) in
            rw delivers (deliver-Kept h fuel c.clock c.json_rpc s a)
      ]

  run_calls-Kept :
      (fuel : ℕ) (cs : List Call) (s : World)
      → Kept s
      → Kept (run_calls w j decimal sealing agent k fuel cs s)
  unfolding run_calls
  run_calls-Kept fuel [] s a = a
  run_calls-Kept fuel (c ∷ cs) s a =
      run_calls-Kept fuel cs (called w j decimal sealing agent k fuel c s) (called-Kept fuel c s a)

is_of_body : (h : Handed) (body : String) → is_of h (record h { body = body }) ≡ true
unfolding is_of
is_of_body h body = ground (arith, same_refl h.remote, same_refl h.local, same_refl h.message_id)

module _ (w : Web) (j : Json) (decimal : ℕ → String) (a : Aead) (g : Gcm) (agent : Agent)
    (cipher : gcm a ≡ ok g) (law : IsLawful g) where
  -- The answer of the local agent, with a status and a body, that was kept under a lawful cipher is
  -- given to every later delivery of the message, whatever calls serveA2AWithDedup handled in
  -- between, by any clock and with any body, and that one changes nothing: the local agent does not get the message
  -- again.
  pub hand_over-replays :
      (c c' : Clock) (h : Handed) (body : String) (json_rpc : Bool) (fuel fuel' : ℕ)
      (cs : List Call) (s : World)
      → size c.answer_nonce ≡ nonce_size
      → (let reply = agent (length s.handed) h in
          (complete_scoped_message decimal
            (some a)
            c.answer_nonce
            h.remote
            h.local
            0
            h.message_id
            (task_of w j decimal (some a) agent c reply)
            reply.status
            reply.content_type
            reply.body
            s.database).0
          ≡ ok tt)
      → ((agent (length s.handed) h).status == 0) ≡ false
      → is_empty (agent (length s.handed) h).body ≡ false
      → (let later =
            run_calls w j decimal
              (some a)
              agent
              h
              fuel'
              cs
              (hand_over w j decimal (some a) agent c h s).1 in
          deliver w j decimal (some a) agent (suc fuel) c' (record h { body = body }) json_rpc later
          ≡ (some (agent (length s.handed) h), later))
  unfolding hand_over forward replayed
  hand_over-replays c c' h body json_rpc fuel fuel' cs s fits kept status filled =
      let reply = agent (length s.handed) h in
      let (r, found, task, st, ty, bd) =
        get_scoped_deduplication_complete decimal a g c.answer_nonce h.remote h.local 0 h.message_id
          (task_of w j decimal (some a) agent c reply) reply.status reply.content_type reply.body
          s.database cipher law fits kept in
      let after = (hand_over w j decimal (some a) agent c h s).1 in
      let later = run_calls w j decimal (some a) agent h fuel' cs after in
      let stays =
        run_calls-Kept w j decimal (some a) agent h r fuel' cs after
          (looked_up-IsAnswered decimal (some a) h r after.database found) in
      let answers : replayed w r ≡ reply = ground (arith, st, ty, bd, status, filled) in
      own_answer w j decimal (some a) agent h r (record h { body = body }) (is_of_body h body) fuel
        c' json_rpc later stays
      ∙ ap (λ x. (some x, later)) answers
