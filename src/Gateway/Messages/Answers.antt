-- ===== src/Gateway/Messages/Answers.antt =====
-- When a delivery answers, and what it answers to a message that comes again.
use snw_agent_link.Prelude.{
  ℕ, zero, suc, ◌≡◌, refl, Bool, true, false, Option, none, some, String, arith, inl, inr, ◌⊎◌,
}
use snw_agent_link.Errors.{Error, Result, ok, err, Result-cases}
use snw_agent_link.Secure.{Aead}
use snw_agent_link.Table.{select_one}
use snw_agent_link.Table.Laws.{select_one-taken, taken-select_one}
use snw_agent_link.Model.{DeduplicationRecord}
use snw_agent_link.Store.Dedup.{scoped_key, get_scoped_deduplication, record_scoped_message_once}
use snw_agent_link.Http.{Web}
use snw_agent_link.Gateway.Messages.{
  Reply, Handed, World, Json, Clock, Agent, first_delivery, deliver, replayed,
}

module _ (w : Web) (j : Json) (decimal : ℕ → String) (sealing : Option Aead) (agent : Agent)
    (h : Handed) (s : World) where
  abbrev run : ℕ → Clock → Bool → Option Reply × World
  run fuel c json_rpc = deliver w j decimal sealing agent fuel c h json_rpc s

  abbrev looked_up : Result DeduplicationRecord
  looked_up = get_scoped_deduplication decimal sealing h.remote h.local 0 h.message_id s.database

  abbrev row : Option DeduplicationRecord
  row = select_one (scoped_key h.remote h.local 0 h.message_id) s.database.scoped

  reserves :
      (c : Clock)
      → row ≡ none
      → (record_scoped_message_once c.recorded_at h.remote h.local 0 h.message_id c.reservation
          s.database).0
        ≡ ok true
  unfolding record_scoped_message_once
  reserves c e =
      ground (
        arith,
        e,
        select_one-taken (scoped_key h.remote h.local 0 h.message_id) s.database.scoped e,
      )

  refuses :
      (c : Clock) (r : DeduplicationRecord)
      → row ≡ some r
      → record_scoped_message_once c.recorded_at h.remote h.local 0 h.message_id c.reservation
          s.database
        ≡ (ok false, s.database)
  unfolding record_scoped_message_once
  refuses c r e =
      ground
        (arith, e, taken-select_one (scoped_key h.remote h.local 0 h.message_id) s.database.scoped)

  -- A message that has no record, or one that can be opened, is answered with one turn of the loop,
  -- and more fuel gives the same.
  pub deliver_answers :
      (fuel : ℕ) (c : Clock) (json_rpc : Bool)
      → (row ≡ none) ⊎ ((r : DeduplicationRecord) × (looked_up ≡ ok r))
      → (reply : Reply) × (run (suc fuel) c json_rpc ≡ (some reply, (run 1 c json_rpc).1))
        × ((run 1 c json_rpc).0 ≡ some reply)
  unfolding deliver
  deliver_answers fuel c json_rpc (inr (r, q)) =
      (replayed w r, ground (arith, q), ground (arith, q))
  deliver_answers fuel c json_rpc (inl e) = elim (Result-cases looked_up) [
    | inr (r, q) ↦ (replayed w r, ground (arith, q), ground (arith, q))
    | inl (x, q) ↦
        let d =
          (record_scoped_message_once c.recorded_at h.remote h.local 0 h.message_id c.reservation
            s.database).1 in
        let first =
          first_delivery w j decimal sealing agent c h json_rpc (record s { database = d }) in
        (first.0, ground (arith, q, reserves c e), ground (arith, q, reserves c e))
  ]

  -- A message whose record cannot be opened is never answered: the loop has no end.
  pub deliver_endless :
      (fuel : ℕ) (c : Clock) (json_rpc : Bool) (r : DeduplicationRecord) (e : Error)
      → row ≡ some r
      → looked_up ≡ err e
      → run fuel c json_rpc ≡ (none, s)
  unfolding deliver
  deliver_endless zero c json_rpc r e found fails = refl
  deliver_endless (suc fuel) c json_rpc r e found fails =
      ground (arith, fails, refuses c r found, deliver_endless fuel c json_rpc r e found fails)
