-- ===== src/Gateway/Messages/Kept.antt =====
-- The record of a message under the writes for other messages.
use snw_agent_link.Prelude.{
  ℕ, ◌≡◌, refl, Bool, false, Option, some, String, same→eq, arith, Bool-cases, Option-cases, inl,
  inr,
}
use snw_agent_link.Errors.{Result, ok, Result-cases}
use snw_agent_link.Exec.{◌>>=◌}
use snw_agent_link.Secure.{Aead}
use snw_agent_link.Table.{select_one}
use snw_agent_link.Table.Laws.{select_one-insert, select_one-update, select_one-holds}
use snw_agent_link.Model.{DeduplicationRecord}
use snw_agent_link.Store.Tables.{Database}
use snw_agent_link.Store.Dedup.{
  scoped_key, get_scoped_deduplication, record_scoped_message_once, complete_scoped_message,
  seen_row, sealed_body, scoped_dedup_associated_data,
}
use snw_agent_link.Gateway.Messages.{Handed, Clock}
use snw_agent_link.Gateway.Messages.Once.{is_of}

module _ (decimal : ℕ → String) (sealing : Option Aead) (k : Handed) where
  abbrev pub key : DeduplicationRecord → Bool
  key = scoped_key k.remote k.local 0 k.message_id

  abbrev pub looked_up : Database → Result DeduplicationRecord
  looked_up d = get_scoped_deduplication decimal sealing k.remote k.local 0 k.message_id d

  -- The message has a record, and this is what the lookup gives.
  pub record IsAnswered (r : DeduplicationRecord) (d : Database) : Type 0 where
    pub row : DeduplicationRecord
    pub found : select_one key d.scoped ≡ some row
    pub gives : looked_up d ≡ ok r

  pub looked_up-IsAnswered :
      (r : DeduplicationRecord) (d : Database) → looked_up d ≡ ok r → IsAnswered r d
  unfolding get_scoped_deduplication
  looked_up-IsAnswered r d h = elim (Option-cases (select_one key d.scoped)) [
    | inl e ↦ absurd (ground (arith, h, e))
    | inr (row, e) ↦ record { row = row; found = e; gives = h }
  ]

  -- The lookup reads one row.
  pub IsAnswered-row :
      (r : DeduplicationRecord) (d d' : Database) (a : IsAnswered r d)
      → select_one key d'.scoped ≡ some a.row
      → IsAnswered r d'
  unfolding get_scoped_deduplication
  IsAnswered-row r d d' a e = record {
    row = a.row;
    found = e;
    gives = ground (arith, a.found, a.gives, e);
  }

  module _ (h : Handed) (other : is_of k h ≡ false) (r : DeduplicationRecord) (d : Database)
      (a : IsAnswered r d) where
    -- The row of a message is not that of another one.
    not_its_row : scoped_key h.remote h.local 0 h.message_id a.row ≡ false
    unfolding is_of scoped_key
    not_its_row = ground (
      arith,
      other,
      select_one-holds key a.row d.scoped a.found,
      same→eq a.row.source_agent_id k.remote,
      same→eq a.row.target_agent_id k.local,
      same→eq a.row.message_id k.message_id,
      same→eq a.row.source_agent_id h.remote,
      same→eq a.row.target_agent_id h.local,
      same→eq a.row.message_id h.message_id,
      Bool-cases (scoped_key h.remote h.local 0 h.message_id a.row),
    )

    pub complete_keeps :
        (nonce task : String) (status : ℕ) (kind body : String)
        → IsAnswered r
            (complete_scoped_message decimal sealing nonce h.remote h.local 0 h.message_id task
              status kind body d).1
    unfolding complete_scoped_message ◌>>=◌ scoped_key
    complete_keeps nonce task status kind body =
        elim (Result-cases (
          sealed_body decimal sealing nonce body
            (scoped_dedup_associated_data decimal h.remote h.local 0 h.message_id))) [
              | inl (x, bad) ↦ IsAnswered-row r d _ a (ground (arith, bad, a.found))
              | inr (sealed, good) ↦
                  let f = λ (x : DeduplicationRecord). record x {
                    task_id = task;
                    response_status = status;
                    response_type = kind;
                    response_body = sealed;
                  } in
                  let its = scoped_key h.remote h.local 0 h.message_id in
                  IsAnswered-row r d _ a (
                    ground (
                      arith,
                      good,
                      a.found,
                      not_its_row,
                      select_one-update key its f d.scoped (λ _. refl),
                    ))
            ]

  pub reserve_keeps :
      (h : Handed) (c : Clock) (r : DeduplicationRecord) (d : Database)
      → IsAnswered r d
      → IsAnswered r
          (record_scoped_message_once c.recorded_at h.remote h.local 0 h.message_id c.reservation
            d).1
  unfolding record_scoped_message_once
  reserve_keeps h c r d a =
      IsAnswered-row r d
        (record_scoped_message_once c.recorded_at h.remote h.local 0 h.message_id c.reservation d).1
        a
        (ground (
          arith,
          a.found,
          select_one-insert key
              (seen_row h.remote h.local 0 h.message_id c.reservation c.recorded_at) d.scoped,
        ))
