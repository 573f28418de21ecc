-- ===== src/Store/Dedup.antt =====
-- The deduplication records of internal/store/store.go, plain and scoped.
pub mod Laws
use snw_agent_link.Prelude.{
  ℕ, Bool, true, false, ◌&&◌, not, Option, none, some, String, ◌<>◌, same, is_empty, ◌==◌,
  if◌then◌else◌,
}
use snw_agent_link.Errors.{Result, ok, err}
use snw_agent_link.Exec.{query, ◌>>=◌}
use snw_agent_link.Time.{Time, stored}
use snw_agent_link.Table.{select_one, update, affected, taken, insert}
use snw_agent_link.Secure.{Aead}
use snw_agent_link.Model.{DeduplicationRecord}
use snw_agent_link.Store.Tables.{Database, Db, or_not_found, require_one_row}
use snw_agent_link.Store.Outbox.{sealed_with, opened_with}

unfoldable pub seen_key : String → String → DeduplicationRecord → Bool
seen_key target id r = same r.target_agent_id target && same r.message_id id

-- A row of `deduplication_records` has four columns; the other fields of the record stay zero.
abbrev pub seen_row : String → String → ℕ → String → String → Time → DeduplicationRecord
seen_row source target epoch id task t = record {
  source_agent_id = source;
  target_agent_id = target;
  agent_key_epoch = epoch;
  message_id = id;
  task_id = task;
  response_status = 0;
  response_type = "";
  response_body = "";
  created_at = stored t;
}

-- INSERT OR IGNORE, and whether it inserted.
unfoldable pub record_message_once : Time → String → String → String → Db Bool
record_message_once wall target id task d =
    if taken (seen_key target id) d.seen
    then (ok false, d)
    else (ok true, record d { seen = insert (seen_row "" target 0 id task wall) d.seen })

unfoldable pub get_deduplication : String → String → Database → Result DeduplicationRecord
get_deduplication target id d = or_not_found (select_one (seen_key target id) d.seen)

unfoldable pub scoped_key : String → String → ℕ → String → DeduplicationRecord → Bool
scoped_key source target epoch id r =
    same r.source_agent_id source
    && (same r.target_agent_id target && (r.agent_key_epoch == epoch && same r.message_id id))

unfoldable pub record_scoped_message_once : Time → String → String → ℕ → String → String → Db Bool
record_scoped_message_once wall source target epoch id task d =
    if taken (scoped_key source target epoch id) d.scoped then (ok false, d) else (
      ok true,
      record d { scoped = insert (seen_row source target epoch id task wall) d.scoped },
    )

-- fmt's `%d` of the epoch is a parameter.
module _ (decimal : ℕ → String) where
  unfoldable pub scoped_dedup_associated_data : String → String → ℕ → String → String
  scoped_dedup_associated_data source target epoch id =
      "snw-agent-link:dedup:" <> source <> ":" <> target <> ":" <> decimal epoch <> ":" <> id

  -- The body is sealed, and opened, unless it is empty.
  abbrev pub sealed_body : Option Aead → String → String → String → Result String
  sealed_body sealing nonce body associated =
      if is_empty body then ok body else sealed_with sealing nonce body associated

  abbrev opened_body : Option Aead → String → String → Result String
  opened_body sealing body associated =
      if is_empty body then ok body else opened_with sealing body associated

  opened_record : Option Aead → String → DeduplicationRecord → Result DeduplicationRecord
  opened_record sealing associated r = elim (opened_body sealing r.response_body associated) [
    | ok body ↦ ok (record r { response_body = body })
    | err e ↦ err e
  ]

  unfoldable pub get_scoped_deduplication :
      Option Aead → String → String → ℕ → String → Database → Result DeduplicationRecord
  unfolding opened_record
  get_scoped_deduplication sealing source target epoch id d =
      elim (or_not_found (select_one (scoped_key source target epoch id) d.scoped)) [
        | ok r ↦ opened_record sealing (scoped_dedup_associated_data source target epoch id) r
        | err e ↦ err e
      ]

  complete_row : (DeduplicationRecord → Bool) → String → ℕ → String → String → Db (Unit {0})
  complete_row key task status content_type body d = (
    require_one_row (affected key d.scoped),
    record d {
      scoped =
          update key
            (λ r. record r {
              task_id = task;
              response_status = status;
              response_type = content_type;
              response_body = body;
            })
            d.scoped;
    },
  )

  unfoldable pub complete_scoped_message :
      Option Aead
      → String
      → String
      → String
      → ℕ
      → String
      → String
      → ℕ
      → String
      → String
      → Db (Unit {0})
  unfolding complete_row
  complete_scoped_message sealing nonce source target epoch id task status content_type body = do
    stored_body ←
        query (λ _.
          sealed_body sealing nonce body (scoped_dedup_associated_data source target epoch id))
    complete_row (scoped_key source target epoch id) task status content_type stored_body
