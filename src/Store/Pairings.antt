-- ===== src/Store/Pairings.antt =====
-- The pairing requests and sessions of internal/store/store.go.
pub mod Laws
use mathlib.Core.List.{head?}
use snw_agent_link.Prelude.{
  ℕ, Bool, true, false, ◌&&◌, Option, none, some, List, String, same, leb, ◌==◌, if◌then◌else◌,
}
use snw_agent_link.Errors.{Result, ok, err, constraint}
use snw_agent_link.Exec.{pure, query, transaction, ◌>>=◌, ◌>>◌}
use snw_agent_link.Time.{Time, stored}
use snw_agent_link.Table.{select_one, select, update, affected, taken, insert}
use snw_agent_link.Table.Sort.{order_by}
use snw_agent_link.Model.{PairingRequest, PairingSession}
use snw_agent_link.Store.Tables.{Database, Db, or_now, or_not_found}

unfoldable pub request_key : String → String → PairingRequest → Bool
request_key id local r = same r.id id && same r.local_agent_id local

abbrev pub request_row : PairingRequest → PairingRequest
request_row r = record r {
  expires_at = stored r.expires_at;
  consumed_at = none;
  created_at = stored r.created_at;
}

unfoldable pub create_pairing_request : PairingRequest → Db (Unit {0})
create_pairing_request r d =
    if taken (request_key r.id r.local_agent_id) d.requests
    then (err constraint, d)
    else (ok tt, record d { requests = insert (request_row r) d.requests })

unfoldable pub get_pairing_request : String → Database → Result PairingRequest
get_pairing_request id d = or_not_found (
    head? (order_by (λ a b. leb a.created_at b.created_at) (select (λ r. same r.id id) d.requests)))

unfoldable pub get_pairing_request_for_agent : String → String → Database → Result PairingRequest
get_pairing_request_for_agent id local d =
    or_not_found (select_one (request_key id local) d.requests)

unfoldable pub session_key : String → String → PairingSession → Bool
session_key invite local s = same s.invite_id invite && same s.local_agent_id local

abbrev pub session_row : Time → PairingSession → PairingSession
session_row wall s = record s {
  expires_at = stored s.expires_at;
  created_at = stored (or_now s.created_at wall);
  updated_at = stored wall;
}

-- `DO UPDATE SET …`: the key and the time of creation stay.
abbrev pub overwrite_session : PairingSession → PairingSession → PairingSession
overwrite_session new old = record new {
  invite_id = old.invite_id;
  local_agent_id = old.local_agent_id;
  created_at = old.created_at;
}

unfoldable pub upsert_pairing_session : Time → PairingSession → Db (Unit {0})
upsert_pairing_session wall s d =
    let row = session_row wall s in
    let key = session_key s.invite_id s.local_agent_id in
    (
      ok tt,
      record d {
        sessions =
            if taken key d.sessions
            then update key (overwrite_session row) d.sessions
            else insert row d.sessions;
      },
    )

unfoldable pub get_pairing_session : String → String → Database → Result PairingSession
get_pairing_session invite local d = or_not_found (select_one (session_key invite local) d.sessions)

-- The session of the pair that was written last.
unfoldable pub find_pairing_session : String → String → Database → Result PairingSession
find_pairing_session local remote d = or_not_found (
    head? (
      order_by (λ a b. leb b.updated_at a.updated_at)
        (select (λ s. same s.local_agent_id local && same s.remote_agent_id remote) d.sessions)))

abbrev pub is_unset : Option Time → Bool
is_unset none = true
is_unset (some t) = false

abbrev pub Validator : Type 0
Validator = PairingRequest → Result (Unit {0})

-- `if validate != nil { … }`
abbrev pub validated : Option Validator → PairingRequest → Result (Unit {0})
validated none r = ok tt
validated (some validate) r = validate r

-- UPDATE … SET consumed_at = ? WHERE … AND consumed_at IS NULL, and its RowsAffected.
consume_where : (PairingRequest → Bool) → Time → Db ℕ
consume_where key t d =
    let open_row = λ (r : PairingRequest). key r && is_unset r.consumed_at in
    (
      ok (affected open_row d.requests),
      record d {
        requests = update open_row (λ r. record r { consumed_at = some (stored t) }) d.requests;
      },
    )

-- What follows the SELECT of the request. The flag behind the result is the Commit.
consume_rest :
    (PairingRequest → Bool)
    → Time
    → Option Validator
    → PairingRequest
    → Db ((PairingRequest × Bool) × Bool)
unfolding consume_where
consume_rest key t validate r = elim r.consumed_at [
  | some _ ↦ pure ((r, false), false)
  | none ↦ do
    query (λ _. validated validate r)
    rows ← consume_where key t
    pure (
        if rows == 1
        then ((record r { consumed_at = some t }, true), true)
        else ((r, false), false))
]

unfoldable pub validate_and_consume_pairing_request :
    String → Time → Option Validator → Db (PairingRequest × Bool)
unfolding consume_rest
validate_and_consume_pairing_request id t validate =
    transaction
      (do r ← query (get_pairing_request id); consume_rest (λ row. same row.id id) t validate r)

unfoldable pub validate_and_consume_pairing_request_for_agent :
    String → String → Time → Option Validator → Db (PairingRequest × Bool)
unfolding consume_rest
validate_and_consume_pairing_request_for_agent id local t validate = transaction (do
  r ← query (get_pairing_request_for_agent id local)
  consume_rest (request_key id local) t validate r)
