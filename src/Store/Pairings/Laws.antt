-- ===== src/Store/Pairings/Laws.antt =====
-- A pairing request is consumed at most once.
use snw_agent_link.Prelude.{
  ◌≡◌, ◌≢◌, refl, ◌∙◌, Bool, true, false, Option, some, none, List, [], ◌∷◌, String, arith, ap,
  Bool-cases, inl, inr, Option-cases, ◌&&◌, same,
}
use snw_agent_link.Errors.{ok, Result-cases}
use snw_agent_link.Exec.{◌>>=◌}
use snw_agent_link.Time.{Time, stored}
use snw_agent_link.Table.{select_one, update}
use snw_agent_link.Table.Laws.{select_one-insert, select_one-update, changed, select_one-holds}
use snw_agent_link.Model.{PairingRequest}
use snw_agent_link.Store.Tables.{Database}
use snw_agent_link.Store.Pairings.{
  request_key, request_row, create_pairing_request, get_pairing_request_for_agent, is_unset,
  Validator, validated, validate_and_consume_pairing_request,
  validate_and_consume_pairing_request_for_agent,
}

-- The operations of the store that write pairing requests.
pub data RequestOperation : Type 0 where
  create_request : PairingRequest → RequestOperation
  consume_request : String → Time → Option Validator → RequestOperation
  consume_for_agent : String → String → Time → Option Validator → RequestOperation

unfoldable pub run_request : RequestOperation → Database → Database
run_request (create_request r) d = (create_pairing_request r d).1
run_request (consume_request id t v) d = (validate_and_consume_pairing_request id t v d).1
run_request (consume_for_agent id local t v) d =
    (validate_and_consume_pairing_request_for_agent id local t v d).1

unfoldable pub run_requests : List RequestOperation → Database → Database
run_requests [] d = d
run_requests (o ∷ os) d = run_requests os (run_request o d)

-- The request is there, and consumed.
pub record IsConsumed (id local : String) (d : Database) : Type 0 where
  pub request : PairingRequest
  pub found : select_one (request_key id local) d.requests ≡ some request
  pub consumed : is_unset request.consumed_at ≡ false

module _ (id local : String) (d : Database) where
  abbrev consume_row : Time → PairingRequest → PairingRequest
  consume_row t r = record r { consumed_at = some (stored t) }

  create-IsConsumed :
      (r : PairingRequest)
      → IsConsumed id local d
      → IsConsumed id local (create_pairing_request r d).1
  unfolding create_pairing_request
  create-IsConsumed r c = record {
    request = c.request;
    found =
        ground
          (arith, c.found, select_one-insert (request_key id local) (request_row r) d.requests);
    consumed = c.consumed;
  }

  changed-consumed :
      (p q : PairingRequest → Bool) (t : Time) (r : PairingRequest)
      → is_unset r.consumed_at ≡ false
      → changed p (λ r. q r && is_unset r.consumed_at) (consume_row t) r ≡ r
  changed-consumed p q t r h = ground (arith, Bool-cases (q r))

  update-IsConsumed :
      (q : PairingRequest → Bool) (t : Time)
      → (c : IsConsumed id local d)
      → select_one
          (request_key id local)
          (update (λ r. q r && is_unset r.consumed_at) (consume_row t) d.requests)
        ≡ some c.request
  unfolding request_key
  update-IsConsumed q t c =
      select_one-update (request_key id local) (λ r. q r && is_unset r.consumed_at) (consume_row t)
        d.requests (λ _. refl)
      ∙ rw c.found (ap some (changed-consumed (request_key id local) q t c.request c.consumed))

  consume-IsConsumed :
      (i : String) (t : Time) (v : Option Validator)
      → IsConsumed id local d
      → IsConsumed id local (validate_and_consume_pairing_request i t v d).1
  unfolding validate_and_consume_pairing_request ◌>>=◌
  consume-IsConsumed i t v c = record {
    request = c.request;
    found = ground (arith, c.found, update-IsConsumed (λ r. same r.id i) t c);
    consumed = c.consumed;
  }

  consume_for_agent-IsConsumed :
      (i l : String) (t : Time) (v : Option Validator)
      → IsConsumed id local d
      → IsConsumed id local (validate_and_consume_pairing_request_for_agent i l t v d).1
  unfolding validate_and_consume_pairing_request_for_agent ◌>>=◌
  consume_for_agent-IsConsumed i l t v c = record {
    request = c.request;
    found = ground (arith, c.found, update-IsConsumed (request_key i l) t c);
    consumed = c.consumed;
  }

  consumed-refused :
      (t : Time) (v : Option Validator) (r : PairingRequest)
      → IsConsumed id local d
      → (validate_and_consume_pairing_request_for_agent id local t v d).0 ≢ ok (r, true)
  unfolding validate_and_consume_pairing_request_for_agent get_pairing_request_for_agent ◌>>=◌
  consumed-refused t v r c h = ground (arith, c.found, c.consumed)

  newly-IsConsumed :
      (t : Time) (v : Option Validator) (old : PairingRequest)
      → select_one (request_key id local) d.requests ≡ some old
      → is_unset old.consumed_at ≡ true
      → (validate_and_consume_pairing_request_for_agent id local t v d).1.requests
        ≡ update (λ r. request_key id local r && is_unset r.consumed_at) (consume_row t) d.requests
      → IsConsumed id local (validate_and_consume_pairing_request_for_agent id local t v d).1
  unfolding request_key
  newly-IsConsumed t v old e unset written =
      let open_row = λ (r : PairingRequest). request_key id local r && is_unset r.consumed_at in
      let holds = select_one-holds (request_key id local) old d.requests e in
      let done : changed (request_key id local) open_row (consume_row t) old ≡ consume_row t old =
        ground arith in
      record {
        request = consume_row t old;
        found = rw written (
            select_one-update (request_key id local) open_row (consume_row t) d.requests (λ _. refl)
            ∙ rw e (ap some done));
        consumed = refl;
      }

  -- An agent's request that is consumed was there, was not consumed before, passed the caller's
  -- validation as it stood, and is consumed afterwards.
  pub validate_and_consume_for_agent_outcome :
      (t : Time) (v : Option Validator) (r : PairingRequest)
      → (validate_and_consume_pairing_request_for_agent id local t v d).0 ≡ ok (r, true)
      → (old : PairingRequest) × (select_one (request_key id local) d.requests ≡ some old)
        × (old.consumed_at ≡ none)
        × (validated v old ≡ ok tt)
        × (r ≡ record old { consumed_at = some t })
        × IsConsumed id local (validate_and_consume_pairing_request_for_agent id local t v d).1
  unfolding validate_and_consume_pairing_request_for_agent get_pairing_request_for_agent ◌>>=◌
  validate_and_consume_for_agent_outcome t v r h =
      elim (Option-cases (select_one (request_key id local) d.requests)) [
        | inl e ↦ absurd (ground arith)
        | inr (old, e) ↦ (
          old,
          e,
          ground arith,
          ground arith,
          ground arith,
          newly-IsConsumed t v old e (ground arith) (ground arith),
        )
      ]

  -- When the call returns an error, or that it consumed nothing, the database is as it was.
  pub validate_and_consume_for_agent_rolls_back :
      (t : Time) (v : Option Validator)
      → ((r : PairingRequest)
          → (validate_and_consume_pairing_request_for_agent id local t v d).0 ≢ ok (r, true))
      → (validate_and_consume_pairing_request_for_agent id local t v d).1 ≡ d
  unfolding validate_and_consume_pairing_request_for_agent ◌>>=◌
  validate_and_consume_for_agent_rolls_back t v h =
      elim (Result-cases (validate_and_consume_pairing_request_for_agent id local t v d).0) [
        | inl (e, bad) ↦ ground arith
        | inr ((r, true), done) ↦ absurd (h r done)
        | inr ((r, false), done) ↦ ground arith
      ]

run_requests-IsConsumed :
    (id local : String) (os : List RequestOperation) (d : Database)
    → IsConsumed id local d
    → IsConsumed id local (run_requests os d)
unfolding run_requests run_request
run_requests-IsConsumed id local [] d c = c
run_requests-IsConsumed id local (create_request r ∷ os) d c =
    run_requests-IsConsumed id local os _ (create-IsConsumed id local d r c)
run_requests-IsConsumed id local (consume_request i t v ∷ os) d c =
    run_requests-IsConsumed id local os _ (consume-IsConsumed id local d i t v c)
run_requests-IsConsumed id local (consume_for_agent i l t v ∷ os) d c =
    run_requests-IsConsumed id local os _ (consume_for_agent-IsConsumed id local d i l t v c)

-- Of the calls that consume an agent's request at most one reports success: after one did, none does
-- again, whatever requests were created or consumed in between.
pub validate_and_consume_for_agent_once :
    (id local : String) (t t' : Time) (v v' : Option Validator) (r r' : PairingRequest)
    (os : List RequestOperation) (d : Database)
    → (validate_and_consume_pairing_request_for_agent id local t v d).0 ≡ ok (r, true)
    → (validate_and_consume_pairing_request_for_agent id local t' v'
        (run_requests os (validate_and_consume_pairing_request_for_agent id local t v d).1)).0
      ≢ ok (r', true)
validate_and_consume_for_agent_once id local t t' v v' r r' os d h =
    let (_, _, _, _, _, consumed) = validate_and_consume_for_agent_outcome id local d t v r h in
    consumed-refused id local _ t' v' r' (run_requests-IsConsumed id local os _ consumed)
