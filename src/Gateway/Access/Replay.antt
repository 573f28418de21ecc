-- ===== src/Gateway/Access/Replay.antt =====
-- Requests that come again.
use snw_agent_link.Prelude.{
  ◌+◌, ◌*◌, ◌<◌, ◌≡◌, ◌≢◌, Bool, true, false, List, [], ◌∷◌, String, is_empty, arith, Option-cases,
  inl, inr, All,
}
use snw_agent_link.Errors.{Result, ok}
use snw_agent_link.Time.{Time, minute, millis}
use snw_agent_link.Platform.{Platform}
use snw_agent_link.Store.Tables.{Database}
use snw_agent_link.Store.Nonces.Laws.{
  Claim, run_claim, IsHeld, claimed-IsHeld, IsHeld-run_claim, IsHeld-claim_replay_nonce,
}
use snw_agent_link.Http.{Request, Web}
use snw_agent_link.Tailscale.{Addresses}
use snw_agent_link.Gateway.Access.{Router, Readings, checked_nonce, authorized}
use snw_agent_link.Gateway.Access.Laws.{IsAuthorized, authorized-IsAuthorized}

-- A request for an agent, and the clock when it comes.
pub record Arrival : Type 0 where
  pub request : Request
  pub local : String
  pub readings : Readings

abbrev pub expiry_of : Readings → Time
expiry_of t = t.expiry_from + 5 * minute

module _ (p : Platform) (w : Web) (n : Addresses) (router : Router) where
  abbrev allowed : Arrival → Database → Result Bool × Database
  allowed a = authorized p w n router a.request a.local a.readings

  unfoldable pub run_arrivals : List Arrival → Database → Database
  run_arrivals [] d = d
  run_arrivals (a ∷ later) d = run_arrivals later (allowed a d).1

  allowed-IsHeld :
      (l r nonce : String) (e : Time) (a : Arrival) (d : Database)
      → millis a.readings.claimed_at < millis e
      → IsHeld l r nonce e d
      → IsHeld l r nonce e (allowed a d).1
  unfolding authorized run_claim
  allowed-IsHeld l r nonce e a d early h =
      elim (Option-cases (checked_nonce p w n router a.request a.local a.readings d)) [
        | inl q ↦ rw q h
        | inr (x, q) ↦
            let c : Claim = record {
              local_agent_id = a.local;
              remote_agent_id = a.request.headers "X-SNW-Agent-ID";
              nonce = x;
              expires_at = expiry_of a.readings;
              now = a.readings.claimed_at;
            } in
            rw q (IsHeld-run_claim l r nonce e c d early h)
      ]

  run_arrivals-IsHeld :
      (l r nonce : String) (e : Time) (later : List Arrival) (d : Database)
      → All (λ a. millis a.readings.claimed_at < millis e) later
      → IsHeld l r nonce e d
      → IsHeld l r nonce e (run_arrivals later d)
  unfolding run_arrivals
  run_arrivals-IsHeld l r nonce e [] d early h = h
  run_arrivals-IsHeld l r nonce e (a ∷ later) d early h =
      run_arrivals-IsHeld l r nonce e later (allowed a d).1 early.1
        (allowed-IsHeld l r nonce e a d early.0 h)

  module _ (r : Request) (local : String) (named : is_empty local ≡ false) where
    abbrev sender : String
    sender = r.headers "X-SNW-Agent-ID"

    authorized-IsHeld :
        (t : Readings) (d : Database) (a : IsAuthorized p w n router r local t d)
        → (authorized p w n router r local t d).0 ≡ ok true
        → IsHeld local sender a.nonce (expiry_of t) (authorized p w n router r local t d).1
    unfolding authorized
    authorized-IsHeld t d a h =
        rw (a.is_checked)
          (claimed-IsHeld local sender a.nonce (expiry_of t) t.claimed_at d a.is_claimed)

    -- The nonce is that of the headers, whatever the time and the database are.
    same_nonce :
        (t u : Readings) (d e : Database) (a : IsAuthorized p w n router r local t d)
        (b : IsAuthorized p w n router r local u e)
        → a.nonce ≡ b.nonce
    same_nonce t u d e a b = ground (
      arith, a.is_signed.parsed, b.is_signed.parsed, a.is_signed.own_nonce, b.is_signed.own_nonce,
    )

    -- A request to a named agent that was authorized is not authorized again, whatever requests come
    -- in between, as long as each of them and the last comes in a millisecond before the end of the
    -- five minutes that the first claim lasts.
    pub authorized-once :
        (t u : Readings) (later : List Arrival) (d : Database)
        → (authorized p w n router r local t d).0 ≡ ok true
        → All (λ a. millis a.readings.claimed_at < millis (expiry_of t)) later
        → millis u.claimed_at < millis (expiry_of t)
        → (authorized p w n router r local u
            (run_arrivals later (authorized p w n router r local t d).1)).0
          ≢ ok true
    authorized-once t u later d h early last again =
        let d' = run_arrivals later (authorized p w n router r local t d).1 in
        let a = authorized-IsAuthorized p w n router r local t d named h in
        let b = authorized-IsAuthorized p w n router r local u d' named again in
        let held =
          run_arrivals-IsHeld local sender a.nonce (expiry_of t) later
            (authorized p w n router r local t d).1 early (authorized-IsHeld t d a h) in
        let refused =
          IsHeld-claim_replay_nonce local sender a.nonce (expiry_of t) (expiry_of u) u.claimed_at d'
            last held in
        ground (arith, refused, b.is_claimed, same_nonce t u d d' a b)
