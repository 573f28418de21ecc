-- ===== src/Gateway/Access.antt =====
-- internal/gateway/router.go, `authorized`, and internal/gateway/handler.go, `activeContactError`.
pub mod Laws
pub mod Replay
use snw_agent_link.Prelude.{
  ℕ, ◌+◌, ◌*◌, ◌&&◌, ◌||◌, not, Bool, true, false, Option, none, some, String, same, is_empty, size,
  ◌==◌, if◌then◌else◌,
}
use snw_agent_link.Prelude.Bytes.{prefix_of}
use snw_agent_link.Errors.{Result, ok, err}
use snw_agent_link.Time.{Time, minute}
use snw_agent_link.Platform.{Platform}
use snw_agent_link.Identity.{fingerprint}
use snw_agent_link.Model.{Contact, ContactState, active, contact_state_eq}
use snw_agent_link.Store.Tables.{Database, Db}
use snw_agent_link.Store.Contacts.{get_contact}
use snw_agent_link.Store.Nonces.{claim_replay_nonce}
use snw_agent_link.Http.{Request, Web}
use snw_agent_link.Http.Signature.{verify_request_for_target}
use snw_agent_link.Tailscale.{Addresses, WhoIs, NodeIdentity, has_address}

-- What `authorized` reads of the Router.
pub record Router : Type 0 where
  pub who : Option WhoIs
  pub require_who : Bool

-- The three readings of time.Now().
pub record Readings : Type 0 where
  pub verified_at : Time
  pub expiry_from : Time
  pub claimed_at : Time

-- `io.LimitReader(req.Body, 16<<20)`
abbrev pub max_body : ℕ
max_body = 16777216

-- The contact for which `activeContactError` is nil.
unfoldable pub active_contact : Result Contact → Option Contact
unfolding contact_state_eq
active_contact (err e) = none
active_contact (ok c) = if contact_state_eq c.state active then some c else none

module _ (n : Addresses) where
  -- `remoteAddress`
  unfoldable pub remote_address : Request → String
  remote_address r = elim (n.split_host r.remote_addr) [ some host ↦ host | none ↦ r.remote_addr ]

  node_is : String → String → Result NodeIdentity → Bool
  node_is expected source (err e) = false
  node_is expected source (ok node) = same node.stable_node_id expected && has_address n node source

  node_is_known_as : String → Result NodeIdentity → Bool
  node_is_known_as expected (err e) = false
  node_is_known_as expected (ok node) =
      same node.stable_node_id expected || same node.node_id expected

  -- The checks of the node that the request came from.
  unfoldable pub admits_node : Router → Contact → Request → Bool
  unfolding remote_address node_is node_is_known_as has_address
  admits_node router c r = elim router.require_who [
    | true ↦ elim router.who [
      | none ↦ false
      | some who ↦
          not (is_empty c.remote_node_id)
          && node_is c.remote_node_id (remote_address r) (who (remote_address r))
    ]
    | false ↦ elim router.who [
      | none ↦ true
      | some who ↦
          is_empty c.remote_node_id || node_is_known_as c.remote_node_id (who (remote_address r))
    ]
  ]

module _ (p : Platform) (w : Web) where
  -- The public key of the header, if it is the contact's.
  unfoldable pub key_of : Contact → Request → Option String
  unfolding fingerprint
  key_of c r = elim (w.unbase64_raw_url (r.headers "X-SNW-Agent-Public-Key")) [
    | none ↦ none
    | some key ↦
        if (size key == 32) && same (fingerprint p key) c.remote_agent_fingerprint
        then some key
        else none
  ]

module _ (p : Platform) (w : Web) (n : Addresses) where
  -- The nonce of a request of the contact that passes the checks before the claim.
  verified_nonce : Router → Contact → Request → String → Time → Option String
  unfolding key_of admits_node verify_request_for_target
  verified_nonce router c r local now = elim (key_of p w c r) [
    | none ↦ none
    | some key ↦
        if admits_node n router c r
        then elim (verify_request_for_target p w r (r.headers "X-SNW-Agent-ID") local key now
            (5 * minute)) [ err e ↦ none | ok nonce ↦ some nonce ]
        else none
  ]

  nonce_of_contact : Router → Option Contact → Request → String → Time → Option String
  unfolding verified_nonce
  nonce_of_contact router none r local now = none
  nonce_of_contact router (some c) r local now = verified_nonce router c r local now

  -- The body that was read stands in for the body.
  abbrev pub limited : Request → Request
  limited r = record r { body = prefix_of max_body r.body }

  -- The nonce that `authorized` claims.
  unfoldable pub checked_nonce : Router → Request → String → Readings → Database → Option String
  unfolding nonce_of_contact active_contact
  checked_nonce router r local t d =
      let remote = r.headers "X-SNW-Agent-ID" in
      if is_empty remote || same remote local
      then none
      else nonce_of_contact router (active_contact (get_contact local remote d)) (limited r) local
          t.verified_at

  claim : Option String → Request → String → Readings → Db Bool
  unfolding claim_replay_nonce
  claim none r local t d = (ok false, d)
  claim (some nonce) r local t d =
      claim_replay_nonce local (r.headers "X-SNW-Agent-ID") nonce (t.expiry_from + 5 * minute)
        t.claimed_at d

  unfoldable pub authorized : Router → Request → String → Readings → Db Bool
  unfolding checked_nonce claim
  authorized router r local t d = claim (checked_nonce router r local t d) r local t d
