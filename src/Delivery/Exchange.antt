-- ===== src/Delivery/Exchange.antt =====
-- internal/delivery/a2a.go, `deliverA2A` and A2ATransport, and internal/transport/signing.go: the
-- signed exchange of a message with an endpoint. The a2a client library is an argument: the request
-- that it sends for a message, and what it reads off the response.
use snw_agent_link.Prelude.{
  ◌*◌, ◌||◌, Option, none, some, String, is_empty, size, ◌==◌, if◌then◌else◌,
}
use snw_agent_link.Errors.{Result, ok, err, refused}
use snw_agent_link.Time.{Time, Duration, minute}
use snw_agent_link.Platform.{Platform}
use snw_agent_link.Identity.{Identity}
use snw_agent_link.Model.{OutboxMessage}
use snw_agent_link.Http.{Request, Response, Web}
use snw_agent_link.Http.Signature.{sign_request, verify_response_for_agent}
use snw_agent_link.Pairing.Envelope.{public_key_size}

-- A parsed URL.
pub record Target : Type 0 where
  pub scheme : String
  pub host : String
  pub url : String

-- The result of SendMessage.
pub data Answer : Type 0 where
  task message : String → Answer
  neither : Answer

-- url.Parse; json.Unmarshal of an a2a.SendMessageRequest and the request that the RESTTransport of an
-- endpoint makes of it; what SendMessage makes of the response; and the network.
pub record Client : Type 0 where
  pub parse_url : String → Option Target
  pub request_of : Target → String → Option Request
  pub read_answer : Response → Result Answer
  pub round_trip : Request → Result Response

-- The reading of time.Now() and the nonce of the signature, and the reading when the answer is checked.
pub record Instants : Type 0 where
  pub signed_at : Time
  pub nonce : String
  pub verified_at : Time

module _ (p : Platform) (w : Web) where
  -- `RoundTrip` of SignedRoundTripper
  unfoldable pub signed_round_trip :
      (Request → Result Response) → Identity → String → Time → String → Request → Result Response
  signed_round_trip base signer target now nonce r =
      elim (sign_request p w r signer now nonce target) [ err e ↦ err e | ok signed ↦ base signed ]

  -- `RoundTrip` of VerifyingRoundTripper
  unfoldable pub verifying_round_trip :
      (Request → Result Response) → String → String → Time → Duration → Request → Result Response
  verifying_round_trip base key agent now skew r = elim (base r) [
    | err e ↦ err e
    | ok response ↦
        if size key == public_key_size
        then elim (verify_response_for_agent p w response agent key now skew) [
          | err e ↦ err e
          | ok u ↦ ok response
        ]
        else ok response
  ]

  -- The transport of the HTTP client.
  unfoldable pub transport_of :
      Client → Instants → Identity → Option String → String → Request → Result Response
  unfolding signed_round_trip verifying_round_trip
  transport_of c t signer none target =
      signed_round_trip c.round_trip signer target t.signed_at t.nonce
  transport_of c t signer (some key) target =
      if size key == public_key_size
      then verifying_round_trip (signed_round_trip c.round_trip signer target t.signed_at t.nonce)
          key target t.verified_at (5 * minute)
      else signed_round_trip c.round_trip signer target t.signed_at t.nonce

  abbrev pub answer_id : Result Answer → Result String
  answer_id (err e) = err e
  answer_id (ok (task id)) = ok id
  answer_id (ok (message id)) = ok id
  answer_id (ok neither) = err refused

  unfoldable pub deliver_a2a :
      Client → Instants → OutboxMessage → Target → Identity → Option String → Result String
  unfolding transport_of
  deliver_a2a c t m e signer key =
      if is_empty e.scheme || is_empty e.host
      then err refused
      else elim (c.request_of e m.payload) [
        | none ↦ err refused
        | some r ↦ elim (transport_of c t signer key m.target_agent_id r) [
          | err x ↦ err x
          | ok response ↦ answer_id (c.read_answer response)
        ]
      ]

  -- `Deliver` of A2ATransport, whose endpoints and identities are maps.
  unfoldable pub deliver_static :
      Client
      → Instants
      → (String → Option Target)
      → (String → Option Identity)
      → OutboxMessage
      → Result String
  unfolding deliver_a2a
  deliver_static c t endpoints identities m = elim (endpoints m.target_agent_id) [
    | none ↦ err refused
    | some e ↦ elim (identities m.source_agent_id) [
      | none ↦ err refused
      | some signer ↦ deliver_a2a c t m e signer none
    ]
  ]
