-- ===== src/Delivery/Checked.antt =====
-- What an exchange that returns an identifier has passed.
use snw_agent_link.Prelude.{
  ◌≡◌, refl, sym, ap, ◌∙◌, ◌≤◌, ◌+◌, ◌*◌, ◌||◌, true, false, Option, none, some, String, is_empty,
  size, ◌==◌, arith, Bool-cases, Option-cases, inl, inr, ◌⊎◌, same→eq,
}
use snw_agent_link.Errors.{Result, ok, err, Result-cases}
use snw_agent_link.Time.{Time, minute}
use snw_agent_link.Platform.{Platform}
use snw_agent_link.Identity.{Identity, fingerprint}
use snw_agent_link.Model.{OutboxMessage}
use snw_agent_link.Http.{Request, Response, Web, unix_time}
use snw_agent_link.Http.Signature.{
  Metadata, sign_request, verify_response_for_agent, parse_signature_headers, content_digest,
  response_signature_base, same_components, response_components, within,
}
use snw_agent_link.Delivery.Exchange.{
  Target, Answer, task, message, neither, Client, Instants, transport_of, answer_id, deliver_a2a,
  signed_round_trip, verifying_round_trip,
}

-- A response with a signature by the key, over its status, the digest of its body and its agent.
pub record IsSignedAnswer (p : Platform) (w : Web) (r : Response) (agent key : String) (now : Time)
    : Type 0 where
  pub metadata : Metadata
  pub signature : String
  pub parsed : parse_signature_headers p w r.headers ≡ ok (metadata, signature)
  pub covers : same_components metadata.components response_components ≡ true
  pub by_key : metadata.key_id ≡ fingerprint p key
  pub by : (is_empty agent ≡ true) ⊎ (r.headers "X-SNW-Agent-ID" ≡ agent)
  pub not_late : now ≤ unix_time metadata.created + 5 * minute
  pub not_early : unix_time metadata.created ≤ now + 5 * minute
  pub digested : r.headers "Content-Digest" ≡ content_digest p w r.body
  pub verified :
      p.verify key (response_signature_base p w r.status r.headers metadata) signature ≡ true

verify_response_for_agent-IsSigned :
    (p : Platform) (w : Web) (r : Response) (agent key : String) (now : Time)
    → verify_response_for_agent p w r agent key now (5 * minute) ≡ ok tt
    → IsSignedAnswer p w r agent key now
unfolding verify_response_for_agent within
verify_response_for_agent-IsSigned p w r agent key now h =
    elim (Result-cases (parse_signature_headers p w r.headers)) [
      | inl (e, q) ↦ absurd (ground (arith, h, q))
      | inr (parts, q) ↦ record {
        metadata = parts.0;
        signature = parts.1;
        parsed = q;
        covers = ground (arith, h, q);
        by_key = ground (arith, h, q, same→eq parts.0.key_id (fingerprint p key));
        by = elim (Bool-cases (is_empty agent)) [
          | inl unnamed ↦ inl unnamed
          | inr named ↦
              inr (ground (arith, h, q, named, same→eq (r.headers "X-SNW-Agent-ID") agent))
        ];
        not_late = ground (arith, h, q);
        not_early = ground (arith, h, q);
        digested =
            ground (arith, h, q, same→eq (r.headers "Content-Digest") (content_digest p w r.body));
        verified = ground (arith, h, q);
      }
    ]

-- The answer of an exchange with a key, which is checked if the key has the right size.
pub data IsAnswerOf (p : Platform) (w : Web) (r : Response) (agent : String) (key : Option String)
    (now : Time) : Type 0 where
  without_key : key ≡ none → IsAnswerOf p w r agent key now
  wrong_size : (k : String) → key ≡ some k → (size k == 32) ≡ false → IsAnswerOf p w r agent key now
  checked :
      (k : String)
      → key ≡ some k
      → IsSignedAnswer p w r agent k now
      → IsAnswerOf p w r agent key now

-- What the exchange sent, and what came back.
pub record IsExchanged (p : Platform) (w : Web) (c : Client) (t : Instants) (m : OutboxMessage)
    (e : Target) (signer : Identity) (key : Option String) (id : String) : Type 0 where
  pub request : Request
  pub signed : Request
  pub response : Response
  pub absolute : (is_empty e.scheme || is_empty e.host) ≡ false
  pub decoded : c.request_of e m.payload ≡ some request
  pub is_signed : sign_request p w request signer t.signed_at t.nonce m.target_agent_id ≡ ok signed
  pub answered : c.round_trip signed ≡ ok response
  pub names : (c.read_answer response ≡ ok (task id)) ⊎ (c.read_answer response ≡ ok (message id))
  pub is_checked : IsAnswerOf p w response m.target_agent_id key t.verified_at

module _ (p : Platform) (w : Web) (c : Client) (t : Instants) (signer : Identity) where
  signed_facts :
      (target : String) (r : Request) (a : Response)
      → signed_round_trip p w c.round_trip signer target t.signed_at t.nonce r ≡ ok a
      → (q : Request) × (sign_request p w r signer t.signed_at t.nonce target ≡ ok q)
        × (c.round_trip q ≡ ok a)
  unfolding signed_round_trip
  signed_facts target r a h =
      elim (Result-cases (sign_request p w r signer t.signed_at t.nonce target)) [
        | inl (e, s) ↦ absurd (ground (arith, h, s))
        | inr (q, s) ↦ (q, s, ground (arith, h, s))
      ]

  verifying_facts :
      (base : Request → Result Response) (key agent : String) (r : Request) (a : Response)
      → (size key == 32) ≡ true
      → verifying_round_trip p w base key agent t.verified_at (5 * minute) r ≡ ok a
      → (base r ≡ ok a) × IsSignedAnswer p w a agent key t.verified_at
  unfolding verifying_round_trip
  verifying_facts base key agent r a long h = elim (Result-cases (base r)) [
    | inl (e, b) ↦ absurd (ground (arith, h, b))
    | inr (x, b) ↦
        elim (Result-cases (verify_response_for_agent p w x agent key t.verified_at (5 * minute))) [
          | inl (e, v) ↦ absurd (ground (arith, h, b, v, long))
          | inr (u, v) ↦
              let is_x : x ≡ a = ground (arith, h, b, v, long) in
              (
                b ∙ ap ok is_x,
                verify_response_for_agent-IsSigned p w a agent key t.verified_at
                    (rw (sym is_x) (ground (arith, v))),
              )
        ]
  ]

  transport_facts :
      (key : Option String) (target : String) (r : Request) (a : Response)
      → transport_of p w c t signer key target r ≡ ok a
      → (q : Request) × (sign_request p w r signer t.signed_at t.nonce target ≡ ok q)
        × (c.round_trip q ≡ ok a)
        × IsAnswerOf p w a target key t.verified_at
  unfolding transport_of
  transport_facts none target r a h =
      let (q, s, b) = signed_facts target r a h in (q, s, b, without_key refl)
  transport_facts (some k) target r a h = elim (Bool-cases (size k == 32)) [
    | inr short ↦
        let (q, s, b) = signed_facts target r a (ground (arith, h, short)) in
        (q, s, b, wrong_size k refl short)
    | inl long ↦
        let (sent, verified) =
          verifying_facts (signed_round_trip p w c.round_trip signer target t.signed_at t.nonce) k
            target r a long (ground (arith, h, long)) in
        let (q, s, b) = signed_facts target r a sent in (q, s, b, checked k refl verified)
  ]

  answer_id-names :
      (o : Result Answer) (id : String)
      → answer_id p w o ≡ ok id
      → (o ≡ ok (task id)) ⊎ (o ≡ ok (message id))
  answer_id-names (err e) id h = absurd (ground (arith, h))
  answer_id-names (ok (task x)) id h = inl (ground (arith, h))
  answer_id-names (ok (message x)) id h = inr (ground (arith, h))
  answer_id-names (ok neither) id h = absurd (ground (arith, h))

  pub deliver_a2a-IsExchanged :
      (m : OutboxMessage) (e : Target) (key : Option String) (id : String)
      → deliver_a2a p w c t m e signer key ≡ ok id
      → IsExchanged p w c t m e signer key id
  unfolding deliver_a2a
  deliver_a2a-IsExchanged m e key id h = elim (Option-cases (c.request_of e m.payload)) [
    | inl d ↦ absurd (ground (arith, h, d))
    | inr (r, d) ↦ elim (Result-cases (transport_of p w c t signer key m.target_agent_id r)) [
      | inl (x, s) ↦ absurd (ground (arith, h, d, s))
      | inr (a, s) ↦
          let (q, is_signed, sent, is_checked) = transport_facts key m.target_agent_id r a s in
          record {
            request = r;
            signed = q;
            response = a;
            absolute = ground (arith, h, d, s);
            decoded = d;
            is_signed = is_signed;
            answered = sent;
            names = answer_id-names (c.read_answer a) id (ground (arith, h, d, s));
            is_checked = is_checked;
          }
    ]
  ]
