-- ===== src/Gateway/Access/Laws.antt =====
-- What an authorized request has shown.
use snw_agent_link.Prelude.{
  ◌+◌, ◌*◌, ◌≤◌, ◌≡◌, true, false, some, String, same, same→eq, is_empty, size, arith, Option-cases,
  inl, inr,
}
use snw_agent_link.Errors.{Result, ok, err, Result-cases}
use snw_agent_link.Time.{Time, minute}
use snw_agent_link.Platform.{Platform}
use snw_agent_link.Identity.{fingerprint}
use snw_agent_link.Model.{Contact, active, contact_state_eq}
use snw_agent_link.Store.Tables.{Database}
use snw_agent_link.Store.Contacts.{get_contact}
use snw_agent_link.Store.Nonces.{claim_replay_nonce}
use snw_agent_link.Http.{Request, Web, unix_time}
use snw_agent_link.Http.Signature.{
  verify_request_for_target, parse_signature_headers, request_signature_base, content_digest,
  same_components, within, Metadata, request_components,
}
use snw_agent_link.Tailscale.{Addresses}
use snw_agent_link.Gateway.Access.{
  Router, Readings, active_contact, admits_node, key_of, limited, checked_nonce, authorized,
}

-- A request whose signature verifies.
pub record IsSigned (p : Platform) (w : Web) (r : Request) (agent target key : String) (now : Time)
    (nonce : String) : Type 0 where
  pub metadata : Metadata
  pub signature : String
  pub parsed : parse_signature_headers p w r.headers ≡ ok (metadata, signature)
  pub covers : same_components metadata.components request_components ≡ true
  pub by : r.headers "X-SNW-Agent-ID" ≡ agent
  pub to : r.headers "X-SNW-Target-Agent-ID" ≡ target
  pub not_late : now ≤ unix_time metadata.created + 5 * minute
  pub not_early : unix_time metadata.created ≤ now + 5 * minute
  pub digested : r.headers "Content-Digest" ≡ content_digest p w r.body
  pub verified : p.verify key (request_signature_base p w r metadata) signature ≡ true
  pub own_nonce : metadata.nonce ≡ nonce

verify_request_for_target-IsSigned :
    (p : Platform) (w : Web) (r : Request) (agent target key : String) (now : Time) (nonce : String)
    → is_empty target ≡ false
    → verify_request_for_target p w r agent target key now (5 * minute) ≡ ok nonce
    → IsSigned p w r agent target key now nonce
unfolding verify_request_for_target within
verify_request_for_target-IsSigned p w r agent target key now nonce t h =
    elim (Result-cases (parse_signature_headers p w r.headers)) [
      | inl (e, q) ↦ absurd (ground (arith, h, q))
      | inr (parts, q) ↦ record {
        metadata = parts.0;
        signature = parts.1;
        parsed = q;
        covers = ground (arith, h, q);
        by = ground (arith, h, q, same→eq (r.headers "X-SNW-Agent-ID") agent);
        to = ground (arith, h, q, t, same→eq (r.headers "X-SNW-Target-Agent-ID") target);
        not_late = ground (arith, h, q);
        not_early = ground (arith, h, q);
        digested =
            ground (arith, h, q, same→eq (r.headers "Content-Digest") (content_digest p w r.body));
        verified = ground (arith, h, q);
        own_nonce = ground (arith, h, q);
      }
    ]

-- A request of an active contact of the local agent, by the contact's key and from its node.
pub record IsAuthorized (p : Platform) (w : Web) (n : Addresses) (router : Router) (r : Request)
    (local : String) (t : Readings) (d : Database) : Type 0 where
  pub contact : Contact
  pub key : String
  pub nonce : String
  pub is_contact : get_contact local (r.headers "X-SNW-Agent-ID") d ≡ ok contact
  pub is_active : contact_state_eq contact.state active ≡ true
  pub not_self : same (r.headers "X-SNW-Agent-ID") local ≡ false
  pub is_key : w.unbase64_raw_url (r.headers "X-SNW-Agent-Public-Key") ≡ some key
  pub key_size : size key ≡ 32
  pub is_pinned : fingerprint p key ≡ contact.remote_agent_fingerprint
  pub from_node : admits_node n router contact (limited p w n r) ≡ true
  pub is_signed :
      IsSigned p w (limited p w n r) (r.headers "X-SNW-Agent-ID") local key t.verified_at nonce
  pub is_checked : checked_nonce p w n router r local t d ≡ some nonce
  pub is_claimed :
      (claim_replay_nonce local
        (r.headers "X-SNW-Agent-ID")
        nonce
        (t.expiry_from + 5 * minute)
        t.claimed_at
        d).0
      ≡ ok true

active_contact-IsActive :
    (o : Result Contact) (c : Contact)
    → active_contact o ≡ some c
    → (o ≡ ok c) × (contact_state_eq c.state active ≡ true)
unfolding active_contact
active_contact-IsActive (err e) c h = absurd (ground (arith, h))
active_contact-IsActive (ok x) c h = (ground (arith, h), ground (arith, h))

module _ (p : Platform) (w : Web) (n : Addresses) (router : Router) (r : Request) (local : String)
    (t : Readings) (d : Database) where
  abbrev remote : String
  remote = r.headers "X-SNW-Agent-ID"

  key_of-IsPinned :
      (c : Contact) (q : Request) (key : String)
      → key_of p w c q ≡ some key
      → (w.unbase64_raw_url (q.headers "X-SNW-Agent-Public-Key") ≡ some key)
        × (size key ≡ 32)
        × (fingerprint p key ≡ c.remote_agent_fingerprint)
  unfolding key_of
  key_of-IsPinned c q key h =
      elim (Option-cases (w.unbase64_raw_url (q.headers "X-SNW-Agent-Public-Key"))) [
        | inl e ↦ absurd (ground (arith, h, e))
        | inr (k, e) ↦ (
          ground (arith, h, e),
          ground (arith, h, e),
          ground (arith, h, e, same→eq (fingerprint p k) c.remote_agent_fingerprint),
        )
      ]

  -- The checks that lead to the nonce.
  checked_nonce_facts :
      (nonce : String)
      → checked_nonce p w n router r local t d ≡ some nonce
      → (c : Contact) × (key : String) × (same remote local ≡ false)
        × (active_contact (get_contact local remote d) ≡ some c)
        × (key_of p w c (limited p w n r) ≡ some key)
        × (admits_node n router c (limited p w n r) ≡ true)
        × (verify_request_for_target p w
              (limited p w n r)
              remote
              local
              key
              t.verified_at
              (5 * minute)
            ≡ ok nonce)
  unfolding checked_nonce
  checked_nonce_facts nonce h = elim (Option-cases (active_contact (get_contact local remote d))) [
    | inl e ↦ absurd (ground (arith, h, e))
    | inr (c, e) ↦ elim (Option-cases (key_of p w c (limited p w n r))) [
      | inl f ↦ absurd (ground (arith, h, e, f))
      | inr (key, f) ↦
          elim (Result-cases (
            verify_request_for_target p w (limited p w n r) remote local key t.verified_at
              (5 * minute))) [
                | inl (x, v) ↦ absurd (ground (arith, h, e, f, v))
                | inr (x, v) ↦ (
                  c,
                  key,
                  ground (arith, h, e, f, v),
                  e,
                  f,
                  ground (arith, h, e, f, v),
                  ground (arith, h, e, f, v),
                )
              ]
    ]
  ]

  -- A request that is authorized, where the local agent has a name, is by an active contact of that
  -- agent other than itself: the key of its header is the pinned one, its node is the contact's where
  -- the router asks for that, its signature with that key covers the method, the target, the digest
  -- of the body and both agents, was made within five minutes, and its nonce is claimed by it.
  pub authorized-IsAuthorized :
      is_empty local ≡ false
      → (authorized p w n router r local t d).0 ≡ ok true
      → IsAuthorized p w n router r local t d
  unfolding authorized
  authorized-IsAuthorized named h = elim (Option-cases (checked_nonce p w n router r local t d)) [
    | inl e ↦ absurd (ground (arith, h, e))
    | inr (nonce, e) ↦
        let (c, key, other, a, k, node, v) = checked_nonce_facts nonce e in
        let (is_contact, is_active) = active_contact-IsActive (get_contact local remote d) c a in
        let (is_key, key_size, pinned) = key_of-IsPinned c (limited p w n r) key k in
        record {
          contact = c;
          key = key;
          nonce = nonce;
          is_contact = is_contact;
          is_active = is_active;
          not_self = other;
          is_key = is_key;
          key_size = key_size;
          is_pinned = pinned;
          from_node = node;
          is_signed =
              verify_request_for_target-IsSigned p w (limited p w n r) remote local key
                t.verified_at nonce named v;
          is_checked = e;
          is_claimed = ground (arith, h, e);
        }
  ]
