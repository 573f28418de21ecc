-- ===== src/Gateway/Blob/Signed.antt =====
-- What the nonce of a request for a blob has shown.
use snw_agent_link.Prelude.{
  ◌≡◌, refl, ◌*◌, true, Option, some, String, same→eq, size, arith, Option-cases, inl, inr,
}
use snw_agent_link.Errors.{ok, Result-cases}
use snw_agent_link.Time.{Time, minute}
use snw_agent_link.Platform.{Platform}
use snw_agent_link.Identity.{Identity, fingerprint}
use snw_agent_link.Model.{Contact}
use snw_agent_link.Store.Tables.{Database}
use snw_agent_link.Store.Contacts.{get_contact}
use snw_agent_link.Http.{Request, Web}
use snw_agent_link.Http.Signature.{same_components, content_digest}
use snw_agent_link.Attachment.Service.{Library, Limits}
use snw_agent_link.Attachment.Signature.{
  BlobMetadata, blob_request_components, blob_request_signature_base, parse_blob_signature_headers,
  valid_blob_signature_time, verify_blob_request,
}
use snw_agent_link.Gateway.Access.{active_contact, key_of}
use snw_agent_link.Gateway.Blob.{checked_blob_nonce, blob_nonce}

-- The request has a signature with the contact's pinned key, over its method, its target, the digest
-- of its body and both agents, that is valid now, and this is its nonce.
pub record IsSignedBlob (p : Platform) (w : Web) (r : Request) (agent owner : String) (c : Contact)
    (now : Time) (nonce : String) : Type 0 where
  pub key : String
  pub is_key : w.unbase64_raw_url (r.headers "X-SNW-Agent-Public-Key") ≡ some key
  pub key_size : size key ≡ 32
  pub is_pinned : fingerprint p key ≡ c.remote_agent_fingerprint
  pub metadata : BlobMetadata
  pub signature : String
  pub parsed : parse_blob_signature_headers p w r.headers ≡ ok (metadata, signature)
  pub covers : same_components metadata.components blob_request_components ≡ true
  pub by : r.headers "X-SNW-Agent-ID" ≡ agent
  pub to : r.headers "X-SNW-Target-Agent-ID" ≡ owner
  pub is_timely : valid_blob_signature_time metadata now (5 * minute) ≡ true
  pub digested : r.headers "Content-Digest" ≡ content_digest p w r.body
  pub verified : p.verify key (blob_request_signature_base p w r metadata) signature ≡ true
  pub own_nonce : metadata.nonce ≡ nonce

module _ (p : Platform) (w : Web) (r : Request) (owner : String) (now : Time) (nonce : String) where
  abbrev remote : String
  remote = r.headers "X-SNW-Agent-ID"

  verified-IsSigned :
      (c : Contact) (key : String)
      → w.unbase64_raw_url (r.headers "X-SNW-Agent-Public-Key") ≡ some key
      → size key ≡ 32
      → fingerprint p key ≡ c.remote_agent_fingerprint
      → verify_blob_request p w r remote owner key now (5 * minute) ≡ ok nonce
      → IsSignedBlob p w r remote owner c now nonce
  unfolding verify_blob_request
  verified-IsSigned c key a b f h =
      elim (Result-cases (parse_blob_signature_headers p w r.headers)) [
        | inl (e, q) ↦ absurd (ground (arith, h, q))
        | inr (parts, q) ↦ record {
          key = key;
          is_key = a;
          key_size = b;
          is_pinned = f;
          metadata = parts.0;
          signature = parts.1;
          parsed = q;
          covers = ground (arith, h, q);
          by = refl;
          to = ground (arith, h, q, same→eq (r.headers "X-SNW-Target-Agent-ID") owner);
          is_timely = ground (arith, h, q);
          digested =
              ground
                (arith, h, q, same→eq (r.headers "Content-Digest") (content_digest p w r.body));
          verified = ground (arith, h, q);
          own_nonce = ground (arith, h, q);
        }
      ]

  blob_nonce-IsSigned :
      (l : Library) (k : Limits) (signer : Option Identity) (c : Contact)
      → blob_nonce p w l k signer (some c) r owner now ≡ some nonce
      → IsSignedBlob p w r remote owner c now nonce
  unfolding blob_nonce key_of
  blob_nonce-IsSigned l k signer c h =
      elim (Option-cases (w.unbase64_raw_url (r.headers "X-SNW-Agent-Public-Key"))) [
        | inl e ↦ absurd (ground (arith, h, e))
        | inr (key, e) ↦
            elim (Result-cases (verify_blob_request p w r remote owner key now (5 * minute))) [
              | inl (x, v) ↦ absurd (ground (arith, h, e, v))
              | inr (x, v) ↦
                  verified-IsSigned c key e (ground (arith, h, e, v))
                    (ground
                      (arith, h, e, v, same→eq (fingerprint p key) c.remote_agent_fingerprint))
                    (ground (arith, h, e, v))
            ]
      ]

  -- The nonce is that of a signature of an active contact.
  pub checked_blob_nonce-IsSigned :
      (l : Library) (k : Limits) (signer : Option Identity) (d : Database)
      → checked_blob_nonce p w l k signer r owner now d ≡ some nonce
      → (c : Contact) × (active_contact (get_contact owner remote d) ≡ some c)
        × IsSignedBlob p w r remote owner c now nonce
  unfolding checked_blob_nonce blob_nonce
  checked_blob_nonce-IsSigned l k signer d h =
      elim (Option-cases (active_contact (get_contact owner remote d))) [
        | inl e ↦ absurd (ground (arith, h, e))
        | inr (c, e) ↦ (c, e, blob_nonce-IsSigned l k signer c (ground (arith, h, e)))
      ]
