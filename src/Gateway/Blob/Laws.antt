-- ===== src/Gateway/Blob/Laws.antt =====
-- What a partial content of a blob has shown.
use snw_agent_link.Prelude.{
  ℕ, ◌+◌, ◌-◌, ◌*◌, ◌≤◌, ◌≡◌, sym, ap, ◌∙◌, Bool, true, Option, some, String, same→eq, size, arith,
  Option-cases, inl, inr,
}
use snw_agent_link.Prelude.Int.{pos}
use snw_agent_link.Prelude.Bytes.{prefix_of, suffix_of}
use snw_agent_link.Errors.{Result, ok, Result-cases}
use snw_agent_link.Time.{minute}
use snw_agent_link.Platform.{Platform}
use snw_agent_link.Identity.{Identity}
use snw_agent_link.Model.{AttachmentGrant, Contact}
use snw_agent_link.Store.Tables.{Database}
use snw_agent_link.Store.Contacts.{get_contact}
use snw_agent_link.Store.Registrations.{get_agent_registration}
use snw_agent_link.Store.Nonces.{claim_replay_nonce}
use snw_agent_link.Store.Grants.{authorize_attachment_grant}
use snw_agent_link.Store.Grants.Laws.{IsGranted, authorize_attachment_grant-IsGranted}
use snw_agent_link.Http.{Request, Web}
use snw_agent_link.Attachment.Service as Service
use snw_agent_link.Attachment.Service.{Library, Limits, Directory, read_range}
use snw_agent_link.Attachment.Abstract.{sealed, view}
use snw_agent_link.Attachment.Invariant.{entry, Sound}
use snw_agent_link.Attachment.Ranges.{read_range-slice}
use snw_agent_link.Attachment.ByteRange.{parse_range}
use snw_agent_link.Gateway.Access.{active_contact}
use snw_agent_link.Gateway.Blob.Signed.{IsSignedBlob, checked_blob_nonce-IsSigned}
use snw_agent_link.Gateway.Blob.{Draw, checked_blob_nonce, send_range, serve_blob}

module _ (p : Platform) (w : Web) (l : Library) (k : Limits) (signer : Option Identity) (t : Draw)
    (r : Request) (owner blob : String) (files : Directory) where
  send_range_outcome :
      (grant : AttachmentGrant)
      → (send_range p w l k signer t grant r owner blob files).status ≡ 206
      → (a : ℕ) × (b : ℕ) × (m : Service.Metadata) × (content : String) × (parse_range w
            (r.headers "Range")
            grant.size
            k.chunk_size
          ≡ ok (a, b))
        × (read_range l k owner blob (pos a) (pos b) files ≡ ok (m, content))
        × (m.checksum ≡ grant.digest)
        × ((send_range p w l k signer t grant r owner blob files).body ≡ content)
  unfolding send_range
  send_range_outcome grant h =
      elim (Result-cases (parse_range w (r.headers "Range") grant.size k.chunk_size)) [
        | inl (e, q) ↦ elim (Option-cases signer) [
          | inl s ↦ absurd (ground (arith, h, q, s))
          | inr (i, s) ↦ absurd (ground (arith, h, q, s))
        ]
        | inr (range, q) ↦
            elim (Result-cases (read_range l k owner blob (pos range.0) (pos range.1) files)) [
              | inl (e, f) ↦ elim (Option-cases signer) [
                | inl s ↦ absurd (ground (arith, h, q, f, s))
                | inr (i, s) ↦ absurd (ground (arith, h, q, f, s))
              ]
              | inr (part, f) ↦ elim (Option-cases signer) [
                | inl s ↦ (
                  range.0,
                  range.1,
                  part.0,
                  part.1,
                  q,
                  f,
                  ground (arith, h, q, f, s, same→eq part.0.checksum grant.digest),
                  ground (arith, h, q, f, s),
                )
                | inr (i, s) ↦ (
                  range.0,
                  range.1,
                  part.0,
                  part.1,
                  q,
                  f,
                  ground (arith, h, q, f, s, same→eq part.0.checksum grant.digest),
                  ground (arith, h, q, f, s),
                )
              ]
            ]
      ]

  abbrev remote : String
  remote = r.headers "X-SNW-Agent-ID"

  abbrev after_claim : String → Database → Result Bool × Database
  after_claim nonce d = claim_replay_nonce owner remote nonce (t.now + 5 * minute) t.now d

  -- What the handler did before it sent a part.
  served :
      (d : Database)
      → (serve_blob p w l k signer t r owner blob files d).0.status ≡ 206
      → (nonce : String) × (grant : AttachmentGrant) × (checked_blob_nonce p w l k signer r owner
            t.now d
          ≡ some nonce)
        × ((after_claim nonce d).0 ≡ ok true)
        × (authorize_attachment_grant
              (r.query "grant")
              blob
              owner
              remote
              (r.query "context")
              (r.query "digest")
              t.now
              (after_claim nonce d).1
            ≡ ok grant)
        × ((serve_blob p w l k signer t r owner blob files d).0
            ≡ send_range p w l k signer t grant r owner blob files)
  unfolding serve_blob
  served d h = elim (Result-cases (get_agent_registration owner d)) [
    | inl (e, g) ↦ absurd (ground (arith, h, g))
    | inr (reg, g) ↦ elim (Option-cases (checked_blob_nonce p w l k signer r owner t.now d)) [
      | inl c ↦ elim (Option-cases signer) [
        | inl s ↦ absurd (ground (arith, h, g, c, s))
        | inr (i, s) ↦ absurd (ground (arith, h, g, c, s))
      ]
      | inr (nonce, c) ↦
          elim (Result-cases (
            authorize_attachment_grant (r.query "grant") blob owner remote (r.query "context")
              (r.query "digest") t.now (after_claim nonce d).1)) [
                | inl (e, a) ↦ elim (Option-cases signer) [
                  | inl s ↦ absurd (ground (arith, h, g, c, a, s))
                  | inr (i, s) ↦ absurd (ground (arith, h, g, c, a, s))
                ]
                | inr (grant, a) ↦ elim (Option-cases signer) [
                  | inl s ↦ (
                    nonce,
                    grant,
                    c,
                    ground (arith, h, g, c, a, s),
                    a,
                    ground (arith, h, g, c, a, s),
                  )
                  | inr (i, s) ↦ (
                    nonce,
                    grant,
                    c,
                    ground (arith, h, g, c, a, s),
                    a,
                    ground (arith, h, g, c, a, s),
                  )
                ]
              ]
    ]
  ]

  -- Where the metadata of the blob is true of its files, an answer of status 206 is to an active
  -- contact of the owner: the request has a signature with the contact's pinned key over its method,
  -- its target, the digest of its body and both agents, valid at the time of the answer, and claimed
  -- the nonce of that signature, which was free; there is a grant that is open
  -- and not expired, for the blob, the owner, the contact and the context and digest of the request;
  -- and the body is the bytes from the first to the last of a range of the sealed blob, whose SHA-256
  -- is the digest of the grant, no more than a chunk.
  pub serve_blob-slice :
      (d : Database)
      → Sound l blob (entry files blob)
      → (serve_blob p w l k signer t r owner blob files d).0.status ≡ 206
      → (c : Contact) × (nonce : String) × (grant : AttachmentGrant) × (content : String) × (a : ℕ)
        × (b : ℕ) × (active_contact (get_contact owner remote d) ≡ some c)
        × IsSignedBlob p w r remote owner c t.now nonce
        × ((after_claim nonce d).0 ≡ ok true)
        × IsGranted
            (r.query "grant")
            blob
            owner
            remote
            (r.query "context")
            (r.query "digest")
            t.now
            grant
            (after_claim nonce d).1
        × (view files blob ≡ sealed owner grant.digest content)
        × (l.sha256_hex content ≡ grant.digest)
        × (b - a + 1 ≤ k.chunk_size)
        × ((serve_blob p w l k signer t r owner blob files d).0.body
            ≡ prefix_of (b - a + 1) (suffix_of a content))
        × (size (serve_blob p w l k signer t r owner blob files d).0.body ≡ b - a + 1)
  serve_blob-slice d sound h =
      let (nonce, grant, q, claimed, g, eq) = served d h in
      let (c, active, signed) =
        checked_blob_nonce-IsSigned p w r owner t.now nonce l k signer d q in
      let (a, b, m, part, range, read, digest, body) =
        send_range_outcome grant (ap (λ x. x.status) (sym eq) ∙ h) in
      let (content, i, j, seen, sum, ea, eb, ij, inside, short, bytes, len) =
        read_range-slice l blob files sound k owner (pos a) (pos b) m part read in
      let is_body = ap (λ x. x.body) eq ∙ body in
      (
        c,
        nonce,
        grant,
        content,
        i,
        j,
        active,
        signed,
        claimed,
        authorize_attachment_grant-IsGranted (r.query "grant") blob owner remote (r.query "context")
            (r.query "digest") t.now (after_claim nonce d).1 grant g,
        seen ∙ ap (λ x. sealed owner x content) digest,
        sum ∙ digest,
        short,
        is_body ∙ bytes,
        ap size is_body ∙ len,
      )
