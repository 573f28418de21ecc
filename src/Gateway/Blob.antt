-- ===== src/Gateway/Blob.antt =====
-- internal/gateway/blob.go: a range of a blob for a contact that has a grant.
pub mod Signed
pub mod Laws
use snw_agent_link.Prelude.{
  ℕ, ◌+◌, ◌*◌, ◌<>◌, ◌&&◌, ◌||◌, not, Bool, true, false, Option, none, some, String, same, is_empty,
  size, ◌==◌, if◌then◌else◌,
}
use snw_agent_link.Prelude.Int.{ℤ, pos, negsuc}
use snw_agent_link.Errors.{Result, ok, err}
use snw_agent_link.Time.{Time, minute}
use snw_agent_link.Platform.{Platform}
use snw_agent_link.Identity.{Identity, fingerprint}
use snw_agent_link.Model.{Contact, AttachmentGrant}
use snw_agent_link.Store.Tables.{Database, Db}
use snw_agent_link.Store.Contacts.{get_contact}
use snw_agent_link.Store.Registrations.{get_agent_registration}
use snw_agent_link.Store.Nonces.{claim_replay_nonce}
use snw_agent_link.Store.Grants.{authorize_attachment_grant}
use snw_agent_link.Http.{Headers, Request, Response, Web, set_header}
use snw_agent_link.Attachment.Service as Service
use snw_agent_link.Attachment.Service.{Library, Limits, Directory, read_range}
use snw_agent_link.Attachment.ByteRange.{parse_range, content_range}
use snw_agent_link.Attachment.Signature.{verify_blob_request, sign_blob_response}
use snw_agent_link.Gateway.Access.{active_contact, key_of}

-- The clock and the nonce of the signature of the response.
pub record Draw : Type 0 where
  pub now : Time
  pub signed_at : Time
  pub nonce : String

abbrev same_size : ℤ → ℕ → Bool
same_size (pos n) m = n == m
same_size (negsuc n) m = false

module _ (p : Platform) (w : Web) (l : Library) (k : Limits) (signer : Option Identity) where
  signed_with : Draw → Headers → ℕ → String → Response
  unfolding sign_blob_response
  signed_with t headers status body = elim signer [
    | none ↦ record { status = status; headers = headers; body = body }
    | some i ↦ record {
      status = status;
      headers = sign_blob_response p w headers status body i t.signed_at t.nonce;
      body = body;
    }
  ]

  abbrev no_headers : Headers
  no_headers name = ""

  -- `writeBlobError`
  unfoldable pub write_blob_error : Draw → ℕ → String → Response
  unfolding signed_with set_header
  write_blob_error t status code =
      signed_with t (set_header "Content-Type" "application/json" no_headers) status
        ("{\"code\":\"" <> code <> "\"}")

  -- The headers of a part of a blob.
  abbrev part_headers : ℕ → ℕ → Service.Metadata → String → Headers
  unfolding set_header
  part_headers a b m content =
      set_header "Content-Disposition" ("attachment; filename=" <> w.quote m.name) (
        set_header "ETag" ("\"sha256:" <> m.checksum <> "\"") (
          set_header "Content-Length" (w.format_int (pos (size content))) (
            set_header "Content-Range" (content_range w a b m.size_of_blob) (
              set_header "Content-Type" m.media_type
                (set_header "Accept-Ranges" "bytes" no_headers)))))

  -- The nonce of a request that is signed with the key of the contact.
  unfoldable pub blob_nonce : Option Contact → Request → String → Time → Option String
  unfolding key_of verify_blob_request
  blob_nonce none r owner now = none
  blob_nonce (some c) r owner now = elim (key_of p w c r) [
    | none ↦ none
    | some key ↦
        elim (verify_blob_request p w r (r.headers "X-SNW-Agent-ID") owner key now (5 * minute)) [
          | err e ↦ none
          | ok nonce ↦ some nonce
        ]
  ]

  -- The nonce that `blob` claims.
  unfoldable pub checked_blob_nonce : Request → String → Time → Database → Option String
  unfolding blob_nonce active_contact
  checked_blob_nonce r owner now d =
      let remote = r.headers "X-SNW-Agent-ID" in
      if is_empty remote || same remote owner
      then none
      else blob_nonce (active_contact (get_contact owner remote d)) r owner now

  claim_nonce : Option String → Request → String → Time → Db Bool
  claim_nonce none r owner now d = (ok false, d)
  claim_nonce (some nonce) r owner now d =
      claim_replay_nonce owner (r.headers "X-SNW-Agent-ID") nonce (now + 5 * minute) now d

  -- A range of the blob that the grant is for.
  unfoldable pub send_range :
      Draw → AttachmentGrant → Request → String → String → Directory → Response
  unfolding write_blob_error signed_with set_header
  send_range t grant r owner blob files =
      elim (parse_range w (r.headers "Range") grant.size k.chunk_size) [
        | err e ↦ write_blob_error t 416 "BLOB_RANGE_INVALID"
        | ok (a, b) ↦ elim (read_range l k owner blob (pos a) (pos b) files) [
          | err e ↦ write_blob_error t 404 "BLOB_UNAVAILABLE"
          | ok (m, content) ↦
              if not (same m.checksum grant.digest) || not (same_size grant.size m.size_of_blob)
              then write_blob_error t 404 "BLOB_UNAVAILABLE"
              else signed_with t (part_headers a b m content) 206 content
        ]
      ]

  serve_granted : Bool → Draw → Request → String → String → Directory → Database → Response
  unfolding write_blob_error
  serve_granted claimed t r owner blob files d =
      if not claimed
      then write_blob_error t 403 "BLOB_FORBIDDEN"
      else elim (authorize_attachment_grant (r.query "grant") blob owner
          (r.headers "X-SNW-Agent-ID") (r.query "context") (r.query "digest") t.now d) [
            | err e ↦ write_blob_error t 403 "BLOB_FORBIDDEN"
            | ok grant ↦ send_range t grant r owner blob files
          ]

  is_claimed : Result Bool → Bool
  is_claimed (err e) = false
  is_claimed (ok claimed) = claimed

  -- `blob`, for the owner and the blob of the path.
  unfoldable pub serve_blob :
      Draw → Request → String → String → Directory → Database → Response × Database
  unfolding serve_granted claim_nonce is_claimed
  serve_blob t r owner blob files d = elim (get_agent_registration owner d) [
    | err e ↦ (record { status = 404; headers = no_headers; body = "404 page not found\n" }, d)
    | ok registration ↦
        let (claimed, d') = claim_nonce (checked_blob_nonce r owner t.now d) r owner t.now d in
        (serve_granted (is_claimed claimed) t r owner blob files d', d')
  ]
