-- ===== src/Attachment/Receiver.antt =====
-- internal/attachment/receiver.go: the download of a blob in ranges, into a part that becomes the
-- final file. The state is the two files of one blob and the count of bytes received; what the other
-- side answers is a parameter.
pub mod Laws
use snw_agent_link.Prelude.{
  ℕ, zero, suc, ◌+◌, ◌-◌, ◌*◌, ◌<>◌, ◌&&◌, ◌||◌, not, Bool, true, false, Option, none, some, List,
  [], ◌∷◌, String, same, is_empty, size, ltb, leb, ◌==◌, if◌then◌else◌,
}
use snw_agent_link.Prelude.Int.{ℤ, pos, negsuc, is_negative, pos_part}
use snw_agent_link.Prelude.Bytes.{prefix_of, write_at}
use snw_agent_link.Errors.{Result, ok, err, refused, invalid_offset, bad_range, bad_checksum}
use snw_agent_link.Exec.{Exec, pure, fail, query, reject_if, ◌>>=◌, ◌>>◌}
use snw_agent_link.Time.{Time, minute}
use snw_agent_link.Platform.{Platform}
use snw_agent_link.Identity.{Identity}
use snw_agent_link.Http.{Request, Response, Web, set_header}
use snw_agent_link.Attachment.Service.{Library}
use snw_agent_link.Attachment.ByteRange.{content_range, range_header}
use snw_agent_link.Attachment.Signature.{sign_blob_request, verify_blob_response}

pub record DownloadSpec : Type 0 where
  pub url : String
  pub grant_id : String
  pub blob_id : String
  pub owner_agent_id : String
  pub receiver_agent_id : String
  pub context_id : String
  pub digest : String
  pub size_of_blob : ℤ
  pub owner_public_key : String

pub record Endpoint : Type 0 where
  pub scheme : String
  pub host : String
  pub hostname : String
  pub has_user : Bool

-- url.Parse; net.LookupIP; netip.Prefix.Contains, a prefix and an address; the request that
-- http.NewRequestWithContext makes of a URL, a grant, a context and a digest.
pub record Net : Type 0 where
  pub parse_url : String → Option Endpoint
  pub lookup_ip : String → List String
  pub prefix_contains : String → String → Bool
  pub new_request : String → String → String → String → Request

-- The readings of time.Now() and the nonce of one round.
pub record Round : Type 0 where
  pub sent_at : Time
  pub nonce : String
  pub verified_at : Time

pub record Download : Type 0 where
  pub received : ℕ
  pub part : Option String
  pub final : Option String

abbrev pub part_of : Option String → String
part_of none = ""
part_of (some bytes) = bytes

module _ (net : Net) where
  all_in_tailnet : List String → Bool
  all_in_tailnet [] = true
  all_in_tailnet (a ∷ rest) =
      (net.prefix_contains "100.64.0.0/10" a || net.prefix_contains "fd7a:115c:a1e0::/48" a)
      && all_in_tailnet rest

  has_address : List String → Bool
  has_address [] = false
  has_address (a ∷ rest) = true

  -- `validateTailnetBlobHost`
  unfoldable pub valid_tailnet_blob_host : String → Bool
  unfolding all_in_tailnet has_address
  valid_tailnet_blob_host host =
      not (is_empty host)
      && (has_address (net.lookup_ip host) && all_in_tailnet (net.lookup_ip host))

  valid_endpoint : Option Endpoint → Bool
  unfolding valid_tailnet_blob_host
  valid_endpoint none = false
  valid_endpoint (some e) =
      (same e.scheme "http" || same e.scheme "https")
      && (not (is_empty e.host) && (not e.has_user && valid_tailnet_blob_host e.hostname))

  unfoldable pub validate_download_spec : Library → DownloadSpec → Identity → Bool
  unfolding valid_endpoint
  validate_download_spec l spec signer =
      same signer.agent_id spec.receiver_agent_id
      && (not (is_empty spec.grant_id)
          && (not (is_empty spec.blob_id)
              && (not (is_empty spec.owner_agent_id)
                  && (not (is_empty spec.context_id)
                      && (not (is_negative spec.size_of_blob)
                          && ((size spec.owner_public_key == 32)
                              && (same (l.base_name spec.blob_id) spec.blob_id
                                  && ((size spec.digest == 64)
                                      && (l.is_hex spec.digest
                                          && valid_endpoint (net.parse_url spec.url))))))))))

-- The last byte of the next range.
unfoldable pub range_end : ℕ → ℕ → ℕ → ℕ
range_end chunk_size n received =
    if leb n (received + chunk_size - 1) then n - 1 else received + chunk_size - 1

module _ (p : Platform) (w : Web) (l : Library) (net : Net) (fetch : Request → Result Response)
    (rounds : ℕ → Round) (chunk_size : ℕ) (spec : DownloadSpec) (signer : Identity) where
  range_request : ℕ → ℕ → Request
  unfolding set_header
  range_request a b =
      let r = net.new_request spec.url spec.grant_id spec.context_id (l.to_lower spec.digest) in
      record r { headers = set_header "Range" (range_header w a b) r.headers }

  store_range : ℕ → String → Exec Download (Unit {0})
  store_range a bytes s = (
    ok tt,
    record s {
      part = some (write_at bytes a (part_of s.part));
      received = s.received + size bytes;
    },
  )

  abbrev pub signed : ℕ → ℕ → Result Request
  unfolding range_request
  signed a b =
      let t = rounds a in
      sign_blob_request p w (range_request a b) signer spec.owner_agent_id t.sent_at t.nonce

  abbrev pub verified : ℕ → Response → Result (Unit {0})
  verified a r =
      verify_blob_response p w r spec.owner_agent_id spec.owner_public_key (rounds a).verified_at
        (5 * minute)

  -- The body of the loop: one range.
  unfoldable pub receive_range : Exec Download (Unit {0})
  unfolding range_request store_range
  receive_range s =
      let n = pos_part spec.size_of_blob in
      let a = s.received in
      let b = range_end chunk_size n a in
      (do
        request ← query (λ (s : Download). signed a b)
        response ← query (λ (s : Download). fetch request)
        query (λ (s : Download). verified a response)
        reject_if (not (response.status == 206)) refused
        reject_if (not (same (response.headers "Content-Range") (content_range w a b n))) bad_range
        reject_if (not (size (prefix_of (chunk_size + 1) response.body) == b - a + 1)) bad_range
        store_range a (prefix_of (chunk_size + 1) response.body))
        s

  -- The loop, with fuel.
  unfoldable pub receive_ranges : ℕ → Exec Download (Unit {0})
  unfolding receive_range
  receive_ranges zero = pure tt
  receive_ranges (suc fuel) = λ s. elim (ltb s.received (pos_part spec.size_of_blob)) [
    | true ↦ (receive_range >> receive_ranges fuel) s
    | false ↦ (ok tt, s)
  ]

  -- The final file that is there already.
  abbrev pub is_final : Option String → Bool
  is_final none = false
  is_final (some bytes) =
      (size bytes == pos_part spec.size_of_blob)
      && same (l.sha256_hex bytes) (l.to_lower spec.digest)

  finish : Exec Download (Unit {0})
  finish s =
      if same (l.sha256_hex (part_of s.part)) (l.to_lower spec.digest)
      then (ok tt, record s { part = none; final = some (part_of s.part) })
      else (err bad_checksum, s)

  -- `Receive`; the fuel is the size of the blob, since a round that goes on receives a byte or more.
  unfoldable pub receive : Exec Download (Unit {0})
  unfolding finish
  receive s =
      if not (validate_download_spec net l spec signer)
      then (err refused, s)
      else if is_final s.final
      then (ok tt, record s { received = pos_part spec.size_of_blob })
      else let n = pos_part spec.size_of_blob in
        let opened = record s { part = some (part_of s.part); received = size (part_of s.part) } in
        (if ltb n (size (part_of s.part))
          then (err invalid_offset, opened)
          else (receive_ranges n >> finish) opened)
