-- ===== src/Http/EventStream.antt =====
-- internal/transport/sse.go: the events of a stream are signed one by one, each over the hash of the
-- one before it.
use snw_agent_link.Prelude.{
  ◌≡◌, ap, ◌∙◌, ◌&&◌, ◌||◌, not, Bool, true, Option, none, some, List, [], ◌∷◌, String, ◌<>◌, same,
  same_refl, is_empty, size, ◌==◌, if◌then◌else◌, arith, inl, inr,
}
use snw_agent_link.Prelude.Split.{is_free}
use snw_agent_link.Errors.{Result, ok, err, sse_cursor, sse_hash_chain, sse_signature, Result-cases}
use snw_agent_link.Platform.{Platform}
use snw_agent_link.Identity.{Identity}
use snw_agent_link.Http.{Web}

pub record SignedSseEvent : Type 0 where
  pub cursor : String
  pub hash : String
  pub signature : String

abbrev pub sse_signature_domain : String
sse_signature_domain = "snw-agent-link-sse-v1\0"

-- `validateSSECursor`
unfoldable pub valid_sse_cursor : String → Bool
unfolding is_free
valid_sse_cursor cursor = not (is_empty cursor) && (is_free "\r" cursor && is_free "\n" cursor)

-- The hash of the event before: none, or 32 bytes.
unfoldable pub valid_previous_hash : String → Bool
valid_previous_hash previous = is_empty previous || size previous == 32

unfoldable pub sse_signing_bytes : String → String → String → String
sse_signing_bytes event cursor hash =
    sse_signature_domain <> cursor <> "\0" <> hash <> "\0" <> event

module _ (p : Platform) (w : Web) where
  unfoldable pub sse_event_hash : String → String → String → String
  sse_event_hash previous event cursor =
      p.sha256 (sse_signature_domain <> previous <> "\0" <> cursor <> "\0" <> event)

  -- `Sign` of SSEEventSigner: the signed event, and the hash that the signer keeps.
  unfoldable pub sign_sse_event :
      Identity → String → String → String → Result (SignedSseEvent × String)
  sign_sse_event signer previous event cursor =
      if not (valid_sse_cursor cursor)
      then err sse_cursor
      else let hash = sse_event_hash previous event cursor in
        ok (
          record {
            cursor = cursor;
            hash = p.base64_raw_url hash;
            signature =
                p.base64_raw_url (p.sign signer.private_key (sse_signing_bytes event cursor hash));
          },
          hash,
        )

  abbrev pub checked_signature : String → String → String → String → Option String → Result String
  checked_signature event cursor hash key none = err sse_signature
  checked_signature event cursor hash key (some signature) =
      if not (size signature == 64)
        || not (p.verify key (sse_signing_bytes event cursor hash) signature)
      then err sse_signature
      else ok hash

  abbrev pub checked_hash :
      String → SignedSseEvent → String → String → Option String → Result String
  checked_hash event signed expected key none = err sse_hash_chain
  checked_hash event signed expected key (some hash) =
      if not (size hash == 32) || not (same hash expected)
      then err sse_hash_chain
      else checked_signature event signed.cursor hash key (w.unbase64_raw_url signed.signature)

  unfoldable pub verify_sse_event : String → SignedSseEvent → String → String → Result String
  verify_sse_event event signed previous key =
      if not (size key == 32)
      then err sse_signature
      else if not (valid_previous_hash previous)
      then err sse_hash_chain
      else if not (valid_sse_cursor signed.cursor)
      then err sse_cursor
      else checked_hash event signed (sse_event_hash previous event signed.cursor) key
          (w.unbase64_raw_url signed.hash)

  -- The events of a stream with their cursors, signed in their order.
  unfoldable pub sign_events :
      Identity → String → List (String × String) → Result (List (String × SignedSseEvent) × String)
  sign_events signer previous [] = ok ([], previous)
  sign_events signer previous ((event, cursor) ∷ rest) =
      elim (sign_sse_event signer previous event cursor) [
        | err e ↦ err e
        | ok (signed, hash) ↦ elim (sign_events signer hash rest) [
          | err e ↦ err e
          | ok (more, last) ↦ ok ((event, signed) ∷ more, last)
        ]
      ]

  -- The reader of a stream, who keeps the hash of the event before.
  unfoldable pub verify_events : String → String → List (String × SignedSseEvent) → Result String
  verify_events key previous [] = ok previous
  verify_events key previous ((event, signed) ∷ rest) =
      elim (verify_sse_event event signed previous key) [
        | err e ↦ err e
        | ok hash ↦ verify_events key hash rest
      ]

module _ (p : Platform) (w : Web) (signer : Identity)
    (decodes : (s : String) → w.unbase64_raw_url (p.base64_raw_url s) ≡ some s)
    (hashes : (s : String) → size (p.sha256 s) ≡ 32)
    (long : (s : String) → size (p.sign signer.private_key s) ≡ 64)
    (verifies : (s : String) → p.verify signer.public_key s (p.sign signer.private_key s) ≡ true)
    (key_size : size signer.public_key ≡ 32) where
  own_size : (previous event cursor : String) → size (sse_event_hash p w previous event cursor) ≡ 32
  unfolding sse_event_hash
  own_size previous event cursor =
      hashes (sse_signature_domain <> previous <> "\0" <> cursor <> "\0" <> event)

  own_valid :
      (previous event cursor : String)
      → valid_previous_hash (sse_event_hash p w previous event cursor) ≡ true
  unfolding valid_previous_hash
  own_valid previous event cursor = ground (arith, own_size previous event cursor)

  verify-sign_sse_event :
      (previous event cursor : String) (signed : SignedSseEvent) (hash : String)
      → valid_previous_hash previous ≡ true
      → sign_sse_event p w signer previous event cursor ≡ ok (signed, hash)
      → (verify_sse_event p w event signed previous signer.public_key ≡ ok hash)
        × (valid_previous_hash hash ≡ true)
  unfolding sign_sse_event verify_sse_event
  verify-sign_sse_event previous event cursor signed hash v h =
      let own = sse_event_hash p w previous event cursor in
      let bytes = sse_signing_bytes event cursor own in
      let signature = p.sign signer.private_key bytes in
      let kept : hash ≡ own = ground (arith, h) in
      (
        ground (
          arith,
          h,
          v,
          key_size,
          decodes own,
          own_size previous event cursor,
          same_refl own,
          decodes signature,
          long bytes,
          verifies bytes,
        ),
        ap valid_previous_hash kept ∙ own_valid previous event cursor,
      )

  -- A stream of events that is signed, with its events in their order, is accepted by the reader who
  -- starts from the same hash, and leaves the reader with the hash that the signer keeps; where what is
  -- encoded is decoded, a hash has 32 bytes, a signature by the private key has 64 and verifies with
  -- the public key, and that has 32.
  pub verify_events-sign_events :
      (events : List (String × String)) (previous last : String)
      (signed : List (String × SignedSseEvent))
      → valid_previous_hash previous ≡ true
      → sign_events p w signer previous events ≡ ok (signed, last)
      → verify_events p w signer.public_key previous signed ≡ ok last
  unfolding sign_events verify_events
  verify_events-sign_events [] previous last signed v h = ground (arith, h)
  verify_events-sign_events ((event, cursor) ∷ rest) previous last signed v h =
      elim (Result-cases (sign_sse_event p w signer previous event cursor)) [
        | inl (e, q) ↦ absurd (ground (arith, h, q))
        | inr (first, q) ↦
            let (now_ok, next_valid) =
              verify-sign_sse_event previous event cursor first.0 first.1 v q in
            elim (Result-cases (sign_events p w signer first.1 rest)) [
              | inl (e, r) ↦ absurd (ground (arith, h, q, r))
              | inr (more, r) ↦
                  let later = verify_events-sign_events rest first.1 more.1 more.0 next_valid r in
                  ground (arith, h, q, r, now_ok, later)
            ]
      ]
