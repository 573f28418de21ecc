-- ===== src/Attachment/Receiver/Laws.antt =====
-- The rounds of a download, and the file that it leaves.
use snw_agent_link.Prelude.{
  ℕ, zero, suc, ◌+◌, ◌-◌, ◌≤◌, ◌<◌, ◌≡◌, refl, sym, ap, ◌<>◌, true, false, some, String, same,
  same→eq, size, ltb, arith, Bool-cases, Option-cases, inl, inr, ◌⊎◌,
}
use snw_agent_link.Prelude.Int.{pos_part}
use snw_agent_link.Prelude.Bytes.{prefix_of, write_at, write_at_end, size-append}
use snw_agent_link.Errors.{Error, Result, ok, err, Result-cases}
use snw_agent_link.Exec.{◌>>=◌}
use snw_agent_link.Platform.{Platform}
use snw_agent_link.Identity.{Identity}
use snw_agent_link.Http.{Request, Response, Web}
use snw_agent_link.Attachment.Service.{Library}
use snw_agent_link.Attachment.ByteRange.{content_range}
use snw_agent_link.Attachment.Receiver.{
  DownloadSpec, Net, Round, Download, part_of, validate_download_spec, range_end, receive_range,
  receive_ranges, receive, signed, verified, is_final,
}

range_end-within : (k n a : ℕ) → 1 ≤ k → a < n → (a ≤ range_end k n a) × (range_end k n a < n)
unfolding range_end
range_end-within k n a h i = (ground (arith, h, i), ground (arith, h, i))

module _ (p : Platform) (w : Web) (l : Library) (net : Net) (fetch : Request → Result Response)
    (rounds : ℕ → Round) (chunk_size : ℕ) (spec : DownloadSpec) (signer : Identity) where
  abbrev total : ℕ
  total = pos_part spec.size_of_blob

  abbrev one : Download → Result (Unit {0}) × Download
  one = receive_range p w l net fetch rounds chunk_size spec signer

  abbrev looped : ℕ → Download → Result (Unit {0}) × Download
  looped = receive_ranges p w l net fetch rounds chunk_size spec signer

  abbrev end_of : Download → ℕ
  end_of s = range_end chunk_size total s.received

  -- The state after a range that was stored.
  abbrev with_range : Download → String → Download
  with_range s bytes = record s {
    part = some (write_at bytes s.received (part_of s.part));
    received = s.received + size bytes;
  }

  -- A range that is stored has been answered by a response whose signature is verified.
  pub record Stored (s : Download) (bytes : String) : Type 0 where
    pub request : Request
    pub response : Response
    pub is_signed :
        signed p w l net fetch rounds chunk_size spec signer s.received (end_of s) ≡ ok request
    pub is_fetched : fetch request ≡ ok response
    pub is_verified :
        verified p w l net fetch rounds chunk_size spec signer s.received response ≡ ok tt
    pub has_range :
        same (response.headers "Content-Range") (content_range w s.received (end_of s) total) ≡ true
    pub has_body : prefix_of (chunk_size + 1) response.body ≡ bytes
    pub has_length : size bytes ≡ end_of s - s.received + 1

  receive_range_outcome :
      (s : Download)
      → ((e : Error) × (one s ≡ (err e, s)))
        ⊎ ((bytes : String) × Stored s bytes × (one s ≡ (ok tt, with_range s bytes)))
  unfolding receive_range ◌>>=◌
  receive_range_outcome s =
      elim (Result-cases
        (signed p w l net fetch rounds chunk_size spec signer s.received (end_of s))) [
          | inl (e, h) ↦ inl (e, ground (arith, h))
          | inr (q, h) ↦ elim (Result-cases (fetch q)) [
            | inl (e, i) ↦ inl (e, ground (arith, h, i))
            | inr (r, i) ↦
                elim (Result-cases
                  (verified p w l net fetch rounds chunk_size spec signer s.received r)) [
                    | inl (e, j) ↦ inl (e, ground (arith, h, i, j))
                    | inr (u, j) ↦ elim (Result-cases (one s).0) [
                      | inl (e, bad) ↦ inl (e, ground (arith, h, i, j, bad))
                      | inr (v, good) ↦ inr (
                        prefix_of (chunk_size + 1) r.body,
                        record {
                          request = q;
                          response = r;
                          is_signed = h;
                          is_fetched = i;
                          is_verified = j;
                          has_range = ground (arith, h, i, j, good);
                          has_body = refl;
                          has_length = ground (arith, h, i, j, good);
                        },
                        ground (arith, h, i, j, good),
                      )
                    ]
                  ]
          ]
        ]

  -- What the loop means, without fuel.
  pub data Rounds : Download → Result (Unit {0}) → Download → Type 0 where
    complete : (s : Download) → total ≤ s.received → Rounds s (ok tt) s
    failed :
        (s : Download) (e : Error) → s.received < total → one s ≡ (err e, s) → Rounds s (err e) s
    further :
        (s : Download) (bytes : String) {r : Result (Unit {0})} {s' : Download}
        → s.received < total
        → Stored s bytes
        → Rounds (with_range s bytes) r s'
        → Rounds s r s'

  -- With a positive chunk size, fuel that covers the bytes that are missing is enough: the loop ends
  -- as its rounds say, each of which stores one or more bytes of a verified response, or is the one
  -- that fails.
  pub receive_ranges-Rounds :
      1 ≤ chunk_size
      → (fuel : ℕ) (s : Download) → total ≤ s.received + fuel
      → Rounds s (looped fuel s).0 (looped fuel s).1
  unfolding receive_ranges ◌>>=◌
  receive_ranges-Rounds k zero s h = complete s (omega (arith, h))
  receive_ranges-Rounds k (suc fuel) s h = elim (Bool-cases (ltb s.received total)) [
    | inl b ↦ elim (receive_range_outcome s) [
      | inl (e, r) ↦
          let stops : looped (suc fuel) s ≡ (err e, s) = ground (arith, b, r) in
          rw stops (failed s e (ground (arith, b)) r)
      | inr (bytes, st, r) ↦
          let goes_on : looped (suc fuel) s ≡ looped fuel (with_range s bytes) =
            ground (arith, b, r) in
          rw goes_on (
            further s bytes (ground (arith, b)) st (
              receive_ranges-Rounds k fuel (with_range s bytes)
                (ground (arith, h, b, st.has_length))))
    ]
    | inr b ↦
        let ends : looped (suc fuel) s ≡ (ok tt, s) = ground (arith, b) in
        rw ends (complete s (ground (arith, b)))
  ]

  -- The part has the bytes that are counted.
  pub record Counted (s : Download) : Type 0 where
    pub bytes : String
    pub is_part : s.part ≡ some bytes
    pub counted : size bytes ≡ s.received
    pub bounded : s.received ≤ total

  Counted-with_range :
      (s : Download) (bytes : String)
      → 1 ≤ chunk_size
      → s.received < total
      → Stored s bytes
      → Counted s
      → Counted (with_range s bytes)
  Counted-with_range s bytes k h st c = record {
    bytes = c.bytes <> bytes;
    is_part = rw (c.is_part, sym c.counted) (ap some (write_at_end bytes c.bytes));
    counted = omega (arith, size-append c.bytes bytes, c.counted);
    bounded = ground (arith, range_end-within chunk_size total s.received k h, st.has_length);
  }

  Rounds-Counted :
      {s : Download} {r : Result (Unit {0})} {s' : Download}
      → 1 ≤ chunk_size
      → Rounds s r s'
      → Counted s
      → Counted s'
  Rounds-Counted k (complete s h) c = c
  Rounds-Counted k (failed s e h r) c = c
  Rounds-Counted k (further s bytes h st rest) c =
      Rounds-Counted k rest (Counted-with_range s bytes k h st c)

  Rounds-complete :
      {s : Download} {r : Result (Unit {0})} {s' : Download}
      → Rounds s r s'
      → r ≡ ok tt
      → total ≤ s'.received
  Rounds-complete (complete s h) e = h
  Rounds-complete (failed s e h r) q = absurd (ground (arith, q))
  Rounds-complete (further s bytes h st rest) e = Rounds-complete rest e

  -- A blob that the specification describes.
  pub record IsBlob (bytes : String) : Type 0 where
    pub has_size : size bytes ≡ total
    pub has_digest : l.sha256_hex bytes ≡ l.to_lower spec.digest

  abbrev received : Download → Result (Unit {0}) × Download
  received = receive p w l net fetch rounds chunk_size spec signer

  abbrev opened : Download → Download
  opened s = record s { part = some (part_of s.part); received = size (part_of s.part) }

  Counted-opened : (s : Download) → size (part_of s.part) ≤ total → Counted (opened s)
  Counted-opened s h = record {
    bytes = part_of s.part;
    is_part = refl;
    counted = refl;
    bounded = h;
  }

  final_cases :
      (s : Download)
      → validate_download_spec net l spec signer ≡ true
      → is_final p w l net fetch rounds chunk_size spec signer s.final ≡ true
      → (bytes : String) × (s.final ≡ some bytes)
        × IsBlob bytes
        × ((received s).1.final ≡ some bytes)
  unfolding receive
  final_cases s v f = elim (Option-cases s.final) [
    | inl e ↦ absurd (ground (arith, f, e))
    | inr (bytes, e) ↦ (
      bytes,
      e,
      record {
        has_size = ground (arith, f, e);
        has_digest = ground (arith, f, e, same→eq (l.sha256_hex bytes) (l.to_lower spec.digest));
      },
      ground (arith, v, f, e),
    )
  ]

  downloaded :
      (s : Download)
      → validate_download_spec net l spec signer ≡ true
      → is_final p w l net fetch rounds chunk_size spec signer s.final ≡ false
      → (received s).0 ≡ ok tt
      → (size (part_of s.part) ≤ total)
        × ((looped total (opened s)).0 ≡ ok tt)
        × (l.sha256_hex (part_of (looped total (opened s)).1.part) ≡ l.to_lower spec.digest)
        × ((received s).1.final ≡ some (part_of (looped total (opened s)).1.part))
  unfolding receive ◌>>=◌
  downloaded s v f h =
      let last = (looped total (opened s)).1 in
      (
        ground (arith, v, f, h),
        ground (arith, v, f, h),
        ground
            (arith, v, f, h, same→eq (l.sha256_hex (part_of last.part)) (l.to_lower spec.digest)),
        ground (arith, v, f, h),
      )

  receive_cases :
      (s : Download)
      → (received s).0 ≡ ok tt
      → ((bytes : String) × (s.final ≡ some bytes)
          × IsBlob bytes
          × ((received s).1.final ≡ some bytes))
        ⊎ ((size (part_of s.part) ≤ total)
            × ((looped total (opened s)).0 ≡ ok tt)
            × (l.sha256_hex (part_of (looped total (opened s)).1.part) ≡ l.to_lower spec.digest)
            × ((received s).1.final ≡ some (part_of (looped total (opened s)).1.part)))
  unfolding receive ◌>>=◌
  receive_cases s h = elim (Bool-cases (validate_download_spec net l spec signer)) [
    | inr v ↦ absurd (ground (arith, h, v))
    | inl v ↦ elim (Bool-cases (is_final p w l net fetch rounds chunk_size spec signer s.final)) [
      | inl f ↦ inl (final_cases s v f)
      | inr f ↦ inr (downloaded s v f h)
    ]
  ]

  -- The final file after a download that succeeds is the blob of the specification.
  pub receive-IsBlob :
      1 ≤ chunk_size
      → (s : Download) → (received s).0 ≡ ok tt
      → (bytes : String) × ((received s).1.final ≡ some bytes) × IsBlob bytes
  receive-IsBlob k s h = elim (receive_cases s h) [
    | inl (bytes, f, b, e) ↦ (bytes, e, b)
    | inr (n, q, c, e) ↦
        let rounds_of = receive_ranges-Rounds k total (opened s) (omega arith) in
        let counted = Rounds-Counted k rounds_of (Counted-opened s n) in
        (
          part_of (looped total (opened s)).1.part,
          e,
          record {
            has_size = omega (
              arith,
              ap (λ o. size (part_of o)) counted.is_part,
              counted.counted,
              counted.bounded,
              Rounds-complete rounds_of q,
            );
            has_digest = c;
          },
        )
  ]
