-- ===== src/Attachment/Ranges.antt =====
-- What a read of a range returns.
use snw_agent_link.Prelude.{
  ℕ, ◌+◌, ◌-◌, ◌≤◌, ◌<◌, ◌≡◌, refl, sym, some, String, size, same→eq, arith, inl, inr, Option-cases,
  ◌∙◌, ap,
}
use snw_agent_link.Prelude.Int.{ℤ, pos, negsuc}
use snw_agent_link.Prelude.Bytes.{
  prefix_of, suffix_of, padded, padded_inside, size-suffix_of, size-prefix_of,
}
use snw_agent_link.Errors.{ok}
use snw_agent_link.Attachment.Service.{
  completed, Metadata, Library, Directory, Limits, owned, read_range, range_of, read_metadata,
}
use snw_agent_link.Attachment.Abstract.{sealed, view, content}
use snw_agent_link.Attachment.Invariant.{entry, Sound, SoundAt, Held}
use mathlib.Core.Path.{subst}

module _ (l : Library) (k : Limits) (owner id : String) (start end : ℤ) (d : Directory) where
  read_range_outcome :
      (m : Metadata) (bytes : String)
      → read_range l k owner id start end d ≡ ok (m, bytes)
      → (blob : String) × (a : ℕ) × (b : ℕ) × (d.metas id ≡ some m)
        × (d.blobs id ≡ some blob)
        × (m.state ≡ completed)
        × (m.owner_id ≡ owner)
        × (range_of l k m.size_of_blob start end ≡ some (a, b))
        × (bytes ≡ padded (b - a + 1) (suffix_of a blob))
  unfolding read_range owned read_metadata
  read_range_outcome m bytes h = elim (Option-cases (d.metas id)) [
    | inl e ↦ absurd (ground (arith, e, h))
    | inr (m', e) ↦ elim (Option-cases (d.blobs id)) [
      | inl f ↦ absurd (ground (arith, e, f, h))
      | inr (blob, f) ↦ elim (Option-cases (range_of l k m'.size_of_blob start end)) [
        | inl g ↦ absurd (ground (arith, e, f, g, h))
        | inr (range, g) ↦
            let (a, b) = range in
            (
              blob,
              a,
              b,
              ground (arith, e, f, g, h),
              f,
              ground (arith, e, f, g, h),
              ground (arith, e, f, g, h, same→eq m'.owner_id owner),
              ground (arith, e, f, g, h),
              ground (arith, e, f, g, h),
            )
      ]
    ]
  ]

-- The bounds of a range that may be read.
range_of-within :
    (l : Library) (k : Limits) (n : ℕ) (start end : ℤ) (a b : ℕ)
    → range_of l k n start end ≡ some (a, b)
    → (start ≡ pos a) × (end ≡ pos b) × (a ≤ b) × (b < n) × (b - a + 1 ≤ k.chunk_size)
unfolding range_of
range_of-within l k n (negsuc i) end a b h = absurd (ground (arith, h))
range_of-within l k n (pos i) (negsuc j) a b h = absurd (ground (arith, h))
range_of-within l k n (pos i) (pos j) a b h =
    (ground (arith, h), ground (arith, h), ground (arith, h), ground (arith, h), ground (arith, h))

slice_whole :
    (a b : ℕ) (blob : String)
    → a ≤ b
    → b < size blob
    → (padded (b - a + 1) (suffix_of a blob) ≡ prefix_of (b - a + 1) (suffix_of a blob))
      × (size (prefix_of (b - a + 1) (suffix_of a blob)) ≡ b - a + 1)
slice_whole a b blob h i = (
  padded_inside (b - a + 1) (suffix_of a blob) (omega (arith, size-suffix_of a blob, h, i)),
  size-prefix_of (b - a + 1) (suffix_of a blob) (omega (arith, size-suffix_of a blob, h, i)),
)

module _ (l : Library) (id : String) (d : Directory) (t : Sound l id (entry d id)) where
  -- The bytes of a blob that is complete.
  held_blob :
      (m : Metadata) (blob : String)
      → d.metas id ≡ some m
      → d.blobs id ≡ some blob
      → m.state ≡ completed
      → (size blob ≡ m.size_of_blob) × (l.sha256_hex blob ≡ m.checksum)
  held_blob m blob e f s =
      let (bytes, g, n, c) =
        subst (λ s. Held l s m (d.parts id) (d.blobs id)) s
          (subst (λ m. SoundAt l id m (d.parts id) (d.blobs id)) e t).held in
      let bytes_are : bytes ≡ blob = ap content (sym g ∙ f) in
      (ap size (sym bytes_are) ∙ n, ap l.sha256_hex (sym bytes_are) ∙ c)

  -- Where the metadata of an identifier is true of its files, a read of a range that returns bytes is
  -- by the owner of a blob that is sealed with the checksum of its metadata, and returns its bytes
  -- from the first to the last of the range, as many as asked: no more than a chunk, none beyond the
  -- end of the blob.
  pub read_range-slice :
      (k : Limits) (owner : String) (start end : ℤ) (m : Metadata) (bytes : String)
      → read_range l k owner id start end d ≡ ok (m, bytes)
      → (blob : String) × (a : ℕ) × (b : ℕ) × (view d id ≡ sealed owner m.checksum blob)
        × (l.sha256_hex blob ≡ m.checksum)
        × (start ≡ pos a)
        × (end ≡ pos b)
        × (a ≤ b)
        × (b < size blob)
        × (b - a + 1 ≤ k.chunk_size)
        × (bytes ≡ prefix_of (b - a + 1) (suffix_of a blob))
        × (size bytes ≡ b - a + 1)
  unfolding view
  read_range-slice k owner start end m bytes h =
      let (blob, a, b, e, f, s, o, g, r) = read_range_outcome l k owner id start end d m bytes h in
      let (n, c) = held_blob m blob e f s in
      let (ea, eb, ab, bn, bk) = range_of-within l k m.size_of_blob start end a b g in
      let (whole, len) = slice_whole a b blob ab (omega (arith, bn, n)) in
      (
        blob,
        a,
        b,
        rw (e, f, s, o) refl,
        c,
        ea,
        eb,
        ab,
        omega (arith, bn, n),
        bk,
        r ∙ whole,
        ap size (r ∙ whole) ∙ len,
      )
