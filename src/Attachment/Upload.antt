-- ===== src/Attachment/Upload.antt =====
-- An upload: chunks one after the other, then the completion.
use snw_agent_link.Prelude.{
  ℕ, ◌+◌, ◌≤◌, ◌≡◌, refl, sym, false, some, List, [], ◌∷◌, String, ◌<>◌, size, same, is_empty, not,
  ◌||◌, same_refl, arith, ◌∙◌, ap, All,
}
use text.Mathlib.TextLemmas.{append_assoc, append-nil}
use snw_agent_link.Prelude.Int.{pos}
use snw_agent_link.Prelude.Bytes.{write_at_end, size-append}
use snw_agent_link.Errors.{ok}
use snw_agent_link.Exec.{◌>>=◌, ◌>>◌}
use snw_agent_link.Time.{Time}
use snw_agent_link.Attachment.Service.{
  uploading, completed, Metadata, Library, Directory, Limits, Files, put_file, write_metadata,
  read_metadata, owned, put_chunk, file_digest, complete_blob,
}
use snw_agent_link.Attachment.Abstract.{sealed, view}
use snw_agent_link.Attachment.Outcomes.{with_chunk, with_blob}

-- The bytes of the chunks in their order.
abbrev pub joined : List String → String
joined [] = ""
joined (c ∷ cs) = c <> joined cs

-- A client that sends the chunks at their offsets from `n`, and completes the blob.
unfoldable pub upload : Library → Limits → Time → String → String → ℕ → List String → Files Metadata
upload l k now owner id n [] = complete_blob l now owner id
upload l k now owner id n (c ∷ cs) =
    put_chunk l k now owner id (pos n) c >> upload l k now owner id (n + size c) cs

-- A blob that is being uploaded, with the part that arrived.
pub record Uploading (l : Library) (owner id : String) (d : Directory) (m : Metadata)
    (part : String) : Type 0 where
  pub has_name : (is_empty id || not (same (l.base_name id) id)) ≡ false
  pub meta : d.metas id ≡ some m
  pub arrived : d.parts id ≡ some part
  pub own : m.owner_id ≡ owner
  pub own_id : m.blob_id ≡ id
  pub state : m.state ≡ uploading
  pub counted : size part ≡ m.received

module _ (l : Library) (k : Limits) (now : Time) (owner id : String) where
  -- A chunk at the end of the part, within the limits, is taken.
  put_chunk_takes :
      (d : Directory) (m : Metadata) (part c : String)
      → Uploading l owner id d m part
      → size c ≤ k.chunk_size
      → m.received + size c ≤ m.size_of_blob
      → put_chunk l k now owner id (pos m.received) c d ≡ (
        ok (record m { received = m.received + size c; updated_at = now }),
        with_chunk l id d now m part c,
      )
  unfolding put_chunk ◌>>=◌ owned read_metadata write_metadata
  put_chunk_takes d m part c u h i =
      ground (arith, u.has_name, u.meta, u.arrived, u.own, u.state, same_refl owner, h, i)

  complete_blob_seals :
      (d : Directory) (m : Metadata) (part : String)
      → Uploading l owner id d m part
      → m.received ≡ m.size_of_blob
      → l.sha256_hex part ≡ m.checksum
      → complete_blob l now owner id d
        ≡ (ok (record m { state = completed; updated_at = now }), with_blob l id d now m part)
  unfolding complete_blob ◌>>=◌ owned read_metadata write_metadata file_digest
  complete_blob_seals d m part u h i = ground (
    arith,
    u.has_name,
    u.meta,
    u.arrived,
    u.own,
    u.state,
    same_refl owner,
    same_refl m.checksum,
    h,
    i,
  )

  -- The part after a chunk that was taken.
  Uploading-with_chunk :
      (d : Directory) (m : Metadata) (part c : String)
      → Uploading l owner id d m part
      → Uploading l owner id
          (with_chunk l id d now m part c)
          (record m { received = m.received + size c; updated_at = now })
          (part <> c)
  unfolding put_file
  Uploading-with_chunk d m part c u = record {
    has_name = u.has_name;
    meta = rw (u.own_id, same_refl id) refl;
    arrived = rw (same_refl id, sym u.counted) (ap some (write_at_end c part));
    own = u.own;
    own_id = u.own_id;
    state = u.state;
    counted = omega (arith, size-append part c, u.counted);
  }

  -- An upload whose chunks are no larger than the limit, and have the announced size and checksum in
  -- the end, is completed: the blob is sealed with the bytes of the chunks in their order.
  pub upload_completes :
      (cs : List String) (d : Directory) (m : Metadata) (part : String)
      → Uploading l owner id d m part
      → All (λ c. size c ≤ k.chunk_size) cs
      → m.received + size (joined cs) ≡ m.size_of_blob
      → l.sha256_hex (part <> joined cs) ≡ m.checksum
      → (m' : Metadata) × ((upload l k now owner id m.received cs d).0 ≡ ok m')
        × (m'.state ≡ completed)
        × (m'.checksum ≡ m.checksum)
        × (view (upload l k now owner id m.received cs d).1 id
            ≡ sealed owner m.checksum (part <> joined cs))
  unfolding upload view ◌>>=◌ put_file size
  upload_completes [] d m part u a n h =
      let r =
        complete_blob_seals d m part u (omega (arith, n))
          (ap l.sha256_hex (sym (append-nil part)) ∙ h) in
      (
        record m { state = completed; updated_at = now },
        ap (λ r. r.0) r,
        refl,
        refl,
        rw (r, u.own_id, same_refl id, append-nil part, u.own) refl,
      )
  upload_completes (c ∷ cs) d m part u a n h =
      let r = put_chunk_takes d m part c u a.0 (omega (arith, size-append c (joined cs), n)) in
      let assoc = append_assoc part c (joined cs) in
      rw (r, sym assoc)
        (upload_completes cs (with_chunk l id d now m part c)
          (record m { received = m.received + size c; updated_at = now }) (part <> c)
          (Uploading-with_chunk d m part c u) a.1 (omega (arith, size-append c (joined cs), n))
          (ap l.sha256_hex assoc ∙ h))
