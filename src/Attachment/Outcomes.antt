-- ===== src/Attachment/Outcomes.antt =====
-- The directory that each operation leaves.
use snw_agent_link.Prelude.{
  ◌+◌, ◌≤◌, ◌≡◌, refl, none, some, String, size, same→eq, arith, inl, inr, Bool-cases, Option-cases,
  ◌⊎◌, is_empty, ◌||◌, ltb, not, ◌==◌,
}
use snw_agent_link.Prelude.Int.{ℤ, pos_part, is_negative}
use snw_agent_link.Prelude.Bytes.{write_at}
use snw_agent_link.Errors.{Result-cases}
use snw_agent_link.Exec.{◌>>=◌, ◌>>◌}
use snw_agent_link.Time.{Time}
use snw_agent_link.Attachment.Service.{
  BlobState, uploading, completed, cancelled, Metadata, Library, Directory, Limits, put_file,
  write_metadata, owned, initial, init_blob, put_chunk, complete_blob, cancel_blob,
}

blob_state-cases : (s : BlobState) → (s ≡ uploading) ⊎ ((s ≡ completed) ⊎ (s ≡ cancelled))
blob_state-cases uploading = inl refl
blob_state-cases completed = inr (inl refl)
blob_state-cases cancelled = inr (inr refl)

module _ (l : Library) (id : String) (d : Directory) where
  -- The directory after a chunk that was taken.
  abbrev pub with_chunk : Time → Metadata → String → String → Directory
  with_chunk now m part bytes = record d {
    metas =
        put_file m.blob_id
          (some (record m { received = m.received + size bytes; updated_at = now })) d.metas;
    parts = put_file id (some (write_at bytes m.received part)) d.parts;
  }

  abbrev pub with_blob : Time → Metadata → String → Directory
  with_blob now m part = record {
    metas = put_file m.blob_id (some (record m { state = completed; updated_at = now })) d.metas;
    parts = put_file id none d.parts;
    blobs = put_file id (some part) d.blobs;
  }

  abbrev pub without_part : Time → Metadata → Directory
  without_part now m = record d {
    metas = put_file m.blob_id (some (record m { state = cancelled; updated_at = now })) d.metas;
    parts = put_file id none d.parts;
  }

  pub put_chunk_outcome :
      (k : Limits) (now : Time) (owner : String) (offset : ℤ) (bytes : String)
      → ((put_chunk l k now owner id offset bytes d).1 ≡ d)
        ⊎ ((m : Metadata) × (part : String) × (d.metas id ≡ some m)
            × (d.parts id ≡ some part)
            × (m.state ≡ uploading)
            × (m.received + size bytes ≤ m.size_of_blob)
            × ((put_chunk l k now owner id offset bytes d).1 ≡ with_chunk now m part bytes))
  unfolding put_chunk ◌>>=◌ owned write_metadata
  put_chunk_outcome k now owner offset bytes = elim (Option-cases (d.metas id)) [
    | inl e ↦ inl (ground (arith, e))
    | inr (m, e) ↦ elim (Option-cases (d.parts id)) [
      | inl f ↦ inl (ground (arith, e, f))
      | inr (part, f) ↦ elim (Result-cases (put_chunk l k now owner id offset bytes d).0) [
        | inl (x, bad) ↦ inl (ground (arith, e, f))
        | inr (x, good) ↦
            inr (m, part, e, f, ground (arith, e, f), ground (arith, e, f), ground (arith, e, f))
      ]
    ]
  ]

  pub complete_blob_outcome :
      (now : Time) (owner : String)
      → ((complete_blob l now owner id d).1 ≡ d)
        ⊎ ((m : Metadata) × (part : String) × (d.metas id ≡ some m)
            × (d.parts id ≡ some part)
            × (m.state ≡ uploading)
            × (m.received ≡ m.size_of_blob)
            × (l.sha256_hex part ≡ m.checksum)
            × ((complete_blob l now owner id d).1 ≡ with_blob now m part))
  unfolding complete_blob ◌>>=◌ owned write_metadata
  complete_blob_outcome now owner = elim (Option-cases (d.metas id)) [
    | inl e ↦ inl (ground (arith, e))
    | inr (m, e) ↦ elim (Option-cases (d.parts id)) [
      | inl f ↦ inl (ground (arith, e, f))
      | inr (part, f) ↦ elim (Result-cases (complete_blob l now owner id d).0) [
        | inl (x, bad) ↦ inl (ground (arith, e, f))
        | inr (x, good) ↦ inr (
          m,
          part,
          e,
          f,
          ground (arith, e, f),
          ground (arith, e, f),
          ground (arith, e, f, same→eq (l.sha256_hex part) m.checksum),
          ground (arith, e, f),
        )
      ]
    ]
  ]

  pub cancel_blob_outcome :
      (now : Time) (owner : String)
      → ((cancel_blob l now owner id d).1 ≡ d)
        ⊎ ((m : Metadata) × (d.metas id ≡ some m)
            × ((m.state ≡ uploading) ⊎ (m.state ≡ cancelled))
            × ((cancel_blob l now owner id d).1 ≡ without_part now m))
  unfolding cancel_blob ◌>>=◌ ◌>>◌ owned write_metadata
  cancel_blob_outcome now owner = elim (Option-cases (d.metas id)) [
    | inl e ↦ inl (ground (arith, e))
    | inr (m, e) ↦ elim (Result-cases (cancel_blob l now owner id d).0) [
      | inl (x, bad) ↦ inl (ground (arith, e))
      | inr (x, good) ↦ elim (blob_state-cases m.state) [
        | inl u ↦ inr (m, e, inl u, ground (arith, e, u))
        | inr (inl u) ↦ inl (ground (arith, e, u))
        | inr (inr u) ↦ inr (m, e, inr u, ground (arith, e, u))
      ]
    ]
  ]

  -- The part of an identifier that is new is empty.
  abbrev pub with_initial : Metadata → Directory
  with_initial m = record d {
    metas = put_file id (some m) d.metas;
    parts = put_file id (some "") d.parts;
  }

  abbrev pub without_meta : Directory
  without_meta = record d { metas = put_file id none d.metas }

  pub init_blob_outcome :
      (k : Limits) (now : Time) (owner name media_type checksum : String) (n : ℤ)
      → ((init_blob l k id now owner name media_type checksum n d).1 ≡ d)
        ⊎ (((init_blob l k id now owner name media_type checksum n d).1 ≡ without_meta)
            ⊎ ((d.parts id ≡ none)
                × ((init_blob l k id now owner name media_type checksum n d).1
                    ≡ with_initial (initial l id now owner name media_type checksum (pos_part n)))))
  unfolding init_blob ◌>>=◌ ◌>>◌ write_metadata
  init_blob_outcome k now owner name media_type checksum n = elim (Option-cases (d.parts id)) [
    | inl e ↦ elim (Result-cases (init_blob l k id now owner name media_type checksum n d).0) [
      | inl (x, bad) ↦ inl (ground (arith, e))
      | inr (x, good) ↦ inr (inr (e, ground (arith, e)))
    ]
    | inr (part, e) ↦
        elim (Bool-cases
          (is_empty owner || (is_empty name || (is_negative n || ltb k.max_bytes (pos_part n))))) [
            | inl p ↦ inl (ground (arith, e, p))
            | inr p ↦ elim (Bool-cases (not (size checksum == 64))) [
              | inl q ↦ inl (ground (arith, e, p, q))
              | inr q ↦ elim (Bool-cases (not (l.is_hex checksum))) [
                | inl r ↦ inl (ground (arith, e, p, q, r))
                | inr r ↦ inr (inl (ground (arith, e, p, q, r)))
              ]
            ]
          ]
  ]
