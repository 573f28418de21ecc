-- ===== src/Attachment/Operations.antt =====
-- The operations of the service as one type, and what they keep.
use snw_agent_link.Prelude.{
  ℕ, ◌⊎◌, ◌+◌, ◌≤◌, size, ◌≡◌, sym, none, some, String, same, same→eq, inl, inr, Bool-cases,
  same_refl,
}
use snw_agent_link.Prelude.Int.{ℤ, pos_part}
use snw_agent_link.Time.{Time}
use snw_agent_link.Attachment.Service.{
  uploading, cancelled, Library, Directory, Limits, put_file, Metadata, initial, init_blob,
  put_chunk, complete_blob, cancel_blob, collect, is_stale, kept_for, read_metadata,
}
use snw_agent_link.Attachment.Invariant.{
  entry, Sound, SoundAt, Change, unchanged, created, taken, finished, stopped, removed,
  Sound-Change, Step-Change,
}
use snw_agent_link.Attachment.Abstract.{Step, view}
use snw_agent_link.Attachment.Outcomes.{
  put_chunk_outcome, complete_blob_outcome, cancel_blob_outcome, init_blob_outcome, with_chunk,
  with_blob, without_part, with_initial, without_meta,
}
use mathlib.Core.Path.{subst}

pub data Operation : Type 0 where
  -- The identifier is uuid.NewString's.
  init : String → Time → String → String → String → String → ℤ → Operation
  put : Time → String → String → ℤ → String → Operation
  complete : Time → String → String → Operation
  cancel : Time → String → String → Operation
  gc : ℤ → Time → Operation

-- The identifier of a blob that begins is one that no metadata has.
abbrev pub IsFresh : Operation → Directory → Type 0
IsFresh (init id now owner name media_type checksum n) d = d.metas id ≡ none
IsFresh _ d = Unit

unfoldable pub run : Library → Limits → Operation → Directory → Directory
run l k (init id now owner name media_type checksum n) d =
    (init_blob l k id now owner name media_type checksum n d).1
run l k (put now owner id offset bytes) d = (put_chunk l k now owner id offset bytes d).1
run l k (complete now owner id) d = (complete_blob l now owner id d).1
run l k (cancel now owner id) d = (cancel_blob l now owner id d).1
run l k (gc retention now) d = collect l retention now d

module _ (l : Library) (id other : String) (d : Directory) where
  with_chunk_changes :
      (m : Metadata) (now : Time) (part bytes : String)
      → m.blob_id ≡ id
      → d.metas id ≡ some m
      → d.parts id ≡ some part
      → m.state ≡ uploading
      → m.received + size bytes ≤ m.size_of_blob
      → Change l other (entry d other) (entry (with_chunk l id d now m part bytes) other)
  unfolding put_file
  with_chunk_changes m now part bytes o e f s b = elim (Bool-cases (same other id)) [
    | inl p ↦
        rw (same→eq other id p, e, f, sym o, same_refl m.blob_id)
          (taken m now part bytes (d.blobs m.blob_id) s b)
    | inr p ↦ rw (o, p) unchanged
  ]

  with_blob_changes :
      (m : Metadata) (now : Time) (part : String)
      → m.blob_id ≡ id
      → d.metas id ≡ some m
      → d.parts id ≡ some part
      → m.state ≡ uploading
      → m.received ≡ m.size_of_blob
      → l.sha256_hex part ≡ m.checksum
      → Change l other (entry d other) (entry (with_blob l id d now m part) other)
  unfolding put_file
  with_blob_changes m now part o e f s n c = elim (Bool-cases (same other id)) [
    | inl p ↦
        rw (same→eq other id p, e, f, sym o, same_refl m.blob_id)
          (finished m now part (d.blobs m.blob_id) s n c)
    | inr p ↦ rw (o, p) unchanged
  ]

  without_part_changes :
      (m : Metadata) (now : Time)
      → m.blob_id ≡ id
      → d.metas id ≡ some m
      → (m.state ≡ uploading) ⊎ (m.state ≡ cancelled)
      → Change l other (entry d other) (entry (without_part l id d now m) other)
  unfolding put_file
  without_part_changes m now o e s = elim (Bool-cases (same other id)) [
    | inl p ↦
        rw (same→eq other id p, e, sym o, same_refl m.blob_id)
          (stopped m now (d.parts m.blob_id) (d.blobs m.blob_id) s)
    | inr p ↦ rw (o, p) unchanged
  ]

  with_initial_changes :
      (now : Time) (owner name media_type checksum : String) (n : ℕ)
      → d.metas id ≡ none
      → d.parts id ≡ none
      → Change l other
          (entry d other)
          (entry (with_initial l id d (initial l id now owner name media_type checksum n)) other)
  unfolding put_file
  with_initial_changes now owner name media_type checksum n e f =
      elim (Bool-cases (same other id)) [
        | inl p ↦
            rw (same→eq other id p, e, f, same_refl id)
              (created now owner name media_type checksum n (d.blobs id))
        | inr p ↦ rw p unchanged
      ]

  without_meta_changes :
      d.metas id ≡ none → Change l other (entry d other) (entry (without_meta l id d) other)
  unfolding put_file
  without_meta_changes e = elim (Bool-cases (same other id)) [
    | inl p ↦ rw (same→eq other id p, e, same_refl id) unchanged
    | inr p ↦ rw p unchanged
  ]

-- The blob's own identifier.
module _ (l : Library) (id : String) (d : Directory) (t : Sound l id (entry d id)) where
  own_id_of : (m : Metadata) → d.metas id ≡ some m → m.blob_id ≡ id
  own_id_of m e = (subst (λ m. SoundAt l id m (d.parts id) (d.blobs id)) e t).own_id

  put_changes :
      (k : Limits) (now : Time) (owner : String) (offset : ℤ) (bytes other : String)
      → Change l other (entry d other) (entry (put_chunk l k now owner id offset bytes d).1 other)
  put_changes k now owner offset bytes other =
      elim (put_chunk_outcome l id d k now owner offset bytes) [
        | inl r ↦ rw r unchanged
        | inr (m, part, e, f, s, b, r) ↦
            rw r (with_chunk_changes l id other d m now part bytes (own_id_of m e) e f s b)
      ]

  complete_changes :
      (now : Time) (owner other : String)
      → Change l other (entry d other) (entry (complete_blob l now owner id d).1 other)
  complete_changes now owner other = elim (complete_blob_outcome l id d now owner) [
    | inl r ↦ rw r unchanged
    | inr (m, part, e, f, s, n, c, r) ↦
        rw r (with_blob_changes l id other d m now part (own_id_of m e) e f s n c)
  ]

  cancel_changes :
      (now : Time) (owner other : String)
      → Change l other (entry d other) (entry (cancel_blob l now owner id d).1 other)
  cancel_changes now owner other = elim (cancel_blob_outcome l id d now owner) [
    | inl r ↦ rw r unchanged
    | inr (m, e, s, r) ↦ rw r (without_part_changes l id other d m now (own_id_of m e) e s)
  ]

init_changes :
    (l : Library) (k : Limits) (id : String) (d : Directory)
    → d.metas id ≡ none
    → (now : Time) (owner name media_type checksum : String) (n : ℤ) (other : String)
    → Change l other
        (entry d other)
        (entry (init_blob l k id now owner name media_type checksum n d).1 other)
init_changes l k id d e now owner name media_type checksum n other =
    elim (init_blob_outcome l id d k now owner name media_type checksum n) [
      | inl r ↦ rw r unchanged
      | inr (inl r) ↦ rw r (without_meta_changes l id other d e)
      | inr (inr (f, r)) ↦
          rw r
            (with_initial_changes l id other d now owner name media_type checksum (pos_part n) e f)
    ]

collect_changes :
    (l : Library) (retention : ℤ) (now : Time) (d : Directory) (other : String)
    → Change l other (entry d other) (entry (collect l retention now d) other)
unfolding collect
collect_changes l retention now d other =
    elim (Bool-cases (is_stale l (kept_for l retention) now (read_metadata l other d))) [
      | inl p ↦ rw p removed
      | inr p ↦ rw p unchanged
    ]

-- Every operation makes a change of the files of every identifier.
run_changes :
    (l : Library) (k : Limits) (o : Operation) (d : Directory)
    → IsFresh o d
    → ((id : String) → Sound l id (entry d id))
    → (other : String) → Change l other (entry d other) (entry (run l k o d) other)
unfolding run
run_changes l k (init id now owner name media_type checksum n) d e t other =
    init_changes l k id d e now owner name media_type checksum n other
run_changes l k (put now owner id offset bytes) d e t other =
    put_changes l id d (t id) k now owner offset bytes other
run_changes l k (complete now owner id) d e t other = complete_changes l id d (t id) now owner other
run_changes l k (cancel now owner id) d e t other = cancel_changes l id d (t id) now owner other
run_changes l k (gc retention now) d e t other = collect_changes l retention now d other

-- An operation that begins a blob under a fresh identifier only, or none, keeps the metadata of every
-- identifier true of its files: no more bytes arrived than were announced, a part has the bytes that
-- are counted, and a completed blob has the announced size and checksum.
pub Sound-run :
    (l : Library) (k : Limits) (o : Operation) (d : Directory)
    → IsFresh o d
    → ((id : String) → Sound l id (entry d id))
    → (id : String) → Sound l id (entry (run l k o d) id)
Sound-run l k o d e t id = Sound-Change l id (run_changes l k o d e t id) (t id)

-- Where the metadata is true of the files, every operation, an Init only with an identifier that no
-- metadata has, is a step of the blob of every identifier: it stays, begins, takes bytes at its end within its size, is sealed with its size and checksum, is
-- dropped while it arrives, or is forgotten. So these operations never change the bytes of a sealed blob but by forgetting it.
pub run-Step :
    (l : Library) (k : Limits) (o : Operation) (d : Directory)
    → IsFresh o d
    → ((id : String) → Sound l id (entry d id))
    → (id : String) → Step l (view d id) (view (run l k o d) id)
unfolding view
run-Step l k o d e t id = Step-Change l id (run_changes l k o d e t id) (t id)
