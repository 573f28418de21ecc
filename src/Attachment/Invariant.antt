-- ===== src/Attachment/Invariant.antt =====
-- The three files of an identifier, and what an operation may make of them.
use snw_agent_link.Prelude.{
  ℕ, ◌+◌, ◌≤◌, ◌≡◌, refl, sym, Option, none, some, String, ◌<>◌, size, arith, ◌∙◌, ap, ◌⊎◌, inl,
  inr,
}
use snw_agent_link.Prelude.Bytes.{write_at, write_at_end, size-append}
use snw_agent_link.Time.{Time}
use snw_agent_link.Attachment.Service.{
  BlobState, uploading, completed, cancelled, Metadata, Library, Directory, initial,
}
use snw_agent_link.Attachment.Abstract.{
  Blob, Step, stay, start, arrive, seal, drop, forget, content, blob_of,
}
use mathlib.Core.Path.{subst}

pub record Entry : Type 0 where
  pub meta : Option Metadata
  pub part : Option String
  pub blob : Option String

abbrev pub entry : Directory → String → Entry
entry d id = record { meta = d.metas id; part = d.parts id; blob = d.blobs id }

-- What the files of a blob hold, by its state.
abbrev pub Held : Library → BlobState → Metadata → Option String → Option String → Type 0
Held l uploading m part blob = (bytes : String) × (part ≡ some bytes) × (size bytes ≡ m.received)
Held l completed m part blob =
    (bytes : String) × (blob ≡ some bytes)
    × (size bytes ≡ m.size_of_blob)
    × (l.sha256_hex bytes ≡ m.checksum)
Held l cancelled m part blob = Unit

pub record IsTrue (l : Library) (id : String) (m : Metadata) (part blob : Option String)
    : Type 0 where
  pub own_id : m.blob_id ≡ id
  pub bounded : m.received ≤ m.size_of_blob
  pub held : Held l m.state m part blob

abbrev pub SoundAt : Library → String → Option Metadata → Option String → Option String → Type 0
SoundAt l id none part blob = Unit
SoundAt l id (some m) part blob = IsTrue l id m part blob

-- The metadata of an identifier is true of its files.
abbrev pub Sound : Library → String → Entry → Type 0
Sound l id e = SoundAt l id e.meta e.part e.blob

abbrev pub view_of : Entry → Blob
view_of e = blob_of e.meta e.part e.blob

-- What one operation makes of the files of one identifier.
pub data Change (l : Library) (id : String) : Entry → Entry → Type 0 where
  unchanged : {e : Entry} → Change l id e e
  created :
      (now : Time) (owner name media_type checksum : String) (n : ℕ) (blob : Option String)
      → Change l id
          (record { meta = none; part = none; blob = blob })
          (record {
            meta = some (initial l id now owner name media_type checksum n);
            part = some "";
            blob = blob;
          })
  taken :
      (m : Metadata) (now : Time) (part bytes : String) (blob : Option String)
      → m.state ≡ uploading
      → m.received + size bytes ≤ m.size_of_blob
      → Change l id
          (record { meta = some m; part = some part; blob = blob })
          (record {
            meta = some (record m { received = m.received + size bytes; updated_at = now });
            part = some (write_at bytes m.received part);
            blob = blob;
          })
  finished :
      (m : Metadata) (now : Time) (part : String) (blob : Option String)
      → m.state ≡ uploading
      → m.received ≡ m.size_of_blob
      → l.sha256_hex part ≡ m.checksum
      → Change l id
          (record { meta = some m; part = some part; blob = blob })
          (record {
            meta = some (record m { state = completed; updated_at = now });
            part = none;
            blob = some part;
          })
  stopped :
      (m : Metadata) (now : Time) (part blob : Option String)
      → (m.state ≡ uploading) ⊎ (m.state ≡ cancelled)
      → Change l id
          (record { meta = some m; part = part; blob = blob })
          (record {
            meta = some (record m { state = cancelled; updated_at = now });
            part = none;
            blob = blob;
          })
  removed : {e : Entry} → Change l id e (record { meta = none; part = none; blob = none })

module _ (l : Library) (id : String) where
  -- The bytes of a part that is being uploaded.
  held_part :
      (m : Metadata) (part : String) (blob : Option String)
      → m.state ≡ uploading
      → IsTrue l id m (some part) blob
      → size part ≡ m.received
  held_part m part blob s t =
      let (bytes, e, n) = subst (λ s. Held l s m (some part) blob) s t.held in
      ap (λ p. size (content p)) e ∙ n

  write_at_part :
      (m : Metadata) (part bytes : String) (blob : Option String)
      → m.state ≡ uploading
      → IsTrue l id m (some part) blob
      → write_at bytes m.received part ≡ part <> bytes
  write_at_part m part bytes blob s t =
      rw (sym (held_part m part blob s t)) (write_at_end bytes part)

  -- A change keeps the metadata true of the files.
  pub Sound-Change : {e f : Entry} → Change l id e f → Sound l id e → Sound l id f
  unfolding size
  Sound-Change unchanged t = t
  Sound-Change (created now owner name media_type checksum n blob) t = record {
    own_id = refl;
    bounded = omega arith;
    held = ("", refl, refl);
  }
  Sound-Change (taken m now part bytes blob s b) t = record {
    own_id = t.own_id;
    bounded = b;
    held =
        subst
          (λ s.
            Held l s (record m { received = m.received + size bytes; updated_at = now })
              (some (write_at bytes m.received part)) blob)
          (sym s)
          (
            write_at bytes m.received part,
            refl,
            rw (write_at_part m part bytes blob s t)
                (omega (arith, size-append part bytes, held_part m part blob s t)),
          );
  }
  Sound-Change (finished m now part blob s n c) t = record {
    own_id = t.own_id;
    bounded = t.bounded;
    held = (part, refl, omega (arith, held_part m part blob s t, n), c);
  }
  Sound-Change (stopped m now part blob s) t = record {
    own_id = t.own_id;
    bounded = t.bounded;
    held = tt;
  }
  Sound-Change removed t = tt

  -- A change is a step of the blob.
  pub Step-Change : {e f : Entry} → Change l id e f → Sound l id e → Step l (view_of e) (view_of f)
  Step-Change unchanged t = stay
  Step-Change (created now owner name media_type checksum n blob) t =
      start owner n (l.to_lower checksum)
  Step-Change (taken m now part bytes blob s b) t =
      rw (s, write_at_part m part bytes blob s t)
        (arrive m.owner_id m.size_of_blob m.checksum part bytes
          (omega (arith, size-append part bytes, held_part m part blob s t, b)))
  Step-Change (finished m now part blob s n c) t = rw s (
      seal m.owner_id m.size_of_blob m.checksum part (omega (arith, held_part m part blob s t, n))
        c)
  Step-Change (stopped m now part blob (inl s)) t =
      rw s (drop m.owner_id m.size_of_blob m.checksum (content part))
  Step-Change (stopped m now part blob (inr s)) t = rw s stay
  Step-Change {e} removed t = forget (view_of e)
