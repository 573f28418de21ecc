-- ===== src/Attachment/Abstract.antt =====
-- What a blob is to those who use the service: nothing, bytes that arrive, or bytes that are sealed.
-- The files and the counters are forgotten.
use snw_agent_link.Prelude.{ℕ, ◌≤◌, ◌≡◌, Option, none, some, String, ◌<>◌, size}
use snw_agent_link.Attachment.Service.{
  BlobState, uploading, completed, cancelled, Metadata, Library, Directory,
}

-- `receiving owner n checksum bytes` expects `n` bytes of the checksum.
pub data Blob : Type 0 where
  absent dropped : Blob
  receiving : String → ℕ → String → String → Blob
  sealed : String → String → String → Blob

-- What may happen to a blob.
pub data Step (l : Library) : Blob → Blob → Type 0 where
  stay : {b : Blob} → Step l b b
  start : (owner : String) (n : ℕ) (sum : String) → Step l absent (receiving owner n sum "")
  arrive :
      (owner : String) (n : ℕ) (sum bytes more : String)
      → size (bytes <> more) ≤ n
      → Step l (receiving owner n sum bytes) (receiving owner n sum (bytes <> more))
  seal :
      (owner : String) (n : ℕ) (sum bytes : String)
      → size bytes ≡ n
      → l.sha256_hex bytes ≡ sum
      → Step l (receiving owner n sum bytes) (sealed owner sum bytes)
  drop :
      (owner : String) (n : ℕ) (sum bytes : String) → Step l (receiving owner n sum bytes) dropped
  forget : (b : Blob) → Step l b absent

abbrev pub content : Option String → String
content none = ""
content (some bytes) = bytes

abbrev pub blob_of_state : BlobState → Metadata → Option String → Option String → Blob
blob_of_state uploading m part blob = receiving m.owner_id m.size_of_blob m.checksum (content part)
blob_of_state completed m part blob = sealed m.owner_id m.checksum (content blob)
blob_of_state cancelled m part blob = dropped

abbrev pub blob_of : Option Metadata → Option String → Option String → Blob
blob_of none part blob = absent
blob_of (some m) part blob = blob_of_state m.state m part blob

-- The blob of an identifier.
unfoldable pub view : Directory → String → Blob
view d id = blob_of (d.metas id) (d.parts id) (d.blobs id)
