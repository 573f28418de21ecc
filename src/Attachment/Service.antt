-- ===== src/Attachment/Service.antt =====
-- internal/attachment/service.go. The directory holds three files for a blob, by its identifier: the
-- metadata, the part that is being uploaded, and the blob when it is complete. Reading back what
-- writeMetadata wrote gives the same metadata, and no file operation fails but for a file that is
-- missing or in the way. The mutex makes each operation a step of its own.
use snw_agent_link.Prelude.{
  ℕ, ◌+◌, ◌-◌, Bool, true, false, ◌||◌, not, Option, none, some, String, same, is_empty, size, ltb,
  leb, ◌==◌, if◌then◌else◌, ◌*◌,
}
use snw_agent_link.Prelude.Int.{ℤ, pos, negsuc, is_negative, pos_part}
use snw_agent_link.Prelude.Bytes.{suffix_of, padded, write_at}
use snw_agent_link.Errors.{
  Result, ok, err, refused, attachment_missing, owner_mismatch, invalid_offset, quota_exceeded,
  bad_checksum, wrong_attachment_state,
}
use snw_agent_link.Exec.{Exec, query, reject_if, ◌>>=◌, ◌>>◌}
use snw_agent_link.Time.{Time, Duration, minute, before}
use snw_agent_link.Model.{AttachmentGrant}

pub data BlobState : Type 0 where
  uploading completed cancelled : BlobState

abbrev pub blob_state_eq : BlobState → BlobState → Bool
blob_state_eq uploading uploading = true
blob_state_eq completed completed = true
blob_state_eq cancelled cancelled = true
blob_state_eq _ _ = false

-- Init writes no negative size, and the others do not change it.
pub record Metadata : Type 0 where
  pub blob_id : String
  pub owner_id : String
  pub name : String
  pub media_type : String
  pub size_of_blob : ℕ
  pub received : ℕ
  pub checksum : String
  pub state : BlobState
  pub created_at : Time
  pub updated_at : Time

-- crypto/sha256 with encoding/hex, hex.DecodeString, strings.ToLower and filepath.Base.
pub record Library : Type 0 where
  pub sha256_hex : String → String
  pub is_hex : String → Bool
  pub to_lower : String → String
  pub base_name : String → String

-- The directory, by the names of its files without their extensions.
pub record Directory : Type 0 where
  pub metas : String → Option Metadata
  pub parts : String → Option String
  pub blobs : String → Option String

abbrev pub Files : Type 0 → Type 0
Files A = Exec Directory A

-- os.WriteFile, os.Remove
unfoldable pub put_file : {A : Type 0} → String → Option A → (String → Option A) → String → Option A
put_file name content files other = if same other name then content else files other

pub record Limits : Type 0 where
  pub max_bytes : ℕ
  pub chunk_size : ℕ

-- NewService: the limits that are not positive have their defaults.
unfoldable pub new_limits : ℤ → ℤ → Limits
new_limits max_bytes chunk_size = record {
  max_bytes = if pos_part max_bytes == 0 then 1073741824 else pos_part max_bytes;
  chunk_size = if pos_part chunk_size == 0 then 4194304 else pos_part chunk_size;
}

unfoldable pub write_metadata : Metadata → Directory → Directory
unfolding put_file
write_metadata m d = record d { metas = put_file m.blob_id (some m) d.metas }

module _ (l : Library) where
  unfoldable pub read_metadata : String → Directory → Result Metadata
  read_metadata id d =
      if is_empty id || not (same (l.base_name id) id)
      then err attachment_missing
      else elim (d.metas id) [ some m ↦ ok m | none ↦ err attachment_missing ]

  -- readMetadata, and the test of the owner.
  unfoldable pub owned : String → String → Directory → Result Metadata
  unfolding read_metadata
  owned owner id d = elim (read_metadata id d) [
    | ok m ↦ if same m.owner_id owner then ok m else err owner_mismatch
    | err e ↦ err e
  ]

  abbrev pub initial : String → Time → String → String → String → String → ℕ → Metadata
  initial id now owner name media_type checksum n = record {
    blob_id = id;
    owner_id = owner;
    name = l.base_name name;
    media_type = media_type;
    size_of_blob = n;
    received = 0;
    checksum = l.to_lower checksum;
    state = uploading;
    created_at = now;
    updated_at = now;
  }

  -- The part is created with O_EXCL; where it is there already the metadata goes.
  create_part : Metadata → Files Metadata
  unfolding put_file write_metadata
  create_part m d = elim (d.parts m.blob_id) [
    | some _ ↦ (err refused, record d { metas = put_file m.blob_id none d.metas })
    | none ↦
        let d' = write_metadata m d in
        (ok m, record d' { parts = put_file m.blob_id (some "") d.parts })
  ]

  unfoldable pub init_blob :
      Limits → String → Time → String → String → String → String → ℤ → Files Metadata
  unfolding create_part
  init_blob k id now owner name media_type checksum n = do
    reject_if (is_empty owner || (is_empty name || (is_negative n || ltb k.max_bytes (pos_part n))))
        quota_exceeded
    reject_if (not (size checksum == 64)) refused
    reject_if (not (l.is_hex checksum)) refused
    create_part (initial id now owner name media_type checksum (pos_part n))

  abbrev pub offset_is : ℤ → ℕ → Bool
  offset_is (pos n) m = n == m
  offset_is (negsuc n) m = false

  -- OpenFile and WriteAt of the part.
  write_part : String → ℕ → String → Files (Unit {0})
  unfolding put_file
  write_part id offset bytes d = elim (d.parts id) [
    | none ↦ (err refused, d)
    | some part ↦
        (ok tt, record d { parts = put_file id (some (write_at bytes offset part)) d.parts })
  ]

  save : Metadata → Files Metadata
  unfolding write_metadata
  save m d = (ok m, write_metadata m d)

  unfoldable pub put_chunk : Limits → Time → String → String → ℤ → String → Files Metadata
  unfolding write_part save
  put_chunk k now owner id offset bytes = do
    m ← query (owned owner id)
    reject_if (not (blob_state_eq m.state uploading)) wrong_attachment_state
    reject_if (not (offset_is offset m.received)) invalid_offset
    reject_if (ltb k.chunk_size (size bytes) || ltb m.size_of_blob (m.received + size bytes))
        quota_exceeded
    write_part id m.received bytes
    save (record m { received = m.received + size bytes; updated_at = now })

  -- `fileDigest`
  unfoldable pub file_digest : String → Directory → Result String
  file_digest id d = elim (d.parts id) [ some part ↦ ok (l.sha256_hex part) | none ↦ err refused ]

  -- os.Rename of the part to the blob.
  rename_part : String → Files (Unit {0})
  unfolding put_file
  rename_part id d = elim (d.parts id) [
    | none ↦ (err refused, d)
    | some part ↦ (
      ok tt,
      record d { parts = put_file id none d.parts; blobs = put_file id (some part) d.blobs },
    )
  ]

  unfoldable pub complete_blob : Time → String → String → Files Metadata
  unfolding file_digest rename_part save
  complete_blob now owner id = do
    m ← query (owned owner id)
    reject_if (not (blob_state_eq m.state uploading) || not (m.received == m.size_of_blob))
        wrong_attachment_state
    digest ← query (file_digest id)
    reject_if (not (same digest m.checksum)) bad_checksum
    rename_part id
    save (record m { state = completed; updated_at = now })

  unfoldable pub blob_status : String → String → Directory → Result Metadata
  unfolding owned
  blob_status owner id d = owned owner id d

  -- 15 minutes by default, a day at most.
  unfoldable pub grant_lifetime : ℤ → Duration
  grant_lifetime ttl =
      if pos_part ttl == 0
      then 15 * minute
      else if ltb (1440 * minute) (pos_part ttl)
      then 1440 * minute
      else pos_part ttl

  unfoldable pub grant_blob :
      String → Time → String → String → String → String → ℤ → Directory → Result AttachmentGrant
  unfolding blob_status
  grant_blob grant_id now owner id target context ttl d = elim (blob_status owner id d) [
    | err e ↦ err e
    | ok m ↦
        if not (blob_state_eq m.state completed) || (is_empty target || is_empty context)
        then err wrong_attachment_state
        else ok (record {
          grant_id = grant_id;
          blob_id = m.blob_id;
          blob_uri = "";
          owner_agent_id = owner;
          target_agent_id = target;
          context_id = context;
          digest = m.checksum;
          size = pos m.size_of_blob;
          expires_at = now + grant_lifetime ttl;
          revoked_at = none;
          created_at = now;
          updated_at = now;
        })
  ]

  -- The first and the last byte of a range that may be read.
  unfoldable pub range_of : Limits → ℕ → ℤ → ℤ → Option (ℕ × ℕ)
  range_of k n (negsuc a) end = none
  range_of k n (pos a) (negsuc b) = none
  range_of k n (pos a) (pos b) =
      if ltb b a || (leb n b || ltb k.chunk_size (b - a + 1)) then none else some (a, b)

  -- Open and ReadAt; what the blob does not have stays zero.
  read_blob : Metadata → String → Option (ℕ × ℕ) → Directory → Result (Metadata × String)
  read_blob m id none d = err invalid_offset
  read_blob m id (some (a, b)) d = elim (d.blobs id) [
    | none ↦ err attachment_missing
    | some blob ↦ ok (m, padded (b - a + 1) (suffix_of a blob))
  ]

  unfoldable pub read_range :
      Limits → String → String → ℤ → ℤ → Directory → Result (Metadata × String)
  unfolding read_blob
  read_range k owner id start end d = elim (owned owner id d) [
    | err e ↦ err e
    | ok m ↦
        if not (blob_state_eq m.state completed)
        then err wrong_attachment_state
        else read_blob m id (range_of k m.size_of_blob start end) d
  ]

  unfoldable pub cancel_blob : Time → String → String → Files Metadata
  unfolding save put_file
  cancel_blob now owner id = do
    m ← query (owned owner id)
    reject_if (blob_state_eq m.state completed) wrong_attachment_state
    λ d.
        save (record m { state = cancelled; updated_at = now })
          (record d { parts = put_file id none d.parts })

  -- A file is collected when its metadata can be read and was not changed after the cutoff.
  unfoldable pub is_stale : Duration → Time → Result Metadata → Bool
  is_stale retention now (ok m) = not (before now (m.updated_at + retention))
  is_stale retention now (err e) = false

  -- A day by default.
  abbrev pub kept_for : ℤ → Duration
  kept_for retention = if pos_part retention == 0 then 1440 * minute else pos_part retention

  -- GC: the loop goes once through the metadata, each under its own identifier, and removes the three
  -- files of that identifier; so it is written for one identifier.
  unfoldable pub collect : ℤ → Time → Directory → Directory
  unfolding read_metadata is_stale
  collect retention now d =
      let stale = λ (id : String). is_stale (kept_for retention) now (read_metadata id d) in
      record {
        metas = λ id. if stale id then none else d.metas id;
        parts = λ id. if stale id then none else d.parts id;
        blobs = λ id. if stale id then none else d.blobs id;
      }
