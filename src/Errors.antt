-- ===== src/Errors.antt =====
-- Errors as values. A constructor stands for each sentinel error of the packages; `refused` stands
-- for an error that the code makes on the spot, `constraint` for the one that SQLite returns when
-- an INSERT meets a primary key or UNIQUE column that is taken. `fmt.Errorf("…%w", err)` is `err`,
-- since the program tells errors apart by `errors.Is`.

use snw_agent_link.Prelude.{◌≡◌, refl, ◌⊎◌, inl, inr}

pub data Error : Type 0 where
  -- internal/store
  not_found invalid_state identity_conflict grant_denied grant_expired grant_revoked : Error
  -- internal/pairing
  invite_consumed invite_expired invalid_secret identity_mismatch invalid_transition : Error
  contact_blocked invalid_envelope : Error
  -- internal/admission
  contact_not_active host_fingerprint_mismatch agent_fingerprint_mismatch : Error
  outside_time_window replay_detected : Error
  -- internal/identity
  agent_id_mismatch key_mismatch invalid_signature : Error
  -- internal/secure
  unsealable : Error
  -- internal/capability, internal/registration
  wrong_agent wrong_generation session_expired wrong_method invalid_token : Error
  -- internal/attachment
  attachment_missing owner_mismatch invalid_offset quota_exceeded bad_checksum : Error
  wrong_attachment_state bad_range blob_signature blob_digest : Error
  -- internal/transport
  missing_signature digest_mismatch sse_cursor sse_hash_chain sse_signature : Error
  -- SQLite, and the rest
  constraint refused undelivered : Error

pub data Result (A : Type 0) : Type 0 where
  ok : A → Result A
  err : Error → Result A

-- To split on a result and keep the equation.
pub Result-cases :
    {A : Type 0} (r : Result A) → ((e : Error) × (r ≡ err e)) ⊎ ((a : A) × (r ≡ ok a))
Result-cases (ok a) = inr (a, refl)
Result-cases (err e) = inl (e, refl)
