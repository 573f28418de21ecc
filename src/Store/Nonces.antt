-- ===== src/Store/Nonces.antt =====
-- ClaimReplayNonce of internal/store/store.go.
pub mod Laws
use snw_agent_link.Prelude.{Bool, true, false, ◌&&◌, String, same, leb, if◌then◌else◌}
use snw_agent_link.Errors.{ok}
use snw_agent_link.Time.{Time, millis, stored}
use snw_agent_link.Table.{delete, taken, insert}
use snw_agent_link.Store.Tables.{NonceRow, Db}

unfoldable pub nonce_key : String → String → String → NonceRow → Bool
nonce_key local remote nonce row =
    same row.local_agent_id local && (same row.remote_agent_id remote && same row.nonce nonce)

-- `expires_at <= ?`
abbrev pub has_expired : Time → NonceRow → Bool
has_expired now row = leb (millis row.expires_at) (millis now)

-- DELETE of the claim if it has expired, then INSERT OR IGNORE; the result is RowsAffected == 1.
-- No statement of the transaction can fail but for the engine, so it always commits.
unfoldable pub claim_replay_nonce : String → String → String → Time → Time → Db Bool
claim_replay_nonce local remote nonce expires_at now d =
    let key = nonce_key local remote nonce in
    let kept = delete (λ row. key row && has_expired now row) d.nonces in
    let row : NonceRow = record {
      local_agent_id = local;
      remote_agent_id = remote;
      nonce = nonce;
      expires_at = stored expires_at;
      created_at = stored now;
    } in
    if taken key kept
    then (ok false, record d { nonces = kept })
    else (ok true, record d { nonces = insert row kept })
