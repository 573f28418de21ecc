-- ===== src/Store/Nonces/Laws.antt =====
-- A claimed nonce is refused until its claim expires.
use snw_agent_link.Prelude.{
  ◌≡◌, Bool, true, false, some, List, [], ◌∷◌, String, arith, same_refl, ◌<◌, ◌&&◌, All,
}
use snw_agent_link.Errors.{ok}
use snw_agent_link.Time.{Time, millis, stored, millis-from_millis}
use snw_agent_link.Table.{select_one, delete}
use snw_agent_link.Table.Laws.{
  select_one-insert, taken-select_one, select_one-taken, select_one-delete, select_one-delete-none,
}
use snw_agent_link.Store.Tables.{Database, Db, NonceRow}
use snw_agent_link.Store.Nonces.{nonce_key, has_expired, claim_replay_nonce}

-- The arguments of a call.
pub record Claim : Type 0 where
  pub local_agent_id : String
  pub remote_agent_id : String
  pub nonce : String
  pub expires_at : Time
  pub now : Time

unfoldable pub run_claim : Claim → Db Bool
run_claim c = claim_replay_nonce c.local_agent_id c.remote_agent_id c.nonce c.expires_at c.now

unfoldable pub run_claims : List Claim → Database → Database
run_claims [] d = d
run_claims (c ∷ cs) d = run_claims cs (run_claim c d).1

-- The row of a claim that has not expired.
pub record IsHeld (local remote nonce : String) (expires_at : Time) (d : Database) : Type 0 where
  pub row : NonceRow
  pub found : select_one (nonce_key local remote nonce) d.nonces ≡ some row
  pub expiry : millis row.expires_at ≡ millis expires_at

module _ (local remote nonce : String) (expires_at : Time) where
  pub claimed-IsHeld :
      (now : Time) (d : Database)
      → (claim_replay_nonce local remote nonce expires_at now d).0 ≡ ok true
      → IsHeld local remote nonce expires_at
          (claim_replay_nonce local remote nonce expires_at now d).1
  unfolding claim_replay_nonce nonce_key
  claimed-IsHeld now d h =
      let key = nonce_key local remote nonce in
      let kept = delete (λ row. key row && has_expired now row) d.nonces in
      let row : NonceRow = record {
        local_agent_id = local;
        remote_agent_id = remote;
        nonce = nonce;
        expires_at = stored expires_at;
        created_at = stored now;
      } in
      record {
        row = row;
        found = ground (
          arith,
          taken-select_one key kept,
          select_one-insert key row kept,
          same_refl local,
          same_refl remote,
          same_refl nonce,
        );
        expiry = millis-from_millis (millis expires_at);
      }

  pub IsHeld-run_claim :
      (c : Claim) (d : Database)
      → millis c.now < millis expires_at
      → IsHeld local remote nonce expires_at d
      → IsHeld local remote nonce expires_at (run_claim c d).1
  unfolding run_claim claim_replay_nonce
  IsHeld-run_claim c d early held =
      let key = nonce_key local remote nonce in
      let other = nonce_key c.local_agent_id c.remote_agent_id c.nonce in
      let gone = λ (row : NonceRow). other row && has_expired c.now row in
      let row : NonceRow = record {
        local_agent_id = c.local_agent_id;
        remote_agent_id = c.remote_agent_id;
        nonce = c.nonce;
        expires_at = stored c.expires_at;
        created_at = stored c.now;
      } in
      record {
        row = held.row;
        found = ground (
          arith,
          held.found,
          held.expiry,
          select_one-delete key gone held.row d.nonces,
          select_one-insert key row (delete gone d.nonces),
        );
        expiry = held.expiry;
      }

  pub IsHeld-claim_replay_nonce :
      (later now : Time) (d : Database)
      → millis now < millis expires_at
      → IsHeld local remote nonce expires_at d
      → (claim_replay_nonce local remote nonce later now d).0 ≡ ok false
  unfolding claim_replay_nonce
  IsHeld-claim_replay_nonce later now d early held =
      let key = nonce_key local remote nonce in
      let gone = λ (row : NonceRow). key row && has_expired now row in
      ground (
        arith,
        held.found,
        held.expiry,
        select_one-delete key gone held.row d.nonces,
        taken-select_one key (delete gone d.nonces),
      )

  IsHeld-run_claims :
      (cs : List Claim) (d : Database)
      → All (λ c. millis c.now < millis expires_at) cs
      → IsHeld local remote nonce expires_at d
      → IsHeld local remote nonce expires_at (run_claims cs d)
  unfolding run_claims
  IsHeld-run_claims [] d early held = held
  IsHeld-run_claims (c ∷ cs) d early held =
      IsHeld-run_claims cs (run_claim c d).1 early.1 (IsHeld-run_claim c d early.0 held)

  -- Once a nonce is claimed, another claim of it is refused at every time whose millisecond is
  -- before the millisecond at which the first claim expires, whatever claims were made in between,
  -- also before that time.
  pub claim_replay_nonce-once :
      (now later again : Time) (cs : List Claim) (d : Database)
      → (claim_replay_nonce local remote nonce expires_at now d).0 ≡ ok true
      → All (λ c. millis c.now < millis expires_at) cs
      → millis again < millis expires_at
      → (claim_replay_nonce local remote nonce later again
          (run_claims cs (claim_replay_nonce local remote nonce expires_at now d).1)).0
        ≡ ok false
  claim_replay_nonce-once now later again cs d h early last =
      IsHeld-claim_replay_nonce later again _ last
        (IsHeld-run_claims cs _ early (claimed-IsHeld now d h))

  -- A nonce whose every claim has expired may be claimed.
  pub claim_replay_nonce-free :
      (now : Time) (d : Database)
      → All
          (λ row.
            (nonce_key local remote nonce row && has_expired now row)
            ≡ nonce_key local remote nonce row)
          d.nonces
      → (claim_replay_nonce local remote nonce expires_at now d).0 ≡ ok true
  unfolding claim_replay_nonce
  claim_replay_nonce-free now d old =
      let key = nonce_key local remote nonce in
      let gone = λ (row : NonceRow). key row && has_expired now row in
      ground (
        arith,
        select_one-delete-none key gone d.nonces old,
        select_one-taken key (delete gone d.nonces),
      )
