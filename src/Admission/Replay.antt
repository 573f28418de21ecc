-- ===== src/Admission/Replay.antt =====
-- A replayed envelope is refused for as long as its time window lasts.
use snw_agent_link.Prelude.{
  ◌+◌, ◌<◌, ◌≡◌, ◌≢◌, ◌∙◌, Bool, List, [], ◌∷◌, String, arith, inl, inr, All, ◌⊎◌,
}
use snw_agent_link.Errors.{ok}
use snw_agent_link.Exec.{◌>>=◌}
use snw_agent_link.Time.{Time, Duration, millis, from_millis}
use snw_agent_link.Platform.{Platform}
use snw_agent_link.Store.Tables.{Database, Db}
use snw_agent_link.Store.Nonces.{claim_replay_nonce}
use snw_agent_link.Store.Nonces.Laws.{
  Claim, run_claim, IsHeld, claimed-IsHeld, IsHeld-run_claim, IsHeld-claim_replay_nonce,
}
use snw_agent_link.Store.Audit.{append_audit_entry}
use snw_agent_link.Admission.{Input, Moment, admit, authorize}
use snw_agent_link.Admission.Laws.{admit-IsAdmitted, authorize-admit}

-- The end of the time window of an envelope.
abbrev pub expiry : Duration → Input → Time
expiry skew input = from_millis input.envelope.issued_at + skew

abbrev claim_of : Duration → Moment → Input → Claim
claim_of skew t input = record {
  local_agent_id = input.local_agent_id;
  remote_agent_id = input.envelope.agent_id;
  nonce = input.envelope.nonce;
  expires_at = expiry skew input;
  now = t.now;
}

abbrev claiming : Duration → Moment → Input → Db Bool
claiming skew t input =
    claim_replay_nonce input.local_agent_id input.envelope.agent_id input.envelope.nonce
      (expiry skew input) t.now

IsHeld-nonces :
    (l r n : String) (e : Time) (d d' : Database)
    → d'.nonces ≡ d.nonces
    → IsHeld l r n e d
    → IsHeld l r n e d'
IsHeld-nonces l r n e d d' same_nonces h = record {
  row = h.row;
  found = rw same_nonces h.found;
  expiry = h.expiry;
}

module _ (p : Platform) (skew : Duration) (t : Moment) (input : Input) (d : Database) where
  admit-nonces :
      ((admit p skew t input d).1.nonces ≡ d.nonces)
      ⊎ ((admit p skew t input d).1.nonces ≡ (claiming skew t input d).1.nonces)
  unfolding admit ◌>>=◌
  admit-nonces = ground arith

  admitted-nonces :
      (admit p skew t input d).0 ≡ ok tt
      → (admit p skew t input d).1.nonces ≡ (claiming skew t input d).1.nonces
  unfolding admit ◌>>=◌
  admitted-nonces h = ground arith

  authorize-nonces : (authorize p skew t input d).1.nonces ≡ (admit p skew t input d).1.nonces
  unfolding authorize append_audit_entry ◌>>=◌
  authorize-nonces = ground arith

  held :
      (l r n : String) (e : Time)
      → millis t.now < millis e
      → IsHeld l r n e d
      → IsHeld l r n e (claiming skew t input d).1
  unfolding run_claim
  held l r n e early h = IsHeld-run_claim l r n e (claim_of skew t input) d early h

  authorize-IsHeld :
      (l r n : String) (e : Time)
      → millis t.now < millis e
      → IsHeld l r n e d
      → IsHeld l r n e (authorize p skew t input d).1
  authorize-IsHeld l r n e early h =
      IsHeld-nonces l r n e (admit p skew t input d).1 (authorize p skew t input d).1
        authorize-nonces
        (elim admit-nonces [
          | inl unchanged ↦ IsHeld-nonces l r n e d (admit p skew t input d).1 unchanged h
          | inr claimed ↦
              IsHeld-nonces l r n e (claiming skew t input d).1 (admit p skew t input d).1 claimed
                (held l r n e early h)
        ])

  admitted-IsHeld :
      (authorize p skew t input d).0 ≡ ok tt
      → IsHeld input.local_agent_id input.envelope.agent_id input.envelope.nonce
          (expiry skew input)
          (authorize p skew t input d).1
  admitted-IsHeld h =
      let admitted = authorize-admit p skew t input d h in
      IsHeld-nonces input.local_agent_id input.envelope.agent_id input.envelope.nonce
        (expiry skew input) (claiming skew t input d).1 (authorize p skew t input d).1
        (authorize-nonces ∙ admitted-nonces admitted)
        (claimed-IsHeld input.local_agent_id input.envelope.agent_id input.envelope.nonce
          (expiry skew input) t.now d (admit-IsAdmitted p skew t input d admitted).claimed)

  replay-refused :
      (e : Time)
      → millis t.now < millis e
      → IsHeld input.local_agent_id input.envelope.agent_id input.envelope.nonce e d
      → (authorize p skew t input d).0 ≢ ok tt
  replay-refused e early held h =
      let a = admit-IsAdmitted p skew t input d (authorize-admit p skew t input d h) in
      let refused =
        IsHeld-claim_replay_nonce input.local_agent_id input.envelope.agent_id input.envelope.nonce
          e (expiry skew input) t.now d early held in
      ground (arith, a.claimed, refused)

module _ (p : Platform) (skew : Duration) where
  unfoldable pub authorize_all : List (Moment × Input) → Database → Database
  authorize_all [] d = d
  authorize_all ((t, input) ∷ calls) d = authorize_all calls (authorize p skew t input d).1

  authorize_all-IsHeld :
      (l r n : String) (e : Time) (calls : List (Moment × Input)) (d : Database)
      → All (λ call. millis call.0.now < millis e) calls
      → IsHeld l r n e d
      → IsHeld l r n e (authorize_all calls d)
  unfolding authorize_all
  authorize_all-IsHeld l r n e [] d early h = h
  authorize_all-IsHeld l r n e ((t, input) ∷ calls) d early h =
      authorize_all-IsHeld l r n e calls (authorize p skew t input d).1 early.1
        (authorize-IsHeld p skew t input d l r n e early.0 h)

  -- Once an envelope was let in, no call lets in one of the same sender with the same nonce for the
  -- same agent, as long as the clock reads a millisecond before the end of the first one's time
  -- window, in that call and in all those in between.
  pub authorize-once :
      (t t' : Moment) (input input' : Input) (calls : List (Moment × Input)) (d : Database)
      → (authorize p skew t input d).0 ≡ ok tt
      → input'.local_agent_id ≡ input.local_agent_id
      → input'.envelope.agent_id ≡ input.envelope.agent_id
      → input'.envelope.nonce ≡ input.envelope.nonce
      → All (λ call. millis call.0.now < millis (expiry skew input)) calls
      → millis t'.now < millis (expiry skew input)
      → (authorize p skew t' input' (authorize_all calls (authorize p skew t input d).1)).0 ≢ ok tt
  authorize-once t t' input input' calls d h same_local same_remote same_nonce early last =
      replay-refused p skew t' input' (authorize_all calls (authorize p skew t input d).1)
        (expiry skew input) last
        (rw (same_local, same_remote, same_nonce)
          (authorize_all-IsHeld input.local_agent_id input.envelope.agent_id input.envelope.nonce
            (expiry skew input) calls (authorize p skew t input d).1 early
            (admitted-IsHeld p skew t input d h)))
